-- ===== src/Http.antt =====
-- The parts of net/http, net and net/url that the handlers share: headers, responses, and what an
-- upstream server does. A header is a list of names with their values, whose names are compared in
-- lower case.
pub mod Lookup
use proxykit.Prelude.{ℕ, not, ◌&&◌, ◌||◌, Option, none, some, List, [], ◌∷◌, if◌then◌else◌, ◌==◌}
use proxykit.Prelude.Text.{Bytes, codes, equal_fold, has_byte, has_prefix, before_last}

abbrev pub Header : Type 0
Header = List (Bytes × List Bytes)

-- `Header.Get`: the first value of a name, or the empty text.
unfoldable pub header_get : Bytes → Header → Bytes
header_get name [] = []
header_get name ((k, []) ∷ h) = if equal_fold k name then [] else header_get name h
header_get name ((k, v ∷ vs) ∷ h) = if equal_fold k name then v else header_get name h

-- `Header.Del`.
unfoldable pub header_del : Bytes → Header → Header
header_del name [] = []
header_del name ((k, vs) ∷ h) =
    if equal_fold k name then header_del name h else (k, vs) ∷ header_del name h

-- `Header.Set`.
unfoldable pub header_set : Bytes → Bytes → Header → Header
header_set name v h = (name, v ∷ []) ∷ header_del name h

pub record Response : Type 0 where
  pub status : ℕ
  pub header : Header
  pub body : Bytes

-- What a request to the upstream server gives.
pub data Upstream : Type 0 where
  unreachable : Upstream
  responds : Response → Upstream

-- `http.Error`: a status with a text.
unfoldable pub http_error : ℕ → Bytes → Response
http_error status text = record { status = status; header = []; body = text }

-- The parts of a URL that are checked: the scheme and the host without its port.
pub record ParsedUrl : Type 0 where
  pub scheme : Bytes
  pub hostname : Bytes

-- The text before the first `c` and the text behind it, where `c` occurs.
unfoldable pub cut_byte : ℕ → Bytes → Option (Bytes × Bytes)
cut_byte c [] = none
cut_byte c (a ∷ s) =
    if a == c
    then some ([], s)
    else (elim (cut_byte c s) [ none ↦ none | some (p, q) ↦ some (a ∷ p, q) ])

unfoldable pub drop_one : Bytes → Bytes
drop_one [] = []
drop_one (a ∷ t) = t

-- The host of `net.SplitHostPort`; `none` is its error.
unfoldable pub split_host_port : Bytes → Option Bytes
split_host_port [] = none
split_host_port (c ∷ s) =
    if c == b'['
    then (elim (cut_byte b']' s) [
      | none ↦ none
      | some (host, rest) ↦
          if has_prefix rest (codes ":")
            && not (has_byte b':' (drop_one rest))
            && not (has_byte b'[' host || has_byte b'[' rest)
            && not (has_byte b']' rest)
          then some host
          else none
    ])
    else (elim (before_last (c ∷ s) (codes ":")) [
      | none ↦ none
      | some host ↦
          if has_byte b':' host || has_byte b'[' (c ∷ s) || has_byte b']' (c ∷ s)
          then none
          else some host
    ])
