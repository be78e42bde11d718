-- ===== src/Npm/Lockfile.antt =====
-- npm/lockfile_rewrite.go: the URLs of tarballs in a lockfile. The regular expression is the function
-- `match_url`: its classes do not overlap with what follows them but for the path, of which the longest
-- one counts. `parse_url` is net/url's.
pub mod Links
pub mod Routes
use proxykit.Prelude.{
  ℕ, zero, suc, ◌+◌, ◌-◌, Bool, true, false, not, ◌&&◌, ◌||◌, Option, none, some, List, [], ◌∷◌,
  ◌++◌, if◌then◌else◌, leb, ◌==◌, length, drop,
}
use proxykit.Prelude.Text.{Bytes, codes, bytes_eq, has_prefix, drop_prefix, before_last}
use proxykit.Glob.{Piece}
use proxykit.Npm.Allowlist.{allowed, new_allowlist}
use proxykit.Npm.Paths.{upstream_path_prefix, trim_right_slash}

-- The parts of a `url.URL` that are read: `host` has the port, and `hostname` is without it.
pub record Link : Type 0 where
  pub host : Bytes
  pub hostname : Bytes
  pub escaped_path : Bytes
  pub raw_query : Bytes

unfoldable pub is_digit : ℕ → Bool
is_digit c = leb b'0' c && leb c b'9'

-- `[a-zA-Z0-9]`.
unfoldable pub is_alphanumeric : ℕ → Bool
unfolding is_digit
is_alphanumeric c = (leb b'a' c && leb c b'z') || ((leb b'A' c && leb c b'Z') || is_digit c)

-- `[a-zA-Z0-9._-]`.
unfoldable pub is_host_byte : ℕ → Bool
unfolding is_alphanumeric
is_host_byte c = is_alphanumeric c || ((c == b'.') || ((c == b'_') || (c == b'-')))

-- `[^\s"'\\]`; `\s` is a tab, a newline, a form feed, a carriage return or a space.
unfoldable pub is_path_byte : ℕ → Bool
is_path_byte c = not (
    (c == 9)
    || ((c == 10)
        || ((c == 12) || ((c == 13) || ((c == 32) || ((c == 34) || ((c == 39) || (c == 92))))))))

-- The longest front whose bytes pass a test, and the rest.
pub span : (ℕ → Bool) → Bytes → Bytes × Bytes
span ok [] = ([], [])
span ok (c ∷ s) = let (front, rest) = span ok s in if ok c then (c ∷ front, rest) else ([], c ∷ s)

-- `(?::[0-9]+)?`: the port with its colon, and the rest.
pub match_port : Bytes → Bytes × Bytes
match_port [] = ([], [])
match_port (c ∷ s) =
    let (digits, rest) = span is_digit s in
    if (c == b':') && not (bytes_eq digits []) then (c ∷ digits, rest) else ([], c ∷ s)

-- `(?:\?[^\s"'\\]*)?` on the rest of the run of path bytes.
pub match_query : Bytes → Bytes
match_query [] = []
match_query (c ∷ s) = if c == b'?' then c ∷ s else []

-- `[^\s"'\\]+\.tgz` and the query, on a run of path bytes.
pub match_path : Bytes → Option Bytes
match_path [] = none
match_path (c ∷ run) = elim (before_last run (codes ".tgz")) [
  | none ↦ none
  | some front ↦
      let file = front ++ codes ".tgz" in some (c ∷ (file ++ match_query (drop (length file) run)))
]

-- The slash and what follows it.
pub match_rest : Bytes → Option Bytes
match_rest [] = none
match_rest (c ∷ s) =
    if c == b'/'
    then (elim (match_path (span is_path_byte s).0) [ none ↦ none | some path ↦ some (c ∷ path) ])
    else none

-- The host, the port and what follows them.
pub match_host : Bytes → Option Bytes
match_host [] = none
match_host (c ∷ s) =
    let (host, behind) = span is_host_byte s in
    let (port, rest) = match_port behind in
    if is_alphanumeric c
    then (elim (match_rest rest) [ none ↦ none | some path ↦ some (c ∷ (host ++ (port ++ path))) ])
    else none

-- What `directTarballURLPattern` matches at the front of a text.
pub match_url : Bytes → Option Bytes
match_url s =
    if has_prefix s (codes "https://")
    then (elim (match_host (drop_prefix s (codes "https://"))) [
      | none ↦ none
      | some rest ↦ some (codes "https://" ++ rest)
    ])
    else none

-- The bytes behind the first one that a match takes.
pub skipped : Option Bytes → ℕ
skipped none = 0
skipped (some m) = length m - 1

pub put_front : (Bytes → Bytes) → ℕ → Option Bytes → Bytes → Bytes
put_front replace c none rest = c ∷ rest
put_front replace c (some m) rest = replace m ++ rest

-- `ReplaceAllFunc`; `skip` bytes belong to a match that is replaced.
pub replace_all_func : (Bytes → Bytes) → ℕ → Bytes → Bytes
replace_all_func replace skip [] = []
replace_all_func replace (suc skip) (c ∷ s) = replace_all_func replace skip s
replace_all_func replace zero (c ∷ s) =
    let m = match_url (c ∷ s) in
    let rest = replace_all_func replace (skipped m) s in put_front replace c m rest

module _ (parse_url : Bytes → Option Link) where
  -- The path and the query of the route.
  pub route_path : Link → Bytes
  route_path u =
      (if bytes_eq u.escaped_path [] then codes "/" else u.escaped_path)
      ++ (if bytes_eq u.raw_query [] then [] else codes "?" ++ u.raw_query)

  -- The function that the matches are given to.
  pub rewrite_match : Bytes → List (List Piece) → Bytes → Bytes
  rewrite_match proxy_base matchers m = elim (parse_url m) [
    | none ↦ m
    | some u ↦
        if bytes_eq u.host []
        then m
        else if allowed matchers u.hostname
        then proxy_base ++ (upstream_path_prefix ++ (u.host ++ route_path u))
        else m
  ]

  -- `rewriteDirectTarballURLs` with an allowlist.
  pub rewrite_direct_tarball_urls : Bytes → List (List Piece) → Bytes → Bytes
  rewrite_direct_tarball_urls proxy_base matchers content =
      replace_all_func (rewrite_match (trim_right_slash proxy_base) matchers) 0 content

  -- `RewriteDirectTarballURLsWithDefaults`.
  rewrite_direct_tarball_urls_with_defaults : Bytes → Bytes → Bytes
  unfolding rewrite_direct_tarball_urls
  rewrite_direct_tarball_urls_with_defaults proxy_base content =
      rewrite_direct_tarball_urls proxy_base (new_allowlist []) content
