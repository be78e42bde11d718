-- ===== src/Npm/Lockfile/Links.antt =====
-- npm/lockfile_rewrite.go: what a rewriting changes in a lockfile.
use mathlib.Core.List.{append_assoc, append-nil}
use proxykit.Prelude.{
  ℕ, suc, ◌-◌, ◌≡◌, refl, ap, sym, ◌∙◌, Bool, true, false, none, some, [], ◌∷◌, ◌++◌, ◌==◌, length,
  drop, arith, All, drop-length-append,
}
use proxykit.Prelude.Text.{Bytes, codes, has_prefix, has_byte, drop_prefix, before_last}
use proxykit.Npm.Lockfile.{
  is_alphanumeric, is_host_byte, is_path_byte, span, match_port, match_query, match_path,
  match_rest, match_host, match_url, skipped, put_front, replace_all_func,
}

-- All bytes of a text pass a test.
abbrev pub Only : (ℕ → Bool) → Bytes → Type 0
Only ok = All (λ c. ok c ≡ true)

span-append :
    (ok : ℕ → Bool) (s t : Bytes) (c : ℕ)
    → Only ok s
    → ok c ≡ false
    → span ok (s ++ c ∷ t) ≡ (s, c ∷ t)
unfolding span
span-append ok [] t c p stop = ground (arith, stop)
span-append ok (d ∷ s) t c (p, ps) stop = ground (arith, p, span-append ok s t c ps stop)

before_last-append : (p : Bytes) → before_last (p ++ codes ".tgz") (codes ".tgz") ≡ some p
unfolding before_last has_prefix
before_last-append [] = refl
before_last-append (c ∷ p) = ground (arith, before_last-append p)

-- A URL of a tarball, without a port and a query.
abbrev pub tarball_url : ℕ → Bytes → ℕ → Bytes → Bytes
tarball_url a host b path = codes "https://" ++ (a ∷ (host ++ b'/' ∷ b ∷ (path ++ codes ".tgz")))

match_path-file :
    (b : ℕ) (path : Bytes)
    → match_path (b ∷ (path ++ codes ".tgz")) ≡ some (b ∷ (path ++ codes ".tgz"))
unfolding match_path match_query
match_path-file b path =
    let whole : drop (length (path ++ codes ".tgz")) (path ++ codes ".tgz") ≡ [] =
      ap (drop (length (path ++ codes ".tgz"))) (sym (append-nil (path ++ codes ".tgz")))
      ∙ drop-length-append (path ++ codes ".tgz") [] in
    ground (arith, before_last-append path, whole, append-nil (path ++ codes ".tgz"))

quote_stops : is_path_byte 34 ≡ false
unfolding is_path_byte
quote_stops = refl

match_rest-file :
    (b : ℕ) (path rest : Bytes)
    → Only is_path_byte (b ∷ (path ++ codes ".tgz"))
    → match_rest (b'/' ∷ (b ∷ (path ++ codes ".tgz")) ++ (34 ∷ rest))
      ≡ some (b'/' ∷ b ∷ (path ++ codes ".tgz"))
unfolding match_rest
match_rest-file b path rest ok =
    let run = span-append is_path_byte (b ∷ (path ++ codes ".tgz")) rest 34 ok quote_stops in
    ground (arith, run, match_path-file b path)

slash_stops : is_host_byte b'/' ≡ false
unfolding is_host_byte
slash_stops = refl

match_port-slash : (s : Bytes) → match_port (b'/' ∷ s) ≡ ([], b'/' ∷ s)
unfolding match_port
match_port-slash s = refl

match_host-file :
    (a : ℕ) (host : Bytes) (b : ℕ) (path rest : Bytes)
    → is_alphanumeric a ≡ true
    → Only is_host_byte host
    → Only is_path_byte (b ∷ (path ++ codes ".tgz"))
    → match_host (a ∷ (host ++ b'/' ∷ b ∷ ((path ++ codes ".tgz") ++ 34 ∷ rest)))
      ≡ some (a ∷ (host ++ b'/' ∷ b ∷ (path ++ codes ".tgz")))
unfolding match_host
match_host-file a host b path rest first names ok =
    let front =
      span-append is_host_byte host (b ∷ ((path ++ codes ".tgz") ++ 34 ∷ rest)) b'/' names
        slash_stops in
    ground (
      arith,
      first,
      front,
      match_port-slash (b ∷ ((path ++ codes ".tgz") ++ 34 ∷ rest)),
      match_rest-file b path rest ok,
    )

-- The conditions under which a tarball's URL is matched whole.
abbrev pub IsTarballUrl : ℕ → Bytes → ℕ → Bytes → Type 0
IsTarballUrl a host b path =
    (is_alphanumeric a ≡ true)
    × Only is_host_byte host
    × Only is_path_byte (b ∷ (path ++ codes ".tgz"))

match_url-file :
    (a : ℕ) (host : Bytes) (b : ℕ) (path rest : Bytes)
    → IsTarballUrl a host b path
    → match_url (tarball_url a host b path ++ 34 ∷ rest) ≡ some (tarball_url a host b path)
unfolding match_url has_prefix drop_prefix
match_url-file a host b path rest (first, names, ok) =
    let same : (host ++ b'/' ∷ b ∷ (path ++ codes ".tgz")) ++ 34 ∷ rest
        ≡ host ++ b'/' ∷ b ∷ ((path ++ codes ".tgz") ++ 34 ∷ rest) =
      append_assoc host (b'/' ∷ b ∷ (path ++ codes ".tgz")) (34 ∷ rest) in
    ground (arith, same, match_host-file a host b path rest first names ok)

-- A match begins with an `h`.
match_url-skips : (c : ℕ) (s : Bytes) → (c == b'h') ≡ false → match_url (c ∷ s) ≡ none
unfolding match_url has_prefix
match_url-skips c s other = ground (arith, other)

module _ (replace : Bytes → Bytes) where
  replace_all_func-skip :
      (m rest : Bytes)
      → replace_all_func replace (length m) (m ++ rest) ≡ replace_all_func replace 0 rest
  unfolding replace_all_func
  replace_all_func-skip [] rest = refl
  replace_all_func-skip (c ∷ m) rest = replace_all_func-skip m rest

  replace_all_func-plain :
      (pre s : Bytes)
      → has_byte b'h' pre ≡ false
      → replace_all_func replace 0 (pre ++ s) ≡ pre ++ replace_all_func replace 0 s
  unfolding replace_all_func has_byte put_front skipped
  replace_all_func-plain [] s plain = refl
  replace_all_func-plain (c ∷ pre) s plain =
      let none_here : (c == b'h') ≡ false → match_url (c ∷ (pre ++ s)) ≡ none =
        match_url-skips c (pre ++ s) in
      let rest : has_byte b'h' pre ≡ false
          → replace_all_func replace 0 (pre ++ s) ≡ pre ++ replace_all_func replace 0 s =
        replace_all_func-plain pre s in
      ground (arith, plain, none_here, rest)

  replace_all_func-match :
      (c : ℕ) (m rest : Bytes)
      → match_url (c ∷ (m ++ rest)) ≡ some (c ∷ m)
      → replace_all_func replace 0 (c ∷ (m ++ rest))
        ≡ replace (c ∷ m) ++ replace_all_func replace 0 rest
  unfolding replace_all_func put_front skipped
  replace_all_func-match c m rest found =
      let length_behind : suc (length m) - 1 ≡ length m = omega arith in
      ap (λ o. put_front replace c o (replace_all_func replace (skipped o) (m ++ rest))) found
      ∙ ap (λ n. replace (c ∷ m) ++ replace_all_func replace n (m ++ rest)) length_behind
      ∙ ap (λ t. replace (c ∷ m) ++ t) (replace_all_func-skip m rest)

  -- A URL of a tarball behind a text without an `h` is replaced, and what is behind it is read on.
  pub replace_all_func-tarball :
      (pre : Bytes) (a : ℕ) (host : Bytes) (b : ℕ) (path rest : Bytes)
      → has_byte b'h' pre ≡ false
      → IsTarballUrl a host b path
      → replace_all_func replace 0 (pre ++ (tarball_url a host b path ++ 34 ∷ rest))
        ≡ pre ++ (replace (tarball_url a host b path) ++ replace_all_func replace 0 (34 ∷ rest))
  replace_all_func-tarball pre a host b path rest plain ok =
      let tail = codes "ttps://" ++ (a ∷ (host ++ b'/' ∷ b ∷ (path ++ codes ".tgz"))) in
      replace_all_func-plain pre (tarball_url a host b path ++ 34 ∷ rest) plain
      ∙ ap (◌++◌ pre)
          (replace_all_func-match b'h' tail (34 ∷ rest) (match_url-file a host b path rest ok))
