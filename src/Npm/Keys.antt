-- ===== src/Npm/Keys.antt =====
-- npm/npm.go: the cache keys of metadata and of tarballs.
use mathlib.Core.List.{append_assoc, append-nil}
use proxykit.Prelude.{
  ℕ, ◌≡◌, refl, ap, sym, ◌∙◌, Bool, true, false, ◌||◌, [], ◌∷◌, ◌++◌, arith, if◌then◌else◌, ◌==◌,
}
use proxykit.Prelude.Text.{
  Bytes, codes, bytes_eq, has_prefix, trim_prefix, drop_prefix, cut, cut_past, has_byte,
}

-- A package name in a scope, from the path without its slash: the first two segments.
unfoldable pub scoped_name : Bytes × Bytes × Bool → Bytes
scoped_name (scope, rest, found) =
    if found then scope ++ (codes "/" ++ (cut rest (codes "/")).0) else []

-- `extractPackageName`.
unfoldable pub extract_package_name : Bytes → Bytes
extract_package_name path =
    let name = trim_prefix path (codes "/") in
    if bytes_eq name []
    then []
    else if has_prefix name (codes "@")
    then scoped_name (cut name (codes "/"))
    else (cut name (codes "/")).0

-- `metadataCacheKey`.
unfoldable pub metadata_cache_key : Bytes → Bytes → Bytes
metadata_cache_key host path = codes "meta:" ++ (host ++ (codes ":" ++ path))

-- `tarballCacheKey` from the cut of the path.
unfoldable pub tarball_key_of : Bytes → Bytes → Bytes × Bytes × Bool → Bytes
tarball_key_of host path (before, filename, found) =
    if found
    then codes "tar:"
      ++ (host ++ (codes ":" ++ (extract_package_name path ++ (codes "/" ++ filename))))
    else codes "tar:" ++ (host ++ (codes ":" ++ path))

-- `tarballCacheKey`.
unfoldable pub tarball_cache_key : Bytes → Bytes → Bytes
tarball_cache_key host path = tarball_key_of host path (cut path (codes "/-/"))

pub has_byte-append : (c : ℕ) (s t : Bytes) → has_byte c (s ++ t) ≡ (has_byte c s || has_byte c t)
unfolding has_byte
has_byte-append c [] t = refl
has_byte-append c (d ∷ s) t = ground (arith, has_byte-append c s t)

-- A text without a dash is in front of the first `/-/`.
cut_dash :
    (s file : Bytes)
    → has_byte b'-' s ≡ false
    → cut (s ++ (codes "/-/" ++ file)) (codes "/-/") ≡ (s, file, true)
unfolding cut has_prefix drop_prefix has_byte
cut_dash [] file h = refl
cut_dash (c ∷ []) file h = ground (arith, cut_dash [] file refl)
cut_dash (c ∷ d ∷ s) file h = ground (arith, cut_dash (d ∷ s) file)

-- The name of a package that is in no scope ends at the first slash.
cut_slash : (s rest : Bytes) → has_byte b'/' s ≡ false → (cut (s ++ b'/' ∷ rest) (codes "/")).0 ≡ s
unfolding cut has_prefix
cut_slash s rest h = ap (λ r. r.0) (cut_past b'/' s (b'/' ∷ rest) [] h) ∙ append-nil s

name_of_first :
    (c : ℕ) (a rest : Bytes)
    → (c == b'@') ≡ false
    → has_byte b'/' (c ∷ a) ≡ false
    → extract_package_name (b'/' ∷ c ∷ (a ++ b'/' ∷ rest)) ≡ c ∷ a
unfolding extract_package_name trim_prefix bytes_eq
name_of_first c a rest scope plain = ground (arith, scope, cut_slash (c ∷ a) rest plain)

-- The key of a tarball whose path goes on behind its first segment: of the path up to the `/-/` it
-- holds the first segment alone.
tarball_cache_key_of :
    (host : Bytes) (c : ℕ) (a mid file : Bytes)
    → (c == b'@') ≡ false
    → has_byte b'/' (c ∷ a) ≡ false
    → has_byte b'-' (c ∷ a) ≡ false
    → has_byte b'-' mid ≡ false
    → tarball_cache_key host (b'/' ∷ c ∷ (a ++ b'/' ∷ (mid ++ (codes "/-/" ++ file))))
      ≡ codes "tar:" ++ (host ++ (codes ":" ++ ((c ∷ a) ++ (codes "/" ++ file))))
unfolding tarball_cache_key tarball_key_of has_byte
tarball_cache_key_of host c a mid file scope plain d₀ d₁ =
    let before = b'/' ∷ c ∷ (a ++ b'/' ∷ mid) in
    let path = b'/' ∷ c ∷ (a ++ b'/' ∷ (mid ++ (codes "/-/" ++ file))) in
    let whole : before ++ (codes "/-/" ++ file) ≡ path =
      ap (λ t. b'/' ∷ c ∷ t) (append_assoc a (b'/' ∷ mid) (codes "/-/" ++ file)) in
    let dashless : has_byte b'-' before ≡ false =
      ground (arith, d₀, has_byte-append b'-' a (b'/' ∷ mid), d₁) in
    let cuts : cut path (codes "/-/") ≡ (before, file, true) =
      ap (λ p. cut p (codes "/-/")) (sym whole) ∙ cut_dash before file dashless in
    ap (tarball_key_of host path) cuts
    ∙ ap (λ n. codes "tar:" ++ (host ++ (codes ":" ++ (n ++ (codes "/" ++ file)))))
        (name_of_first c a (mid ++ (codes "/-/" ++ file)) scope plain)

-- Where neither the first segment of a path nor what follows it up to the `/-/` holds a dash, the key of
-- a tarball does not depend on what follows the first segment: two registries that a host keeps under
-- different paths share the entries of their tarballs.
pub tarball_cache_key_collides :
    (host : Bytes) (c : ℕ) (a mid mid' file : Bytes)
    → (c == b'@') ≡ false
    → has_byte b'/' (c ∷ a) ≡ false
    → has_byte b'-' (c ∷ a) ≡ false
    → has_byte b'-' mid ≡ false
    → has_byte b'-' mid' ≡ false
    → tarball_cache_key host (b'/' ∷ c ∷ (a ++ b'/' ∷ (mid ++ (codes "/-/" ++ file))))
      ≡ tarball_cache_key host (b'/' ∷ c ∷ (a ++ b'/' ∷ (mid' ++ (codes "/-/" ++ file))))
tarball_cache_key_collides host c a mid mid' file scope plain d₀ d₁ d₂ =
    tarball_cache_key_of host c a mid file scope plain d₀ d₁
    ∙ sym (tarball_cache_key_of host c a mid' file scope plain d₀ d₂)
