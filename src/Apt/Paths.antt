-- ===== src/Apt/Paths.antt =====
-- apt/apt.go: `isAllowedHost`, and what the path of a URL says about the file.
use proxykit.Prelude.{Bool, false, ◌||◌, List, [], ◌∷◌, if◌then◌else◌, drop}
use proxykit.Prelude.Int.{ℤ, negsuc}
use proxykit.Prelude.Text.{Bytes, codes, bytes_eq, has_prefix, has_suffix, contains, to_lower}

-- One pattern, in lower case, on a host in lower case.
unfoldable pub matches_pattern : Bytes → Bytes → Bool
matches_pattern host pattern =
    if has_prefix pattern (codes "*.")
    then has_suffix host (drop 1 pattern) || bytes_eq host (drop 2 pattern)
    else bytes_eq host pattern

unfoldable pub matches_any : Bytes → List Bytes → Bool
matches_any host [] = false
matches_any host (pattern ∷ patterns) =
    matches_pattern host (to_lower pattern) || matches_any host patterns

-- `isAllowedHost`.
unfoldable pub is_allowed_host : List Bytes → Bytes → Bool
is_allowed_host patterns host = matches_any (to_lower host) patterns

-- `isPackageFile`.
unfoldable pub is_package_file : Bytes → Bool
is_package_file path =
    if contains path (codes "/pool/")
    then has_suffix path (codes ".deb") || has_suffix path (codes ".udeb")
    else false

-- `classifyTTL`: a package is kept for ever.
unfoldable pub classify_ttl : Bytes → ℤ → ℤ
classify_ttl path metadata_ttl = if is_package_file path then negsuc 0 else metadata_ttl

-- `contentTypeForPath`.
unfoldable pub content_type_for_path : Bytes → Bytes
content_type_for_path path =
    if has_suffix path (codes ".deb") || has_suffix path (codes ".udeb")
    then codes "application/vnd.debian.binary-package"
    else if has_suffix path (codes ".gz")
    then codes "application/gzip"
    else if has_suffix path (codes ".xz")
    then codes "application/x-xz"
    else if has_suffix path (codes ".bz2")
    then codes "application/x-bzip2"
    else if has_suffix path (codes ".gpg")
    then codes "application/pgp-signature"
    else if has_suffix path (codes "InRelease") || has_suffix path (codes "Release")
    then codes "text/plain; charset=utf-8"
    else codes "application/octet-stream"
