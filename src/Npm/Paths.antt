-- ===== src/Npm/Paths.antt =====
-- npm/registries.go and npm/npm.go: the routes to other registries, and the addresses that are put in
-- place of theirs.
pub mod Rewrites
use proxykit.Prelude.{
  ℕ, zero, suc, ◌-◌, Bool, ◌||◌, Option, none, some, [], ◌∷◌, ◌++◌, if◌then◌else◌, length, ◌==◌,
}
use proxykit.Prelude.Text.{
  Bytes, codes, bytes_eq, has_prefix, drop_prefix, trim_suffix, cut, trim_space, equal_fold,
}
use proxykit.Http.{split_host_port}

-- `upstreamPathPrefix`.
abbrev pub upstream_path_prefix : Bytes
upstream_path_prefix = codes "/_upstream/"

-- The part of `parseUpstreamPath` behind the prefix: the host and the rest of the path.
unfoldable pub host_and_path : Bytes × Bytes × Bool → Option (Bytes × Bytes)
host_and_path (raw, rest, found) =
    let host = trim_space raw in
    if bytes_eq host [] then none else some (host, if found then codes "/" ++ rest else codes "/")

-- `parseUpstreamPath`.
unfoldable pub parse_upstream_path : Bytes → Option (Bytes × Bytes)
unfolding has_prefix drop_prefix cut host_and_path
parse_upstream_path path =
    if has_prefix path upstream_path_prefix
    then host_and_path (cut (drop_prefix path upstream_path_prefix) (codes "/"))
    else none

-- `usesHTTPUpstream`; `is_ip` says whether `net.ParseIP` reads an address.
unfoldable pub uses_http_upstream : (Bytes → Bool) → Bytes → Bool
uses_http_upstream is_ip host =
    let hostname : Bytes = elim (split_host_port host) [ none ↦ host | some h ↦ h ] in
    equal_fold hostname (codes "localhost") || is_ip hostname

-- `upstreamRegistryBaseURL`.
unfoldable pub upstream_registry_base_url : (Bytes → Bool) → Bytes → Bytes
upstream_registry_base_url is_ip raw =
    let host = trim_suffix raw (codes "/") in
    if uses_http_upstream is_ip host then codes "http://" ++ host else codes "https://" ++ host

-- `proxyUpstreamBaseURL`.
unfoldable pub proxy_upstream_base_url : Bytes → Bytes → Bytes
proxy_upstream_base_url proxy_host upstream_host =
    codes "http://"
    ++ (trim_suffix proxy_host (codes "/") ++ (upstream_path_prefix ++ upstream_host))

-- `strings.TrimRight(s, "/")`, from the bytes behind the first one.
unfoldable pub keep_slash : ℕ → Bytes → Bytes
keep_slash c [] = if c == b'/' then [] else c ∷ []
keep_slash c (d ∷ s) = c ∷ d ∷ s

unfoldable pub trim_right_slash : Bytes → Bytes
unfolding keep_slash
trim_right_slash [] = []
trim_right_slash (c ∷ s) = keep_slash c (trim_right_slash s)

-- `bytes.ReplaceAll` of a text that is not empty; `skip` bytes belong to an occurrence that is replaced.
unfoldable pub replace_from : Bytes → Bytes → ℕ → Bytes → Bytes
replace_from old new skip [] = []
replace_from old new (suc skip) (c ∷ s) = replace_from old new skip s
replace_from old new zero (c ∷ s) =
    let rest = replace_from old new (if has_prefix (c ∷ s) old then length old - 1 else 0) s in
    if has_prefix (c ∷ s) old then new ++ rest else c ∷ rest

-- `rewriteTarballURLs`.
unfoldable pub rewrite_tarball_urls : Bytes → Bytes → Bytes → Bytes
rewrite_tarball_urls text upstream_url proxy_url = replace_from upstream_url proxy_url 0 text

-- `rewriteRegistryTarballURLs`.
unfoldable pub rewrite_registry_tarball_urls : Bytes → Bytes → Bytes → Bytes → Bytes
rewrite_registry_tarball_urls text upstream_base upstream_host proxy_host =
    rewrite_tarball_urls text (trim_right_slash upstream_base)
      (proxy_upstream_base_url proxy_host upstream_host)
