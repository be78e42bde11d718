-- ===== src/Npm/Proxy/Routed.antt =====
-- npm/npm.go and npm/registries.go: requests for the routes to other registries.
use mathlib.Core.List.{append-nil}
use proxykit.Prelude.{
  ℕ, ◌≡◌, refl, ap, ◌∙◌, Bool, true, false, ◌||◌, Option, none, some, [], ◌∷◌, ◌++◌, if◌then◌else◌,
  ◌==◌, arith,
}
use proxykit.Prelude.Int.{negsuc}
use proxykit.Prelude.Text.{
  Bytes, codes, bytes_eq, has_byte, is_space, keep_right, trim_left_space, trim_right_space,
  trim_right_space-cons, trim_space, has_prefix, has_suffix, has_suffix-append, trim_suffix,
  cut_past,
}
use proxykit.Npm.Allowlist.{allowed}
use proxykit.Npm.Paths.{
  upstream_path_prefix, parse_upstream_path, host_and_path, uses_http_upstream,
  upstream_registry_base_url, trim_right_slash, keep_slash,
}
use proxykit.Npm.Keys.{tarball_cache_key, has_byte-append}
use proxykit.Npm.Proxy.{
  Outside, Server, Request, Resolved, resolve_registry_request, upstream_url_of, handle_request,
  handle_path, handle_tarball, through_cache, served, is_forward_proxy_request, is_tarball_path,
}
use proxykit.Npm.Lockfile.{is_digit, is_alphanumeric, is_host_byte}
use proxykit.Npm.Lockfile.Links.{Only, tarball_url}

host_byte-plain : (c : ℕ) → is_host_byte c ≡ true → (is_space c ≡ false) × ((c == b'/') ≡ false)
unfolding is_host_byte is_alphanumeric is_digit is_space
host_byte-plain c h = ground (arith, h)

-- A text of a host's bytes.
no_slash : (s : Bytes) → Only is_host_byte s → has_byte b'/' s ≡ false
unfolding has_byte
no_slash [] p = refl
no_slash (c ∷ s) (p, ps) = ground (arith, host_byte-plain c p, no_slash s ps)

trim_right_space-host : (s : Bytes) → Only is_host_byte s → trim_right_space s ≡ s
unfolding trim_right_space keep_right
trim_right_space-host [] p = refl
trim_right_space-host (c ∷ []) (p, ps) = ground (arith, host_byte-plain c p)
trim_right_space-host (c ∷ d ∷ s) (p, ps) =
    trim_right_space-cons c d s (trim_right_space-host (d ∷ s) ps)

trim_space-host : (c : ℕ) (s : Bytes) → Only is_host_byte (c ∷ s) → trim_space (c ∷ s) ≡ c ∷ s
unfolding trim_space trim_left_space
trim_space-host c s (p, ps) =
    ap trim_left_space (trim_right_space-host (c ∷ s) (p, ps)) ∙ ground (arith, host_byte-plain c p)

trim_right_slash-host : (s : Bytes) → Only is_host_byte s → trim_right_slash s ≡ s
unfolding trim_right_slash keep_slash
trim_right_slash-host [] p = refl
trim_right_slash-host (c ∷ []) (p, ps) = ground (arith, host_byte-plain c p)
trim_right_slash-host (c ∷ d ∷ s) (p, ps) = ap (keep_slash c) (trim_right_slash-host (d ∷ s) ps)

has_suffix-host : (s : Bytes) → Only is_host_byte s → has_suffix s (codes "/") ≡ false
unfolding has_suffix bytes_eq
has_suffix-host [] p = refl
has_suffix-host (c ∷ s) (p, ps) = ground (arith, host_byte-plain c p, has_suffix-host s ps)

trim_suffix-host : (s : Bytes) → Only is_host_byte s → trim_suffix s (codes "/") ≡ s
unfolding trim_suffix
trim_suffix-host s p = ground (arith, has_suffix-host s p)

parse_upstream_path-route :
    (c : ℕ) (s rest : Bytes)
    → Only is_host_byte (c ∷ s)
    → parse_upstream_path (upstream_path_prefix ++ (c ∷ s) ++ b'/' ∷ rest)
      ≡ some (c ∷ s, b'/' ∷ rest)
unfolding parse_upstream_path host_and_path bytes_eq
parse_upstream_path-route c s rest p =
    let split = cut_past b'/' (c ∷ s) (b'/' ∷ rest) [] (no_slash (c ∷ s) p) in
    ap host_and_path split
    ∙ ap (λ h. host_and_path (h, rest, true)) (append-nil (c ∷ s))
    ∙ ap (λ h. if bytes_eq h [] then none else some (h, b'/' ∷ rest)) (trim_space-host c s p)

-- What the route of a rewritten URL asks for.
abbrev asked_of : ℕ → Bytes → ℕ → Bytes → Resolved
asked_of a host b path = record {
  base = codes "https://" ++ (a ∷ host);
  fetch_path = b'/' ∷ b ∷ (path ++ codes ".tgz");
  upstream_host = a ∷ host;
}

base-host :
    (is_ip : Bytes → Bool) (a : ℕ) (host : Bytes)
    → Only is_host_byte (a ∷ host)
    → uses_http_upstream is_ip (a ∷ host) ≡ false
    → upstream_registry_base_url is_ip (a ∷ host) ≡ codes "https://" ++ (a ∷ host)
unfolding upstream_registry_base_url
base-host is_ip a host p secure =
    ap (λ h. if uses_http_upstream is_ip h then codes "http://" ++ h else codes "https://" ++ h)
      (trim_suffix-host (a ∷ host) p)
    ∙ ap (λ t. if t then codes "http://" ++ (a ∷ host) else codes "https://" ++ (a ∷ host)) secure

trim_right_slash-append :
    (pre : Bytes) (d : ℕ) (s : Bytes)
    → trim_right_slash (d ∷ s) ≡ d ∷ s
    → trim_right_slash (pre ++ d ∷ s) ≡ pre ++ d ∷ s
unfolding trim_right_slash keep_slash
trim_right_slash-append [] d s h = h
trim_right_slash-append (c ∷ []) d s h = ap (keep_slash c) h
trim_right_slash-append (c ∷ e ∷ pre) d s h =
    ap (keep_slash c) (trim_right_slash-append (e ∷ pre) d s h)

upstream_url_of-host :
    (a : ℕ) (host path : Bytes)
    → Only is_host_byte (a ∷ host)
    → upstream_url_of (codes "https://" ++ (a ∷ host)) path
      ≡ codes "https://" ++ ((a ∷ host) ++ path)
unfolding upstream_url_of
upstream_url_of-host a host path p =
    ap (λ t. t ++ path)
      (trim_right_slash-append (codes "https://") a host (trim_right_slash-host (a ∷ host) p))

pub first_host_byte : (a : ℕ) → is_alphanumeric a ≡ true → is_host_byte a ≡ true
unfolding is_host_byte
first_host_byte a p = ground (arith, p)

resolve-route :
    (o : Outside) (s : Server) (a : ℕ) (host : Bytes) (b : ℕ) (path : Bytes)
    → Only is_host_byte (a ∷ host)
    → allowed s.matchers (a ∷ host) ≡ true
    → uses_http_upstream o.is_ip (a ∷ host) ≡ false
    → resolve_registry_request o s
        (upstream_path_prefix ++ ((a ∷ host) ++ b'/' ∷ b ∷ (path ++ codes ".tgz")))
      ≡ some (asked_of a host b path)
unfolding resolve_registry_request
resolve-route o s a host b path p allows secure =
    let parsed = parse_upstream_path-route a host (b ∷ (path ++ codes ".tgz")) p in
    let base = base-host o.is_ip a host p secure in ground (arith, parsed, allows, base)

-- The route of a tarball's URL.
abbrev pub route_of : ℕ → Bytes → ℕ → Bytes → Bytes
route_of a host b path = upstream_path_prefix ++ ((a ∷ host) ++ b'/' ∷ b ∷ (path ++ codes ".tgz"))

-- No byte of a host is a percent sign.
no_percent : (s : Bytes) → Only is_host_byte s → has_byte b'%' s ≡ false
unfolding has_byte is_host_byte is_alphanumeric is_digit
no_percent [] p = refl
no_percent (c ∷ s) (p, ps) = ground (arith, p, no_percent s ps)

route-plain :
    (a : ℕ) (host : Bytes) (b : ℕ) (path : Bytes)
    → Only is_host_byte (a ∷ host)
    → has_byte b'%' (b ∷ path) ≡ false
    → has_byte b'%' (route_of a host b path) ≡ false
unfolding has_byte
route-plain a host b path p plain =
    let file = b'/' ∷ b ∷ (path ++ codes ".tgz") in
    ground (
      arith,
      plain,
      no_percent (a ∷ host) p,
      has_byte-append b'%' host file,
      has_byte-append b'%' path (codes ".tgz"),
    )

-- What the documentation of `url.PathUnescape` says of a text without a percent sign.
abbrev pub KeepsPlain : (Bytes → Option Bytes) → Type 0
KeepsPlain unescape = (t : Bytes) → has_byte b'%' t ≡ false → unescape t ≡ some t

-- A `GET` of the route in origin form.
abbrev pub IsRequestFor : Request → Bytes → Type 0
IsRequestFor r route = (r.is_get ≡ true) × (r.request_uri ≡ route) × (r.path ≡ route)

handle_path-route :
    (o : Outside) (s : Server) (r : Request) (a : ℕ) (host : Bytes) (b : ℕ) (path : Bytes)
    → Only is_host_byte (a ∷ host)
    → allowed s.matchers (a ∷ host) ≡ true
    → uses_http_upstream o.is_ip (a ∷ host) ≡ false
    → handle_path o r (route_of a host b path) s
      ≡ handle_tarball o
          (codes "https://" ++ (a ∷ host))
          (b'/' ∷ b ∷ (path ++ codes ".tgz"))
          (a ∷ host)
          s
unfolding handle_path is_tarball_path
handle_path-route o s r a host b path p allows secure =
    let tarball = has_suffix-append (b'/' ∷ b ∷ path) (codes ".tgz") in
    rw (resolve-route o s a host b path p allows secure, handle_path) rw tarball refl

pub handle_request-route :
    (o : Outside) (s : Server) (r : Request) (a : ℕ) (host : Bytes) (b : ℕ) (path : Bytes)
    → IsRequestFor r (route_of a host b path)
    → KeepsPlain o.unescape
    → has_byte b'%' (b ∷ path) ≡ false
    → Only is_host_byte (a ∷ host)
    → allowed s.matchers (a ∷ host) ≡ true
    → uses_http_upstream o.is_ip (a ∷ host) ≡ false
    → handle_request o r s
      ≡ through_cache o
          (tarball_cache_key (a ∷ host) (b'/' ∷ b ∷ (path ++ codes ".tgz")))
          (negsuc 0)
          (tarball_url a host b path)
          (served (codes "application/octet-stream"))
          s
unfolding handle_request is_forward_proxy_request has_prefix bytes_eq handle_tarball
handle_request-route o s r a host b path (get, uri, asked) keeps plain p allows secure =
    let file = b'/' ∷ b ∷ (path ++ codes ".tgz") in
    let serve = served (codes "application/octet-stream") in
    let unhealthy : bytes_eq r.path (codes "/healthz") ≡ false =
      ap (λ t. bytes_eq t (codes "/healthz")) asked in
    let direct : is_forward_proxy_request r ≡ false =
      ap (λ t. has_prefix t (codes "http://") || has_prefix t (codes "https://")) uri in
    let read : o.unescape r.path ≡ some (route_of a host b path) =
      ap o.unescape asked ∙ keeps (route_of a host b path) (route-plain a host b path p plain) in
    let found = handle_path-route o s r a host b path p allows secure in
    let url = upstream_url_of-host a host file p in
    ground (arith, get, unhealthy, direct, read, found)
    ∙ ap (λ u. through_cache o (tarball_cache_key (a ∷ host) file) (negsuc 0) u serve s) url
