-- ===== src/Npm/Lockfile/Routes.antt =====
-- npm/lockfile_rewrite.go with npm/npm.go: the routes that a rewriting writes, and what a request for one
-- of them gets.
use mathlib.Core.List.{append-nil}
use proxykit.Prelude.{
  ℕ, ◌≡◌, ap, ◌∙◌, true, false, refl, inl, ltb, Option, none, some, List, [], ◌∷◌, ◌++◌,
}
use proxykit.Prelude.Int.{negsuc}
use proxykit.Prelude.Text.{Bytes, codes, bytes_eq, has_byte}
use proxykit.Glob.{Piece}
use proxykit.Npm.Allowlist.{allowed}
use proxykit.Npm.Paths.{upstream_path_prefix, uses_http_upstream, trim_right_slash}
use proxykit.Npm.Keys.{tarball_cache_key}
use proxykit.Npm.Proxy.{Outside, Server, Request, handle_request, through_cache, served}
use proxykit.Npm.Lockfile.{
  Link, is_host_byte, rewrite_match, route_path, replace_all_func, rewrite_direct_tarball_urls,
}
use proxykit.Npm.Lockfile.Links.{Only, tarball_url, IsTarballUrl, replace_all_func-tarball}
use proxykit.Cache.Entry.{expired_at}
use proxykit.Cache.State.{Cache}
use proxykit.Cache.Ops.{deadline, effective_ttl}
use proxykit.Cache.Fetch.{fast_path}
use proxykit.Http.{Response, responds}
use proxykit.Npm.Proxy.Served.{through_cache_kept}
use proxykit.Npm.Proxy.Routed.{
  route_of, KeepsPlain, IsRequestFor, first_host_byte, handle_request-route,
}

-- The parts of a URL of a tarball as net/url reads them.
abbrev tarball_link : ℕ → Bytes → ℕ → Bytes → Link
tarball_link a host b path = record {
  host = a ∷ host;
  hostname = a ∷ host;
  escaped_path = b'/' ∷ b ∷ (path ++ codes ".tgz");
  raw_query = [];
}

rewrite_match-tarball :
    (parse_url : Bytes → Option Link) (proxy_base : Bytes) (matchers : List (List Piece)) (a : ℕ)
    (host : Bytes) (b : ℕ) (path : Bytes)
    → allowed matchers (a ∷ host) ≡ true
    → parse_url (tarball_url a host b path) ≡ some (tarball_link a host b path)
    → rewrite_match parse_url proxy_base matchers (tarball_url a host b path)
      ≡ proxy_base ++ (upstream_path_prefix ++ ((a ∷ host) ++ b'/' ∷ b ∷ (path ++ codes ".tgz")))
unfolding rewrite_match route_path bytes_eq
rewrite_match-tarball parse_url proxy_base matchers a host b path allows parses =
    let file = b'/' ∷ b ∷ (path ++ codes ".tgz") in
    rw (parses, rewrite_match) rw allows
      (ap (λ t. proxy_base ++ (upstream_path_prefix ++ ((a ∷ host) ++ t))) (append-nil file))

-- A tarball as it is served.
abbrev pub tarball_of : Bytes → Response
tarball_of body = record {
  status = 200;
  header = (codes "Content-Type", codes "application/octet-stream" ∷ []) ∷ [];
  body = body;
}

-- What a request for the route gets where the cache does not have the tarball.
route_fetches :
    (o : Outside) (s : Server) (a : ℕ) (host : Bytes) (b : ℕ) (path : Bytes) (c : Cache)
    (resp : Response)
    → fast_path o.world
        (tarball_cache_key (a ∷ host) (b'/' ∷ b ∷ (path ++ codes ".tgz")))
        o.checked
        o.now
        s.cache
      ≡ (c, none)
    → o.put_fault ≡ none
    → o.answers (tarball_url a host b path) ≡ responds resp
    → ltb resp.status 400 ≡ true
    → c.max_size ≡ 0
    → (through_cache o
        (tarball_cache_key (a ∷ host) (b'/' ∷ b ∷ (path ++ codes ".tgz")))
        (negsuc 0)
        (tarball_url a host b path)
        (served (codes "application/octet-stream"))
        s).1
      ≡ tarball_of resp.body
unfolding served effective_ttl deadline expired_at
route_fetches o s a host b path c resp missed no_fault answers fine unlimited =
    let serve = served (codes "application/octet-stream") in
    (through_cache_kept o (tarball_cache_key (a ∷ host) (b'/' ∷ b ∷ (path ++ codes ".tgz")))
      (negsuc 0) (tarball_url a host b path) s c missed resp no_fault answers fine (inl unlimited)
      serve serve o (negsuc 0) (tarball_url a host b path) refl).0

-- Where a text without an `h` is followed by the quoted HTTPS URL of a tarball, without port, query and
-- percent sign, on a host that the allowlist names and that is neither `localhost` nor an address, and
-- the URL is read into its host and its path, the URL is replaced by the proxy's base and a route, and
-- what follows is rewritten on its own. A `GET` of the route, after a miss in a cache without a limit,
-- without other callers or a fault, gets with status 200 the body that the upstream server sends with a
-- status below 400 for the URL that stood in the text, where `url.PathUnescape` keeps a text without a
-- percent sign.
pub rewrite_direct_tarball_urls-resolves :
    (o : Outside) (s : Server) (r : Request) (parse_url : Bytes → Option Link)
    (proxy_base pre : Bytes) (a : ℕ) (host : Bytes) (b : ℕ) (path rest : Bytes) (c : Cache)
    (resp : Response)
    → has_byte b'h' pre ≡ false
    → IsTarballUrl a host b path
    → has_byte b'%' (b ∷ path) ≡ false
    → allowed s.matchers (a ∷ host) ≡ true
    → uses_http_upstream o.is_ip (a ∷ host) ≡ false
    → parse_url (tarball_url a host b path) ≡ some (tarball_link a host b path)
    → KeepsPlain o.unescape
    → IsRequestFor r (route_of a host b path)
    → fast_path o.world
        (tarball_cache_key (a ∷ host) (b'/' ∷ b ∷ (path ++ codes ".tgz")))
        o.checked
        o.now
        s.cache
      ≡ (c, none)
    → o.put_fault ≡ none
    → o.answers (tarball_url a host b path) ≡ responds resp
    → ltb resp.status 400 ≡ true
    → c.max_size ≡ 0
    → let rewritten = rewrite_direct_tarball_urls parse_url proxy_base s.matchers in
      (rewritten (pre ++ (tarball_url a host b path ++ 34 ∷ rest))
        ≡ pre ++ ((trim_right_slash proxy_base ++ route_of a host b path) ++ rewritten (34 ∷ rest)))
      × ((handle_request o r s).1 ≡ tarball_of resp.body)
unfolding rewrite_direct_tarball_urls
rewrite_direct_tarball_urls-resolves o s r parse_url proxy_base pre a host b path rest c resp plain
      url unescaped allows secure parses keeps asks missed no_fault answers fine unlimited =
    let (first, names, ok) = url in
    let p : Only is_host_byte (a ∷ host) = (first_host_byte a first, names) in
    let base = trim_right_slash proxy_base in
    let replace = rewrite_match parse_url base s.matchers in
    let routed = handle_request-route o s r a host b path asks keeps unescaped p allows secure in
    (
      replace_all_func-tarball replace pre a host b path rest plain url
          ∙ ap (λ r. pre ++ (r ++ replace_all_func replace 0 (34 ∷ rest)))
              (rewrite_match-tarball parse_url base s.matchers a host b path allows parses),
      ap (λ x. x.1) routed
          ∙ route_fetches o s a host b path c resp missed no_fault answers fine unlimited,
    )
