-- ===== src/Npm/Proxy.antt =====
-- npm/npm.go: the handlers. What `url.Parse`, `url.PathUnescape` and `net.ParseIP` read, and what a
-- request to a URL gives, are arguments; a stored body that was opened is read to its end. The reason
-- behind `forbidden` in a reply is left out.
pub mod Served
pub mod Routed
use proxykit.Prelude.{
  ℕ, Bool, true, false, not, ◌&&◌, ◌||◌, Option, none, some, List, [], ◌∷◌, ◌++◌, if◌then◌else◌,
  ltb, ◌==◌,
}
use proxykit.Prelude.Int.{ℤ, negsuc}
use proxykit.Prelude.Text.{Bytes, codes, bytes_eq, has_prefix, has_suffix}
use proxykit.Cache.State.{Cache, World}
use proxykit.Cache.Ops.{PutError}
use proxykit.Cache.Fetch.{
  Fetched, content, fetch_error, Reply, opened, error, upstream, get_or_fetch,
}
use proxykit.Http.{Response, Upstream, unreachable, responds, http_error}
use proxykit.Glob.{Piece}
use proxykit.Npm.Allowlist.{allowed}
use proxykit.Npm.Keys.{extract_package_name, metadata_cache_key, tarball_cache_key}
use proxykit.Npm.Paths.{
  parse_upstream_path, upstream_registry_base_url, trim_right_slash, rewrite_registry_tarball_urls,
}

-- What the handlers read of an `http.Request`.
pub record Request : Type 0 where
  pub is_get : Bool
  pub request_uri : Bytes
  pub path : Bytes
  pub host : Bytes

pub record Server : Type 0 where
  pub upstream_url : Bytes
  pub matchers : List (List Piece)
  pub metadata_ttl : ℤ
  pub cache : Cache

-- The fields of a `url.URL` that are read; `host` has the port, and `hostname` is without it.
pub record FetchUrl : Type 0 where
  pub scheme : Bytes
  pub host : Bytes
  pub hostname : Bytes
  pub path : Bytes
  raw_query : Bytes

pub record Outside : Type 0 where
  pub parse_url : Bytes → Option FetchUrl
  pub unescape : Bytes → Option Bytes
  pub is_ip : Bytes → Bool
  pub hash_key : Bytes → Bytes
  pub world : World
  pub put_fault : Option PutError
  pub answers : Bytes → Upstream
  pub checked : ℕ
  pub now : ℕ
  pub later : ℕ

-- `isForwardProxyRequest`.
unfoldable pub is_forward_proxy_request : Request → Bool
is_forward_proxy_request r =
    has_prefix r.request_uri (codes "http://") || has_prefix r.request_uri (codes "https://")

-- `isTarballPath`, which is `isTarballRequest` too.
unfoldable pub is_tarball_path : Bytes → Bool
is_tarball_path path = has_suffix path (codes ".tgz")

-- The callbacks of `handleMetadata` and of `handleTarballURL`, with the lifetime that each returns; the
-- error is the status of the response, if there is one.
pub fetch_file : ℤ → Upstream → Fetched (Option ℕ)
fetch_file ttl unreachable = fetch_error none
fetch_file ttl (responds r) =
    if r.status == 404
    then fetch_error (some 404)
    else if ltb r.status 400
    then content r.body ttl
    else fetch_error (some r.status)

-- `handleFetchError`.
unfoldable pub handle_fetch_error : Option ℕ → Response
handle_fetch_error none = http_error 502 (codes "bad gateway")
handle_fetch_error (some status) =
    if status == 404
    then http_error 404 (codes "not found")
    else http_error 502 (codes "bad gateway")

-- A body with status 200 and a content type.
unfoldable pub served : Bytes → Bytes → Response
served content_type body = record {
  status = 200;
  header = (codes "Content-Type", content_type ∷ []) ∷ [];
  body = body;
}

-- What is sent of the result of `GetOrFetch`: an error, or what `serve` makes of the body.
unfoldable pub serve_reply : (Bytes → Response) → Reply (Option ℕ) → Response
serve_reply serve (opened body) = serve body
serve_reply serve (error (upstream e)) = handle_fetch_error e
serve_reply serve (error e) = handle_fetch_error none

-- A file under a key, from the cache or from a URL, where no other request for it is in flight.
pub through_cache : Outside → Bytes → ℤ → Bytes → (Bytes → Response) → Server → Server × Response
through_cache o key ttl url serve s =
    let (cache, reply) =
      get_or_fetch o.hash_key o.world o.put_fault key (fetch_file ttl (o.answers url)) o.checked
        o.now o.later s.cache in
    (record s { cache = cache }, serve_reply serve reply)

-- The URL that `fetchFromUpstream` asks for.
unfoldable pub upstream_url_of : Bytes → Bytes → Bytes
upstream_url_of base path = trim_right_slash base ++ path

-- The end of `handleMetadata`: the URLs in the body are rewritten for the host that the client names.
unfoldable pub serve_metadata : Bytes → Bytes → Bytes → Bytes → Response
serve_metadata base upstream_host host body =
    if bytes_eq host []
    then http_error 400 (codes "missing Host header")
    else served (codes "application/json")
        (rewrite_registry_tarball_urls body base upstream_host host)

-- `handleMetadata`.
pub handle_metadata : Outside → Bytes → Bytes → Bytes → Bytes → Server → Server × Response
handle_metadata o host base path upstream_host s =
    if bytes_eq (extract_package_name path) []
    then (s, http_error 404 (codes "not found"))
    else through_cache o (metadata_cache_key upstream_host path) s.metadata_ttl
        (upstream_url_of base path) (serve_metadata base upstream_host host) s

-- `handleTarball`: a tarball is kept for ever.
unfoldable pub handle_tarball : Outside → Bytes → Bytes → Bytes → Server → Server × Response
handle_tarball o base path upstream_host s =
    through_cache o (tarball_cache_key upstream_host path) (negsuc 0) (upstream_url_of base path)
      (served (codes "application/octet-stream")) s

-- `handleTarballURL` with a URL.
unfoldable pub handle_tarball_url : Outside → Bytes → Server → Server × Response
handle_tarball_url o fetch_url s =
    through_cache o (codes "tar:url:" ++ fetch_url) (negsuc 0) fetch_url
      (served (codes "application/octet-stream")) s

-- The upstream server, the path and the host of a request; without one the request is forbidden.
pub record Resolved : Type 0 where
  pub base : Bytes
  pub fetch_path : Bytes
  pub upstream_host : Bytes

-- `resolveRegistryRequest`.
unfoldable pub resolve_registry_request : Outside → Server → Bytes → Option Resolved
resolve_registry_request o s path = elim (parse_upstream_path path) [
  | some (host, rest) ↦
      if allowed s.matchers host
      then some (record {
        base = upstream_registry_base_url o.is_ip host;
        fetch_path = rest;
        upstream_host = host;
      })
      else none
  | none ↦ elim (o.parse_url s.upstream_url) [
    | none ↦ none
    | some u ↦
        if bytes_eq u.host []
        then none
        else some (record { base = s.upstream_url; fetch_path = path; upstream_host = u.host })
  ]
]

-- `validateUpstreamFetchURL`.
unfoldable pub is_valid_fetch_url : Server → FetchUrl → Bool
is_valid_fetch_url s u =
    (bytes_eq u.scheme (codes "http") || bytes_eq u.scheme (codes "https"))
    && (not (bytes_eq u.hostname []) && allowed s.matchers u.hostname)

-- `handleForwardProxy` behind the check of the URL. The query is part of the path that is looked at.
unfoldable pub forward_valid : Outside → Request → FetchUrl → Server → Server × Response
forward_valid o r u s =
    let fetch_path =
      if bytes_eq u.raw_query [] then u.path else u.path ++ (codes "?" ++ u.raw_query) in
    if is_tarball_path fetch_path
    then handle_tarball_url o r.request_uri s
    else handle_metadata o r.host (u.scheme ++ (codes "://" ++ u.host)) fetch_path u.host s

-- `handleForwardProxy`.
unfoldable pub handle_forward_proxy : Outside → Request → Server → Server × Response
handle_forward_proxy o r s = elim (o.parse_url r.request_uri) [
  | none ↦ (s, http_error 403 (codes "forbidden"))
  | some u ↦
      if is_valid_fetch_url s u
      then forward_valid o r u s
      else (s, http_error 403 (codes "forbidden"))
]

-- The end of `handleRequest`: the path without its escapes, resolved.
unfoldable pub handle_path : Outside → Request → Bytes → Server → Server × Response
handle_path o r path s = elim (resolve_registry_request o s path) [
  | none ↦ (s, http_error 403 (codes "forbidden"))
  | some found ↦
      if is_tarball_path found.fetch_path
      then handle_tarball o found.base found.fetch_path found.upstream_host s
      else handle_metadata o r.host found.base found.fetch_path found.upstream_host s
]

-- `handleRequest`.
unfoldable pub handle_request : Outside → Request → Server → Server × Response
handle_request o r s =
    if not r.is_get
    then (s, http_error 405 (codes "method not allowed"))
    else if bytes_eq r.path (codes "/healthz") && not (is_forward_proxy_request r)
    then (s, served (codes "application/json") (codes "{\"status\":\"ok\"}"))
    else if is_forward_proxy_request r
    then handle_forward_proxy o r s
    else (elim (o.unescape r.path) [
      | none ↦ (s, http_error 400 (codes "bad request"))
      | some path ↦ handle_path o r path s
    ])
