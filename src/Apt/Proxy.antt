-- ===== src/Apt/Proxy.antt =====
-- apt/apt.go: `handleRequest` and `handleProxy`. What `url.Parse` makes of a URL, and what the
-- upstream server answers to the forwarded headers, are arguments.
pub mod Kept
use proxykit.Prelude.{
  ℕ, Bool, true, false, not, ◌&&◌, ◌||◌, Option, none, some, List, [], ◌∷◌, if◌then◌else◌, ltb,
  ◌==◌,
}
use proxykit.Prelude.Int.{ℤ}
use proxykit.Prelude.Text.{Bytes, codes, bytes_eq, has_prefix}
use proxykit.Cache.State.{Cache, World}
use proxykit.Cache.Ops.{PutError}
use proxykit.Cache.Fetch.{
  Fetched, content, fetch_error, Reply, opened, error, upstream, fast_path, get_or_fetch,
}
use proxykit.Http.{
  Header, header_get, Response, Upstream, unreachable, responds, ParsedUrl, http_error,
}
use proxykit.Apt.Paths.{is_allowed_host, classify_ttl, content_type_for_path}

-- What the handler reads of an `http.Request`.
pub record Request : Type 0 where
  pub is_get : Bool
  pub request_uri : Bytes
  pub path : Bytes
  pub header : Header

pub record Server : Type 0 where
  pub allowed_hosts : List Bytes
  pub metadata_ttl : ℤ
  pub cache : Cache

-- What the server takes from outside. The upstream server sees the headers that are forwarded.
pub record Outside : Type 0 where
  pub parse_url : Bytes → Option ParsedUrl
  pub hash_key : Bytes → Bytes
  pub world : World
  pub put_fault : Option PutError
  pub answers : Bytes → Header → Upstream
  pub checked : ℕ
  pub now : ℕ
  pub later : ℕ

-- The headers of a list of names that have a value, in the order of the names.
unfoldable pub pick_headers : List Bytes → Header → Header
pick_headers [] h = []
pick_headers (name ∷ names) h =
    let rest = pick_headers names h in
    if bytes_eq (header_get name h) [] then rest else (name, header_get name h ∷ []) ∷ rest

-- The headers that `fetchUpstream` forwards.
unfoldable pub forwarded_headers : Header → Header
forwarded_headers h =
    pick_headers
      (codes "Accept"
        ∷ codes "Accept-Encoding"
        ∷ codes "If-Modified-Since"
        ∷ codes "If-None-Match"
        ∷ [])
      h

-- The headers that `handleProxy` passes on after a miss.
unfoldable pub preserved_headers : Header → Header
preserved_headers h =
    pick_headers
      (codes "Content-Type" ∷ codes "Content-Length" ∷ codes "Last-Modified" ∷ codes "ETag" ∷ []) h

-- `validateUpstreamURL`, as whether it returns no error.
pub is_valid_upstream : Outside → Server → Bytes → Bool
is_valid_upstream o s raw = elim (o.parse_url raw) [
  | none ↦ false
  | some u ↦
      (bytes_eq u.scheme (codes "http") || bytes_eq u.scheme (codes "https"))
      && (not (bytes_eq u.hostname []) && is_allowed_host s.allowed_hosts u.hostname)
]

-- The callback of `handleProxy`; its error is the status of the response, if there is one.
pub fetch_package : ℤ → Upstream → Fetched (Option ℕ)
fetch_package ttl unreachable = fetch_error none
fetch_package ttl (responds r) =
    if r.status == 404
    then fetch_error (some 404)
    else if ltb r.status 400
    then content r.body ttl
    else fetch_error (some r.status)

-- `handleFetchError`.
pub handle_fetch_error : Option ℕ → Response
handle_fetch_error none = http_error 502 (codes "bad gateway")
handle_fetch_error (some status) =
    if status == 404
    then http_error 404 (codes "not found")
    else http_error 502 (codes "bad gateway")

-- The answer with a body: the captured headers where the callback ran, or those inferred from the path.
unfoldable pub serve_body : Bytes → Option Response → Bytes → Response
serve_body path (some r) body = record {
  status = if r.status == 0 then 200 else r.status;
  header = preserved_headers r.header;
  body = body;
}
serve_body path none body = record {
  status = 200;
  header = (codes "Content-Type", content_type_for_path path ∷ []) ∷ [];
  body = body;
}

-- What the callback captured: nothing on a hit, and nothing from a server that cannot be reached.
pub captured : Option Bytes → Upstream → Option Response
captured (some body) up = none
captured none unreachable = none
captured none (responds r) = some r

-- The end of `handleProxy`.
pub serve_reply : Bytes → Option Response → Reply (Option ℕ) → Response
serve_reply path capture (opened body) = serve_body path capture body
serve_reply path capture (error (upstream e)) = handle_fetch_error e
serve_reply path capture (error e) = handle_fetch_error none

-- `handleProxy` behind the check of the URL, where no other request for it is in flight.
pub proxy_valid : Outside → Request → Server → Server × Response
proxy_valid o r s =
    let up = o.answers r.request_uri (forwarded_headers r.header) in
    let ttl = classify_ttl r.path s.metadata_ttl in
    let found = (fast_path o.world r.request_uri o.checked o.now s.cache).1 in
    let (cache, reply) =
      get_or_fetch o.hash_key o.world o.put_fault r.request_uri (fetch_package ttl up) o.checked
        o.now o.later s.cache in
    (record s { cache = cache }, serve_reply r.path (captured found up) reply)

-- `handleProxy`.
pub handle_proxy : Outside → Request → Server → Server × Response
handle_proxy o r s =
    if is_valid_upstream o s r.request_uri
    then proxy_valid o r s
    else (s, http_error 403 (codes "forbidden"))

-- `isForwardProxy`.
unfoldable is_forward_proxy : Request → Bool
is_forward_proxy r =
    has_prefix r.request_uri (codes "http://") || has_prefix r.request_uri (codes "https://")

-- `handleRequest`.
pub handle_request : Outside → Request → Server → Server × Response
handle_request o r s =
    if bytes_eq r.path (codes "/healthz") && not (is_forward_proxy r)
    then (
      s,
      record {
        status = 200;
        header = (codes "Content-Type", codes "application/json" ∷ []) ∷ [];
        body = codes "{\"status\":\"ok\"}";
      },
    )
    else if not r.is_get
    then (s, http_error 405 (codes "method not allowed"))
    else if not (is_forward_proxy r)
    then (
      s,
      http_error 400 (codes "this is an APT forward proxy; configure with Acquire::http::Proxy"),
    )
    else handle_proxy o r s
