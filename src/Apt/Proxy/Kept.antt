-- ===== src/Apt/Proxy/Kept.antt =====
-- apt/apt.go: what a request leaves in the cache, and what later requests get.
use proxykit.Prelude.{
  ℕ, ◌+◌, ◌-◌, ◌≤◌, ◌≡◌, refl, ap, ◌∙◌, Bool, true, false, ◌||◌, List, [], ◌∷◌, All, Option, none,
  some, ◌⊎◌, arith, if◌then◌else◌, ltb, ◌==◌, length,
}
use proxykit.Prelude.Int.{ℤ}
use proxykit.Prelude.Text.{Bytes, codes, bytes_eq, bytes_eq_iff, equal_fold, to_lower, lower}
use proxykit.Cache.Entry.{expired_at}
use proxykit.Cache.State.{Cache, old_size}
use proxykit.Cache.Ops.{deadline, effective_ttl, PutError}
use proxykit.Cache.Fetch.{Fetched, content, fetch_error, Reply, fast_path, get_or_fetch}
use proxykit.Cache.Fetch.Answers.{stored_found, get_or_fetch-fast_path, get_or_fetch_failed}
use proxykit.Apt.Paths.{classify_ttl, is_package_file, is_allowed_host}
use proxykit.Apt.Proxy.{
  Request, Server, Outside, forwarded_headers, fetch_package, handle_fetch_error, serve_body,
  captured, serve_reply, pick_headers, preserved_headers, proxy_valid, is_valid_upstream,
  handle_proxy, handle_request,
}
use proxykit.Http.{Response, Upstream, responds, http_error, ParsedUrl}
use proxykit.Http.{Header, header_get}
use proxykit.Http.Lookup.{header_get-fold}

-- Whether a name is one of a list, in any case.
unfoldable any_fold : Bytes → List Bytes → Bool
any_fold name [] = false
any_fold name (n ∷ names) = equal_fold n name || any_fold name names

-- What `Get` finds among the headers that are picked.
pick_headers-kept :
    (name : Bytes) (names : List Bytes) (h : Header)
    → header_get name (pick_headers names h)
      ≡ (if any_fold name names then header_get name h else [])
unfolding pick_headers header_get any_fold
pick_headers-kept name [] h = refl
pick_headers-kept name (n ∷ names) h = ground (
  arith,
  pick_headers-kept name names h,
  bytes_eq_iff (header_get n h) [],
  header_get-fold n name h,
)

-- The four headers that are passed on after a miss.
preserved_kept :
    (h : Header)
    → (header_get (codes "Content-Type") (preserved_headers h)
        ≡ header_get (codes "Content-Type") h)
      × (header_get (codes "Content-Length") (preserved_headers h)
          ≡ header_get (codes "Content-Length") h)
      × (header_get (codes "Last-Modified") (preserved_headers h)
          ≡ header_get (codes "Last-Modified") h)
      × (header_get (codes "ETag") (preserved_headers h) ≡ header_get (codes "ETag") h)
unfolding preserved_headers any_fold equal_fold to_lower lower bytes_eq
preserved_kept h =
    let names =
      codes "Content-Type" ∷ codes "Content-Length" ∷ codes "Last-Modified" ∷ codes "ETag" ∷ [] in
    (
      pick_headers-kept (codes "Content-Type") names h,
      pick_headers-kept (codes "Content-Length") names h,
      pick_headers-kept (codes "Last-Modified") names h,
      pick_headers-kept (codes "ETag") names h,
    )

-- A request that finds a body in the cache is answered from it.
proxy_hit :
    (o : Outside) (r : Request) (s : Server) {body : Bytes}
    → (fast_path o.world r.request_uri o.checked o.now s.cache).1 ≡ some body
    → (proxy_valid o r s).1 ≡ serve_body r.path none body
unfolding proxy_valid serve_reply captured
proxy_hit o r s {body} hit =
    let up = o.answers r.request_uri (forwarded_headers r.header) in
    let fetch = fetch_package (classify_ttl r.path s.metadata_ttl) up in
    let reply =
      (get_or_fetch o.hash_key o.world o.put_fault r.request_uri fetch o.checked o.now o.later
        s.cache).1 in
    ap (λ f. serve_reply r.path (captured f up) reply) hit
    ∙ ap (serve_reply r.path none) (
        get_or_fetch-fast_path o.hash_key o.world o.put_fault r.request_uri fetch o.checked o.now
          o.later s.cache hit)

content_kept :
    (ttl : ℤ) (resp : Response)
    → ltb resp.status 400 ≡ true
    → fetch_package ttl (responds resp) ≡ content resp.body ttl
unfolding fetch_package
content_kept ttl resp fine = ground arith

module _ (o : Outside) (r : Request) (s : Server) (c : Cache)
    (missed : fast_path o.world r.request_uri o.checked o.now s.cache ≡ (c, none)) where
  -- The call of the cache, once the callback's result is known.
  abbrev call : Option PutError → Fetched (Option ℕ) → Cache × Reply (Option ℕ)
  call fault fetch =
      get_or_fetch o.hash_key o.world fault r.request_uri fetch o.checked o.now o.later s.cache

  proxied :
      (fault : Option PutError) (up : Upstream) (fetch : Fetched (Option ℕ))
      → o.put_fault ≡ fault
      → o.answers r.request_uri (forwarded_headers r.header) ≡ up
      → fetch_package (classify_ttl r.path s.metadata_ttl) up ≡ fetch
      → proxy_valid o r s ≡ (
        record s { cache = (call fault fetch).0 },
        serve_reply r.path (captured none up) (call fault fetch).1,
      )
  unfolding proxy_valid
  proxied fault up fetch same_fault answers fetches =
      let asked = o.answers r.request_uri (forwarded_headers r.header) in
      let fetched = fetch_package (classify_ttl r.path s.metadata_ttl) asked in
      let found = fast_path o.world r.request_uri o.checked o.now s.cache in
      let called : call o.put_fault fetched ≡ call fault fetch =
        ap (λ f. call f fetched) same_fault
        ∙ ap (λ u. call fault (fetch_package (classify_ttl r.path s.metadata_ttl) u)) answers
        ∙ ap (call fault) fetches in
      let done = call fault fetch in
      ap (λ x. (record s { cache = x.0 }, serve_reply r.path (captured found.1 asked) x.1)) called
      ∙ ap (λ f. (record s { cache = done.0 }, serve_reply r.path (captured f.1 asked) done.1))
          missed
      ∙ ap (λ u. (record s { cache = done.0 }, serve_reply r.path (captured none u) done.1)) answers

  -- After a miss without other callers, a response with a status from 400 on is answered by 404 if it is that and by 502
  -- otherwise, and the cache is as it was after the miss.
  upstream_error_answered :
      (resp : Response)
      → o.answers r.request_uri (forwarded_headers r.header) ≡ responds resp
      → ltb resp.status 400 ≡ false
      → proxy_valid o r s ≡ (
        record s { cache = c },
        if resp.status == 404
            then http_error 404 (codes "not found")
            else http_error 502 (codes "bad gateway"),
      )
  unfolding serve_reply handle_fetch_error
  upstream_error_answered resp answers bad =
      let failed = fetch_error (some resp.status) in
      proxied o.put_fault (responds resp) failed refl answers (unfold fetch_package in ground arith)
      ∙ ap (λ x. (record s { cache = x.0 }, serve_reply r.path (captured none (responds resp)) x.1))
          (get_or_fetch_failed o.hash_key o.world r.request_uri o.checked o.now o.later s.cache c
            missed o.put_fault (some resp.status)).0

  module _ (resp : Response) (no_fault : o.put_fault ≡ none)
      (answers : o.answers r.request_uri (forwarded_headers r.header) ≡ responds resp)
      (fine : ltb resp.status 400 ≡ true)
      (room : (c.max_size ≡ 0)
        ⊎ ((c.total_size - old_size r.request_uri c.entries) + length resp.body ≤ c.max_size)) where
    -- The answer to the request, and to a later one for the URL.
    answers_of_body :
        (o' : Outside) (r' : Request)
        → r'.request_uri ≡ r.request_uri
        → expired_at
            (deadline (effective_ttl c.ttl (classify_ttl r.path s.metadata_ttl)) o.later)
            o'.checked
          ≡ false
        → ((proxy_valid o r s).1 ≡ serve_body r.path (some resp) resp.body)
          × ((proxy_valid o' r' (proxy_valid o r s).0).1 ≡ serve_body r'.path none resp.body)
    unfolding serve_reply captured
    answers_of_body o' r' same live =
        let ttl = classify_ttl r.path s.metadata_ttl in
        let (answer, found) =
          stored_found {E = Option ℕ} o.hash_key o.world r.request_uri o.checked o.now o.later
            s.cache c missed resp.body ttl room o'.world o'.checked o'.now live in
        let first =
          proxied none (responds resp) (content resp.body ttl) no_fault answers
            (content_kept ttl resp fine) in
        (
          ap (λ x. x.1) first ∙ ap (serve_reply r.path (captured none (responds resp))) answer,
          proxy_hit o' r' (proxy_valid o r s).0 (
              ap (λ x. (fast_path o'.world r'.request_uri o'.checked o'.now x.0.cache).1) first
              ∙ ap
                  (λ u.
                    (fast_path o'.world u o'.checked o'.now
                      (call none (content resp.body ttl)).0).1)
                  same
              ∙ found),
        )

    -- After a miss without other callers or a fault, every response with a status below 400 for which
    -- there is room is kept: the client gets its body under its own status, or 200 for a status of 0,
    -- with the response's type, length, time of change and tag, and later requests for the URL are
    -- answered with status 200 and its body until the deadline, whatever their headers and the upstream
    -- server's answer then.
    pub response_kept :
        (o' : Outside) (r' : Request)
        → r'.request_uri ≡ r.request_uri
        → expired_at
            (deadline (effective_ttl c.ttl (classify_ttl r.path s.metadata_ttl)) o.later)
            o'.checked
          ≡ false
        → (let first = proxy_valid o r s in
            let later = (proxy_valid o' r' first.0).1 in
            (first.1.status ≡ (if resp.status == 0 then 200 else resp.status))
            × (first.1.body ≡ resp.body)
            × All
                (λ name. header_get name first.1.header ≡ header_get name resp.header)
                (codes "Content-Type"
                  ∷ codes "Content-Length"
                  ∷ codes "Last-Modified"
                  ∷ codes "ETag"
                  ∷ [])
            × (later.status ≡ 200)
            × (later.body ≡ resp.body))
    response_kept o' r' same live =
        let (answer, again) = answers_of_body o' r' same live in
        let header : (proxy_valid o r s).1.header ≡ preserved_headers resp.header =
          unfold serve_body in ap (λ (x : Response). x.header) answer in
        let kept : (name : Bytes)
            → header_get name (preserved_headers resp.header) ≡ header_get name resp.header
            → header_get name (proxy_valid o r s).1.header ≡ header_get name resp.header =
          λ name e. ap (header_get name) header ∙ e in
        let (type, size, modified, tag) = preserved_kept resp.header in
        (
          unfold serve_body in ap (λ (x : Response). x.status) answer,
          unfold serve_body in ap (λ (x : Response). x.body) answer,
          (kept _ type, (kept _ size, (kept _ modified, (kept _ tag, tt)))),
          unfold serve_body in ap (λ (x : Response). x.status) again,
          unfold serve_body in ap (λ (x : Response). x.body) again,
        )

    -- After a miss without other callers or a fault, a package that comes with a status below 400 and
    -- for which there is room is served to a later request for its URL at any time.
    package_kept :
        (o' : Outside) (r' : Request)
        → r'.request_uri ≡ r.request_uri
        → is_package_file r.path ≡ true
        → (proxy_valid o' r' (proxy_valid o r s).0).1 ≡ serve_body r'.path none resp.body
    unfolding classify_ttl effective_ttl deadline expired_at
    package_kept o' r' same is_package = (answers_of_body o' r' same (ground (arith, is_package))).1

-- A request for a host that no pattern allows is answered without asking the upstream server, and
-- leaves the cache alone.
unlisted_host_refused :
    (o : Outside) (r : Request) (s : Server) (u : ParsedUrl) (other : Bytes → Header → Upstream)
    → o.parse_url r.request_uri ≡ some u
    → is_allowed_host s.allowed_hosts u.hostname ≡ false
    → (handle_request o r s ≡ handle_request (record o { answers = other }) r s)
      × ((handle_request o r s).0 ≡ s)
unfolding handle_request handle_proxy is_valid_upstream
unlisted_host_refused o r s u other parses unlisted =
    (ground (arith, parses, unlisted), ground (arith, parses, unlisted))
