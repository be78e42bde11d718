-- ===== src/Npm/Proxy/Served.antt =====
-- npm/npm.go: what a fetched file is served as, to the client that caused the fetch and to later ones.
use proxykit.Prelude.{
  ℕ, ◌+◌, ◌-◌, ◌≤◌, ◌≡◌, ◌⊎◌, refl, ap, ◌∙◌, true, false, Option, none, some, List, [], ◌∷◌, ◌++◌,
  arith, ltb, length,
}
use proxykit.Prelude.Int.{ℤ, negsuc}
use proxykit.Prelude.Text.{Bytes, codes, bytes_eq, has_suffix}
use proxykit.Cache.Entry.{expired_at}
use proxykit.Cache.State.{Cache, old_size}
use proxykit.Cache.Ops.{deadline, effective_ttl}
use proxykit.Cache.Fetch.{content, fast_path, get_or_fetch}
use proxykit.Cache.Fetch.Answers.{stored_found, get_or_fetch-fast_path}
use proxykit.Http.{Response, responds}
use proxykit.Npm.Keys.{extract_package_name, metadata_cache_key, tarball_cache_key}
use proxykit.Npm.Paths.{trim_right_slash}
use proxykit.Npm.Paths.Rewrites.{joined_by, AreCuts, rewrite_registry_tarball_urls-joined_by}
use proxykit.Npm.Proxy.{
  Server, Outside, fetch_file, serve_reply, serve_metadata, served, through_cache, upstream_url_of,
  handle_metadata, handle_tarball,
}

content_kept :
    (ttl : ℤ) (resp : Response)
    → ltb resp.status 400 ≡ true
    → fetch_file ttl (responds resp) ≡ content resp.body ttl
unfolding fetch_file
content_kept ttl resp fine = ground arith

-- A file that the cache has is served by the request's own way of serving, and nothing is fetched.
through_cache_hit :
    (o : Outside) (key : Bytes) (ttl : ℤ) (url : Bytes) (serve : Bytes → Response) (s : Server)
    {body : Bytes}
    → (fast_path o.world key o.checked o.now s.cache).1 ≡ some body
    → (through_cache o key ttl url serve s).1 ≡ serve body
unfolding through_cache serve_reply
through_cache_hit o key ttl url serve s hit = ap (serve_reply serve) (
    get_or_fetch-fast_path o.hash_key o.world o.put_fault key (fetch_file ttl (o.answers url))
      o.checked o.now o.later s.cache hit)

module _ (o : Outside) (key : Bytes) (ttl : ℤ) (url : Bytes) (s : Server) (c : Cache)
    (missed : fast_path o.world key o.checked o.now s.cache ≡ (c, none)) (resp : Response)
    (no_fault : o.put_fault ≡ none) (answers : o.answers url ≡ responds resp)
    (fine : ltb resp.status 400 ≡ true)
    (room : (c.max_size ≡ 0)
      ⊎ ((c.total_size - old_size key c.entries) + length resp.body ≤ c.max_size)) where
  -- A file that was fetched is there for the next request with its key, however that serves it.
  pub through_cache_kept :
      (serve serve' : Bytes → Response) (o' : Outside) (ttl' : ℤ) (url' : Bytes)
      → expired_at (deadline (effective_ttl c.ttl ttl) o.later) o'.checked ≡ false
      → ((through_cache o key ttl url serve s).1 ≡ serve resp.body)
        × ((through_cache o' key ttl' url' serve' (through_cache o key ttl url serve s).0).1
            ≡ serve' resp.body)
  through_cache_kept serve serve' o' ttl' url' live =
      let (answer, found) =
        stored_found {E = Option ℕ} o.hash_key o.world key o.checked o.now o.later s.cache c missed
          resp.body ttl room o'.world o'.checked o'.now live in
      let called : get_or_fetch o.hash_key o.world o.put_fault key (fetch_file ttl (o.answers url))
            o.checked o.now o.later s.cache
          ≡ get_or_fetch o.hash_key o.world none key (content resp.body ttl) o.checked o.now o.later
              s.cache =
        ap
          (λ f.
            get_or_fetch o.hash_key o.world f key (fetch_file ttl (o.answers url)) o.checked o.now
              o.later s.cache)
          no_fault
        ∙ ap (λ x. get_or_fetch o.hash_key o.world none key x o.checked o.now o.later s.cache)
            (ap (fetch_file ttl) answers ∙ content_kept ttl resp fine) in
      (
        unfold through_cache serve_reply in
            (ap (λ g. serve_reply serve g.1) called ∙ ap (serve_reply serve) answer),
        through_cache_hit o' key ttl' url' serve' (through_cache o key ttl url serve s).0 (
            unfold through_cache in
            (ap (λ g. (fast_path o'.world key o'.checked o'.now g.0).1) called ∙ found)),
      )

-- The answers, with the program's own rewriting.
metadata_answers :
    (o o' : Outside) (host host' base path upstream_host : Bytes) (s : Server) (c : Cache)
    (resp : Response)
    → fast_path o.world (metadata_cache_key upstream_host path) o.checked o.now s.cache ≡ (c, none)
    → o.put_fault ≡ none
    → o.answers (upstream_url_of base path) ≡ responds resp
    → ltb resp.status 400 ≡ true
    → (c.max_size ≡ 0)
      ⊎ ((c.total_size - old_size (metadata_cache_key upstream_host path) c.entries)
            + length resp.body
          ≤ c.max_size)
    → bytes_eq (extract_package_name path) [] ≡ false
    → expired_at (deadline (effective_ttl c.ttl s.metadata_ttl) o.later) o'.checked ≡ false
    → ((handle_metadata o host base path upstream_host s).1
        ≡ serve_metadata base upstream_host host resp.body)
      × ((handle_metadata o' host' base path upstream_host
            (handle_metadata o host base path upstream_host s).0).1
          ≡ serve_metadata base upstream_host host' resp.body)
unfolding handle_metadata through_cache
metadata_answers o o' host host' base path upstream_host s c resp missed no_fault answers fine room
      named live =
    rw named (
      through_cache_kept o (metadata_cache_key upstream_host path) s.metadata_ttl
        (upstream_url_of base path) s c missed resp no_fault answers fine room
        (serve_metadata base upstream_host host) (serve_metadata base upstream_host host') o'
        s.metadata_ttl (upstream_url_of base path) live)

-- A body that is cut at the registry's address, served to a client that names a host.
abbrev pub metadata_for : Bytes → Bytes → Bytes → List Bytes → Response
metadata_for host upstream_host part parts = record {
  status = 200;
  header = (codes "Content-Type", codes "application/json" ∷ []) ∷ [];
  body = joined_by (codes "http://" ++ (host ++ (codes "/_upstream/" ++ upstream_host))) part parts;
}

serve_metadata-joined_by :
    (base : Bytes) (c : ℕ) (word host upstream_host part : Bytes) (parts : List Bytes)
    → trim_right_slash base ≡ c ∷ word
    → AreCuts (c ∷ word) part parts
    → bytes_eq host [] ≡ false
    → has_suffix host (codes "/") ≡ false
    → serve_metadata base upstream_host host (joined_by (c ∷ word) part parts)
      ≡ metadata_for host upstream_host part parts
unfolding serve_metadata served
serve_metadata-joined_by base c word host upstream_host part parts address cuts full bare =
    rw full (
      ap
        (λ text. record {
          status = 200;
          header = (codes "Content-Type", codes "application/json" ∷ []) ∷ [];
          body = text;
        })
        (rewrite_registry_tarball_urls-joined_by base c word host upstream_host part parts address
          bare cuts))

-- After a miss without other callers or a fault, metadata of a named package that comes with a status
-- below 400 and for which there is room is served to every client until its deadline, with status 200
-- and as JSON, whichever client caused the fetch: where the registry's address without the slashes at
-- its end stands in the body, the client gets `http://`, the host that it names, which is neither
-- empty nor ends in a slash, and the route to the registry, and all that is between as it came.
pub metadata_served_per_host :
    (o o' : Outside) (host host' base : Bytes) (first : ℕ) (word path upstream_host : Bytes)
    (s : Server) (c : Cache) (resp : Response) (part : Bytes) (parts : List Bytes)
    → fast_path o.world (metadata_cache_key upstream_host path) o.checked o.now s.cache ≡ (c, none)
    → o.put_fault ≡ none
    → o.answers (upstream_url_of base path) ≡ responds resp
    → ltb resp.status 400 ≡ true
    → (c.max_size ≡ 0)
      ⊎ ((c.total_size - old_size (metadata_cache_key upstream_host path) c.entries)
            + length resp.body
          ≤ c.max_size)
    → bytes_eq (extract_package_name path) [] ≡ false
    → expired_at (deadline (effective_ttl c.ttl s.metadata_ttl) o.later) o'.checked ≡ false
    → trim_right_slash base ≡ first ∷ word
    → resp.body ≡ joined_by (first ∷ word) part parts
    → AreCuts (first ∷ word) part parts
    → (bytes_eq host [] ≡ false) × (has_suffix host (codes "/") ≡ false)
    → (bytes_eq host' [] ≡ false) × (has_suffix host' (codes "/") ≡ false)
    → ((handle_metadata o host base path upstream_host s).1
        ≡ metadata_for host upstream_host part parts)
      × ((handle_metadata o' host' base path upstream_host
            (handle_metadata o host base path upstream_host s).0).1
          ≡ metadata_for host' upstream_host part parts)
metadata_served_per_host o o' host host' base first word path upstream_host s c resp part parts
      missed no_fault answers fine room named live address body cuts (full, bare) (full', bare') =
    let (one, two) =
      metadata_answers o o' host host' base path upstream_host s c resp missed no_fault answers fine
        room named live in
    (
      one
          ∙ ap (serve_metadata base upstream_host host) body
          ∙ serve_metadata-joined_by base first word host upstream_host part parts address cuts full
              bare,
      two
          ∙ ap (serve_metadata base upstream_host host') body
          ∙ serve_metadata-joined_by base first word host' upstream_host part parts address cuts
              full' bare',
    )

-- After a miss without other callers or a fault, a tarball that comes with a status below 400 and for which
-- there is room is served at any later time for every path and upstream server with the same key.
tarball_served :
    (o o' : Outside) (base base' path path' host host' : Bytes) (s : Server) (c : Cache)
    (resp : Response)
    → fast_path o.world (tarball_cache_key host path) o.checked o.now s.cache ≡ (c, none)
    → o.put_fault ≡ none
    → o.answers (upstream_url_of base path) ≡ responds resp
    → ltb resp.status 400 ≡ true
    → (c.max_size ≡ 0)
      ⊎ ((c.total_size - old_size (tarball_cache_key host path) c.entries) + length resp.body
          ≤ c.max_size)
    → tarball_cache_key host' path' ≡ tarball_cache_key host path
    → ((handle_tarball o base path host s).1 ≡ served (codes "application/octet-stream") resp.body)
      × ((handle_tarball o' base' path' host' (handle_tarball o base path host s).0).1
          ≡ served (codes "application/octet-stream") resp.body)
unfolding handle_tarball effective_ttl deadline expired_at
tarball_served o o' base base' path path' host host' s c resp missed no_fault answers fine room
      same =
    let serve = served (codes "application/octet-stream") in
    let (first, second) =
      through_cache_kept o (tarball_cache_key host path) (negsuc 0) (upstream_url_of base path) s c
        missed resp no_fault answers fine room serve serve o' (negsuc 0)
        (upstream_url_of base' path') refl in
    (
      first,
      ap
            (λ k.
              (through_cache o' k (negsuc 0) (upstream_url_of base' path') serve
                (through_cache o (tarball_cache_key host path) (negsuc 0)
                  (upstream_url_of base path) serve s).0).1)
            same
          ∙ second,
    )
