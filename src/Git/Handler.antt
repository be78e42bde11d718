-- ===== src/Git/Handler.antt =====
-- git/handler.go: the handlers. A handler takes the state of both cache levels and returns it with
-- the answer; what the upstream server does is an argument.
pub mod Push
pub mod Clone
pub mod Flights
use proxykit.Prelude.{
  ℕ, ◌+◌, Bool, true, false, not, ◌&&◌, ◌||◌, Option, none, some, List, [], ◌∷◌, ◌++◌,
  if◌then◌else◌, ◌==◌, ltb, leb, length, take,
}
use proxykit.Prelude.Int.{ℤ, pos}
use proxykit.Prelude.Text.{Bytes, codes, bytes_eq, has_suffix, equal_fold}
use proxykit.Cache.State.{Cache, World, write_file}
use proxykit.Cache.Ops.{
  get, PutError, mkdir_failed, create_temp_failed, write_failed, register_after_stream,
  remove_by_prefix,
}
use proxykit.Cache.Fetch.{
  Fetched, content, fetch_error, FetchError, upstream, Reply, opened, error, get_or_fetch,
}
use proxykit.Git.UploadPack.{
  UploadPackRequest, Parsed, parsed, failed, out_of_fuel, parse_upload_pack_request,
  parse_v2_upload_pack_request,
}
use proxykit.Git.Detect.{Request, parse_repo_path, is_protocol_v2, extract_host}
use proxykit.Git.Keys.{
  refs_fingerprint, refs_cache_key, ls_refs_cache_key, pack_cache_key, auth_scope, repo_refs_prefix,
  repo_ls_refs_prefix,
}
use proxykit.Git.Headers.{copy_filtered_headers}
use proxykit.Http.{Response, Upstream, unreachable, responds}

-- What the client is sent.
pub data Answer : Type 0 where
  forwarded : Response → Answer
  served : Bytes → Bytes → Answer
  bad_gateway : Answer
  server_error : Answer

-- The fields of `Config` that the handlers read.
pub record Config : Type 0 where
  pub max_upload_pack_request_size : ℕ
  pub max_pack_cache_entry_size : ℕ
  pub allowed_hosts : List Bytes

pub record Handler : Type 0 where
  pub refs_cache : Cache
  pub packs_cache : Cache
  pub config : Config

-- What the handlers take from outside: the hash, the decompression of a body up to the limit, the
-- database's LIKE, the file system's and the database's successes, the bytes of a copy that reach the
-- client before a fault ends it, and the clock.
pub record Outside : Type 0 where
  pub sha_hex : Bytes → Bytes
  pub gunzip : Bytes → Option Bytes
  pub like : Bytes → Bytes → Bool
  pub world : World
  pub put_fault : Option PutError
  pub flowed : ℕ
  pub checked : ℕ
  pub now : ℕ
  pub later : ℕ

-- `isAllowedHost`.
unfoldable pub in_hosts : Bytes → List Bytes → Bool
in_hosts host [] = false
in_hosts host (allowed ∷ hosts) = equal_fold allowed host || in_hosts host hosts

unfoldable pub is_allowed_host : Config → Bytes → Bool
is_allowed_host cfg host = elim cfg.allowed_hosts [
  | [] ↦ true
  | allowed ∷ hosts ↦ in_hosts host (allowed ∷ hosts)
]

-- `forwardDirect`, `serveUpstreamResponse`.
unfoldable pub forward_direct : Upstream → Answer
forward_direct unreachable = bad_gateway
forward_direct (responds r) = forwarded (record r { header = copy_filtered_headers r.header })

-- The callback of `handleInfoRefs` and of `handleV2LsRefs`; its lifetime 0 is the cache's own.
unfoldable fetch_refs : Upstream → Fetched (Option Response)
fetch_refs unreachable = fetch_error none
fetch_refs (responds r) = if r.status == 200 then content r.body (pos 0) else fetch_error (some r)

-- The end of both: an upstream error is passed on, and a body is served with the content type.
unfoldable serve_refs : Bytes → Reply (Option Response) → Answer
serve_refs content_type (opened body) = served content_type body
serve_refs content_type (error (upstream (some r))) =
    forwarded (record r { header = copy_filtered_headers r.header })
serve_refs content_type (error e) = bad_gateway

-- A level 1 entry, fetched and cached under a key.
unfoldable refs_through_cache : Outside → Bytes → Bytes → Upstream → Handler → Handler × Answer
refs_through_cache o content_type key up h =
    let (refs, reply) =
      get_or_fetch o.sha_hex o.world o.put_fault key (fetch_refs up) o.checked o.now o.later
        h.refs_cache in
    (record h { refs_cache = refs }, serve_refs content_type reply)

-- `handleInfoRefs`.
unfoldable handle_info_refs : Outside → Request → Upstream → Handler → Handler × Answer
handle_info_refs o r up h =
    let host = extract_host r in
    let key = refs_cache_key host (parse_repo_path r.path) (auth_scope o.sha_hex r.authorization) in
    if not (is_allowed_host h.config host)
    then (h, forward_direct up)
    else refs_through_cache o (codes "application/x-git-upload-pack-advertisement") key up h

-- `handleV2LsRefs`.
unfoldable handle_v2_ls_refs : Outside → Request → Upstream → Handler → Handler × Answer
handle_v2_ls_refs o r up h =
    let host = extract_host r in
    let key =
      ls_refs_cache_key host (parse_repo_path r.path) (auth_scope o.sha_hex r.authorization) in
    if not (is_allowed_host h.config host)
    then (h, forward_direct up)
    else refs_through_cache o (codes "application/x-git-upload-pack-result") key up h

-- `handleReceivePack`.
pub handle_receive_pack : Outside → Request → Upstream → Handler → Handler × Answer
handle_receive_pack o r unreachable h = (h, bad_gateway)
handle_receive_pack o r (responds resp) h =
    let host = extract_host r in
    let repo = parse_repo_path r.path in
    let refs = (remove_by_prefix o.like o.world (repo_refs_prefix host repo) h.refs_cache).0 in
    let both = (remove_by_prefix o.like o.world (repo_ls_refs_prefix host repo) refs).0 in
    (
      if resp.status == 200 then record h { refs_cache = both } else h,
      forward_direct (responds resp),
    )

-- `countWriter` once a body of `n` bytes is written: whether the limit was exceeded. Without a
-- limit there is no `countWriter`.
unfoldable pub exceeds : ℕ → ℕ → Bool
exceeds limit n = not (limit == 0) && ltb limit n

-- What `streamAndCache` sends: the upstream headers where there is no temporary file, and the content
-- type of a pack otherwise. A copy that fails ends after the first `flowed` bytes.
pub stream_answer : ℕ → Option PutError → Response → Answer
stream_answer flowed (some mkdir_failed) resp =
    forwarded (record resp { header = copy_filtered_headers resp.header })
stream_answer flowed (some create_temp_failed) resp =
    forwarded (record resp { header = copy_filtered_headers resp.header })
stream_answer flowed (some write_failed) resp =
    served (codes "application/x-git-upload-pack-result") (take flowed resp.body)
stream_answer flowed fault resp = served (codes "application/x-git-upload-pack-result") resp.body

-- The last part of `streamAndCache`: rename and registration, without a fault and within the limit.
pub keep_pack : Outside → Response → Bytes → Handler → Handler
keep_pack o resp key h =
    let hash = o.sha_hex key in
    let path = h.packs_cache.dir ++ codes "/" ++ (take 2 hash ++ codes "/" ++ hash) in
    let renamed = record h.packs_cache { files = write_file path resp.body h.packs_cache.files } in
    if exceeds h.config.max_pack_cache_entry_size (length resp.body) then h else record h {
      packs_cache = register_after_stream o.world key path (length resp.body) o.later renamed;
    }

-- `streamAndCache` of a body that is read to its end. A fault of the file system, or a body above the
-- limit, leaves the cache alone.
pub stream_and_cache : Outside → Response → Bytes → Handler → Handler × Answer
stream_and_cache o resp key h = (
  elim o.put_fault [ none ↦ keep_pack o resp key h | some fault ↦ h ],
  stream_answer o.flowed o.put_fault resp,
)

-- `servePackFromDisk`.
pub serve_pack : Option Bytes → Answer
serve_pack none = server_error
serve_pack (some body) = served (codes "application/x-git-upload-pack-result") body

-- The leader's fetch.
pub fetch_pack : Outside → Bytes → Upstream → Handler → Handler × Answer
fetch_pack o key unreachable h = (h, bad_gateway)
fetch_pack o key (responds r) h =
    if r.status == 200 then stream_and_cache o r key h else (h, forward_direct (responds r))

-- A look into the pack cache, and `otherwise` on a miss.
pub look_up_pack : Outside → Bytes → Handler → (Handler → Handler × Answer) → Handler × Answer
look_up_pack o key h otherwise =
    let (packs, found) = get o.world key o.checked o.now h.packs_cache in
    let h' = record h { packs_cache = packs } in
    elim found [ none ↦ otherwise h' | some path ↦ (h', serve_pack (packs.files path)) ]

-- The pack of a fresh clone. `flight` is the pack cache as it stands when another fetch of the same
-- key, that was in progress, is over.
pub serve_clone : Outside → Option Cache → Bytes → Upstream → Handler → Handler × Answer
serve_clone o none key up h = look_up_pack o key h (fetch_pack o key up)
serve_clone o (some packs) key up h =
    look_up_pack o key h
      (λ h'. look_up_pack o key (record h' { packs_cache = packs }) (fetch_pack o key up))

-- `Get` of the refs that the client was given: the v1 key, then the v2 key.
unfoldable pub find_refs : Outside → Bytes → Bytes → Bytes → Cache → Cache × Option Bytes
find_refs o host repo scope c =
    let (c₁, v1) = get o.world (refs_cache_key host repo scope) o.checked o.now c in
    elim v1 [
      | some path ↦ (c₁, some path)
      | none ↦ get o.world (ls_refs_cache_key host repo scope) o.checked o.now c₁
    ]

-- The part of `handleUploadPack` for a fresh clone from an allowed host.
unfoldable pub handle_clone :
    Outside → Request → Option Cache → Upstream → Handler → Handler × Answer
handle_clone o r flight up h =
    let host = extract_host r in
    let repo = parse_repo_path r.path in
    let scope = auth_scope o.sha_hex r.authorization in
    let (refs, found) = find_refs o host repo scope h.refs_cache in
    let h' = record h { refs_cache = refs } in
    elim found [
      | none ↦ (h', forward_direct up)
      | some path ↦ elim (refs.files path) [
        | none ↦ (h', forward_direct up)
        | some advertised ↦
            serve_clone o flight
              (pack_cache_key host repo scope (refs_fingerprint o.sha_hex advertised)) up h'
      ]
    ]

-- The body that is parsed: decompressed where the header says so and the decompression succeeds.
pub parse_body : Outside → Request → Bytes
parse_body o r =
    if bytes_eq r.content_encoding (codes "gzip")
    then (elim (o.gunzip r.body) [ none ↦ r.body | some plain ↦ plain ])
    else r.body

-- The parser for the protocol of the request.
pub parse_request : Outside → Request → Parsed
parse_request o r =
    if is_protocol_v2 r
    then parse_v2_upload_pack_request (parse_body o r)
    else parse_upload_pack_request (parse_body o r)

-- `handleUploadPack` behind the parser.
pub handle_parsed :
    Outside → Request → Option Cache → Upstream → Parsed → Handler → Handler × Answer
handle_parsed o r flight up (failed e) h = (h, forward_direct up)
handle_parsed o r flight up out_of_fuel h = (h, forward_direct up)
handle_parsed o r flight up (parsed req) h =
    if is_protocol_v2 r && bytes_eq req.v2_command (codes "ls-refs")
    then handle_v2_ls_refs o r up h
    else if req.has_filter || not req.is_fresh_clone || req.is_shallow
    then (h, forward_direct up)
    else if not (is_allowed_host h.config (extract_host r))
    then (h, forward_direct up)
    else handle_clone o r flight up h

-- `handleUploadPack` of a body that is read without an error.
pub handle_upload_pack : Outside → Request → Option Cache → Upstream → Handler → Handler × Answer
handle_upload_pack o r flight up h =
    if ltb h.config.max_upload_pack_request_size (length r.body)
    then (h, forward_direct up)
    else handle_parsed o r flight up (parse_request o r) h

-- `Handle`.
unfoldable handle : Outside → Request → Option Cache → Upstream → Handler → Handler × Answer
handle o r flight up h =
    if has_suffix r.path (codes "/info/refs")
    then (if bytes_eq r.service (codes "git-upload-pack")
        then handle_info_refs o r up h
        else (h, forward_direct up))
    else if has_suffix r.path (codes "/git-upload-pack")
    then handle_upload_pack o r flight up h
    else if has_suffix r.path (codes "/git-receive-pack")
    then handle_receive_pack o r up h
    else (h, forward_direct up)
