-- ===== src/Git/Handler/Clone.antt =====
-- git/handler.go: requests that pass through, and packs that are served again.
use proxykit.Prelude.{
  ◌+◌, ◌-◌, ◌≤◌, ◌≡◌, ap, ◌∙◌, true, false, not, ◌||◌, ◌⊎◌, Option, none, some, List, ◌++◌, map,
  arith, if◌then◌else◌, ltb, length, take, All,
}
use proxykit.Prelude.Text.{Bytes, codes, bytes_eq, bytes_eq_refl, has_prefix}
use proxykit.Cache.Entry.{expired_at}
use proxykit.Cache.Fetch.Answers.{files-get}
use proxykit.Cache.State.{Cache, Files, old_size, write_file}
use proxykit.Cache.Ops.{get, deadline, register_after_stream}
use proxykit.Cache.Put.{get-register_after_stream}
use proxykit.Git.PktLine.RoundTrip.{Packet, flush, view, Fits}
use proxykit.Git.UploadPack.{UploadPackRequest, parsed, ends, parse_upload_pack_request}
use proxykit.Git.UploadPack.Lines.{encode_all}
use proxykit.Git.UploadPack.Verdict.{
  any_truncates, Filled, Plain, two_phases, v1_verdict, v1_incremental,
}
use proxykit.Git.Detect.{Request, is_protocol_v2, extract_host}
use proxykit.Git.Handler.{
  Handler, Outside, Answer, served, forward_direct, is_allowed_host, parse_request, parse_body,
  handle_parsed, handle_clone, handle_upload_pack, keep_pack, exceeds, stream_and_cache,
  stream_answer, fetch_pack, serve_pack, look_up_pack, serve_clone,
}
use proxykit.Http.{Upstream, Response, responds}

-- A request whose body is parsed as it stands: protocol v1, not compressed, within the limit.
pub record IsPlainV1 (r : Request) (h : Handler) : Type 0 where
  pub v1 : is_protocol_v2 r ≡ false
  pub uncompressed : bytes_eq r.content_encoding (codes "gzip") ≡ false
  pub fits : ltb h.config.max_upload_pack_request_size (length r.body) ≡ false

parsed_request :
    (o : Outside) (r : Request) (flight : Option Cache) (up : Upstream) (h : Handler)
    (req : UploadPackRequest)
    → IsPlainV1 r h
    → parse_upload_pack_request r.body ≡ parsed req
    → handle_upload_pack o r flight up h ≡ handle_parsed o r flight up (parsed req) h
unfolding handle_upload_pack parse_request parse_body
parsed_request o r flight up h req p e =
    ground (arith, p.v1, p.uncompressed, p.fits, ap (λ x. handle_parsed o r flight up x h) e)

-- A v1 request, uncompressed, within the size limit and of packets that fit, whose second phase
-- reaches a `have` line passes through: the answer is the upstream server's, and nothing changes.
pub incremental_forwarded :
    (o : Outside) (r : Request) (flight : Option Cache) (up : Upstream) (h : Handler)
    (ps qs rest : List Packet) (e : Packet)
    → IsPlainV1 r h
    → r.body ≡ encode_all (two_phases ps flush qs e rest)
    → All Fits (two_phases ps flush qs e rest)
    → Filled (map view ps)
    → Plain (map view qs)
    → has_prefix (view e) (codes "have ") ≡ true
    → handle_upload_pack o r flight up h ≡ (h, forward_direct up)
incremental_forwarded o r flight up h ps qs rest e p is_body fits filled plain have =
    let (req, parses, fresh) = v1_incremental ps qs rest e fits filled plain have in
    parsed_request o r flight up h req p (ap parse_upload_pack_request is_body ∙ parses)
    ∙ unfold handle_parsed in ground (arith, p.v1, fresh)

-- The body of a v1 clone: packets of any kind but an empty one, a flush, packets of the second phase
-- none of which is a `have`, a `shallow` or a `deepen`, and a packet that ends it.
pub record IsCloneBody (body : Bytes) : Type 0 where
  pub before : List Packet
  pub middle : List Packet
  pub last : Packet
  pub after : List Packet
  pub is_body : body ≡ encode_all (two_phases before flush middle last after)
  pub fits : All Fits (two_phases before flush middle last after)
  pub filled : Filled (map view before)
  pub plain : Plain (map view middle)
  pub ends_there : ends (view last) ≡ true
  pub whole : any_truncates (map view middle) ≡ false

clone_handled :
    (o : Outside) (r : Request) (flight : Option Cache) (up : Upstream) (h : Handler)
    → IsPlainV1 r h
    → IsCloneBody r.body
    → (req : UploadPackRequest) × (parse_upload_pack_request r.body ≡ parsed req)
      × (handle_upload_pack o r flight up h ≡ (
          if req.has_filter || not (is_allowed_host h.config (extract_host r))
          then (h, forward_direct up)
          else handle_clone o r flight up h))
clone_handled o r flight up h p b =
    let (req, parses, fresh, shallow) =
      v1_verdict b.before b.middle b.after b.last b.fits b.filled b.plain b.ends_there in
    let reads = ap parse_upload_pack_request b.is_body ∙ parses in
    (
      req,
      reads,
      parsed_request o r flight up h req p reads
          ∙ unfold handle_parsed in ground (arith, p.v1, fresh, shallow, b.whole),
    )

-- A hit in the pack cache whose file is there is served, whatever comes otherwise.
hit_served :
    (o : Outside) (key : Bytes) (h : Handler) (otherwise : Handler → Handler × Answer)
    {path body : Bytes}
    → (get o.world key o.checked o.now h.packs_cache).1 ≡ some path
    → h.packs_cache.files path ≡ some body
    → (look_up_pack o key h otherwise).1
      ≡ served (codes "application/x-git-upload-pack-result") body
unfolding look_up_pack serve_pack
hit_served o key h otherwise {path} {body} hit there =
    let same = files-get o.world key o.checked o.now h.packs_cache hit in
    ground (arith, hit, ap (λ (f : Files). f path) same, there)

-- The path that a pack is kept at.
pack_path : Outside → Bytes → Cache → Bytes
pack_path o key c = c.dir ++ codes "/" ++ (take 2 (o.sha_hex key) ++ codes "/" ++ o.sha_hex key)

module _ (o : Outside) (key : Bytes) (resp : Response) (h : Handler) (c : Cache) where
  -- The pack cache once the pack is kept.
  kept : Cache
  kept =
      register_after_stream o.world key (pack_path o key c) (length resp.body) o.later
        (record c { files = write_file (pack_path o key c) resp.body c.files })

  first_fetch :
      get o.world key o.checked o.now h.packs_cache ≡ (c, none)
      → resp.status ≡ 200
      → o.put_fault ≡ none
      → exceeds h.config.max_pack_cache_entry_size (length resp.body) ≡ false
      → serve_clone o none key (responds resp) h ≡ (
        record h { packs_cache = kept },
        served (codes "application/x-git-upload-pack-result") resp.body,
      )
  unfolding serve_clone look_up_pack fetch_pack stream_and_cache keep_pack stream_answer kept
      pack_path
  first_fetch missed ok no_fault small = ground (arith, missed, ok, no_fault, small)

  kept_found :
      (o' : Outside)
      → (c.max_size ≡ 0) ⊎ ((c.total_size - old_size key c.entries) + length resp.body ≤ c.max_size)
      → expired_at (deadline c.ttl o.later) o'.checked ≡ false
      → ((get o'.world key o'.checked o'.now kept).1 ≡ some (pack_path o key c))
        × (kept.files (pack_path o key c) ≡ some resp.body)
  unfolding kept
  kept_found o' room live =
      let path = pack_path o key c in
      let (found, same) =
        get-register_after_stream o.world o'.world key path (length resp.body) o.later
          (record c { files = write_file path resp.body c.files }) key o'.checked o'.now room in
      (
        ground (arith, found, live, bytes_eq_refl key),
        ap (λ (f : Files). f path) same ∙ unfold write_file in ground (arith, bytes_eq_refl path),
      )

  -- A pack that was fetched for a miss with status 200, within the limits and with no fault, is sent
  -- to the client and sent again to every later caller with the same key until its deadline, whatever the upstream
  -- server would say then.
  pub clone_served_again :
      (o' : Outside) (up' : Upstream)
      → get o.world key o.checked o.now h.packs_cache ≡ (c, none)
      → (c.max_size ≡ 0) ⊎ ((c.total_size - old_size key c.entries) + length resp.body ≤ c.max_size)
      → resp.status ≡ 200
      → o.put_fault ≡ none
      → exceeds h.config.max_pack_cache_entry_size (length resp.body) ≡ false
      → expired_at (deadline c.ttl o.later) o'.checked ≡ false
      → ((serve_clone o none key (responds resp) h).1
          ≡ served (codes "application/x-git-upload-pack-result") resp.body)
        × ((serve_clone o' none key up' (serve_clone o none key (responds resp) h).0).1
            ≡ served (codes "application/x-git-upload-pack-result") resp.body)
  clone_served_again o' up' missed room ok no_fault small live =
      let step = first_fetch missed ok no_fault small in
      let (found, there) = kept_found o' room live in
      (
        ap (λ x. x.1) step,
        ap (λ x. (serve_clone o' none key up' x.0).1) step
            ∙ unfold serve_clone in
              hit_served o' key (record h { packs_cache = kept }) (fetch_pack o' key up') found
                there,
      )
