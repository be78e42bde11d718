-- ===== src/S3/Server/Outcomes.antt =====
-- s3/server.go: what becomes of an entry when the upstream server cannot be reached, when it confirms
-- the entry, and when the object is changed.
use proxykit.Prelude.{
  ℕ, ◌+◌, ◌++◌, ◌⊎◌, ◌≡◌, refl, ap, ◌∙◌, Bool, true, false, ◌&&◌, Option, none, some, [], arith,
  if◌then◌else◌, ltb, leb, inl, Bool-cases, inr,
}
use proxykit.Prelude.Int.{ℤ, pos, negsuc, less}
use proxykit.Prelude.Text.{Bytes, codes, bytes_eq}
use proxykit.Http.{Header, header_get}
use proxykit.Cache.Entry.{Distinct}
use proxykit.Cache.State.{Cache, World}
use proxykit.Cache.Ops.{get}
use proxykit.S3.Entries.{
  Metadata, load_metadata, load_metadata_absent, store_metadata, load-store_metadata,
}
use proxykit.S3.Fresh.{ttl_for_response}
use proxykit.S3.Keys.{
  IsPlain, cache_key, metadata_key, body_key, invalidate_target, invalidate_target_exact,
}
use proxykit.S3.Reply.{
  Out, write_body, write_header, serve_entry, error_to, client_not_modified, filtered_header,
  merge_validation_headers,
}
use proxykit.S3.Security.{Signer, Resolved, key_security}
use proxykit.S3.Target.{Url, key_target}
use proxykit.S3.Server.{
  Server, Library, Config, Outside, Times, Origin, Incoming, method_get, stream_path, add_time,
  policy_request, policy_response, sign_with_signer, can_serve_stale, entry_usable, is_head,
  cache_header, count_revalidation,
}
use proxykit.S3.Server.Fetch.{fetch_and_maybe_store, conditional, serve_stale, revalidated, renewed}
use proxykit.S3.Server.Handler.{forward_mutation}
use proxykit.S3.Server.Hit.{served_whole, serve_entry_whole}
use proxykit.S3.Server.Kept.{put_other_file, stream_path_other, stream_path_named}

-- A duration that is not negative; a negative one counts as 0.
abbrev pub nanoseconds : ℤ → ℕ
nanoseconds (pos n) = n
nanoseconds (negsuc n) = 0

duration-cases : (d : ℤ) → ((n : ℕ) × (d ≡ pos n)) ⊎ ((n : ℕ) × (d ≡ negsuc n))
duration-cases (pos n) = inl (n, refl)
duration-cases (negsuc n) = inr (n, refl)

module _ (lib : Library) (w : World) (cfg : Config) (world : Outside) (times : Times) where
  -- The answer, with the program's own test of the time.
  unreachable_answered :
      (target : Url) (signer : Option Signer) (key path content : Bytes) (meta : Metadata)
      (r : Incoming) (h : Header) (s : Server) (o : Out)
      → sign_with_signer signer (conditional lib w cfg world times (some (meta, path)) r).0 ≡ some h
      → world.ask r.method target h ≡ none
      → r.method ≡ method_get
      → header_get (codes "Range") r.credited.header ≡ []
      → client_not_modified r.credited.header meta ≡ false
      → o.sent ≡ none
      → meta.has_body ≡ true
      → bytes_eq path [] ≡ false
      → s.disk.files path ≡ some content
      → fetch_and_maybe_store lib w cfg world times target signer key (some (meta, path)) r (s, o)
        ≡ (
          s,
          if can_serve_stale cfg times.now meta
              then served_whole cfg (codes "STALE") meta content o
              else error_to 502 (codes "upstream request failed") o,
        )
  unfolding fetch_and_maybe_store
  unreachable_answered target signer key path content meta r h s o signed lost get whole changed
        unsent has named there =
      let served =
        serve_entry_whole s.disk.files r.credited.header meta path content cfg (codes "STALE") o
          unsent has named there whole changed in
      let stale : serve_stale lib w cfg world times (some (meta, path)) r (s, o) ≡ (
        s,
        if can_serve_stale cfg times.now meta
            then served_whole cfg (codes "STALE") meta content o
            else error_to 502 (codes "upstream request failed") o,
      ) =
        unfold serve_stale entry_usable is_head in
        elim (Bool-cases (can_serve_stale cfg times.now meta)) [
          | inl within ↦ ground (arith, within, has, get, served)
          | inr behind ↦ ground (arith, behind, has, get)
        ] in
      ground (arith, signed, lost, stale)

  -- The limit of `StaleIfError`, in nanoseconds behind the time until which an entry is fresh.
  can_serve_stale_lem :
      (now : ℕ) (meta : Metadata)
      → can_serve_stale cfg now meta ≡ (
          ltb 0 (nanoseconds cfg.stale_if_error)
          && ltb now (meta.fresh_until + nanoseconds cfg.stale_if_error))
  unfolding can_serve_stale less add_time
  can_serve_stale_lem now meta = elim (duration-cases cfg.stale_if_error) [
    | inl (n, p) ↦ rw p refl
    | inr (n, p) ↦ rw p refl
  ]

  -- Where the upstream server cannot be reached, a `GET` for the whole of an object that has an entry
  -- with its body, which the client does not hold already, gets the entry's status and the body where
  -- `StaleIfError` is above 0 and the time is before the end of the entry's freshness and
  -- `StaleIfError`, and the status 502 otherwise; the server stays as it is.
  pub fetch_unreachable :
      (target : Url) (signer : Option Signer) (key path content : Bytes) (meta : Metadata)
      (r : Incoming) (h : Header) (s : Server) (o : Out)
      → sign_with_signer signer (conditional lib w cfg world times (some (meta, path)) r).0 ≡ some h
      → world.ask r.method target h ≡ none
      → r.method ≡ method_get
      → header_get (codes "Range") r.credited.header ≡ []
      → client_not_modified r.credited.header meta ≡ false
      → o.sent ≡ none
      → meta.has_body ≡ true
      → bytes_eq path [] ≡ false
      → s.disk.files path ≡ some content
      → fetch_and_maybe_store lib w cfg world times target signer key (some (meta, path)) r (s, o)
        ≡ (
          s,
          if ltb 0 (nanoseconds cfg.stale_if_error)
                && ltb times.now (meta.fresh_until + nanoseconds cfg.stale_if_error)
              then served_whole cfg (codes "STALE") meta content o
              else record o {
                sent = some (502, o.header);
                body = o.body ++ codes "upstream request failed";
              },
        )
  fetch_unreachable target signer key path content meta r h s o signed lost get whole changed unsent
        has named there =
      let failed : error_to 502 (codes "upstream request failed") o ≡ record o {
        sent = some (502, o.header);
        body = o.body ++ codes "upstream request failed";
      } =
        unfold error_to write_body write_header in ground (arith, unsent) in
      unreachable_answered target signer key path content meta r h s o signed lost get whole changed
        unsent has named there
      ∙ ap
          (λ b. (
            s,
            if b
                then served_whole cfg (codes "STALE") meta content o
                else error_to 502 (codes "upstream request failed") o,
          ))
          (can_serve_stale_lem times.now meta)
      ∙ ap
          (λ (e : Out). (
            s,
            if ltb 0 (nanoseconds cfg.stale_if_error)
                  && ltb times.now (meta.fresh_until + nanoseconds cfg.stale_if_error)
                then served_whole cfg (codes "STALE") meta content o
                else e,
          ))
          failed

  renewed_parts :
      (meta : Metadata) (resp : Origin) (r : Incoming)
      → ((renewed lib w cfg world times meta resp r).has_body ≡ meta.has_body)
        × ((renewed lib w cfg world times meta resp r).status_code ≡ meta.status_code)
        × ((renewed lib w cfg world times meta resp r).body_size ≡ meta.body_size)
        × ((renewed lib w cfg world times meta resp r).fresh_until
            ≡ add_time times.now
                (ttl_for_response cfg.policy (policy_request r) (policy_response resp)))
  unfolding renewed merge_validation_headers
  renewed_parts meta resp r =
      elim (Bool-cases (bytes_eq (header_get (codes "ETag") resp.header) [])) [
        | inl e ↦ elim (Bool-cases (bytes_eq (header_get (codes "Last-Modified") resp.header) [])) [
          | inl m ↦ ground (arith, e, m)
          | inr m ↦ ground (arith, e, m)
        ]
        | inr e ↦ elim (Bool-cases (bytes_eq (header_get (codes "Last-Modified") resp.header) [])) [
          | inl m ↦ ground (arith, e, m)
          | inr m ↦ ground (arith, e, m)
        ]
      ]

  -- A 304 that confirms the streamed entry of an object, in a cache without a limit whose metadata
  -- can be written and decoded: a `GET` for the whole of it gets the stored body, and afterwards the
  -- entry is found with the new time until which it is fresh.
  pub revalidated-renews :
      (key content : Bytes) (meta : Metadata) (resp : Origin) (r : Incoming) (s : Server) (o : Out)
      (checked later : ℕ)
      → s.disk.max_size ≡ 0
      → world.metadata_fault ≡ none
      → lib.decode (lib.encode (renewed lib w cfg world times meta resp r))
        ≡ some (renewed lib w cfg world times meta resp r)
      → meta.has_body ≡ true
      → (get w (body_key key) checked later s.disk).1
        ≡ some (stream_path lib.hash_key s.disk.dir key)
      → s.disk.files (stream_path lib.hash_key s.disk.dir key) ≡ some content
      → r.method ≡ method_get
      → header_get (codes "Range") r.credited.header ≡ []
      → client_not_modified r.credited.header (renewed lib w cfg world times meta resp r) ≡ false
      → o.sent ≡ none
      → (let new = renewed lib w cfg world times meta resp r in
          let path = stream_path lib.hash_key s.disk.dir key in
          let (s', o') = revalidated lib w cfg world times key (meta, path) resp r (s, o) in
          (o' ≡ served_whole cfg (codes "REVALIDATED") new content o)
          × ((load_metadata lib.decode w key checked later s'.disk).1 ≡ some (new, path))
          × (new.fresh_until
              ≡ add_time times.now
                  (ttl_for_response cfg.policy (policy_request r) (policy_response resp))))
  unfolding revalidated count_revalidation
  revalidated-renews key content meta resp r s o checked later unlimited fine coded has body there
        get_method whole changed unsent =
      let new = renewed lib w cfg world times meta resp r in
      let path = stream_path lib.hash_key s.disk.dir key in
      let disk = (store_metadata lib.encode lib.hash_key w none key new times.now s.disk).0 in
      let actual =
        (store_metadata lib.encode lib.hash_key w world.metadata_fault key new times.now
          s.disk).0 in
      let same : actual ≡ disk =
        ap (λ f. (store_metadata lib.encode lib.hash_key w f key new times.now s.disk).0) fine in
      let (has_same, status, size, until) = renewed_parts meta resp r in
      let file : disk.files path ≡ some content =
        unfold store_metadata in
        put_other_file lib.hash_key w (metadata_key key) (lib.encode new) path (negsuc 0) times.now
          s.disk unlimited (stream_path_other lib.hash_key s.disk.dir key (metadata_key key))
        ∙ there in
      let served =
        serve_entry_whole disk.files r.credited.header new path content cfg (codes "REVALIDATED") o
          unsent (has_same ∙ has) (stream_path_named lib.hash_key s.disk.dir key) file whole
          changed in
      let loaded =
        load-store_metadata lib.encode lib.decode lib.hash_key w key path new times.now checked
          later s.disk coded (inl unlimited) body in
      let entry : Cache → Bool → Out × Bool = λ (c : Cache) (b : Bool).
        serve_entry c.files b r.credited.header new path (cache_header cfg (codes "REVALIDATED"))
          o in
      let answer : (c : Cache) → (entry c (is_head r.method)).0 ≡ (entry c false).0 =
        λ (c : Cache). unfold is_head in ap (λ m. (entry c (is_head m)).0) get_method in
      let with_path : (if new.has_body then path else []) ≡ path =
        ap (λ b. if b then path else []) (has_same ∙ has) in
      (
        answer actual ∙ ap (λ (c : Cache). (entry c false).0) same ∙ ap (λ x. x.0) served,
        ap (λ (c : Cache). (load_metadata lib.decode w key checked later c).1) same
            ∙ loaded
            ∙ ap (λ p. some (new, p)) with_path,
        until,
      )

  -- After a mutation that the upstream server accepts, in a scope that may be cached, no entry of the
  -- object is left, under any query, where no part of the key holds a bar and no key stands twice.
  pub forward_mutation-forgets :
      (target : Url) (found : Resolved) (r : Incoming) (h : Header) (resp : Origin) (s : Server)
      (o : Out) (query : Bytes) (checked later : ℕ)
      → sign_with_signer found.signer (filtered_header r.credited.header) ≡ some h
      → world.ask r.method target h ≡ some resp
      → leb 200 resp.status && (ltb resp.status 300 && found.cacheable) ≡ true
      → IsPlain (key_target lib.urls target) (key_security found)
      → Distinct s.disk.entries
      → (load_metadata lib.decode w
          (cache_key
            (record (key_target lib.urls target) { stable_query = query })
            (key_security found))
          checked
          later
          (forward_mutation lib w cfg world times target found r (s, o)).0.disk).1
        ≡ none
  forward_mutation-forgets target found r h resp s o query checked later signed answered accepted
        plain d =
      let t = key_target lib.urls target in
      let sec = key_security found in
      let key = cache_key (record t { stable_query = query }) sec in
      let c = invalidate_target w t sec s.disk in
      let is : (forward_mutation lib w cfg world times target found r (s, o)).0.disk ≡ c =
        unfold forward_mutation in ground (arith, signed, answered, accepted) in
      let (gone, body, rest) = invalidate_target_exact w t sec s.disk query [] plain d in
      ap (λ k. (load_metadata lib.decode w key checked later k).1) is
      ∙ ap (λ x. x.1) (load_metadata_absent lib.decode w key checked later c gone)
