-- ===== src/S3/Server/Handler.antt =====
-- s3/server.go: the handler: `ServeHTTP`, and `serveCacheable` for a caller who finds no other flight
-- for its key.
use proxykit.Prelude.{
  Bool, true, false, ◌&&◌, ◌||◌, not, Option, none, some, [], if◌then◌else◌, ltb, leb,
}
use proxykit.Prelude.Text.{Bytes, codes}
use proxykit.Cache.State.{World}
use proxykit.S3.Entries.{Metadata, load_metadata, remove_entry}
use proxykit.S3.Keys.{cache_key, invalidate_target}
use proxykit.S3.Reply.{Out, error_to, finish, filtered_header, serve_entry}
use proxykit.S3.Security.{Signer, Resolved, resolve_security, key_security}
use proxykit.S3.Target.{Url, target_url, key_target, default_policy}
use proxykit.S3.Server.{
  Server, Method, method_get, method_head, Incoming, Config, Library, Outside, Times, is_head,
  is_mutation, count_hit, count_miss, count_bypass, cache_header, copy_upstream, entry_usable,
  sign_with_signer,
}
use proxykit.S3.Server.Fetch.{fetch_and_maybe_store}

module _ (lib : Library) (w : World) (cfg : Config) (world : Outside) (times : Times) where
  -- A fresh entry that answers the request, as it was loaded.
  unfoldable pub is_hit : Incoming → Option (Metadata × Bytes) → Bool
  unfolding entry_usable
  is_hit r none = false
  is_hit r (some (meta, path)) = entry_usable cfg r.method meta && ltb times.now meta.fresh_until

  unfoldable pub serve_hit : Option (Metadata × Bytes) → Incoming → Server → Out → Out × Bool
  unfolding serve_entry cache_header
  serve_hit none r s o = (o, false)
  serve_hit (some (meta, path)) r s o =
      serve_entry s.disk.files (is_head r.method) r.credited.header meta path
        (cache_header cfg (codes "HIT")) o

  -- The entry for a key, with the cache behind the lookup.
  unfoldable pub load : Bytes → Server → Server × Option (Metadata × Bytes)
  load key s =
      let (disk, found) = load_metadata lib.decode w key times.checked times.touched s.disk in
      (record s { disk = disk }, found)

  -- The part of `serveCacheable` of the caller whose flight it is.
  unfoldable pub lead_flight : Url → Option Signer → Bytes → Incoming → Server × Out → Server × Out
  unfolding load is_hit serve_hit count_hit count_miss
  lead_flight target signer key r (s, o) =
      let (s', found) = load key s in
      let fetched =
        fetch_and_maybe_store lib w cfg world times target signer key found r (count_miss s', o) in
      if is_hit r found then (count_hit s', (serve_hit found r s' o).0) else fetched

  -- `serveCacheable`.
  unfoldable pub serve_cacheable :
      Url → Option Signer → Bytes → Incoming → Server × Out → Server × Out
  unfolding load is_hit serve_hit count_hit
  serve_cacheable target signer key r (s, o) =
      let (s', found) = load key s in
      let (o', whole) = serve_hit found r s' o in
      let counted = count_hit s' in
      let again =
        lead_flight target signer key r
          (record counted { disk = remove_entry w key counted.disk }, o') in
      let led = lead_flight target signer key r (s', o) in
      if is_hit r found then (if whole then (counted, o') else again) else led

  -- `forward`.
  pub forward : Url → Option Signer → Bytes → Incoming → Out → Out
  unfolding sign_with_signer filtered_header error_to copy_upstream cache_header
  forward target signer status r o =
      elim (sign_with_signer signer (filtered_header r.credited.header)) [
        | none ↦ error_to 502 (codes "sign upstream request") o
        | some h ↦ elim (world.ask r.method target h) [
          | none ↦ error_to 502 (codes "upstream request failed") o
          | some resp ↦ copy_upstream cfg resp (cache_header cfg status) o
        ]
      ]

  -- `forwardMutation`.
  unfoldable pub forward_mutation : Url → Resolved → Incoming → Server × Out → Server × Out
  unfolding sign_with_signer filtered_header error_to copy_upstream key_security key_target
  forward_mutation target found r (s, o) =
      elim (sign_with_signer found.signer (filtered_header r.credited.header)) [
        | none ↦ (s, error_to 502 (codes "sign upstream request") o)
        | some h ↦ elim (world.ask r.method target h) [
          | none ↦ (s, error_to 502 (codes "upstream request failed") o)
          | some resp ↦
              let s' = record s {
                disk = invalidate_target w (key_target lib.urls target) (key_security found) s.disk;
              } in
              (
                if leb 200 resp.status && (ltb resp.status 300 && found.cacheable) then s' else s,
                copy_upstream cfg resp [] o,
              )
        ]
      ]

  -- `cachePolicy`.
  pub cache_policy : Incoming → Bool
  unfolding default_policy
  cache_policy r = elim cfg.cache_policy [
    | some policy ↦ policy r
    | none ↦ default_policy cfg.path_style r.url.path r.url.query
  ]

  -- The part of `ServeHTTP` on a request whose target is known.
  unfoldable dispatch : Url → Resolved → Incoming → Server × Out → Server × Out
  unfolding is_mutation forward_mutation forward cache_policy count_bypass key_target key_security
  dispatch target found r (s, o) =
      let mutated = forward_mutation target found r (s, o) in
      let key = cache_key (key_target lib.urls target) (key_security found) in
      let cached = serve_cacheable target found.signer key r (s, o) in
      if is_mutation r.method
      then mutated
      else if is_other r.method
      then (s, forward target found.signer [] r o)
      else if not found.cacheable || not (cache_policy r)
      then (count_bypass s, forward target found.signer (codes "BYPASS") r o)
      else cached
    where
      is_other : Method → Bool
      is_other method_get = false
      is_other method_head = false
      is_other _ = true

  -- `ServeHTTP`: the server behind the request, and what the client gets.
  unfoldable serve_http : Incoming → Server → Server × Out
  unfolding error_to resolve_security target_url finish
  serve_http r s =
      let refused : Bool = elim cfg.authorizer [ none ↦ false | some allows ↦ not (allows r) ] in
      let o : Out = record { header = []; sent = none; body = [] } in
      let answered : Server × Out = elim (resolve_security cfg.resolvers r.credited) [
        | none ↦ (s, error_to 502 (codes "request authorization failed") o)
        | some found ↦ elim (target_url lib.urls cfg.upstream cfg.upstream_scheme r.host r.url) [
          | none ↦ (s, error_to 400 (codes "request has no upstream host") o)
          | some target ↦ dispatch target found r (s, o)
        ]
      ] in
      let (s', reply) = answered in
      if refused then (s, error_to 403 (codes "forbidden") o) else (s', finish reply)
