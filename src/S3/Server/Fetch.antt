-- ===== src/S3/Server/Fetch.antt =====
-- s3/server.go: `fetchAndMaybeStore` and what it calls: a request for an entry that is not fresh.
use proxykit.Prelude.{
  Bool, true, false, ◌&&◌, ◌||◌, not, Option, none, some, [], if◌then◌else◌, ◌==◌, length,
}
use proxykit.Prelude.Int.{pos, less}
use proxykit.Prelude.Text.{Bytes, codes}
use proxykit.Http.{Header}
use proxykit.Cache.State.{World, write_file}
use proxykit.Cache.Ops.{remove, register_after_stream, stored, failed}
use proxykit.S3.Entries.{Metadata, store_metadata, remove_entry}
use proxykit.S3.Fresh.{ttl_for_response, should_store}
use proxykit.S3.Keys.{body_key}
use proxykit.S3.Reply.{Out, error_to, filtered_header, serve_entry, merge_validation_headers}
use proxykit.S3.Security.{Signer}
use proxykit.S3.Target.{Url}
use proxykit.S3.Writer.{LimitedWriter, write_all}
use proxykit.S3.Server.{
  Server, Incoming, Config, Library, Origin, Outside, Times, is_head, count_store,
  count_revalidation, add_time, cache_header, copy_upstream, entry_usable, can_serve_stale,
  policy_request, policy_response, metadata_from_response, stream_path, validators,
  sign_with_signer,
}

module _ (lib : Library) (w : World) (cfg : Config) (world : Outside) (times : Times) where
  -- `storeMetadata`, and the count of what was stored.
  unfoldable pub store_counted : Bytes → Metadata → Server → Server × Bool
  unfolding count_store
  store_counted key meta s =
      let (disk, result) =
        store_metadata lib.encode lib.hash_key w world.metadata_fault key meta times.now s.disk in
      elim result [
        | stored path ↦ (count_store (record s { disk = disk }), true)
        | failed error ↦ (record s { disk = disk }, false)
      ]

  -- The end of `streamAndStore`, once the temporary file holds the whole body.
  unfoldable pub keep_stream : Bytes → Origin → Incoming → Bytes → Server → Server
  unfolding store_counted write_file
  keep_stream key resp r content s =
      let removed = remove w (body_key key) s.disk in
      let path = stream_path lib.hash_key s.disk.dir key in
      let renamed = record removed { files = write_file path content removed.files } in
      let tracked =
        register_after_stream w (body_key key) path (length content) times.now renamed in
      let meta = metadata_from_response cfg resp r true (length content) times.now in
      let (s', kept) = store_counted key meta (record s { disk = tracked }) in
      if not world.rename_ok
      then record s { disk = removed }
      else if kept
      then s'
      else record s' { disk = remove w (body_key key) s'.disk }

  -- The writer that `streamAndStore` begins with.
  unfoldable pub new_writer : LimitedWriter
  new_writer = record {
    file = [];
    limit = cfg.max_entry_size;
    written = 0;
    exceeded = false;
    failed = false;
  }

  -- `streamAndStore`.
  unfoldable pub stream_and_store : Bytes → Origin → Incoming → Server × Out → Server × Out
  unfolding copy_upstream keep_stream new_writer cache_header less
  stream_and_store key resp r (s, o) =
      let written = write_all resp.chunks new_writer in
      if (not (cfg.max_entry_size == 0) && less (pos cfg.max_entry_size) resp.content_length)
        || not world.stream_dir_ok
      then (s, copy_upstream cfg resp (cache_header cfg (codes "BYPASS")) o)
      else if not resp.copied || (not world.close_ok || (written.exceeded || written.failed))
      then (s, copy_upstream cfg resp (cache_header cfg (codes "MISS")) o)
      else (
        keep_stream key resp r written.file s,
        copy_upstream cfg resp (cache_header cfg (codes "MISS")) o,
      )

  -- The part of `fetchAndMaybeStore` behind a response that validates nothing.
  unfoldable pub store_response : Bytes → Origin → Incoming → Server × Out → Server × Out
  unfolding store_counted copy_upstream cache_header is_head
  store_response key resp r (s, o) =
      let s' =
        if (resp.status == 404) || (resp.status == 410)
        then record s { disk = remove_entry w key s.disk }
        else s in
      let cleared = record s' { disk = remove w (body_key key) s'.disk } in
      let meta = metadata_from_response cfg resp r false 0 times.now in
      let o' = copy_upstream cfg resp (cache_header cfg (codes "MISS")) o in
      if not (should_store cfg.policy (policy_request r) (policy_response resp))
      then (s', o')
      else if is_head r.method
      then ((store_counted key meta cleared).0, o')
      else stream_and_store key resp r (s', o)

  -- The metadata of an entry that a 304 confirms.
  unfoldable pub renewed : Metadata → Origin → Incoming → Metadata
  unfolding merge_validation_headers add_time
  renewed stale resp r =
      let ttl = ttl_for_response cfg.policy (policy_request r) (policy_response resp) in
      merge_validation_headers
        (record stale { stored_at = times.now; fresh_until = add_time times.now ttl }) resp.header

  -- The branch on a 304 that answers the conditional headers.
  unfoldable pub revalidated :
      Bytes → Metadata × Bytes → Origin → Incoming → Server × Out → Server × Out
  unfolding renewed serve_entry count_revalidation cache_header
  revalidated key (stale, path) resp r (s, o) =
      let meta = renewed stale resp r in
      let disk =
        (store_metadata lib.encode lib.hash_key w world.metadata_fault key meta times.now
          s.disk).0 in
      (
        count_revalidation (record s { disk = disk }),
        (serve_entry disk.files (is_head r.method) r.credited.header meta path
            (cache_header cfg (codes "REVALIDATED")) o).0,
      )

  -- The branch on an upstream server that cannot be reached.
  unfoldable pub serve_stale : Option (Metadata × Bytes) → Incoming → Server × Out → Server × Out
  unfolding can_serve_stale entry_usable serve_entry error_to cache_header
  serve_stale none r (s, o) = (s, error_to 502 (codes "upstream request failed") o)
  serve_stale (some (stale, path)) r (s, o) =
      if can_serve_stale cfg times.now stale && entry_usable cfg r.method stale
      then (
        s,
        (serve_entry s.disk.files (is_head r.method) r.credited.header stale path
            (cache_header cfg (codes "STALE")) o).0,
      )
      else (s, error_to 502 (codes "upstream request failed") o)

  -- The headers of the request, and the stale entry if they ask for its validation.
  unfoldable pub conditional :
      Option (Metadata × Bytes) → Incoming → Header × Option (Metadata × Bytes)
  unfolding entry_usable validators filtered_header
  conditional none r = (filtered_header r.credited.header, none)
  conditional (some (stale, path)) r =
      let h = filtered_header r.credited.header in
      if not (entry_usable cfg r.method stale)
      then (h, none)
      else (elim (validators stale h) [ none ↦ (h, none) | some h' ↦ (h', some (stale, path)) ])

  -- The response to a request for an entry.
  unfoldable pub with_response :
      Bytes → Option (Metadata × Bytes) → Origin → Incoming → Server × Out → Server × Out
  with_response key none resp r so = store_response key resp r so
  with_response key (some stale) resp r so =
      let other = store_response key resp r so in
      if resp.status == 304 then revalidated key stale resp r so else other

  -- `fetchAndMaybeStore`.
  unfoldable pub fetch_and_maybe_store :
      Url
      → Option Signer
      → Bytes
      → Option (Metadata × Bytes)
      → Incoming
      → Server × Out
      → Server × Out
  unfolding conditional sign_with_signer error_to
  fetch_and_maybe_store target signer key stale r (s, o) =
      let (h, validated) = conditional stale r in
      elim (sign_with_signer signer h) [
        | none ↦ (s, error_to 502 (codes "sign upstream request") o)
        | some h' ↦ elim (world.ask r.method target h') [
          | none ↦ serve_stale stale r (s, o)
          | some resp ↦ with_response key validated resp r (s, o)
        ]
      ]
