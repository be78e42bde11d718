-- ===== src/S3/Server/Stored.antt =====
-- s3/server.go: a request that fetches an object and stores it.
use proxykit.Prelude.{
  ◌≡◌, refl, ◌∙◌, true, false, not, ◌&&◌, ◌||◌, Option, none, some, arith, length, ◌==◌, Bool-cases,
  inl, inr,
}
use proxykit.Prelude.Int.{pos, less}
use proxykit.Prelude.Text.{Bytes, codes}
use proxykit.Http.{Header}
use proxykit.Cache.Entry.{find}
use proxykit.Cache.State.{World}
use proxykit.S3.Entries.{load_metadata, load_metadata_absent}
use proxykit.S3.Fresh.{should_store}
use proxykit.S3.Keys.{metadata_key}
use proxykit.S3.Reply.{Out, filtered_header}
use proxykit.S3.Security.{Signer}
use proxykit.S3.Target.{Url}
use proxykit.S3.Writer.{write_all, write_all_whole, joined}
use proxykit.S3.Server.{
  Server, Library, Config, Outside, Times, Origin, Incoming, method_get, metadata_from_response,
  policy_request, policy_response, sign_with_signer, cache_header, copy_upstream, count_miss,
  is_head,
}
use proxykit.S3.Server.Fetch.{
  keep_stream, fetch_and_maybe_store, conditional, with_response, store_response, stream_and_store,
  new_writer,
}
use proxykit.S3.Server.Handler.{serve_cacheable, lead_flight}

module _ (lib : Library) (w : World) (cfg : Config) where
  -- An exchange that stores an object: there was no metadata for the key, the response may be stored
  -- and arrives whole, nothing fails, the cache has no limit, and decoding inverts encoding.
  pub record IsStored (world : Outside) (times : Times) (target : Url) (signer : Option Signer)
      (key : Bytes) (r : Incoming) (s : Server) (h : Header) (resp : Origin) : Type 0 where
    pub absent : find (metadata_key key) s.disk.entries ≡ none
    pub unlimited : s.disk.max_size ≡ 0
    pub get : r.method ≡ method_get
    pub signed : sign_with_signer signer (filtered_header r.credited.header) ≡ some h
    pub answered : world.ask method_get target h ≡ some resp
    pub may_store : should_store cfg.policy (policy_request r) (policy_response resp) ≡ true
    pub small :
        not (cfg.max_entry_size == 0) && less (pos cfg.max_entry_size) resp.content_length ≡ false
    pub copied : resp.copied ≡ true
    pub intact :
        (write_all resp.chunks (new_writer lib w cfg world times)).exceeded
          || (write_all resp.chunks (new_writer lib w cfg world times)).failed
        ≡ false
    pub stream_dir_ok : world.stream_dir_ok ≡ true
    pub close_ok : world.close_ok ≡ true
    pub rename_ok : world.rename_ok ≡ true
    pub metadata_ok : world.metadata_fault ≡ none
    pub coded :
        lib.decode (
          lib.encode
            (metadata_from_response cfg resp r true (length (joined resp.chunks)) times.now))
        ≡ some (metadata_from_response cfg resp r true (length (joined resp.chunks)) times.now)

  -- A response that may be stored is none that removes the entry.
  pub should_store-status :
      (r : Incoming) (resp : Origin)
      → should_store cfg.policy (policy_request r) (policy_response resp) ≡ true
      → resp.status ≡ 200
  unfolding should_store policy_response
  should_store-status r resp h = elim (Bool-cases (resp.status == 200)) [
    | inl ok ↦ ground arith
    | inr bad ↦ absurd (ground (arith, bad))
  ]

  module _ (world : Outside) (times : Times) (target : Url) (signer : Option Signer) (key : Bytes)
      (r : Incoming) (h : Header) (resp : Origin) where
    stream_and_store_whole :
        (s s₀ : Server) (o : Out)
        → IsStored world times target signer key r s₀ h resp
        → stream_and_store lib w cfg world times key resp r (s, o) ≡ (
          keep_stream lib w cfg world times key resp r (joined resp.chunks) s,
          copy_upstream cfg resp (cache_header cfg (codes "MISS")) o,
        )
    unfolding stream_and_store
    stream_and_store_whole s s₀ o is =
        let file = write_all_whole resp.chunks (new_writer lib w cfg world times) is.intact in
        ground (arith, is.small, is.copied, is.intact, is.stream_dir_ok, is.close_ok, file)

    store_response_whole :
        (s s₀ : Server) (o : Out)
        → IsStored world times target signer key r s₀ h resp
        → store_response lib w cfg world times key resp r (s, o)
          ≡ stream_and_store lib w cfg world times key resp r (s, o)
    unfolding store_response is_head
    store_response_whole s s₀ o is =
        ground (arith, is.may_store, is.get, should_store-status r resp is.may_store)

    fetch_stores :
        (s s₀ : Server) (o : Out)
        → IsStored world times target signer key r s₀ h resp
        → fetch_and_maybe_store lib w cfg world times target signer key none r (s, o)
          ≡ store_response lib w cfg world times key resp r (s, o)
    unfolding fetch_and_maybe_store conditional with_response
    fetch_stores s s₀ o is = ground (arith, is.signed, is.get, is.answered)

    -- A request without an entry is a fetch.
    missing_leads :
        (s : Server) (o : Out)
        → load_metadata lib.decode w key times.checked times.touched s.disk ≡ (s.disk, none)
        → serve_cacheable lib w cfg world times target signer key r (s, o)
          ≡ lead_flight lib w cfg world times target signer key r (s, o)
    unfolding serve_cacheable
    missing_leads s o missing = rw missing refl

    missing_fetches :
        (s : Server) (o : Out)
        → load_metadata lib.decode w key times.checked times.touched s.disk ≡ (s.disk, none)
        → lead_flight lib w cfg world times target signer key r (s, o)
          ≡ fetch_and_maybe_store lib w cfg world times target signer key none r (count_miss s, o)
    unfolding lead_flight
    missing_fetches s o missing = rw missing refl

    -- The first request leaves the object in the cache, and the client gets what was sent.
    pub serve_cacheable_stores :
        (s : Server) (o : Out)
        → IsStored world times target signer key r s h resp
        → serve_cacheable lib w cfg world times target signer key r (s, o) ≡ (
          keep_stream lib w cfg world times key resp r (joined resp.chunks) (count_miss s),
          copy_upstream cfg resp (cache_header cfg (codes "MISS")) o,
        )
    serve_cacheable_stores s o is =
        let missing =
          load_metadata_absent lib.decode w key times.checked times.touched s.disk is.absent in
        missing_leads s o missing
        ∙ missing_fetches s o missing
        ∙ fetch_stores (count_miss s) s o is
        ∙ store_response_whole (count_miss s) s o is
        ∙ stream_and_store_whole (count_miss s) s o is
