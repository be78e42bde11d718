-- ===== src/S3/Server/Kept.antt =====
-- s3/server.go: what `streamAndStore` leaves in the cache, as `loadMetadata` finds it.
use mathlib.Core.List.{append_assoc}
use proxykit.Prelude.{
  ℕ, ◌≡◌, refl, ap, ◌∙◌, true, false, none, some, [], ◌∷◌, ◌++◌, arith, if◌then◌else◌, length, take,
  Option-cases, inl, inr,
}
use proxykit.Prelude.Text.{Bytes, codes, bytes_eq, bytes_eq_refl, bytes_eq-append}
use proxykit.Cache.Entry.{find, expired_at}
use proxykit.Cache.State.{Cache, World, Files, remove_locked, write_file, track}
use proxykit.Cache.Ops.{get, remove, put, register_after_stream, path_of, deadline}
use proxykit.Cache.Evict.{evict_lru}
use proxykit.Cache.Put.{get-register_after_stream}
use proxykit.Prelude.Int.{ℤ, negsuc}
use proxykit.S3.Entries.{load_metadata, load-store_metadata, store_metadata}
use proxykit.S3.Keys.{metadata_key, body_key}
use proxykit.S3.Server.{
  Server, Library, Config, Outside, Times, Origin, Incoming, stream_path, metadata_from_response,
}
use proxykit.S3.Server.Fetch.{keep_stream, store_counted}

not_a_stream :
    (h x : Bytes)
    → bytes_eq (codes "/streams/" ++ x) (codes "/" ++ (take 2 h ++ (codes "/" ++ h))) ≡ false
unfolding bytes_eq
not_a_stream [] x = refl
not_a_stream (a ∷ []) x = ground arith
not_a_stream (a ∷ b ∷ h) x = ground arith

-- The files of streamed bodies are not those of `Put`.
pub stream_path_other :
    (hash_key : Bytes → Bytes) (dir key k : Bytes)
    → bytes_eq (stream_path hash_key dir key) (path_of hash_key dir k) ≡ false
unfolding stream_path path_of
stream_path_other hash_key dir key k =
    let flat : path_of hash_key dir k
        ≡ dir ++ (codes "/" ++ (take 2 (hash_key k) ++ (codes "/" ++ hash_key k))) =
      simp append_assoc in
    ap (bytes_eq (stream_path hash_key dir key)) flat
    ∙ bytes_eq-append dir _ _
    ∙ not_a_stream (hash_key k) _

-- `Remove` changes no setting.
remove_settings :
    (w : World) (k : Bytes) (c : Cache)
    → ((remove w k c).max_size ≡ c.max_size)
      × ((remove w k c).ttl ≡ c.ttl)
      × ((remove w k c).dir ≡ c.dir)
unfolding remove remove_locked
remove_settings w k c = elim (Option-cases (find k c.entries)) [
  | inl missing ↦ ground (arith, missing)
  | inr (e, there) ↦ ground (arith, there)
]

-- Without a limit, `Put` leaves every other file.
pub put_other_file :
    (hash_key : Bytes → Bytes) (w : World) (k content p : Bytes) (ttl : ℤ) (now : ℕ) (c : Cache)
    → c.max_size ≡ 0
    → bytes_eq p (path_of hash_key c.dir k) ≡ false
    → (put hash_key w none k content ttl now c).0.files p ≡ c.files p
unfolding put track evict_lru write_file
put_other_file hash_key w k content p ttl now c unlimited other = ground (arith, unlimited, other)

register_settings :
    (w : World) (k path : Bytes) (size now : ℕ) (c : Cache)
    → c.max_size ≡ 0
    → ((register_after_stream w k path size now c).max_size ≡ 0)
      × ((register_after_stream w k path size now c).dir ≡ c.dir)
unfolding register_after_stream track evict_lru
register_settings w k path size now c unlimited = ground (arith, unlimited)

-- The path of a stream is not empty.
pub stream_path_named :
    (hash_key : Bytes → Bytes) (dir key : Bytes)
    → bytes_eq (stream_path hash_key dir key) [] ≡ false
unfolding stream_path bytes_eq
stream_path_named hash_key [] key = refl
stream_path_named hash_key (c ∷ dir) key = refl

module _ (lib : Library) (w : World) (cfg : Config) (world : Outside) (times : Times) where
  -- What `streamAndStore` keeps is loaded again with its metadata and its body.
  pub load-keep_stream :
      (key content : Bytes) (resp : Origin) (r : Incoming) (s : Server) (checked later : ℕ)
      → s.disk.max_size ≡ 0
      → world.rename_ok ≡ true
      → world.metadata_fault ≡ none
      → expired_at (deadline s.disk.ttl times.now) checked ≡ false
      → lib.decode (lib.encode (metadata_from_response cfg resp r true (length content) times.now))
        ≡ some (metadata_from_response cfg resp r true (length content) times.now)
      → ((load_metadata lib.decode w key checked later
            (keep_stream lib w cfg world times key resp r content s).disk).1
          ≡ some (
            metadata_from_response cfg resp r true (length content) times.now,
            stream_path lib.hash_key s.disk.dir key,
          ))
        × ((keep_stream lib w cfg world times key resp r content s).disk.files
              (stream_path lib.hash_key s.disk.dir key)
            ≡ some content)
  load-keep_stream key content resp r s checked later unlimited renamed fine fresh coded =
      let removed = remove w (body_key key) s.disk in
      let path = stream_path lib.hash_key s.disk.dir key in
      let written = record removed { files = write_file path content removed.files } in
      let tracked =
        register_after_stream w (body_key key) path (length content) times.now written in
      let meta = metadata_from_response cfg resp r true (length content) times.now in
      let stored = (store_metadata lib.encode lib.hash_key w none key meta times.now tracked).0 in
      let (limit, ttl, dir) = remove_settings w (body_key key) s.disk in
      let (limit', dir') =
        register_settings w (body_key key) path (length content) times.now written
          (limit ∙ unlimited) in
      let (found, files) =
        get-register_after_stream w w (body_key key) path (length content) times.now written
          (body_key key) checked later (inl (limit ∙ unlimited)) in
      let is : (keep_stream lib w cfg world times key resp r content s).disk ≡ stored =
        unfold keep_stream store_counted store_metadata put in rw renamed (rw fine refl) in
      let body : (get w (body_key key) checked later tracked).1 ≡ some path =
        ground (arith, found, bytes_eq_refl (body_key key), ttl, fresh) in
      let loaded =
        load-store_metadata lib.encode lib.decode lib.hash_key w key path meta times.now checked
          later tracked coded (inl limit') body in
      let other : bytes_eq path (path_of lib.hash_key tracked.dir (metadata_key key)) ≡ false =
        ap (λ d. bytes_eq path (path_of lib.hash_key d (metadata_key key))) (dir' ∙ dir)
        ∙ stream_path_other lib.hash_key s.disk.dir key (metadata_key key) in
      let kept_file : stored.files path ≡ tracked.files path =
        unfold store_metadata in
        put_other_file lib.hash_key w (metadata_key key) (lib.encode meta) path (negsuc 0) times.now
          tracked limit' other in
      let with_path : (if meta.has_body then path else []) ≡ path =
        unfold metadata_from_response in refl in
      (
        ap (λ c. (load_metadata lib.decode w key checked later c).1) is
            ∙ loaded
            ∙ ap (λ p. some (meta, p)) with_path,
        ap (λ (c : Cache). c.files path) is
            ∙ kept_file
            ∙ ap (λ (f : Files). f path) files
            ∙ unfold write_file in ground (arith, bytes_eq_refl path),
      )
