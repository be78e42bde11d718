-- ===== src/S3/Entries.antt =====
-- s3/entry.go: the metadata of an entry, which is stored beside its body. `encode` and `decode` are
-- `encoding/json` on the struct `entryMetadata`.
use proxykit.Prelude.{
  ℕ, ◌+◌, ◌-◌, ◌≤◌, ◌≡◌, refl, ap, ◌∙◌, Bool, false, not, Option, none, some, [], ◌⊎◌, arith,
  if◌then◌else◌, length, Option-cases, Bool-cases, inl, inr,
}
use proxykit.Prelude.Int.{negsuc}
use proxykit.Prelude.Text.{Bytes, bytes_eq, bytes_eq_refl}
use proxykit.Cache.Entry.{find, expired_at}
use proxykit.Cache.State.{Cache, World, Files, old_size, remove_locked}
use proxykit.Cache.Map.{find-insert, find-delete, key-find}
use proxykit.Cache.Ops.{
  get, touch, put, remove, PutError, PutResult, path_of, deadline, effective_ttl,
}
use proxykit.Cache.Put.{get-put}
use proxykit.Cache.Fetch.Answers.{files-get}
use proxykit.Http.{Header}
use proxykit.S3.Keys.{metadata_key, body_key}

-- The struct `entryMetadata`.
pub record Metadata : Type 0 where
  pub status_code : ℕ
  pub header : Header
  pub etag : Bytes
  pub last_modified : Bytes
  pub stored_at : ℕ
  pub fresh_until : ℕ
  pub has_body : Bool
  pub body_size : ℕ

module _ (decode : Bytes → Option Metadata) (w : World) (key : Bytes) (checked now : ℕ) where
  -- The part of `loadMetadata` behind metadata that was read: its body must be there as well.
  unfoldable pub with_body : Metadata → Cache → Cache × Option (Metadata × Bytes)
  with_body meta c =
      let (c', path) = get w (body_key key) checked now c in
      if not meta.has_body then (c, some (meta, [])) else (elim path [
        | none ↦ (remove w (metadata_key key) c', none)
        | some p ↦ (c', some (meta, p))
      ])

  -- The part behind the path of the metadata; a file that cannot be read or decoded is removed.
  unfoldable pub read_metadata : Cache × Option Bytes → Cache × Option (Metadata × Bytes)
  read_metadata (c, none) = (c, none)
  read_metadata (c, some path) = elim (c.files path) [
    | none ↦ (remove w (metadata_key key) c, none)
    | some text ↦ elim (decode text) [
      | none ↦ (remove w (metadata_key key) c, none)
      | some meta ↦ with_body meta c
    ]
  ]

  -- `loadMetadata`.
  unfoldable pub load_metadata : Cache → Cache × Option (Metadata × Bytes)
  load_metadata c = read_metadata (get w (metadata_key key) checked now c)

-- `storeMetadata`: a lifetime of -1 is none.
unfoldable pub store_metadata :
    (Metadata → Bytes)
    → (Bytes → Bytes)
    → World
    → Option PutError
    → Bytes
    → Metadata
    → ℕ
    → Cache
    → Cache × PutResult
store_metadata encode hash_key w fault key meta now c =
    put hash_key w fault (metadata_key key) (encode meta) (negsuc 0) now c

-- `removeEntry`.
pub remove_entry : World → Bytes → Cache → Cache
remove_entry w key c = remove w (body_key key) (remove w (metadata_key key) c)

-- A key's metadata and its body have two keys.
two_keys : (key : Bytes) → bytes_eq (metadata_key key) (body_key key) ≡ false
unfolding metadata_key body_key bytes_eq
two_keys key = refl

find-remove : (w : World) (k : Bytes) (c : Cache) → find k (remove w k c).entries ≡ none
unfolding remove remove_locked
find-remove w k c = elim (Option-cases (find k c.entries)) [
  | inl missing ↦ ground (arith, missing)
  | inr (e, there) ↦ ground (
    arith,
    there,
    find-delete e.key k c.entries,
    ap (λ x. bytes_eq x k) (key-find k c.entries {e = e} there),
    bytes_eq_refl k,
  )
]

remove_absent :
    (w : World) (k j : Bytes) (c : Cache)
    → find j c.entries ≡ none
    → find j (remove w k c).entries ≡ none
unfolding remove remove_locked
remove_absent w k j c absent = elim (Option-cases (find k c.entries)) [
  | inl missing ↦ ground (arith, missing, absent)
  | inr (e, there) ↦ ground (arith, there, absent, find-delete e.key j c.entries)
]

-- A `Get` changes nothing about the other keys.
find-get :
    (w : World) (k j : Bytes) (checked now : ℕ) (c : Cache)
    → bytes_eq k j ≡ false
    → find j (get w k checked now c).0.entries ≡ find j c.entries
unfolding get touch remove_locked
find-get w k j checked now c other = elim (Option-cases (find k c.entries)) [
  | inl missing ↦ ground (arith, missing)
  | inr (e, there) ↦
      let own = ap (λ x. bytes_eq x j) (key-find k c.entries {e = e} there) in
      ground (
        arith,
        there,
        other,
        own,
        find-delete e.key j c.entries,
        find-insert (record e { accessed_at = now }) j c.entries,
      )
]

get_same :
    (w : World) (j : Bytes) (checked now : ℕ) (c c' : Cache)
    → find j c'.entries ≡ find j c.entries
    → (get w j checked now c').1 ≡ (get w j checked now c).1
unfolding get
get_same w j checked now c c' same = ground (arith, same)

module _ (decode : Bytes → Option Metadata) (w : World) (key : Bytes) (checked now : ℕ) where
  -- Metadata that is found, read and decoded goes on to its body.
  loads :
      (c : Cache) (meta : Metadata) {path text : Bytes}
      → (get w (metadata_key key) checked now c).1 ≡ some path
      → c.files path ≡ some text
      → decode text ≡ some meta
      → load_metadata decode w key checked now c
        ≡ with_body decode w key checked now meta (get w (metadata_key key) checked now c).0
  unfolding load_metadata read_metadata
  loads c meta {path} {text} hit there coded =
      let same = files-get w (metadata_key key) checked now c hit in
      ground (arith, hit, ap (λ (f : Files). f path) same, there, coded)

  -- A key without metadata is not looked up further.
  pub load_metadata_absent :
      (c : Cache)
      → find (metadata_key key) c.entries ≡ none
      → load_metadata decode w key checked now c ≡ (c, none)
  unfolding load_metadata read_metadata get
  load_metadata_absent c absent = ground (arith, absent)

  -- What is loaded leaves the files as they are.
  pub files-load_metadata :
      (c : Cache) {meta : Metadata} {body : Bytes}
      → (load_metadata decode w key checked now c).1 ≡ some (meta, body)
      → (load_metadata decode w key checked now c).0.files ≡ c.files
  unfolding load_metadata read_metadata with_body
  files-load_metadata c {meta} {body} h =
      let found = get w (metadata_key key) checked now c in
      elim (Option-cases found.1) [
        | inl missing ↦ absurd (ground (arith, missing))
        | inr (path, hit) ↦
            let same = files-get w (metadata_key key) checked now c hit in
            elim (Option-cases (found.0.files path)) [
              | inl unread ↦ absurd (ground (arith, hit, unread))
              | inr (text, there) ↦ elim (Option-cases (decode text)) [
                | inl broken ↦ absurd (ground (arith, hit, there, broken))
                | inr (meta', coded) ↦ elim (Bool-cases meta'.has_body) [
                  | inr none_needed ↦ ground (arith, hit, there, coded, none_needed, same)
                  | inl needed ↦ elim (Option-cases (get w (body_key key) checked now found.0).1) [
                    | inl gone ↦ absurd (ground (arith, hit, there, coded, needed, gone))
                    | inr (p, kept) ↦
                        let same' = files-get w (body_key key) checked now found.0 kept in
                        ground (arith, hit, there, coded, needed, kept, same, same')
                  ]
                ]
              ]
            ]
      ]

  -- An entry that was removed is not loaded.
  load-remove_entry :
      (c : Cache) → (load_metadata decode w key checked now (remove_entry w key c)).1 ≡ none
  unfolding load_metadata read_metadata remove_entry get
  load-remove_entry c =
      let gone =
        remove_absent w (body_key key) (metadata_key key) (remove w (metadata_key key) c)
          (find-remove w (metadata_key key) c) in
      ground (arith, gone)

-- Where decoding inverts encoding on the metadata, no eviction is needed and `Get` finds the body,
-- metadata that is stored is loaded again, with the path of the body if it says that there is one.
pub load-store_metadata :
    (encode : Metadata → Bytes) (decode : Bytes → Option Metadata) (hash_key : Bytes → Bytes)
    (w : World) (key path : Bytes) (meta : Metadata) (now checked later : ℕ) (c : Cache)
    → decode (encode meta) ≡ some meta
    → (c.max_size ≡ 0)
      ⊎ ((c.total_size - old_size (metadata_key key) c.entries) + length (encode meta) ≤ c.max_size)
    → (get w (body_key key) checked later c).1 ≡ some path
    → (load_metadata decode w key checked later
        (store_metadata encode hash_key w none key meta now c).0).1
      ≡ some (meta, if meta.has_body then path else [])
unfolding store_metadata with_body effective_ttl deadline expired_at
load-store_metadata encode decode hash_key w key path meta now checked later c coded room body =
    let mk = metadata_key key in
    let c₁ = (put hash_key w none mk (encode meta) (negsuc 0) now c).0 in
    let c₂ = (get w mk checked later c₁).0 in
    let (found, there) =
      get-put hash_key w mk (encode meta) (negsuc 0) now w c mk checked later room in
    let hit : (get w mk checked later c₁).1 ≡ some (path_of hash_key c.dir mk) =
      ground (arith, found, bytes_eq_refl mk) in
    let kept : (get w (body_key key) checked later c₁).1 ≡ some path = ground (
      arith,
      (get-put hash_key w mk (encode meta) (negsuc 0) now w c (body_key key) checked later room).0,
      two_keys key,
      body,
    ) in
    let still =
      get_same w (body_key key) checked later c₁ c₂
        (find-get w mk (body_key key) checked later c₁ (two_keys key))
      ∙ kept in
    ap (λ r. r.1) (loads decode w key checked later c₁ meta hit there coded) ∙ ground (arith, still)
