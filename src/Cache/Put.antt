-- ===== src/Cache/Put.antt =====
-- cache/cache.go: what `Put` and `RegisterAfterStream` leave behind: the size limit, the entry that
-- `Get` finds, and an entry that is larger than the whole limit.
use proxykit.Prelude.{
  ℕ, ◌+◌, ◌-◌, ◌≤◌, ◌<◌, ◌≡◌, refl, ap, ◌∙◌, true, none, some, List, [], ◌∷◌, ◌⊎◌, arith,
  if◌then◌else◌, Bool-cases, inl, inr, leb, length, ◌||◌, ◌==◌,
}
use proxykit.Prelude.Int.{ℤ}
use proxykit.Prelude.Text.{Bytes, bytes_eq, bytes_eq_refl, bytes_eq_iff}
use proxykit.Cache.Entry.{Entry, find, Distinct, expired, expired_at}
use proxykit.Cache.State.{Cache, World, track, old_size, write_file, remove_file, remove_locked}
use proxykit.Cache.Evict.{evict_until, evict_lru, sort_by}
use proxykit.Cache.Ops.{
  put, stored, register_after_stream, get, new_entry, path_of, deadline, effective_ttl,
}
use proxykit.Cache.Map.{find-insert, find-delete, sizes-delete_found}
use proxykit.Cache.Snapshot.{Present, Present-delete, Present-self, sort_by-Distinct, sort_by-All}
use proxykit.Cache.Invariant.{IsValid, track-IsValid, evict_lru-IsValid}
use proxykit.Cache.Order.{evict_until_subset}
use proxykit.Cache.Limit.{evict_lru_bounded, evict_lru_enough, evict_lru_starved}

-- An entry is no larger than the total.
size-le-total :
    (extra : ℕ) (k : Bytes) (c : Cache) {e : Entry}
    → IsValid extra c
    → find k c.entries ≡ some e
    → e.size ≤ c.total_size
size-le-total extra k c v f = omega (arith, v.accounts, sizes-delete_found k c.entries v.distinct f)

module _ (w : World) where
  evict_lru_subset :
      (c : Cache) (k : Bytes)
      → (find k (evict_lru w c).entries ≡ none)
        ⊎ (find k (evict_lru w c).entries ≡ find k c.entries)
  unfolding evict_lru
  evict_lru_subset c k =
      ground (arith, evict_until_subset w c.max_size (sort_by (λ e. e.accessed_at) c.entries) c k)

  -- An entry that is larger than the limit does not survive the eviction.
  evict_lru_oversized :
      (extra : ℕ) (k : Bytes) (c : Cache) {e : Entry}
      → IsValid extra c
      → 0 < c.max_size
      → find k c.entries ≡ some e
      → c.max_size < e.size
      → find k (evict_lru w c).entries ≡ none
  unfolding find
  evict_lru_oversized extra k c {e} v limited had large = elim (evict_lru_subset c k) [
    | inl gone ↦ gone
    | inr same ↦ elim (evict_lru_enough w extra c v limited) [
      | inl fits ↦ absurd (
          omega (
            arith,
            size-le-total extra k (evict_lru w c) {e = e} (evict_lru-IsValid extra w c v)
                (same ∙ had),
          ))
      | inr empty ↦ rw empty refl
    ]
  ]

  -- A file that is gone stays gone, and the file of an evicted entry is gone.
  evict_until_no_file :
      (limit : ℕ) (es : List Entry) (c : Cache) (p : Bytes)
      → c.files p ≡ none
      → (evict_until w limit es c).files p ≡ none
  unfolding evict_until remove_locked
  evict_until_no_file limit [] c p h = h
  evict_until_no_file limit (e ∷ es) c p h = elim (Bool-cases (leb c.total_size limit)) [
    | inl stop ↦ rw stop h
    | inr go ↦
        rw go (
          evict_until_no_file limit es (remove_locked w e c) p (unfold remove_file in ground arith))
  ]

  evict_until_removes :
      (limit : ℕ) (es : List Entry) (c : Cache) (k : Bytes) {e : Entry}
      → Distinct es
      → Present es c.entries
      → w.remove_ok e.path ≡ true
      → find k c.entries ≡ some e
      → find k (evict_until w limit es c).entries ≡ none
      → (evict_until w limit es c).files e.path ≡ none
  unfolding evict_until remove_locked
  evict_until_removes limit [] c k d p ok had gone = absurd (ground arith)
  evict_until_removes limit (e₀ ∷ es) c k {e} (new, d) (f, p) ok had gone =
      elim (Bool-cases (leb c.total_size limit)) [
        | inl stop ↦ absurd (ground arith)
        | inr go ↦ elim (Bool-cases (bytes_eq e₀.key k)) [
          | inl first ↦
              let same : e₀ ≡ e =
                ground (arith, ap (λ x. find x c.entries) ((bytes_eq_iff e₀.key k).0 first)) in
              rw go (
                evict_until_no_file limit es (remove_locked w e₀ c) e.path (
                  unfold remove_file in
                  ground (arith, bytes_eq_refl e.path, ap (λ (x : Entry). x.path) same)))
          | inr other ↦ rw go (
              evict_until_removes limit es (remove_locked w e₀ c) k {e = e} d
                (Present-delete e₀.key es c.entries new p) ok
                (ground (arith, find-delete e₀.key k c.entries)) (rw go at gone))
        ]
      ]

  evict_lru_removes :
      (extra : ℕ) (k : Bytes) (c : Cache) {e : Entry}
      → IsValid extra c
      → w.remove_ok e.path ≡ true
      → find k c.entries ≡ some e
      → find k (evict_lru w c).entries ≡ none
      → (evict_lru w c).files e.path ≡ none
  unfolding evict_lru
  evict_lru_removes extra k c {e} v ok had gone =
      elim (Bool-cases ((c.max_size == 0) || leb c.total_size c.max_size)) [
        | inl fits ↦ absurd (ground arith)
        | inr over ↦ rw over (
            evict_until_removes c.max_size (sort_by (λ d. d.accessed_at) c.entries) c k {e = e}
              (sort_by-Distinct (λ d. d.accessed_at) c.entries v.distinct)
              (sort_by-All (λ d. d.accessed_at) (λ d. find d.key c.entries ≡ some d) c.entries
                (Present-self c.entries v.distinct))
              ok had (rw over at gone))
      ]

-- The cache between the locked part of `Put` and the eviction that follows it.
abbrev after_track : (Bytes → Bytes) → World → Bytes → Bytes → ℤ → ℕ → Cache → Cache
after_track hash_key w k content ttl now c =
    track w
      (new_entry k (path_of hash_key c.dir k) (length content)
        (deadline (effective_ttl c.ttl ttl) now) now)
      (record c { files = write_file (path_of hash_key c.dir k) content c.files })

module _ (hash_key : Bytes → Bytes) (w : World) (k content : Bytes) (ttl : ℤ) (now : ℕ) where
  after_track-IsValid :
      (extra : ℕ) (c : Cache)
      → IsValid extra c
      → IsValid extra (after_track hash_key w k content ttl now c)
  after_track-IsValid extra c v =
      track-IsValid extra w _ _ (record { distinct = v.distinct; accounts = v.accounts })

  -- A successful `Put` into a valid cache with a limit leaves it valid and within the limit, if the
  -- bytes that have no entry fit into it.
  pub put_bounded :
      (extra : ℕ) (c : Cache)
      → IsValid extra c
      → 0 < c.max_size
      → extra ≤ c.max_size
      → IsValid extra (put hash_key w none k content ttl now c).0
        × ((put hash_key w none k content ttl now c).0.total_size ≤ c.max_size)
  unfolding put track
  put_bounded extra c v limited room =
      let v' = after_track-IsValid extra c v in
      (
        evict_lru-IsValid extra w (after_track hash_key w k content ttl now c) v',
        evict_lru_bounded w extra (after_track hash_key w k content ttl now c) v' limited room,
      )

  -- `Put` of content larger than the limit of a valid cache reports a path, but leaves no entry for
  -- the key, and no file at the path, where the removal of the file succeeds.
  pub put_oversized :
      (extra : ℕ) (c : Cache)
      → IsValid extra c
      → 0 < c.max_size
      → c.max_size < length content
      → w.remove_ok (path_of hash_key c.dir k) ≡ true
      → ((put hash_key w none k content ttl now c).1 ≡ stored (path_of hash_key c.dir k))
        × (find k (put hash_key w none k content ttl now c).0.entries ≡ none)
        × ((put hash_key w none k content ttl now c).0.files (path_of hash_key c.dir k) ≡ none)
  unfolding put track new_entry
  put_oversized extra c v limited large ok =
      let v' = after_track-IsValid extra c v in
      let mid = after_track hash_key w k content ttl now c in
      let had : find k mid.entries
          ≡ some (
              new_entry k (path_of hash_key c.dir k) (length content)
                (deadline (effective_ttl c.ttl ttl) now) now) =
        ground (
          arith,
          find-insert
              (new_entry k (path_of hash_key c.dir k) (length content)
                (deadline (effective_ttl c.ttl ttl) now) now)
              k c.entries,
          bytes_eq_refl k,
        ) in
      let gone = evict_lru_oversized w extra k mid v' limited had large in
      (refl, gone, evict_lru_removes w extra k mid v' ok had gone)

  -- In a valid cache with more bytes without an entry than its limit, a successful `Put` leaves no
  -- entry, not its own either.
  put_starved :
      (extra : ℕ) (c : Cache)
      → IsValid extra c
      → 0 < c.max_size
      → c.max_size < extra
      → (put hash_key w none k content ttl now c).0.entries ≡ []
  unfolding put track
  put_starved extra c v limited over =
      evict_lru_starved w extra (after_track hash_key w k content ttl now c)
        (after_track-IsValid extra c v) limited over

  -- After a successful `Put` that needs no eviction, `Get` of the key finds the new path, holding the
  -- content, until the deadline has passed; `Get` of any other key answers as before.
  pub get-put :
      (w' : World) (c : Cache) (j : Bytes) (checked later : ℕ)
      → (c.max_size ≡ 0) ⊎ ((c.total_size - old_size k c.entries) + length content ≤ c.max_size)
      → ((get w' j checked later (put hash_key w none k content ttl now c).0).1 ≡ (
          if bytes_eq k j
          then (if expired_at (deadline (effective_ttl c.ttl ttl) now) checked
              then none
              else some (path_of hash_key c.dir k))
          else (get w' j checked later c).1))
        × ((put hash_key w none k content ttl now c).0.files (path_of hash_key c.dir k)
            ≡ some content)
  unfolding put get track new_entry evict_lru expired write_file
  get-put w' c j checked later room = (
    ground (
      arith,
      find-insert
          (new_entry k (path_of hash_key c.dir k) (length content)
            (deadline (effective_ttl c.ttl ttl) now) now)
          j c.entries,
    ),
    ground (arith, bytes_eq_refl (path_of hash_key c.dir k)),
  )

-- After a `RegisterAfterStream` that needs no eviction, `Get` of the key finds the path until the
-- cache's own lifetime has passed, `Get` of any other key answers as before, and no file has
-- changed.
pub get-register_after_stream :
    (w w' : World) (k path : Bytes) (size now : ℕ) (c : Cache) (j : Bytes) (checked later : ℕ)
    → (c.max_size ≡ 0) ⊎ ((c.total_size - old_size k c.entries) + size ≤ c.max_size)
    → ((get w' j checked later (register_after_stream w k path size now c)).1 ≡ (
        if bytes_eq k j
        then (if expired_at (deadline c.ttl now) checked then none else some path)
        else (get w' j checked later c).1))
      × ((register_after_stream w k path size now c).files ≡ c.files)
unfolding register_after_stream get track new_entry evict_lru expired
get-register_after_stream w w' k path size now c j checked later room = (
  ground (arith, find-insert (new_entry k path size (deadline c.ttl now) now) j c.entries),
  ground arith,
)
