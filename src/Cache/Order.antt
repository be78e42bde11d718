-- ===== src/Cache/Order.antt =====
-- What the eviction loop of `evictLRU` and `softEvictByAge` removes: enough, oldest first, and no
-- more than it must.
use proxykit.Prelude.{
  ℕ, ◌+◌, ◌≤◌, ◌<◌, ◌≡◌, refl, false, none, some, List, [], ◌∷◌, ◌⊎◌, arith, Bool-cases, inl, inr,
  leb, leb→le, leb-eq-false→lt, All,
}
use mathlib.Core.Path.{subst}
use proxykit.Prelude.Text.{Bytes, bytes_eq, bytes_eq_iff, bytes_eq_refl}
use proxykit.Cache.Entry.{Entry, find, delete, Distinct}
use proxykit.Cache.State.{Cache, World, remove_locked}
use proxykit.Cache.Evict.{evict_until}
use proxykit.Cache.Map.{find-delete, sizes-delete_found}
use proxykit.Cache.Snapshot.{Present, Present-delete, IsSorted}
use proxykit.Cache.Invariant.{IsValid, remove_locked-IsValid}

-- The snapshot holds all that the map holds.
abbrev pub Covers : List Entry → List Entry → Type 0
Covers snapshot entries = (k : Bytes) → find k entries ≡ find k snapshot

Covers-delete :
    (e : Entry) (es entries : List Entry)
    → find e.key es ≡ none
    → Covers (e ∷ es) entries
    → Covers es (delete e.key entries)
unfolding find
Covers-delete e es entries new cover k =
    ground (arith, find-delete e.key k entries, cover k, bytes_eq_iff e.key k)

empty_of_none : (es : List Entry) → ((k : Bytes) → find k es ≡ none) → es ≡ []
unfolding find
empty_of_none [] h = refl
empty_of_none (e ∷ es) h = ground (arith, h e.key, bytes_eq_refl e.key)

All-find {ℓ} :
    (P : Entry → Type ℓ) (k : Bytes) (es : List Entry) {e : Entry}
    → All P es
    → find k es ≡ some e
    → P e
unfolding find
All-find P k [] p f = absurd (ground arith)
All-find P k (d ∷ ds) {e} (pd, p) f = elim (Bool-cases (bytes_eq d.key k)) [
  | inl here ↦ let same : d ≡ e = ground arith in subst P same pd
  | inr there ↦ All-find P k ds p (ground arith)
]

module _ (w : World) (limit : ℕ) where
  -- The loop ends at or below its limit, or with no entry left.
  pub evict_until_enough :
      (es : List Entry) (c : Cache)
      → Distinct es
      → Covers es c.entries
      → ((evict_until w limit es c).total_size ≤ limit) ⊎ ((evict_until w limit es c).entries ≡ [])
  unfolding evict_until remove_locked find
  evict_until_enough [] c d cover = inr (empty_of_none c.entries cover)
  evict_until_enough (e ∷ es) c (new, d) cover = elim (Bool-cases (leb c.total_size limit)) [
    | inl stop ↦ rw stop (inl (leb→le _ _ stop))
    | inr go ↦
        rw go
          (evict_until_enough es (remove_locked w e c) d (Covers-delete e es c.entries new cover))
  ]

  -- It only removes: what is left is what was there.
  pub evict_until_subset :
      (es : List Entry) (c : Cache) (k : Bytes)
      → (find k (evict_until w limit es c).entries ≡ none)
        ⊎ (find k (evict_until w limit es c).entries ≡ find k c.entries)
  unfolding evict_until remove_locked
  evict_until_subset [] c k = inr refl
  evict_until_subset (e ∷ es) c k = elim (Bool-cases (leb c.total_size limit)) [
    | inl stop ↦ rw stop (inr refl)
    | inr go ↦ rw go (
        ground
          (arith, evict_until_subset es (remove_locked w e c) k, find-delete e.key k c.entries))
  ]

  -- What is still there behind a removal was among the entries that come later.
  kept_later :
      (e : Entry) (es : List Entry) (c : Cache) (j : Bytes) {d : Entry}
      → find e.key es ≡ none
      → Covers (e ∷ es) c.entries
      → find j (evict_until w limit es (remove_locked w e c)).entries ≡ some d
      → find j es ≡ some d
  unfolding remove_locked
  kept_later e es c j new cover kept = ground (
    arith,
    evict_until_subset es (remove_locked w e c) j,
    Covers-delete e es c.entries new cover j,
  )

  -- Oldest first: an entry that is removed is no later than one that is kept.
  pub evict_until_order :
      (time : Entry → ℕ) (es : List Entry) (c : Cache) (k j : Bytes) {e d : Entry}
      → Distinct es
      → Covers es c.entries
      → IsSorted time es
      → find k c.entries ≡ some e
      → find k (evict_until w limit es c).entries ≡ none
      → find j (evict_until w limit es c).entries ≡ some d
      → time e ≤ time d
  unfolding evict_until remove_locked find
  evict_until_order time [] c k j uniq cover s had gone kept = absurd (ground arith)
  evict_until_order time (e₀ ∷ es) c k j {e} {d} (new, uniq) cover (low, s) had gone kept =
      elim (Bool-cases (leb c.total_size limit)) [
        | inl stop ↦ absurd (ground arith)
        | inr go ↦ elim (Bool-cases (bytes_eq e₀.key k)) [
          | inl first ↦
              let same : e₀ ≡ e = ground (arith, cover k) in
              subst (λ x. time x ≤ time d) same
                (All-find (λ x. time e₀ ≤ time x) j es low
                  (kept_later e₀ es c j new cover (rw go at kept)))
          | inr other ↦
              evict_until_order time es (remove_locked w e₀ c) k j uniq
                (Covers-delete e₀ es c.entries new cover) s
                (ground (arith, find-delete e₀.key k c.entries)) (rw go at gone) (rw go at kept)
        ]
      ]

  -- The first removal, and what the rest of the loop removes behind it.
  last_of :
      (extra : ℕ) (e : Entry) (es : List Entry) (c : Cache)
      → leb c.total_size limit ≡ false
      → IsValid extra c
      → find e.key c.entries ≡ some e
      → (evict_until w limit es (remove_locked w e c) ≡ remove_locked w e c)
        ⊎ ((d : Entry) × (find d.key (remove_locked w e c).entries ≡ some d)
            × (find d.key (evict_until w limit es (remove_locked w e c)).entries ≡ none)
            × (limit < (evict_until w limit es (remove_locked w e c)).total_size + d.size))
      → (evict_until w limit es (remove_locked w e c) ≡ c)
        ⊎ ((d : Entry) × (find d.key c.entries ≡ some d)
            × (find d.key (evict_until w limit es (remove_locked w e c)).entries ≡ none)
            × (limit < (evict_until w limit es (remove_locked w e c)).total_size + d.size))
  unfolding remove_locked
  last_of extra e es c go v f (inl same) = inr (
    e,
    f,
    rw same (ground (arith, find-delete e.key e.key c.entries, bytes_eq_refl e.key)),
    rw same (
        omega (
          arith,
          leb-eq-false→lt _ _ go,
          v.accounts,
          sizes-delete_found e.key c.entries v.distinct f,
        )),
  )
  last_of extra e es c go v f (inr (d, there, gone, over)) =
      inr (d, ground (arith, find-delete e.key d.key c.entries), gone, over)

  -- No more than it must: the loop removes nothing, or the total would be above the limit again
  -- with one of the removed entries put back.
  pub evict_until_last :
      (extra : ℕ) (es : List Entry) (c : Cache)
      → Distinct es
      → Present es c.entries
      → IsValid extra c
      → (evict_until w limit es c ≡ c)
        ⊎ ((d : Entry) × (find d.key c.entries ≡ some d)
            × (find d.key (evict_until w limit es c).entries ≡ none)
            × (limit < (evict_until w limit es c).total_size + d.size))
  unfolding evict_until
  evict_until_last extra [] c uniq p v = inl refl
  evict_until_last extra (e ∷ es) c (new, uniq) (f, p) v =
      elim (Bool-cases (leb c.total_size limit)) [
        | inl stop ↦ rw stop (inl refl)
        | inr go ↦ rw go (
            last_of extra e es c go v f (
              evict_until_last extra es (remove_locked w e c) uniq
                (unfold remove_locked in Present-delete e.key es c.entries new p)
                (remove_locked-IsValid extra w e c v f)))
      ]
