-- ===== src/Cache/Limit.antt =====
-- cache/cache.go: the size limit after `evictLRU`, `Put` and `RegisterAfterStream`, and which
-- entries the eviction takes.
use proxykit.Prelude.{
  ℕ, ◌+◌, ◌≤◌, ◌<◌, ◌≡◌, refl, sym, ap, none, some, [], ◌⊎◌, arith, Bool-cases, inl, inr, leb, ◌||◌,
  ◌==◌,
}
use proxykit.Prelude.Text.{Bytes}
use proxykit.Cache.Entry.{Entry, find, sizes}
use proxykit.Cache.State.{Cache, World}
use proxykit.Cache.Evict.{evict_until, evict_lru, sort_by}
use proxykit.Cache.Snapshot.{
  Present-self, sort_by-IsSorted, sort_by-Distinct, sort_by-All, find-sort_by,
}
use proxykit.Cache.Invariant.{IsValid, evict_lru-IsValid}
use proxykit.Cache.Order.{Covers, evict_until_enough, evict_until_order, evict_until_last}

-- The loop of both evictions, started on the sorted map.
module _ (w : World) (extra limit : ℕ) (time : Entry → ℕ) (c : Cache) (v : IsValid extra c) where
  abbrev evicted : Cache
  evicted = evict_until w limit (sort_by time c.entries) c

  sorted-Covers : Covers (sort_by time c.entries) c.entries
  sorted-Covers k = sym (find-sort_by time k c.entries v.distinct)

  sorted_enough : (evicted.total_size ≤ limit) ⊎ (evicted.entries ≡ [])
  sorted_enough =
      evict_until_enough w limit (sort_by time c.entries) c
        (sort_by-Distinct time c.entries v.distinct) sorted-Covers

  sorted_order :
      (k j : Bytes) {e d : Entry}
      → find k c.entries ≡ some e
      → find k evicted.entries ≡ none
      → find j evicted.entries ≡ some d
      → time e ≤ time d
  sorted_order k j had gone kept =
      evict_until_order w limit time (sort_by time c.entries) c k j
        (sort_by-Distinct time c.entries v.distinct) sorted-Covers (sort_by-IsSorted time c.entries)
        had gone kept

  sorted_last :
      (evicted ≡ c)
      ⊎ ((d : Entry) × (find d.key c.entries ≡ some d)
          × (find d.key evicted.entries ≡ none)
          × (limit < evicted.total_size + d.size))
  sorted_last =
      evict_until_last w limit extra (sort_by time c.entries) c
        (sort_by-Distinct time c.entries v.distinct)
        (sort_by-All time (λ e. find e.key c.entries ≡ some e) c.entries
          (Present-self c.entries v.distinct))
        v

module _ (w : World) (extra : ℕ) (c : Cache) (v : IsValid extra c) (limited : 0 < c.max_size) where
  -- After `evictLRU` the total is within the limit, or no entry is left.
  pub evict_lru_enough : ((evict_lru w c).total_size ≤ c.max_size) ⊎ ((evict_lru w c).entries ≡ [])
  unfolding evict_lru
  evict_lru_enough = elim (Bool-cases ((c.max_size == 0) || leb c.total_size c.max_size)) [
    | inl fits ↦ inl (ground arith)
    | inr over ↦ rw over (sorted_enough w extra c.max_size (λ e. e.accessed_at) c v)
  ]

  -- With few enough bytes outside the map the total is within the limit in any case.
  pub evict_lru_bounded : extra ≤ c.max_size → (evict_lru w c).total_size ≤ c.max_size
  unfolding sizes
  evict_lru_bounded room = elim evict_lru_enough [
    | inl fits ↦ fits
    | inr empty ↦
        let kept = (evict_lru-IsValid extra w c v).accounts in omega (arith, kept, ap sizes empty)
  ]

  -- With more bytes outside the map than the limit allows, no entry survives.
  pub evict_lru_starved : c.max_size < extra → (evict_lru w c).entries ≡ []
  evict_lru_starved over = elim evict_lru_enough [
    | inl fits ↦ absurd (omega (arith, (evict_lru-IsValid extra w c v).accounts))
    | inr empty ↦ empty
  ]

  -- The least recently used go first: in a valid cache with a limit, an entry that is evicted was
  -- last used no later than any that stays.
  pub evict_lru_order :
      (k j : Bytes) {e d : Entry}
      → find k c.entries ≡ some e
      → find k (evict_lru w c).entries ≡ none
      → find j (evict_lru w c).entries ≡ some d
      → e.accessed_at ≤ d.accessed_at
  unfolding evict_lru
  evict_lru_order k j had gone kept =
      elim (Bool-cases ((c.max_size == 0) || leb c.total_size c.max_size)) [
        | inl fits ↦ absurd (ground arith)
        | inr over ↦
            sorted_order w extra c.max_size (λ e. e.accessed_at) c v k j had (rw over at gone)
              (rw over at kept)
      ]

  -- The eviction of a valid cache with a limit changes nothing, or it took an entry with which the
  -- total would still be above the limit.
  evict_lru_last :
      (evict_lru w c ≡ c)
      ⊎ ((d : Entry) × (find d.key c.entries ≡ some d)
          × (find d.key (evict_lru w c).entries ≡ none)
          × (c.max_size < (evict_lru w c).total_size + d.size))
  unfolding evict_lru
  evict_lru_last = elim (Bool-cases ((c.max_size == 0) || leb c.total_size c.max_size)) [
    | inl fits ↦ inl (rw fits refl)
    | inr over ↦ rw over (sorted_last w extra c.max_size (λ e. e.accessed_at) c v)
  ]
