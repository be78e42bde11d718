-- ===== src/Cache/Invariant.antt =====
-- The accounting invariant of `Cache`, kept by every operation and by every eviction loop.
pub mod Runs
use proxykit.Prelude.{
  ℕ, ◌+◌, ◌-◌, ◌≤◌, ◌≡◌, refl, Bool, true, false, Option, none, some, List, [], ◌∷◌, arith,
  if◌then◌else◌, Bool-cases, inl, inr, leb, All,
}
use proxykit.Prelude.Int.{ℤ}
use proxykit.Prelude.Text.{Bytes, bytes_eq, bytes_eq_refl}
use proxykit.Cache.Entry.{Entry, Row, find, delete, insert, sizes, Distinct}
use proxykit.Cache.State.{Cache, World, remove_locked, track, old_size}
use proxykit.Cache.Evict.{
  evict_until, evict_lru, soft_evict_by_age, evict_expired, sweep, sort_by, Float64,
}
use proxykit.Cache.Map.{delete-Distinct, insert-Distinct, sizes-delete, sizes-delete_found}
use proxykit.Cache.Snapshot.{Present, Present-delete, Present-self, sort_by-All, sort_by-Distinct}

-- One entry per key, and a total that is the sum of the entries' sizes and of `extra`, the bytes of
-- files that `recover` counts and that have no entry.
pub record IsValid (extra : ℕ) (c : Cache) : Type 0 where
  pub distinct : Distinct c.entries
  pub accounts : c.total_size ≡ sizes c.entries + extra

module _ (extra : ℕ) (w : World) where
  pub remove_locked-IsValid :
      (e : Entry) (c : Cache)
      → IsValid extra c
      → find e.key c.entries ≡ some e
      → IsValid extra (remove_locked w e c)
  unfolding remove_locked
  remove_locked-IsValid e c v f = record {
    distinct = delete-Distinct e.key c.entries v.distinct;
    accounts = omega (arith, sizes-delete_found e.key c.entries v.distinct f, v.accounts);
  }

  pub track-IsValid : (e : Entry) (c : Cache) → IsValid extra c → IsValid extra (track w e c)
  unfolding track insert sizes
  track-IsValid e c v = record {
    distinct = insert-Distinct e c.entries v.distinct;
    accounts = omega (arith, sizes-delete e.key c.entries v.distinct, v.accounts);
  }

  evict_until-IsValid :
      (limit : ℕ) (es : List Entry) (c : Cache)
      → Distinct es
      → Present es c.entries
      → IsValid extra c
      → IsValid extra (evict_until w limit es c)
  unfolding evict_until remove_locked
  evict_until-IsValid limit [] c d p v = v
  evict_until-IsValid limit (e ∷ es) c (new, d) (f, p) v =
      elim (Bool-cases (leb c.total_size limit)) [
        | inl stop ↦ rw stop v
        | inr go ↦ rw go (
            evict_until-IsValid limit es (remove_locked w e c) d
              (Present-delete e.key es c.entries new p) (remove_locked-IsValid e c v f))
      ]

  sweep-IsValid :
      (pick : Entry → Bool) (es : List Entry) (c : Cache)
      → Distinct es
      → Present es c.entries
      → IsValid extra c
      → IsValid extra (sweep w pick es c)
  unfolding sweep remove_locked
  sweep-IsValid pick [] c d p v = v
  sweep-IsValid pick (e ∷ es) c (new, d) (f, p) v = elim (Bool-cases (pick e)) [
    | inl hit ↦ rw hit (
        sweep-IsValid pick es (remove_locked w e c) d (Present-delete e.key es c.entries new p)
          (remove_locked-IsValid e c v f))
    | inr miss ↦ rw miss (sweep-IsValid pick es c d p v)
  ]

  evict_sorted-IsValid :
      (limit : ℕ) (time : Entry → ℕ) (c : Cache)
      → IsValid extra c
      → IsValid extra (evict_until w limit (sort_by time c.entries) c)
  evict_sorted-IsValid limit time c v =
      evict_until-IsValid limit (sort_by time c.entries) c
        (sort_by-Distinct time c.entries v.distinct)
        (sort_by-All time (λ e. find e.key c.entries ≡ some e) c.entries
          (Present-self c.entries v.distinct))
        v

  pub evict_lru-IsValid : (c : Cache) → IsValid extra c → IsValid extra (evict_lru w c)
  unfolding evict_lru
  evict_lru-IsValid c v = ground (arith, evict_sorted-IsValid c.max_size (λ e. e.accessed_at) c v)

  pub soft_evict_by_age-IsValid :
      (fl : Float64) (c : Cache) → IsValid extra c → IsValid extra (soft_evict_by_age fl w c)
  unfolding soft_evict_by_age
  soft_evict_by_age-IsValid fl c v = ground (
    arith,
    evict_sorted-IsValid (fl.threshold c.max_size c.soft_evict_percent) (λ e. e.created_at) c v,
  )

  -- A loop over the map that removes the entries that a test picks.
  pub sweep_self-IsValid :
      (pick : Entry → Bool) (c : Cache) → IsValid extra c → IsValid extra (sweep w pick c.entries c)
  sweep_self-IsValid pick c v =
      sweep-IsValid pick c.entries c v.distinct (Present-self c.entries v.distinct) v
