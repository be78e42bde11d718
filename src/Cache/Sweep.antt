-- ===== src/Cache/Sweep.antt =====
-- cache/cache.go: what `RemoveMatching`, `RemoveByPrefix` and `evictExpired` remove and keep.
use proxykit.Prelude.{
  ℕ, ◌+◌, ◌≡◌, refl, ap, Bool, Option, none, some, List, [], ◌∷◌, arith, if◌then◌else◌, Bool-cases,
  inl, inr, length,
}
use proxykit.Prelude.Text.{Bytes, bytes_eq_iff, has_prefix}
use proxykit.Cache.Entry.{Entry, find, delete, Distinct, expired}
use proxykit.Cache.State.{Cache, World, remove_locked}
use proxykit.Cache.Evict.{sweep, evict_expired}
use proxykit.Cache.Ops.{count_picked, remove_matching, remove_by_prefix}
use proxykit.Cache.Map.{find-delete, delete-Distinct, delete_absent, key-find}
use proxykit.Cache.Snapshot.{Present, Present-delete, Present-self}

-- What is found of an entry once those that a test picks are gone.
abbrev unless_picked : (Entry → Bool) → Option Entry → Option Entry
unless_picked pick none = none
unless_picked pick (some e) = if pick e then none else some e

length-delete :
    (k : Bytes) (es : List Entry) {e : Entry}
    → Distinct es
    → find k es ≡ some e
    → length (delete k es) + 1 ≡ length es
unfolding find delete
length-delete k [] d f = absurd (ground arith)
length-delete k (x ∷ es) {e} (new, d) f =
    ground (arith, bytes_eq_iff x.key k, delete_absent x.key es new, length-delete k es {e = e} d)

module _ (w : World) (pick : Entry → Bool) where
  find-sweep :
      (k : Bytes) (es : List Entry) (c : Cache)
      → Distinct es
      → Present es c.entries
      → find k (sweep w pick es c).entries ≡ (elim (find k es) [
        | none ↦ find k c.entries
        | some e ↦ if pick e then none else find k c.entries
      ])
  unfolding sweep find remove_locked
  find-sweep k [] c d p = refl
  find-sweep k (e ∷ es) c (new, d) (f, p) = elim (Bool-cases (pick e)) [
    | inl hit ↦ ground (
      arith,
      hit,
      find-sweep k es (remove_locked w e c) d (Present-delete e.key es c.entries new p),
      find-delete e.key k c.entries,
      bytes_eq_iff e.key k,
      new,
    )
    | inr miss ↦ ground (arith, miss, find-sweep k es c d p, bytes_eq_iff e.key k, new)
  ]

  length-sweep :
      (es : List Entry) (c : Cache)
      → Distinct c.entries
      → Distinct es
      → Present es c.entries
      → length (sweep w pick es c).entries + count_picked pick es ≡ length c.entries
  unfolding sweep remove_locked count_picked
  length-sweep [] c u d p = omega arith
  length-sweep (e ∷ es) c u (new, d) (f, p) = elim (Bool-cases (pick e)) [
    | inl hit ↦ ground (
      arith,
      hit,
      length-sweep es (remove_locked w e c) (delete-Distinct e.key c.entries u) d
          (Present-delete e.key es c.entries new p),
      length-delete e.key c.entries {e = e} u f,
    )
    | inr miss ↦ ground (arith, miss, length-sweep es c u d p)
  ]

  find-sweep_self :
      (k : Bytes) (c : Cache)
      → Distinct c.entries
      → find k (sweep w pick c.entries c).entries ≡ unless_picked pick (find k c.entries)
  find-sweep_self k c d = ground (arith, find-sweep k c.entries c d (Present-self c.entries d))

  length-sweep_self :
      (c : Cache)
      → Distinct c.entries
      → length (sweep w pick c.entries c).entries + count_picked pick c.entries ≡ length c.entries
  length-sweep_self c d = length-sweep c.entries c d d (Present-self c.entries d)

module _ (w : World) (c : Cache) (d : Distinct c.entries) where
  -- Where no key stands twice `RemoveMatching` removes exactly the entries whose key matches, and returns their number.
  pub remove_matching_exact :
      (match : Bytes → Bool) (k : Bytes)
      → (find k (remove_matching w match c).0.entries
          ≡ (if match k then none else find k c.entries))
        × (length (remove_matching w match c).0.entries + (remove_matching w match c).1
            ≡ length c.entries)
  unfolding remove_matching
  remove_matching_exact match k =
      (by_key (find k c.entries) refl, length-sweep_self w (λ e. match e.key) c d)
    where
      by_key :
          (o : Option Entry)
          → find k c.entries ≡ o
          → find k (remove_matching w match c).0.entries
            ≡ (if match k then none else find k c.entries)
      by_key none f = ground (arith, find-sweep_self w (λ e. match e.key) k c d)
      by_key (some e) f =
          ground
            (arith, find-sweep_self w (λ e. match e.key) k c d, ap match (key-find k c.entries f))

  -- Where no key stands twice `RemoveByPrefix` removes exactly the entries whose key has the prefix, and returns their
  -- number.
  pub remove_by_prefix_exact :
      (like : Bytes → Bytes → Bool) (prefix k : Bytes)
      → (find k (remove_by_prefix like w prefix c).0.entries
          ≡ (if has_prefix k prefix then none else find k c.entries))
        × (length (remove_by_prefix like w prefix c).0.entries
              + (remove_by_prefix like w prefix c).1
            ≡ length c.entries)
  unfolding remove_by_prefix remove_matching
  remove_by_prefix_exact like prefix k = remove_matching_exact (λ j. has_prefix j prefix) k

  -- Where no key stands twice `evictExpired` removes exactly the entries whose deadline has passed.
  evict_expired_exact :
      (now : ℕ) (k : Bytes)
      → find k (evict_expired w now c).entries
        ≡ unless_picked (λ e. expired e now) (find k c.entries)
  unfolding evict_expired
  evict_expired_exact now k = find-sweep_self w (λ e. expired e now) k c d
