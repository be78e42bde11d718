-- ===== src/Cache/Snapshot.antt =====
-- A snapshot of the map of entries, taken before a loop removes some of them: which of its entries
-- are still in the map while the loop runs, and that sorting a snapshot keeps what it holds.
use proxykit.Prelude.{
  ℕ, ◌≤◌, ◌≡◌, refl, none, some, List, [], ◌∷◌, arith, if◌then◌else◌, All, Bool-cases, inl, inr,
  leb, leb→le, leb-eq-false→lt,
}
use proxykit.Prelude.Text.{Bytes, bytes_eq, bytes_eq_iff, bytes_eq_refl}
use proxykit.Cache.Entry.{Entry, find, delete, Distinct}
use proxykit.Cache.Evict.{insert_by, sort_by}
use proxykit.Cache.Map.{find-delete}

-- Every entry of the snapshot is the one that the map holds under its key.
abbrev pub Present : List Entry → List Entry → Type 0
Present snapshot entries = All (λ e. find e.key entries ≡ some e) snapshot

-- Entries under other keys stay present when one is deleted.
pub Present-delete :
    (k : Bytes) (snapshot entries : List Entry)
    → find k snapshot ≡ none
    → Present snapshot entries
    → Present snapshot (delete k entries)
unfolding find
Present-delete k [] entries h p = tt
Present-delete k (d ∷ ds) entries h (found, ps) = (
  ground (arith, find-delete k d.key entries, bytes_eq_iff k d.key, bytes_eq_iff d.key k),
  Present-delete k ds entries (ground arith) ps,
)

Present-cons :
    (e : Entry) (snapshot entries : List Entry)
    → find e.key snapshot ≡ none
    → Present snapshot entries
    → Present snapshot (e ∷ entries)
unfolding find
Present-cons e [] entries h p = tt
Present-cons e (d ∷ ds) entries h (found, ps) = (
  ground (arith, bytes_eq_iff e.key d.key, bytes_eq_iff d.key e.key),
  Present-cons e ds entries (ground arith) ps,
)

-- A map without repeated keys is a snapshot of itself.
pub Present-self : (es : List Entry) → Distinct es → Present es es
unfolding find
Present-self [] d = tt
Present-self (e ∷ es) (new, d) =
    (rw (bytes_eq_refl e.key), Present-cons e es es new (Present-self es d))

module _ (time : Entry → ℕ) where
  find-insert_by :
      (k : Bytes) (e : Entry) (ds : List Entry)
      → find e.key ds ≡ none
      → find k (insert_by time e ds) ≡ (if bytes_eq e.key k then some e else find k ds)
  unfolding find insert_by
  find-insert_by k e [] h = refl
  find-insert_by k e (d ∷ ds) h = ground (
    arith,
    find-insert_by k e ds,
    bytes_eq_iff d.key k,
    bytes_eq_iff e.key k,
    bytes_eq_iff d.key e.key,
  )

  pub find-sort_by :
      (k : Bytes) (es : List Entry) → Distinct es → find k (sort_by time es) ≡ find k es
  unfolding find sort_by
  find-sort_by k [] d = refl
  find-sort_by k (e ∷ es) (new, d) =
      ground
        (arith, find-insert_by k e (sort_by time es), find-sort_by e.key es d, find-sort_by k es d)

  insert_by-Distinct :
      (e : Entry) (ds : List Entry)
      → find e.key ds ≡ none
      → Distinct ds
      → Distinct (insert_by time e ds)
  unfolding find insert_by
  insert_by-Distinct e [] h p = (refl, tt)
  insert_by-Distinct e (d ∷ ds) h (new, p) = elim (Bool-cases (leb (time e) (time d))) [
    | inl first ↦ rw first (h, (new, p))
    | inr later ↦ rw later (
      ground (arith, find-insert_by d.key e ds, bytes_eq_iff d.key e.key, bytes_eq_iff e.key d.key),
      insert_by-Distinct e ds (ground arith) p,
    )
  ]

  pub sort_by-Distinct : (es : List Entry) → Distinct es → Distinct (sort_by time es)
  unfolding sort_by
  sort_by-Distinct [] d = tt
  sort_by-Distinct (e ∷ es) (new, d) =
      insert_by-Distinct e (sort_by time es) (ground (arith, find-sort_by e.key es d))
        (sort_by-Distinct es d)

  insert_by-All {ℓ} :
      (P : Entry → Type ℓ) (e : Entry) (ds : List Entry)
      → P e
      → All P ds
      → All P (insert_by time e ds)
  unfolding insert_by
  insert_by-All P e [] pe p = (pe, tt)
  insert_by-All P e (d ∷ ds) pe (pd, p) = elim (Bool-cases (leb (time e) (time d))) [
    | inl first ↦ rw first (pe, (pd, p))
    | inr later ↦ rw later (pd, insert_by-All P e ds pe p)
  ]

  pub sort_by-All {ℓ} : (P : Entry → Type ℓ) (es : List Entry) → All P es → All P (sort_by time es)
  unfolding sort_by
  sort_by-All P [] p = tt
  sort_by-All P (e ∷ es) (pe, p) = insert_by-All P e (sort_by time es) pe (sort_by-All P es p)

  -- Ascending: each entry is no later than all that follow it.
  abbrev pub IsSorted : List Entry → Type 0
  IsSorted [] = Unit
  IsSorted (e ∷ es) = All (λ d. time e ≤ time d) es × IsSorted es

  later-All :
      (a b : ℕ) (ds : List Entry) → a ≤ b → All (λ d. b ≤ time d) ds → All (λ d. a ≤ time d) ds
  later-All a b [] h p = tt
  later-All a b (d ∷ ds) h (q, p) = (omega arith, later-All a b ds h p)

  insert_by-IsSorted : (e : Entry) (ds : List Entry) → IsSorted ds → IsSorted (insert_by time e ds)
  unfolding insert_by
  insert_by-IsSorted e [] s = (tt, tt)
  insert_by-IsSorted e (d ∷ ds) (low, s) = elim (Bool-cases (leb (time e) (time d))) [
    | inl first ↦
        rw first
          ((leb→le _ _ first, later-All (time e) (time d) ds (leb→le _ _ first) low), (low, s))
    | inr later ↦ rw later (
      insert_by-All (λ x. time d ≤ time x) e ds (omega (arith, leb-eq-false→lt _ _ later)) low,
      insert_by-IsSorted e ds s,
    )
  ]

  pub sort_by-IsSorted : (es : List Entry) → IsSorted (sort_by time es)
  unfolding sort_by
  sort_by-IsSorted [] = tt
  sort_by-IsSorted (e ∷ es) = insert_by-IsSorted e (sort_by time es) (sort_by-IsSorted es)
