-- ===== src/Cache/Map.antt =====
-- Laws of the map of entries: lookups after a deletion or an insertion, and the sum of the sizes.
use proxykit.Prelude.{
  ◌+◌, ◌≡◌, refl, ap, ◌∙◌, none, some, List, [], ◌∷◌, arith, if◌then◌else◌, Bool-cases, inl, inr,
}
use proxykit.Prelude.Text.{Bytes, bytes_eq, bytes_eq_iff, bytes_eq_refl}
use proxykit.Cache.Entry.{Entry, find, delete, insert, sizes, Distinct}
use proxykit.Cache.State.{old_size}

pub find-delete :
    (k j : Bytes) (es : List Entry)
    → find j (delete k es) ≡ (if bytes_eq k j then none else find j es)
unfolding find delete
find-delete k j [] = ground arith
find-delete k j (e ∷ es) =
    ground (arith, bytes_eq_iff k j, bytes_eq_iff e.key k, bytes_eq_iff e.key j, find-delete k j es)

pub find-insert :
    (e : Entry) (j : Bytes) (es : List Entry)
    → find j (insert e es) ≡ (if bytes_eq e.key j then some e else find j es)
unfolding find insert
find-insert e j es = ground (arith, find-delete e.key j es)

pub delete_absent : (k : Bytes) (es : List Entry) → find k es ≡ none → delete k es ≡ es
unfolding find delete
delete_absent k [] h = refl
delete_absent k (e ∷ es) h = ground (arith, delete_absent k es)

pub delete-Distinct : (k : Bytes) (es : List Entry) → Distinct es → Distinct (delete k es)
unfolding delete
delete-Distinct k [] d = tt
delete-Distinct k (e ∷ es) d = elim (Bool-cases (bytes_eq e.key k)) [
  | inl same ↦ rw same (delete-Distinct k es d.1)
  | inr other ↦ rw other (ground (arith, find-delete k e.key es, d.0), delete-Distinct k es d.1)
]

pub insert-Distinct : (e : Entry) (es : List Entry) → Distinct es → Distinct (insert e es)
unfolding insert
insert-Distinct e es d =
    (ground (arith, find-delete e.key e.key es, bytes_eq_refl e.key), delete-Distinct e.key es d)

-- An entry that is found stands under its own key.
pub key-find : (k : Bytes) (es : List Entry) {e : Entry} → find k es ≡ some e → e.key ≡ k
unfolding find
key-find k [] h = ground arith
key-find k (d ∷ es) {e} h = ground (arith, bytes_eq_iff d.key k, key-find k es {e = e})

-- So it is found again under its own key.
pub find_own :
    (k : Bytes) (es : List Entry) {e : Entry} → find k es ≡ some e → find e.key es ≡ some e
find_own k es f = ap (λ x. find x es) (key-find k es f) ∙ f

-- Deleting gives back exactly the size of the entry that was there.
pub sizes-delete :
    (k : Bytes) (es : List Entry) → Distinct es → sizes (delete k es) + old_size k es ≡ sizes es
unfolding find delete sizes old_size
sizes-delete k [] d = omega arith
sizes-delete k (e ∷ es) d =
    ground (arith, bytes_eq_iff e.key k, delete_absent e.key es d.0, sizes-delete k es d.1)

pub sizes-delete_found :
    (k : Bytes) (es : List Entry) {e : Entry}
    → Distinct es
    → find k es ≡ some e
    → sizes (delete k es) + e.size ≡ sizes es
unfolding old_size
sizes-delete_found k es d f = ground (arith, sizes-delete k es d)
