-- ===== src/Http/Lookup.antt =====
-- net/http: what `Get` finds in a header that `Del` or `Set` has changed.
use proxykit.Prelude.{
  ◌≡◌, refl, true, false, List, [], ◌∷◌, ◌++◌, arith, if◌then◌else◌, Bool-cases, inl, inr,
}
use proxykit.Prelude.Text.{Bytes, bytes_eq_iff, equal_fold, to_lower}
use proxykit.Http.{Header, header_get, header_set, header_del}

header_get-del_same :
    (n name : Bytes) (h : Header) → equal_fold n name ≡ true → header_get name (header_del n h) ≡ []
unfolding header_get header_del equal_fold
header_get-del_same n name [] same = refl
header_get-del_same n name ((k, []) ∷ h) same = ground (
  arith,
  same,
  bytes_eq_iff (to_lower k) (to_lower n),
  bytes_eq_iff (to_lower k) (to_lower name),
  bytes_eq_iff (to_lower n) (to_lower name),
  header_get-del_same n name h same,
)
header_get-del_same n name ((k, v ∷ vs) ∷ h) same = ground (
  arith,
  same,
  bytes_eq_iff (to_lower k) (to_lower n),
  bytes_eq_iff (to_lower k) (to_lower name),
  bytes_eq_iff (to_lower n) (to_lower name),
  header_get-del_same n name h same,
)

header_get-del :
    (n name : Bytes) (h : Header)
    → equal_fold n name ≡ false
    → header_get name (header_del n h) ≡ header_get name h
unfolding header_get header_del equal_fold
header_get-del n name [] apart = refl
header_get-del n name ((k, []) ∷ h) apart = ground (
  arith,
  apart,
  bytes_eq_iff (to_lower k) (to_lower n),
  bytes_eq_iff (to_lower k) (to_lower name),
  bytes_eq_iff (to_lower n) (to_lower name),
  header_get-del n name h apart,
)
header_get-del n name ((k, v ∷ vs) ∷ h) apart = ground (
  arith,
  apart,
  bytes_eq_iff (to_lower k) (to_lower n),
  bytes_eq_iff (to_lower k) (to_lower name),
  bytes_eq_iff (to_lower n) (to_lower name),
  header_get-del n name h apart,
)

pub header_get-set :
    (n name v : Bytes) (h : Header)
    → header_get name (header_set n v h) ≡ (if equal_fold n name then v else header_get name h)
unfolding header_set header_get
header_get-set n name v h = elim (Bool-cases (equal_fold n name)) [
  | inl same ↦ ground (arith, same)
  | inr apart ↦ ground (arith, apart, header_get-del n name h apart)
]

-- `Get` behind `Del`.
pub header_get-header_del :
    (n name : Bytes) (h : Header)
    → header_get name (header_del n h) ≡ (if equal_fold n name then [] else header_get name h)
header_get-header_del n name h = elim (Bool-cases (equal_fold n name)) [
  | inl same ↦ ground (arith, same, header_get-del_same n name h same)
  | inr apart ↦ ground (arith, apart, header_get-del n name h apart)
]

-- `Get` does not tell two names apart that are equal in lower case.
pub header_get-fold :
    (n name : Bytes) (h : Header) → equal_fold n name ≡ true → header_get n h ≡ header_get name h
unfolding header_get equal_fold
header_get-fold n name [] same = refl
header_get-fold n name ((k, []) ∷ h) same = ground (
  arith,
  same,
  bytes_eq_iff (to_lower k) (to_lower n),
  bytes_eq_iff (to_lower k) (to_lower name),
  bytes_eq_iff (to_lower n) (to_lower name),
  header_get-fold n name h same,
)
header_get-fold n name ((k, v ∷ vs) ∷ h) same = ground (
  arith,
  same,
  bytes_eq_iff (to_lower k) (to_lower n),
  bytes_eq_iff (to_lower k) (to_lower name),
  bytes_eq_iff (to_lower n) (to_lower name),
  header_get-fold n name h same,
)

-- All the values that a header has for a name.
unfoldable pub header_values : Bytes → Header → List Bytes
header_values name [] = []
header_values name ((k, vs) ∷ h) =
    let rest = header_values name h in if equal_fold k name then vs ++ rest else rest

-- The values behind `Del`.
pub header_values-del :
    (n name : Bytes) (h : Header)
    → header_values name (header_del n h) ≡ (if equal_fold n name then [] else header_values name h)
unfolding header_values header_del equal_fold
header_values-del n name [] = ground arith
header_values-del n name ((k, vs) ∷ h) = ground (
  arith,
  bytes_eq_iff (to_lower k) (to_lower n),
  bytes_eq_iff (to_lower k) (to_lower name),
  bytes_eq_iff (to_lower n) (to_lower name),
  header_values-del n name h,
)

-- The values behind `Set`.
pub header_values-set :
    (n name v : Bytes) (h : Header)
    → header_values name (header_set n v h)
      ≡ (if equal_fold n name then v ∷ [] else header_values name h)
unfolding header_set header_values
header_values-set n name v h = ground (arith, header_values-del n name h)
