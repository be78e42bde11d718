-- ===== src/Prelude/Text.antt =====
-- Text as the list of its bytes, with the functions of Go's package strings that the source uses.
-- The case functions and the trimming of space act on ASCII.
use Prim.Native.Nat.{ℕ, ◌+◌}
use Prim.Native.Char.{code}
use Prim.Native.String.{String}
use mathlib.Core.Path.{◌≡◌, refl, ap}
use mathlib.Core.Logic.{◌↔◌, inl, inr}
use mathlib.Core.Bool.{Bool, true, false, ◌&&◌, ◌||◌}
use mathlib.Core.Option.{Option, none, some}
use mathlib.Core.List.{List, [], ◌∷◌, ◌++◌, map}
use native.Mathlib.Omega.{arith}
use proxykit.Prelude.Tests.{leb, ◌==◌, if◌then◌else◌, Bool-cases}
use proxykit.Prelude.Lists.{length}

abbrev pub Bytes : Type 0
Bytes = List ℕ

abbrev pub codes : String → Bytes
codes String.[] = []
codes (String.◌∷◌ c s) = code c ∷ codes s

-- `a == b` on strings.
unfoldable pub bytes_eq : Bytes → Bytes → Bool
bytes_eq [] [] = true
bytes_eq [] (b ∷ t) = false
bytes_eq (a ∷ s) [] = false
bytes_eq (a ∷ s) (b ∷ t) = if a == b then bytes_eq s t else false

-- `strings.HasPrefix`.
unfoldable pub has_prefix : Bytes → Bytes → Bool
has_prefix s [] = true
has_prefix [] (b ∷ t) = false
has_prefix (a ∷ s) (b ∷ t) = if a == b then has_prefix s t else false

pub bytes_eq_refl : (s : Bytes) → bytes_eq s s ≡ true
unfolding bytes_eq
bytes_eq_refl [] = refl
bytes_eq_refl (a ∷ s) = ground (arith, bytes_eq_refl s)

pub bytes_eq→eq : (s t : Bytes) → bytes_eq s t ≡ true → s ≡ t
unfolding bytes_eq
bytes_eq→eq [] [] h = refl
bytes_eq→eq [] (b ∷ t) h = ground arith
bytes_eq→eq (a ∷ s) [] h = ground arith
bytes_eq→eq (a ∷ s) (b ∷ t) h = ground (arith, bytes_eq→eq s t)

pub eq→bytes_eq : (s t : Bytes) → s ≡ t → bytes_eq s t ≡ true
eq→bytes_eq s t e = rw e (bytes_eq_refl t)

pub bytes_eq_iff : (s t : Bytes) → (bytes_eq s t ≡ true) ↔ (s ≡ t)
bytes_eq_iff s t = (bytes_eq→eq s t, eq→bytes_eq s t)

pub has_prefix-append : (s t : Bytes) → has_prefix (s ++ t) s ≡ true
unfolding has_prefix
has_prefix-append [] [] = refl
has_prefix-append [] (b ∷ t) = refl
has_prefix-append (a ∷ s) t = ground (arith, has_prefix-append s t)

-- `strings.TrimPrefix` once the prefix is known to be there, `s[len(prefix):]`.
unfoldable pub drop_prefix : Bytes → Bytes → Bytes
drop_prefix s [] = s
drop_prefix [] (b ∷ t) = []
drop_prefix (a ∷ s) (b ∷ t) = drop_prefix s t

-- `strings.TrimPrefix`.
unfoldable pub trim_prefix : Bytes → Bytes → Bytes
unfolding has_prefix drop_prefix
trim_prefix s t = if has_prefix s t then drop_prefix s t else s

-- `strings.CutPrefix`: the rest, where the prefix is there.
unfoldable pub cut_prefix : Bytes → Bytes → Option Bytes
unfolding has_prefix drop_prefix
cut_prefix s t = if has_prefix s t then some (drop_prefix s t) else none

pub append-drop_prefix : (s t : Bytes) → has_prefix s t ≡ true → t ++ drop_prefix s t ≡ s
unfolding has_prefix drop_prefix
append-drop_prefix s [] h = refl
append-drop_prefix [] (b ∷ t) h = ground arith
append-drop_prefix (a ∷ s) (b ∷ t) h = ground (arith, append-drop_prefix s t)

pub drop_prefix-append : (s t : Bytes) → drop_prefix (s ++ t) s ≡ t
unfolding drop_prefix
drop_prefix-append [] [] = refl
drop_prefix-append [] (b ∷ t) = refl
drop_prefix-append (a ∷ s) t = drop_prefix-append s t

-- `strings.HasSuffix`.
unfoldable pub has_suffix : Bytes → Bytes → Bool
unfolding bytes_eq
has_suffix [] t = bytes_eq [] t
has_suffix (a ∷ s) t = bytes_eq (a ∷ s) t || has_suffix s t

pub has_suffix-append : (s t : Bytes) → has_suffix (s ++ t) t ≡ true
unfolding has_suffix bytes_eq
has_suffix-append [] [] = refl
has_suffix-append [] (b ∷ t) = ground (arith, bytes_eq_refl (b ∷ t))
has_suffix-append (a ∷ s) t = ground (arith, has_suffix-append s t)

-- A suffix is there exactly when the text ends in it.
pub has_suffix→append : (s t : Bytes) → has_suffix s t ≡ true → (p : Bytes) × (s ≡ p ++ t)
unfolding has_suffix
has_suffix→append [] t h = ([], bytes_eq→eq [] t h)
has_suffix→append (a ∷ s) t h = elim (Bool-cases (bytes_eq (a ∷ s) t)) [
  | inl e ↦ ([], bytes_eq→eq (a ∷ s) t e)
  | inr e ↦ let (p, q) = has_suffix→append s t (ground arith) in (a ∷ p, ap (◌∷◌ a) q)
]

-- The text before a suffix of length `length t`.
unfoldable pub take_until : ℕ → Bytes → Bytes
take_until n [] = []
take_until n (a ∷ s) = if leb (length (a ∷ s)) n then [] else a ∷ take_until n s

-- `strings.TrimSuffix`.
unfoldable pub trim_suffix : Bytes → Bytes → Bytes
unfolding has_suffix take_until
trim_suffix s t = if has_suffix s t then take_until (length t) s else s

-- `strings.Contains`.
unfoldable pub contains : Bytes → Bytes → Bool
unfolding has_prefix
contains [] t = has_prefix [] t
contains (a ∷ s) t = has_prefix (a ∷ s) t || contains s t

-- `strings.Cut` at the first `sep`: before, after and whether it was found.
unfoldable pub cut : Bytes → Bytes → Bytes × Bytes × Bool
unfolding has_prefix drop_prefix
cut [] sep = if has_prefix [] sep then ([], [], true) else ([], [], false)
cut (a ∷ s) sep =
    let (before, after, found) = cut s sep in
    if has_prefix (a ∷ s) sep
    then ([], drop_prefix (a ∷ s) sep, true)
    else (a ∷ before, after, found)

-- ASCII: space, and tab to carriage return.
unfoldable pub is_space : ℕ → Bool
is_space c = (c == 32) || (leb 9 c && leb c 13)

unfoldable pub trim_left_space : Bytes → Bytes
unfolding is_space
trim_left_space [] = []
trim_left_space (c ∷ s) = let rest = trim_left_space s in if is_space c then rest else c ∷ s

-- One byte in front of a text that is trimmed already.
unfoldable pub keep_right : ℕ → Bytes → Bytes
unfolding is_space
keep_right c [] = if is_space c then [] else c ∷ []
keep_right c (d ∷ r) = c ∷ d ∷ r

unfoldable pub trim_right_space : Bytes → Bytes
unfolding keep_right
trim_right_space [] = []
trim_right_space (c ∷ s) = keep_right c (trim_right_space s)

-- `strings.TrimSpace`.
unfoldable pub trim_space : Bytes → Bytes
unfolding trim_left_space trim_right_space
trim_space s = trim_left_space (trim_right_space s)

unfoldable pub lower : ℕ → ℕ
lower c = if leb b'A' c && leb c b'Z' then c + 32 else c

-- `strings.ToLower`.
unfoldable pub to_lower : Bytes → Bytes
unfolding lower
to_lower s = map lower s

-- `strings.EqualFold`.
unfoldable pub equal_fold : Bytes → Bytes → Bool
unfolding to_lower bytes_eq
equal_fold s t = bytes_eq (to_lower s) (to_lower t)

pub lower_idem : (c : ℕ) → lower (lower c) ≡ lower c
unfolding lower
lower_idem c = ground arith

pub to_lower_idem : (s : Bytes) → to_lower (to_lower s) ≡ to_lower s
unfolding to_lower
to_lower_idem [] = refl
to_lower_idem (c ∷ s) = cc (lower_idem c, to_lower_idem s)

-- Whether a byte stands in a text.
unfoldable pub has_byte : ℕ → Bytes → Bool
has_byte c [] = false
has_byte c (a ∷ s) = (a == c) || has_byte c s

-- The parts of a text between separators, from one that has begun.
unfoldable pub split_from : ℕ → Bytes → Bytes → List Bytes
split_from sep part [] = part ∷ []
split_from sep part (c ∷ s) =
    let rest = split_from sep (if c == sep then [] else part ++ c ∷ []) s in
    if c == sep then part ∷ rest else rest

-- `strings.Split` at one byte.
unfoldable pub split_byte : ℕ → Bytes → List Bytes
unfolding split_from
split_byte sep s = split_from sep [] s

-- `s[:strings.LastIndex(s, t)]`, where `t` occurs.
unfoldable pub before_last : Bytes → Bytes → Option Bytes
before_last [] t = if has_prefix [] t then some [] else none
before_last (c ∷ s) t = elim (before_last s t) [
  | some p ↦ some (c ∷ p)
  | none ↦ if has_prefix (c ∷ s) t then some [] else none
]

-- `strings.Cut` goes past a text that does not hold the first byte of what it looks for.
pub cut_past :
    (c : ℕ) (a x word : Bytes)
    → has_byte c a ≡ false
    → cut (a ++ x) (c ∷ word)
      ≡ (a ++ (cut x (c ∷ word)).0, (cut x (c ∷ word)).1, (cut x (c ∷ word)).2)
unfolding cut has_byte has_prefix
cut_past c [] x word h = refl
cut_past c (d ∷ a) x word h = ground (arith, cut_past c a x word)

-- A byte in front of a text that does not end with space leaves it so.
pub trim_right_space-cons :
    (a c : ℕ) (s : Bytes)
    → trim_right_space (c ∷ s) ≡ c ∷ s
    → trim_right_space (a ∷ c ∷ s) ≡ a ∷ c ∷ s
unfolding trim_right_space
trim_right_space-cons a c s h = ap (keep_right a) h

pub bytes_eq-append : (s x y : Bytes) → bytes_eq (s ++ x) (s ++ y) ≡ bytes_eq x y
unfolding bytes_eq
bytes_eq-append [] x y = refl
bytes_eq-append (c ∷ s) x y = ground (arith, bytes_eq-append s x y)
