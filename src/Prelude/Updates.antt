-- ===== src/Prelude/Updates.antt =====
-- A function from numbers, changed at one of them: what each caller of a system of steps has.
use Prim.Native.Nat.{ℕ}
use mathlib.Core.Path.{◌≡◌}
use mathlib.Core.Logic.{inl, inr}
use mathlib.Core.Bool.{Bool, true, false}
use native.Mathlib.Omega.{arith}
use proxykit.Prelude.Tests.{◌==◌, if◌then◌else◌, Bool-cases}

module _ {ℓ} {A : Type ℓ} where
  -- One value of a function, replaced.
  abbrev pub set : ℕ → A → (ℕ → A) → ℕ → A
  set i x f j = if j == i then x else f j

pub set_same : {A : Type 0} (i : ℕ) (x : A) (f : ℕ → A) → set i x f i ≡ x
set_same i x f = ground arith

-- Another's value is kept where a test tells the two apart.
pub set_other :
    {A : Type 0} (test : A → Bool) (i j : ℕ) (x : A) (f : ℕ → A)
    → test (f i) ≡ true
    → test (f j) ≡ false
    → set i x f j ≡ f j
set_other test i j x f passes fails = elim (Bool-cases (j == i)) [
  | inl same ↦ absurd (ground (arith, passes, fails, same))
  | inr apart ↦ ground (arith, apart)
]
