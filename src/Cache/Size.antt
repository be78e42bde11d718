-- ===== src/Cache/Size.antt =====
-- cache/cache.go: `ParseSize`. What it does with a float64 is an argument: `parse_float` is strconv's,
-- and `scaled` is the product with a multiplier, cut to an int64.
use proxykit.Prelude.{
  ℕ, ◌-◌, ◌^◌, ◌&&◌, Bool, Option, none, some, List, [], ◌∷◌, map, if◌then◌else◌, leb,
}
use proxykit.Prelude.Int.{ℤ, pos, negsuc}
use proxykit.Prelude.Parse.{parse_int}
use proxykit.Prelude.Text.{Bytes, codes, bytes_eq, has_suffix, trim_suffix, trim_space}

-- `strings.ToUpper` on ASCII.
unfoldable to_upper : Bytes → Bytes
to_upper s = map (λ c. if leb b'a' c && leb c b'z' then c - 32 else c) s

pub data SizeError : Type 0 where
  empty_size invalid_size negative_size : SizeError

pub data SizeResult : Type 0 where
  size : ℤ → SizeResult
  refused : SizeError → SizeResult

pub record Floats (F : Type 0) : Type 0 where
  parse_float : Bytes → Option F
  pub is_negative : F → Bool
  scaled : F → ℕ → ℤ

-- The suffixes with their multipliers, in the order of the tests.
abbrev multipliers : List (Bytes × ℕ)
multipliers =
    (codes "TB", 2 ^ 40) ∷ (codes "GB", 2 ^ 30) ∷ (codes "MB", 2 ^ 20) ∷ (codes "KB", 2 ^ 10) ∷ []

-- A size without a suffix.
unfoldable raw_bytes : Option ℤ → SizeResult
raw_bytes none = refused invalid_size
raw_bytes (some (pos n)) = size (pos n)
raw_bytes (some (negsuc n)) = refused negative_size

module _ {F : Type 0} (floats : Floats F) where
  -- A size in front of a suffix.
  unfoldable with_multiplier : ℕ → Option F → SizeResult
  with_multiplier mult none = refused invalid_size
  with_multiplier mult (some n) =
      if floats.is_negative n then refused negative_size else size (floats.scaled n mult)

  -- The loop over the suffixes.
  unfoldable by_suffix : List (Bytes × ℕ) → Bytes → SizeResult
  unfolding with_multiplier raw_bytes
  by_suffix [] s = raw_bytes (parse_int 10 64 s)
  by_suffix ((suffix, mult) ∷ rest) s =
      let later = by_suffix rest s in
      if has_suffix s suffix
      then with_multiplier mult (floats.parse_float (trim_space (trim_suffix s suffix)))
      else later

  -- `ParseSize`.
  unfoldable parse_size : Bytes → SizeResult
  unfolding by_suffix to_upper
  parse_size text =
      let s = trim_space text in
      if bytes_eq s [] then refused empty_size else by_suffix multipliers (to_upper s)
