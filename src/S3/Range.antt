-- ===== src/S3/Range.antt =====
-- s3/entry.go: `parseRange`. The size of a body is an int64; the bounds that are answered are at or
-- above 0.
use proxykit.Prelude.{
  ℕ, ◌-◌, ◌≤◌, ◌<◌, ◌≡◌, ◌||◌, not, Option, none, some, List, [], ◌∷◌, arith, if◌then◌else◌, ltb,
  leb, ◌==◌, Bool-cases, inl, inr,
}
use proxykit.Prelude.Int.{ℤ, pos, negsuc}
use proxykit.Prelude.Parse.{parse_int}
use proxykit.Prelude.Text.{Bytes, codes, has_prefix, contains, drop_prefix, split_byte}

-- The end of a range whose start is known.
unfoldable pub range_end : ℕ → Bytes → ℕ → Option (ℕ × ℕ)
range_end start [] total = some (start, total - 1)
range_end start (c ∷ last) total = elim (parse_int 10 64 (c ∷ last)) [
  | none ↦ none
  | some (negsuc _) ↦ none
  | some (pos end) ↦
      if ltb end start
      then none
      else if leb total end
      then some (start, total - 1)
      else some (start, end)
]

-- A range without a start counts from the end of the body.
unfoldable pub range_suffix : Bytes → ℕ → Option (ℕ × ℕ)
range_suffix last total = elim (parse_int 10 64 last) [
  | none ↦ none
  | some (negsuc _) ↦ none
  | some (pos suffix) ↦
      if suffix == 0
      then none
      else some (total - (if ltb total suffix then total else suffix), total - 1)
]

-- A range whose start is a number that was parsed.
unfoldable pub range_start : Option ℤ → Bytes → ℕ → Option (ℕ × ℕ)
range_start none last total = none
range_start (some (negsuc _)) last total = none
range_start (some (pos n)) last total = if leb total n then none else range_end n last total

unfoldable pub range_parts : List Bytes → ℕ → Option (ℕ × ℕ)
range_parts ([] ∷ last ∷ []) total = range_suffix last total
range_parts ((c ∷ start) ∷ last ∷ []) total = range_start (parse_int 10 64 (c ∷ start)) last total
range_parts [] total = none
range_parts (part ∷ []) total = none
range_parts (part ∷ part' ∷ part'' ∷ parts) total = none

-- `parseRange`.
unfoldable pub parse_range : Bytes → ℤ → Option (ℕ × ℕ)
parse_range value (negsuc _) = none
parse_range value (pos total) =
    if (total == 0) || (not (has_prefix value (codes "bytes=")) || contains value (codes ","))
    then none
    else range_parts (split_byte b'-' (drop_prefix value (codes "bytes="))) total

range_end_bounds :
    (start : ℕ) (last : Bytes) (total : ℕ) {a b : ℕ}
    → start < total
    → range_end start last total ≡ some (a, b)
    → (a ≡ start) × (a ≤ b) × (b < total)
unfolding range_end
range_end_bounds start [] total small h = ground arith
range_end_bounds start (c ∷ last) total small h = ground arith

range_start_bounds :
    (n : Option ℤ) (last : Bytes) (total : ℕ) {a b : ℕ}
    → range_start n last total ≡ some (a, b)
    → (a ≤ b) × (b < total)
unfolding range_start
range_start_bounds none last total h = absurd (ground arith)
range_start_bounds (some (negsuc _)) last total h = absurd (ground arith)
range_start_bounds (some (pos n)) last total {a} {b} h = elim (Bool-cases (leb total n)) [
  | inl beyond ↦ absurd (ground arith)
  | inr inside ↦
      let (_, order, within) =
        range_end_bounds n last total {a = a} {b = b} (ground arith) (rw inside at h) in
      (order, within)
]

range_parts_bounds :
    (parts : List Bytes) (total : ℕ) {a b : ℕ}
    → 0 < total
    → range_parts parts total ≡ some (a, b)
    → (a ≤ b) × (b < total)
unfolding range_parts range_suffix
range_parts_bounds [] total some_bytes h = absurd (ground arith)
range_parts_bounds (part ∷ []) total some_bytes h = absurd (ground arith)
range_parts_bounds ([] ∷ last ∷ []) total some_bytes h = ground arith
range_parts_bounds ((c ∷ start) ∷ last ∷ []) total some_bytes h =
    range_start_bounds (parse_int 10 64 (c ∷ start)) last total h
range_parts_bounds (part ∷ part' ∷ part'' ∷ parts) total some_bytes h = absurd (ground arith)

-- A range that is answered lies within the body and is not empty, whatever the header says.
pub parse_range_bounds :
    (value : Bytes) (total a b : ℕ)
    → parse_range value (pos total) ≡ some (a, b)
    → (a ≤ b) × (b < total)
unfolding parse_range
parse_range_bounds value total a b h =
    elim (Bool-cases
      ((total == 0) || (not (has_prefix value (codes "bytes=")) || contains value (codes ",")))) [
        | inl refused ↦ absurd (ground arith)
        | inr read ↦
            range_parts_bounds (split_byte b'-' (drop_prefix value (codes "bytes="))) total
              (ground arith) (rw read at h)
      ]
