-- ===== src/Git/CountWriter.antt =====
-- git/handler.go: `countWriter`, which writes a pack to its file until the limit is passed.
use proxykit.Prelude.{
  ℕ, ◌+◌, ◌≡◌, refl, sym, ap, ◌∙◌, Bool, true, false, not, ◌&&◌, List, [], ◌∷◌, ◌++◌, arith,
  if◌then◌else◌, ltb, ◌==◌, length, length-append, Bool-cases, inl, inr,
}
use mathlib.Core.List.{append_assoc, append-nil}
use proxykit.Prelude.Text.{Bytes}
use proxykit.Git.Handler.{exceeds}

pub record CountWriter : Type 0 where
  pub file : Bytes
  pub written : ℕ
  pub limit : ℕ
  pub exceeded : Bool

-- `Write` to a file that takes every chunk.
unfoldable count_write : Bytes → CountWriter → CountWriter
count_write p w =
    if w.exceeded
    then w
    else if not (w.limit == 0) && ltb w.limit (w.written + length p)
    then record w { written = w.written + length p; exceeded = true }
    else record w { written = w.written + length p; file = w.file ++ p }

-- The chunks of a copy.
count_all : List Bytes → CountWriter → CountWriter
unfolding count_write
count_all [] w = w
count_all (p ∷ ps) w = count_all ps (count_write p w)

unfoldable concat : List Bytes → Bytes
concat [] = []
concat (p ∷ ps) = p ++ concat ps

count_all_stopped : (ps : List Bytes) (w : CountWriter) → w.exceeded ≡ true → count_all ps w ≡ w
unfolding count_all
count_all_stopped [] w h = refl
count_all_stopped (p ∷ ps) w h =
    ap (count_all ps) (unfold count_write in ground (arith, h)) ∙ count_all_stopped ps w h

-- One chunk, where the limit is not passed and where it is.
write_fits :
    (p : Bytes) (w : CountWriter)
    → w.exceeded ≡ false
    → exceeds w.limit (w.written + length p) ≡ false
    → count_write p w ≡ record w { written = w.written + length p; file = w.file ++ p }
unfolding count_write exceeds
write_fits p w going under = ground (arith, going, under)

write_passes :
    (p : Bytes) (w : CountWriter)
    → w.exceeded ≡ false
    → exceeds w.limit (w.written + length p) ≡ true
    → (count_write p w).exceeded ≡ true
unfolding count_write exceeds
write_passes p w going over = ground (arith, going, over)

exceeds_more : (limit n m : ℕ) → exceeds limit n ≡ true → exceeds limit (n + m) ≡ true
unfolding exceeds
exceeds_more limit n m h = ground arith

-- From a writer that has not passed its limit, a copy passes it exactly if the whole body is too long.
count_all-exceeds :
    (ps : List Bytes) (w : CountWriter)
    → w.exceeded ≡ false
    → exceeds w.limit w.written ≡ false
    → (count_all ps w).exceeded ≡ exceeds w.limit (w.written + length (concat ps))
unfolding count_all concat
count_all-exceeds [] w going within = going ∙ sym within ∙ ap (exceeds w.limit) (omega arith)
count_all-exceeds (p ∷ ps) w going within =
    let total : w.written + length p + length (concat ps) ≡ w.written + length (p ++ concat ps) =
      omega (arith, length-append p (concat ps)) in
    elim (Bool-cases (exceeds w.limit (w.written + length p))) [
      | inl over ↦
          ap (λ x. x.exceeded)
            (count_all_stopped ps (count_write p w) (write_passes p w going over))
          ∙ write_passes p w going over
          ∙ sym (exceeds_more w.limit (w.written + length p) (length (concat ps)) over)
          ∙ ap (exceeds w.limit) total
      | inr under ↦
          ap (λ x. (count_all ps x).exceeded) (write_fits p w going under)
          ∙ count_all-exceeds ps (record w { written = w.written + length p; file = w.file ++ p })
              going under
          ∙ ap (exceeds w.limit) total
    ]

-- From a writer that has not passed its limit, a copy of a body that is not too long leaves the whole
-- body in the file, behind what it held.
count_all_whole :
    (ps : List Bytes) (w : CountWriter)
    → w.exceeded ≡ false
    → exceeds w.limit (w.written + length (concat ps)) ≡ false
    → (count_all ps w).file ≡ w.file ++ concat ps
unfolding count_all concat
count_all_whole [] w going within = sym (append-nil w.file)
count_all_whole (p ∷ ps) w going within =
    let total : w.written + length p + length (concat ps) ≡ w.written + length (p ++ concat ps) =
      omega (arith, length-append p (concat ps)) in
    elim (Bool-cases (exceeds w.limit (w.written + length p))) [
      | inl over ↦ absurd (
          ground (
            arith,
            exceeds_more w.limit (w.written + length p) (length (concat ps)) over,
            ap (exceeds w.limit) total,
          ))
      | inr under ↦
          ap (λ x. (count_all ps x).file) (write_fits p w going under)
          ∙ count_all_whole ps (record w { written = w.written + length p; file = w.file ++ p })
              going (ap (exceeds w.limit) total ∙ within)
          ∙ append_assoc w.file p (concat ps)
    ]
