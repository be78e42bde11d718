-- ===== src/S3/Writer.antt =====
-- s3/server.go: `limitedCacheWriter`, which keeps a copy of a body on its way to the client.
use mathlib.Core.List.{append_assoc, append-nil}
use proxykit.Prelude.{
  ℕ, zero, suc, sym, ap, ◌∙◌, ◌+◌, ◌≤◌, ◌≡◌, refl, Bool, true, false, ◌&&◌, ◌||◌, not, List, [],
  ◌∷◌, ◌++◌, arith, if◌then◌else◌, ltb, ◌==◌, length, take, length-append, Bool-cases, inl, inr,
}
use proxykit.Prelude.Text.{Bytes}

-- `file` is what the temporary file holds; a limit of 0 is none.
pub record LimitedWriter : Type 0 where
  pub file : Bytes
  pub limit : ℕ
  pub written : ℕ
  pub exceeded : Bool
  pub failed : Bool

-- What the file does with a chunk: how many bytes it takes, and whether it reports an error.
pub record Taken : Type 0 where
  pub count : ℕ
  pub fault : Bool

-- `Write`; its own answer is always the length of the chunk.
unfoldable write : Taken → Bytes → LimitedWriter → LimitedWriter
write t p w =
    if not (w.limit == 0) && ltb w.limit (w.written + length p)
    then record w { exceeded = true }
    else if w.exceeded
    then w
    else record w {
      file = w.file ++ take t.count p;
      written = w.written + length (take t.count p);
      failed = w.failed || (t.fault || not (length (take t.count p) == length p));
    }

-- The chunks of one `io.Copy`.
unfoldable pub write_all : List (Taken × Bytes) → LimitedWriter → LimitedWriter
unfolding write
write_all [] w = w
write_all ((t, p) ∷ ps) w = write_all ps (write t p w)

unfoldable pub joined : List (Taken × Bytes) → Bytes
joined [] = []
joined ((t, p) ∷ ps) = p ++ joined ps

length-take_le : (n : ℕ) (s : Bytes) → length (take n s) ≤ length s
length-take_le zero s = ground arith
length-take_le (suc n) [] = ground arith
length-take_le (suc n) (c ∷ s) = ground (arith, length-take_le n s)

-- As many bytes as there are, are all.
take_whole : (n : ℕ) (s : Bytes) → length (take n s) ≡ length s → take n s ≡ s
take_whole zero [] h = refl
take_whole zero (c ∷ s) h = absurd (ground arith)
take_whole (suc n) [] h = refl
take_whole (suc n) (c ∷ s) h = ap (λ r. c ∷ r) (take_whole n s (ground arith))

-- The count is that of the file, and the file is within the limit.
pub record IsBounded (w : LimitedWriter) : Type 0 where
  counts : w.written ≡ length w.file
  pub within : (w.limit == 0) || not (ltb w.limit w.written) ≡ true

write-IsBounded :
    (t : Taken) (p : Bytes) (w : LimitedWriter) → IsBounded w → IsBounded (write t p w)
unfolding write
write-IsBounded t p w b = record {
  counts = ground (arith, b.counts, length-append w.file (take t.count p));
  within = ground (arith, b.within, length-take_le t.count p);
}

-- From a writer within its limit, every sequence of chunks leads to a writer within its limit,
-- however the file behaves.
write_all-IsBounded :
    (ps : List (Taken × Bytes)) (w : LimitedWriter) → IsBounded w → IsBounded (write_all ps w)
unfolding write_all
write_all-IsBounded [] w b = b
write_all-IsBounded ((t, p) ∷ ps) w b =
    write_all-IsBounded ps (write t p w) (write-IsBounded t p w b)

-- A writer that has given up stays so.
given_up :
    (ps : List (Taken × Bytes)) (w : LimitedWriter)
    → w.exceeded || w.failed ≡ true
    → (write_all ps w).exceeded || (write_all ps w).failed ≡ true
unfolding write_all write
given_up [] w h = h
given_up ((t, p) ∷ ps) w h = given_up ps (write t p w) (unfold write in ground arith)

write_whole :
    (t : Taken) (p : Bytes) (w : LimitedWriter)
    → (write t p w).exceeded || (write t p w).failed ≡ false
    → (write t p w).file ≡ w.file ++ p
unfolding write
write_whole t p w h = ground (arith, take_whole t.count p)

-- A copy of a body that neither exceeded the limit nor failed is the whole body, in its order.
pub write_all_whole :
    (ps : List (Taken × Bytes)) (w : LimitedWriter)
    → (write_all ps w).exceeded || (write_all ps w).failed ≡ false
    → (write_all ps w).file ≡ w.file ++ joined ps
unfolding write_all joined
write_all_whole [] w h = sym (append-nil w.file)
write_all_whole ((t, p) ∷ ps) w h =
    elim (Bool-cases ((write t p w).exceeded || (write t p w).failed)) [
      | inl over ↦ absurd (ground (arith, given_up ps (write t p w) over))
      | inr fine ↦
          write_all_whole ps (write t p w) h
          ∙ ap (λ s. s ++ joined ps) (write_whole t p w fine)
          ∙ append_assoc w.file p (joined ps)
    ]
