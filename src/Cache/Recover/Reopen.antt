-- ===== src/Cache/Recover/Reopen.antt =====
-- cache/cache.go: a cache that is closed and opened again: what `Put` wrote to the database is what
-- `recover` reads back.
use mathlib.Core.Path.{subst}
use proxykit.Prelude.{
  ℕ, ◌+◌, ◌≡◌, ◌≢◌, refl, ap, sym, ◌∙◌, true, false, none, some, List, [], ◌∷◌, map, arith, length,
  All,
}
use proxykit.Prelude.Text.{Bytes, bytes_eq_iff}
use proxykit.Cache.Entry.{Entry, Row, find, insert, Distinct, expired, to_row}
use proxykit.Cache.State.{Cache, World, Files}
use proxykit.Cache.Map.{find-insert}
use proxykit.Cache.Recover.{
  DirEntry, of_unix_nano, of_row, row_expired, restore_row, restore_rows, restore_db, recover,
}
use proxykit.Cache.Recover.Restores.{scan_dirs-Adds}

-- An entry that has not expired, whose file has its size, and whose deadline, if it has one, is not
-- the time 0 that stands for none.
abbrev IsKept : ℕ → Files → Entry → Type 0
IsKept now files e =
    (body : Bytes) × (files e.path ≡ some body)
    × (length body ≡ e.size)
    × (expired e now ≡ false)
    × (e.expires_at ≢ some 0)

of_row-to_row : (e : Entry) (n : ℕ) → n ≡ e.size → e.expires_at ≢ some 0 → of_row (to_row e) n ≡ e
unfolding of_row to_row of_unix_nano
of_row-to_row e n h z = ground arith

row_expired-to_row :
    (e : Entry) (now : ℕ) → e.expires_at ≢ some 0 → row_expired (to_row e) now ≡ expired e now
unfolding row_expired to_row expired
row_expired-to_row e now z = ground arith

module _ (w : World) (now : ℕ) where
  restore_row-to_row :
      (e : Entry) (c : Cache)
      → IsKept now c.files e
      → restore_row w now (to_row e) c
        ≡ (record c { entries = insert e c.entries; total_size = c.total_size + e.size }, false)
  unfolding restore_row to_row
  restore_row-to_row e c (body, there, same_size, live, nonzero) =
      rw (row_expired-to_row e now nonzero, live, there)
        (ground (arith, of_row-to_row e (length body) same_size nonzero, same_size))

  restore_rows-cons :
      (r : Row) (rs : List Row) (c : Cache)
      → (restore_rows w now (r ∷ rs) c).0 ≡ (restore_rows w now rs (restore_row w now r c).0).0
  unfolding restore_rows
  restore_rows-cons r rs c = refl

  restore_rows-to_row :
      (k : Bytes) (es : List Entry) (c : Cache)
      → Distinct es
      → All (IsKept now c.files) es
      → find k (restore_rows w now (map to_row es) c).0.entries
        ≡ (elim (find k es) [ none ↦ find k c.entries | some e ↦ some e ])
  restore_rows-to_row k [] c d kept = unfold restore_rows find in refl
  restore_rows-to_row k (e ∷ es) c (new, d) (this, kept) =
      let step = restore_row-to_row e c this in
      let c' : Cache = record c {
        entries = insert e c.entries;
        total_size = c.total_size + e.size;
      } in
      ap (λ x. find k x.entries) (restore_rows-cons (to_row e) (map to_row es) c)
      ∙ ap (λ x. find k (restore_rows w now (map to_row es) x.0).0.entries) step
      ∙ restore_rows-to_row k es c' d kept
      ∙ unfold find in ground (arith, find-insert e k c.entries, bytes_eq_iff e.key k, new)

-- If the database holds the rows of a map without repeated keys, all of whose entries can be kept,
-- `recover` into an empty cache finds exactly the entries of that map, with their times and paths.
pub find-recover :
    (w : World) (now : ℕ) (listing : Files → List DirEntry) (c : Cache) (es : List Entry)
    (k : Bytes)
    → c.db ≡ some (map to_row es)
    → c.entries ≡ []
    → Distinct es
    → All (IsKept now c.files) es
    → find k (recover w true now listing c).entries ≡ find k es
unfolding recover find
find-recover w now listing c es k held none_yet d kept =
    let restored = restore_db w true now c.db c in
    ap (find k) (scan_dirs-Adds w (listing restored.files) restored).same_entries
    ∙ subst (λ db. find k (restore_db w true now db c).entries ≡ find k es) (sym held)
        (unfold restore_db in
          ground (arith, restore_rows-to_row w now k es c d kept, ap (find k) none_yet))
