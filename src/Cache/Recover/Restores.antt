-- ===== src/Cache/Recover/Restores.antt =====
-- cache/cache.go: the state that `recover` builds from the database and the directory.
use mathlib.Core.Path.{subst}
use proxykit.Prelude.{
  ℕ, ◌+◌, ◌≡◌, refl, ap, sym, ◌∙◌, Bool, true, false, Option, none, some, List, [], ◌∷◌, ◌++◌,
  arith, if◌then◌else◌, Bool-cases, Option-cases, inl, inr, length, All,
}
use proxykit.Prelude.Text.{Bytes, bytes_eq, bytes_eq_iff, codes, has_prefix}
use proxykit.Cache.Entry.{Entry, Row, find, insert, sizes, Distinct, expired}
use proxykit.Cache.State.{Cache, World, Files}
use proxykit.Cache.Map.{find-insert, insert-Distinct, delete_absent}
use proxykit.Cache.Invariant.{IsValid}
use proxykit.Cache.Recover.{
  DirFile, DirEntry, plain, folder, of_row, row_expired, restore_row, restore_rows, restore_db,
  known_path, scan_file, scan_files, scan_dirs, recover,
}

-- The primary key of the table: no two rows have one key.
unfoldable pub has_row : Bytes → List Row → Bool
has_row k [] = false
has_row k (r ∷ rs) = if bytes_eq r.key k then true else has_row k rs

abbrev DistinctRows : List Row → Type 0
DistinctRows [] = Unit
DistinctRows (r ∷ rs) = (has_row r.key rs ≡ false) × DistinctRows rs

-- None of the rows has an entry yet.
abbrev Fresh : List Row → List Entry → Type 0
Fresh rows entries = All (λ r. find r.key entries ≡ none) rows

Fresh-insert :
    (e : Entry) (rows : List Row) (entries : List Entry)
    → has_row e.key rows ≡ false
    → Fresh rows entries
    → Fresh rows (insert e entries)
unfolding has_row
Fresh-insert e [] entries h f = tt
Fresh-insert e (r ∷ rs) entries h (new, f) = (
  ground (arith, find-insert e r.key entries, bytes_eq_iff e.key r.key, bytes_eq_iff r.key e.key),
  Fresh-insert e rs entries (ground arith) f,
)

-- Whether an entry is found and has passed its deadline.
unfoldable pub found_expired : ℕ → Option Entry → Bool
found_expired now none = false
found_expired now (some e) = expired e now

-- No key finds an entry that has passed its deadline.
abbrev NoneExpired : ℕ → List Entry → Type 0
NoneExpired now entries = (k : Bytes) → found_expired now (find k entries) ≡ false

pub record IsRestored (now extra : ℕ) (c : Cache) : Type 0 where
  pub valid : IsValid extra c
  pub live : NoneExpired now c.entries

module _ (w : World) (now : ℕ) where
  insert-IsRestored :
      (e : Entry) (c : Cache)
      → IsRestored now 0 c
      → find e.key c.entries ≡ none
      → expired e now ≡ false
      → IsRestored now 0
          (record c { entries = insert e c.entries; total_size = c.total_size + e.size })
  unfolding insert sizes found_expired
  insert-IsRestored e c s new ok = record {
    valid = record {
      distinct = insert-Distinct e c.entries s.valid.distinct;
      accounts = omega (arith, ap sizes (delete_absent e.key c.entries new), s.valid.accounts);
    };
    live = λ k. ground (arith, find-insert e k c.entries, s.live k);
  }

  of_row_live : (r : Row) (n : ℕ) → row_expired r now ≡ false → expired (of_row r n) now ≡ false
  unfolding of_row row_expired expired
  of_row_live r n h = ground arith

  restore_row-IsRestored :
      (r : Row) (rows : List Row) (c : Cache)
      → has_row r.key rows ≡ false
      → find r.key c.entries ≡ none
      → Fresh rows c.entries
      → IsRestored now 0 c
      → IsRestored now 0 (restore_row w now r c).0 × Fresh rows (restore_row w now r c).0.entries
  unfolding restore_row of_row
  restore_row-IsRestored r rows c other absent f s = elim (Bool-cases (row_expired r now)) [
    | inl stale ↦ rw stale (
      record {
        valid = record { distinct = s.valid.distinct; accounts = s.valid.accounts };
        live = s.live;
      },
      f,
    )
    | inr live ↦ rw live (elim (Option-cases (c.files r.path)) [
      | inl missing ↦ rw missing (s, f)
      | inr (body, there) ↦ rw there (
        insert-IsRestored (of_row r (length body)) c s absent (of_row_live r (length body) live),
        Fresh-insert (of_row r (length body)) rows c.entries other f,
      )
    ])
  ]

  restore_rows-IsRestored :
      (rows : List Row) (c : Cache)
      → DistinctRows rows
      → Fresh rows c.entries
      → IsRestored now 0 c
      → IsRestored now 0 (restore_rows w now rows c).0
  unfolding restore_rows
  restore_rows-IsRestored [] c d f s = s
  restore_rows-IsRestored (r ∷ rs) c (new, d) (absent, f) s =
      let (s', f') = restore_row-IsRestored r rs c new absent f s in
      restore_rows-IsRestored rs (restore_row w now r c).0 d f' s'

-- The bytes that `recover` counts for a name in a folder of the cache directory: its size, if that can
-- be read, unless the name is temporary or its path is that of an entry.
unfoldable pub unknown_file : Bytes → List Entry → DirFile → ℕ
unknown_file dir es f = if has_prefix f.name (codes ".tmp-") then 0 else (elim f.size [
  | none ↦ 0
  | some n ↦ if known_path (dir ++ codes "/" ++ f.name) es then 0 else n
])

unfoldable pub unknown_files : Bytes → List Entry → List DirFile → ℕ
unfolding unknown_file
unknown_files dir es [] = 0
unknown_files dir es (f ∷ fs) = unknown_file dir es f + unknown_files dir es fs

-- The bytes counted for the names that stand directly in those folders of the cache directory that can
-- be read. What stands in the cache directory itself, or deeper than one folder, is not among them.
unfoldable pub unknown_bytes : Bytes → List Entry → List DirEntry → ℕ
unfolding unknown_files
unknown_bytes root es [] = 0
unknown_bytes root es (plain ∷ ds) = unknown_bytes root es ds
unknown_bytes root es (folder name none ∷ ds) = unknown_bytes root es ds
unknown_bytes root es (folder name (some fs) ∷ ds) =
    unknown_files (root ++ codes "/" ++ name) es fs + unknown_bytes root es ds

-- A scan keeps the map and adds to the total.
pub record Adds (n : ℕ) (c c' : Cache) : Type 0 where
  pub same_entries : c'.entries ≡ c.entries
  pub same_dir : c'.dir ≡ c.dir
  pub added : c'.total_size ≡ c.total_size + n

Adds-trans : {n m : ℕ} {c₁ c₂ c₃ : Cache} → Adds n c₁ c₂ → Adds m c₂ c₃ → Adds (n + m) c₁ c₃
Adds-trans f g = record {
  same_entries = g.same_entries ∙ f.same_entries;
  same_dir = g.same_dir ∙ f.same_dir;
  added = omega (arith, f.added, g.added);
}

module _ (w : World) where
  scan_file-Adds :
      (dir : Bytes) (f : DirFile) (c : Cache)
      → Adds (unknown_file dir c.entries f) c (scan_file w dir f c)
  unfolding scan_file unknown_file
  scan_file-Adds dir f c = record {
    same_entries = ground arith;
    same_dir = ground arith;
    added = ground arith;
  }

  scan_files-Adds :
      (dir : Bytes) (fs : List DirFile) (c : Cache)
      → Adds (unknown_files dir c.entries fs) c (scan_files w dir fs c)
  unfolding scan_files unknown_files
  scan_files-Adds dir [] c = record { same_entries = refl; same_dir = refl; added = omega arith }
  scan_files-Adds dir (f ∷ fs) c =
      let first = scan_file-Adds dir f c in
      Adds-trans first (
        subst
          (λ es.
            Adds (unknown_files dir es fs) (scan_file w dir f c)
              (scan_files w dir fs (scan_file w dir f c)))
          first.same_entries (scan_files-Adds dir fs (scan_file w dir f c)))

  pub scan_dirs-Adds :
      (ds : List DirEntry) (c : Cache)
      → Adds (unknown_bytes c.dir c.entries ds) c (scan_dirs w ds c)
  unfolding scan_dirs unknown_bytes
  scan_dirs-Adds [] c = record { same_entries = refl; same_dir = refl; added = omega arith }
  scan_dirs-Adds (plain ∷ ds) c = scan_dirs-Adds ds c
  scan_dirs-Adds (folder name none ∷ ds) c = scan_dirs-Adds ds c
  scan_dirs-Adds (folder name (some fs) ∷ ds) c =
      let c' = scan_files w (c.dir ++ codes "/" ++ name) fs c in
      let first = scan_files-Adds (c.dir ++ codes "/" ++ name) fs c in
      Adds-trans first (
        subst (λ es. Adds (unknown_bytes c.dir es ds) c' (scan_dirs w ds c')) first.same_entries
          (subst (λ root. Adds (unknown_bytes root c'.entries ds) c' (scan_dirs w ds c'))
            first.same_dir (scan_dirs-Adds ds c')))

  scan_dirs-IsRestored :
      (now : ℕ) (ds : List DirEntry) (c : Cache)
      → IsRestored now 0 c
      → IsRestored now (unknown_bytes c.dir c.entries ds) (scan_dirs w ds c)
  scan_dirs-IsRestored now ds c s =
      let adds = scan_dirs-Adds ds c in
      record {
        valid = record {
          distinct = subst Distinct (sym adds.same_entries) s.valid.distinct;
          accounts = omega (arith, adds.added, s.valid.accounts, ap sizes adds.same_entries);
        };
        live = λ k. ap (λ es. found_expired now (find k es)) adds.same_entries ∙ s.live k;
      }

-- From a table with distinct keys, any directory and an empty cache, `recover` builds a valid cache
-- in which no expired entry is found, and whose total is the sizes of the entries and of those names
-- directly in a readable folder of the cache directory whose size can be read, that are not temporary
-- and that are no entry's path; nothing else on the disk counts.
pub recover-IsRestored :
    (w : World) (queried : Bool) (now : ℕ) (listing : Files → List DirEntry) (c : Cache)
    (rows : List Row)
    → c.db ≡ some rows
    → DistinctRows rows
    → c.entries ≡ []
    → c.total_size ≡ 0
    → IsRestored now
        (unknown_bytes
          (restore_db w queried now c.db c).dir
          (restore_db w queried now c.db c).entries
          (listing (restore_db w queried now c.db c).files))
        (recover w queried now listing c)
unfolding recover
recover-IsRestored w queried now listing c rows held d none_yet zero_yet =
    scan_dirs-IsRestored w now (listing (restore_db w queried now c.db c).files)
      (restore_db w queried now c.db c)
      (subst (λ db. IsRestored now 0 (restore_db w queried now db c)) (sym held) (restored queried))
  where
    start : IsRestored now 0 c
    start = record {
      valid = record {
        distinct = subst Distinct (sym none_yet) tt;
        accounts = unfold sizes in rw (zero_yet, none_yet) refl;
      };
      live = λ k. unfold find found_expired in ground (arith, ap (λ es. find k es) none_yet);
    }

    fresh : (rs : List Row) → Fresh rs c.entries
    fresh [] = tt
    fresh (r ∷ rs) = (unfold find in rw none_yet refl, fresh rs)

    restored : (q : Bool) → IsRestored now 0 (restore_db w q now (some rows) c)
    restored true =
        let s = restore_rows-IsRestored w now rows c d (fresh rows) start in
        unfold restore_db in
        record {
          valid = record { distinct = s.valid.distinct; accounts = s.valid.accounts };
          live = s.live;
        }
    restored false =
        unfold restore_db in
        record {
          valid = record { distinct = start.valid.distinct; accounts = start.valid.accounts };
          live = start.live;
        }
