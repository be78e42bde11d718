-- ===== src/Tests/CacheRuns.antt =====
-- cache/cache.go: a cache of two entries, and the theorems about it.
use proxykit.Prelude.{ℕ, ◌≤◌, ◌≡◌, refl, true, false, none, some, List, [], ◌∷◌, arith, inr}
use proxykit.Prelude.Int.{pos}
use proxykit.Prelude.Text.{Bytes, codes, bytes_eq, has_prefix}
use proxykit.Cache.Entry.{
  Entry, find, insert, delete, sizes, expired, to_row, upsert_row, delete_row,
}
use proxykit.Cache.State.{
  Cache, World, Files, exec, remove_file, remove_locked, track, old_size, write_file,
}
use proxykit.Cache.Evict.{Float64, evict_until, evict_lru, sort_by, sweep, evict_expired}
use proxykit.Cache.Ops.{
  get, put, path_of, deadline, effective_ttl, new_entry, register_after_stream, remove_matching,
  remove_by_prefix, count_picked, touch,
}
use proxykit.Cache.Invariant.{IsValid}
use proxykit.Cache.Invariant.Runs.{gets, tracks, shrinks, run, extra_after_all, run-IsValid}
use proxykit.Cache.Limit.{evict_lru_order}
use proxykit.Cache.Put.{put_bounded}
use proxykit.Cache.Fetch.{content, panics, opened, fast_path, get_or_fetch, open_hit}
use proxykit.Cache.Fetch.Answers.{get_or_fetch_stored}
use proxykit.Cache.Recover.{
  DirEntry, plain, folder, recover, restore_db, restore_rows, restore_row, row_expired, of_row,
  of_unix_nano, known_path,
}
use proxykit.Cache.Recover.Restores.{
  IsRestored, unknown_bytes, unknown_files, unknown_file, recover-IsRestored, has_row,
}
use proxykit.Cache.Recover.Reopen.{find-recover}

program : Unit {0}
unfolding find insert delete sizes expired to_row upsert_row delete_row exec remove_file
    remove_locked track old_size write_file evict_until evict_lru sort_by sweep evict_expired get
    put path_of deadline effective_ttl new_entry register_after_stream remove_matching
    remove_by_prefix count_picked touch run fast_path open_hit get_or_fetch has_row bytes_eq
    has_prefix
program = tt

abbrev w : World
w = record { db_ok = λ _. true; remove_ok = λ _. true }

abbrev a : Bytes
a = codes "npm:a"

abbrev b : Bytes
b = codes "git:b"

abbrev fl : Float64
fl = record { is_positive = λ _. true; threshold = λ n _. n }

abbrev older : Entry
older = record {
  key = a;
  path = codes "/c/1";
  size = 3;
  created_at = 5;
  accessed_at = 5;
  expires_at = some 100;
}

abbrev newer : Entry
newer = record {
  key = b;
  path = codes "/c/2";
  size = 4;
  created_at = 7;
  accessed_at = 9;
  expires_at = none;
}

abbrev files : Files
files =
    write_file (codes "/c/1") (codes "abc") (write_file (codes "/c/2") (codes "defg") (λ _. none))

-- Two entries of 7 bytes together, in a cache of 8.
abbrev two : Cache
two = record {
  dir = codes "/c";
  max_size = 8;
  ttl = pos 50;
  soft_evict_percent = 0;
  db = some (to_row older ∷ to_row newer ∷ []);
  entries = newer ∷ older ∷ [];
  total_size = 7;
  files = files;
}

-- The same with an entry too much.
abbrev full : Cache
full = record two { max_size = 5 }

-- The cache without entries that a process opens on the same directory.
abbrev reopened : Cache
reopened = record two { entries = []; total_size = 0 }

two-IsValid : IsValid 0 two
unfolding find sizes bytes_eq
two-IsValid = record { distinct = (refl, (refl, tt)); accounts = refl }

full-IsValid : IsValid 0 full
unfolding find sizes bytes_eq
full-IsValid = record { distinct = (refl, (refl, tt)); accounts = refl }

run-IsValid_example :
    IsValid 0
      (run fl (λ _ _. false) w (gets a 50 51 ∷ tracks newer ∷ shrinks ∷ gets b 60 60 ∷ []) full)
unfolding extra_after_all
run-IsValid_example =
    run-IsValid fl (λ _ _. false) w (gets a 50 51 ∷ tracks newer ∷ shrinks ∷ gets b 60 60 ∷ []) 0
      full full-IsValid

evict_lru_order_example : older.accessed_at ≤ newer.accessed_at
unfolding program
evict_lru_order_example =
    evict_lru_order w 0 full full-IsValid (omega arith) a b {e = older} {d = newer} refl refl refl

put_bounded_example :
    IsValid 0 (put (λ k. k) w none a (codes "hello") (pos 0) 20 two).0
    × ((put (λ k. k) w none a (codes "hello") (pos 0) 20 two).0.total_size ≤ 8)
put_bounded_example =
    put_bounded (λ k. k) w a (codes "hello") (pos 0) 20 0 two two-IsValid (omega arith)
      (omega arith)

-- A cache that counts 9 bytes of files without an entry.
abbrev starved : Cache
starved = record two { total_size = 16 }

get_or_fetch_stored_example :
    ((get_or_fetch {E = ℕ}
        (λ k. k)
        w
        none
        (codes "c")
        (content (codes "v") (pos 20))
        10
        10
        10
        two).1
      ≡ opened (codes "v"))
    × ((get_or_fetch {E = ℕ}
          (λ k. k)
          w
          none
          (codes "c")
          panics
          30
          30
          30
          (get_or_fetch {E = ℕ}
            (λ k. k)
            w
            none
            (codes "c")
            (content (codes "v") (pos 20))
            10
            10
            10
            two).0).1
        ≡ opened (codes "v"))
unfolding program
get_or_fetch_stored_example =
    get_or_fetch_stored (λ k. k) w (codes "c") 10 10 10 two two refl (codes "v") (pos 20)
      (inr (omega arith)) w none panics 30 30 30 refl

-- A plain file, a folder that cannot be read, and one with a temporary name, a name without a size, and
-- a file of 7 bytes.
abbrev listing : List DirEntry
listing =
    plain
    ∷ folder (codes "ab") none
    ∷ folder (codes "cd") (
        some (
          record { name = codes ".tmp-1"; size = some 9 }
          ∷ record { name = codes "e"; size = none }
          ∷ record { name = codes "f"; size = some 7 }
          ∷ []))
    ∷ []

recover-IsRestored_example : IsRestored 200 7 (recover w true 200 (λ _. listing) reopened)
unfolding program unknown_bytes unknown_files unknown_file restore_db restore_rows restore_row
    row_expired of_row of_unix_nano known_path
recover-IsRestored_example =
    recover-IsRestored w true 200 (λ _. listing) reopened (to_row older ∷ to_row newer ∷ []) refl
      (refl, (refl, tt)) refl refl

find-recover_example : find a (recover w true 60 (λ _. plain ∷ []) reopened).entries ≡ some older
unfolding program
find-recover_example =
    find-recover w 60 (λ _. plain ∷ []) reopened (older ∷ newer ∷ []) a refl refl (refl, (refl, tt))
      (
        (codes "abc", refl, refl, refl, λ h. ground arith),
        ((codes "defg", refl, refl, refl, λ h. ground arith), tt),
      )
