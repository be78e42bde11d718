-- ===== src/Cache/State.antt =====
-- cache/cache.go: the struct `Cache` and what is done to it under its lock.
-- The files of the cache directory are a map from paths to contents. A `World` says which of the
-- database statements and file removals succeed: the source logs or drops their errors.
-- `total_size` is an int64 in the source, and here a natural number: what is taken from it is the
-- size of an entry that it counts.
use proxykit.Prelude.{ℕ, ◌+◌, ◌-◌, Bool, Option, none, some, List, if◌then◌else◌}
use proxykit.Prelude.Int.{ℤ}
use proxykit.Prelude.Text.{Bytes, bytes_eq}
use proxykit.Cache.Entry.{Entry, Row, find, delete, insert, to_row, upsert_row, delete_row}

abbrev pub Files : Type 0
Files = Bytes → Option Bytes

-- `max_size` 0 is unlimited; `ttl` is a `time.Duration`; a float64 is carried as its bit pattern.
pub record Cache : Type 0 where
  pub dir : Bytes
  pub max_size : ℕ
  pub ttl : ℤ
  pub soft_evict_percent : ℕ
  pub db : Option (List Row)
  pub entries : List Entry
  pub total_size : ℕ
  pub files : Files

pub record World : Type 0 where
  pub db_ok : Bytes → Bool
  pub remove_ok : Bytes → Bool

-- `os.WriteFile` through a rename: the path has the content from now on.
unfoldable pub write_file : Bytes → Bytes → Files → Files
unfolding bytes_eq
write_file p content files = λ q. if bytes_eq q p then some content else files q

-- `os.Remove`.
unfoldable pub remove_file : World → Bytes → Files → Files
unfolding bytes_eq
remove_file w p files =
    if w.remove_ok p then (λ q. if bytes_eq q p then none else files q) else files

-- One statement of the database about a key, if there is a database and the statement succeeds.
unfoldable pub exec : World → Bytes → (List Row → List Row) → Option (List Row) → Option (List Row)
exec w k f none = none
exec w k f (some rs) = some (if w.db_ok k then f rs else rs)

-- `removeLocked`.
unfoldable pub remove_locked : World → Entry → Cache → Cache
unfolding remove_file exec delete delete_row
remove_locked w e c = record c {
  files = remove_file w e.path c.files;
  total_size = c.total_size - e.size;
  entries = delete e.key c.entries;
  db = exec w e.key (delete_row e.key) c.db;
}

-- The size that a replaced entry gives back.
unfoldable pub old_size : Bytes → List Entry → ℕ
unfolding find
old_size k es = elim (find k es) [ none ↦ 0 | some e ↦ e.size ]

-- What `Put` and `RegisterAfterStream` do under the lock.
unfoldable pub track : World → Entry → Cache → Cache
unfolding old_size exec insert upsert_row to_row
track w e c = record c {
  total_size = c.total_size - old_size e.key c.entries + e.size;
  entries = insert e c.entries;
  db = exec w e.key (upsert_row (to_row e)) c.db;
}
