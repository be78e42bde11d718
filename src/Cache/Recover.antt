-- ===== src/Cache/Recover.antt =====
-- cache/cache.go: `New` and `recover`. The directory is what `os.ReadDir` reports of the tree with
-- given files; the table is what the database holds when it opens.
pub mod Restores
pub mod Reopen
use proxykit.Prelude.{
  ℕ, ◌+◌, Bool, true, false, not, Option, none, some, List, [], ◌∷◌, ◌++◌, if◌then◌else◌, length,
  ltb, ◌==◌, ◌&&◌, ◌||◌,
}
use proxykit.Prelude.Int.{ℤ}
use proxykit.Prelude.Text.{Bytes, bytes_eq, codes, has_prefix}
use proxykit.Cache.Entry.{Entry, Row, insert, delete_row}
use proxykit.Cache.State.{Cache, World, Files, remove_file, exec}

-- A name in a subdirectory, with what `Info` says of its size, if it says anything.
pub record DirFile : Type 0 where
  pub name : Bytes
  pub size : Option ℕ

-- A name in the cache directory: a plain file, or a folder with its names if it can be read.
pub data DirEntry : Type 0 where
  plain : DirEntry
  folder : Bytes → Option (List DirFile) → DirEntry

-- A stored time of 0 is the zero `time.Time`.
unfoldable pub of_unix_nano : ℕ → Option ℕ
of_unix_nano t = if t == 0 then none else some t

-- The entry that a row stands for, with the size that the file system reports.
unfoldable pub of_row : Row → ℕ → Entry
unfolding of_unix_nano
of_row r size = record {
  key = r.key;
  path = r.path;
  size = size;
  created_at = r.created_at;
  accessed_at = r.accessed_at;
  expires_at = of_unix_nano r.expires_at;
}

-- `expiresAtNS != 0 && time.Now().After(time.Unix(0, expiresAtNS))`.
unfoldable pub row_expired : Row → ℕ → Bool
row_expired r now = not (r.expires_at == 0) && ltb r.expires_at now

-- One round of the loop over the rows: the cache, and whether the row is stale.
unfoldable pub restore_row : World → ℕ → Row → Cache → Cache × Bool
unfolding row_expired remove_file of_row insert
restore_row w now r c =
    if row_expired r now
    then (record c { files = remove_file w r.path c.files }, true)
    else (elim (c.files r.path) [
      | none ↦ (c, true)
      | some body ↦ (
        record c {
          entries = insert (of_row r (length body)) c.entries;
          total_size = c.total_size + length body;
        },
        false,
      )
    ])

-- The loop over the rows, with the stale keys in their order.
unfoldable pub restore_rows : World → ℕ → List Row → Cache → Cache × List Bytes
unfolding restore_row
restore_rows w now [] c = (c, [])
restore_rows w now (r ∷ rs) c =
    let (c₁, stale) = restore_row w now r c in
    let (c₂, keys) = restore_rows w now rs c₁ in (c₂, if stale then r.key ∷ keys else keys)

-- The statements that delete the stale rows.
unfoldable delete_stale : World → List Bytes → Option (List Row) → Option (List Row)
unfolding exec delete_row
delete_stale w [] db = db
delete_stale w (k ∷ ks) db = delete_stale w ks (exec w k (delete_row k) db)

-- `knownPaths[filePath]`: the path of an entry that was restored.
unfoldable pub known_path : Bytes → List Entry → Bool
unfolding bytes_eq
known_path p [] = false
known_path p (e ∷ es) = bytes_eq e.path p || known_path p es

-- One name in a subdirectory: temporary files are removed, files without an entry are counted.
pub scan_file : World → Bytes → DirFile → Cache → Cache
unfolding has_prefix remove_file known_path
scan_file w dir f c =
    let path = dir ++ codes "/" ++ f.name in
    if has_prefix f.name (codes ".tmp-")
    then record c { files = remove_file w path c.files }
    else (elim f.size [
      | none ↦ c
      | some n ↦ if known_path path c.entries then c else record c { total_size = c.total_size + n }
    ])

pub scan_files : World → Bytes → List DirFile → Cache → Cache
unfolding scan_file
scan_files w dir [] c = c
scan_files w dir (f ∷ fs) c = scan_files w dir fs (scan_file w dir f c)

pub scan_dirs : World → List DirEntry → Cache → Cache
unfolding scan_files
scan_dirs w [] c = c
scan_dirs w (plain ∷ ds) c = scan_dirs w ds c
scan_dirs w (folder name none ∷ ds) c = scan_dirs w ds c
scan_dirs w (folder name (some fs) ∷ ds) c =
    scan_dirs w ds (scan_files w (c.dir ++ codes "/" ++ name) fs c)

-- The part of `recover` about the database; `queried` says whether the query succeeds.
unfoldable pub restore_db : World → Bool → ℕ → Option (List Row) → Cache → Cache
unfolding restore_rows delete_stale
restore_db w queried now none c = c
restore_db w false now (some rows) c = record c { db = none }
restore_db w true now (some rows) c =
    let (c', stale) = restore_rows w now rows c in record c' { db = delete_stale w stale c'.db }

-- `recover`, once the cache directory is read.
pub recover : World → Bool → ℕ → (Files → List DirEntry) → Cache → Cache
unfolding restore_db scan_dirs
recover w queried now listing c =
    let restored = restore_db w queried now c.db c in scan_dirs w (listing restored.files) restored

-- The struct `Config`.
pub record Config : Type 0 where
  pub dir : Bytes
  pub max_size : ℕ
  pub ttl : ℤ
  pub soft_evict_percent : ℕ

pub data NewError : Type 0 where
  no_directory mkdir_failed recover_failed : NewError

pub data NewResult : Type 0 where
  created : Cache → NewResult
  refused : NewError → NewResult

-- `New`: `made` and `listing` say what `os.MkdirAll` and `os.ReadDir` give, and `opened` the table
-- that `openMetadataDB` finds, if the database opens.
unfoldable pub new :
    World
    → Bool
    → Bool
    → ℕ
    → Option (Files → List DirEntry)
    → Option (List Row)
    → Files
    → Config
    → NewResult
unfolding recover bytes_eq
new w made queried now listing opened files cfg =
    if bytes_eq cfg.dir []
    then refused no_directory
    else if not made
    then refused mkdir_failed
    else (elim listing [
      | none ↦ refused recover_failed
      | some read ↦ created (
          recover w queried now read (record {
            dir = cfg.dir;
            max_size = cfg.max_size;
            ttl = cfg.ttl;
            soft_evict_percent = cfg.soft_evict_percent;
            db = opened;
            entries = [];
            total_size = 0;
            files = files;
          }))
    ])
