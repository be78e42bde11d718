-- ===== src/Cache/Entry.antt =====
-- cache/cache.go: `entry`, the map of entries, and the rows that the metadata database keeps.
-- Times are nanoseconds of Unix time; the zero `time.Time` of a field is `none`.
use proxykit.Prelude.{ℕ, ◌+◌, ◌≡◌, Bool, Option, none, some, List, [], ◌∷◌, if◌then◌else◌, ltb}
use proxykit.Prelude.Text.{Bytes, bytes_eq}

pub record Entry : Type 0 where
  pub key : Bytes
  pub path : Bytes
  pub size : ℕ
  pub created_at : ℕ
  pub accessed_at : ℕ
  pub expires_at : Option ℕ

-- `entries map[string]*entry`: every write stores an entry under its own key.
unfoldable pub find : Bytes → List Entry → Option Entry
unfolding bytes_eq
find k [] = none
find k (e ∷ es) = if bytes_eq e.key k then some e else find k es

-- `delete(c.entries, key)`.
unfoldable pub delete : Bytes → List Entry → List Entry
unfolding bytes_eq
delete k [] = []
delete k (e ∷ es) = if bytes_eq e.key k then delete k es else e ∷ delete k es

-- `c.entries[e.key] = e`.
unfoldable pub insert : Entry → List Entry → List Entry
unfolding delete
insert e es = e ∷ delete e.key es

unfoldable pub sizes : List Entry → ℕ
sizes [] = 0
sizes (e ∷ es) = e.size + sizes es

-- No two entries of the map have one key.
abbrev pub Distinct : List Entry → Type 0
Distinct [] = Unit
Distinct (e ∷ es) = (find e.key es ≡ none) × Distinct es

-- `!e.expiresAt.IsZero() && now.After(e.expiresAt)`.
unfoldable pub expired_at : Option ℕ → ℕ → Bool
expired_at none now = Bool.false
expired_at (some t) now = ltb t now

unfoldable pub expired : Entry → ℕ → Bool
unfolding expired_at
expired e now = expired_at e.expires_at now

-- A row of the table `cache_entries`.
pub record Row : Type 0 where
  pub key : Bytes
  pub path : Bytes
  pub size : ℕ
  pub created_at : ℕ
  pub accessed_at : ℕ
  pub expires_at : ℕ

-- `timeToUnixNano`.
unfoldable time_to_unix_nano : Option ℕ → ℕ
time_to_unix_nano none = 0
time_to_unix_nano (some t) = t

unfoldable pub to_row : Entry → Row
unfolding time_to_unix_nano
to_row e = record {
  key = e.key;
  path = e.path;
  size = e.size;
  created_at = e.created_at;
  accessed_at = e.accessed_at;
  expires_at = time_to_unix_nano e.expires_at;
}

-- `DELETE FROM cache_entries WHERE key = ?`.
unfoldable pub delete_row : Bytes → List Row → List Row
unfolding bytes_eq
delete_row k [] = []
delete_row k (r ∷ rs) = if bytes_eq r.key k then delete_row k rs else r ∷ delete_row k rs

-- `INSERT OR REPLACE INTO cache_entries`.
unfoldable pub upsert_row : Row → List Row → List Row
unfolding delete_row
upsert_row r rs = r ∷ delete_row r.key rs

-- `UPDATE cache_entries SET accessed_at = ? WHERE key = ?`.
unfoldable pub touch_row : Bytes → ℕ → List Row → List Row
unfolding bytes_eq
touch_row k now [] = []
touch_row k now (r ∷ rs) =
    if bytes_eq r.key k
    then record r { accessed_at = now } ∷ touch_row k now rs
    else r ∷ touch_row k now rs
