-- ===== src/Cache/Ops.antt =====
-- cache/cache.go: the exported operations of `Cache` on one state. `hash_key`, the hexadecimal
-- SHA-256 of a key, is an argument. The clock's readings are arguments, in the order of the calls.
use proxykit.Prelude.{
  ℕ, zero, suc, ◌+◌, ◌-◌, Bool, Option, none, some, List, [], ◌++◌, length, take, if◌then◌else◌,
  ltb,
}
use proxykit.Prelude.Int.{ℤ, pos, negsuc, is_zero}
use proxykit.Prelude.Text.{Bytes, codes, has_prefix}
use proxykit.Cache.Entry.{Entry, Row, find, expired, touch_row, insert}
use proxykit.Cache.State.{Cache, World, exec, remove_locked, track, write_file}
use proxykit.Cache.Evict.{evict_lru, sweep}

-- `Remove`.
unfoldable pub remove : World → Bytes → Cache → Cache
unfolding find remove_locked
remove w k c = elim (find k c.entries) [ none ↦ c | some e ↦ remove_locked w e c ]

-- 60 seconds, in nanoseconds.
abbrev access_slack : ℕ
access_slack = 60000000000

-- The branch of `Get` on a live entry: the access time moves, and after a minute the database's too.
unfoldable pub touch : World → Entry → ℕ → Cache → Cache
unfolding exec touch_row insert
touch w e now c = record c {
  entries = insert (record e { accessed_at = now }) c.entries;
  db =
      if ltb access_slack (now - e.accessed_at)
      then exec w e.key (touch_row e.key now) c.db
      else c.db;
}

-- `Get`; `checked` is the reading for the expiry test, and `now` the one after it.
unfoldable pub get : World → Bytes → ℕ → ℕ → Cache → Cache × Option Bytes
unfolding find expired remove_locked touch
get w k checked now c = elim (find k c.entries) [
  | none ↦ (c, none)
  | some e ↦
      if expired e checked then (remove_locked w e c, none) else (touch w e now c, some e.path)
]

-- `now.Add(ttl)` for a positive lifetime, and the zero time for any other.
unfoldable pub deadline : ℤ → ℕ → Option ℕ
deadline (pos zero) now = none
deadline (pos (suc n)) now = some (now + suc n)
deadline (negsuc n) now = none

-- A lifetime of 0 stands for the cache's own.
unfoldable pub effective_ttl : ℤ → ℤ → ℤ
effective_ttl default ttl = if is_zero ttl then default else ttl

-- `filepath.Join(c.dir, hash[:2], hash)` for a cleaned `dir`.
unfoldable pub path_of : (Bytes → Bytes) → Bytes → Bytes → Bytes
path_of hash_key dir k = dir ++ codes "/" ++ (take 2 (hash_key k) ++ codes "/" ++ hash_key k)

-- The steps of `Put` that can fail, in their order.
pub data PutError : Type 0 where
  mkdir_failed create_temp_failed write_failed close_failed rename_failed : PutError

pub data PutResult : Type 0 where
  stored : Bytes → PutResult
  failed : PutError → PutResult

-- The entry that `Put` makes of its arguments.
unfoldable pub new_entry : Bytes → Bytes → ℕ → Option ℕ → ℕ → Entry
new_entry k path size expires now = record {
  key = k;
  path = path;
  size = size;
  created_at = now;
  accessed_at = now;
  expires_at = expires;
}

-- `Put`: `fault` is the first step that fails, if one does; `content` is all that the reader gives.
unfoldable pub put :
    (Bytes → Bytes) → World → Option PutError → Bytes → Bytes → ℤ → ℕ → Cache → Cache × PutResult
unfolding track write_file new_entry deadline effective_ttl path_of evict_lru
put hash_key w (some error) k content ttl now c = (c, failed error)
put hash_key w none k content ttl now c =
    let path = path_of hash_key c.dir k in
    let e = new_entry k path (length content) (deadline (effective_ttl c.ttl ttl) now) now in
    let written = record c { files = write_file path content c.files } in
    (evict_lru w (track w e written), stored path)

-- `RegisterAfterStream`.
unfoldable pub register_after_stream : World → Bytes → Bytes → ℕ → ℕ → Cache → Cache
unfolding track new_entry deadline evict_lru
register_after_stream w k path size now c =
    evict_lru w (track w (new_entry k path size (deadline c.ttl now) now) c)

-- The counter `removed` of a loop that removes what a test picks.
unfoldable pub count_picked : (Entry → Bool) → List Entry → ℕ
count_picked pick [] = 0
count_picked pick (List.◌∷◌ e es) = (if pick e then 1 else 0) + count_picked pick es

-- `RemoveMatching`: the cache, and the number of entries removed.
unfoldable pub remove_matching : World → (Bytes → Bool) → Cache → Cache × ℕ
unfolding sweep count_picked
remove_matching w match c =
    let pick = λ (e : Entry). match e.key in (sweep w pick c.entries c, count_picked pick c.entries)

-- `RemoveByPrefix`; `like` is SQL's `LIKE`, by which the last statement deletes rows.
unfoldable delete_like : (Bytes → Bytes → Bool) → Bytes → List Row → List Row
delete_like like pattern [] = []
delete_like like pattern (List.◌∷◌ r rs) =
    let rest = delete_like like pattern rs in if like r.key pattern then rest else List.◌∷◌ r rest

unfoldable pub remove_by_prefix : (Bytes → Bytes → Bool) → World → Bytes → Cache → Cache × ℕ
unfolding sweep count_picked has_prefix exec delete_like
remove_by_prefix like w prefix c =
    let pick = λ (e : Entry). has_prefix e.key prefix in
    let swept = sweep w pick c.entries c in
    (
      record swept { db = exec w prefix (delete_like like (prefix ++ codes "%")) swept.db },
      count_picked pick c.entries,
    )

-- `Clear`: the empty cache, the entries removed and the bytes freed. `wiped` says whether
-- `os.RemoveAll` succeeds, and `reopened` is the table of the database that is opened again, if it
-- opens.
unfoldable pub clear : Bool → Option (List Row) → Cache → Cache × ℕ × ℕ
clear wiped reopened c = (
  record c {
    entries = [];
    total_size = 0;
    db = reopened;
    files = if wiped then (λ _. none) else c.files;
  },
  length c.entries,
  c.total_size,
)
