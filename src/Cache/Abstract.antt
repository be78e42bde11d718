-- ===== src/Cache/Abstract.antt =====
-- cache/cache.go: the cache without a limit as a map from keys to contents with their deadlines, which
-- `Put`, `Get` and `Remove` act on.
pub mod Acts
pub mod Refines
pub mod View
use mathlib.Core.List.{append_assoc}
use proxykit.Prelude.{
  ℕ, ◌≡◌, refl, ap, sym, ◌∙◌, Bool, true, false, Option, none, some, List, [], ◌∷◌, ◌++◌, arith,
  take, length, if◌then◌else◌, Option-cases, Bool-cases, inl, inr,
}
use proxykit.Prelude.Int.{ℤ}
use proxykit.Prelude.Text.{Bytes, codes, bytes_eq, bytes_eq_refl, bytes_eq_iff, bytes_eq-append}
use proxykit.Cache.Entry.{Entry, find, expired, expired_at}
use proxykit.Cache.State.{Cache, World, Files, remove_locked, remove_file, write_file, track}
use proxykit.Cache.Evict.{evict_lru}
use proxykit.Cache.Ops.{get, touch, put, remove, path_of, deadline, effective_ttl, new_entry}
use proxykit.Cache.Map.{find-insert, find-delete, key-find}

-- The abstract view: it forgets paths, sizes, access times, the database and the order of entries.
abbrev pub Contents : Type 0
Contents = Bytes → Option (Bytes × Option ℕ)

pub look : Files → Option Entry → Option (Bytes × Option ℕ)
look files none = none
look files (some e) = elim (files e.path) [ none ↦ none | some body ↦ some (body, e.expires_at) ]

unfoldable pub contents : Cache → Contents
unfolding look
contents c k = look c.files (find k c.entries)

-- The operations, with the clock's readings of each.
pub data Op : Type 0 where
  puts : Bytes → Bytes → ℤ → ℕ → Op
  gets : Bytes → ℕ → ℕ → Op
  removes : Bytes → Op

-- What is left of an entry that is looked at.
unfoldable pub live : ℕ → Option (Bytes × Option ℕ) → Option (Bytes × Option ℕ)
live checked none = none
live checked (some (body, expires)) =
    if expired_at expires checked then none else some (body, expires)

pub body_of : Option (Bytes × Option ℕ) → Option Bytes
body_of none = none
body_of (some (body, expires)) = some body

-- The specification: a map, and what a `Get` reads from it. `default` is the cache's own lifetime.
unfoldable pub spec_step : ℤ → Op → Contents → Contents × Option Bytes
unfolding live body_of deadline effective_ttl
spec_step default (puts k content ttl now) m = (
  λ j. if bytes_eq k j then some (content, deadline (effective_ttl default ttl) now) else m j,
  none,
)
spec_step default (gets k checked now) m =
    (λ j. if bytes_eq k j then live checked (m j) else m j, body_of (live checked (m k)))
spec_step default (removes k) m = (λ j. if bytes_eq k j then none else m j, none)

-- A path that `Get` returned, read.
pub read_path : Cache × Option Bytes → Cache × Option Bytes
read_path (c, none) = (c, none)
read_path (c, some path) = (c, c.files path)

-- The operations of the cache.
pub step : (Bytes → Bytes) → World → Op → Cache → Cache × Option Bytes
unfolding read_path
step hash_key w (puts k content ttl now) c = ((put hash_key w none k content ttl now c).0, none)
step hash_key w (gets k checked now) c = read_path (get w k checked now c)
step hash_key w (removes k) c = (remove w k c, none)

-- There is no limit, and every entry has the path that `Put` gives it.
pub record IsPlaced (hash_key : Bytes → Bytes) (c : Cache) : Type 0 where
  pub unlimited : c.max_size ≡ 0
  pub placed :
      (k : Bytes) (e : Entry) → find k c.entries ≡ some e → e.path ≡ path_of hash_key c.dir k
