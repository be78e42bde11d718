-- ===== src/Cache/Invariant/Runs.antt =====
-- cache/cache.go: the pieces of the operations that run under the lock, in any interleaving of any
-- number of callers, and the accounting invariant in every state that they reach.
use proxykit.Prelude.{ℕ, ◌≡◌, refl, Bool, Option, none, some, List, [], ◌∷◌, arith}
use proxykit.Prelude.Text.{Bytes, has_prefix}
use proxykit.Cache.Entry.{Entry, Row, find, insert, sizes, expired}
use proxykit.Cache.State.{Cache, World, track, write_file, old_size}
use proxykit.Cache.Evict.{Float64, evict_lru, soft_evict_by_age, evict_expired}
use proxykit.Cache.Ops.{remove, touch, get, remove_matching, remove_by_prefix, clear}
use proxykit.Cache.Map.{insert-Distinct, sizes-delete, find_own}
use proxykit.Cache.Invariant.{
  IsValid, remove_locked-IsValid, track-IsValid, evict_lru-IsValid, soft_evict_by_age-IsValid,
  sweep_self-IsValid,
}

-- One critical section: `Put` is a rename outside the lock, a `tracks` and a `shrinks`, and other
-- callers may come in between; `RegisterAfterStream` is a `tracks` and a `shrinks`; a tick of the
-- eviction loop is an `expires`, a `softens` and a `shrinks`.
pub data Section : Type 0 where
  gets : Bytes → ℕ → ℕ → Section
  renames : Bytes → Bytes → Section
  tracks : Entry → Section
  shrinks : Section
  expires : ℕ → Section
  softens : Section
  removes : Bytes → Section
  removes_matching : (Bytes → Bool) → Section
  removes_prefix : Bytes → Section
  clears : Bool → Option (List Row) → Section

module _ (fl : Float64) (like : Bytes → Bytes → Bool) (w : World) where
  unfoldable enter : Section → Cache → Cache
  unfolding get write_file track evict_lru evict_expired soft_evict_by_age remove remove_matching
      remove_by_prefix clear
  enter (gets k checked now) c = (get w k checked now c).0
  enter (renames p content) c = record c { files = write_file p content c.files }
  enter (tracks e) c = track w e c
  enter shrinks c = evict_lru w c
  enter (expires now) c = evict_expired w now c
  enter softens c = soft_evict_by_age fl w c
  enter (removes k) c = remove w k c
  enter (removes_matching match) c = (remove_matching w match c).0
  enter (removes_prefix prefix) c = (remove_by_prefix like w prefix c).0
  enter (clears wiped reopened) c = (clear wiped reopened c).0

  unfoldable pub run : List Section → Cache → Cache
  unfolding enter
  run [] c = c
  run (s ∷ ss) c = run ss (enter s c)

-- The bytes without an entry: `Clear` forgets them, nothing else changes them.
unfoldable extra_after : Section → ℕ → ℕ
extra_after (clears wiped reopened) extra = 0
extra_after (gets _ _ _) extra = extra
extra_after _ extra = extra

unfoldable pub extra_after_all : List Section → ℕ → ℕ
unfolding extra_after
extra_after_all [] extra = extra
extra_after_all (s ∷ ss) extra = extra_after_all ss (extra_after s extra)

module _ (extra : ℕ) (w : World) where
  remove-IsValid : (k : Bytes) (c : Cache) → IsValid extra c → IsValid extra (remove w k c)
  unfolding remove
  remove-IsValid k c v = go (find k c.entries) refl
    where
      go : (o : Option Entry) → find k c.entries ≡ o → IsValid extra (remove w k c)
      go none f = rw (f, remove) v
      go (some e) f = rw (f, remove) (remove_locked-IsValid extra w e c v (find_own k c.entries f))

  touch-IsValid :
      (e : Entry) (now : ℕ) (c : Cache)
      → IsValid extra c
      → find e.key c.entries ≡ some e
      → IsValid extra (touch w e now c)
  unfolding touch insert sizes old_size
  touch-IsValid e now c v f = record {
    distinct = insert-Distinct (record e { accessed_at = now }) c.entries v.distinct;
    accounts = ground (arith, sizes-delete e.key c.entries v.distinct, v.accounts);
  }

  get-IsValid :
      (k : Bytes) (checked now : ℕ) (c : Cache)
      → IsValid extra c
      → IsValid extra (get w k checked now c).0
  unfolding get
  get-IsValid k checked now c v = go (find k c.entries) refl
    where
      go : (o : Option Entry) → find k c.entries ≡ o → IsValid extra (get w k checked now c).0
      go none f = rw (f, get) v
      go (some e) f =
          let own : find e.key c.entries ≡ some e = find_own k c.entries f in
          rw (f, get)
            (ground (arith, remove_locked-IsValid extra w e c v own, touch-IsValid e now c v own))

  pub remove_by_prefix-IsValid :
      (like : Bytes → Bytes → Bool) (prefix : Bytes) (c : Cache)
      → IsValid extra c
      → IsValid extra (remove_by_prefix like w prefix c).0
  unfolding remove_by_prefix
  remove_by_prefix-IsValid like prefix c v =
      let swept = sweep_self-IsValid extra w (λ e. has_prefix e.key prefix) c v in
      record { distinct = swept.distinct; accounts = swept.accounts }

  enter-IsValid :
      (fl : Float64) (like : Bytes → Bytes → Bool) (s : Section) (c : Cache)
      → IsValid extra c
      → IsValid (extra_after s extra) (enter fl like w s c)
  unfolding enter extra_after evict_expired remove_matching remove_by_prefix clear sizes
  enter-IsValid fl like (gets k checked now) c v = get-IsValid k checked now c v
  enter-IsValid fl like (renames p content) c v = record {
    distinct = v.distinct;
    accounts = v.accounts;
  }
  enter-IsValid fl like (tracks e) c v = track-IsValid extra w e c v
  enter-IsValid fl like shrinks c v = evict_lru-IsValid extra w c v
  enter-IsValid fl like (expires now) c v = sweep_self-IsValid extra w (λ e. expired e now) c v
  enter-IsValid fl like softens c v = soft_evict_by_age-IsValid extra w fl c v
  enter-IsValid fl like (removes k) c v = remove-IsValid k c v
  enter-IsValid fl like (removes_matching match) c v =
      sweep_self-IsValid extra w (λ e. match e.key) c v
  enter-IsValid fl like (removes_prefix prefix) c v = remove_by_prefix-IsValid like prefix c v
  enter-IsValid fl like (clears wiped reopened) c v = record {
    distinct = tt;
    accounts = omega arith;
  }

-- From a valid cache every interleaving of critical sections leads to a valid cache: the map has one
-- entry per key, and the total is the sum of the sizes of the entries and of the bytes without an
-- entry, which only `Clear` changes, to 0.
pub run-IsValid :
    (fl : Float64) (like : Bytes → Bytes → Bool) (w : World) (ss : List Section) (extra : ℕ)
    (c : Cache)
    → IsValid extra c
    → IsValid (extra_after_all ss extra) (run fl like w ss c)
unfolding run extra_after_all
run-IsValid fl like w [] extra c v = v
run-IsValid fl like w (s ∷ ss) extra c v =
    run-IsValid fl like w ss (extra_after s extra) (enter fl like w s c)
      (enter-IsValid extra w fl like s c v)
