-- ===== src/Cache/Evict.antt =====
-- cache/cache.go: `evictExpired`, `softEvictByAge` and `evictLRU`.
-- `sort.Slice` is an insertion sort; the order of entries with equal times is not specified.
use proxykit.Prelude.{ℕ, Bool, List, [], ◌∷◌, leb, if◌then◌else◌, ◌||◌}
use proxykit.Prelude.{◌==◌, not}
use proxykit.Cache.Entry.{Entry, expired}
use proxykit.Cache.State.{Cache, World, remove_locked}

unfoldable pub insert_by : (Entry → ℕ) → Entry → List Entry → List Entry
insert_by time e [] = e ∷ []
insert_by time e (d ∷ ds) = if leb (time e) (time d) then e ∷ d ∷ ds else d ∷ insert_by time e ds

-- `sort.Slice`, ascending by a time.
unfoldable pub sort_by : (Entry → ℕ) → List Entry → List Entry
unfolding insert_by
sort_by time [] = []
sort_by time (e ∷ es) = insert_by time e (sort_by time es)

-- The loop over the sorted entries: it stops once the total is at or below the limit.
unfoldable pub evict_until : World → ℕ → List Entry → Cache → Cache
unfolding remove_locked
evict_until w limit [] c = c
evict_until w limit (e ∷ es) c =
    let rest = evict_until w limit es (remove_locked w e c) in
    if leb c.total_size limit then c else rest

-- `evictLRU`.
unfoldable pub evict_lru : World → Cache → Cache
unfolding evict_until sort_by
evict_lru w c =
    if (c.max_size == 0) || leb c.total_size c.max_size
    then c
    else evict_until w c.max_size (sort_by (λ e. e.accessed_at) c.entries) c

-- The two things that `softEvictByAge` asks of its float64: whether it is above 0, and
-- `int64(float64(maxSize) * percent)`.
pub record Float64 : Type 0 where
  pub is_positive : ℕ → Bool
  pub threshold : ℕ → ℕ → ℕ

-- `softEvictByAge`.
unfoldable pub soft_evict_by_age : Float64 → World → Cache → Cache
unfolding evict_until sort_by
soft_evict_by_age fl w c =
    let limit = fl.threshold c.max_size c.soft_evict_percent in
    if not (fl.is_positive c.soft_evict_percent) || (c.max_size == 0)
    then c
    else if leb c.total_size limit
    then c
    else evict_until w limit (sort_by (λ e. e.created_at) c.entries) c

-- A loop over the entries that removes those that a test picks: the loops of `evictExpired`,
-- `RemoveByPrefix` and `RemoveMatching`.
unfoldable pub sweep : World → (Entry → Bool) → List Entry → Cache → Cache
unfolding remove_locked
sweep w pick [] c = c
sweep w pick (e ∷ es) c = sweep w pick es (if pick e then remove_locked w e c else c)

-- `evictExpired`.
unfoldable pub evict_expired : World → ℕ → Cache → Cache
unfolding sweep expired
evict_expired w now c = sweep w (λ e. expired e now) c.entries c

-- One tick of `evictionLoop`.
unfoldable tick : Float64 → World → ℕ → Cache → Cache
unfolding evict_expired soft_evict_by_age evict_lru
tick fl w now c =
    let swept = evict_expired w now c in
    if swept.max_size == 0 then swept else evict_lru w (soft_evict_by_age fl w swept)
