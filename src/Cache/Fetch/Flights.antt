-- ===== src/Cache/Fetch/Flights.antt =====
-- cache/cache.go: the callers of `GetOrFetch` for one key as a system of steps, each step a part that
-- one caller runs without being interrupted. `calls` is the entry of `c.calls` for the key: the caller
-- whose `call` it is. A caller is its number, and `fetch` are the callbacks.
pub mod Orderly
pub mod Progress
use proxykit.Prelude.{ℕ, ◌≡◌, Bool, true, false, Option, none, some, ◌==◌, if◌then◌else◌}
use proxykit.Prelude.Updates.{set}
use proxykit.Prelude.Text.{Bytes}
use proxykit.Cache.State.{Cache, World}
use proxykit.Cache.Ops.{PutError}
use proxykit.Cache.Fetch.{Fetched, Call, Reply, opened, fast_path, do_fetch, open_call}

-- Where a caller is: in front of the fast path, behind its miss, in `wg.Wait` of another's call, in
-- front of `doFetch`, in front of `wg.Done` and of `c.calls.Delete` with its reply, or back.
pub data Stage (E : Type 0) : Type 0 where
  starting : Stage E
  missed : Stage E
  waiting : ℕ → Stage E
  fetching : Stage E
  closing : Reply E → Stage E
  leaving : Reply E → Stage E
  finished : Reply E → Stage E

-- `results` are the fields `val` and `err` of the callers' calls, and `signalled` says whether `Done`
-- was called on them.
pub record Flights (E : Type 0) : Type 0 where
  pub cache : Cache
  pub calls : Option ℕ
  pub results : ℕ → Option (Call E)
  pub signalled : ℕ → Bool
  pub stage : ℕ → Stage E

module _ {E : Type 0} where
  abbrev pub moved : ℕ → Stage E → Flights E → Flights E
  moved i x s = record s { stage = set i x s.stage }

  -- Behind the fast path.
  unfoldable pub looked : ℕ → Cache × Option Bytes → Flights E → Flights E
  looked i (c, some body) s = moved i (finished (opened body)) (record s { cache = c })
  looked i (c, none) s = moved i missed (record s { cache = c })

  -- Behind `doFetch` and the opening of what it stored.
  unfoldable pub fetched : ℕ → Cache × Call E → Flights E → Flights E
  fetched i (c, call) s =
      moved i (closing (open_call call c))
        (record s { cache = c; results = set i (some call) s.results })

  unfoldable pub started : Cache → Flights E
  started c = record {
    cache = c;
    calls = none;
    results = λ _. none;
    signalled = λ _. false;
    stage = λ _. starting;
  }

module _ {E : Type 0} (hash_key : Bytes → Bytes) (w : World) (k : Bytes)
    (fetch : ℕ → Fetched E) where
  -- A step of a caller, or anything that the cache's other operations do to it.
  pub data Step : Flights E → Flights E → Type 0 where
    look :
        (s : Flights E) (i checked now : ℕ)
        → s.stage i ≡ starting
        → Step s (looked i (fast_path w k checked now s.cache) s)
    join :
        (s : Flights E) (i l : ℕ)
        → s.stage i ≡ missed
        → s.calls ≡ some l
        → Step s (moved i (waiting l) s)
    lead :
        (s : Flights E) (i : ℕ)
        → s.stage i ≡ missed
        → s.calls ≡ none
        → Step s (moved i fetching (record s { calls = some i }))
    run :
        (s : Flights E) (i now : ℕ) (fault : Option PutError)
        → s.stage i ≡ fetching
        → Step s (fetched i (do_fetch hash_key w fault k (fetch i) now s.cache) s)
    signal :
        (s : Flights E) (i : ℕ) (reply : Reply E)
        → s.stage i ≡ closing reply
        → Step s (moved i (leaving reply) (record s { signalled = set i true s.signalled }))
    leave :
        (s : Flights E) (i : ℕ) (reply : Reply E)
        → s.stage i ≡ leaving reply
        → Step s (moved i (finished reply) (record s { calls = none }))
    wake :
        (s : Flights E) (i l : ℕ) (call : Call E)
        → s.stage i ≡ waiting l
        → s.signalled l ≡ true
        → s.results l ≡ some call
        → Step s (moved i (finished (open_call call s.cache)) s)
    elsewhere : (s : Flights E) (c : Cache) → Step s (record s { cache = c })

  pub data Steps (s : Flights E) : Flights E → Type 0 where
    here : Steps s s
    next : {t u : Flights E} → Steps s t → Step t u → Steps s u
