-- ===== src/Cache/Fetch/Flights/Orderly.antt =====
-- cache/cache.go: what the steps of the callers of `GetOrFetch` keep.
use proxykit.Prelude.{
  ℕ, ◌≡◌, refl, Bool, true, false, Option, none, some, ◌==◌, ◌⊎◌, inl, inr, arith, Bool-cases,
}
use proxykit.Prelude.Updates.{set}
use proxykit.Prelude.Text.{Bytes}
use proxykit.Cache.State.{Cache, World}
use proxykit.Cache.Fetch.{Fetched, Call, Reply, opened, fast_path, do_fetch, open_call}
use proxykit.Cache.Fetch.Flights.{
  Stage, starting, missed, waiting, fetching, closing, leaving, finished, Flights, Step, look, join,
  lead, run, signal, leave, wake, elsewhere, Steps, here, next, moved, looked, fetched, started,
}

module _ {E : Type 0} where
  -- The caller runs the callback, or has not given the key back yet.
  abbrev pub is_leading : Stage E → Bool
  is_leading fetching = true
  is_leading (closing _) = true
  is_leading (leaving _) = true
  is_leading _ = false

  abbrev has_result : Stage E → Bool
  has_result (closing _) = true
  has_result (leaving _) = true
  has_result _ = false

  abbrev has_signalled : Stage E → Bool
  has_signalled (leaving _) = true
  has_signalled _ = false

  abbrev pub is_some : Option (Call E) → Bool
  is_some none = false
  is_some (some _) = true

  -- The callers that lead are those whose call is in the map; a call has its result before it is
  -- signalled, and is signalled before it leaves the map; nobody waits for a call that has left the
  -- map without both.
  pub record IsOrderly (s : Flights E) : Type 0 where
    pub leads : (i : ℕ) → is_leading (s.stage i) ≡ true → s.calls ≡ some i
    pub led : (i : ℕ) → s.calls ≡ some i → is_leading (s.stage i) ≡ true
    pub answers : (i : ℕ) → has_result (s.stage i) ≡ true → is_some (s.results i) ≡ true
    pub wakes : (i : ℕ) → has_signalled (s.stage i) ≡ true → s.signalled i ≡ true
    pub waits :
        (i l : ℕ)
        → s.stage i ≡ waiting l
        → (s.calls ≡ some l) ⊎ ((s.signalled l ≡ true) × (is_some (s.results l) ≡ true))

  started-IsOrderly : (c : Cache) → IsOrderly (started c)
  unfolding started
  started-IsOrderly c = record {
    leads = λ i h. absurd (ground (arith, h));
    led = λ i h. absurd (ground (arith, h));
    answers = λ i h. absurd (ground (arith, h));
    wakes = λ i h. absurd (ground (arith, h));
    waits = λ i l h. absurd (ground (arith, h));
  }

  quiet : (x : Stage E) → is_leading x ≡ false → (has_result x ≡ false) × (has_signalled x ≡ false)
  quiet starting h = (refl, refl)
  quiet missed h = (refl, refl)
  quiet (waiting l) h = (refl, refl)
  quiet fetching h = absurd (ground (arith, h))
  quiet (closing r) h = absurd (ground (arith, h))
  quiet (leaving r) h = absurd (ground (arith, h))
  quiet (finished r) h = (refl, refl)

  -- A caller who does not lead may go on to where it neither leads nor waits in vain.
  moved-IsOrderly :
      (s : Flights E) (i : ℕ) (x : Stage E)
      → is_leading (s.stage i) ≡ false
      → is_leading x ≡ false
      → ((l : ℕ)
          → x ≡ waiting l
          → (s.calls ≡ some l) ⊎ ((s.signalled l ≡ true) × (is_some (s.results l) ≡ true)))
      → IsOrderly s
      → IsOrderly (moved i x s)
  moved-IsOrderly s i x at to wait o = record {
    leads = λ j h. ground (arith, at, to, h, o.leads j);
    led = λ j h. ground (arith, at, to, h, o.led j);
    answers = λ j h. ground (arith, quiet x to, h, o.answers j);
    wakes = λ j h. ground (arith, quiet x to, h, o.wakes j);
    waits = λ j l h. elim (Bool-cases (j == i)) [
      | inl own ↦ wait l (ground (arith, h, own))
      | inr other ↦ o.waits j l (ground (arith, h, other))
    ];
  }

  with_cache : (s : Flights E) (c : Cache) → IsOrderly s → IsOrderly (record s { cache = c })
  with_cache s c o = record {
    leads = o.leads;
    led = o.led;
    answers = o.answers;
    wakes = o.wakes;
    waits = o.waits;
  }

  looked-IsOrderly :
      (s : Flights E) (i : ℕ) (x : Cache × Option Bytes)
      → s.stage i ≡ starting
      → IsOrderly s
      → IsOrderly (looked i x s)
  unfolding looked
  looked-IsOrderly s i (c, some body) at o =
      moved-IsOrderly (record s { cache = c }) i (finished (opened body)) (ground (arith, at)) refl
        (λ l e. absurd (ground (arith, e))) (with_cache s c o)
  looked-IsOrderly s i (c, none) at o =
      moved-IsOrderly (record s { cache = c }) i missed (ground (arith, at)) refl
        (λ l e. absurd (ground (arith, e))) (with_cache s c o)

  lead-IsOrderly :
      (s : Flights E) (i : ℕ)
      → s.stage i ≡ missed
      → s.calls ≡ none
      → IsOrderly s
      → IsOrderly (moved i fetching (record s { calls = some i }))
  lead-IsOrderly s i at free o = record {
    leads = λ j h. ground (arith, at, free, h, o.leads j);
    led = λ j h. ground (arith, at, free, h, o.led j);
    answers = λ j h. ground (arith, h, o.answers j);
    wakes = λ j h. ground (arith, h, o.wakes j);
    waits = λ j l h. ground (arith, free, h, o.waits j l);
  }

  fetched-IsOrderly :
      (s : Flights E) (i : ℕ) (x : Cache × Call E)
      → s.stage i ≡ fetching
      → IsOrderly s
      → IsOrderly (fetched i x s)
  unfolding fetched
  fetched-IsOrderly s i (c, call) at o = record {
    leads = λ j h. ground (arith, at, h, o.leads j);
    led = λ j h. ground (arith, at, h, o.led j);
    answers = λ j h. ground (arith, h, o.answers j);
    wakes = λ j h. ground (arith, h, o.wakes j);
    waits = λ j l h. ground (arith, at, h, o.waits j l);
  }

  signal-IsOrderly :
      (s : Flights E) (i : ℕ) (reply : Reply E)
      → s.stage i ≡ closing reply
      → IsOrderly s
      → IsOrderly (moved i (leaving reply) (record s { signalled = set i true s.signalled }))
  signal-IsOrderly s i reply at o = record {
    leads = λ j h. ground (arith, at, h, o.leads j);
    led = λ j h. ground (arith, at, h, o.led j);
    answers = λ j h. ground (arith, at, h, o.answers j);
    wakes = λ j h. ground (arith, h, o.wakes j);
    waits = λ j l h. ground (arith, h, o.waits j l);
  }

  leave-IsOrderly :
      (s : Flights E) (i : ℕ) (reply : Reply E)
      → s.stage i ≡ leaving reply
      → IsOrderly s
      → IsOrderly (moved i (finished reply) (record s { calls = none }))
  leave-IsOrderly s i reply at o = record {
    leads = λ j h. ground (arith, at, h, o.leads j, o.leads i);
    led = λ j h. ground (arith, h);
    answers = λ j h. ground (arith, h, o.answers j);
    wakes = λ j h. ground (arith, h, o.wakes j);
    waits = λ j l h. ground (arith, at, h, o.waits j l, o.leads i, o.answers i, o.wakes i);
  }

module _ {E : Type 0} (hash_key : Bytes → Bytes) (w : World) (k : Bytes)
    (fetch : ℕ → Fetched E) where
  pub Step-IsOrderly : {s t : Flights E} → Step hash_key w k fetch s t → IsOrderly s → IsOrderly t
  Step-IsOrderly (look s i checked now at) o =
      looked-IsOrderly s i (fast_path w k checked now s.cache) at o
  Step-IsOrderly (join s i l at taken) o =
      moved-IsOrderly s i (waiting l) (ground (arith, at)) refl (λ m e. ground (arith, e, taken)) o
  Step-IsOrderly (lead s i at free) o = lead-IsOrderly s i at free o
  Step-IsOrderly (run s i now fault at) o =
      fetched-IsOrderly s i (do_fetch hash_key w fault k (fetch i) now s.cache) at o
  Step-IsOrderly (signal s i reply at) o = signal-IsOrderly s i reply at o
  Step-IsOrderly (leave s i reply at) o = leave-IsOrderly s i reply at o
  Step-IsOrderly (wake s i l call at done result) o =
      moved-IsOrderly s i (finished (open_call call s.cache)) (ground (arith, at)) refl
        (λ m e. absurd (ground (arith, e))) o
  Step-IsOrderly (elsewhere s c) o = with_cache s c o

  -- Whatever the callers do, and whatever else is done to the cache, from a start without calls.
  pub Steps-IsOrderly :
      (c : Cache) {s : Flights E} → Steps hash_key w k fetch (started c) s → IsOrderly s
  Steps-IsOrderly c here = started-IsOrderly c
  Steps-IsOrderly c (next before step) = Step-IsOrderly step (Steps-IsOrderly c before)

  -- No two callers of one key run the callback at the same time.
  pub one_leader :
      (c : Cache) (s : Flights E) (i j : ℕ)
      → Steps hash_key w k fetch (started c) s
      → is_leading (s.stage i) ≡ true
      → is_leading (s.stage j) ≡ true
      → i ≡ j
  one_leader c s i j steps first second =
      let o = Steps-IsOrderly c steps in ground (arith, o.leads i first, o.leads j second)
