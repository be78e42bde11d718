-- ===== src/Cache/Fetch/Flights/Progress.antt =====
-- cache/cache.go: the callers of `GetOrFetch` do not block each other for ever.
use proxykit.Prelude.{
  ℕ, ◌≡◌, refl, ap, true, false, Option, none, some, ◌==◌, ◌⊎◌, inl, inr, arith, Bool-cases,
  Option-cases,
}
use proxykit.Prelude.Updates.{set_same}
use proxykit.Prelude.Text.{Bytes}
use proxykit.Cache.State.{Cache, World}
use proxykit.Cache.Fetch.{Fetched, Call, Reply, opened, fast_path, do_fetch, open_call}
use proxykit.Cache.Fetch.Flights.{
  Stage, starting, missed, waiting, fetching, closing, leaving, finished, Flights, Step, look, join,
  lead, run, signal, leave, wake, Steps, here, next, moved, looked, fetched, started,
}
use proxykit.Cache.Fetch.Flights.Orderly.{
  IsOrderly, Steps-IsOrderly, Step-IsOrderly, is_leading, is_some,
}

module _ {E : Type 0} (hash_key : Bytes → Bytes) (w : World) (k : Bytes)
    (fetch : ℕ → Fetched E) where
  after :
      {s t u : Flights E}
      → Step hash_key w k fetch s t
      → Steps hash_key w k fetch t u
      → Steps hash_key w k fetch s u
  after first here = next here first
  after first (next more last) = next (after first more) last

  -- The steps lead to a state in which the caller has returned.
  pub record Finishes (s : Flights E) (i : ℕ) : Type 0 where
    pub end : Flights E
    pub reply : Reply E
    pub steps : Steps hash_key w k fetch s end
    returned : end.stage i ≡ finished reply

  step_then : {s t : Flights E} (i : ℕ) → Step hash_key w k fetch s t → Finishes t i → Finishes s i
  step_then i first f = record {
    end = f.end;
    reply = f.reply;
    steps = after first f.steps;
    returned = f.returned;
  }

  leaving-Finishes :
      (s : Flights E) (i : ℕ) (reply : Reply E) → s.stage i ≡ leaving reply → Finishes s i
  leaving-Finishes s i reply at = record {
    end = moved i (finished reply) (record s { calls = none });
    reply = reply;
    steps = next here (leave s i reply at);
    returned = set_same i (finished reply) s.stage;
  }

  closing-Finishes :
      (s : Flights E) (i : ℕ) (reply : Reply E) → s.stage i ≡ closing reply → Finishes s i
  closing-Finishes s i reply at =
      step_then i (signal s i reply at)
        (leaving-Finishes _ i reply (set_same i (leaving reply) s.stage))

  closing_next :
      (s : Flights E) (i : ℕ) (x : Cache × Call E)
      → (fetched i x s).stage i ≡ closing (open_call x.1 x.0)
  unfolding fetched
  closing_next s i (c, call) = set_same i (closing (open_call call c)) s.stage

  fetching-Finishes : (s : Flights E) (i : ℕ) → s.stage i ≡ fetching → Finishes s i
  fetching-Finishes s i at =
      step_then i (run s i 0 none at)
        (closing-Finishes _ i _ (closing_next s i (do_fetch hash_key w none k (fetch i) 0 s.cache)))

  -- A caller who waits for a call that was signalled with a result.
  woken-Finishes :
      (s : Flights E) (i l : ℕ)
      → s.stage i ≡ waiting l
      → s.signalled l ≡ true
      → is_some (s.results l) ≡ true
      → Finishes s i
  woken-Finishes s i l at done result = elim (Option-cases (s.results l)) [
    | inl missing ↦ absurd (ground (arith, missing, result))
    | inr (call, there) ↦ record {
      end = moved i (finished (open_call call s.cache)) s;
      reply = open_call call s.cache;
      steps = next here (wake s i l call at done there);
      returned = set_same i (finished (open_call call s.cache)) s.stage;
    }
  ]

  woken_closing :
      (s : Flights E) (i l : ℕ) (reply : Reply E)
      → s.stage i ≡ waiting l
      → s.stage l ≡ closing reply
      → is_some (s.results l) ≡ true
      → Finishes s i
  woken_closing s i l reply at leader result =
      let other : (i == l) ≡ false = elim (Bool-cases (i == l)) [
        | inl same ↦ absurd (ground (arith, at, leader, same))
        | inr apart ↦ apart
      ] in
      step_then i (signal s l reply leader)
        (woken-Finishes _ i l (ground (arith, other, at)) (set_same l true s.signalled) result)

  fetched_waiting :
      (s : Flights E) (i l : ℕ) (x : Cache × Call E)
      → s.stage i ≡ waiting l
      → s.stage l ≡ fetching
      → ((fetched l x s).stage i ≡ waiting l) × (is_some ((fetched l x s).results l) ≡ true)
  unfolding fetched
  fetched_waiting s i l (c, call) at leader = (
    elim (Bool-cases (i == l)) [
      | inl same ↦ absurd (ground (arith, at, leader, same))
      | inr apart ↦ ground (arith, apart, at)
    ],
    ap is_some (set_same l (some call) s.results),
  )

  waiting-Finishes : (s : Flights E) (i l : ℕ) → IsOrderly s → s.stage i ≡ waiting l → Finishes s i
  waiting-Finishes s i l o at = elim (o.waits i l at) [
    | inr (done, result) ↦ woken-Finishes s i l at done result
    | inl taken ↦ by_leader (s.stage l) (o.led l taken) refl
  ]
    where
      by_leader : (x : Stage E) → is_leading (s.stage l) ≡ true → s.stage l ≡ x → Finishes s i
      by_leader fetching leads leader =
          let x = do_fetch hash_key w none k (fetch l) 0 s.cache in
          let (still, result) = fetched_waiting s i l x at leader in
          step_then i (run s l 0 none leader)
            (woken_closing (fetched l x s) i l _ still (closing_next s l x) result)
      by_leader (closing reply) leads leader =
          woken_closing s i l reply at leader (o.answers l (ground (arith, leader)))
      by_leader (leaving reply) leads leader =
          woken-Finishes s i l at (o.wakes l (ground (arith, leader)))
            (o.answers l (ground (arith, leader)))
      by_leader starting leads leader = absurd (ground (arith, leads, leader))
      by_leader missed leads leader = absurd (ground (arith, leads, leader))
      by_leader (waiting m) leads leader = absurd (ground (arith, leads, leader))
      by_leader (finished reply) leads leader = absurd (ground (arith, leads, leader))

  missed-Finishes : (s : Flights E) (i : ℕ) → IsOrderly s → s.stage i ≡ missed → Finishes s i
  missed-Finishes s i o at = elim (Option-cases s.calls) [
    | inl free ↦
        step_then i (lead s i at free) (fetching-Finishes _ i (set_same i fetching s.stage))
    | inr (l, taken) ↦
        let first = join s i l at taken in
        step_then i first (
          waiting-Finishes _ i l (Step-IsOrderly hash_key w k fetch first o)
            (set_same i (waiting l) s.stage))
  ]

  looked_next :
      (s : Flights E) (i : ℕ) (x : Cache × Option Bytes)
      → ((looked i x s).stage i ≡ missed)
        ⊎ ((reply : Reply E) × ((looked i x s).stage i ≡ finished reply))
  unfolding looked
  looked_next s i (c, none) = inl (set_same i missed s.stage)
  looked_next s i (c, some body) = inr (opened body, set_same i (finished (opened body)) s.stage)

  starting-Finishes : (s : Flights E) (i : ℕ) → IsOrderly s → s.stage i ≡ starting → Finishes s i
  starting-Finishes s i o at =
      let first = look s i 0 0 at in
      let t = looked i (fast_path w k 0 0 s.cache) s in
      elim (looked_next s i (fast_path w k 0 0 s.cache)) [
        | inl miss ↦
            step_then i first (missed-Finishes t i (Step-IsOrderly hash_key w k fetch first o) miss)
        | inr (reply, returned) ↦ record {
          end = t;
          reply = reply;
          steps = next here first;
          returned = returned;
        }
      ]

  -- From every state that the callers can reach, steps lead to the return of every caller,
  -- whatever the callbacks do.
  pub caller_returns :
      (c : Cache) (s : Flights E) (i : ℕ) → Steps hash_key w k fetch (started c) s → Finishes s i
  caller_returns c s i steps = from (s.stage i) refl
    where
      from : (x : Stage E) → s.stage i ≡ x → Finishes s i
      from starting at = starting-Finishes s i (Steps-IsOrderly hash_key w k fetch c steps) at
      from missed at = missed-Finishes s i (Steps-IsOrderly hash_key w k fetch c steps) at
      from (waiting l) at = waiting-Finishes s i l (Steps-IsOrderly hash_key w k fetch c steps) at
      from fetching at = fetching-Finishes s i at
      from (closing reply) at = closing-Finishes s i reply at
      from (leaving reply) at = leaving-Finishes s i reply at
      from (finished reply) at = record { end = s; reply = reply; steps = here; returned = at }
