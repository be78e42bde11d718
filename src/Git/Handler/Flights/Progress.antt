-- ===== src/Git/Handler/Flights/Progress.antt =====
-- git/handler.go: the callers for one pack do not block each other for ever, and may fetch it together.
use proxykit.Prelude.{
  ℕ, ◌≡◌, refl, ap, ◌∙◌, true, false, Option, none, some, ◌⊎◌, inl, inr, arith, Option-cases,
}
use proxykit.Prelude.Text.{Bytes}
use proxykit.Prelude.Updates.{set, set_same, set_other}
use proxykit.Http.{Upstream}
use proxykit.Git.Handler.{Answer, Handler, Outside, fetch_pack}
use proxykit.Git.Handler.Flights.{
  Stage, starting, missed, waiting, fetching, closing, leaving, finished, Flights, moved, looked,
  fetched, started, look_up, Step, look, join, lead, wake, fetch, close, leave, Steps, here, next,
}
use proxykit.Git.Handler.Flights.Sound.{IsSound, is_busy, Step-IsSound, Steps-IsSound}

looked_next :
    (s : Flights) (i : ℕ) (x : Stage) (found : Handler × Option Answer)
    → ((looked i x found s).stage i ≡ finished) ⊎ ((looked i x found s).stage i ≡ x)
unfolding looked
looked_next s i x (h, some a) = inl (set_same i finished s.stage)
looked_next s i x (h, none) = inr (set_same i x s.stage)

module _ (key : Bytes) where
  after : {s t u : Flights} → Step key s t → Steps key t u → Steps key s u
  after first here = next here first
  after first (next more last) = next (after first more) last

  append : {s t u : Flights} → Steps key s t → Steps key t u → Steps key s u
  append first here = first
  append first (next more last) = next (append first more) last

  -- The steps lead to a state in which the caller has returned.
  pub record Finishes (s : Flights) (i : ℕ) : Type 0 where
    pub end : Flights
    pub steps : Steps key s end
    pub returned : end.stage i ≡ finished

  step_then : {s t : Flights} (i : ℕ) → Step key s t → Finishes t i → Finishes s i
  step_then i first f = record { end = f.end; steps = after first f.steps; returned = f.returned }

  -- The caller's flight is closed; who is not busy stays where it is.
  record Closes (s : Flights) (l : ℕ) : Type 0 where
    end : Flights
    steps : Steps key s end
    shut : end.closed l ≡ true
    others : (j : ℕ) → is_busy (s.stage j) ≡ false → end.stage j ≡ s.stage j

  closing-Closes : (s : Flights) (l : ℕ) → s.stage l ≡ closing → Closes s l
  closing-Closes s l at = record {
    end = moved l leaving (record s { closed = set l true s.closed });
    steps = next here (close s l at);
    shut = set_same l true s.closed;
    others = λ j idle. set_other is_busy l j leaving s.stage (ground (arith, at)) idle;
  }

  leaving-Finishes : (s : Flights) (i : ℕ) → s.stage i ≡ leaving → Finishes s i
  leaving-Finishes s i at = record {
    end = moved i finished (record s { flight = none });
    steps = next here (leave s i at);
    returned = set_same i finished s.stage;
  }

  closing-Finishes : (s : Flights) (i : ℕ) → s.stage i ≡ closing → Finishes s i
  closing-Finishes s i at =
      step_then i (close s i at) (leaving-Finishes _ i (set_same i leaving s.stage))

  module _ (o : Outside) (up : Upstream) where
    fetched_next : (s : Flights) (i : ℕ) (x : Handler × Answer) → (fetched i x s).stage i ≡ closing
    unfolding fetched
    fetched_next s i (h, a) = set_same i closing s.stage

    fetched_other :
        (s : Flights) (l j : ℕ) (x : Handler × Answer)
        → s.stage l ≡ fetching
        → is_busy (s.stage j) ≡ false
        → (fetched l x s).stage j ≡ s.stage j
    unfolding fetched
    fetched_other s l j (h, a) at idle =
        set_other is_busy l j closing s.stage (ground (arith, at)) idle

    fetching-Finishes : (s : Flights) (i : ℕ) → s.stage i ≡ fetching → Finishes s i
    fetching-Finishes s i at =
        step_then i (fetch s i o up at)
          (closing-Finishes _ i (fetched_next s i (fetch_pack o key up s.handler)))

    fetching-Closes : (s : Flights) (l : ℕ) → s.stage l ≡ fetching → Closes s l
    fetching-Closes s l at =
        let x = fetch_pack o key up s.handler in
        let c = closing-Closes (fetched l x s) l (fetched_next s l x) in
        record {
          end = c.end;
          steps = after (fetch s l o up at) c.steps;
          shut = c.shut;
          others = λ j idle.
              (let kept = fetched_other s l j x at idle in
                c.others j (ap is_busy kept ∙ idle) ∙ kept);
        }

    busy-Closes : (s : Flights) (l : ℕ) → IsSound s → is_busy (s.stage l) ≡ true → Closes s l
    busy-Closes s l sound busy = by_stage (s.stage l) refl
      where
        by_stage : (x : Stage) → s.stage l ≡ x → Closes s l
        by_stage fetching at = fetching-Closes s l at
        by_stage closing at = closing-Closes s l at
        by_stage leaving at = record {
          end = s;
          steps = here;
          shut = sound.shuts l (ground (arith, at));
          others = λ j idle. refl;
        }
        by_stage starting at = absurd (ground (arith, busy, at))
        by_stage missed at = absurd (ground (arith, busy, at))
        by_stage (waiting m) at = absurd (ground (arith, busy, at))
        by_stage finished at = absurd (ground (arith, busy, at))

    woken-Finishes :
        (s : Flights) (i l : ℕ) → s.stage i ≡ waiting l → s.closed l ≡ true → Finishes s i
    woken-Finishes s i l at shut =
        let x = look_up key o s.handler in
        step_then i (wake s i l o at shut) (elim (looked_next s i fetching x) [
          | inl back ↦ record { end = looked i fetching x s; steps = here; returned = back }
          | inr again ↦ fetching-Finishes (looked i fetching x s) i again
        ])

    waiting-Finishes : (s : Flights) (i l : ℕ) → IsSound s → s.stage i ≡ waiting l → Finishes s i
    waiting-Finishes s i l sound at = elim (sound.waits i l at) [
      | inr shut ↦ woken-Finishes s i l at shut
      | inl busy ↦
          let c = busy-Closes s l sound busy in
          let f = woken-Finishes c.end i l (c.others i (ground (arith, at)) ∙ at) c.shut in
          record { end = f.end; steps = append c.steps f.steps; returned = f.returned }
    ]

    missed-Finishes : (s : Flights) (i : ℕ) → IsSound s → s.stage i ≡ missed → Finishes s i
    missed-Finishes s i sound at = elim (Option-cases s.flight) [
      | inl free ↦
          step_then i (lead s i at free) (fetching-Finishes _ i (set_same i fetching s.stage))
      | inr (l, taken) ↦
          let first = join s i l at taken in
          step_then i first
            (waiting-Finishes _ i l (Step-IsSound key first sound) (set_same i (waiting l) s.stage))
    ]

    starting-Finishes : (s : Flights) (i : ℕ) → IsSound s → s.stage i ≡ starting → Finishes s i
    starting-Finishes s i sound at =
        let x = look_up key o s.handler in
        let first = look s i o at in
        step_then i first (elim (looked_next s i missed x) [
          | inl back ↦ record { end = looked i missed x s; steps = here; returned = back }
          | inr again ↦ missed-Finishes (looked i missed x s) i (Step-IsSound key first sound) again
        ])

    -- From every state that the callers for one pack can reach, steps lead to the return of every caller,
    -- whatever the upstream server, the file system and the clock do in them.
    pub clone_returns : (h : Handler) (s : Flights) (i : ℕ) → Steps key (started h) s → Finishes s i
    clone_returns h s i steps = from (s.stage i) refl
      where
        sound : IsSound s
        sound = Steps-IsSound key h steps

        from : (x : Stage) → s.stage i ≡ x → Finishes s i
        from starting at = starting-Finishes s i sound at
        from missed at = missed-Finishes s i sound at
        from (waiting l) at = waiting-Finishes s i l sound at
        from fetching at = fetching-Finishes s i at
        from closing at = closing-Finishes s i at
        from leaving at = leaving-Finishes s i at
        from finished at = record { end = s; steps = here; returned = at }
