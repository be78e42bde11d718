-- ===== src/S3/Server/Flights/Progress.antt =====
-- s3/server.go: the callers of `serveCacheable` do not block each other for ever.
use proxykit.Prelude.{
  ℕ, ◌≡◌, refl, ap, ◌∙◌, Bool, true, false, Option, none, some, ◌⊎◌, inl, inr, arith, Option-cases,
}
use proxykit.Prelude.Text.{Bytes}
use proxykit.Cache.State.{World}
use proxykit.Prelude.Updates.{set, set_same, set_other}
use proxykit.S3.Reply.{Out}
use proxykit.S3.Security.{Signer}
use proxykit.S3.Target.{Url}
use proxykit.S3.Server.{Server, Incoming, Config, Library, Outside, Times}
use proxykit.S3.Server.Handler.{lead_flight}
use proxykit.S3.Server.Flights.{
  Stage, starting, looping, waiting, leading, closing, leaving, finished, Flights, moved, ran,
  looked, started, look_up, Step, look, lead, wake, run, close, leave, Steps, here, next,
}
use proxykit.S3.Server.Flights.Orderly.{IsOrderly, is_leading, Step-IsOrderly, Steps-IsOrderly}

looked_next :
    (s : Flights) (i : ℕ) (x : (Server × Out) × Bool)
    → ((looked i x s).stage i ≡ finished) ⊎ ((looked i x s).stage i ≡ looping)
unfolding looked ran
looked_next s i ((server, o), true) = inl (set_same i finished s.stage)
looked_next s i ((server, o), false) = inr (set_same i looping s.stage)

module _ (lib : Library) (w : World) (cfg : Config) (key : Bytes) (target : ℕ → Url)
    (signer : ℕ → Option Signer) (incoming : ℕ → Incoming) where
  abbrev Runs : Flights → Flights → Type 0
  Runs = Steps lib w cfg key target signer incoming

  after : {s t u : Flights} → Step lib w cfg key target signer incoming s t → Runs t u → Runs s u
  after first here = next here first
  after first (next more last) = next (after first more) last

  append : {s t u : Flights} → Runs s t → Runs t u → Runs s u
  append first here = first
  append first (next more last) = next (append first more) last

  Runs-IsOrderly : {s t : Flights} → Runs s t → IsOrderly s → IsOrderly t
  Runs-IsOrderly here o = o
  Runs-IsOrderly (next before step) o =
      Step-IsOrderly lib w cfg key target signer incoming step (Runs-IsOrderly before o)

  -- The steps lead to a state in which the caller has returned.
  pub record Finishes (s : Flights) (i : ℕ) : Type 0 where
    pub end : Flights
    pub steps : Steps lib w cfg key target signer incoming s end
    pub returned : end.stage i ≡ finished

  step_then :
      {s t : Flights} (i : ℕ)
      → Step lib w cfg key target signer incoming s t
      → Finishes t i
      → Finishes s i
  step_then i first f = record { end = f.end; steps = after first f.steps; returned = f.returned }

  -- The leader's flight leaves the map, closed; who does not lead stays where it is.
  record Drains (s : Flights) (l : ℕ) : Type 0 where
    end : Flights
    steps : Runs s end
    free : end.flight ≡ none
    shut : end.closed l ≡ true
    others : (j : ℕ) → is_leading (s.stage j) ≡ false → end.stage j ≡ s.stage j
    own : end.stage l ≡ finished

  leaving-Drains : (s : Flights) (l : ℕ) → s.stage l ≡ leaving → s.closed l ≡ true → Drains s l
  leaving-Drains s l at shut = record {
    end = moved l finished (record s { flight = none });
    steps = next here (leave s l at);
    free = refl;
    shut = shut;
    others = λ j h. set_other is_leading l j finished s.stage (ground (arith, at)) h;
    own = set_same l finished s.stage;
  }

  closing-Drains : (s : Flights) (l : ℕ) → s.stage l ≡ closing → Drains s l
  closing-Drains s l at =
      let t = moved l leaving (record s { closed = set l true s.closed }) in
      let d = leaving-Drains t l (set_same l leaving s.stage) (set_same l true s.closed) in
      record {
        end = d.end;
        steps = after (close s l at) d.steps;
        free = d.free;
        shut = d.shut;
        others = λ j h.
            (let kept = set_other is_leading l j leaving s.stage (ground (arith, at)) h in
              d.others j (ap is_leading kept ∙ h) ∙ kept);
        own = d.own;
      }

  module _ (world : Outside) (times : Times) where
    led : Flights → ℕ → Flights
    led s l =
        ran l
          (lead_flight lib w cfg world times (target l) (signer l) key (incoming l)
            (s.server, s.out l))
          closing s

    leading-Drains : (s : Flights) (l : ℕ) → s.stage l ≡ leading → Drains s l
    unfolding led ran
    leading-Drains s l at =
        let d = closing-Drains (led s l) l (set_same l closing s.stage) in
        record {
          end = d.end;
          steps = after (run s l world times at) d.steps;
          free = d.free;
          shut = d.shut;
          others = λ j h.
              (let kept = set_other is_leading l j closing s.stage (ground (arith, at)) h in
                d.others j (ap is_leading kept ∙ h) ∙ kept);
          own = d.own;
        }

    any-Drains : (s : Flights) (l : ℕ) → IsOrderly s → is_leading (s.stage l) ≡ true → Drains s l
    any-Drains s l o leads = by_stage (s.stage l) refl
      where
        by_stage : (x : Stage) → s.stage l ≡ x → Drains s l
        by_stage leading at = leading-Drains s l at
        by_stage closing at = closing-Drains s l at
        by_stage leaving at = leaving-Drains s l at (o.shuts l (ground (arith, at)))
        by_stage starting at = absurd (ground (arith, leads, at))
        by_stage looping at = absurd (ground (arith, leads, at))
        by_stage (waiting m) at = absurd (ground (arith, leads, at))
        by_stage finished at = absurd (ground (arith, leads, at))

    drained-Finishes : (s : Flights) (i : ℕ) → Drains s i → Finishes s i
    drained-Finishes s i d = record { end = d.end; steps = d.steps; returned = d.own }

    drain_then : (s : Flights) (l i : ℕ) (d : Drains s l) → Finishes d.end i → Finishes s i
    drain_then s l i d f = record {
      end = f.end;
      steps = append d.steps f.steps;
      returned = f.returned;
    }

    free-Finishes : (s : Flights) (i : ℕ) → s.stage i ≡ looping → s.flight ≡ none → Finishes s i
    free-Finishes s i at free =
        let t = moved i leading (record s { flight = some i }) in
        step_then i (lead s i at free)
          (drained-Finishes t i (leading-Drains t i (set_same i leading s.stage)))

    looping-Finishes : (s : Flights) (i : ℕ) → IsOrderly s → s.stage i ≡ looping → Finishes s i
    looping-Finishes s i o at = elim (Option-cases s.flight) [
      | inl free ↦ free-Finishes s i at free
      | inr (l, taken) ↦
          let d = any-Drains s l o (o.led l taken) in
          drain_then s l i d (free-Finishes d.end i (d.others i (ground (arith, at)) ∙ at) d.free)
    ]

    -- Behind a look of a caller who does not lead.
    looked-Finishes :
        (s : Flights) (i : ℕ)
        → let t = looked i (look_up lib w cfg key world times (incoming i) (s.server, s.out i)) s in
          IsOrderly t → Finishes t i
    looked-Finishes s i o =
        let x = look_up lib w cfg key world times (incoming i) (s.server, s.out i) in
        elim (looked_next s i x) [
          | inl back ↦ record { end = looked i x s; steps = here; returned = back }
          | inr again ↦ looping-Finishes (looked i x s) i o again
        ]

    starting-Finishes : (s : Flights) (i : ℕ) → IsOrderly s → s.stage i ≡ starting → Finishes s i
    starting-Finishes s i o at =
        let first = look s i world times at in
        step_then i first
          (looked-Finishes s i (Step-IsOrderly lib w cfg key target signer incoming first o))

    woken-Finishes :
        (s : Flights) (i l : ℕ)
        → IsOrderly s
        → s.stage i ≡ waiting l
        → s.closed l ≡ true
        → Finishes s i
    woken-Finishes s i l o at shut =
        let first = wake s i l world times at shut in
        step_then i first
          (looked-Finishes s i (Step-IsOrderly lib w cfg key target signer incoming first o))

    waiting-Finishes : (s : Flights) (i l : ℕ) → IsOrderly s → s.stage i ≡ waiting l → Finishes s i
    waiting-Finishes s i l o at = elim (o.waits i l at) [
      | inr shut ↦ woken-Finishes s i l o at shut
      | inl taken ↦
          let d = any-Drains s l o (o.led l taken) in
          drain_then s l i d (
            woken-Finishes d.end i l (Runs-IsOrderly d.steps o)
              (d.others i (ground (arith, at)) ∙ at) d.shut)
    ]

    -- From every state that the callers of one key can reach, steps lead to the return of every caller,
    -- whatever the upstream server answers and the clock shows in them.
    pub caller_served :
        (server : Server) (out : ℕ → Out) (s : Flights) (i : ℕ)
        → Steps lib w cfg key target signer incoming (started server out) s
        → Finishes s i
    caller_served server out s i steps = from (s.stage i) refl
      where
        o : IsOrderly s
        o = Steps-IsOrderly lib w cfg key target signer incoming server out steps

        from : (x : Stage) → s.stage i ≡ x → Finishes s i
        from starting at = starting-Finishes s i o at
        from looping at = looping-Finishes s i o at
        from (waiting l) at = waiting-Finishes s i l o at
        from leading at = drained-Finishes s i (leading-Drains s i at)
        from closing at = drained-Finishes s i (closing-Drains s i at)
        from leaving at =
            drained-Finishes s i (leaving-Drains s i at (o.shuts i (ground (arith, at))))
        from finished at = record { end = s; steps = here; returned = at }
