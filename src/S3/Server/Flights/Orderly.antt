-- ===== src/S3/Server/Flights/Orderly.antt =====
-- s3/server.go: what the steps of the callers of `serveCacheable` keep.
use proxykit.Prelude.{
  ℕ, ◌≡◌, refl, Bool, true, false, Option, none, some, ◌==◌, ◌⊎◌, inl, inr, arith, Bool-cases,
}
use proxykit.Prelude.Text.{Bytes}
use proxykit.Cache.State.{World}
use proxykit.Prelude.Updates.{set}
use proxykit.S3.Reply.{Out}
use proxykit.S3.Security.{Signer}
use proxykit.S3.Target.{Url}
use proxykit.S3.Server.{Server, Incoming, Config, Library}
use proxykit.S3.Server.Handler.{lead_flight}
use proxykit.S3.Server.Flights.{
  Stage, starting, looping, waiting, leading, closing, leaving, finished, Flights, moved, ran,
  looked, started, look_up, Step, look, join, lead, wake, run, close, leave, elsewhere, Steps, here,
  next,
}

-- The caller asks upstream, or has not given the key back yet.
abbrev pub is_leading : Stage → Bool
is_leading leading = true
is_leading closing = true
is_leading leaving = true
is_leading _ = false

abbrev has_closed : Stage → Bool
has_closed leaving = true
has_closed _ = false

-- The callers that lead are those whose flight is in the map; a flight is closed before it leaves the map,
-- and nobody waits for a flight that has left it and is open.
pub record IsOrderly (s : Flights) : Type 0 where
  pub leads : (i : ℕ) → is_leading (s.stage i) ≡ true → s.flight ≡ some i
  pub led : (i : ℕ) → s.flight ≡ some i → is_leading (s.stage i) ≡ true
  pub shuts : (i : ℕ) → has_closed (s.stage i) ≡ true → s.closed i ≡ true
  pub waits : (i l : ℕ) → s.stage i ≡ waiting l → (s.flight ≡ some l) ⊎ (s.closed l ≡ true)

started-IsOrderly : (server : Server) (out : ℕ → Out) → IsOrderly (started server out)
unfolding started
started-IsOrderly server out = record {
  leads = λ i h. absurd (ground (arith, h));
  led = λ i h. absurd (ground (arith, h));
  shuts = λ i h. absurd (ground (arith, h));
  waits = λ i l h. absurd (ground (arith, h));
}

quiet : (x : Stage) → is_leading x ≡ false → has_closed x ≡ false
quiet starting h = refl
quiet looping h = refl
quiet (waiting l) h = refl
quiet leading h = refl
quiet closing h = refl
quiet leaving h = absurd (ground (arith, h))
quiet finished h = refl

-- A caller who does not lead may go on to where it neither leads nor waits in vain.
moved-IsOrderly :
    (s : Flights) (i : ℕ) (x : Stage)
    → is_leading (s.stage i) ≡ false
    → is_leading x ≡ false
    → ((l : ℕ) → x ≡ waiting l → (s.flight ≡ some l) ⊎ (s.closed l ≡ true))
    → IsOrderly s
    → IsOrderly (moved i x s)
moved-IsOrderly s i x at to wait o = record {
  leads = λ j h. ground (arith, at, to, h, o.leads j);
  led = λ j h. ground (arith, at, to, h, o.led j);
  shuts = λ j h. ground (arith, quiet x to, h, o.shuts j);
  waits = λ j l h. elim (Bool-cases (j == i)) [
    | inl own ↦ wait l (ground (arith, h, own))
    | inr other ↦ o.waits j l (ground (arith, h, other))
  ];
}

with_server :
    (s : Flights) (server : Server) (out : ℕ → Out)
    → IsOrderly s
    → IsOrderly (record s { server = server; out = out })
with_server s server out o = record {
  leads = o.leads;
  led = o.led;
  shuts = o.shuts;
  waits = o.waits;
}

looked-IsOrderly :
    (s : Flights) (i : ℕ) (x : (Server × Out) × Bool)
    → is_leading (s.stage i) ≡ false
    → IsOrderly s
    → IsOrderly (looked i x s)
unfolding looked ran
looked-IsOrderly s i ((server, o'), true) at o =
    moved-IsOrderly (record s { server = server; out = set i o' s.out }) i finished at refl
      (λ l e. absurd (ground (arith, e))) (with_server s server (set i o' s.out) o)
looked-IsOrderly s i ((server, o'), false) at o =
    moved-IsOrderly (record s { server = server; out = set i o' s.out }) i looping at refl
      (λ l e. absurd (ground (arith, e))) (with_server s server (set i o' s.out) o)

lead-IsOrderly :
    (s : Flights) (i : ℕ)
    → s.stage i ≡ looping
    → s.flight ≡ none
    → IsOrderly s
    → IsOrderly (moved i leading (record s { flight = some i }))
lead-IsOrderly s i at free o = record {
  leads = λ j h. ground (arith, at, free, h, o.leads j);
  led = λ j h. ground (arith, at, free, h, o.led j);
  shuts = λ j h. ground (arith, h, o.shuts j);
  waits = λ j l h. ground (arith, free, h, o.waits j l);
}

run-IsOrderly :
    (s : Flights) (i : ℕ) (x : Server × Out)
    → s.stage i ≡ leading
    → IsOrderly s
    → IsOrderly (ran i x closing s)
unfolding ran
run-IsOrderly s i (server, o') at o = record {
  leads = λ j h. ground (arith, at, h, o.leads j);
  led = λ j h. ground (arith, at, h, o.led j);
  shuts = λ j h. ground (arith, h, o.shuts j);
  waits = λ j l h. ground (arith, at, h, o.waits j l);
}

close-IsOrderly :
    (s : Flights) (i : ℕ)
    → s.stage i ≡ closing
    → IsOrderly s
    → IsOrderly (moved i leaving (record s { closed = set i true s.closed }))
close-IsOrderly s i at o = record {
  leads = λ j h. ground (arith, at, h, o.leads j);
  led = λ j h. ground (arith, at, h, o.led j);
  shuts = λ j h. ground (arith, at, h, o.shuts j);
  waits = λ j l h. ground (arith, h, o.waits j l);
}

leave-IsOrderly :
    (s : Flights) (i : ℕ)
    → s.stage i ≡ leaving
    → IsOrderly s
    → IsOrderly (moved i finished (record s { flight = none }))
leave-IsOrderly s i at o = record {
  leads = λ j h. ground (arith, at, h, o.leads j, o.leads i);
  led = λ j h. ground (arith, h);
  shuts = λ j h. ground (arith, h, o.shuts j);
  waits = λ j l h. ground (arith, at, h, o.waits j l, o.leads i, o.shuts i);
}

module _ (lib : Library) (w : World) (cfg : Config) (key : Bytes) (target : ℕ → Url)
    (signer : ℕ → Option Signer) (incoming : ℕ → Incoming) where
  pub Step-IsOrderly :
      {s t : Flights} → Step lib w cfg key target signer incoming s t → IsOrderly s → IsOrderly t
  Step-IsOrderly (look s i world times at) o =
      looked-IsOrderly s i (look_up lib w cfg key world times (incoming i) (s.server, s.out i))
        (ground (arith, at)) o
  Step-IsOrderly (join s i l at taken) o =
      moved-IsOrderly s i (waiting l) (ground (arith, at)) refl (λ m e. ground (arith, e, taken)) o
  Step-IsOrderly (lead s i at free) o = lead-IsOrderly s i at free o
  Step-IsOrderly (wake s i l world times at done) o =
      looked-IsOrderly s i (look_up lib w cfg key world times (incoming i) (s.server, s.out i))
        (ground (arith, at)) o
  Step-IsOrderly (run s i world times at) o =
      run-IsOrderly s i
        (lead_flight lib w cfg world times (target i) (signer i) key (incoming i)
          (s.server, s.out i))
        at o
  Step-IsOrderly (close s i at) o = close-IsOrderly s i at o
  Step-IsOrderly (leave s i at) o = leave-IsOrderly s i at o
  Step-IsOrderly (elsewhere s server) o = with_server s server s.out o

  -- Whatever the callers do, and whatever else is done to the server, from a start without flights.
  pub Steps-IsOrderly :
      (server : Server) (out : ℕ → Out) {s : Flights}
      → Steps lib w cfg key target signer incoming (started server out) s
      → IsOrderly s
  Steps-IsOrderly server out here = started-IsOrderly server out
  Steps-IsOrderly server out (next before step) =
      Step-IsOrderly step (Steps-IsOrderly server out before)

  -- In every state that the callers of one key can reach, whatever else is done to the server, at most one
  -- of them is in the part in which it asks upstream or has not given the key back.
  pub one_flight :
      (server : Server) (out : ℕ → Out) (s : Flights) (i j : ℕ)
      → Steps lib w cfg key target signer incoming (started server out) s
      → is_leading (s.stage i) ≡ true
      → is_leading (s.stage j) ≡ true
      → i ≡ j
  one_flight server out s i j steps first second =
      let o = Steps-IsOrderly server out steps in ground (arith, o.leads i first, o.leads j second)
