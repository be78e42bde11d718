-- ===== src/Git/Handler/Flights/Sound.antt =====
-- git/handler.go: what the steps of the callers for one pack keep.
use proxykit.Prelude.{
  ℕ, ◌≡◌, refl, Bool, true, false, Option, none, some, ◌==◌, ◌⊎◌, inl, inr, arith, Bool-cases,
}
use proxykit.Prelude.Text.{Bytes}
use proxykit.Prelude.Updates.{set}
use proxykit.Git.Handler.{Answer, Handler, fetch_pack}
use proxykit.Git.Handler.Flights.{
  Stage, starting, missed, waiting, fetching, closing, leaving, finished, Flights, moved, looked,
  fetched, started, look_up, Step, look, join, lead, wake, fetch, close, leave, elsewhere, Steps,
  here, next,
}

-- The caller asks upstream, or has not deleted the key yet.
abbrev pub is_busy : Stage → Bool
is_busy fetching = true
is_busy closing = true
is_busy leaving = true
is_busy _ = false

abbrev has_closed : Stage → Bool
has_closed leaving = true
has_closed _ = false

-- The flight in the map is of a caller who is busy; a flight is closed before its caller leaves, and
-- nobody waits for a caller who is not busy and has not closed its flight.
pub record IsSound (s : Flights) : Type 0 where
  registered : (l : ℕ) → s.flight ≡ some l → is_busy (s.stage l) ≡ true
  pub shuts : (i : ℕ) → has_closed (s.stage i) ≡ true → s.closed i ≡ true
  pub waits : (i l : ℕ) → s.stage i ≡ waiting l → (is_busy (s.stage l) ≡ true) ⊎ (s.closed l ≡ true)

started-IsSound : (h : Handler) → IsSound (started h)
unfolding started
started-IsSound h = record {
  registered = λ l e. absurd (ground (arith, e));
  shuts = λ i e. absurd (ground (arith, e));
  waits = λ i l e. absurd (ground (arith, e));
}

quiet : (x : Stage) → is_busy x ≡ false → has_closed x ≡ false
quiet starting h = refl
quiet missed h = refl
quiet (waiting l) h = refl
quiet fetching h = refl
quiet closing h = refl
quiet leaving h = absurd (ground (arith, h))
quiet finished h = refl

-- A caller who is not busy may go on to where it does not wait in vain and has closed nothing.
moved-IsSound :
    (s : Flights) (i : ℕ) (x : Stage)
    → is_busy (s.stage i) ≡ false
    → has_closed x ≡ false
    → ((l : ℕ) → x ≡ waiting l → (is_busy (s.stage l) ≡ true) ⊎ (s.closed l ≡ true))
    → IsSound s
    → IsSound (moved i x s)
moved-IsSound s i x at ajar wait o = record {
  registered = λ l h. ground (arith, at, h, o.registered l);
  shuts = λ j h. ground (arith, ajar, h, o.shuts j);
  waits = λ j l h. elim (Bool-cases (j == i)) [
    | inl own ↦ still l (wait l (ground (arith, h, own)))
    | inr other ↦ still l (o.waits j l (ground (arith, h, other)))
  ];
}
  where
    still :
        (l : ℕ)
        → (is_busy (s.stage l) ≡ true) ⊎ (s.closed l ≡ true)
        → (is_busy (set i x s.stage l) ≡ true) ⊎ (s.closed l ≡ true)
    still l (inl busy) = inl (ground (arith, at, busy))
    still l (inr shut) = inr shut

with_handler :
    (s : Flights) (h : Handler) (answer : ℕ → Option Answer)
    → IsSound s
    → IsSound (record s { handler = h; answer = answer })
with_handler s h answer o = record { registered = o.registered; shuts = o.shuts; waits = o.waits }

looked-IsSound :
    (s : Flights) (i : ℕ) (x : Stage) (found : Handler × Option Answer)
    → is_busy (s.stage i) ≡ false
    → has_closed x ≡ false
    → ((l : ℕ) → x ≡ waiting l → (is_busy (s.stage l) ≡ true) ⊎ (s.closed l ≡ true))
    → IsSound s
    → IsSound (looked i x found s)
unfolding looked
looked-IsSound s i x (h, none) at ajar wait o =
    moved-IsSound (record s { handler = h }) i x at ajar wait (with_handler s h s.answer o)
looked-IsSound s i x (h, some a) at ajar wait o =
    moved-IsSound (record s { handler = h; answer = set i (some a) s.answer }) i finished at refl
      (λ l e. absurd (ground (arith, e))) (with_handler s h (set i (some a) s.answer) o)

lead-IsSound :
    (s : Flights) (i : ℕ)
    → s.stage i ≡ missed
    → IsSound s
    → IsSound (moved i fetching (record s { flight = some i }))
lead-IsSound s i at o = record {
  registered = λ l h. ground (arith, h);
  shuts = λ j h. ground (arith, h, o.shuts j);
  waits = λ j l h. ground (arith, at, h, o.waits j l);
}

fetched-IsSound :
    (s : Flights) (i : ℕ) (x : Handler × Answer)
    → s.stage i ≡ fetching
    → IsSound s
    → IsSound (fetched i x s)
unfolding fetched
fetched-IsSound s i (h', a) at o = record {
  registered = λ l h. ground (arith, at, h, o.registered l);
  shuts = λ j h. ground (arith, h, o.shuts j);
  waits = λ j l h. ground (arith, at, h, o.waits j l);
}

close-IsSound :
    (s : Flights) (i : ℕ)
    → s.stage i ≡ closing
    → IsSound s
    → IsSound (moved i leaving (record s { closed = set i true s.closed }))
close-IsSound s i at o = record {
  registered = λ l h. ground (arith, at, h, o.registered l);
  shuts = λ j h. ground (arith, at, h, o.shuts j);
  waits = λ j l h. ground (arith, at, h, o.waits j l);
}

leave-IsSound :
    (s : Flights) (i : ℕ)
    → s.stage i ≡ leaving
    → IsSound s
    → IsSound (moved i finished (record s { flight = none }))
leave-IsSound s i at o = record {
  registered = λ l h. ground (arith, h);
  shuts = λ j h. ground (arith, h, o.shuts j);
  waits = λ j l h. ground (arith, at, h, o.waits j l, o.shuts i);
}

module _ (key : Bytes) where
  pub Step-IsSound : {s t : Flights} → Step key s t → IsSound s → IsSound t
  Step-IsSound (look s i w at) o =
      looked-IsSound s i missed (look_up key w s.handler) (ground (arith, at)) refl
        (λ l e. absurd (ground (arith, e))) o
  Step-IsSound (join s i l at taken) o =
      moved-IsSound s i (waiting l) (ground (arith, at)) refl
        (λ m e. inl (ground (arith, e, taken, o.registered l taken))) o
  Step-IsSound (lead s i at free) o = lead-IsSound s i at o
  Step-IsSound (wake s i l w at done) o =
      looked-IsSound s i fetching (look_up key w s.handler) (ground (arith, at)) refl
        (λ m e. absurd (ground (arith, e))) o
  Step-IsSound (fetch s i w up at) o = fetched-IsSound s i (fetch_pack w key up s.handler) at o
  Step-IsSound (close s i at) o = close-IsSound s i at o
  Step-IsSound (leave s i at) o = leave-IsSound s i at o
  Step-IsSound (elsewhere s h) o = with_handler s h s.answer o

  -- Whatever the callers do, and whatever else is done to the handler, from a start without flights.
  pub Steps-IsSound : (h : Handler) {s : Flights} → Steps key (started h) s → IsSound s
  Steps-IsSound h here = started-IsSound h
  Steps-IsSound h (next before step) = Step-IsSound step (Steps-IsSound h before)
