-- ===== src/Git/Handler/Flights/Together.antt =====
-- git/handler.go: callers who waited for a fetch that failed fetch the same pack at the same time.
use mathlib.Core.Path.{subst}
use proxykit.Prelude.{ℕ, ◌≡◌, refl, ap, Bool, true, false, Option, none, some, arith}
use proxykit.Prelude.Text.{Bytes}
use proxykit.Cache.Entry.{find}
use proxykit.Cache.State.{Cache}
use proxykit.Cache.Ops.{get}
use proxykit.Prelude.Updates.{set}
use proxykit.Http.{unreachable}
use proxykit.Git.Handler.{Answer, bad_gateway, Handler, Outside, serve_pack, fetch_pack}
use proxykit.Git.Handler.Flights.{
  Stage, starting, missed, waiting, fetching, closing, leaving, Flights, looked, fetched, started,
  look_up, Step, look, join, lead, wake, fetch, close, Steps, here, next,
}

module _ (key : Bytes) (o : Outside) (h : Handler)
    (absent : find key h.packs_cache.entries ≡ none) where
  get-absent : get o.world key o.checked o.now h.packs_cache ≡ (h.packs_cache, none)
  unfolding get
  get-absent = ground (arith, absent)

  look_up-absent : look_up key o h ≡ (h, none)
  unfolding look_up
  look_up-absent =
      ap
        (λ (r : Cache × Option Bytes). (
          record h { packs_cache = r.0 },
          elim r.1 [ none ↦ none | some path ↦ some (serve_pack (r.0.files path)) ],
        ))
        get-absent

  -- A state in which nothing was stored yet.
  abbrev at : Option ℕ → (ℕ → Bool) → (ℕ → Option Answer) → (ℕ → Stage) → Flights
  at flight closed answer stage = record {
    handler = h;
    flight = flight;
    closed = closed;
    answer = answer;
    stage = stage;
  }

  module _ (flight : Option ℕ) (closed : ℕ → Bool) (answer : ℕ → Option Answer) (stage : ℕ → Stage)
      (i : ℕ) where
    abbrev now : Flights
    now = at flight closed answer stage

    look_misses : stage i ≡ starting → Step key now (at flight closed answer (set i missed stage))
    unfolding looked
    look_misses p =
        subst (λ x. Step key now (looked i missed x now)) look_up-absent (look now i o p)

    wake_misses :
        (l : ℕ)
        → stage i ≡ waiting l
        → closed l ≡ true
        → Step key now (at flight closed answer (set i fetching stage))
    unfolding looked
    wake_misses l p shut =
        subst (λ x. Step key now (looked i fetching x now)) look_up-absent (wake now i l o p shut)

    fetch_fails :
        stage i ≡ fetching
        → Step key now (at flight closed (set i (some bad_gateway) answer) (set i closing stage))
    unfolding fetched fetch_pack
    fetch_fails p = fetch now i o unreachable p

  abbrev nobody : ℕ → Stage
  nobody _ = starting

  abbrev all_missed : ℕ → Stage
  all_missed = set 2 missed (set 1 missed (set 0 missed nobody))

  abbrev both_wait : ℕ → Stage
  both_wait = set 2 (waiting 0) (set 1 (waiting 0) (set 0 fetching all_missed))

  abbrev both_fetch : ℕ → Stage
  both_fetch = set 2 fetching (set 1 fetching (set 0 leaving (set 0 closing both_wait)))

  abbrev unanswered : ℕ → Option Answer
  unanswered _ = none

  abbrev refused : ℕ → Option Answer
  refused = set 0 (some bad_gateway) unanswered

  abbrev open_still : ℕ → Bool
  open_still _ = false

  waited : Steps key (started h) (at (some 0) open_still unanswered both_wait)
  unfolding started
  waited =
      let first = next here (look_misses none open_still unanswered nobody 0 refl) in
      let second =
        next first (look_misses none open_still unanswered (set 0 missed nobody) 1 refl) in
      let third =
        next second
          (look_misses none open_still unanswered (set 1 missed (set 0 missed nobody)) 2 refl) in
      let led = next third (lead (at none open_still unanswered all_missed) 0 refl refl) in
      let joined =
        next led
          (join (at (some 0) open_still unanswered (set 0 fetching all_missed)) 1 0 refl refl) in
      next joined (
        join (at (some 0) open_still unanswered (set 1 (waiting 0) (set 0 fetching all_missed))) 2 0
          refl refl)

  -- Where a pack is not in the cache, three callers can get to where two of them are about to ask upstream for
  -- it, and neither is the one whose flight is in the map.
  pub waiters_fetch :
      (s : Flights) × Steps key (started h) s
      × (s.stage 1 ≡ fetching)
      × (s.stage 2 ≡ fetching)
      × (s.flight ≡ some 0)
  waiters_fetch =
      let failed = next waited (fetch_fails (some 0) open_still unanswered both_wait 0 refl) in
      let closed =
        next failed (close (at (some 0) open_still refused (set 0 closing both_wait)) 0 refl) in
      let shut = set 0 true open_still in
      let woken = next closed (
        wake_misses (some 0) shut refused (set 0 leaving (set 0 closing both_wait)) 1 0 refl
          refl) in
      let both = next woken (
        wake_misses (some 0) shut refused (set 1 fetching (set 0 leaving (set 0 closing both_wait)))
          2 0 refl refl) in
      (at (some 0) shut refused both_fetch, both, refl, refl, refl)
