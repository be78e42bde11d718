-- ===== src/Git/Handler/Flights.antt =====
-- git/handler.go: the callers of `handleUploadPack` for one pack as a system of steps, each step a part
-- that one caller runs without being interrupted. `flight` is the entry of `h.packFlights` for the key: the
-- caller whose `packFlight` it is. A caller is its number.
pub mod Sound
pub mod Progress
pub mod Together
use proxykit.Prelude.{
  ℕ, ◌≡◌, refl, Bool, true, false, Option, none, some, ◌==◌, if◌then◌else◌, Option-cases, inl, inr,
}
use proxykit.Prelude.Text.{Bytes}
use proxykit.Cache.Ops.{get}
use proxykit.Prelude.Updates.{set}
use proxykit.Http.{Upstream}
use proxykit.Git.Handler.{
  Answer, Handler, Outside, fetch_pack, look_up_pack, serve_pack, serve_clone,
}

-- Where a caller is: in front of the first look into the cache, in front of `LoadOrStore`, in front of
-- another's `done`, in front of the request upstream, of `close(flight.done)` and of
-- `h.packFlights.Delete`, or back.
pub data Stage : Type 0 where
  starting missed : Stage
  waiting : ℕ → Stage
  fetching closing leaving finished : Stage

-- `closed` says whether the `done` of a caller's flight was closed.
pub record Flights : Type 0 where
  pub handler : Handler
  pub flight : Option ℕ
  pub closed : ℕ → Bool
  pub answer : ℕ → Option Answer
  pub stage : ℕ → Stage

abbrev pub moved : ℕ → Stage → Flights → Flights
moved i x s = record s { stage = set i x s.stage }

-- Behind a look into the cache: back with the pack, or at the next stage.
unfoldable pub looked : ℕ → Stage → Handler × Option Answer → Flights → Flights
looked i next_stage (h, none) s = moved i next_stage (record s { handler = h })
looked i next_stage (h, some a) s =
    moved i finished (record s { handler = h; answer = set i (some a) s.answer })

-- Behind the request upstream.
unfoldable pub fetched : ℕ → Handler × Answer → Flights → Flights
fetched i (h, a) s = moved i closing (record s { handler = h; answer = set i (some a) s.answer })

unfoldable pub started : Handler → Flights
started h = record {
  handler = h;
  flight = none;
  closed = λ _. false;
  answer = λ _. none;
  stage = λ _. starting;
}

-- Going on from a look is going on where the look ends without an answer.
go_on :
    (found : Option Bytes) (h : Handler) (serve : Bytes → Answer)
    (otherwise : Handler → Handler × Answer)
    → (elim found [ none ↦ otherwise h | some path ↦ (h, serve path) ])
      ≡ (elim (elim found as (λ _. Option Answer) [ none ↦ none | some path ↦ some (serve path) ]) [
        | none ↦ otherwise h
        | some a ↦ (h, a)
      ])
go_on none h serve otherwise = refl
go_on (some path) h serve otherwise = refl

module _ (key : Bytes) where
  -- `h.packsCache.Get`, and `servePackFromDisk` of what it finds.
  unfoldable pub look_up : Outside → Handler → Handler × Option Answer
  look_up o h =
      let (packs, found) = get o.world key o.checked o.now h.packs_cache in
      (
        record h { packs_cache = packs },
        elim found [ none ↦ none | some path ↦ some (serve_pack (packs.files path)) ],
      )

  -- A step of a caller, or anything that other requests do to the handler.
  pub data Step : Flights → Flights → Type 0 where
    look :
        (s : Flights) (i : ℕ) (o : Outside)
        → s.stage i ≡ starting
        → Step s (looked i missed (look_up o s.handler) s)
    join :
        (s : Flights) (i l : ℕ)
        → s.stage i ≡ missed
        → s.flight ≡ some l
        → Step s (moved i (waiting l) s)
    lead :
        (s : Flights) (i : ℕ)
        → s.stage i ≡ missed
        → s.flight ≡ none
        → Step s (moved i fetching (record s { flight = some i }))
    wake :
        (s : Flights) (i l : ℕ) (o : Outside)
        → s.stage i ≡ waiting l
        → s.closed l ≡ true
        → Step s (looked i fetching (look_up o s.handler) s)
    fetch :
        (s : Flights) (i : ℕ) (o : Outside) (up : Upstream)
        → s.stage i ≡ fetching
        → Step s (fetched i (fetch_pack o key up s.handler) s)
    close :
        (s : Flights) (i : ℕ)
        → s.stage i ≡ closing
        → Step s (moved i leaving (record s { closed = set i true s.closed }))
    leave :
        (s : Flights) (i : ℕ)
        → s.stage i ≡ leaving
        → Step s (moved i finished (record s { flight = none }))
    elsewhere : (s : Flights) (h : Handler) → Step s (record s { handler = h })

  pub data Steps (s : Flights) : Flights → Type 0 where
    here : Steps s s
    next : {t u : Flights} → Steps s t → Step t u → Steps s u

  -- A caller who finds no other flight goes from the look to its own request.
  serve_clone-alone :
      (o : Outside) (up : Upstream) (h : Handler)
      → let (h', found) = look_up o h in
        serve_clone o none key up h
        ≡ (elim found [ none ↦ fetch_pack o key up h' | some a ↦ (h', a) ])
  unfolding look_up serve_clone look_up_pack
  serve_clone-alone o up h =
      let (packs, found) = get o.world key o.checked o.now h.packs_cache in
      go_on found (record h { packs_cache = packs }) (λ path. serve_pack (packs.files path))
        (fetch_pack o key up)
