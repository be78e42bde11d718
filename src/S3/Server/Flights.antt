-- ===== src/S3/Server/Flights.antt =====
-- s3/server.go: the callers of `serveCacheable` for one key as a system of steps, each step a part that one
-- caller runs without being interrupted. `flight` is the entry of `s.flights` for the key: the caller
-- whose `cacheFlight` it is. A caller is its number, and `incoming` are the requests.
pub mod Orderly
pub mod Progress
use proxykit.Prelude.{
  ℕ, ◌≡◌, refl, Bool, true, false, Option, none, some, ◌==◌, if◌then◌else◌, Bool-cases, inl, inr,
}
use proxykit.Prelude.Text.{Bytes}
use proxykit.Cache.State.{World}
use proxykit.Prelude.Updates.{set}
use proxykit.S3.Entries.{Metadata, remove_entry}
use proxykit.S3.Reply.{Out}
use proxykit.S3.Security.{Signer}
use proxykit.S3.Target.{Url}
use proxykit.S3.Server.{Server, Incoming, Config, Library, Outside, Times, count_hit}
use proxykit.S3.Server.Handler.{is_hit, serve_hit, load, lead_flight, serve_cacheable}

-- Where a caller is: in front of the first look into the cache, at the head of the loop, in front of
-- another's `done`, behind `break`, in front of `close(flight.done)` and of `s.flights.Delete`, or back.
pub data Stage : Type 0 where
  starting looping : Stage
  waiting : ℕ → Stage
  leading closing leaving finished : Stage

-- `closed` says whether the `done` of a caller's flight was closed, and `out` is what a client has got.
pub record Flights : Type 0 where
  pub server : Server
  pub flight : Option ℕ
  pub closed : ℕ → Bool
  pub out : ℕ → Out
  pub stage : ℕ → Stage

abbrev pub moved : ℕ → Stage → Flights → Flights
moved i x s = record s { stage = set i x s.stage }

-- A caller's server and reply behind a part that it ran.
unfoldable pub ran : ℕ → Server × Out → Stage → Flights → Flights
ran i (server, o) x s = record s { server = server; out = set i o s.out; stage = set i x s.stage }

-- Behind a look into the cache: back with the whole entry, or at the head of the loop.
unfoldable pub looked : ℕ → (Server × Out) × Bool → Flights → Flights
looked i (at, served) s = ran i at (if served then finished else looping) s

unfoldable pub started : Server → (ℕ → Out) → Flights
started server out = record {
  server = server;
  flight = none;
  closed = λ _. false;
  out = out;
  stage = λ _. starting;
}

-- Going on from a look is going on where the look ends without an answer.
go_on :
    (hit whole : Bool) (x y z : Server × Out) (f : Server × Out → Server × Out)
    → let p : (Server × Out) × Bool =
        if hit then (if whole then (x, true) else (y, false)) else (z, false) in
      (if hit then (if whole then x else f y) else f z) ≡ (if p.1 then p.0 else f p.0)
go_on true true x y z f = refl
go_on true false x y z f = refl
go_on false whole x y z f = refl

module _ (lib : Library) (w : World) (cfg : Config) (key : Bytes) where
  -- The look into the cache, in front of the loop and behind a wait, and whether the entry was served.
  unfoldable pub look_up : Outside → Times → Incoming → Server × Out → (Server × Out) × Bool
  unfolding count_hit
  look_up world times r (s, o) =
      let (s', found) = load lib w cfg world times key s in
      let (o', whole) = serve_hit lib w cfg world times found r s' o in
      let counted = count_hit s' in
      if is_hit lib w cfg world times r found
      then (if whole
          then ((counted, o'), true)
          else ((record counted { disk = remove_entry w key counted.disk }, o'), false))
      else ((s', o), false)

  -- A caller who finds no other flight goes from the look to its own flight.
  serve_cacheable-alone :
      (world : Outside) (times : Times) (target : Url) (signer : Option Signer) (r : Incoming)
      (s : Server) (o : Out)
      → let (at, served) = look_up world times r (s, o) in
        serve_cacheable lib w cfg world times target signer key r (s, o)
        ≡ (if served then at else lead_flight lib w cfg world times target signer key r at)
  unfolding look_up serve_cacheable
  serve_cacheable-alone world times target signer r s o =
      let (s', found) = load lib w cfg world times key s in
      let (o', whole) = serve_hit lib w cfg world times found r s' o in
      let counted = count_hit s' in
      go_on (is_hit lib w cfg world times r found) whole (counted, o')
        (record counted { disk = remove_entry w key counted.disk }, o') (s', o)
        (lead_flight lib w cfg world times target signer key r)

  module _ (target : ℕ → Url) (signer : ℕ → Option Signer) (incoming : ℕ → Incoming) where
    -- A step of a caller, or anything that other requests do to the server.
    pub data Step : Flights → Flights → Type 0 where
      look :
          (s : Flights) (i : ℕ) (world : Outside) (times : Times)
          → s.stage i ≡ starting
          → Step s (looked i (look_up world times (incoming i) (s.server, s.out i)) s)
      join :
          (s : Flights) (i l : ℕ)
          → s.stage i ≡ looping
          → s.flight ≡ some l
          → Step s (moved i (waiting l) s)
      lead :
          (s : Flights) (i : ℕ)
          → s.stage i ≡ looping
          → s.flight ≡ none
          → Step s (moved i leading (record s { flight = some i }))
      wake :
          (s : Flights) (i l : ℕ) (world : Outside) (times : Times)
          → s.stage i ≡ waiting l
          → s.closed l ≡ true
          → Step s (looked i (look_up world times (incoming i) (s.server, s.out i)) s)
      run :
          (s : Flights) (i : ℕ) (world : Outside) (times : Times)
          → s.stage i ≡ leading
          → Step s (
              ran i
                (lead_flight lib w cfg world times
                  (target i)
                  (signer i)
                  key
                  (incoming i)
                  (s.server, s.out i))
                closing
                s)
      close :
          (s : Flights) (i : ℕ)
          → s.stage i ≡ closing
          → Step s (moved i leaving (record s { closed = set i true s.closed }))
      leave :
          (s : Flights) (i : ℕ)
          → s.stage i ≡ leaving
          → Step s (moved i finished (record s { flight = none }))
      elsewhere : (s : Flights) (server : Server) → Step s (record s { server = server })

    pub data Steps (s : Flights) : Flights → Type 0 where
      here : Steps s s
      next : {t u : Flights} → Steps s t → Step t u → Steps s u
