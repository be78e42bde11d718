-- ===== src/Cache/Fetch.antt =====
-- cache/cache.go: `GetOrFetch` and `doFetch` of one caller.
pub mod Answers
pub mod Flights
use proxykit.Prelude.{ℕ, ◌+◌, Bool, Option, none, some, List, []}
use proxykit.Prelude.Int.{ℤ}
use proxykit.Prelude.Text.{Bytes}
use proxykit.Cache.State.{Cache, World}
use proxykit.Cache.Ops.{get, remove, put, PutError, PutResult, stored, failed}

-- What the callback does: it returns a reader with a lifetime, returns an error, or panics.
pub data Fetched (E : Type 0) : Type 0 where
  content : Bytes → ℤ → Fetched E
  fetch_error : E → Fetched E
  panics : Fetched E

pub data FetchError (E : Type 0) : Type 0 where
  upstream : E → FetchError E
  panicked : FetchError E
  not_stored : PutError → FetchError E
  open_failed : FetchError E

-- The fields `val` and `err` of a finished `call`.
pub data Call (E : Type 0) : Type 0 where
  val : Bytes → Call E
  err : FetchError E → Call E

pub data Reply (E : Type 0) : Type 0 where
  opened : Bytes → Reply E
  error : FetchError E → Reply E

-- A path that `Get` returned, opened; an entry whose file is missing is removed.
unfoldable pub open_hit : World → Bytes → Cache × Option Bytes → Cache × Option Bytes
unfolding remove
open_hit w k (c, none) = (c, none)
open_hit w k (c, some path) = elim (c.files path) [
  | none ↦ (remove w k c, none)
  | some body ↦ (c, some body)
]

-- The fast path of `GetOrFetch`: the body, or nothing and the cache to go on with.
unfoldable pub fast_path : World → Bytes → ℕ → ℕ → Cache → Cache × Option Bytes
unfolding get open_hit
fast_path w k checked now c = open_hit w k (get w k checked now c)

module _ {E : Type 0} where
  -- The part of `doFetch` behind the result of `Put`.
  pub of_put : Cache × PutResult → Cache × Call E
  of_put (c, stored path) = (c, val path)
  of_put (c, failed e) = (c, err (not_stored e))

  -- `doFetch`; a panic in the callback is recovered into an error.
  pub do_fetch :
      (Bytes → Bytes) → World → Option PutError → Bytes → Fetched E → ℕ → Cache → Cache × Call E
  unfolding put of_put
  do_fetch hash_key w fault k (content body ttl) now c =
      of_put (put hash_key w fault k body ttl now c)
  do_fetch hash_key w fault k (fetch_error e) now c = (c, err (upstream e))
  do_fetch hash_key w fault k panics now c = (c, err panicked)

  -- `os.Open` of the path that a finished call holds, by the caller that fetched and by those that
  -- waited for it.
  pub open_call : Call E → Cache → Reply E
  open_call (err e) c = error e
  open_call (val path) c = elim (c.files path) [
    | none ↦ error open_failed
    | some body ↦ opened body
  ]

  -- The first caller fetches and opens what it stored.
  pub lead :
      (Bytes → Bytes) → World → Option PutError → Bytes → Fetched E → ℕ → Cache → Cache × Reply E
  unfolding do_fetch open_call
  lead hash_key w fault k fetch now c =
      let (c', call) = do_fetch hash_key w fault k fetch now c in (c', open_call call c')

  pub or_lead :
      (Bytes → Bytes)
      → World
      → Option PutError
      → Bytes
      → Fetched E
      → ℕ
      → Cache × Option Bytes
      → Cache × Reply E
  unfolding lead
  or_lead hash_key w fault k fetch now (c, some body) = (c, opened body)
  or_lead hash_key w fault k fetch now (c, none) = lead hash_key w fault k fetch now c

  -- `GetOrFetch` where no other call for the key is in flight.
  unfoldable pub get_or_fetch :
      (Bytes → Bytes)
      → World
      → Option PutError
      → Bytes
      → Fetched E
      → ℕ
      → ℕ
      → ℕ
      → Cache
      → Cache × Reply E
  unfolding fast_path or_lead
  get_or_fetch hash_key w fault k fetch checked now later c =
      or_lead hash_key w fault k fetch later (fast_path w k checked now c)
