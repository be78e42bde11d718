-- ===== src/S3/Fresh.antt =====
-- s3/server.go: which responses are stored, and for how long they are fresh. A `time.Duration` is an
-- int64 of nanoseconds.
use proxykit.Prelude.{
  ℕ, ◌*◌, ◌^◌, ◌≤◌, ◌<◌, ◌≡◌, Bool, true, false, ◌&&◌, ◌||◌, not, Option, none, some, List, [], ◌∷◌,
  arith, if◌then◌else◌, ltb, ◌==◌,
}
use proxykit.Prelude.Int.{ℤ, pos, negsuc, less, wrap64, wrap64_small, wrap64_high}
use proxykit.Prelude.Parse.{parse_int}
use proxykit.Prelude.Text.{
  Bytes, codes, bytes_eq, has_prefix, drop_prefix, contains, to_lower, trim_space, split_byte,
}
use proxykit.Http.{Header, header_get}

-- The fields of `Config` that decide on storing.
pub record Policy : Type 0 where
  pub fresh_ttl : ℤ
  pub versioned_ttl : ℤ
  pub max_ttl : ℤ
  pub respect_private : Bool

pub record Response : Type 0 where
  pub status : ℕ
  pub header : Header

-- What the policy reads of a request.
pub record Request : Type 0 where
  pub range : Bytes
  pub version_id : Bytes

-- The result of `ParseInt`, where it is no error and not negative.
unfoldable seconds_of : Option ℤ → Option ℕ
seconds_of none = none
seconds_of (some (negsuc _)) = none
seconds_of (some (pos n)) = some n

unfoldable max_age_in : List Bytes → Option ℕ
unfolding seconds_of
max_age_in [] = none
max_age_in (raw ∷ parts) =
    let part = trim_space (to_lower raw) in
    let rest = max_age_in parts in
    if not (has_prefix part (codes "max-age="))
    then rest
    else seconds_of (parse_int 10 64 (trim_space (drop_prefix part (codes "max-age="))))

-- `cacheControlMaxAge`.
unfoldable pub cache_control_max_age : Bytes → Option ℕ
unfolding max_age_in
cache_control_max_age value = max_age_in (split_byte b',' value)

-- The lifetime for a `max-age`: the product may wrap around.
unfoldable bounded_ttl : Policy → ℕ → ℤ
bounded_ttl p value =
    let ttl = wrap64 (value * 1000000000) in
    if less (pos 0) p.max_ttl && less p.max_ttl ttl then p.max_ttl else ttl

-- `ttlForResponse`.
pub ttl_for_response : Policy → Request → Response → ℤ
ttl_for_response p r resp =
    elim (cache_control_max_age (header_get (codes "Cache-Control") resp.header)) [
      | some value ↦ bounded_ttl p value
      | none ↦ if bytes_eq r.version_id [] then p.fresh_ttl else p.versioned_ttl
    ]

-- `shouldStore`.
unfoldable pub should_store : Policy → Request → Response → Bool
should_store p r resp =
    let cc = to_lower (header_get (codes "Cache-Control") resp.header) in
    if not (resp.status == 200) || not (bytes_eq r.range [])
    then false
    else if contains cc (codes "no-store") || (p.respect_private && contains cc (codes "private"))
    then false
    else bytes_eq (header_get (codes "Set-Cookie") resp.header) []

-- A `max-age` whose nanoseconds fit into an int64 is the lifetime, cut at a positive maximum.
ttl_capped :
    (p : Policy) (r : Request) (resp : Response) (n limit : ℕ)
    → cache_control_max_age (header_get (codes "Cache-Control") resp.header) ≡ some n
    → n * 1000000000 < 2 ^ 63
    → p.max_ttl ≡ pos limit
    → ttl_for_response p r resp
      ≡ (if not (limit == 0) && ltb limit (n * 1000000000) then pos limit else pos (n * 1000000000))
unfolding ttl_for_response bounded_ttl less
ttl_capped p r resp n limit age fits maximum =
    ground (arith, age, maximum, wrap64_small (n * 1000000000) fits)

-- A `max-age` whose nanoseconds lie between 2^63 and 2^64 gives a lifetime below 0, whatever the
-- maximum.
ttl_overflows :
    (p : Policy) (r : Request) (resp : Response) (n : ℕ)
    → cache_control_max_age (header_get (codes "Cache-Control") resp.header) ≡ some n
    → 2 ^ 63 ≤ n * 1000000000
    → n * 1000000000 < 2 ^ 64
    → less (ttl_for_response p r resp) (pos 0) ≡ true
unfolding ttl_for_response bounded_ttl less
ttl_overflows p r resp n age large small =
    let (m, wrapped) = wrap64_high (n * 1000000000) large small in ground (arith, age, wrapped)

-- Without a `max-age`, the lifetime is one of the configured ones.
pub ttl_default :
    (p : Policy) (r : Request) (resp : Response)
    → cache_control_max_age (header_get (codes "Cache-Control") resp.header) ≡ none
    → ttl_for_response p r resp
      ≡ (if bytes_eq r.version_id [] then p.fresh_ttl else p.versioned_ttl)
unfolding ttl_for_response
ttl_default p r resp h = ground (arith, h)
