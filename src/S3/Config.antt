-- ===== src/S3/Config.antt =====
-- s3/config.go: `DefaultConfig` and `Validate`, and s3/server.go: `applyConfigDefaults`. A duration is
-- an int64 of nanoseconds; a float64 is carried as its bit pattern, and `is_percent` is the test
-- that it is neither below 0 nor above 1. `parse_url` is net/url's, with the scheme and the host.
use proxykit.Prelude.{
  ℕ, ◌^◌, ◌*◌, ◌/◌, ◌≡◌, refl, inl, inr, Bool, true, false, ◌&&◌, ◌||◌, not, Option, none, some, [],
  arith, if◌then◌else◌, ltb, Bool-cases,
}
use proxykit.Prelude.Int.{ℤ, pos, negsuc, less, is_zero}
use proxykit.Prelude.Text.{Bytes, codes, bytes_eq, trim_space}

-- The key and the secret of `Credentials`.
pub record KeyPair : Type 0 where
  pub access_key_id : Bytes
  pub secret_access_key : Bytes

-- The fields of `Config` that are checked or have a default.
pub record Config : Type 0 where
  pub upstream_url : Bytes
  pub upstream_scheme : Bytes
  pub cache_dir : Bytes
  pub max_cache_size : ℤ
  pub max_entry_size : ℤ
  pub fresh_ttl : ℤ
  pub versioned_ttl : ℤ
  pub max_ttl : ℤ
  pub stale_if_error : ℤ
  pub soft_evict_percent : ℕ
  pub eviction_interval : ℤ
  pub credentials : Option KeyPair

-- The errors of `Validate`, in their order.
pub data ConfigError : Type 0 where
  no_cache_dir invalid_upstream_url unsupported_url_scheme unsupported_scheme negative_size :
      ConfigError
  negative_duration bad_percent negative_interval missing_credentials : ConfigError

abbrev pub second : ℕ
second = 1000000000

-- `applyConfigDefaults`.
unfoldable pub apply_config_defaults : Config → Config
apply_config_defaults cfg = record cfg {
  upstream_scheme = if bytes_eq cfg.upstream_scheme [] then codes "https" else cfg.upstream_scheme;
  fresh_ttl = if is_zero cfg.fresh_ttl then pos (300 * second) else cfg.fresh_ttl;
  versioned_ttl = if is_zero cfg.versioned_ttl then pos (604800 * second) else cfg.versioned_ttl;
  max_ttl = if is_zero cfg.max_ttl then pos (86400 * second) else cfg.max_ttl;
  eviction_interval =
      if is_zero cfg.eviction_interval then pos (60 * second) else cfg.eviction_interval;
}

-- `DefaultConfig`, for the share of the disk that `cache.DefaultMaxSize` gives.
unfoldable pub default_config : ℕ → ℕ → Bytes → Bytes → Config
default_config default_percent max_size cache_dir upstream_url = record {
  upstream_url = upstream_url;
  upstream_scheme = codes "https";
  cache_dir = cache_dir;
  max_cache_size = pos max_size;
  max_entry_size =
      pos (if ltb 0 max_size && ltb (max_size / 10) (2 ^ 30) then max_size / 10 else 2 ^ 30);
  fresh_ttl = pos (300 * second);
  versioned_ttl = pos (604800 * second);
  max_ttl = pos (86400 * second);
  stale_if_error = pos 0;
  soft_evict_percent = default_percent;
  eviction_interval = pos (60 * second);
  credentials = none;
}

unfoldable pub is_http : Bytes → Bool
is_http scheme = bytes_eq scheme (codes "http") || bytes_eq scheme (codes "https")

-- The check of the upstream URL's two parts.
unfoldable check_upstream : Option (Bytes × Bytes) → Option ConfigError
check_upstream none = some invalid_upstream_url
check_upstream (some (scheme, host)) =
    if bytes_eq scheme [] || bytes_eq host []
    then some invalid_upstream_url
    else if is_http scheme
    then none
    else some unsupported_url_scheme

unfoldable pub check_credentials : Option KeyPair → Option ConfigError
check_credentials none = none
check_credentials (some c) =
    if bytes_eq (trim_space c.access_key_id) [] || bytes_eq (trim_space c.secret_access_key) []
    then some missing_credentials
    else none

unfoldable pub is_negative : ℤ → Bool
unfolding less
is_negative n = less n (pos 0)

-- A field whose zero value stands for a positive default.
abbrev or_default : ℕ → ℤ → ℤ
or_default d x = if is_zero x then pos d else x

or_default_positive :
    (d : ℕ) (x : ℤ)
    → ltb 0 d ≡ true
    → is_negative x ≡ false
    → (less (pos 0) (or_default d x) ≡ true) × (is_negative (or_default d x) ≡ false)
unfolding is_negative
or_default_positive d (pos ℕ.zero) h k = (h, ground arith)
or_default_positive d (pos (ℕ.suc n)) h k = (ground arith, ground arith)
or_default_positive d (negsuc n) h k = absurd (ground (arith, k))

module _ (parse_url : Bytes → Option (Bytes × Bytes)) (is_percent : ℕ → Bool) where
  -- The checks behind that of the upstream URL.
  unfoldable pub check_rest : Config → Option ConfigError
  check_rest cfg =
      let scheme = trim_space cfg.upstream_scheme in
      if not (bytes_eq scheme []) && not (is_http scheme)
      then some unsupported_scheme
      else if is_negative cfg.max_cache_size || is_negative cfg.max_entry_size
      then some negative_size
      else if is_negative cfg.fresh_ttl
          || (is_negative cfg.versioned_ttl
              || (is_negative cfg.max_ttl || is_negative cfg.stale_if_error))
      then some negative_duration
      else if not (is_percent cfg.soft_evict_percent)
      then some bad_percent
      else if is_negative cfg.eviction_interval
      then some negative_interval
      else check_credentials cfg.credentials

  unfoldable pub first_error : Option ConfigError → Option ConfigError → Option ConfigError
  first_error none later = later
  first_error (some e) later = some e

  -- `Validate`; `none` is success.
  unfoldable pub validate : Config → Option ConfigError
  unfolding check_upstream first_error
  validate cfg =
      if bytes_eq (trim_space cfg.cache_dir) []
      then some no_cache_dir
      else if bytes_eq cfg.upstream_url []
      then check_rest cfg
      else first_error (check_upstream (parse_url cfg.upstream_url)) (check_rest cfg)

  -- The checks of a valid configuration all pass.
  check_rest-passes :
      (cfg : Config)
      → check_rest cfg ≡ none
      → (not (bytes_eq (trim_space cfg.upstream_scheme) [])
            && not (is_http (trim_space cfg.upstream_scheme))
          ≡ false)
        × (is_negative cfg.max_cache_size || is_negative cfg.max_entry_size ≡ false)
        × (is_negative cfg.fresh_ttl ≡ false)
        × (is_negative cfg.versioned_ttl ≡ false)
        × (is_negative cfg.max_ttl ≡ false)
        × (is_negative cfg.stale_if_error ≡ false)
        × (is_percent cfg.soft_evict_percent ≡ true)
        × (is_negative cfg.eviction_interval ≡ false)
        × (check_credentials cfg.credentials ≡ none)
  unfolding check_rest
  check_rest-passes cfg h = ground (arith, h)

  check_rest_passed :
      (cfg : Config)
      → (not (bytes_eq (trim_space cfg.upstream_scheme) [])
            && not (is_http (trim_space cfg.upstream_scheme))
          ≡ false)
      → (is_negative cfg.max_cache_size || is_negative cfg.max_entry_size ≡ false)
      → (is_negative cfg.fresh_ttl ≡ false)
      → (is_negative cfg.versioned_ttl ≡ false)
      → (is_negative cfg.max_ttl ≡ false)
      → (is_negative cfg.stale_if_error ≡ false)
      → (is_percent cfg.soft_evict_percent ≡ true)
      → (is_negative cfg.eviction_interval ≡ false)
      → (check_credentials cfg.credentials ≡ none)
      → check_rest cfg ≡ none
  unfolding check_rest
  check_rest_passed cfg scheme sizes fresh versioned max stale percent interval creds =
      ground (arith, scheme, sizes, fresh, versioned, max, stale, percent, interval, creds)

  check_rest-defaults :
      (cfg : Config)
      → check_rest cfg ≡ none
      → (check_rest (apply_config_defaults cfg) ≡ none)
        × (less (pos 0) (apply_config_defaults cfg).fresh_ttl ≡ true)
        × (less (pos 0) (apply_config_defaults cfg).versioned_ttl ≡ true)
        × (less (pos 0) (apply_config_defaults cfg).max_ttl ≡ true)
        × (less (pos 0) (apply_config_defaults cfg).eviction_interval ≡ true)
  unfolding apply_config_defaults
  check_rest-defaults cfg h =
      let (scheme, sizes, fresh, versioned, max, stale, percent, interval, creds) =
        check_rest-passes cfg h in
      let (fresh⁺, fresh') = or_default_positive (300 * second) cfg.fresh_ttl refl fresh in
      let (versioned⁺, versioned') =
        or_default_positive (604800 * second) cfg.versioned_ttl refl versioned in
      let (max⁺, max') = or_default_positive (86400 * second) cfg.max_ttl refl max in
      let (interval⁺, interval') =
        or_default_positive (60 * second) cfg.eviction_interval refl interval in
      let scheme' : (not (bytes_eq (trim_space (apply_config_defaults cfg).upstream_scheme) [])
            && not (is_http (trim_space (apply_config_defaults cfg).upstream_scheme)))
          ≡ false =
        elim (Bool-cases (bytes_eq cfg.upstream_scheme [])) [
          | inl unset ↦ unfold trim_space is_http bytes_eq in ground (arith, unset)
          | inr set ↦ ground (arith, set, scheme)
        ] in
      (
        check_rest_passed (apply_config_defaults cfg) scheme' sizes fresh' versioned' max' stale
            percent interval' creds,
        fresh⁺,
        versioned⁺,
        max⁺,
        interval⁺,
      )

  -- The defaults of a valid configuration are filled in without making it invalid, and with them its
  -- lifetimes and its interval are above 0.
  pub apply_config_defaults-valid :
      (cfg : Config)
      → validate cfg ≡ none
      → (validate (apply_config_defaults cfg) ≡ none)
        × (less (pos 0) (apply_config_defaults cfg).fresh_ttl ≡ true)
        × (less (pos 0) (apply_config_defaults cfg).versioned_ttl ≡ true)
        × (less (pos 0) (apply_config_defaults cfg).max_ttl ≡ true)
        × (less (pos 0) (apply_config_defaults cfg).eviction_interval ≡ true)
  unfolding validate
  apply_config_defaults-valid cfg h =
      let rest : check_rest cfg ≡ none = ground (arith, h) in
      let (still, fresh, versioned, max, interval) = check_rest-defaults cfg rest in
      (unfold apply_config_defaults in ground (arith, h, still), fresh, versioned, max, interval)
