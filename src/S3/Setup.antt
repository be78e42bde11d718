-- ===== src/S3/Setup.antt =====
-- s3/server.go: `New`, over `cache.New`. `parse_url` is net/url's.
use proxykit.Prelude.{ℕ, ◌≡◌, ap, ◌∙◌, Bool, Option, none, some, [], if◌then◌else◌}
use proxykit.Prelude.Int.{ℤ, pos, negsuc}
use proxykit.Prelude.Text.{Bytes, bytes_eq}
use proxykit.Cache.State.{Cache}
use proxykit.Cache.Recover
use proxykit.Cache.Recover.{NewError, NewResult, created, refused}
use proxykit.S3.Config.{
  Config, ConfigError, apply_config_defaults, validate, apply_config_defaults-valid,
}
use proxykit.S3.Target.{Url}

-- The fields of `Server` that a configuration gives.
pub record Opened : Type 0 where
  pub config : Config
  pub upstream : Option Url
  pub disk : Cache

pub data NewServer : Type 0 where
  opened : Opened → NewServer
  invalid : ConfigError → NewServer
  bad_upstream : NewServer
  cache_refused : NewError → NewServer

-- A size that is not above 0 is no limit for the cache.
unfoldable pub limit_of : ℤ → ℕ
limit_of (pos n) = n
limit_of (negsuc n) = 0

-- What `New` passes to `cache.New`.
unfoldable pub disk_config : Config → Recover.Config
disk_config cfg = record {
  dir = cfg.cache_dir;
  max_size = limit_of cfg.max_cache_size;
  ttl = pos 0;
  soft_evict_percent = cfg.soft_evict_percent;
}

-- The upstream server's URL, if there is one; `none` is an error.
unfoldable pub parse_upstream : (Bytes → Option Url) → Bytes → Option (Option Url)
parse_upstream parse_url text =
    if bytes_eq text []
    then some none
    else (elim (parse_url text) [ none ↦ none | some u ↦ some (some u) ])

unfoldable pub with_disk : Config → Option Url → NewResult → NewServer
with_disk cfg upstream (refused e) = cache_refused e
with_disk cfg upstream (created disk) =
    opened (record { config = cfg; upstream = upstream; disk = disk })

-- Behind the checks of the configuration.
unfoldable pub with_upstream :
    (Recover.Config → NewResult) → Config → Option (Option Url) → NewServer
with_upstream new_cache cfg none = bad_upstream
with_upstream new_cache cfg (some upstream) = with_disk cfg upstream (new_cache (disk_config cfg))

unfoldable pub when_valid : Option ConfigError → NewServer → NewServer
when_valid none server = server
when_valid (some e) server = invalid e

module _ (parse_url : Bytes → Option Url) (parts_of : Bytes → Option (Bytes × Bytes))
    (is_percent : ℕ → Bool) (new_cache : Recover.Config → NewResult) where
  -- `New`; the defaults come first. `parts_of` gives the scheme and the host that `Validate` reads.
  unfoldable pub new : Config → NewServer
  new given =
      let cfg = apply_config_defaults given in
      when_valid (validate parts_of is_percent cfg)
        (with_upstream new_cache cfg (parse_upstream parse_url cfg.upstream_url))

  -- A valid configuration, whose URL is read and whose cache can be created, is opened with its defaults.
  new-valid :
      (given : Config) (upstream : Option Url) (disk : Cache)
      → validate parts_of is_percent given ≡ none
      → parse_upstream parse_url given.upstream_url ≡ some upstream
      → new_cache (disk_config (apply_config_defaults given)) ≡ created disk
      → new given
        ≡ opened (record { config = apply_config_defaults given; upstream = upstream; disk = disk })
  unfolding new when_valid with_upstream with_disk
  new-valid given upstream disk valid read made =
      let cfg = apply_config_defaults given in
      let same_url : parse_upstream parse_url cfg.upstream_url ≡ some upstream =
        unfold apply_config_defaults in read in
      ap
        (λ v.
          when_valid v (with_upstream new_cache cfg (parse_upstream parse_url cfg.upstream_url)))
        (apply_config_defaults-valid parts_of is_percent given valid).0
      ∙ ap (with_upstream new_cache cfg) same_url
      ∙ ap (with_disk cfg upstream) made
