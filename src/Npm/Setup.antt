-- ===== src/Npm/Setup.antt =====
-- npm/npm.go: the configuration and `New`, over `cache.New`. A size that is not above 0 is no limit, and
-- is 0 here.
use proxykit.Prelude.{ℕ, ◌≡◌, refl, ap, List, [], if◌then◌else◌}
use proxykit.Prelude.Int.{ℤ, pos, is_zero}
use proxykit.Prelude.Text.{Bytes, codes, bytes_eq}
use proxykit.Cache.Recover
use proxykit.Cache.Recover.{NewError, NewResult, created, refused}
use proxykit.Npm.Allowlist.{new_allowlist, default_patterns}
use proxykit.Npm.Paths.{trim_right_slash}
use proxykit.Npm.Proxy.{Server}

pub record Config : Type 0 where
  pub upstream_url : Bytes
  allowed_upstream_registry_patterns : List Bytes
  pub cache_dir : Bytes
  pub max_cache_size : ℕ
  pub metadata_ttl : ℤ

-- `DefaultUpstreamURL`.
abbrev default_upstream_url : Bytes
default_upstream_url = codes "https://registry.npmjs.org"

-- `DefaultMetadataTTL`, a minute of nanoseconds.
abbrev pub default_metadata_ttl : ℤ
default_metadata_ttl = pos 60000000000

-- `DefaultConfig`; `default_size` is the share of the disk that `cache.DefaultMaxSize` gives.
unfoldable pub default_config : (Bytes → ℕ) → Bytes → Config
default_config default_size cache_dir = record {
  cache_dir = cache_dir;
  max_cache_size = default_size cache_dir;
  metadata_ttl = default_metadata_ttl;
  upstream_url = default_upstream_url;
  allowed_upstream_registry_patterns = default_patterns;
}

pub data NewServer : Type 0 where
  opened : Server → NewServer
  no_cache_dir : NewServer
  cache_refused : NewError → NewServer

-- What `New` passes to `cache.New`.
unfoldable pub cache_config : Config → Recover.Config
cache_config cfg = record {
  dir = cfg.cache_dir;
  max_size = cfg.max_cache_size;
  ttl = pos 0;
  soft_evict_percent = 0;
}

-- The end of `New`.
unfoldable pub with_cache : Config → NewResult → NewServer
with_cache cfg (refused e) = cache_refused e
with_cache cfg (created c) = opened (record {
  upstream_url =
      trim_right_slash
        (if bytes_eq cfg.upstream_url [] then default_upstream_url else cfg.upstream_url);
  matchers = new_allowlist cfg.allowed_upstream_registry_patterns;
  metadata_ttl = if is_zero cfg.metadata_ttl then default_metadata_ttl else cfg.metadata_ttl;
  cache = c;
})

-- `New`; `new_cache` is `cache.New` as the directory answers it.
unfoldable pub new : (Recover.Config → NewResult) → Config → NewServer
new new_cache cfg =
    if bytes_eq cfg.cache_dir []
    then no_cache_dir
    else with_cache cfg (new_cache (cache_config cfg))

-- A configuration of a directory and a limit alone.
abbrev pub bare_config : ℕ → Bytes → Config
bare_config max_size cache_dir = record {
  cache_dir = cache_dir;
  max_cache_size = max_size;
  metadata_ttl = pos 0;
  upstream_url = [];
  allowed_upstream_registry_patterns = [];
}

with_cache-default_config :
    (default_size : Bytes → ℕ) (cache_dir : Bytes) (made : NewResult)
    → with_cache (default_config default_size cache_dir) made
      ≡ with_cache (bare_config (default_size cache_dir) cache_dir) made
unfolding with_cache default_config bytes_eq new_allowlist
with_cache-default_config default_size cache_dir (refused e) = refl
with_cache-default_config default_size cache_dir (created c) = refl

-- The default configuration and one of the same directory and limit alone open the same server.
new-default_config :
    (new_cache : Recover.Config → NewResult) (default_size : Bytes → ℕ) (cache_dir : Bytes)
    → new new_cache (default_config default_size cache_dir)
      ≡ new new_cache (bare_config (default_size cache_dir) cache_dir)
unfolding new default_config cache_config
new-default_config new_cache default_size cache_dir =
    ap (λ (s : NewServer). if bytes_eq cache_dir [] then no_cache_dir else s)
      (with_cache-default_config default_size cache_dir
        (new_cache (cache_config (default_config default_size cache_dir))))
