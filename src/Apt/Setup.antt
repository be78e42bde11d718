-- ===== src/Apt/Setup.antt =====
-- apt/apt.go: the configuration and `New`, over `cache.New`. A size that is not above 0 is no limit, and
-- is 0 here.
use proxykit.Prelude.{ℕ, ◌≡◌, refl, ap, List, [], ◌∷◌, if◌then◌else◌}
use proxykit.Prelude.Int.{ℤ, pos, is_zero}
use proxykit.Prelude.Text.{Bytes, codes, bytes_eq}
use proxykit.Cache.Recover
use proxykit.Cache.Recover.{NewError, NewResult, created, refused}
use proxykit.Apt.Proxy.{Server}

pub record Config : Type 0 where
  pub cache_dir : Bytes
  pub max_cache_size : ℕ
  pub metadata_ttl : ℤ
  allowed_host_patterns : List Bytes

-- `defaultAllowedHostPatterns`.
abbrev default_allowed_host_patterns : List Bytes
default_allowed_host_patterns =
    codes "*.ubuntu.com"
    ∷ codes "*.canonical.com"
    ∷ codes "deb.debian.org"
    ∷ codes "*.debian.org"
    ∷ codes "packages.microsoft.com"
    ∷ codes "download.docker.com"
    ∷ codes "deb.nodesource.com"
    ∷ codes "dl.google.com"
    ∷ codes "apt.kubernetes.io"
    ∷ codes "pkgs.k8s.io"
    ∷ codes "ppa.launchpad.net"
    ∷ codes "ppa.launchpadcontent.net"
    ∷ codes "apt.agentuity.sh"
    ∷ []

-- `DefaultMetadataTTL`, an hour of nanoseconds.
abbrev pub default_metadata_ttl : ℤ
default_metadata_ttl = pos 3600000000000

-- `DefaultConfig`; `default_size` is the share of the disk that `cache.DefaultMaxSize` gives.
unfoldable pub default_config : (Bytes → ℕ) → Bytes → Config
default_config default_size cache_dir = record {
  cache_dir = cache_dir;
  max_cache_size = default_size cache_dir;
  metadata_ttl = default_metadata_ttl;
  allowed_host_patterns = default_allowed_host_patterns;
}

pub data NewServer : Type 0 where
  opened : Server → NewServer
  no_cache_dir : NewServer
  cache_refused : NewError → NewServer

-- What `New` passes to `cache.New`.
unfoldable pub cache_config : Config → Recover.Config
cache_config cfg = record {
  dir = cfg.cache_dir;
  max_size = cfg.max_cache_size;
  ttl = pos 0;
  soft_evict_percent = 0;
}

unfoldable pub allowed_or_default : List Bytes → List Bytes
allowed_or_default [] = default_allowed_host_patterns
allowed_or_default (p ∷ patterns) = p ∷ patterns

-- The end of `New`.
unfoldable pub with_cache : Config → NewResult → NewServer
with_cache cfg (refused e) = cache_refused e
with_cache cfg (created c) = opened (record {
  allowed_hosts = allowed_or_default cfg.allowed_host_patterns;
  metadata_ttl = if is_zero cfg.metadata_ttl then default_metadata_ttl else cfg.metadata_ttl;
  cache = c;
})

-- `New`; `new_cache` is `cache.New` as the directory answers it.
unfoldable pub new : (Recover.Config → NewResult) → Config → NewServer
new new_cache cfg =
    if bytes_eq cfg.cache_dir []
    then no_cache_dir
    else with_cache cfg (new_cache (cache_config cfg))

-- A configuration of a directory and a limit alone.
abbrev pub bare_config : ℕ → Bytes → Config
bare_config max_size cache_dir = record {
  cache_dir = cache_dir;
  max_cache_size = max_size;
  metadata_ttl = pos 0;
  allowed_host_patterns = [];
}

with_cache-default_config :
    (default_size : Bytes → ℕ) (cache_dir : Bytes) (made : NewResult)
    → with_cache (default_config default_size cache_dir) made
      ≡ with_cache (bare_config (default_size cache_dir) cache_dir) made
unfolding with_cache default_config allowed_or_default
with_cache-default_config default_size cache_dir (refused e) = refl
with_cache-default_config default_size cache_dir (created c) = refl

-- The default configuration and one of the same directory and limit alone open the same server.
new-default_config :
    (new_cache : Recover.Config → NewResult) (default_size : Bytes → ℕ) (cache_dir : Bytes)
    → new new_cache (default_config default_size cache_dir)
      ≡ new new_cache (bare_config (default_size cache_dir) cache_dir)
unfolding new default_config cache_config
new-default_config new_cache default_size cache_dir =
    ap (λ (s : NewServer). if bytes_eq cache_dir [] then no_cache_dir else s)
      (with_cache-default_config default_size cache_dir
        (new_cache (cache_config (default_config default_size cache_dir))))
