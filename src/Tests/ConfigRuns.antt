-- ===== src/Tests/ConfigRuns.antt =====
-- git/git.go and s3/config.go: a redirect and a configuration, and the theorems about them.
use proxykit.Prelude.{◌≡◌, ◌⊎◌, refl, none, some, [], ◌∷◌}
use proxykit.Prelude.Int.{pos}
use proxykit.Prelude.Text.{codes, bytes_eq, equal_fold}
use proxykit.Http.{Header, header_get}
use proxykit.Http.Lookup.{header_values}
use proxykit.Git.Redirect.{Location, Sent, IsOurs, re_inject_auth_on_redirect, re_inject-exact}
use proxykit.S3.Config.{Config}

abbrev secret : Header
secret = (codes "Authorization", codes "Basic c2VjcmV0" ∷ []) ∷ []

abbrev first : Sent
first = record {
  location = record { scheme = codes "https"; hostname = codes "git.test"; port = [] };
  header = secret;
}

abbrev moved : Location
moved = record { scheme = codes "https"; hostname = codes "GIT.test"; port = codes "443" }

re_inject-exact_example :
    (next : Header) × (re_inject_auth_on_redirect (first ∷ []) moved [] ≡ some next)
    × ((IsOurs first moved
          × (header_values (codes "Authorization") next ≡ codes "Basic c2VjcmV0" ∷ []))
        ⊎ ((¬ IsOurs first moved) × (next ≡ [])))
unfolding header_get header_values bytes_eq equal_fold
re_inject-exact_example = re_inject-exact first [] moved [] (codes "Authorization") refl

abbrev plain : Config
plain = record {
  upstream_url = codes "https://s3.test";
  upstream_scheme = [];
  cache_dir = codes "/c";
  max_cache_size = pos 0;
  max_entry_size = pos 0;
  fresh_ttl = pos 0;
  versioned_ttl = pos 5;
  max_ttl = pos 0;
  stale_if_error = pos 0;
  soft_evict_percent = 0;
  eviction_interval = pos 0;
  credentials = none;
}
