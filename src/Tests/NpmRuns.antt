-- ===== src/Tests/NpmRuns.antt =====
-- npm/: requests for metadata and for tarballs, and the theorems about them.
use proxykit.Prelude.{◌≡◌, refl, true, false, none, some, Option, List, [], ◌∷◌, ◌++◌, inl, arith}
use proxykit.Prelude.Int.{pos}
use proxykit.Prelude.Text.{
  before_last, trim_space, to_lower, lower, equal_fold, is_space, Bytes, codes, bytes_eq,
  has_prefix, has_suffix, drop_prefix, trim_prefix, cut, has_byte,
}
use proxykit.Cache.Entry.{find, expired_at}
use proxykit.Cache.Ops.{get, deadline, effective_ttl}
use proxykit.Cache.Fetch.{fast_path, open_hit}
use proxykit.Http.{split_host_port, Response, responds}
use proxykit.Glob.{compile, matches}
use proxykit.Npm.Keys.{
  extract_package_name, scoped_name, tarball_cache_key, tarball_key_of, tarball_cache_key_collides,
}
use proxykit.Npm.Proxy.{Server, Request, Outside, handle_metadata, handle_request}
use proxykit.Npm.Allowlist.{allowed, matches_one}
use proxykit.Npm.Paths.{uses_http_upstream, trim_right_slash, keep_slash}
use proxykit.Npm.Paths.Rewrites.{joined_by}
use proxykit.Npm.Lockfile.{
  Link, is_digit, is_alphanumeric, is_host_byte, is_path_byte, rewrite_direct_tarball_urls,
}
use proxykit.Npm.Lockfile.Routes.{tarball_of, rewrite_direct_tarball_urls-resolves}
use proxykit.Npm.Proxy.Served.{metadata_for, metadata_served_per_host}

program : Unit {0}
unfolding joined_by trim_right_slash keep_slash has_byte fast_path open_hit get find deadline
    effective_ttl expired_at has_prefix has_suffix drop_prefix trim_prefix cut bytes_eq
    extract_package_name scoped_name tarball_cache_key tarball_key_of allowed matches_one trim_space
    to_lower lower uses_http_upstream equal_fold split_host_port before_last is_host_byte
    is_path_byte is_alphanumeric is_digit is_space matches compile
program = tt

tarball_cache_key_collides_example :
    tarball_cache_key (codes "h") (codes "/org/one/-/p.tgz")
    ≡ tarball_cache_key (codes "h") (codes "/org/two/-/p.tgz")
unfolding program
tarball_cache_key_collides_example =
    tarball_cache_key_collides (codes "h") b'o' (codes "rg") (codes "one") (codes "two")
      (codes "p.tgz") refl refl refl refl refl

abbrev server : Server
server = record {
  upstream_url = codes "https://registry.npmjs.org";
  matchers = compile (codes "registry.npmjs.org") ∷ [];
  metadata_ttl = pos 60;
  cache = record {
    dir = codes "/c";
    max_size = 0;
    ttl = pos 50;
    soft_evict_percent = 0;
    db = none;
    entries = [];
    total_size = 0;
    files = λ _. none;
  };
}

abbrev answer : Response
answer = record { status = 200; header = []; body = codes "{}" }

abbrev outside : Outside
outside = record {
  parse_url = λ _. none;
  unescape = λ t. some t;
  is_ip = λ _. false;
  hash_key = λ k. k;
  world = record { db_ok = λ _. true; remove_ok = λ _. true };
  put_fault = none;
  answers = λ _. responds answer;
  checked = 10;
  now = 10;
  later = 10;
}

abbrev base : Bytes
base = codes "https://registry.npmjs.org"

abbrev host : Bytes
host = codes "registry.npmjs.org"

-- Metadata with one URL of the registry.
abbrev parts_of : List Bytes
parts_of = codes "/p.tgz\"" ∷ []

abbrev metadata : Response
metadata = record { status = 200; header = []; body = codes "\"https://registry.npmjs.org/p.tgz\"" }

abbrev with_metadata : Outside
with_metadata = record outside { answers = λ _. responds metadata }

metadata_served_per_host_example :
    ((handle_metadata with_metadata (codes "a:1") base (codes "/p") host server).1
      ≡ metadata_for (codes "a:1") host (codes "\"") parts_of)
    × ((handle_metadata
          (record with_metadata { checked = 40 })
          (codes "b:2")
          base
          (codes "/p")
          host
          (handle_metadata with_metadata (codes "a:1") base (codes "/p") host server).0).1
        ≡ metadata_for (codes "b:2") host (codes "\"") parts_of)
unfolding program
metadata_served_per_host_example =
    metadata_served_per_host with_metadata (record with_metadata { checked = 40 }) (codes "a:1")
      (codes "b:2") base b'h' (codes "ttps://registry.npmjs.org") (codes "/p") host server
      server.cache metadata (codes "\"") parts_of refl refl refl refl (inl refl) refl refl refl refl
      (ground arith) (refl, refl) (refl, refl)

abbrev parse_one : Bytes → Option Link
parse_one url =
    some (record { host = host; hostname = host; escaped_path = codes "/p.tgz"; raw_query = [] })

abbrev tarball_request : Request
tarball_request = record {
  is_get = true;
  request_uri = codes "/_upstream/registry.npmjs.org/p.tgz";
  path = codes "/_upstream/registry.npmjs.org/p.tgz";
  host = codes "a";
}

rewrite_direct_tarball_urls-resolves_example :
    (rewrite_direct_tarball_urls parse_one
        (codes "http://a/")
        server.matchers
        (codes "\"https://registry.npmjs.org/p.tgz\"")
      ≡ codes "\""
        ++ ((trim_right_slash (codes "http://a/") ++ codes "/_upstream/registry.npmjs.org/p.tgz")
            ++ rewrite_direct_tarball_urls parse_one
                (codes "http://a/")
                server.matchers
                (codes "\"")))
    × ((handle_request outside tarball_request server).1 ≡ tarball_of (codes "{}"))
unfolding program
rewrite_direct_tarball_urls-resolves_example =
    rewrite_direct_tarball_urls-resolves outside server tarball_request parse_one
      (codes "http://a/") (codes "\"") b'r' (codes "egistry.npmjs.org") b'p' [] [] server.cache
      answer refl (ground arith) refl refl refl refl (λ t plain. refl) (refl, refl, refl) refl refl
      refl refl refl
