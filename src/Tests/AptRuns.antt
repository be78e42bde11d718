-- ===== src/Tests/AptRuns.antt =====
-- apt/: requests for a package and for an index, and the theorems about them.
use proxykit.Prelude.{arith, ◌≡◌, refl, true, none, some, [], ◌∷◌, inl}
use proxykit.Prelude.Int.{pos}
use proxykit.Prelude.Text.{
  codes, has_prefix, has_suffix, contains, bytes_eq, equal_fold, to_lower, lower,
}
use proxykit.Cache.Entry.{find}
use proxykit.Cache.Ops.{get, deadline, effective_ttl}
use proxykit.Cache.Fetch.{fast_path, open_hit}
use proxykit.Apt.Addresses.{v4, is_blocked_ip, in_blocks, number, is_blocked_ip-in_blocks}
use proxykit.Apt.Paths.{is_package_file, classify_ttl}
use proxykit.Apt.Proxy.{Request, Server, Outside, proxy_valid}
use proxykit.Http.{Response, responds, header_get}
use proxykit.Apt.Proxy.Kept.{response_kept}

program : Unit {0}
unfolding fast_path open_hit get find deadline effective_ttl is_package_file classify_ttl has_suffix
    contains has_prefix header_get bytes_eq equal_fold to_lower lower
program = tt

abbrev server : Server
server = record {
  allowed_hosts = codes "*.ubuntu.com" ∷ [];
  metadata_ttl = pos 60;
  cache = record {
    dir = codes "/c";
    max_size = 0;
    ttl = pos 50;
    soft_evict_percent = 0;
    db = none;
    entries = [];
    total_size = 0;
    files = λ _. none;
  };
}

-- An upstream server that has one answer for everything.
abbrev world_of : Response → Outside
world_of resp = record {
  parse_url = λ _. some (record { scheme = codes "http"; hostname = codes "archive.ubuntu.com" });
  hash_key = λ k. k;
  world = record { db_ok = λ _. true; remove_ok = λ _. true };
  put_fault = none;
  answers = λ _ _. responds resp;
  checked = 10;
  now = 10;
  later = 10;
}

abbrev index_request : Request
index_request = record {
  is_get = true;
  request_uri = codes "http://archive.ubuntu.com/dists/InRelease";
  path = codes "/dists/InRelease";
  header = (codes "If-None-Match", codes "e" ∷ []) ∷ [];
}

abbrev package_request : Request
package_request = record index_request { path = codes "/pool/a.deb" }

-- The answer to a conditional request.
abbrev not_modified : Response
not_modified = record { status = 304; header = (codes "Etag", codes "e" ∷ []) ∷ []; body = [] }

response_kept_example :
    let first = proxy_valid (world_of not_modified) index_request server in
    let later =
      (proxy_valid
        (record (world_of not_modified) { checked = 50 })
        (record index_request { header = [] })
        first.0).1 in
    (first.1.status ≡ 304)
    × (first.1.body ≡ [])
    × ((header_get (codes "Content-Type") first.1.header ≡ [])
        × ((header_get (codes "Content-Length") first.1.header ≡ [])
            × ((header_get (codes "Last-Modified") first.1.header ≡ [])
                × ((header_get (codes "ETag") first.1.header ≡ codes "e") × Unit {0}))))
    × (later.status ≡ 200)
    × (later.body ≡ [])
unfolding program
response_kept_example =
    response_kept (world_of not_modified) index_request server server.cache refl not_modified refl
      refl refl (inl refl) (record (world_of not_modified) { checked = 50 })
      (record index_request { header = [] }) refl refl

abbrev deb : Response
deb = record { status = 200; header = []; body = codes "DEB" }

is_blocked_ip-in_blocks_example :
    is_blocked_ip (some (v4 172 31 255 1)) ≡ in_blocks (number 172 31 255 1)
is_blocked_ip-in_blocks_example =
    is_blocked_ip-in_blocks 172 31 255 1 (omega arith) (omega arith) (omega arith)
