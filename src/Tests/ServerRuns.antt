-- ===== src/Tests/ServerRuns.antt =====
-- s3/server.go: requests for one object, and the theorems about them.
use proxykit.Prelude.{ℕ, ◌≡◌, refl, ap, true, false, none, some, [], ◌∷◌, ◌++◌, ltb, ◌+◌}
use proxykit.Prelude.Int.{pos, less}
use proxykit.Prelude.Parse.{decimal}
use proxykit.Prelude.Text.{
  Bytes, codes, bytes_eq, has_prefix, contains, drop_prefix, split_byte, trim_space, to_lower,
  lower, equal_fold, has_byte, trim_right_space,
}
use proxykit.Cache.Entry.{find, expired}
use proxykit.Cache.State.{Cache, World}
use proxykit.Cache.Ops.{get, deadline}
use proxykit.Http.{header_get}
use proxykit.Http.Lookup.{header_values}
use proxykit.S3.Entries.{Metadata, load_metadata, read_metadata}
use proxykit.S3.Fresh.{Policy, cache_control_max_age, should_store, ttl_default, ttl_for_response}
use proxykit.S3.Keys.{IsPlain, cache_key, body_key}
use proxykit.S3.Reply.{Out, fresh_out, client_not_modified, filtered_header}
use proxykit.S3.Security.{
  Credited, Resolved, key_security, after_credential, request_credential_scope,
}
use proxykit.S3.Security.Scope.{request_credential_scope-bearer}
use proxykit.S3.Server.{
  Server, method_get, method_put, Incoming, Config, Library, Origin, Outside, Times,
  metadata_from_response, policy_request, policy_response, sign_with_signer, stream_path,
  first_value, add_time, entry_usable, validators,
}
use proxykit.S3.Server.Fetch.{fetch_and_maybe_store, conditional, new_writer, revalidated, renewed}
use proxykit.S3.Server.Handler.{load, is_hit, serve_cacheable, forward_mutation}
use proxykit.S3.Server.Flights.{
  Flights, leading, waiting, look, lead, join, here, next, Steps, looked, ran, moved, started,
  look_up,
}
use proxykit.S3.Server.Flights.Orderly.{one_flight}
use proxykit.S3.Server.Flights.Progress.{Finishes, caller_served}
use proxykit.S3.Server.Hit.{served_whole}
use proxykit.S3.Server.Outcomes.{fetch_unreachable, revalidated-renews, forward_mutation-forgets}
use proxykit.S3.Server.PassedOn.{IsPassedOn}
use proxykit.S3.Server.Stored.{IsStored}
use proxykit.S3.Server.Served.{object_served_again}
use proxykit.S3.Target.{Url, UrlLibrary, key_target}
use proxykit.S3.Writer.{write_all, joined}

program : Unit {0}
unfolding find get expired deadline should_store header_get bytes_eq equal_fold filtered_header
    sign_with_signer first_value write_all joined new_writer policy_request policy_response
    split_byte cache_control_max_age contains has_prefix drop_prefix trim_space client_not_modified
    fresh_out conditional body_key stream_path has_byte to_lower lower less
program = tt

abbrev urls : UrlLibrary
urls = record { escaped_path = λ path raw. path; query_escape = λ s. s }

abbrev policy : Policy
policy = record {
  fresh_ttl = pos 60;
  versioned_ttl = pos 600;
  max_ttl = pos 0;
  respect_private = true;
}

abbrev cfg : Config
cfg = record {
  authorizer = none;
  resolvers = record {
    identity_resolver = none;
    signing_resolver = none;
    credential_resolver = none;
    credentials = none;
    sign_with = λ _ h. some h;
    sha_hex = λ s. s;
  };
  upstream = none;
  upstream_scheme = codes "https";
  cache_policy = none;
  path_style = false;
  policy = policy;
  stale_if_error = pos 30;
  max_entry_size = 0;
  expose_cache_header = true;
}

abbrev url : Url
url = record {
  scheme = codes "https";
  host = codes "s3.test";
  path = codes "/b/o";
  raw_path = [];
  query = [];
}

abbrev request : Incoming
request = record {
  method = method_get;
  host = codes "s3.test";
  url = url;
  credited = record { header = []; amz_credential = []; goog_credential = [] };
}

abbrev origin : Origin
origin = record {
  status = 200;
  header = (codes "ETag", codes "e" ∷ []) ∷ [];
  content_length = pos 3;
  chunks =
      (record { count = 9; fault = false }, codes "ab")
      ∷ (record { count = 9; fault = false }, codes "c")
      ∷ [];
  copied = true;
}

abbrev online : Outside
online = record {
  ask = λ _ _ _. some origin;
  stream_dir_ok = true;
  close_ok = true;
  rename_ok = true;
  metadata_fault = none;
}

abbrev offline : Outside
offline = record online { ask = λ _ _ _. none }

abbrev at_time : ℕ → Times
at_time t = record { checked = t; touched = t; now = t }

abbrev stored_meta : Metadata
stored_meta = metadata_from_response cfg origin request true 3 100

abbrev lib : Library
lib = record {
  encode = λ _. codes "m";
  decode = λ _. some stored_meta;
  hash_key = λ k. k;
  urls = urls;
}

abbrev w : World
w = record { db_ok = λ _. true; remove_ok = λ _. true }

abbrev disk : Cache
disk = record {
  dir = codes "/c";
  max_size = 0;
  ttl = pos 0;
  soft_evict_percent = 0;
  db = none;
  entries = [];
  total_size = 0;
  files = λ _. none;
}

abbrev server : Server
server = record {
  disk = disk;
  stats = record { hits = 0; misses = 0; stores = 0; revalidations = 0; bypasses = 0 };
}

abbrev key : Bytes
key = codes "k"

stored : IsStored lib w cfg online (at_time 100) url none key request server [] origin
unfolding program
stored = record {
  absent = refl;
  unlimited = refl;
  get = refl;
  signed = refl;
  answered = refl;
  may_store = refl;
  small = refl;
  copied = refl;
  intact = refl;
  stream_dir_ok = refl;
  close_ok = refl;
  rename_ok = refl;
  metadata_ok = refl;
  coded = refl;
}

-- The object is fresh for the configured minute.
still_fresh :
    ltb 120
      (add_time 100 (ttl_for_response policy (policy_request request) (policy_response origin)))
    ≡ true
unfolding program add_time
still_fresh =
    ap (λ t. ltb 120 (add_time 100 t))
      (ttl_default policy (policy_request request) (policy_response origin) refl)

abbrev first : Server × Out
first = serve_cacheable lib w cfg online (at_time 100) url none key request (server, fresh_out)

etag-IsPassedOn : IsPassedOn (codes "etag")
unfolding program IsPassedOn
etag-IsPassedOn =
    (refl, (refl, (refl, (refl, (refl, (refl, (refl, (refl, (refl, (refl, (refl, tt)))))))))))

object_served_again_example :
    let again =
      serve_cacheable lib w cfg offline (at_time 120) url none key request (first.0, fresh_out) in
    (first.1.sent ≡ some (200, first.1.header))
    × (first.1.body ≡ codes "abc")
    × (header_values (codes "etag") first.1.header ≡ codes "e" ∷ [])
    × (again.1.sent ≡ some (200, again.1.header))
    × (again.1.body ≡ codes "abc")
    × (header_values (codes "etag") again.1.header ≡ codes "e" ∷ [])
    × (header_get (codes "Content-Length") again.1.header ≡ decimal 3)
    × (again.0.stats.hits ≡ first.0.stats.hits + 1)
unfolding program header_values
object_served_again_example =
    object_served_again lib w cfg online offline (at_time 100) (at_time 120) url url none none key
      request request [] origin server (codes "etag") stored refl still_fresh refl refl refl
      etag-IsPassedOn

abbrev body_path : Bytes
body_path = stream_path (λ k. k) (codes "/c") key

abbrev stale_meta : Metadata
stale_meta = record {
  status_code = 200;
  header = [];
  etag = codes "e";
  last_modified = [];
  stored_at = 100;
  fresh_until = 160;
  has_body = true;
  body_size = 3;
}

abbrev kept : Server
kept = record server {
  disk = record disk {
    entries =
        record {
          key = body_key key;
          path = body_path;
          size = 3;
          created_at = 100;
          accessed_at = 100;
          expires_at = none;
        }
        ∷ [];
    total_size = 3;
    files = λ _. some (codes "abc");
  };
}

fetch_unreachable_example :
    fetch_and_maybe_store lib w cfg offline
      (at_time 180)
      url
      none
      key
      (some (stale_meta, body_path))
      request
      (kept, fresh_out)
    ≡ (kept, served_whole cfg (codes "STALE") stale_meta (codes "abc") fresh_out)
unfolding program add_time entry_usable validators
fetch_unreachable_example =
    fetch_unreachable lib w cfg offline (at_time 180) url none key body_path (codes "abc")
      stale_meta request ((codes "If-None-Match", codes "e" ∷ []) ∷ []) kept fresh_out refl refl
      refl refl refl refl refl refl refl

abbrev not_modified : Origin
not_modified = record origin { status = 304; header = []; content_length = pos 0; chunks = [] }

abbrev new_meta : Metadata
new_meta = renewed lib w cfg online (at_time 200) stale_meta not_modified request

abbrev lib_renewed : Library
lib_renewed = record lib { decode = λ _. some new_meta }

abbrev confirmed : Server × Out
confirmed =
    revalidated lib_renewed w cfg online (at_time 200) key (stale_meta, body_path) not_modified
      request (kept, fresh_out)

revalidated-renews_example :
    (confirmed.1 ≡ served_whole cfg (codes "REVALIDATED") new_meta (codes "abc") fresh_out)
    × ((load_metadata lib_renewed.decode w key 210 210 confirmed.0.disk).1
        ≡ some (new_meta, body_path))
    × (new_meta.fresh_until
        ≡ add_time 200
            (ttl_for_response policy (policy_request request) (policy_response not_modified)))
unfolding program renewed
revalidated-renews_example =
    revalidated-renews lib_renewed w cfg online (at_time 200) key (codes "abc") stale_meta
      not_modified request kept fresh_out 210 210 refl refl refl refl refl refl refl refl refl refl

abbrev found : Resolved
found = record {
  identity = record { tenant = codes "t"; subject = codes "u" };
  auth_scope = codes "s";
  signer = none;
  cacheable = true;
}

found-IsPlain : IsPlain (key_target urls url) (key_security found)
unfolding program key_target key_security
found-IsPlain = record {
  tenant = refl;
  subject = refl;
  auth_scope = refl;
  host = refl;
  path = refl;
}

forward_mutation-forgets_example :
    (load_metadata lib.decode w
      (cache_key (record (key_target urls url) { stable_query = codes "q=1" }) (key_security found))
      300
      300
      (forward_mutation lib w cfg online
        (at_time 300)
        url
        found
        (record request { method = method_put })
        (kept, fresh_out)).0.disk).1
    ≡ none
unfolding program
forward_mutation-forgets_example =
    forward_mutation-forgets lib w cfg online (at_time 300) url found
      (record request { method = method_put }) [] origin kept fresh_out (codes "q=1") 300 300 refl
      refl refl found-IsPlain (refl, tt)

abbrev bearing : Bytes → Credited
bearing token = record {
  header = (codes "Authorization", (codes "Bearer " ++ token) ∷ []) ∷ [];
  amz_credential = [];
  goog_credential = [];
}

request_credential_scope-bearer_example :
    request_credential_scope (λ s. s) (bearing (codes "alice"))
    ≡ request_credential_scope (λ s. s) (bearing (codes "mallory"))
unfolding program trim_right_space after_credential
request_credential_scope-bearer_example =
    request_credential_scope-bearer (λ s. s) (bearing (codes "alice")) (bearing (codes "mallory"))
      b'a' b'm' (codes "lice") (codes "allory") refl refl refl refl refl refl

abbrev first_looked : Flights
first_looked =
    looked 0 (look_up lib w cfg key online (at_time 100) request (server, fresh_out))
      (started server (λ _. fresh_out))

abbrev first_leads : Flights
first_leads = moved 0 leading (record first_looked { flight = some 0 })

abbrev second_looked : Flights
second_looked =
    looked 1
      (look_up lib w cfg key online (at_time 101) request (first_leads.server, first_leads.out 1))
      first_leads

abbrev second_waits : Flights
second_waits = moved 1 (waiting 0) second_looked

abbrev Runs : Flights → Type 0
Runs = Steps lib w cfg key (λ _. url) (λ _. none) (λ _. request) (started server (λ _. fresh_out))

leads : Runs first_leads
unfolding program look_up looked ran started load is_hit load_metadata read_metadata
leads =
    next (next here (look (started server (λ _. fresh_out)) 0 online (at_time 100) refl))
      (lead first_looked 0 refl refl)

waits : Runs second_waits
unfolding program look_up looked ran started load is_hit load_metadata read_metadata
waits =
    next (next leads (look first_leads 1 online (at_time 101) refl))
      (join second_looked 1 0 refl refl)

one_flight_example : ◌≡◌ {A = ℕ} 0 0
unfolding program look_up looked ran started load is_hit load_metadata read_metadata
one_flight_example =
    one_flight lib w cfg key (λ _. url) (λ _. none) (λ _. request) server (λ _. fresh_out)
      second_waits 0 0 waits refl refl

caller_served_example : Finishes lib w cfg key (λ _. url) (λ _. none) (λ _. request) second_waits 1
caller_served_example =
    caller_served lib w cfg key (λ _. url) (λ _. none) (λ _. request) online (at_time 102) server
      (λ _. fresh_out) second_waits 1 waits
