-- ===== src/S3/Server.antt =====
-- s3/server.go: the state of the server, its requests, and the tests that the handler makes. What lies outside is an argument: the JSON of metadata and
-- SHA-256 in `Library`, the clock's readings in `Times`, and in `Outside` what the upstream server and
-- the file system do. The request's method is in upper case.
pub mod Fetch
pub mod Handler
pub mod Kept
pub mod Hit
pub mod PassedOn
pub mod Stored
pub mod Served
pub mod Outcomes
pub mod Flights
use proxykit.Prelude.{
  ℕ, zero, suc, ◌+◌, ◌-◌, ◌≡◌, Bool, true, false, ◌&&◌, ◌||◌, not, Option, none, some, List, [],
  ◌∷◌, ◌++◌, if◌then◌else◌, ltb, leb, ◌==◌, take, length,
}
use proxykit.Prelude.Int.{ℤ, pos, negsuc, less}
use proxykit.Prelude.Text.{Bytes, codes, bytes_eq}
use proxykit.Http.{Header, header_get, header_set}
use proxykit.Cache.State.{Cache, World, write_file}
use proxykit.Cache.Ops.{remove, register_after_stream, PutError, stored, failed}
use proxykit.S3.Fresh
use proxykit.S3.Entries.{Metadata, load_metadata, store_metadata, remove_entry}
use proxykit.S3.Fresh.{Policy, ttl_for_response, should_store}
use proxykit.S3.Keys.{Target, cache_key, metadata_key, body_key, invalidate_target}
use proxykit.S3.Reply.{
  Out, write_header, write_body, error_to, finish, filtered_header, copy_header, mark, serve_entry,
  merge_validation_headers,
}
use proxykit.S3.Security.{Credited, Signer, Resolvers, Resolved, resolve_security, key_security}
use proxykit.S3.Target.{Values, Url, UrlLibrary, target_url, key_target, default_policy}
use proxykit.S3.Writer.{Taken, LimitedWriter, write_all, joined}

-- The counters of `metrics`.
pub record Stats : Type 0 where
  pub hits : ℕ
  pub misses : ℕ
  pub stores : ℕ
  pub revalidations : ℕ
  pub bypasses : ℕ

pub record Server : Type 0 where
  pub disk : Cache
  pub stats : Stats

pub data Method : Type 0 where
  method_get method_head method_put method_post method_delete method_other : Method

pub record Incoming : Type 0 where
  pub method : Method
  pub host : Bytes
  pub url : Url
  pub credited : Credited

pub record Config : Type 0 where
  pub authorizer : Option (Incoming → Bool)
  pub resolvers : Resolvers
  pub upstream : Option Url
  pub upstream_scheme : Bytes
  pub cache_policy : Option (Incoming → Bool)
  pub path_style : Bool
  pub policy : Policy
  pub stale_if_error : ℤ
  pub max_entry_size : ℕ
  pub expose_cache_header : Bool

pub record Library : Type 0 where
  pub encode : Metadata → Bytes
  pub decode : Bytes → Option Metadata
  pub hash_key : Bytes → Bytes
  pub urls : UrlLibrary

-- A response of the upstream server: `chunks` are the parts of its body as they arrive, each with
-- what the temporary file does with it; `copied` is false if the body or the client breaks off.
pub record Origin : Type 0 where
  pub status : ℕ
  pub header : Header
  pub content_length : ℤ
  pub chunks : List (Taken × Bytes)
  pub copied : Bool

-- `ask` is the HTTP client, given the method, the URL and the headers; `none` is its error.
-- `stream_dir_ok` says that the directory and the temporary file can be made.
pub record Outside : Type 0 where
  pub ask : Method → Url → Header → Option Origin
  pub stream_dir_ok : Bool
  pub close_ok : Bool
  pub rename_ok : Bool
  pub metadata_fault : Option PutError

-- The readings for the expiry test of `Get`, for its touch, and behind it.
pub record Times : Type 0 where
  pub checked : ℕ
  pub touched : ℕ
  pub now : ℕ

pub is_head : Method → Bool
is_head method_head = true
is_head _ = false

-- `isMutation`.
pub is_mutation : Method → Bool
is_mutation method_put = true
is_mutation method_post = true
is_mutation method_delete = true
is_mutation _ = false

pub count_hit : Server → Server
count_hit s = record s { stats = record s.stats { hits = s.stats.hits + 1 } }

pub count_miss : Server → Server
count_miss s = record s { stats = record s.stats { misses = s.stats.misses + 1 } }

pub count_store : Server → Server
count_store s = record s { stats = record s.stats { stores = s.stats.stores + 1 } }

pub count_revalidation : Server → Server
count_revalidation s = record s {
  stats = record s.stats { revalidations = s.stats.revalidations + 1 };
}

pub count_bypass : Server → Server
count_bypass s = record s { stats = record s.stats { bypasses = s.stats.bypasses + 1 } }

-- `t.Add(d)` on the clock's nanoseconds, which are not negative.
unfoldable pub add_time : ℕ → ℤ → ℕ
add_time t (pos d) = t + d
add_time t (negsuc d) = t - suc d

module _ (cfg : Config) where
  -- `cacheHeader`.
  pub cache_header : Bytes → Bytes
  cache_header value = if not cfg.expose_cache_header then [] else value

  -- `copyUpstreamResponse`.
  pub copy_upstream : Origin → Bytes → Out → Out
  unfolding write_header write_body copy_header mark joined
  copy_upstream resp status o =
      write_body (joined resp.chunks)
        (write_header resp.status (mark status (copy_header resp.header o)))

  -- `entryUsable`.
  unfoldable pub entry_usable : Method → Metadata → Bool
  unfolding is_head
  entry_usable method meta = is_head method || meta.has_body

  -- `canServeStale`.
  unfoldable pub can_serve_stale : ℕ → Metadata → Bool
  unfolding less add_time
  can_serve_stale now meta =
      less (pos 0) cfg.stale_if_error && ltb now (add_time meta.fresh_until cfg.stale_if_error)

-- `r.URL.Query().Get`.
unfoldable pub first_value : Bytes → Values → Bytes
first_value key [] = []
first_value key ((k, []) ∷ q) = if bytes_eq k key then [] else first_value key q
first_value key ((k, v ∷ vs) ∷ q) = if bytes_eq k key then v else first_value key q

-- What the policy reads of a request and of a response.
unfoldable pub policy_request : Incoming → Fresh.Request
unfolding first_value header_get
policy_request r = record {
  range = header_get (codes "Range") r.credited.header;
  version_id = first_value (codes "versionId") r.url.query;
}

unfoldable pub policy_response : Origin → Fresh.Response
policy_response resp = record { status = resp.status; header = resp.header }

-- `metadataFromResponse`.
unfoldable pub metadata_from_response : Config → Origin → Incoming → Bool → ℕ → ℕ → Metadata
unfolding filtered_header header_get add_time policy_request policy_response
metadata_from_response cfg resp r has_body size now = record {
  status_code = resp.status;
  header = filtered_header resp.header;
  etag = header_get (codes "ETag") resp.header;
  last_modified = header_get (codes "Last-Modified") resp.header;
  stored_at = now;
  fresh_until =
      add_time now (ttl_for_response cfg.policy (policy_request r) (policy_response resp));
  has_body = has_body;
  body_size = size;
}

-- `filepath.Join(dir, "streams", hash[:2], hash)` for a cleaned `dir`.
unfoldable pub stream_path : (Bytes → Bytes) → Bytes → Bytes → Bytes
stream_path hash_key dir key =
    let hash = hash_key (body_key key) in
    dir ++ (codes "/streams/" ++ (take 2 hash ++ (codes "/" ++ hash)))

-- The conditional headers of a request for a stale entry, where it has a validator.
unfoldable pub validators : Metadata → Header → Option Header
unfolding header_set bytes_eq
validators meta h =
    if not (bytes_eq meta.etag [])
    then some (header_set (codes "If-None-Match") meta.etag h)
    else if not (bytes_eq meta.last_modified [])
    then some (header_set (codes "If-Modified-Since") meta.last_modified h)
    else none

unfoldable pub sign_with_signer : Option Signer → Header → Option Header
sign_with_signer none h = some h
sign_with_signer (some sign) h = sign h
