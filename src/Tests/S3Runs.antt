-- ===== src/Tests/S3Runs.antt =====
-- s3/: small requests and entries, and the theorems about them.
use proxykit.Prelude.{◌≤◌, ◌<◌, ◌≡◌, refl, true, false, none, List, [], ◌∷◌}
use proxykit.Prelude.Int.{pos}
use proxykit.Prelude.Parse.{
  parse_int, parse_uint, digits_from, add_digit, digit_value, fit_positive,
}
use proxykit.Prelude.Text.{
  Bytes, codes, bytes_eq, has_prefix, contains, drop_prefix, split_byte, trim_space, to_lower,
  lower, equal_fold, has_byte,
}
use proxykit.Cache.Entry.{find}
use proxykit.Cache.State.{Cache, World}
use proxykit.Http.{header_get}
use proxykit.S3.Signer.{
  is_signature_name, values_of, Outgoing, SigningKey, prepare, is_unsigned, is_credential,
  prepare-forgets,
}
use proxykit.Http.Lookup.{header_values}
use proxykit.S3.Range.{
  parse_range, range_parts, range_start, range_end, range_suffix, parse_range_bounds,
}
use proxykit.S3.Writer.{LimitedWriter, Taken, write_all, joined}
use proxykit.S3.Fresh.{Policy, Response, Request, cache_control_max_age}
use proxykit.S3.Keys.{
  Target, Security, IsPlain, key_prefix, cache_key, metadata_key, body_key, of_target,
  invalidate_target, cache_key_isolates, invalidate_target_exact,
}
use proxykit.S3.Entries.{Metadata}

program : Unit {0}
unfolding has_prefix contains drop_prefix split_byte parse_int range_parts range_start range_end
    range_suffix parse_range parse_uint digits_from add_digit digit_value fit_positive write_all
    joined cache_control_max_age header_get bytes_eq equal_fold trim_space
program = tt

parse_range_bounds_example : (2 ≤ 4) × (4 < 5)
unfolding program
parse_range_bounds_example = parse_range_bounds (codes "bytes=2-9") 5 2 4 refl

abbrev all_taken : Taken
all_taken = record { count = 100; fault = false }

abbrev chunks : List (Taken × Bytes)
chunks = (all_taken, codes "abc") ∷ (all_taken, codes "de") ∷ []

abbrev fresh_writer : LimitedWriter
fresh_writer = record { file = []; limit = 5; written = 0; exceeded = false; failed = false }

abbrev policy : Policy
policy = record {
  fresh_ttl = pos 60;
  versioned_ttl = pos 600;
  max_ttl = pos 30000000000;
  respect_private = true;
}

abbrev plain_get : Request
plain_get = record { range = []; version_id = [] }

abbrev aged : Bytes → Response
aged value = record { status = 200; header = (codes "Cache-Control", value ∷ []) ∷ [] }

abbrev target : Target
target = record {
  host = codes "S3.test";
  escaped_path = codes "/b/o";
  stable_query = codes "versionId=1";
}

abbrev security : Security
security = record { tenant = codes "acme"; subject = codes "u"; auth_scope = codes "k" }

target-IsPlain : IsPlain target security
unfolding has_byte to_lower lower
target-IsPlain = record {
  tenant = refl;
  subject = refl;
  auth_scope = refl;
  host = refl;
  path = refl;
}

same-IsPlain : IsPlain (record target { host = codes "s3.TEST" }) security
unfolding has_byte to_lower lower
same-IsPlain = record { tenant = refl; subject = refl; auth_scope = refl; host = refl; path = refl }

cache_key_isolates_example :
    (codes "acme" ≡ codes "acme")
    × (codes "u" ≡ codes "u")
    × (codes "k" ≡ codes "k")
    × (to_lower (codes "S3.test") ≡ to_lower (codes "s3.TEST"))
    × (codes "/b/o" ≡ codes "/b/o")
    × (codes "versionId=1" ≡ codes "versionId=1")
unfolding cache_key to_lower lower
cache_key_isolates_example =
    cache_key_isolates target (record target { host = codes "s3.TEST" }) security security
      target-IsPlain same-IsPlain refl

abbrev w : World
w = record { db_ok = λ _. true; remove_ok = λ _. true }

-- A cached body of the target.
abbrev disk : Cache
disk = record {
  dir = codes "/c";
  max_size = 0;
  ttl = pos 50;
  soft_evict_percent = 0;
  db = none;
  entries =
      record {
        key = body_key (cache_key target security);
        path = codes "/c/1";
        size = 3;
        created_at = 5;
        accessed_at = 5;
        expires_at = none;
      }
      ∷ [];
  total_size = 3;
  files = λ _. none;
}

invalidate_target_exact_example :
    (find
        (metadata_key (cache_key (record target { stable_query = [] }) security))
        (invalidate_target w target security disk).entries
      ≡ none)
    × (find
          (body_key (cache_key (record target { stable_query = [] }) security))
          (invalidate_target w target security disk).entries
        ≡ none)
    × (find
          (body_key (cache_key target security))
          (invalidate_target w target security disk).entries
        ≡ none)
unfolding find of_target key_prefix cache_key body_key to_lower lower
invalidate_target_exact_example =
    invalidate_target_exact w target security disk [] (body_key (cache_key target security))
      target-IsPlain (refl, tt)

abbrev metadata : Metadata
metadata = record {
  status_code = 200;
  header = [];
  etag = codes "e";
  last_modified = [];
  stored_at = 5;
  fresh_until = 90;
  has_body = true;
  body_size = 3;
}

abbrev signed_before : Outgoing
signed_before = record {
  header =
      (codes "authorization", codes "AWS4" ∷ []) ∷ (codes "Range", codes "bytes=0-1" ∷ []) ∷ [];
  query = (codes "X-Amz-Signature", codes "s" ∷ []) ∷ (codes "versionId", codes "1" ∷ []) ∷ [];
  has_body = false;
  content_length = pos 0;
}

abbrev signing_key : SigningKey
signing_key = record {
  access_key_id = codes "AK";
  secret_access_key = codes "SK";
  session_token = [];
  region = codes " ";
}

prepare-forgets_example :
    let p = prepare signing_key signed_before in
    (values_of (codes "X-Amz-Signature") p.request.query ≡ [])
    × (header_values (codes "Authorization") p.request.header ≡ [])
    × (bytes_eq p.payload_hash [] ≡ false)
    × (bytes_eq p.signing_region [] ≡ false)
unfolding is_unsigned is_credential is_signature_name header_get header_values bytes_eq has_prefix
    equal_fold to_lower lower trim_space
prepare-forgets_example =
    prepare-forgets signing_key signed_before (codes "Authorization") (codes "X-Amz-Signature")
