-- ===== src/S3/Target.antt =====
-- s3/server.go: `targetURL`, the parts of `cacheKey` that depend on the URL, and `cachePolicy`.
-- A query is the map that `net/url` makes of it; `escaped_path` and `query_escape` are its functions.
pub mod SameKey
use proxykit.Prelude.{
  ℕ, ◌≡◌, refl, Bool, true, false, ◌&&◌, ◌||◌, not, Option, none, some, List, [], ◌∷◌, ◌++◌,
  if◌then◌else◌, ltb, ◌==◌, arith,
}
use proxykit.Prelude.Text.{Bytes, codes, bytes_eq, has_prefix, trim_suffix, to_lower, has_byte}
use proxykit.S3.Keys.{Target}

abbrev pub Values : Type 0
Values = List (Bytes × List Bytes)

pub record Url : Type 0 where
  pub scheme : Bytes
  pub host : Bytes
  pub path : Bytes
  pub raw_path : Bytes
  pub query : Values

-- `escaped_path` is given the path and the raw path.
pub record UrlLibrary : Type 0 where
  pub escaped_path : Bytes → Bytes → Bytes
  pub query_escape : Bytes → Bytes

-- `joinURLPath`.
unfoldable join_url_path : Bytes → Bytes → Bytes
unfolding trim_suffix has_prefix
join_url_path base [] = trim_suffix base (codes "/") ++ codes "/"
join_url_path base (c ∷ path) =
    trim_suffix base (codes "/")
    ++ (if has_prefix (c ∷ path) (codes "/") then c ∷ path else codes "/" ++ c ∷ path)

-- `query.Add`.
unfoldable values_add : Bytes → Bytes → Values → Values
values_add key value [] = (key, value ∷ []) ∷ []
values_add key value ((k, vs) ∷ q) =
    let rest = values_add key value q in
    if bytes_eq k key then (k, vs ++ value ∷ []) ∷ q else (k, vs) ∷ rest

unfoldable add_each : Bytes → List Bytes → Values → Values
unfolding values_add
add_each key [] q = q
add_each key (v ∷ vs) q = add_each key vs (values_add key v q)

-- The values of a query, added to another.
unfoldable values_merge : Values → Values → Values
unfolding add_each
values_merge [] q = q
values_merge ((key, vs) ∷ own) q = values_merge own (add_each key vs q)

module _ (lib : UrlLibrary) where
  -- The target below a configured upstream.
  unfoldable below_upstream : Url → Url → Url
  unfolding join_url_path values_merge
  below_upstream up url =
      let path = join_url_path up.path url.path in
      let joined =
        join_url_path (lib.escaped_path up.path up.raw_path)
          (lib.escaped_path url.path url.raw_path) in
      record up {
        path = path;
        raw_path = if bytes_eq joined (lib.escaped_path path up.raw_path) then [] else joined;
        query = values_merge url.query up.query;
      }

  -- `targetURL`; `none` is its error.
  unfoldable pub target_url : Option Url → Bytes → Bytes → Url → Option Url
  unfolding below_upstream
  target_url (some up) scheme host url = some (below_upstream up url)
  target_url none scheme host url =
      if not (bytes_eq url.scheme [])
      then some url
      else if bytes_eq host []
      then none
      else some (record url { scheme = scheme; host = host })

-- A parameter of a signature in the query.
unfoldable pub is_signing_key : Bytes → Bool
is_signing_key key =
    has_prefix (to_lower key) (codes "x-amz-") || has_prefix (to_lower key) (codes "x-goog-")

unfoldable pub without_signature : Values → Values
without_signature [] = []
without_signature ((k, vs) ∷ q) =
    let rest = without_signature q in if is_signing_key k then rest else (k, vs) ∷ rest

-- The order of `sort.Strings`: `s` stands in front of `t`, or they are equal.
pub bytes_le : Bytes → Bytes → Bool
bytes_le [] t = true
bytes_le (a ∷ s) [] = false
bytes_le (a ∷ s) (b ∷ t) = if a == b then bytes_le s t else ltb a b

unfoldable insert_text : Bytes → List Bytes → List Bytes
insert_text s [] = s ∷ []
insert_text s (t ∷ ts) =
    let rest = insert_text s ts in if bytes_le s t then s ∷ t ∷ ts else t ∷ rest

-- `sort.Strings`.
unfoldable sort_texts : List Bytes → List Bytes
unfolding insert_text
sort_texts [] = []
sort_texts (s ∷ ts) = insert_text s (sort_texts ts)

pub insert_key : Bytes × List Bytes → Values → Values
insert_key (k, vs) [] = (k, vs) ∷ []
insert_key (k, vs) ((j, us) ∷ q) =
    let rest = insert_key (k, vs) q in
    if bytes_le k j then (k, vs) ∷ (j, us) ∷ q else (j, us) ∷ rest

pub sort_keys : Values → Values
unfolding insert_key
sort_keys [] = []
sort_keys (kv ∷ q) = insert_key kv (sort_keys q)

module _ (lib : UrlLibrary) where
  unfoldable key_pairs : Bytes → List Bytes → List Bytes
  key_pairs key [] = []
  key_pairs key (v ∷ vs) =
      (lib.query_escape key ++ (codes "=" ++ lib.query_escape v)) ∷ key_pairs key vs

  -- The pairs of one key: its name alone, where it has no value.
  unfoldable pairs_of_key : Bytes → List Bytes → List Bytes
  unfolding key_pairs sort_texts
  pairs_of_key key [] = lib.query_escape key ∷ []
  pairs_of_key key (v ∷ vs) = key_pairs key (sort_texts (v ∷ vs))

  pub all_pairs : Values → List Bytes
  unfolding pairs_of_key
  all_pairs [] = []
  all_pairs ((k, vs) ∷ q) = pairs_of_key k vs ++ all_pairs q

-- `strings.Join(pairs, "&")`.
pub join_pairs : List Bytes → Bytes
join_pairs [] = []
join_pairs (p ∷ []) = p
join_pairs (p ∷ p' ∷ ps) = p ++ (codes "&" ++ join_pairs (p' ∷ ps))

-- `encodeSortedQuery`.
pub encode_sorted_query : UrlLibrary → Values → Bytes
unfolding all_pairs join_pairs
encode_sorted_query lib q = join_pairs (all_pairs lib (sort_keys q))

-- The parts of the target that `cacheKey` reads.
unfoldable pub key_target : UrlLibrary → Url → Target
unfolding without_signature
key_target lib url = record {
  host = url.host;
  escaped_path = lib.escaped_path url.path url.raw_path;
  stable_query = encode_sorted_query lib (without_signature url.query);
}

-- The parameters of requests that are not for one object.
abbrev uncached_keys : List Bytes
uncached_keys =
    codes "list-type"
    ∷ codes "prefix"
    ∷ codes "delimiter"
    ∷ codes "continuation-token"
    ∷ codes "uploads"
    ∷ codes "uploadId"
    ∷ codes "acl"
    ∷ codes "tagging"
    ∷ codes "location"
    ∷ codes "versions"
    ∷ codes "object-lock"
    ∷ []

unfoldable has_key : Bytes → Values → Bool
has_key key [] = false
has_key key ((k, vs) ∷ q) = bytes_eq k key || has_key key q

unfoldable has_any_key : List Bytes → Values → Bool
unfolding has_key
has_any_key [] q = false
has_any_key (key ∷ keys) q = has_key key q || has_any_key keys q

unfoldable trim_left_slash : Bytes → Bytes
trim_left_slash [] = []
trim_left_slash (c ∷ s) = let rest = trim_left_slash s in if c == b'/' then rest else c ∷ s

unfoldable keep_unless_slash : ℕ → Bytes → Bytes
keep_unless_slash c [] = if c == b'/' then [] else c ∷ []
keep_unless_slash c (d ∷ r) = c ∷ d ∷ r

unfoldable trim_right_slashes : Bytes → Bytes
unfolding keep_unless_slash
trim_right_slashes [] = []
trim_right_slashes (c ∷ s) = keep_unless_slash c (trim_right_slashes s)

-- `cachePolicy` where the configuration has none of its own.
unfoldable pub default_policy : Bool → Bytes → Values → Bool
unfolding trim_left_slash trim_right_slashes has_any_key has_byte
default_policy path_style url_path q =
    let path = trim_left_slash (trim_right_slashes url_path) in
    if bytes_eq path []
    then false
    else if path_style && not (has_byte b'/' path)
    then false
    else not (has_any_key uncached_keys q)
