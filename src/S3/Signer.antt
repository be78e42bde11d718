-- ===== src/S3/Signer.antt =====
-- s3/signer.go: `signRequest`. The credentials of the AWS library and its signature are one argument,
-- which is given the prepared request, the hash of its body and the region.
use proxykit.Prelude.{
  ◌≡◌, refl, ap, ◌∙◌, Bool, true, false, not, ◌&&◌, ◌||◌, Option, List, [], ◌∷◌, ◌++◌,
  if◌then◌else◌, arith, Bool-cases, inl, inr,
}
use proxykit.Prelude.Int.{ℤ, is_zero}
use proxykit.Prelude.Text.{
  Bytes, codes, bytes_eq, bytes_eq→eq, has_prefix, trim_space, equal_fold, to_lower,
}
use proxykit.Http.{Header, header_get, header_set, header_del}
use proxykit.Http.Lookup.{
  header_get-header_del, header_values, header_values-set, header_values-del,
}
use proxykit.S3.Target.{Values, is_signing_key, without_signature}

-- What is read and changed of the request to the upstream server; the values of the query are
-- encoded again.
pub record Outgoing : Type 0 where
  pub header : Header
  pub query : Values
  pub has_body : Bool
  pub content_length : ℤ

-- `Credentials`, without the scope.
pub record SigningKey : Type 0 where
  pub access_key_id : Bytes
  pub secret_access_key : Bytes
  pub session_token : Bytes
  pub region : Bytes

-- What the AWS library is given: the request, the body's hash and the region.
pub record Prepared : Type 0 where
  pub request : Outgoing
  pub payload_hash : Bytes
  pub signing_region : Bytes

-- `emptyPayloadSHA256`.
abbrev empty_payload_sha256 : Bytes
empty_payload_sha256 = codes "e3b0c44298fc1c149afbf4c8996fb92427ae41e4649b934ca495991b7852b855"

abbrev content_sha256 : Bytes
content_sha256 = codes "X-Amz-Content-Sha256"

-- The three headers that are deleted.
unfoldable without_credentials : Header → Header
without_credentials h =
    header_del (codes "X-Amz-Security-Token")
      (header_del (codes "X-Amz-Date") (header_del (codes "Authorization") h))

-- The hash of the body, and the header with it.
unfoldable with_payload : Bytes → Bool → Header → Bytes × Header
with_payload given is_empty h =
    if not (bytes_eq given [])
    then (given, h)
    else if is_empty
    then (empty_payload_sha256, h)
    else (codes "UNSIGNED-PAYLOAD", header_set content_sha256 (codes "UNSIGNED-PAYLOAD") h)

-- The part of `signRequest` in front of the signature, `stripSigningQuery` with it.
pub prepare : SigningKey → Outgoing → Prepared
prepare creds r =
    let h = without_credentials r.header in
    let region = trim_space creds.region in
    let given = trim_space (header_get content_sha256 h) in
    let (payload_hash, header) =
      with_payload given (not r.has_body || is_zero r.content_length) h in
    record {
      request = record r { header = header; query = without_signature r.query };
      payload_hash = payload_hash;
      signing_region = if bytes_eq region [] then codes "us-east-1" else region;
    }

-- `signRequest`; an error of the credentials or of the signature is `none`.
unfoldable sign_request :
    (SigningKey → Prepared → Option Outgoing) → SigningKey → Outgoing → Option Outgoing
sign_request sign creds r = sign creds (prepare creds r)

-- A parameter of a signature: its name begins with `x-amz-` or `x-goog-`, in any case.
unfoldable pub is_signature_name : Bytes → Bool
is_signature_name key =
    has_prefix (to_lower key) (codes "x-amz-") || has_prefix (to_lower key) (codes "x-goog-")

-- All the values of a parameter.
unfoldable pub values_of : Bytes → Values → List Bytes
values_of key [] = []
values_of key ((k, vs) ∷ q) =
    let rest = values_of key q in if bytes_eq k key then vs ++ rest else rest

values_of-without_signature :
    (key : Bytes) (q : Values)
    → values_of key (without_signature q) ≡ (if is_signature_name key then [] else values_of key q)
unfolding without_signature values_of is_signature_name is_signing_key
values_of-without_signature key [] = ground arith
values_of-without_signature key ((k, vs) ∷ q) = elim (Bool-cases (bytes_eq k key)) [
  | inl same ↦ rw (bytes_eq→eq k key same) (ground (arith, values_of-without_signature key q))
  | inr other ↦ ground (arith, other, values_of-without_signature key q)
]

-- A name of one of the headers that are deleted.
unfoldable pub is_credential : Bytes → Bool
is_credential name =
    equal_fold (codes "Authorization") name
    || (equal_fold (codes "X-Amz-Date") name || equal_fold (codes "X-Amz-Security-Token") name)

header_get-without_credentials :
    (h : Header) (name : Bytes)
    → header_get name (without_credentials h)
      ≡ (if is_credential name then [] else header_get name h)
unfolding without_credentials is_credential
header_get-without_credentials h name =
    let h₁ = header_del (codes "Authorization") h in
    let h₂ = header_del (codes "X-Amz-Date") h₁ in
    ground (
      arith,
      header_get-header_del (codes "Authorization") name h,
      header_get-header_del (codes "X-Amz-Date") name h₁,
      header_get-header_del (codes "X-Amz-Security-Token") name h₂,
    )

-- The body has content, and the client gave no hash of it.
unfoldable pub is_unsigned : Outgoing → Bool
is_unsigned r =
    bytes_eq (trim_space (header_get content_sha256 r.header)) []
    && (r.has_body && not (is_zero r.content_length))

header_values-without_credentials :
    (h : Header) (name : Bytes)
    → header_values name (without_credentials h)
      ≡ (if is_credential name then [] else header_values name h)
unfolding without_credentials is_credential
header_values-without_credentials h name =
    let h₁ = header_del (codes "Authorization") h in
    let h₂ = header_del (codes "X-Amz-Date") h₁ in
    ground (
      arith,
      header_values-del (codes "Authorization") name h,
      header_values-del (codes "X-Amz-Date") name h₁,
      header_values-del (codes "X-Amz-Security-Token") name h₂,
    )

given_kept :
    (r : Outgoing)
    → header_get content_sha256 (without_credentials r.header) ≡ header_get content_sha256 r.header
given_kept r = header_get-without_credentials r.header content_sha256 ∙ not_a_credential
  where
    not_a_credential :
        (if is_credential content_sha256 then [] else header_get content_sha256 r.header)
        ≡ header_get content_sha256 r.header
    not_a_credential = unfold is_credential equal_fold to_lower bytes_eq in refl

header_values-with_payload :
    (given name : Bytes) (is_empty : Bool) (h : Header)
    → header_values name (with_payload given is_empty h).1 ≡ (
        if bytes_eq given [] && (not is_empty && equal_fold content_sha256 name)
        then codes "UNSIGNED-PAYLOAD" ∷ []
        else header_values name h)
unfolding with_payload
header_values-with_payload given name true h = elim (Bool-cases (bytes_eq given [])) [
  | inl missing ↦ rw missing refl
  | inr set ↦ rw set refl
]
header_values-with_payload given name false h = elim (Bool-cases (bytes_eq given [])) [
  | inl missing ↦ rw missing (header_values-set content_sha256 name (codes "UNSIGNED-PAYLOAD") h)
  | inr set ↦ rw set refl
]

with_payload-full :
    (given : Bytes) (is_empty : Bool) (h : Header)
    → bytes_eq (with_payload given is_empty h).0 [] ≡ false
unfolding with_payload bytes_eq
with_payload-full given true h = elim (Bool-cases (bytes_eq given [])) [
  | inl missing ↦ rw missing refl
  | inr set ↦ rw set set
]
with_payload-full given false h = elim (Bool-cases (bytes_eq given [])) [
  | inl missing ↦ rw missing refl
  | inr set ↦ rw set set
]

region_full :
    (region : Bytes)
    → bytes_eq (if bytes_eq region [] then codes "us-east-1" else region) [] ≡ false
region_full region = elim (Bool-cases (bytes_eq region [])) [
  | inl missing ↦ rw missing (unfold bytes_eq in refl)
  | inr set ↦ rw set set
]

-- What the signature is given of a request: no value of a parameter whose name begins with `x-amz-` or
-- `x-goog-` in any case, and all values of every other one; no value of the headers `Authorization`,
-- `X-Amz-Date` and `X-Amz-Security-Token`, and all values of every other header, but for the mark of an
-- unsigned body where there is one without a hash; and a hash and a region that are not empty.
pub prepare-forgets :
    (creds : SigningKey) (r : Outgoing) (name key : Bytes)
    → let p = prepare creds r in
      (values_of key p.request.query
        ≡ (if is_signature_name key then [] else values_of key r.query))
      × (header_values name p.request.header ≡ (
          if is_unsigned r && equal_fold content_sha256 name
          then codes "UNSIGNED-PAYLOAD" ∷ []
          else if is_credential name
          then []
          else header_values name r.header))
      × (bytes_eq p.payload_hash [] ≡ false)
      × (bytes_eq p.signing_region [] ≡ false)
unfolding prepare is_unsigned
prepare-forgets creds r name key =
    let h = without_credentials r.header in
    let given = trim_space (header_get content_sha256 h) in
    let is_empty = not r.has_body || is_zero r.content_length in
    let same : bytes_eq given [] ≡ bytes_eq (trim_space (header_get content_sha256 r.header)) [] =
      ap (λ g. bytes_eq (trim_space g) []) (given_kept r) in
    (
      values_of-without_signature key r.query,
      ground (
        arith,
        header_values-with_payload given name is_empty h,
        same,
        header_values-without_credentials r.header name,
      ),
      with_payload-full given is_empty h,
      region_full (trim_space creds.region),
    )
