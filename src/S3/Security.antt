-- ===== src/S3/Security.antt =====
-- s3/server.go and s3/signer.go: who a request comes from. The resolvers are functions of the
-- configuration, and SHA-256 is an argument; a resolver that returns an error is `none`.
pub mod Scope
use proxykit.Prelude.{
  ℕ, Bool, true, false, not, ◌&&◌, ◌||◌, Option, none, some, List, [], ◌∷◌, ◌++◌, if◌then◌else◌,
  ◌==◌, take,
}
use proxykit.Prelude.Text.{Bytes, codes, bytes_eq, trim_space, has_prefix, drop_prefix}
use proxykit.Http.{Header, header_get}
use proxykit.S3.Keys.{Security}

-- What the resolution reads of an `http.Request`.
pub record Credited : Type 0 where
  pub header : Header
  pub amz_credential : Bytes
  pub goog_credential : Bytes

pub record Identity : Type 0 where
  pub tenant : Bytes
  pub subject : Bytes

-- A `RequestSigner` changes the headers of the request, or fails.
abbrev pub Signer : Type 0
Signer = Header → Option Header

pub record SigningContext : Type 0 where
  pub scope : Bytes
  pub sign : Signer

pub record Credentials : Type 0 where
  access_key_id : Bytes
  pub scope : Bytes

-- The fields of `Config` that `resolveSecurity` reads; `sign_with` is the signature of the AWS library.
pub record Resolvers : Type 0 where
  pub identity_resolver : Option (Credited → Option (Identity × Bool))
  pub signing_resolver : Option (Credited → Identity → Option (SigningContext × Bool))
  pub credential_resolver : Option (Credited → Identity → Option (Credentials × Bool))
  pub credentials : Option Credentials
  pub sign_with : Credentials → Signer
  pub sha_hex : Bytes → Bytes

-- `requestSecurity`.
pub record Resolved : Type 0 where
  pub identity : Identity
  pub auth_scope : Bytes
  pub signer : Option Signer
  pub cacheable : Bool

-- The text behind the first `Credential=`, where there is one.
unfoldable pub after_credential : Bytes → Option Bytes
after_credential [] = none
after_credential (c ∷ s) =
    let rest = after_credential s in
    if has_prefix (c ∷ s) (codes "Credential=")
    then some (drop_prefix (c ∷ s) (codes "Credential="))
    else rest

pub trim_left_blank : Bytes → Bytes
trim_left_blank [] = []
trim_left_blank (c ∷ s) = if (c == 32) || (c == 9) then trim_left_blank s else c ∷ s

-- The text up to the first slash, comma, space or tab.
pub first_word : Bytes → Bytes
first_word [] = []
first_word (c ∷ s) =
    if (c == b'/') || ((c == b',') || ((c == 32) || (c == 9))) then [] else c ∷ first_word s

-- `credentialIdentity`.
pub credential_identity : Bytes → Bytes
unfolding after_credential trim_left_blank first_word
credential_identity raw =
    let value = trim_space raw in
    if bytes_eq value [] then [] else (elim (after_credential value) [
      | none ↦ first_word (trim_left_blank value)
      | some rest ↦ first_word (trim_left_blank rest)
    ])

-- `requestCredentialScope`.
pub request_credential_scope : (Bytes → Bytes) → Credited → Bytes
request_credential_scope sha_hex r =
    let from_header = credential_identity (header_get (codes "Authorization") r.header) in
    let from_amz = credential_identity r.amz_credential in
    let from_goog = credential_identity r.goog_credential in
    let identity =
      if not (bytes_eq from_header [])
      then from_header
      else if not (bytes_eq from_amz [])
      then from_amz
      else from_goog in
    if bytes_eq identity [] then codes "anonymous" else take 32 (sha_hex identity)

-- `credentialScope`.
unfoldable pub credential_scope : (Bytes → Bytes) → Credentials → Bytes
credential_scope sha_hex creds =
    let scope = trim_space creds.scope in
    if not (bytes_eq scope [])
    then scope
    else if bytes_eq creds.access_key_id []
    then codes "anonymous"
    else take 32 (sha_hex creds.access_key_id)

-- The first part of `resolveSecurity`: the identity, and whether it may be served from the cache.
unfoldable pub resolve_identity : Resolvers → Credited → Option Resolved
resolve_identity cfg r = elim cfg.identity_resolver [
  | none ↦ some (record {
    identity = record { tenant = codes "local"; subject = [] };
    auth_scope = [];
    signer = none;
    cacheable = true;
  })
  | some resolver ↦ elim (resolver r) [
    | none ↦ none
    | some (identity, ok) ↦ some (record {
      identity = identity;
      auth_scope = [];
      signer = none;
      cacheable = ok && not (bytes_eq (trim_space identity.tenant) []);
    })
  ]
]

-- A signing context that was resolved.
unfoldable pub with_context : SigningContext × Bool → Resolved → Resolved
with_context (context, false) found = found
with_context (context, true) found =
    let scope = trim_space context.scope in
    record found {
      signer = some context.sign;
      auth_scope = scope;
      cacheable = if bytes_eq scope [] then false else found.cacheable;
    }

-- Credentials that were resolved.
unfoldable pub with_credentials : Resolvers → Credentials × Bool → Resolved → Resolved
with_credentials cfg (creds, false) found = found
with_credentials cfg (creds, true) found = record found {
  auth_scope = credential_scope cfg.sha_hex creds;
  signer = some (cfg.sign_with creds);
}

-- The second part: the signer and its scope.
unfoldable pub resolve_signer : Resolvers → Credited → Resolved → Option Resolved
resolve_signer cfg r found = elim cfg.signing_resolver [
  | some resolver ↦ elim (resolver r found.identity) [
    | none ↦ none
    | some context ↦ some (with_context context found)
  ]
  | none ↦ elim cfg.credential_resolver [
    | some resolver ↦ elim (resolver r found.identity) [
      | none ↦ none
      | some creds ↦ some (with_credentials cfg creds found)
    ]
    | none ↦ elim cfg.credentials [
      | some creds ↦ some (with_credentials cfg (creds, true) found)
      | none ↦ some found
    ]
  ]
]

-- The third part: without a scope, the request's own credentials are one.
unfoldable pub with_own_scope : Resolvers → Credited → Resolved → Resolved
with_own_scope cfg r found =
    if bytes_eq found.auth_scope []
    then record found { auth_scope = request_credential_scope cfg.sha_hex r }
    else found

-- `resolveSecurity`.
unfoldable pub resolve_security : Resolvers → Credited → Option Resolved
resolve_security cfg r = elim (resolve_identity cfg r) [
  | none ↦ none
  | some found ↦ elim (resolve_signer cfg r found) [
    | none ↦ none
    | some signed ↦ some (with_own_scope cfg r signed)
  ]
]

-- The parts of the resolution that the cache key holds.
unfoldable pub key_security : Resolved → Security
key_security found = record {
  tenant = found.identity.tenant;
  subject = found.identity.subject;
  auth_scope = found.auth_scope;
}
