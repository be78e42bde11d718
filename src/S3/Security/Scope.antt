-- ===== src/S3/Security/Scope.antt =====
-- s3/signer.go: what `credentialIdentity` keeps of an `Authorization` header that is a scheme with a
-- token.
use proxykit.Prelude.{ℕ, ◌≡◌, ap, sym, ◌∙◌, none, ◌∷◌, ◌++◌, arith, take}
use proxykit.Prelude.Text.{
  Bytes, codes, bytes_eq, trim_space, trim_left_space, trim_right_space, trim_right_space-cons,
  has_prefix,
}
use proxykit.Http.{header_get}
use proxykit.S3.Security.{
  Credited, after_credential, trim_left_blank, first_word, credential_identity,
  request_credential_scope,
}

abbrev bearer : Bytes → Bytes
bearer token = codes "Bearer " ++ token

trim_bearer :
    (c : ℕ) (token : Bytes)
    → trim_right_space (c ∷ token) ≡ c ∷ token
    → trim_space (bearer (c ∷ token)) ≡ bearer (c ∷ token)
unfolding trim_space trim_left_space
trim_bearer c token h =
    let step = trim_right_space-cons in
    ap trim_left_space (
      step b'B' b'e' _ (
        step b'e' b'a' _ (
          step b'a' b'r' _
            (step b'r' b'e' _ (step b'e' b'r' _ (step b'r' 32 _ (step 32 c token h)))))))

credential_identity-bearer :
    (c : ℕ) (token : Bytes)
    → trim_right_space (c ∷ token) ≡ c ∷ token
    → after_credential (c ∷ token) ≡ none
    → credential_identity (bearer (c ∷ token)) ≡ codes "Bearer"
unfolding credential_identity after_credential has_prefix bytes_eq trim_left_blank first_word
credential_identity-bearer c token h plain = ground (arith, trim_bearer c token h, plain)

-- Two requests whose `Authorization` headers are `Bearer` with some token, which does not end with a
-- space and does not hold `Credential=`, have one credential scope, whatever the tokens.
pub request_credential_scope-bearer :
    (sha_hex : Bytes → Bytes) (r r' : Credited) (c c' : ℕ) (token token' : Bytes)
    → header_get (codes "Authorization") r.header ≡ bearer (c ∷ token)
    → header_get (codes "Authorization") r'.header ≡ bearer (c' ∷ token')
    → trim_right_space (c ∷ token) ≡ c ∷ token
    → trim_right_space (c' ∷ token') ≡ c' ∷ token'
    → after_credential (c ∷ token) ≡ none
    → after_credential (c' ∷ token') ≡ none
    → request_credential_scope sha_hex r ≡ request_credential_scope sha_hex r'
unfolding request_credential_scope bytes_eq
request_credential_scope-bearer sha_hex r r' c c' token token' sent sent' whole whole' plain
      plain' =
    own r c token sent whole plain ∙ sym (own r' c' token' sent' whole' plain')
  where
    own :
        (q : Credited) (d : ℕ) (rest : Bytes)
        → header_get (codes "Authorization") q.header ≡ bearer (d ∷ rest)
        → trim_right_space (d ∷ rest) ≡ d ∷ rest
        → after_credential (d ∷ rest) ≡ none
        → request_credential_scope sha_hex q ≡ take 32 (sha_hex (codes "Bearer"))
    own q d rest sent whole plain =
        ground (arith, ap credential_identity sent ∙ credential_identity-bearer d rest whole plain)
