-- ===== src/Git/Credentials.antt =====
-- git/git.go: `Validate` of a `GitCredentialConfig`. The map of the hosts that were seen is a list of them
-- with their indices, in lower case.
pub mod Valid
use proxykit.Prelude.{
  ℕ, ◌+◌, ◌≤◌, ◌⊎◌, ◌≡◌, refl, ◌↔◌, Bool, true, false, not, ◌&&◌, ◌||◌, Option, none, some, List,
  [], ◌∷◌, if◌then◌else◌, leb, ◌==◌, arith, All, Bool-cases, Option-cases, inl, inr,
}
use proxykit.Prelude.Text.{
  Bytes, bytes_eq, has_byte, trim_space, trim_left_space, trim_right_space, keep_right, is_space,
  to_lower,
}
use proxykit.Git.GitConfig.{GitHostCredential}

-- The errors of `Validate` for a credential; `duplicate_host` has the index of the first one.
pub data CredentialError : Type 0 where
  empty_host : ℕ → CredentialError
  not_a_hostname : ℕ → CredentialError
  duplicate_host : ℕ → ℕ → CredentialError
  empty_env : ℕ → CredentialError
  invalid_env : ℕ → CredentialError

-- `[A-Za-z_]`.
unfoldable pub is_name_start : ℕ → Bool
is_name_start c = (leb b'A' c && leb c b'Z') || ((leb b'a' c && leb c b'z') || (c == b'_'))

-- `[A-Za-z0-9_]*`, to the end of the text.
unfoldable pub is_name_rest : Bytes → Bool
unfolding is_name_start
is_name_rest [] = true
is_name_rest (c ∷ s) = (is_name_start c || (leb b'0' c && leb c b'9')) && is_name_rest s

-- `envVarNameRegexp`.
unfoldable pub is_env_var_name : Bytes → Bool
is_env_var_name [] = false
is_env_var_name (c ∷ s) = is_name_start c && is_name_rest s

-- `seen[host]`.
unfoldable pub seen_at : Bytes → List (Bytes × ℕ) → Option ℕ
seen_at host [] = none
seen_at host ((h, i) ∷ seen) = if bytes_eq h host then some i else seen_at host seen

-- A turn of the loop of `Validate`.
unfoldable pub check_credential : List (Bytes × ℕ) → ℕ → GitHostCredential → Option CredentialError
check_credential seen i cred =
    if bytes_eq (trim_space cred.host) []
    then some (empty_host i)
    else if has_byte b'/' cred.host || has_byte b':' cred.host
    then some (not_a_hostname i)
    else elim (seen_at (to_lower cred.host) seen) [
      | some first ↦ some (duplicate_host i first)
      | none ↦
          if bytes_eq (trim_space cred.env_var) []
          then some (empty_env i)
          else if not (is_env_var_name cred.env_var)
          then some (invalid_env i)
          else none
    ]

pub check_credentials : List (Bytes × ℕ) → ℕ → List GitHostCredential → Option CredentialError
check_credentials seen i [] = none
check_credentials seen i (cred ∷ creds) =
    let rest = check_credentials ((to_lower cred.host, i) ∷ seen) (i + 1) creds in
    elim (check_credential seen i cred) [ some e ↦ some e | none ↦ rest ]

-- `Validate`; `none` is success.
unfoldable pub validate : Option (List GitHostCredential) → Option CredentialError
validate none = none
validate (some creds) = check_credentials [] 0 creds
