-- ===== src/Git/GitConfig/Settings.antt =====
-- git/gitconfig.go: a reader of a Git configuration, line by line, and the settings of credentials.
use proxykit.Prelude.{◌≡◌, Bool, List, [], ◌∷◌, ◌++◌, if◌then◌else◌, ◌==◌, ◌⊎◌, ◌≢◌}
use proxykit.Prelude.Text.{Bytes, codes, bytes_eq, split_byte, trim_space, trim_left_space}
use proxykit.Git.GitConfig.{GitHostCredential, quoted}
use proxykit.Git.GitConfig.Base64.{decode_base64}

-- A setting is a line with the line of its section; blank lines and comments are none.
unfoldable pub read_lines : Bytes → List Bytes → List (Bytes × Bytes)
read_lines section [] = []
read_lines section ([] ∷ lines) = read_lines section lines
read_lines section ((c ∷ s) ∷ lines) =
    let inside = read_lines (c ∷ s) lines in
    let rest = read_lines section lines in
    if c == b'#'
    then rest
    else if c == b'['
    then inside
    else (section, trim_left_space (c ∷ s)) ∷ rest

unfoldable pub settings : Bytes → List (Bytes × Bytes)
settings text = read_lines [] (split_byte 10 text)

-- The settings in every generated configuration, with the bundle's if it has a path.
abbrev pub static_settings : Bytes → List (Bytes × Bytes)
static_settings ca_bundle_path =
    (codes "[core]", codes "hooksPath = /dev/null")
    ∷ (codes "[core]", codes "symlinks = false")
    ∷ (codes "[core]", codes "autocrlf = input")
    ∷ ((if bytes_eq ca_bundle_path []
          then []
          else (codes "[http]", codes "sslCAInfo = " ++ ca_bundle_path) ∷ [])
        ++ (codes "[credential]", codes "helper = \"\"")
          ∷ (codes "[safe]", codes "directory = *")
          ∷ (codes "[user]", codes "email = agentuity[bot]@users.noreply.github.com")
          ∷ (codes "[user]", codes "name = agentuity[bot]")
          ∷ [])

-- The settings of a credential that is used, with the text of its user and its token.
abbrev pub host_settings : Bytes → Bytes → Bool → List (Bytes × Bytes)
host_settings host encoded ssh_rewrite =
    (
      codes "[http " ++ (quoted (codes "https://" ++ host) ++ codes "]"),
      codes "extraHeader = Authorization: Basic " ++ encoded,
    )
    ∷ (if ssh_rewrite
        then (
          codes "[url " ++ (quoted (codes "https://" ++ (host ++ codes "/")) ++ codes "]"),
          codes "insteadOf = git@" ++ (host ++ codes ":"),
        )
          ∷ []
        else [])

-- The user and the token of a credential, with the user `x` where none is named.
abbrev pub user_and_token : GitHostCredential → Bytes → Bytes
user_and_token cred token =
    (if bytes_eq cred.username [] then codes "x" else cred.username) ++ (b':' ∷ token)

-- What is to be read for a list of credentials: nothing for one whose host is blank or whose variable is
-- empty, and for every other one the settings of its host, with a text that is its user and its token
-- in base64.
pub data AreSettings (env : Bytes → Bytes)
    : List GitHostCredential → List (Bytes × Bytes) → Type 0 where
  nothing : AreSettings env [] []
  unused :
      {creds : List GitHostCredential} {ss : List (Bytes × Bytes)} (cred : GitHostCredential)
      → (trim_space cred.host ≡ []) ⊎ (env cred.env_var ≡ [])
      → AreSettings env creds ss
      → AreSettings env (cred ∷ creds) ss
  used :
      {creds : List GitHostCredential} {ss : List (Bytes × Bytes)} (cred : GitHostCredential)
      (encoded : Bytes)
      → trim_space cred.host ≢ []
      → env cred.env_var ≢ []
      → decode_base64 encoded ≡ user_and_token cred (env cred.env_var)
      → AreSettings env creds ss
      → AreSettings env
          (cred ∷ creds)
          (host_settings (trim_space cred.host) encoded cred.ssh_rewrite ++ ss)
