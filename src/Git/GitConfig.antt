-- ===== src/Git/GitConfig.antt =====
-- git/gitconfig.go: the Git configuration that a container is given. The environment is a function,
-- which gives the empty text for a name that is not set. A byte above 127 belongs to a printable
-- character for `%q`.
pub mod Lines
pub mod Base64
pub mod Settings
pub mod Sections
use proxykit.Prelude.{
  ℕ, zero, suc, ◌+◌, ◌-◌, ◌*◌, ◌/◌, ◌%◌, Bool, not, ◌&&◌, ◌||◌, Option, none, some, List, [], ◌∷◌,
  ◌++◌, if◌then◌else◌, ltb, leb, ◌==◌,
}
use proxykit.Prelude.Text.{Bytes, codes, bytes_eq, trim_space}

-- `GitHostCredential`.
pub record GitHostCredential : Type 0 where
  pub host : Bytes
  pub env_var : Bytes
  pub username : Bytes
  pub ssh_rewrite : Bool

-- A digit of base64.StdEncoding, for a number below 64.
pub base64_digit : ℕ → ℕ
base64_digit n =
    if ltb n 26
    then b'A' + n
    else if ltb n 52
    then b'a' + (n - 26)
    else if ltb n 62
    then b'0' + (n - 52)
    else if n == 62
    then b'+'
    else b'/'

-- `base64.StdEncoding.EncodeToString`.
pub encode_to_string : Bytes → Bytes
encode_to_string [] = []
encode_to_string (a ∷ []) = base64_digit (a / 4) ∷ base64_digit ((a % 4) * 16) ∷ b'=' ∷ b'=' ∷ []
encode_to_string (a ∷ b ∷ []) =
    base64_digit (a / 4)
    ∷ base64_digit ((a % 4) * 16 + b / 16)
    ∷ base64_digit ((b % 16) * 4)
    ∷ b'='
    ∷ []
encode_to_string (a ∷ b ∷ c ∷ s) =
    base64_digit (a / 4)
    ∷ base64_digit ((a % 4) * 16 + b / 16)
    ∷ base64_digit ((b % 16) * 4 + c / 64)
    ∷ base64_digit (c % 64)
    ∷ encode_to_string s

-- A digit of `%02x`.
pub hex_nibble : ℕ → ℕ
hex_nibble n = if ltb n 10 then b'0' + n else b'a' + (n - 10)

-- One byte under `%q`.
pub quote_byte : ℕ → Bytes
quote_byte c =
    if (c == 34) || (c == 92)
    then 92 ∷ c ∷ []
    else if leb 32 c && not (c == 127)
    then c ∷ []
    else if c == 7
    then codes "\\a"
    else if c == 8
    then codes "\\b"
    else if c == 9
    then codes "\\t"
    else if c == 10
    then codes "\\n"
    else if c == 11
    then codes "\\v"
    else if c == 12
    then codes "\\f"
    else if c == 13
    then codes "\\r"
    else codes "\\x" ++ (hex_nibble (c / 16) ∷ hex_nibble (c % 16) ∷ [])

pub quote_bytes : Bytes → Bytes
quote_bytes [] = []
quote_bytes (c ∷ s) = quote_byte c ++ quote_bytes s

-- `%q`.
pub quoted : Bytes → Bytes
quoted s = 34 ∷ (quote_bytes s ++ 34 ∷ [])

-- `GenerateStaticGitConfig`.
pub generate_static_git_config : Bytes → Bytes
generate_static_git_config ca_bundle_path =
    codes "# Generated by proxykit.\n"
    ++ (codes "# System Git configuration with proxy-aware settings.\n\n"
        ++ (codes "[core]\n"
            ++ (codes "\thooksPath = /dev/null\n"
                ++ (codes "\tsymlinks = false\n"
                    ++ (codes "\tautocrlf = input\n\n"
                        ++ ((if bytes_eq ca_bundle_path []
                              then []
                              else codes "[http]\n"
                                ++ (codes "\tsslCAInfo = " ++ (ca_bundle_path ++ codes "\n\n")))
                            ++ (codes "[credential]\n"
                                ++ (codes "\thelper = \"\"\n\n"
                                    ++ (codes "[safe]\n"
                                        ++ (codes "\tdirectory = *\n\n"
                                            ++ (codes "[user]\n"
                                                ++ (codes
                                                      "\temail = agentuity[bot]@users.noreply.github.com\n"
                                                    ++ codes "\tname = agentuity[bot]\n"))))))))))))

-- `# ── host ──` in UTF-8.
pub comment_line : Bytes → Bytes
comment_line host =
    codes "\n# "
    ++ (226
        ∷ 148
        ∷ 128
        ∷ 226
        ∷ 148
        ∷ 128
        ∷ 32
        ∷ (host ++ 32 ∷ 226 ∷ 148 ∷ 128 ∷ 226 ∷ 148 ∷ 128 ∷ codes "\n\n"))

-- What is written for a credential with a host, a user and a token.
pub host_section : Bytes → Bytes → Bool → Bytes
host_section host raw ssh_rewrite =
    comment_line host
    ++ (codes "[http "
        ++ (quoted (codes "https://" ++ host)
            ++ (codes "]\n"
                ++ (codes "\textraHeader = Authorization: Basic "
                    ++ (encode_to_string raw
                        ++ (codes "\n\n"
                            ++ (if ssh_rewrite
                                then codes "[url "
                                  ++ (quoted (codes "https://" ++ (host ++ codes "/"))
                                      ++ (codes "]\n"
                                          ++ (codes "\tinsteadOf = git@"
                                              ++ (host ++ codes ":\n\n"))))
                                else [])))))))

-- The user and the token of a credential, if it is used.
unfoldable pub basic_auth : (Bytes → Bytes) → GitHostCredential → Option Bytes
basic_auth env cred =
    let username = if bytes_eq cred.username [] then codes "x" else cred.username in
    let token = env cred.env_var in
    if bytes_eq (trim_space cred.host) [] || bytes_eq token []
    then none
    else some (username ++ (codes ":" ++ token))

-- A turn of the loop of `GenerateGitConfig`.
pub write_credential : (Bytes → Bytes) → GitHostCredential → Bytes
write_credential env cred = elim (basic_auth env cred) [
  | none ↦ []
  | some raw ↦ host_section (trim_space cred.host) raw cred.ssh_rewrite
]

pub write_credentials : (Bytes → Bytes) → List GitHostCredential → Bytes
write_credentials env [] = []
write_credentials env (cred ∷ creds) = write_credential env cred ++ write_credentials env creds

-- `GenerateGitConfig`.
pub generate_git_config : Bytes → Option (List GitHostCredential) → (Bytes → Bytes) → Bytes
generate_git_config ca_bundle_path none env = generate_static_git_config ca_bundle_path
generate_git_config ca_bundle_path (some creds) env =
    generate_static_git_config ca_bundle_path ++ write_credentials env creds
