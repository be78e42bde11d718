-- ===== src/Git/GitConfig/Sections.antt =====
-- git/gitconfig.go: what a reader of a Git configuration finds in a generated one.
use mathlib.Core.List.{append_assoc}
use proxykit.Prelude.{
  ◌≡◌, refl, ap, ◌∙◌, Bool, true, false, none, some, List, [], ◌∷◌, ◌++◌, if◌then◌else◌, arith, All,
  Bool-cases, ◌⊎◌, ◌≢◌, inl, inr,
}
use proxykit.Prelude.Text.{
  Bytes, codes, bytes_eq, bytes_eq→eq, eq→bytes_eq, has_byte, split_from, split_byte, trim_space,
  trim_left_space, is_space,
}
use proxykit.Git.GitConfig.{
  GitHostCredential, encode_to_string, quoted, generate_static_git_config, comment_line,
  host_section, basic_auth, write_credential, write_credentials, generate_git_config,
}
use proxykit.Git.GitConfig.Base64.{AreBytes, decode-encode_to_string}
use proxykit.Git.GitConfig.Lines.{
  OneLine, unlines, split_byte-unlines, OneLine-append, encode_to_string-OneLine, quoted-OneLine,
}
use proxykit.Git.GitConfig.Settings.{
  read_lines, settings, static_settings, user_and_token, host_settings, AreSettings, nothing,
  unused, used,
}

abbrev static_lines : Bytes → List Bytes
static_lines ca_bundle_path =
    codes "# Generated by proxykit."
    ∷ codes "# System Git configuration with proxy-aware settings."
    ∷ []
    ∷ codes "[core]"
    ∷ codes "\thooksPath = /dev/null"
    ∷ codes "\tsymlinks = false"
    ∷ codes "\tautocrlf = input"
    ∷ []
    ∷ ((if bytes_eq ca_bundle_path []
          then []
          else codes "[http]" ∷ (codes "\tsslCAInfo = " ++ ca_bundle_path) ∷ [] ∷ [])
        ++ codes "[credential]"
          ∷ codes "\thelper = \"\""
          ∷ []
          ∷ codes "[safe]"
          ∷ codes "\tdirectory = *"
          ∷ []
          ∷ codes "[user]"
          ∷ codes "\temail = agentuity[bot]@users.noreply.github.com"
          ∷ codes "\tname = agentuity[bot]"
          ∷ [])

static-unlines : (ca : Bytes) → generate_static_git_config ca ≡ unlines (static_lines ca)
unfolding generate_static_git_config
static-unlines ca = elim (Bool-cases (bytes_eq ca [])) [
  | inl empty ↦ rw empty refl
  | inr given ↦ rw given (simp append_assoc)
]

abbrev plain_lines : Bytes → Bytes → List Bytes
plain_lines host raw =
    []
    ∷ (codes "# "
        ++ (226
            ∷ 148
            ∷ 128
            ∷ 226
            ∷ 148
            ∷ 128
            ∷ 32
            ∷ (host ++ 32 ∷ 226 ∷ 148 ∷ 128 ∷ 226 ∷ 148 ∷ 128 ∷ [])))
    ∷ []
    ∷ (codes "[http " ++ (quoted (codes "https://" ++ host) ++ codes "]"))
    ∷ (codes "\textraHeader = Authorization: Basic " ++ encode_to_string raw)
    ∷ []
    ∷ []

abbrev rewrite_lines : Bytes → List Bytes
rewrite_lines host =
    (codes "[url " ++ (quoted (codes "https://" ++ (host ++ codes "/")) ++ codes "]"))
    ∷ (codes "\tinsteadOf = git@" ++ (host ++ codes ":"))
    ∷ []
    ∷ []

host_section-unlines :
    (host raw : Bytes) (ssh_rewrite : Bool)
    → host_section host raw ssh_rewrite
      ≡ unlines (plain_lines host raw) ++ unlines (if ssh_rewrite then rewrite_lines host else [])
unfolding host_section comment_line
host_section-unlines host raw true = simp append_assoc
host_section-unlines host raw false = simp append_assoc

static_lines-OneLine : (ca : Bytes) → OneLine ca → All OneLine (static_lines ca)
unfolding has_byte
static_lines-OneLine ca h = elim (Bool-cases (bytes_eq ca [])) [
  | inl empty ↦ rw empty (ground arith)
  | inr given ↦ rw given (ground (arith, h))
]

settings-static :
    (ca rest : Bytes)
    → OneLine ca
    → settings (generate_static_git_config ca ++ rest)
      ≡ static_settings ca ++ read_lines (codes "[user]") (split_byte 10 rest)
unfolding settings read_lines trim_left_space is_space
settings-static ca rest h =
    ap (λ t. settings (t ++ rest)) (static-unlines ca)
    ∙ ap (read_lines []) (split_byte-unlines (static_lines ca) rest (static_lines-OneLine ca h))
    ∙ elim (Bool-cases (bytes_eq ca [])) [ inl empty ↦ rw empty refl | inr given ↦ rw given refl ]

plain_lines-OneLine : (host raw : Bytes) → OneLine host → All OneLine (plain_lines host raw)
unfolding has_byte
plain_lines-OneLine host raw h =
    let comment : OneLine (host ++ 32 ∷ 226 ∷ 148 ∷ 128 ∷ 226 ∷ 148 ∷ 128 ∷ []) =
      OneLine-append host (32 ∷ 226 ∷ 148 ∷ 128 ∷ 226 ∷ 148 ∷ 128 ∷ []) h refl in
    let section : OneLine (quoted (codes "https://" ++ host) ++ codes "]") =
      OneLine-append (quoted (codes "https://" ++ host)) (codes "]")
        (quoted-OneLine (codes "https://" ++ host)) refl in
    (refl, (comment, (refl, (section, (encode_to_string-OneLine raw, (refl, tt))))))

rewrite_lines-OneLine : (host : Bytes) → OneLine host → All OneLine (rewrite_lines host)
unfolding has_byte
rewrite_lines-OneLine host h =
    let url = codes "https://" ++ (host ++ codes "/") in
    (
      OneLine-append (quoted url) (codes "]") (quoted-OneLine url) refl,
      (OneLine-append host (codes ":") h refl, (refl, tt)),
    )

section_behind : Bytes → Bool → Bytes
section_behind host ssh_rewrite =
    if ssh_rewrite
    then codes "[url " ++ (quoted (codes "https://" ++ (host ++ codes "/")) ++ codes "]")
    else codes "[http " ++ (quoted (codes "https://" ++ host) ++ codes "]")

-- What is read from a text behind a section's line.
abbrev read_from : Bytes → Bytes → List (Bytes × Bytes)
read_from section text = read_lines section (split_byte 10 text)

read_from-host :
    (section host raw : Bytes) (ssh_rewrite : Bool) (rest : Bytes)
    → OneLine host
    → read_from section (host_section host raw ssh_rewrite ++ rest)
      ≡ host_settings host (encode_to_string raw) ssh_rewrite
        ++ read_from (section_behind host ssh_rewrite) rest
unfolding read_lines trim_left_space is_space section_behind
read_from-host section host raw true rest h =
    ap (λ t. read_from section (t ++ rest)) (host_section-unlines host raw true)
    ∙ ap (read_from section)
        (append_assoc (unlines (plain_lines host raw)) (unlines (rewrite_lines host)) rest)
    ∙ ap (read_lines section) (
        split_byte-unlines (plain_lines host raw) (unlines (rewrite_lines host) ++ rest)
          (plain_lines-OneLine host raw h)
        ∙ ap (λ ls. plain_lines host raw ++ ls)
            (split_byte-unlines (rewrite_lines host) rest (rewrite_lines-OneLine host h)))
read_from-host section host raw false rest h =
    ap (λ t. read_from section (t ++ rest)) (host_section-unlines host raw false)
    ∙ ap (read_from section) (append_assoc (unlines (plain_lines host raw)) [] rest)
    ∙ ap (read_lines section)
        (split_byte-unlines (plain_lines host raw) rest (plain_lines-OneLine host raw h))

-- A credential is used where it has a host and a token.
basic_auth-cases :
    (env : Bytes → Bytes) (cred : GitHostCredential)
    → ((basic_auth env cred ≡ none) × ((trim_space cred.host ≡ []) ⊎ (env cred.env_var ≡ [])))
      ⊎ ((basic_auth env cred ≡ some (user_and_token cred (env cred.env_var)))
          × (trim_space cred.host ≢ [])
          × (env cred.env_var ≢ []))
unfolding basic_auth
basic_auth-cases env cred = elim (Bool-cases (bytes_eq (trim_space cred.host) [])) [
  | inl blank ↦ inl (ground (arith, blank), inl (bytes_eq→eq _ _ blank))
  | inr host ↦ elim (Bool-cases (bytes_eq (env cred.env_var) [])) [
    | inl missing ↦ inl (ground (arith, host, missing), inr (bytes_eq→eq _ _ missing))
    | inr token ↦ inr (
      ground (arith, host, token),
      λ e. cc (host, eq→bytes_eq _ _ e),
      λ e. cc (token, eq→bytes_eq _ _ e),
    )
  ]
]

read_from-credentials :
    (env : Bytes → Bytes) (section : Bytes) (creds : List GitHostCredential)
    → All (λ cred. OneLine (trim_space cred.host)) creds
    → All (λ cred. AreBytes (user_and_token cred (env cred.env_var))) creds
    → (ss : List (Bytes × Bytes)) × (read_from section (write_credentials env creds) ≡ ss)
      × AreSettings env creds ss
unfolding write_credentials write_credential split_byte split_from read_lines
read_from-credentials env section [] h b = ([], refl, nothing)
read_from-credentials env section (cred ∷ creds) (h, hs) (b, bs) =
    elim (basic_auth-cases env cred) [
      | inl (none_written, lacks) ↦
          let (ss, read, are) = read_from-credentials env section creds hs bs in
          (ss, rw (none_written, write_credential) read, unused cred lacks are)
      | inr (written, host_given, token_given) ↦
          let host = trim_space cred.host in
          let raw = user_and_token cred (env cred.env_var) in
          let (ss, read, are) =
            read_from-credentials env (section_behind host cred.ssh_rewrite) creds hs bs in
          (
            host_settings host (encode_to_string raw) cred.ssh_rewrite ++ ss,
            rw (written, write_credential)
                (read_from-host section host raw cred.ssh_rewrite (write_credentials env creds) h
                  ∙ ap (λ rest. host_settings host (encode_to_string raw) cred.ssh_rewrite ++ rest)
                      read),
            used cred (encode_to_string raw) host_given token_given (decode-encode_to_string raw b)
                are,
          )
    ]

-- Where neither the path of the bundle nor a host without the space around it holds a newline, and users
-- and tokens are texts of bytes, what a reader finds line by line in a generated configuration is, in
-- this order: the fixed settings, among them the bundle's path if there is one; and for each credential
-- that has a host and a token the header whose base64 text reads as its user, or `x`, a colon and its
-- token, and the rewriting of SSH addresses where it asks for that, while every other credential adds
-- nothing.
pub settings-generate :
    (ca_bundle_path : Bytes) (creds : List GitHostCredential) (env : Bytes → Bytes)
    → OneLine ca_bundle_path
    → All (λ cred. OneLine (trim_space cred.host)) creds
    → All (λ cred. AreBytes (user_and_token cred (env cred.env_var))) creds
    → (ss : List (Bytes × Bytes)) × (settings (generate_git_config ca_bundle_path (some creds) env)
        ≡ static_settings ca_bundle_path ++ ss)
      × AreSettings env creds ss
unfolding generate_git_config
settings-generate ca_bundle_path creds env h hs bs =
    let (ss, read, are) = read_from-credentials env (codes "[user]") creds hs bs in
    (
      ss,
      settings-static ca_bundle_path (write_credentials env creds) h
          ∙ ap (◌++◌ (static_settings ca_bundle_path)) read,
      are,
    )
