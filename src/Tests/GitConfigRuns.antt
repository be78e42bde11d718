-- ===== src/Tests/GitConfigRuns.antt =====
-- git/git.go and git/gitconfig.go: a configuration and credentials, and the theorems about them.
use proxykit.Prelude.{
  ◌≡◌, ◌↔◌, refl, true, false, none, some, arith, List, [], ◌∷◌, ◌++◌, All, if◌then◌else◌,
}
use proxykit.Prelude.Int.{pos, negsuc, less}
use proxykit.Prelude.Text.{Bytes, codes, bytes_eq, has_byte, trim_space}
use proxykit.Cache.State.{Cache}
use proxykit.Cache.Recover
use proxykit.Cache.Recover.{NewResult, created}
use proxykit.Git.GitConfig.{GitHostCredential, generate_git_config}
use proxykit.Git.GitConfig.Settings.{settings, static_settings, AreSettings}
use proxykit.Git.GitConfig.Sections.{settings-generate}
use proxykit.Git.Credentials
use proxykit.Git.Credentials.Valid.{IsNamed, Distinct, validate_iff}
use proxykit.Git.Setup
use proxykit.Git.Setup.{
  with_defaults, opened, refs_config, packs_config, not_negative, is_negative, is_upstream_scheme,
  check_limits, check_hosts, check_dirs, first_error,
}
use proxykit.Git.Setup.Defaults.{HasDefaults, validate-new}

abbrev creds : List GitHostCredential
creds =
    (record { host = codes " github.com"; env_var = codes "GH"; username = []; ssh_rewrite = true })
    ∷ (record {
      host = codes "gitlab.com";
      env_var = codes "GL";
      username = codes "me";
      ssh_rewrite = false;
    })
    ∷ []

abbrev env : Bytes → Bytes
env name = if bytes_eq name (codes "GH") then codes "ags-1" else []

program : Unit {0}
unfolding bytes_eq has_byte trim_space
program = tt

settings-generate_example :
    (ss : List (Bytes × Bytes)) × (settings (generate_git_config (codes "/ca.crt") (some creds) env)
      ≡ static_settings (codes "/ca.crt") ++ ss)
    × AreSettings env creds ss
unfolding program
settings-generate_example =
    settings-generate (codes "/ca.crt") creds env refl (refl, (refl, tt)) (ground arith)

validate_iff_example :
    (Credentials.validate (some creds) ≡ none) ↔ (All IsNamed creds × Distinct creds)
validate_iff_example = validate_iff creds

abbrev given : Setup.Config
given = record {
  refs_cache = record { dir = codes "/c/refs"; max_size = 100 };
  packs_cache = record { dir = codes "/c/packs"; max_size = 1000 };
  refs_ttl = pos 0;
  packs_ttl = negsuc 0;
  max_upload_pack_request_size = pos 0;
  max_receive_pack_request_size = pos 7;
  max_pack_cache_entry_size = pos 0;
  allowed_hosts = codes "github.com" ∷ [];
  upstream_scheme = [];
}

abbrev fresh : Recover.Config → Cache
fresh cfg = record {
  dir = cfg.dir;
  max_size = cfg.max_size;
  ttl = cfg.ttl;
  soft_evict_percent = cfg.soft_evict_percent;
  db = none;
  entries = [];
  total_size = 0;
  files = λ _. none;
}

validate-new_example :
    (Setup.new (λ cfg. created (fresh cfg)) (λ cfg. created (fresh cfg)) given
      ≡ opened
          (fresh (refs_config (with_defaults given)))
          (fresh (packs_config (with_defaults given)))
          (with_defaults given))
    × (Setup.validate (λ dir. dir) (λ _. none) (with_defaults given) ≡ none)
    × HasDefaults (with_defaults given)
unfolding program Setup.validate check_limits check_hosts check_dirs first_error is_negative
    is_upstream_scheme less
validate-new_example =
    validate-new (λ dir. dir) (λ _. none) (λ cfg. created (fresh cfg)) (λ cfg. created (fresh cfg))
      given (fresh (refs_config (with_defaults given))) (fresh (packs_config (with_defaults given)))
      refl refl refl
