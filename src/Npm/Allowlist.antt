-- ===== src/Npm/Allowlist.antt =====
-- npm/registries.go: the hosts that the proxy may fetch from.
use proxykit.Prelude.{Bool, false, ◌||◌, List, [], ◌∷◌, if◌then◌else◌}
use proxykit.Prelude.Text.{Bytes, codes, bytes_eq, trim_space, to_lower}
use proxykit.Glob.{Piece, compile, matches}

unfoldable pub is_seen : Bytes → List Bytes → Bool
is_seen pattern [] = false
is_seen pattern (p ∷ seen) = bytes_eq p pattern || is_seen pattern seen

-- The loop of `newUpstreamRegistryAllowlist` over the patterns, with those that were seen.
unfoldable pub compile_patterns : List Bytes → List Bytes → List (List Piece)
compile_patterns seen [] = []
compile_patterns seen (raw ∷ patterns) =
    let pattern = trim_space raw in
    let drops = bytes_eq pattern [] || is_seen pattern seen in
    let rest = compile_patterns (if drops then seen else pattern ∷ seen) patterns in
    if drops then rest else compile pattern ∷ rest

-- `DefaultAllowedUpstreamRegistryPatterns`.
abbrev pub default_patterns : List Bytes
default_patterns =
    codes "registry.npmjs.org"
    ∷ codes "registry.yarnpkg.com"
    ∷ codes "yarnpkg.com"
    ∷ codes "*.yarnpkg.com"
    ∷ codes "npm.pkg.github.com"
    ∷ codes "gitlab.com"
    ∷ codes "*.gitlab.com"
    ∷ codes "*-npm.pkg.dev"
    ∷ codes "*.d.codeartifact.*.amazonaws.com"
    ∷ codes "pkgs.dev.azure.com"
    ∷ codes "pkgs.visualstudio.com"
    ∷ codes "*.visualstudio.com"
    ∷ codes "cdn.sheetjs.com"
    ∷ codes "*.sheetjs.com"
    ∷ []

-- `newUpstreamRegistryAllowlist`; every pattern compiles.
unfoldable pub new_allowlist : List Bytes → List (List Piece)
new_allowlist [] = compile_patterns [] default_patterns
new_allowlist (p ∷ patterns) = compile_patterns [] (p ∷ patterns)

unfoldable pub matches_one : List (List Piece) → Bytes → Bool
matches_one [] host = false
matches_one (m ∷ matchers) host = matches m host || matches_one matchers host

-- `allowed`.
unfoldable pub allowed : List (List Piece) → Bytes → Bool
allowed matchers raw =
    let host = to_lower (trim_space raw) in
    if bytes_eq host [] then false else matches_one matchers host
