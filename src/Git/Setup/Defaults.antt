-- ===== src/Git/Setup/Defaults.antt =====
-- git/git.go: what a valid configuration is with the defaults of `New`.
use proxykit.Prelude.{
  ℕ, ◌*◌, ◌^◌, ◌≡◌, refl, true, false, Option, none, [], ◌∷◌, if◌then◌else◌, ltb, arith,
  Option-cases, inl, inr,
}
use proxykit.Prelude.Int.{ℤ, pos, negsuc, less, is_zero}
use proxykit.Prelude.Text.{Bytes}
use proxykit.Cache.State.{Cache}
use proxykit.Cache.Recover.{DirEntry, NewResult, NewError, created, refused}
use proxykit.Cache.Recover
use proxykit.Git.Setup.{
  Config, DirFault, second, is_upstream_scheme, check_dirs, check_hosts, is_negative, check_limits,
  first_error, validate, with_defaults, not_negative, refs_config, packs_config, with_packs,
  with_refs, new, opened,
}

-- A size or a lifetime whose zero value stands for a positive default.
abbrev or_default : ℕ → ℤ → ℤ
or_default d x = if is_zero x then pos d else x

or_default_positive :
    (d : ℕ) (x : ℤ)
    → ltb 0 d ≡ true
    → is_negative x ≡ false
    → (less (pos 0) (or_default d x) ≡ true) × (is_negative (or_default d x) ≡ false)
unfolding is_negative
or_default_positive d (pos ℕ.zero) h k = (h, ground arith)
or_default_positive d (pos (ℕ.suc n)) h k = (ground arith, ground arith)
or_default_positive d (negsuc n) h k = absurd (ground (arith, k))

or_default_bounded :
    (d limit : ℕ) (x : ℤ)
    → ltb limit d ≡ false
    → less (pos limit) x ≡ false
    → less (pos limit) (or_default d x) ≡ false
unfolding less
or_default_bounded d limit (pos ℕ.zero) h k = h
or_default_bounded d limit (pos (ℕ.suc n)) h k = k
or_default_bounded d limit (negsuc n) h k = refl

not_negative_lem : (x : ℤ) → is_negative (not_negative x) ≡ false
unfolding not_negative is_negative less
not_negative_lem (pos n) = ground arith
not_negative_lem (negsuc n) = refl

-- The limits that `Validate` leaves.
HasLimits : Config → Type 0
HasLimits cfg =
    (is_negative cfg.refs_ttl ≡ false)
    × (less (pos (86400 * second)) cfg.refs_ttl ≡ false)
    × (is_negative cfg.max_upload_pack_request_size ≡ false)
    × (is_negative cfg.max_receive_pack_request_size ≡ false)
    × (is_negative cfg.max_pack_cache_entry_size ≡ false)
    × (is_upstream_scheme cfg.upstream_scheme ≡ true)
    × (check_hosts 0 cfg.allowed_hosts ≡ none)

check_limits-passes : (cfg : Config) → check_limits cfg ≡ none → HasLimits cfg
unfolding check_limits HasLimits
check_limits-passes cfg h = ground (arith, h)

check_limits_passed : (cfg : Config) → HasLimits cfg → check_limits cfg ≡ none
unfolding check_limits HasLimits
check_limits_passed cfg (refs, day, up, receive, entry, scheme, hosts) =
    ground (arith, refs, day, up, receive, entry, scheme, hosts)

-- The limits of a configuration with its defaults.
abbrev pub HasDefaults : Config → Type 0
HasDefaults cfg =
    (less (pos 0) cfg.refs_ttl ≡ true)
    × (less (pos (86400 * second)) cfg.refs_ttl ≡ false)
    × (less (pos 0) cfg.max_upload_pack_request_size ≡ true)
    × (less (pos 0) cfg.max_receive_pack_request_size ≡ true)
    × (is_negative (packs_config cfg).ttl ≡ false)

with_defaults-HasLimits :
    (cfg : Config) → HasLimits cfg → HasLimits (with_defaults cfg) × HasDefaults (with_defaults cfg)
unfolding HasLimits with_defaults packs_config
with_defaults-HasLimits cfg (refs, day, up, receive, entry, scheme, hosts) =
    let (refs⁺, refs') = or_default_positive (15 * second) cfg.refs_ttl refl refs in
    let day' = or_default_bounded (15 * second) (86400 * second) cfg.refs_ttl refl day in
    let (up⁺, up') = or_default_positive (4 * 2 ^ 20) cfg.max_upload_pack_request_size refl up in
    let (receive⁺, receive') =
      or_default_positive (500 * 2 ^ 20) cfg.max_receive_pack_request_size refl receive in
    let packs = not_negative_lem (or_default (259200 * second) cfg.packs_ttl) in
    ((refs', day', up', receive', entry, scheme, hosts), (refs⁺, day', up⁺, receive⁺, packs))

module _ (canonical : Bytes → Bytes) (probe : Bytes → Option DirFault) (cfg : Config) where
  validate-limits : validate canonical probe cfg ≡ none → check_limits cfg ≡ none
  unfolding validate first_error
  validate-limits h =
      elim (Option-cases (check_dirs probe (cfg.refs_cache.dir ∷ cfg.packs_cache.dir ∷ []))) [
        | inl fine ↦ ground (arith, h, fine)
        | inr (e, failed) ↦ absurd (ground (arith, h, failed))
      ]

  validate-with_defaults :
      validate canonical probe cfg ≡ none
      → check_limits (with_defaults cfg) ≡ none
      → validate canonical probe (with_defaults cfg) ≡ none
  unfolding validate first_error with_defaults
  validate-with_defaults h limits =
      elim (Option-cases (check_dirs probe (cfg.refs_cache.dir ∷ cfg.packs_cache.dir ∷ []))) [
        | inl fine ↦ ground (arith, h, fine, limits)
        | inr (e, failed) ↦ absurd (ground (arith, h, failed))
      ]

new-opened :
    (new_refs new_packs : Recover.Config → NewResult) (cfg : Config) (refs packs : Cache)
    → is_upstream_scheme cfg.upstream_scheme ≡ true
    → new_refs (refs_config (with_defaults cfg)) ≡ created refs
    → new_packs (packs_config (with_defaults cfg)) ≡ created packs
    → new new_refs new_packs cfg ≡ opened refs packs (with_defaults cfg)
unfolding new with_refs with_packs
new-opened new_refs new_packs cfg refs packs scheme made_refs made_packs =
    rw (scheme, new) rw made_refs rw made_packs refl

-- Where `Validate` finds no error and both caches can be created, `New` opens the handler with them. Its
-- configuration with the defaults is valid, keeps refs for longer than 0 and for a day at most, bounds
-- the requests' bodies above 0, and gives the packs' cache a lifetime that is not negative.
pub validate-new :
    (canonical : Bytes → Bytes) (probe : Bytes → Option DirFault)
    (new_refs new_packs : Recover.Config → NewResult) (cfg : Config) (refs packs : Cache)
    → validate canonical probe cfg ≡ none
    → new_refs (refs_config (with_defaults cfg)) ≡ created refs
    → new_packs (packs_config (with_defaults cfg)) ≡ created packs
    → (new new_refs new_packs cfg ≡ opened refs packs (with_defaults cfg))
      × (validate canonical probe (with_defaults cfg) ≡ none)
      × HasDefaults (with_defaults cfg)
unfolding HasLimits
validate-new canonical probe new_refs new_packs cfg refs packs valid made_refs made_packs =
    let limits = check_limits-passes cfg (validate-limits canonical probe cfg valid) in
    let (refs', day, up, receive, entry, scheme, hosts) = limits in
    let (still, has) = with_defaults-HasLimits cfg limits in
    (
      new-opened new_refs new_packs cfg refs packs scheme made_refs made_packs,
      validate-with_defaults canonical probe cfg valid
          (check_limits_passed (with_defaults cfg) still),
      has,
    )
