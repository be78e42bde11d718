-- ===== src/Git/Setup.antt =====
-- git/git.go: the configuration of the handler, its checks and its defaults, `New`, and the operations on
-- both caches. A duration is an int64 of nanoseconds. The file system's answers are arguments:
-- `canonical` is `canonicalizePath`, and `probe` what the test of a directory finds.
pub mod Defaults
use proxykit.Prelude.{
  ℕ, ◌+◌, ◌*◌, ◌^◌, ◌≡◌, refl, Bool, true, false, not, ◌&&◌, ◌||◌, Option, none, some, List, [],
  ◌∷◌, ◌++◌, if◌then◌else◌, ltb, arith, Option-cases, inl, inr,
}
use proxykit.Prelude.Int.{ℤ, pos, negsuc, less, is_zero}
use proxykit.Prelude.Text.{Bytes, codes, bytes_eq, trim_space, has_byte}
use proxykit.Cache.State.{Cache, World, Files}
use proxykit.Cache.Entry.{Row}
use proxykit.Cache.Ops.{clear}
use proxykit.Cache.Recover.{DirEntry, NewResult, NewError, created, refused}
use proxykit.Cache.Recover

-- `CacheConfig`; a size that is not above 0 is no limit, and is 0 here.
pub record CacheConfig : Type 0 where
  pub dir : Bytes
  pub max_size : ℕ

-- `Config`, without the logger.
pub record Config : Type 0 where
  pub refs_cache : CacheConfig
  pub packs_cache : CacheConfig
  pub refs_ttl : ℤ
  pub packs_ttl : ℤ
  pub max_upload_pack_request_size : ℤ
  pub max_receive_pack_request_size : ℤ
  pub max_pack_cache_entry_size : ℤ
  pub allowed_hosts : List Bytes
  pub upstream_scheme : Bytes

pub data DirFault : Type 0 where
  not_made not_writable : DirFault

-- The errors of `Validate` and of `New`, in their order.
pub data ConfigError : Type 0 where
  empty_refs_dir empty_packs_dir same_dir : ConfigError
  bad_dir : Bytes → DirFault → ConfigError
  negative_refs_ttl long_refs_ttl negative_upload_size negative_receive_size negative_entry_size
        bad_scheme :
      ConfigError
  empty_allowed_host : ℕ → ConfigError
  not_a_hostname : ℕ → ConfigError

abbrev pub second : ℕ
second = 1000000000

-- `DefaultConfig`; `join` is `filepath.Join`, and `refs_size` and `packs_size` are the shares of the disk
-- that `cache.DefaultMaxSize` gives.
unfoldable pub default_config : (Bytes → Bytes → Bytes) → (Bytes → ℕ) → (Bytes → ℕ) → Bytes → Config
default_config join refs_size packs_size cache_dir =
    let refs_dir = join cache_dir (codes "refs") in
    let packs_dir = join cache_dir (codes "packs") in
    record {
      refs_cache = record { dir = refs_dir; max_size = refs_size refs_dir };
      packs_cache = record { dir = packs_dir; max_size = packs_size packs_dir };
      refs_ttl = pos (15 * second);
      packs_ttl = pos (259200 * second);
      max_upload_pack_request_size = pos (4 * 2 ^ 20);
      max_receive_pack_request_size = pos (500 * 2 ^ 20);
      max_pack_cache_entry_size = pos 0;
      allowed_hosts = [];
      upstream_scheme = [];
    }

-- `validateUpstreamScheme`: whether there is no error.
unfoldable pub is_upstream_scheme : Bytes → Bool
is_upstream_scheme scheme =
    bytes_eq scheme [] || (bytes_eq scheme (codes "http") || bytes_eq scheme (codes "https"))

-- The loop over the directories.
unfoldable pub check_dirs : (Bytes → Option DirFault) → List Bytes → Option ConfigError
check_dirs probe [] = none
check_dirs probe (dir ∷ dirs) =
    let rest = check_dirs probe dirs in
    elim (probe dir) [ none ↦ rest | some fault ↦ some (bad_dir dir fault) ]

-- The loop over the allowed hosts.
unfoldable pub check_hosts : ℕ → List Bytes → Option ConfigError
check_hosts i [] = none
check_hosts i (host ∷ hosts) =
    let rest = check_hosts (i + 1) hosts in
    if bytes_eq (trim_space host) []
    then some (empty_allowed_host i)
    else if has_byte b'/' host || has_byte b':' host
    then some (not_a_hostname i)
    else rest

unfoldable pub is_negative : ℤ → Bool
unfolding less
is_negative n = less n (pos 0)

-- The checks of `Validate` behind those of the directories.
unfoldable pub check_limits : Config → Option ConfigError
check_limits cfg =
    if is_negative cfg.refs_ttl
    then some negative_refs_ttl
    else if less (pos (86400 * second)) cfg.refs_ttl
    then some long_refs_ttl
    else if is_negative cfg.max_upload_pack_request_size
    then some negative_upload_size
    else if is_negative cfg.max_receive_pack_request_size
    then some negative_receive_size
    else if is_negative cfg.max_pack_cache_entry_size
    then some negative_entry_size
    else if not (is_upstream_scheme cfg.upstream_scheme)
    then some bad_scheme
    else check_hosts 0 cfg.allowed_hosts

unfoldable pub first_error : Option ConfigError → Option ConfigError → Option ConfigError
first_error none later = later
first_error (some e) later = some e

-- `Validate`; `none` is success.
unfoldable pub validate : (Bytes → Bytes) → (Bytes → Option DirFault) → Config → Option ConfigError
validate canonical probe cfg =
    if bytes_eq cfg.refs_cache.dir []
    then some empty_refs_dir
    else if bytes_eq cfg.packs_cache.dir []
    then some empty_packs_dir
    else if bytes_eq (canonical cfg.refs_cache.dir) (canonical cfg.packs_cache.dir)
    then some same_dir
    else first_error (check_dirs probe (cfg.refs_cache.dir ∷ cfg.packs_cache.dir ∷ []))
        (check_limits cfg)

-- The defaults that `New` fills in.
pub with_defaults : Config → Config
with_defaults cfg = record cfg {
  refs_ttl = if is_zero cfg.refs_ttl then pos (15 * second) else cfg.refs_ttl;
  max_upload_pack_request_size =
      if is_zero cfg.max_upload_pack_request_size
      then pos (4 * 2 ^ 20)
      else cfg.max_upload_pack_request_size;
  max_receive_pack_request_size =
      if is_zero cfg.max_receive_pack_request_size
      then pos (500 * 2 ^ 20)
      else cfg.max_receive_pack_request_size;
  packs_ttl = if is_zero cfg.packs_ttl then pos (259200 * second) else cfg.packs_ttl;
}

-- The bit pattern of 0.8.
abbrev soft_evict_percent : ℕ
soft_evict_percent = 4605380978949069210

-- `max(ttl, 0)`.
pub not_negative : ℤ → ℤ
not_negative (pos n) = pos n
not_negative (negsuc n) = pos 0

-- What `New` passes to `cache.New`, for the first and for the second level.
unfoldable pub refs_config : Config → Recover.Config
refs_config cfg = record {
  dir = cfg.refs_cache.dir;
  max_size = cfg.refs_cache.max_size;
  ttl = cfg.refs_ttl;
  soft_evict_percent = 0;
}

pub packs_config : Config → Recover.Config
packs_config cfg = record {
  dir = cfg.packs_cache.dir;
  max_size = cfg.packs_cache.max_size;
  ttl = not_negative cfg.packs_ttl;
  soft_evict_percent = soft_evict_percent;
}

pub data NewHandler : Type 0 where
  opened : Cache → Cache → Config → NewHandler
  unsupported_scheme : NewHandler
  refs_refused : NewError → NewHandler
  packs_refused : NewError → NewHandler

-- The end of `New`: the second level, behind the first one.
pub with_packs : Config → Cache → NewResult → NewHandler
with_packs cfg refs (refused e) = packs_refused e
with_packs cfg refs (created packs) = opened refs packs cfg

pub with_refs : Config → NewResult → NewResult → NewHandler
unfolding with_packs
with_refs cfg (refused e) packs = refs_refused e
with_refs cfg (created refs) packs = with_packs cfg refs packs

-- `New`; `new_refs` and `new_packs` are `cache.New` as each directory answers it.
unfoldable pub new :
    (Recover.Config → NewResult) → (Recover.Config → NewResult) → Config → NewHandler
new new_refs new_packs cfg =
    let full = with_defaults cfg in
    if not (is_upstream_scheme cfg.upstream_scheme)
    then unsupported_scheme
    else with_refs full (new_refs (refs_config full)) (new_packs (packs_config full))

-- `ClearCaches`, for what happens to the directories and the databases.
unfoldable clear_caches :
    Bool × Option (List Row) → Bool × Option (List Row) → Cache → Cache → Cache × Cache × ℕ × ℕ
clear_caches (refs_wiped, refs_rows) (packs_wiped, packs_rows) refs packs =
    let (refs', refs_removed, refs_freed) = clear refs_wiped refs_rows refs in
    let (packs', packs_removed, packs_freed) = clear packs_wiped packs_rows packs in
    (refs', packs', refs_removed + packs_removed, refs_freed + packs_freed)
