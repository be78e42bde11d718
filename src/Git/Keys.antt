-- ===== src/Git/Keys.antt =====
-- git/cache.go: the keys of the two cache levels. `sha_hex`, the hexadecimal SHA-256, is an
-- argument: a key holds its first digits.
use proxykit.Prelude.{[], ◌++◌, if◌then◌else◌, take}
use proxykit.Prelude.Text.{Bytes, codes, bytes_eq}

-- `refsFingerprint`: 20 bytes in hexadecimal digits.
unfoldable pub refs_fingerprint : (Bytes → Bytes) → Bytes → Bytes
refs_fingerprint sha_hex body = take 40 (sha_hex body)

-- `refsCacheKey`.
unfoldable pub refs_cache_key : Bytes → Bytes → Bytes → Bytes
refs_cache_key host repo_path auth_scope =
    codes "refs:"
    ++ (host ++ (codes ":" ++ (repo_path ++ (codes ":" ++ (auth_scope ++ codes ":upload-pack")))))

-- `lsRefsCacheKey`.
unfoldable pub ls_refs_cache_key : Bytes → Bytes → Bytes → Bytes
ls_refs_cache_key host repo_path auth_scope =
    codes "lsrefs:" ++ (host ++ (codes ":" ++ (repo_path ++ (codes ":" ++ auth_scope))))

-- `packCacheKey`.
unfoldable pub pack_cache_key : Bytes → Bytes → Bytes → Bytes → Bytes
pack_cache_key host repo_path auth_scope fingerprint =
    codes "pack:"
    ++ (host
        ++ (codes ":" ++ (repo_path ++ (codes ":" ++ (auth_scope ++ (codes ":" ++ fingerprint))))))

-- `authScopeFromRequest`: 10 bytes in hexadecimal digits.
unfoldable pub auth_scope : (Bytes → Bytes) → Bytes → Bytes
auth_scope sha_hex authorization =
    if bytes_eq authorization [] then codes "anon" else take 20 (sha_hex authorization)

-- `repoRefsPrefix`.
unfoldable pub repo_refs_prefix : Bytes → Bytes → Bytes
repo_refs_prefix host repo_path = codes "refs:" ++ (host ++ (codes ":" ++ (repo_path ++ codes ":")))

-- `repoLsRefsPrefix`.
unfoldable pub repo_ls_refs_prefix : Bytes → Bytes → Bytes
repo_ls_refs_prefix host repo_path =
    codes "lsrefs:" ++ (host ++ (codes ":" ++ (repo_path ++ codes ":")))
