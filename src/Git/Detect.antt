-- ===== src/Git/Detect.antt =====
-- git/detect.go and `extractHost` of git/handler.go: what a request asks for.
use proxykit.Prelude.{Bool, true, ◌||◌, Option, none, some, if◌then◌else◌}
use proxykit.Http.{split_host_port}
use proxykit.Prelude.Text.{before_last, Bytes, codes, bytes_eq, has_suffix, contains}

-- What the handlers read of an `http.Request`. `service` is the query parameter of that name, and
-- the headers that are not there are empty.
pub record Request : Type 0 where
  pub host : Bytes
  pub path : Bytes
  pub service : Bytes
  pub git_protocol : Bytes
  pub authorization : Bytes
  pub content_encoding : Bytes
  pub content_type : Bytes
  pub body : Bytes

-- `IsGitRequest`.
unfoldable is_git_request : Request → Bool
is_git_request r =
    if has_suffix r.path (codes "/info/refs")
    then bytes_eq r.service (codes "git-upload-pack")
      || bytes_eq r.service (codes "git-receive-pack")
    else if has_suffix r.path (codes "/git-upload-pack")
        || has_suffix r.path (codes "/git-receive-pack")
    then true
    else bytes_eq r.content_type (codes "application/x-git-upload-pack-request")
      || bytes_eq r.content_type (codes "application/x-git-receive-pack-request")

unfoldable or_else : Option Bytes → Bytes → Bytes
or_else none d = d
or_else (some p) d = p

-- `parseRepoPath`.
unfoldable pub parse_repo_path : Bytes → Bytes
unfolding or_else
parse_repo_path path = or_else (before_last path (codes "/info/refs")) (
    or_else (before_last path (codes "/git-upload-pack"))
      (or_else (before_last path (codes "/git-receive-pack")) path))

-- `isProtocolV2`.
unfoldable pub is_protocol_v2 : Request → Bool
is_protocol_v2 r = contains r.git_protocol (codes "version=2")

-- `IsLFSRequest`.
unfoldable is_lfs_request : Request → Bool
is_lfs_request r = contains r.path (codes "/info/lfs/")

-- `extractHost`.
unfoldable pub extract_host : Request → Bytes
unfolding or_else
extract_host r = or_else (split_host_port r.host) r.host
