-- ===== src/Git/Headers.antt =====
-- git/handler.go: `copyFilteredHeaders`. The static
-- names are lower case, and names are compared in lower case.
use proxykit.Prelude.{Bool, false, ◌||◌, List, [], ◌∷◌, ◌++◌, if◌then◌else◌}
use proxykit.Http.{Header, header_get}
use proxykit.Prelude.Text.{Bytes, codes, bytes_eq, to_lower, trim_space, split_byte}

-- `staticHopByHop`.
abbrev pub static_hop_by_hop : List Bytes
static_hop_by_hop =
    codes "connection"
    ∷ codes "keep-alive"
    ∷ codes "proxy-authenticate"
    ∷ codes "proxy-authorization"
    ∷ codes "te"
    ∷ codes "trailer"
    ∷ codes "transfer-encoding"
    ∷ codes "upgrade"
    ∷ []

unfoldable pub lists_name : Bytes → List Bytes → Bool
lists_name name [] = false
lists_name name (k ∷ ks) = bytes_eq k name || lists_name name ks

-- The names that the `Connection` header nominates; empty parts name nothing.
unfoldable pub nominated : List Bytes → List Bytes
nominated [] = []
nominated (part ∷ parts) =
    let name = to_lower (trim_space part) in
    if bytes_eq name [] then nominated parts else name ∷ nominated parts

-- The set `skip`.
unfoldable pub skipped : Header → List Bytes
skipped src =
    let connection = header_get (codes "Connection") src in
    if bytes_eq connection []
    then static_hop_by_hop
    else static_hop_by_hop ++ nominated (split_byte b',' connection)

unfoldable pub drop_skipped : List Bytes → Header → Header
drop_skipped skip [] = []
drop_skipped skip ((k, vs) ∷ h) =
    if lists_name (to_lower k) skip then drop_skipped skip h else (k, vs) ∷ drop_skipped skip h

-- `copyFilteredHeaders` into an empty header.
unfoldable pub copy_filtered_headers : Header → Header
copy_filtered_headers src = drop_skipped (skipped src) src
