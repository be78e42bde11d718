-- ===== src/S3/Reply.antt =====
-- s3/entry.go: `serveEntry` and `clientNotModified`; s3/server.go: what is done to headers and how a
-- response is written. `Out` is an `http.ResponseWriter` that takes all it is given; the headers that
-- `http.Error` adds are left out.
use proxykit.Prelude.{
  ℕ, ◌+◌, ◌-◌, Bool, true, false, ◌&&◌, ◌||◌, not, Option, none, some, List, [], ◌∷◌, ◌++◌,
  if◌then◌else◌, ◌==◌, take, drop, length,
}
use proxykit.Prelude.Int.{pos}
use proxykit.Prelude.Parse.{decimal}
use proxykit.Prelude.Text.{Bytes, codes, bytes_eq, split_byte, trim_space, trim_prefix}
use proxykit.Http.{Header, header_get, header_set, header_del}
use proxykit.Cache.State.{Files}
use proxykit.S3.Entries.{Metadata}
use proxykit.S3.Range.{parse_range}

-- `sent` is the status with the headers that stood when it was written.
pub record Out : Type 0 where
  pub header : Header
  pub sent : Option (ℕ × Header)
  pub body : Bytes

unfoldable pub fresh_out : Out
fresh_out = record { header = []; sent = none; body = [] }

-- `WriteHeader`: only the first one counts.
unfoldable pub write_header : ℕ → Out → Out
write_header status o = elim o.sent [
  | none ↦ record o { sent = some (status, o.header) }
  | some _ ↦ o
]

-- `Write`, which sends the status 200 if none was sent.
unfoldable pub write_body : Bytes → Out → Out
unfolding write_header
write_body p o = let o' = write_header 200 o in record o' { body = o'.body ++ p }

-- The end of the handler, which sends the status 200 as well.
unfoldable pub finish : Out → Out
unfolding write_header
finish o = write_header 200 o

-- `http.Error`.
unfoldable pub error_to : ℕ → Bytes → Out → Out
unfolding write_header write_body
error_to status text o = write_body text (write_header status o)

-- The names that `removeHopByHopHeaders` deletes.
abbrev pub hop_by_hop : List Bytes
hop_by_hop =
    codes "Connection"
    ∷ codes "Proxy-Connection"
    ∷ codes "Keep-Alive"
    ∷ codes "Proxy-Authenticate"
    ∷ codes "Proxy-Authorization"
    ∷ codes "TE"
    ∷ codes "Trailer"
    ∷ codes "Transfer-Encoding"
    ∷ codes "Upgrade"
    ∷ []

unfoldable pub delete_all : List Bytes → Header → Header
unfolding header_del
delete_all [] h = h
delete_all (name ∷ names) h = delete_all names (header_del name h)

abbrev cache_header_name : Bytes
cache_header_name = codes "X-Proxykit-Cache"

-- `filteredResponseHeader`, and what `newUpstreamRequest` leaves of a request's headers.
unfoldable pub filtered_header : Header → Header
unfolding delete_all header_del
filtered_header h = header_del cache_header_name (delete_all hop_by_hop h)

-- `copyResponseHeader`: nothing of what the writer held is left.
unfoldable pub copy_header : Header → Out → Out
unfolding filtered_header
copy_header source o = record o { header = filtered_header source }

-- The header with the cache's answer, unless it is empty.
unfoldable pub mark : Bytes → Out → Out
unfolding header_set
mark [] o = o
mark (c ∷ value) o = record o { header = header_set cache_header_name (c ∷ value) o.header }

unfoldable trim_left_quote : Bytes → Bytes
trim_left_quote [] = []
trim_left_quote (c ∷ s) = let rest = trim_left_quote s in if c == 34 then rest else c ∷ s

unfoldable trim_right_quote : Bytes → Bytes
trim_right_quote [] = []
trim_right_quote (c ∷ s) = elim (trim_right_quote s) [
  | [] ↦ if c == 34 then [] else c ∷ []
  | d ∷ r ↦ c ∷ d ∷ r
]

-- `normalizeETag`.
unfoldable normalize_etag : Bytes → Bytes
unfolding trim_left_quote trim_right_quote trim_space trim_prefix
normalize_etag value =
    trim_left_quote (trim_right_quote (trim_space (trim_prefix (trim_space value) (codes "W/"))))

unfoldable any_matches : Bytes → List Bytes → Bool
unfolding normalize_etag trim_space bytes_eq
any_matches etag [] = false
any_matches etag (candidate ∷ rest) =
    bytes_eq (trim_space candidate) (codes "*")
    || (bytes_eq (normalize_etag candidate) (normalize_etag etag) || any_matches etag rest)

-- `clientNotModified`.
unfoldable pub client_not_modified : Header → Metadata → Bool
unfolding any_matches header_get split_byte
client_not_modified h meta =
    let value = header_get (codes "If-None-Match") h in
    not (bytes_eq value [])
    && (not (bytes_eq meta.etag []) && any_matches meta.etag (split_byte b',' value))

-- A part of a file: the bytes that are there, and whether they are all that `io.CopyN` is to copy.
unfoldable copy_part : ℕ → ℕ → Bytes → Out → Out × Bool
unfolding write_body
copy_part start count content o =
    let part = take count (drop start content) in (write_body part o, length part == count)

abbrev total_text : ℕ → Bytes
total_text n = codes "/" ++ decimal n

-- The answer to a `Range`.
unfoldable serve_range : Option (ℕ × ℕ) → ℕ → Bytes → Out → Out × Bool
unfolding write_header header_set copy_part decimal
serve_range none total content o = (
  write_header 416 (record o {
    header = header_set (codes "Content-Range") (codes "bytes *" ++ total_text total) o.header;
  }),
  true,
)
serve_range (some (start, end)) total content o =
    let count = end - start + 1 in
    let range =
      codes "bytes " ++ (decimal start ++ (codes "-" ++ (decimal end ++ total_text total))) in
    let h =
      header_set (codes "Content-Length") (decimal count)
        (header_set (codes "Content-Range") range o.header) in
    copy_part start count content (write_header 206 (record o { header = h }))

-- The part of `serveEntry` behind the body's file: the whole of it, or a range.
unfoldable serve_body : Header → Metadata → Bytes → Out → Out × Bool
unfolding serve_range write_header header_set write_body header_get decimal
serve_body h meta content o =
    let value = header_get (codes "Range") h in
    if not (bytes_eq value [])
    then serve_range (parse_range value (pos meta.body_size)) meta.body_size content o
    else (
      write_body content (
          write_header meta.status_code (record o {
            header = header_set (codes "Content-Length") (decimal meta.body_size) o.header;
          })),
      true,
    )

-- The path of the body's file, opened.
unfoldable open_body : Files → Metadata → Bytes → Option Bytes
open_body files meta path = if not meta.has_body || bytes_eq path [] then none else files path

-- `serveEntry`: the writer behind it, and whether it returns no error.
unfoldable pub serve_entry : Files → Bool → Header → Metadata → Bytes → Bytes → Out → Out × Bool
unfolding copy_header mark client_not_modified write_header open_body serve_body
serve_entry files is_head h meta path status o =
    let o' = mark status (copy_header meta.header o) in
    if client_not_modified h meta
    then (write_header 304 o', true)
    else if is_head
    then (write_header meta.status_code o', true)
    else (elim (open_body files meta path) [
      | none ↦ (o', false)
      | some content ↦ serve_body h meta content o'
    ])

-- `mergeValidationHeaders`.
unfoldable pub merge_validation_headers : Metadata → Header → Metadata
unfolding header_get header_set
merge_validation_headers meta h =
    let etag = header_get (codes "ETag") h in
    let modified = header_get (codes "Last-Modified") h in
    let meta' =
      if bytes_eq etag []
      then meta
      else record meta { etag = etag; header = header_set (codes "ETag") etag meta.header } in
    if bytes_eq modified [] then meta' else record meta' {
      last_modified = modified;
      header = header_set (codes "Last-Modified") modified meta'.header;
    }
