-- ===== src/Git/UploadPack.antt =====
-- git/pktline.go: `parseUploadPackRequest` and `parseV2UploadPackRequest`. The loop over the lines
-- runs on fuel; each line takes four bytes, so the length of the body is enough.
pub mod Lines
pub mod Verdict
pub mod VerdictV2
use proxykit.Prelude.{
  ℕ, zero, suc, ◌+◌, Bool, true, false, not, ◌&&◌, ◌||◌, Option, none, some, List, [], ◌∷◌, ◌++◌,
  if◌then◌else◌, length,
}
use proxykit.Prelude.Parse.{fields}
use proxykit.Prelude.Text.{Bytes, codes, bytes_eq, has_prefix, cut_prefix}
use proxykit.Git.PktLine.{ScanError, Scanner, new_scanner, scan}

-- `uploadPackRequest`.
pub record UploadPackRequest : Type 0 where
  pub wants : List Bytes
  pub is_fresh_clone : Bool
  pub is_shallow : Bool
  pub is_v2 : Bool
  pub v2_command : Bytes
  pub has_filter : Bool

abbrev pub empty_request : UploadPackRequest
empty_request = record {
  wants = [];
  is_fresh_clone = false;
  is_shallow = false;
  is_v2 = false;
  v2_command = [];
  has_filter = false;
}

pub data Phase : Type 0 where
  first second : Phase

-- One round of the loop: it goes on, or returns.
pub data Round : Type 0 where
  go_on : Phase → UploadPackRequest → Round
  return : UploadPackRequest → Round

unfoldable second_field : List Bytes → Option Bytes
second_field (a ∷ b ∷ ws) = some b
second_field ws = none

-- What both parsers do with a `want` line: its second field is a hash.
pub add_want : Bytes → UploadPackRequest → UploadPackRequest
add_want line req =
    if has_prefix line (codes "want ")
    then (elim (second_field (fields line)) [
      | none ↦ req
      | some hash ↦ record req { wants = req.wants ++ hash ∷ [] }
    ])
    else req

-- A `shallow` or a `deepen` line.
unfoldable pub truncates : Bytes → Bool
unfolding has_prefix
truncates line = has_prefix line (codes "shallow ") || has_prefix line (codes "deepen")

pub note_shallow : Bytes → UploadPackRequest → UploadPackRequest
note_shallow line req = record req { is_shallow = truncates line || req.is_shallow }

-- The test that ends the second phase.
unfoldable pub ends : Bytes → Bool
unfolding bytes_eq
ends line = bytes_eq line (codes "done") || bytes_eq line []

-- The body of the loop of `parseUploadPackRequest`.
pub v1_line : Phase → Bytes → UploadPackRequest → Round
v1_line first line req =
    if bytes_eq line [] then go_on second req else go_on first (add_want line req)
v1_line second line req =
    let noted = note_shallow line req in
    if has_prefix line (codes "have ")
    then return (record req { is_fresh_clone = false })
    else if ends line
    then return (record noted { is_fresh_clone = not noted.is_shallow })
    else go_on second noted

pub note_command : Bytes → UploadPackRequest → UploadPackRequest
unfolding cut_prefix
note_command line req = elim (cut_prefix line (codes "command=")) [
  | none ↦ req
  | some command ↦ record req { v2_command = command }
]

pub note_filter : Bytes → UploadPackRequest → UploadPackRequest
unfolding has_prefix
note_filter line req = record req {
  has_filter = has_prefix line (codes "filter ") || req.has_filter;
}

-- The end of a v2 request: only a `fetch` can be a clone.
pub v2_finish : UploadPackRequest → UploadPackRequest
unfolding bytes_eq
v2_finish req =
    if bytes_eq req.v2_command (codes "fetch")
    then record req { is_fresh_clone = not req.is_shallow && not req.has_filter }
    else req

-- The body of the loop of `parseV2UploadPackRequest`.
pub v2_line : Phase → Bytes → UploadPackRequest → Round
v2_line first line req =
    if bytes_eq line [] then go_on second req else go_on first (note_command line req)
v2_line second line req =
    let wanted = add_want line req in
    let noted = note_filter line (note_shallow line wanted) in
    if has_prefix line (codes "have ")
    then return (record wanted { is_fresh_clone = false })
    else if ends line
    then return (v2_finish noted)
    else go_on second noted

pub data Parsed : Type 0 where
  parsed : UploadPackRequest → Parsed
  failed : ScanError → Parsed
  out_of_fuel : Parsed

-- The loop is over: `s.Err()` decides.
pub after_loop : UploadPackRequest → Option ScanError → Parsed
after_loop req none = parsed req
after_loop req (some e) = failed e

-- What a round leads to: `onward` is the rest of the loop.
pub on_round : (Phase → UploadPackRequest → Scanner → Parsed) → Scanner → Round → Parsed
on_round onward s (return req) = parsed req
on_round onward s (go_on phase req) = onward phase req s

-- What a `Scan` leads to.
pub on_scan :
    (Phase → Bytes → UploadPackRequest → Round)
    → (Phase → UploadPackRequest → Scanner → Parsed)
    → Phase
    → UploadPackRequest
    → Scanner × Bool
    → Parsed
unfolding on_round after_loop
on_scan body onward phase req (s, false) = after_loop req s.failure
on_scan body onward phase req (s, true) = on_round onward s (body phase s.line req)

-- `for s.Scan()`, over either body.
pub scan_lines :
    (Phase → Bytes → UploadPackRequest → Round) → ℕ → Phase → UploadPackRequest → Scanner → Parsed
unfolding on_scan
scan_lines body zero phase req s = out_of_fuel
scan_lines body (suc fuel) phase req s = on_scan body (scan_lines body fuel) phase req (scan s)

-- `parseUploadPackRequest`.
pub parse_upload_pack_request : Bytes → Parsed
parse_upload_pack_request body =
    scan_lines v1_line (length body + 1) first empty_request (new_scanner body)

-- `parseV2UploadPackRequest`.
pub parse_v2_upload_pack_request : Bytes → Parsed
parse_v2_upload_pack_request body =
    scan_lines v2_line (length body + 1) first (record empty_request { is_v2 = true })
      (new_scanner body)
