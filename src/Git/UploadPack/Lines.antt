-- ===== src/Git/UploadPack/Lines.antt =====
-- git/pktline.go: the parsers of upload-pack requests end on every body, and on packets that a
-- client writes they are a fold over the packets' lines.
use proxykit.Prelude.{
  ℕ, zero, suc, ◌+◌, ◌≤◌, ◌<◌, ◌≡◌, ◌≢◌, refl, ap, ◌∙◌, Bool, true, false, Option, none, some, List,
  [], ◌∷◌, ◌++◌, map, arith, length, drop, ◌-◌, take, All,
}
use proxykit.Prelude.Int.{ℤ, pos, negsuc}
use proxykit.Prelude.Parse.{parse_int}
use proxykit.Prelude.Text.{Bytes}
use proxykit.Git.PktLine.{
  Scanner, ScanError, new_scanner, scan, scan_header, scan_length, scan_data, read_full, empty_line,
  fail_with,
}
use proxykit.Git.PktLine.RoundTrip.{Packet, encode, view, Fits, scanned, scan-encode}
use proxykit.Git.UploadPack.{
  UploadPackRequest, empty_request, Phase, first, Round, go_on, return, v1_line, v2_line, Parsed,
  parsed, out_of_fuel, after_loop, on_round, on_scan, scan_lines, parse_upload_pack_request,
  parse_v2_upload_pack_request,
}

length-drop : (n : ℕ) (s : Bytes) → n ≤ length s → length (drop n s) + n ≡ length s
length-drop zero s h = omega arith
length-drop (suc n) [] h = absurd (omega arith)
length-drop (suc n) (c ∷ s) h = omega (arith, length-drop n s (omega arith))

-- What the scanner leaves is no longer than what it was given.
scan_data-le :
    (n : ℕ) (rest : Bytes) (s : Scanner) → length (scan_data n rest s).0.unread ≤ length rest
unfolding scan_data read_full fail_with
scan_data-le n rest s = ground (arith, length-drop (n - 4) rest)

scan_header-le :
    (header rest : Bytes) (s : Scanner) → length (scan_header header rest s).0.unread ≤ length rest
unfolding scan_header scan_length fail_with empty_line
scan_header-le header rest s = go (parse_int 16 32 header) refl
  where
    go :
        (o : Option ℤ)
        → parse_int 16 32 header ≡ o
        → length (scan_header header rest s).0.unread ≤ length rest
    go none e = ground (arith, e)
    go (some (negsuc n)) e = ground (arith, e)
    go (some (pos n)) e = ground (arith, e, scan_data-le n rest s)

-- Each line takes at least its four bytes of length.
scan_shrinks : (s : Scanner) → (scan s).1 ≡ true → length (scan s).0.unread + 4 ≤ length s.unread
unfolding scan read_full
scan_shrinks s h =
    ground (arith, scan_header-le (take 4 s.unread) (drop 4 s.unread) s, length-drop 4 s.unread)

on_round_total :
    (onward : Phase → UploadPackRequest → Scanner → Parsed) (s : Scanner) (r : Round)
    → ((phase : Phase) (req : UploadPackRequest) → onward phase req s ≢ out_of_fuel)
    → on_round onward s r ≢ out_of_fuel
unfolding on_round
on_round_total onward s (return req) h = λ e. ground arith
on_round_total onward s (go_on phase req) h = h phase req

on_scan_total :
    (body : Phase → Bytes → UploadPackRequest → Round)
    (onward : Phase → UploadPackRequest → Scanner → Parsed) (phase : Phase)
    (req : UploadPackRequest) (r : Scanner × Bool)
    → (r.1 ≡ true
        → (phase' : Phase) (req' : UploadPackRequest) → onward phase' req' r.0 ≢ out_of_fuel)
    → on_scan body onward phase req r ≢ out_of_fuel
unfolding on_scan
on_scan_total body onward phase req (s, true) h =
    on_round_total onward s (body phase s.line req) (h refl)
on_scan_total body onward phase req (s, false) h = λ e. ended s.failure e
  where
    ended : (o : Option ScanError) → after_loop req o ≢ out_of_fuel
    ended none = λ e. ground arith
    ended (some x) = λ e. ground arith

scan_lines_total :
    (body : Phase → Bytes → UploadPackRequest → Round) (fuel : ℕ) (phase : Phase)
    (req : UploadPackRequest) (s : Scanner)
    → length s.unread < fuel
    → scan_lines body fuel phase req s ≢ out_of_fuel
unfolding scan_lines
scan_lines_total body zero phase req s h = absurd (omega arith)
scan_lines_total body (suc fuel) phase req s h =
    on_scan_total body (scan_lines body fuel) phase req (scan s) (λ more phase' req'.
      scan_lines_total body fuel phase' req' (scan s).0 (omega (arith, scan_shrinks s more)))

-- Both parsers return a request or the scanner's error on every body: the fuel is enough.
pub parse_total :
    (body : Bytes)
    → (parse_upload_pack_request body ≢ out_of_fuel)
      × (parse_v2_upload_pack_request body ≢ out_of_fuel)
unfolding parse_upload_pack_request parse_v2_upload_pack_request new_scanner
parse_total body = (
  scan_lines_total v1_line (length body + 1) first empty_request (new_scanner body) (omega arith),
  scan_lines_total v2_line (length body + 1) first (record empty_request { is_v2 = true })
      (new_scanner body) (omega arith),
)

-- The loop as a fold over lines.
unfoldable pub run_lines :
    (Phase → Bytes → UploadPackRequest → Round)
    → Phase
    → UploadPackRequest
    → List Bytes
    → UploadPackRequest
run_lines body phase req [] = req
run_lines body phase req (l ∷ ls) = elim (body phase l req) [
  | return req' ↦ req'
  | go_on phase' req' ↦ run_lines body phase' req' ls
]

unfoldable pub encode_all : List Packet → Bytes
encode_all [] = []
encode_all (p ∷ ps) = encode p ++ encode_all ps

-- A round whose packet is scanned, for each result of the loop's body.
one_round :
    (body : Phase → Bytes → UploadPackRequest → Round) (p : Packet) (ps : List Packet) (fuel : ℕ)
    (phase : Phase) (req : UploadPackRequest) (s : Scanner) (r : Round)
    → scan s ≡ (scanned p (encode_all ps) s, true)
    → body phase (view p) req ≡ r
    → ((phase' : Phase) (req' : UploadPackRequest)
        → scan_lines body fuel phase' req' (scanned p (encode_all ps) s)
          ≡ parsed (run_lines body phase' req' (map view ps)))
    → scan_lines body (suc fuel) phase req s
      ≡ parsed (run_lines body phase req (view p ∷ map view ps))
unfolding scan_lines run_lines
one_round body p ps fuel phase req s (return req') step e ih =
    ap (on_scan body (scan_lines body fuel) phase req) step
    ∙ ap (on_round (scan_lines body fuel) (scanned p (encode_all ps) s)) e
    ∙ ground (arith, e)
one_round body p ps fuel phase req s (go_on phase' req') step e ih =
    ap (on_scan body (scan_lines body fuel) phase req) step
    ∙ ap (on_round (scan_lines body fuel) (scanned p (encode_all ps) s)) e
    ∙ ih phase' req'
    ∙ ground (arith, e)

-- On packets that fit their length fields the loop is the fold over their lines.
scan_lines-encode_all :
    (body : Phase → Bytes → UploadPackRequest → Round) (ps : List Packet) (fuel : ℕ) (phase : Phase)
    (req : UploadPackRequest) (s : Scanner)
    → All Fits ps
    → length s.unread < fuel
    → s.done ≡ false
    → s.failure ≡ none
    → s.unread ≡ encode_all ps
    → scan_lines body fuel phase req s ≡ parsed (run_lines body phase req (map view ps))
scan_lines-encode_all body ps zero phase req s fits h going fine e = absurd (omega arith)
scan_lines-encode_all body [] (suc fuel) phase req s fits h going fine e =
    unfold scan_lines run_lines after_loop scan read_full encode_all in ground (arith, ap length e)
scan_lines-encode_all body (p ∷ ps) (suc fuel) phase req s (fit, fits) h going fine e =
    let e' : s.unread ≡ encode p ++ encode_all ps = unfold encode_all in e in
    let step = scan-encode p (encode_all ps) s fit going e' in
    let s' = scanned p (encode_all ps) s in
    let shorter : length s'.unread + 4 ≤ length s.unread =
      rw step at (scan_shrinks s (ap (λ r. r.1) step)) in
    one_round body p ps fuel phase req s (body phase (view p) req) step refl (λ phase' req'.
      scan_lines-encode_all body ps fuel phase' req' s' fits (omega arith) going fine refl)

-- Both parsers, on the packets of a client: the fold over the packets' lines.
pub parse-encode_all :
    (ps : List Packet)
    → All Fits ps
    → (parse_upload_pack_request (encode_all ps)
        ≡ parsed (run_lines v1_line first empty_request (map view ps)))
      × (parse_v2_upload_pack_request (encode_all ps)
          ≡ parsed (run_lines v2_line first (record empty_request { is_v2 = true }) (map view ps)))
unfolding parse_upload_pack_request parse_v2_upload_pack_request new_scanner
parse-encode_all ps fits = (
  scan_lines-encode_all v1_line ps (length (encode_all ps) + 1) first empty_request
      (new_scanner (encode_all ps)) fits (omega arith) refl refl refl,
  scan_lines-encode_all v2_line ps (length (encode_all ps) + 1) first
      (record empty_request { is_v2 = true }) (new_scanner (encode_all ps)) fits (omega arith) refl
      refl refl,
)
