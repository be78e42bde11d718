-- ===== src/Git/UploadPack/Verdict.antt =====
-- git/pktline.go: which upload-pack requests are taken for a fresh clone, as a function of their
-- lines before and after the packet that ends the first phase.
use mathlib.Core.List.{map-append}
use proxykit.Prelude.{
  ◌≡◌, refl, ap, ◌∙◌, Bool, true, false, not, ◌||◌, List, [], ◌∷◌, ◌++◌, map, arith, Bool-cases,
  inl, inr, All,
}
use proxykit.Prelude.Text.{Bytes, codes, bytes_eq, bytes_eq→eq, bytes_eq_refl, has_prefix}
use proxykit.Git.PktLine.RoundTrip.{Packet, flush, view, Fits}
use proxykit.Git.UploadPack.{
  UploadPackRequest, empty_request, first, second, add_want, truncates, note_shallow, ends, v1_line,
  parsed, parse_upload_pack_request,
}
use proxykit.Git.UploadPack.Lines.{run_lines, encode_all, parse-encode_all}

unfoldable pub any_truncates : List Bytes → Bool
any_truncates [] = false
any_truncates (q ∷ qs) = truncates q || any_truncates qs

-- Lines that do not end the first phase.
abbrev pub Filled : List Bytes → Type 0
Filled ps = All (λ p. bytes_eq p [] ≡ false) ps

-- Lines that neither name an object that the client has nor end the request.
abbrev pub Plain : List Bytes → Type 0
Plain qs = All (λ q. (has_prefix q (codes "have ") ≡ false) × (ends q ≡ false)) qs

-- A line that ends the request is no other line.
pub ends_alone :
    (e : Bytes)
    → ends e ≡ true
    → (has_prefix e (codes "have ") ≡ false)
      × (truncates e ≡ false)
      × (has_prefix e (codes "filter ") ≡ false)
unfolding ends truncates has_prefix
ends_alone e h = elim (Bool-cases (bytes_eq e (codes "done"))) [
  | inl last ↦ let same = bytes_eq→eq e (codes "done") last in rw same (refl, refl, refl)
  | inr other ↦ let same = bytes_eq→eq e [] (ground arith) in rw same (refl, refl, refl)
]

-- A `want` line changes the hashes alone.
pub add_want_flags :
    (line : Bytes) (req : UploadPackRequest)
    → ((add_want line req).is_fresh_clone ≡ req.is_fresh_clone)
      × ((add_want line req).is_shallow ≡ req.is_shallow)
      × ((add_want line req).has_filter ≡ req.has_filter)
      × ((add_want line req).v2_command ≡ req.v2_command)
unfolding add_want
add_want_flags line req = ground arith

-- The first phase of a v1 request changes the hashes alone.
v1_first :
    (ps ls : List Bytes) (req : UploadPackRequest)
    → Filled ps
    → (req' : UploadPackRequest) × (run_lines v1_line first req (ps ++ ls)
        ≡ run_lines v1_line first req' ls)
      × (req'.is_fresh_clone ≡ req.is_fresh_clone)
      × (req'.is_shallow ≡ req.is_shallow)
unfolding run_lines v1_line
v1_first [] ls req f = (req, refl, refl, refl)
v1_first (p ∷ ps) ls req (full, f) =
    let (req', same, fresh, shallow) = v1_first ps ls (add_want p req) f in
    let (a, b, _, _) = add_want_flags p req in
    (req', ground (arith, full, same), fresh ∙ a, shallow ∙ b)

v1_second :
    (qs rest : List Bytes) (e : Bytes) (req : UploadPackRequest)
    → Plain qs
    → ends e ≡ true
    → ((run_lines v1_line second req (qs ++ e ∷ rest)).is_fresh_clone
        ≡ not (any_truncates qs || req.is_shallow))
      × ((run_lines v1_line second req (qs ++ e ∷ rest)).is_shallow
          ≡ (any_truncates qs || req.is_shallow))
unfolding run_lines v1_line note_shallow any_truncates
v1_second [] rest e req p last =
    let (a, b, c) = ends_alone e last in (ground (arith, a, b), ground (arith, a, b))
v1_second (q ∷ qs) rest e req ((no_have, goes), p) last =
    let (a, b) = v1_second qs rest e (note_shallow q req) p last in
    (ground (arith, a), ground (arith, b))

-- A `have` line that the request reaches: no clone.
v1_second_have :
    (qs rest : List Bytes) (h : Bytes) (req : UploadPackRequest)
    → Plain qs
    → has_prefix h (codes "have ") ≡ true
    → (run_lines v1_line second req (qs ++ h ∷ rest)).is_fresh_clone ≡ false
unfolding run_lines v1_line
v1_second_have [] rest h req p have = ground (arith, have)
v1_second_have (q ∷ qs) rest h req ((no_have, goes), p) have =
    ground (arith, v1_second_have qs rest h (note_shallow q req) p have)

lines_of :
    (ps qs : List Packet) (turn : Packet)
    → map view (ps ++ turn ∷ qs) ≡ map view ps ++ view turn ∷ map view qs
lines_of ps qs turn = map-append view ps (turn ∷ qs)

-- A v1 request of a client: packets with lines, a flush, packets of the second phase, and a packet
-- that ends it.
abbrev pub two_phases : List Packet → Packet → List Packet → Packet → List Packet → List Packet
two_phases ps turn qs e rest = ps ++ turn ∷ (qs ++ e ∷ rest)

pub two_phases_lines :
    (ps : List Packet) (turn : Packet) (qs : List Packet) (e : Packet) (rest : List Packet)
    → view turn ≡ []
    → map view (two_phases ps turn qs e rest)
      ≡ map view ps ++ [] ∷ (map view qs ++ view e ∷ map view rest)
two_phases_lines ps turn qs e rest empty =
    lines_of ps (qs ++ e ∷ rest) turn
    ∙ ap (λ l. map view ps ++ l ∷ map view (qs ++ e ∷ rest)) empty
    ∙ ap (λ ls. map view ps ++ [] ∷ ls) (lines_of qs rest e)

module _ (ps qs rest : List Packet) (e : Packet) where
  v1_reaches :
      Filled (map view ps)
      → (req : UploadPackRequest) × (run_lines v1_line first empty_request
            (map view (two_phases ps flush qs e rest))
          ≡ run_lines v1_line second req (map view qs ++ view e ∷ map view rest))
        × (req.is_shallow ≡ false)
  v1_reaches f =
      let ls = [] ∷ (map view qs ++ view e ∷ map view rest) in
      let (req, same, _, shallow) = v1_first (map view ps) ls empty_request f in
      (
        req,
        ap (run_lines v1_line first empty_request)
              (two_phases_lines ps flush qs e rest (unfold view in refl))
            ∙ same
            ∙ unfold run_lines v1_line in ground (arith, bytes_eq_refl []),
        shallow,
      )

  -- A v1 request of packets that fit whose second phase reaches `done` or a flush without a `have`
  -- is a fresh clone exactly if no line of the second phase says `shallow` or `deepen`. The lines of the first phase
  -- do not matter, whatever they say.
  pub v1_verdict :
      All Fits (two_phases ps flush qs e rest)
      → Filled (map view ps)
      → Plain (map view qs)
      → ends (view e) ≡ true
      → (req : UploadPackRequest) × (parse_upload_pack_request
            (encode_all (two_phases ps flush qs e rest))
          ≡ parsed req)
        × (req.is_fresh_clone ≡ not (any_truncates (map view qs)))
        × (req.is_shallow ≡ any_truncates (map view qs))
  v1_verdict fits filled plain last =
      let lines = map view (two_phases ps flush qs e rest) in
      let (req, same, calm) = v1_reaches filled in
      let (fresh, shallow) = v1_second (map view qs) (map view rest) (view e) req plain last in
      (
        run_lines v1_line first empty_request lines,
        (parse-encode_all (two_phases ps flush qs e rest) fits).0,
        ground (arith, ap (λ (r : UploadPackRequest). r.is_fresh_clone) same, fresh, calm),
        ground (arith, ap (λ (r : UploadPackRequest). r.is_shallow) same, shallow, calm),
      )

  -- A v1 request whose second phase reaches a `have` line is not a fresh clone.
  pub v1_incremental :
      All Fits (two_phases ps flush qs e rest)
      → Filled (map view ps)
      → Plain (map view qs)
      → has_prefix (view e) (codes "have ") ≡ true
      → (req : UploadPackRequest) × (parse_upload_pack_request
            (encode_all (two_phases ps flush qs e rest))
          ≡ parsed req)
        × (req.is_fresh_clone ≡ false)
  v1_incremental fits filled plain have =
      let lines = map view (two_phases ps flush qs e rest) in
      let (req, same, calm) = v1_reaches filled in
      (
        run_lines v1_line first empty_request lines,
        (parse-encode_all (two_phases ps flush qs e rest) fits).0,
        ap (λ (r : UploadPackRequest). r.is_fresh_clone) same
            ∙ v1_second_have (map view qs) (map view rest) (view e) req plain have,
      )
