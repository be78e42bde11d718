-- ===== src/Git/UploadPack/VerdictV2.antt =====
-- git/pktline.go: which protocol v2 requests are taken for a fresh clone.
use mathlib.Core.Path.{subst, ap₂}
use proxykit.Prelude.{
  ◌≡◌, refl, ap, sym, ◌∙◌, Bool, true, false, not, ◌&&◌, ◌||◌, none, some, List, [], ◌∷◌, ◌++◌, map,
  arith, Option-cases, Bool-cases, inl, inr, All,
}
use proxykit.Prelude.Text.{Bytes, codes, bytes_eq, bytes_eq_refl, has_prefix, cut_prefix}
use proxykit.Git.PktLine.RoundTrip.{Packet, view, Fits}
use proxykit.Git.UploadPack.{
  UploadPackRequest, empty_request, first, second, add_want, truncates, note_shallow, ends, v2_line,
  note_command, note_filter, v2_finish, parsed, parse_v2_upload_pack_request,
}
use proxykit.Git.UploadPack.Lines.{run_lines, encode_all, parse-encode_all}
use proxykit.Git.UploadPack.Verdict.{
  any_truncates, Filled, Plain, ends_alone, add_want_flags, two_phases, two_phases_lines,
}

unfoldable pub any_filters : List Bytes → Bool
any_filters [] = false
any_filters (q ∷ qs) = has_prefix q (codes "filter ") || any_filters qs

-- The command that the lines of the first phase leave: the last one that they name.
unfoldable pub command_of : Bytes → List Bytes → Bytes
command_of command [] = command
command_of command (p ∷ ps) = elim (cut_prefix p (codes "command=")) [
  | none ↦ command_of command ps
  | some c ↦ command_of c ps
]

abbrev v2_start : UploadPackRequest
v2_start = record empty_request { is_v2 = true }

-- The first phase of a v2 request changes the command alone.
v2_first :
    (ps ls : List Bytes) (command : Bytes)
    → Filled ps
    → run_lines v2_line first (record v2_start { v2_command = command }) (ps ++ ls)
      ≡ run_lines v2_line first (record v2_start { v2_command = command_of command ps }) ls
unfolding run_lines v2_line note_command command_of
v2_first [] ls command f = refl
v2_first (p ∷ ps) ls command (full, f) = elim (Option-cases (cut_prefix p (codes "command="))) [
  | inl other ↦ ground (arith, full, other, v2_first ps ls command f)
  | inr (c, names) ↦ ground (arith, full, names, v2_first ps ls c f)
]

-- What the second phase leaves of the flags.
record Flags (qs : List Bytes) (req r : UploadPackRequest) : Type 0 where
  fresh :
      bytes_eq req.v2_command (codes "fetch") ≡ true
      → r.is_fresh_clone
        ≡ (not (any_truncates qs || req.is_shallow) && not (any_filters qs || req.has_filter))
  other : bytes_eq req.v2_command (codes "fetch") ≡ false → r.is_fresh_clone ≡ req.is_fresh_clone
  command : r.v2_command ≡ req.v2_command
  filtered : r.has_filter ≡ (any_filters qs || req.has_filter)

v2_noted : Bytes → UploadPackRequest → UploadPackRequest
v2_noted q req = note_filter q (note_shallow q (add_want q req))

v2_goes :
    (q : Bytes) (ls : List Bytes) (req : UploadPackRequest)
    → has_prefix q (codes "have ") ≡ false
    → ends q ≡ false
    → run_lines v2_line second req (q ∷ ls) ≡ run_lines v2_line second (v2_noted q req) ls
unfolding run_lines v2_line v2_noted
v2_goes q ls req no_have goes = ground (arith, no_have, goes)

v2_ends :
    (e : Bytes) (ls : List Bytes) (req : UploadPackRequest)
    → has_prefix e (codes "have ") ≡ false
    → ends e ≡ true
    → run_lines v2_line second req (e ∷ ls) ≡ v2_finish (v2_noted e req)
unfolding run_lines v2_line v2_noted
v2_ends e ls req no_have last = ground (arith, no_have, last)

-- The flags behind one line.
noted_flags :
    (q : Bytes) (req : UploadPackRequest)
    → ((v2_noted q req).is_fresh_clone ≡ req.is_fresh_clone)
      × ((v2_noted q req).is_shallow ≡ (truncates q || req.is_shallow))
      × ((v2_noted q req).has_filter ≡ (has_prefix q (codes "filter ") || req.has_filter))
      × ((v2_noted q req).v2_command ≡ req.v2_command)
unfolding v2_noted note_shallow note_filter
noted_flags q req =
    let (a, b, c, d) = add_want_flags q req in
    (a, ap (λ x. truncates q || x) b, ap (λ x. has_prefix q (codes "filter ") || x) c, d)

finish_flags :
    (r : UploadPackRequest)
    → (bytes_eq r.v2_command (codes "fetch") ≡ true
        → (v2_finish r).is_fresh_clone ≡ (not r.is_shallow && not r.has_filter))
      × (bytes_eq r.v2_command (codes "fetch") ≡ false
          → (v2_finish r).is_fresh_clone ≡ r.is_fresh_clone)
      × ((v2_finish r).v2_command ≡ r.v2_command)
      × ((v2_finish r).has_filter ≡ r.has_filter)
unfolding v2_finish
finish_flags r = (λ h. ground arith, λ h. ground arith, ground arith, ground arith)

or_assoc : (a b c : Bool) → ((a || b) || c) ≡ (b || (a || c))
or_assoc a b c = ground arith

Flags-cons :
    (q : Bytes) (qs : List Bytes) (req r : UploadPackRequest)
    → Flags qs (v2_noted q req) r
    → Flags (q ∷ qs) req r
unfolding any_truncates any_filters
Flags-cons q qs req r s =
    let (a, b, c, d) = noted_flags q req in
    let fetches = ap (λ x. bytes_eq x (codes "fetch")) d in
    record {
      fresh = λ h.
          s.fresh (fetches ∙ h)
          ∙ ap₂ (λ x y. not x && not y)
              (ap (λ x. any_truncates qs || x) b
                ∙ sym (or_assoc (truncates q) (any_truncates qs) req.is_shallow))
              (ap (λ x. any_filters qs || x) c
                ∙ sym (or_assoc (has_prefix q (codes "filter ")) (any_filters qs) req.has_filter));
      other = λ h. s.other (fetches ∙ h) ∙ a;
      command = s.command ∙ d;
      filtered =
          s.filtered
          ∙ ap (λ x. any_filters qs || x) c
          ∙ sym (or_assoc (has_prefix q (codes "filter ")) (any_filters qs) req.has_filter);
    }

Flags-end :
    (e : Bytes) (req : UploadPackRequest)
    → ends e ≡ true
    → Flags [] req (v2_finish (v2_noted e req))
unfolding any_truncates any_filters
Flags-end e req last =
    let (_, calm, unfiltered) = ends_alone e last in
    let (a, b, c, d) = noted_flags e req in
    let (fresh, other, command, filtered) = finish_flags (v2_noted e req) in
    let fetches = ap (λ x. bytes_eq x (codes "fetch")) d in
    let shallow = b ∙ ap (λ x. x || req.is_shallow) calm in
    let filters = c ∙ ap (λ x. x || req.has_filter) unfiltered in
    record {
      fresh = λ h. fresh (fetches ∙ h) ∙ ap₂ (λ x y. not x && not y) shallow filters;
      other = λ h. other (fetches ∙ h) ∙ a;
      command = command ∙ d;
      filtered = filtered ∙ filters;
    }

v2_second :
    (qs rest : List Bytes) (e : Bytes) (req : UploadPackRequest)
    → Plain qs
    → ends e ≡ true
    → Flags qs req (run_lines v2_line second req (qs ++ e ∷ rest))
v2_second [] rest e req p last =
    subst (Flags [] req) (sym (v2_ends e rest req (ends_alone e last).0 last))
      (Flags-end e req last)
v2_second (q ∷ qs) rest e req ((no_have, goes), p) last =
    subst (Flags (q ∷ qs) req) (sym (v2_goes q (qs ++ e ∷ rest) req no_have goes))
      (Flags-cons q qs req _ (v2_second qs rest e (v2_noted q req) p last))

-- A v2 request of packets that fit whose arguments reach `done` or a flush without a `have`: its
-- command is the last one named, it has a filter if an argument says so, and it is a fresh clone
-- exactly if the command is `fetch` and no argument says `shallow`, `deepen` or `filter`.
pub v2_verdict :
    (ps qs rest : List Packet) (e turn : Packet)
    → view turn ≡ []
    → All Fits (two_phases ps turn qs e rest)
    → Filled (map view ps)
    → Plain (map view qs)
    → ends (view e) ≡ true
    → (req : UploadPackRequest) × (parse_v2_upload_pack_request
          (encode_all (two_phases ps turn qs e rest))
        ≡ parsed req)
      × (req.v2_command ≡ command_of [] (map view ps))
      × (req.has_filter ≡ any_filters (map view qs))
      × (req.is_fresh_clone ≡ (
          bytes_eq (command_of [] (map view ps)) (codes "fetch")
          && (not (any_truncates (map view qs)) && not (any_filters (map view qs)))))
v2_verdict ps qs rest e turn empty fits filled plain last =
    let lines = map view (two_phases ps turn qs e rest) in
    let ls = [] ∷ (map view qs ++ view e ∷ map view rest) in
    let start = record v2_start { v2_command = command_of [] (map view ps) } in
    let reaches : run_lines v2_line first v2_start lines
        ≡ run_lines v2_line second start (map view qs ++ view e ∷ map view rest) =
      ap (run_lines v2_line first v2_start) (two_phases_lines ps turn qs e rest empty)
      ∙ (v2_first (map view ps) ls [] filled)
      ∙ (unfold run_lines v2_line in ground (arith, bytes_eq_refl [])) in
    let s = v2_second (map view qs) (map view rest) (view e) start plain last in
    (
      run_lines v2_line first v2_start lines,
      ((parse-encode_all (two_phases ps turn qs e rest) fits).1),
      ap (λ (r : UploadPackRequest). r.v2_command) reaches ∙ s.command,
      ap (λ (r : UploadPackRequest). r.has_filter) reaches ∙ (ground (arith, s.filtered)),
      ap (λ (r : UploadPackRequest). r.is_fresh_clone) reaches
          ∙ (elim (Bool-cases (bytes_eq (command_of [] (map view ps)) (codes "fetch"))) [
            | inl fetch ↦ ground (arith, fetch, s.fresh fetch)
            | inr no_fetch ↦ ground (arith, no_fetch, s.other no_fetch)
          ]),
    )
