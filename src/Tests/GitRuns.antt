-- ===== src/Tests/GitRuns.antt =====
-- git/: small requests, and the theorems about them.
use proxykit.Prelude.{◌≡◌, refl, true, false, none, [], ◌∷◌, ◌++◌, map, arith, inl, ◌≢◌}
use proxykit.Prelude.Int.{pos}
use proxykit.Prelude.Text.{
  before_last, codes, bytes_eq, has_prefix, has_suffix, trim_suffix, take_until, cut_prefix,
  contains,
}
use proxykit.Cache.Entry.{Entry, find, insert, delete, sizes, expired, expired_at}
use proxykit.Cache.State.{Cache, Files}
use proxykit.Cache.Ops.{get, touch, deadline}
use proxykit.Git.PktLine.{scan, new_scanner}
use proxykit.Git.PktLine.RoundTrip.{
  Packet, line, flush, delimiter, hex4, hex_digit, encode, view, scan-encode,
}
use proxykit.Git.UploadPack.{
  UploadPackRequest, parsed, empty_request, first, truncates, ends, v1_line, v2_line, out_of_fuel,
  parse_upload_pack_request, parse_v2_upload_pack_request,
}
use proxykit.Git.UploadPack.Lines.{run_lines, encode_all, parse_total, parse-encode_all}
use proxykit.Git.UploadPack.Verdict.{any_truncates, two_phases, v1_verdict}
use proxykit.Git.UploadPack.VerdictV2.{any_filters, command_of, v2_verdict}
use proxykit.Git.Detect.{Request, is_protocol_v2, extract_host, parse_repo_path}
use proxykit.Http.{split_host_port}
use proxykit.Git.Keys.{refs_cache_key, ls_refs_cache_key, repo_refs_prefix, repo_ls_refs_prefix}
use proxykit.Git.Handler.{
  Handler, Outside, served, forward_direct, exceeds, serve_clone, handle_upload_pack,
  handle_receive_pack,
}
use proxykit.Http.{Response, responds, unreachable}
use proxykit.Git.CountWriter.{CountWriter}
use proxykit.Git.Handler.Push.{push_invalidates}
use proxykit.Git.Handler.Clone.{incremental_forwarded, clone_served_again}

program : Unit {0}
unfolding bytes_eq has_prefix has_suffix cut_prefix hex4 hex_digit encode encode_all view truncates
    ends any_truncates any_filters command_of is_protocol_v2 exceeds find insert delete sizes
    expired get touch deadline
program = tt

abbrev want : Packet
want = line (codes "want 1111 agent\n")

abbrev done_line : Packet
done_line = line (codes "done\n")

scan-encode_example : scan (new_scanner (encode want ++ codes "0000")) ≡ (
  record (new_scanner (encode want ++ codes "0000")) {
    unread = codes "0000";
    line = codes "want 1111 agent";
  },
  true,
)
unfolding new_scanner view trim_suffix take_until has_suffix bytes_eq
scan-encode_example =
    scan-encode want (codes "0000") (new_scanner (encode want ++ codes "0000")) (omega arith) refl
      refl

parse_total_example :
    (parse_upload_pack_request (codes "zzzz") ≢ out_of_fuel)
    × (parse_v2_upload_pack_request (codes "zzzz") ≢ out_of_fuel)
parse_total_example = parse_total (codes "zzzz")

parse-encode_all_example :
    (parse_upload_pack_request (encode_all (want ∷ flush ∷ done_line ∷ []))
      ≡ parsed (run_lines v1_line first empty_request (map view (want ∷ flush ∷ done_line ∷ []))))
    × (parse_v2_upload_pack_request (encode_all (want ∷ flush ∷ done_line ∷ []))
        ≡ parsed (
            run_lines v2_line first
              (record empty_request { is_v2 = true })
              (map view (want ∷ flush ∷ done_line ∷ []))))
parse-encode_all_example =
    parse-encode_all (want ∷ flush ∷ done_line ∷ []) (omega arith, (tt, (omega arith, tt)))

-- A `--depth 1` clone, whose `deepen` line stands before the flush.
v1_verdict_example :
    (req : UploadPackRequest) × (parse_upload_pack_request
        (encode_all (two_phases (want ∷ line (codes "deepen 1\n") ∷ []) flush [] done_line []))
      ≡ parsed req)
    × (req.is_fresh_clone ≡ true)
    × (req.is_shallow ≡ false)
unfolding any_truncates view trim_suffix take_until has_suffix bytes_eq ends
v1_verdict_example =
    v1_verdict (want ∷ line (codes "deepen 1\n") ∷ []) [] [] done_line
      (omega arith, (omega arith, (tt, (omega arith, tt)))) (refl, (refl, tt)) tt refl

v2_verdict_example :
    (req : UploadPackRequest) × (parse_v2_upload_pack_request (
        encode_all (
          two_phases
            (line (codes "command=fetch\n") ∷ [])
            delimiter
            (want ∷ line (codes "filter blob:none\n") ∷ [])
            done_line
            []))
      ≡ parsed req)
    × (req.v2_command ≡ codes "fetch")
    × (req.has_filter ≡ true)
    × (req.is_fresh_clone ≡ false)
unfolding command_of any_filters any_truncates truncates view trim_suffix take_until has_suffix
    bytes_eq has_prefix cut_prefix ends
v2_verdict_example =
    v2_verdict (line (codes "command=fetch\n") ∷ []) (want ∷ line (codes "filter blob:none\n") ∷ [])
      [] done_line delimiter refl
      (omega arith, (tt, (omega arith, (omega arith, (omega arith, tt))))) (refl, tt)
      ((refl, refl), ((refl, refl), tt)) refl

abbrev no_files : Files
no_files = λ _. none

abbrev empty_cache : Cache
empty_cache = record {
  dir = codes "/c";
  max_size = 0;
  ttl = pos 50;
  soft_evict_percent = 0;
  db = none;
  entries = [];
  total_size = 0;
  files = no_files;
}

abbrev refs_entry : Entry
refs_entry = record {
  key = codes "refs:h:/r:anon:upload-pack";
  path = codes "/c/1";
  size = 3;
  created_at = 5;
  accessed_at = 5;
  expires_at = none;
}

abbrev h : Handler
h = record {
  refs_cache = record empty_cache { entries = refs_entry ∷ []; total_size = 3 };
  packs_cache = empty_cache;
  config = record {
    max_upload_pack_request_size = 1000;
    max_pack_cache_entry_size = 0;
    allowed_hosts = [];
  };
}

abbrev o : Outside
o = record {
  sha_hex = λ s. s;
  gunzip = λ _. none;
  like = λ _ _. false;
  world = record { db_ok = λ _. true; remove_ok = λ _. true };
  put_fault = none;
  flowed = 0;
  checked = 10;
  now = 10;
  later = 10;
}

abbrev fetch_request : Request
fetch_request = record {
  host = codes "h";
  path = codes "/r/git-upload-pack";
  service = [];
  git_protocol = [];
  authorization = [];
  content_encoding = [];
  content_type = [];
  body = encode_all (two_phases (want ∷ []) flush [] (line (codes "have 2222\n")) (done_line ∷ []));
}

abbrev pack : Response
pack = record { status = 200; header = []; body = codes "PACK" }

incremental_forwarded_example :
    handle_upload_pack o fetch_request none (responds pack) h ≡ (h, forward_direct (responds pack))
unfolding view trim_suffix take_until has_suffix bytes_eq has_prefix is_protocol_v2 contains hex4
    hex_digit encode encode_all
incremental_forwarded_example =
    incremental_forwarded o fetch_request none (responds pack) h (want ∷ []) [] (done_line ∷ [])
      (line (codes "have 2222\n")) (record { v1 = refl; uncompressed = refl; fits = refl }) refl
      (omega arith, (tt, (omega arith, (omega arith, tt)))) (refl, tt) tt refl

clone_served_again_example :
    ((serve_clone o none (codes "k") (responds pack) h).1
      ≡ served (codes "application/x-git-upload-pack-result") (codes "PACK"))
    × ((serve_clone
          (record o { checked = 40 })
          none
          (codes "k")
          unreachable
          (serve_clone o none (codes "k") (responds pack) h).0).1
        ≡ served (codes "application/x-git-upload-pack-result") (codes "PACK"))
unfolding get find exceeds deadline expired_at
clone_served_again_example =
    clone_served_again o (codes "k") pack h h.packs_cache (record o { checked = 40 }) unreachable
      refl (inl refl) refl refl refl refl

abbrev push_request : Request
push_request = record fetch_request { path = codes "/r/git-receive-pack" }

push_invalidates_example :
    (find
        (refs_cache_key
          (extract_host push_request)
          (parse_repo_path push_request.path)
          (codes "anon"))
        (handle_receive_pack o push_request (responds pack) h).0.refs_cache.entries
      ≡ none)
    × (find
          (ls_refs_cache_key
            (extract_host push_request)
            (parse_repo_path push_request.path)
            (codes "anon"))
          (handle_receive_pack o push_request (responds pack) h).0.refs_cache.entries
        ≡ none)
    × (find
          (codes "refs:g:/r:anon:upload-pack")
          (handle_receive_pack o push_request (responds pack) h).0.refs_cache.entries
        ≡ none)
    × ((handle_receive_pack o push_request (responds pack) h).0.packs_cache ≡ empty_cache)
unfolding find sizes bytes_eq has_prefix repo_refs_prefix repo_ls_refs_prefix extract_host
    split_host_port parse_repo_path before_last
push_invalidates_example =
    push_invalidates o push_request pack h 0 (codes "anon") (codes "refs:g:/r:anon:upload-pack")
      (record { distinct = (refl, tt); accounts = refl }) refl

abbrev counting : CountWriter
counting = record { file = []; written = 0; limit = 4; exceeded = false }
