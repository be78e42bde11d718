-- ===== src/Git/Handler/Push.antt =====
-- git/handler.go: what a push leaves of the cached refs.
use mathlib.Core.List.{append_assoc}
use proxykit.Prelude.{ℕ, ◌≡◌, ap, sym, ◌∙◌, true, ◌||◌, none, ◌++◌, arith, if◌then◌else◌}
use proxykit.Prelude.Text.{Bytes, codes, has_prefix, has_prefix-append}
use proxykit.Cache.Entry.{find}
use proxykit.Cache.Ops.{remove_by_prefix}
use proxykit.Cache.Invariant.{IsValid}
use proxykit.Cache.Invariant.Runs.{remove_by_prefix-IsValid}
use proxykit.Cache.Sweep.{remove_by_prefix_exact}
use proxykit.Git.Detect.{Request, parse_repo_path, extract_host}
use proxykit.Git.Keys.{refs_cache_key, ls_refs_cache_key, repo_refs_prefix, repo_ls_refs_prefix}
use proxykit.Git.Handler.{Handler, Outside, handle_receive_pack}
use proxykit.Http.{Response, responds}

has_prefix-refs_cache_key :
    (host repo scope : Bytes)
    → has_prefix (refs_cache_key host repo scope) (repo_refs_prefix host repo) ≡ true
unfolding refs_cache_key repo_refs_prefix
has_prefix-refs_cache_key host repo scope =
    let prefix = codes "refs:" ++ (host ++ (codes ":" ++ (repo ++ codes ":"))) in
    let whole : prefix ++ (scope ++ codes ":upload-pack")
        ≡ codes "refs:"
          ++ (host ++ (codes ":" ++ (repo ++ (codes ":" ++ (scope ++ codes ":upload-pack"))))) =
      simp append_assoc in
    ap (λ s. has_prefix s prefix) (sym whole)
    ∙ has_prefix-append prefix (scope ++ codes ":upload-pack")

has_prefix-ls_refs_cache_key :
    (host repo scope : Bytes)
    → has_prefix (ls_refs_cache_key host repo scope) (repo_ls_refs_prefix host repo) ≡ true
unfolding ls_refs_cache_key repo_ls_refs_prefix
has_prefix-ls_refs_cache_key host repo scope =
    let prefix = codes "lsrefs:" ++ (host ++ (codes ":" ++ (repo ++ codes ":"))) in
    let whole : prefix ++ scope
        ≡ codes "lsrefs:" ++ (host ++ (codes ":" ++ (repo ++ (codes ":" ++ scope)))) =
      simp append_assoc in
    ap (λ s. has_prefix s prefix) (sym whole) ∙ has_prefix-append prefix scope

module _ (o : Outside) (r : Request) (resp : Response) (h : Handler) where
  abbrev after_push : Handler
  after_push = (handle_receive_pack o r (responds resp) h).0

  -- The level 1 cache after a push that the server accepted: exactly the entries whose key has one
  -- of the two prefixes of the repository are gone.
  push_exact :
      (extra : ℕ) (k : Bytes)
      → IsValid extra h.refs_cache
      → resp.status ≡ 200
      → find k after_push.refs_cache.entries ≡ (
          if has_prefix k (repo_refs_prefix (extract_host r) (parse_repo_path r.path))
            || has_prefix k (repo_ls_refs_prefix (extract_host r) (parse_repo_path r.path))
          then none
          else find k h.refs_cache.entries)
  unfolding handle_receive_pack
  push_exact extra k v ok =
      let host = extract_host r in
      let repo = parse_repo_path r.path in
      let refs = (remove_by_prefix o.like o.world (repo_refs_prefix host repo) h.refs_cache).0 in
      let v' =
        remove_by_prefix-IsValid extra o.world o.like (repo_refs_prefix host repo) h.refs_cache v in
      ground (
        arith,
        ok,
        (remove_by_prefix_exact o.world h.refs_cache v.distinct o.like (repo_refs_prefix host repo)
            k).0,
        (remove_by_prefix_exact o.world refs v'.distinct o.like (repo_ls_refs_prefix host repo)
            k).0,
      )

  -- After a push that the server accepted with status 200, from a valid level 1 cache, no refs of the
  -- repository are cached, under any authorization and for either protocol; exactly the entries with
  -- its two prefixes are gone, and the packs stay.
  pub push_invalidates :
      (extra : ℕ) (scope k : Bytes)
      → IsValid extra h.refs_cache
      → resp.status ≡ 200
      → (find
            (refs_cache_key (extract_host r) (parse_repo_path r.path) scope)
            after_push.refs_cache.entries
          ≡ none)
        × (find
              (ls_refs_cache_key (extract_host r) (parse_repo_path r.path) scope)
              after_push.refs_cache.entries
            ≡ none)
        × (find k after_push.refs_cache.entries ≡ (
            if has_prefix k (repo_refs_prefix (extract_host r) (parse_repo_path r.path))
              || has_prefix k (repo_ls_refs_prefix (extract_host r) (parse_repo_path r.path))
            then none
            else find k h.refs_cache.entries))
        × (after_push.packs_cache ≡ h.packs_cache)
  push_invalidates extra scope k v ok =
      let host = extract_host r in
      let repo = parse_repo_path r.path in
      (
        ground (
          arith,
          push_exact extra (refs_cache_key host repo scope) v ok,
          has_prefix-refs_cache_key host repo scope,
        ),
        ground (
          arith,
          push_exact extra (ls_refs_cache_key host repo scope) v ok,
          has_prefix-ls_refs_cache_key host repo scope,
        ),
        push_exact extra k v ok,
        unfold handle_receive_pack in ground arith,
      )
