-- ===== src/Npm/Paths/Rewrites.antt =====
-- npm/npm.go: `rewriteRegistryTarballURLs` on a text that is cut at the occurrences of the address.
use mathlib.Core.List.{append-nil}
use proxykit.Prelude.{
  ℕ, suc, ◌-◌, ◌≡◌, refl, ap, sym, ◌∙◌, true, false, List, [], ◌∷◌, ◌++◌, arith, length,
}
use proxykit.Prelude.Text.{Bytes, codes, has_prefix, has_prefix-append, has_suffix, trim_suffix}
use proxykit.Npm.Paths.{
  trim_right_slash, replace_from, rewrite_tarball_urls, rewrite_registry_tarball_urls,
  proxy_upstream_base_url,
}

-- Parts of a text, with a word between each two.
unfoldable pub joined_by : Bytes → Bytes → List Bytes → Bytes
joined_by word part [] = part
joined_by word part (next ∷ parts) = part ++ (word ++ joined_by word next parts)

-- Nowhere in a part does the word begin, read on into what follows.
abbrev IsFreeOf : Bytes → Bytes → Bytes → Type 0
IsFreeOf word [] rest = Unit
IsFreeOf word (c ∷ part) rest =
    (has_prefix (c ∷ (part ++ rest)) word ≡ false) × IsFreeOf word part rest

-- The cuts are at the first occurrence of the word, at the first one behind that, and so on.
abbrev pub AreCuts : Bytes → Bytes → List Bytes → Type 0
AreCuts word part [] = IsFreeOf word part []
AreCuts word part (next ∷ parts) =
    IsFreeOf word part (word ++ joined_by word next parts) × AreCuts word next parts

module _ (old new : Bytes) where
  replace_from-free :
      (part rest : Bytes)
      → IsFreeOf old part rest
      → replace_from old new 0 (part ++ rest) ≡ part ++ replace_from old new 0 rest
  unfolding replace_from
  replace_from-free [] rest free = refl
  replace_from-free (c ∷ part) rest (here, free) =
      ground (arith, here, replace_from-free part rest free)

  replace_from-skip :
      (m rest : Bytes) → replace_from old new (length m) (m ++ rest) ≡ replace_from old new 0 rest
  unfolding replace_from
  replace_from-skip [] rest = refl
  replace_from-skip (c ∷ m) rest = replace_from-skip m rest

replace_from-word :
    (c : ℕ) (word new rest : Bytes)
    → replace_from (c ∷ word) new 0 ((c ∷ word) ++ rest) ≡ new ++ replace_from (c ∷ word) new 0 rest
unfolding replace_from
replace_from-word c word new rest =
    let here : has_prefix (c ∷ (word ++ rest)) (c ∷ word) ≡ true =
      has_prefix-append (c ∷ word) rest in
    let behind : suc (length word) - 1 ≡ length word = omega arith in
    rw here rw behind (ap (◌++◌ new) (replace_from-skip (c ∷ word) new word rest))

replace_from-joined_by :
    (c : ℕ) (word new part : Bytes) (parts : List Bytes)
    → AreCuts (c ∷ word) part parts
    → replace_from (c ∷ word) new 0 (joined_by (c ∷ word) part parts) ≡ joined_by new part parts
unfolding joined_by replace_from
replace_from-joined_by c word new part [] cuts =
    ap (replace_from (c ∷ word) new 0) (sym (append-nil part))
    ∙ replace_from-free (c ∷ word) new part [] cuts
    ∙ append-nil part
replace_from-joined_by c word new part (next ∷ parts) (free, cuts) =
    replace_from-free (c ∷ word) new part ((c ∷ word) ++ joined_by (c ∷ word) next parts) free
    ∙ ap (◌++◌ part) (
        replace_from-word c word new (joined_by (c ∷ word) next parts)
        ∙ ap (◌++◌ new) (replace_from-joined_by c word new next parts cuts))

-- A text in which every occurrence of the registry's address is cut out gets the proxy's address with
-- the route in its place, and keeps all that is between.
pub rewrite_registry_tarball_urls-joined_by :
    (base : Bytes) (c : ℕ) (word host upstream_host part : Bytes) (parts : List Bytes)
    → trim_right_slash base ≡ c ∷ word
    → has_suffix host (codes "/") ≡ false
    → AreCuts (c ∷ word) part parts
    → rewrite_registry_tarball_urls (joined_by (c ∷ word) part parts) base upstream_host host
      ≡ joined_by (codes "http://" ++ (host ++ (codes "/_upstream/" ++ upstream_host))) part parts
unfolding rewrite_registry_tarball_urls rewrite_tarball_urls proxy_upstream_base_url trim_suffix
rewrite_registry_tarball_urls-joined_by base c word host upstream_host part parts address bare
      cuts =
    rw address rw bare (
      replace_from-joined_by c word
        (codes "http://" ++ (host ++ (codes "/_upstream/" ++ upstream_host))) part parts cuts)
