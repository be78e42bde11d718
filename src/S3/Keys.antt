-- ===== src/S3/Keys.antt =====
-- s3/server.go: `cacheKey`, `invalidateTarget`, and s3/entry.go: the two keys of an entry. A target
-- is what `net/url` makes of a URL: the escaped path, and the query that `encodeSortedQuery` prints.
use mathlib.Core.List.{append_assoc, append-nil}
use proxykit.Prelude.{
  ◌≡◌, refl, ap, sym, ◌∙◌, Bool, true, false, ◌||◌, none, [], ◌∷◌, ◌++◌, arith, if◌then◌else◌,
}
use proxykit.Prelude.Text.{
  cut_past, Bytes, codes, has_prefix, has_prefix-append, has_byte, to_lower, cut, drop_prefix,
  drop_prefix-append,
}
use proxykit.Cache.Entry.{find, Distinct}
use proxykit.Cache.State.{Cache, World}
use proxykit.Cache.Ops.{remove_matching}
use proxykit.Cache.Sweep.{remove_matching_exact}

pub record Target : Type 0 where
  pub host : Bytes
  pub escaped_path : Bytes
  pub stable_query : Bytes

-- The fields of `requestSecurity` that the key holds.
pub record Security : Type 0 where
  pub tenant : Bytes
  pub subject : Bytes
  pub auth_scope : Bytes

-- The key without its last part.
unfoldable pub key_prefix : Target → Security → Bytes
unfolding to_lower
key_prefix t s =
    codes "tenant="
    ++ (s.tenant
        ++ (codes "|subject="
            ++ (s.subject
                ++ (codes "|auth="
                    ++ (s.auth_scope
                        ++ (codes "|host="
                            ++ (to_lower t.host ++ (codes "|path=" ++ t.escaped_path))))))))

-- `cacheKey`.
unfoldable pub cache_key : Target → Security → Bytes
unfolding key_prefix
cache_key t s = key_prefix t s ++ (codes "|query=" ++ t.stable_query)

-- `metadataKey`.
unfoldable pub metadata_key : Bytes → Bytes
metadata_key key = codes "s3:meta:" ++ key

-- `bodyKey`.
unfoldable pub body_key : Bytes → Bytes
body_key key = codes "s3:body:" ++ key

-- The test of `invalidateTarget` on the keys of the cache.
unfoldable pub of_target : Bytes → Bytes → Bool
unfolding has_prefix
of_target prefix k =
    has_prefix k (codes "s3:meta:" ++ (prefix ++ codes "|query="))
    || has_prefix k (codes "s3:body:" ++ (prefix ++ codes "|query="))

-- `invalidateTarget`.
pub invalidate_target : World → Target → Security → Cache → Cache
invalidate_target w t s c =
    let (prefix, query, found) = cut (cache_key t s) (codes "|query=") in
    (remove_matching w (of_target prefix) c).0

-- A text without a bar.
abbrev NoBar : Bytes → Type 0
NoBar s = has_byte b'|' s ≡ false

-- None of the parts of a key holds the bar that separates them.
pub record IsPlain (t : Target) (s : Security) : Type 0 where
  pub tenant : NoBar s.tenant
  pub subject : NoBar s.subject
  pub auth_scope : NoBar s.auth_scope
  pub host : NoBar (to_lower t.host)
  pub path : NoBar t.escaped_path

-- Two texts in front of the first bar are equal, and so is what follows.
split_bar :
    (a b x y : Bytes) → NoBar a → NoBar b → a ++ b'|' ∷ x ≡ b ++ b'|' ∷ y → (a ≡ b) × (x ≡ y)
unfolding has_byte
split_bar [] [] x y p q e = (refl, ground arith)
split_bar [] (d ∷ b) x y p q e = absurd (ground arith)
split_bar (c ∷ a) [] x y p q e = absurd (ground arith)
split_bar (c ∷ a) (d ∷ b) x y p q e = ground (arith, split_bar a b x y)

cancel : (s x y : Bytes) → s ++ x ≡ s ++ y → x ≡ y
cancel s x y e = sym (drop_prefix-append s x) ∙ ap (λ r. drop_prefix r s) e ∙ drop_prefix-append s y

-- A part of the key and its successor, by the word between them.
next_part :
    (word a b x y : Bytes)
    → NoBar a
    → NoBar b
    → a ++ b'|' ∷ (word ++ x) ≡ b ++ b'|' ∷ (word ++ y)
    → (a ≡ b) × (x ≡ y)
next_part word a b x y p q e =
    let (same, rest) = split_bar a b (word ++ x) (word ++ y) p q e in (same, cancel word x y rest)

cache_key-parts :
    (t : Target) (s : Security)
    → cache_key t s
      ≡ codes "tenant="
        ++ (s.tenant
            ++ (codes "|subject="
                ++ (s.subject
                    ++ (codes "|auth="
                        ++ (s.auth_scope
                            ++ (codes "|host="
                                ++ (to_lower t.host
                                    ++ (codes "|path="
                                        ++ (t.escaped_path
                                            ++ (codes "|query=" ++ t.stable_query))))))))))
unfolding cache_key key_prefix
cache_key-parts t s = simp append_assoc

-- Requests have one key only if they are for the same host and path, with the same query, and come
-- from the same tenant and subject under the same credentials, where no part holds a bar.
pub cache_key_isolates :
    (t t' : Target) (s s' : Security)
    → IsPlain t s
    → IsPlain t' s'
    → cache_key t s ≡ cache_key t' s'
    → (s.tenant ≡ s'.tenant)
      × (s.subject ≡ s'.subject)
      × (s.auth_scope ≡ s'.auth_scope)
      × (to_lower t.host ≡ to_lower t'.host)
      × (t.escaped_path ≡ t'.escaped_path)
      × (t.stable_query ≡ t'.stable_query)
cache_key_isolates t t' s s' p p' e =
    let flat = sym (cache_key-parts t s) ∙ e ∙ cache_key-parts t' s' in
    let (tenant, e₁) =
      next_part (codes "subject=") s.tenant s'.tenant _ _ p.tenant p'.tenant
        (cancel (codes "tenant=") _ _ flat) in
    let (subject, e₂) =
      next_part (codes "auth=") s.subject s'.subject _ _ p.subject p'.subject e₁ in
    let (auth, e₃) =
      next_part (codes "host=") s.auth_scope s'.auth_scope _ _ p.auth_scope p'.auth_scope e₂ in
    let (host, e₄) =
      next_part (codes "path=") (to_lower t.host) (to_lower t'.host) _ _ p.host p'.host e₃ in
    let (path, query) =
      next_part (codes "query=") t.escaped_path t'.escaped_path _ _ p.path p'.path e₄ in
    (tenant, subject, auth, host, path, query)

-- The result of a cut with a text put in front.
abbrev behind : Bytes → Bytes × Bytes × Bool → Bytes × Bytes × Bool
behind a (before, after, found) = (a ++ before, after, found)

-- A part of the key and the word behind it stand in front of the cut.
cut_part :
    (a word x : Bytes)
    → NoBar a
    → NoBar word
    → has_prefix (b'|' ∷ (word ++ x)) (codes "|query=") ≡ false
    → cut (a ++ b'|' ∷ (word ++ x)) (codes "|query=")
      ≡ behind a (behind (b'|' ∷ word) (cut x (codes "|query=")))
unfolding cut
cut_part a word x p q other =
    cut_past b'|' a (b'|' ∷ (word ++ x)) (codes "query=") p
    ∙ ap (behind a) (ground (arith, other, cut_past b'|' word x (codes "query=") q))

cut_end :
    (path query : Bytes)
    → NoBar path
    → cut (path ++ (codes "|query=" ++ query)) (codes "|query=") ≡ (path, query, true)
unfolding cut has_prefix drop_prefix
cut_end path query p =
    cut_past b'|' path (codes "|query=" ++ query) (codes "query=") p
    ∙ ap (λ s. (s, query, true)) (append-nil path)

-- The key is cut in front of its query.
cut-cache_key :
    (t : Target) (s : Security)
    → IsPlain t s
    → (cut (cache_key t s) (codes "|query=")).0 ≡ key_prefix t s
unfolding key_prefix has_prefix has_byte
cut-cache_key t s p =
    ap (λ k. (cut k (codes "|query=")).0) (cache_key-parts t s)
    ∙ ap (λ r. r.0)
        (cut_past b'|' (codes "tenant=") _ (codes "query=") refl
          ∙ ap (behind (codes "tenant=")) (
              cut_part s.tenant (codes "subject=") _ p.tenant refl refl
              ∙ ap (λ r. behind s.tenant (behind (codes "|subject=") r))
                  (cut_part s.subject (codes "auth=") _ p.subject refl refl
                    ∙ ap (λ r. behind s.subject (behind (codes "|auth=") r))
                        (cut_part s.auth_scope (codes "host=") _ p.auth_scope refl refl
                          ∙ ap (λ r. behind s.auth_scope (behind (codes "|host=") r))
                              (cut_part (to_lower t.host) (codes "path=") _ p.host refl refl
                                ∙ ap (λ r. behind (to_lower t.host) (behind (codes "|path=") r))
                                    (cut_end t.escaped_path t.stable_query p.path))))))

has_prefix-key :
    (kind prefix query : Bytes)
    → has_prefix
        (kind ++ (prefix ++ (codes "|query=" ++ query)))
        (kind ++ (prefix ++ codes "|query="))
      ≡ true
has_prefix-key kind prefix query =
    let whole : (kind ++ (prefix ++ codes "|query=")) ++ query
        ≡ kind ++ (prefix ++ (codes "|query=" ++ query)) =
      simp append_assoc in
    ap (λ s. has_prefix s (kind ++ (prefix ++ codes "|query="))) (sym whole)
    ∙ has_prefix-append (kind ++ (prefix ++ codes "|query=")) query

-- Where no part of the key holds a bar and no key stands twice, no metadata and no body of a target
-- is left by its invalidation, under any query; exactly the entries whose keys begin like its own
-- are gone.
pub invalidate_target_exact :
    (w : World) (t : Target) (s : Security) (c : Cache) (query k : Bytes)
    → IsPlain t s
    → Distinct c.entries
    → (find
          (metadata_key (cache_key (record t { stable_query = query }) s))
          (invalidate_target w t s c).entries
        ≡ none)
      × (find
            (body_key (cache_key (record t { stable_query = query }) s))
            (invalidate_target w t s c).entries
          ≡ none)
      × (find k (invalidate_target w t s c).entries
          ≡ (if of_target (key_prefix t s) k then none else find k c.entries))
unfolding invalidate_target
invalidate_target_exact w t s c query k p d =
    let cuts = cut-cache_key t s p in
    let exact : (j : Bytes)
        → find j (invalidate_target w t s c).entries
          ≡ (if of_target (key_prefix t s) j then none else find j c.entries) =
      λ j.
        (remove_matching_exact w c d (of_target (cut (cache_key t s) (codes "|query=")).0) j).0
        ∙ ap (λ r. if of_target r j then none else find j c.entries) cuts in
    (
      gone (metadata_key (cache_key (record t { stable_query = query }) s)) exact (
          unfold of_target metadata_key cache_key in
          ground (arith, has_prefix-key (codes "s3:meta:") (key_prefix t s) query)),
      gone (body_key (cache_key (record t { stable_query = query }) s)) exact (
          unfold of_target body_key cache_key in
          ground (arith, has_prefix-key (codes "s3:body:") (key_prefix t s) query)),
      exact k,
    )
  where
    gone :
        (j : Bytes)
        → ((i : Bytes)
            → find i (invalidate_target w t s c).entries
              ≡ (if of_target (key_prefix t s) i then none else find i c.entries))
        → of_target (key_prefix t s) j ≡ true
        → find j (invalidate_target w t s c).entries ≡ none
    gone j all hit = all j ∙ ap (λ b. if b then none else find j c.entries) hit
