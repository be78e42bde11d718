-- ===== src/Cache/Abstract/Acts.antt =====
-- cache/cache.go: what `Put`, `Get` and `Remove` do to the contents of a cache without a limit, where
-- no two keys have one hash.
use mathlib.Core.List.{append_assoc}
use proxykit.Prelude.{
  ℕ, ◌≡◌, refl, ap, sym, ◌∙◌, true, false, none, some, [], ◌∷◌, ◌++◌, arith, take, length,
  if◌then◌else◌, Option-cases, Bool-cases, inl, inr,
}
use proxykit.Prelude.Int.{ℤ}
use proxykit.Prelude.Text.{Bytes, codes, bytes_eq, bytes_eq_refl, bytes_eq_iff, bytes_eq-append}
use proxykit.Cache.Entry.{Entry, find, expired, expired_at}
use proxykit.Cache.State.{Cache, World, remove_locked, remove_file, write_file, track}
use proxykit.Cache.Evict.{evict_lru}
use proxykit.Cache.Ops.{get, touch, put, remove, path_of, deadline, effective_ttl, new_entry}
use proxykit.Cache.Map.{find-insert, find-delete, key-find}
use proxykit.Cache.Abstract.{contents, live, body_of, look, read_path, IsPlaced}

-- The hash is the end of the path.
hash_in_name :
    (h h' : Bytes) → take 2 h ++ (codes "/" ++ h) ≡ take 2 h' ++ (codes "/" ++ h') → h ≡ h'
hash_in_name [] [] e = refl
hash_in_name [] (a ∷ []) e = ground (arith, e)
hash_in_name [] (a ∷ b ∷ h') e = ground (arith, e)
hash_in_name (a ∷ []) [] e = ground (arith, e)
hash_in_name (a ∷ []) (b ∷ []) e = ground (arith, e)
hash_in_name (a ∷ []) (b ∷ c ∷ h') e = ground (arith, e)
hash_in_name (a ∷ b ∷ h) [] e = ground (arith, e)
hash_in_name (a ∷ b ∷ h) (c ∷ []) e = ground (arith, e)
hash_in_name (a ∷ b ∷ h) (c ∷ d ∷ h') e = ground (arith, e)

module _ (hash_key : Bytes → Bytes)
    (injective : (i j : Bytes) → hash_key i ≡ hash_key j → i ≡ j) where
  -- Different keys have different paths.
  path_of-apart :
      (dir i j : Bytes)
      → bytes_eq i j ≡ false
      → bytes_eq (path_of hash_key dir i) (path_of hash_key dir j) ≡ false
  path_of-apart dir i j apart =
      elim (Bool-cases (bytes_eq (path_of hash_key dir i) (path_of hash_key dir j))) [
        | inr other ↦ other
        | inl same ↦
            let name : Bytes → Bytes = λ (h : Bytes). take 2 h ++ (codes "/" ++ h) in
            let flat : (k : Bytes)
                → path_of hash_key dir k ≡ dir ++ (codes "/" ++ name (hash_key k)) =
              λ k. unfold path_of in simp append_assoc in
            let equal : bytes_eq (name (hash_key i)) (name (hash_key j)) ≡ true =
              unfold bytes_eq in
              sym (
                bytes_eq-append dir (codes "/" ++ name (hash_key i))
                  (codes "/" ++ name (hash_key j)))
              ∙ sym (ap (λ p. bytes_eq p (dir ++ (codes "/" ++ name (hash_key j)))) (flat i))
              ∙ sym (ap (bytes_eq (path_of hash_key dir i)) (flat j))
              ∙ same in
            let keys =
              injective i j (hash_in_name (hash_key i) (hash_key j) ((bytes_eq_iff _ _).0 equal)) in
            absurd (ground (arith, apart, (bytes_eq_iff i j).1 keys))
      ]

  -- A file that is written or removed at the path of one key is not that of another key's entry.
  other_path :
      (c : Cache) (k j : Bytes) (e : Entry)
      → IsPlaced hash_key c
      → bytes_eq k j ≡ false
      → find j c.entries ≡ some e
      → bytes_eq e.path (path_of hash_key c.dir k) ≡ false
  other_path c k j e p apart there =
      ap (λ q. bytes_eq q (path_of hash_key c.dir k)) (p.placed j e there)
      ∙ path_of-apart c.dir j k (ground (arith, bytes_eq_iff k j, bytes_eq_iff j k, apart))

  contents-remove_locked :
      (w : World) (c : Cache) (k j : Bytes) (e : Entry)
      → IsPlaced hash_key c
      → find k c.entries ≡ some e
      → contents (remove_locked w e c) j ≡ (if bytes_eq k j then none else contents c j)
  unfolding contents remove_locked remove_file
  contents-remove_locked w c k j e p there =
      let own = key-find k c.entries {e = e} there in
      let found =
        find-delete e.key j c.entries
        ∙ ap (λ x. if bytes_eq x j then none else find j c.entries) own in
      elim (Bool-cases (bytes_eq k j)) [
        | inl same ↦ ground (arith, found, same)
        | inr apart ↦ elim (Option-cases (find j c.entries)) [
          | inl missing ↦ ground (arith, found, apart, missing)
          | inr (e', there') ↦
              let paths =
                ap (bytes_eq e'.path) (p.placed k e there) ∙ other_path c k j e' p apart there' in
              ground (arith, found, apart, there', paths)
        ]
      ]

  pub contents-remove :
      (w : World) (c : Cache) (k j : Bytes)
      → IsPlaced hash_key c
      → contents (remove w k c) j ≡ (if bytes_eq k j then none else contents c j)
  contents-remove w c k j p = elim (Option-cases (find k c.entries)) [
    | inl missing ↦
        unfold remove contents in
        ground (arith, missing, bytes_eq_iff k j, ap (λ x. find x c.entries))
    | inr (e, there) ↦
        let is : remove w k c ≡ remove_locked w e c = unfold remove in ground (arith, there) in
        ap (λ (d : Cache). contents d j) is ∙ contents-remove_locked w c k j e p there
  ]

  contents-touch :
      (w : World) (c : Cache) (k j : Bytes) (e : Entry) (now : ℕ)
      → find k c.entries ≡ some e
      → contents (touch w e now c) j ≡ contents c j
  unfolding contents touch
  contents-touch w c k j e now there =
      let own = key-find k c.entries {e = e} there in
      let found = find-insert (record e { accessed_at = now }) j c.entries in
      elim (Bool-cases (bytes_eq e.key j)) [
        | inl same ↦
            let here = ap (λ x. find x c.entries) (sym own ∙ (bytes_eq_iff e.key j).0 same) in
            ground (arith, found, same, here, there)
        | inr apart ↦ ground (arith, found, apart)
      ]

  pub contents-put :
      (w : World) (c : Cache) (k content j : Bytes) (ttl : ℤ) (now : ℕ)
      → IsPlaced hash_key c
      → contents (put hash_key w none k content ttl now c).0 j ≡ (
          if bytes_eq k j
          then some (content, deadline (effective_ttl c.ttl ttl) now)
          else contents c j)
  unfolding contents put track evict_lru write_file new_entry
  contents-put w c k content j ttl now p =
      let unlimited = p.unlimited in
      let path = path_of hash_key c.dir k in
      let e : Entry = record {
        key = k;
        path = path;
        size = length content;
        created_at = now;
        accessed_at = now;
        expires_at = deadline (effective_ttl c.ttl ttl) now;
      } in
      let found = find-insert e j c.entries in
      elim (Bool-cases (bytes_eq k j)) [
        | inl same ↦ ground (arith, unlimited, found, same, bytes_eq_refl path)
        | inr apart ↦ elim (Option-cases (find j c.entries)) [
          | inl missing ↦ ground (arith, unlimited, found, apart, missing)
          | inr (e', there') ↦
              ground (arith, unlimited, found, apart, there', other_path c k j e' p apart there')
        ]
      ]

  contents-get_live :
      (w : World) (c : Cache) (k j : Bytes) (e : Entry) (checked now : ℕ)
      → find k c.entries ≡ some e
      → expired_at e.expires_at checked ≡ false
      → contents (get w k checked now c).0 j
        ≡ (if bytes_eq k j then live checked (contents c j) else contents c j)
  contents-get_live w c k j e checked now there fresh =
      let is : (get w k checked now c).0 ≡ touch w e now c =
        unfold get expired in ground (arith, there, fresh) in
      ap (λ (d : Cache). contents d j) is
      ∙ contents-touch w c k j e now there
      ∙ elim (Bool-cases (bytes_eq k j)) [
        | inl same ↦
            let here = ap (λ x. find x c.entries) (sym ((bytes_eq_iff k j).0 same)) in
            unfold contents look live in
            elim (Option-cases (c.files e.path)) [
              | inl lost ↦ ground (arith, same, here, there, fresh, lost)
              | inr (body, kept) ↦ ground (arith, same, here, there, fresh, kept)
            ]
        | inr apart ↦ ground (arith, apart)
      ]

  contents-get_expired :
      (w : World) (c : Cache) (k j : Bytes) (e : Entry) (checked now : ℕ)
      → IsPlaced hash_key c
      → find k c.entries ≡ some e
      → expired_at e.expires_at checked ≡ true
      → contents (get w k checked now c).0 j
        ≡ (if bytes_eq k j then live checked (contents c j) else contents c j)
  contents-get_expired w c k j e checked now p there old =
      let is : (get w k checked now c).0 ≡ remove_locked w e c =
        unfold get expired in ground (arith, there, old) in
      ap (λ (d : Cache). contents d j) is
      ∙ contents-remove_locked w c k j e p there
      ∙ elim (Bool-cases (bytes_eq k j)) [
        | inl same ↦
            let here = ap (λ x. find x c.entries) (sym ((bytes_eq_iff k j).0 same)) in
            unfold contents look live in
            elim (Option-cases (c.files e.path)) [
              | inl lost ↦ ground (arith, same, here, there, old, lost)
              | inr (body, kept) ↦ ground (arith, same, here, there, old, kept)
            ]
        | inr apart ↦ ground (arith, apart)
      ]

  -- `Get` drops the key if its deadline has passed, and leaves every other key.
  pub contents-get :
      (w : World) (c : Cache) (k j : Bytes) (checked now : ℕ)
      → IsPlaced hash_key c
      → contents (get w k checked now c).0 j
        ≡ (if bytes_eq k j then live checked (contents c j) else contents c j)
  contents-get w c k j checked now p = elim (Option-cases (find k c.entries)) [
    | inl missing ↦
        unfold get contents look live in
        elim (Bool-cases (bytes_eq k j)) [
          | inl same ↦
              let here = ap (λ x. find x c.entries) (sym ((bytes_eq_iff k j).0 same)) in
              ground (arith, missing, same, here)
          | inr apart ↦ ground (arith, missing, apart)
        ]
    | inr (e, there) ↦ elim (Bool-cases (expired_at e.expires_at checked)) [
      | inl old ↦ contents-get_expired w c k j e checked now p there old
      | inr fresh ↦ contents-get_live w c k j e checked now there fresh
    ]
  ]

-- What `Get` finds can be read, if it is there and its deadline has not passed.
pub read_path-get :
    (w : World) (c : Cache) (k : Bytes) (checked now : ℕ)
    → ((read_path (get w k checked now c)).1 ≡ body_of (live checked (contents c k)))
      × ((read_path (get w k checked now c)).0 ≡ (get w k checked now c).0)
unfolding get contents look live body_of read_path touch expired
read_path-get w c k checked now = elim (Option-cases (find k c.entries)) [
  | inl missing ↦ ground (arith, missing)
  | inr (e, there) ↦ elim (Bool-cases (expired_at e.expires_at checked)) [
    | inl old ↦ elim (Option-cases (c.files e.path)) [
      | inl lost ↦ ground (arith, there, old, lost)
      | inr (body, kept) ↦ ground (arith, there, old, kept)
    ]
    | inr fresh ↦ elim (Option-cases (c.files e.path)) [
      | inl lost ↦ ground (arith, there, fresh, lost)
      | inr (body, kept) ↦ ground (arith, there, fresh, kept)
    ]
  ]
]
