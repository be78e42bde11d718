-- ===== src/S3/Target/SameKey.antt =====
-- s3/server.go: which URLs `cacheKey` gives one key: the signature in a query and the order of its
-- parameters do not count.
use proxykit.Prelude.{
  ◌≡◌, refl, ap, ◌∙◌, true, false, List, [], ◌∷◌, ◌++◌, arith, Bool-cases, inl, inr,
}
use proxykit.Prelude.Text.{Bytes, bytes_eq, bytes_eq_iff}
use proxykit.S3.Target.{
  Values, Url, UrlLibrary, is_signing_key, without_signature, bytes_le, insert_key, sort_keys,
  encode_sorted_query, key_target, all_pairs, join_pairs,
}

bytes_le_total : (s t : Bytes) → bytes_le s t ≡ false → bytes_le t s ≡ true
unfolding bytes_le
bytes_le_total [] t h = absurd (ground arith)
bytes_le_total (a ∷ s) [] h = refl
bytes_le_total (a ∷ s) (b ∷ t) h = ground (arith, bytes_le_total s t)

bytes_le_antisym : (s t : Bytes) → bytes_le s t ≡ true → bytes_le t s ≡ true → bytes_eq s t ≡ true
unfolding bytes_le bytes_eq
bytes_le_antisym [] [] h h' = refl
bytes_le_antisym [] (b ∷ t) h h' = ground arith
bytes_le_antisym (a ∷ s) [] h h' = ground arith
bytes_le_antisym (a ∷ s) (b ∷ t) h h' = ground (arith, bytes_le_antisym s t)

bytes_le_trans : (s t u : Bytes) → bytes_le s t ≡ true → bytes_le t u ≡ true → bytes_le s u ≡ true
unfolding bytes_le
bytes_le_trans [] t u h h' = refl
bytes_le_trans (a ∷ s) [] u h h' = ground arith
bytes_le_trans (a ∷ s) (b ∷ t) [] h h' = ground arith
bytes_le_trans (a ∷ s) (b ∷ t) (c ∷ u) h h' = ground (arith, bytes_le_trans s t u)

insert_key_comm :
    (k j : Bytes) (vs us : List Bytes) (q : Values)
    → bytes_eq k j ≡ false
    → bytes_eq j k ≡ false
    → insert_key (k, vs) (insert_key (j, us) q) ≡ insert_key (j, us) (insert_key (k, vs) q)
unfolding insert_key
insert_key_comm k j vs us [] h h' = elim (Bool-cases (bytes_le k j)) [
  | inl first ↦ elim (Bool-cases (bytes_le j k)) [
    | inl both ↦ absurd (ground (arith, bytes_le_antisym k j first both))
    | inr only ↦ ground (arith, first, only)
  ]
  | inr second ↦ ground (arith, second, bytes_le_total k j second)
]
insert_key_comm k j vs us ((i, ws) ∷ q) h h' =
    let later = insert_key_comm k j vs us q h h' in
    elim (Bool-cases (bytes_le k j)) [
      | inl first ↦ elim (Bool-cases (bytes_le j k)) [
        | inl both ↦ absurd (ground (arith, bytes_le_antisym k j first both))
        | inr only ↦ elim (Bool-cases (bytes_le j i)) [
          | inl below ↦
              let low = bytes_le_trans k j i first below in ground (arith, first, only, below, low)
          | inr above ↦ elim (Bool-cases (bytes_le k i)) [
            | inl low ↦ ground (arith, first, only, above, low)
            | inr high ↦ ground (arith, first, only, above, high, later)
          ]
        ]
      ]
      | inr second ↦
          let only = bytes_le_total k j second in
          elim (Bool-cases (bytes_le k i)) [
            | inl below ↦
                let low = bytes_le_trans j k i only below in
                ground (arith, second, only, below, low)
            | inr above ↦ elim (Bool-cases (bytes_le j i)) [
              | inl low ↦ ground (arith, second, only, above, low)
              | inr high ↦ ground (arith, second, only, above, high, later)
            ]
          ]
    ]

sort_keys_swap :
    (q q' : Values) (k j : Bytes) (vs us : List Bytes)
    → bytes_eq k j ≡ false
    → bytes_eq j k ≡ false
    → sort_keys (q ++ (k, vs) ∷ (j, us) ∷ q') ≡ sort_keys (q ++ (j, us) ∷ (k, vs) ∷ q')
unfolding sort_keys
sort_keys_swap [] q' k j vs us h h' = insert_key_comm k j vs us (sort_keys q') h h'
sort_keys_swap (kv ∷ q) q' k j vs us h h' = ap (insert_key kv) (sort_keys_swap q q' k j vs us h h')

without_signature-append :
    (q q' : Values) → without_signature (q ++ q') ≡ without_signature q ++ without_signature q'
unfolding without_signature
without_signature-append [] q' = refl
without_signature-append ((k, vs) ∷ q) q' = ground (arith, without_signature-append q q')

-- The parameters of a signature anywhere in the query do not change the key.
key_target_unsigned :
    (lib : UrlLibrary) (url : Url) (q q' : Values) (k : Bytes) (vs : List Bytes)
    → is_signing_key k ≡ true
    → key_target lib (record url { query = q ++ (k, vs) ∷ q' })
      ≡ key_target lib (record url { query = q ++ q' })
unfolding key_target
key_target_unsigned lib url q q' k vs h =
    let same : without_signature (q ++ (k, vs) ∷ q') ≡ without_signature (q ++ q') =
      without_signature-append q ((k, vs) ∷ q')
      ∙ unfold without_signature in ground (arith, h, without_signature-append q q') in
    ap
      (λ query. record {
        host = url.host;
        escaped_path = lib.escaped_path url.path url.raw_path;
        stable_query = encode_sorted_query lib query;
      })
      same

swap_unsigned :
    (q q' : Values) (k j : Bytes) (vs us : List Bytes)
    → bytes_eq k j ≡ false
    → sort_keys (without_signature (q ++ (k, vs) ∷ (j, us) ∷ q'))
      ≡ sort_keys (without_signature (q ++ (j, us) ∷ (k, vs) ∷ q'))
swap_unsigned q q' k j vs us h =
    let there = without_signature-append q ((k, vs) ∷ (j, us) ∷ q') in
    let back = without_signature-append q ((j, us) ∷ (k, vs) ∷ q') in
    let h' : bytes_eq j k ≡ false = ground (arith, bytes_eq_iff k j, bytes_eq_iff j k) in
    ap sort_keys there
    ∙ unfold without_signature in
      elim (Bool-cases (is_signing_key k)) [
        | inl dropped ↦ ground (arith, dropped, back)
        | inr kept ↦ elim (Bool-cases (is_signing_key j)) [
          | inl dropped ↦ ground (arith, kept, dropped, back)
          | inr kept' ↦ ground (
            arith,
            kept,
            kept',
            back,
            sort_keys_swap (without_signature q) (without_signature q') k j vs us h h',
          )
        ]
      ]

-- Two neighbouring parameters with different names may change places without changing the key.
key_target_swap :
    (lib : UrlLibrary) (url : Url) (q q' : Values) (k j : Bytes) (vs us : List Bytes)
    → bytes_eq k j ≡ false
    → key_target lib (record url { query = q ++ (k, vs) ∷ (j, us) ∷ q' })
      ≡ key_target lib (record url { query = q ++ (j, us) ∷ (k, vs) ∷ q' })
unfolding key_target encode_sorted_query
key_target_swap lib url q q' k j vs us h =
    ap
      (λ query. record {
        host = url.host;
        escaped_path = lib.escaped_path url.path url.raw_path;
        stable_query = join_pairs (all_pairs lib query);
      })
      (swap_unsigned q q' k j vs us h)
