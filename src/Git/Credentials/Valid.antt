-- ===== src/Git/Credentials/Valid.antt =====
-- git/git.go: which credentials `Validate` takes.
use proxykit.Prelude.{
  ℕ, ◌+◌, ◌≤◌, ◌⊎◌, ◌≡◌, refl, ◌↔◌, true, false, none, some, List, [], ◌∷◌, arith, All, Bool-cases,
  Option-cases, inl, inr,
}
use proxykit.Prelude.Text.{
  Bytes, bytes_eq, has_byte, trim_space, trim_left_space, trim_right_space, keep_right, is_space,
  to_lower,
}
use proxykit.Git.GitConfig.{GitHostCredential}
use proxykit.Git.Credentials.{
  is_name_start, is_name_rest, is_env_var_name, seen_at, check_credential, check_credentials,
  validate,
}

-- A letter or an underscore.
abbrev pub IsFirstByte : ℕ → Type 0
IsFirstByte c = ((65 ≤ c) × (c ≤ 90)) ⊎ (((97 ≤ c) × (c ≤ 122)) ⊎ (c ≡ 95))

-- A letter, a digit or an underscore.
abbrev pub IsNameByte : ℕ → Type 0
IsNameByte c = IsFirstByte c ⊎ ((48 ≤ c) × (c ≤ 57))

-- The form of a variable's name.
abbrev pub IsVariable : Bytes → Type 0
IsVariable [] = ⊥
IsVariable (c ∷ s) = IsFirstByte c × All IsNameByte s

-- A credential that names one host and a variable.
pub IsNamed : GitHostCredential → Type 0
IsNamed cred =
    (bytes_eq (trim_space cred.host) [] ≡ false)
    × (has_byte b'/' cred.host ≡ false)
    × (has_byte b':' cred.host ≡ false)
    × IsVariable cred.env_var

-- No two hosts are equal in lower case.
unfoldable Differ : Bytes → List GitHostCredential → Type 0
Differ host creds = All (λ cred. bytes_eq host (to_lower cred.host) ≡ false) creds

pub Distinct : List GitHostCredential → Type 0
Distinct [] = Unit
Distinct (cred ∷ creds) = Differ (to_lower cred.host) creds × Distinct creds

is_name_start_iff : (c : ℕ) → (is_name_start c ≡ true) ↔ IsFirstByte c
unfolding is_name_start
is_name_start_iff c = (λ h. ground (arith, h), λ h. ground (arith, h))

is_name_rest_iff : (s : Bytes) → (is_name_rest s ≡ true) ↔ All IsNameByte s
unfolding is_name_rest
is_name_rest_iff [] = (λ _. tt, λ _. refl)
is_name_rest_iff (c ∷ s) =
    let (first, back) = is_name_start_iff c in
    let (all, every) = is_name_rest_iff s in
    (
      λ h. (
        elim (Bool-cases (is_name_start c)) [
          | inl start ↦ inl (first start)
          | inr other ↦ inr (ground (arith, h, other))
        ],
        all (ground (arith, h)),
      ),
      λ (p, ps). elim p [
        | inl start ↦ ground (arith, back start, every ps)
        | inr digit ↦ ground (arith, digit, every ps)
      ],
    )

is_env_var_name_iff : (v : Bytes) → (is_env_var_name v ≡ true) ↔ IsVariable v
unfolding is_env_var_name
is_env_var_name_iff [] = (λ h. cc, λ h. absurd h)
is_env_var_name_iff (c ∷ s) =
    let (first, back) = is_name_start_iff c in
    let (all, every) = is_name_rest_iff s in
    (
      λ h. (first (ground (arith, h)), all (ground (arith, h))),
      λ (p, ps). ground (arith, back p, every ps),
    )

-- No name of a variable is blank.
space_is_no_name : (c : ℕ) → is_name_start c ≡ true → is_space c ≡ false
unfolding is_name_start is_space
space_is_no_name c h = ground (arith, h)

solid_front :
    (c : ℕ) (t : Bytes)
    → is_space c ≡ false
    → bytes_eq (trim_left_space (keep_right c t)) [] ≡ false
unfolding keep_right trim_left_space bytes_eq
solid_front c [] h = ground (arith, h)
solid_front c (d ∷ t) h = ground (arith, h)

name_not_blank : (v : Bytes) → is_env_var_name v ≡ true → bytes_eq (trim_space v) [] ≡ false
unfolding is_env_var_name trim_space trim_right_space
name_not_blank [] h = absurd (ground (arith, h))
name_not_blank (c ∷ s) h =
    solid_front c (trim_right_space s) (space_is_no_name c (ground (arith, h)))

module _ (seen : List (Bytes × ℕ)) where
  check_credential-passes :
      (i : ℕ) (cred : GitHostCredential)
      → check_credential seen i cred ≡ none
      → IsNamed cred × (seen_at (to_lower cred.host) seen ≡ none)
  unfolding check_credential IsNamed
  check_credential-passes i cred h = elim (Option-cases (seen_at (to_lower cred.host) seen)) [
    | inl unseen ↦
        let name : is_env_var_name cred.env_var ≡ true = ground (arith, h, unseen) in
        (
          (
            ground (arith, h, unseen),
            ground (arith, h, unseen),
            ground (arith, h, unseen),
            (is_env_var_name_iff cred.env_var).0 name,
          ),
          unseen,
        )
    | inr (first, found) ↦ absurd (ground (arith, h, found))
  ]

  check_credential_passed :
      (i : ℕ) (cred : GitHostCredential)
      → IsNamed cred
      → seen_at (to_lower cred.host) seen ≡ none
      → check_credential seen i cred ≡ none
  unfolding check_credential IsNamed
  check_credential_passed i cred (host, slash, colon, variable) unseen =
      let name = (is_env_var_name_iff cred.env_var).1 variable in
      ground (arith, host, slash, colon, name, unseen, name_not_blank cred.env_var name)

-- No host of a list was seen.
unfoldable AllUnseen : List (Bytes × ℕ) → List GitHostCredential → Type 0
AllUnseen seen creds = All (λ cred. seen_at (to_lower cred.host) seen ≡ none) creds

unseen-Differ :
    (h : Bytes) (i : ℕ) (seen : List (Bytes × ℕ)) (creds : List GitHostCredential)
    → AllUnseen ((h, i) ∷ seen) creds
    → Differ h creds × AllUnseen seen creds
unfolding AllUnseen Differ seen_at
unseen-Differ h i seen [] u = (tt, tt)
unseen-Differ h i seen (cred ∷ creds) (u, us) =
    let (ds, vs) = unseen-Differ h i seen creds us in
    elim (Bool-cases (bytes_eq h (to_lower cred.host))) [
      | inl same ↦ absurd (ground (arith, u, same))
      | inr other ↦ ((other, ds), (ground (arith, u, other), vs))
    ]

Differ-unseen :
    (h : Bytes) (i : ℕ) (seen : List (Bytes × ℕ)) (creds : List GitHostCredential)
    → Differ h creds
    → AllUnseen seen creds
    → AllUnseen ((h, i) ∷ seen) creds
unfolding AllUnseen Differ seen_at
Differ-unseen h i seen [] d u = tt
Differ-unseen h i seen (cred ∷ creds) (d, ds) (u, us) =
    (ground (arith, d, u), Differ-unseen h i seen creds ds us)

check_credentials-passes :
    (seen : List (Bytes × ℕ)) (i : ℕ) (creds : List GitHostCredential)
    → check_credentials seen i creds ≡ none
    → All IsNamed creds × Distinct creds × AllUnseen seen creds
unfolding check_credentials Distinct AllUnseen
check_credentials-passes seen i [] h = (tt, tt, tt)
check_credentials-passes seen i (cred ∷ creds) h =
    elim (Option-cases (check_credential seen i cred)) [
      | inr (e, failed) ↦ absurd (ground (arith, h, failed))
      | inl passed ↦
          let (named, unseen) = check_credential-passes seen i cred passed in
          let (all, distinct, us) =
            check_credentials-passes ((to_lower cred.host, i) ∷ seen) (i + 1) creds
              (ground (arith, h, passed)) in
          let (ds, vs) = unseen-Differ (to_lower cred.host) i seen creds us in
          ((named, all), (ds, distinct), (unseen, vs))
    ]

check_credentials_passed :
    (seen : List (Bytes × ℕ)) (i : ℕ) (creds : List GitHostCredential)
    → All IsNamed creds
    → Distinct creds
    → AllUnseen seen creds
    → check_credentials seen i creds ≡ none
unfolding check_credentials Distinct AllUnseen
check_credentials_passed seen i [] n d u = refl
check_credentials_passed seen i (cred ∷ creds) (n, ns) (d, ds) (u, us) =
    let rest =
      check_credentials_passed ((to_lower cred.host, i) ∷ seen) (i + 1) creds ns ds
        (Differ-unseen (to_lower cred.host) i seen creds d us) in
    ground (arith, check_credential_passed seen i cred n u, rest)

none_seen : (creds : List GitHostCredential) → AllUnseen [] creds
unfolding AllUnseen seen_at
none_seen [] = tt
none_seen (cred ∷ creds) = (refl, none_seen creds)

-- `Validate` finds no error exactly where every host has more than space and neither a slash nor a
-- colon, every variable has a name of letters, digits and underscores that does not begin with a digit,
-- and no two hosts are equal in lower case.
pub validate_iff :
    (creds : List GitHostCredential)
    → (validate (some creds) ≡ none) ↔ (All IsNamed creds × Distinct creds)
unfolding validate
validate_iff creds = (
  λ h. (let (named, distinct, unseen) = check_credentials-passes [] 0 creds h in (named, distinct)),
  λ p.
      (let (named, distinct) = p in
        check_credentials_passed [] 0 creds named distinct (none_seen creds)),
)
