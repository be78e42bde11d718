-- ===== src/Cache/Abstract/Refines.antt =====
-- cache/cache.go: every sequence of `Put`, `Get` and `Remove` answers as a map of contents does.
use mathlib.Core.Path.{subst, fun_ext, ap₂}
use proxykit.Prelude.{
  ℕ, ◌≡◌, refl, ap, sym, ◌∙◌, Option, none, some, List, [], ◌∷◌, arith, length, Option-cases,
  Bool-cases, inl, inr,
}
use proxykit.Prelude.Int.{ℤ}
use proxykit.Prelude.Text.{Bytes, bytes_eq, bytes_eq_iff}
use proxykit.Cache.Entry.{Entry, find, expired}
use proxykit.Cache.State.{Cache, World, remove_locked, write_file, track}
use proxykit.Cache.Evict.{evict_lru}
use proxykit.Cache.Ops.{get, touch, put, remove, path_of, deadline, effective_ttl, new_entry}
use proxykit.Cache.Map.{find-insert, find-delete, key-find}
use proxykit.Cache.Abstract.{Contents, contents, Op, puts, gets, removes, spec_step, step, IsPlaced}
use proxykit.Cache.Abstract.Acts.{contents-put, contents-get, contents-remove, read_path-get}

-- The operations in their order, with the answers of all `Get`s.
unfoldable pub run : (Bytes → Bytes) → World → List Op → Cache → Cache × List (Option Bytes)
run hash_key w [] c = (c, [])
run hash_key w (op ∷ ops) c =
    let (c', reply) = step hash_key w op c in
    let (c'', replies) = run hash_key w ops c' in (c'', reply ∷ replies)

unfoldable pub spec_run : ℤ → List Op → Contents → Contents × List (Option Bytes)
spec_run default [] m = (m, [])
spec_run default (op ∷ ops) m =
    let (m', reply) = spec_step default op m in
    let (m'', replies) = spec_run default ops m' in (m'', reply ∷ replies)

module _ (hash_key : Bytes → Bytes) (w : World) where
  -- What an operation leaves of the cache's settings and paths.
  record IsNext (c c' : Cache) : Type 0 where
    placed : IsPlaced hash_key c'
    same_ttl : c'.ttl ≡ c.ttl

  remove_locked-IsNext :
      (c : Cache) (e : Entry) → IsPlaced hash_key c → IsNext c (remove_locked w e c)
  unfolding remove_locked
  remove_locked-IsNext c e p = record {
    placed = record {
      unlimited = p.unlimited;
      placed = λ j d there. ground (arith, find-delete e.key j c.entries, there, p.placed j d);
    };
    same_ttl = refl;
  }

  remove-IsNext : (c : Cache) (k : Bytes) → IsPlaced hash_key c → IsNext c (remove w k c)
  unfolding remove
  remove-IsNext c k p = by (find k c.entries)
    where
      by : (o : Option Entry) → IsNext c (elim o [ none ↦ c | some e ↦ remove_locked w e c ])
      by none = record { placed = p; same_ttl = refl }
      by (some e) = remove_locked-IsNext c e p

  touch-IsNext :
      (c : Cache) (k : Bytes) (e : Entry) (now : ℕ)
      → find k c.entries ≡ some e
      → IsPlaced hash_key c
      → IsNext c (touch w e now c)
  unfolding touch
  touch-IsNext c k e now there p = record {
    placed = record {
      unlimited = p.unlimited;
      placed = λ j d there'. elim (Bool-cases (bytes_eq e.key j)) [
        | inl same ↦
            let found = find-insert (record e { accessed_at = now }) j c.entries in
            let own = p.placed k e there in
            let key = sym (key-find k c.entries {e = e} there) ∙ (bytes_eq_iff e.key j).0 same in
            let path : d.path ≡ e.path = ground (arith, found, same, there') in
            path ∙ own ∙ ap (path_of hash_key c.dir) key
        | inr apart ↦
            let found = find-insert (record e { accessed_at = now }) j c.entries in
            ground (arith, found, apart, there', p.placed j d)
      ];
    };
    same_ttl = refl;
  }

  get-IsNext :
      (c : Cache) (k : Bytes) (checked now : ℕ)
      → IsPlaced hash_key c
      → IsNext c (get w k checked now c).0
  get-IsNext c k checked now p = elim (Option-cases (find k c.entries)) [
    | inl missing ↦
        let is : c ≡ (get w k checked now c).0 = unfold get in ground (arith, missing) in
        subst (IsNext c) is (record { placed = p; same_ttl = refl })
    | inr (e, there) ↦ elim (Bool-cases (expired e checked)) [
      | inl old ↦
          let is : remove_locked w e c ≡ (get w k checked now c).0 =
            unfold get in ground (arith, there, old) in
          subst (IsNext c) is (remove_locked-IsNext c e p)
      | inr fresh ↦
          let is : touch w e now c ≡ (get w k checked now c).0 =
            unfold get in ground (arith, there, fresh) in
          subst (IsNext c) is (touch-IsNext c k e now there p)
    ]
  ]

  -- The cache that `Put` leaves where there is no limit.
  put-IsNext :
      (c : Cache) (k content : Bytes) (ttl : ℤ) (now : ℕ)
      → IsPlaced hash_key c
      → IsNext c (put hash_key w none k content ttl now c).0
  unfolding put track
  put-IsNext c k content ttl now p =
      let unlimited = p.unlimited in
      let path = path_of hash_key c.dir k in
      let e = new_entry k path (length content) (deadline (effective_ttl c.ttl ttl) now) now in
      let written = track w e (record c { files = write_file path content c.files }) in
      let kept : IsNext c written = record {
        placed = record {
          unlimited = p.unlimited;
          placed = λ j d there. elim (Bool-cases (bytes_eq k j)) [
            | inl same ↦
                unfold new_entry in
                let found = find-insert e j c.entries in
                let own : d.path ≡ path = ground (arith, found, same, there) in
                own ∙ ap (path_of hash_key c.dir) ((bytes_eq_iff k j).0 same)
            | inr apart ↦
                unfold new_entry in
                ground (arith, find-insert e j c.entries, apart, there, p.placed j d)
          ];
        };
        same_ttl = refl;
      } in
      let is : written ≡ evict_lru w written = unfold evict_lru in ground (arith, unlimited) in
      subst (IsNext c) is kept

  step-IsNext : (op : Op) (c : Cache) → IsPlaced hash_key c → IsNext c (step hash_key w op c).0
  unfolding step
  step-IsNext (puts k content ttl now) c p = put-IsNext c k content ttl now p
  step-IsNext (gets k checked now) c p =
      subst (IsNext c) (sym (read_path-get w c k checked now).1) (get-IsNext c k checked now p)
  step-IsNext (removes k) c p = remove-IsNext c k p

  module _ (injective : (i j : Bytes) → hash_key i ≡ hash_key j → i ≡ j) where
    -- One operation does to the contents, and answers, what the map says.
    step-refines :
        (op : Op) (c : Cache)
        → IsPlaced hash_key c
        → ((j : Bytes)
            → contents (step hash_key w op c).0 j ≡ (spec_step c.ttl op (contents c)).0 j)
          × ((step hash_key w op c).1 ≡ (spec_step c.ttl op (contents c)).1)
    unfolding step spec_step
    step-refines (puts k content ttl now) c p =
        (λ j. contents-put hash_key injective w c k content j ttl now p, refl)
    step-refines (gets k checked now) c p =
        let (reply, same) = read_path-get w c k checked now in
        (
          λ j.
              ap (λ (d : Cache). contents d j) same
              ∙ contents-get hash_key injective w c k j checked now p,
          reply,
        )
    step-refines (removes k) c p = (λ j. contents-remove hash_key injective w c k j p, refl)

    -- From a cache without a limit in which every entry has the path that `Put` gives it, and for a
    -- hash that gives no two keys one name, every sequence of successful `Put`s, `Get`s and
    -- `Remove`s gives the answers of the map of contents, and ends with its contents, whichever keys
    -- the database and whichever paths the removal of files fails for throughout the run.
    pub run-refines :
        (ops : List Op) (c : Cache)
        → IsPlaced hash_key c
        → ((run hash_key w ops c).1 ≡ (spec_run c.ttl ops (contents c)).1)
          × (contents (run hash_key w ops c).0 ≡ (spec_run c.ttl ops (contents c)).0)
    unfolding run spec_run
    run-refines [] c p = (refl, refl)
    run-refines (op ∷ ops) c p =
        let next = step-IsNext op c p in
        let (acts, reply) = step-refines op c p in
        let same : contents (step hash_key w op c).0 ≡ (spec_step c.ttl op (contents c)).0 =
          fun_ext acts in
        let (replies, rest) = run-refines ops (step hash_key w op c).0 next.placed in
        let spec : ℤ → Contents → Contents × List (Option Bytes) = λ t m. spec_run t ops m in
        let both : spec_run (step hash_key w op c).0.ttl ops (contents (step hash_key w op c).0)
            ≡ spec_run c.ttl ops (spec_step c.ttl op (contents c)).0 =
          ap₂ spec next.same_ttl same in
        (ap₂ (◌∷◌) reply (replies ∙ ap (λ x. x.1) both), rest ∙ ap (λ x. x.0) both)
