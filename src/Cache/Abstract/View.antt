-- ===== src/Cache/Abstract/View.antt =====
-- cache/cache.go: caches up to what can be observed of them, as a quotient.
use mathlib.Core.Path.{fun_ext}
use mathlib.Core.Quot
use mathlib.Core.Quot.{Quot, Quot-set}
use proxykit.Prelude.{
  ℕ, suc, ◌≡◌, refl, ap, sym, ◌∙◌, ◌↔◌, Option, none, some, List, [], ◌∷◌, arith,
}
use proxykit.Prelude.Int.{ℤ}
use proxykit.Prelude.Text.{Bytes}
use proxykit.Cache.Entry.{expired_at}
use proxykit.Cache.State.{Cache, World}
use proxykit.Cache.Abstract.{contents, Op, gets, live, body_of, spec_step, IsPlaced}
use proxykit.Cache.Abstract.Refines.{run, spec_run, run-refines}

-- What a `Get` at some time reads.
abbrev read_at : ℕ → Option (Bytes × Option ℕ) → Option Bytes
read_at t x = body_of (live t x)

-- Contents that read the same at every time are the same, their deadlines included.
same_contents : (x y : Option (Bytes × Option ℕ)) → ((t : ℕ) → read_at t x ≡ read_at t y) → x ≡ y
unfolding live body_of expired_at
same_contents none none h = refl
same_contents none (some (b, none)) h = absurd (ground (arith, h 0))
same_contents none (some (b, some n)) h = absurd (ground (arith, h 0))
same_contents (some (b, none)) none h = absurd (ground (arith, h 0))
same_contents (some (b, some n)) none h = absurd (ground (arith, h 0))
same_contents (some (b, none)) (some (d, none)) h = ground (arith, h 0)
same_contents (some (b, none)) (some (d, some n)) h = absurd (ground (arith, h (suc n)))
same_contents (some (b, some n)) (some (d, none)) h = absurd (ground (arith, h (suc n)))
same_contents (some (b, some m)) (some (d, some n)) h = ground (arith, h 0, h m, h n)

first_reply : List (Option Bytes) → Option Bytes
first_reply [] = none
first_reply (r ∷ rs) = r

module _ (hash_key : Bytes → Bytes) (w : World)
    (injective : (i j : Bytes) → hash_key i ≡ hash_key j → i ≡ j) (ttl : ℤ) where
  -- A cache without a limit whose entries have the paths that `Put` gives them, with the lifetime `ttl`.
  pub record Placed : Type 0 where
    pub cache : Cache
    pub placed : IsPlaced hash_key cache
    pub lifetime : cache.ttl ≡ ttl

  abbrev SameContents : Placed → Placed → Type 0
  SameContents x y = contents x.cache ≡ contents y.cache

  abbrev pub View : Type 0
  View = Quot SameContents

  abbrev pub view : Placed → View
  view = Quot.mk

  replies_spec :
      (ops : List Op) (x : Placed)
      → (run hash_key w ops x.cache).1 ≡ (spec_run ttl ops (contents x.cache)).1
  replies_spec ops x =
      (run-refines hash_key w injective ops x.cache x.placed).0
      ∙ ap (λ t. (spec_run t ops (contents x.cache)).1) x.lifetime

  -- The answers of a sequence of operations, which do not depend on the cache that stands for the view.
  pub replies : List Op → View → List (Option Bytes)
  replies ops =
      Quot.lift (hlevel) (λ x. (run hash_key w ops x.cache).1)
        λ x y h. replies_spec ops x ∙ ap (λ m. (spec_run ttl ops m).1) h ∙ sym (replies_spec ops y)

  read_of :
      (k : Bytes) (t : ℕ) (x : Placed)
      → first_reply (replies (gets k t 0 ∷ []) (view x)) ≡ read_at t (contents x.cache k)
  unfolding replies spec_run spec_step first_reply
  read_of k t x = ap first_reply (replies_spec (gets k t 0 ∷ []) x)

  observed :
      (x y : Placed)
      → ((ops : List Op) → replies ops (view x) ≡ replies ops (view y))
      → view x ≡ view y
  observed x y h = Quot.sound (
      fun_ext λ k.
        same_contents (contents x.cache k) (contents y.cache k)
          λ t. sym (read_of k t x) ∙ ap first_reply (h (gets k t 0 ∷ [])) ∙ read_of k t y)

  view_ext : (x y : View) → ((ops : List Op) → replies ops x ≡ replies ops y) → x ≡ y
  view_ext = Quot.ind (λ _. hlevel Quot-set) λ x. Quot.ind (λ _. hlevel Quot-set) λ y. observed x y

  -- For a hash that gives no two keys one name, two views of caches without a limit and with one lifetime,
  -- which are the caches up to equal contents, are equal exactly where every sequence of successful `Put`s,
  -- `Get`s and `Remove`s gets the same answers from both, whatever caches stand for them.
  pub view_iff : (x y : View) → (x ≡ y) ↔ ((ops : List Op) → replies ops x ≡ replies ops y)
  view_iff x y = (λ e ops. ap (replies ops) e, view_ext x y)
