-- ===== src/Cache/Fetch/Answers.antt =====
-- cache/cache.go: what `GetOrFetch` answers after a miss, and what it keeps for the next caller.
use proxykit.Prelude.{
  ℕ, ◌+◌, ◌-◌, ◌≤◌, ◌<◌, ◌≡◌, ap, ◌∙◌, true, false, Option, none, some, ◌⊎◌, arith, length,
}
use proxykit.Prelude.Int.{ℤ}
use proxykit.Prelude.Text.{Bytes, bytes_eq_refl}
use proxykit.Cache.Entry.{expired_at}
use proxykit.Cache.State.{Cache, World, old_size}
use proxykit.Cache.Ops.{get, touch, put, PutError, path_of, deadline, effective_ttl}
use proxykit.Cache.Invariant.{IsValid}
use proxykit.Cache.Put.{get-put, put_oversized}
use proxykit.Cache.Fetch.{
  Fetched, content, fetch_error, panics, upstream, panicked, open_failed, opened, error, fast_path,
  open_hit, open_call, of_put, do_fetch, lead, or_lead, get_or_fetch,
}

-- A hit changes no file.
pub files-get :
    (w : World) (k : Bytes) (checked now : ℕ) (c : Cache) {p : Bytes}
    → (get w k checked now c).1 ≡ some p
    → (get w k checked now c).0.files ≡ c.files
unfolding get touch
files-get w k checked now c h = ground arith

-- A hit whose file is there is answered from the file.
fast_path_hit :
    (w : World) (k : Bytes) (checked now : ℕ) (c : Cache) {p body : Bytes}
    → (get w k checked now c).1 ≡ some p
    → c.files p ≡ some body
    → (fast_path w k checked now c).1 ≡ some body
unfolding fast_path open_hit
fast_path_hit w k checked now c {p} {body} hit there =
    let same = files-get w k checked now c hit in
    ground (arith, hit, same, ap (λ (f : Bytes → Option Bytes). f p) same, there)

-- Then neither the callback nor the file system is asked.
pub get_or_fetch-fast_path :
    {E : Type 0} (hash_key : Bytes → Bytes) (w : World) (fault : Option PutError) (k : Bytes)
    (fetch : Fetched E) (checked now later : ℕ) (c : Cache) {body : Bytes}
    → (fast_path w k checked now c).1 ≡ some body
    → (get_or_fetch hash_key w fault k fetch checked now later c).1 ≡ opened body
unfolding get_or_fetch or_lead
get_or_fetch-fast_path hash_key w fault k fetch checked now later c hit = ground (arith, hit)

module _ {E : Type 0} (hash_key : Bytes → Bytes) (w : World) (k : Bytes) where
  module _ (checked now later : ℕ) (c c' : Cache)
      (missed : fast_path w k checked now c ≡ (c', none)) where
    -- The leader's fetch: the cache of `Put`, and the content read back from its path.
    fetched :
        (body : Bytes) (ttl : ℤ)
        → (put hash_key w none k body ttl later c').0.files (path_of hash_key c'.dir k) ≡ some body
        → get_or_fetch {E = E} hash_key w none k (content body ttl) checked now later c
          ≡ ((put hash_key w none k body ttl later c').0, opened body)
    unfolding get_or_fetch or_lead lead do_fetch of_put open_call
    fetched body ttl there = rw missed (unfold put in ground (arith, there))

    -- What is stored is found again until its deadline.
    pub stored_found :
        (body : Bytes) (ttl : ℤ)
        → (c'.max_size ≡ 0) ⊎ ((c'.total_size - old_size k c'.entries) + length body ≤ c'.max_size)
        → (w' : World) (checked' now' : ℕ)
        → expired_at (deadline (effective_ttl c'.ttl ttl) later) checked' ≡ false
        → ((get_or_fetch {E = E} hash_key w none k (content body ttl) checked now later c).1
            ≡ opened body)
          × ((fast_path w' k checked' now'
                (get_or_fetch {E = E} hash_key w none k (content body ttl) checked now later c).0).1
              ≡ some body)
    stored_found body ttl room w' checked' now' live =
        let c₂ = (put hash_key w none k body ttl later c').0 in
        let (found, there) = get-put hash_key w k body ttl later w' c' k checked' now' room in
        let hit : (get w' k checked' now' c₂).1 ≡ some (path_of hash_key c'.dir k) =
          ground (arith, found, live, bytes_eq_refl k) in
        let first = fetched body ttl there in
        (
          ap (λ r. r.1) first,
          ap (λ r. (fast_path w' k checked' now' r.0).1) first
              ∙ fast_path_hit w' k checked' now' c₂ hit there,
        )

    -- After a miss without other callers, content for which there is room is answered, and again from the
    -- cache to every later caller until its deadline, whatever that caller's callback would do.
    pub get_or_fetch_stored :
        (body : Bytes) (ttl : ℤ)
        → (c'.max_size ≡ 0) ⊎ ((c'.total_size - old_size k c'.entries) + length body ≤ c'.max_size)
        → (w' : World) (fault : Option PutError) (other : Fetched E) (checked' now' later' : ℕ)
        → expired_at (deadline (effective_ttl c'.ttl ttl) later) checked' ≡ false
        → ((get_or_fetch {E = E} hash_key w none k (content body ttl) checked now later c).1
            ≡ opened body)
          × ((get_or_fetch hash_key w' fault k other checked' now' later'
                (get_or_fetch {E = E} hash_key w none k (content body ttl) checked now later c).0).1
              ≡ opened body)
    get_or_fetch_stored body ttl room w' fault other checked' now' later' live =
        let (answer, found) = stored_found body ttl room w' checked' now' live in
        (answer, get_or_fetch-fast_path hash_key w' fault k other checked' now' later' _ found)

    -- After a miss without other callers, a failed or panicking callback is answered by its error, and
    -- stores nothing.
    pub get_or_fetch_failed :
        (fault : Option PutError) (e : E)
        → (get_or_fetch hash_key w fault k (fetch_error e) checked now later c
            ≡ (c', error (upstream e)))
          × (get_or_fetch {E = E} hash_key w fault k panics checked now later c
              ≡ (c', error panicked))
    unfolding get_or_fetch or_lead lead do_fetch of_put open_call
    get_or_fetch_failed fault e = (rw missed, rw missed)

    -- After a miss without other callers, in a valid cache with a limit, content larger than the limit
    -- is answered by the error of the failed open, where the eviction can remove its file.
    get_or_fetch_oversized :
        (body : Bytes) (ttl : ℤ) (extra : ℕ)
        → IsValid extra c'
        → 0 < c'.max_size
        → c'.max_size < length body
        → w.remove_ok (path_of hash_key c'.dir k) ≡ true
        → (get_or_fetch {E = E} hash_key w none k (content body ttl) checked now later c).1
          ≡ error open_failed
    unfolding get_or_fetch or_lead lead do_fetch of_put open_call
    get_or_fetch_oversized body ttl extra v limited large ok =
        let (at_path, gone, no_file) =
          put_oversized hash_key w k body ttl later extra c' v limited large ok in
        rw missed (ground arith)
