-- ===== src/Git/Redirect.antt =====
-- git/git.go: `reInjectAuthOnRedirect`, which the HTTP client calls before it follows a redirect, and
-- `sameOrigin`.
use mathlib.Core.Path.{subst}
use proxykit.Prelude.{
  ◌≡◌, ◌≢◌, ◌↔◌, ◌⊎◌, sym, ◌∙◌, Bool, true, ◌&&◌, not, Option, none, some, List, [], ◌∷◌, arith,
  length, if◌then◌else◌, ltb, leb, Bool-cases, inl, inr,
}
use proxykit.Prelude.Text.{
  Bytes, codes, bytes_eq, bytes_eq_iff, bytes_eq→eq, eq→bytes_eq, equal_fold, to_lower,
}
use proxykit.Http.{Header, header_get, header_set}
use proxykit.Http.Lookup.{header_values, header_values-set}

-- The parts of a `url.URL` that are read: the host without its port, and the port.
pub record Location : Type 0 where
  pub scheme : Bytes
  pub hostname : Bytes
  pub port : Bytes

-- `effectivePort`.
unfoldable pub effective_port : Location → Bytes
unfolding to_lower bytes_eq
effective_port u =
    if not (bytes_eq u.port [])
    then u.port
    else if bytes_eq (to_lower u.scheme) (codes "https")
    then codes "443"
    else if bytes_eq (to_lower u.scheme) (codes "http")
    then codes "80"
    else []

-- `sameOrigin`.
unfoldable pub same_origin : Location → Location → Bool
same_origin a b =
    equal_fold a.scheme b.scheme
    && (equal_fold a.hostname b.hostname && bytes_eq (effective_port a) (effective_port b))

-- A request that was sent before: its URL and its headers.
pub record Sent : Type 0 where
  pub location : Location
  pub header : Header

unfoldable inject : List Sent → Location → Header → Header
inject [] to h = h
inject (first ∷ via) to h =
    let value = header_get (codes "Authorization") first.header in
    if not (bytes_eq value []) && same_origin to first.location
    then header_set (codes "Authorization") value h
    else h

-- `reInjectAuthOnRedirect`: the headers of the next request, or `none` where the client is to stop. The
-- oldest request stands first.
pub re_inject_auth_on_redirect : List Sent → Location → Header → Option Header
unfolding inject
re_inject_auth_on_redirect via to h = if ltb 5 (length via) then none else some (inject via to h)

-- The port that a URL names, or the one that its scheme stands for.
pub data HasPort (u : Location) : Bytes → Type 0 where
  named : u.port ≢ [] → HasPort u u.port
  of_https : u.port ≡ [] → to_lower u.scheme ≡ codes "https" → HasPort u (codes "443")
  of_http : u.port ≡ [] → to_lower u.scheme ≡ codes "http" → HasPort u (codes "80")
  of_other :
      u.port ≡ []
      → to_lower u.scheme ≢ codes "https"
      → to_lower u.scheme ≢ codes "http"
      → HasPort u []

-- Two URLs have one origin: equal schemes and hosts in lower case, and one port.
pub record IsSameOrigin (a b : Location) : Type 0 where
  pub schemes : to_lower a.scheme ≡ to_lower b.scheme
  pub hosts : to_lower a.hostname ≡ to_lower b.hostname
  pub port : Bytes
  pub left : HasPort a port
  pub right : HasPort b port

effective_port-HasPort : (u : Location) → HasPort u (effective_port u)
unfolding effective_port
effective_port-HasPort u = elim (Bool-cases (bytes_eq u.port [])) [
  | inr given ↦ rw given (named (λ e. cc (given, eq→bytes_eq u.port [] e)))
  | inl missing ↦
      let none_given = bytes_eq→eq u.port [] missing in
      elim (Bool-cases (bytes_eq (to_lower u.scheme) (codes "https"))) [
        | inl s ↦ rw missing rw s (of_https none_given (bytes_eq→eq _ _ s))
        | inr s ↦ elim (Bool-cases (bytes_eq (to_lower u.scheme) (codes "http"))) [
          | inl t ↦ rw missing rw s rw t (of_http none_given (bytes_eq→eq _ _ t))
          | inr t ↦ rw missing rw s rw t (
              of_other none_given (λ e. cc (s, eq→bytes_eq _ _ e)) (λ e. cc (t, eq→bytes_eq _ _ e)))
        ]
      ]
]

HasPort→effective_port : (u : Location) (p : Bytes) → HasPort u p → effective_port u ≡ p
unfolding effective_port
HasPort→effective_port u p (named h) = ground (arith, h, bytes_eq_iff u.port [])
HasPort→effective_port u p (of_https e h) =
    ground (arith, e, h, bytes_eq_iff u.port [], bytes_eq_iff (to_lower u.scheme) (codes "https"))
HasPort→effective_port u p (of_http e h) = ground (
  arith,
  e,
  h,
  bytes_eq_iff u.port [],
  bytes_eq_iff (to_lower u.scheme) (codes "https"),
  bytes_eq_iff (to_lower u.scheme) (codes "http"),
)
HasPort→effective_port u p (of_other e h k) = ground (
  arith,
  e,
  bytes_eq_iff u.port [],
  bytes_eq_iff (to_lower u.scheme) (codes "https"),
  bytes_eq_iff (to_lower u.scheme) (codes "http"),
)

same_origin_iff : (a b : Location) → (same_origin a b ≡ true) ↔ IsSameOrigin a b
unfolding same_origin equal_fold
same_origin_iff a b = (
  λ h. record {
    schemes = bytes_eq→eq _ _ (ground (arith, h));
    hosts = bytes_eq→eq _ _ (ground (arith, h));
    port = effective_port a;
    left = effective_port-HasPort a;
    right =
        subst (HasPort b)
          (sym (bytes_eq→eq (effective_port a) (effective_port b) (ground (arith, h))))
          (effective_port-HasPort b);
  },
  λ o. ground (
    arith,
    eq→bytes_eq _ _ o.schemes,
    eq→bytes_eq _ _ o.hosts,
    eq→bytes_eq (effective_port a) (effective_port b)
        (HasPort→effective_port a o.port o.left ∙ sym (HasPort→effective_port b o.port o.right)),
  ),
)

-- The next request may carry the first one's `Authorization`.
pub IsOurs : Sent → Location → Type 0
IsOurs first to =
    IsSameOrigin to first.location × (header_get (codes "Authorization") first.header ≢ [])

-- Up to the fifth redirect, the client goes on. Where the next URL has the scheme, the host and the
-- port of the first one, in any case and with the scheme's own port for one that is not named, and the
-- first request had an `Authorization`, that is the only value of the next one's, and every other
-- header has the values that it had; otherwise the headers are those that the client gave it.
pub re_inject-exact :
    (first : Sent) (via : List Sent) (to : Location) (h : Header) (name : Bytes)
    → leb (length via) 4 ≡ true
    → (next : Header) × (re_inject_auth_on_redirect (first ∷ via) to h ≡ some next)
      × ((IsOurs first to
            × (header_values name next ≡ (
                if equal_fold (codes "Authorization") name
                then header_get (codes "Authorization") first.header ∷ []
                else header_values name h)))
          ⊎ ((¬ IsOurs first to) × (next ≡ h)))
unfolding re_inject_auth_on_redirect inject IsOurs
re_inject-exact first via to h name few =
    let value = header_get (codes "Authorization") first.header in
    let (origin, same) = same_origin_iff to first.location in
    (
      inject (first ∷ via) to h,
      ground (arith, few),
      elim (Bool-cases (not (bytes_eq value []) && same_origin to first.location)) [
        | inl ours ↦ inl (
          (
            origin (ground (arith, ours)),
            λ e. absurd (ground (arith, ours, eq→bytes_eq value [] e)),
          ),
          ground (arith, ours, header_values-set (codes "Authorization") name value h),
        )
        | inr theirs ↦ inr (
          λ (o, given). given (bytes_eq→eq value [] (ground (arith, theirs, same o))),
          ground (arith, theirs),
        )
      ],
    )
