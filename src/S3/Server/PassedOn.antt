-- ===== src/S3/Server/PassedOn.antt =====
-- s3/server.go: which headers of a response reach a client, from the upstream server and from the cache.
use proxykit.Prelude.{◌≡◌, refl, ap, ◌∙◌, false, none, some, List, [], ◌∷◌, ◌++◌, All, arith}
use proxykit.Prelude.Parse.{decimal}
use proxykit.Prelude.Text.{Bytes, codes, equal_fold, to_lower, lower, bytes_eq}
use proxykit.Http.{Header, header_get}
use proxykit.Http.Lookup.{header_get-set, header_values, header_values-set, header_values-del}
use proxykit.S3.Entries.{Metadata}
use proxykit.S3.Reply.{
  Out, fresh_out, mark, copy_header, filtered_header, delete_all, hop_by_hop, write_header,
  write_body,
}
use proxykit.S3.Server.{Config, Origin, copy_upstream, cache_header}
use proxykit.S3.Server.Hit.{served_whole}
use proxykit.S3.Writer.{joined}

-- A name that is none of the connection's, nor the cache's own or the length's.
unfoldable pub IsPassedOn : Bytes → Type 0
IsPassedOn name =
    All (λ n. equal_fold n name ≡ false)
      (codes "X-Proxykit-Cache"
        ∷ codes "Content-Length"
        ∷ codes "Connection"
        ∷ codes "Proxy-Connection"
        ∷ codes "Keep-Alive"
        ∷ codes "Proxy-Authenticate"
        ∷ codes "Proxy-Authorization"
        ∷ codes "TE"
        ∷ codes "Trailer"
        ∷ codes "Transfer-Encoding"
        ∷ codes "Upgrade"
        ∷ [])

delete_all-kept :
    (name : Bytes) (names : List Bytes) (h : Header)
    → All (λ n. equal_fold n name ≡ false) names
    → header_values name (delete_all names h) ≡ header_values name h
unfolding delete_all
delete_all-kept name [] h p = refl
delete_all-kept name (n ∷ names) h (p, ps) =
    delete_all-kept name names _ ps ∙ ground (arith, p, header_values-del n name h)

module _ (name : Bytes) where
  pub header_values-filtered :
      (h : Header) → IsPassedOn name → header_values name (filtered_header h) ≡ header_values name h
  unfolding IsPassedOn filtered_header
  header_values-filtered h (cache, (size, others)) = ground (
    arith,
    cache,
    header_values-del (codes "X-Proxykit-Cache") name (delete_all hop_by_hop h),
    delete_all-kept name hop_by_hop h others,
  )

  header_values-mark :
      (status : Bytes) (o : Out)
      → IsPassedOn name
      → header_values name (mark status o).header ≡ header_values name o.header
  unfolding IsPassedOn mark
  header_values-mark [] o p = refl
  header_values-mark (c ∷ status) o (cache, rest) =
      ground (arith, cache, header_values-set (codes "X-Proxykit-Cache") name (c ∷ status) o.header)

  -- The headers of an answer, marked with what the cache did.
  marked_values :
      (status : Bytes) (h : Header)
      → IsPassedOn name
      → header_values name (mark status (copy_header h fresh_out)).header ≡ header_values name h
  unfolding copy_header
  marked_values status h passed =
      header_values-mark status (copy_header h fresh_out) passed ∙ header_values-filtered h passed

mark_fresh :
    (status : Bytes) (h : Header)
    → ((mark status (copy_header h fresh_out)).sent ≡ none)
      × ((mark status (copy_header h fresh_out)).body ≡ [])
unfolding mark copy_header fresh_out
mark_fresh [] h = (refl, refl)
mark_fresh (c ∷ status) h = (refl, refl)

module _ (cfg : Config) where
  -- What a client gets of the upstream server's response.
  pub copied :
      (resp : Origin) (status name : Bytes)
      → IsPassedOn name
      → let o = copy_upstream cfg resp status fresh_out in
        (o.sent ≡ some (resp.status, o.header))
        × (o.body ≡ joined resp.chunks)
        × (header_values name o.header ≡ header_values name resp.header)
  unfolding copy_upstream write_body write_header
  copied resp status name passed =
      let (unsent, nothing) = mark_fresh status resp.header in
      let values = marked_values name status resp.header passed in
      (ground (arith, unsent), ground (arith, unsent, nothing), ground (arith, unsent, values))

  -- What a client gets of a stored object.
  pub served_whole_parts :
      (meta : Metadata) (content name : Bytes)
      → IsPassedOn name
      → let o = served_whole cfg (codes "HIT") meta content fresh_out in
        (o.sent ≡ some (meta.status_code, o.header))
        × (o.body ≡ content)
        × (header_values name o.header ≡ header_values name meta.header)
        × (header_get (codes "Content-Length") o.header ≡ decimal meta.body_size)
  unfolding IsPassedOn equal_fold
  served_whole_parts meta content name (cache, (size, others)) =
      let status = cache_header cfg (codes "HIT") in
      let o = mark status (copy_header meta.header fresh_out) in
      let (unsent, nothing) = mark_fresh status meta.header in
      let values = marked_values name status meta.header (cache, (size, others)) in
      (
        refl,
        ap (λ (b : Bytes). b ++ content) nothing,
        ground (
          arith,
          size,
          values,
          header_values-set (codes "Content-Length") name (decimal meta.body_size) o.header,
        ),
        header_get-set (codes "Content-Length") (codes "Content-Length") (decimal meta.body_size)
              o.header
            ∙ (unfold to_lower lower bytes_eq in refl),
      )
