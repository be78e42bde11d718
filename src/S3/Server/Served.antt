-- ===== src/S3/Server/Served.antt =====
-- s3/server.go: an object that was fetched is served from the cache to later requests.
use proxykit.Prelude.{◌+◌, ◌≡◌, refl, ap, sym, ◌∙◌, true, false, Option, some, [], length, ltb}
use proxykit.Prelude.Parse.{decimal}
use proxykit.Prelude.Text.{Bytes, codes}
use proxykit.Http.{Header, header_get}
use proxykit.Http.Lookup.{header_values}
use proxykit.Cache.Entry.{expired_at}
use proxykit.Cache.State.{World}
use proxykit.Cache.Ops.{deadline}
use proxykit.S3.Fresh.{ttl_for_response}
use proxykit.S3.Reply.{Out, fresh_out, client_not_modified}
use proxykit.S3.Security.{Signer}
use proxykit.S3.Target.{Url}
use proxykit.S3.Writer.{joined}
use proxykit.S3.Server.{
  Server, Library, Config, Outside, Times, Origin, Incoming, method_get, stream_path,
  metadata_from_response, policy_request, policy_response, cache_header, copy_upstream, count_miss,
  add_time,
}
use proxykit.S3.Server.Fetch.{keep_stream}
use proxykit.S3.Server.Handler.{serve_cacheable}
use proxykit.S3.Server.Hit.{served_whole, serve_cacheable_hit}
use proxykit.S3.Server.PassedOn.{IsPassedOn, header_values-filtered, copied, served_whole_parts}
use proxykit.S3.Server.Kept.{load-keep_stream, stream_path_named}
use proxykit.S3.Server.Stored.{IsStored, should_store-status, serve_cacheable_stores}

-- Both answers, as the program builds them.
served_twice :
    (lib : Library) (w : World) (cfg : Config) (world world' : Outside) (times times' : Times)
    (target target' : Url) (signer signer' : Option Signer) (key : Bytes) (r r' : Incoming)
    (h : Header) (resp : Origin) (s : Server)
    → IsStored lib w cfg world times target signer key r s h resp
    → expired_at (deadline s.disk.ttl times.now) times'.checked ≡ false
    → ltb times'.now
        (metadata_from_response cfg resp r true (length (joined resp.chunks)) times.now).fresh_until
      ≡ true
    → r'.method ≡ method_get
    → header_get (codes "Range") r'.credited.header ≡ []
    → client_not_modified r'.credited.header
        (metadata_from_response cfg resp r true (length (joined resp.chunks)) times.now)
      ≡ false
    → (let first = serve_cacheable lib w cfg world times target signer key r (s, fresh_out) in
        let again =
          serve_cacheable lib w cfg world' times' target' signer' key r' (first.0, fresh_out) in
        let meta = metadata_from_response cfg resp r true (length (joined resp.chunks)) times.now in
        (first.1 ≡ copy_upstream cfg resp (cache_header cfg (codes "MISS")) fresh_out)
        × (again.1 ≡ served_whole cfg (codes "HIT") meta (joined resp.chunks) fresh_out)
        × (again.0.stats.hits ≡ first.0.stats.hits + 1))
served_twice lib w cfg world world' times times' target target' signer signer' key r r' h resp s is
      alive fresh get whole changed =
    let content = joined resp.chunks in
    let stored =
      serve_cacheable_stores lib w cfg world times target signer key r h resp s fresh_out is in
    let kept = keep_stream lib w cfg world times key resp r content (count_miss s) in
    let (loaded, there) =
      load-keep_stream lib w cfg world times key content resp r (count_miss s) times'.checked
        times'.touched (unfold count_miss in is.unlimited) is.rename_ok is.metadata_ok
        (unfold count_miss in alive) is.coded in
    let (reply, hits) =
      serve_cacheable_hit lib w cfg world' times' target' signer' key
        (stream_path lib.hash_key (count_miss s).disk.dir key) content r'
        (metadata_from_response cfg resp r true (length content) times.now) kept fresh_out loaded
        there (stream_path_named lib.hash_key _ key) (unfold metadata_from_response in refl) fresh
        get whole changed (unfold fresh_out in refl) in
    let later : Server × Out → Server × Out = λ (x : Server × Out).
      serve_cacheable lib w cfg world' times' target' signer' key r' (x.0, fresh_out) in
    (
      ap (λ x. x.1) stored,
      ap (λ x. (later x).1) stored ∙ reply,
      ap (λ x. (later x).0.stats.hits) stored ∙ hits ∙ ap (λ x. x.0.stats.hits + 1) (sym stored),
    )

-- After a `GET` for whose key no metadata is in the cache and that stored an object, with status 200,
-- the client has the body as it arrived and the values that came with it of every header that is passed
-- on; and while the object is fresh and the cache's own lifetime has not passed, a later `GET` of its
-- key for the whole of it, by a client that does not hold it already, gets status 200, the same bytes
-- and the same values, with their number as the length, and counts as a hit, whatever the upstream
-- server does.
pub object_served_again :
    (lib : Library) (w : World) (cfg : Config) (world world' : Outside) (times times' : Times)
    (target target' : Url) (signer signer' : Option Signer) (key : Bytes) (r r' : Incoming)
    (h : Header) (resp : Origin) (s : Server) (name : Bytes)
    → IsStored lib w cfg world times target signer key r s h resp
    → expired_at (deadline s.disk.ttl times.now) times'.checked ≡ false
    → ltb times'.now
        (add_time times.now (ttl_for_response cfg.policy (policy_request r) (policy_response resp)))
      ≡ true
    → r'.method ≡ method_get
    → header_get (codes "Range") r'.credited.header ≡ []
    → client_not_modified r'.credited.header
        (metadata_from_response cfg resp r true (length (joined resp.chunks)) times.now)
      ≡ false
    → IsPassedOn name
    → (let first = serve_cacheable lib w cfg world times target signer key r (s, fresh_out) in
        let again =
          serve_cacheable lib w cfg world' times' target' signer' key r' (first.0, fresh_out) in
        (first.1.sent ≡ some (200, first.1.header))
        × (first.1.body ≡ joined resp.chunks)
        × (header_values name first.1.header ≡ header_values name resp.header)
        × (again.1.sent ≡ some (200, again.1.header))
        × (again.1.body ≡ joined resp.chunks)
        × (header_values name again.1.header ≡ header_values name resp.header)
        × (header_get (codes "Content-Length") again.1.header
            ≡ decimal (length (joined resp.chunks)))
        × (again.0.stats.hits ≡ first.0.stats.hits + 1))
object_served_again lib w cfg world world' times times' target target' signer signer' key r r' h
      resp s name is alive fresh get whole changed passed =
    let content = joined resp.chunks in
    let meta = metadata_from_response cfg resp r true (length content) times.now in
    let ok = should_store-status lib w cfg r resp is.may_store in
    let stored_ok : meta.status_code ≡ 200 = unfold metadata_from_response in ok in
    let stored_values : header_values name meta.header ≡ header_values name resp.header =
      unfold metadata_from_response in header_values-filtered name resp.header passed in
    let stored_size : decimal meta.body_size ≡ decimal (length content) =
      unfold metadata_from_response in refl in
    let (first, again, hits) =
      served_twice lib w cfg world world' times times' target target' signer signer' key r r' h resp
        s is alive (unfold metadata_from_response in fresh) get whole changed in
    let miss = cache_header cfg (codes "MISS") in
    let (sent, body, values) = copied cfg resp miss name passed in
    let (sent', body', values', size) = served_whole_parts cfg meta content name passed in
    let out = serve_cacheable lib w cfg world times target signer key r (s, fresh_out) in
    (
      ap (λ (o : Out). o.sent) first
          ∙ sent
          ∙ ap (λ n. some (n, (copy_upstream cfg resp miss fresh_out).header)) ok
          ∙ ap (λ (o : Out). some (200, o.header)) (sym first),
      ap (λ (o : Out). o.body) first ∙ body,
      ap (λ (o : Out). header_values name o.header) first ∙ values,
      ap (λ (o : Out). o.sent) again
          ∙ sent'
          ∙ ap (λ n. some (n, (served_whole cfg (codes "HIT") meta content fresh_out).header))
              stored_ok
          ∙ ap (λ (o : Out). some (200, o.header)) (sym again),
      ap (λ (o : Out). o.body) again ∙ body',
      ap (λ (o : Out). header_values name o.header) again ∙ values' ∙ stored_values,
      ap (λ (o : Out). header_get (codes "Content-Length") o.header) again ∙ size ∙ stored_size,
      hits,
    )
