-- ===== src/S3/Server/Hit.antt =====
-- s3/server.go: a fresh entry with its body answers a request for the whole of it.
use proxykit.Prelude.{
  ◌+◌, ◌≡◌, refl, ap, ◌∙◌, true, false, Option, none, some, [], ◌∷◌, ◌++◌, arith, ltb,
}
use proxykit.Prelude.Parse.{decimal}
use proxykit.Prelude.Text.{Bytes, codes, bytes_eq}
use proxykit.Http.{Header, header_get, header_set}
use proxykit.Cache.State.{World, Files}
use proxykit.S3.Entries.{Metadata, load_metadata, files-load_metadata}
use proxykit.S3.Reply.{
  Out, mark, copy_header, client_not_modified, serve_entry, write_header, write_body,
}
use proxykit.S3.Security.{Signer}
use proxykit.S3.Target.{Url}
use proxykit.S3.Server.{
  Server, Library, Config, Outside, Times, Incoming, method_get, cache_header, count_hit,
  entry_usable, is_head,
}
use proxykit.S3.Server.Handler.{serve_cacheable, load, is_hit, serve_hit}

-- What a client gets of a stored object.
abbrev pub served_whole : Config → Bytes → Metadata → Bytes → Out → Out
served_whole cfg status meta content o =
    let o' = mark (cache_header cfg status) (copy_header meta.header o) in
    let h = header_set (codes "Content-Length") (decimal meta.body_size) o'.header in
    record { header = h; sent = some (meta.status_code, h); body = o'.body ++ content }

mark_sent : (status : Bytes) (h : Header) (o : Out) → (mark status (copy_header h o)).sent ≡ o.sent
unfolding mark copy_header
mark_sent [] h o = refl
mark_sent (c ∷ status) h o = refl

-- An entry with its body answers a request for the whole of it.
pub serve_entry_whole :
    (files : Files) (h : Header) (meta : Metadata) (path content : Bytes) (cfg : Config)
    (status : Bytes) (o : Out)
    → o.sent ≡ none
    → meta.has_body ≡ true
    → bytes_eq path [] ≡ false
    → files path ≡ some content
    → header_get (codes "Range") h ≡ []
    → client_not_modified h meta ≡ false
    → serve_entry files false h meta path (cache_header cfg status) o
      ≡ (served_whole cfg status meta content o, true)
unfolding serve_entry write_header write_body bytes_eq
serve_entry_whole files h meta path content cfg status o unsent has named there whole changed =
    let unsent' = mark_sent (cache_header cfg status) meta.header o ∙ unsent in
    ground (arith, unsent', has, named, there, whole, changed)

module _ (lib : Library) (w : World) (cfg : Config) where
  -- A fresh entry that is loaded is served, whatever the upstream server does.
  pub serve_cacheable_hit :
      (world : Outside) (times : Times) (target : Url) (signer : Option Signer)
      (key path content : Bytes) (r : Incoming) (meta : Metadata) (s : Server) (o : Out)
      → (load_metadata lib.decode w key times.checked times.touched s.disk).1 ≡ some (meta, path)
      → s.disk.files path ≡ some content
      → bytes_eq path [] ≡ false
      → meta.has_body ≡ true
      → ltb times.now meta.fresh_until ≡ true
      → r.method ≡ method_get
      → header_get (codes "Range") r.credited.header ≡ []
      → client_not_modified r.credited.header meta ≡ false
      → o.sent ≡ none
      → ((serve_cacheable lib w cfg world times target signer key r (s, o)).1
          ≡ served_whole cfg (codes "HIT") meta content o)
        × ((serve_cacheable lib w cfg world times target signer key r (s, o)).0.stats.hits
            ≡ s.stats.hits + 1)
  serve_cacheable_hit world times target signer key path content r meta s o loaded there named has
        fresh get whole changed unsent =
      let s' = (load lib w cfg world times key s).0 in
      let files : s'.disk.files path ≡ some content =
        unfold load in
        ap (λ (f : Files). f path)
          (files-load_metadata lib.decode w key times.checked times.touched s.disk loaded)
        ∙ there in
      let served =
        serve_entry_whole s'.disk.files r.credited.header meta path content cfg (codes "HIT") o
          unsent has named files whole changed in
      let whole_reply : (serve_cacheable lib w cfg world times target signer key r (s, o))
          ≡ (count_hit s', served_whole cfg (codes "HIT") meta content o) =
        unfold serve_cacheable load is_hit serve_hit entry_usable is_head in
        ground (arith, loaded, has, fresh, get, served) in
      (ap (λ x. x.1) whole_reply, unfold count_hit load in ap (λ x. x.0.stats.hits) whole_reply)
