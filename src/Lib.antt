-- ===== src/Lib.antt =====
-- proxykit: caching proxies for Git, object stores and package registries, over one cache on disk.
--
-- A cache (cache/cache.go) keeps entries in memory, their files in a directory and their metadata in a
-- database. The Git handler (git/) has two of them, for refs and for packs, and decides from the lines
-- of an upload-pack request whether a pack may come from the cache. The object-store proxy (s3/) keeps
-- two entries for an object, its metadata and its body, under a key of tenant, credentials and URL.
-- The package proxies (apt/, npm/) answer a URL from the cache or from an upstream server on a list of
-- hosts; npm's list holds patterns of internal/glob.
--
-- Prelude        numbers, lists, functions changed at one number, and Go's functions on strings that
--                the source calls
-- Http           headers, responses and upstream servers, as the handlers use them
-- Cache          cache/cache.go. Cache/Entry and Cache/State hold the structs `entry` and `Cache`,
--                Cache/Evict the three evictions, Cache/Ops the exported operations (`Put` is `put`,
--                `RegisterAfterStream` is `register_after_stream`, and so on), Cache/Fetch
--                `GetOrFetch`, Cache/Recover `New` and `recover`. The other files below Cache hold
--                lemmas and theorems: Map and Snapshot on the map and on sorted copies of it,
--                Invariant, Order, Limit, Put and Sweep, Fetch/Answers, Recover/Restores and
--                Recover/Reopen. Cache/Fetch/Flights is `GetOrFetch` of many callers as a step
--                relation, with its invariant in Flights/Orderly and progress in Flights/Progress.
--                Cache/Size is `ParseSize`. Cache/Abstract is the cache as a map of contents, which
--                Abstract/Refines relates to it, and Abstract/View the quotient of caches by their
--                contents.
-- Git            git/. Git/PktLine is `Scanner`, Git/UploadPack the two parsers of git/pktline.go,
--                Git/Detect git/detect.go, Git/Keys git/cache.go, and of git/handler.go Git/Headers is
--                the filter of headers, Git/CountWriter `countWriter` and Git/Handler the handlers.
--                PktLine/RoundTrip, UploadPack/Lines, UploadPack/Verdict, UploadPack/VerdictV2,
--                Handler/Push and Handler/Clone hold the theorems. Handler/Flights is the callers for
--                one pack as a step relation, with its invariant in Flights/Sound and theorems in
--                Flights/Progress and Flights/Together. Git/Redirect is `reInjectAuthOnRedirect` of
--                git/git.go, Git/Setup its `Config` with `Validate`, `New` and `ClearCaches`, with a
--                theorem in Setup/Defaults, and Git/Credentials the validation of credentials,
--                with a theorem in Credentials/Valid.
--                Git/GitConfig is git/gitconfig.go; GitConfig/Settings and GitConfig/Base64 read a
--                generated text, with lemmas in GitConfig/Lines and the theorem in GitConfig/Sections.
-- S3             s3/. S3/Range is `parseRange`, S3/Entries the metadata and S3/Reply `serveEntry` of
--                s3/entry.go; of s3/server.go S3/Writer is `limitedCacheWriter`, S3/Fresh the
--                lifetimes, S3/Keys the key and invalidation, S3/Target `targetURL`, the key's query
--                and `cachePolicy`, S3/Security `resolveSecurity` with the scopes of s3/signer.go,
--                S3/Server the state and its tests, Server/Fetch `fetchAndMaybeStore` and
--                `streamAndStore`, and Server/Handler `ServeHTTP`, `serveCacheable` and
--                `forwardMutation`. Server/Hit, Server/Kept, Server/PassedOn, Server/Stored,
--                Server/Served, Server/Outcomes, Security/Scope and Target/SameKey hold lemmas and
--                theorems. S3/Config is s3/config.go and `applyConfigDefaults`, S3/Signer
--                `signRequest` and S3/Setup `New`. Server/Flights is `serveCacheable` of many callers as a step relation, with its invariant in
--                Flights/Orderly and progress in Flights/Progress.
-- Apt            apt/apt.go. Apt/Paths holds `isAllowedHost` and what the path says of a file,
--                Apt/Proxy `handleRequest` and `handleProxy`; Apt/Proxy/Kept holds theorems.
--                Apt/Addresses is `denyPrivateIPs`, and Apt/Setup `New`.
-- Glob           internal/glob: a pattern as a list of pieces; Glob/Label holds the theorem
-- Npm            npm/. Npm/Paths, Npm/Allowlist and Npm/Keys are npm/registries.go and the keys of
--                npm/npm.go, Npm/Proxy its handlers; Paths/Rewrites, Proxy/Routed and Proxy/Served hold
--                lemmas and a theorem. Npm/Lockfile is npm/lockfile_rewrite.go, with lemmas in Lockfile/Links and the theorem in
--                Lockfile/Routes, and Npm/Setup is `New`.
-- Tests          runs on small inputs
--
-- A text is a list of bytes. The cache's state is the record `Cache`, with the files as a map from
-- paths to contents and the database as its rows; an operation takes it and returns the next. What the
-- file system and the database answer, and what the clock reads, are arguments. SHA-256, SQL's LIKE,
-- gzip, encoding/json and the parts of net/url are arguments too. A duration is an int64 with its sign
-- and its wrap-around; sizes are natural numbers. `sort.Slice` is an insertion sort, and the order of
-- entries with equal times is not specified by the source.
--
-- A `World` says for which keys a statement of the database succeeds and for which paths the removal of
-- a file does, the same throughout a run. Letters are ASCII where a case or a space matters.
--
-- The critical sections of the cache's mutex are atomic steps. There is fuel in the loop over the
-- lines of a request - each line takes four bytes, and the fuel is one more than the length of the
-- body - and in the printing of a number, which has no more digits than it is large. A Git request
-- that waits for another fetch of the same pack sees the pack cache as an argument.
--
-- Not modelled: logging, metrics, listeners and shutdown, TLS, the bodies of requests that are read
-- with an error, errors in reading the database's rows, and the signature itself of requests in s3/.
pub mod Prelude
pub mod Http
pub mod Cache
pub mod Git
pub mod S3
pub mod Apt
pub mod Glob
pub mod Npm
pub mod Tests
