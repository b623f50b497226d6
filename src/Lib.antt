-- ===== src/Lib.antt =====
-- zimi-rs serves ZIM archives over HTTP and MCP, indexes them for search, and downloads new ones. This
-- library models the parts of it that decide: what the service may fetch, whom it serves and how
-- often, which state a download is in, and which bytes of an article or an entry are served.
--
-- The parts, and the files that model them:
--
--   Net/Ip, Net/Blocked      src/netguard.rs, `is_blocked_ip`: the policy on addresses, by octets and
--                            segments.
--   Net/Fetch                src/netguard.rs: the validation of a URL, resolution with a pin, and
--                            `follow_pinned_get`, the manual chain of redirects; its Redirect is
--                            the policy of `build_guarded_client`.
--   Access/RateLimit         src/access/ratelimit.rs: the token bucket; its Handle is the process-wide
--                            limiter, with the middleware `rate_limit` of src/serve/middleware.rs.
--   Access/Lockout           src/access/lockout.rs: the table of failed authentications.
--   Access/Proxy             src/access/cidr.rs: trusted proxies and the lockout's key.
--   Access/Auth              src/serve/middleware.rs, `auth_middleware`, over the two above; its Traffic
--                            has requests in flight at once.
--   Downloads/Status         src/db/downloads_lifecycle.rs: the states and the table of transitions.
--   Downloads/Table          the `downloads` table with the unique indexes of migrations/003 and 011.
--   Downloads/Lifecycle      src/db/downloads_lifecycle.rs: every guarded statement.
--   Downloads/Queue          src/db/downloads.rs: enqueueing, cancelling, and the reads of a status.
--   Downloads/Transitions,   what the statements do to the rows, in any order.
--   Downloads/Unique
--   Downloads/Requeue        src/torrent/poller/requeue.rs, and `requeue_stale_errors` of
--                            src/torrent/poller/mod.rs: the bounded retry.
--   Direct/Headers,          src/torrent/poller/direct.rs: the transfer of an archive over HTTP into a
--   Direct/Stream            staged file, with its resume.
--   Direct/Finalize          what follows the transfer, `finalize_direct_download`.
--   Direct/Download          `direct_download`, and the task of src/torrent/poller/complete.rs around it.
--   Poller/Names             src/torrent/mod.rs and src/torrent/files.rs: what is a direct URL, and which
--                            names a download may have.
--   Poller/Enqueue           src/torrent/poller/mod.rs, `process_queued`: the rows that a tick starts.
--   Catalog/Digest           src/torrent/opds.rs: the digest that a catalog declares.
--   Catalog/Names            the date tags of names, `base_and_version`, and the rank they give.
--   Catalog/Updates          `find_updates`, over its index.
--   Content/Utf8,            src/content.rs: texts by byte offsets, previews and chunks.
--   Content/Chunks
--   Content/Range,           src/serve/handlers/content.rs: the headers of a raw entry, the read of
--   Content/Raw              it, and the answer.
--   Search/QueryCache        src/search/query_cache.rs: the bounded cache of query embeddings.
--   Health                   src/health.rs: the memoized probes, the tracker of degraded branches.
--
-- A module has the name of the source's file or of what it models, and a definition the name of the
-- function; the other modules of a directory hold its proofs, and Tests its runs and witnesses.
--
-- State is passed explicitly. The mutex of the limiter and of the lockout table makes a history of
-- calls a sequence, and the instant of a call is an argument, in nanoseconds. A database statement is a
-- step on a list of rows; it may fail before it takes effect, which its `Env` says, and sequences of
-- steps stand for the interleavings of requests, since each statement is atomic. A hash map is an
-- association list, whose order stands for the map's order of iteration. A text is its list of code
-- points. Machine words are natural numbers with their wrap-around and saturation written out, and a
-- floating-point column of the database is its bit pattern.
--
-- What the repository does not implement is a parameter: the URL parser, name resolution and the HTTP
-- client (`Web`), the parsers of addresses and networks (`Nets`), the verification and hashing of
-- credentials and the parser of queries (`Verifier`), the archive reader (`Archive`), the base64
-- decoder, what qBittorrent answers (`Tick`), the Unicode
-- predicate and the regular expression of the retry.
--
-- Bounds and fuel: a chain of redirects recurses on the redirects that may still be followed. The
-- chunker recurses on fuel, and is given the length of the text in bytes, which is enough since each
-- window moves forward. All else is structural.
--
-- Not modelled: the search itself and embedding, the torrent client and what the poller does with
-- torrents in flight, the parsing of a feed, the settings store, the archives' index, startup, and the
-- handlers that only translate.
pub mod Base
pub mod Net
pub mod Access
pub mod Downloads
pub mod Content
pub mod Search
pub mod Health
pub mod Direct
pub mod Poller
pub mod Catalog
