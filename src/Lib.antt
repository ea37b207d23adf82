-- ===== src/Lib.antt =====
-- GDI-Backend: a verification library of the rules that the backend of a document management system
-- must keep. A municipality is a tenant with its own tables; its users write documents and cases, a
-- document gets an official number when it is signed, and a separate service (the notary) signs it.
--
-- The parts, and how they interact:
--
-- * Numbering (shared/numbering.py). Each signing reserves a number, then confirms and finalises it,
--   or cancels it. GLOBAL numbers run through a year; SPECIAL numbers run in lanes, one for each
--   document type, department and year, which one document or batch holds at a time.
--   Numbering/Tables has the tables, the requests and the exceptions; Numbering/Queries the shared SQL
--   (`_get_city_acronym` to `_next_global_sequence`); Numbering/Reserve and Numbering/Special the two
--   branches of `reserve_number`; Numbering/Entry the functions that callers use (`reserve_number`,
--   `reserve_citizen_number`, `generate_official_number`, `generate_citizen_official_number`);
--   Numbering/Lifecycle `confirm_number`, `finalize_number`, `cancel_number` and the release of a lane;
--   Numbering/Format the text of an official number; Numbering/Blocked says without the code when a lane is blocked. The
--   other files of Numbering are proofs.
--
-- * Breaker (services/shared/notary_breaker.py). The circuit breaker before each call of the notary.
--   Its state is in Redis and mirrored in the process; Redis may be absent, fail or answer at each
--   call of a function. Breaker has the state and every function; its children are proofs.
--
-- * RateLimit (api_gateway/rate_limiter.py, middleware/rate_limit.py, shared/ip_rate_limit.py and
--   services/shared/dts_rate_limiter.py). RateLimit/Window and RateLimit/Gateway have the sliding window
--   of the API keys and their ceilings; RateLimit/Counters has the counters in Redis, with their
--   expiry; RateLimit/Address the fixed window of an address, RateLimit/Stamps the time stamps of a
--   minute, of which a share is kept for priority, RateLimit/Reserve the proofs on them, and
--   RateLimit/Middleware the limit on every request, in Redis or in memory, with RateLimit/InMemory
--   and RateLimit/Degraded the proofs.
--
-- * Cases (services/cases/permissions.py, services/cases/reserved_predicate.py). Who sees a case and who
--   changes it. Cases/Tables has the tables; Cases/Sectors the queries of a user's sectors
--   (services/case_queries.py and services/shared/user_queries.py); Cases/View the view check, the
--   predicate for reserved cases and the visibility condition of the listing
--   (services/cases/retrieval.py); Cases/Permissions the permissions on a case. Cases/Visibility,
--   Cases/Editing and Cases/Administrator are proofs.
--
-- * Signing (workers/escri.py, workers/sweeper_escri.py, services/documents/signing). The queue of
--   signing jobs, public.signing_sessions, and the lock on a document's PDF. Signing/Tables has the
--   rows; Signing/Claims how a worker claims and holds a job; Signing/Closing how it closes a job or
--   puts it back; Signing/Queue how a job enters the queue and how a rejection takes it out;
--   Signing/Poll the poll of its user (async_poll_status.py); Signing/Sweeper, Signing/Orphans and
--   Signing/Confirming the passes of the sweeper over the queue and over the reservations of
--   Numbering; Signing/Lock the lock in Redis and in the bucket (r2_lock.py, services/r2_client.py), and
--   Signing/LockSteps its acquisition call by call, with other processes between the calls.
--   Signing/Common and Signing/Job have the worker's jobs (`_process_common_job` for a signer that does
--   not number the document, `_process_job` for the one that does), call by call, Signing/JobEnd the
--   exception handlers of the latter, and Signing/Failures the exceptions and their codes.
--   Signing/Runs has the statements as steps, in any order and by any worker, and its children the
--   proofs on runs of them; the other files of Signing are proofs.
--
-- Conventions. Tables are lists of records, in the order that the database returns; ids are numbers,
-- times are microseconds, and texts are lists of code points. A call that commits is one step on the
-- tables, and an exception rolls back what it did: the advisory lock of a municipality makes the calls
-- of the GLOBAL regime run one after another, and the row of the counter those of a lane.
-- Exceptions are values of a result type. Recursion is on the structure of a list, but for the decimal
-- digits of a number, where each round divides by ten, so that as many rounds as the number and one
-- more are enough.
--
-- Parameters. The database's answer to an INSERT (`violated`, with the primary key as a named
-- hypothesis where a statement needs it), the rows that other transactions lock, the collation of
-- acronyms, the clock, the tickets and session ids drawn, the answer of the notary's health probe, the
-- state of Redis at each call of a function, the settings of the sweeper (RESERVED_EXPIRY_TTL,
-- CONFIRMING_EXPIRY_TTL, CONFIRMING_ORPHAN_GRACE_MINUTES) as times, which calls of the bucket and of a job get
-- through, and with what exception those that do not, the notary's signature and the hash of a PDF. The
-- primary key of the queue and the partial index that its ON CONFLICT names are written out, since they
-- are declared outside.
--
-- Not modelled: interleavings inside a transaction, a failure of Redis between the operations of one
-- call of the breaker, and statements of others between two calls of one job of the worker; waiting for a lock and its timeout; logging, audit and mail transport; the HTTP
-- layer; the worker's jobs for citizens, token signatures and deferred seals; the scheduled jobs; the
-- filters and paging of the listing (any filter is allowed); storage, and the microservices.
pub mod Prelude
pub mod Numbering
pub mod Breaker
pub mod RateLimit
pub mod Cases
pub mod Signing
