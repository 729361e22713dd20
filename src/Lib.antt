-- ===== src/Lib.antt =====
-- A model of postbud, a service that takes messages over HTTP, queues them in PostgreSQL, hands them
-- to a mail relay and watches what becomes of them, with the theorems that make its core correct.
--
-- Data flow. The API accepts a message (crates/postbud-api/src/messages.rs,
-- `submit`, then crates/postbud-db/src/message.rs, `accept`), which consults
-- the suppression list (suppression.rs). Workers `claim` due messages, hand each to the relay and
-- record the outcome (crates/postbud-relay/src/worker.rs, `deliver_one`), by the schedule of
-- crates/postbud-core/src/retry.rs. Bounces come back as delivery status notifications: dsn.rs reads
-- one, bounce.rs (`ingest`) stores it and suppresses the address that it shows to be bad. The relay's
-- queue comes in as snapshots (crates/postbud-db/src/relayqueue.rs, `reconcile`). Beside this, the
-- DNS records of each sending domain are judged by crates/postbud-core/src/dnscheck.rs, in rounds that
-- crates/postbud-relay/src/dnscheck.rs runs over the registry of crates/postbud-db/src/domain.rs.
-- Operators change tenants, suppressions, domains and each other's grants through
-- crates/postbud-api/src/admin.rs, which lets in who holds the token or a grant.
--
-- Files
--   Prelude        lists, options and Boolean tests on the native numbers; Prelude/Rows: tables
--   Text           the operations of `str` and `char` that the crates use, with their laws
--   Result         `Result`
--   Address        crates/postbud-core/src/address.rs
--   Classification crates/postbud-core/src/lib.rs
--   Authz          crates/postbud-core/src/authz.rs
--   Retry          crates/postbud-core/src/retry.rs
--   Dsn            crates/postbud-core/src/dsn.rs
--   Store          the tables of crates/postbud-db/migrations and the platform's functions
--   Suppression    crates/postbud-db/src/suppression.rs
--   Queue          crates/postbud-db/src/message.rs
--   Worker         crates/postbud-relay/src/worker.rs (`deliver_one`), lib.rs (`Outcome`)
--   Bounce         crates/postbud-db/src/bounce.rs
--   RelayQueue     crates/postbud-core/src/relayqueue.rs and crates/postbud-db/src/relayqueue.rs
--   DnsCheck       crates/postbud-core/src/dnscheck.rs
--   Submit         crates/postbud-api/src/messages.rs, with `ApiError` of error.rs
--   Tenants        crates/postbud-db/src/tenant.rs, with `hash` of crates/postbud-core/src/apikey.rs
--   Showq          crates/postbud-core/src/showq.rs
--   QueueReport    `as_ndjson` of crates/postbud-relay/src/queuereport.rs, and `parse` of
--                  crates/postbud-core/src/relayqueue.rs that reads it
--   Admins         crates/postbud-db/src/admin_user.rs
--   Gate           the two ways into the admin surface in crates/postbud-api/src/admin.rs and oidc.rs;
--                  Gate/Users has the requests on operators
--   Operations     the other requests of crates/postbud-api/src/admin.rs that change something
--   Paging         the lists of crates/postbud-api/src/admin.rs and crates/postbud-db/src/admin.rs
--   Int            signed numbers over the native ones
--   Domains        crates/postbud-db/src/domain.rs
--   Observing      the rounds of checks in crates/postbud-relay/src/dnscheck.rs
--   Identity       crates/postbud-core/src/rdns.rs, crates/postbud-db/src/relay.rs, and the relay's
--                  check in crates/postbud-relay/src/dnscheck.rs
--   Silence        crates/postbud-core/src/silence.rs
--   Dmarc          crates/postbud-core/src/dmarc.rs, and `store` of crates/postbud-db/src/dmarc.rs
--   Ingress        crates/postbud-api/src/auth.rs, suppressions.rs, bounces.rs and relayqueue.rs
--   System         the service as a sequence of these operations on one database
--   Tests          runs at concrete inputs
--
-- How the code is translated. A text is the list of its code points; where the code counts bytes,
-- the length in UTF-8 is written out. A table is the list of its rows in the order of insertion, a
-- row a record with the columns as fields, an id a number, a time a number of microseconds. A
-- function of the database crate is one transaction: it takes the tables and the database's time
-- and returns the new tables with its answer; `none` is a transaction that a constraint rolls back.
-- The draws of the database (a message's uuid) and the rows that other transactions have locked are
-- arguments, so that every interleaving of API, workers and reports is a list of operations (System).
-- `Platform` holds what is not the program's own: `lower` of the database, the digest of the
-- attachments, `chrono::Duration::from_std`, and the row that PostgreSQL takes where a query gives no order
-- and may find several (Store/Unordered). `sort_by` is stable where `order by` leaves ties open.
--
-- Bounds. Counters are natural numbers without an upper bound, where the code has 32- and 64-bit
-- integers that these counts do not reach. Loops are structural recursion; `decimal` alone runs on
-- fuel, the number itself plus one, which has at least as many steps as the number has digits. A caller
-- who follows cursors (Paging/Crawl) is given more steps than there are rows.
--
-- Not modelled: HTTP routing, SMTP, IMAP, DNS lookups and the OIDC exchange (I/O and libraries), the
-- overview of the administrators and the detail of one message, the mailbox of the aggregate reports
-- and their summaries, the pool of connections, and the interface in the browser.
pub mod Prelude
pub mod Text
pub mod Result
pub mod Address
pub mod Classification
pub mod Authz
pub mod Retry
pub mod Dsn
pub mod Store
pub mod Suppression
pub mod Queue
pub mod Worker
pub mod Bounce
pub mod RelayQueue
pub mod DnsCheck
pub mod Tenants
pub mod Submit
pub mod System
pub mod Admins
pub mod Dmarc
pub mod Domains
pub mod Gate
pub mod Identity
pub mod Ingress
pub mod Int
pub mod Observing
pub mod Operations
pub mod Paging
pub mod QueueReport
pub mod Showq
pub mod Silence
pub mod Tests
