-- ===== src/Lib.antt =====
-- agent-journal: the journal service, its protocol and its delivery worker.
--
-- The journal stores records in numbered spaces and tells each addressed principal of them by a
-- numbered inbox item. Clients append records with an idempotency key, page through their inbox
-- with signed cursors, and acknowledge items. A worker polls an inbox, hands each item to a runtime
-- and acknowledges it.
--
--   Domain    crates/journal-domain/src/lib.rs: limits, append requests and records (Domain/Types),
--             title trimming and checks (Domain/Title), `RecordInput::validate` and its parts
--             (Domain/Validate). Domain/Titles and Domain/Spec have the theorems.
--   Protocol  crates/journal-protocol/src: canonical.rs (Protocol/Canonical), cursor.rs
--             (Protocol/Cursor, theorems in its child modules), and of dto.rs the pages, inbox
--             items and page queries (Protocol/Pages) and the requests of administration
--             (Protocol/Requests); of query.rs the query strings of the inbox, of pages and of
--             two lists (Protocol/Queries), with the decimal numbers in them (Protocol/Decimal),
--             and those of a search (Protocol/Search).
--             The codec of forms is a parameter; `usize` is taken as 64 bits.
--   Worker    crates/journal-inbox-worker/src/lib.rs: `Retry` (Worker/Retry), `Envelope` and the
--             choice of a route (Worker/Envelope), the map of failures (Worker/Failures), the
--             worker's state and the traits `Inbox` and `Runtime` (Worker/State), `Worker::tick`
--             in its phases (Worker/Tick). Worker/Bounds, Worker/Log and Worker/Handoff have the
--             theorems.
--   Journal   crates/journal-service/src: the tables of migrations/0001_uuid_native.sql as lists of
--             rows (Journal/Schema); of bootstrap.rs the errors, clock, secrets and transactions,
--             with `with_transaction_for` of crates/journal-storage-sqlite/src/lib.rs (Journal/Tx);
--             of records.rs credentials and permissions (Journal/Access), `record`
--             (Journal/Records), `record_id` (Journal/Ids), `append_record` (Journal/Append, its
--             INSERT statements in Journal/Inserts), `thread_root_id` and `thread_ids`
--             (Journal/Thread), `finish_page` and `get_thread` (Journal/Pages); and of inbox.rs
--             `inbox` and `acknowledge_inbox_item` (Journal/Inbox). Of bootstrap.rs too:
--             `principal_id` (Journal/Ids), `create_principal` and `principal_descriptor`
--             (Journal/Principals), `register` and `update_own_profile` (its child modules),
--             `authenticate` and `issue_principal` (Journal/Credentials), `rotate`, `revoke` and
--             `recover_principal` (Journal/Credentials/Changes), `create_space`, `set_membership`
--             and `me` (Journal/Spaces), and all administrative operations as steps
--             (Journal/Administration). Of records.rs and inbox.rs too: `read_actor`, `get_space`,
--             the lists of spaces and principals and `delivery_status` (Journal/Lists), and
--             `list_records` (Journal/Lists/Records).
--             Journal/Returns and Journal/Preserves compose what holds of the operations' results
--             and of the database after them; the child modules have the theorems.
--   Prelude   Boolean tests, lists, texts and results that the others share.
--
-- Texts and byte strings are lists of numbers: the Unicode scalar values of a `String`, whose bytes
-- in UTF-8 `byte_len` counts, and the bytes of a `Vec<u8>`. A machine integer is a natural number;
-- the operations on `u32` and `Duration` saturate where the source's do. `BTreeMap` is a list of
-- entries in the order of their keys.
--
-- Code of other crates is a parameter: SHA-256, HMAC, base64url and the JSON codec of cursors
-- (`CursorLib`, with `CursorLaws` for what the code relies on), the JSON encoder of appends
-- (`to_vec`), JSON quoting in an envelope, the journal and the runtime that a worker calls (`Env`,
-- with a state of their own), and the clock, the secrets, the recovery audit and SQLite's commit
-- (`Host`). A statement in SQL is a function on the lists of rows; the uniqueness constraints are
-- written out, with the triggers that keep handles and ids apart; the foreign keys, the other
-- triggers and the full-text index are not modelled. A read-only
-- connection is a transaction whose changes are dropped.
--
-- The recursions are structural but for the two loops over a thread, which have a fuel of one more
-- than the budget of nodes: each turn sees a new node, and the loops refuse a thread with more nodes
-- than the budget.
--
-- Not modelled: HTTP, the web viewer, the command lines, the runtimes, backup and recovery, which
-- are input and output for the most part; full-text search, the service's metrics, and its queries
-- for the web viewer.

pub mod Prelude
pub mod Domain
pub mod Protocol
pub mod Worker
pub mod Journal
