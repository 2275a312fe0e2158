-- ===== src/Journal/Append.antt =====
-- crates/journal-service/src/records.rs: `append_record`.
pub mod Frames
pub mod Addressed
pub mod Created
pub mod Appended
pub mod Replayed
pub mod Outcome
pub mod Numbered
pub mod Owner
pub mod Retried
use agent_journal.Prelude.{
  Bool, Text-discrete, ℕ, ◌+◌, Text, text, Option, none, some, List, [], ◌∷◌, ◌++◌, true, false,
  not, ◌&&◌, leb, ltb, max, if◌then◌else◌, length, any, find, same, map_err,
}
use agent_journal.Domain.Types.{RecordInput, Relation, Record, AppendResult}
use agent_journal.Domain.Title.{normalize_title}
use agent_journal.Protocol.Canonical.{canonical_append, sort}
use agent_journal.Journal.Schema.{Db, RecordRow, IdempotencyRow}
use agent_journal.Journal.Tx.{
  append_record_row, sqlite, invalid_journal, corrupt_journal, idempotency_conflict, not_found,
  append_sequence, append_relations, append_attention, append_inbox_sequence, append_mailbox,
  append_idempotency, Host, Tx, ◌>>=◌, ◌>>◌, pure, lift, some_or, fail_when, read_db, write, digest,
  clock_now, timestamp, secret, checkpoint, transaction,
}
use agent_journal.Journal.Access.{
  journal_actor, append_replay_actor, cursor_codec, active_principal, permitted,
}
use agent_journal.Journal.Records.{get_record}
use agent_journal.Journal.Ids.{record_id}
use agent_journal.Journal.Inserts.{
  insert_record, insert_relations, bump, last_seq_of, insert_attention, insert_mailbox,
  insert_idempotency,
}

-- `REBUILT_APPEND_RESPONSE`
abbrev pub rebuilt_append_response : Text
rebuilt_append_response = text "{}"

-- `coalesce(max(space_seq),0)`
unfoldable pub max_seq : Text → List RecordRow → ℕ
max_seq space [] = 0
max_seq space (r ∷ rs) =
    if same r.space_id space then max r.space_seq (max_seq space rs) else max_seq space rs

-- Each recipient, resolved and permitted to read the space.
unfoldable pub resolve_recipients : Text → List Text → Tx (List Text)
resolve_recipients space [] = pure []
resolve_recipients space (recipient ∷ rest) = do
  principal_id ← active_principal recipient
  permitted principal_id space false
  ids ← resolve_recipients space rest
  pure (principal_id ∷ ids)

-- Each relation's target is an older record of the space.
unfoldable pub check_targets : Text → Text → ℕ → List Relation → Tx (Unit {0})
check_targets actor space seq [] = pure tt
check_targets actor space seq (relation ∷ rest) = do
  permitted actor space false
  db ← read_db
  fail_when
      (not (
        any
          (λ (r : RecordRow).
            same r.id relation.record_id && (same r.space_id space && ltb r.space_seq seq))
          db.records))
      not_found
  check_targets actor space seq rest

-- The stored answer to an append with this key, if there was one.
unfoldable pub find_idempotency : Text → Text → Text → Db → Option IdempotencyRow
find_idempotency principal path key db =
    find
      (λ (k : IdempotencyRow).
        same k.principal_id principal && (same k.path path && same k.idempotency_key key))
      db.idempotency_keys

abbrev pub append_path : Text → Text
append_path space = text "/v1/spaces/" ++ (space ++ text "/records")

module _ (host : Host) where
  -- The rows of one recipient: attention, the next number of the inbox, and the item.
  unfoldable pub address : Text → Text → Text → Tx (Unit {0})
  address id now recipient = do
    insert_attention (record { record_id = id; recipient_principal_id = recipient })
    checkpoint host append_attention
    write 1 (λ db. record db { inbox_sequences = bump recipient db.inbox_sequences })
    db ← read_db
    seq ← some_or (last_seq_of recipient db.inbox_sequences) sqlite
    checkpoint host append_inbox_sequence
    item ← secret host
    insert_mailbox (record {
      id = text "item-" ++ item;
      record_id = id;
      recipient_principal_id = recipient;
      created_at = now;
      recipient_seq = seq;
      acknowledged_at = none;
    })
    checkpoint host append_mailbox

  unfoldable pub address_all : Text → Text → List Text → Tx (Unit {0})
  address_all id now [] = pure tt
  address_all id now (recipient ∷ rest) = do address id now recipient; address_all id now rest

  -- A rebuilt answer, or a stored copy of it.
  abbrev pub answer_of : Bool → Text → Text → Tx AppendResult
  answer_of true record_id response = do
    r ← get_record record_id
    pure (record { appended = r; mailbox_created = length r.attention; replayed = false })
  answer_of false record_id response = some_or (host.decode_response response) corrupt_journal

  abbrev pub stored_answer : Text → Text → Tx AppendResult
  stored_answer record_id response =
      answer_of (same response rebuilt_append_response) record_id response

  -- The answer to an append that was made before.
  unfoldable pub replay : Text → IdempotencyRow → Tx AppendResult
  replay hash previous = do
    fail_when (not (same previous.payload_hash hash)) idempotency_conflict
    result ← stored_answer previous.record_id previous.response_json
    pure (record result { replayed = true })

  -- The record that is stored, of the input with its recipients resolved and its title trimmed.
  abbrev pub new_row : Text → Text → ℕ → Text → Text → RecordInput → RecordRow
  new_row id space seq actor now input = record {
    id = id;
    space_id = space;
    space_seq = seq;
    author_principal_id = actor;
    kind = input.kind;
    content = input.content;
    run_id = input.run_id;
    routing_key = input.routing_key;
    title = input.title;
    created_at = now;
  }

  abbrev pub new_record : RecordRow → RecordInput → Record
  new_record r input = record {
    id = r.id;
    space_id = r.space_id;
    seq = r.space_seq;
    author = r.author_principal_id;
    kind = r.kind;
    content = r.content;
    run_id = r.run_id;
    created_at = r.created_at;
    attention = sort input.attention;
    routing_key = r.routing_key;
    relations = input.relations;
    title = r.title;
  }

  -- The writes of a new record.
  unfoldable pub store_record : RecordRow → RecordInput → Tx (Unit {0})
  store_record row input = do
    insert_record row
    checkpoint host append_record_row
    insert_relations row.id 0 input.relations
    checkpoint host append_relations
    address_all row.id row.created_at (sort input.attention)

  -- The number, the time and the id of a new record, and its writes.
  unfoldable pub create_record : Text → Text → RecordInput → Tx Record
  create_record actor space input = do
    db ← read_db
    let seq = max_seq space db.records + 1
    checkpoint host append_sequence
    check_targets actor space seq input.relations
    instant ← clock_now host
    now ← lift (timestamp host instant)
    id ← record_id host instant
    store_record (new_row id space seq actor now input) input
    pure (new_record (new_row id space seq actor now input) input)

  unfoldable pub append_new : Text → Text → Text → Text → RecordInput → Tx AppendResult
  append_new token space key hash input = do
    actor ← journal_actor host token
    permitted actor space true
    codec ← cursor_codec host
    recipients ← resolve_recipients space input.attention
    let resolved = record input { attention = recipients; title = normalize_title input.title }
    canonical_bytes ← lift (map_err (canonical_append host.to_vec resolved) (λ _. invalid_journal))
    r ← create_record actor space resolved
    insert_idempotency (record {
      principal_id = actor;
      path = append_path space;
      idempotency_key = key;
      payload_hash = hash;
      record_id = r.id;
      response_json = rebuilt_append_response;
    })
    checkpoint host append_idempotency
    pure (record { appended = r; mailbox_created = length recipients; replayed = false })

  abbrev pub replay_or_new :
      Text → Text → Text → Text → RecordInput → Option IdempotencyRow → Tx AppendResult
  replay_or_new token space key hash input (some previous) = replay hash previous
  replay_or_new token space key hash input none = append_new token space key hash input

  unfoldable pub append_in : Text → Text → Text → Text → RecordInput → Tx AppendResult
  append_in token space key hash input = do
    replay_actor ← append_replay_actor host token
    db ← read_db
    replay_or_new token space key hash input
        (find_idempotency replay_actor (append_path space) key db)

  -- `append_record`
  unfoldable pub append_record : Text → Text → Text → RecordInput → Tx AppendResult
  append_record token space key input = do
    fail_when (not (leb 1 (length key) && leb (length key) 255)) invalid_journal
    bytes ← lift (map_err (host.to_vec input) (λ _. invalid_journal))
    transaction host (append_in token space key (digest host bytes) input)
