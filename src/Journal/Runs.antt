-- ===== src/Journal/Runs.antt =====
-- The theorems of the service's writes at a concrete host and database: appends and an
-- acknowledgment.
use agent_journal.Prelude.{
  Bool, true, arith, count, false, ℕ, ◌≡◌, refl, Text, text, none, some, [], ◌∷◌, List, Result, ok,
  err, any, all, find, filter, byte_len, Text-discrete, ℕ_discrete, text_lt,
}
use agent_journal.Domain.Types.{RecordInput, Record, AppendResult}
use agent_journal.Domain.Title.{
  normalize_title, trim, trim_start, trim_end, is_whitespace, is_control, validate_title,
}
use agent_journal.Domain.Validate.{
  validate, validate_identifier, check_attention, check_relations, non_empty,
}
use agent_journal.Protocol.Canonical.{canonical_append, canonical, sort, insert_sorted}
use agent_journal.Protocol.Cursor.{new_codec}
use agent_journal.Journal.Schema.{MailboxRow}
use agent_journal.Journal.Tx.{
  BootstrapError, Store, transaction, now, clock_now, timestamp, secret, fill_random, digest, hex,
  checkpoint, lift, some_or, fail_when,
}
use agent_journal.Journal.Access.{
  journal_actor, append_replay_actor, cursor_codec, is_valid, is_active, is_open, select_principal,
  active_principal, permitted,
}
use agent_journal.Journal.Ids.{record_id, uuid_v7, hyphenate, mark_version}
use agent_journal.Journal.Inserts.{
  insert_record, insert_relations, bump, last_seq_of, insert_attention, insert_mailbox,
  insert_idempotency,
}
use agent_journal.Journal.Append.{
  max_seq, resolve_recipients, check_targets, find_idempotency, address, address_all, replay,
  store_record, create_record, append_new, append_in, append_record,
}
use agent_journal.Journal.Append.Outcome.{Outcome, append_record-ok}
use agent_journal.Journal.Records.{
  get_record, find_record, attention_of, relations_of, sort_by_position, insert_by_position,
}
use agent_journal.Journal.Credentials.Keyed.{IsKeyed}
use agent_journal.Journal.Append.Retried.{IsAgain, append_record-retry}
use agent_journal.Journal.Append.Numbered.{AllNumbered, append_record-AllNumbered}
use agent_journal.Journal.Inbox.{acknowledge_inbox_item, acknowledge_in, acknowledge_row}
use agent_journal.Journal.Inbox.Acknowledged.{
  IsAcknowledged, acknowledge_inbox_item-ok, acknowledge_inbox_item_idem,
}
use agent_journal.Journal.Examples.{toy_host, zero_token, start}

abbrev greeting : RecordInput
greeting = record {
  kind = text "message";
  content = text "hello";
  run_id = none;
  attention = text "alice" ∷ text "bob" ∷ [];
  routing_key = none;
  relations = [];
  title = some (text " Hi ");
}

abbrev no_record : Record
no_record = record {
  id = [];
  space_id = [];
  seq = 0;
  author = [];
  kind = [];
  content = [];
  run_id = none;
  created_at = [];
  attention = [];
  routing_key = none;
  relations = [];
  title = none;
}

abbrev result_of : Result BootstrapError AppendResult → AppendResult
result_of (ok result) = result
result_of (err e) = record { appended = no_record; mailbox_created = 0; replayed = false }

abbrev appended : Store → Result BootstrapError AppendResult × Store
appended s = append_record toy_host zero_token (text "s") (text "k1") greeting s

appended-start : appended start ≡ (ok (result_of (appended start).0), (appended start).1)
unfolding append_record append_in append_new create_record store_record address_all address replay
    find_idempotency check_targets resolve_recipients max_seq insert_record insert_relations bump
    last_seq_of insert_attention insert_mailbox insert_idempotency record_id uuid_v7 hyphenate
    mark_version journal_actor append_replay_actor cursor_codec is_valid is_active is_open
    select_principal active_principal permitted transaction now clock_now timestamp secret
    fill_random digest hex checkpoint lift some_or fail_when canonical_append canonical sort
    insert_sorted new_codec validate validate_identifier check_attention check_relations non_empty
    normalize_title trim trim_start trim_end is_whitespace is_control validate_title any all find
    filter byte_len Text-discrete ℕ_discrete text_lt
appended-start = refl

append_record-ok_example :
    (bytes : List ℕ) × (toy_host.to_vec greeting ≡ ok bytes)
    × Outcome toy_host zero_token
        (text "s")
        (text "k1")
        (digest toy_host bytes)
        greeting
        start
        (result_of (appended start).0)
        (appended start).1
append_record-ok_example =
    append_record-ok toy_host zero_token (text "s") (text "k1") greeting start (appended start).1
      (result_of (appended start).0) appended-start

append_record-AllNumbered_example : AllNumbered (appended start).1.db
append_record-AllNumbered_example =
    append_record-AllNumbered toy_host zero_token (text "s") (text "k1") greeting start
      (appended start).1 (result_of (appended start).0) (record { numbered = λ space. tt })
      appended-start

start-IsKeyed : IsKeyed start.db
unfolding count
start-IsKeyed = record { id_once = λ x. ground arith; hash_once = λ x. ground arith }

abbrev again : Result BootstrapError AppendResult × Store
again = appended (appended start).1

abbrev is_ok : Result BootstrapError AppendResult → Bool
is_ok (ok result) = true
is_ok (err e) = false

returned :
    (r : Result BootstrapError AppendResult × Store)
    → is_ok r.0 ≡ true
    → r ≡ (ok (result_of r.0), r.1)
returned (ok result, s) h = refl
returned (err e, s) h = absurd (cc)

again-is_ok : is_ok again.0 ≡ true
unfolding append_record append_in append_new create_record store_record address_all address replay
    find_idempotency check_targets resolve_recipients max_seq insert_record insert_relations bump
    last_seq_of insert_attention insert_mailbox insert_idempotency record_id uuid_v7 hyphenate
    mark_version journal_actor append_replay_actor cursor_codec is_valid is_active is_open
    select_principal active_principal permitted transaction now clock_now timestamp secret
    fill_random digest hex checkpoint lift some_or fail_when canonical_append canonical sort
    insert_sorted new_codec validate validate_identifier check_attention check_relations non_empty
    normalize_title trim trim_start trim_end is_whitespace is_control validate_title any all find
    filter byte_len Text-discrete ℕ_discrete text_lt get_record find_record attention_of
    relations_of sort_by_position insert_by_position
again-is_ok = refl

appended-fresh : (result_of (appended start).0).replayed ≡ false
unfolding append_record append_in append_new create_record store_record address_all address replay
    find_idempotency check_targets resolve_recipients max_seq insert_record insert_relations bump
    last_seq_of insert_attention insert_mailbox insert_idempotency record_id uuid_v7 hyphenate
    mark_version journal_actor append_replay_actor cursor_codec is_valid is_active is_open
    select_principal active_principal permitted transaction now clock_now timestamp secret
    fill_random digest hex checkpoint lift some_or fail_when canonical_append canonical sort
    insert_sorted new_codec validate validate_identifier check_attention check_relations non_empty
    normalize_title trim trim_start trim_end is_whitespace is_control validate_title any all find
    filter byte_len Text-discrete ℕ_discrete text_lt
appended-fresh = refl

append_record-retry_example :
    IsAgain (result_of (appended start).0) (result_of again.0) (appended start).1.db again.1.db
append_record-retry_example =
    append_record-retry toy_host zero_token (text "s") (text "k1") greeting greeting start
      (appended start).1 again.1 (result_of (appended start).0) (result_of again.0) start-IsKeyed
      appended-fresh appended-start (returned again again-is_ok)

abbrev first_id : List MailboxRow → Text
first_id [] = []
first_id (m ∷ ms) = m.id

abbrev alice_item : Text
alice_item = first_id (appended start).1.db.mailbox_items

abbrev acknowledged_by : Store → Result BootstrapError (Unit {0}) × Store
acknowledged_by s = acknowledge_inbox_item toy_host zero_token alice_item s

abbrev once : Store
once = (acknowledged_by (appended start).1).1

acknowledged-once : acknowledged_by (appended start).1 ≡ (ok tt, once)
unfolding acknowledge_inbox_item acknowledge_in acknowledge_row append_record append_in append_new
    create_record store_record address_all address replay find_idempotency check_targets
    resolve_recipients max_seq insert_record insert_relations bump last_seq_of insert_attention
    insert_mailbox insert_idempotency record_id uuid_v7 hyphenate mark_version journal_actor
    append_replay_actor cursor_codec is_valid is_active is_open select_principal active_principal
    permitted transaction now clock_now timestamp secret fill_random digest hex checkpoint lift
    some_or fail_when canonical_append canonical sort insert_sorted new_codec validate
    validate_identifier check_attention check_relations non_empty normalize_title trim trim_start
    trim_end is_whitespace is_control validate_title any all find filter byte_len Text-discrete
    ℕ_discrete text_lt
acknowledged-once = refl

acknowledged-twice : acknowledged_by once ≡ (ok tt, (acknowledged_by once).1)
unfolding acknowledge_inbox_item acknowledge_in acknowledge_row append_record append_in append_new
    create_record store_record address_all address replay find_idempotency check_targets
    resolve_recipients max_seq insert_record insert_relations bump last_seq_of insert_attention
    insert_mailbox insert_idempotency record_id uuid_v7 hyphenate mark_version journal_actor
    append_replay_actor cursor_codec is_valid is_active is_open select_principal active_principal
    permitted transaction now clock_now timestamp secret fill_random digest hex checkpoint lift
    some_or fail_when canonical_append canonical sort insert_sorted new_codec validate
    validate_identifier check_attention check_relations non_empty normalize_title trim trim_start
    trim_end is_whitespace is_control validate_title any all find filter byte_len Text-discrete
    ℕ_discrete text_lt
acknowledged-twice = refl

acknowledge_inbox_item-ok_example :
    IsAcknowledged toy_host zero_token alice_item (appended start).1 once.db
acknowledge_inbox_item-ok_example =
    acknowledge_inbox_item-ok toy_host zero_token alice_item (appended start).1 once
      acknowledged-once

acknowledge_inbox_item_idem_example : (acknowledged_by once).1.db ≡ once.db
acknowledge_inbox_item_idem_example =
    acknowledge_inbox_item_idem toy_host zero_token zero_token alice_item (appended start).1 once
      (acknowledged_by once).1 acknowledged-once acknowledged-twice
