-- ===== src/Journal/Lists/Examples.antt =====
-- The theorems on lists and spaces at a concrete host and a concrete database
-- (crates/journal-service/src).
use agent_journal.Prelude.{
  text_lt_irrefl, ◌≡◌, refl, ℕ, Text, text, some, none, [], ◌∷◌, ok, any, all, find, Text-discrete,
  ℕ_discrete, arith,
}
use agent_journal.Domain.Types.{Space, default_limits, public_access}
use agent_journal.Domain.Validate.{validate_identifier}
use agent_journal.Protocol.Requests.{
  SpaceCreateRequest, ListRecordsQuery, validate_wire_identifier, validate_chars,
  validate_space_create,
}
use agent_journal.Journal.Schema.{RecordRow, Db}
use agent_journal.Journal.Tx.{
  Store, digest, hex, transaction, now, clock_now, timestamp, lift, some_or, fail_when,
}
use agent_journal.Journal.Access.{journal_actor, is_active, is_valid}
use agent_journal.Journal.Spaces.{create_space, insert_space}
use agent_journal.Journal.Lists.{get_space}
use agent_journal.Journal.Lists.Created.{create_space-get_space}
use agent_journal.Journal.Lists.Records.{list_record_ids, record_sequence_lower_bound, to_i64}
use agent_journal.Journal.Lists.Records.Seek.{list_record_ids-seek}
use agent_journal.Journal.Examples.{toy_host, start, zero_token, empty_db}

abbrev space_request : SpaceCreateRequest
space_request = record { id = text "general"; name = text "General"; access = public_access }

abbrev general : Space
general = record {
  id = text "general";
  name = text "General";
  access = public_access;
  archived_at = none;
  created_at = 48 ∷ [];
  limits = default_limits;
}

abbrev with_space : Store
with_space = (create_space toy_host space_request start).1

general-ok : create_space toy_host space_request start ≡ (ok general, with_space)
unfolding create_space insert_space transaction now clock_now timestamp lift some_or fail_when
    validate_space_create validate_wire_identifier validate_chars validate_identifier any
    Text-discrete ℕ_discrete
general-ok = refl

alice-ok :
    journal_actor toy_host zero_token with_space
    ≡ (ok (text "p-alice"), (journal_actor toy_host zero_token with_space).1)
unfolding journal_actor is_valid is_active create_space insert_space transaction now clock_now
    timestamp digest hex lift some_or fail_when validate_space_create validate_wire_identifier
    validate_chars validate_identifier any all find Text-discrete ℕ_discrete
alice-ok = refl

create_space-get_space_example : get_space toy_host zero_token (text "general") with_space ≡ (
  ok general,
  record (journal_actor toy_host zero_token with_space).1 {
    db = with_space.db;
    changes = with_space.changes;
  },
)
create_space-get_space_example =
    create_space-get_space toy_host space_request general zero_token (text "p-alice") start
      with_space (journal_actor toy_host zero_token with_space).1 general-ok alice-ok

abbrev listed_row : ℕ → Text → RecordRow
listed_row seq id = record {
  id = id;
  space_id = text "s";
  space_seq = seq;
  author_principal_id = text "p-alice";
  kind = text "message";
  content = text "hello";
  run_id = none;
  routing_key = none;
  title = none;
  created_at = text "1";
}

abbrev listed_db : Db
listed_db = record empty_db {
  records = listed_row 1 (text "r1") ∷ listed_row 2 (text "r2") ∷ listed_row 3 (text "r3") ∷ [];
}

abbrev every_record : ListRecordsQuery
every_record = record {
  page = record { cursor = none; limit = none };
  after_seq = some 1;
  author = none;
  attention = none;
  kind = none;
  relation = none;
}

list_record_ids-seek_example :
    list_record_ids listed_db
      (text "s")
      (record_sequence_lower_bound (some 1) 2)
      (2, text "r2")
      none
      none
      every_record
    ≡ list_record_ids listed_db (text "s") (to_i64 1) (2, text "r2") none none every_record
list_record_ids-seek_example =
    list_record_ids-seek listed_db (text "s") (some 1) 2 (text "r2") none none every_record (
      λ own e. absurd (omega (arith, e)),
      (λ own e. text_lt_irrefl (text "r2"), (λ own e. absurd (omega (arith, e)), tt)),
    )
