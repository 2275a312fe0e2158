-- ===== src/Journal/Examples.antt =====
-- The theorems of crates/journal-service at a concrete host and a concrete database.
use agent_journal.Prelude.{
  false, last, take, drop, ◌++◌, Result, arith, any, find, filter, Text-discrete, ℕ_discrete, ◌≢◌,
  suc, ◌≡◌, refl, ℕ, zero, suc, ◌+◌, ◌*◌, Text, text, none, some, List, [], ◌∷◌, true, ok, err,
}
use agent_journal.Protocol.Cursor.{CursorLib}
use agent_journal.Domain.Types.{Principal, reply_to}
use agent_journal.Domain.Validate.{is_reply}
use agent_journal.Protocol.Canonical.{sort, insert_sorted}
use agent_journal.Journal.Thread.{
  Budget, thread_ids, thread_root_id, ascend, parent_of, in_space, seq_in, replies_to, has_parent,
  remaining, visit, walk,
}
use agent_journal.Journal.Thread.Total.{IsThread}
use agent_journal.Journal.Thread.Walk.{thread_ids_total, thread_ids-IsThread}
use agent_journal.Journal.Schema.{MailboxRow, RecordRow, current, Db, PrincipalRow, CredentialRow}
use agent_journal.Protocol.Pages.{all_items}
use agent_journal.Journal.Inbox.{
  select_items, sort_by_recipient_seq, insert_by_recipient_seq, in_state,
}
use agent_journal.Journal.Inbox.Ascending.{NoTie}
use agent_journal.Journal.Inbox.Paging.{select_items-drop}
use agent_journal.Journal.Tx.{AdminJson, BootstrapError, panicked, Host, Store}

abbrev pub zeros : ℕ → List ℕ
zeros zero = []
zeros (suc n) = 0 ∷ zeros n

abbrev pub toy_lib : CursorLib
toy_lib = record {
  sha256 = λ bytes. zeros 32;
  hmac = λ key message. zeros 32;
  base64_encode = λ bytes. bytes;
  base64_decode = λ s. some s;
  encode_json = λ p. some (1 ∷ []);
  decode_json = λ bytes. none;
}

-- The JSON of a request and of a principal is the handle, and that of a receipt is the id of its
-- credential.
abbrev toy_principal : Text → Principal
toy_principal id = record {
  id = id;
  handle = id;
  display_name = id;
  description = none;
  profile_revision = 1;
  created_at = id;
  disabled = false;
}

abbrev pub toy_json : AdminJson
toy_json = record {
  request_json = λ r. some r.handle;
  receipt_json = λ r. some r.credential_id;
  decode_receipt = λ t. some (record { principal = toy_principal t; credential_id = t });
  profile_json = λ r. some r.handle;
  principal_json = λ p. some p.handle;
  decode_principal = λ t. some (toy_principal t);
  profile_detail = λ old new previous next. old ++ new;
  recovery_detail = λ reason. [];
}

-- The clock advances by a second a use, the random bytes by one, and nothing fails.
abbrev pub toy_host : Host
toy_host = record {
  millis = λ n. some (1000 * n);
  timestamp_of = λ seconds. some ((48 + seconds) ∷ []);
  fill = λ n. some (n ∷ zeros 31);
  cursor_lib = toy_lib;
  later = λ a b. true;
  inbox_filters = λ actor state epoch. some actor;
  pair_filters = λ actor id. some (actor ++ id);
  actor_filters = λ actor. some actor;
  record_filters = λ filters. some filters.space;
  to_vec = λ input. ok input.content;
  decode_response = λ t. none;
  admin_json = toy_json;
  failpoint = none;
  ensure_open = λ db. ok tt;
  prepare = λ db. ok tt;
  commit = λ db. ok tt;
  committed = λ db. ok tt;
}

abbrev pub alice : PrincipalRow
alice = record {
  id = text "p-alice";
  display_name = text "Alice";
  created_at = text "0";
  disabled_at = none;
  description = none;
  profile_revision = 1;
}

abbrev pub bob : PrincipalRow
bob = record alice { id = text "p-bob"; display_name = text "Bob" }

-- The token of 64 zeros, whose digest is 64 zeros with this hash function.
abbrev pub zero_token : Text
zero_token = text "0000000000000000000000000000000000000000000000000000000000000000"

abbrev pub alice_credential : CredentialRow
alice_credential = record {
  id = text "c1";
  principal_id = text "p-alice";
  token_hash = zero_token;
  created_at = text "0";
  expires_at = none;
  revoked_at = none;
  replacement_credential_id = none;
  revocation_reason = none;
}

abbrev pub empty_db : Db
empty_db = record {
  principals = alice ∷ bob ∷ [];
  principal_names =
      record {
        name = text "alice";
        principal_id = text "p-alice";
        kind = current;
        created_at = text "0";
      }
      ∷ record {
        name = text "bob";
        principal_id = text "p-bob";
        kind = current;
        created_at = text "0";
      }
      ∷ [];
  credentials = alice_credential ∷ [];
  spaces =
      record { id = text "s"; name = text "S"; created_at = text "0"; archived_at = none } ∷ [];
  records = [];
  record_relations = [];
  attention = [];
  inbox_sequences = [];
  mailbox_items = [];
  idempotency_keys = [];
  cursor_secret = none;
  inbox_epoch = 1;
  credential_audit = [];
  audit_events = [];
  registration_receipts = [];
  memberships = [];
  profile_idempotency_keys = [];
}

abbrev pub start : Store
start = record { db = empty_db; changes = 0; uses = 0; principal_sequence = 0 }

abbrev root_row : RecordRow
root_row = record {
  id = text "r1";
  space_id = text "s";
  space_seq = 1;
  author_principal_id = text "p-alice";
  kind = text "message";
  content = text "hello";
  run_id = none;
  routing_key = none;
  title = none;
  created_at = text "1";
}

abbrev reply_row : RecordRow
reply_row = record root_row { id = text "r2"; space_seq = 2 }

abbrev thread_db : Db
thread_db = record empty_db {
  records = root_row ∷ reply_row ∷ [];
  record_relations =
      record {
        source_record_id = text "r2";
        relation_type = reply_to;
        target_record_id = text "r1";
        position = 0;
      }
      ∷ [];
}

abbrev small_budget : Budget
small_budget = record { max_depth = 2; max_nodes = 4; max_edges = 4 }

thread-r2 :
    thread_ids thread_db (text "s") small_budget (text "r2")
    ≡ some (ok ((1, text "r1") ∷ (2, text "r2") ∷ []))
unfolding thread_ids thread_root_id ascend parent_of in_space seq_in replies_to has_parent remaining
    visit walk any find filter sort insert_sorted is_reply Text-discrete ℕ_discrete
thread-r2 = refl

thread_ids_total_example :
    (outcome : Result BootstrapError (List (ℕ × Text))) × (thread_ids thread_db
        (text "s")
        small_budget
        (text "r2")
      ≡ some outcome)
    × (outcome ≢ err panicked)
thread_ids_total_example =
    thread_ids_total thread_db (text "s") small_budget (text "r2") (omega arith)

thread_ids-IsThread_example : IsThread thread_db (text "s") 4 ((1, text "r1") ∷ (2, text "r2") ∷ [])
thread_ids-IsThread_example =
    thread_ids-IsThread thread_db (text "s") small_budget (text "r2")
      ((1, text "r1") ∷ (2, text "r2") ∷ []) (omega arith) thread-r2

abbrev first_item : MailboxRow
first_item = record {
  id = text "item-1";
  record_id = text "r1";
  recipient_principal_id = text "p-bob";
  created_at = text "1";
  recipient_seq = 1;
  acknowledged_at = none;
}

abbrev second_item : MailboxRow
second_item = record first_item { id = text "item-2"; record_id = text "r2"; recipient_seq = 2 }

abbrev inbox_db : Db
inbox_db = record thread_db { mailbox_items = second_item ∷ first_item ∷ [] }

inbox_db-NoTie : NoTie (text "p-bob") inbox_db.mailbox_items
inbox_db-NoTie = ((λ p q h. absurd (omega (arith, h)), tt), (tt, tt))

inbox_db-select : select_items inbox_db (text "p-bob") all_items 0 2 ≡ first_item ∷ second_item ∷ []
unfolding select_items sort_by_recipient_seq insert_by_recipient_seq in_state filter find any
    Text-discrete ℕ_discrete
inbox_db-select = refl

select_items-drop_example :
    (m : MailboxRow) × (last (take 1 (select_items inbox_db (text "p-bob") all_items 0 2)) ≡ some m)
    × (select_items inbox_db (text "p-bob") all_items m.recipient_seq 2
        ≡ drop 1 (select_items inbox_db (text "p-bob") all_items 0 2))
select_items-drop_example =
    select_items-drop inbox_db (text "p-bob") all_items 0 2 0 inbox_db-NoTie
      (rw inbox_db-select (omega arith))
