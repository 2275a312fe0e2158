-- ===== src/Journal/Append/Appended.antt =====
-- A new record of an append: its row, its inbox items and its key (crates/journal-service/src/records.rs,
-- `append_record`).
use agent_journal.Prelude.{
  ℕ, ◌+◌, ◌≡◌, refl, any, same, ap, ◌∙◌, Text, Option, List, [], ◌∷◌, ◌++◌, true, false, length,
}
use agent_journal.Domain.Types.{Record, RecordInput, AppendResult}
use agent_journal.Domain.Title.{normalize_title}
use agent_journal.Protocol.Canonical.{sort}
use agent_journal.Journal.Schema.{MailboxRow, Db, RecordRow, IdempotencyRow}
use agent_journal.Journal.Access.{is_active, is_open}
use agent_journal.Journal.Append.{max_seq, append_path, rebuilt_append_response}
use agent_journal.Journal.Append.Frames.{AreResolved}
use agent_journal.Journal.Append.Addressed.{AreItems}
use agent_journal.Journal.Append.Created.{IsCreated, stored_row}

-- A new record is appended, with an inbox item for each recipient and with the key that it was asked
-- for by.
pub record IsAppended (author space key hash : Text) (input : RecordInput) (result : AppendResult)
    (before after : Db) : Type 0 where
  pub row : RecordRow
  pub key_row : IdempotencyRow
  pub recipients : List Text
  pub items : List MailboxRow
  pub records : after.records ≡ before.records ++ (row ∷ [])
  pub keys : after.idempotency_keys ≡ before.idempotency_keys ++ (key_row ∷ [])
  pub mailbox : after.mailbox_items ≡ before.mailbox_items ++ items
  pub credentials : after.credentials ≡ before.credentials
  pub resolved : AreResolved before input.attention recipients
  pub are_items : AreItems row.id row.created_at (sort recipients) items
  pub new_id : any (λ (r : RecordRow). same r.id row.id) before.records ≡ false
  pub author_active : is_active before author ≡ true
  pub space_open : is_open before space true ≡ true
  pub is_row : row ≡ record row {
    space_id = space;
    space_seq = max_seq space before.records + 1;
    author_principal_id = author;
    kind = input.kind;
    content = input.content;
    run_id = input.run_id;
    routing_key = input.routing_key;
    title = normalize_title input.title;
  }
  pub is_key_row : key_row ≡ record {
    principal_id = author;
    path = append_path space;
    idempotency_key = key;
    payload_hash = hash;
    record_id = row.id;
    response_json = rebuilt_append_response;
  }
  pub answer : result ≡ record {
    appended = record {
      id = row.id;
      space_id = space;
      seq = max_seq space before.records + 1;
      author = author;
      kind = input.kind;
      content = input.content;
      run_id = input.run_id;
      created_at = row.created_at;
      attention = sort recipients;
      routing_key = input.routing_key;
      relations = input.relations;
      title = normalize_title input.title;
    };
    mailbox_created = length recipients;
    replayed = false;
  }

-- The writes of an append, put together.
pub created-IsAppended :
    (actor space key hash : Text) (input : RecordInput) (recipients : List Text) (r : Record)
    (db : Db) (secret_key : Option (List ℕ)) (middle after : Db)
    → IsCreated actor space
        (record input { attention = recipients; title = normalize_title input.title })
        r
        (record db { cursor_secret = secret_key })
        middle
    → AreResolved db input.attention recipients
    → is_active db actor ≡ true
    → is_open db space true ≡ true
    → after ≡ record middle {
      idempotency_keys =
          middle.idempotency_keys
          ++ (record {
            principal_id = actor;
            path = append_path space;
            idempotency_key = key;
            payload_hash = hash;
            record_id = r.id;
            response_json = rebuilt_append_response;
          }
              ∷ []);
    }
    → IsAppended actor space key hash input
        (record { appended = r; mailbox_created = length recipients; replayed = false })
        db
        after
created-IsAppended actor space key hash input recipients r db secret_key middle after c are active
      open_space e =
    let st = c.stored in
    let row =
      stored_row c.id space (max_seq space db.records + 1) actor c.at
        (record input { attention = recipients; title = normalize_title input.title }) in
    let key_row_of : Text → IdempotencyRow = λ id. record {
      principal_id = actor;
      path = append_path space;
      idempotency_key = key;
      payload_hash = hash;
      record_id = id;
      response_json = rebuilt_append_response;
    } in
    let same_id : r.id ≡ c.id = ap (λ (x : Record). x.id) c.answer in
    record {
      row = row;
      key_row = key_row_of c.id;
      recipients = recipients;
      items = st.items;
      records = ap (λ (d : Db). d.records) e ∙ st.records;
      keys =
          ap (λ (d : Db). d.idempotency_keys) e
          ∙ ap (λ ks. ks ++ (key_row_of r.id ∷ [])) st.keys
          ∙ ap (λ id. db.idempotency_keys ++ (key_row_of id ∷ [])) same_id;
      mailbox = ap (λ (d : Db). d.mailbox_items) e ∙ st.mailbox;
      credentials = ap (λ (d : Db). d.credentials) e ∙ st.credentials;
      resolved = are;
      are_items = st.are_items;
      new_id = st.new_id;
      author_active = active;
      space_open = open_space;
      is_row = refl;
      is_key_row = refl;
      answer =
          ap
            (λ (x : Record). record {
              appended = x;
              mailbox_created = length recipients;
              replayed = false;
            })
            c.answer;
    }
