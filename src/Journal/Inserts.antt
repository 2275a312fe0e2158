-- ===== src/Journal/Inserts.antt =====
-- crates/journal-service/src/records.rs: the statements by which an append writes its rows, with the
-- uniqueness constraints of migrations/0001_uuid_native.sql.
use agent_journal.Prelude.{
  ℕ, ◌+◌, Text, Option, none, some, List, [], ◌∷◌, ◌++◌, Bool, true, false, ◌||◌, ◌&&◌,
  if◌then◌else◌, any, same, ◌==◌,
}
use agent_journal.Domain.Types.{RelationType-discrete, Relation}
use agent_journal.Journal.Schema.{
  RecordRow, RelationRow, AttentionRow, SequenceRow, MailboxRow, IdempotencyRow,
}
use agent_journal.Journal.Tx.{conflict, Tx, ◌>>=◌, ◌>>◌, pure, fail_when, read_db, write}

-- The inserts, with the tables' uniqueness constraints; a violation is a conflict.
unfoldable pub insert_record : RecordRow → Tx (Unit {0})
insert_record row = do
  db ← read_db
  fail_when
      (any
        (λ (r : RecordRow).
          same r.id row.id || (same r.space_id row.space_id && r.space_seq == row.space_seq))
        db.records)
      conflict
  write 1 (λ db. record db { records = db.records ++ (row ∷ []) })

abbrev pub same_type : RelationRow → RelationRow → Bool
same_type a b = elim (RelationType-discrete a.relation_type b.relation_type) [
  | yes _ ↦ true
  | no _ ↦ false
]

unfoldable pub insert_relations : Text → ℕ → List Relation → Tx (Unit {0})
insert_relations id position [] = pure tt
insert_relations id position (relation ∷ rest) = do
  let row : RelationRow = record {
    source_record_id = id;
    relation_type = relation.relation_type;
    target_record_id = relation.record_id;
    position = position;
  }
  db ← read_db
  fail_when
      (any
        (λ (r : RelationRow).
          same r.source_record_id id
          && (same_type r row && same r.target_record_id relation.record_id))
        db.record_relations)
      conflict
  write 1 (λ db. record db { record_relations = db.record_relations ++ (row ∷ []) })
  insert_relations id (position + 1) rest

-- `INSERT … VALUES (?,1) ON CONFLICT DO UPDATE SET last_seq=last_seq+1`
unfoldable pub bump : Text → List SequenceRow → List SequenceRow
bump recipient [] = record { recipient_principal_id = recipient; last_seq = 1 } ∷ []
bump recipient (row ∷ rows) =
    let later = bump recipient rows in
    if same row.recipient_principal_id recipient
    then record row { last_seq = row.last_seq + 1 } ∷ rows
    else row ∷ later

unfoldable pub last_seq_of : Text → List SequenceRow → Option ℕ
last_seq_of recipient [] = none
last_seq_of recipient (row ∷ rows) =
    if same row.recipient_principal_id recipient
    then some row.last_seq
    else last_seq_of recipient rows

unfoldable pub insert_attention : AttentionRow → Tx (Unit {0})
insert_attention row = do
  db ← read_db
  fail_when
      (any
        (λ (a : AttentionRow).
          same a.record_id row.record_id
          && same a.recipient_principal_id row.recipient_principal_id)
        db.attention)
      conflict
  write 1 (λ db. record db { attention = db.attention ++ (row ∷ []) })

-- Two inbox items share an id, a recipient and number, or a record and recipient.
abbrev pub collides : MailboxRow → MailboxRow → Bool
collides row m =
    same m.id row.id
    || ((same m.recipient_principal_id row.recipient_principal_id
          && m.recipient_seq == row.recipient_seq)
        || (same m.record_id row.record_id
            && same m.recipient_principal_id row.recipient_principal_id))

unfoldable pub insert_mailbox : MailboxRow → Tx (Unit {0})
insert_mailbox row = do
  db ← read_db
  fail_when (any (collides row) db.mailbox_items) conflict
  write 1 (λ db. record db { mailbox_items = db.mailbox_items ++ (row ∷ []) })

unfoldable pub insert_idempotency : IdempotencyRow → Tx (Unit {0})
insert_idempotency row = do
  db ← read_db
  fail_when
      (any
        (λ (k : IdempotencyRow).
          same k.principal_id row.principal_id
          && (same k.path row.path && same k.idempotency_key row.idempotency_key))
        db.idempotency_keys)
      conflict
  write 1 (λ db. record db { idempotency_keys = db.idempotency_keys ++ (row ∷ []) })
