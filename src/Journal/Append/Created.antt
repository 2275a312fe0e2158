-- ===== src/Journal/Append/Created.antt =====
-- What the writes of a new record do to the database (crates/journal-service/src/records.rs,
-- `append_record`).
use agent_journal.Prelude.{
  any, same, false, ◌||◌, ◌&&◌, ◌==◌, ℕ, ◌+◌, ◌≡◌, refl, ap, ◌∙◌, Text, List, [], ◌∷◌, ◌++◌, arith,
}
use agent_journal.Domain.Types.{RecordInput, Record}
use agent_journal.Protocol.Canonical.{sort}
use agent_journal.Journal.Schema.{Db, RecordRow, MailboxRow}
use agent_journal.Journal.Tx.{
  append_sequence, append_record_row, append_relations, Host, Store, clock_now,
}
use agent_journal.Journal.Append.{max_seq, store_record, create_record}
use agent_journal.Journal.Inserts.{insert_record}
use agent_journal.Journal.Append.Frames.{Grown-trans, Returns-record_id, Returns-check_targets}
use agent_journal.Journal.Append.Addressed.{
  Grown-of_store, AreItems, Returns-insert_relations, Returns-address_all,
}
use agent_journal.Journal.Returns.{
  Returns, Returns-fail_when, Returns-continue, Returns-ok, Returns-weaken, Returns-lift,
  Returns-checkpoint,
}

-- One record is added, and inbox items for these recipients.
pub record IsStored (row : RecordRow) (recipients : List Text) (before after : Db) : Type 0 where
  pub items : List MailboxRow
  pub are_items : AreItems row.id row.created_at recipients items
  pub records : after.records ≡ before.records ++ (row ∷ [])
  pub keys : after.idempotency_keys ≡ before.idempotency_keys
  pub credentials : after.credentials ≡ before.credentials
  pub mailbox : after.mailbox_items ≡ before.mailbox_items ++ items
  pub new_id : any (λ (r : RecordRow). same r.id row.id) before.records ≡ false

abbrev pub stored_row : Text → Text → ℕ → Text → Text → RecordInput → RecordRow
stored_row id space seq actor at input = record {
  id = id;
  space_id = space;
  space_seq = seq;
  author_principal_id = actor;
  kind = input.kind;
  content = input.content;
  run_id = input.run_id;
  routing_key = input.routing_key;
  title = input.title;
  created_at = at;
}

abbrev pub answered : RecordRow → RecordInput → Record
answered row input = record {
  id = row.id;
  space_id = row.space_id;
  seq = row.space_seq;
  author = row.author_principal_id;
  kind = row.kind;
  content = row.content;
  run_id = row.run_id;
  created_at = row.created_at;
  attention = sort input.attention;
  routing_key = row.routing_key;
  relations = input.relations;
  title = row.title;
}

-- The record of an append: what is stored, and what is answered.
pub record IsCreated (actor space : Text) (input : RecordInput) (r : Record) (before after : Db)
    : Type 0 where
  pub id : Text
  pub at : Text
  pub stored :
      IsStored
        (stored_row id space (max_seq space before.records + 1) actor at input)
        (sort input.attention)
        before
        after
  pub answer :
      r ≡ answered (stored_row id space (max_seq space before.records + 1) actor at input) input

-- The records that may collide with a row include those with its id.
any_id :
    (row : RecordRow) (rs : List RecordRow)
    → any
        (λ (r : RecordRow).
          same r.id row.id || (same r.space_id row.space_id && r.space_seq == row.space_seq))
        rs
      ≡ false
    → any (λ (r : RecordRow). same r.id row.id) rs ≡ false
unfolding any
any_id row [] h = refl
any_id row (r ∷ rs) h = ground (arith, h, any_id row rs)

Returns-insert_record :
    (row : RecordRow) (s : Store)
    → Returns (insert_record row s) (λ _ s'.
      (s'.db ≡ record s.db { records = s.db.records ++ (row ∷ []) })
      × (any (λ (r : RecordRow). same r.id row.id) s.db.records ≡ false))
unfolding insert_record
Returns-insert_record row s = Returns-continue _ _ (Returns-fail_when _ _ s) λ _ s1 (b, k).
    Returns-ok tt _ (
      ap (λ (x : Store). record x.db { records = x.db.records ++ (row ∷ []) }) k,
      any_id row s.db.records b,
    )

module _ (host : Host) where
  Returns-store_record :
      (row : RecordRow) (input : RecordInput) (s : Store)
      → Returns
          (store_record host row input s)
          (λ _ s'. IsStored row (sort input.attention) s.db s'.db)
  unfolding store_record
  Returns-store_record row input s =
      Returns-continue _ _ (Returns-insert_record row s) λ _ s1 (e1, new).
        Returns-continue _ _ (Returns-checkpoint host append_record_row s1) λ _ s2 k2.
          Returns-continue _ _ (Returns-insert_relations _ _ _ s2) λ _ s3 g3.
            Returns-continue _ _ (Returns-checkpoint host append_relations s3) λ _ s4 k4.
              Returns-weaken (Returns-address_all host _ _ (sort input.attention) s4)
                λ _ s5 (ms, are, g5).
                  let kept =
                    Grown-trans [] [] _ _ _ (Grown-trans [] [] _ _ _ (Grown-of_store s1 s2 k2) g3)
                      (Grown-of_store s3 s4 k4) in
                  let g = Grown-trans [] ms _ _ _ kept g5 in
                  record {
                    items = ms;
                    are_items = are;
                    records = g.records ∙ ap (λ (d : Db). d.records) e1;
                    keys = g.keys ∙ ap (λ (d : Db). d.idempotency_keys) e1;
                    credentials = g.credentials ∙ ap (λ (d : Db). d.credentials) e1;
                    mailbox = g.items ∙ ap (λ (d : Db). d.mailbox_items ++ ms) e1;
                    new_id = new;
                  }

  pub Returns-create_record :
      (actor space : Text) (input : RecordInput) (s : Store)
      → Returns
          (create_record host actor space input s)
          (λ r s'. IsCreated actor space input r s.db s'.db)
  unfolding create_record clock_now
  Returns-create_record actor space input s =
      Returns-continue _ _ (Returns-checkpoint host append_sequence s) λ _ s1 k1.
        Returns-continue _ _ (Returns-check_targets actor space _ input.relations s1) λ _ s2 k2.
          Returns-continue _ _ (Returns-lift _ _) λ t s3 (e3, k3).
            Returns-continue _ _ (Returns-record_id host _ s3) λ id s4 k4.
              Returns-continue _ _ (Returns-store_record _ input s4) λ _ s5 st.
                let same_db : s4.db ≡ s.db =
                  k4 ∙ ap (λ (x : Store). x.db) k3 ∙ k2 ∙ ap (λ (x : Store). x.db) k1 in
                Returns-ok _ s5
                  (record { id = id; at = t; stored = rw same_db at st; answer = refl })
