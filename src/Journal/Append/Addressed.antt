-- ===== src/Journal/Append/Addressed.antt =====
-- The rows that an append writes for its relations and recipients
-- (crates/journal-service/src/records.rs, `append_record`).
use mathlib.Core.List.{append-nil}
use agent_journal.Prelude.{sym, none, ℕ, ◌+◌, ◌≡◌, refl, ap, Text, List, [], ◌∷◌}
use agent_journal.Domain.Types.{Relation}
use agent_journal.Journal.Schema.{Db, RelationRow, AttentionRow, MailboxRow}
use agent_journal.Journal.Tx.{append_attention, append_inbox_sequence, append_mailbox, Host, Store}
use agent_journal.Journal.Inserts.{bump, insert_relations, insert_attention, insert_mailbox}
use agent_journal.Journal.Append.{address, address_all}
use agent_journal.Journal.Returns.{
  Returns, Returns-continue, Returns-ok, Returns-weaken, Returns-some_or, Returns-fail_when,
  Returns-checkpoint,
}
use agent_journal.Journal.Append.Frames.{
  Grown, Grown-refl, Grown-of_eq, Grown-trans, Returns-secret,
}

pub Returns-insert_attention :
    (row : AttentionRow) (s : Store)
    → Returns (insert_attention row s) (λ _ s'. Grown [] s.db s'.db)
unfolding insert_attention
Returns-insert_attention row s = Returns-continue _ _ (Returns-fail_when _ _ s) λ _ s1 (b, k).
    Returns-ok tt _ (
      rw k (record {
        records = refl;
        keys = refl;
        credentials = refl;
        items = sym (append-nil s.db.mailbox_items);
      }))

pub Returns-insert_mailbox :
    (row : MailboxRow) (s : Store)
    → Returns (insert_mailbox row s) (λ _ s'. Grown (row ∷ []) s.db s'.db)
unfolding insert_mailbox
Returns-insert_mailbox row s = Returns-continue _ _ (Returns-fail_when _ _ s) λ _ s1 (b, k).
    Returns-ok tt _
      (rw k (record { records = refl; keys = refl; credentials = refl; items = refl }))

-- Equal stores have grown by nothing.
pub Grown-of_store : (s s' : Store) → s' ≡ s → Grown [] s.db s'.db
Grown-of_store s s' e = Grown-of_eq s.db s'.db (ap (λ (x : Store). x.db) e)

pub Grown-relations :
    (rows : List RelationRow) (db : Db) → Grown [] db (record db { record_relations = rows })
Grown-relations rows db = record {
  records = refl;
  keys = refl;
  credentials = refl;
  items = sym (append-nil db.mailbox_items);
}

pub Returns-insert_relations :
    (id : Text) (position : ℕ) (relations : List Relation) (s : Store)
    → Returns (insert_relations id position relations s) (λ _ s'. Grown [] s.db s'.db)
unfolding insert_relations
Returns-insert_relations id position [] s = Returns-ok tt s (Grown-refl s.db)
Returns-insert_relations id position (r ∷ rs) s =
    Returns-continue _ _ (Returns-fail_when _ _ s) λ _ s1 (b, k).
      Returns-weaken (Returns-insert_relations id (position + 1) rs _) λ _ s2 g.
        Grown-trans [] [] _ _ _ (Grown-of_store s s1 k)
          (Grown-trans [] [] _ _ _ (Grown-relations _ s1.db) g)

pub Grown-bump :
    (recipient : Text) (db : Db)
    → Grown [] db (record db { inbox_sequences = bump recipient db.inbox_sequences })
Grown-bump recipient db = record {
  records = refl;
  keys = refl;
  credentials = refl;
  items = sym (append-nil db.mailbox_items);
}

-- An item that tells a recipient of a record, and is not acknowledged
pub record IsItem (id created recipient : Text) (m : MailboxRow) : Type 0 where
  pub of_record : m.record_id ≡ id
  pub to : m.recipient_principal_id ≡ recipient
  pub created_at : m.created_at ≡ created
  pub unread : m.acknowledged_at ≡ none

abbrev pub AreItems : Text → Text → List Text → List MailboxRow → Type 0
AreItems id created [] [] = Unit
AreItems id created (r ∷ rs) (m ∷ ms) = IsItem id created r m × AreItems id created rs ms
AreItems id created _ _ = ⊥

module _ (host : Host) where
  pub Returns-address :
      (id created recipient : Text) (s : Store)
      → Returns
          (address host id created recipient s)
          (λ _ s'. (m : MailboxRow) × IsItem id created recipient m × Grown (m ∷ []) s.db s'.db)
  unfolding address
  Returns-address id created recipient s =
      Returns-continue _ _ (Returns-insert_attention _ s) λ _ s1 g1.
        Returns-continue _ _ (Returns-checkpoint host append_attention s1) λ _ s2 k2.
          Returns-continue _ _ (Returns-some_or _ _ _) λ seq s3 (e3, k3).
            Returns-continue _ _ (Returns-checkpoint host append_inbox_sequence s3) λ _ s4 k4.
              Returns-continue _ _ (Returns-secret host s4) λ item s5 k5.
                Returns-continue _ _ (Returns-insert_mailbox _ s5) λ _ s6 g6.
                  Returns-weaken (Returns-checkpoint host append_mailbox s6) λ _ s7 k7.
                    let bumped =
                      Grown-trans [] [] _ _ _ (Grown-of_store s1 s2 k2)
                        (Grown-bump recipient s2.db) in
                    let read =
                      Grown-trans [] [] _ _ _ (Grown-of_store _ s3 k3) (Grown-of_store s3 s4 k4) in
                    let before =
                      Grown-trans [] [] _ _ _ (Grown-trans [] [] _ _ _ g1 bumped)
                        (Grown-trans [] [] _ _ _ read (Grown-of_eq s4.db s5.db k5)) in
                    (
                      _,
                      record { of_record = refl; to = refl; created_at = refl; unread = refl },
                      Grown-trans _ [] _ _ _ (Grown-trans [] _ _ _ _ before g6)
                          (Grown-of_store s6 s7 k7),
                    )

  pub Returns-address_all :
      (id created : Text) (recipients : List Text) (s : Store)
      → Returns
          (address_all host id created recipients s)
          (λ _ s'. (ms : List MailboxRow) × AreItems id created recipients ms × Grown ms s.db s'.db)
  unfolding address_all
  Returns-address_all id created [] s = Returns-ok tt s ([], tt, Grown-refl s.db)
  Returns-address_all id created (r ∷ rs) s =
      Returns-continue _ _ (Returns-address id created r s) λ _ s1 (m, is_item, g1).
        Returns-weaken (Returns-address_all id created rs s1) λ _ s2 (ms, are_items, g2).
          (m ∷ ms, (is_item, are_items), Grown-trans (m ∷ []) ms _ _ _ g1 g2)
