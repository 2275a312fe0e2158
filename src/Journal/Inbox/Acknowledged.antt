-- ===== src/Journal/Inbox/Acknowledged.antt =====
-- An acknowledgment marks one item, once (crates/journal-service/src/inbox.rs,
-- `acknowledge_inbox_item`).
use agent_journal.Prelude.{
  ◌≡◌, ◌≢◌, refl, sym, subst, Mem, Option, find, find-eq-some, find-Mem, ◌&&◌, none, some,
  if◌then◌else◌, same, same_iff, ap, ◌∙◌, Text, List, [], ◌∷◌, false, ok, arith,
}
use agent_journal.Journal.Schema.{Db, MailboxRow, RecordRow}
use agent_journal.Journal.Tx.{inbox_acknowledged, Host, Store}
use agent_journal.Journal.Access.{journal_actor}
use agent_journal.Journal.Returns.{
  Returns-with_value, Returns-transaction, Returns-lift, Returns-weaken, Returns-some_or, Returns,
  Returns-continue, Returns-journal_actor, Returns-now, Returns-checkpoint, Returns-permitted,
}
use agent_journal.Journal.Inbox.{
  record_space, is_due, acknowledge_row, acknowledge_in, acknowledge_inbox_item,
}

-- What an acknowledgment at a time makes of one item: it is marked if it has the id and was not
-- acknowledged, and is kept otherwise.
pub record IsMarkedRow (item at : Text) (m m' : MailboxRow) : Type 0 where
  pub marked : m.id ≡ item → m.acknowledged_at ≡ none → m' ≡ record m { acknowledged_at = some at }
  pub other : m.id ≢ item → m' ≡ m
  pub earlier : (t : Text) → m.acknowledged_at ≡ some t → m' ≡ m

abbrev pub AreMarked : Text → Text → List MailboxRow → List MailboxRow → Type 0
AreMarked item at [] [] = Unit
AreMarked item at (m ∷ ms) (m' ∷ ms') = IsMarkedRow item at m m' × AreMarked item at ms ms'
AreMarked item at _ _ = ⊥

is_due-IsMarkedRow :
    (item at : Text) (m : MailboxRow)
    → IsMarkedRow item at m (if is_due item m then record m { acknowledged_at = some at } else m)
is_due-IsMarkedRow item at m = record {
  marked = λ e f. ground (arith, (same_iff m.id item).1 e, f);
  other = λ n. ground (arith, (same_iff m.id item).0, n);
  earlier = λ t e. ground (arith, e);
}

acknowledge_row-AreMarked :
    (item at : Text) (ms : List MailboxRow) → AreMarked item at ms (acknowledge_row item at ms)
unfolding acknowledge_row
acknowledge_row-AreMarked item at [] = tt
acknowledge_row-AreMarked item at (m ∷ ms) =
    (is_due-IsMarkedRow item at m, acknowledge_row-AreMarked item at ms)

-- A second acknowledgment finds nothing to mark.
acknowledge_row_idem :
    (item t t' : Text) (ms : List MailboxRow)
    → acknowledge_row item t' (acknowledge_row item t ms) ≡ acknowledge_row item t ms
unfolding acknowledge_row
acknowledge_row_idem item t t' [] = refl
acknowledge_row_idem item t t' (m ∷ ms) = ground (arith, acknowledge_row_idem item t t' ms)

-- The only change of a database: an item is marked at a time.
record IsMarked (item : Text) (before after : Db) : Type 0 where
  pub at : Text
  pub only : after ≡ record before { mailbox_items = acknowledge_row item at before.mailbox_items }

marked_again :
    (item t t' : Text) (before after : Db)
    → after ≡ record before { mailbox_items = acknowledge_row item t before.mailbox_items }
    → record after { mailbox_items = acknowledge_row item t' after.mailbox_items } ≡ after
marked_again item t t' before after e = rw e (
    ap (λ (ms : List MailboxRow). record before { mailbox_items = ms })
      (acknowledge_row_idem item t t' before.mailbox_items))

module _ (host : Host) where
  -- The row that the look-up of an item's record starts from
  record_space-some :
      (db : Db) (x : Option MailboxRow) (r : RecordRow)
      → record_space host db x ≡ some r
      → (m : MailboxRow) × (x ≡ some m)
  record_space-some db none r h = absurd (cc)
  record_space-some db (some m) r h = (m, refl)

  -- The caller's item is marked, at one time, and nothing else is changed.
  pub record IsAcknowledged (token item : Text) (s : Store) (after : Db) : Type 0 where
    pub actor : Text
    pub at : Text
    pub item_row : MailboxRow
    pub caller : (journal_actor host token s).0 ≡ ok actor
    pub found : Mem item_row s.db.mailbox_items
    pub with_id : item_row.id ≡ item
    pub own : item_row.recipient_principal_id ≡ actor
    pub marked : AreMarked item at s.db.mailbox_items after.mailbox_items
    pub rest : after ≡ record s.db { mailbox_items = after.mailbox_items }

  -- The mark is made, and the item is the caller's.
  abbrev HasAcknowledged : Text → Text → Store → Db → Type 0
  HasAcknowledged token item s after =
      IsMarked item s.db after
      × (actor : Text) × ((journal_actor host token s).0 ≡ ok actor)
      × (item_row : MailboxRow) × (find
            (λ (m : MailboxRow). same m.id item && same m.recipient_principal_id actor)
            s.db.mailbox_items
          ≡ some item_row)

  acknowledge_in-HasAcknowledged :
      (token item : Text) (s : Store)
      → Returns (acknowledge_in host token item s) (λ _ s'. HasAcknowledged token item s s'.db)
  unfolding acknowledge_in
  acknowledge_in-HasAcknowledged token item s =
      Returns-continue _ _ (Returns-with_value (Returns-journal_actor host token s))
        λ actor s1 (v1, k1).
          Returns-continue {A = RecordRow} _ _ (Returns-some_or _ _ s1) λ r s2 (found, k2).
            Returns-continue _ _ (Returns-permitted actor r.space_id false s2) λ _ s3 k3.
              Returns-continue _ _ (Returns-now host s3) λ t s4 k4.
                Returns-weaken (Returns-checkpoint host inbox_acknowledged _) λ _ s5 k5.
                  let (item_row, is_found) = rw k1 at (record_space-some s1.db _ r found) in
                  (
                    record {
                      at = t;
                      only =
                          ap (λ (x : Store). x.db) k5
                          ∙ ap
                              (λ (d : Db). record d {
                                mailbox_items = acknowledge_row item t d.mailbox_items;
                              })
                              (k4 ∙ k3 ∙ ap (λ (x : Store). x.db) k2 ∙ k1);
                    },
                    actor,
                    v1,
                    item_row,
                    is_found,
                  )

  acknowledge_inbox_item-HasAcknowledged :
      (token item : Text) (s : Store)
      → Returns
          (acknowledge_inbox_item host token item s)
          (λ _ s'. HasAcknowledged token item s s'.db)
  unfolding acknowledge_inbox_item
  acknowledge_inbox_item-HasAcknowledged token item s =
      Returns-continue _ _ (Returns-lift _ s) λ _ s1 (valid, k). rw k (
        Returns-transaction host (acknowledge_in host token item) s
          (acknowledge_in-HasAcknowledged token item s))

  acknowledge_inbox_item-IsMarked :
      (token item : Text) (s s' : Store)
      → acknowledge_inbox_item host token item s ≡ (ok tt, s')
      → IsMarked item s.db s'.db
  acknowledge_inbox_item-IsMarked token item s s' h =
      ((acknowledge_inbox_item-HasAcknowledged token item s).returns tt s' h).0

  -- An acknowledgment that returns was of an item of the caller's own inbox. It marks the items with
  -- this id that were not acknowledged yet, with one time, keeps every item that has another id or was
  -- acknowledged before, time included, and changes no other table.
  pub acknowledge_inbox_item-ok :
      (token item : Text) (s s' : Store)
      → acknowledge_inbox_item host token item s ≡ (ok tt, s')
      → IsAcknowledged token item s s'.db
  acknowledge_inbox_item-ok token item s s' h =
      let (mark, actor, caller, item_row, found) =
        (acknowledge_inbox_item-HasAcknowledged token item s).returns tt s' h in
      let is_own = find-eq-some _ s.db.mailbox_items item_row found in
      let items : s'.db.mailbox_items ≡ acknowledge_row item mark.at s.db.mailbox_items =
        ap (λ (d : Db). d.mailbox_items) mark.only in
      record {
        actor = actor;
        at = mark.at;
        item_row = item_row;
        caller = caller;
        found = find-Mem _ s.db.mailbox_items item_row found;
        with_id = (same_iff item_row.id item).0 (ground (arith, is_own));
        own = (same_iff item_row.recipient_principal_id actor).0 (ground (arith, is_own));
        marked =
            subst (AreMarked item mark.at s.db.mailbox_items) (sym items)
              (acknowledge_row-AreMarked item mark.at s.db.mailbox_items);
        rest =
            mark.only
            ∙ ap (λ (ms : List MailboxRow). record s.db { mailbox_items = ms }) (sym items);
      }

  -- Of two acknowledgments of an item that return, one after the other and by whatever tokens, the
  -- second leaves the database as the first made it, the time of the acknowledgment included.
  pub acknowledge_inbox_item_idem :
      (token token' item : Text) (s s' s'' : Store)
      → acknowledge_inbox_item host token item s ≡ (ok tt, s')
      → acknowledge_inbox_item host token' item s' ≡ (ok tt, s'')
      → s''.db ≡ s'.db
  acknowledge_inbox_item_idem token token' item s s' s'' h h' =
      let first = acknowledge_inbox_item-IsMarked token item s s' h in
      let second = acknowledge_inbox_item-IsMarked token' item s' s'' h' in
      second.only ∙ marked_again item first.at second.at s.db s'.db first.only
