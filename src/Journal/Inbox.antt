-- ===== src/Journal/Inbox.antt =====
-- crates/journal-service/src/inbox.rs: the inbox of a principal, and its acknowledgments.
pub mod Acknowledged
pub mod Ascending
pub mod Paging
use agent_journal.Prelude.{
  ℕ, ◌+◌, ◌≡◌, Text, Option, none, some, List, [], ◌∷◌, Bool, true, false, not, ◌||◌, ◌&&◌, ltb,
  leb, max, ◌==◌, if◌then◌else◌, length, take, any, find, filter, is_empty, is_some, is_none, same,
  map_err, Result, ok, err,
}
use agent_journal.Domain.Validate.{validate_identifier}
use agent_journal.Protocol.Cursor.{
  CursorCodec, CursorScope, CursorPosition, at_bounded, inbox, bounded_sequence, new_scope,
}
use agent_journal.Protocol.Pages.{
  Page, InboxItem, InboxState, unacknowledged, acknowledged, all_items, InboxQuery, effective_limit,
  validate_inbox_query, domain,
}
use agent_journal.Journal.Schema.{Db, RecordRow, SpaceRow, MailboxRow}
use agent_journal.Journal.Tx.{
  BootstrapError, invalid, invalid_journal, corrupt_journal, not_found, inbox_acknowledged, Host,
  Tx, ◌>>=◌, ◌>>◌, pure, lift, raise, some_or, fail_when, read_db, write, now, checkpoint, read,
  transaction,
}
use agent_journal.Journal.Access.{journal_actor, new_or_corrupt, permitted}
use agent_journal.Journal.Records.{get_record}
use agent_journal.Journal.Pages.{i64_max, given_cursor, finish_page, position_of}

-- `coalesce(max(recipient_seq),0)`
unfoldable pub max_recipient_seq : Text → List MailboxRow → ℕ
max_recipient_seq actor [] = 0
max_recipient_seq actor (m ∷ ms) =
    let rest = max_recipient_seq actor ms in
    if same m.recipient_principal_id actor then max m.recipient_seq rest else rest

-- The condition on `acknowledged_at` of a state.
unfoldable pub in_state : InboxState → MailboxRow → Bool
in_state unacknowledged m = is_none m.acknowledged_at
in_state acknowledged m = is_some m.acknowledged_at
in_state all_items m = true

-- `ORDER BY m.recipient_seq`
unfoldable pub insert_by_recipient_seq : MailboxRow → List MailboxRow → List MailboxRow
insert_by_recipient_seq x [] = x ∷ []
insert_by_recipient_seq x (y ∷ ys) =
    let rest = insert_by_recipient_seq x ys in
    if ltb y.recipient_seq x.recipient_seq then y ∷ rest else x ∷ y ∷ ys

unfoldable pub sort_by_recipient_seq : List MailboxRow → List MailboxRow
sort_by_recipient_seq [] = []
sort_by_recipient_seq (x ∷ xs) = insert_by_recipient_seq x (sort_by_recipient_seq xs)

abbrev has_space : Db → Option RecordRow → Bool
has_space db none = false
has_space db (some r) = any (λ (s : SpaceRow). same s.id r.space_id) db.spaces

-- The item's record is there, and so is its space.
abbrev pub is_joined : Db → MailboxRow → Bool
is_joined db m = has_space db (find (λ (r : RecordRow). same r.id m.record_id) db.records)

-- The rows of the query, in their order, before its LIMIT.
unfoldable pub select_items : Db → Text → InboxState → ℕ → ℕ → List MailboxRow
select_items db actor state after upper = sort_by_recipient_seq (
    filter
      (λ (m : MailboxRow).
        (same m.recipient_principal_id actor && (in_state state m && is_joined db m))
        && (ltb after m.recipient_seq && leb m.recipient_seq upper))
      db.mailbox_items)

-- Each item with its record.
unfoldable pub load_items : Text → List MailboxRow → Tx (List InboxItem)
load_items actor [] = pure []
load_items actor (m ∷ ms) = do
  r ← get_record m.record_id
  items ← load_items actor ms
  pure (
      record {
        inbox_item_id = m.id;
        recipient = actor;
        seq = m.recipient_seq;
        created_at = m.created_at;
        acknowledged_at = m.acknowledged_at;
        of_record = r;
      }
      ∷ items)

-- `SET acknowledged_at=? WHERE id=? AND acknowledged_at IS NULL`
abbrev pub is_due : Text → MailboxRow → Bool
is_due item m = same m.id item && is_none m.acknowledged_at

unfoldable pub acknowledge_row : Text → Text → List MailboxRow → List MailboxRow
acknowledge_row item t [] = []
acknowledge_row item t (m ∷ ms) =
    let rest = acknowledge_row item t ms in
    (if is_due item m then record m { acknowledged_at = some t } else m) ∷ rest

module _ (host : Host) where
  -- The range of a page: after the cursor, up to the bound of the first page.
  abbrev range_of : Result BootstrapError CursorPosition → Result BootstrapError (ℕ × ℕ)
  range_of (ok (at_bounded seq upper)) =
      if leb seq upper && leb upper i64_max then ok (seq, upper) else err invalid_journal
  range_of (ok _) = err invalid_journal
  range_of (err e) = err e

  unfoldable pub page_range :
      Db → Text → CursorCodec → CursorScope → InboxQuery → Result BootstrapError (ℕ × ℕ)
  page_range db actor codec scope query = elim (given_cursor query.page) [
    | none ↦ ok (0, max_recipient_seq actor db.mailbox_items)
    | some cursor ↦ range_of (position_of host codec scope cursor)
  ]

  unfoldable pub inbox_page : Text → CursorScope → InboxQuery → List ℕ → Tx (Page InboxItem)
  inbox_page actor scope query secret = do
    codec ← new_or_corrupt host secret
    db ← read_db
    (after, upper) ← lift (page_range db actor codec scope query)
    items ←
        load_items actor
          (take (effective_limit query.page + 1) (select_items db actor query.state after upper))
    lift (
        finish_page host items query.page codec scope
          (λ (item : InboxItem). at_bounded item.seq upper))

  -- Without a cursor key nothing has been appended.
  abbrev no_items : Db → InboxQuery → Tx (Page InboxItem)
  no_items db query = do
    fail_when (is_some (given_cursor query.page)) invalid_journal
    fail_when (ltb 0 (length db.mailbox_items)) corrupt_journal
    pure (record { items = []; next_cursor = none })

  abbrev keyed : Db → Text → CursorScope → InboxQuery → Option (List ℕ) → Tx (Page InboxItem)
  keyed db actor scope query none = no_items db query
  keyed db actor scope query (some secret) = inbox_page actor scope query secret

  unfoldable pub inbox_in : Text → InboxQuery → Tx (Page InboxItem)
  inbox_in token query = do
    actor ← journal_actor host token
    db ← read_db
    filters ← some_or (host.inbox_filters actor query.state db.inbox_epoch) invalid_journal
    keyed db actor (new_scope host.cursor_lib inbox filters bounded_sequence) query db.cursor_secret

  -- `inbox`
  unfoldable pub get_inbox : Text → InboxQuery → Tx (Page InboxItem)
  get_inbox token query = do
    lift (map_err (validate_inbox_query query) invalid)
    read host (inbox_in token query)

  abbrev pub record_space : Db → Option MailboxRow → Option RecordRow
  record_space db none = none
  record_space db (some m) = find (λ (r : RecordRow). same r.id m.record_id) db.records

  unfoldable pub acknowledge_in : Text → Text → Tx (Unit {0})
  acknowledge_in token item = do
    actor ← journal_actor host token
    db ← read_db
    r ←
        some_or
          (record_space db (
            find (λ (m : MailboxRow). same m.id item && same m.recipient_principal_id actor)
              db.mailbox_items))
          not_found
    permitted actor r.space_id false
    t ← now host
    write (length (filter (is_due item) db.mailbox_items))
        (λ db. record db { mailbox_items = acknowledge_row item t db.mailbox_items })
    checkpoint host inbox_acknowledged

  -- `acknowledge_inbox_item`
  unfoldable pub acknowledge_inbox_item : Text → Text → Tx (Unit {0})
  acknowledge_inbox_item token item = do
    lift (map_err (map_err (validate_identifier "item_id" item) domain) invalid)
    transaction host (acknowledge_in token item)
