-- ===== src/Journal/Lists.antt =====
-- crates/journal-service/src/records.rs and inbox.rs: who reads, `get_record`, `get_space` and the
-- pages of spaces, of principals and of an item's deliveries, in the order of their ids.
mod Examples
pub mod Records
pub mod Created
use agent_journal.Prelude.{
  ℕ, ◌+◌, Text, Option, none, some, List, [], ◌∷◌, Bool, true, false, not, ◌||◌, ◌&&◌,
  if◌then◌else◌, is_none, is_some, any, find, filter, map, take, same, text_lt, map_err, Result, ok,
  err,
}
use agent_journal.Domain.Types.{Record, Space, Principal, default_limits, public_access}
use agent_journal.Domain.Validate.{validate_identifier}
use agent_journal.Protocol.Cursor.{
  CursorCodec, CursorScope, CursorRoute, at_identifier, identifier, principals, spaces,
  record_delivery_status, new_scope,
}
use agent_journal.Protocol.Pages.{Page, PageQuery, effective_limit, validate_page_query}
use agent_journal.Protocol.Requests.{
  ReceiptSummary, receipt_acknowledged, receipt_unacknowledged, ListPrincipalsQuery,
  validate_list_principals, validate_wire_identifier,
}
use agent_journal.Journal.Schema.{Db, SpaceRow, PrincipalRow, NameRow, RecordRow, MailboxRow}
use agent_journal.Journal.Tx.{
  Host, Tx, ◌>>=◌, ◌>>◌, pure, lift, some_or, fail_when, read_db, invalid, invalid_journal,
  not_found, sqlite, transaction, read,
}
use agent_journal.Journal.Access.{
  journal_actor, cursor_codec, new_or_corrupt, permitted, active_principal,
}
use agent_journal.Journal.Records.{find_record}
use agent_journal.Journal.Pages.{finish_page, identifier_position}
use agent_journal.Journal.Principals.{is_current_of, to_principal}

pub data ReadIdentity : Type 0 where
  bearer : (token : Text) → ReadIdentity
  configured_viewer : (principal : Text) → ReadIdentity

-- `ORDER BY id`, of what a key gives
module _ {ℓ} {A : Type ℓ} (key : A → Text) where
  unfoldable pub insert_by_key : A → List A → List A
  insert_by_key x [] = x ∷ []
  insert_by_key x (y ∷ ys) =
      let rest = insert_by_key x ys in if text_lt (key y) (key x) then y ∷ rest else x ∷ y ∷ ys

  unfoldable pub sort_by_key : List A → List A
  sort_by_key [] = []
  sort_by_key (x ∷ xs) = insert_by_key x (sort_by_key xs)

  -- `id>? ORDER BY id`
  unfoldable pub after_key : Text → List A → List A
  after_key after xs = sort_by_key (filter (λ x. text_lt after (key x)) xs)

abbrev pub to_space : SpaceRow → Space
to_space s = record {
  id = s.id;
  name = s.name;
  access = public_access;
  archived_at = s.archived_at;
  created_at = s.created_at;
  limits = default_limits;
}

unfoldable pub find_space : Db → Text → Option SpaceRow
find_space db id = find (λ (s : SpaceRow). same s.id id) db.spaces

-- `space`
unfoldable pub space_with_id : Text → Tx Space
space_with_id id = do db ← read_db; row ← some_or (find_space db id) sqlite; pure (to_space row)

unfoldable pub spaces_with_ids : List SpaceRow → Tx (List Space)
spaces_with_ids [] = pure []
spaces_with_ids (row ∷ rows) = do
  s ← space_with_id row.id
  rest ← spaces_with_ids rows
  pure (s ∷ rest)

abbrev joined : PrincipalRow → Option NameRow → List Principal → List Principal
joined p none rest = rest
joined p (some n) rest = record (to_principal p n) { disabled = false } ∷ rest

-- Each active principal with its current name.
unfoldable pub join_names : List NameRow → List PrincipalRow → List Principal
join_names names [] = []
join_names names (p ∷ ps) =
    let rest = join_names names ps in
    if is_none p.disabled_at then joined p (find (is_current_of p.id) names) rest else rest

abbrev to_receipt : MailboxRow → ReceiptSummary
to_receipt m = record {
  inbox_item_id = m.id;
  recipient = m.recipient_principal_id;
  state = if is_some m.acknowledged_at then receipt_acknowledged else receipt_unacknowledged;
  created_at = m.created_at;
  acknowledged_at = m.acknowledged_at;
}

abbrev pub is_addressed : Db → Text → Text → Bool
is_addressed db id actor =
    any (λ (m : MailboxRow). same m.record_id id && same m.recipient_principal_id actor)
      db.mailbox_items

-- The items of a record that the author, or else their recipient, sees.
unfoldable pub visible_items : Text → Text → Bool → List MailboxRow → List MailboxRow
visible_items id actor is_author items =
    filter
      (λ (m : MailboxRow).
        same m.record_id id && (is_author || same m.recipient_principal_id actor))
      items

module _ (host : Host) where
  -- `read_actor`
  unfoldable pub read_actor : ReadIdentity → Tx Text
  read_actor (bearer token) = journal_actor host token
  read_actor (configured_viewer principal) = do
    lift (map_err (validate_identifier "viewer" principal) (λ _. invalid_journal))
    active_principal principal

  abbrev paged_codec : ReadIdentity → Option (List ℕ) → Tx CursorCodec
  paged_codec identity (some secret) = new_or_corrupt host secret
  paged_codec identity none = transaction host (do actor ← read_actor identity; cursor_codec host)

  -- `read_paged`
  unfoldable pub read_paged : {A : Type 0} → ReadIdentity → (CursorCodec → Tx A) → Tx A
  read_paged identity operation = do
    db ← read_db
    codec ← paged_codec identity db.cursor_secret
    read host (operation codec)

  unfoldable pub get_record_in : ReadIdentity → Text → Tx Record
  get_record_in identity id = do
    actor ← read_actor identity
    db ← read_db
    row ← some_or (find_record db id) not_found
    permitted actor row.space_id false
    agent_journal.Journal.Records.get_record id

  -- `get_record_as`
  unfoldable pub get_record_as : ReadIdentity → Text → Tx Record
  get_record_as identity id = read host (get_record_in identity id)

  unfoldable pub get_space_in : Text → Text → Tx Space
  get_space_in token id = do
    actor ← journal_actor host token
    permitted actor id false
    space_with_id id

  -- `get_space`
  unfoldable pub get_space : Text → Text → Tx Space
  get_space token id = read host (get_space_in token id)

  unfoldable pub spaces_page : ReadIdentity → PageQuery → CursorCodec → Tx (Page Space)
  spaces_page identity query codec = do
    actor ← read_actor identity
    filters ← some_or (host.actor_filters actor) invalid_journal
    let scope = new_scope host.cursor_lib spaces filters identifier
    after ← lift (identifier_position host codec scope query)
    db ← read_db
    items ←
        spaces_with_ids
          (take (effective_limit query + 1) (after_key (λ (s : SpaceRow). s.id) after db.spaces))
    lift (finish_page host items query codec scope (λ (s : Space). at_identifier s.id))

  -- `list_spaces_as`
  unfoldable pub list_spaces : ReadIdentity → PageQuery → Tx (Page Space)
  list_spaces identity query = do
    lift (map_err (validate_page_query query) invalid)
    read_paged identity (spaces_page identity query)

  unfoldable pub principals_page : Text → ListPrincipalsQuery → CursorCodec → Tx (Page Principal)
  principals_page token query codec = do
    actor ← journal_actor host token
    permitted actor query.space false
    filters ← some_or (host.pair_filters actor query.space) invalid_journal
    let scope = new_scope host.cursor_lib principals filters identifier
    after ← lift (identifier_position host codec scope query.page)
    db ← read_db
    let items =
        take (effective_limit query.page + 1)
          (after_key (λ (p : Principal). p.id) after (join_names db.principal_names db.principals))
    lift (finish_page host items query.page codec scope (λ (p : Principal). at_identifier p.id))

  -- `list_principals`
  unfoldable pub list_principals : Text → ListPrincipalsQuery → Tx (Page Principal)
  list_principals token query = do
    lift (map_err (validate_list_principals query) invalid)
    read_paged (bearer token) (principals_page token query)

  unfoldable pub deliveries_in : ReadIdentity → Text → PageQuery → Tx (Page ReceiptSummary)
  deliveries_in identity id query = do
    actor ← read_actor identity
    db ← read_db
    row ← some_or (find_record db id) not_found
    permitted actor row.space_id false
    let is_author = same row.author_principal_id actor
    fail_when (not is_author && not (is_addressed db id actor)) not_found
    secret ← some_or db.cursor_secret sqlite
    codec ← new_or_corrupt host secret
    filters ← some_or (host.pair_filters actor id) invalid_journal
    let scope = new_scope host.cursor_lib record_delivery_status filters identifier
    after ← lift (identifier_position host codec scope query)
    let items = take (effective_limit query + 1) (
        after_key (λ (m : MailboxRow). m.id) after
          (visible_items id actor is_author db.mailbox_items))
    lift (
        finish_page host (map to_receipt items) query codec scope
          (λ (r : ReceiptSummary). at_identifier r.inbox_item_id))

  -- `delivery_status_as`
  unfoldable pub delivery_status : ReadIdentity → Text → PageQuery → Tx (Page ReceiptSummary)
  delivery_status identity id query = do
    lift (map_err (validate_wire_identifier "record_id" id) invalid)
    lift (map_err (validate_page_query query) invalid)
    read host (deliveries_in identity id query)
