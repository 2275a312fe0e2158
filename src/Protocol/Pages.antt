-- ===== src/Protocol/Pages.antt =====
-- crates/journal-protocol/src/dto.rs: pages, inbox items and the page query.
use agent_journal.Prelude.{
  ℕ, String, Text, Option, none, some, List, Bool, false, ltb, length, unwrap_or, Result, ◌>>◌,
  fail_if, map_err,
}
use agent_journal.Domain.Types.{Record, ValidationError}
use agent_journal.Domain.Validate.{validate_page_size}
use agent_journal.Protocol.Cursor.{max_cursor_chars}

abbrev pub default_page_size : ℕ
default_page_size = 50

abbrev pub max_inbox_wait_seconds : ℕ
max_inbox_wait_seconds = 30

pub record Page {ℓ} (A : Type ℓ) : Type ℓ where
  pub items : List A
  pub next_cursor : Option Text

pub record InboxItem : Type 0 where
  pub inbox_item_id : Text
  pub recipient : Text
  pub seq : ℕ
  pub created_at : Text
  pub acknowledged_at : Option Text
  pub of_record : Record

pub data InboxState : Type 0 where
  unacknowledged acknowledged all_items : InboxState

pub record PageQuery : Type 0 where
  pub cursor : Option Text
  pub limit : Option ℕ

pub record InboxQuery : Type 0 where
  pub state : InboxState
  pub page : PageQuery
  pub wait_seconds : ℕ

pub data WireValidationError : Type 0 where
  domain : ValidationError → WireValidationError
  character_length range : (field : String) (min max : ℕ) → WireValidationError
  invalid_date_time invalid_uuid_v7 : (field : String) → WireValidationError

-- `PageQuery::effective_limit`
unfoldable pub effective_limit : PageQuery → ℕ
effective_limit query = unwrap_or query.limit default_page_size

abbrev cursor_too_long : Option Text → Bool
cursor_too_long none = false
cursor_too_long (some cursor) = ltb max_cursor_chars (length cursor)

-- `PageQuery::validate`
unfoldable pub validate_page_query : PageQuery → Result WireValidationError (Unit {0})
validate_page_query query = do
  fail_if (cursor_too_long query.cursor) (character_length "cursor" 0 max_cursor_chars)
  map_err (validate_page_size (effective_limit query)) domain

-- `InboxQuery::validate`
unfoldable pub validate_inbox_query : InboxQuery → Result WireValidationError (Unit {0})
validate_inbox_query query = do
  validate_page_query query.page
  fail_if (ltb max_inbox_wait_seconds query.wait_seconds)
      (range "wait_seconds" 0 max_inbox_wait_seconds)
