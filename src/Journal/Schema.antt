-- ===== src/Journal/Schema.antt =====
-- migrations/0001_uuid_native.sql: the tables that the service reads and writes, as lists of rows in
-- the order of insertion, with the columns that the modelled statements use.
use agent_journal.Prelude.{ℕ, Text, Option, List, Bool}
use agent_journal.Domain.Types.{RelationType}

pub record PrincipalRow : Type 0 where
  pub id : Text
  pub display_name : Text
  pub created_at : Text
  pub disabled_at : Option Text
  pub description : Option Text
  pub profile_revision : ℕ

pub data NameKind : Type 0 where
  current alias : NameKind

pub record NameRow : Type 0 where
  pub name : Text
  pub principal_id : Text
  pub kind : NameKind
  pub created_at : Text

-- `class` has one value, 'principal-client', and no column here.
pub record CredentialRow : Type 0 where
  pub id : Text
  pub principal_id : Text
  pub token_hash : Text
  pub created_at : Text
  pub expires_at : Option Text
  pub revoked_at : Option Text
  pub replacement_credential_id : Option Text
  pub revocation_reason : Option Text

-- `access` has one value, 'public', and no column here.
pub record SpaceRow : Type 0 where
  pub id : Text
  pub name : Text
  pub created_at : Text
  pub archived_at : Option Text

pub record RecordRow : Type 0 where
  pub id : Text
  pub space_id : Text
  pub space_seq : ℕ
  pub author_principal_id : Text
  pub kind : Text
  pub content : Text
  pub run_id : Option Text
  pub routing_key : Option Text
  pub title : Option Text
  pub created_at : Text

pub record RelationRow : Type 0 where
  pub source_record_id : Text
  pub relation_type : RelationType
  pub target_record_id : Text
  pub position : ℕ

pub record AttentionRow : Type 0 where
  pub record_id : Text
  pub recipient_principal_id : Text

pub record SequenceRow : Type 0 where
  pub recipient_principal_id : Text
  pub last_seq : ℕ

pub record MailboxRow : Type 0 where
  pub id : Text
  pub record_id : Text
  pub recipient_principal_id : Text
  pub created_at : Text
  pub recipient_seq : ℕ
  pub acknowledged_at : Option Text

-- `method` is always 'POST', and no column here.
pub record IdempotencyRow : Type 0 where
  pub principal_id : Text
  pub path : Text
  pub idempotency_key : Text
  pub payload_hash : Text
  pub record_id : Text
  pub response_json : Text

pub data AuditOperation : Type 0 where
  issued rotated revoked recovered : AuditOperation

pub record AuditRow : Type 0 where
  pub credential_id : Text
  pub operation : AuditOperation
  pub occurred_at : Text
  pub reason : Option Text

pub record EventRow : Type 0 where
  pub id : Text
  pub event_type : Text
  pub actor_principal_id : Option Text
  pub subject_type : Text
  pub subject_id : Text
  pub detail_json : Text
  pub created_at : Text

pub record ReceiptRow : Type 0 where
  pub token_hash : Text
  pub credential_id : Text
  pub principal_id : Text
  pub request_json : Text
  pub response_json : Text
  pub created_at : Text

pub record MembershipRow : Type 0 where
  pub space_id : Text
  pub principal_id : Text
  pub can_read : Bool
  pub can_append : Bool
  pub can_admin : Bool
  pub created_at : Text

pub record ProfileKeyRow : Type 0 where
  pub principal_id : Text
  pub idempotency_key : Text
  pub payload_hash : Text
  pub response_json : Text
  pub created_at : Text

pub record Db : Type 0 where
  pub principals : List PrincipalRow
  pub principal_names : List NameRow
  pub credentials : List CredentialRow
  pub spaces : List SpaceRow
  pub records : List RecordRow
  pub record_relations : List RelationRow
  pub attention : List AttentionRow
  pub inbox_sequences : List SequenceRow
  pub mailbox_items : List MailboxRow
  pub idempotency_keys : List IdempotencyRow
  pub cursor_secret : Option (List ℕ)
  pub inbox_epoch : ℕ
  pub credential_audit : List AuditRow
  pub audit_events : List EventRow
  pub registration_receipts : List ReceiptRow
  pub memberships : List MembershipRow
  pub profile_idempotency_keys : List ProfileKeyRow
