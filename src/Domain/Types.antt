-- ===== src/Domain/Types.antt =====
-- crates/journal-domain/src/lib.rs: the limits, the data types and the validation errors.
use agent_journal.Prelude.{ℕ, ◌*◌, Text, String, Option, List, Bool}

abbrev pub max_content_bytes : ℕ
max_content_bytes = 64 * 1024

abbrev pub max_relations : ℕ
max_relations = 32

abbrev pub max_attention_recipients : ℕ
max_attention_recipients = 16

abbrev pub max_page_size : ℕ
max_page_size = 100

abbrev pub max_identifier_chars : ℕ
max_identifier_chars = 128

abbrev pub max_title_chars : ℕ
max_title_chars = 200

pub data RelationType : Type 0 where
  reply_to supersedes tombstones refers_to acknowledges : RelationType

pub RelationType-discrete : Discrete RelationType
RelationType-discrete = hlevel

pub record Relation : Type 0 where
  pub relation_type : RelationType
  pub record_id : Text

pub record RecordInput : Type 0 where
  pub kind : Text
  pub content : Text
  pub run_id : Option Text
  pub attention : List Text
  pub routing_key : Option Text
  pub relations : List Relation
  pub title : Option Text

pub record Record : Type 0 where
  pub id : Text
  pub space_id : Text
  pub seq : ℕ
  pub author : Text
  pub kind : Text
  pub content : Text
  pub run_id : Option Text
  pub created_at : Text
  pub attention : List Text
  pub routing_key : Option Text
  pub relations : List Relation
  pub title : Option Text

pub record AppendResult : Type 0 where
  pub appended : Record
  pub mailbox_created : ℕ
  pub replayed : Bool

-- The error text's parameters; a field name is a constant of the program.
pub data ValidationError : Type 0 where
  invalid_identifier : String → ValidationError
  empty_content : ValidationError
  content_too_large : ℕ → ValidationError
  too_many_relations : ℕ → ValidationError
  too_many_attention : ℕ → ValidationError
  duplicate_attention : Text → ValidationError
  multiple_reply_to : RelationType → ValidationError
  invalid_page_size : ℕ → ValidationError
  invalid_title title_control_characters : ValidationError

pub record Principal : Type 0 where
  pub id : Text
  pub handle : Text
  pub display_name : Text
  pub description : Option Text
  pub profile_revision : ℕ
  pub created_at : Text
  pub disabled : Bool

pub data SpaceAccess : Type 0 where
  public_access : SpaceAccess

pub record Limits : Type 0 where
  pub content_bytes : ℕ
  pub relations : ℕ
  pub attention_recipients : ℕ
  pub page_size : ℕ

abbrev pub default_limits : Limits
default_limits = record {
  content_bytes = max_content_bytes;
  relations = max_relations;
  attention_recipients = max_attention_recipients;
  page_size = max_page_size;
}

pub record Space : Type 0 where
  pub id : Text
  pub name : Text
  pub access : SpaceAccess
  pub archived_at : Option Text
  pub created_at : Text
  pub limits : Limits
