-- ===== src/Protocol/Requests.antt =====
-- crates/journal-protocol/src/dto.rs: the requests of administration with their validation, and the
-- answers to them.
use agent_journal.Prelude.{
  ℕ, ◌+◌, ◌-◌, ◌^◌, String, Text, Option, none, some, List, [], ◌∷◌, Bool, true, not, ◌&&◌, ◌||◌,
  leb, ltb, ◌==◌, length, utf8, if◌then◌else◌, Result, ok, ◌>>◌, fail_if, map_err,
}
use agent_journal.Domain.Types.{Principal, SpaceAccess, Limits, RelationType}
use agent_journal.Domain.Validate.{non_empty}
use agent_journal.Protocol.Pages.{
  WireValidationError, domain, character_length, range, invalid_date_time, invalid_uuid_v7,
  PageQuery, validate_page_query,
}

abbrev pub Checked : Type 0
Checked = Result WireValidationError (Unit {0})

unfoldable pub validate_chars : String → Text → ℕ → ℕ → Checked
validate_chars field value min max =
    fail_if (not (leb min (length value) && leb (length value) max))
      (character_length field min max)

-- `validate_chars` of an optional text
abbrev pub validate_optional_chars : String → Option Text → ℕ → ℕ → Checked
validate_optional_chars field none min max = ok tt
validate_optional_chars field (some value) min max = validate_chars field value min max

-- Whether a text is a timestamp is the answer of the library jiff.
unfoldable pub validate_rfc3339 : (Text → Bool) → String → Text → Checked
validate_rfc3339 is_timestamp field value =
    fail_if (not (is_timestamp value)) (invalid_date_time field)

unfoldable pub validate_wire_identifier : String → Text → Checked
validate_wire_identifier field value =
    map_err (agent_journal.Domain.Validate.validate_identifier field value) domain

abbrev is_lower_hex : ℕ → Bool
is_lower_hex c = (leb 48 c && leb c 57) || (leb 97 c && leb c 102)

-- All the conditions on the byte at an index.
abbrev is_uuid_byte : ℕ → ℕ → Bool
is_uuid_byte index byte =
    if index == 8 || (index == 13 || (index == 18 || index == 23))
    then byte == 0x2d
    else if index == 14
    then byte == 0x37
    else if index == 19
    then byte == 0x38 || (byte == 0x39 || (byte == 0x61 || byte == 0x62))
    else is_lower_hex byte

unfoldable pub all_uuid_bytes : ℕ → List ℕ → Bool
all_uuid_bytes index [] = true
all_uuid_bytes index (byte ∷ bytes) = is_uuid_byte index byte && all_uuid_bytes (index + 1) bytes

unfoldable pub is_uuid_v7 : List ℕ → Bool
is_uuid_v7 bytes = length bytes == 36 && all_uuid_bytes 0 bytes

unfoldable pub validate_uuid_v7 : String → Text → Checked
validate_uuid_v7 field value = fail_if (not (is_uuid_v7 (utf8 value))) (invalid_uuid_v7 field)

unfoldable pub validate_optional_identifier : String → Option Text → Checked
validate_optional_identifier field value = identifier_if (non_empty value)
  where
    identifier_if : Option Text → Checked
    identifier_if none = ok tt
    identifier_if (some v) = validate_wire_identifier field v

-- `RegistrationRequest` is this type too.
pub record PrincipalCreateRequest : Type 0 where
  pub handle : Text
  pub display_name : Text

unfoldable pub validate_principal_create : PrincipalCreateRequest → Checked
validate_principal_create request = do
  validate_wire_identifier "handle" request.handle
  validate_chars "display_name" request.display_name 1 128

pub record RegistrationReceipt : Type 0 where
  pub principal : Principal
  pub credential_id : Text

pub record PrincipalRecoveryRequest : Type 0 where
  pub principal_id : Text
  pub reason : Option Text

unfoldable pub validate_principal_recovery : PrincipalRecoveryRequest → Checked
validate_principal_recovery request = do
  validate_uuid_v7 "principal_id" request.principal_id
  validate_optional_chars "reason" request.reason 0 512

pub record OneTimeSecret : Type 0 where
  pub credential_id : Text
  pub secret : Text

pub record PrincipalRecoveryResponse : Type 0 where
  pub principal : Principal
  pub replacement_secret : OneTimeSecret

-- `expected_profile_revision` is signed in the source and not below 1 after the validation; here it
-- is not negative.
pub record ProfileUpdateRequest : Type 0 where
  pub handle : Text
  pub display_name : Text
  pub description : Option Text
  pub expected_profile_revision : ℕ

unfoldable pub validate_profile_update : ProfileUpdateRequest → Checked
validate_profile_update request = do
  validate_wire_identifier "handle" request.handle
  validate_chars "display_name" request.display_name 1 128
  validate_optional_chars "description" request.description 0 512
  fail_if (ltb request.expected_profile_revision 1)
      (range "expected_profile_revision" 1 (2 ^ 63 - 1))

pub record SpaceCreateRequest : Type 0 where
  pub id : Text
  pub name : Text
  pub access : SpaceAccess

unfoldable pub validate_space_create : SpaceCreateRequest → Checked
validate_space_create request = do
  validate_wire_identifier "id" request.id
  validate_chars "name" request.name 1 128

pub record MembershipRequest : Type 0 where
  pub space_id : Text
  pub principal_id : Text
  pub can_read : Bool
  pub can_append : Bool
  pub can_admin : Bool

unfoldable pub validate_membership : MembershipRequest → Checked
validate_membership request = do
  validate_wire_identifier "space_id" request.space_id
  validate_wire_identifier "principal_id" request.principal_id

pub data CredentialClass : Type 0 where
  principal_client : CredentialClass

-- A revocation is this type too.
pub record CredentialRotateRequest : Type 0 where
  pub credential_id : Text
  pub reason : Option Text

unfoldable pub validate_credential_rotate : CredentialRotateRequest → Checked
validate_credential_rotate request = do
  validate_wire_identifier "credential_id" request.credential_id
  validate_optional_chars "reason" request.reason 0 512

pub record CredentialMetadata : Type 0 where
  pub credential_id : Text
  pub principal_id : Text
  pub class : CredentialClass
  pub rotated_at : Text
  pub replacement_credential_id : Option Text

pub record CredentialRotationResponse : Type 0 where
  pub metadata : CredentialMetadata
  pub replacement_secret : OneTimeSecret

pub record Membership : Type 0 where
  pub space_id : Text
  pub principal_id : Text
  pub can_read : Bool
  pub can_append : Bool
  pub can_admin : Bool

pub record Me : Type 0 where
  pub principal : Principal
  pub memberships : List Membership
  pub limits : Limits

pub data ReceiptState : Type 0 where
  receipt_unacknowledged receipt_acknowledged : ReceiptState

pub record ReceiptSummary : Type 0 where
  pub inbox_item_id : Text
  pub recipient : Text
  pub state : ReceiptState
  pub created_at : Text
  pub acknowledged_at : Option Text

pub record ListPrincipalsQuery : Type 0 where
  pub space : Text
  pub page : PageQuery

unfoldable pub validate_list_principals : ListPrincipalsQuery → Checked
validate_list_principals query = do
  validate_wire_identifier "space" query.space
  validate_page_query query.page

pub record ListRecordsQuery : Type 0 where
  pub page : PageQuery
  pub after_seq : Option ℕ
  pub author : Option Text
  pub attention : Option Text
  pub kind : Option Text
  pub relation : Option RelationType

unfoldable pub validate_list_records : ListRecordsQuery → Checked
validate_list_records query = do
  validate_page_query query.page
  validate_optional_identifier "author" query.author
  validate_optional_identifier "attention" query.attention
  validate_optional_identifier "kind" query.kind
