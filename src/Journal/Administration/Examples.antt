-- ===== src/Journal/Administration/Examples.antt =====
-- The theorems of administration at a concrete host, from an empty database
-- (crates/journal-service/src/bootstrap.rs).
use agent_journal.Prelude.{
  false, ◌≡◌, ◌≢◌, refl, Text, text, none, some, [], ◌∷◌, take, ok, arith, any, count, find, filter,
  utf8, byte_len, Text-discrete, ℕ_discrete,
}
use agent_journal.Domain.Types.{public_access}
use agent_journal.Domain.Title.{is_control}
use agent_journal.Domain.Validate.{validate_identifier}
use agent_journal.Journal.Spaces.{insert_space, create_space}
use agent_journal.Protocol.Requests.{
  validate_space_create, PrincipalCreateRequest, ProfileUpdateRequest, CredentialRotateRequest,
  CredentialMetadata, principal_client, validate_wire_identifier, validate_chars,
  validate_credential_rotate, validate_profile_update,
}
use agent_journal.Journal.Schema.{CredentialRow}
use agent_journal.Journal.Tx.{
  Host, Store, digest, hex, transaction, now, clock_now, timestamp, secret, fill_random, checkpoint,
  lift, some_or, fail_when,
}
use agent_journal.Journal.Access.{is_active, is_valid, select_principal, active_principal}
use agent_journal.Journal.Principals.{
  insert_name, is_current, principal_descriptor, find_descriptor,
}
use agent_journal.Journal.Principals.Names.{IsNamed}
use agent_journal.Journal.Principals.Register.{register}
use agent_journal.Journal.Principals.Profile.{
  update_own_profile, update_profile_in, new_profile, change_profile, rename, retire_name,
  update_principal, insert_profile_key, find_profile_key, current_profile,
}
use agent_journal.Journal.Credentials.{
  AuthenticatedCredential, insert_audit, insert_event, authenticate, find_authentic, is_own_valid,
}
use agent_journal.Journal.Credentials.Changes.{revoke, revoke_in, revoke_once, update_credential}
use agent_journal.Journal.Credentials.Keyed.{IsKeyed}
use agent_journal.Journal.Administration.{opens, SpaceCreateRequest, Steps, registers, done, after}
use agent_journal.Journal.Administration.Names.{Steps-IsNamed}
use agent_journal.Journal.Administration.Revoked.{revoke-never_authenticates}
use agent_journal.Journal.Administration.Selectors.{update_own_profile-selects}
use agent_journal.Journal.Examples.{alice_credential, toy_host, empty_db, start}

-- The digest is the first byte, and a secret has one byte.
abbrev admin_host : Host
admin_host = record toy_host {
  cursor_lib = record toy_host.cursor_lib { sha256 = λ bytes. take 1 bytes };
  fill = λ n. some (n ∷ []);
}

abbrev blank : Store
blank = record start {
  db = record empty_db { principals = []; principal_names = []; credentials = []; spaces = [] };
}

blank-IsNamed : IsNamed blank.db
unfolding count any
blank-IsNamed = record {
  id_once = λ x. omega arith;
  name_once = λ x. omega arith;
  unshadowed = λ x k. absurd (cc);
  one_current = λ x k. absurd (cc);
}

blank-IsKeyed : IsKeyed blank.db
unfolding count
blank-IsKeyed = record { id_once = λ x. omega arith; hash_once = λ x. omega arith }

abbrev alice_request : PrincipalCreateRequest
alice_request = record { handle = text "alice"; display_name = text "Alice" }

abbrev bob_request : PrincipalCreateRequest
bob_request = record { handle = text "bob"; display_name = text "Bob" }

abbrev alice_token : Text
alice_token = text "aaaaaaaaaaaaaaaaaaaaaaaaaaaaaaaaaaaaaaaaaaaaaaaaaaaaaaaaaaaaaaaa"

abbrev bob_token : Text
bob_token = text "bbbbbbbbbbbbbbbbbbbbbbbbbbbbbbbbbbbbbbbbbbbbbbbbbbbbbbbbbbbbbbbb"

abbrev with_alice : Store
with_alice = (register admin_host alice_token alice_request blank).1

abbrev with_both : Store
with_both = (register admin_host bob_token bob_request with_alice).1

two_registrations : Steps admin_host blank with_both
two_registrations =
    after (registers alice_token alice_request) (after (registers bob_token bob_request) done)

Steps-IsNamed_example : IsNamed with_both.db
Steps-IsNamed_example = Steps-IsNamed admin_host blank with_both two_registrations blank-IsNamed

abbrev bob_credential : CredentialRow
bob_credential = record alice_credential {
  id = text "c2";
  principal_id = text "p-bob";
  token_hash = text "62";
}

abbrev two_credentials : Store
two_credentials = record start {
  db = record empty_db { credentials = alice_credential ∷ bob_credential ∷ [] };
}

two_credentials-IsKeyed : IsKeyed two_credentials.db
unfolding count
two_credentials-IsKeyed = record { id_once = λ x. ground arith; hash_once = λ x. ground arith }

abbrev revocation : CredentialRotateRequest
revocation = record { credential_id = text "c1"; reason = none }

abbrev metadata : CredentialMetadata
metadata = record {
  credential_id = text "c1";
  principal_id = text "p-alice";
  class = principal_client;
  rotated_at = 48 ∷ [];
  replacement_credential_id = none;
}

abbrev revoked_store : Store
revoked_store = (revoke admin_host revocation two_credentials).1

revocation-ok : revoke admin_host revocation two_credentials ≡ (ok metadata, revoked_store)
unfolding revoke revoke_in revoke_once update_credential insert_audit transaction now clock_now
    timestamp checkpoint lift some_or fail_when validate_credential_rotate validate_wire_identifier
    validate_identifier find Text-discrete ℕ_discrete
revocation-ok = refl

abbrev bob : AuthenticatedCredential
bob = record { credential_id = text "c2"; principal_id = text "p-bob"; class = principal_client }

abbrev space_request : SpaceCreateRequest
space_request = record { id = text "general"; name = text "General"; access = public_access }

abbrev later_store : Store
later_store = (create_space admin_host space_request revoked_store).1

bob-ok :
    authenticate admin_host bob_token principal_client later_store
    ≡ (ok bob, (authenticate admin_host bob_token principal_client later_store).1)
unfolding authenticate find_authentic is_valid is_active create_space insert_space revoke revoke_in
    revoke_once update_credential insert_audit transaction now clock_now timestamp checkpoint lift
    some_or fail_when digest hex utf8 byte_len validate_credential_rotate validate_space_create
    validate_wire_identifier validate_chars validate_identifier find any Text-discrete ℕ_discrete
bob-ok = refl

revoke-never_authenticates_example : text "c2" ≢ text "c1"
revoke-never_authenticates_example =
    revoke-never_authenticates admin_host revocation metadata two_credentials revoked_store
      later_store (authenticate admin_host bob_token principal_client later_store).1 bob_token
      principal_client bob two_credentials-IsKeyed revocation-ok (after (opens space_request) done)
      bob-ok

abbrev renaming : ProfileUpdateRequest
renaming = record {
  handle = text "robert";
  display_name = text "Robert";
  description = none;
  expected_profile_revision = 1;
}

bob-before : select_principal two_credentials.db (text "bob") ≡ some (text "p-bob")
unfolding select_principal is_active find any Text-discrete ℕ_discrete
bob-before = refl

update_own_profile-selects_example :
    select_principal
      (update_own_profile admin_host bob (text "k") renaming two_credentials).1.db
      (text "bob")
    ≡ some (text "p-bob")
update_own_profile-selects_example =
    update_own_profile-selects admin_host bob (text "k") renaming two_credentials (text "bob")
      (text "p-bob") bob-before

-- The rename returns, and has both names.
test_rename :
    (update_own_profile admin_host bob (text "k") renaming two_credentials).0
    ≡ ok (record {
      id = text "p-bob";
      handle = text "robert";
      display_name = text "Robert";
      description = none;
      profile_revision = 2;
      created_at = text "0";
      disabled = false;
    })
unfolding update_own_profile update_profile_in new_profile change_profile rename retire_name
    update_principal insert_profile_key find_profile_key current_profile insert_name is_current
    insert_event is_own_valid active_principal select_principal is_active principal_descriptor
    find_descriptor is_control transaction now clock_now timestamp secret fill_random hex digest
    utf8 lift some_or fail_when validate_profile_update validate_wire_identifier validate_chars
    validate_identifier find any filter Text-discrete ℕ_discrete
test_rename = refl
