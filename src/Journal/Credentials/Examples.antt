-- ===== src/Journal/Credentials/Examples.antt =====
-- The theorems of rotation and of memberships at a concrete host and a concrete database
-- (crates/journal-service/src/bootstrap.rs).
use agent_journal.Journal.Credentials.Revoked.{has_credential_id}
use agent_journal.Prelude.{
  ◌||◌, not, subst, ◌≡◌, ◌<◌, ℕ, zero, suc, refl, Text, text, some, none, [], ◌∷◌, ◌++◌, All,
  length, take, ok, arith, any, all, find, utf8, Text-discrete, ℕ_discrete, true, false,
}
use agent_journal.Domain.Validate.{validate_identifier}
use agent_journal.Protocol.Requests.{
  CredentialRotateRequest, CredentialRotationResponse, MembershipRequest, Membership,
  principal_client, validate_wire_identifier, validate_credential_rotate, validate_membership,
}
use agent_journal.Journal.Tx.{
  Host, Store, digest, hex, transaction, now, clock_now, timestamp, secret, fill_random, checkpoint,
  lift, some_or, fail_when,
}
use agent_journal.Journal.Access.{unexpired, is_active, select_principal, active_principal}
use agent_journal.Journal.Credentials.{
  not, CredentialRow, insert_credential, insert_audit, issue_principal, authenticate,
}
use agent_journal.Journal.Credentials.Changes.{rotate, rotate_in, update_credential}
use agent_journal.Journal.Credentials.Rotated.{IsFilling}
use agent_journal.Journal.Credentials.Replacement.{rotate-authenticates}
use agent_journal.Journal.Spaces.{set_membership, set_membership_in, upsert_membership}
use agent_journal.Journal.Spaces.Rights.{view, set, rights_of, set_membership-view}
use agent_journal.Journal.Examples.{toy_host, start, zeros}

length-zeros : (n : ℕ) → length (zeros n) ≡ n
length-zeros zero = refl
length-zeros (suc n) = omega (arith, length-zeros n)

All-zeros : (n : ℕ) → All (λ b. b < 256) (zeros n)
All-zeros zero = tt
All-zeros (suc n) = (omega arith, All-zeros n)

-- A secret is 32 zeros, and the digest is the first byte.
abbrev zero_host : Host
zero_host = record toy_host {
  cursor_lib = record toy_host.cursor_lib { sha256 = λ bytes. take 1 bytes };
  fill = λ n. some (zeros 32);
}

zero_host-IsFilling : IsFilling zero_host
zero_host-IsFilling = record {
  filled = λ n bytes e.
      let z : zeros 32 ≡ bytes = cc in
      (
        subst (λ bs. length bs ≡ 32) z (length-zeros 32),
        subst (All (λ b. b < 256)) z (All-zeros 32),
      );
}

abbrev rotation : CredentialRotateRequest
rotation = record { credential_id = text "c1"; reason = none }

abbrev response : CredentialRotationResponse
response = record {
  metadata = record {
    credential_id = text "c1";
    principal_id = text "p-alice";
    class = principal_client;
    rotated_at = 48 ∷ [];
    replacement_credential_id = some (text "cred-" ++ hex (zeros 32));
  };
  replacement_secret = record {
    credential_id = text "cred-" ++ hex (zeros 32);
    secret = hex (zeros 32);
  };
}

abbrev rotated_store : Store
rotated_store = (rotate zero_host rotation start).1

rotation-ok : rotate zero_host rotation start ≡ (ok response, rotated_store)
unfolding rotate rotate_in issue_principal insert_credential insert_audit update_credential
    active_principal select_principal is_active transaction now clock_now timestamp secret
    fill_random digest hex checkpoint lift some_or fail_when validate_credential_rotate
    validate_wire_identifier validate_identifier find any utf8 Text-discrete ℕ_discrete
rotation-ok = refl

clock-ok : now zero_host rotated_store ≡ (ok (51 ∷ []), (now zero_host rotated_store).1)
unfolding rotate rotate_in issue_principal insert_credential insert_audit update_credential
    active_principal select_principal is_active transaction now clock_now timestamp secret
    fill_random digest hex checkpoint lift some_or fail_when validate_credential_rotate
    validate_wire_identifier validate_identifier find any utf8 Text-discrete ℕ_discrete
clock-ok = refl

alice-active : is_active rotated_store.db (text "p-alice") ≡ true
unfolding rotate rotate_in issue_principal insert_credential insert_audit update_credential
    active_principal select_principal is_active transaction now clock_now timestamp secret
    fill_random digest hex checkpoint lift some_or fail_when validate_credential_rotate
    validate_wire_identifier validate_identifier find any utf8 Text-discrete ℕ_discrete
alice-active = refl

none_expires :
    all
      (λ (c : CredentialRow).
        not (has_credential_id (text "c1") c) || unexpired zero_host (51 ∷ []) c.expires_at)
      start.db.credentials
    ≡ true
unfolding all Text-discrete ℕ_discrete
none_expires = refl

rotate-authenticates_example :
    authenticate zero_host (hex (zeros 32)) principal_client rotated_store ≡ (
      ok (record {
        credential_id = text "cred-" ++ hex (zeros 32);
        principal_id = text "p-alice";
        class = principal_client;
      }),
      (now zero_host rotated_store).1,
    )
rotate-authenticates_example =
    rotate-authenticates zero_host rotation response start rotated_store
      (now zero_host rotated_store).1 (51 ∷ []) zero_host-IsFilling rotation-ok clock-ok
      alice-active none_expires

abbrev rights_request : MembershipRequest
rights_request = record {
  space_id = text "s";
  principal_id = text "bob";
  can_read = true;
  can_append = false;
  can_admin = false;
}

abbrev bob_membership : Membership
bob_membership = record {
  space_id = text "s";
  principal_id = text "p-bob";
  can_read = true;
  can_append = false;
  can_admin = false;
}

membership-ok :
    set_membership toy_host rights_request start
    ≡ (ok bob_membership, (set_membership toy_host rights_request start).1)
unfolding set_membership set_membership_in upsert_membership active_principal select_principal
    is_active transaction now clock_now timestamp lift some_or fail_when validate_membership
    validate_wire_identifier validate_identifier find any Text-discrete ℕ_discrete
membership-ok = refl

set_membership-view_example :
    (select_principal start.db (text "bob") ≡ some (text "p-bob"))
    × ((space principal : Text)
        → view (set_membership toy_host rights_request start).1.db.memberships space principal
          ≡ set
              (text "s")
              (text "p-bob")
              (rights_of rights_request)
              (view start.db.memberships)
              space
              principal)
set_membership-view_example =
    set_membership-view toy_host rights_request start
      (set_membership toy_host rights_request start).1 bob_membership membership-ok
