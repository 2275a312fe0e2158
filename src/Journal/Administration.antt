-- ===== src/Journal/Administration.antt =====
-- crates/journal-service/src/bootstrap.rs: the public operations that change principals, names,
-- credentials, spaces or memberships, as the steps of the service's store, whether they return or raise.
pub mod Names
pub mod Selectors
pub mod Kept
mod Examples
pub mod Revoked
use agent_journal.Prelude.{Text}
use agent_journal.Protocol.Requests.{
  PrincipalCreateRequest, ProfileUpdateRequest, CredentialRotateRequest, PrincipalRecoveryRequest,
  SpaceCreateRequest, MembershipRequest,
}
use agent_journal.Journal.Tx.{Host, Store}
use agent_journal.Journal.Principals.{create_principal}
use agent_journal.Journal.Principals.Register.{register}
use agent_journal.Journal.Principals.Profile.{update_own_profile}
use agent_journal.Journal.Credentials.{AuthenticatedCredential}
use agent_journal.Journal.Credentials.Changes.{rotate, revoke, recover_principal}
use agent_journal.Journal.Spaces.{create_space, set_membership}

pub data Step (host : Host) : Store → Store → Type 0 where
  creates :
      {s : Store} (request : PrincipalCreateRequest)
      → Step host s (create_principal host request s).1
  registers :
      {s : Store} (token : Text) (request : PrincipalCreateRequest)
      → Step host s (register host token request s).1
  updates :
      {s : Store} (actor : AuthenticatedCredential) (key : Text) (request : ProfileUpdateRequest)
      → Step host s (update_own_profile host actor key request s).1
  rotates : {s : Store} (request : CredentialRotateRequest) → Step host s (rotate host request s).1
  revokes : {s : Store} (request : CredentialRotateRequest) → Step host s (revoke host request s).1
  recovers :
      {s : Store} (request : PrincipalRecoveryRequest)
      → Step host s (recover_principal host request s).1
  opens : {s : Store} (request : SpaceCreateRequest) → Step host s (create_space host request s).1
  joins : {s : Store} (request : MembershipRequest) → Step host s (set_membership host request s).1

pub data Steps (host : Host) : Store → Store → Type 0 where
  done : {s : Store} → Steps host s s
  after : {s t u : Store} → Step host s t → Steps host t u → Steps host s u
