-- ===== src/Journal/Principals/Operations.antt =====
-- crates/journal-service/src/bootstrap.rs: `create_principal`, `register` and `update_own_profile`
-- touch the credentials by one insert at most, whether they return or raise.
use agent_journal.Prelude.{◌≡◌, refl, Text, Option, none, some, Bool, true, false, arith}
use agent_journal.Domain.Types.{Principal}
use agent_journal.Protocol.Requests.{
  PrincipalCreateRequest, ProfileUpdateRequest, RegistrationReceipt,
}
use agent_journal.Journal.Schema.{
  Db, PrincipalRow, CredentialRow, ReceiptRow, ProfileKeyRow, issued,
}
use agent_journal.Journal.Tx.{Host, Store, Tx, fail_when}
use agent_journal.Journal.Preserves.{
  Preserves, Preserves-continue, Preserves-pure, Preserves-lift, Preserves-some_or,
  Preserves-fail_when, Preserves-read, Preserves-now, Preserves-secret, Preserves-checkpoint,
  Preserves-principal_id, Preserves-transaction_of,
}
use agent_journal.Journal.Principals.{
  ℕ, insert_principal, insert_name, principal_descriptor, create_principal_in, create_principal,
}
use agent_journal.Journal.Principals.Register.{
  ExistingRegistration, replay_registration, store_registration, store_receipt, insert_receipt,
  new_registration, replay_or_register, register_in, register,
}
use agent_journal.Journal.Principals.Profile.{
  rename, retire_name, update_principal, insert_profile_key, change_profile, new_profile,
  replay_profile, replay_or_update, update_profile_in, update_own_profile,
}
use agent_journal.Journal.Access.{active_principal}
use agent_journal.Journal.Credentials.{AuthenticatedCredential}
use agent_journal.Journal.Credentials.Operations.{Statements}

module _ {P : Db → Type 0}
    (frame : (before after : Db) → after.credentials ≡ before.credentials → P before → P after)
    (laws : Statements P) where
  Preserves-other :
      {A : Type 0} (m : Tx A)
      → ((s : Store) → (m s).1.db.credentials ≡ s.db.credentials)
      → Preserves P m
  Preserves-other m e = record { preserves = λ s h. frame s.db (m s).1.db (e s) h }

  keeps_insert_principal : (row : PrincipalRow) → Preserves P (insert_principal row)
  unfolding insert_principal
  keeps_insert_principal row =
      Preserves-continue _ _ Preserves-read
        λ db. Preserves-continue _ _ (Preserves-fail_when _ _) λ _. Preserves-other _ λ s. refl

  keeps_insert_name : (name principal t : Text) → Preserves P (insert_name name principal t)
  unfolding insert_name
  keeps_insert_name name principal t =
      Preserves-continue _ _ Preserves-read
        λ db. Preserves-continue _ _ (Preserves-fail_when _ _) λ _. Preserves-other _ λ s. refl

  keeps_insert_receipt : (row : ReceiptRow) → Preserves P (insert_receipt row)
  unfolding insert_receipt
  keeps_insert_receipt row =
      Preserves-continue _ _ Preserves-read
        λ db. Preserves-continue _ _ (Preserves-fail_when _ _) λ _. Preserves-other _ λ s. refl

  keeps_insert_profile_key : (row : ProfileKeyRow) → Preserves P (insert_profile_key row)
  unfolding insert_profile_key
  keeps_insert_profile_key row =
      Preserves-continue _ _ Preserves-read
        λ db. Preserves-continue _ _ (Preserves-fail_when _ _) λ _. Preserves-other _ λ s. refl

  keeps_principal_descriptor : (id : Text) → Preserves P (principal_descriptor id)
  unfolding principal_descriptor
  keeps_principal_descriptor id = Preserves-continue _ _ Preserves-read λ db. Preserves-some_or _ _

  keeps_rename :
      (unchanged : Bool) (old new principal t : Text)
      → Preserves P (rename unchanged old new principal t)
  unfolding rename retire_name
  keeps_rename true old new principal t = Preserves-pure tt
  keeps_rename false old new principal t =
      Preserves-continue _ _ (Preserves-other (retire_name old principal) λ s. refl)
        λ _. keeps_insert_name new principal t

  keeps_update_principal :
      (principal : Text) (request : ProfileUpdateRequest)
      → Preserves P (update_principal principal request)
  unfolding update_principal fail_when
  keeps_update_principal principal request =
      Preserves-other (update_principal principal request) λ s. ground arith

  module _ (host : Host) where
    pub Preserves-create_principal :
        (request : PrincipalCreateRequest) → Preserves P (create_principal host request)
    unfolding create_principal create_principal_in
    Preserves-create_principal request = Preserves-continue _ _ (Preserves-lift _) λ _.
        Preserves-continue _ _ (Preserves-now host) λ t.
          Preserves-continue _ _ (Preserves-principal_id host) λ id.
            Preserves-continue _ _
              (Preserves-transaction_of host _ (
                Preserves-continue _ _ (keeps_insert_principal _)
                  λ _. keeps_insert_name request.handle id t))
              λ _. Preserves-pure _

    keeps_replay_registration :
        (json : Text) (existing : ExistingRegistration)
        → Preserves P (replay_registration host json existing)
    unfolding replay_registration
    keeps_replay_registration json existing = Preserves-continue _ _ Preserves-read λ db.
        Preserves-continue _ _ (Preserves-some_or _ _) λ active.
          Preserves-continue _ _ (Preserves-fail_when _ _) λ _.
            Preserves-continue {A = ReceiptRow} _ _ (Preserves-some_or _ _) λ stored.
              Preserves-continue _ _ (Preserves-fail_when _ _) λ _.
                Preserves-continue {A = RegistrationReceipt} _ _ (Preserves-some_or _ _)
                  λ receipt. Preserves-pure _

    keeps_store_registration :
        (hash : Text) (request : PrincipalCreateRequest) (id t : Text)
        → Preserves P (store_registration host hash request id t)
    unfolding store_registration
    keeps_store_registration hash request id t =
        Preserves-continue _ _ (keeps_insert_principal _) λ _.
          Preserves-continue _ _ (Preserves-checkpoint host _) λ _.
            Preserves-continue _ _ (keeps_insert_name request.handle id t) λ _.
              Preserves-continue _ _ (Preserves-checkpoint host _) λ _.
                Preserves-continue _ _ (Preserves-secret host) λ suffix.
                  Preserves-continue _ _ (laws.insert_credential_law _) λ _.
                    Preserves-continue _ _ (laws.insert_audit_law _ issued t none) λ _.
                      Preserves-continue _ _ (Preserves-checkpoint host _) λ _. Preserves-pure _

    keeps_store_receipt :
        (hash json id t : Text) (receipt : RegistrationReceipt)
        → Preserves P (store_receipt host hash json id t receipt)
    unfolding store_receipt
    keeps_store_receipt hash json id t receipt =
        Preserves-continue _ _ (Preserves-some_or _ _) λ response.
          Preserves-continue _ _ (keeps_insert_receipt _) λ _. Preserves-checkpoint host _

    keeps_replay_or_register :
        (hash json : Text) (request : PrincipalCreateRequest) (t : Text) (db : Db)
        (found : Option CredentialRow)
        → Preserves P (replay_or_register host hash json request t db found)
    unfolding new_registration
    keeps_replay_or_register hash json request t db (some c) = keeps_replay_registration json _
    keeps_replay_or_register hash json request t db none =
        Preserves-continue _ _ (Preserves-checkpoint host _) λ _.
          Preserves-continue _ _ (Preserves-principal_id host) λ id.
            Preserves-continue _ _ (keeps_store_registration hash request id t) λ credential.
              Preserves-continue _ _ (keeps_principal_descriptor id) λ principal.
                Preserves-continue _ _ (keeps_store_receipt hash json id t _) λ _. Preserves-pure _

    pub Preserves-register :
        (token : Text) (request : PrincipalCreateRequest)
        → Preserves P (register host token request)
    unfolding register register_in
    Preserves-register token request = Preserves-continue _ _ (Preserves-lift _) λ _.
        Preserves-continue _ _ (Preserves-fail_when _ _) λ _.
          Preserves-continue _ _ (Preserves-some_or _ _) λ json. Preserves-transaction_of host _ (
            Preserves-continue _ _ (Preserves-now host) λ t.
              Preserves-continue _ _ Preserves-read
                λ db. keeps_replay_or_register _ json request t db _)

    keeps_change_profile :
        (principal : Text) (request : ProfileUpdateRequest) (t : Text)
        → Preserves P (change_profile host principal request t)
    unfolding change_profile
    keeps_change_profile principal request t = Preserves-continue _ _ Preserves-read λ db.
        Preserves-continue {A = Text × ℕ} _ _ (Preserves-some_or _ _) λ profile.
          Preserves-continue _ _ (Preserves-fail_when _ _) λ _.
            Preserves-continue _ _ (keeps_rename _ _ _ principal t) λ _.
              Preserves-continue _ _ (keeps_update_principal principal request) λ _.
                Preserves-continue {A = Principal} _ _ (keeps_principal_descriptor principal)
                  λ descriptor.
                    Preserves-continue _ _ (Preserves-secret host) λ suffix.
                      Preserves-continue _ _ (laws.insert_event_law _) λ _. Preserves-pure _

    keeps_replay_or_update :
        (principal key hash : Text) (request : ProfileUpdateRequest) (t : Text)
        (found : Option ProfileKeyRow)
        → Preserves P (replay_or_update host principal key hash request t found)
    unfolding replay_profile new_profile
    keeps_replay_or_update principal key hash request t (some previous) =
        Preserves-continue _ _ (Preserves-fail_when _ _) λ _. Preserves-some_or _ _
    keeps_replay_or_update principal key hash request t none =
        Preserves-continue {A = Principal} _ _ (keeps_change_profile principal request t)
          λ descriptor.
            Preserves-continue _ _ (Preserves-some_or _ _)
              λ response. Preserves-continue _ _ (keeps_insert_profile_key _) λ _. Preserves-pure _

    keeps_active_principal : (selector : Text) → Preserves P (active_principal selector)
    unfolding active_principal
    keeps_active_principal selector =
        Preserves-continue _ _ Preserves-read λ db. Preserves-some_or _ _

    pub Preserves-update_own_profile :
        (actor : AuthenticatedCredential) (key : Text) (request : ProfileUpdateRequest)
        → Preserves P (update_own_profile host actor key request)
    unfolding update_own_profile update_profile_in
    Preserves-update_own_profile actor key request = Preserves-continue _ _ (Preserves-lift _) λ _.
        Preserves-continue _ _ (Preserves-fail_when _ _) λ _.
          Preserves-continue _ _ (Preserves-some_or _ _) λ json. Preserves-transaction_of host _ (
            Preserves-continue _ _ (Preserves-now host) λ t.
              Preserves-continue _ _ (keeps_active_principal _) λ selected.
                Preserves-continue _ _ Preserves-read λ db.
                  Preserves-continue _ _ (Preserves-fail_when _ _)
                    λ _. keeps_replay_or_update actor.principal_id key _ request t _)
