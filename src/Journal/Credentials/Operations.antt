-- ===== src/Journal/Credentials/Operations.antt =====
-- crates/journal-service/src/bootstrap.rs: what each statement on credentials, spaces and memberships
-- keeps is kept by the operations that are made of them, whether they return or raise.
use agent_journal.Prelude.{Text, Option, none}
use agent_journal.Domain.Types.{Principal}
use agent_journal.Protocol.Requests.{
  CredentialRotateRequest, PrincipalRecoveryRequest, SpaceCreateRequest, MembershipRequest,
}
use agent_journal.Journal.Schema.{
  MembershipRow, rotated, Db, CredentialRow, AuditOperation, EventRow, SpaceRow,
}
use agent_journal.Journal.Tx.{Host, write}
use agent_journal.Journal.Access.{active_principal}
use agent_journal.Journal.Preserves.{
  Preserves-transaction_of, Preserves-checkpoint, Preserves-secret, Preserves-read, Preserves,
  Preserves-continue, Preserves-pure, Preserves-lift, Preserves-some_or, Preserves-fail_when,
  Preserves-now,
}
use agent_journal.Journal.Credentials.{
  List, issued, OneTimeSecret, insert_credential, insert_audit, insert_event, issue_principal,
}
use agent_journal.Journal.Credentials.Changes.{
  replaced, expire, update_credential, revoke_once, revoke_all, rotate_in, rotate, revoke_in,
  revoke, recover_principal_in, recover_principal,
}
use agent_journal.Journal.Spaces.{insert_space, create_space, set_membership_in, set_membership}

-- What the statements keep.
pub record Statements (P : Db → Type 0) : Type 0 where
  pub insert_credential_law : (row : CredentialRow) → Preserves P (insert_credential row)
  pub insert_audit_law :
      (id : Text) (op : AuditOperation) (t : Text) (reason : Option Text)
      → Preserves P (insert_audit id op t reason)
  pub insert_event_law : (row : EventRow) → Preserves P (insert_event row)
  pub expire_law : (id : Text) (at : Option Text) → Preserves P (update_credential id (expire at))
  pub replace_law :
      (id t replacement : Text) (reason : Option Text)
      → Preserves P (update_credential id (replaced t replacement reason))
  pub revoke_once_law :
      (id t : Text) (reason revoked_at : Option Text)
      → Preserves P (revoke_once id t reason revoked_at)
  pub revoke_all_law :
      (host : Host) (principal t : Text) (reason : Option Text)
      → Preserves P (revoke_all host principal t reason)
  pub insert_space_law : (row : SpaceRow) → Preserves P (insert_space row)
  pub set_law :
      (rows : List MembershipRow → List MembershipRow)
      → Preserves P (write 1 (λ db. record db { memberships = rows db.memberships }))

module _ {P : Db → Type 0} (laws : Statements P) where
  keeps_active_principal : (selector : Text) → Preserves P (active_principal selector)
  unfolding active_principal
  keeps_active_principal selector =
      Preserves-continue _ _ Preserves-read λ db. Preserves-some_or _ _

  module _ (host : Host) where
    keeps_issue_principal : (principal t : Text) → Preserves P (issue_principal host principal t)
    unfolding issue_principal
    keeps_issue_principal principal t = Preserves-continue _ _ (Preserves-secret host) λ suffix.
        Preserves-continue _ _ (Preserves-secret host) λ token.
          Preserves-continue _ _ (laws.insert_credential_law _) λ _.
            Preserves-continue _ _ (laws.insert_audit_law _ issued t none) λ _. Preserves-pure _

    pub Preserves-rotate : (request : CredentialRotateRequest) → Preserves P (rotate host request)
    unfolding rotate rotate_in
    Preserves-rotate request = Preserves-continue _ _ (Preserves-lift _) λ _.
        Preserves-continue _ _ (Preserves-now host) λ t. Preserves-transaction_of host _ (
          Preserves-continue _ _ Preserves-read λ db.
            Preserves-continue {A = CredentialRow} _ _ (Preserves-some_or _ _) λ row.
              Preserves-continue _ _ (keeps_active_principal _) λ selected.
                Preserves-continue {A = OneTimeSecret} _ _ (keeps_issue_principal _ t)
                  λ replacement. Preserves-continue _ _ (laws.expire_law _ _) λ _.
                    Preserves-continue _ _ (Preserves-checkpoint host _) λ _.
                      Preserves-continue _ _ (laws.replace_law _ t _ _) λ _.
                        Preserves-continue _ _ (laws.insert_audit_law _ rotated t _) λ _.
                          Preserves-continue _ _ (Preserves-checkpoint host _)
                            λ _. Preserves-pure _)

    pub Preserves-revoke : (request : CredentialRotateRequest) → Preserves P (revoke host request)
    unfolding revoke revoke_in
    Preserves-revoke request = Preserves-continue _ _ (Preserves-lift _) λ _.
        Preserves-continue _ _ (Preserves-now host) λ t. Preserves-transaction_of host _ (
          Preserves-continue _ _ Preserves-read λ db.
            Preserves-continue {A = CredentialRow} _ _ (Preserves-some_or _ _) λ row.
              Preserves-continue _ _ (laws.revoke_once_law _ t _ _)
                λ _. Preserves-continue _ _ (Preserves-checkpoint host _) λ _. Preserves-pure _)

    pub Preserves-recover_principal :
        (request : PrincipalRecoveryRequest) → Preserves P (recover_principal host request)
    unfolding recover_principal recover_principal_in
    Preserves-recover_principal request = Preserves-continue _ _ (Preserves-lift _) λ _.
        Preserves-transaction_of host _ (
          Preserves-continue _ _ (Preserves-now host) λ t.
            Preserves-continue _ _ Preserves-read λ db.
              Preserves-continue {A = Principal} _ _ (Preserves-some_or _ _) λ principal.
                Preserves-continue _ _ (laws.revoke_all_law host _ t _) λ _.
                  Preserves-continue _ _ (Preserves-checkpoint host _) λ _.
                    Preserves-continue {A = OneTimeSecret} _ _ (keeps_issue_principal _ t)
                      λ replacement. Preserves-continue _ _ (Preserves-checkpoint host _) λ _.
                        Preserves-continue _ _ (Preserves-secret host) λ suffix.
                          Preserves-continue _ _ (laws.insert_event_law _) λ _. Preserves-pure _)

    pub Preserves-create_space :
        (request : SpaceCreateRequest) → Preserves P (create_space host request)
    unfolding create_space
    Preserves-create_space request = Preserves-continue _ _ (Preserves-lift _) λ _.
        Preserves-continue _ _ (Preserves-now host) λ t.
          Preserves-continue _ _ (Preserves-transaction_of host _ (laws.insert_space_law _))
            λ _. Preserves-pure _

    pub Preserves-set_membership :
        (request : MembershipRequest) → Preserves P (set_membership host request)
    unfolding set_membership set_membership_in
    Preserves-set_membership request = Preserves-continue _ _ (Preserves-lift _) λ _.
        Preserves-continue _ _ (Preserves-transaction_of host _ (keeps_active_principal _))
          λ principal.
            Preserves-continue _ _
              (Preserves-transaction_of host _ (
                Preserves-continue _ _ Preserves-read λ db.
                  Preserves-continue _ _ (Preserves-fail_when _ _)
                    λ _. Preserves-continue _ _ (Preserves-now host) λ t. laws.set_law _))
              λ _. Preserves-pure _
