-- ===== src/Journal/Credentials/Frame.antt =====
-- crates/journal-service/src/bootstrap.rs: the operations on credentials and spaces leave the tables
-- of principals and of names alone, so that what is said of these two alone is kept.
use agent_journal.Prelude.{refl, Text, Option, none, some}
use agent_journal.Journal.Schema.{revoked, Db, CredentialRow, AuditOperation, EventRow, SpaceRow}
use agent_journal.Journal.Tx.{Host, Store, Tx}
use agent_journal.Journal.Preserves.{
  Preserves-read, Preserves, Preserves-continue, Preserves-pure, Preserves-fail_when,
}
use agent_journal.Journal.Principals.Effects.{SameNames}
use agent_journal.Journal.Credentials.{insert_credential, insert_audit, insert_event}
use agent_journal.Journal.Credentials.Changes.{
  replaced, expire, update_credential, revoke_once, revoke_all,
}
use agent_journal.Journal.Spaces.{insert_space}
use agent_journal.Journal.Credentials.Operations.{Statements}

module _ {P : Db → Type 0}
    (frame : (before after : Db) → SameNames before after → P before → P after) where
  Preserves-same :
      {A : Type 0} (m : Tx A) → ((s : Store) → SameNames s.db (m s).1.db) → Preserves P m
  Preserves-same m e = record { preserves = λ s h. frame s.db (m s).1.db (e s) h }

  keeps_insert_credential : (row : CredentialRow) → Preserves P (insert_credential row)
  unfolding insert_credential
  keeps_insert_credential row = Preserves-continue _ _ Preserves-read λ db.
      Preserves-continue _ _ (Preserves-fail_when _ _)
        λ _. Preserves-same _ λ d. record { principals = refl; names = refl }

  keeps_insert_audit :
      (id : Text) (op : AuditOperation) (t : Text) (reason : Option Text)
      → Preserves P (insert_audit id op t reason)
  unfolding insert_audit
  keeps_insert_audit id op t reason =
      Preserves-same _ λ d. record { principals = refl; names = refl }

  keeps_insert_event : (row : EventRow) → Preserves P (insert_event row)
  unfolding insert_event
  keeps_insert_event row = Preserves-continue _ _ Preserves-read λ db.
      Preserves-continue _ _ (Preserves-fail_when _ _)
        λ _. Preserves-same _ λ d. record { principals = refl; names = refl }

  keeps_update_credential :
      (id : Text) (f : CredentialRow → CredentialRow) → Preserves P (update_credential id f)
  unfolding update_credential
  keeps_update_credential id f = Preserves-same _ λ d. record { principals = refl; names = refl }

  keeps_revoke_once :
      (id t : Text) (reason revoked_at : Option Text)
      → Preserves P (revoke_once id t reason revoked_at)
  unfolding revoke_once
  keeps_revoke_once id t reason none =
      Preserves-continue _ _ (keeps_update_credential id _)
        λ _. keeps_insert_audit id revoked t reason
  keeps_revoke_once id t reason (some at) = Preserves-pure tt

  keeps_insert_space : (row : SpaceRow) → Preserves P (insert_space row)
  unfolding insert_space
  keeps_insert_space row = Preserves-continue _ _ Preserves-read λ db.
      Preserves-continue _ _ (Preserves-fail_when _ _)
        λ _. Preserves-same _ λ d. record { principals = refl; names = refl }

  keeps_revoke_all :
      (host : Host) (principal t : Text) (reason : Option Text)
      → Preserves P (revoke_all host principal t reason)
  unfolding revoke_all
  keeps_revoke_all host principal t reason =
      Preserves-same (revoke_all host principal t reason)
        λ s. record { principals = refl; names = refl }

  pub frame_statements : Statements P
  frame_statements = record {
    insert_credential_law = keeps_insert_credential;
    insert_audit_law = keeps_insert_audit;
    insert_event_law = keeps_insert_event;
    expire_law = λ id at. keeps_update_credential id (expire at);
    replace_law =
        λ id t replacement reason. keeps_update_credential id (replaced t replacement reason);
    revoke_once_law = keeps_revoke_once;
    revoke_all_law = keeps_revoke_all;
    insert_space_law = keeps_insert_space;
    set_law = λ rows. Preserves-same _ λ d. record { principals = refl; names = refl };
  }
