-- ===== src/Journal/Credentials.antt =====
-- crates/journal-service/src/bootstrap.rs: credentials, the statements that write them and the
-- audit, and `authenticate`, `authenticate_append_replay`, `issue_principal`.
pub mod Changes
pub mod Operations
pub mod Frame
pub mod Revoked
pub mod Keyed
pub mod Rotated
mod Examples
pub mod Replacement
use agent_journal.Prelude.{
  ℕ, Text, text, Option, none, some, List, [], ◌∷◌, ◌++◌, Bool, true, false, not, ◌&&◌, ◌||◌, ◌==◌,
  byte_len, utf8, is_none, any, find, same,
}
use agent_journal.Protocol.Requests.{CredentialClass, principal_client, OneTimeSecret}
use agent_journal.Journal.Schema.{Db, CredentialRow, AuditRow, AuditOperation, issued, EventRow}
use agent_journal.Journal.Tx.{
  Host, Tx, ◌>>=◌, ◌>>◌, pure, some_or, fail_when, read_db, write, unauthorized, conflict, now,
  digest, secret,
}
use agent_journal.Journal.Access.{is_active, is_valid, unexpired}

pub record AuthenticatedCredential : Type 0 where
  pub credential_id : Text
  pub principal_id : Text
  pub class : CredentialClass

unfoldable pub insert_credential : CredentialRow → Tx (Unit {0})
insert_credential row = do
  db ← read_db
  fail_when
      (any (λ (c : CredentialRow). same c.id row.id || same c.token_hash row.token_hash)
        db.credentials)
      conflict
  write 1 (λ db. record db { credentials = db.credentials ++ (row ∷ []) })

unfoldable pub insert_audit : Text → AuditOperation → Text → Option Text → Tx (Unit {0})
insert_audit credential operation t reason =
    let row : AuditRow = record {
      credential_id = credential;
      operation = operation;
      occurred_at = t;
      reason = reason;
    } in
    write 1 (λ db. record db { credential_audit = db.credential_audit ++ (row ∷ []) })

unfoldable pub insert_event : EventRow → Tx (Unit {0})
insert_event row = do
  db ← read_db
  fail_when (any (λ (e : EventRow). same e.id row.id) db.audit_events) conflict
  write 1 (λ db. record db { audit_events = db.audit_events ++ (row ∷ []) })

abbrev pub new_credential : Text → Text → Text → Text → CredentialRow
new_credential id principal token_hash t = record {
  id = id;
  principal_id = principal;
  token_hash = token_hash;
  created_at = t;
  expires_at = none;
  revoked_at = none;
  replacement_credential_id = none;
  revocation_reason = none;
}

module _ (host : Host) where
  unfoldable pub find_authentic : Text → Text → Db → Option CredentialRow
  find_authentic hash t db =
      find (λ (c : CredentialRow). is_valid host hash t c && is_active db c.principal_id)
        db.credentials

  -- `authenticate`
  unfoldable pub authenticate : Text → CredentialClass → Tx AuthenticatedCredential
  authenticate token class = do
    fail_when (not (byte_len token == 64)) unauthorized
    db ← read_db
    t ← now host
    c ← some_or (find_authentic (digest host (utf8 token)) t db) unauthorized
    pure (record { credential_id = c.id; principal_id = c.principal_id; class = class })

  -- `authenticate_append_replay`: the principal may be disabled.
  unfoldable pub authenticate_append_replay : Text → Tx AuthenticatedCredential
  authenticate_append_replay token = do
    fail_when (not (byte_len token == 64)) unauthorized
    db ← read_db
    t ← now host
    c ← some_or (find (is_valid host (digest host (utf8 token)) t) db.credentials) unauthorized
    pure (record { credential_id = c.id; principal_id = c.principal_id; class = principal_client })

  -- The caller's credential is still that of its principal, not revoked and not expired.
  unfoldable pub is_own_valid : AuthenticatedCredential → Text → Db → Bool
  is_own_valid actor t db =
      any
        (λ (c : CredentialRow).
          same c.id actor.credential_id
          && (same c.principal_id actor.principal_id
              && (is_none c.revoked_at && unexpired host t c.expires_at)))
        db.credentials

  -- `issue_principal`
  unfoldable pub issue_principal : Text → Text → Tx OneTimeSecret
  issue_principal principal t = do
    suffix ← secret host
    token ← secret host
    let credential_id = text "cred-" ++ suffix
    insert_credential (new_credential credential_id principal (digest host (utf8 token)) t)
    insert_audit credential_id issued t none
    pure (record { credential_id = credential_id; secret = token })
