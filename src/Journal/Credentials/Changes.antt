-- ===== src/Journal/Credentials/Changes.antt =====
-- crates/journal-service/src/bootstrap.rs: `rotate`, `revoke` and `recover_principal`.
use agent_journal.Prelude.{
  Text, text, Option, none, some, ◌++◌, Bool, ◌&&◌, is_none, unwrap_or, find, filter, map, length,
  same, map_err, if◌then◌else◌,
}
use agent_journal.Protocol.Requests.{
  principal_client, CredentialRotateRequest, CredentialMetadata, CredentialRotationResponse,
  PrincipalRecoveryRequest, PrincipalRecoveryResponse, validate_credential_rotate,
  validate_principal_recovery,
}
use agent_journal.Journal.Schema.{Db, CredentialRow, AuditRow, rotated, revoked, recovered}
use agent_journal.Journal.Tx.{
  Host, Tx, ◌>>=◌, ◌>>◌, pure, lift, some_or, read_db, write, invalid, not_found, now, secret,
  checkpoint, transaction, rotation_issued, rotation_revoked, credential_revoked,
  principal_recovery_revoked, principal_recovery_issued,
}
use agent_journal.Journal.Access.{unexpired, active_principal}
use agent_journal.Journal.Principals.{find_descriptor}
use agent_journal.Journal.Credentials.{insert_audit, insert_event, issue_principal}

-- `UPDATE credentials SET … WHERE id=?`
abbrev pub update_row : Text → (CredentialRow → CredentialRow) → CredentialRow → CredentialRow
update_row id f c = if same c.id id then f c else c

unfoldable pub update_credential : Text → (CredentialRow → CredentialRow) → Tx (Unit {0})
update_credential id f =
    write 1 (λ db. record db { credentials = map (update_row id f) db.credentials })

abbrev pub expire : Option Text → CredentialRow → CredentialRow
expire at c = record c { expires_at = at }

abbrev pub replaced : Text → Text → Option Text → CredentialRow → CredentialRow
replaced t replacement reason c = record c {
  revoked_at = some t;
  replacement_credential_id = some replacement;
  revocation_reason = reason;
}

abbrev pub withdrawn : Text → Option Text → CredentialRow → CredentialRow
withdrawn t reason c = record c { revoked_at = some t; revocation_reason = reason }

abbrev pub find_credential : Db → Text → Option CredentialRow
find_credential db id = find (λ (c : CredentialRow). same c.id id) db.credentials

-- The update of a credential that is not yet revoked.
unfoldable pub revoke_once : Text → Text → Option Text → Option Text → Tx (Unit {0})
unfolding update_credential insert_audit
revoke_once id t reason none = do
  update_credential id (withdrawn t reason)
  insert_audit id revoked t reason
revoke_once id t reason (some at) = pure tt

module _ (host : Host) where
  -- The principal's credentials that can still be used.
  abbrev pub is_usable : Text → Text → CredentialRow → Bool
  is_usable principal t c =
      same c.principal_id principal && (is_none c.revoked_at && unexpired host t c.expires_at)

  unfoldable pub rotate_in : CredentialRotateRequest → Text → Tx CredentialRotationResponse
  rotate_in request t = do
    db ← read_db
    row ←
        some_or
          (find
            (λ (c : CredentialRow).
              same c.id request.credential_id
              && (is_none c.revoked_at && unexpired host t c.expires_at))
            db.credentials)
          not_found
    selected ← active_principal row.principal_id
    replacement ← issue_principal host row.principal_id t
    update_credential replacement.credential_id (expire row.expires_at)
    checkpoint host rotation_issued
    update_credential request.credential_id (replaced t replacement.credential_id request.reason)
    insert_audit request.credential_id rotated t request.reason
    checkpoint host rotation_revoked
    pure (record {
      metadata = record {
        credential_id = request.credential_id;
        principal_id = row.principal_id;
        class = principal_client;
        rotated_at = t;
        replacement_credential_id = some replacement.credential_id;
      };
      replacement_secret = replacement;
    })

  -- `rotate`
  unfoldable pub rotate : CredentialRotateRequest → Tx CredentialRotationResponse
  rotate request = do
    lift (map_err (validate_credential_rotate request) invalid)
    t ← now host
    transaction host (rotate_in request t)

  unfoldable pub revoke_in : CredentialRotateRequest → Text → Tx CredentialMetadata
  revoke_in request t = do
    db ← read_db
    row ← some_or (find_credential db request.credential_id) not_found
    revoke_once request.credential_id t request.reason row.revoked_at
    checkpoint host credential_revoked
    pure (record {
      credential_id = request.credential_id;
      principal_id = row.principal_id;
      class = principal_client;
      rotated_at = unwrap_or row.revoked_at t;
      replacement_credential_id = none;
    })

  -- `revoke`, of the request that it makes of its arguments
  unfoldable pub revoke : CredentialRotateRequest → Tx CredentialMetadata
  revoke request = do
    lift (map_err (validate_credential_rotate request) invalid)
    t ← now host
    transaction host (revoke_in request t)

  abbrev pub recovery_audit : Text → Option Text → CredentialRow → AuditRow
  recovery_audit t reason c = record {
    credential_id = c.id;
    operation = recovered;
    occurred_at = t;
    reason = reason;
  }

  abbrev pub recover_row : Text → Text → Option Text → CredentialRow → CredentialRow
  recover_row principal t reason c =
      if is_usable principal t c
      then withdrawn t (some (unwrap_or reason (text "principal recovery"))) c
      else c

  -- The principal's usable credentials are revoked, each with an entry of the audit.
  unfoldable pub revoke_all : Text → Text → Option Text → Tx (Unit {0})
  revoke_all principal t reason = do
    db ← read_db
    let usable = filter (is_usable principal t) db.credentials
    write (length usable) (λ db. record db {
      credential_audit = db.credential_audit ++ map (recovery_audit t reason) usable;
    })
    write (length usable)
        (λ db. record db { credentials = map (recover_row principal t reason) db.credentials })

  unfoldable pub recover_principal_in : PrincipalRecoveryRequest → Tx PrincipalRecoveryResponse
  recover_principal_in request = do
    t ← now host
    db ← read_db
    principal ← some_or (find_descriptor db request.principal_id) not_found
    revoke_all request.principal_id t request.reason
    checkpoint host principal_recovery_revoked
    replacement ← issue_principal host request.principal_id t
    checkpoint host principal_recovery_issued
    suffix ← secret host
    insert_event (record {
      id = text "recovery-" ++ suffix;
      event_type = text "principal-credential-recovered";
      actor_principal_id = none;
      subject_type = text "principal";
      subject_id = request.principal_id;
      detail_json = host.admin_json.recovery_detail request.reason;
      created_at = t;
    })
    pure (record { principal = principal; replacement_secret = replacement })

  -- `recover_principal`
  unfoldable pub recover_principal : PrincipalRecoveryRequest → Tx PrincipalRecoveryResponse
  recover_principal request = do
    lift (map_err (validate_principal_recovery request) invalid)
    transaction host (recover_principal_in request)
