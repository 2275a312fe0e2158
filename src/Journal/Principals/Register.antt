-- ===== src/Journal/Principals/Register.antt =====
-- crates/journal-service/src/bootstrap.rs: `register`.
use agent_journal.Prelude.{
  ℕ, Text, text, Option, none, some, List, [], ◌∷◌, ◌++◌, Bool, true, false, not, ◌&&◌, ◌||◌, ◌==◌,
  leb, byte_len, utf8, is_none, all, find, same, map_err, if◌then◌else◌,
}
use agent_journal.Protocol.Requests.{
  PrincipalCreateRequest, RegistrationReceipt, validate_principal_create,
}
use agent_journal.Journal.Schema.{Db, PrincipalRow, CredentialRow, ReceiptRow, issued}
use agent_journal.Journal.Tx.{
  Host, Tx, ◌>>=◌, ◌>>◌, pure, lift, some_or, fail_when, read_db, write, invalid, invalid_journal,
  corrupt_journal, unauthorized, conflict, sqlite, now, digest, secret, checkpoint, transaction,
  registration_digest_lookup, registration_principal, registration_handle, registration_credential,
  registration_receipt,
}
use agent_journal.Journal.Access.{unexpired}
use agent_journal.Journal.Ids.{principal_id}
use agent_journal.Journal.Principals.{
  insert_principal, insert_name, new_principal_row, find_principal, principal_descriptor,
}
use agent_journal.Journal.Credentials.{insert_credential, insert_audit, new_credential}

pub record RegistrationOutcome : Type 0 where
  pub receipt : RegistrationReceipt
  pub replayed : Bool

pub record ExistingRegistration : Type 0 where
  pub principal_id : Text
  pub unrevoked : Bool
  pub unexpired : Bool
  pub stored : Option ReceiptRow

abbrev pub is_lower_hex_byte : ℕ → Bool
is_lower_hex_byte c = (leb 48 c && leb c 57) || (leb 97 c && leb c 102)

abbrev pub is_token : Text → Bool
is_token token = byte_len token == 64 && all is_lower_hex_byte (utf8 token)

unfoldable pub find_receipt : Text → Db → Option ReceiptRow
find_receipt hash db = find (λ (r : ReceiptRow). same r.token_hash hash) db.registration_receipts

unfoldable pub find_token : Text → Db → Option CredentialRow
find_token hash db = find (λ (c : CredentialRow). same c.token_hash hash) db.credentials

abbrev pub is_enabled : Option PrincipalRow → Option Bool
is_enabled none = none
is_enabled (some p) = some (is_none p.disabled_at)

unfoldable pub insert_receipt : ReceiptRow → Tx (Unit {0})
insert_receipt row = do
  db ← read_db
  fail_when
      (agent_journal.Prelude.any
        (λ (r : ReceiptRow).
          same r.token_hash row.token_hash
          || (same r.credential_id row.credential_id || same r.principal_id row.principal_id))
        db.registration_receipts)
      conflict
  write 1 (λ db. record db { registration_receipts = db.registration_receipts ++ (row ∷ []) })

module _ (host : Host) where
  abbrev existing_of : Text → Db → CredentialRow → ExistingRegistration
  existing_of t db c = record {
    principal_id = c.principal_id;
    unrevoked = is_none c.revoked_at;
    unexpired = agent_journal.Journal.Access.unexpired host t c.expires_at;
    stored = find_receipt c.token_hash db;
  }

  -- The answer to a token that has a credential: its receipt, if the request is the same.
  unfoldable pub replay_registration : Text → ExistingRegistration → Tx RegistrationOutcome
  replay_registration request_json existing = do
    db ← read_db
    active ← some_or (is_enabled (find_principal db existing.principal_id)) sqlite
    fail_when (not existing.unrevoked || (not existing.unexpired || not active)) unauthorized
    stored ← some_or existing.stored unauthorized
    fail_when (not (same stored.request_json request_json)) conflict
    receipt ← some_or (host.admin_json.decode_receipt stored.response_json) corrupt_journal
    pure (record { receipt = receipt; replayed = true })

  -- The rows of a new principal, up to its credential.
  unfoldable pub store_registration : Text → PrincipalCreateRequest → Text → Text → Tx Text
  store_registration token_hash request id t = do
    insert_principal (new_principal_row id request.display_name t)
    checkpoint host registration_principal
    insert_name request.handle id t
    checkpoint host registration_handle
    suffix ← secret host
    let credential_id = text "cred-" ++ suffix
    insert_credential (new_credential credential_id id token_hash t)
    insert_audit credential_id issued t none
    checkpoint host registration_credential
    pure credential_id

  unfoldable pub store_receipt : Text → Text → Text → Text → RegistrationReceipt → Tx (Unit {0})
  store_receipt token_hash request_json id t receipt = do
    response ← some_or (host.admin_json.receipt_json receipt) corrupt_journal
    insert_receipt (record {
      token_hash = token_hash;
      credential_id = receipt.credential_id;
      principal_id = id;
      request_json = request_json;
      response_json = response;
      created_at = t;
    })
    checkpoint host registration_receipt

  unfoldable pub new_registration :
      Text → Text → PrincipalCreateRequest → Text → Tx RegistrationOutcome
  new_registration token_hash request_json request t = do
    checkpoint host registration_digest_lookup
    id ← principal_id host
    credential_id ← store_registration token_hash request id t
    principal ← principal_descriptor id
    let receipt : RegistrationReceipt = record {
      principal = principal;
      credential_id = credential_id;
    }
    store_receipt token_hash request_json id t receipt
    pure (record { receipt = receipt; replayed = false })

  abbrev pub replay_or_register :
      Text
      → Text
      → PrincipalCreateRequest
      → Text
      → Db
      → Option CredentialRow
      → Tx RegistrationOutcome
  replay_or_register token_hash request_json request t db (some c) =
      replay_registration request_json (existing_of t db c)
  replay_or_register token_hash request_json request t db none =
      new_registration token_hash request_json request t

  unfoldable pub register_in : Text → Text → PrincipalCreateRequest → Tx RegistrationOutcome
  register_in token_hash request_json request = do
    t ← now host
    db ← read_db
    replay_or_register token_hash request_json request t db (find_token token_hash db)

  -- `register`
  unfoldable pub register : Text → PrincipalCreateRequest → Tx RegistrationOutcome
  register token request = do
    lift (map_err (validate_principal_create request) invalid)
    fail_when (not (is_token token)) invalid_journal
    request_json ← some_or (host.admin_json.request_json request) invalid_journal
    transaction host (register_in (digest host (utf8 token)) request_json request)
