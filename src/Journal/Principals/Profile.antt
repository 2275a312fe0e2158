-- ===== src/Journal/Principals/Profile.antt =====
-- crates/journal-service/src/bootstrap.rs: `update_own_profile`. A revision is not bounded here.
use agent_journal.Prelude.{
  ℕ, ◌+◌, Text, text, Option, none, some, [], ◌∷◌, ◌++◌, Bool, true, false, not, ◌&&◌, ◌==◌, leb,
  length, utf8, is_none, any, find, filter, map, same, map_err, if◌then◌else◌,
}
use agent_journal.Domain.Types.{Principal}
use agent_journal.Domain.Title.{is_control}
use agent_journal.Protocol.Requests.{ProfileUpdateRequest, validate_profile_update}
use agent_journal.Journal.Schema.{Db, PrincipalRow, NameRow, alias, ProfileKeyRow}
use agent_journal.Journal.Tx.{
  Host, Tx, ◌>>=◌, ◌>>◌, pure, lift, some_or, fail_when, read_db, write, invalid, invalid_journal,
  corrupt_journal, unauthorized, conflict, sqlite, idempotency_conflict, now, digest, secret,
  transaction,
}
use agent_journal.Journal.Access.{active_principal}
use agent_journal.Journal.Principals.{
  insert_name, is_current_of, find_principal, principal_descriptor,
}
use agent_journal.Journal.Credentials.{AuthenticatedCredential, is_own_valid, insert_event}

abbrev pub is_key : Text → Bool
is_key key = (leb 1 (length key) && leb (length key) 255) && not (any is_control key)

-- `UPDATE principal_names SET kind='alias' WHERE name=? AND principal_id=? AND kind='current'`
abbrev pub retire : Text → Text → NameRow → NameRow
retire name principal n =
    if same n.name name && is_current_of principal n then record n { kind = alias } else n

unfoldable pub retire_name : Text → Text → Tx (Unit {0})
retire_name name principal =
    write 1 (λ db. record db { principal_names = map (retire name principal) db.principal_names })

-- A rename retires the current handle before it publishes the next one.
unfoldable pub rename : Bool → Text → Text → Text → Text → Tx (Unit {0})
unfolding retire_name insert_name
rename true old new principal t = pure tt
rename false old new principal t = do retire_name old principal; insert_name new principal t

abbrev pub is_edited : Text → ℕ → PrincipalRow → Bool
is_edited principal revision p =
    same p.id principal && (is_none p.disabled_at && p.profile_revision == revision)

abbrev pub edit : Text → ProfileUpdateRequest → PrincipalRow → PrincipalRow
edit principal request p =
    if is_edited principal request.expected_profile_revision p
    then record p {
      display_name = request.display_name;
      description = request.description;
      profile_revision = p.profile_revision + 1;
    }
    else p

unfoldable pub update_principal : Text → ProfileUpdateRequest → Tx (Unit {0})
update_principal principal request = do
  db ← read_db
  let changed =
      length (filter (is_edited principal request.expected_profile_revision) db.principals)
  write changed (λ db. record db { principals = map (edit principal request) db.principals })
  fail_when (not (changed == 1)) conflict

unfoldable pub insert_profile_key : ProfileKeyRow → Tx (Unit {0})
insert_profile_key row = do
  db ← read_db
  fail_when
      (any
        (λ (k : ProfileKeyRow).
          same k.principal_id row.principal_id && same k.idempotency_key row.idempotency_key)
        db.profile_idempotency_keys)
      conflict
  write 1 (λ db. record db { profile_idempotency_keys = db.profile_idempotency_keys ++ (row ∷ []) })

unfoldable pub find_profile_key : Text → Text → Db → Option ProfileKeyRow
find_profile_key principal key db =
    find (λ (k : ProfileKeyRow). same k.principal_id principal && same k.idempotency_key key)
      db.profile_idempotency_keys

-- The current handle of a principal that exists, and the principal's revision.
abbrev handle_and_revision : Option NameRow → Option PrincipalRow → Option (Text × ℕ)
handle_and_revision none p = none
handle_and_revision (some n) none = none
handle_and_revision (some n) (some p) = some (n.name, p.profile_revision)

unfoldable pub current_profile : Text → Db → Option (Text × ℕ)
current_profile principal db =
    handle_and_revision (find (is_current_of principal) db.principal_names)
      (find_principal db principal)

module _ (host : Host) where
  unfoldable pub replay_profile : Text → ProfileKeyRow → Tx Principal
  replay_profile hash previous = do
    fail_when (not (same previous.payload_hash hash)) idempotency_conflict
    some_or (host.admin_json.decode_principal previous.response_json) corrupt_journal

  -- The change of the tables, and its entry in the audit.
  unfoldable pub change_profile : Text → ProfileUpdateRequest → Text → Tx Principal
  change_profile principal request t = do
    db ← read_db
    profile ← some_or (current_profile principal db) sqlite
    fail_when (not (profile.1 == request.expected_profile_revision)) conflict
    rename (same profile.0 request.handle) profile.0 request.handle principal t
    update_principal principal request
    descriptor ← principal_descriptor principal
    suffix ← secret host
    insert_event (record {
      id = text "profile-" ++ suffix;
      event_type = text "principal-profile-updated";
      actor_principal_id = some principal;
      subject_type = text "principal";
      subject_id = principal;
      detail_json =
          host.admin_json.profile_detail profile.0 descriptor.handle profile.1
            descriptor.profile_revision;
      created_at = t;
    })
    pure descriptor

  unfoldable pub new_profile : Text → Text → Text → ProfileUpdateRequest → Text → Tx Principal
  new_profile principal key hash request t = do
    descriptor ← change_profile principal request t
    response ← some_or (host.admin_json.principal_json descriptor) corrupt_journal
    insert_profile_key (record {
      principal_id = principal;
      idempotency_key = key;
      payload_hash = hash;
      response_json = response;
      created_at = t;
    })
    pure descriptor

  abbrev pub replay_or_update :
      Text → Text → Text → ProfileUpdateRequest → Text → Option ProfileKeyRow → Tx Principal
  replay_or_update principal key hash request t (some previous) = replay_profile hash previous
  replay_or_update principal key hash request t none = new_profile principal key hash request t

  unfoldable pub update_profile_in :
      AuthenticatedCredential → Text → Text → ProfileUpdateRequest → Tx Principal
  update_profile_in actor key hash request = do
    t ← now host
    selected ← active_principal actor.principal_id
    db ← read_db
    fail_when (not (is_own_valid host actor t db)) unauthorized
    replay_or_update actor.principal_id key hash request t
        (find_profile_key actor.principal_id key db)

  -- `update_own_profile`
  unfoldable pub update_own_profile :
      AuthenticatedCredential → Text → ProfileUpdateRequest → Tx Principal
  update_own_profile actor key request = do
    lift (map_err (validate_profile_update request) invalid)
    fail_when (not (is_key key)) unauthorized
    json ← some_or (host.admin_json.profile_json request) invalid_journal
    transaction host (update_profile_in actor key (digest host (utf8 json)) request)
