-- ===== src/Journal/Principals.antt =====
-- crates/journal-service/src/bootstrap.rs: principals and their names, the statements that write
-- them with the constraints of migrations/0001_uuid_native.sql, and `create_principal`. A name is
-- bound once, for ever; each principal has one current name, and a principal's id is no name. The lengths that the
-- tables check are those that the requests are validated by.
pub mod Register
pub mod Profile
pub mod Names
pub mod Renames
pub mod Selectors
pub mod Effects
pub mod Registered
pub mod Edited
pub mod Operations
use agent_journal.Prelude.{
  ℕ, Text, Option, none, some, List, [], ◌∷◌, ◌++◌, Bool, true, false, not, ◌&&◌, ◌||◌, is_none,
  any, find, map, same, map_err, if◌then◌else◌,
}
use agent_journal.Domain.Types.{Principal}
use agent_journal.Protocol.Requests.{PrincipalCreateRequest, validate_principal_create}
use agent_journal.Journal.Schema.{Db, PrincipalRow, NameRow, NameKind, current, alias}
use agent_journal.Journal.Tx.{
  Host, Tx, ◌>>=◌, ◌>>◌, pure, lift, some_or, fail_when, read_db, write, invalid, conflict, sqlite,
  now, transaction,
}
use agent_journal.Journal.Ids.{principal_id}

unfoldable pub is_current : NameKind → Bool
is_current current = true
is_current alias = false

abbrev pub is_name : Db → Text → Bool
is_name db name = any (λ (n : NameRow). same n.name name) db.principal_names

abbrev pub is_principal : Db → Text → Bool
is_principal db id = any (λ (p : PrincipalRow). same p.id id) db.principals

abbrev pub is_current_of : Text → NameRow → Bool
is_current_of principal n = same n.principal_id principal && is_current n.kind

unfoldable pub insert_principal : PrincipalRow → Tx (Unit {0})
insert_principal row = do
  db ← read_db
  fail_when (is_name db row.id || is_principal db row.id) conflict
  write 1 (λ db. record db { principals = db.principals ++ (row ∷ []) })

-- The name becomes the current one of its principal.
unfoldable pub insert_name : Text → Text → Text → Tx (Unit {0})
insert_name name principal t = do
  db ← read_db
  fail_when
      (is_principal db name
        || (is_name db name || any (is_current_of principal) db.principal_names))
      conflict
  let row : NameRow = record {
    name = name;
    principal_id = principal;
    kind = current;
    created_at = t;
  }
  write 1 (λ db. record db { principal_names = db.principal_names ++ (row ∷ []) })

abbrev pub to_principal : PrincipalRow → NameRow → Principal
to_principal p n = record {
  id = p.id;
  handle = n.name;
  display_name = p.display_name;
  description = p.description;
  profile_revision = p.profile_revision;
  created_at = p.created_at;
  disabled = not (is_none p.disabled_at);
}

abbrev describe : Option PrincipalRow → Option NameRow → Option Principal
describe none n = none
describe (some p) none = none
describe (some p) (some n) = some (to_principal p n)

abbrev pub find_principal : Db → Text → Option PrincipalRow
find_principal db id = find (λ (p : PrincipalRow). same p.id id) db.principals

unfoldable pub find_descriptor : Db → Text → Option Principal
find_descriptor db id = describe (find_principal db id) (find (is_current_of id) db.principal_names)

-- `principal_descriptor`
unfoldable pub principal_descriptor : Text → Tx Principal
principal_descriptor id = do db ← read_db; some_or (find_descriptor db id) sqlite

abbrev pub new_principal_row : Text → Text → Text → PrincipalRow
new_principal_row id display_name t = record {
  id = id;
  display_name = display_name;
  created_at = t;
  disabled_at = none;
  description = none;
  profile_revision = 1;
}

unfoldable pub create_principal_in : PrincipalCreateRequest → Text → Text → Tx (Unit {0})
create_principal_in request id t = do
  insert_principal (new_principal_row id request.display_name t)
  insert_name request.handle id t

module _ (host : Host) where
  -- `create_principal`
  unfoldable pub create_principal : PrincipalCreateRequest → Tx Principal
  create_principal request = do
    lift (map_err (validate_principal_create request) invalid)
    t ← now host
    id ← principal_id host
    transaction host (create_principal_in request id t)
    pure (record {
      id = id;
      handle = request.handle;
      display_name = request.display_name;
      description = none;
      profile_revision = 1;
      created_at = t;
      disabled = false;
    })
