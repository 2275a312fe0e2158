-- ===== src/Journal/Spaces.antt =====
-- crates/journal-service/src/bootstrap.rs: `create_space`, `set_membership` and `me`.
pub mod Rights
use agent_journal.Prelude.{
  ℕ, Text, Option, none, some, List, [], ◌∷◌, ◌++◌, Bool, true, false, not, ◌&&◌, ◌||◌, any, filter,
  map, same, map_err, if◌then◌else◌,
}
use agent_journal.Domain.Types.{Space, default_limits}
use agent_journal.Protocol.Requests.{
  SpaceCreateRequest, MembershipRequest, Membership, Me, validate_space_create, validate_membership,
}
use agent_journal.Journal.Schema.{Db, SpaceRow, MembershipRow}
use agent_journal.Journal.Tx.{
  Host, Tx, ◌>>=◌, ◌>>◌, pure, lift, fail_when, read_db, write, invalid, not_found, conflict,
  unauthorized, now, transaction, read,
}
use agent_journal.Journal.Access.{active_principal}
use agent_journal.Journal.Principals.{principal_descriptor}
use agent_journal.Journal.Credentials.{AuthenticatedCredential, is_own_valid}

unfoldable pub insert_space : SpaceRow → Tx (Unit {0})
insert_space row = do
  db ← read_db
  fail_when (any (λ (s : SpaceRow). same s.id row.id || same s.name row.name) db.spaces) conflict
  write 1 (λ db. record db { spaces = db.spaces ++ (row ∷ []) })

-- `INSERT … ON CONFLICT(space_id,principal_id) DO UPDATE SET …` of the three rights
abbrev pub is_member_row : Text → Text → MembershipRow → Bool
is_member_row space principal m = same m.space_id space && same m.principal_id principal

unfoldable pub upsert_membership : MembershipRow → List MembershipRow → List MembershipRow
upsert_membership row [] = row ∷ []
upsert_membership row (m ∷ ms) =
    let rest = upsert_membership row ms in
    if is_member_row row.space_id row.principal_id m
    then record m {
      can_read = row.can_read;
      can_append = row.can_append;
      can_admin = row.can_admin;
    }
      ∷ ms
    else m ∷ rest

abbrev pub to_membership : MembershipRow → Membership
to_membership m = record {
  space_id = m.space_id;
  principal_id = m.principal_id;
  can_read = m.can_read;
  can_append = m.can_append;
  can_admin = m.can_admin;
}

-- `ORDER BY space_id`
unfoldable pub insert_by_space : MembershipRow → List MembershipRow → List MembershipRow
insert_by_space x [] = x ∷ []
insert_by_space x (y ∷ ys) =
    let rest = insert_by_space x ys in
    if agent_journal.Prelude.text_lt y.space_id x.space_id then y ∷ rest else x ∷ y ∷ ys

unfoldable pub sort_by_space : List MembershipRow → List MembershipRow
sort_by_space [] = []
sort_by_space (x ∷ xs) = insert_by_space x (sort_by_space xs)

unfoldable pub memberships_of : Text → Db → List Membership
memberships_of principal db =
    map to_membership
      (sort_by_space (filter (λ (m : MembershipRow). same m.principal_id principal) db.memberships))

module _ (host : Host) where
  -- `create_space`
  unfoldable pub create_space : SpaceCreateRequest → Tx Space
  create_space request = do
    lift (map_err (validate_space_create request) invalid)
    t ← now host
    transaction host (
        insert_space
          (record { id = request.id; name = request.name; created_at = t; archived_at = none }))
    pure (record {
      id = request.id;
      name = request.name;
      access = request.access;
      archived_at = none;
      created_at = t;
      limits = default_limits;
    })

  unfoldable pub set_membership_in : MembershipRequest → Text → Tx (Unit {0})
  set_membership_in request principal = do
    db ← read_db
    fail_when (not (any (λ (s : SpaceRow). same s.id request.space_id) db.spaces)) not_found
    t ← now host
    write 1 (λ db. record db {
      memberships =
          upsert_membership
            (record {
              space_id = request.space_id;
              principal_id = principal;
              can_read = request.can_read;
              can_append = request.can_append;
              can_admin = request.can_admin;
              created_at = t;
            })
            db.memberships;
    })

  -- `set_membership`
  unfoldable pub set_membership : MembershipRequest → Tx Membership
  set_membership request = do
    lift (map_err (validate_membership request) invalid)
    principal ← transaction host (active_principal request.principal_id)
    transaction host (set_membership_in request principal)
    pure (record {
      space_id = request.space_id;
      principal_id = principal;
      can_read = request.can_read;
      can_append = request.can_append;
      can_admin = request.can_admin;
    })

  unfoldable pub me_in : AuthenticatedCredential → Tx Me
  me_in actor = do
    t ← now host
    db ← read_db
    fail_when (not (is_own_valid host actor t db)) unauthorized
    selected ← active_principal actor.principal_id
    principal ← principal_descriptor actor.principal_id
    pure (record {
      principal = principal;
      memberships = memberships_of actor.principal_id db;
      limits = default_limits;
    })

  -- `me`
  unfoldable pub me : AuthenticatedCredential → Tx Me
  me actor = read host (me_in actor)
