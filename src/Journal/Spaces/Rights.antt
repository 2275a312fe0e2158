-- ===== src/Journal/Spaces/Rights.antt =====
-- crates/journal-service/src/bootstrap.rs: the table of memberships as the function from a space and a
-- principal to rights that it stands for, and `set_membership` as an update of that function.
use agent_journal.Prelude.{
  ◌≡◌, ap, ◌∙◌, Text, Option, none, some, List, [], ◌∷◌, Bool, ◌&&◌, find, same, arith, ok,
  if◌then◌else◌,
}
use agent_journal.Protocol.Requests.{MembershipRequest, Membership}
use agent_journal.Journal.Schema.{Db, MembershipRow}
use agent_journal.Journal.Tx.{Host, Store}
use agent_journal.Journal.Returns.{
  Returns, Returns-continue, Returns-weaken, Returns-ok, Returns-lift, Returns-some_or,
  Returns-fail_when, Returns-now, Returns-transaction,
}
use agent_journal.Journal.Access.{select_principal, active_principal}
use agent_journal.Journal.Spaces.{
  is_member_row, upsert_membership, set_membership_in, set_membership,
}

pub record Rights : Type 0 where
  pub can_read : Bool
  pub can_append : Bool
  pub can_admin : Bool

abbrev pub View : Type 0
View = Text → Text → Option Rights

abbrev rights_of_row : Option MembershipRow → Option Rights
rights_of_row none = none
rights_of_row (some m) =
    some (record { can_read = m.can_read; can_append = m.can_append; can_admin = m.can_admin })

-- What a table of memberships stands for.
unfoldable pub view : List MembershipRow → View
view rows space principal = rights_of_row (find (is_member_row space principal) rows)

-- The function changed at one argument.
abbrev pub set : Text → Text → Rights → View → View
set space principal rights v space' principal' =
    if same space space' && same principal principal' then some rights else v space' principal'

abbrev pub row_rights : MembershipRow → Rights
row_rights m = record { can_read = m.can_read; can_append = m.can_append; can_admin = m.can_admin }

abbrev pub rights_of : MembershipRequest → Rights
rights_of r = record { can_read = r.can_read; can_append = r.can_append; can_admin = r.can_admin }

upsert-view :
    (row : MembershipRow) (rows : List MembershipRow) (space principal : Text)
    → view (upsert_membership row rows) space principal
      ≡ set row.space_id row.principal_id (row_rights row) (view rows) space principal
unfolding view upsert_membership find
upsert-view row [] space principal = ground arith
upsert-view row (m ∷ rows) space principal = ground (arith, upsert-view row rows space principal)

module _ (host : Host) where
  Returns-set_membership_in :
      (request : MembershipRequest) (principal : Text) (s : Store)
      → Returns (set_membership_in host request principal s) (λ _ s'.
        (space p : Text)
        → view s'.db.memberships space p
          ≡ set request.space_id principal (rights_of request) (view s.db.memberships) space p)
  unfolding set_membership_in
  Returns-set_membership_in request principal s =
      Returns-continue _ _ (Returns-fail_when _ _ s) λ _ s1 e1.
        Returns-continue _ _ (Returns-now host s1) λ t s2 e2. Returns-ok _ _ λ space p.
          upsert-view _ s2.db.memberships space p
          ∙ ap
              (λ (d : Db).
                set request.space_id principal (rights_of request) (view d.memberships) space p)
              (e2 ∙ ap (λ (x : Store). x.db) e1.1)

  Returns-active_principal :
      (selector : Text) (s : Store)
      → Returns
          (active_principal selector s)
          (λ p s'. (select_principal s.db selector ≡ some p) × (s'.db ≡ s.db))
  unfolding active_principal
  Returns-active_principal selector s =
      Returns-weaken (Returns-some_or _ _ s) λ p s1 e. (e.0, ap (λ (x : Store). x.db) e.1)

  -- A membership that is set and returned is that of the principal that the request's handle or id
  -- selects, and the table stands for the function that it stood for, changed at this space and
  -- principal alone, to the request's rights.
  pub set_membership-view :
      (request : MembershipRequest) (s s' : Store) (membership : Membership)
      → set_membership host request s ≡ (ok membership, s')
      → (select_principal s.db request.principal_id ≡ some membership.principal_id)
        × ((space principal : Text)
            → view s'.db.memberships space principal
              ≡ set request.space_id membership.principal_id
                  (rights_of request)
                  (view s.db.memberships)
                  space
                  principal)
  unfolding set_membership
  set_membership-view request s s' membership e = outcome.returns membership s' e
    where
      outcome : Returns (set_membership host request s) (λ m s'.
          (select_principal s.db request.principal_id ≡ some m.principal_id)
          × ((space principal : Text)
              → view s'.db.memberships space principal
                ≡ set request.space_id m.principal_id
                    (rights_of request)
                    (view s.db.memberships)
                    space
                    principal))
      outcome = Returns-continue _ _ (Returns-lift _ s) λ _ s1 e1.
          Returns-continue _ _ (Returns-transaction host _ s1 (Returns-active_principal _ s1))
            λ principal s2 (selected, e2).
              Returns-continue _ _
                (Returns-transaction host _ s2 (Returns-set_membership_in request principal s2))
                λ _ s3 set_to. Returns-ok _ _ (
                  rw⁻¹ (ap (λ (x : Store). x.db) e1.1) selected,
                  λ space p.
                      set_to space p
                      ∙ ap
                          (λ (d : Db).
                            set request.space_id principal (rights_of request) (view d.memberships)
                              space p)
                          (e2 ∙ ap (λ (x : Store). x.db) e1.1),
                )
