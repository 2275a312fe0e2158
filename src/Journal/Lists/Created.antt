-- ===== src/Journal/Lists/Created.antt =====
-- crates/journal-service/src: a space that `create_space` returned is what `get_space` answers.
use agent_journal.Prelude.{
  find-any, any_stricter, ◌≡◌, refl, ap, ◌∙◌, Text, none, some, [], ◌∷◌, ◌++◌, true, false, ◌||◌,
  any, find, same, same_iff, arith, ok, find-append-absent, any_none, find-eq-some,
}
use agent_journal.Domain.Types.{Space, SpaceAccess, public_access}
use agent_journal.Protocol.Requests.{SpaceCreateRequest}
use agent_journal.Journal.Schema.{Db, SpaceRow, CredentialRow}
use agent_journal.Journal.Tx.{Host, Store, some_or, fail_when, read}
use agent_journal.Journal.Returns.{
  Returns, Returns-continue, Returns-ok, Returns-lift, Returns-some_or, Returns-fail_when,
  Returns-now, Returns-transaction,
}
use agent_journal.Journal.Access.{journal_actor, is_active, is_open, is_valid, permitted}
use agent_journal.Journal.Spaces.{insert_space, create_space}
use agent_journal.Journal.Lists.{to_space, find_space, space_with_id, get_space_in, get_space}

abbrev new_space : SpaceCreateRequest → Text → SpaceRow
new_space request t = record {
  id = request.id;
  name = request.name;
  created_at = t;
  archived_at = none;
}

only_public : (access : SpaceAccess) → access ≡ public_access
only_public public_access = refl

Returns-insert_space :
    (row : SpaceRow) (s : Store)
    → Returns (insert_space row s) (λ _ s'.
      (any (λ (x : SpaceRow). same x.id row.id || same x.name row.name) s.db.spaces ≡ false)
      × (s'.db.spaces ≡ s.db.spaces ++ (row ∷ [])))
unfolding insert_space fail_when
Returns-insert_space row s = record { returns = λ a s' h. ground arith }

opened :
    (db : Db) (id : Text) (row : SpaceRow)
    → find_space db id ≡ some row
    → is_open db id false ≡ true
unfolding find_space is_open
opened db id row e =
    any_stricter _ (λ (x : SpaceRow). same x.id id) db.spaces (λ x k. ground (arith, k))
      (find-any (λ (x : SpaceRow). same x.id id) db.spaces row e)

module _ (host : Host) where
  Returns-create_space :
      (request : SpaceCreateRequest) (s : Store)
      → Returns (create_space host request s) (λ sp s'.
        (find_space s'.db request.id ≡ some (new_space request sp.created_at))
        × (sp ≡ to_space (new_space request sp.created_at)))
  unfolding create_space find_space find
  Returns-create_space request s = Returns-continue _ _ (Returns-lift _ s) λ _ s1 e1.
      Returns-continue _ _ (Returns-now host s1) λ t s2 e2.
        Returns-continue _ _
          (Returns-transaction host _ s2 (Returns-insert_space (new_space request t) s2))
          λ _ s3 (free, rows). Returns-ok _ _ (
            ap (find (λ (x : SpaceRow). same x.id request.id)) rows
                ∙ find-append-absent (λ (x : SpaceRow). same x.id request.id) s2.db.spaces
                    (new_space request t ∷ [])
                    (any_none (λ (x : SpaceRow). same x.id request.id) _ s2.db.spaces
                      (λ x k. ground (arith, k)) free)
                ∙ rw ((same_iff request.id request.id).1 refl) refl,
            ap (λ a. record (to_space (new_space request t)) { access = a })
                (only_public request.access),
          )

  Returns-journal_actor_active :
      (token : Text) (s : Store)
      → Returns
          (journal_actor host token s)
          (λ actor s'. (is_active s.db actor ≡ true) × (s'.db ≡ s.db))
  unfolding journal_actor is_valid
  Returns-journal_actor_active token s = Returns-continue _ _ (Returns-fail_when _ _ s) λ _ s1 e1.
      Returns-continue _ _ (Returns-now host s1) λ t s2 e2.
        Returns-continue {A = CredentialRow} _ _ (Returns-some_or _ _ s2) λ c s3 e3.
          Returns-ok _ _ (
            rw⁻¹ (ap (λ (x : Store). x.db) e1.1, e2)
                (ground (arith, find-eq-some _ s2.db.credentials c e3.0)),
            ap (λ (x : Store). x.db) e3.1 ∙ e2 ∙ ap (λ (x : Store). x.db) e1.1,
          )

  -- A space that was created and returned is the answer to a request for its id, of every caller that
  -- has a valid credential.
  pub create_space-get_space :
      (request : SpaceCreateRequest) (created : Space) (token actor : Text) (s s1 s2 : Store)
      → create_space host request s ≡ (ok created, s1)
      → journal_actor host token s1 ≡ (ok actor, s2)
      → get_space host token request.id s1
        ≡ (ok created, record s2 { db = s1.db; changes = s1.changes })
  unfolding get_space get_space_in read space_with_id permitted is_open fail_when some_or
  create_space-get_space request created token actor s s1 s2 e a =
      let (found, is) = (Returns-create_space request s).returns created s1 e in
      let (active, same_db) = (Returns-journal_actor_active token s1).returns actor s2 a in
      let open_ = opened s1.db request.id (new_space request created.created_at) found in
      rw (a, same_db, active, open_, found, is) refl
