-- ===== src/Journal/Principals/Effects.antt =====
-- crates/journal-service/src/bootstrap.rs: what the statements and steps of `create_principal`,
-- `register` and `update_own_profile` do to the tables of principals and names, when they return.
use agent_journal.Prelude.{
  ◌≡◌, refl, sym, ap, ◌∙◌, Text, [], ◌∷◌, ◌++◌, Option, false, any, arith, same,
}
use agent_journal.Protocol.Requests.{PrincipalCreateRequest}
use agent_journal.Journal.Schema.{
  Db, PrincipalRow, NameRow, current, CredentialRow, EventRow, ReceiptRow, ProfileKeyRow,
  AuditOperation,
}
use agent_journal.Journal.Tx.{Host, Store, fail_when, some_or, clock_now, secret, fill_random}
use agent_journal.Journal.Ids.{principal_id, next_sequence}
use agent_journal.Journal.Returns.{Returns, Returns-continue, Returns-weaken, Kept}
use agent_journal.Journal.Principals.{
  insert_principal, insert_name, is_current_of, is_name, is_principal, new_principal_row,
  create_principal_in,
}
use agent_journal.Journal.Principals.Names.{IsAdded, has_id}
use agent_journal.Journal.Credentials.{insert_credential, insert_audit, insert_event}
use agent_journal.Journal.Principals.Register.{insert_receipt}
use agent_journal.Journal.Principals.Profile.{insert_profile_key}

pub record SameNames (before after : Db) : Type 0 where
  pub principals : after.principals ≡ before.principals
  pub names : after.principal_names ≡ before.principal_names

pub Returns-insert_principal :
    (row : PrincipalRow) (s : Store)
    → Returns (insert_principal row s) (λ _ s'.
      (is_name s.db row.id ≡ false)
      × (is_principal s.db row.id ≡ false)
      × (s'.db ≡ record s.db { principals = s.db.principals ++ (row ∷ []) }))
unfolding insert_principal fail_when
Returns-insert_principal row s = record { returns = λ a s' h. ground arith }

abbrev pub current_row : Text → Text → Text → NameRow
current_row name principal t = record {
  name = name;
  principal_id = principal;
  kind = current;
  created_at = t;
}

pub Returns-insert_name :
    (name principal t : Text) (s : Store)
    → Returns (insert_name name principal t s) (λ _ s'.
      (is_principal s.db name ≡ false)
      × (is_name s.db name ≡ false)
      × (any (is_current_of principal) s.db.principal_names ≡ false)
      × (s'.db ≡ record s.db {
        principal_names = s.db.principal_names ++ (current_row name principal t ∷ []);
      }))
unfolding insert_name fail_when
Returns-insert_name name principal t s = record { returns = λ a s' h. ground arith }

pub Returns-secret : (host : Host) (s : Store) → Returns (secret host s) (Kept s)
unfolding secret fill_random
Returns-secret host s = record { returns = λ a s' h. ground arith }

pub Returns-principal_id : (host : Host) (s : Store) → Returns (principal_id host s) (Kept s)
unfolding principal_id fill_random clock_now some_or fail_when next_sequence
Returns-principal_id host s = record { returns = λ a s' h. ground arith }

pub Returns-insert_credential :
    (row : CredentialRow) (s : Store)
    → Returns (insert_credential row s) (λ _ s'. SameNames s.db s'.db)
unfolding insert_credential fail_when
Returns-insert_credential row s = record {
  returns = λ a s' h. record { principals = ground arith; names = ground arith };
}

pub Returns-insert_audit :
    (id : Text) (op : AuditOperation) (t : Text) (reason : Option Text) (s : Store)
    → Returns (insert_audit id op t reason s) (λ _ s'. SameNames s.db s'.db)
unfolding insert_audit
Returns-insert_audit id op t reason s = record {
  returns = λ a s' h. record { principals = ground arith; names = ground arith };
}

pub Returns-insert_event :
    (row : EventRow) (s : Store) → Returns (insert_event row s) (λ _ s'. SameNames s.db s'.db)
unfolding insert_event fail_when
Returns-insert_event row s = record {
  returns = λ a s' h. record { principals = ground arith; names = ground arith };
}

pub Returns-insert_receipt :
    (row : ReceiptRow) (s : Store) → Returns (insert_receipt row s) (λ _ s'. SameNames s.db s'.db)
unfolding insert_receipt fail_when
Returns-insert_receipt row s = record {
  returns = λ a s' h. record { principals = ground arith; names = ground arith };
}

pub Returns-insert_profile_key :
    (row : ProfileKeyRow) (s : Store)
    → Returns (insert_profile_key row s) (λ _ s'. SameNames s.db s'.db)
unfolding insert_profile_key fail_when
Returns-insert_profile_key row s = record {
  returns = λ a s' h. record { principals = ground arith; names = ground arith };
}

-- The two inserts of a new principal.
pub IsAdded-inserts :
    (id handle display t : Text) (before middle after : Db)
    → (is_name before id ≡ false)
      × (is_principal before id ≡ false)
      × (middle ≡ record before {
        principals = before.principals ++ (new_principal_row id display t ∷ []);
      })
    → (is_principal middle handle ≡ false)
      × (is_name middle handle ≡ false)
      × (any (is_current_of id) middle.principal_names ≡ false)
      × (after ≡ record middle {
        principal_names = middle.principal_names ++ (current_row handle id t ∷ []);
      })
    → IsAdded id handle before after
IsAdded-inserts id handle display t before middle after (f, g, e) (f', g', k', e') =
    let names : middle.principal_names ≡ before.principal_names =
      ap (λ (d : Db). d.principal_names) e in
    let rows : middle.principals ≡ before.principals ++ (new_principal_row id display t ∷ []) =
      ap (λ (d : Db). d.principals) e in
    record {
      principal = new_principal_row id display t;
      name = current_row handle id t;
      principal_id = refl;
      name_name = refl;
      name_principal = refl;
      name_current = refl;
      principals = ap (λ (d : Db). d.principals) e' ∙ rows;
      names =
          ap (λ (d : Db). d.principal_names) e'
          ∙ ap (λ ns. ns ++ (current_row handle id t ∷ [])) names;
      id_free = g;
      id_unnamed = f;
      handle_free = sym (ap (any (λ (n : NameRow). same n.name handle)) names) ∙ g';
      handle_no_id = sym (ap (any (has_id handle)) rows) ∙ f';
      no_current = sym (ap (any (is_current_of id)) names) ∙ k';
    }

pub IsAdded-same :
    (id handle : Text) (before middle after : Db)
    → IsAdded id handle before middle
    → SameNames middle after
    → IsAdded id handle before after
IsAdded-same id handle before middle after a e = record {
  principal = a.principal;
  name = a.name;
  principal_id = a.principal_id;
  name_name = a.name_name;
  name_principal = a.name_principal;
  name_current = a.name_current;
  principals = e.principals ∙ a.principals;
  names = e.names ∙ a.names;
  id_free = a.id_free;
  id_unnamed = a.id_unnamed;
  handle_free = a.handle_free;
  handle_no_id = a.handle_no_id;
  no_current = a.no_current;
}

pub Returns-create_principal_in :
    (request : PrincipalCreateRequest) (id t : Text) (s : Store)
    → Returns (create_principal_in request id t s) (λ _ s'. IsAdded id request.handle s.db s'.db)
unfolding create_principal_in
Returns-create_principal_in request id t s =
    Returns-continue _ _ (Returns-insert_principal _ s) λ _ s1 p.
      Returns-weaken (Returns-insert_name request.handle id t s1)
        λ _ s2 q. IsAdded-inserts id request.handle request.display_name t s.db s1.db s2.db p q
