-- ===== src/Journal/Credentials/Revoked.antt =====
-- crates/journal-service/src/bootstrap.rs: a revoked credential stays revoked, statement by statement.
use agent_journal.Prelude.{
  ◌≡◌, refl, sym, ap, ◌∙◌, subst, Text, Option, none, some, List, [], ◌∷◌, Bool, true, false, ◌&&◌,
  ◌||◌, is_none, any, map, same, same_iff, arith, Bool-cases, inl, inr, any-append, any-map,
  any_snoc, any_stricter,
}
use agent_journal.Journal.Schema.{revoked, Db, CredentialRow, AuditOperation, EventRow, SpaceRow}
use agent_journal.Journal.Tx.{Host, Store, Tx, fail_when}
use agent_journal.Journal.Preserves.{
  Preserves, Preserves-continue, Preserves-pure, Preserves-fail_when, Preserves-read,
}
use agent_journal.Journal.Credentials.{insert_credential, insert_audit, insert_event}
use agent_journal.Journal.Spaces.{insert_space}
use agent_journal.Journal.Credentials.Operations.{Statements}
use agent_journal.Journal.Credentials.Changes.{
  update_credential, update_row, expire, replaced, withdrawn, revoke_once, revoke_all, recover_row,
}

abbrev pub has_credential_id : Text → CredentialRow → Bool
has_credential_id id c = same c.id id

abbrev pub is_live : Text → CredentialRow → Bool
is_live id c = same c.id id && is_none c.revoked_at

-- The credential exists, and is revoked.
pub record IsRevoked (id : Text) (db : Db) : Type 0 where
  pub issued : any (has_credential_id id) db.credentials ≡ true
  pub not_live : any (is_live id) db.credentials ≡ false

module _ (id : Text) where
  pub Preserves-IsRevoked :
      {A : Type 0} (m : Tx A)
      → ((s : Store) → (m s).1.db.credentials ≡ s.db.credentials)
      → Preserves (IsRevoked id) m
  Preserves-IsRevoked m e = record {
    preserves = λ s h. record {
      issued = ap (any (has_credential_id id)) (e s) ∙ h.issued;
      not_live = ap (any (is_live id)) (e s) ∙ h.not_live;
    };
  }

  fresh_not_live :
      (row : CredentialRow) (rows : List CredentialRow)
      → any (has_credential_id id) rows ≡ true
      → any (λ (c : CredentialRow). same c.id row.id || same c.token_hash row.token_hash) rows
        ≡ false
      → is_live id row ≡ false
  fresh_not_live row rows issued fresh = elim (Bool-cases (same row.id id)) [
    | inl e ↦
        let taken =
          any_stricter (λ (c : CredentialRow). same c.id row.id || same c.token_hash row.token_hash)
            (has_credential_id row.id) rows (λ c k. ground (arith, k))
            (subst (λ x. any (has_credential_id x) rows ≡ true) (sym ((same_iff row.id id).0 e))
              issued) in
        absurd (cc)
    | inr e ↦ rw e refl
  ]

  insert_keeps :
      (row : CredentialRow) (s : Store)
      → IsRevoked id s.db
      → IsRevoked id (insert_credential row s).1.db
  unfolding insert_credential fail_when
  insert_keeps row s h =
      elim (Bool-cases (
        any (λ (c : CredentialRow). same c.id row.id || same c.token_hash row.token_hash)
          s.db.credentials)) [
            | inl e ↦ rw e h
            | inr e ↦ rw e (record {
              issued =
                  any-append (has_credential_id id) s.db.credentials (row ∷ [])
                  ∙ ap (λ b. b || any (has_credential_id id) (row ∷ [])) h.issued;
              not_live =
                  any_snoc (is_live id) s.db.credentials row
                    (fresh_not_live row s.db.credentials h.issued e)
                  ∙ h.not_live;
            })
          ]

  -- An update that makes no credential live.
  pub revoked_update :
      (f : CredentialRow → CredentialRow) (rows : List CredentialRow)
      → ((c : CredentialRow) → is_live id (f c) ≡ true → is_live id c ≡ true)
      → any (is_live id) rows ≡ false
      → any (is_live id) (map f rows) ≡ false
  unfolding any
  revoked_update f [] l h = refl
  revoked_update f (c ∷ rows) l h = ground (arith, l c, revoked_update f rows l)

  update_keeps :
      (of : Text) (f : CredentialRow → CredentialRow)
      → ((c : CredentialRow) → (f c).id ≡ c.id)
      → ((c : CredentialRow) → is_none (f c).revoked_at ≡ true → is_none c.revoked_at ≡ true)
      → Preserves (IsRevoked id) (update_credential of f)
  unfolding update_credential
  update_keeps of f e l = record {
    preserves = λ s h. record {
      issued =
          any-map (has_credential_id id) (update_row of f) s.db.credentials
            (λ c. ground (arith, e c))
          ∙ h.issued;
      not_live =
          revoked_update (update_row of f) s.db.credentials (λ c k. ground (arith, e c, l c, k))
            h.not_live;
    };
  }

  revoke_all_keeps :
      (host : Host) (principal t : Text) (reason : Option Text)
      → Preserves (IsRevoked id) (revoke_all host principal t reason)
  unfolding revoke_all
  revoke_all_keeps host principal t reason = record {
    preserves = λ s h. record {
      issued =
          any-map (has_credential_id id) (recover_row host principal t reason) s.db.credentials
            (λ c. ground arith)
          ∙ h.issued;
      not_live =
          revoked_update (recover_row host principal t reason) s.db.credentials
            (λ c k. ground (arith, k)) h.not_live;
    };
  }

  pub Preserves-insert_credential :
      (row : CredentialRow) → Preserves (IsRevoked id) (insert_credential row)
  Preserves-insert_credential row = record { preserves = insert_keeps row }

  insert_audit_keeps :
      (of : Text) (op : AuditOperation) (t : Text) (reason : Option Text)
      → Preserves (IsRevoked id) (insert_audit of op t reason)
  unfolding insert_audit
  insert_audit_keeps of op t reason = Preserves-IsRevoked _ λ s. refl

  insert_event_keeps : (row : EventRow) → Preserves (IsRevoked id) (insert_event row)
  unfolding insert_event
  insert_event_keeps row =
      Preserves-continue _ _ Preserves-read
        λ db. Preserves-continue _ _ (Preserves-fail_when _ _) λ _. Preserves-IsRevoked _ λ s. refl

  revoke_once_keeps :
      (of t : Text) (reason revoked_at : Option Text)
      → Preserves (IsRevoked id) (revoke_once of t reason revoked_at)
  unfolding revoke_once
  revoke_once_keeps of t reason none =
      Preserves-continue _ _ (update_keeps of (withdrawn t reason) (λ c. refl) (λ c k. absurd (cc)))
        λ _. insert_audit_keeps of revoked t reason
  revoke_once_keeps of t reason (some at) = Preserves-pure tt

  insert_space_keeps : (row : SpaceRow) → Preserves (IsRevoked id) (insert_space row)
  unfolding insert_space
  insert_space_keeps row =
      Preserves-continue _ _ Preserves-read
        λ db. Preserves-continue _ _ (Preserves-fail_when _ _) λ _. Preserves-IsRevoked _ λ s. refl

  pub IsRevoked-statements : Statements (IsRevoked id)
  IsRevoked-statements = record {
    insert_credential_law = Preserves-insert_credential;
    insert_audit_law = insert_audit_keeps;
    insert_event_law = insert_event_keeps;
    expire_law = λ of at. update_keeps of (expire at) (λ c. refl) (λ c k. k);
    replace_law = λ of t replacement reason.
        update_keeps of (replaced t replacement reason) (λ c. refl) (λ c k. absurd (cc));
    revoke_once_law = revoke_once_keeps;
    revoke_all_law = revoke_all_keeps;
    insert_space_law = insert_space_keeps;
    set_law = λ rows. Preserves-IsRevoked _ λ s. refl;
  }

  pub IsRevoked-frame :
      (before after : Db)
      → after.credentials ≡ before.credentials
      → IsRevoked id before
      → IsRevoked id after
  IsRevoked-frame before after e h = record {
    issued = ap (any (has_credential_id id)) e ∙ h.issued;
    not_live = ap (any (is_live id)) e ∙ h.not_live;
  }
