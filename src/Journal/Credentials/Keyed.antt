-- ===== src/Journal/Credentials/Keyed.antt =====
-- crates/journal-service/src/bootstrap.rs: no two credentials share an id or a token's digest.
use agent_journal.Prelude.{
  ◌≡◌, ◌≤◌, refl, ap, Text, Option, none, some, List, Bool, true, false, ◌||◌, any, count, map,
  same, arith, Bool-cases, inl, inr, count_snoc_le, count-map, any_stricter,
}
use agent_journal.Journal.Schema.{revoked, Db, CredentialRow, AuditOperation, EventRow, SpaceRow}
use agent_journal.Journal.Tx.{Host, Store, Tx, fail_when}
use agent_journal.Journal.Preserves.{
  Preserves, Preserves-continue, Preserves-pure, Preserves-fail_when, Preserves-read,
}
use agent_journal.Journal.Spaces.{insert_space}
use agent_journal.Journal.Credentials.{insert_credential, insert_audit, insert_event}
use agent_journal.Journal.Credentials.Changes.{
  update_credential, update_row, expire, replaced, withdrawn, revoke_once, revoke_all, recover_row,
}
use agent_journal.Journal.Credentials.Operations.{Statements}
use agent_journal.Journal.Credentials.Revoked.{has_credential_id}

abbrev pub has_hash : Text → CredentialRow → Bool
has_hash hash c = same c.token_hash hash

pub record IsKeyed (db : Db) : Type 0 where
  pub id_once : (id : Text) → count (has_credential_id id) db.credentials ≤ 1
  pub hash_once : (hash : Text) → count (has_hash hash) db.credentials ≤ 1

pub IsKeyed-frame :
    (before after : Db) → after.credentials ≡ before.credentials → IsKeyed before → IsKeyed after
IsKeyed-frame before after e h = record {
  id_once = λ x. rw e (h.id_once x);
  hash_once = λ x. rw e (h.hash_once x);
}

kept :
    {A : Type 0} (m : Tx A)
    → ((s : Store) → (m s).1.db.credentials ≡ s.db.credentials)
    → Preserves IsKeyed m
kept m e = record { preserves = λ s h. IsKeyed-frame s.db (m s).1.db (e s) h }

abbrev pub is_taken : CredentialRow → CredentialRow → Bool
is_taken row c = same c.id row.id || same c.token_hash row.token_hash

not_taken :
    (p : CredentialRow → Bool) (row : CredentialRow) (rows : List CredentialRow)
    → ((c : CredentialRow) → p c ≡ true → is_taken row c ≡ true)
    → any (is_taken row) rows ≡ false
    → any p rows ≡ false
not_taken p row rows h fresh = elim (Bool-cases (any p rows)) [
  | inl e ↦ let taken = any_stricter (is_taken row) p rows h e in absurd (cc)
  | inr e ↦ e
]

insert_keeps :
    (row : CredentialRow) (s : Store) → IsKeyed s.db → IsKeyed (insert_credential row s).1.db
unfolding insert_credential fail_when
insert_keeps row s h = elim (Bool-cases (any (is_taken row) s.db.credentials)) [
  | inl e ↦ rw e h
  | inr e ↦ rw e (record {
    id_once = λ x.
        count_snoc_le (has_credential_id x) s.db.credentials row (h.id_once x)
          λ k. not_taken (has_credential_id x) row s.db.credentials (λ c p. ground (arith, p, k)) e;
    hash_once = λ x.
        count_snoc_le (has_hash x) s.db.credentials row (h.hash_once x)
          λ k. not_taken (has_hash x) row s.db.credentials (λ c p. ground (arith, p, k)) e;
  })
]

mapped :
    (f : CredentialRow → CredentialRow) (s : Store)
    → ((c : CredentialRow) → (f c).id ≡ c.id)
    → ((c : CredentialRow) → (f c).token_hash ≡ c.token_hash)
    → IsKeyed s.db
    → IsKeyed (record s.db { credentials = map f s.db.credentials })
mapped f s i t h = record {
  id_once = λ x.
      rw (count-map (has_credential_id x) f s.db.credentials (λ c. ap (λ y. same y x) (i c)))
        (h.id_once x);
  hash_once = λ x.
      rw (count-map (has_hash x) f s.db.credentials (λ c. ap (λ y. same y x) (t c)))
        (h.hash_once x);
}

update_keeps :
    (of : Text) (f : CredentialRow → CredentialRow)
    → ((c : CredentialRow) → (f c).id ≡ c.id)
    → ((c : CredentialRow) → (f c).token_hash ≡ c.token_hash)
    → Preserves IsKeyed (update_credential of f)
unfolding update_credential
update_keeps of f i t = record {
  preserves =
      λ s h. mapped (update_row of f) s (λ c. ground (arith, i c)) (λ c. ground (arith, t c)) h;
}

revoke_all_keeps :
    (host : Host) (principal t : Text) (reason : Option Text)
    → Preserves IsKeyed (revoke_all host principal t reason)
unfolding revoke_all
revoke_all_keeps host principal t reason = record {
  preserves = λ s h.
      IsKeyed-frame _ _ refl
        (mapped (recover_row host principal t reason) s (λ c. ground arith) (λ c. ground arith) h);
}

insert_audit_keeps :
    (of : Text) (op : AuditOperation) (t : Text) (reason : Option Text)
    → Preserves IsKeyed (insert_audit of op t reason)
unfolding insert_audit
insert_audit_keeps of op t reason = kept _ λ s. refl

insert_event_keeps : (row : EventRow) → Preserves IsKeyed (insert_event row)
unfolding insert_event
insert_event_keeps row =
    Preserves-continue _ _ Preserves-read
      λ db. Preserves-continue _ _ (Preserves-fail_when _ _) λ _. kept _ λ s. refl

insert_space_keeps : (row : SpaceRow) → Preserves IsKeyed (insert_space row)
unfolding insert_space
insert_space_keeps row =
    Preserves-continue _ _ Preserves-read
      λ db. Preserves-continue _ _ (Preserves-fail_when _ _) λ _. kept _ λ s. refl

revoke_once_keeps :
    (of t : Text) (reason at : Option Text) → Preserves IsKeyed (revoke_once of t reason at)
unfolding revoke_once
revoke_once_keeps of t reason none =
    Preserves-continue _ _ (update_keeps of (withdrawn t reason) (λ c. refl) (λ c. refl))
      λ _. insert_audit_keeps of revoked t reason
revoke_once_keeps of t reason (some at) = Preserves-pure tt

pub IsKeyed-statements : Statements IsKeyed
IsKeyed-statements = record {
  insert_credential_law = λ row. record { preserves = insert_keeps row };
  insert_audit_law = insert_audit_keeps;
  insert_event_law = insert_event_keeps;
  expire_law = λ of at. update_keeps of (expire at) (λ c. refl) (λ c. refl);
  replace_law = λ of t replacement reason.
      update_keeps of (replaced t replacement reason) (λ c. refl) (λ c. refl);
  revoke_once_law = revoke_once_keeps;
  revoke_all_law = revoke_all_keeps;
  insert_space_law = insert_space_keeps;
  set_law = λ rows. kept _ λ s. refl;
}
