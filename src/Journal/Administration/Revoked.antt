-- ===== src/Journal/Administration/Revoked.antt =====
-- crates/journal-service/src/bootstrap.rs: a revoked credential never authenticates again.
use agent_journal.Prelude.{
  any_none, count-any, utf8, Bool-cases, find-any_of, ◌≡◌, ◌≢◌, ◌≤◌, refl, sym, ap, ◌∙◌, subst,
  Text, Option, none, some, List, [], ◌∷◌, true, false, any, count, map, find, same, arith, ok, inl,
  inr, find-any, any-map, find-eq-some,
}
use agent_journal.Protocol.Requests.{CredentialClass, CredentialRotateRequest, CredentialMetadata}
use agent_journal.Journal.Schema.{Db, CredentialRow}
use agent_journal.Journal.Tx.{digest, Host, Store}
use agent_journal.Journal.Returns.{
  Returns-fail_when, Returns, Returns-continue, Returns-ok, Returns-some_or, Returns-lift,
  Returns-checkpoint, Returns-now, Returns-transaction,
}
use agent_journal.Journal.Access.{is_valid}
use agent_journal.Journal.Credentials.{
  AuthenticatedCredential, find_authentic, authenticate, insert_audit,
}
use agent_journal.Journal.Credentials.Changes.{
  find_credential, revoke_once, revoke_in, revoke, update_credential, update_row, withdrawn,
}
use agent_journal.Journal.Credentials.Revoked.{
  IsRevoked-frame, IsRevoked, has_credential_id, is_live, IsRevoked-statements,
}
use agent_journal.Journal.Credentials.Keyed.{IsKeyed}
use agent_journal.Journal.Administration.{Steps}
use agent_journal.Journal.Administration.Kept.{steps_keep}

-- The updated rows are revoked.
withdrawn_not_live :
    (id t : Text) (reason : Option Text) (rows : List CredentialRow)
    → any (is_live id) (map (update_row id (withdrawn t reason)) rows) ≡ false
unfolding any
withdrawn_not_live id t reason [] = refl
withdrawn_not_live id t reason (c ∷ rows) = ground (arith, withdrawn_not_live id t reason rows)

update_row_id :
    (id x t : Text) (reason : Option Text) (c : CredentialRow)
    → has_credential_id x (update_row id (withdrawn t reason) c) ≡ has_credential_id x c
update_row_id id x t reason c = ground arith

-- The only row of an id, which is revoked, is not live.
unique_not_live :
    (id : Text) (rows : List CredentialRow) (row : CredentialRow) (at : Text)
    → count (has_credential_id id) rows ≤ 1
    → find (has_credential_id id) rows ≡ some row
    → row.revoked_at ≡ some at
    → any (is_live id) rows ≡ false
unfolding any find count
unique_not_live id [] row at n e r = refl
unique_not_live id (c ∷ rows) row at n e r = elim (Bool-cases (same c.id id)) [
  | inl own ↦
      let first : c ≡ row = ground (arith, own, e) in
      let rest = count-any (has_credential_id id) rows (ground (arith, own, n)) in
      let others =
        any_none (is_live id) (has_credential_id id) rows (λ d k. ground (arith, k)) rest in
      rw (others, own, first, r) refl
  | inr other ↦
      let others =
        unique_not_live id rows row at (ground (arith, other, n)) (ground (arith, other, e)) r in
      rw (others, other) refl
]

Returns-revoke_once :
    (id t : Text) (reason : Option Text) (row : CredentialRow) (revoked_at : Option Text)
    (s : Store)
    → IsKeyed s.db
    → find_credential s.db id ≡ some row
    → row.revoked_at ≡ revoked_at
    → Returns (revoke_once id t reason revoked_at s) (λ _ s'. IsRevoked id s'.db)
unfolding revoke_once update_credential insert_audit
Returns-revoke_once id t reason row none s k f e = Returns-ok _ _ (record {
  issued =
      any-map (has_credential_id id) (update_row id (withdrawn t reason)) s.db.credentials
        (update_row_id id id t reason)
      ∙ find-any (has_credential_id id) s.db.credentials row f;
  not_live = withdrawn_not_live id t reason s.db.credentials;
})
Returns-revoke_once id t reason row (some at) s k f e = Returns-ok _ _ (record {
  issued = find-any (has_credential_id id) s.db.credentials row f;
  not_live = unique_not_live id s.db.credentials row at (k.id_once id) f e;
})

module _ (host : Host) where
  Returns-revoke :
      (request : CredentialRotateRequest) (s : Store)
      → IsKeyed s.db
      → Returns (revoke host request s) (λ _ s'. IsRevoked request.credential_id s'.db)
  unfolding revoke revoke_in
  Returns-revoke request s k = Returns-continue _ _ (Returns-lift _ s) λ _ s1 e1.
      Returns-continue _ _ (Returns-now host s1) λ t s2 e2. Returns-transaction host _ s2 (
        Returns-continue {A = CredentialRow} _ _ (Returns-some_or _ _ s2) λ row s3 e3.
          Returns-continue _ _
            (Returns-revoke_once request.credential_id t request.reason row row.revoked_at s3
              (rw (ap (λ (x : Store). x.db) e3.1, e2, ap (λ (x : Store). x.db) e1.1) k)
              (rw e3.1 e3.0) refl)
            λ _ s4 r. Returns-continue _ _ (Returns-checkpoint host _ s4) λ _ s5 e5.
              Returns-ok _ _
                (subst (λ (x : Store). IsRevoked request.credential_id x.db) (sym e5) r))

  Returns-authenticate :
      (token : Text) (class : CredentialClass) (s : Store)
      → Returns (authenticate host token class s) (λ a s'.
        (t : Text) × (c : CredentialRow) × (find_authentic host (digest host (utf8 token)) t s.db
          ≡ some c)
        × (a.credential_id ≡ c.id))
  unfolding authenticate
  Returns-authenticate token class s = Returns-continue _ _ (Returns-fail_when _ _ s) λ _ s1 e1.
      Returns-continue _ _ (Returns-now host s1) λ t s2 e2.
        Returns-continue {A = CredentialRow} _ _ (Returns-some_or _ _ s2)
          λ c s3 e3. Returns-ok _ _ (t, c, rw⁻¹ (ap (λ (x : Store). x.db) e1.1) e3.0, refl)

  find_authentic-is_live :
      (hash t : Text) (db : Db) (c : CredentialRow)
      → find_authentic host hash t db ≡ some c
      → any (is_live c.id) db.credentials ≡ true
  unfolding find_authentic is_valid
  find_authentic-is_live hash t db c e =
      find-any_of _ (is_live c.id) db.credentials c e
        (ground (arith, find-eq-some _ db.credentials c e))

  authenticate-not_revoked :
      (id token : Text) (class : CredentialClass) (s s' : Store) (actor : AuthenticatedCredential)
      → IsRevoked id s.db
      → authenticate host token class s ≡ (ok actor, s')
      → actor.credential_id ≢ id
  authenticate-not_revoked id token class s s' actor r e is_id =
      let (t, c, found, credential) = (Returns-authenticate token class s).returns actor s' e in
      let live =
        subst (λ x. any (is_live x) s.db.credentials ≡ true) (sym credential ∙ is_id)
          (find_authentic-is_live (digest host (utf8 token)) t s.db c found) in
      absurd (cc)

  -- Once the revocation of a credential has returned, that credential authenticates no token, whatever
  -- administrative operations follow, at any time.
  pub revoke-never_authenticates :
      (request : CredentialRotateRequest) (metadata : CredentialMetadata) (s s1 t t' : Store)
      (token : Text) (class : CredentialClass) (actor : AuthenticatedCredential)
      → IsKeyed s.db
      → revoke host request s ≡ (ok metadata, s1)
      → Steps host s1 t
      → authenticate host token class t ≡ (ok actor, t')
      → actor.credential_id ≢ request.credential_id
  revoke-never_authenticates request metadata s s1 t t' token class actor k e steps a =
      let revoked = (Returns-revoke request s k).returns metadata s1 e in
      authenticate-not_revoked request.credential_id token class t t' actor
        (steps_keep (IsRevoked-frame request.credential_id)
          (IsRevoked-statements request.credential_id) host steps revoked)
        a
