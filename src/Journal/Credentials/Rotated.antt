-- ===== src/Journal/Credentials/Rotated.antt =====
-- crates/journal-service/src/bootstrap.rs: a rotation's replacement authenticates as the principal.
use agent_journal.Prelude.{
  ◌≡◌, ◌<◌, ◌*◌, ℕ, refl, ap, ◌∙◌, Text, Option, some, List, [], ◌∷◌, ◌++◌, Bool, true, false, not,
  ◌||◌, any, all, All, find, map, length, byte_len, utf8, arith, Bool-cases, inl, inr, find-any,
  any_stricter,
}
use agent_journal.Protocol.Requests.{
  CredentialRotateRequest, CredentialRotationResponse, OneTimeSecret,
}
use agent_journal.Journal.Schema.{Db, CredentialRow, AuditOperation, rotated}
use agent_journal.Journal.Tx.{Host, Store, fail_when, hex, digest, secret, fill_random}
use agent_journal.Journal.Returns.{
  Returns, Returns-continue, Returns-ok, Returns-some_or, Returns-checkpoint,
}
use agent_journal.Journal.Access.{active_principal}
use agent_journal.Journal.Principals.Effects.{SameNames}
use agent_journal.Journal.Credentials.{
  text, insert_credential, insert_audit, new_credential, issue_principal,
}
use agent_journal.Journal.Credentials.Changes.{
  update_credential, update_row, expire, replaced, rotate_in,
}
use agent_journal.Journal.Credentials.Revoked.{has_credential_id}
use agent_journal.Journal.Credentials.Keyed.{is_taken}

-- The source of secrets fills 32 bytes.
pub record IsFilling (host : Host) : Type 0 where
  pub filled :
      (n : ℕ) (bytes : List ℕ)
      → host.fill n ≡ some bytes
      → (length bytes ≡ 32) × All (λ b. b < 256) bytes

byte_len-hex : (bytes : List ℕ) → All (λ b. b < 256) bytes → byte_len (hex bytes) ≡ 2 * length bytes
unfolding byte_len hex
byte_len-hex [] h = refl
byte_len-hex (b ∷ bytes) h = ground (arith, byte_len-hex bytes h.1, h.0)

Returns-insert_row :
    (row : CredentialRow) (s : Store)
    → Returns (insert_credential row s) (λ _ s'.
      (any (is_taken row) s.db.credentials ≡ false)
      × (s'.db ≡ record s.db { credentials = s.db.credentials ++ (row ∷ []) }))
unfolding insert_credential fail_when
Returns-insert_row row s = record { returns = λ a s' h. ground arith }

Returns-audit_row :
    (id : Text) (op : AuditOperation) (t : Text) (reason : Option Text) (s : Store)
    → Returns
        (insert_audit id op t reason s)
        (λ _ s'. (s'.db.credentials ≡ s.db.credentials) × SameNames s.db s'.db)
unfolding insert_audit
Returns-audit_row id op t reason s =
    Returns-ok tt _ (refl, record { principals = refl; names = refl })

Returns-update_row :
    (id : Text) (f : CredentialRow → CredentialRow) (s : Store)
    → Returns (update_credential id f s) (λ _ s'.
      (s'.db.credentials ≡ map (update_row id f) s.db.credentials) × SameNames s.db s'.db)
unfolding update_credential
Returns-update_row id f s = Returns-ok tt _ (refl, record { principals = refl; names = refl })

module _ (host : Host) (f : IsFilling host) where
  Returns-fill_random :
      (s : Store)
      → Returns (fill_random host s) (λ bytes s'. (host.fill s.uses ≡ some bytes) × (s'.db ≡ s.db))
  unfolding fill_random
  Returns-fill_random s = record { returns = λ bytes s' e. ground arith }

  Returns-secret_len :
      (s : Store) → Returns (secret host s) (λ t s'. (byte_len t ≡ 64) × (s'.db ≡ s.db))
  unfolding secret
  Returns-secret_len s =
      Returns-continue {A = List ℕ} _ _ (Returns-fill_random s) λ bytes s1 (filled_by, e1).
        Returns-ok _ _ (
          let (size, small) = f.filled s.uses bytes filled_by in
              byte_len-hex bytes small ∙ omega (arith, size),
          e1,
        )

  Returns-issue_principal :
      (principal t : Text) (s : Store)
      → Returns (issue_principal host principal t s) (λ r s'.
        (byte_len r.secret ≡ 64)
        × (any
              (is_taken (new_credential r.credential_id principal (digest host (utf8 r.secret)) t))
              s.db.credentials
            ≡ false)
        × (s'.db.credentials
            ≡ s.db.credentials
              ++ (new_credential r.credential_id principal (digest host (utf8 r.secret)) t ∷ []))
        × SameNames s.db s'.db)
  unfolding issue_principal
  Returns-issue_principal principal t s =
      Returns-continue _ _ (Returns-secret_len s) λ suffix s1 e1.
        Returns-continue _ _ (Returns-secret_len s1) λ token s2 e2.
          Returns-continue _ _ (Returns-insert_row _ s2) λ _ s3 e3.
            Returns-continue _ _ (Returns-audit_row _ _ _ _ s3) λ _ s4 e4. Returns-ok _ _ (
              e2.0,
              rw⁻¹ (e1.1, e2.1) e3.0,
              e4.0
                  ∙ ap (λ (d : Db). d.credentials) e3.1
                  ∙ ap
                      (λ (d : Db).
                        d.credentials
                        ++ (new_credential (text "cred-" ++ suffix) principal
                              (digest host (utf8 token)) t
                            ∷ []))
                      (e2.1 ∙ e1.1),
              record {
                principals =
                    e4.1.principals
                    ∙ ap (λ (d : Db). d.principals) e3.1
                    ∙ ap (λ (d : Db). d.principals) (e2.1 ∙ e1.1);
                names =
                    e4.1.names
                    ∙ ap (λ (d : Db). d.principal_names) e3.1
                    ∙ ap (λ (d : Db). d.principal_names) (e2.1 ∙ e1.1);
              },
            )

-- What a rotation that returns has done to the credentials.
pub record IsRotated (host : Host) (request : CredentialRotateRequest) (t : Text)
    (r : CredentialRotationResponse) (before after : Db) : Type 0 where
  pub row : CredentialRow
  pub row_found : any (has_credential_id request.credential_id) before.credentials ≡ true
  pub row_from :
      (p : CredentialRow → Bool)
      → all (λ c. not (has_credential_id request.credential_id c) || p c) before.credentials ≡ true
      → p row ≡ true
  pub principal : r.metadata.principal_id ≡ row.principal_id
  pub secret_len : byte_len r.replacement_secret.secret ≡ 64
  pub fresh :
      any
        (is_taken (
          new_credential r.replacement_secret.credential_id row.principal_id
            (digest host (utf8 r.replacement_secret.secret))
            t))
        before.credentials
      ≡ false
  pub credentials :
      after.credentials
      ≡ map
          (update_row request.credential_id
            (replaced t r.replacement_secret.credential_id request.reason))
          (map (update_row r.replacement_secret.credential_id (expire row.expires_at)) (
            before.credentials
            ++ (new_credential r.replacement_secret.credential_id row.principal_id
                  (digest host (utf8 r.replacement_secret.secret))
                  t
                ∷ [])))

find-all :
    (id : Text) (q p : CredentialRow → Bool) (rows : List CredentialRow) (row : CredentialRow)
    → ((c : CredentialRow) → q c ≡ true → has_credential_id id c ≡ true)
    → find q rows ≡ some row
    → all (λ c. not (has_credential_id id c) || p c) rows ≡ true
    → p row ≡ true
unfolding find all
find-all id q p [] row h e k = absurd (cc)
find-all id q p (c ∷ rows) row h e k = elim (Bool-cases (q c)) [
  | inl own ↦
      let first : c ≡ row = ground (arith, own, e) in
      let is_own = h c own in rw⁻¹ first (ground (arith, is_own, k))
  | inr other ↦ find-all id q p rows row h (ground (arith, other, e)) (ground (arith, k))
]

module _ (host : Host) (f : IsFilling host) where
  pub Returns-rotate_in :
      (request : CredentialRotateRequest) (t : Text) (s : Store)
      → Returns (rotate_in host request t s) (λ r s'. IsRotated host request t r s.db s'.db)
  unfolding rotate_in active_principal
  Returns-rotate_in request t s =
      Returns-continue {A = CredentialRow} _ _ (Returns-some_or _ _ s) λ row s1 e1.
        Returns-continue {A = Text} _ _ (Returns-some_or _ _ s1) λ selected s2 e2.
          Returns-continue {A = OneTimeSecret} _ _
            (Returns-issue_principal host f row.principal_id t s2)
            λ replacement s3 (len, fresh, issued, e3).
              Returns-continue _ _
                (Returns-update_row replacement.credential_id (expire row.expires_at) s3)
                λ _ s4 (expired, e4). Returns-continue _ _ (Returns-checkpoint host _ s4) λ _ s5 e5.
                  Returns-continue _ _
                    (Returns-update_row request.credential_id
                      (replaced t replacement.credential_id request.reason) s5)
                    λ _ s6 (done, e6).
                      Returns-continue _ _ (Returns-audit_row _ rotated t _ s6) λ _ s7 e7.
                        Returns-continue _ _ (Returns-checkpoint host _ s7) λ _ s8 e8.
                          Returns-ok _ _ (record {
                            row = row;
                            row_found =
                                any_stricter (has_credential_id request.credential_id) _
                                  s.db.credentials (λ c k. ground (arith, k))
                                  (find-any _ s.db.credentials row e1.0);
                            row_from = λ p k.
                                find-all request.credential_id _ p s.db.credentials row
                                  (λ c h. ground (arith, h)) e1.0 k;
                            principal = refl;
                            secret_len = len;
                            fresh = rw⁻¹ (ap (λ (x : Store). x.db) (e2.1 ∙ e1.1)) fresh;
                            credentials =
                                ap (λ (x : Store). x.db.credentials) e8
                                ∙ e7.0
                                ∙ done
                                ∙ ap
                                    (map (
                                      update_row request.credential_id
                                        (replaced t replacement.credential_id request.reason)))
                                    (ap (λ (x : Store). x.db.credentials) e5
                                      ∙ expired
                                      ∙ ap
                                          (map (
                                            update_row replacement.credential_id
                                              (expire row.expires_at)))
                                          (issued
                                            ∙ ap
                                                (λ (x : Store).
                                                  x.db.credentials
                                                  ++ (new_credential replacement.credential_id
                                                        row.principal_id
                                                        (digest host (utf8 replacement.secret)) t
                                                      ∷ []))
                                                (e2.1 ∙ e1.1)));
                          })
