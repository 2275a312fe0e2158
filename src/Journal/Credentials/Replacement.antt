-- ===== src/Journal/Credentials/Replacement.antt =====
-- crates/journal-service/src/bootstrap.rs: a rotation's replacement authenticates as the principal of
-- the credential that it replaces, for as long as that one would have.
use agent_journal.Prelude.{
  ◌≡◌, refl, sym, ap, ◌∙◌, subst, Text, some, List, [], ◌∷◌, ◌++◌, Bool, true, false, not, ◌&&◌,
  ◌||◌, any, all, find, map, byte_len, utf8, same, same_iff, arith, ok, Bool-cases, inl, inr,
  any_none,
}
use agent_journal.Protocol.Requests.{
  CredentialRotateRequest, CredentialRotationResponse, principal_client,
}
use agent_journal.Journal.Schema.{Db, CredentialRow}
use agent_journal.Journal.Tx.{Host, Store, fail_when, some_or, now, digest}
use agent_journal.Journal.Returns.{
  Returns, Returns-continue, Returns-weaken, Returns-lift, Returns-now, Returns-transaction,
}
use agent_journal.Journal.Access.{is_active, is_valid, unexpired}
use agent_journal.Journal.Credentials.{new_credential, find_authentic, authenticate}
use agent_journal.Journal.Credentials.Changes.{update_row, expire, replaced, rotate}
use agent_journal.Journal.Credentials.Revoked.{has_credential_id}
use agent_journal.Journal.Credentials.Keyed.{has_hash, is_taken}
use agent_journal.Journal.Credentials.Rotated.{IsFilling, IsRotated, Returns-rotate_in}

-- The last row of a table with two updates is found, when no other row has its digest.
find_last :
    (q : CredentialRow → Bool) (hash : Text) (f g : CredentialRow → CredentialRow)
    (rows : List CredentialRow) (row : CredentialRow)
    → ((c : CredentialRow) → q (f (g c)) ≡ true → has_hash hash c ≡ true)
    → any (has_hash hash) rows ≡ false
    → q (f (g row)) ≡ true
    → find q (map f (map g (rows ++ (row ∷ [])))) ≡ some (f (g row))
unfolding find any
find_last q hash f g [] row h k e = rw e refl
find_last q hash f g (c ∷ rows) row h k e = ground (arith, h c, k, find_last q hash f g rows row h)

module _ (host : Host) (request : CredentialRotateRequest) (t : Text)
    (r : CredentialRotationResponse) (before after : Db)
    (a : IsRotated host request t r before after) where
  abbrev hash : Text
  hash = digest host (utf8 r.replacement_secret.secret)

  abbrev issued_row : CredentialRow
  issued_row = new_credential r.replacement_secret.credential_id a.row.principal_id hash t

  abbrev final_row : CredentialRow
  final_row =
      update_row request.credential_id
        (replaced t r.replacement_secret.credential_id request.reason)
        (update_row r.replacement_secret.credential_id (expire a.row.expires_at) issued_row)

  hash_fresh : any (has_hash hash) before.credentials ≡ false
  hash_fresh =
      any_none (has_hash hash) (is_taken issued_row) before.credentials (λ c k. ground (arith, k))
        a.fresh

  id_fresh : same r.replacement_secret.credential_id request.credential_id ≡ false
  id_fresh = elim (Bool-cases (same r.replacement_secret.credential_id request.credential_id)) [
    | inl e ↦
        let free =
          any_none (has_credential_id r.replacement_secret.credential_id) (is_taken issued_row)
            before.credentials (λ c k. ground (arith, k)) a.fresh in
        let taken =
          subst (λ x. any (has_credential_id x) before.credentials ≡ true)
            (sym ((same_iff _ _).0 e)) a.row_found in
        absurd (cc)
    | inr e ↦ e
  ]

  final_expires : final_row ≡ record issued_row { expires_at = a.row.expires_at }
  final_expires = ground (arith, id_fresh)

  found :
      (later : Text)
      → is_active after a.row.principal_id ≡ true
      → unexpired host later a.row.expires_at ≡ true
      → find_authentic host hash later after
        ≡ some (record issued_row { expires_at = a.row.expires_at })
  unfolding find_authentic is_valid
  found later active valid =
      let at_end =
        find_last (λ c. is_valid host hash later c && is_active after c.principal_id) hash
          (update_row request.credential_id
            (replaced t r.replacement_secret.credential_id request.reason))
          (update_row r.replacement_secret.credential_id (expire a.row.expires_at))
          before.credentials issued_row (λ c k. ground (arith, k)) hash_fresh
          (rw final_expires (ground (arith, active, valid))) in
      ap (find (λ c. is_valid host hash later c && is_active after c.principal_id)) a.credentials
      ∙ at_end
      ∙ ap some final_expires

module _ (host : Host) where
  Returns-rotate :
      (request : CredentialRotateRequest) (s : Store)
      → IsFilling host
      → Returns (rotate host request s) (λ r s'. (t : Text) × IsRotated host request t r s.db s'.db)
  unfolding rotate
  Returns-rotate request s f = Returns-continue _ _ (Returns-lift _ s) λ _ s1 e1.
      Returns-continue _ _ (Returns-now host s1) λ t s2 e2.
        Returns-weaken (Returns-transaction host _ s2 (Returns-rotate_in host f request t s2))
          λ r s3 a. (t, rw⁻¹ (ap (λ (x : Store). x.db) e1.1, e2) a)

  authenticate-ok :
      (token later : Text) (c : CredentialRow) (s s' : Store)
      → byte_len token ≡ 64
      → now host s ≡ (ok later, s')
      → find_authentic host (digest host (utf8 token)) later s.db ≡ some c
      → authenticate host token principal_client s ≡ (
        ok (record {
          credential_id = c.id;
          principal_id = c.principal_id;
          class = principal_client;
        }),
        s',
      )
  unfolding authenticate fail_when some_or
  authenticate-ok token later c s s' len n e = rw (len, n, e) refl

  -- A rotation that returns gives a secret that authenticates as the principal of the credential that
  -- it replaces, with the id that it names, at every time before the expiry of that credential and while the principal is active. The source of secrets fills 32 bytes.
  pub rotate-authenticates :
      (request : CredentialRotateRequest) (r : CredentialRotationResponse) (s s1 s2 : Store)
      (later : Text)
      → IsFilling host
      → rotate host request s ≡ (ok r, s1)
      → now host s1 ≡ (ok later, s2)
      → is_active s1.db r.metadata.principal_id ≡ true
      → all
          (λ (c : CredentialRow).
            not (has_credential_id request.credential_id c) || unexpired host later c.expires_at)
          s.db.credentials
        ≡ true
      → authenticate host r.replacement_secret.secret principal_client s1 ≡ (
        ok (record {
          credential_id = r.replacement_secret.credential_id;
          principal_id = r.metadata.principal_id;
          class = principal_client;
        }),
        s2,
      )
  rotate-authenticates request r s s1 s2 later f e n active valid =
      let (t, a) = (Returns-rotate request s f).returns r s1 e in
      let at =
        found host request t r s.db s1.db a later (rw⁻¹ a.principal active)
          (a.row_from (λ c. unexpired host later c.expires_at) valid) in
      authenticate-ok r.replacement_secret.secret later _ s1 s2 a.secret_len n at
      ∙ ap
          (λ p. (
            ok (record {
              credential_id = r.replacement_secret.credential_id;
              principal_id = p;
              class = principal_client;
            }),
            s2,
          ))
          (sym a.principal)
