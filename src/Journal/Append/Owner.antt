-- ===== src/Journal/Append/Owner.antt =====
-- Who calls by a token: the principal of its one credential (crates/journal-service/src/bootstrap.rs,
-- `journal_actor` and `append_replay_actor`).
use agent_journal.Prelude.{
  ◌≡◌, refl, sym, ap, ◌∙◌, Text, Option, none, some, true, find, find-once, ok, arith,
}
use agent_journal.Journal.Schema.{Db, CredentialRow}
use agent_journal.Journal.Tx.{Host, Store, digest}
use agent_journal.Journal.Access.{append_replay_actor, journal_actor, is_valid}
use agent_journal.Journal.Returns.{
  Returns, Returns-continue, Returns-fail_when, Returns-now, Returns-some_or, Returns-ok,
}
use agent_journal.Journal.Credentials.Keyed.{IsKeyed, has_hash}

abbrev principal_or : Text → Option CredentialRow → Text
principal_or p none = p
principal_or p (some c) = c.principal_id

module _ (host : Host) where
  -- The one credential of the token is of this principal.
  abbrev pub Owns : Text → Db → Text → Type 0
  Owns token db principal =
      (c : CredentialRow) × (find (has_hash (digest host token)) db.credentials ≡ some c)
      × (c.principal_id ≡ principal)

  is_valid-has_hash :
      (hash t : Text) (c : CredentialRow) → is_valid host hash t c ≡ true → has_hash hash c ≡ true
  unfolding is_valid
  is_valid-has_hash hash t c e = ground (arith, e)

  append_replay_actor-Owns :
      (token : Text) (s : Store)
      → IsKeyed s.db
      → Returns (append_replay_actor host token s) (λ a s'. Owns token s.db a)
  unfolding append_replay_actor
  append_replay_actor-Owns token s keyed =
      Returns-continue _ _ (Returns-fail_when _ _ s) λ _ s1 (b, k1).
        Returns-continue _ _ (Returns-now host s1) λ t s2 k2.
          Returns-continue {A = CredentialRow} _ _ (Returns-some_or _ _ s2) λ c s3 (found, k3).
            let found' : find (is_valid host (digest host token) t) s.db.credentials ≡ some c =
              rw (k2 ∙ ap (λ (x : Store). x.db) k1) at found in
            Returns-ok _ s3 (
              c,
              find-once _ _ s.db.credentials c (keyed.hash_once (digest host token))
                  (is_valid-has_hash (digest host token) t) found',
              refl,
            )

  journal_actor-Owns :
      (token : Text) (s : Store)
      → IsKeyed s.db
      → Returns (journal_actor host token s) (λ a s'. Owns token s.db a)
  unfolding journal_actor
  journal_actor-Owns token s keyed = Returns-continue _ _ (Returns-fail_when _ _ s) λ _ s1 (b, k1).
      Returns-continue _ _ (Returns-now host s1) λ t s2 k2.
        Returns-continue {A = CredentialRow} _ _ (Returns-some_or _ _ s2) λ c s3 (found, k3).
          let same_db = k2 ∙ ap (λ (x : Store). x.db) k1 in
          let found' = rw same_db at found in
          Returns-ok _ s3 (
            c,
            find-once _ _ s.db.credentials c (keyed.hash_once (digest host token))
                (λ d e. is_valid-has_hash (digest host token) t d (ground (arith, e))) found',
            refl,
          )

module _ (host : Host) where
  pub caller-Owns :
      (token : Text) (s : Store) (a : Text)
      → IsKeyed s.db
      → (append_replay_actor host token s).0 ≡ ok a
      → Owns host token s.db a
  caller-Owns token s a keyed e =
      (append_replay_actor-Owns host token s keyed).returns a (append_replay_actor host token s).1
        (λ i. (e i, (append_replay_actor host token s).1))

  pub author-Owns :
      (token : Text) (s : Store) (a : Text)
      → IsKeyed s.db
      → (journal_actor host token s).0 ≡ ok a
      → Owns host token s.db a
  author-Owns token s a keyed e =
      (journal_actor-Owns host token s keyed).returns a (journal_actor host token s).1
        (λ i. (e i, (journal_actor host token s).1))

module _ (host : Host) where
  pub Owns-unique :
      (token : Text) (db db' : Db) (p q : Text)
      → db'.credentials ≡ db.credentials
      → Owns host token db p
      → Owns host token db' q
      → q ≡ p
  Owns-unique token db db' p q e (c, found, own) (d, found', own') =
      let both : some d ≡ some c =
        sym found' ∙ ap (find (has_hash (digest host token))) e ∙ found in
      sym own' ∙ ap (λ (x : Option CredentialRow). principal_or p x) both ∙ own
