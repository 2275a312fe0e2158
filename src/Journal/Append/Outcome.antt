-- ===== src/Journal/Append/Outcome.antt =====
-- What an append that returns has done to the database (crates/journal-service/src/records.rs,
-- `append_record`).
use agent_journal.Prelude.{
  ℕ, ◌≡◌, subst, same_iff, find-Mem, find-eq-some, sym, ap, ◌∙◌, Text, Option, none, some, List,
  true, map_err, Result, ok, err, inl, inr, ◌⊎◌, arith,
}
use agent_journal.Domain.Types.{RecordInput, AppendResult}
use agent_journal.Domain.Title.{normalize_title}
use agent_journal.Journal.Schema.{Db, IdempotencyRow}
use agent_journal.Journal.Tx.{append_idempotency, Host, Store, digest}
use agent_journal.Journal.Access.{is_active, is_open, append_replay_actor, journal_actor}
use agent_journal.Journal.Append.{
  find_idempotency, append_path, replay_or_new, append_new, append_in, append_record,
}
use agent_journal.Journal.Append.Frames.{
  AreResolved, AreResolved-secret, Returns-permitted_active, Returns-cursor_codec,
  Returns-resolve_recipients, Returns-insert_idempotency,
}
use agent_journal.Journal.Returns.{
  Returns-with_value, value_or, Returns, Returns-continue, Returns-ok, Returns-weaken,
  Returns-fail_when, Returns-lift, Returns-transaction, Returns-checkpoint, Returns-journal_actor,
  Returns-append_replay_actor,
}
use agent_journal.Journal.Append.Created.{Returns-create_record, IsCreated}
use agent_journal.Journal.Append.Appended.{IsAppended, created-IsAppended}
use agent_journal.Journal.Append.Replayed.{Answers, IsReplayed, Returns-replay}

module _ (host : Host) where
  -- The caller has not used the key for the space before; with the same token the author is found in
  -- the same database.
  pub record IsFirst (token space key author : Text) (s : Store) : Type 0 where
    pub caller : Text
    pub called : (append_replay_actor host token s).0 ≡ ok caller
    pub unused : find_idempotency caller (append_path space) key s.db ≡ none
    pub then_store : Store
    pub same_db : then_store.db ≡ s.db
    pub authored : (journal_actor host token then_store).0 ≡ ok author

  abbrev pub Outcome :
      Text → Text → Text → Text → RecordInput → Store → AppendResult → Store → Type 0
  Outcome token space key hash input s result s' =
      IsReplayed host token space key hash s result s'.db
      ⊎ ((author : Text) × IsFirst token space key author s
          × IsAppended author space key hash input result s.db s'.db)

  Returns-append_new :
      (token space key hash : Text) (input : RecordInput) (s : Store)
      → Returns (append_new host token space key hash input s) (λ result s'.
        (author : Text) × ((journal_actor host token s).0 ≡ ok author)
        × IsAppended author space key hash input result s.db s'.db)
  unfolding append_new
  Returns-append_new token space key hash input s =
      Returns-continue _ _ (Returns-with_value (Returns-journal_actor host token s))
        λ actor s1 (called, k1).
          Returns-continue _ _ (Returns-permitted_active actor space true s1)
            λ _ s2 (k2, active, open_space).
              Returns-continue _ _ (Returns-cursor_codec host s2) λ codec s3 g3.
                Returns-continue _ _ (Returns-resolve_recipients space input.attention s3)
                  λ ids s4 (k4, are). Returns-continue _ _ (Returns-lift _ s4) λ bytes s5 (e5, k5).
                    Returns-continue _ _ (Returns-create_record host actor space _ s5) λ r s6 c.
                      Returns-continue _ _ (Returns-insert_idempotency _ s6) λ _ s7 e7.
                        Returns-continue _ _ (Returns-checkpoint host append_idempotency s7)
                          λ _ s8 k8. Returns-ok _ s8 (
                            let db1 : s2.db ≡ s.db = ap (λ (x : Store). x.db) k2 ∙ k1 in
                            let db3 : s3.db ≡ record s.db { cursor_secret = s3.db.cursor_secret } =
                              g3
                              ∙ ap (λ (d : Db). record d { cursor_secret = s3.db.cursor_secret })
                                  db1 in
                            let db5 : s5.db ≡ record s.db { cursor_secret = s3.db.cursor_secret } =
                              ap (λ (x : Store). x.db) (k5 ∙ k4) ∙ db3 in
                            (
                              actor,
                              called,
                              created-IsAppended actor space key hash input ids r s.db
                                  s3.db.cursor_secret s6.db s8.db
                                  (subst
                                    (λ (d : Db).
                                      IsCreated actor space
                                        (record input {
                                          attention = ids;
                                          title = normalize_title input.title;
                                        })
                                        r d s6.db)
                                    db5 c)
                                  (AreResolved-secret s.db s3.db.cursor_secret input.attention ids
                                    (subst (λ (d : Db). AreResolved d input.attention ids) db3 are))
                                  (subst (λ (d : Db). is_active d actor ≡ true) k1 active)
                                  (subst (λ (d : Db). is_open d space true ≡ true) k1 open_space)
                                  (ap (λ (x : Store). x.db) k8 ∙ e7),
                            ))

  Returns-replay_or_new :
      (token space key hash : Text) (input : RecordInput) (actor : Text) (s s0 : Store)
      (x : Option IdempotencyRow)
      → s.db ≡ s0.db
      → (append_replay_actor host token s0).0 ≡ ok actor
      → find_idempotency actor (append_path space) key s0.db ≡ x
      → Returns
          (replay_or_new host token space key hash input x s)
          (Outcome token space key hash input s0)
  unfolding find_idempotency
  Returns-replay_or_new token space key hash input actor s s0 none k caller f =
      Returns-weaken (Returns-append_new token space key hash input s)
        λ result s' (author, authored, r). inr (
          author,
          record {
            caller = actor;
            called = caller;
            unused = f;
            then_store = s;
            same_db = k;
            authored = authored;
          },
          subst (λ (d : Db). IsAppended author space key hash input result d s'.db) k r,
        )
  Returns-replay_or_new token space key hash input actor s s0 (some previous) k caller f =
      let matches = find-eq-some _ s0.db.idempotency_keys previous f in
      let own : previous.principal_id ≡ actor =
        (same_iff previous.principal_id actor).0 (ground (arith, matches)) in
      Returns-weaken (Returns-replay host hash previous s)
        λ result s' (with_hash, again, (kept, answers)). inl (record {
          previous = previous;
          stored = find-Mem _ s0.db.idempotency_keys previous f;
          caller = caller ∙ ap ok (sym own);
          is_found =
              subst (λ a. find_idempotency a (append_path space) key s0.db ≡ some previous)
                (sym own) f;
          path = (same_iff previous.path (append_path space)).0 (ground (arith, matches));
          with_key = (same_iff previous.idempotency_key key).0 (ground (arith, matches));
          with_hash = with_hash;
          answer = subst (λ (d : Db). Answers host d previous result) k answers;
          again = again;
          kept = ap (λ (x : Store). x.db) kept ∙ k;
        })

  Returns-append_in :
      (token space key hash : Text) (input : RecordInput) (s : Store)
      → Returns (append_in host token space key hash input s) (Outcome token space key hash input s)
  unfolding append_in
  Returns-append_in token space key hash input s =
      Returns-continue _ _ (Returns-with_value (Returns-append_replay_actor host token s))
        λ actor s1 (called, k1).
          Returns-replay_or_new token space key hash input actor s1 s _ k1 called
            (ap (find_idempotency actor (append_path space) key) (sym k1))

  map_err-eq-ok :
      {A E F : Type 0} (r : Result E A) (f : E → F) (a : A) → map_err r f ≡ ok a → r ≡ ok a
  map_err-eq-ok (ok b) f a h = ap ok (ap (value_or b) h)
  map_err-eq-ok (err e) f a h = absurd (cc)

  Returns-append_record :
      (token space key : Text) (input : RecordInput) (s : Store)
      → Returns (append_record host token space key input s) (λ result s'.
        (bytes : List ℕ) × (host.to_vec input ≡ ok bytes)
        × Outcome token space key (digest host bytes) input s result s')
  unfolding append_record
  Returns-append_record token space key input s =
      Returns-continue _ _ (Returns-fail_when _ _ s) λ _ s1 (b, k1).
        Returns-continue _ _ (Returns-lift _ s1) λ bytes s2 (e2, k2). rw (sym (k2 ∙ k1)) (
          Returns-weaken
            (Returns-transaction host _ s2
              (Returns-append_in token space key (digest host bytes) input s2))
            λ result s3 o. (bytes, map_err-eq-ok (host.to_vec input) _ bytes e2, o))

  -- An append that returns has done one of two things, as the caller has used its key for this space
  -- before or not. If so, the earlier request had the same digest; the database is left as it was,
  -- and the answer is the record of the earlier append, or the stored copy of the earlier answer,
  -- marked as replayed. If not, an active author has added one record to an open space, with the
  -- submitted content and the trimmed title, under a new id and the number after the largest of the
  -- space; every recipient was resolved to an active principal, and has one new inbox item of the
  -- record, not acknowledged; and the key is stored with the record's id and the digest of the
  -- request as it was submitted, its recipients in the order given. The answer is that record.
  pub append_record-ok :
      (token space key : Text) (input : RecordInput) (s s' : Store) (result : AppendResult)
      → append_record host token space key input s ≡ (ok result, s')
      → (bytes : List ℕ) × (host.to_vec input ≡ ok bytes)
        × Outcome token space key (digest host bytes) input s result s'
  append_record-ok token space key input s s' result h =
      (Returns-append_record token space key input s).returns result s' h
