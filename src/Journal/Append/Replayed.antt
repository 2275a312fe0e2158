-- ===== src/Journal/Append/Replayed.antt =====
-- The answer to an append that was made before (crates/journal-service/src/records.rs,
-- `append_record`).
use agent_journal.Prelude.{
  ◌≡◌, ◌≢◌, refl, Mem, same, same_iff, ◌∙◌, Text, some, Bool, true, false, ok, inl, inr, ◌⊎◌, arith,
}
use agent_journal.Domain.Types.{AppendResult}
use agent_journal.Journal.Schema.{Db, RecordRow, IdempotencyRow}
use agent_journal.Journal.Tx.{Host, Store}
use agent_journal.Journal.Records.{get_record, find_record, rebuild}
use agent_journal.Journal.Access.{append_replay_actor}
use agent_journal.Journal.Append.{
  find_idempotency, append_path, rebuilt_append_response, answer_of, replay,
}
use agent_journal.Journal.Returns.{
  Returns, Returns-continue, Returns-ok, Returns-weaken, Returns-some_or, Returns-fail_when,
}

same-false : (a b : Text) → same a b ≡ false → a ≢ b
same-false a b e eq = let t = (same_iff a b).1 eq in cc

module _ (host : Host) where
  -- The answer to an earlier append: what the record is now, or the copy of an answer.
  abbrev pub Answers : Db → IdempotencyRow → AppendResult → Type 0
  Answers db previous result =
      ((previous.response_json ≡ rebuilt_append_response)
        × (row : RecordRow) × (find_record db previous.record_id ≡ some row)
        × (result.appended ≡ rebuild db row))
      ⊎ ((previous.response_json ≢ rebuilt_append_response)
          × (stored : AppendResult) × (host.decode_response previous.response_json ≡ some stored)
          × (result.appended ≡ stored.appended))

  -- Nothing is changed, and the answer to the caller's earlier append is given, which had this key and
  -- the same request.
  pub record IsReplayed (token space key hash : Text) (s : Store) (result : AppendResult)
      (after : Db) : Type 0 where
    pub previous : IdempotencyRow
    pub stored : Mem previous s.db.idempotency_keys
    pub caller : (append_replay_actor host token s).0 ≡ ok previous.principal_id
    pub is_found :
        find_idempotency previous.principal_id (append_path space) key s.db ≡ some previous
    pub path : previous.path ≡ append_path space
    pub with_key : previous.idempotency_key ≡ key
    pub with_hash : previous.payload_hash ≡ hash
    pub answer : Answers s.db previous result
    pub again : result.replayed ≡ true
    pub kept : after ≡ s.db

  Returns-get_record :
      (id : Text) (s : Store)
      → Returns (get_record id s) (λ r s'.
        (s' ≡ s) × (row : RecordRow) × (find_record s.db id ≡ some row) × (r ≡ rebuild s.db row))
  unfolding get_record find_record
  Returns-get_record id s =
      Returns-continue {A = RecordRow} _ _ (Returns-some_or _ _ s)
        λ row s1 (found, k1). Returns-ok _ s1 (k1, row, found, refl)

  abbrev pub IsAnswer : IdempotencyRow → Store → AppendResult → Store → Type 0
  IsAnswer previous s result s' = (s' ≡ s) × Answers s.db previous result

  Returns-answer_of :
      (b : Bool) (previous : IdempotencyRow) (s : Store)
      → same previous.response_json rebuilt_append_response ≡ b
      → Returns (answer_of host b previous.record_id previous.response_json s) (IsAnswer previous s)
  Returns-answer_of true previous s e =
      Returns-continue _ _ (Returns-get_record previous.record_id s) λ r s1 (k, row, found, is_row).
        Returns-ok _ s1 (
          k,
          inl ((same_iff previous.response_json rebuilt_append_response).0 e, row, found, is_row),
        )
  Returns-answer_of false previous s e =
      Returns-weaken (Returns-some_or _ _ s)
        λ result s1 (decoded, k). (k, inr (same-false _ _ e, result, decoded, refl))

  pub Returns-replay :
      (hash : Text) (previous : IdempotencyRow) (s : Store)
      → Returns (replay host hash previous s) (λ result s'.
        (previous.payload_hash ≡ hash) × (result.replayed ≡ true) × IsAnswer previous s result s')
  unfolding replay
  Returns-replay hash previous s = Returns-continue _ _ (Returns-fail_when _ _ s) λ _ s1 (b, k1).
      Returns-continue _ _ (Returns-answer_of _ previous s1 refl) λ result s2 (k2, answers).
        Returns-ok _ s2 (
          (same_iff previous.payload_hash hash).0 (ground (arith, b)),
          refl,
          (k2 ∙ k1, rw k1 at answers),
        )
