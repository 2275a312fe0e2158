-- ===== src/Journal/Append/Retried.antt =====
-- An append that is made again with the same key (crates/journal-service/src/records.rs,
-- `append_record`).
use agent_journal.Prelude.{
  ◌≡◌, refl, sym, ap, subst, ◌∙◌, Text, Option, none, some, List, [], ◌∷◌, ◌++◌, Bool, true, false,
  any, find, same, same_iff, ◌&&◌, find-append-absent, find-none-any, ok, inl, inr, arith,
}
use agent_journal.Domain.Types.{RecordInput, Record, AppendResult}
use agent_journal.Journal.Schema.{Db, RecordRow, IdempotencyRow}
use agent_journal.Journal.Tx.{Host, Store}
use agent_journal.Journal.Records.{find_record, attention_of, relations_of, rebuild}
use agent_journal.Journal.Credentials.Keyed.{IsKeyed, IsKeyed-frame}
use agent_journal.Journal.Append.{find_idempotency, append_path, append_record}
use agent_journal.Journal.Append.Owner.{Owns, Owns-unique, caller-Owns, author-Owns}
use agent_journal.Journal.Append.Outcome.{IsFirst, Outcome, append_record-ok}
use agent_journal.Journal.Append.Appended.{IsAppended}
use agent_journal.Journal.Append.Replayed.{IsReplayed}

find_snoc {ℓ} :
    {A : Type ℓ} (p : A → Bool) (xs : List A) (x : A)
    → any p xs ≡ false
    → p x ≡ true
    → find p (xs ++ (x ∷ [])) ≡ some x
unfolding find
find_snoc p xs x h e = find-append-absent p xs (x ∷ []) h ∙ ground (arith, e)

-- The row of an append is found by its id, and its key by the author, the path and the key.
IsAppended-find_record :
    (author space key hash : Text) (input : RecordInput) (result : AppendResult) (before after : Db)
    (a : IsAppended author space key hash input result before after)
    → find_record after a.row.id ≡ some a.row
unfolding find_record
IsAppended-find_record author space key hash input result before after a =
    let p : RecordRow → Bool = λ r. same r.id a.row.id in
    ap (find p) a.records
    ∙ find_snoc p before.records a.row a.new_id ((same_iff a.row.id a.row.id).1 refl)

IsAppended-find_idempotency :
    (author space key hash : Text) (input : RecordInput) (result : AppendResult) (before after : Db)
    (a : IsAppended author space key hash input result before after)
    → find_idempotency author (append_path space) key before ≡ none
    → find_idempotency author (append_path space) key after ≡ some a.key_row
unfolding find_idempotency
IsAppended-find_idempotency author space key hash input result before after a unused =
    let p : IdempotencyRow → Bool = λ k.
      same k.principal_id author
      && (same k.path (append_path space) && same k.idempotency_key key) in
    let row = a.key_row in
    let e1 =
      (same_iff row.principal_id author).1
        (ap (λ (k : IdempotencyRow). k.principal_id) a.is_key_row) in
    let e2 =
      (same_iff row.path (append_path space)).1
        (ap (λ (k : IdempotencyRow). k.path) a.is_key_row) in
    let e3 =
      (same_iff row.idempotency_key key).1
        (ap (λ (k : IdempotencyRow). k.idempotency_key) a.is_key_row) in
    let matches : p row ≡ true = rw (e1, e2, e3) refl in
    ap (find p) a.keys
    ∙ find_snoc p before.idempotency_keys row (find-none-any p before.idempotency_keys unused)
        matches

-- An answer again: the record is the one that was answered, up to the recipients and relations, which
-- are read from their tables.
pub record IsAgain (first second : AppendResult) (before after : Db) : Type 0 where
  pub replayed : second.replayed ≡ true
  pub unchanged : after ≡ before
  pub again : second.appended ≡ record first.appended {
    attention = attention_of before first.appended.id;
    relations = relations_of before first.appended.id;
  }

abbrev key_row_or : IdempotencyRow → Option IdempotencyRow → IdempotencyRow
key_row_or d none = d
key_row_or d (some k) = k

abbrev row_or : RecordRow → Option RecordRow → RecordRow
row_or d none = d
row_or d (some r) = r

module _ (host : Host) where
  -- The answer of the record's row is the earlier answer.
  rebuild-IsAppended :
      (author space key hash : Text) (input : RecordInput) (first : AppendResult)
      (before after : Db) (a : IsAppended author space key hash input first before after)
      → rebuild after a.row ≡ record first.appended {
        attention = attention_of after first.appended.id;
        relations = relations_of after first.appended.id;
      }
  rebuild-IsAppended author space key hash input first before after a =
      let of_tables : Record → Record = λ r. record r {
        attention = attention_of after r.id;
        relations = relations_of after r.id;
      } in
      ap (rebuild after) a.is_row ∙ ap (λ (x : AppendResult). of_tables x.appended) (sym a.answer)

  replayed_first :
      (author token space key hash hash' : Text) (input : RecordInput) (first second : AppendResult)
      (s s' s'' : Store) (a : IsAppended author space key hash input first s.db s'.db)
      → find_idempotency author (append_path space) key s'.db ≡ some a.key_row
      → (r : IsReplayed host token space key hash' s' second s''.db)
      → r.previous.principal_id ≡ author
      → IsAgain first second s'.db s''.db
  replayed_first author token space key hash hash' input first second s s' s'' a found r own =
      let same_key : r.previous ≡ a.key_row =
        ap (key_row_or a.key_row) (
          sym r.is_found
          ∙ ap (λ p. find_idempotency p (append_path space) key s'.db) own
          ∙ found) in
      let same_id : r.previous.record_id ≡ a.row.id =
        ap (λ (k : IdempotencyRow). k.record_id) (same_key ∙ a.is_key_row) in
      let stub = ap (λ (k : IdempotencyRow). k.response_json) (same_key ∙ a.is_key_row) in
      let answered : second.appended ≡ rebuild s'.db a.row = elim r.answer [
        | inl (_, row, is_row, e) ↦
            e
            ∙ ap (λ (x : Option RecordRow). rebuild s'.db (row_or row x))
                (sym is_row
                  ∙ ap (find_record s'.db) same_id
                  ∙ IsAppended-find_record author space key hash input first s.db s'.db a)
        | inr (n, _, _, _) ↦ absurd (n stub)
      ] in
      record {
        replayed = r.again;
        unchanged = r.kept;
        again = answered ∙ rebuild-IsAppended author space key hash input first s.db s'.db a;
      }

  after_first :
      (author token space key hash hash' : Text) (input input' : RecordInput)
      (first second : AppendResult) (s s' s'' : Store)
      → IsKeyed s.db
      → IsFirst host token space key author s
      → IsAppended author space key hash input first s.db s'.db
      → Outcome host token space key hash' input' s' second s''
      → IsAgain first second s'.db s''.db
  after_first author token space key hash hash' input input' first second s s' s'' keyed f a
        outcome =
      let keyed' : IsKeyed s'.db = IsKeyed-frame s.db s'.db a.credentials keyed in
      let author_owns : Owns host token s.db author =
        subst (λ (d : Db). Owns host token d author) f.same_db
          (author-Owns host token f.then_store author
            (IsKeyed-frame s.db f.then_store.db (ap (λ (d : Db). d.credentials) f.same_db) keyed)
            f.authored) in
      let caller_owns = caller-Owns host token s f.caller keyed f.called in
      let unused : find_idempotency author (append_path space) key s.db ≡ none =
        subst (λ p. find_idempotency p (append_path space) key s.db ≡ none)
          (Owns-unique host token s.db s.db author f.caller refl author_owns caller_owns)
          f.unused in
      let found =
        IsAppended-find_idempotency author space key hash input first s.db s'.db a unused in
      elim outcome [
        | inl r ↦
            replayed_first author token space key hash hash' input first second s s' s'' a found r (
              Owns-unique host token s.db s'.db author r.previous.principal_id a.credentials
                author_owns (caller-Owns host token s' r.previous.principal_id keyed' r.caller))
        | inr (_, g, _) ↦
            let again =
              Owns-unique host token s.db s'.db author g.caller a.credentials author_owns
                (caller-Owns host token s' g.caller keyed' g.called) in
            let free =
              subst (λ p. find_idempotency p (append_path space) key s'.db ≡ none) again g.unused in
            absurd (cc)
      ]

  -- Once an append has made a record, an append that follows with the same token, space and key, and
  -- that returns, is a replay: the database is left as the first append made it, and the answer is
  -- the record of the first answer, up to its recipients and relations, which are read from their
  -- tables. No two credentials share an id or a token's digest.
  pub append_record-retry :
      (token space key : Text) (input input' : RecordInput) (s s' s'' : Store)
      (first second : AppendResult)
      → IsKeyed s.db
      → first.replayed ≡ false
      → append_record host token space key input s ≡ (ok first, s')
      → append_record host token space key input' s' ≡ (ok second, s'')
      → IsAgain first second s'.db s''.db
  append_record-retry token space key input input' s s' s'' first second keyed fresh h h' =
      let (bytes, encoded, outcome) = append_record-ok host token space key input s s' first h in
      let (bytes', encoded', outcome') =
        append_record-ok host token space key input' s' s'' second h' in
      elim outcome [
        | inl r ↦ let again = r.again in absurd (cc)
        | inr (author, f, a) ↦
            after_first author token space key _ _ input input' first second s s' s'' keyed f a
              outcome'
      ]
