-- ===== src/Journal/Append/Numbered.antt =====
-- The records of a space are numbered from 1 without a gap, in the order of their appends
-- (crates/journal-service/src/records.rs, `append_record`).
use agent_journal.Prelude.{
  ℕ, ◌+◌, max, ◌≡◌, sym, ap, ◌∙◌, Text, List, [], ◌∷◌, ◌++◌, true, same, same_iff, if◌then◌else◌,
  Bool-cases, ok, inl, inr, arith,
}
use agent_journal.Domain.Types.{RecordInput, AppendResult}
use agent_journal.Journal.Schema.{Db, RecordRow}
use agent_journal.Journal.Tx.{Host, Store}
use agent_journal.Journal.Append.{max_seq, append_record}
use agent_journal.Journal.Append.Outcome.{append_record-ok}
use agent_journal.Journal.Append.Appended.{IsAppended}

abbrev next_count : Text → ℕ → RecordRow → ℕ
next_count space n r = if same r.space_id space then n + 1 else n

abbrev count_from : Text → ℕ → List RecordRow → ℕ
count_from space n [] = n
count_from space n (r ∷ rs) = count_from space (next_count space n r) rs

-- After n records of the space, the next ones have the numbers n + 1, n + 2 and so on.
abbrev pub Numbered : Text → ℕ → List RecordRow → Type 0
Numbered space n [] = Unit
Numbered space n (r ∷ rs) =
    (same r.space_id space ≡ true → r.space_seq ≡ n + 1) × Numbered space (next_count space n r) rs

Numbered-snoc :
    (space : Text) (n : ℕ) (rs : List RecordRow) (row : RecordRow)
    → Numbered space n rs
    → (same row.space_id space ≡ true → row.space_seq ≡ count_from space n rs + 1)
    → Numbered space n (rs ++ (row ∷ []))
Numbered-snoc space n [] row h k = (k, tt)
Numbered-snoc space n (r ∷ rs) row h k =
    (h.0, Numbered-snoc space (next_count space n r) rs row h.1 k)

max_seq-Numbered :
    (space : Text) (n : ℕ) (rs : List RecordRow)
    → Numbered space n rs
    → max n (max_seq space rs) ≡ count_from space n rs
unfolding max_seq
max_seq-Numbered space n [] h = omega arith
max_seq-Numbered space n (r ∷ rs) h = elim (Bool-cases (same r.space_id space)) [
  | inl own ↦
      let next = max_seq-Numbered space (next_count space n r) rs h.1 in
      ground (arith, next, h.0 own)
  | inr other ↦
      let next = max_seq-Numbered space (next_count space n r) rs h.1 in ground (arith, next)
]

-- Every space's records are numbered so.
pub record AllNumbered (db : Db) : Type 0 where
  pub numbered : (space : Text) → Numbered space 0 db.records

IsAppended-AllNumbered :
    (author space key hash : Text) (input : RecordInput) (result : AppendResult) (before after : Db)
    → IsAppended author space key hash input result before after
    → AllNumbered before
    → AllNumbered after
IsAppended-AllNumbered author space key hash input result before after a h = record {
  numbered = λ sp. rw a.records (
      Numbered-snoc sp 0 before.records a.row (h.numbered sp) λ own.
        let e : sp ≡ space =
          sym ((same_iff a.row.space_id sp).0 own) ∙ ap (λ (r : RecordRow). r.space_id) a.is_row in
        let m = max_seq-Numbered sp 0 before.records (h.numbered sp) in
        ap (λ (r : RecordRow). r.space_seq) a.is_row
        ∙ ap (λ x. max_seq x before.records + 1) (sym e)
        ∙ omega (arith, m));
}

module _ (host : Host) where
  -- An append that returns keeps the records of every space numbered from 1, without a gap and in the
  -- order of their appends.
  pub append_record-AllNumbered :
      (token space key : Text) (input : RecordInput) (s s' : Store) (result : AppendResult)
      → AllNumbered s.db
      → append_record host token space key input s ≡ (ok result, s')
      → AllNumbered s'.db
  append_record-AllNumbered token space key input s s' result h e =
      let (bytes, encoded, outcome) = append_record-ok host token space key input s s' result e in
      elim outcome [
        | inl r ↦ rw r.kept h
        | inr (author, _, a) ↦ IsAppended-AllNumbered author space key _ input result s.db s'.db a h
      ]
