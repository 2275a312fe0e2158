-- ===== src/Journal/Lists/Records/Seek.antt =====
-- crates/journal-service/src/records.rs: the lower bound of `list_records` skips the row of the cursor
-- and no other, since a space's numbers are unique.
use agent_journal.Prelude.{
  ◌||◌, ◌==◌, ◌≡◌, refl, ap, ℕ, Text, Option, List, [], ◌∷◌, Bool, true, false, ◌&&◌, ltb, max,
  unwrap_or, All, filter, map, same, text_lt, arith,
}
use agent_journal.Protocol.Requests.{ListRecordsQuery}
use agent_journal.Journal.Schema.{Db, RecordRow}
use agent_journal.Journal.Pages.{before, sort_by_seq}
use agent_journal.Journal.Lists.Records.{
  to_i64, record_sequence_lower_bound, list_record_ids, is_match, has_attention, has_relation,
}

filter-cong :
    (p q : RecordRow → Bool) (rows : List RecordRow)
    → All (λ r. p r ≡ q r) rows
    → filter p rows ≡ filter q rows
unfolding filter
filter-cong p q [] h = refl
filter-cong p q (r ∷ rows) h = ground (arith, h.0, filter-cong p q rows h.1)

All-imp :
    {P Q : RecordRow → Type 0} (rows : List RecordRow)
    → ((r : RecordRow) → P r → Q r)
    → All P rows
    → All Q rows
All-imp [] f h = tt
All-imp (r ∷ rows) f h = (f r h.0, All-imp rows f h.1)

-- No record of the space has the cursor's number and a later id than the cursor's.
abbrev pub NoneBeyond : Text → ℕ × Text → RecordRow → Type 0
NoneBeyond space (seq, id) r =
    same r.space_id space ≡ true → r.space_seq ≡ seq → text_lt id r.id ≡ false

abbrev is_listed : Text → ℕ → ℕ × Text → RecordRow → Bool
is_listed space lower cursor r =
    same r.space_id space && (ltb lower r.space_seq && before cursor (r.space_seq, r.id))

seek_number :
    (own : Bool) (n seq x : ℕ) (later : Bool)
    → (own ≡ true → x ≡ seq → later ≡ false)
    → (own && (ltb (max n seq) x && (ltb seq x || (seq == x && later))))
      ≡ (own && (ltb n x && (ltb seq x || (seq == x && later))))
seek_number false n seq x later h = refl
seek_number true n seq x false h = ground arith
seek_number true n seq x true h = ground (arith, h)

seek_row :
    (space : Text) (after_seq : Option ℕ) (seq : ℕ) (id : Text) (r : RecordRow)
    → NoneBeyond space (seq, id) r
    → is_listed space (record_sequence_lower_bound after_seq seq) (seq, id) r
      ≡ is_listed space (to_i64 (unwrap_or after_seq 0)) (seq, id) r
unfolding record_sequence_lower_bound
seek_row space after_seq seq id r h =
    seek_number (same r.space_id space) (to_i64 (unwrap_or after_seq 0)) seq r.space_seq
      (text_lt id r.id) h

-- The bound that an index can seek to, the larger of the caller's and the cursor's number, lists the
-- records that the caller's bound and the cursor's position alone list, when no record of the space has the
-- cursor's number and a later id than the cursor's.
pub list_record_ids-seek :
    (db : Db) (space : Text) (after_seq : Option ℕ) (seq : ℕ) (id : Text)
    (author attention : Option Text) (query : ListRecordsQuery)
    → All (NoneBeyond space (seq, id)) db.records
    → list_record_ids db space
        (record_sequence_lower_bound after_seq seq)
        (seq, id)
        author
        attention
        query
      ≡ list_record_ids db space (to_i64 (unwrap_or after_seq 0)) (seq, id) author attention query
unfolding list_record_ids
list_record_ids-seek db space after_seq seq id author attention query h =
    ap (λ (rows : List RecordRow). sort_by_seq (map (λ (r : RecordRow). (r.space_seq, r.id)) rows))
      (filter-cong _ _ db.records (
        All-imp db.records
          (λ r k.
            ap
              (λ b.
                b
                && ((is_match author r.author_principal_id && is_match query.kind r.kind)
                    && (has_attention db attention r.id && has_relation db query.relation r.id)))
              (seek_row space after_seq seq id r k))
          h))
