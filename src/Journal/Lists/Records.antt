-- ===== src/Journal/Lists/Records.antt =====
-- crates/journal-service/src/records.rs: `list_records`, with its filters.
pub mod Seek
use agent_journal.Prelude.{
  ℕ, ◌+◌, Text, Option, none, some, List, [], ◌∷◌, Bool, true, false, ◌||◌, ◌&&◌, if◌then◌else◌,
  ltb, leb, max, unwrap_or, any, find, filter, map, take, same, map_err, Result, ok, err,
}
use agent_journal.Domain.Types.{Record, RelationType, RelationType-discrete}
use agent_journal.Protocol.Cursor.{
  CursorCodec, CursorScope, CursorPosition, at_sequence, records, sequence, new_scope,
}
use agent_journal.Protocol.Pages.{Page, PageQuery, effective_limit}
use agent_journal.Protocol.Requests.{ListRecordsQuery, validate_list_records}
use agent_journal.Journal.Schema.{Db, SpaceRow, NameRow, RecordRow, RelationRow, AttentionRow}
use agent_journal.Journal.Tx.{
  BootstrapError, Host, Tx, ◌>>=◌, ◌>>◌, pure, lift, some_or, read_db, invalid, invalid_journal,
}
use agent_journal.Journal.Access.{select_principal, permitted}
use agent_journal.Journal.Pages.{
  i64_max, before, given_cursor, position_of, sort_by_seq, get_records, finish_page,
}
use agent_journal.Journal.Lists.{ReadIdentity, read_actor, read_paged}

-- `record_sequence_lower_bound`
abbrev pub to_i64 : ℕ → ℕ
to_i64 n = if ltb i64_max n then i64_max else n

unfoldable pub record_sequence_lower_bound : Option ℕ → ℕ → ℕ
record_sequence_lower_bound after_seq seq = max (to_i64 (unwrap_or after_seq 0)) seq

-- `resolve_space_principal`: a selector that selects no principal, or a space that does not exist,
-- gives the empty id, which no record has.
abbrev resolve_selector : Db → Text → Option Text → Option Text
resolve_selector db space none = none
resolve_selector db space (some selector) =
    if any (λ (s : SpaceRow). same s.id space) db.spaces
    then some (unwrap_or (select_principal db selector) [])
    else some []

unfoldable pub resolve_space_principal : Text → Option Text → Tx (Option Text)
resolve_space_principal space selector = do db ← read_db; pure (resolve_selector db space selector)

-- `? IS NULL OR column=?`
abbrev pub is_match : Option Text → Text → Bool
is_match none value = true
is_match (some wanted) value = same value wanted

abbrev pub has_attention : Db → Option Text → Text → Bool
has_attention db none id = true
has_attention db (some recipient) id =
    any (λ (a : AttentionRow). same a.record_id id && same a.recipient_principal_id recipient)
      db.attention

abbrev is_type : RelationType → RelationType → Bool
is_type a b = elim (RelationType-discrete a b) [ yes _ ↦ true | no _ ↦ false ]

abbrev pub has_relation : Db → Option RelationType → Text → Bool
has_relation db none id = true
has_relation db (some type) id =
    any (λ (r : RelationRow). same r.source_record_id id && is_type r.relation_type type)
      db.record_relations

-- `LIST_RECORD_IDS`, before its LIMIT
unfoldable pub list_record_ids :
    Db → Text → ℕ → ℕ × Text → Option Text → Option Text → ListRecordsQuery → List (ℕ × Text)
list_record_ids db space lower after author attention query = sort_by_seq (
    map (λ (r : RecordRow). (r.space_seq, r.id))
      (filter
        (λ (r : RecordRow).
          (same r.space_id space && (ltb lower r.space_seq && before after (r.space_seq, r.id)))
          && ((is_match author r.author_principal_id && is_match query.kind r.kind)
              && (has_attention db attention r.id && has_relation db query.relation r.id)))
        db.records))

module _ (host : Host) where
  abbrev sequence_of : Result BootstrapError CursorPosition → Result BootstrapError (ℕ × Text)
  sequence_of (ok (at_sequence seq id)) =
      if ltb i64_max seq then err invalid_journal else ok (seq, id)
  sequence_of (ok _) = err invalid_journal
  sequence_of (err e) = err e

  abbrev records_after : CursorCodec → CursorScope → PageQuery → Result BootstrapError (ℕ × Text)
  records_after codec scope query = elim (given_cursor query) [
    | none ↦ ok (0, [])
    | some cursor ↦ sequence_of (position_of host codec scope cursor)
  ]

  unfoldable pub records_page :
      ReadIdentity → Text → ListRecordsQuery → CursorCodec → Tx (Page Record)
  records_page identity space query codec = do
    actor ← read_actor host identity
    permitted actor space false
    author ← resolve_space_principal space query.author
    attention ← resolve_space_principal space query.attention
    filters ←
        some_or
          (host.record_filters (record {
            actor = actor;
            space = space;
            after_seq = unwrap_or query.after_seq 0;
            author = author;
            attention = attention;
            kind = query.kind;
            relation = query.relation;
          }))
          invalid_journal
    let scope = new_scope host.cursor_lib records filters sequence
    after ← lift (records_after codec scope query.page)
    let lower = record_sequence_lower_bound query.after_seq after.0
    db ← read_db
    items ← get_records (
        take (effective_limit query.page + 1)
          (list_record_ids db space lower after author attention query))
    lift (finish_page host items query.page codec scope (λ (r : Record). at_sequence r.seq r.id))

  -- `list_records_as`
  unfoldable pub list_records : ReadIdentity → Text → ListRecordsQuery → Tx (Page Record)
  list_records identity space query = do
    lift (map_err (validate_list_records query) invalid)
    read_paged host identity (records_page identity space query)
