-- ===== src/Journal/Records.antt =====
-- crates/journal-service/src/records.rs: `record`, which rebuilds a record from its tables. The type
-- of a relation is stored as its name, one of five by the table's CHECK, and is kept as the type.
use agent_journal.Prelude.{Text, Option, List, [], ◌∷◌, map, leb, if◌then◌else◌, find, filter, same}
use agent_journal.Domain.Types.{Record, Relation}
use agent_journal.Protocol.Canonical.{sort}
use agent_journal.Journal.Schema.{Db, RecordRow, RelationRow, AttentionRow}
use agent_journal.Journal.Tx.{not_found, Tx, ◌>>=◌, pure, some_or, read_db}

-- `ORDER BY position,rowid`
unfoldable pub insert_by_position : RelationRow → List RelationRow → List RelationRow
insert_by_position x [] = x ∷ []
insert_by_position x (y ∷ ys) =
    let rest = insert_by_position x ys in if leb x.position y.position then x ∷ y ∷ ys else y ∷ rest

unfoldable pub sort_by_position : List RelationRow → List RelationRow
sort_by_position [] = []
sort_by_position (x ∷ xs) = insert_by_position x (sort_by_position xs)

abbrev pub to_relation : RelationRow → Relation
to_relation r = record { relation_type = r.relation_type; record_id = r.target_record_id }

unfoldable pub attention_of : Db → Text → List Text
attention_of db id = sort (
    map (λ (a : AttentionRow). a.recipient_principal_id)
      (filter (λ (a : AttentionRow). same a.record_id id) db.attention))

unfoldable pub relations_of : Db → Text → List Relation
relations_of db id = map to_relation (
    sort_by_position (filter (λ (r : RelationRow). same r.source_record_id id) db.record_relations))

unfoldable pub find_record : Db → Text → Option RecordRow
find_record db id = find (λ (r : RecordRow). same r.id id) db.records

abbrev pub rebuild : Db → RecordRow → Record
rebuild db r = record {
  id = r.id;
  space_id = r.space_id;
  seq = r.space_seq;
  author = r.author_principal_id;
  kind = r.kind;
  content = r.content;
  run_id = r.run_id;
  created_at = r.created_at;
  attention = attention_of db r.id;
  routing_key = r.routing_key;
  relations = relations_of db r.id;
  title = r.title;
}

-- `record`
unfoldable pub get_record : Text → Tx Record
get_record id = do db ← read_db; r ← some_or (find_record db id) not_found; pure (rebuild db r)
