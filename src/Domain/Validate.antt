-- ===== src/Domain/Validate.antt =====
-- crates/journal-domain/src/lib.rs: `RecordInput::validate`, `validate_page_size` and
-- `validate_identifier`. A loop over a collection is a recursion on the list.
use agent_journal.Prelude.{
  ℕ, ◌+◌, Text, String, Option, none, some, List, [], ◌∷◌, Bool, true, false, ◌&&◌, ◌||◌, ltb, leb,
  if◌then◌else◌, length, byte_len, is_empty, any, same, Result, ok, ◌>>◌, fail_if, not,
}
use agent_journal.Domain.Types.{
  ValidationError, invalid_identifier, empty_content, content_too_large, too_many_relations,
  too_many_attention, duplicate_attention, multiple_reply_to, invalid_page_size, RelationType,
  reply_to, Relation, RecordInput, max_content_bytes, max_relations, max_attention_recipients,
  max_page_size, max_identifier_chars,
}
use agent_journal.Domain.Title.{normalize_title, validate_title}

-- `opt.filter(|s| !s.is_empty())`
unfoldable pub non_empty : Option Text → Option Text
non_empty none = none
non_empty (some s) = if is_empty s then none else some s

unfoldable pub validate_identifier : String → Text → Result ValidationError (Unit {0})
validate_identifier field value =
    fail_if (is_empty value || ltb max_identifier_chars (length value)) (invalid_identifier field)

unfoldable pub validate_page_size : ℕ → Result ValidationError (Unit {0})
validate_page_size size =
    fail_if (not (leb 1 size && leb size max_page_size)) (invalid_page_size max_page_size)

abbrev pub validate_optional : String → Option Text → Result ValidationError (Unit {0})
validate_optional field none = ok tt
validate_optional field (some value) = validate_identifier field value

-- The loop over `attention` with the set of the principals seen.
unfoldable pub check_attention : List Text → List Text → Result ValidationError (Unit {0})
check_attention seen [] = ok tt
check_attention seen (principal ∷ rest) = do
  validate_identifier "attention principal" principal
  fail_if (any (same principal) seen) (duplicate_attention principal)
  check_attention (principal ∷ seen) rest

unfoldable pub is_reply : RelationType → Bool
is_reply reply_to = true
is_reply _ = false

-- The loop over `relations` with the count of replies.
unfoldable pub check_relations : ℕ → List Relation → Result ValidationError (Unit {0})
unfolding is_reply
check_relations count [] = ok tt
check_relations count (relation ∷ rest) = do
  validate_identifier "relation record" relation.record_id
  let count' = if is_reply relation.relation_type then count + 1 else count
  fail_if (is_reply relation.relation_type && ltb 1 count') (multiple_reply_to reply_to)
  check_relations count' rest

abbrev pub validate_optional_title : Option Text → Result ValidationError (Unit {0})
validate_optional_title none = ok tt
validate_optional_title (some title) = validate_title title

unfoldable pub validate : RecordInput → Result ValidationError (Unit {0})
validate input = do
  validate_identifier "kind" input.kind
  fail_if (is_empty input.content) empty_content
  fail_if (ltb max_content_bytes (byte_len input.content)) (content_too_large max_content_bytes)
  fail_if (ltb max_relations (length input.relations)) (too_many_relations max_relations)
  fail_if (ltb max_attention_recipients (length input.attention))
      (too_many_attention max_attention_recipients)
  check_attention [] input.attention
  validate_optional "run_id" (non_empty input.run_id)
  check_relations 0 input.relations
  validate_optional "routing_key" (non_empty input.routing_key)
  validate_optional_title (normalize_title input.title)
