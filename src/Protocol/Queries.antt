-- ===== src/Protocol/Queries.antt =====
-- crates/journal-protocol/src/query.rs: the query strings of the inbox, of a page, and of the lists of
-- principals and records. The codec of forms is a library's.
pub mod Examples
pub mod RoundTrip
pub mod Fields
use agent_journal.Prelude.{
  ℕ, Text, text, String, Option, none, some, List, [], ◌∷◌, ◌++◌, Bool, true, false, not, ◌||◌,
  ◌&&◌, ltb, leb, ◌==◌, if◌then◌else◌, any, find, same, utf8, Result, ok, err, ◌>>=◌, ◌>>◌, fail_if,
  ok_or, map_err,
}
use agent_journal.Domain.Types.{
  RelationType, reply_to, supersedes, tombstones, refers_to, acknowledges,
}
use agent_journal.Protocol.Pages.{
  InboxState, unacknowledged, acknowledged, all_items, PageQuery, InboxQuery, validate_page_query,
  max_inbox_wait_seconds,
}
use agent_journal.Protocol.Requests.{
  ListPrincipalsQuery, validate_list_principals, ListRecordsQuery, validate_list_records,
}
use agent_journal.Protocol.Decimal.{print_u64, parse_u64}

pub data InvalidQuery : Type 0 where
  invalid_query : InvalidQuery

abbrev pub Pairs : Type 0
Pairs = List (Text × Text)

-- `form_urlencoded` and `percent_encoding`: the parser and the serializer of pairs, and whether the
-- unescaped bytes are UTF-8.
pub record QueryLib : Type 0 where
  pub form_parse : Text → Pairs
  pub form_serialize : Pairs → Text
  pub decodes : Text → Bool

abbrev is_hex : ℕ → Bool
is_hex c = (leb 48 c && leb c 57) || ((leb 97 c && leb c 102) || (leb 65 c && leb c 70))

abbrev two_hex : List ℕ → Bool
two_hex (a ∷ b ∷ rest) = is_hex a && is_hex b
two_hex _ = false

-- Each percent sign is followed by two hex digits.
unfoldable pub is_escaped : List ℕ → Bool
is_escaped [] = true
is_escaped (b ∷ rest) = (not (b == 0x25) || two_hex rest) && is_escaped rest

-- The loop over the pairs, with the map made so far; the map's order is not observed.
unfoldable pub collect : List Text → Pairs → Pairs → Result InvalidQuery Pairs
collect allowed values [] = ok values
collect allowed values ((key, value) ∷ rest) = do
  fail_if (not (any (same key) allowed) || any (λ (p : Text × Text). same p.0 key) values)
      invalid_query
  collect allowed ((key, value) ∷ values) rest

abbrev second_of : Option (Text × Text) → Option Text
second_of none = none
second_of (some p) = some p.1

-- `values.get`
unfoldable pub get_value : Text → Pairs → Option Text
get_value key values = second_of (find (λ (p : Text × Text). same p.0 key) values)

abbrev pub number_or_invalid : Option ℕ → Result InvalidQuery (Option ℕ)
number_or_invalid none = err invalid_query
number_or_invalid (some n) = ok (some n)

-- `.map(|s| s.parse()).transpose()`
abbrev pub parse_optional : Option Text → Result InvalidQuery (Option ℕ)
parse_optional none = ok none
parse_optional (some s) = number_or_invalid (parse_u64 s)

-- `page`
unfoldable pub page_of_values : Pairs → Result InvalidQuery PageQuery
page_of_values values = do
  limit ← parse_optional (get_value (text "limit") values)
  let query : PageQuery = record { cursor = get_value (text "cursor") values; limit = limit }
  map_err (validate_page_query query) (λ _. invalid_query)
  ok query

abbrev pub optional_pair : Text → Option Text → Pairs
optional_pair key none = []
optional_pair key (some value) = (key, value) ∷ []

abbrev pub number_pair : Text → Option ℕ → Pairs
number_pair key none = []
number_pair key (some n) = (key, print_u64 n) ∷ []

-- `PageQuery::pairs`
unfoldable pub page_pairs : PageQuery → Pairs
page_pairs query =
    optional_pair (text "cursor") query.cursor ++ number_pair (text "limit") query.limit

-- `InboxState::as_str`
abbrev pub state_text : InboxState → Text
state_text unacknowledged = text "unacknowledged"
state_text acknowledged = text "acknowledged"
state_text all_items = text "all"

abbrev state_named : Text → Result InvalidQuery InboxState
state_named s =
    if same s (text "unacknowledged")
    then ok unacknowledged
    else if same s (text "acknowledged")
    then ok acknowledged
    else if same s (text "all")
    then ok all_items
    else err invalid_query

abbrev pub state_of : Option Text → Result InvalidQuery InboxState
state_of none = ok unacknowledged
state_of (some s) = state_named s

abbrev pub seconds_of : Option ℕ → ℕ
seconds_of none = 0
seconds_of (some n) = n

-- `InboxQuery::pairs`
unfoldable pub inbox_pairs : InboxQuery → Pairs
unfolding page_pairs
inbox_pairs query =
    page_pairs query.page
    ++ ((text "state", state_text query.state)
        ∷ (if ltb 0 query.wait_seconds
            then (text "wait_seconds", print_u64 query.wait_seconds) ∷ []
            else []))

-- `ListPrincipalsQuery::pairs`
unfoldable pub principals_pairs : ListPrincipalsQuery → Pairs
unfolding page_pairs
principals_pairs query = page_pairs query.page ++ ((text "space", query.space) ∷ [])

-- `RelationType::as_str`
abbrev pub relation_text : RelationType → Text
relation_text reply_to = text "reply-to"
relation_text supersedes = text "supersedes"
relation_text tombstones = text "tombstones"
relation_text refers_to = text "refers-to"
relation_text acknowledges = text "acknowledges"

-- `RELATION_TYPES`
abbrev pub relation_types : List RelationType
relation_types = reply_to ∷ supersedes ∷ tombstones ∷ refers_to ∷ acknowledges ∷ []

abbrev relation_of : Option Text → Result InvalidQuery (Option RelationType)
relation_of none = ok none
relation_of (some s) = elim (find (λ (r : RelationType). same (relation_text r) s) relation_types) [
  | none ↦ err invalid_query
  | some r ↦ ok (some r)
]

abbrev relation_pair : Option RelationType → Pairs
relation_pair none = []
relation_pair (some r) = (text "relation", relation_text r) ∷ []

-- `ListRecordsQuery::pairs`
unfoldable pub records_pairs : ListRecordsQuery → Pairs
unfolding page_pairs
records_pairs query =
    page_pairs query.page
    ++ (number_pair (text "after_seq") query.after_seq
        ++ (optional_pair (text "author") query.author
            ++ (optional_pair (text "attention") query.attention
                ++ (optional_pair (text "kind") query.kind ++ relation_pair query.relation))))

unfoldable pub inbox_of_values : Pairs → Result InvalidQuery InboxQuery
unfolding get_value page_of_values
inbox_of_values values = do
  wait ← parse_optional (get_value (text "wait_seconds") values)
  fail_if (ltb max_inbox_wait_seconds (seconds_of wait)) invalid_query
  state ← state_of (get_value (text "state") values)
  page ← page_of_values values
  ok (record { state = state; page = page; wait_seconds = seconds_of wait })

module _ (lib : QueryLib) where
  -- `query_string`
  abbrev pub query_string : Pairs → Text
  query_string pairs = lib.form_serialize pairs

  -- `parse`
  unfoldable pub parse : Text → List Text → Result InvalidQuery Pairs
  parse query allowed = do
    fail_if (not (is_escaped (utf8 query))) invalid_query
    fail_if (not (lib.decodes query)) invalid_query
    collect allowed [] (lib.form_parse query)

  -- `PageQuery::from_query`
  unfoldable pub page_from_query : Text → Result InvalidQuery PageQuery
  page_from_query query = do
    values ← parse query (text "cursor" ∷ text "limit" ∷ [])
    page_of_values values

  -- `InboxQuery::from_query`
  unfoldable pub inbox_from_query : Text → Result InvalidQuery InboxQuery
  inbox_from_query query = do
    values ← parse query (text "state" ∷ text "cursor" ∷ text "limit" ∷ text "wait_seconds" ∷ [])
    inbox_of_values values

  -- `ListPrincipalsQuery::from_query`
  unfoldable pub principals_from_query : Text → Result InvalidQuery ListPrincipalsQuery
  principals_from_query query = do
    values ← parse query (text "space" ∷ text "cursor" ∷ text "limit" ∷ [])
    space ← ok_or (get_value (text "space") values) invalid_query
    page ← page_of_values values
    let result : ListPrincipalsQuery = record { space = space; page = page }
    map_err (validate_list_principals result) (λ _. invalid_query)
    ok result

  -- `ListRecordsQuery::from_query`
  unfoldable pub records_from_query : Text → Result InvalidQuery ListRecordsQuery
  records_from_query query = do
    values ← parse query (
        text "cursor"
        ∷ text "limit"
        ∷ text "after_seq"
        ∷ text "author"
        ∷ text "attention"
        ∷ text "kind"
        ∷ text "relation"
        ∷ [])
    relation ← relation_of (get_value (text "relation") values)
    page ← page_of_values values
    after_seq ← parse_optional (get_value (text "after_seq") values)
    let result : ListRecordsQuery = record {
      page = page;
      after_seq = after_seq;
      author = get_value (text "author") values;
      attention = get_value (text "attention") values;
      kind = get_value (text "kind") values;
      relation = relation;
    }
    map_err (validate_list_records result) (λ _. invalid_query)
    ok result
