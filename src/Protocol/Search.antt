-- ===== src/Protocol/Search.antt =====
-- The query string of a search and a segment of a path: crates/journal-protocol/src/query.rs, with
-- `SearchOrder` and `SearchRecordsQuery` of dto.rs.
mod Examples
pub mod RoundTrip
use agent_journal.Prelude.{
  ℕ, Text, text, Option, none, some, List, [], ◌∷◌, ◌++◌, Bool, ◌==◌, if◌then◌else◌, same, utf8,
  Result, ok, err, ◌>>=◌, ◌>>◌, ok_or, map_err,
}
use agent_journal.Protocol.Pages.{PageQuery, validate_page_query}
use agent_journal.Protocol.Requests.{
  Checked, validate_chars, validate_rfc3339, validate_optional_identifier,
}
use agent_journal.Protocol.Queries.{
  InvalidQuery, invalid_query, Pairs, QueryLib, get_value, page_of_values, optional_pair,
  page_pairs, parse,
}

pub data SearchOrder : Type 0 where
  rank : SearchOrder
  seq : SearchOrder

pub record SearchRecordsQuery : Type 0 where
  pub q : Text
  pub page : PageQuery
  pub author : Option Text
  pub attention : Option Text
  pub since : Option Text
  pub order : SearchOrder

abbrev validate_since : (Text → Bool) → Option Text → Checked
validate_since is_timestamp none = ok tt
validate_since is_timestamp (some value) = validate_rfc3339 is_timestamp "since" value

-- `SearchRecordsQuery::validate`
unfoldable pub validate_search : (Text → Bool) → SearchRecordsQuery → Checked
validate_search is_timestamp query = do
  validate_chars "q" query.q 1 512
  validate_page_query query.page
  validate_optional_identifier "author" query.author
  validate_optional_identifier "attention" query.attention
  validate_since is_timestamp query.since

abbrev order_text : SearchOrder → Text
order_text rank = text "rank"
order_text seq = text "seq"

abbrev order_named : Text → Result InvalidQuery SearchOrder
order_named s =
    if same s (text "rank")
    then ok rank
    else if same s (text "seq")
    then ok seq
    else err invalid_query

abbrev order_of : Option Text → Result InvalidQuery SearchOrder
order_of none = ok rank
order_of (some s) = order_named s

-- `SearchRecordsQuery::pairs`
unfoldable pub search_pairs : SearchRecordsQuery → Pairs
unfolding page_pairs
search_pairs query =
    page_pairs query.page
    ++ ((text "q", query.q)
        ∷ (text "order", order_text query.order)
        ∷ (optional_pair (text "author") query.author
            ++ (optional_pair (text "attention") query.attention
                ++ optional_pair (text "since") query.since)))

module _ (lib : QueryLib) (is_timestamp : Text → Bool) where
  -- `SearchRecordsQuery::from_query`
  unfoldable pub search_from_query : Text → Result InvalidQuery SearchRecordsQuery
  search_from_query query = do
    values ← parse lib query (
        text "q"
        ∷ text "cursor"
        ∷ text "limit"
        ∷ text "author"
        ∷ text "attention"
        ∷ text "since"
        ∷ text "order"
        ∷ [])
    q ← ok_or (get_value (text "q") values) invalid_query
    page ← page_of_values values
    order ← order_of (get_value (text "order") values)
    let result : SearchRecordsQuery = record {
      q = q;
      page = page;
      author = get_value (text "author") values;
      attention = get_value (text "attention") values;
      since = get_value (text "since") values;
      order = order;
    }
    map_err (validate_search is_timestamp result) (λ _. invalid_query)
    ok result

-- `str::replace` of each plus by an escaped space
unfoldable pub replace_plus : Text → Text
replace_plus [] = []
replace_plus (c ∷ s) = if c == 43 then 37 ∷ 50 ∷ 48 ∷ replace_plus s else c ∷ replace_plus s

-- `path_segment`, with the library's `byte_serialize`
unfoldable pub path_segment : (List ℕ → Text) → Text → Text
path_segment byte_serialize value = replace_plus (byte_serialize (utf8 value))
