-- ===== src/Protocol/Search/RoundTrip.antt =====
-- crates/journal-protocol/src/query.rs: a search is read back from its query string.
use agent_journal.Prelude.{
  ◌≡◌, refl, sym, ◌∙◌, ℕ, Text, text, Option, none, some, List, [], ◌∷◌, ◌++◌, Bool, any,
  Text-discrete, ℕ_discrete, ok, Result-cases, inl, inr, arith,
}
use agent_journal.Protocol.Pages.{validate_page_query}
use agent_journal.Protocol.Queries.{
  Pairs, QueryLib, collect, get_value, optional_pair, number_pair, page_pairs, query_string,
}
use agent_journal.Protocol.Queries.Fields.{
  Fields, pairs_of, reverse_onto, or_else, are_new, field, get_value-pairs_of, collect-pairs_of,
}
use agent_journal.Protocol.Queries.RoundTrip.{
  QueryLaws, parse-query_string, page_of_values-get_value, limit-Fits, printed,
}
use agent_journal.Protocol.Requests.{validate_chars}
use agent_journal.Protocol.Search.{
  SearchOrder, rank, seq, SearchRecordsQuery, validate_search, order_text, order_of, search_pairs,
  search_from_query,
}

order_of-order_text : (o : SearchOrder) → order_of (some (order_text o)) ≡ ok o
unfolding Text-discrete ℕ_discrete
order_of-order_text rank = refl
order_of-order_text seq = refl

abbrev search_keys : List Text
search_keys =
    text "q"
    ∷ text "cursor"
    ∷ text "limit"
    ∷ text "author"
    ∷ text "attention"
    ∷ text "since"
    ∷ text "order"
    ∷ []

abbrev search_fields : SearchRecordsQuery → Fields
search_fields query =
    (text "cursor", query.page.cursor)
    ∷ (text "limit", printed query.page.limit)
    ∷ (text "q", some query.q)
    ∷ (text "order", some (order_text query.order))
    ∷ (text "author", query.author)
    ∷ (text "attention", query.attention)
    ∷ (text "since", query.since)
    ∷ []

abbrev stored : SearchRecordsQuery → Pairs
stored query = pairs_of (reverse_onto [] (search_fields query))

-- The pairs in nested lists, in the order of the fields
append_last : (key : Text) (x : Option Text) → optional_pair key x ≡ optional_pair key x ++ []
append_last key none = refl
append_last key (some v) = refl

append_page :
    (cursor : Option Text) (limit : Option ℕ) (rest : Pairs)
    → (optional_pair (text "cursor") cursor ++ number_pair (text "limit") limit) ++ rest
      ≡ optional_pair (text "cursor") cursor
        ++ (optional_pair (text "limit") (printed limit) ++ rest)
append_page none none rest = refl
append_page none (some n) rest = refl
append_page (some c) none rest = refl
append_page (some c) (some n) rest = refl

search_pairs-pairs_of :
    (query : SearchRecordsQuery) → search_pairs query ≡ pairs_of (search_fields query)
unfolding search_pairs page_pairs
search_pairs-pairs_of query = rw (append_page, sym (append_last (text "since") query.since)) refl

collect-search_pairs :
    (query : SearchRecordsQuery) → collect search_keys [] (search_pairs query) ≡ ok (stored query)
unfolding are_new any Text-discrete ℕ_discrete
collect-search_pairs query =
    rw (search_pairs-pairs_of query) (collect-pairs_of search_keys [] (search_fields query) refl)

or_else-none : (x : Option Text) → or_else x none ≡ x
or_else-none none = refl
or_else-none (some v) = refl

-- What the map of the values holds for each key
get_value-stored :
    (key : Text) (x : Option Text) (query : SearchRecordsQuery)
    → field key (reverse_onto [] (search_fields query)) ≡ or_else x none
    → get_value key (stored query) ≡ x
get_value-stored key x query e =
    get_value-pairs_of key (reverse_onto [] (search_fields query)) ∙ e ∙ or_else-none x

stored_cursor :
    (query : SearchRecordsQuery) → get_value (text "cursor") (stored query) ≡ query.page.cursor
unfolding field Text-discrete ℕ_discrete
stored_cursor query = get_value-stored (text "cursor") query.page.cursor query refl

stored_limit :
    (query : SearchRecordsQuery)
    → get_value (text "limit") (stored query) ≡ printed query.page.limit
unfolding field Text-discrete ℕ_discrete
stored_limit query = get_value-stored (text "limit") (printed query.page.limit) query refl

stored_q : (query : SearchRecordsQuery) → get_value (text "q") (stored query) ≡ some query.q
unfolding field Text-discrete ℕ_discrete
stored_q query = get_value-stored (text "q") (some query.q) query refl

stored_order :
    (query : SearchRecordsQuery)
    → get_value (text "order") (stored query) ≡ some (order_text query.order)
unfolding field Text-discrete ℕ_discrete
stored_order query = get_value-stored (text "order") (some (order_text query.order)) query refl

stored_author :
    (query : SearchRecordsQuery) → get_value (text "author") (stored query) ≡ query.author
unfolding field Text-discrete ℕ_discrete
stored_author query = get_value-stored (text "author") query.author query refl

stored_attention :
    (query : SearchRecordsQuery) → get_value (text "attention") (stored query) ≡ query.attention
unfolding field Text-discrete ℕ_discrete
stored_attention query = get_value-stored (text "attention") query.attention query refl

stored_since : (query : SearchRecordsQuery) → get_value (text "since") (stored query) ≡ query.since
unfolding field Text-discrete ℕ_discrete
stored_since query = get_value-stored (text "since") query.since query refl

validated_page :
    (is_timestamp : Text → Bool) (query : SearchRecordsQuery)
    → validate_search is_timestamp query ≡ ok tt
    → validate_page_query query.page ≡ ok tt
unfolding validate_search validate_chars
validated_page is_timestamp query v = elim (Result-cases (validate_page_query query.page)) [
  | inl (u, e) ↦ e
  | inr (x, e) ↦ absurd (ground (arith, v, e))
]

module _ (lib : QueryLib) (laws : QueryLaws lib) (is_timestamp : Text → Bool) where
  -- A search that is valid is read back from the query string of its pairs. The codec of forms parses
  -- what it serializes, and escapes it.
  pub search_from_query-query_string :
      (query : SearchRecordsQuery)
      → validate_search is_timestamp query ≡ ok tt
      → search_from_query lib is_timestamp (query_string lib (search_pairs query)) ≡ ok query
  unfolding search_from_query
  search_from_query-query_string query v =
      let page = validated_page is_timestamp query v in
      let c = query.page.cursor in
      let l = query.page.limit in
      rw
        (
          parse-query_string lib laws (search_pairs query) search_keys,
          collect-search_pairs query,
          stored_q query,
          page_of_values-get_value (stored query) c l (stored_cursor query) (stored_limit query)
              (limit-Fits c l page) page,
          stored_order query,
          order_of-order_text query.order,
          stored_author query,
          stored_attention query,
          stored_since query,
          v,
        )
        refl
