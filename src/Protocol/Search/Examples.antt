-- ===== src/Protocol/Search/Examples.antt =====
-- A search that is written and read (crates/journal-protocol/src/query.rs).
use agent_journal.Prelude.{◌≡◌, refl, Text, text, none, some, Bool, true, ok}
use agent_journal.Domain.Validate.{validate_identifier, validate_page_size, non_empty}
use agent_journal.Protocol.Pages.{validate_page_query, effective_limit}
use agent_journal.Protocol.Requests.{
  validate_optional_identifier, validate_chars, validate_rfc3339, validate_wire_identifier,
}
use agent_journal.Protocol.Queries.{query_string}
use agent_journal.Protocol.Queries.Examples.{toy_lib, toy_laws}
use agent_journal.Protocol.Search.{
  SearchRecordsQuery, seq, validate_search, search_pairs, search_from_query,
}
use agent_journal.Protocol.Search.RoundTrip.{search_from_query-query_string}

abbrev any_time : Text → Bool
any_time s = true

abbrev a_search : SearchRecordsQuery
a_search = record {
  q = text "hello world";
  page = record { cursor = none; limit = some 100 };
  author = some (text "writer");
  attention = some (text "reader");
  since = some (text "2026-01-01T00:00:00Z");
  order = seq;
}

search_from_query-query_string_example :
    search_from_query toy_lib any_time (query_string toy_lib (search_pairs a_search)) ≡ ok a_search
unfolding validate_optional_identifier non_empty validate_search validate_chars validate_page_query
    validate_page_size effective_limit validate_rfc3339 validate_wire_identifier validate_identifier
search_from_query-query_string_example =
    search_from_query-query_string toy_lib toy_laws any_time a_search refl
