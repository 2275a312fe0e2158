-- ===== src/Protocol/Queries/Examples.antt =====
-- A codec of forms for which the laws hold, and a query of the inbox that is written and read with it
-- (crates/journal-protocol/src/query.rs).
use agent_journal.Prelude.{
  ◌≡◌, refl, ap, ℕ, zero, suc, Text, text, some, [], ◌∷◌, true, ◌==◌, if◌then◌else◌, utf8, ok,
}
use agent_journal.Protocol.Pages.{
  acknowledged, InboxQuery, validate_inbox_query, validate_page_query, effective_limit,
}
use agent_journal.Domain.Validate.{validate_page_size}
use agent_journal.Protocol.Queries.{
  Pairs, QueryLib, is_escaped, query_string, inbox_from_query, inbox_pairs,
}
use agent_journal.Protocol.Queries.RoundTrip.{QueryLaws, inbox_from_query-query_string}

-- Each character in unary: `a` and `b` spell a key, `e` and `f` a value, and `d` ends a pair.
abbrev unary : ℕ → ℕ → ℕ → Text → Text
unary a b zero rest = b ∷ rest
unary a b (suc n) rest = a ∷ unary a b n rest

abbrev spell : ℕ → ℕ → Text → Text → Text
spell a b [] rest = rest
spell a b (c ∷ s) rest = unary a b c (spell a b s rest)

abbrev toy_serialize : Pairs → Text
toy_serialize [] = []
toy_serialize ((key, value) ∷ pairs) =
    spell 97 98 key (spell 101 102 value (100 ∷ toy_serialize pairs))

abbrev raise : Text → Text
raise [] = []
raise (c ∷ s) = suc c ∷ s

abbrev on_key : (Text → Text) → Pairs → Pairs
on_key f [] = []
on_key f ((key, value) ∷ pairs) = (f key, value) ∷ pairs

abbrev on_value : (Text → Text) → Pairs → Pairs
on_value f [] = []
on_value f ((key, value) ∷ pairs) = (key, f value) ∷ pairs

abbrev toy_step : ℕ → Pairs → Pairs
toy_step c pairs =
    if c == 97
    then on_key raise pairs
    else if c == 98
    then on_key (◌∷◌ 0) pairs
    else if c == 101
    then on_value raise pairs
    else if c == 102
    then on_value (◌∷◌ 0) pairs
    else (([], []) ∷ pairs)

abbrev toy_parse : Text → Pairs
toy_parse [] = []
toy_parse (c ∷ s) = toy_step c (toy_parse s)

abbrev pub toy_lib : QueryLib
toy_lib = record { form_parse = toy_parse; form_serialize = toy_serialize; decodes = λ s. true }

parse-unary_key :
    (c : ℕ) (rest key value : Text) (pairs : Pairs)
    → toy_parse rest ≡ (key, value) ∷ pairs
    → toy_parse (unary 97 98 c rest) ≡ (c ∷ key, value) ∷ pairs
parse-unary_key zero rest key value pairs e = ap (on_key (◌∷◌ 0)) e
parse-unary_key (suc c) rest key value pairs e =
    ap (on_key raise) (parse-unary_key c rest key value pairs e)

parse-unary_value :
    (c : ℕ) (rest key value : Text) (pairs : Pairs)
    → toy_parse rest ≡ (key, value) ∷ pairs
    → toy_parse (unary 101 102 c rest) ≡ (key, c ∷ value) ∷ pairs
parse-unary_value zero rest key value pairs e = ap (on_value (◌∷◌ 0)) e
parse-unary_value (suc c) rest key value pairs e =
    ap (on_value raise) (parse-unary_value c rest key value pairs e)

parse-spell_key :
    (key rest value : Text) (pairs : Pairs)
    → toy_parse rest ≡ ([], value) ∷ pairs
    → toy_parse (spell 97 98 key rest) ≡ (key, value) ∷ pairs
parse-spell_key [] rest value pairs e = e
parse-spell_key (c ∷ key) rest value pairs e =
    parse-unary_key c (spell 97 98 key rest) key value pairs
      (parse-spell_key key rest value pairs e)

parse-spell_value :
    (value rest : Text) (pairs : Pairs)
    → toy_parse rest ≡ ([], []) ∷ pairs
    → toy_parse (spell 101 102 value rest) ≡ ([], value) ∷ pairs
parse-spell_value [] rest pairs e = e
parse-spell_value (c ∷ value) rest pairs e =
    parse-unary_value c (spell 101 102 value rest) [] value pairs
      (parse-spell_value value rest pairs e)

toy_parse-toy_serialize : (pairs : Pairs) → toy_parse (toy_serialize pairs) ≡ pairs
toy_parse-toy_serialize [] = refl
toy_parse-toy_serialize ((key, value) ∷ pairs) =
    parse-spell_key key (spell 101 102 value (100 ∷ toy_serialize pairs)) value pairs (
      parse-spell_value value (100 ∷ toy_serialize pairs) pairs
        (ap (◌∷◌ ([], [])) (toy_parse-toy_serialize pairs)))

-- The text continues without an escape.
abbrev Plain : Text → Type 0
Plain s = is_escaped (utf8 s) ≡ true

unary_key-Plain : (c : ℕ) (rest : Text) → Plain rest → Plain (unary 97 98 c rest)
unfolding is_escaped utf8
unary_key-Plain zero rest p = p
unary_key-Plain (suc c) rest p = unary_key-Plain c rest p

unary_value-Plain : (c : ℕ) (rest : Text) → Plain rest → Plain (unary 101 102 c rest)
unfolding is_escaped utf8
unary_value-Plain zero rest p = p
unary_value-Plain (suc c) rest p = unary_value-Plain c rest p

spell_key-Plain : (s rest : Text) → Plain rest → Plain (spell 97 98 s rest)
spell_key-Plain [] rest p = p
spell_key-Plain (c ∷ s) rest p = unary_key-Plain c (spell 97 98 s rest) (spell_key-Plain s rest p)

spell_value-Plain : (s rest : Text) → Plain rest → Plain (spell 101 102 s rest)
spell_value-Plain [] rest p = p
spell_value-Plain (c ∷ s) rest p =
    unary_value-Plain c (spell 101 102 s rest) (spell_value-Plain s rest p)

toy_serialize-Plain : (pairs : Pairs) → Plain (toy_serialize pairs)
unfolding is_escaped utf8
toy_serialize-Plain [] = refl
toy_serialize-Plain ((key, value) ∷ pairs) =
    spell_key-Plain key (spell 101 102 value (100 ∷ toy_serialize pairs))
      (spell_value-Plain value (100 ∷ toy_serialize pairs) (toy_serialize-Plain pairs))

pub toy_laws : QueryLaws toy_lib
toy_laws = record {
  parsed = toy_parse-toy_serialize;
  escaped = toy_serialize-Plain;
  decoded = λ pairs. refl;
}

abbrev a_query : InboxQuery
a_query = record {
  state = acknowledged;
  page = record { cursor = some (text "c1-x"); limit = some 20 };
  wait_seconds = 5;
}

inbox_from_query-query_string_example :
    inbox_from_query toy_lib (query_string toy_lib (inbox_pairs a_query)) ≡ ok a_query
unfolding validate_inbox_query validate_page_query validate_page_size effective_limit
inbox_from_query-query_string_example = inbox_from_query-query_string toy_lib toy_laws a_query refl
