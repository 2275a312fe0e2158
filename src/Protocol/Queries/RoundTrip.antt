-- ===== src/Protocol/Queries/RoundTrip.antt =====
-- crates/journal-protocol/src/query.rs: a query of the inbox is read back from its query string.
use agent_journal.Prelude.{
  ◌≡◌, refl, ap, ◌<◌, ◌≤◌, ◌^◌, ℕ, zero, suc, Text, text, Option, none, some, List, [], ◌∷◌, ◌++◌,
  true, lt→ltb, utf8, ok, Result-cases, inl, inr, arith, any, find, Text-discrete, ℕ_discrete,
}
use agent_journal.Protocol.Pages.{
  InboxState, unacknowledged, acknowledged, all_items, InboxQuery, validate_page_query,
  validate_inbox_query, effective_limit,
}
use agent_journal.Domain.Validate.{validate_page_size}
use agent_journal.Protocol.Decimal.{print_u64, parse_u64-print_u64}
use agent_journal.Protocol.Queries.{
  number_or_invalid, Pairs, QueryLib, is_escaped, collect, get_value, parse_optional,
  page_of_values, page_pairs, state_text, state_of, seconds_of, inbox_pairs, inbox_of_values,
  query_string, parse, inbox_from_query,
}

-- What is relied on: the pairs that are serialized are parsed, and the text of them is escaped.
pub record QueryLaws (lib : QueryLib) : Type 0 where
  pub parsed : (pairs : Pairs) → lib.form_parse (lib.form_serialize pairs) ≡ pairs
  pub escaped : (pairs : Pairs) → is_escaped (utf8 (lib.form_serialize pairs)) ≡ true
  pub decoded : (pairs : Pairs) → lib.decodes (lib.form_serialize pairs) ≡ true

abbrev inbox_keys : List Text
inbox_keys = text "state" ∷ text "cursor" ∷ text "limit" ∷ text "wait_seconds" ∷ []

abbrev wait_pair : ℕ → Pairs
wait_pair zero = []
wait_pair (suc n) = (text "wait_seconds", print_u64 (suc n)) ∷ []

-- The map that the loop makes of the pairs.
abbrev inbox_values : Option Text → Option ℕ → Text → ℕ → Pairs
inbox_values cursor limit state wait =
    wait_pair wait ++ ((text "state", state) ∷ (limit_values limit ++ cursor_values cursor))
  where
    limit_values : Option ℕ → Pairs
    limit_values none = []
    limit_values (some n) = (text "limit", print_u64 n) ∷ []

    cursor_values : Option Text → Pairs
    cursor_values none = []
    cursor_values (some c) = (text "cursor", c) ∷ []

collect-inbox_pairs :
    (cursor : Option Text) (limit : Option ℕ) (state : InboxState) (wait : ℕ)
    → collect inbox_keys [] (
        inbox_pairs (record {
          state = state;
          page = record { cursor = cursor; limit = limit };
          wait_seconds = wait;
        }))
      ≡ ok (inbox_values cursor limit (state_text state) wait)
unfolding collect inbox_pairs page_pairs any Text-discrete ℕ_discrete
collect-inbox_pairs none none state zero = refl
collect-inbox_pairs none none state (suc n) = rw (lt→ltb 0 (suc n) (omega arith)) refl
collect-inbox_pairs none (some l) state zero = refl
collect-inbox_pairs none (some l) state (suc n) = rw (lt→ltb 0 (suc n) (omega arith)) refl
collect-inbox_pairs (some c) none state zero = refl
collect-inbox_pairs (some c) none state (suc n) = rw (lt→ltb 0 (suc n) (omega arith)) refl
collect-inbox_pairs (some c) (some l) state zero = refl
collect-inbox_pairs (some c) (some l) state (suc n) = rw (lt→ltb 0 (suc n) (omega arith)) refl

state_of-state_text : (state : InboxState) → state_of (some (state_text state)) ≡ ok state
unfolding Text-discrete ℕ_discrete
state_of-state_text unacknowledged = refl
state_of-state_text acknowledged = refl
state_of-state_text all_items = refl

abbrev pub Fits : Option ℕ → Type 0
Fits none = Unit
Fits (some n) = n < 2 ^ 64

abbrev pub printed : Option ℕ → Option Text
printed none = none
printed (some n) = some (print_u64 n)

parse_optional-printed : (n : Option ℕ) → Fits n → parse_optional (printed n) ≡ ok n
parse_optional-printed none f = refl
parse_optional-printed (some n) f = ap number_or_invalid (parse_u64-print_u64 n f)

-- A map with these values for the keys of a page is that page.
pub page_of_values-get_value :
    (values : Pairs) (cursor : Option Text) (limit : Option ℕ)
    → get_value (text "cursor") values ≡ cursor
    → get_value (text "limit") values ≡ printed limit
    → Fits limit
    → validate_page_query (record { cursor = cursor; limit = limit }) ≡ ok tt
    → page_of_values values ≡ ok (record { cursor = cursor; limit = limit })
unfolding page_of_values
page_of_values-get_value values cursor limit c l f v =
    rw (c, l, parse_optional-printed limit f, v) refl

get-limit :
    (cursor : Option Text) (limit : Option ℕ) (state : Text) (wait : ℕ)
    → get_value (text "limit") (inbox_values cursor limit state wait) ≡ printed limit
unfolding get_value find Text-discrete ℕ_discrete
get-limit none none state zero = refl
get-limit none none state (suc n) = refl
get-limit (some c) none state zero = refl
get-limit (some c) none state (suc n) = refl
get-limit cursor (some l) state zero = refl
get-limit cursor (some l) state (suc n) = refl

get-cursor :
    (cursor : Option Text) (limit : Option ℕ) (state : Text) (wait : ℕ)
    → get_value (text "cursor") (inbox_values cursor limit state wait) ≡ cursor
unfolding get_value find Text-discrete ℕ_discrete
get-cursor none none state zero = refl
get-cursor none none state (suc n) = refl
get-cursor (some c) none state zero = refl
get-cursor (some c) none state (suc n) = refl
get-cursor none (some l) state zero = refl
get-cursor none (some l) state (suc n) = refl
get-cursor (some c) (some l) state zero = refl
get-cursor (some c) (some l) state (suc n) = refl

get-state :
    (cursor : Option Text) (limit : Option ℕ) (state : Text) (wait : ℕ)
    → get_value (text "state") (inbox_values cursor limit state wait) ≡ some state
unfolding get_value find Text-discrete ℕ_discrete
get-state cursor limit state zero = refl
get-state cursor limit state (suc n) = refl

abbrev waited : ℕ → Option ℕ
waited zero = none
waited (suc n) = some (suc n)

get-wait :
    (cursor : Option Text) (limit : Option ℕ) (state : Text) (wait : ℕ)
    → get_value (text "wait_seconds") (inbox_values cursor limit state wait) ≡ printed (waited wait)
unfolding get_value find Text-discrete ℕ_discrete
get-wait none none state zero = refl
get-wait (some c) none state zero = refl
get-wait none (some l) state zero = refl
get-wait (some c) (some l) state zero = refl
get-wait cursor limit state (suc n) = refl

seconds_of-waited : (n : ℕ) → seconds_of (waited n) ≡ n
seconds_of-waited zero = refl
seconds_of-waited (suc n) = refl

waited-Fits : (n : ℕ) → n ≤ 30 → Fits (waited n)
waited-Fits zero h = tt
waited-Fits (suc n) h = omega (arith, h)

inbox_of_values-inbox_values :
    (q : InboxQuery)
    → Fits q.page.limit
    → q.wait_seconds ≤ 30
    → validate_page_query q.page ≡ ok tt
    → inbox_of_values (inbox_values q.page.cursor q.page.limit (state_text q.state) q.wait_seconds)
      ≡ ok q
unfolding inbox_of_values
inbox_of_values-inbox_values q f w v =
    let c = q.page.cursor in
    let l = q.page.limit in
    let s = state_text q.state in
    rw
      (
        get-wait c l s q.wait_seconds,
        parse_optional-printed (waited q.wait_seconds) (waited-Fits q.wait_seconds w),
        seconds_of-waited q.wait_seconds,
        get-state c l s q.wait_seconds,
        state_of-state_text q.state,
        page_of_values-get_value (inbox_values c l s q.wait_seconds) c l
            (get-cursor c l s q.wait_seconds) (get-limit c l s q.wait_seconds) f v,
      )
      (ground (arith, w))

-- What the validation says of the two numbers and of the page.
validated :
    (q : InboxQuery)
    → validate_inbox_query q ≡ ok tt
    → (validate_page_query q.page ≡ ok tt) × (q.wait_seconds ≤ 30)
unfolding validate_inbox_query
validated q v = elim (Result-cases (validate_page_query q.page)) [
  | inl (u, e) ↦ (e, ground (arith, v, e))
  | inr (x, e) ↦ ground (arith, v, e)
]

pub limit-Fits :
    (cursor : Option Text) (limit : Option ℕ)
    → validate_page_query (record { cursor = cursor; limit = limit }) ≡ ok tt
    → Fits limit
unfolding validate_page_query validate_page_size effective_limit
limit-Fits cursor none v = tt
limit-Fits cursor (some n) v = ground (arith, v)

module _ (lib : QueryLib) (laws : QueryLaws lib) where
  pub parse-query_string :
      (pairs : Pairs) (allowed : List Text)
      → parse lib (query_string lib pairs) allowed ≡ collect allowed [] pairs
  unfolding parse
  parse-query_string pairs allowed =
      rw (laws.escaped pairs, laws.decoded pairs, laws.parsed pairs) refl

  -- A query of the inbox that is valid is read back from the query string of its pairs. The codec of
  -- forms parses what it serializes, and escapes it.
  pub inbox_from_query-query_string :
      (q : InboxQuery)
      → validate_inbox_query q ≡ ok tt
      → inbox_from_query lib (query_string lib (inbox_pairs q)) ≡ ok q
  unfolding inbox_from_query
  inbox_from_query-query_string q v =
      let (page, wait) = validated q v in
      rw
        (
          parse-query_string (inbox_pairs q) inbox_keys,
          collect-inbox_pairs q.page.cursor q.page.limit q.state q.wait_seconds,
        )
        (inbox_of_values-inbox_values q (limit-Fits q.page.cursor q.page.limit page) wait page)
