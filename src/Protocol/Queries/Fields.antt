-- ===== src/Protocol/Queries/Fields.antt =====
-- crates/journal-protocol/src/query.rs: the pairs of a list of optional fields, the loop of `parse`
-- over them, and the look-up of a field.
use agent_journal.Prelude.{
  ◌≡◌, refl, Text, Option, none, some, List, [], ◌∷◌, ◌++◌, Bool, true, false, not, ◌&&◌,
  if◌then◌else◌, any, find, same, ok, arith,
}
use agent_journal.Protocol.Queries.{Pairs, collect, get_value, optional_pair}

abbrev pub Fields : Type 0
Fields = List (Text × Option Text)

abbrev pub pairs_of : Fields → Pairs
pairs_of [] = []
pairs_of ((key, x) ∷ fields) = optional_pair key x ++ pairs_of fields

abbrev has : Text → Pairs → Bool
has key values = any (λ (p : Text × Text). same p.0 key) values

abbrev names : Text → Fields → Bool
names key fields = any (λ (p : Text × Option Text). same p.0 key) fields

abbrev pub reverse_onto : Fields → Fields → Fields
reverse_onto done [] = done
reverse_onto done (f ∷ fields) = reverse_onto (f ∷ done) fields

-- Every key is allowed, and was not there before.
unfoldable pub are_new : List Text → Fields → Fields → Bool
are_new allowed done [] = true
are_new allowed done ((key, x) ∷ fields) =
    let rest = are_new allowed ((key, x) ∷ done) fields in
    any (same key) allowed && (not (names key done) && rest)

abbrev pub or_else : Option Text → Option Text → Option Text
or_else none y = y
or_else (some x) y = some x

unfoldable pub field : Text → Fields → Option Text
field key [] = none
field key ((other, x) ∷ fields) =
    let rest = field key fields in if same other key then or_else x rest else rest

has-pairs_of :
    (key : Text) (fields : Fields) → names key fields ≡ false → has key (pairs_of fields) ≡ false
unfolding any
has-pairs_of key [] n = refl
has-pairs_of key ((other, none) ∷ fields) n = has-pairs_of key fields (ground (arith, n))
has-pairs_of key ((other, some v) ∷ fields) n =
    let rest = has-pairs_of key fields (ground (arith, n)) in ground (arith, n, rest)

pub get_value-pairs_of :
    (key : Text) (fields : Fields) → get_value key (pairs_of fields) ≡ field key fields
unfolding get_value find field
get_value-pairs_of key [] = refl
get_value-pairs_of key ((other, none) ∷ fields) =
    let rest = get_value-pairs_of key fields in ground (arith, rest)
get_value-pairs_of key ((other, some v) ∷ fields) =
    let rest = get_value-pairs_of key fields in ground (arith, rest)

-- The loop of `parse` takes the pairs of fields that are allowed and different.
pub collect-pairs_of :
    (allowed : List Text) (done fields : Fields)
    → are_new allowed done fields ≡ true
    → collect allowed (pairs_of done) (pairs_of fields) ≡ ok (pairs_of (reverse_onto done fields))
unfolding collect are_new
collect-pairs_of allowed done [] n = refl
collect-pairs_of allowed done ((key, none) ∷ fields) n =
    collect-pairs_of allowed ((key, none) ∷ done) fields (ground (arith, n))
collect-pairs_of allowed done ((key, some v) ∷ fields) n =
    let rest = collect-pairs_of allowed ((key, some v) ∷ done) fields (ground (arith, n)) in
    let absent = has-pairs_of key done (ground (arith, n)) in
    let known : any (same key) allowed ≡ true = ground (arith, n) in rw (known, absent) rest
