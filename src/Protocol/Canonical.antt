-- ===== src/Protocol/Canonical.antt =====
-- crates/journal-protocol/src/canonical.rs: the bytes by which two appends are compared. The JSON
-- encoder is a third party's and a parameter, `to_vec`. `sort_unstable` on texts is insertion sort:
-- texts that compare equal are equal, so every sorting algorithm gives the same list.
pub mod Order
use agent_journal.Prelude.{
  ℕ, Text, List, [], ◌∷◌, Bool, true, false, text_lt, if◌then◌else◌, Result, ok, err, ◌>>=◌, ◌>>◌,
  map_err,
}
use agent_journal.Domain.Types.{RecordInput, ValidationError}
use agent_journal.Domain.Validate.{validate}

pub data CanonicalizationError : Type 0 where
  validation : ValidationError → CanonicalizationError
  encoding : CanonicalizationError

unfoldable pub insert_sorted : Text → List Text → List Text
insert_sorted x [] = x ∷ []
insert_sorted x (y ∷ ys) =
    let rest = insert_sorted x ys in if text_lt y x then y ∷ rest else x ∷ y ∷ ys

unfoldable pub sort : List Text → List Text
sort [] = []
sort (x ∷ xs) = insert_sorted x (sort xs)

-- The request whose encoding `canonical_append` returns.
unfoldable pub canonical : RecordInput → RecordInput
canonical input = record input { attention = sort input.attention }

module _ (to_vec : RecordInput → Result CanonicalizationError (List ℕ)) where
  unfoldable pub canonical_append : RecordInput → Result CanonicalizationError (List ℕ)
  unfolding canonical
  canonical_append request = do map_err (validate request) validation; to_vec (canonical request)
