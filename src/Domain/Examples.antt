-- ===== src/Domain/Examples.antt =====
-- The theorems of crates/journal-domain at a concrete append request, and runs of its validation.
use agent_journal.Prelude.{
  ℕ_discrete, Text-discrete, any, byte_len, ◌≡◌, ◌↔◌, refl, text, none, some, [], ◌∷◌, ok, err,
}
use agent_journal.Domain.Types.{RecordInput, reply_to, duplicate_attention}
use agent_journal.Domain.Title.{normalize_title}
use agent_journal.Domain.Titles.{validate-normalize_title}
use agent_journal.Domain.Validate.{check_attention, validate_identifier, validate}
use agent_journal.Domain.Spec.{IsValidInput, validate_iff}

abbrev pub sample_input : RecordInput
sample_input = record {
  kind = text "message";
  content = text "safe";
  run_id = none;
  attention = text "beta" ∷ text "alpha" ∷ [];
  routing_key = none;
  relations = record { relation_type = reply_to; record_id = text "record-1" } ∷ [];
  title = some (text "  Project kickoff ");
}

abbrev repeated_input : RecordInput
repeated_input = record sample_input { attention = text "beta" ∷ text "beta" ∷ [] }

validate-repeated : validate repeated_input ≡ err (duplicate_attention (text "beta"))
unfolding validate validate_identifier check_attention byte_len any Text-discrete ℕ_discrete
validate-repeated = refl

validate_iff_example : (validate sample_input ≡ ok tt) ↔ IsValidInput sample_input
validate_iff_example = validate_iff sample_input

validate-normalize_title_example :
    validate (record sample_input { title = normalize_title sample_input.title })
    ≡ validate sample_input
validate-normalize_title_example = validate-normalize_title sample_input
