-- ===== src/Protocol/Examples.antt =====
-- The theorems of crates/journal-protocol at a concrete encoder and a concrete set of primitives.
mod Encoder
use Encoder.{encode_input, encode_input-IsEncoder}
use mathlib.Core.List.Perm
use agent_journal.Prelude.{
  byte_len, ℕ_discrete, zero, suc, ℕ, ◌+◌, ◌-◌, ◌≤◌, ◌≡◌, ◌↔◌, refl, Text, text, Option, none, some,
  List, [], ◌∷◌, ◌++◌, Bool, true, false, length, any, is_empty, ◌==◌, Text-discrete, Result, ok,
  err, arith,
}
use agent_journal.Domain.Types.{RecordInput}
use agent_journal.Domain.Examples.{sample_input}
use agent_journal.Domain.Title.{
  is_control, is_whitespace, normalize_title, trim, trim_end, trim_start, validate_title,
}
use agent_journal.Domain.Validate.{
  non_empty, check_relations, check_attention, validate_identifier, validate,
}
use agent_journal.Protocol.Canonical.{canonical_append}
use agent_journal.Protocol.Canonical.Order.{SameAppend, canonical_append-eq_iff}
use agent_journal.Protocol.Cursor.{
  CursorOrder-discrete, matches, CursorRoute-discrete, encode_payload, CursorRoute, CursorOrder,
  CursorPosition, CursorPayload, CursorScope, CursorCodec, CursorLib, CursorLaws, inbox,
  bounded_sequence, at_bounded, encode, decode, new_scope, payload_of,
}
use agent_journal.Protocol.Cursor.RoundTrip.{decode-encode, decode-encode-scope}
use agent_journal.Protocol.Cursor.Signed.{IsSigned, decode-IsSigned}

abbrev other_input : RecordInput
other_input = record sample_input { attention = text "alpha" ∷ text "beta" ∷ [] }

sample_input-valid : validate sample_input ≡ ok tt
unfolding validate validate_identifier check_attention byte_len any Text-discrete ℕ_discrete
    non_empty check_relations normalize_title trim trim_end trim_start is_whitespace validate_title
    is_control
sample_input-valid = refl

other_input-valid : validate other_input ≡ ok tt
unfolding validate validate_identifier check_attention byte_len any Text-discrete ℕ_discrete
    non_empty check_relations normalize_title trim trim_end trim_start is_whitespace validate_title
    is_control
other_input-valid = refl

canonical_append-eq_iff_example :
    (canonical_append encode_input sample_input ≡ canonical_append encode_input other_input)
    ↔ SameAppend sample_input other_input
canonical_append-eq_iff_example =
    canonical_append-eq_iff encode_input encode_input-IsEncoder sample_input other_input
      sample_input-valid other_input-valid

abbrev inbox_scope : CursorScope
inbox_scope = record { route = inbox; filter_fingerprint = 7 ∷ []; order = bounded_sequence }

abbrev sample_payload : CursorPayload
sample_payload = record {
  version = 1;
  route = inbox;
  filter = 54 ∷ [];
  order = bounded_sequence;
  position = at_bounded 3 9;
}

CursorPosition-discrete : Discrete CursorPosition
CursorPosition-discrete = hlevel (ℕ_discrete, Text-discrete)

CursorPayload-discrete : Discrete CursorPayload
CursorPayload-discrete =
    hlevel (
      ℕ_discrete, Text-discrete, CursorPosition-discrete, CursorRoute-discrete,
      CursorOrder-discrete,
    )

abbrev shift : List ℕ → Text
shift [] = []
shift (b ∷ bytes) = (b + 47) ∷ shift bytes

abbrev unshift : Text → List ℕ
unshift [] = []
unshift (c ∷ s) = (c - 47) ∷ unshift s

abbrev zeros : ℕ → List ℕ
zeros zero = []
zeros (suc n) = 0 ∷ zeros n

-- A base64 of one character a byte, a constant HMAC, and a JSON codec of one payload.
abbrev toy : CursorLib
toy = record {
  sha256 = λ bytes. bytes;
  hmac = λ key message. zeros 32;
  base64_encode = shift;
  base64_decode = λ s. some (unshift s);
  encode_json =
      λ p. elim (CursorPayload-discrete p sample_payload) [ yes _ ↦ some (1 ∷ []) | no _ ↦ none ];
  decode_json = λ bytes. some sample_payload;
}

unshift-shift : (bytes : List ℕ) → unshift (shift bytes) ≡ bytes
unshift-shift [] = refl
unshift-shift (b ∷ bytes) = ground (arith, unshift-shift bytes)

no_dot : (bytes : List ℕ) → any (λ c. c == 0x2e) (shift bytes) ≡ false
unfolding any
no_dot [] = refl
no_dot (b ∷ bytes) = ground (arith, no_dot bytes)

shift-empty : (bytes : List ℕ) → is_empty (shift bytes) ≡ is_empty bytes
shift-empty [] = refl
shift-empty (b ∷ bytes) = refl

toy-CursorLaws : CursorLaws toy
toy-CursorLaws = record {
  hmac_length = λ key message. refl;
  base64_round_trip = λ bytes. ground (arith, unshift-shift bytes);
  base64_no_dot = no_dot;
  base64_empty = shift-empty;
  json_not_empty = λ p bytes h. ground arith;
  json_round_trip = λ p bytes h. ground arith;
}

abbrev toy_codec : CursorCodec
toy_codec = record { key = zeros 32 }

abbrev toy_token : Text
toy_token = 48 ∷ 46 ∷ shift (zeros 32)

toy_encodes : encode toy toy_codec inbox_scope (at_bounded 3 9) ≡ ok toy_token
unfolding encode encode_payload matches byte_len CursorPayload-discrete
toy_encodes = ground arith

decode-encode_example : decode toy toy_codec inbox_scope toy_token ≡ ok (at_bounded 3 9)
decode-encode_example =
    decode-encode toy toy-CursorLaws toy_codec inbox_scope (at_bounded 3 9) toy_token toy_encodes

decode-encode-scope_example : (inbox_scope ≡ inbox_scope) × (at_bounded 3 9 ≡ at_bounded 3 9)
decode-encode-scope_example =
    decode-encode-scope toy toy-CursorLaws toy_codec inbox_scope inbox_scope (at_bounded 3 9)
      (at_bounded 3 9) toy_token toy_encodes decode-encode_example

decode-IsSigned_example : IsSigned toy toy_codec inbox_scope toy_token (at_bounded 3 9)
decode-IsSigned_example =
    decode-IsSigned toy toy_codec inbox_scope toy_token (at_bounded 3 9) decode-encode_example
