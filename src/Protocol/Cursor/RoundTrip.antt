-- ===== src/Protocol/Cursor/RoundTrip.antt =====
-- A cursor that a codec issued is read back by the same codec, for its own scope and no other.
use agent_journal.Prelude.{
  ℕ, ◌≡◌, refl, sym, ◌∙◌, Text, some, List, [], ◌∷◌, ◌++◌, true, false, ◌==◌, length, any, is_empty,
  ok, arith,
}
use agent_journal.Protocol.Cursor.{
  CursorPosition, CursorScope, CursorCodec, CursorPayload, CursorLib, CursorLaws, matches,
  split_once, payload_of, encode_payload, encode, check_payload, verify, decode,
}

split_once_lem :
    (s t : Text) → any (λ c. c == 0x2e) s ≡ false → split_once (s ++ (0x2e ∷ t)) ≡ some (s, t)
unfolding split_once any
split_once_lem [] t h = refl
split_once_lem (c ∷ s) t h = ground (arith, split_once_lem s t)

module _ (lib : CursorLib) (laws : CursorLaws lib) where
  open lib use {hmac, base64_encode, base64_decode, encode_json, decode_json}
  open laws use {
    hmac_length, base64_round_trip, base64_no_dot, base64_empty, json_not_empty, json_round_trip,
  }

  signature-not_empty : (k m : List ℕ) → is_empty (base64_encode (hmac k m)) ≡ false
  signature-not_empty k m = elim_length (hmac k m) (hmac_length k m)
    where
      elim_length : (l : List ℕ) → length l ≡ 32 → is_empty (base64_encode l) ≡ false
      elim_length [] h = absurd (omega arith)
      elim_length (x ∷ l) h = base64_empty (x ∷ l)

  -- The bytes that a token made by `encode_payload` carries are verified.
  verify-encode_payload :
      (codec : CursorCodec) (p : CursorPayload) (bytes : List ℕ) (token : Text)
      → encode_json p ≡ some bytes
      → encode_payload lib codec p ≡ ok token
      → verify lib codec token ≡ ok bytes
  unfolding encode_payload verify
  verify-encode_payload codec p bytes token e h = ground (
    arith,
    split_once_lem (base64_encode bytes) (base64_encode (hmac codec.key bytes))
        (base64_no_dot bytes),
    base64_round_trip bytes,
    base64_round_trip (hmac codec.key bytes),
    base64_no_dot (hmac codec.key bytes),
    base64_empty bytes,
    json_not_empty p bytes e,
    signature-not_empty codec.key bytes,
    hmac_length codec.key bytes,
  )

  encoded_bytes :
      (codec : CursorCodec) (p : CursorPayload) (token : Text)
      → encode_payload lib codec p ≡ ok token
      → (bytes : List ℕ) × (encode_json p ≡ some bytes)
  unfolding encode_payload
  encoded_bytes codec p token h = ground arith

  decode-encode_payload :
      (codec : CursorCodec) (scope : CursorScope) (p : CursorPayload) (token : Text)
      → encode_payload lib codec p ≡ ok token
      → decode lib codec scope token ≡ check_payload lib scope p
  unfolding decode
  decode-encode_payload codec scope p token h =
      let (bytes, e) = encoded_bytes codec p token h in
      ground (arith, verify-encode_payload codec p bytes token e h, json_round_trip p bytes e)

  encode-eq-ok :
      (codec : CursorCodec) (scope : CursorScope) (position : CursorPosition) (token : Text)
      → encode lib codec scope position ≡ ok token
      → (matches scope.order position ≡ true)
        × (encode_payload lib codec (payload_of lib scope position) ≡ ok token)
  unfolding encode
  encode-eq-ok codec scope position token h = ground arith

  check_payload_self :
      (scope : CursorScope) (position : CursorPosition)
      → matches scope.order position ≡ true
      → check_payload lib scope (payload_of lib scope position) ≡ ok position
  unfolding check_payload
  check_payload_self scope position h = ground arith

  -- A cursor that `encode` returns decodes, under the same codec and scope, to its position.
  pub decode-encode :
      (codec : CursorCodec) (scope : CursorScope) (position : CursorPosition) (token : Text)
      → encode lib codec scope position ≡ ok token
      → decode lib codec scope token ≡ ok position
  decode-encode codec scope position token h =
      let (fits, e) = encode-eq-ok codec scope position token h in
      decode-encode_payload codec scope (payload_of lib scope position) token e
      ∙ check_payload_self scope position fits

  check_payload-scope :
      (s t : CursorScope) (p q : CursorPosition)
      → check_payload lib t (payload_of lib s p) ≡ ok q
      → (s.route ≡ t.route)
        × (base64_encode s.filter_fingerprint ≡ base64_encode t.filter_fingerprint)
        × (s.order ≡ t.order)
        × (p ≡ q)
  unfolding check_payload
  check_payload-scope s t p q h = ground arith

  base64-injective : (a b : List ℕ) → base64_encode a ≡ base64_encode b → a ≡ b
  base64-injective a b h = ground (arith, base64_round_trip a, base64_round_trip b)

  -- If a cursor that was issued for one scope decodes under a scope of the same codec, then the two
  -- scopes are equal in route, filter fingerprint and order, and the position is the one issued.
  pub decode-encode-scope :
      (codec : CursorCodec) (s t : CursorScope) (p q : CursorPosition) (token : Text)
      → encode lib codec s p ≡ ok token
      → decode lib codec t token ≡ ok q
      → (s ≡ t) × (p ≡ q)
  decode-encode-scope codec s t p q token h d =
      let (fits, e) = encode-eq-ok codec s p token h in
      let checked = sym (decode-encode_payload codec t (payload_of lib s p) token e) ∙ d in
      let (route, filter, order, position) = check_payload-scope s t p q checked in
      ground (arith, base64-injective s.filter_fingerprint t.filter_fingerprint)
