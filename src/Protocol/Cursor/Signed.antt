-- ===== src/Protocol/Cursor/Signed.antt =====
-- A cursor is accepted only with the signature of the codec's key, and for its own scope.
use agent_journal.Prelude.{
  ℕ, ◌≤◌, Result-cases, ◌≡◌, inl, inr, Text, some, List, true, byte_len, ok, Option-cases, arith,
}
use agent_journal.Protocol.Cursor.{
  CursorPosition, CursorScope, CursorCodec, CursorPayload, CursorLib, matches, max_cursor_chars,
  split_once, check_payload, verify, decode, cursor_version,
}

module _ (lib : CursorLib) where
  open lib use {hmac, base64_encode, base64_decode, encode_json, decode_json}

  -- What a decoded token is made of: a payload with the key's signature, of this version and scope.
  pub record IsSigned (codec : CursorCodec) (scope : CursorScope) (token : Text)
      (position : CursorPosition) : Type 0 where
    pub size : byte_len token ≤ max_cursor_chars
    pub bytes : List ℕ
    pub payload : CursorPayload
    pub payload_text : Text
    pub signature_text : Text
    pub parts : split_once token ≡ some (payload_text, signature_text)
    pub payload_bytes : base64_decode payload_text ≡ some bytes
    pub signature : base64_decode signature_text ≡ some (hmac codec.key bytes)
    pub decoded : decode_json bytes ≡ some payload
    pub version : payload.version ≡ cursor_version
    pub route : payload.route ≡ scope.route
    pub filter : payload.filter ≡ base64_encode scope.filter_fingerprint
    pub order : payload.order ≡ scope.order
    pub fits : matches scope.order position ≡ true
    pub at : payload.position ≡ position

  verify-parts :
      (codec : CursorCodec) (token : Text) (bytes : List ℕ)
      → verify lib codec token ≡ ok bytes
      → (byte_len token ≤ max_cursor_chars)
        × (pt : Text) × (st : Text) × (split_once token ≡ some (pt, st))
        × (base64_decode pt ≡ some bytes)
        × (base64_decode st ≡ some (hmac codec.key bytes))
  unfolding verify
  verify-parts codec token bytes h = elim (Option-cases (split_once token)) [
    | inl e ↦ absurd (ground arith)
    | inr ((pt, st), e) ↦ (ground arith, pt, st, e, ground arith, ground arith)
  ]

  check_payload-eq-ok :
      (scope : CursorScope) (payload : CursorPayload) (position : CursorPosition)
      → check_payload lib scope payload ≡ ok position
      → (payload.version ≡ cursor_version)
        × (payload.route ≡ scope.route)
        × (payload.filter ≡ base64_encode scope.filter_fingerprint)
        × (payload.order ≡ scope.order)
        × (matches scope.order position ≡ true)
        × (payload.position ≡ position)
  unfolding check_payload
  check_payload-eq-ok scope payload position h = ground arith

  decode-eq-ok :
      (codec : CursorCodec) (scope : CursorScope) (token : Text) (position : CursorPosition)
      → decode lib codec scope token ≡ ok position
      → (bytes : List ℕ) × (payload : CursorPayload) × (verify lib codec token ≡ ok bytes)
        × (decode_json bytes ≡ some payload)
        × (check_payload lib scope payload ≡ ok position)
  unfolding decode
  decode-eq-ok codec scope token position h = elim (Result-cases (verify lib codec token)) [
    | inr (e, v) ↦ absurd (ground arith)
    | inl (bytes, v) ↦ elim (Option-cases (decode_json bytes)) [
      | inl d ↦ absurd (ground arith)
      | inr (payload, d) ↦ (bytes, payload, v, d, ground arith)
    ]
  ]

  -- A token decodes to a position only if it has at most 2048 bytes and two parts, of which the
  -- second is the key's HMAC of the first, and the first is a payload of version 1 for the scope's
  -- route, filter fingerprint and order, at that position, of the kind that the order asks for.
  pub decode-IsSigned :
      (codec : CursorCodec) (scope : CursorScope) (token : Text) (position : CursorPosition)
      → decode lib codec scope token ≡ ok position
      → IsSigned codec scope token position
  decode-IsSigned codec scope token position h =
      let (bytes, payload, v, d, c) = decode-eq-ok codec scope token position h in
      let (size, pt, st, parts, pb, sg) = verify-parts codec token bytes v in
      let (version, route, filter, order, fits, at) =
        check_payload-eq-ok scope payload position c in
      record {
        size = size;
        bytes = bytes;
        payload = payload;
        payload_text = pt;
        signature_text = st;
        parts = parts;
        payload_bytes = pb;
        signature = sg;
        decoded = d;
        version = version;
        route = route;
        filter = filter;
        order = order;
        fits = fits;
        at = at;
      }
