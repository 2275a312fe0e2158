-- ===== src/Protocol/Cursor.antt =====
-- crates/journal-protocol/src/cursor.rs: signed pagination cursors. SHA-256, HMAC, base64url and
-- the JSON codec are other crates': they are the fields of `CursorLib`, and `CursorLaws` says what
-- the code relies on. Texts and byte strings are lists of numbers.

pub mod RoundTrip
pub mod Signed
use agent_journal.Prelude.{
  ℕ, ◌+◌, ◌≡◌, Text, Option, none, some, List, [], ◌∷◌, ◌++◌, Bool, true, false, ◌||◌, not, ltb,
  ◌==◌, if◌then◌else◌, length, byte_len, any, is_empty, same, Result, ok, err, ◌>>=◌, ◌>>◌, fail_if,
  ok_or,
}

abbrev pub cursor_version : ℕ
cursor_version = 1

abbrev pub min_key_bytes : ℕ
min_key_bytes = 32

abbrev pub hmac_bytes : ℕ
hmac_bytes = 32

-- crates/journal-protocol/src/dto.rs
abbrev pub max_cursor_chars : ℕ
max_cursor_chars = 2048

pub data CursorRoute : Type 0 where
  principals spaces records search_route record_thread record_delivery_status inbox : CursorRoute

pub data CursorOrder : Type 0 where
  identifier sequence rank bounded_sequence : CursorOrder

pub data CursorPosition : Type 0 where
  at_identifier : (id : Text) → CursorPosition
  at_sequence : (sequence : ℕ) (id : Text) → CursorPosition
  at_rank : (score_bits : ℕ) (id : Text) → CursorPosition
  at_bounded : (sequence : ℕ) (upper_bound : ℕ) → CursorPosition

pub CursorRoute-discrete : Discrete CursorRoute
CursorRoute-discrete = hlevel

pub CursorOrder-discrete : Discrete CursorOrder
CursorOrder-discrete = hlevel

abbrev pub same_route : CursorRoute → CursorRoute → Bool
same_route a b = elim (CursorRoute-discrete a b) [ yes _ ↦ true | no _ ↦ false ]

abbrev pub same_order : CursorOrder → CursorOrder → Bool
same_order a b = elim (CursorOrder-discrete a b) [ yes _ ↦ true | no _ ↦ false ]

pub record CursorScope : Type 0 where
  pub route : CursorRoute
  pub filter_fingerprint : List ℕ
  pub order : CursorOrder

pub record CursorCodec : Type 0 where
  pub key : List ℕ

pub data CursorError : Type 0 where
  key_too_short too_long malformed invalid_encoding invalid_signature invalid_payload : CursorError
  unsupported_version wrong_route wrong_filter wrong_order position_order_mismatch : CursorError

pub record CursorPayload : Type 0 where
  pub version : ℕ
  pub route : CursorRoute
  pub filter : Text
  pub order : CursorOrder
  pub position : CursorPosition

-- `CursorPosition::matches`
unfoldable pub matches : CursorOrder → CursorPosition → Bool
matches identifier (at_identifier _) = true
matches sequence (at_sequence _ _) = true
matches rank (at_rank _ _) = true
matches bounded_sequence (at_bounded _ _) = true
matches _ _ = false

-- The operations of other crates. `decode_json` and `encode_json` are those of the payload type.
pub record CursorLib : Type 0 where
  pub sha256 : List ℕ → List ℕ
  pub hmac : List ℕ → List ℕ → List ℕ
  pub base64_encode : List ℕ → Text
  pub base64_decode : Text → Option (List ℕ)
  pub encode_json : CursorPayload → Option (List ℕ)
  pub decode_json : List ℕ → Option CursorPayload

-- What is relied on: a digest of 32 bytes, an unpadded base64url that round-trips, has no dot and
-- is empty for no bytes only, and a JSON codec that round-trips to text that is not empty.
pub record CursorLaws (lib : CursorLib) : Type 0 where
  pub hmac_length : (key message : List ℕ) → length (lib.hmac key message) ≡ 32
  pub base64_round_trip :
      (bytes : List ℕ) → lib.base64_decode (lib.base64_encode bytes) ≡ some bytes
  pub base64_no_dot : (bytes : List ℕ) → any (λ c. c == 0x2e) (lib.base64_encode bytes) ≡ false
  pub base64_empty : (bytes : List ℕ) → is_empty (lib.base64_encode bytes) ≡ is_empty bytes
  pub json_not_empty :
      (p : CursorPayload) (bytes : List ℕ) → lib.encode_json p ≡ some bytes → is_empty bytes ≡ false
  pub json_round_trip :
      (p : CursorPayload) (bytes : List ℕ)
      → lib.encode_json p ≡ some bytes
      → lib.decode_json bytes ≡ some p

-- `str::split_once('.')`
unfoldable pub split_once : Text → Option (Text × Text)
split_once [] = none
split_once (c ∷ s) =
    let rest = split_once s in
    if c == 0x2e
    then some ([], s)
    else elim rest [ none ↦ none | some (head, tail) ↦ some (c ∷ head, tail) ]

module _ (lib : CursorLib) where
  open lib use {sha256, hmac, base64_encode, base64_decode, encode_json, decode_json}

  -- `CursorScope::new`
  unfoldable pub new_scope : CursorRoute → List ℕ → CursorOrder → CursorScope
  new_scope route canonical_filters order = record {
    route = route;
    filter_fingerprint = sha256 canonical_filters;
    order = order;
  }

  -- `CursorCodec::new`
  unfoldable pub new_codec : List ℕ → Result CursorError CursorCodec
  new_codec key = do
    fail_if (ltb (length key) min_key_bytes) key_too_short
    ok (record { key = sha256 key })

  unfoldable pub encode_payload : CursorCodec → CursorPayload → Result CursorError Text
  encode_payload codec payload = do
    payload_bytes ← ok_or (encode_json payload) invalid_payload
    let token = base64_encode payload_bytes ++ (0x2e ∷ base64_encode (hmac codec.key payload_bytes))
    fail_if (ltb max_cursor_chars (byte_len token)) too_long
    ok token

  abbrev pub payload_of : CursorScope → CursorPosition → CursorPayload
  payload_of scope position = record {
    version = cursor_version;
    route = scope.route;
    filter = base64_encode scope.filter_fingerprint;
    order = scope.order;
    position = position;
  }

  unfoldable pub encode : CursorCodec → CursorScope → CursorPosition → Result CursorError Text
  encode codec scope position = do
    fail_if (not (matches scope.order position)) position_order_mismatch
    encode_payload codec (payload_of scope position)

  -- The checks of a payload whose signature is right.
  unfoldable pub check_payload : CursorScope → CursorPayload → Result CursorError CursorPosition
  check_payload scope payload = do
    fail_if (not (payload.version == cursor_version)) unsupported_version
    fail_if (not (same_route payload.route scope.route)) wrong_route
    fail_if (not (same payload.filter (base64_encode scope.filter_fingerprint))) wrong_filter
    fail_if (not (same_order payload.order scope.order)) wrong_order
    fail_if (not (matches payload.order payload.position)) position_order_mismatch
    ok payload.position

  -- The two halves of the token, decoded and verified.
  unfoldable pub verify : CursorCodec → Text → Result CursorError (List ℕ)
  verify codec token = do
    fail_if (ltb max_cursor_chars (byte_len token)) too_long
    (payload_text, signature_text) ← ok_or (split_once token) malformed
    fail_if
        (is_empty payload_text || is_empty signature_text || any (λ c. c == 0x2e) signature_text)
        malformed
    payload_bytes ← ok_or (base64_decode payload_text) invalid_encoding
    signature ← ok_or (base64_decode signature_text) invalid_encoding
    fail_if (not (length signature == hmac_bytes)) invalid_encoding
    fail_if (not (same (hmac codec.key payload_bytes) signature)) invalid_signature
    ok payload_bytes

  unfoldable pub decode : CursorCodec → CursorScope → Text → Result CursorError CursorPosition
  decode codec scope token = do
    payload_bytes ← verify codec token
    payload ← ok_or (decode_json payload_bytes) invalid_payload
    check_payload scope payload
