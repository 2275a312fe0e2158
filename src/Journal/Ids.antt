-- ===== src/Journal/Ids.antt =====
-- crates/journal-service/src/records.rs and bootstrap.rs: `record_id` and `principal_id`, UUIDv7s of
-- the time, of random bytes and, for a principal, of the service's counter.
use agent_journal.Prelude.{
  zero, ◌*◌, suc, ok, ℕ, ◌+◌, ◌/◌, ◌%◌, ◌^◌, Text, Option, List, [], ◌∷◌, ◌++◌, leb, take, drop,
}
use agent_journal.Journal.Tx.{
  clock_now, clock, Host, Tx, ◌>>=◌, ◌>>◌, pure, some_or, fail_when, fill_random, hex,
}

-- `(millis as u64).to_be_bytes()[2..]`
abbrev pub time_bytes : ℕ → List ℕ
time_bytes m =
    m / 2 ^ 40 % 256
    ∷ m / 2 ^ 32 % 256
    ∷ m / 2 ^ 24 % 256
    ∷ m / 2 ^ 16 % 256
    ∷ m / 2 ^ 8 % 256
    ∷ m % 256
    ∷ []

-- `bytes[6] = (bytes[6] & 0x0f) | 0x70; bytes[8] = (bytes[8] & 0x3f) | 0x80`, on the bytes from 6 on.
unfoldable pub mark_version : List ℕ → List ℕ
mark_version (b6 ∷ b7 ∷ b8 ∷ rest) = (b6 % 16 + 0x70) ∷ b7 ∷ (b8 % 64 + 0x80) ∷ rest
mark_version bytes = bytes

-- `{}-{}-{}-{}-{}` of the slices of the 32 hex digits
unfoldable pub hyphenate : Text → Text
hyphenate h =
    take 8 h
    ++ (0x2d ∷ take 4 (drop 8 h)
        ++ (0x2d ∷ take 4 (drop 12 h) ++ (0x2d ∷ take 4 (drop 16 h) ++ (0x2d ∷ drop 20 h))))

-- The id of a time in milliseconds and of 32 random bytes, of which 6 to 15 are used.
unfoldable pub uuid_v7 : ℕ → List ℕ → Text
unfolding mark_version hyphenate hex
uuid_v7 millis bytes = hyphenate (hex (time_bytes millis ++ mark_version (drop 6 (take 16 bytes))))

-- `a ^ b` of the low `width` bits
unfoldable pub bit_xor : ℕ → ℕ → ℕ → ℕ
bit_xor zero a b = 0
bit_xor (suc width) a b = (a + b) % 2 + 2 * bit_xor width (a / 2) (b / 2)

abbrev pub sequence_bytes : ℕ → List ℕ
sequence_bytes n = n / 2 ^ 56 % 256 ∷ n / 2 ^ 48 % 256 ∷ time_bytes n

-- The zip ends with the shorter list.
unfoldable pub xor_bytes : List ℕ → List ℕ → List ℕ
xor_bytes [] sequence = []
xor_bytes (byte ∷ bytes) [] = byte ∷ bytes
xor_bytes (byte ∷ bytes) (s ∷ sequence) = bit_xor 8 byte s ∷ xor_bytes bytes sequence

unfoldable pub principal_uuid : ℕ → List ℕ → ℕ → Text
unfolding mark_version hyphenate hex xor_bytes
principal_uuid millis random sequence =
    let bytes = take 16 random in
    hyphenate (
      hex (
        time_bytes millis
        ++ mark_version
            (take 2 (drop 6 bytes) ++ xor_bytes (drop 8 bytes) (sequence_bytes sequence))))

-- `self.principal_sequence.fetch_add(1)`
unfoldable pub next_sequence : Tx ℕ
next_sequence s =
    (ok s.principal_sequence, record s { principal_sequence = (s.principal_sequence + 1) % 2 ^ 64 })

module _ (host : Host) where
  -- `record_id`
  unfoldable pub record_id : Option ℕ → Tx Text
  record_id instant = do
    millis ← some_or instant clock
    fail_when (leb (2 ^ 48) millis) clock
    bytes ← fill_random host
    pure (uuid_v7 millis bytes)

  -- `principal_id`
  unfoldable pub principal_id : Tx Text
  principal_id = do
    instant ← clock_now host
    millis ← some_or instant clock
    fail_when (leb (2 ^ 48) millis) clock
    random ← fill_random host
    sequence ← next_sequence
    pure (principal_uuid millis random sequence)
