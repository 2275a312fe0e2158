-- ===== src/Journal/Tx.antt =====
-- crates/journal-service/src/bootstrap.rs: the service's errors, its sources of time and secrets,
-- and its transactions; crates/journal-storage-sqlite/src/lib.rs: `with_transaction_for`.
use agent_journal.Prelude.{
  arith, ok_or, ◌≡◌, ℕ, ◌+◌, ◌^◌, ◌/◌, ◌%◌, Text, Option, none, some, List, [], ◌∷◌, Bool, true,
  false, ltb, leb, ◌==◌, if◌then◌else◌, Result, ok, err,
}
use agent_journal.Domain.Types.{RecordInput, AppendResult, Principal, RelationType}
use agent_journal.Protocol.Requests.{
  PrincipalCreateRequest, RegistrationReceipt, ProfileUpdateRequest,
}
use agent_journal.Protocol.Canonical.{CanonicalizationError}
use agent_journal.Protocol.Cursor.{CursorLib}
use agent_journal.Protocol.Pages.{WireValidationError, InboxState}
use agent_journal.Journal.Schema.{Db}

-- `panicked` is a panic, which is no value of the source's type.
pub data BootstrapError : Type 0 where
  idempotency_conflict invalid_journal corrupt_journal : BootstrapError
  invalid : WireValidationError → BootstrapError
  unauthorized not_found conflict storage sqlite random clock injected panicked : BootstrapError

-- The durable boundaries at which a failure can be injected.
pub data Boundary : Type 0 where
  append_sequence append_record_row append_relations append_attention append_inbox_sequence :
      Boundary
  append_mailbox append_idempotency inbox_acknowledged : Boundary
  registration_digest_lookup registration_principal registration_handle : Boundary
  registration_credential registration_receipt rotation_issued rotation_revoked : Boundary
  credential_revoked principal_recovery_revoked principal_recovery_issued : Boundary

pub Boundary-discrete : Discrete Boundary
Boundary-discrete = hlevel

-- The JSON of administration, by serde_json.
pub record AdminJson : Type 0 where
  pub request_json : PrincipalCreateRequest → Option Text
  pub receipt_json : RegistrationReceipt → Option Text
  pub decode_receipt : Text → Option RegistrationReceipt
  pub profile_json : ProfileUpdateRequest → Option Text
  pub principal_json : Principal → Option Text
  pub decode_principal : Text → Option Principal
  pub profile_detail : (old_handle new_handle : Text) (previous_revision new_revision : ℕ) → Text
  pub recovery_detail : Option Text → Text

-- What identifies a list of records, besides its route.
pub record RecordFilters : Type 0 where
  pub actor : Text
  pub space : Text
  pub after_seq : ℕ
  pub author : Option Text
  pub attention : Option Text
  pub kind : Option Text
  pub relation : Option RelationType

-- What the service uses and does not implement, and its settings. The n-th use of a source of time
-- or of secrets has its own answer: `millis` the milliseconds since the epoch, if the clock is not
-- before it, and `fill` 32 bytes. `cursor_lib` has SHA-256 too. `later a b` is SQLite's `julianday(a)>julianday(b)`.
-- The fields named after filters are the JSON of a tuple. `ensure_open`, `prepare` and `committed` are the steps of the recovery audit, and `commit` is
-- SQLite's.
pub record Host : Type 0 where
  pub millis : ℕ → Option ℕ
  pub timestamp_of : ℕ → Option Text
  pub fill : ℕ → Option (List ℕ)
  pub cursor_lib : CursorLib
  pub later : Text → Text → Bool
  pub inbox_filters : Text → InboxState → ℕ → Option (List ℕ)
  pub pair_filters : Text → Text → Option (List ℕ)
  pub actor_filters : Text → Option (List ℕ)
  pub record_filters : RecordFilters → Option (List ℕ)
  pub to_vec : RecordInput → Result CanonicalizationError (List ℕ)
  pub decode_response : Text → Option AppendResult
  pub admin_json : AdminJson
  pub failpoint : Option Boundary
  pub ensure_open : Db → Result BootstrapError (Unit {0})
  pub prepare : Db → Result BootstrapError (Unit {0})
  pub commit : Db → Result BootstrapError (Unit {0})
  pub committed : Db → Result BootstrapError (Unit {0})

-- The database, SQLite's count of changed rows, how often the host's sources were used, and the
-- service's counter of new principals.
pub record Store : Type 0 where
  pub db : Db
  pub changes : ℕ
  pub uses : ℕ
  pub principal_sequence : ℕ

abbrev pub Tx {ℓ} : Type ℓ → Type ℓ
Tx A = Store → Result BootstrapError A × Store

abbrev pub continue {ℓ κ} :
    {A : Type ℓ} {B : Type κ}
    → Result BootstrapError A × Store
    → (A → Tx B)
    → Result BootstrapError B × Store
continue (ok a, s) f = f a s
continue (err e, s) f = (err e, s)

infixl 5 ◌>>=◌ ◌>>◌
abbrev pub ◌>>=◌ {ℓ κ} : {A : Type ℓ} {B : Type κ} → Tx A → (A → Tx B) → Tx B
◌>>=◌ m f s = continue (m s) f

abbrev pub ◌>>◌ {ℓ} : {B : Type ℓ} → Tx (Unit {0}) → Tx B → Tx B
◌>>◌ m k s = continue (m s) (λ _. k)

abbrev pub pure {ℓ} : {A : Type ℓ} → A → Tx A
pure a s = (ok a, s)

abbrev pub raise {ℓ} : {A : Type ℓ} → BootstrapError → Tx A
raise e s = (err e, s)

unfoldable pub lift {ℓ} : {A : Type ℓ} → Result BootstrapError A → Tx A
lift r s = (r, s)

-- `ok_or(e)?`
unfoldable pub some_or {ℓ} : {A : Type ℓ} → Option A → BootstrapError → Tx A
some_or none e = raise e
some_or (some a) e = pure a

-- `if c { return Err(e) }`
unfoldable pub fail_when : Bool → BootstrapError → Tx (Unit {0})
fail_when true e = raise e
fail_when false e = pure tt

abbrev pub read_db : Tx Db
read_db s = (ok s.db, s)

-- A statement that changes `n` rows.
abbrev pub write : ℕ → (Db → Db) → Tx (Unit {0})
write n f s = (ok tt, record s { db = f s.db; changes = s.changes + n })

abbrev pub hex_digit : ℕ → ℕ
hex_digit d = if ltb d 10 then 48 + d else 87 + d

-- `hex`, of a list of bytes
unfoldable pub hex : List ℕ → Text
hex [] = []
hex (b ∷ bytes) = hex_digit (b / 16) ∷ hex_digit (b % 16) ∷ hex bytes

-- A refusal leaves the database as it was before the transaction; a `rollback` that itself raises is
-- not modelled.
abbrev pub roll_back {ℓ} : {A : Type ℓ} → Store → BootstrapError → Tx A
roll_back before e s = (err e, record s { db = before.db; changes = before.changes })

module _ (host : Host) where
  -- `digest`
  unfoldable pub digest : List ℕ → Text
  digest bytes = hex (host.cursor_lib.sha256 bytes)

  -- `self.clock.now()`: the milliseconds since the epoch, or `none` before it.
  unfoldable pub clock_now : Tx (Option ℕ)
  clock_now s = (ok (host.millis s.uses), record s { uses = s.uses + 1 })

  -- `timestamp`
  unfoldable pub timestamp : Option ℕ → Result BootstrapError Text
  timestamp none = err clock
  timestamp (some millis) =
      if leb (2 ^ 63) (millis / 1000)
      then err clock
      else ok_or (host.timestamp_of (millis / 1000)) clock

  -- `self.now()`
  unfoldable pub now : Tx Text
  unfolding clock_now timestamp
  now = do instant ← clock_now; lift (timestamp instant)

  -- `self.random.fill`
  unfoldable pub fill_random : Tx (List ℕ)
  fill_random s = (ok_or (host.fill s.uses) random, record s { uses = s.uses + 1 })

  -- `self.secret()`
  unfoldable pub secret : Tx Text
  unfolding fill_random
  secret = do bytes ← fill_random; pure (hex bytes)

  -- `self.checkpoint(boundary)`
  abbrev is_at : Option Boundary → Boundary → Bool
  is_at none boundary = false
  is_at (some b) boundary = elim (Boundary-discrete b boundary) [ yes _ ↦ true | no _ ↦ false ]

  unfoldable pub checkpoint : Boundary → Tx (Unit {0})
  checkpoint boundary = fail_when (is_at host.failpoint boundary) injected

  -- What is done with the operation's outcome: a commit through the audit, or a rollback.
  abbrev pub finish {ℓ} :
      {A : Type ℓ} → Store → Result BootstrapError A × Store → Result BootstrapError A × Store
  finish before (err e, s) = roll_back before e s
  finish before (ok value, s) =
      let audited = if s.changes == before.changes then ok tt else host.prepare s.db in
      elim audited [
        | err e ↦ roll_back before e s
        | ok _ ↦ elim (host.commit s.db) [
          | err e ↦ roll_back before e s
          | ok _ ↦ elim (host.committed s.db) [ err e ↦ (err e, s) | ok _ ↦ (ok value, s) ]
        ]
      ]

  -- `with_transaction_for`
  unfoldable pub transaction {ℓ} : {A : Type ℓ} → Tx A → Tx A
  transaction operation s = elim (host.ensure_open s.db) [
    | err e ↦ (err e, s)
    | ok _ ↦ finish s (operation s)
  ]

  -- The snapshot of a read is dropped.
  abbrev pub dropped {ℓ} :
      {A : Type ℓ} → Store → Result BootstrapError A × Store → Result BootstrapError A × Store
  dropped before (r, s) = (r, record s { db = before.db; changes = before.changes })

  -- `read`
  unfoldable pub read {ℓ} : {A : Type ℓ} → Tx A → Tx A
  read operation s = dropped s (operation s)

  -- A transaction that returns has run its operation to the end, in the store it was given.
  pub transaction-ok {ℓ} :
      {A : Type ℓ} (operation : Tx A) (s : Store) (a : A)
      → (transaction operation s).0 ≡ ok a
      → operation s ≡ (ok a, (transaction operation s).1)
  unfolding transaction
  transaction-ok operation s a h = ground arith
