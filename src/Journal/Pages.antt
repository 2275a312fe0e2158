-- ===== src/Journal/Pages.antt =====
-- crates/journal-service/src/records.rs: `finish_page`, `identifier_position`, and the page of a
-- thread.
use agent_journal.Prelude.{
  ℕ, ◌+◌, Text, Option, none, some, List, [], ◌∷◌, Bool, false, ◌||◌, ◌&&◌, ltb, ◌==◌,
  if◌then◌else◌, length, take, last, filter, find, same, text_lt, map_err, Result, ok, err,
}
use agent_journal.Domain.Types.{Record}
use agent_journal.Domain.Validate.{non_empty}
use agent_journal.Protocol.Cursor.{
  CursorCodec, CursorScope, CursorPosition, at_identifier, at_sequence, record_thread, sequence,
  new_scope, encode, decode,
}
use agent_journal.Protocol.Pages.{Page, PageQuery, effective_limit, validate_page_query}
use agent_journal.Journal.Schema.{RecordRow}
use agent_journal.Journal.Tx.{
  BootstrapError, invalid, invalid_journal, corrupt_journal, not_found, panicked, Host, Tx, ◌>>=◌,
  ◌>>◌, pure, raise, lift, some_or, read_db, read, transaction,
}
use agent_journal.Journal.Access.{journal_actor, cursor_codec, new_or_corrupt, permitted}
use agent_journal.Journal.Records.{get_record}
use agent_journal.Journal.Thread.{Looped, thread_budget, thread_ids}

abbrev pub i64_max : ℕ
i64_max = 9223372036854775807

-- `query.cursor.as_deref().filter(|s| !s.is_empty())`
abbrev pub given_cursor : PageQuery → Option Text
given_cursor query = non_empty query.cursor

-- Each record by its id.
unfoldable pub get_records : List (ℕ × Text) → Tx (List Record)
get_records [] = pure []
get_records ((seq, id) ∷ rest) = do
  r ← get_record id
  records ← get_records rest
  pure (r ∷ records)

-- `ORDER BY`, `sort`: by number and id.
abbrev pub before : ℕ × Text → ℕ × Text → Bool
before (m, a) (n, b) = ltb m n || (m == n && text_lt a b)

unfoldable pub insert_by_seq : ℕ × Text → List (ℕ × Text) → List (ℕ × Text)
insert_by_seq x [] = x ∷ []
insert_by_seq x (y ∷ ys) =
    let rest = insert_by_seq x ys in if before y x then y ∷ rest else x ∷ y ∷ ys

unfoldable pub sort_by_seq : List (ℕ × Text) → List (ℕ × Text)
sort_by_seq [] = []
sort_by_seq (x ∷ xs) = insert_by_seq x (sort_by_seq xs)

module _ (host : Host) where
  abbrev next_of {ℓ} :
      {A : Type ℓ}
      → CursorCodec
      → CursorScope
      → (A → CursorPosition)
      → Option A
      → Result BootstrapError (Option Text)
  next_of codec scope position none = err panicked
  next_of codec scope position (some item) =
      elim (encode host.cursor_lib codec scope (position item)) [
        | ok token ↦ ok (some token)
        | err _ ↦ err corrupt_journal
      ]

  abbrev page_of {ℓ} :
      {A : Type ℓ} → List A → Result BootstrapError (Option Text) → Result BootstrapError (Page A)
  page_of items (ok next) = ok (record { items = items; next_cursor = next })
  page_of items (err e) = err e

  -- `finish_page`
  unfoldable pub finish_page {ℓ} :
      {A : Type ℓ}
      → List A
      → PageQuery
      → CursorCodec
      → CursorScope
      → (A → CursorPosition)
      → Result BootstrapError (Page A)
  finish_page items query codec scope position =
      if ltb (effective_limit query) (length items)
      then (let kept = take (effective_limit query) items in
          page_of kept (next_of codec scope position (last kept)))
      else page_of items (ok none)

  abbrev id_of : Result BootstrapError CursorPosition → Result BootstrapError Text
  id_of (ok (at_identifier id)) = ok id
  id_of (ok _) = err invalid_journal
  id_of (err e) = err e

  -- The position that a given cursor stands for.
  abbrev pub position_of : CursorCodec → CursorScope → Text → Result BootstrapError CursorPosition
  position_of codec scope cursor =
      map_err (decode host.cursor_lib codec scope cursor) (λ _. invalid_journal)

  -- `identifier_position`
  unfoldable pub identifier_position :
      CursorCodec → CursorScope → PageQuery → Result BootstrapError Text
  identifier_position codec scope query = elim (given_cursor query) [
    | none ↦ ok []
    | some cursor ↦ id_of (position_of codec scope cursor)
  ]

  -- `read_paged`: the cursor key is made, if there is none, for a caller that may read.
  abbrev codec_for : Text → Option (List ℕ) → Tx CursorCodec
  codec_for token (some secret) = new_or_corrupt host secret
  codec_for token none = transaction host (do actor ← journal_actor host token; cursor_codec host)

  abbrev after_of : Result BootstrapError CursorPosition → Result BootstrapError (ℕ × Text)
  after_of (ok (at_sequence seq id)) = if ltb i64_max seq then err invalid_journal else ok (seq, id)
  after_of (ok _) = err invalid_journal
  after_of (err e) = err e

  abbrev thread_after : CursorCodec → CursorScope → PageQuery → Result BootstrapError (ℕ × Text)
  thread_after codec scope query = elim (given_cursor query) [
    | none ↦ ok (0, [])
    | some cursor ↦ after_of (position_of codec scope cursor)
  ]

  abbrev finished : Looped (List (ℕ × Text)) → Result BootstrapError (List (ℕ × Text))
  finished none = err panicked
  finished (some r) = r

  abbrev space_of : Option RecordRow → Tx Text
  space_of none = raise not_found
  space_of (some r) = pure r.space_id

  unfoldable pub thread_page : Text → Text → PageQuery → CursorCodec → Tx (Page Record)
  thread_page token id query codec = do
    actor ← journal_actor host token
    db ← read_db
    space ← space_of (find (λ (r : RecordRow). same r.id id) db.records)
    permitted actor space false
    filters ← some_or (host.pair_filters actor id) invalid_journal
    let scope = new_scope host.cursor_lib record_thread filters sequence
    after ← lift (thread_after codec scope query)
    ids ← lift (finished (thread_ids db space thread_budget id))
    let later = take (effective_limit query + 1) (sort_by_seq (filter (before after) ids))
    items ← get_records later
    lift (finish_page items query codec scope (λ (r : Record). at_sequence r.seq r.id))

  -- `get_thread`
  unfoldable pub get_thread : Text → Text → PageQuery → Tx (Page Record)
  get_thread token id query = do
    lift (map_err (validate_page_query query) invalid)
    db ← read_db
    codec ← codec_for token db.cursor_secret
    read host (thread_page token id query codec)
