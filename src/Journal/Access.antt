-- ===== src/Journal/Access.antt =====
-- crates/journal-service/src/records.rs and bootstrap.rs: who calls, and what is permitted. A query
-- that reads one row is a search of the table by its conditions.
use agent_journal.Prelude.{
  List, ℕ, Text, Option, none, some, Bool, true, not, ◌||◌, ◌&&◌, ◌==◌, leb, if◌then◌else◌, length,
  any, all, find, is_none, same, map_err,
}
use agent_journal.Protocol.Cursor.{CursorCodec, new_codec}
use agent_journal.Journal.Schema.{Db, PrincipalRow, NameRow, CredentialRow, SpaceRow}
use agent_journal.Journal.Tx.{
  unauthorized, not_found, corrupt_journal, Host, Tx, ◌>>=◌, ◌>>◌, pure, lift, some_or, fail_when,
  read_db, write, digest, now, fill_random,
}

abbrev pub is_hex_digit : ℕ → Bool
is_hex_digit c = (leb 48 c && leb c 57) || (leb 97 c && leb c 102) || (leb 65 c && leb c 70)

-- The principal exists and is not disabled.
unfoldable pub is_active : Db → Text → Bool
is_active db id = any (λ (p : PrincipalRow). same p.id id && is_none p.disabled_at) db.principals

unfoldable pub is_open : Db → Text → Bool → Bool
is_open db space append =
    any (λ (s : SpaceRow). same s.id space && (not append || is_none s.archived_at)) db.spaces

abbrev pub named : Db → Text → Option NameRow → Option Text
named db selector (some n) = some n.principal_id
named db selector none =
    if is_active db selector && not (any (λ (n : NameRow). same n.name selector) db.principal_names)
    then some selector
    else none

-- The principal that a name or, if it is no name, an id selects.
unfoldable pub select_principal : Db → Text → Option Text
select_principal db selector =
    named db selector (
      find (λ (n : NameRow). same n.name selector && is_active db n.principal_id)
        db.principal_names)

module _ (host : Host) where
  abbrev pub unexpired : Text → Option Text → Bool
  unexpired t none = true
  unexpired t (some at) = host.later at t

  -- The conditions on a credential alone, and those of `journal_actor`.
  unfoldable pub is_valid : Text → Text → CredentialRow → Bool
  is_valid hash t c = same c.token_hash hash && (is_none c.revoked_at && unexpired t c.expires_at)

  abbrev well_formed : Text → Bool
  well_formed token = length token == 64 && all is_hex_digit token

  -- `journal_actor`
  unfoldable pub journal_actor : Text → Tx Text
  unfolding is_valid
  journal_actor token = do
    fail_when (not (well_formed token)) unauthorized
    t ← now host
    db ← read_db
    c ←
        some_or
          (find
            (λ (c : CredentialRow). is_valid (digest host token) t c && is_active db c.principal_id)
            db.credentials)
          unauthorized
    pure c.principal_id

  -- `append_replay_actor`: the principal may be disabled.
  unfoldable pub append_replay_actor : Text → Tx Text
  unfolding is_valid
  append_replay_actor token = do
    fail_when (not (well_formed token)) unauthorized
    t ← now host
    db ← read_db
    c ← some_or (find (is_valid (digest host token) t) db.credentials) unauthorized
    pure c.principal_id

  abbrev pub new_or_corrupt : List ℕ → Tx CursorCodec
  new_or_corrupt secret = lift (map_err (new_codec host.cursor_lib secret) (λ _. corrupt_journal))

  -- The cursor key, made at its first use.
  abbrev secret_or_new : Option (List ℕ) → Tx (List ℕ)
  secret_or_new (some secret) = pure secret
  secret_or_new none = do
    bytes ← fill_random host
    write 1 (λ db. record db { cursor_secret = some bytes })
    pure bytes

  -- `cursor_codec`
  unfoldable pub cursor_codec : Tx CursorCodec
  cursor_codec = do db ← read_db; secret ← secret_or_new db.cursor_secret; new_or_corrupt secret

-- `active_principal`
unfoldable pub active_principal : Text → Tx Text
active_principal selector = do db ← read_db; some_or (select_principal db selector) not_found

-- `permitted`
unfoldable pub permitted : Text → Text → Bool → Tx (Unit {0})
permitted principal space append = do
  db ← read_db
  fail_when (not (is_active db principal && is_open db space append)) not_found
