-- ===== src/Journal/Append/Frames.antt =====
-- What the steps of an append leave alone (crates/journal-service/src/records.rs,
-- `append_record`): the records, the idempotency keys, and how many inbox items they add.
use mathlib.Core.List.{append-nil, append_assoc}
use agent_journal.Prelude.{
  suc, sym, some, true, Bool, ℕ, ◌≡◌, refl, ap, ◌∙◌, Text, Option, List, [], ◌∷◌, ◌++◌, false,
  length, arith,
}
use agent_journal.Domain.Types.{Relation}
use agent_journal.Journal.Schema.{Db, MailboxRow, IdempotencyRow}
use agent_journal.Journal.Tx.{Host, Store, lift, some_or, fail_when, fill_random, secret}
use agent_journal.Journal.Access.{
  cursor_codec, active_principal, select_principal, is_active, is_open, permitted,
}
use agent_journal.Journal.Ids.{record_id}
use agent_journal.Journal.Inserts.{insert_idempotency}
use agent_journal.Journal.Append.{resolve_recipients, check_targets}
use agent_journal.Journal.Returns.{
  Returns, Returns-continue, Returns-ok, Returns-weaken, Returns-some_or, Returns-fail_when, Kept,
  Returns-permitted,
}

-- The records, the idempotency keys and the credentials are kept, and items are added.
pub record Grown (added : List MailboxRow) (before after : Db) : Type 0 where
  pub records : after.records ≡ before.records
  pub keys : after.idempotency_keys ≡ before.idempotency_keys
  pub credentials : after.credentials ≡ before.credentials
  pub items : after.mailbox_items ≡ before.mailbox_items ++ added

pub Grown-refl : (db : Db) → Grown [] db db
Grown-refl db = record {
  records = refl;
  keys = refl;
  credentials = refl;
  items = sym (append-nil db.mailbox_items);
}

pub Grown-of_eq : (db db' : Db) → db' ≡ db → Grown [] db db'
Grown-of_eq db db' e = rw e (Grown-refl db)

pub Grown-trans :
    (front back : List MailboxRow) (a b c : Db)
    → Grown front a b
    → Grown back b c
    → Grown (front ++ back) a c
Grown-trans front back a b c g h = record {
  records = h.records ∙ g.records;
  keys = h.keys ∙ g.keys;
  credentials = h.credentials ∙ g.credentials;
  items =
      h.items
      ∙ ap (λ (ms : List MailboxRow). ms ++ back) g.items
      ∙ append_assoc a.mailbox_items front back;
}

-- Nothing but the cursor key is changed.
abbrev pub SameButSecret : Db → Db → Type 0
SameButSecret before after = after ≡ record before { cursor_secret = after.cursor_secret }

module _ (host : Host) where
  pub Returns-cursor_codec :
      (s : Store) → Returns (cursor_codec host s) (λ _ s'. SameButSecret s.db s'.db)
  unfolding cursor_codec fill_random lift
  Returns-cursor_codec s = record { returns = λ a s' h. ground arith }

  pub Returns-record_id :
      (instant : Option ℕ) (s : Store) → Returns (record_id host instant s) (Kept s)
  unfolding record_id some_or fail_when fill_random
  Returns-record_id instant s = record { returns = λ a s' h. ground arith }

  pub Returns-secret : (s : Store) → Returns (secret host s) (Kept s)
  unfolding secret fill_random
  Returns-secret s = record { returns = λ a s' h. ground arith }

pub Returns-active_principal :
    (selector : Text) (s : Store)
    → Returns
        (active_principal selector s)
        (λ id s'. (select_principal s.db selector ≡ some id) × (s' ≡ s))
unfolding active_principal
Returns-active_principal selector s = Returns-some_or _ _ s

-- Each name selects the id beside it, of an active principal.
abbrev pub AreResolved : Db → List Text → List Text → Type 0
AreResolved db [] [] = Unit
AreResolved db (name ∷ names) (id ∷ ids) =
    (select_principal db name ≡ some id) × (is_active db id ≡ true) × AreResolved db names ids
AreResolved db _ _ = ⊥

pub AreResolved-secret :
    (db : Db) (key : Option (List ℕ)) (names ids : List Text)
    → AreResolved (record db { cursor_secret = key }) names ids
    → AreResolved db names ids
unfolding select_principal is_active
AreResolved-secret db key [] [] h = tt
AreResolved-secret db key [] (id ∷ ids) h = h
AreResolved-secret db key (name ∷ names) [] h = h
AreResolved-secret db key (name ∷ names) (id ∷ ids) h =
    (h.0, h.1, AreResolved-secret db key names ids h.2)

pub length-AreResolved :
    (db : Db) (names ids : List Text) → AreResolved db names ids → length ids ≡ length names
length-AreResolved db [] [] h = refl
length-AreResolved db [] (id ∷ ids) h = absurd h
length-AreResolved db (name ∷ names) [] h = absurd h
length-AreResolved db (name ∷ names) (id ∷ ids) h = ap suc (length-AreResolved db names ids h.2)

-- A permission that is given is one of an active principal in an open space.
pub Returns-permitted_active :
    (principal space : Text) (append : Bool) (s : Store)
    → Returns
        (permitted principal space append s)
        (λ _ s'. (s' ≡ s) × (is_active s.db principal ≡ true) × (is_open s.db space append ≡ true))
unfolding permitted
Returns-permitted_active principal space append s =
    Returns-weaken (Returns-fail_when _ _ s)
      λ _ s' (b, k). (k, ground (arith, b), ground (arith, b))

pub Returns-resolve_recipients :
    (space : Text) (names : List Text) (s : Store)
    → Returns (resolve_recipients space names s) (λ ids s'. (s' ≡ s) × AreResolved s.db names ids)
unfolding resolve_recipients
Returns-resolve_recipients space [] s = Returns-ok [] s (refl, tt)
Returns-resolve_recipients space (name ∷ names) s =
    Returns-continue _ _ (Returns-active_principal name s) λ id s1 (e1, k1).
      Returns-continue _ _ (Returns-permitted_active id space false s1) λ _ s2 (k2, active, _).
        Returns-continue _ _ (Returns-resolve_recipients space names s2) λ ids s3 (k3, are).
          let active' : is_active s.db id ≡ true = rw k1 at active in
          let are' : AreResolved s.db names ids = rw (k2 ∙ k1) at are in
          Returns-ok (id ∷ ids) s3 (k3 ∙ k2 ∙ k1, (e1, active', are'))

pub Returns-check_targets :
    (actor space : Text) (seq : ℕ) (relations : List Relation) (s : Store)
    → Returns (check_targets actor space seq relations s) (Kept s)
unfolding check_targets
Returns-check_targets actor space seq [] s = Returns-ok tt s refl
Returns-check_targets actor space seq (r ∷ rs) s =
    Returns-continue _ _ (Returns-permitted actor space false s) λ _ s1 k1.
      Returns-continue _ _ (Returns-fail_when _ _ s1) λ _ s2 (b, k2).
        Returns-weaken (Returns-check_targets actor space seq rs s2)
          λ _ s3 k3. k3 ∙ ap (λ (x : Store). x.db) k2 ∙ k1

pub Returns-insert_idempotency :
    (row : IdempotencyRow) (s : Store)
    → Returns
        (insert_idempotency row s)
        (λ _ s'. s'.db ≡ record s.db { idempotency_keys = s.db.idempotency_keys ++ (row ∷ []) })
unfolding insert_idempotency fail_when
Returns-insert_idempotency row s = record { returns = λ a s' h. ground arith }
