-- ===== src/Journal/Preserves.antt =====
-- What an operation keeps of the database whether it returns or raises (crates/journal-service/src).
use agent_journal.Prelude.{
  ◌==◌, if◌then◌else◌, Result-cases, ◌≡◌, refl, sym, subst, ap, Option, none, some, Bool, true,
  false, Result, ok, err, Result-cases, ◌⊎◌, inl, inr, arith,
}
use agent_journal.Journal.Schema.{Db}
use agent_journal.Journal.Tx.{
  BootstrapError, Host, Store, Tx, read_db, continue, checkpoint, Boundary, lift, some_or,
  fail_when, now, clock_now, secret, fill_random, finish, transaction,
}
use agent_journal.Journal.Ids.{principal_id, next_sequence}
use agent_journal.Journal.Returns.{Returns}

pub record Preserves {A : Type 0} (P : Db → Type 0) (m : Tx A) : Type 0 where
  pub preserves : (s : Store) → P s.db → P (m s).1.db

some_or-db : {A : Type 0} (o : Option A) (e : BootstrapError) (s : Store) → (some_or o e s).1 ≡ s
unfolding some_or
some_or-db none e s = refl
some_or-db (some a) e s = refl

module _ (host : Host) where
  finish_ok_db :
      {A : Type 0} (before s : Store) (a : A)
      → ((finish host before (ok a, s)).1.db ≡ before.db)
        ⊎ ((finish host before (ok a, s)).1.db ≡ s.db)
  finish_ok_db before s a =
      elim (Result-cases (if s.changes == before.changes then ok tt else host.prepare s.db)) [
        | inr (x, e) ↦ inl (ground (arith, e))
        | inl (u, e) ↦ elim (Result-cases (host.commit s.db)) [
          | inr (x, f) ↦ inl (ground (arith, e, f))
          | inl (v, f) ↦ elim (Result-cases (host.committed s.db)) [
            | inr (x, g) ↦ inr (ground (arith, e, f, g))
            | inl (w, g) ↦ inr (ground (arith, e, f, g))
          ]
        ]
      ]

  finish_db :
      {A : Type 0} (before : Store) (r : Result BootstrapError A × Store)
      → ((finish host before r).1.db ≡ before.db)
        ⊎ (a : A) × (s : Store) × (r ≡ (ok a, s)) × ((finish host before r).1.db ≡ s.db)
  finish_db before (err e, s) = inl refl
  finish_db before (ok a, s) = elim (finish_ok_db before s a) [
    | inl e ↦ inl e
    | inr e ↦ inr (a, s, refl, e)
  ]

  transaction_db :
      {A : Type 0} (operation : Tx A) (s : Store)
      → ((transaction host operation s).1.db ≡ s.db)
        ⊎ (a : A) × (s' : Store) × (operation s ≡ (ok a, s'))
          × ((transaction host operation s).1.db ≡ s'.db)
  unfolding transaction
  transaction_db operation s = elim (Result-cases (host.ensure_open s.db)) [
    | inl (u, e) ↦ rw (transaction, e) (finish_db s (operation s))
    | inr (x, e) ↦ inl (rw (transaction, e) refl)
  ]

module _ {P : Db → Type 0} where
  continue_keeps :
      {A B : Type 0} (r : Result BootstrapError A × Store) (f : A → Tx B)
      → P r.1.db
      → ((a : A) → Preserves P (f a))
      → P (continue r f).1.db
  continue_keeps (ok a, s) f p k = (k a).preserves s p
  continue_keeps (err e, s) f p k = p

  pub Preserves-continue :
      {A B : Type 0} (m : Tx A) (f : A → Tx B)
      → Preserves P m
      → ((a : A) → Preserves P (f a))
      → Preserves P (λ s. continue (m s) f)
  Preserves-continue m f p k = record {
    preserves = λ s h. continue_keeps (m s) f (p.preserves s h) k;
  }

  pub Preserves-kept : {A : Type 0} (m : Tx A) → ((s : Store) → (m s).1.db ≡ s.db) → Preserves P m
  Preserves-kept m e = record { preserves = λ s h. subst P (sym (e s)) h }

  pub Preserves-pure : {A : Type 0} (a : A) → Preserves P (λ s. (ok a, s))
  Preserves-pure a = record { preserves = λ s h. h }

  pub Preserves-read : Preserves P read_db
  Preserves-read = record { preserves = λ s h. h }

  pub Preserves-lift : {A : Type 0} (r : Result BootstrapError A) → Preserves P (lift r)
  unfolding lift
  Preserves-lift r = record { preserves = λ s h. h }

  pub Preserves-some_or :
      {A : Type 0} (o : Option A) (e : BootstrapError) → Preserves P (some_or o e)
  Preserves-some_or o e =
      Preserves-kept (some_or o e) λ s. ap (λ (x : Store). x.db) (some_or-db o e s)

  pub Preserves-fail_when : (b : Bool) (e : BootstrapError) → Preserves P (fail_when b e)
  unfolding fail_when
  Preserves-fail_when true e = record { preserves = λ s h. h }
  Preserves-fail_when false e = record { preserves = λ s h. h }

  module _ (host : Host) where
    pub Preserves-now : Preserves P (now host)
    unfolding now clock_now lift
    Preserves-now = Preserves-kept (now host) λ s. refl

    pub Preserves-principal_id : Preserves P (principal_id host)
    unfolding principal_id clock_now some_or fail_when fill_random next_sequence
    Preserves-principal_id = Preserves-kept (principal_id host) λ s. ground arith

    pub Preserves-secret : Preserves P (secret host)
    unfolding secret fill_random
    Preserves-secret = Preserves-kept (secret host) λ s. ground arith

    pub Preserves-checkpoint : (b : Boundary) → Preserves P (checkpoint host b)
    unfolding checkpoint
    Preserves-checkpoint b = Preserves-fail_when _ _

    -- A transaction that raises has its changes rolled back, or has returned before.
    pub Preserves-transaction :
        {A : Type 0} (operation : Tx A)
        → ((s : Store) → P s.db → Returns (operation s) (λ _ s'. P s'.db))
        → Preserves P (transaction host operation)
    Preserves-transaction operation k = record {
      preserves = λ s h. elim (transaction_db host operation s) [
        | inl e ↦ subst P (sym e) h
        | inr (a, s', e, d) ↦ subst P (sym d) ((k s h).returns a s' e)
      ];
    }

    pub Preserves-transaction_of :
        {A : Type 0} (operation : Tx A)
        → Preserves P operation
        → Preserves P (transaction host operation)
    Preserves-transaction_of operation p = Preserves-transaction operation λ s h. record {
      returns = λ a s' e.
          subst P (ap (λ (r : Result BootstrapError _ × Store). r.1.db) e) (p.preserves s h);
    }
