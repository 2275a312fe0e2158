-- ===== src/Journal/Returns.antt =====
-- What holds of the value and the store that an operation returns, composed along `?`
-- (crates/journal-service/src).
use agent_journal.Prelude.{
  ap, subst, ◌≡◌, refl, ◌∙◌, Text, Option, none, some, Bool, true, false, Result, ok, err, arith,
}
use agent_journal.Journal.Tx.{
  BootstrapError, Boundary, Host, Store, Tx, continue, lift, some_or, fail_when, now, clock_now,
  timestamp, checkpoint, transaction, transaction-ok,
}
use agent_journal.Journal.Access.{journal_actor, append_replay_actor, permitted}

pub record Returns {A : Type 0} (r : Result BootstrapError A × Store) (Q : A → Store → Type 0)
    : Type 0 where
  pub returns : (a : A) (s : Store) → r ≡ (ok a, s) → Q a s

pub Returns-continue :
    {A B : Type 0} {P : A → Store → Type 0} {Q : B → Store → Type 0}
    (r : Result BootstrapError A × Store) (f : A → Tx B)
    → Returns r P
    → ((a : A) (s : Store) → P a s → Returns (f a s) Q)
    → Returns (continue r f) Q
Returns-continue (ok a, s) f p k = k a s (p.returns a s refl)
Returns-continue (err e, s) f p k = record { returns = λ b s' h. absurd (cc) }

abbrev pub value_or : {A E : Type 0} → A → Result E A → A
value_or d (ok a) = a
value_or d (err e) = d

pub Returns-ok :
    {A : Type 0} {Q : A → Store → Type 0} (a : A) (s : Store) → Q a s → Returns (ok a, s) Q
Returns-ok {A = A} {Q = Q} a s q = record {
  returns = λ b s' h.
      subst (λ (x : A × Store). Q x.0 x.1)
        (ap (λ (r : Result BootstrapError A × Store). (value_or a r.0, r.1)) h) q;
}

pub Returns-err :
    {A : Type 0} {Q : A → Store → Type 0} {e : BootstrapError} {s : Store} → Returns (err e, s) Q
Returns-err = record { returns = λ b s' h. absurd (cc) }

pub Returns-some_or :
    {A : Type 0} (x : Option A) (e : BootstrapError) (s : Store)
    → Returns (some_or x e s) (λ a s'. (x ≡ some a) × (s' ≡ s))
unfolding some_or
Returns-some_or none e s = Returns-err
Returns-some_or (some a) e s = Returns-ok a s (refl, refl)

pub Returns-lift :
    {A : Type 0} (r : Result BootstrapError A) (s : Store)
    → Returns (lift r s) (λ a s'. (r ≡ ok a) × (s' ≡ s))
unfolding lift
Returns-lift (err e) s = Returns-err
Returns-lift (ok a) s = Returns-ok a s (refl, refl)

pub Returns-fail_when :
    (b : Bool) (e : BootstrapError) (s : Store)
    → Returns (fail_when b e s) (λ _ s'. (b ≡ false) × (s' ≡ s))
unfolding fail_when
Returns-fail_when true e s = Returns-err
Returns-fail_when false e s = Returns-ok tt s (refl, refl)

pub Returns-weaken :
    {A : Type 0} {P Q : A → Store → Type 0} {r : Result BootstrapError A × Store}
    → Returns r P
    → ((a : A) (s : Store) → P a s → Q a s)
    → Returns r Q
Returns-weaken p k = record { returns = λ a s h. k a s (p.returns a s h) }

-- What is returned is also known by the equation.
pub Returns-with_value :
    {A : Type 0} {P : A → Store → Type 0} {r : Result BootstrapError A × Store}
    → Returns r P
    → Returns r (λ a s. (r.0 ≡ ok a) × P a s)
Returns-with_value p = record {
  returns = λ a s h. (ap (λ (x : Result BootstrapError _ × Store). x.0) h, p.returns a s h);
}

-- The store's database is as it was.
abbrev pub Kept : {A : Type 0} → Store → A → Store → Type 0
Kept before a s = s.db ≡ before.db

module _ (host : Host) where
  pub Returns-journal_actor :
      (token : Text) (s : Store) → Returns (journal_actor host token s) (Kept s)
  unfolding journal_actor now clock_now timestamp some_or fail_when lift
  Returns-journal_actor token s = record { returns = λ a s' h. ground arith }

  pub Returns-append_replay_actor :
      (token : Text) (s : Store) → Returns (append_replay_actor host token s) (Kept s)
  unfolding append_replay_actor now clock_now timestamp some_or fail_when lift
  Returns-append_replay_actor token s = record { returns = λ a s' h. ground arith }

  pub Returns-now : (s : Store) → Returns (now host s) (Kept s)
  unfolding now clock_now timestamp lift
  Returns-now s = record { returns = λ a s' h. ground arith }

  pub Returns-checkpoint :
      (b : Boundary) (s : Store) → Returns (checkpoint host b s) (λ _ s'. s' ≡ s)
  unfolding checkpoint fail_when
  Returns-checkpoint b s = record { returns = λ a s' h. ground arith }

pub Returns-permitted :
    (p space : Text) (append : Bool) (s : Store) → Returns (permitted p space append s) (Kept s)
unfolding permitted fail_when
Returns-permitted p space append s = record { returns = λ a s' h. ground arith }

module _ (host : Host) where
  -- What the operation's outcome has is had by the transaction's.
  pub Returns-transaction :
      {A : Type 0} {Q : A → Store → Type 0} (operation : Tx A) (s : Store)
      → Returns (operation s) Q
      → Returns (transaction host operation s) Q
  Returns-transaction operation s q = record {
    returns = λ a s' h. q.returns a s' (
        transaction-ok host operation s a (ap (λ (r : Result BootstrapError _ × Store). r.0) h)
        ∙ ap (λ (r : Result BootstrapError _ × Store). (ok a, r.1)) h);
  }
