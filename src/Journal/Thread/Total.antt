-- ===== src/Journal/Thread/Total.antt =====
-- The walk of a thread ends within its fuel and its budgets, without a panic
-- (crates/journal-service/src/records.rs, `thread_root_id` and `thread_ids`).
use agent_journal.Prelude.{
  ◌&&◌, same_iff, All-append, All, ℕ, zero, suc, ◌+◌, ◌-◌, min, ◌≤◌, ◌<◌, ◌≡◌, ◌≢◌, Text, none,
  some, List, [], ◌∷◌, ◌++◌, true, false, inl, inr, length, take, any, same, ltb, ◌||◌,
  Option-cases, Bool-cases, Result, ok, err, arith, ◌==◌,
}
use agent_journal.Journal.Schema.{Db}
use agent_journal.Journal.Tx.{BootstrapError, panicked}
use agent_journal.Journal.Thread.{
  Budget, Looped, replies_to, push_all, parent_of, seq_in, ascend, remaining, children_within,
  visit,
}

pub length-push_all :
    (d : ℕ) (cs : List Text) (pending : List (Text × ℕ))
    → length (push_all d cs pending) ≡ length cs + length pending
length-push_all d [] pending = omega arith
length-push_all d (c ∷ cs) pending = omega (arith, length-push_all d cs ((c, d) ∷ pending))

module _ (db : Db) (space : Text) (budget : Budget) where
  open budget use {max_depth, max_nodes, max_edges}

  -- The ascent raises, though not a panic, or returns a count of edges within the budget.
  abbrev pub Rooted : Looped (Text × ℕ) → Type 0
  Rooted none = ⊥
  Rooted (some (err e)) = e ≢ panicked
  Rooted (some (ok (top, n))) = n ≤ max_edges

  pub ascend-Rooted :
      (fuel : ℕ) (ancestors : List Text) (edges : ℕ) (root : Text)
      → length ancestors ≤ max_nodes
      → max_nodes < length ancestors + fuel
      → edges ≤ max_edges
      → Rooted (ascend db space budget fuel ancestors edges root)
  unfolding ascend
  ascend-Rooted zero ancestors edges root a f e = absurd (omega arith)
  ascend-Rooted (suc fuel) ancestors edges root a f e =
      elim (Bool-cases (any (same root) ancestors)) [
        | inl cycle ↦ rw cycle (λ h. absurd (cc))
        | inr new ↦ rw new (elim (Bool-cases (ltb max_nodes (length ancestors + 1))) [
          | inl full ↦ rw full (λ h. absurd (cc))
          | inr room ↦ rw room (elim (Option-cases (parent_of db space root)) [
            | inl top ↦ rw top e
            | inr (parent, up) ↦
                rw up
                  (elim (Bool-cases
                    (ltb max_depth (length ancestors + 1) || ltb max_edges (edges + 1))) [
                      | inl over ↦ rw over (λ h. absurd (cc))
                      | inr within ↦ rw within (
                          ascend-Rooted fuel (root ∷ ancestors) (edges + 1) parent (ground arith)
                            (omega arith) (ground arith))
                    ])
          ])
        ])
      ]

  abbrev pub Visited : Text → List Text → ℕ → ℕ → Result BootstrapError (ℕ × List Text) → Type 0
  Visited id seen pending edges (err e) = e ≢ panicked
  Visited id seen pending edges (ok (seq, children)) =
      (any (same id) seen ≡ false)
      × (seq_in db space id ≡ some seq)
      × (length seen + 1 + pending + length children ≤ max_nodes)
      × (edges + length children ≤ max_edges)

  remaining_lem :
      (seen pending edges : ℕ)
      → seen + pending ≤ max_nodes
      → edges ≤ max_edges
      → (left : ℕ) × (remaining db space budget seen pending edges ≡ ok left)
        × (seen + pending + left ≤ max_nodes)
        × (edges + left ≤ max_edges)
  unfolding remaining
  remaining_lem seen pending edges n e =
      (min (max_nodes - seen - pending) (max_edges - edges), ground arith, omega arith, omega arith)

  children_within-Visited :
      (id : Text) (depth : ℕ) (seen : List Text) (pending edges seq left : ℕ)
      → any (same id) seen ≡ false
      → seq_in db space id ≡ some seq
      → length seen + 1 + pending + left ≤ max_nodes
      → edges + left ≤ max_edges
      → Visited id seen pending edges (children_within db space budget id depth seq (ok left))
  children_within-Visited id depth seen pending edges seq left new at n e =
      let children = take (left + 1) (replies_to db space id) in
      elim (Bool-cases
        (ltb left (length children) || (depth == max_depth && ltb 0 (length children)))) [
          | inl over ↦ rw over (λ h. absurd (cc))
          | inr within ↦ rw within (new, at, ground arith, ground arith)
        ]

  pub visit-Visited :
      (id : Text) (depth : ℕ) (seen : List Text) (pending edges : ℕ)
      → length seen + 1 + pending ≤ max_nodes
      → edges ≤ max_edges
      → Visited id seen pending edges (visit db space budget id depth seen pending edges)
  unfolding visit remaining
  visit-Visited id depth seen pending edges n e = elim (Bool-cases (any (same id) seen)) [
    | inl cycle ↦ rw cycle (λ h. absurd (cc))
    | inr new ↦ rw new (elim (Bool-cases (ltb max_nodes (length seen + 1) || ltb max_depth depth)) [
      | inl over ↦ rw over (λ h. absurd (cc))
      | inr within ↦ rw within (elim (Option-cases (seq_in db space id)) [
        | inl gone ↦ rw gone (λ h. absurd (cc))
        | inr (seq, at) ↦ rw at (budgeted new seq at)
      ])
    ])
  ]
    where
      budgeted :
          any (same id) seen ≡ false
          → (seq : ℕ) → seq_in db space id ≡ some seq
          → Visited id seen pending edges (
              children_within db space budget id depth seq
                (remaining db space budget (length seen + 1) pending edges))
      budgeted new seq at =
          let (left, enough, n', e') = remaining_lem (length seen + 1) pending edges n e in
          rw enough (children_within-Visited id depth seen pending edges seq left new at n' e')

-- The rows of a thread: records of the space with their numbers, none twice, at most a budget's.
abbrev pub Apart : Text → List (ℕ × Text) → Type 0
Apart id found = All (λ (x : ℕ × Text). same id x.1 ≡ false) found

abbrev pub NoDup : List (ℕ × Text) → Type 0
NoDup [] = Unit
NoDup ((seq, id) ∷ found) = Apart id found × NoDup found

pub record IsThread (db : Db) (space : Text) (max_nodes : ℕ) (found : List (ℕ × Text))
    : Type 0 where
  pub rows : All (λ (x : ℕ × Text). seq_in db space x.1 ≡ some x.0) found
  pub no_dup : NoDup found
  pub size : length found ≤ max_nodes

pub NoDup-snoc :
    (seq : ℕ) (id : Text) (found : List (ℕ × Text))
    → NoDup found
    → All (λ (x : ℕ × Text). same x.1 id ≡ false) found
    → NoDup (found ++ ((seq, id) ∷ []))
NoDup-snoc seq id [] n a = (tt, tt)
NoDup-snoc seq id ((s, x) ∷ found) n a =
    (All-append _ found _ n.0 (a.0, tt), NoDup-snoc seq id found n.1 a.1)

-- Every row found is of a record that the loop has seen.
abbrev pub Seen : List Text → List (ℕ × Text) → Type 0
Seen seen found = All (λ (x : ℕ × Text). any (same x.1) seen ≡ true) found

pub Seen-cons :
    (id : Text) (seen : List Text) (found : List (ℕ × Text))
    → Seen seen found
    → Seen (id ∷ seen) found
unfolding any
Seen-cons id seen [] s = tt
Seen-cons id seen ((seq, x) ∷ found) s = (ground arith, Seen-cons id seen found s.1)

pub Seen-apart :
    (id : Text) (seen : List Text) (found : List (ℕ × Text))
    → any (same id) seen ≡ false
    → Seen seen found
    → All (λ (x : ℕ × Text). same x.1 id ≡ false) found
Seen-apart id seen [] n s = tt
Seen-apart id seen ((seq, x) ∷ found) n s = (
  elim (Bool-cases (same x id)) [
    | inl e ↦ let e' : x ≡ id = (same_iff x id).0 e in absurd (ground (arith, n, s.0, e'))
    | inr e ↦ e
  ],
  Seen-apart id seen found n s.1,
)
