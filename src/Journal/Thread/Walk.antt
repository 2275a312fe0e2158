-- ===== src/Journal/Thread/Walk.antt =====
-- The thread that the walk returns (crates/journal-service/src/records.rs, `thread_ids`).
use agent_journal.Prelude.{
  inl, inr, Result-cases, ℕ, zero, suc, ◌+◌, ◌≤◌, ◌≡◌, ◌≢◌, refl, Text, none, some, List, [], ◌∷◌,
  ◌++◌, any, All-append, length, length-append, Result, ok, err, arith,
}
use agent_journal.Journal.Tx.{BootstrapError, panicked}
use agent_journal.Journal.Thread.{
  Budget, Looped, push_all, visit, walk, descend, with_resolved, thread_root_id, thread_ids,
}
use agent_journal.Journal.Thread.Total.{
  Rooted, ascend-Rooted, visit-Visited, IsThread, NoDup-snoc, Seen, Seen-cons, Seen-apart,
  length-push_all,
}
use agent_journal.Journal.Schema.{Db}

Seen-snoc :
    (id : Text) (seq : ℕ) (seen : List Text) (found : List (ℕ × Text))
    → Seen seen found
    → Seen (id ∷ seen) (found ++ ((seq, id) ∷ []))
unfolding any
Seen-snoc id seq seen found s = All-append _ found _ (Seen-cons id seen found s) (ground arith, tt)

module _ (db : Db) (space : Text) (budget : Budget) where
  open budget use {max_depth, max_nodes, max_edges}

  abbrev Walked : Looped (List (ℕ × Text)) → Type 0
  Walked none = ⊥
  Walked (some (err e)) = e ≢ panicked
  Walked (some (ok found)) = IsThread db space max_nodes found

  walk-err :
      (fuel : ℕ) (id : Text) (depth : ℕ) (pending : List (Text × ℕ)) (seen : List Text)
      (found : List (ℕ × Text)) (edges : ℕ) (e : BootstrapError)
      → visit db space budget id depth seen (length pending) edges ≡ err e
      → walk db space budget (suc fuel) ((id, depth) ∷ pending) seen found edges ≡ some (err e)
  unfolding walk
  walk-err fuel id depth pending seen found edges e v = rw (v, walk) refl

  walk-ok :
      (fuel : ℕ) (id : Text) (depth : ℕ) (pending : List (Text × ℕ)) (seen : List Text)
      (found : List (ℕ × Text)) (edges seq : ℕ) (children : List Text)
      → visit db space budget id depth seen (length pending) edges ≡ ok (seq, children)
      → walk db space budget (suc fuel) ((id, depth) ∷ pending) seen found edges
        ≡ walk db space budget fuel
            (push_all (depth + 1) children pending)
            (id ∷ seen)
            (found ++ ((seq, id) ∷ []))
            (edges + length children)
  unfolding walk
  walk-ok fuel id depth pending seen found edges seq children v = rw (v, walk) refl

  walk-Walked :
      (fuel : ℕ) (pending : List (Text × ℕ)) (seen : List Text) (found : List (ℕ × Text))
      (edges : ℕ)
      → length seen + length pending ≤ max_nodes
      → max_nodes ≤ length seen + fuel
      → edges ≤ max_edges
      → Seen seen found
      → length found ≡ length seen
      → IsThread db space max_nodes found
      → Walked (walk db space budget fuel pending seen found edges)
  unfolding walk
  walk-Walked fuel [] seen found edges n f e s l t = t
  walk-Walked zero (next ∷ pending) seen found edges n f e s l t = absurd (omega arith)
  walk-Walked (suc fuel) ((id, depth) ∷ pending) seen found edges n f e s l t =
      let visited =
        visit-Visited db space budget id depth seen (length pending) edges (omega arith) e in
      elim (Result-cases (visit db space budget id depth seen (length pending) edges)) [
        | inr (raised, v) ↦
            let visited' = rw v at visited in
            rw (walk-err fuel id depth pending seen found edges raised v) visited'
        | inl ((seq, children), v) ↦
            let (new, at, nodes, within) = rw v at visited in
            rw (walk-ok fuel id depth pending seen found edges seq children v) (
              walk-Walked fuel (push_all (depth + 1) children pending) (id ∷ seen)
                (found ++ ((seq, id) ∷ [])) (edges + length children)
                (rw (length-push_all (depth + 1) children pending) (omega arith)) (omega arith)
                within (Seen-snoc id seq seen found s)
                (rw (length-append found ((seq, id) ∷ [])) (omega arith))
                (record {
                  rows = All-append _ found _ t.rows (at, tt);
                  no_dup = NoDup-snoc seq id found t.no_dup (Seen-apart id seen found new s);
                  size = rw (length-append found ((seq, id) ∷ [])) (omega arith);
                }))
      ]

  empty-IsThread : IsThread db space max_nodes []
  empty-IsThread = record { rows = tt; no_dup = tt; size = omega arith }

  descend-Walked :
      (r : Looped (Text × ℕ))
      → 1 ≤ max_nodes
      → Rooted db space budget r
      → Walked (descend db space budget (with_resolved db space budget r))
  descend-Walked none m h = absurd h
  descend-Walked (some (err e)) m h = h
  descend-Walked (some (ok (root, edges))) m h =
      walk-Walked (max_nodes + 1) ((root, 0) ∷ []) [] [] edges (omega arith) (omega arith) h tt refl
        empty-IsThread

  Walked-cases :
      (r : Looped (List (ℕ × Text)))
      → Walked r
      → (outcome : Result BootstrapError (List (ℕ × Text))) × (r ≡ some outcome)
        × (outcome ≢ err panicked)
  Walked-cases none h = absurd h
  Walked-cases (some (err e)) h = (err e, refl, λ k. h (ground arith))
  Walked-cases (some (ok found)) h = (ok found, refl, λ k. absurd (cc))

  thread_ids-Walked : (anchor : Text) → 1 ≤ max_nodes → Walked (thread_ids db space budget anchor)
  unfolding thread_ids thread_root_id
  thread_ids-Walked anchor m = descend-Walked _ m (
      ascend-Rooted db space budget (max_nodes + 1) [] 0 anchor (omega arith) (omega arith)
        (omega arith))

  -- Within a budget of at least one node, the walk of a thread ends within its fuel, and without a
  -- subtraction below zero: it returns the thread or raises an error that is no panic.
  pub thread_ids_total :
      (anchor : Text)
      → 1 ≤ max_nodes
      → (outcome : Result BootstrapError (List (ℕ × Text))) × (thread_ids db space budget anchor
          ≡ some outcome)
        × (outcome ≢ err panicked)
  thread_ids_total anchor m = Walked-cases _ (thread_ids-Walked anchor m)

  -- A thread that is returned, within a budget of at least one node, has rows of the space's records
  -- only, each with its record's number, no record twice, and at most the budget's number of nodes.
  pub thread_ids-IsThread :
      (anchor : Text) (found : List (ℕ × Text))
      → 1 ≤ max_nodes
      → thread_ids db space budget anchor ≡ some (ok found)
      → IsThread db space max_nodes found
  thread_ids-IsThread anchor found m h = let w = thread_ids-Walked anchor m in rw h at w
