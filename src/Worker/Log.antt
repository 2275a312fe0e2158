-- ===== src/Worker/Log.antt =====
-- The calls that a worker makes, recorded in a log, and what the log and the pending
-- acknowledgments have to do with each other (crates/journal-inbox-worker/src/lib.rs).
use agent_journal.Prelude.{
  ◌≡◌, refl, Text, some, List, [], ◌∷◌, ◌++◌, Bool, false, true, not, ◌||◌, ◌&&◌, any, same, Result,
  ok, err, Option-cases, inl, inr, ◌⊎◌, arith,
}
use agent_journal.Protocol.Pages.{Page, InboxItem}
use agent_journal.Worker.State.{
  WorkerError, ClientError, RuntimeError, Pending, Worker, Env, Step, has_status,
}
use agent_journal.Worker.Tick.{take_first, is_pending}

-- A call with what matters of its answer: was the hand-off accepted, and is the acknowledgment
-- settled, which means recorded by the journal or refused as not found?
pub data Call : Type 0 where
  fetches : Call
  injects : (id : Text) (accepted : Bool) → Call
  acknowledges : (id : Text) (settled : Bool) → Call

abbrev pub is_settled : Result ClientError (Unit {0}) → Bool
is_settled (ok _) = true
is_settled (err e) = has_status 404 e

abbrev pub is_accepted : Result RuntimeError Text → Bool
is_accepted (ok _) = true
is_accepted (err e) = false

abbrev pub note_fetch :
    {W : Type 0}
    → List Call
    → Result ClientError (Page InboxItem) × W
    → Result ClientError (Page InboxItem) × (W × List Call)
note_fetch log (r, s) = (r, (s, fetches ∷ log))

abbrev pub note_acknowledge :
    {W : Type 0}
    → Text
    → List Call
    → Result ClientError (Unit {0}) × W
    → Result ClientError (Unit {0}) × (W × List Call)
note_acknowledge id log (r, s) = (r, (s, acknowledges id (is_settled r) ∷ log))

abbrev pub note_inject :
    {W : Type 0}
    → Text
    → List Call
    → Result RuntimeError Text × W
    → Result RuntimeError Text × (W × List Call)
note_inject id log (r, s) = (r, (s, injects id (is_accepted r) ∷ log))

-- The same journal and runtime, with a log of the calls, the newest first.
abbrev pub logged : {W : Type 0} → Env W → Env (W × List Call)
logged env = record {
  fetch = λ cursor (s, log). note_fetch log (env.fetch cursor s);
  acknowledge = λ id (s, log). note_acknowledge id log (env.acknowledge id s);
  inject = λ route envelope rendered (s, log).
      note_inject envelope.inbox_item_id log (env.inject route envelope rendered s);
}

-- An accepted hand-off of the item has no settled acknowledgment after it.
unfoldable pub outstanding : Text → List Call → Bool
outstanding id [] = false
outstanding id (fetches ∷ log) = outstanding id log
outstanding id (injects j accepted ∷ log) = (accepted && same j id) || outstanding id log
outstanding id (acknowledges j settled ∷ log) = not (settled && same j id) && outstanding id log

-- No hand-off is made of an item whose last accepted hand-off is outstanding.
abbrev pub NoRepeat : List Call → Type 0
NoRepeat [] = Unit
NoRepeat (fetches ∷ log) = NoRepeat log
NoRepeat (injects id accepted ∷ log) = (outstanding id log ≡ false) × NoRepeat log
NoRepeat (acknowledges id settled ∷ log) = NoRepeat log

-- Every outstanding hand-off has its acknowledgment pending.
pub record IsTracked (w : Worker) (log : List Call) : Type 0 where
  pub no_repeat : NoRepeat log
  pub tracked : (id : Text) → outstanding id log ≡ true → is_pending id w.pending ≡ true

-- Every one but possibly that of one item.
pub record IsOwed (x : Text) (w : Worker) (log : List Call) : Type 0 where
  pub no_repeat : NoRepeat log
  pub tracked :
      (id : Text)
      → outstanding id log ≡ true
      → (same x id ≡ true) ⊎ (is_pending id w.pending ≡ true)

-- After a step that returns, every outstanding hand-off is tracked; a step that raises has repeated
-- none.
abbrev pub Safe : {W A : Type 0} → Step (W × List Call) A → Type 0
Safe (ok _, (w, (s, log))) = IsTracked w log
Safe (err _, (w, (s, log))) = NoRepeat log

pub record IsSafe {W A : Type 0} (r : Step (W × List Call) A) : Type 0 where
  pub safe : Safe r

pub is_pending-append :
    (id : Text) (ps qs : List Pending)
    → is_pending id (ps ++ qs) ≡ (is_pending id ps || is_pending id qs)
unfolding any
is_pending-append id [] qs = refl
is_pending-append id (p ∷ ps) qs = ground (arith, is_pending-append id ps qs)

pub take_first-is_pending :
    (id : Text) (test : Pending → Bool) (ps : List Pending) (p : Pending) (rest : List Pending)
    → take_first test ps ≡ some (p, rest)
    → is_pending id ps ≡ true
    → (same p.id id ≡ true) ⊎ (is_pending id rest ≡ true)
unfolding take_first any
take_first-is_pending id test [] p rest e h = absurd (cc)
take_first-is_pending id test (q ∷ ps) p rest e h = elim (Option-cases (take_first test ps)) [
  | inl none_left ↦ ground arith
  | inr ((r, others), found) ↦ ground (arith, take_first-is_pending id test ps r others found)
]

-- A new item's hand-off that was refused changes nothing; one that was accepted is owed.
pub injects-IsTracked :
    (id : Text) (w : Worker) (log : List Call)
    → is_pending id w.pending ≡ false
    → IsTracked w log
    → IsTracked w (injects id false ∷ log)
unfolding outstanding
injects-IsTracked id w log new t = record {
  no_repeat = (ground (arith, t.tracked id), t.no_repeat);
  tracked = t.tracked;
}

pub injects-IsOwed :
    (id : Text) (w : Worker) (log : List Call)
    → is_pending id w.pending ≡ false
    → IsTracked w log
    → IsOwed id w (injects id true ∷ log)
unfolding outstanding
injects-IsOwed id w log new t = record {
  no_repeat = (ground (arith, t.tracked id), t.no_repeat);
  tracked = λ j h. ground (arith, t.tracked j);
}

pub ok-IsSafe :
    {W A : Type 0} {a : A} {w : Worker} {s : W} {log : List Call}
    → IsTracked w log
    → IsSafe (ok a, (w, (s, log)))
ok-IsSafe t = record { safe = t }

pub err-IsSafe :
    {W A : Type 0} {e : WorkerError} {w : Worker} {s : W} {log : List Call}
    → NoRepeat log
    → IsSafe {A = A} (err e, (w, (s, log)))
err-IsSafe n = record { safe = n }
