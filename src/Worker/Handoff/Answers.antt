-- ===== src/Worker/Handoff/Answers.antt =====
-- What the worker does with the answers to its calls keeps the log and the pending acknowledgments
-- in step (crates/journal-inbox-worker/src/lib.rs).
use agent_journal.Prelude.{
  ℕ, Text, List, ◌∷◌, Bool, false, true, any, Result, ok, err, if◌then◌else◌, Bool-cases, inl, inr,
  arith,
}
use agent_journal.Protocol.Pages.{Page, InboxItem}
use agent_journal.Worker.State.{
  WorkerError, ClientError, EventKind, Pending, Worker, Step, next, has_status, transient,
}
use agent_journal.Worker.Tick.{
  unsettled, fetch_failed, bad_page, may_restart, settle, fetched, note_failure,
}
use agent_journal.Worker.Log.{
  err-IsSafe, ok-IsSafe, Call, fetches, acknowledges, note_fetch, note_acknowledge, outstanding,
  IsTracked, IsOwed, IsSafe, is_pending-append,
}

module _ {W : Type 0} where
  pub unsettled-IsSafe :
      (p : Pending) (now : ℕ) (w : Worker) (log : List Call) (s : W) (r : Result WorkerError Bool)
      → IsOwed p.id w log
      → IsSafe (unsettled p now w (s, acknowledges p.id false ∷ log) r)
  unfolding unsettled outstanding
  unsettled-IsSafe p now w log s (err fault) o = err-IsSafe o.no_repeat
  unsettled-IsSafe p now w log s (ok false) o = err-IsSafe o.no_repeat
  unsettled-IsSafe p now w log s (ok true) o = ok-IsSafe (record {
    no_repeat = o.no_repeat;
    tracked = λ id h. rw is_pending-append (unfold any in ground (arith, o.tracked id));
  })

  pub settle-IsSafe :
      (p : Pending) (now : ℕ) (w : Worker) (log : List Call) (r : Result ClientError (Unit {0}) × W)
      → IsOwed p.id w log
      → IsSafe (settle p now w (note_acknowledge p.id log r))
  unfolding settle outstanding
  settle-IsSafe p now w log (ok _, s) o =
      ok-IsSafe (record { no_repeat = o.no_repeat; tracked = λ id h. ground (arith, o.tracked id) })
  settle-IsSafe p now w log (err e, s) o = elim (Bool-cases (has_status 404 e)) [
    | inl gone ↦
        rw (gone, settle)
          (ok-IsSafe
            (record { no_repeat = o.no_repeat; tracked = λ id h. ground (arith, o.tracked id) }))
    | inr kept ↦ rw (kept, settle) (unsettled-IsSafe p now w log s (transient e) o)
  ]

  pub fetch_failed-IsSafe :
      (now : ℕ) (w : Worker) (log : List Call) (s : W) (r : Result WorkerError Bool)
      → IsTracked w log
      → IsSafe (fetch_failed now w (s, fetches ∷ log) r)
  unfolding fetch_failed outstanding
  fetch_failed-IsSafe now w log s (err fault) t = err-IsSafe t.no_repeat
  fetch_failed-IsSafe now w log s (ok false) t = err-IsSafe t.no_repeat
  fetch_failed-IsSafe now w log s (ok true) t =
      ok-IsSafe (record { no_repeat = t.no_repeat; tracked = t.tracked })

  pub if-IsSafe :
      {A : Type 0} (b : Bool) (x y : Step (W × List Call) A)
      → IsSafe x
      → IsSafe y
      → IsSafe (if b then x else y)
  if-IsSafe true x y p q = p
  if-IsSafe false x y p q = q

  pub fetched-IsSafe :
      (now : ℕ) (w : Worker) (log : List Call) (r : Result ClientError (Page InboxItem) × W)
      → IsTracked w log
      → IsSafe (fetched now w (note_fetch log r))
  unfolding fetched outstanding
  fetched-IsSafe now w log (ok page, s) t = elim (Bool-cases (bad_page page)) [
    | inl bad ↦ rw (bad, fetched) (err-IsSafe t.no_repeat)
    | inr good ↦
        rw (good, fetched) (ok-IsSafe (record { no_repeat = t.no_repeat; tracked = t.tracked }))
  ]
  fetched-IsSafe now w log (err e, s) t = elim (Bool-cases (may_restart w e)) [
    | inl again ↦
        rw (again, fetched) (ok-IsSafe (record { no_repeat = t.no_repeat; tracked = t.tracked }))
    | inr over ↦ rw (over, fetched) (fetch_failed-IsSafe now w log s (transient e) t)
  ]

  pub next-IsSafe :
      {A B : Type 0} (r : Step (W × List Call) A)
      (f : A → Worker × (W × List Call) → Step (W × List Call) B)
      → IsSafe r
      → ((a : A) (w : Worker) (s : W) (log : List Call)
          → IsTracked w log
          → IsSafe (f a (w, (s, log))))
      → IsSafe (next r f)
  next-IsSafe (ok a, (w, (s, log))) f h k = k a w s log h.safe
  next-IsSafe (err e, (w, (s, log))) f h k = err-IsSafe h.safe

  pub note_failure-IsSafe :
      (now : ℕ) (id : Text) (kind : EventKind) (w : Worker) (s : W) (log : List Call)
      → IsTracked w log
      → IsSafe (note_failure now id kind w (s, log))
  unfolding note_failure
  note_failure-IsSafe now id kind w s log t =
      ok-IsSafe (record { no_repeat = t.no_repeat; tracked = t.tracked })
