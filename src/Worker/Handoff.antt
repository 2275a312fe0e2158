-- ===== src/Worker/Handoff.antt =====
-- The worker repeats no hand-off that is known to have succeeded, until its acknowledgment is
-- settled (crates/journal-inbox-worker/src/lib.rs).
pub mod Answers
use agent_journal.Prelude.{
  length, ltb, leb, ℕ, ◌≡◌, Text, List, [], ◌∷◌, Bool, false, true, ◌||◌, any, Result, ok, err,
  if◌then◌else◌, Option-cases, List-cases, Bool-cases, inl, inr, arith,
}
use agent_journal.Protocol.Pages.{Page, InboxItem}
use agent_journal.Worker.Retry.{no_retry}
use agent_journal.Worker.Envelope.{StaticRoutes, from_item, select_route}
use agent_journal.Worker.State.{
  pending_limit, WorkerError, ClientError, RuntimeError, EventKind, Event, Pending, Worker, Env,
  Step, next, has_status, transient,
}
use agent_journal.Worker.Tick.{
  is_deferred, new, take_first, is_pending, unsettled, fetch_failed, bad_page, may_restart, settle,
  fetched, note_failure, outcome, acknowledge, retry_pending, fill_page, hand_off, handed,
  deliver_item, deliver, work, tick,
}
use agent_journal.Worker.Failures
use agent_journal.Worker.Log.{
  err-IsSafe, ok-IsSafe, Call, fetches, injects, acknowledges, note_fetch, note_acknowledge,
  note_inject, logged, outstanding, IsTracked, IsOwed, IsSafe, is_pending-append,
  take_first-is_pending, injects-IsTracked, injects-IsOwed,
}
use agent_journal.Worker.Handoff.Answers.{
  unsettled-IsSafe, settle-IsSafe, fetch_failed-IsSafe, if-IsSafe, fetched-IsSafe, next-IsSafe,
  note_failure-IsSafe,
}

module _ {W : Type 0} (env : Env W) where
  acknowledge-IsSafe :
      (p : Pending) (now : ℕ) (w : Worker) (s : W) (log : List Call)
      → IsOwed p.id w log
      → IsSafe (acknowledge (logged env) p now (w, (s, log)))
  unfolding acknowledge
  acknowledge-IsSafe p now w s log o = settle-IsSafe p now w log (env.acknowledge p.id s) o

  retry_pending-IsSafe :
      (now : ℕ) (w : Worker) (s : W) (log : List Call)
      → IsTracked w log
      → IsSafe (retry_pending (logged env) now (w, (s, log)))
  unfolding retry_pending
  retry_pending-IsSafe now w s log t =
      elim (Option-cases (take_first (λ (p : Pending). leb p.retry.after now) w.pending)) [
        | inl e ↦ rw (e, retry_pending) (ok-IsSafe t)
        | inr ((p, rest), e) ↦
            let owed : IsOwed p.id (record w { pending = rest }) log = record {
              no_repeat = t.no_repeat;
              tracked = λ id h. take_first-is_pending id _ w.pending p rest e (t.tracked id h);
            } in
            rw (e, retry_pending)
              (next-IsSafe _ _ (acknowledge-IsSafe p now (record w { pending = rest }) s log owed)
                (λ a w' s' log' k. ok-IsSafe k))
      ]

  fill_page-IsSafe :
      (now : ℕ) (w : Worker) (s : W) (log : List Call)
      → IsTracked w log
      → IsSafe (fill_page (logged env) now (w, (s, log)))
  unfolding fill_page
  fill_page-IsSafe now w s log t = elim (List-cases w.page) [
    | inl e ↦ rw (e, fill_page) (fetched-IsSafe now w log (env.fetch w.cursor s) t)
    | inr (item, items, e) ↦ rw (e, fill_page) (ok-IsSafe t)
  ]

  -- What follows the hand-off of an item that has no acknowledgment pending.
  offered-IsSafe :
      (now : ℕ) (id : Text) (w : Worker) (log : List Call) (r : Result RuntimeError Text × W)
      → is_pending id w.pending ≡ false
      → IsTracked w log
      → IsSafe (handed (logged env) now id w (outcome (note_inject id log r)))
  unfolding handed
  offered-IsSafe now id w log (err e, s) new t =
      note_failure-IsSafe now id _ w s (injects id false ∷ log) (injects-IsTracked id w log new t)
  offered-IsSafe now id w log (ok receipt, s) new t =
      let owed = injects-IsOwed id w log new t in
      next-IsSafe _ _
        (acknowledge-IsSafe (record { id = id; retry = no_retry }) now _ s (injects id true ∷ log)
          (record { no_repeat = owed.no_repeat; tracked = owed.tracked }))
        (λ a w' s' log' k. ok-IsSafe k)

module _ {W : Type 0} (env : Env W) (quote : Text → Text) (routes : StaticRoutes) where
  handed-IsSafe :
      (now : ℕ) (item : InboxItem) (w : Worker) (s : W) (log : List Call)
      → is_pending item.inbox_item_id w.pending ≡ false
      → IsTracked w log
      → IsSafe (
          handed
            (logged env)
            now
            item.inbox_item_id
            w
            (hand_off (logged env) quote routes (from_item item) (s, log)))
  unfolding hand_off from_item
  handed-IsSafe now item w s log new t =
      elim (Option-cases (select_route routes (from_item item))) [
        | inl e ↦
            rw (e, hand_off)
              (unfold handed in note_failure-IsSafe now item.inbox_item_id _ w s log t)
        | inr (route, e) ↦
            rw (e, hand_off) (offered-IsSafe env now item.inbox_item_id w log _ new t)
      ]

  deliver-IsSafe :
      (now : ℕ) (w : Worker) (s : W) (log : List Call)
      → IsTracked w log
      → IsSafe (deliver (logged env) quote routes now (w, (s, log)))
  unfolding deliver deliver_item
  deliver-IsSafe now w s log t = elim (List-cases w.page) [
    | inl e ↦ rw (e, deliver) (ok-IsSafe t)
    | inr (item, rest, e) ↦
        let t' : IsTracked (record w { page = rest }) log = record {
          no_repeat = t.no_repeat;
          tracked = t.tracked;
        } in
        rw (e, deliver) (deliver_item-IsSafe item (record w { page = rest }) t')
  ]
    where
      deliver_item-IsSafe :
          (item : InboxItem) (w' : Worker)
          → IsTracked w' log
          → IsSafe (deliver_item (logged env) quote routes now item w' (s, log))
      deliver_item-IsSafe item w' t' =
          elim (Bool-cases (is_pending item.inbox_item_id w'.pending)) [
            | inl old ↦ rw (old, deliver_item) (ok-IsSafe t')
            | inr new ↦
                rw (new, deliver_item)
                  (if-IsSafe (is_deferred now (Failures.get item.inbox_item_id w'.failures)) _ _
                    (ok-IsSafe t') (handed-IsSafe now item w' s log new t'))
          ]

  work-IsSafe :
      (now : ℕ) (w : Worker) (s : W) (log : List Call)
      → IsTracked w log
      → IsSafe (work (logged env) quote routes now (w, (s, log)))
  unfolding work
  work-IsSafe now w s log t =
      next-IsSafe (fill_page (logged env) now (w, (s, log))) _ (fill_page-IsSafe env now w s log t)
        λ (events, stop) w' s' log' t'.
          if-IsSafe stop _ _ (ok-IsSafe t')
            (next-IsSafe _ _ (deliver-IsSafe now w' s' log' t') (λ a w'' s'' log'' k. ok-IsSafe k))

  tick-IsSafe :
      (now : ℕ) (w : Worker) (s : W) (log : List Call)
      → IsTracked w log
      → IsSafe (tick (logged env) quote routes now (w, (s, log)))
  unfolding tick
  tick-IsSafe now w s log t = if-IsSafe (ltb now w.central.after) _ _ (ok-IsSafe t) (
      next-IsSafe (retry_pending (logged env) now (w, (s, log))) _
        (retry_pending-IsSafe env now w s log t)
        λ (events, stop) w' s' log' t'.
          if-IsSafe (stop || leb pending_limit (length w'.pending)) _ _ (ok-IsSafe t')
            (next-IsSafe _ _ (work-IsSafe now w' s' log' t') (λ a w'' s'' log'' k. ok-IsSafe k)))

  -- The continuous loop: a tick at each time, until one raises.
  pub ticks : List ℕ → Worker × (W × List Call) → Step (W × List Call) (List Event)
  ticks [] state = (ok [], state)
  ticks (now ∷ later) state =
      next (tick (logged env) quote routes now state) λ events state'. ticks later state'

  ticks-IsSafe :
      (times : List ℕ) (w : Worker) (s : W) (log : List Call)
      → IsTracked w log
      → IsSafe (ticks times (w, (s, log)))
  unfolding ticks
  ticks-IsSafe [] w s log t = ok-IsSafe t
  ticks-IsSafe (now ∷ later) w s log t =
      next-IsSafe (tick (logged env) quote routes now (w, (s, log))) _ (tick-IsSafe now w s log t)
        λ events w' s' log' t'. ticks-IsSafe later w' s' log' t'

  -- From a new worker, whatever the journal and the runtime answer and at whatever times it ticks:
  -- an item whose hand-off was accepted is not handed off again before an acknowledgment of it is
  -- recorded, or refused as not found. As long as no tick raises, each such acknowledgment is among
  -- those to be retried.
  pub ticks-new-IsSafe : (times : List ℕ) (s : W) → IsSafe (ticks times (new, (s, [])))
  unfolding outstanding
  ticks-new-IsSafe times s =
      ticks-IsSafe times new s [] (record { no_repeat = tt; tracked = λ id h. absurd (cc) })
