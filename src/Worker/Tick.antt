-- ===== src/Worker/Tick.antt =====
-- crates/journal-inbox-worker/src/lib.rs: `Worker::tick`, in its phases: one acknowledgment that
-- is due, a page if none is left, one item of the page. A phase says whether the tick ends there.
use agent_journal.Prelude.{
  ℕ, Text, Option, none, some, List, [], ◌∷◌, ◌++◌, Bool, false, true, ◌||◌, ◌&&◌, not, ltb, leb,
  any, filter, length, is_some, is_none, same, unwrap_or, Result, ok, err, if◌then◌else◌,
}
use agent_journal.Protocol.Pages.{Page, InboxItem}
use agent_journal.Worker.Retry.{Retry, no_retry, fail}
use agent_journal.Worker.Envelope.{StaticRoutes, Envelope, from_item, render, select_route}
use agent_journal.Worker.Failures
use agent_journal.Worker.Failures.{Failures}
use agent_journal.Worker.State.{
  page_limit, pending_limit, failure_limit, ClientError, RuntimeError, temporarily_unavailable,
  EventKind, acknowledged, ack_pending, ack_inaccessible, route_unavailable, runtime_unavailable,
  runtime_rejected, central_unavailable, cursor_restarted, Event, WorkerError, invalid_response,
  Pending, Worker, Env, Step, next, transient, has_status, is_ack_pending,
}

-- `Worker::new`
abbrev pub new : Worker
new = record {
  page = [];
  cursor = none;
  cursor_restart_used = false;
  pending = [];
  failures = [];
  central = no_retry;
}

-- The first element that fits, and the others.
unfoldable pub take_first {ℓ} : {A : Type ℓ} → (A → Bool) → List A → Option (A × List A)
take_first p [] = none
take_first p (x ∷ xs) =
    let later = take_first p xs in
    if p x then some (x, xs) else elim later [ none ↦ none | some (y, ys) ↦ some (y, x ∷ ys) ]

abbrev item_event : Text → EventKind → Event
item_event id kind = record { item_id = some id; kind = kind }

abbrev event : EventKind → Event
event kind = record { item_id = none; kind = kind }

abbrev pub is_pending : Text → List Pending → Bool
is_pending id pending = any (λ (p : Pending). same p.id id) pending

abbrev pub failure_kind : RuntimeError → EventKind
failure_kind temporarily_unavailable = runtime_unavailable
failure_kind _ = runtime_rejected

-- More items than asked for, or an acknowledged one.
abbrev pub bad_page : Page InboxItem → Bool
bad_page page =
    ltb page_limit (length page.items) || any (λ item. is_some item.acknowledged_at) page.items

-- A cursor that the journal refuses is dropped once in a pass.
abbrev pub may_restart : Worker → ClientError → Bool
may_restart w e = has_status 400 e && (is_some w.cursor && not w.cursor_restart_used)

module _ {W : Type 0} where
  -- An acknowledgment that failed: a fault, or one to be repeated.
  unfoldable pub unsettled : Pending → ℕ → Worker → W → Result WorkerError Bool → Step W Event
  unsettled pending now w s (err fault) = (err fault, (w, s))
  unsettled pending now w s (ok false) = (err invalid_response, (w, s))
  unsettled pending now w s (ok true) = (
    ok (item_event pending.id ack_pending),
    (
      record w {
        central = fail w.central now;
        pending = w.pending ++ (record pending { retry = fail pending.retry now } ∷ []);
      },
      s,
    ),
  )

  -- What `acknowledge` does with the journal's answer.
  unfoldable pub settle : Pending → ℕ → Worker → Result ClientError (Unit {0}) × W → Step W Event
  settle pending now w (ok _, s) = (
    ok (item_event pending.id acknowledged),
    (
      record w {
        central = no_retry;
        page = filter (λ item. not (same item.inbox_item_id pending.id)) w.page;
      },
      s,
    ),
  )
  settle pending now w (err e, s) =
      if has_status 404 e
      then (ok (item_event pending.id ack_inaccessible), (w, s))
      else unsettled pending now w s (transient e)

  -- A fetch that failed: a fault, or one to be repeated.
  unfoldable pub fetch_failed :
      ℕ → Worker → W → Result WorkerError Bool → Step W (List Event × Bool)
  fetch_failed now w s (err fault) = (err fault, (w, s))
  fetch_failed now w s (ok false) = (err invalid_response, (w, s))
  fetch_failed now w s (ok true) =
      (ok (event central_unavailable ∷ [], true), (record w { central = fail w.central now }, s))

  -- What `tick` does with a fetched page, and whether the tick ends.
  unfoldable pub fetched :
      ℕ → Worker → Result ClientError (Page InboxItem) × W → Step W (List Event × Bool)
  fetched now w (ok page, s) = if bad_page page then (err invalid_response, (w, s)) else (
    ok ([], false),
    (
      record w {
        central = no_retry;
        cursor_restart_used = if is_none page.next_cursor then false else w.cursor_restart_used;
        cursor = page.next_cursor;
        page = page.items;
      },
      s,
    ),
  )
  fetched now w (err e, s) =
      if may_restart w e
      then (
        ok (event cursor_restarted ∷ [], true),
        (record w { cursor = none; cursor_restart_used = true }, s),
      )
      else fetch_failed now w s (transient e)

  -- The failure of an item: one more failure in a row, and room for its entry.
  unfoldable pub note_failure : ℕ → Text → EventKind → Worker → W → Step W (List Event)
  note_failure now id kind w s = (
    ok (item_event id kind ∷ []),
    (
      record w {
        failures =
            Failures.insert id (fail (unwrap_or (Failures.get id w.failures) no_retry) now)
              (Failures.make_room failure_limit (Failures.remove id w.failures));
      },
      s,
    ),
  )

  abbrev pub outcome : Result RuntimeError Text × W → Result EventKind Text × W
  outcome (ok receipt, s) = (ok receipt, s)
  outcome (err e, s) = (err (failure_kind e), s)

-- The item is to be left alone until later.
abbrev pub is_deferred : ℕ → Option Retry → Bool
is_deferred now none = false
is_deferred now (some retry) = ltb now retry.after

module _ {W : Type 0} (env : Env W) where
  -- `Worker::acknowledge`
  unfoldable pub acknowledge : Pending → ℕ → Worker × W → Step W Event
  acknowledge pending now (w, s) = settle pending now w (env.acknowledge pending.id s)

  unfoldable pub retry_pending : ℕ → Worker × W → Step W (List Event × Bool)
  retry_pending now (w, s) = elim (take_first (λ (p : Pending). leb p.retry.after now) w.pending) [
    | none ↦ (ok ([], false), (w, s))
    | some (pending, rest) ↦
        next (acknowledge pending now (record w { pending = rest }, s))
          (λ e state. (ok (e ∷ [], is_ack_pending e.kind), state))
  ]

  unfoldable pub fill_page : ℕ → Worker × W → Step W (List Event × Bool)
  fill_page now (w, s) = elim w.page [
    | [] ↦ fetched now w (env.fetch w.cursor s)
    | _ ∷ _ ↦ (ok ([], false), (w, s))
  ]

  unfoldable pub handed : ℕ → Text → Worker → Result EventKind Text × W → Step W (List Event)
  handed now id w (err kind, s) = note_failure now id kind w s
  handed now id w (ok _, s) =
      next
        (acknowledge (record { id = id; retry = no_retry }) now
          (record w { failures = Failures.remove id w.failures }, s))
        (λ e state. (ok (e ∷ []), state))

module _ {W : Type 0} (env : Env W) (quote : Text → Text) (routes : StaticRoutes) where
  unfoldable pub hand_off : Envelope → W → Result EventKind Text × W
  hand_off envelope s = elim (select_route routes envelope) [
    | none ↦ (err route_unavailable, s)
    | some route ↦ outcome (env.inject route envelope (render quote envelope) s)
  ]

  unfoldable pub deliver_item : ℕ → InboxItem → Worker → W → Step W (List Event)
  deliver_item now item w s =
      if is_pending item.inbox_item_id w.pending
        || is_deferred now (Failures.get item.inbox_item_id w.failures)
      then (ok [], (w, s))
      else handed env now item.inbox_item_id w (hand_off (from_item item) s)

  unfoldable pub deliver : ℕ → Worker × W → Step W (List Event)
  deliver now (w, s) = elim w.page [
    | [] ↦ (ok [], (w, s))
    | item ∷ rest ↦ deliver_item now item (record w { page = rest }) s
  ]

  -- A page, then an item of it.
  unfoldable pub work : ℕ → Worker × W → Step W (List Event)
  work now state = next (fill_page env now state) λ (events, stop) state'.
      if stop
      then (ok events, state')
      else next (deliver now state') (λ more state''. (ok (events ++ more), state''))

  -- `Worker::tick`
  unfoldable pub tick : ℕ → Worker × W → Step W (List Event)
  tick now (w, s) =
      if ltb now w.central.after
      then (ok [], (w, s))
      else next (retry_pending env now (w, s)) λ (events, stop) (w', s').
        if stop || leb pending_limit (length w'.pending)
        then (ok events, (w', s'))
        else next (work now (w', s')) (λ more state. (ok (events ++ more), state))
