-- ===== src/Worker/State.antt =====
-- crates/journal-inbox-worker/src/lib.rs: the worker's state, its events and errors, and the
-- interface to the journal's client and to the agent runtime. Both are trait objects: what a call
-- answers depends on a world of any type `W`, which the call may change.
use agent_journal.Prelude.{
  ℕ, Text, Option, List, Bool, false, true, ◌==◌, ◌||◌, ◌&&◌, leb, Result, ok, err, if◌then◌else◌,
}
use agent_journal.Protocol.Pages.{Page, InboxItem}
use agent_journal.Worker.Retry.{Retry}
use agent_journal.Worker.Envelope.{Route, Envelope}
use agent_journal.Worker.Failures.{Failures}

abbrev pub page_limit : ℕ
page_limit = 50

abbrev pub pending_limit : ℕ
pending_limit = 100

abbrev pub failure_limit : ℕ
failure_limit = 4096

-- crates/journal-client/src/lib.rs
pub data ClientError : Type 0 where
  http : (status : ℕ) → ClientError
  json invalid_request unavailable transport : ClientError

pub data RuntimeError : Type 0 where
  temporarily_unavailable rejected invalid_answer : RuntimeError

pub data EventKind : Type 0 where
  acknowledged ack_pending ack_inaccessible route_unavailable runtime_unavailable : EventKind
  runtime_rejected central_unavailable cursor_restarted : EventKind

pub record Event : Type 0 where
  pub item_id : Option Text
  pub kind : EventKind

pub data WorkerError : Type 0 where
  unauthorized invalid_response : WorkerError

pub record Pending : Type 0 where
  pub id : Text
  pub retry : Retry

pub record Worker : Type 0 where
  pub page : List InboxItem
  pub cursor : Option Text
  pub cursor_restart_used : Bool
  pub pending : List Pending
  pub failures : Failures
  pub central : Retry

-- The traits `Inbox` and `Runtime`.
pub record Env (W : Type 0) : Type 0 where
  pub fetch : Option Text → W → Result ClientError (Page InboxItem) × W
  pub acknowledge : Text → W → Result ClientError (Unit {0}) × W
  pub inject : Route → Envelope → Text → W → Result RuntimeError Text × W

-- A step that may raise; the state comes back beside the error too.
abbrev pub Step : Type 0 → Type 0 → Type 0
Step W A = Result WorkerError A × (Worker × W)

abbrev pub next : {W A B : Type 0} → Step W A → (A → Worker × W → Step W B) → Step W B
next (ok a, state) f = f a state
next (err e, state) f = (err e, state)

-- `transient`: may the call be repeated, or is it a fault?
unfoldable pub transient : ClientError → Result WorkerError Bool
transient (http status) =
    if status == 401 || status == 403
    then err unauthorized
    else ok (status == 429 || (leb 500 status && leb status 599))
transient unavailable = ok true
transient transport = ok true
transient json = ok false
transient invalid_request = ok false

abbrev pub has_status : ℕ → ClientError → Bool
has_status status (http s) = s == status
has_status status _ = false

abbrev pub is_ack_pending : EventKind → Bool
is_ack_pending ack_pending = true
is_ack_pending _ = false
