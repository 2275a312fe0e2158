-- ===== src/Worker/Examples.antt =====
-- The theorems of crates/journal-inbox-worker at a concrete journal and runtime, and runs of them.
use agent_journal.Prelude.{
  length, min, ℕ, ◌+◌, ◌*◌, ◌^◌, ◌≡◌, Text, text, none, [], ◌∷◌, true, ok, err, arith,
}
use agent_journal.Domain.Types.{Record}
use agent_journal.Protocol.Pages.{Page, InboxItem}
use agent_journal.Worker.Retry.{
  fail, fail_all, fail-fail_all, no_retry, second, u32_max, duration_max,
}
use agent_journal.Worker.Envelope.{StaticRoutes}
use agent_journal.Worker.State.{Env, unavailable, pending_limit}
use agent_journal.Worker.Tick.{new, tick}
use agent_journal.Worker.Bounds.{IsBounded, tick-IsBounded}
use agent_journal.Worker.Log.{IsSafe}
use agent_journal.Worker.Handoff.{ticks, ticks-new-IsSafe}

abbrev sample_record : Record
sample_record = record {
  id = text "r1";
  space_id = text "s";
  seq = 1;
  author = text "p1";
  kind = text "message";
  content = text "hello";
  run_id = none;
  created_at = text "t";
  attention = text "p2" ∷ [];
  routing_key = none;
  relations = [];
  title = none;
}

abbrev sample_item : InboxItem
sample_item = record {
  inbox_item_id = text "i1";
  recipient = text "p2";
  seq = 1;
  created_at = text "t";
  acknowledged_at = none;
  of_record = sample_record;
}

abbrev sample_page : Page InboxItem
sample_page = record { items = sample_item ∷ []; next_cursor = none }

-- Every fetch returns the item, the runtime accepts it, and acknowledgments get lost. The world
-- counts the calls.
abbrev lossy : Env ℕ
lossy = record {
  fetch = λ cursor n. (ok sample_page, n + 1);
  acknowledge = λ id n. (err unavailable, n + 1);
  inject = λ route envelope rendered n. (ok (text "accepted"), n + 1);
}

abbrev sample_routes : StaticRoutes
sample_routes =
    (
      text "s/default",
      record { key = text "default"; runtime_target = text "target"; enabled = true },
    )
    ∷ []

abbrev quoted : Text → Text
quoted s = s

fail-fail_all_example :
    fail (fail_all no_retry (0 ∷ second ∷ 4 * second ∷ [])) (9 * second) ≡ record {
      failures = min (length {A = ℕ} (0 ∷ second ∷ 4 * second ∷ []) + 1) u32_max;
      after =
          min
            (9 * second + 2 ^ min (length {A = ℕ} (0 ∷ second ∷ 4 * second ∷ [])) 8 * second)
            duration_max;
    }
fail-fail_all_example = fail-fail_all (0 ∷ second ∷ 4 * second ∷ []) (9 * second)

tick-IsBounded_example : IsBounded pending_limit (tick lossy quoted sample_routes 0 (new, 0)).1.0
tick-IsBounded_example = tick-IsBounded lossy quoted sample_routes 0 new 0 (omega arith)

ticks-new-IsSafe_example :
    IsSafe (ticks lossy quoted sample_routes (0 ∷ 2 * second ∷ 9 * second ∷ []) (new, (0, [])))
ticks-new-IsSafe_example =
    ticks-new-IsSafe lossy quoted sample_routes (0 ∷ 2 * second ∷ 9 * second ∷ []) 0
