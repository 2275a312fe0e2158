-- ===== src/Worker/Failures.antt =====
-- crates/journal-inbox-worker/src/lib.rs: the map of the failed items, a `BTreeMap` by item id, as
-- an association list in the order of its keys.
use agent_journal.Prelude.{
  ℕ, ◌+◌, ◌≤◌, ◌≡◌, ◌≢◌, inl, inr, Option-cases, Text, Option, none, some, List, [], ◌∷◌, leb,
  if◌then◌else◌, length, same, text_lt, arith,
}
use agent_journal.Worker.Retry.{Retry}

abbrev pub Failures : Type 0
Failures = List (Text × Retry)

unfoldable pub get : Text → Failures → Option Retry
get id [] = none
get id ((key, retry) ∷ rest) = if same key id then some retry else get id rest

unfoldable pub remove : Text → Failures → Failures
remove id [] = []
remove id ((key, retry) ∷ rest) =
    let others = remove id rest in if same key id then others else (key, retry) ∷ others

unfoldable pub insert : Text → Retry → Failures → Failures
insert id retry [] = (id, retry) ∷ []
insert id retry ((key, old) ∷ rest) =
    let later = insert id retry rest in
    if same key id
    then (id, retry) ∷ rest
    else if text_lt id key
    then (id, retry) ∷ (key, old) ∷ rest
    else (key, old) ∷ later

-- `iter().min_by_key(|(_, retry)| retry.after)`: the first of the least.
unfoldable pub soonest : Failures → Option (Text × Retry)
soonest [] = none
soonest ((key, retry) ∷ rest) = elim (soonest rest) [
  | none ↦ some (key, retry)
  | some (key', retry') ↦
      if leb retry.after retry'.after then some (key, retry) else some (key', retry')
]

abbrev evict : Option (Text × Retry) → Failures → Failures
evict none failures = failures
evict (some (key, _)) failures = remove key failures

-- Room for one more entry: at the limit, the entry that is due soonest goes.
unfoldable pub make_room : ℕ → Failures → Failures
make_room limit failures =
    if leb limit (length failures) then evict (soonest failures) failures else failures

pub length-remove-le : (id : Text) (m : Failures) → length (remove id m) ≤ length m
unfolding remove
length-remove-le id [] = omega arith
length-remove-le id ((key, retry) ∷ rest) = ground (arith, length-remove-le id rest)

pub length-insert-le :
    (id : Text) (r : Retry) (m : Failures) → length (insert id r m) ≤ length m + 1
unfolding insert
length-insert-le id r [] = omega arith
length-insert-le id r ((key, retry) ∷ rest) = ground (arith, length-insert-le id r rest)

length-remove-soonest :
    (m : Failures) (key : Text) (r : Retry)
    → soonest m ≡ some (key, r)
    → length (remove key m) + 1 ≤ length m
unfolding soonest remove
length-remove-soonest [] key r h = absurd (ground arith)
length-remove-soonest ((k, s) ∷ rest) key r h =
    ground (arith, length-remove-le key rest, length-remove-soonest rest key r)

soonest-some : (e : Text × Retry) (m : Failures) → soonest (e ∷ m) ≢ none
unfolding soonest
soonest-some (key, r) m h = ground arith

-- There is room for one more entry below the limit.
pub length-make_room :
    (limit : ℕ) (m : Failures)
    → 1 ≤ limit
    → length m ≤ limit
    → length (make_room limit m) + 1 ≤ limit
unfolding make_room
length-make_room limit [] h k = ground arith
length-make_room limit (e ∷ m) h k = elim (Option-cases (soonest (e ∷ m))) [
  | inl none_left ↦ absurd (soonest-some e m none_left)
  | inr ((key, r), found) ↦ ground (arith, length-remove-soonest (e ∷ m) key r found)
]
