-- ===== src/Journal/Thread.antt =====
-- crates/journal-service/src/records.rs: `thread_root_id` and `thread_ids`, which walk the replies of
-- a space within three budgets. Each loop recurses on fuel; `none` is that the fuel ran out.
pub mod Total
pub mod Walk
use agent_journal.Prelude.{
  ℕ, zero, suc, ◌+◌, ◌-◌, min, Text, Option, none, some, List, [], ◌∷◌, ◌++◌, Bool, true, false,
  not, ◌||◌, ◌&&◌, ltb, ◌==◌, if◌then◌else◌, length, take, any, find, filter, is_none, same, Result,
  ok, err,
}
use agent_journal.Domain.Validate.{is_reply}
use agent_journal.Protocol.Canonical.{sort}
use agent_journal.Journal.Schema.{Db, RecordRow, RelationRow}
use agent_journal.Journal.Tx.{BootstrapError, corrupt_journal, invalid_journal, sqlite, panicked}

-- `THREAD_MAX_DEPTH`, `THREAD_MAX_NODES` and `THREAD_MAX_EDGES`
pub record Budget : Type 0 where
  pub max_depth : ℕ
  pub max_nodes : ℕ
  pub max_edges : ℕ

abbrev pub thread_budget : Budget
thread_budget = record { max_depth = 64; max_nodes = 4096; max_edges = 8192 }

abbrev pub Looped {ℓ} : Type ℓ → Type ℓ
Looped A = Option (Result BootstrapError A)

-- The record is one of the space.
unfoldable pub in_space : Db → Text → Text → Bool
in_space db space id = any (λ (r : RecordRow). same r.id id && same r.space_id space) db.records

abbrev target_of : Option RelationRow → Option Text
target_of none = none
target_of (some r) = some r.target_record_id

-- The record of the space that the record replies to.
unfoldable pub parent_of : Db → Text → Text → Option Text
parent_of db space id = target_of (
    find
      (λ (r : RelationRow).
        same r.source_record_id id
        && (is_reply r.relation_type && in_space db space r.target_record_id))
      db.record_relations)

abbrev seq_of_row : Option RecordRow → Option ℕ
seq_of_row none = none
seq_of_row (some r) = some r.space_seq

unfoldable pub seq_in : Db → Text → Text → Option ℕ
seq_in db space id =
    seq_of_row (find (λ (r : RecordRow). same r.id id && same r.space_id space) db.records)

abbrev sources : List RelationRow → List Text
sources [] = []
sources (r ∷ rs) = r.source_record_id ∷ sources rs

-- The replies to the record from the space, by their ids.
unfoldable pub replies_to : Db → Text → Text → List Text
replies_to db space id = sort (
    sources (
      filter
        (λ (r : RelationRow).
          same r.target_record_id id
          && (is_reply r.relation_type && in_space db space r.source_record_id))
        db.record_relations))

-- Whether a record has any reply-to relation.
unfoldable pub has_parent : Db → Text → Bool
has_parent db id =
    any (λ (r : RelationRow). same r.source_record_id id && is_reply r.relation_type)
      db.record_relations

-- The children on the stack, the last one pushed first.
abbrev pub push_all : ℕ → List Text → List (Text × ℕ) → List (Text × ℕ)
push_all depth [] pending = pending
push_all depth (c ∷ cs) pending = push_all depth cs ((c, depth) ∷ pending)

module _ (db : Db) (space : Text) (budget : Budget) where
  open budget use {max_depth, max_nodes, max_edges}

  -- The ascent from `root`, with the ancestors seen before it.
  unfoldable pub ascend : ℕ → List Text → ℕ → Text → Looped (Text × ℕ)
  ascend zero ancestors edges root = none
  ascend (suc fuel) ancestors edges root =
      if any (same root) ancestors
      then some (err corrupt_journal)
      else if ltb max_nodes (length ancestors + 1)
      then some (err invalid_journal)
      else elim (parent_of db space root) [
        | none ↦ some (ok (root, edges))
        | some parent ↦ elim (ltb max_depth (length ancestors + 1) || ltb max_edges (edges + 1)) [
          | true ↦ some (err invalid_journal)
          | false ↦ ascend fuel (root ∷ ancestors) (edges + 1) parent
        ]
      ]

  abbrev with_resolved : Looped (Text × ℕ) → Looped (Text × ℕ × Bool)
  with_resolved none = none
  with_resolved (some (err e)) = some (err e)
  with_resolved (some (ok (root, edges))) = some (ok (root, edges, not (has_parent db root)))

  -- `thread_root_id`
  unfoldable pub thread_root_id : Text → Looped (Text × ℕ × Bool)
  thread_root_id anchor = with_resolved (ascend (max_nodes + 1) [] 0 anchor)

  -- The number of further nodes that the budgets allow; a difference below 0 is a panic.
  unfoldable pub remaining : ℕ → ℕ → ℕ → Result BootstrapError ℕ
  remaining seen pending edges =
      if ltb max_nodes (seen + pending) || ltb max_edges edges
      then err panicked
      else ok (min (max_nodes - seen - pending) (max_edges - edges))

  abbrev pub children_within :
      Text → ℕ → ℕ → Result BootstrapError ℕ → Result BootstrapError (ℕ × List Text)
  children_within id depth seq (err e) = err e
  children_within id depth seq (ok left) =
      let children = take (left + 1) (replies_to db space id) in
      if ltb left (length children) || (depth == max_depth && ltb 0 (length children))
      then err invalid_journal
      else ok (seq, children)

  abbrev pub node : Text → ℕ → List Text → ℕ → ℕ → Option ℕ → Result BootstrapError (ℕ × List Text)
  node id depth seen pending edges none = err sqlite
  node id depth seen pending edges (some seq) =
      children_within id depth seq (remaining (length seen + 1) pending edges)

  -- One turn of the loop: the number of the record and its replies.
  unfoldable pub visit : Text → ℕ → List Text → ℕ → ℕ → Result BootstrapError (ℕ × List Text)
  visit id depth seen pending edges =
      if any (same id) seen
      then err corrupt_journal
      else if ltb max_nodes (length seen + 1) || ltb max_depth depth
      then err invalid_journal
      else node id depth seen pending edges (seq_in db space id)

  -- The loop over the stack.
  unfoldable pub walk :
      ℕ → List (Text × ℕ) → List Text → List (ℕ × Text) → ℕ → Looped (List (ℕ × Text))
  walk fuel [] seen found edges = some (ok found)
  walk zero (next ∷ pending) seen found edges = none
  walk (suc fuel) ((id, depth) ∷ pending) seen found edges =
      elim (visit id depth seen (length pending) edges) [
        | err e ↦ some (err e)
        | ok (seq, children) ↦
            walk fuel (push_all (depth + 1) children pending) (id ∷ seen)
              (found ++ ((seq, id) ∷ [])) (edges + length children)
      ]

  abbrev pub descend : Looped (Text × ℕ × Bool) → Looped (List (ℕ × Text))
  descend none = none
  descend (some (err e)) = some (err e)
  descend (some (ok (root, edges, resolved))) = walk (max_nodes + 1) ((root, 0) ∷ []) [] [] edges

  -- `thread_ids`
  unfoldable pub thread_ids : Text → Looped (List (ℕ × Text))
  thread_ids anchor = descend (thread_root_id anchor)
