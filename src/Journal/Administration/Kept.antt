-- ===== src/Journal/Administration/Kept.antt =====
-- crates/journal-service/src/bootstrap.rs: what the statements on credentials keep is kept over every
-- sequence of administrative operations.
use agent_journal.Prelude.{◌≡◌}
use agent_journal.Journal.Schema.{Db}
use agent_journal.Journal.Tx.{Host, Store}
use agent_journal.Journal.Credentials.Operations.{
  Statements, Preserves-rotate, Preserves-revoke, Preserves-recover_principal,
  Preserves-create_space, Preserves-set_membership,
}
use agent_journal.Journal.Principals.Operations.{
  Preserves-create_principal, Preserves-register, Preserves-update_own_profile,
}
use agent_journal.Journal.Administration.{
  Step, Steps, creates, registers, updates, rotates, revokes, recovers, opens, joins, done, after,
}

module _ {P : Db → Type 0}
    (frame : (before after : Db) → after.credentials ≡ before.credentials → P before → P after)
    (laws : Statements P) (host : Host) where
  step_keeps : {s t : Store} → Step host s t → P s.db → P t.db
  step_keeps (creates {s = s} request) h =
      (Preserves-create_principal frame laws host request).preserves s h
  step_keeps (registers {s = s} token request) h =
      (Preserves-register frame laws host token request).preserves s h
  step_keeps (updates {s = s} actor key request) h =
      (Preserves-update_own_profile frame laws host actor key request).preserves s h
  step_keeps (rotates {s = s} request) h = (Preserves-rotate laws host request).preserves s h
  step_keeps (revokes {s = s} request) h = (Preserves-revoke laws host request).preserves s h
  step_keeps (recovers {s = s} request) h =
      (Preserves-recover_principal laws host request).preserves s h
  step_keeps (opens {s = s} request) h = (Preserves-create_space laws host request).preserves s h
  step_keeps (joins {s = s} request) h = (Preserves-set_membership laws host request).preserves s h

  pub steps_keep : {s t : Store} → Steps host s t → P s.db → P t.db
  steps_keep done h = h
  steps_keep (after step steps) h = steps_keep steps (step_keeps step h)
