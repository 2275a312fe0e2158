-- ===== src/Journal/Administration/Names.antt =====
-- crates/journal-service/src/bootstrap.rs: the handles stay as they should over every sequence of
-- administrative operations.
use agent_journal.Prelude.{Text, inl, inr}
use agent_journal.Protocol.Requests.{PrincipalCreateRequest, ProfileUpdateRequest}
use agent_journal.Journal.Schema.{Db}
use agent_journal.Journal.Tx.{Host, Store}
use agent_journal.Journal.Returns.{Returns-weaken}
use agent_journal.Journal.Preserves.{
  Preserves, Preserves-continue, Preserves-pure, Preserves-lift, Preserves-some_or,
  Preserves-fail_when, Preserves-now, Preserves-principal_id, Preserves-transaction,
}
use agent_journal.Journal.Principals.{create_principal}
use agent_journal.Journal.Principals.Names.{IsNamed, IsAdded-IsNamed}
use agent_journal.Journal.Principals.Renames.{IsEdited-IsNamed}
use agent_journal.Journal.Principals.Effects.{SameNames, Returns-create_principal_in}
use agent_journal.Journal.Principals.Register.{register}
use agent_journal.Journal.Principals.Registered.{Returns-register_in}
use agent_journal.Journal.Principals.Profile.{update_own_profile}
use agent_journal.Journal.Principals.Edited.{Returns-update_profile_in}
use agent_journal.Journal.Credentials.{AuthenticatedCredential}
use agent_journal.Journal.Credentials.Frame.{frame_statements}
use agent_journal.Journal.Credentials.Operations.{
  Preserves-rotate, Preserves-revoke, Preserves-recover_principal, Preserves-create_space,
  Preserves-set_membership,
}
use agent_journal.Journal.Administration.{
  Step, Steps, creates, registers, updates, rotates, revokes, recovers, opens, joins, done, after,
}

IsNamed-frame : (b a : Db) → SameNames b a → IsNamed b → IsNamed a
IsNamed-frame b a e h = record {
  id_once = λ x. rw e.principals (h.id_once x);
  name_once = λ x. rw e.names (h.name_once x);
  unshadowed = λ x k. rw e.principals (h.unshadowed x (rw⁻¹ e.names k));
  one_current = λ x k. rw e.names (h.one_current x (rw⁻¹ e.principals k));
}

module _ (host : Host) where
  create_principal-IsNamed :
      (request : PrincipalCreateRequest) → Preserves IsNamed (create_principal host request)
  unfolding create_principal
  create_principal-IsNamed request = Preserves-continue _ _ (Preserves-lift _) λ _.
      Preserves-continue _ _ (Preserves-now host) λ t.
        Preserves-continue _ _ (Preserves-principal_id host) λ id.
          Preserves-continue _ _
            (Preserves-transaction host _ λ s h.
              Returns-weaken (Returns-create_principal_in request id t s)
                λ _ s' added. IsAdded-IsNamed id request.handle s.db s'.db added h)
            λ _. Preserves-pure _

  register-IsNamed :
      (token : Text) (request : PrincipalCreateRequest)
      → Preserves IsNamed (register host token request)
  unfolding register
  register-IsNamed token request = Preserves-continue _ _ (Preserves-lift _) λ _.
      Preserves-continue _ _ (Preserves-fail_when _ _) λ _.
        Preserves-continue _ _ (Preserves-some_or _ _) λ json. Preserves-transaction host _ λ s h.
          Returns-weaken (Returns-register_in host _ json request s) λ _ s' effect. elim effect [
            | inl e ↦ IsNamed-frame s.db s'.db e h
            | inr (id, added) ↦ IsAdded-IsNamed id request.handle s.db s'.db added h
          ]

  update_own_profile-IsNamed :
      (actor : AuthenticatedCredential) (key : Text) (request : ProfileUpdateRequest)
      → Preserves IsNamed (update_own_profile host actor key request)
  unfolding update_own_profile
  update_own_profile-IsNamed actor key request = Preserves-continue _ _ (Preserves-lift _) λ _.
      Preserves-continue _ _ (Preserves-fail_when _ _) λ _.
        Preserves-continue _ _ (Preserves-some_or _ _) λ json. Preserves-transaction host _ λ s h.
          Returns-weaken (Returns-update_profile_in host actor key _ request s) λ _ s' effect.
            elim effect [
              | inl e ↦ IsNamed-frame s.db s'.db e h
              | inr (old, edited) ↦
                  IsEdited-IsNamed actor.principal_id old request s.db s'.db edited h
            ]

  Step-IsNamed : {s t : Store} → Step host s t → IsNamed s.db → IsNamed t.db
  Step-IsNamed (creates {s = s} request) h = (create_principal-IsNamed request).preserves s h
  Step-IsNamed (registers {s = s} token request) h = (register-IsNamed token request).preserves s h
  Step-IsNamed (updates {s = s} actor key request) h =
      (update_own_profile-IsNamed actor key request).preserves s h
  Step-IsNamed (rotates {s = s} request) h =
      (Preserves-rotate (frame_statements IsNamed-frame) host request).preserves s h
  Step-IsNamed (revokes {s = s} request) h =
      (Preserves-revoke (frame_statements IsNamed-frame) host request).preserves s h
  Step-IsNamed (recovers {s = s} request) h =
      (Preserves-recover_principal (frame_statements IsNamed-frame) host request).preserves s h
  Step-IsNamed (opens {s = s} request) h =
      (Preserves-create_space (frame_statements IsNamed-frame) host request).preserves s h
  Step-IsNamed (joins {s = s} request) h =
      (Preserves-set_membership (frame_statements IsNamed-frame) host request).preserves s h

  -- Over every sequence of administrative operations, returning or raising, each handle and each
  -- principal's id stays unique, no principal's id is a handle, and each principal has exactly one current handle.
  pub Steps-IsNamed : (s t : Store) → Steps host s t → IsNamed s.db → IsNamed t.db
  Steps-IsNamed s t done h = h
  Steps-IsNamed s t (after step steps) h = Steps-IsNamed _ t steps (Step-IsNamed step h)
