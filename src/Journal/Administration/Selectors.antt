-- ===== src/Journal/Administration/Selectors.antt =====
-- crates/journal-service/src/bootstrap.rs: after a rename, the old handle still selects the principal.
use agent_journal.Prelude.{◌≡◌, Text, some, inl, inr}
use agent_journal.Protocol.Requests.{ProfileUpdateRequest}
use agent_journal.Journal.Schema.{Db}
use agent_journal.Journal.Tx.{Host, Store}
use agent_journal.Journal.Access.{select_principal, is_active}
use agent_journal.Journal.Returns.{Returns-weaken}
use agent_journal.Journal.Preserves.{
  Preserves, Preserves-continue, Preserves-lift, Preserves-some_or, Preserves-fail_when,
  Preserves-transaction,
}
use agent_journal.Journal.Principals.Effects.{SameNames}
use agent_journal.Journal.Principals.Profile.{update_own_profile}
use agent_journal.Journal.Principals.Edited.{Returns-update_profile_in}
use agent_journal.Journal.Principals.Selectors.{select_principal_stable}
use agent_journal.Journal.Credentials.{AuthenticatedCredential}

abbrev Selects : Text → Text → Db → Type 0
Selects selector principal db = select_principal db selector ≡ some principal

Selects-frame :
    (selector principal : Text) (before after : Db)
    → SameNames before after
    → Selects selector principal before
    → Selects selector principal after
unfolding select_principal is_active
Selects-frame selector principal before after e h = rw (e.principals, e.names) h

module _ (host : Host) where
  update_own_profile-Selects :
      (actor : AuthenticatedCredential) (key : Text) (request : ProfileUpdateRequest)
      (selector principal : Text)
      → Preserves (Selects selector principal) (update_own_profile host actor key request)
  unfolding update_own_profile
  update_own_profile-Selects actor key request selector principal =
      Preserves-continue _ _ (Preserves-lift _) λ _.
        Preserves-continue _ _ (Preserves-fail_when _ _) λ _.
          Preserves-continue _ _ (Preserves-some_or _ _) λ json. Preserves-transaction host _ λ s h.
            Returns-weaken (Returns-update_profile_in host actor key _ request s) λ _ s' effect.
              elim effect [
                | inl e ↦ Selects-frame selector principal s.db s'.db e h
                | inr (old, edited) ↦
                    select_principal_stable actor.principal_id old request s.db s'.db edited
                      selector principal h
              ]

  -- A change of a profile, a rename among them, leaves every selector that selected a principal, a
  -- handle or an id, selecting that principal, whether it returns or raises.
  pub update_own_profile-selects :
      (actor : AuthenticatedCredential) (key : Text) (request : ProfileUpdateRequest) (s : Store)
      (selector principal : Text)
      → select_principal s.db selector ≡ some principal
      → select_principal (update_own_profile host actor key request s).1.db selector
        ≡ some principal
  update_own_profile-selects actor key request s selector principal h =
      (update_own_profile-Selects actor key request selector principal).preserves s h
