-- ===== src/Journal/Principals/Edited.antt =====
-- crates/journal-service/src/bootstrap.rs: what `update_own_profile` does to the tables
-- of principals and names.
use agent_journal.Prelude.{
  any-map, ◌≡◌, refl, sym, ap, ◌∙◌, Text, Option, some, none, Bool, true, false, ◌⊎◌, inl, inr,
  arith, map, same,
}
use agent_journal.Domain.Types.{Principal}
use agent_journal.Protocol.Requests.{ProfileUpdateRequest}
use agent_journal.Journal.Schema.{ProfileKeyRow, Db}
use agent_journal.Journal.Tx.{Host, Store, some_or, fail_when}
use agent_journal.Journal.Returns.{
  Returns, Returns-continue, Returns-weaken, Returns-ok, Returns-some_or, Returns-fail_when,
  Returns-now, Kept,
}
use agent_journal.Journal.Principals.{ℕ}
use agent_journal.Journal.Principals.Names.{has_name}
use agent_journal.Journal.Principals.Effects.{
  current_row, SameNames, Returns-insert_name, Returns-secret, Returns-insert_event,
  Returns-insert_profile_key,
}
use agent_journal.Journal.Principals.Profile.{
  replay_or_update, replay_profile, retire, edit, rename, retire_name, update_principal,
  change_profile, new_profile, update_profile_in,
}
use agent_journal.Journal.Principals.Renames.{retire_name_of, IsEdited, IsRenamed}
use agent_journal.Journal.Access.{active_principal}
use agent_journal.Journal.Credentials.{AuthenticatedCredential}
use agent_journal.Journal.Principals.Registered.{Returns-principal_descriptor}

IsRenamed-same :
    (principal old new : Text) (before middle after : Db)
    → IsRenamed principal old new before middle
    → after.principal_names ≡ middle.principal_names
    → IsRenamed principal old new before after
IsRenamed-same principal old new before middle after r e = record {
  row = r.row;
  row_name = r.row_name;
  row_principal = r.row_principal;
  row_current = r.row_current;
  names = e ∙ r.names;
  new_no_id = r.new_no_id;
  new_free = r.new_free;
  no_current = r.no_current;
}

IsEdited-same :
    (principal old : Text) (request : ProfileUpdateRequest) (before middle after : Db)
    → IsEdited principal old request before middle
    → SameNames middle after
    → IsEdited principal old request before after
IsEdited-same principal old request before middle after a e = record {
  principals = e.principals ∙ a.principals;
  names = elim a.names [
    | inl n ↦ inl (e.names ∙ n)
    | inr r ↦ inr (IsRenamed-same principal old request.handle before middle after r e.names)
  ];
}

IsEdited-steps :
    (principal old : Text) (request : ProfileUpdateRequest) (before middle after : Db)
    → (middle.principals ≡ before.principals)
      × ((middle.principal_names ≡ before.principal_names)
          ⊎ IsRenamed principal old request.handle before middle)
    → (after.principals ≡ map (edit principal request) middle.principals)
      × (after.principal_names ≡ middle.principal_names)
    → IsEdited principal old request before after
IsEdited-steps principal old request before middle after (p, names) (q, same_names) = record {
  principals = q ∙ ap (map (edit principal request)) p;
  names = elim names [
    | inl e ↦ inl (same_names ∙ e)
    | inr r ↦ inr (IsRenamed-same principal old request.handle before middle after r same_names)
  ];
}

module _ (host : Host) where
  Returns-rename :
      (unchanged : Bool) (old new principal t : Text) (s : Store)
      → Returns (rename unchanged old new principal t s) (λ _ s'.
        (s'.db.principals ≡ s.db.principals)
        × ((s'.db.principal_names ≡ s.db.principal_names) ⊎ IsRenamed principal old new s.db s'.db))
  unfolding rename retire_name
  Returns-rename true old new principal t s = Returns-ok _ _ (refl, inl refl)
  Returns-rename false old new principal t s =
      Returns-weaken (Returns-insert_name new principal t _) λ _ s2 (f, g, k, e). (
        ap (λ (d : Db). d.principals) e,
        inr (record {
          row = current_row new principal t;
          row_name = refl;
          row_principal = refl;
          row_current = refl;
          names = ap (λ (d : Db). d.principal_names) e;
          new_no_id = f;
          new_free =
              sym (
                any-map (has_name new) (retire old principal) s.db.principal_names
                  (retire_name_of old principal new))
              ∙ g;
          no_current = k;
        }),
      )

  Returns-update_principal :
      (principal : Text) (request : ProfileUpdateRequest) (s : Store)
      → Returns (update_principal principal request s) (λ _ s'.
        (s'.db.principals ≡ map (edit principal request) s.db.principals)
        × (s'.db.principal_names ≡ s.db.principal_names))
  unfolding update_principal fail_when
  Returns-update_principal principal request s = record { returns = λ a s' h. ground arith }

  Returns-change_profile :
      (principal : Text) (request : ProfileUpdateRequest) (t : Text) (s : Store)
      → Returns
          (change_profile host principal request t s)
          (λ _ s'. (old : Text) × IsEdited principal old request s.db s'.db)
  unfolding change_profile
  Returns-change_profile principal request t s =
      Returns-continue {A = Text × ℕ} _ _ (Returns-some_or _ _ s) λ profile s1 e1.
        Returns-continue _ _ (Returns-fail_when _ _ s1) λ _ s2 e2.
          Returns-continue _ _
            (Returns-rename (same profile.0 request.handle) profile.0 request.handle principal t s2)
            λ _ s3 p. Returns-continue _ _ (Returns-update_principal principal request s3) λ _ s4 q.
              Returns-continue {A = Principal} _ _ (Returns-principal_descriptor host principal s4)
                λ descriptor s5 e5. Returns-continue _ _ (Returns-secret host s5) λ suffix s6 e6.
                  Returns-continue _ _ (Returns-insert_event _ s6) λ _ s7 e7. Returns-ok _ _ (
                    profile.0,
                    rw⁻¹ (ap (λ (x : Store). x.db) (e2.1 ∙ e1.1)) (
                        IsEdited-steps principal profile.0 request s2.db s3.db s7.db p (
                          e7.principals ∙ ap (λ (d : Db). d.principals) (e6 ∙ e5) ∙ q.0,
                          e7.names ∙ ap (λ (d : Db). d.principal_names) (e6 ∙ e5) ∙ q.1,
                        )),
                  )

  Returns-new_profile :
      (principal key hash : Text) (request : ProfileUpdateRequest) (t : Text) (s : Store)
      → Returns
          (new_profile host principal key hash request t s)
          (λ _ s'. (old : Text) × IsEdited principal old request s.db s'.db)
  unfolding new_profile
  Returns-new_profile principal key hash request t s =
      Returns-continue {A = Principal} _ _ (Returns-change_profile principal request t s)
        λ descriptor s1 (old, edited).
          Returns-continue _ _ (Returns-some_or _ _ s1) λ response s2 e2.
            Returns-continue _ _ (Returns-insert_profile_key _ s2) λ _ s3 e3. Returns-ok _ _ (
              old,
              IsEdited-same principal old request s.db s1.db s3.db edited
                  (record { principals = cc; names = cc }),
            )

  Returns-replay_profile :
      (hash : Text) (previous : ProfileKeyRow) (s : Store)
      → Returns (replay_profile host hash previous s) (Kept s)
  unfolding replay_profile some_or fail_when
  Returns-replay_profile hash previous s = record { returns = λ a s' h. ground arith }

  Returns-replay_or_update :
      (principal key hash : Text) (request : ProfileUpdateRequest) (t : Text) (s : Store)
      (found : Option ProfileKeyRow)
      → Returns
          (replay_or_update host principal key hash request t found s)
          (λ _ s'. SameNames s.db s'.db ⊎ (old : Text) × IsEdited principal old request s.db s'.db)
  Returns-replay_or_update principal key hash request t s (some previous) =
      Returns-weaken (Returns-replay_profile hash previous s)
        λ _ s1 e1. inl (record { principals = cc; names = cc })
  Returns-replay_or_update principal key hash request t s none =
      Returns-weaken (Returns-new_profile principal key hash request t s) λ _ s1 edited. inr edited

  Returns-active_principal :
      (selector : Text) (s : Store) → Returns (active_principal selector s) (Kept s)
  unfolding active_principal some_or
  Returns-active_principal selector s = record { returns = λ a s' h. ground arith }

  pub Returns-update_profile_in :
      (actor : AuthenticatedCredential) (key hash : Text) (request : ProfileUpdateRequest)
      (s : Store)
      → Returns (update_profile_in host actor key hash request s) (λ _ s'.
        SameNames s.db s'.db ⊎ (old : Text) × IsEdited actor.principal_id old request s.db s'.db)
  unfolding update_profile_in
  Returns-update_profile_in actor key hash request s =
      Returns-continue _ _ (Returns-now host s) λ t s1 e1.
        Returns-continue _ _ (Returns-active_principal _ s1) λ selected s2 e2.
          Returns-continue _ _ (Returns-fail_when _ _ s2) λ _ s3 e3.
            rw⁻¹ (e1, e2, ap (λ (x : Store). x.db) e3.1)
              (Returns-replay_or_update actor.principal_id key hash request t s3 _)
