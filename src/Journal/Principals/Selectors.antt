-- ===== src/Journal/Principals/Selectors.antt =====
-- crates/journal-service/src/bootstrap.rs: a change of a profile leaves every selector, an old handle
-- among them, with the principal that it had.
use agent_journal.Prelude.{
  find-cong, sym, ap, ◌∙◌, subst, refl, ◌&&◌, find, some, none, ◌≡◌, Text, [], ◌∷◌, Bool, true,
  false, map, same, Bool-cases, Option-cases, arith, inl, inr, find-map, find-append, any_stricter,
  find_stricter,
}
use agent_journal.Protocol.Requests.{ProfileUpdateRequest}
use agent_journal.Journal.Schema.{Db, NameRow}
use agent_journal.Journal.Access.{is_active, select_principal, named}
use agent_journal.Journal.Principals.{is_name, is_principal, is_current}
use agent_journal.Journal.Principals.Names.{has_id, has_name}
use agent_journal.Journal.Principals.Profile.{retire}
use agent_journal.Journal.Principals.Renames.{
  IsEdited, IsRenamed, edited_is_active, renamed_name, renamed_is_name,
}

abbrev selects : Db → Text → NameRow → Bool
selects db selector n = same n.name selector && is_active db n.principal_id

module _ (principal old : Text) (request : ProfileUpdateRequest) (before after : Db)
    (a : IsEdited principal old request before after) where
  active_after : (x : Text) → is_active after x ≡ is_active before x
  active_after x = edited_is_active principal old request before after a x

  module _ (r : IsRenamed principal old request.handle before after) where
    selects_after :
        (selector : Text) (n : NameRow)
        → selects after selector (retire old principal n) ≡ selects before selector n
    unfolding is_current
    selects_after selector n = ground (arith, active_after n.principal_id)

    find_after :
        (selector : Text) (n : NameRow)
        → find (selects before selector) before.principal_names ≡ some n
        → find (selects after selector) after.principal_names ≡ some (retire old principal n)
    find_after selector n k =
        let found =
          find-append (selects after selector) (map (retire old principal) before.principal_names)
            (r.row ∷ []) (retire old principal n)
            (find-map (selects before selector) (selects after selector) (retire old principal)
              before.principal_names n (selects_after selector) k) in
        subst (λ names. find (selects after selector) names ≡ some (retire old principal n))
          (sym r.names) found

    id_unnamed :
        (id : Text)
        → is_active before id ≡ true
        → is_name before id ≡ false
        → is_name after id ≡ false
    unfolding is_active
    id_unnamed id active free = elim (Bool-cases (has_name id r.row)) [
      | inl e ↦
          let shadowed =
            any_stricter (has_id id) _ before.principals (λ p k. ground (arith, k)) active in
          let none_has =
            subst (λ x. is_principal before x ≡ false)
              (renamed_name principal old request before after a r id e) r.new_no_id in
          absurd (cc)
      | inr e ↦ renamed_is_name principal old request before after a r id e ∙ free
    ]

  unnamed_after :
      (id : Text)
      → is_active before id ≡ true
      → is_name before id ≡ false
      → is_name after id ≡ false
  unnamed_after id active free = elim a.names [
    | inl e ↦ rw e free
    | inr r ↦ id_unnamed r id active free
  ]

  name_after :
      (selector : Text) (n : NameRow)
      → find (selects before selector) before.principal_names ≡ some n
      → (m : NameRow) × (find (selects after selector) after.principal_names ≡ some m)
        × m.principal_id ≡ n.principal_id
  unfolding is_active
  name_after selector n k = elim a.names [
    | inl e ↦ (
      n,
      rw e (
          find-cong (selects before selector) (selects after selector) before.principal_names
            (λ m. ground (arith, active_after m.principal_id))
          ∙ k),
      refl,
    )
    | inr r ↦ (retire old principal n, find_after r selector n k, ground arith)
  ]

  -- The selector is the id of an active principal, and no name.
  named_active :
      (selector p : Text)
      → named before selector none ≡ some p
      → (is_active before selector ≡ true) × (is_name before selector ≡ false)
  named_active selector p k = ground (arith, k)

  find_after_unnamed :
      (selector p : Text)
      → named before selector none ≡ some p
      → find (selects after selector) after.principal_names ≡ none
  find_after_unnamed selector p k =
      let (active, free) = named_active selector p k in
      find_stricter (has_name selector) (selects after selector) after.principal_names
        (λ n h. ground (arith, h)) (unnamed_after selector active free)

  named_after :
      (selector p : Text) → named before selector none ≡ some p → named after selector none ≡ some p
  named_after selector p k =
      let (active, free) = named_active selector p k in
      ground (arith, active_after selector, unnamed_after selector active free, k)

  pub select_principal_stable :
      (selector p : Text)
      → select_principal before selector ≡ some p
      → select_principal after selector ≡ some p
  unfolding select_principal
  select_principal_stable selector p k =
      elim (Option-cases (find (selects before selector) before.principal_names)) [
        | inl e ↦
            let direct = sym (ap (named before selector) e) ∙ k in
            ap (named after selector) (find_after_unnamed selector p direct)
            ∙ named_after selector p direct
        | inr (n, e) ↦
            let (m, f, g) = name_after selector n e in
            ap (named after selector) f ∙ ap some g ∙ sym (ap (named before selector) e) ∙ k
      ]
