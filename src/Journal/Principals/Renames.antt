-- ===== src/Journal/Principals/Renames.antt =====
-- crates/journal-service/src/bootstrap.rs: what a profile's change does to the names, and that every
-- selector keeps its principal.
use agent_journal.Prelude.{
  sym, ap, ◌∙◌, subst, refl, ◌⊎◌, ◌≤◌, ◌≡◌, Text, [], ◌∷◌, ◌++◌, true, false, any, count, map, same,
  same_iff, Bool-cases, count-map, any-map, arith, inl, inr, count_snoc_le, count_snoc_own,
  any_snoc, count_snoc_other,
}
use agent_journal.Protocol.Requests.{ProfileUpdateRequest}
use agent_journal.Journal.Schema.{Db, PrincipalRow, NameRow, current}
use agent_journal.Journal.Access.{is_active}
use agent_journal.Journal.Principals.{is_name, is_principal, is_current_of, is_current}
use agent_journal.Journal.Principals.Names.{IsNamed, has_id, has_name}
use agent_journal.Journal.Principals.Profile.{edit, retire}

-- The old handle stays as an alias, and the new one is put at the end of its table.
pub record IsRenamed (principal old new : Text) (before after : Db) : Type 0 where
  pub row : NameRow
  pub row_name : row.name ≡ new
  pub row_principal : row.principal_id ≡ principal
  pub row_current : row.kind ≡ current
  pub names :
      after.principal_names ≡ map (retire old principal) before.principal_names ++ (row ∷ [])
  pub new_no_id : is_principal before new ≡ false
  pub new_free : is_name before new ≡ false
  pub no_current :
      any (is_current_of principal) (map (retire old principal) before.principal_names) ≡ false

-- The effect of a change of the profile.
pub record IsEdited (principal old : Text) (request : ProfileUpdateRequest) (before after : Db)
    : Type 0 where
  pub principals : after.principals ≡ map (edit principal request) before.principals
  pub names :
      (after.principal_names ≡ before.principal_names)
      ⊎ IsRenamed principal old request.handle before after

edit_id :
    (principal : Text) (request : ProfileUpdateRequest) (x : Text) (p : PrincipalRow)
    → has_id x (edit principal request p) ≡ has_id x p
edit_id principal request x p = ground arith

pub retire_name_of :
    (old principal x : Text) (n : NameRow) → has_name x (retire old principal n) ≡ has_name x n
unfolding is_current
retire_name_of old principal x n = ground arith

retire_other :
    (old principal x : Text) (n : NameRow)
    → same principal x ≡ false
    → is_current_of x (retire old principal n) ≡ is_current_of x n
unfolding is_current
retire_other old principal x n h = ground arith

module _ (principal old : Text) (request : ProfileUpdateRequest) (before after : Db)
    (a : IsEdited principal old request before after) where
  edited_is_principal : (x : Text) → is_principal after x ≡ is_principal before x
  edited_is_principal x =
      rw a.principals (
        any-map (has_id x) (edit principal request) before.principals (edit_id principal request x))

  pub edited_is_active : (x : Text) → is_active after x ≡ is_active before x
  unfolding is_active
  edited_is_active x =
      rw a.principals (any-map _ (edit principal request) before.principals (λ p. ground arith))

  module _ (r : IsRenamed principal old request.handle before after) where
    pub renamed_name : (x : Text) → has_name x r.row ≡ true → request.handle ≡ x
    renamed_name x e = sym r.row_name ∙ (same_iff r.row.name x).0 e

    retired_is_name :
        (x : Text)
        → any (has_name x) (map (retire old principal) before.principal_names) ≡ is_name before x
    retired_is_name x =
        any-map (has_name x) (retire old principal) before.principal_names
          (retire_name_of old principal x)

    pub renamed_is_name : (x : Text) → has_name x r.row ≡ false → is_name after x ≡ is_name before x
    renamed_is_name x e = rw r.names (
        any_snoc (has_name x) (map (retire old principal) before.principal_names) r.row e
        ∙ retired_is_name x)

    module _ (h : IsNamed before) where
      renamed_once : (x : Text) → count (has_name x) after.principal_names ≤ 1
      renamed_once x = rw r.names (
          count_snoc_le (has_name x) (map (retire old principal) before.principal_names) r.row
            (rw
              (count-map (has_name x) (retire old principal) before.principal_names
                (retire_name_of old principal x))
              (h.name_once x))
            (λ e.
              retired_is_name x
              ∙ subst (λ y. is_name before y ≡ false) (renamed_name x e) r.new_free))

      renamed_unshadowed : (x : Text) → is_name after x ≡ true → is_principal before x ≡ false
      renamed_unshadowed x k = elim (Bool-cases (has_name x r.row)) [
        | inl e ↦ subst (λ y. is_principal before y ≡ false) (renamed_name x e) r.new_no_id
        | inr e ↦ h.unshadowed x (sym (renamed_is_name x e) ∙ k)
      ]

      renamed_current :
          (x : Text)
          → is_principal before x ≡ true
          → count (is_current_of x) after.principal_names ≡ 1
      unfolding is_current
      renamed_current x k = elim (Bool-cases (same principal x)) [
        | inl e ↦
            subst (λ y. count (is_current_of y) after.principal_names ≡ 1)
              ((same_iff principal x).0 e)
              (rw r.names (
                count_snoc_own (is_current_of principal)
                  (map (retire old principal) before.principal_names) r.row
                  (rw (r.row_current, r.row_principal) (ground arith)) r.no_current))
        | inr e ↦
            rw
              (
                r.names,
                count_snoc_other (is_current_of x)
                    (map (retire old principal) before.principal_names) r.row
                    (rw (r.row_current, r.row_principal, e) refl),
                count-map (is_current_of x) (retire old principal) before.principal_names
                    (λ n. retire_other old principal x n e),
              )
              (h.one_current x k)
      ]

  pub IsEdited-IsNamed : IsNamed before → IsNamed after
  IsEdited-IsNamed h = record {
    id_once = λ x.
        rw
          (
            a.principals,
            count-map (has_id x) (edit principal request) before.principals
                (edit_id principal request x),
          )
          (h.id_once x);
    name_once = λ x. elim a.names [ inl e ↦ rw e (h.name_once x) | inr r ↦ renamed_once r h x ];
    unshadowed = λ x k. edited_is_principal x ∙ elim a.names [
      | inl e ↦ h.unshadowed x (ap (any (has_name x)) (sym e) ∙ k)
      | inr r ↦ renamed_unshadowed r h x k
    ];
    one_current = λ x k.
        let old = sym (edited_is_principal x) ∙ k in
        elim a.names [ inl e ↦ rw e (h.one_current x old) | inr r ↦ renamed_current r h x old ];
  }
