-- ===== src/Journal/Principals/Names.antt =====
-- crates/journal-service/src/bootstrap.rs: a handle names one principal for ever, each principal has
-- one current handle, and no principal's id is a handle.
use agent_journal.Prelude.{
  count_snoc_other, ap, count_snoc_own, any_snoc, ◌∙◌, sym, count_snoc_le, subst, ◌≤◌, ◌≡◌, Text,
  [], ◌∷◌, ◌++◌, Bool, true, false, any, count, same, same_iff, Bool-cases, arith, inl, inr,
}
use agent_journal.Journal.Schema.{Db, PrincipalRow, NameRow, current}
use agent_journal.Journal.Principals.{is_name, is_principal, is_current_of, is_current}

abbrev pub has_id : Text → PrincipalRow → Bool
has_id id p = same p.id id

abbrev pub has_name : Text → NameRow → Bool
has_name name n = same n.name name

pub record IsNamed (db : Db) : Type 0 where
  pub id_once : (id : Text) → count (has_id id) db.principals ≤ 1
  pub name_once : (name : Text) → count (has_name name) db.principal_names ≤ 1
  pub unshadowed : (name : Text) → is_name db name ≡ true → is_principal db name ≡ false
  pub one_current :
      (id : Text) → is_principal db id ≡ true → count (is_current_of id) db.principal_names ≡ 1

-- The principal and its current name are new, and are put at the ends of their tables.
pub record IsAdded (id handle : Text) (before after : Db) : Type 0 where
  pub principal : PrincipalRow
  pub name : NameRow
  pub principal_id : principal.id ≡ id
  pub name_name : name.name ≡ handle
  pub name_principal : name.principal_id ≡ id
  pub name_current : name.kind ≡ current
  pub principals : after.principals ≡ before.principals ++ (principal ∷ [])
  pub names : after.principal_names ≡ before.principal_names ++ (name ∷ [])
  pub id_free : is_principal before id ≡ false
  pub id_unnamed : is_name before id ≡ false
  pub handle_free : is_name before handle ≡ false
  pub handle_no_id : any (has_id handle) (before.principals ++ (principal ∷ [])) ≡ false
  pub no_current : any (is_current_of id) before.principal_names ≡ false

has_id-cong : (a b : Text) (db : Db) → a ≡ b → is_principal db a ≡ false → is_principal db b ≡ false
has_id-cong a b db e h = subst (λ x. is_principal db x ≡ false) e h

is_name-cong : (a b : Text) (db : Db) → a ≡ b → is_name db a ≡ false → is_name db b ≡ false
is_name-cong a b db e h = subst (λ x. is_name db x ≡ false) e h

module _ (id handle : Text) (before after : Db) (a : IsAdded id handle before after)
    (h : IsNamed before) where
  added_id : (x : Text) → has_id x a.principal ≡ true → id ≡ x
  added_id x e = sym a.principal_id ∙ (same_iff a.principal.id x).0 e

  added_name : (x : Text) → has_name x a.name ≡ true → handle ≡ x
  added_name x e = sym a.name_name ∙ (same_iff a.name.name x).0 e

  not_added : (x : Text) → is_name before x ≡ true → has_id x a.principal ≡ false
  not_added x k = elim (Bool-cases (has_id x a.principal)) [
    | inl e ↦ let free = is_name-cong id x before (added_id x e) a.id_unnamed in absurd (cc)
    | inr e ↦ e
  ]

  added_unshadowed : (x : Text) → is_name after x ≡ true → is_principal after x ≡ false
  added_unshadowed x k = elim (Bool-cases (has_name x a.name)) [
    | inl e ↦ rw a.principals (
        subst (λ y. any (has_id y) (before.principals ++ (a.principal ∷ [])) ≡ false)
          (added_name x e) a.handle_no_id)
    | inr e ↦
        let old : is_name before x ≡ true =
          sym (any_snoc (has_name x) before.principal_names a.name e)
          ∙ ap (any (has_name x)) (sym a.names)
          ∙ k in
        rw (a.principals, any_snoc (has_id x) before.principals a.principal (not_added x old))
          (h.unshadowed x old)
  ]

  current_of_added : (x : Text) → is_current_of x a.name ≡ has_id x a.principal
  unfolding is_current
  current_of_added x = rw (a.name_current, a.name_principal, a.principal_id) (ground arith)

  added_current :
      (x : Text) → is_principal after x ≡ true → count (is_current_of x) after.principal_names ≡ 1
  unfolding is_current
  added_current x k = elim (Bool-cases (has_id x a.principal)) [
    | inl e ↦ rw a.names (
        count_snoc_own (is_current_of x) before.principal_names a.name (current_of_added x ∙ e) (
          subst (λ y. any (is_current_of y) before.principal_names ≡ false) (added_id x e)
            a.no_current))
    | inr e ↦
        let old : is_principal before x ≡ true =
          sym (any_snoc (has_id x) before.principals a.principal e)
          ∙ ap (any (has_id x)) (sym a.principals)
          ∙ k in
        rw
          (
            a.names,
            count_snoc_other (is_current_of x) before.principal_names a.name
                (current_of_added x ∙ e),
          )
          (h.one_current x old)
  ]

  pub IsAdded-IsNamed : IsNamed after
  IsAdded-IsNamed = record {
    id_once = λ x. rw a.principals (
        count_snoc_le (has_id x) before.principals a.principal (h.id_once x)
          (λ e. has_id-cong id x before (added_id x e) a.id_free));
    name_once = λ x. rw a.names (
        count_snoc_le (has_name x) before.principal_names a.name (h.name_once x)
          (λ e. is_name-cong handle x before (added_name x e) a.handle_free));
    unshadowed = added_unshadowed;
    one_current = added_current;
  }
