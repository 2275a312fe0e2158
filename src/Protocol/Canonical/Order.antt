-- ===== src/Protocol/Canonical/Order.antt =====
-- The canonical form forgets the order of the recipients and nothing else.
use mathlib.Core.List.{Perm, Permᴰ}
use mathlib.Core.List.Perm
use mathlib.Core.Logic.{∥∥₁_elim}
use agent_journal.Prelude.{
  ℕ, ◌≡◌, ◌↔◌, refl, ap, ◌∙◌, Text, Text-discrete, List, [], ◌∷◌, text_lt, text_lt_irrefl,
  text_lt_trans, text_lt_connex, Bool-cases, inl, inr, Result, ok, arith,
}
use agent_journal.Domain.Types.{RecordInput}
use agent_journal.Domain.Validate.{validate}
use agent_journal.Protocol.Canonical.{
  CanonicalizationError, insert_sorted, sort, canonical, canonical_append,
}

insert_sorted-swap :
    (x y : Text) → insert_sorted x (insert_sorted y []) ≡ insert_sorted y (insert_sorted x [])
unfolding insert_sorted
insert_sorted-swap x y = ground (arith, text_lt_connex x y, text_lt_trans x y x, text_lt_irrefl x)

insert_sorted_comm :
    (x y : Text) (l : List Text)
    → insert_sorted x (insert_sorted y l) ≡ insert_sorted y (insert_sorted x l)
unfolding insert_sorted
insert_sorted_comm x y [] = insert_sorted-swap x y
insert_sorted_comm x y (z ∷ l) = ground (
  arith,
  insert_sorted_comm x y l,
  text_lt_connex x y,
  text_lt_trans x y x,
  text_lt_irrefl x,
  text_lt_trans z x y,
  text_lt_trans z y x,
  text_lt_connex x z,
  text_lt_connex y z,
)

sort-Permᴰ : {xs ys : List Text} → Permᴰ xs ys → sort xs ≡ sort ys
unfolding sort
sort-Permᴰ Permᴰ.nil = refl
sort-Permᴰ (Permᴰ.cons {l₁ = xs} {l₂ = ys} e p) = ground (arith, sort-Permᴰ p)
sort-Permᴰ (Permᴰ.swap {a = a} {b = b} {l = l} e f) =
    ground (arith, insert_sorted_comm a b (sort l))
sort-Permᴰ (Permᴰ.trans p q) = sort-Permᴰ p ∙ sort-Permᴰ q

Texts-set : IsSet (List Text)
Texts-set = hlevel Text-discrete

pub sort-perm-eq : {xs ys : List Text} → Perm xs ys → sort xs ≡ sort ys
sort-perm-eq {xs} {ys} p = ∥∥₁_elim p (Texts-set (sort xs) (sort ys)) sort-Permᴰ

insert_sorted-perm : (x : Text) (l : List Text) → Perm (insert_sorted x l) (x ∷ l)
unfolding insert_sorted
insert_sorted-perm x [] = Perm.rfl
insert_sorted-perm x (y ∷ l) = elim (Bool-cases (text_lt y x)) [
  | inl e ↦ rw e (Perm.trans (Perm.cons y (insert_sorted-perm x l)) (Perm.swap x y l))
  | inr e ↦ rw e Perm.rfl
]

pub sort-perm : (xs : List Text) → Perm (sort xs) xs
unfolding sort
sort-perm [] = Perm.rfl
sort-perm (x ∷ xs) = Perm.trans (insert_sorted-perm x (sort xs)) (Perm.cons x (sort-perm xs))

-- What is assumed of the JSON encoder: it encodes different requests differently.
pub record IsEncoder (to_vec : RecordInput → Result CanonicalizationError (List ℕ)) : Type 0 where
  pub injective : (r s : RecordInput) → to_vec r ≡ to_vec s → r ≡ s

-- The two requests agree but for the order of their recipients.
abbrev pub SameAppend : RecordInput → RecordInput → Type 0
SameAppend a b = Perm a.attention b.attention × (record a { attention = b.attention } ≡ b)

module _ (to_vec : RecordInput → Result CanonicalizationError (List ℕ)) where
  canonical-SameAppend : (a b : RecordInput) → canonical a ≡ canonical b → SameAppend a b
  unfolding canonical
  canonical-SameAppend a b e =
      let sorted = ap (λ (r : RecordInput). r.attention) e in
      (
        Perm.trans (Perm.symm (sort-perm a.attention)) (rw sorted (sort-perm b.attention)),
        ap (λ (r : RecordInput). record r { attention = b.attention }) e,
      )

  SameAppend-canonical : (a b : RecordInput) → SameAppend a b → canonical a ≡ canonical b
  unfolding canonical
  SameAppend-canonical a b (p, e) =
      rw (sort-perm-eq p) (ap (λ (r : RecordInput). record r { attention = sort r.attention }) e)

  canonical_append_of_valid :
      (a : RecordInput) → validate a ≡ ok tt → canonical_append to_vec a ≡ to_vec (canonical a)
  unfolding canonical_append
  canonical_append_of_valid a h = rw h

  -- Two valid appends have the same canonical bytes exactly when they differ at most in the order
  -- of their recipients, for an encoder that encodes different requests differently.
  pub canonical_append-eq_iff :
      (enc : IsEncoder to_vec) (a b : RecordInput)
      → validate a ≡ ok tt
      → validate b ≡ ok tt
      → (canonical_append to_vec a ≡ canonical_append to_vec b) ↔ SameAppend a b
  canonical_append-eq_iff enc a b va vb =
      rw (canonical_append_of_valid a va, canonical_append_of_valid b vb)
        (
          λ e. canonical-SameAppend a b (enc.injective (canonical a) (canonical b) e),
          λ s. ap to_vec (SameAppend-canonical a b s),
        )
