-- ===== src/Prelude/Searches.antt =====
-- What the Boolean searches of a list find, and how many elements satisfy a test.
use Prim.Native.Nat.{◌+◌, ◌≤◌}
use mathlib.Core.Path.{◌≡◌, refl}
use mathlib.Core.Logic.{inl, inr}
use mathlib.Core.Bool.{Bool, true, false, ◌||◌}
use mathlib.Core.List.{List, [], ◌∷◌, ◌++◌, map, Mem, mem-cons, mem-cons_of_mem}
use mathlib.Core.Option.{none, some}
use native.Mathlib.Omega.{arith}
use agent_journal.Prelude.Tests.{Bool-cases}
use agent_journal.Prelude.Lists.{any, find, count}

module _ {ℓ} {A : Type ℓ} where
  pub find-eq-some : (p : A → Bool) (xs : List A) (x : A) → find p xs ≡ some x → p x ≡ true
  unfolding find
  find-eq-some p [] x h = absurd (cc)
  find-eq-some p (y ∷ xs) x h = ground (arith, find-eq-some p xs x)

  pub count-append :
      (p : A → Bool) (front back : List A) → count p (front ++ back) ≡ count p front + count p back
  unfolding count
  count-append p [] back = omega arith
  count-append p (x ∷ front) back = ground (arith, count-append p front back)

  pub any-append :
      (p : A → Bool) (front back : List A) → any p (front ++ back) ≡ (any p front || any p back)
  unfolding any
  any-append p [] back = refl
  any-append p (x ∷ front) back = ground (arith, any-append p front back)

  pub any-count : (p : A → Bool) (xs : List A) → any p xs ≡ false → count p xs ≡ 0
  unfolding any count
  any-count p [] h = refl
  any-count p (x ∷ xs) h = ground (arith, any-count p xs)

  pub count_pos : (p : A → Bool) (xs : List A) → any p xs ≡ true → 1 ≤ count p xs
  unfolding any count
  count_pos p [] h = absurd (cc)
  count_pos p (x ∷ xs) h = ground (arith, count_pos p xs)

  -- A change of the elements that the test does not see.
  pub count-map :
      (p : A → Bool) (f : A → A) (xs : List A)
      → ((x : A) → p (f x) ≡ p x)
      → count p (map f xs) ≡ count p xs
  unfolding count
  count-map p f [] h = refl
  count-map p f (x ∷ xs) h = ground (arith, h x, count-map p f xs h)

  pub any-map :
      (p : A → Bool) (f : A → A) (xs : List A)
      → ((x : A) → p (f x) ≡ p x)
      → any p (map f xs) ≡ any p xs
  unfolding any
  any-map p f [] h = refl
  any-map p f (x ∷ xs) h = ground (arith, h x, any-map p f xs h)

  pub find-Mem : (p : A → Bool) (xs : List A) (x : A) → find p xs ≡ some x → Mem x xs
  unfolding find
  find-Mem p [] x h = absurd (cc)
  find-Mem p (y ∷ xs) x h = elim (Bool-cases (p y)) [
    | inl e ↦ mem-cons.1 ∣ inl (ground (arith, h, e)) ∣₁
    | inr e ↦ mem-cons_of_mem y (find-Mem p xs x (ground (arith, h, e)))
  ]

  pub find-any : (p : A → Bool) (xs : List A) (x : A) → find p xs ≡ some x → any p xs ≡ true
  unfolding find any
  find-any p [] x h = absurd (cc)
  find-any p (y ∷ xs) x h = ground (arith, find-any p xs x)

  pub find-append :
      (p : A → Bool) (front back : List A) (x : A)
      → find p front ≡ some x
      → find p (front ++ back) ≡ some x
  unfolding find
  find-append p [] back x h = absurd (cc)
  find-append p (y ∷ front) back x h = ground (arith, find-append p front back x)

  pub find-append-absent :
      (p : A → Bool) (front back : List A)
      → any p front ≡ false
      → find p (front ++ back) ≡ find p back
  unfolding find any
  find-append-absent p [] back h = refl
  find-append-absent p (y ∷ front) back h = ground (arith, find-append-absent p front back)

  -- At most one satisfies the test, if the new one that does is the first.
  pub count_snoc_le :
      (p : A → Bool) (xs : List A) (x : A)
      → count p xs ≤ 1
      → (p x ≡ true → any p xs ≡ false)
      → count p (xs ++ (x ∷ [])) ≤ 1
  unfolding count
  count_snoc_le p xs x h k = elim (Bool-cases (p x)) [
    | inl e ↦ rw (count-append p xs (x ∷ []), e, any-count p xs (k e)) (omega arith)
    | inr e ↦ rw (count-append p xs (x ∷ []), e) (omega (arith, h))
  ]

  pub any_snoc :
      (p : A → Bool) (xs : List A) (x : A) → p x ≡ false → any p (xs ++ (x ∷ [])) ≡ any p xs
  unfolding any
  any_snoc p [] x h = rw h refl
  any_snoc p (y ∷ xs) x h = rw (any_snoc p xs x h) refl

  pub count_snoc_other :
      (p : A → Bool) (xs : List A) (x : A) → p x ≡ false → count p (xs ++ (x ∷ [])) ≡ count p xs
  unfolding count
  count_snoc_other p [] x h = rw h refl
  count_snoc_other p (y ∷ xs) x h = rw (count_snoc_other p xs x h) refl

  pub count_snoc_own :
      (p : A → Bool) (xs : List A) (x : A)
      → p x ≡ true
      → any p xs ≡ false
      → count p (xs ++ (x ∷ [])) ≡ 1
  unfolding count any
  count_snoc_own p [] x h k = rw h refl
  count_snoc_own p (y ∷ xs) x h k = ground (arith, h, k, count_snoc_own p xs x h)

  pub find-none-any : (p : A → Bool) (xs : List A) → find p xs ≡ none → any p xs ≡ false
  unfolding find any
  find-none-any p [] h = refl
  find-none-any p (x ∷ xs) h = ground (arith, find-none-any p xs)

  pub any-find-none : (p : A → Bool) (xs : List A) → any p xs ≡ false → find p xs ≡ none
  unfolding find any
  any-find-none p [] h = refl
  any-find-none p (x ∷ xs) h = ground (arith, any-find-none p xs)

  -- A test that the change of the elements and another test agree on.
  pub find-map :
      (p q : A → Bool) (f : A → A) (xs : List A) (x : A)
      → ((y : A) → q (f y) ≡ p y)
      → find p xs ≡ some x
      → find q (map f xs) ≡ some (f x)
  unfolding find
  find-map p q f [] x h k = absurd (cc)
  find-map p q f (y ∷ xs) x h k = ground (arith, h y, find-map p q f xs x h)

  -- What no element has, a stricter test finds in none.
  pub find_stricter :
      (p q : A → Bool) (xs : List A)
      → ((x : A) → q x ≡ true → p x ≡ true)
      → any p xs ≡ false
      → find q xs ≡ none
  unfolding any find
  find_stricter p q [] h k = refl
  find_stricter p q (x ∷ xs) h k = ground (arith, h x, find_stricter p q xs h)

  pub any_stricter :
      (p q : A → Bool) (xs : List A)
      → ((x : A) → q x ≡ true → p x ≡ true)
      → any q xs ≡ true
      → any p xs ≡ true
  unfolding any
  any_stricter p q [] h k = absurd (cc)
  any_stricter p q (x ∷ xs) h k = ground (arith, h x, any_stricter p q xs h)

  pub find-cong : (p q : A → Bool) (xs : List A) → ((x : A) → q x ≡ p x) → find q xs ≡ find p xs
  unfolding find
  find-cong p q [] h = refl
  find-cong p q (x ∷ xs) h = ground (arith, h x, find-cong p q xs h)

  pub count-any : (p : A → Bool) (xs : List A) → count p xs ≡ 0 → any p xs ≡ false
  unfolding any count
  count-any p [] h = refl
  count-any p (x ∷ xs) h = ground (arith, h, count-any p xs)

  pub any_none :
      (q p : A → Bool) (xs : List A)
      → ((x : A) → q x ≡ true → p x ≡ true)
      → any p xs ≡ false
      → any q xs ≡ false
  any_none q p xs h none_p = elim (Bool-cases (any q xs)) [
    | inl e ↦ let some_p = any_stricter p q xs h e in absurd (cc)
    | inr e ↦ e
  ]

  -- What finds an element makes any test of that element true of some element.
  pub find-any_of :
      (p q : A → Bool) (xs : List A) (x : A) → find p xs ≡ some x → q x ≡ true → any q xs ≡ true
  unfolding find any
  find-any_of p q [] x e h = absurd (cc)
  find-any_of p q (y ∷ xs) x e h = elim (Bool-cases (p y)) [
    | inl k ↦ let first : y ≡ x = ground (arith, k, e) in rw (first, h) refl
    | inr k ↦ rw (find-any_of p q xs x (ground (arith, k, e)) h) (ground arith)
  ]

module _ {ℓ} {A : Type ℓ} where
  -- If one element at most satisfies a test, a search by a stricter test finds it.
  pub find-once :
      (p q : A → Bool) (xs : List A) (x : A)
      → count p xs ≤ 1
      → ((y : A) → q y ≡ true → p y ≡ true)
      → find q xs ≡ some x
      → find p xs ≡ some x
  unfolding find count
  find-once p q [] x once h e = absurd (cc)
  find-once p q (y ∷ xs) x once h e = elim (Bool-cases (q y)) [
    | inl own ↦ ground (arith, own, h y own, e)
    | inr other ↦ elim (Bool-cases (p y)) [
      | inl taken ↦
          let later : find q xs ≡ some x = ground (arith, other, e) in
          let held = h x (find-eq-some q xs x later) in
          let again = find-once p q xs x (ground (arith, once, taken)) h later in
          let two = count_pos p xs (find-any p xs x again) in
          absurd (ground (arith, once, taken, two))
      | inr free ↦
          let later = find-once p q xs x (ground (arith, once, free)) h in
          ground (arith, free, other, e, later)
    ]
  ]
