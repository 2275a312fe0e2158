-- ===== src/Protocol/Decimal.antt =====
-- The decimal text of a `u64`, and the reading of it by `str::parse`, which takes a leading plus and
-- refuses what does not fit (used by crates/journal-protocol/src/query.rs).
use agent_journal.Prelude.{
  ◌≡◌, refl, sym, ap, ◌∙◌, ◌<◌, ◌≤◌, ℕ, zero, suc, ◌+◌, ◌-◌, ◌*◌, ◌/◌, ◌%◌, ◌^◌, Text, Option, none,
  some, [], ◌∷◌, ◌++◌, Bool, ◌&&◌, ltb, leb, ◌==◌, if◌then◌else◌, arith, ltb→lt, Bool-cases, inl,
  inr,
}

-- Twenty digits are enough for a `u64`.
unfoldable pub print_digits : ℕ → ℕ → Text
print_digits zero n = []
print_digits (suc fuel) n =
    let rest = print_digits fuel (n / 10) in
    if ltb n 10 then (48 + n) ∷ [] else rest ++ ((48 + n % 10) ∷ [])

abbrev pub print_u64 : ℕ → Text
print_u64 n = print_digits 20 n

abbrev pub is_digit : ℕ → Bool
is_digit c = leb 48 c && leb c 57

unfoldable pub parse_digits : ℕ → Text → Option ℕ
parse_digits n [] = some n
parse_digits n (c ∷ s) =
    let rest = parse_digits (n * 10 + (c - 48)) s in
    if is_digit c && ltb (n * 10 + (c - 48)) (2 ^ 64) then rest else none

-- The digits after an optional plus
abbrev parse_unsigned : Text → Option ℕ
parse_unsigned [] = none
parse_unsigned (c ∷ s) = parse_digits 0 (c ∷ s)

unfoldable pub parse_u64 : Text → Option ℕ
parse_u64 [] = none
parse_u64 (c ∷ s) = if c == 43 then parse_unsigned s else parse_unsigned (c ∷ s)

append_assoc : (xs ys zs : Text) → (xs ++ ys) ++ zs ≡ xs ++ (ys ++ zs)
append_assoc [] ys zs = refl
append_assoc (x ∷ xs) ys zs = ap (◌∷◌ x) (append_assoc xs ys zs)

append_nil : (xs : Text) → xs ++ [] ≡ xs
append_nil [] = refl
append_nil (x ∷ xs) = ap (◌∷◌ x) (append_nil xs)

parse_step :
    (m d : ℕ) (rest : Text)
    → d < 10
    → m * 10 + d < 2 ^ 64
    → parse_digits m ((48 + d) ∷ rest) ≡ parse_digits (m * 10 + d) rest
unfolding parse_digits
parse_step m d rest h k =
    let same_digit : 48 + d - 48 ≡ d = omega arith in rw same_digit (ground (arith, h, k))

parse_digits-print_digits :
    (fuel n : ℕ) (rest : Text)
    → n < 10 ^ fuel
    → n < 2 ^ 64
    → parse_digits 0 (print_digits fuel n ++ rest) ≡ parse_digits n rest
unfolding parse_digits print_digits
parse_digits-print_digits zero n rest h k = ap (λ m. parse_digits m rest) (omega (arith, h))
parse_digits-print_digits (suc fuel) n rest h k = elim (Bool-cases (ltb n 10)) [
  | inl e ↦ rw e (
      parse_step 0 n rest (omega (arith, ltb→lt n 10 e)) (omega (arith, k))
      ∙ ap (λ m. parse_digits m rest) (omega arith))
  | inr e ↦ rw e (
      ap (parse_digits 0) (append_assoc (print_digits fuel (n / 10)) ((48 + n % 10) ∷ []) rest)
      ∙ parse_digits-print_digits fuel (n / 10) ((48 + n % 10) ∷ rest) (omega (arith, h))
          (omega (arith, k))
      ∙ parse_step (n / 10) (n % 10) rest (omega arith) (omega (arith, k))
      ∙ ap (λ m. parse_digits m rest) (omega arith))
]

abbrev StartsWithDigit : Text → Type 0
StartsWithDigit t = (c : ℕ) × (s : Text) × (t ≡ c ∷ s) × (48 ≤ c)

starts_append : (t rest : Text) → StartsWithDigit t → StartsWithDigit (t ++ rest)
starts_append t rest (c, s, e, d) = (c, s ++ rest, ap (λ x. x ++ rest) e, d)

print_digits-StartsWithDigit : (fuel n : ℕ) → StartsWithDigit (print_digits (suc fuel) n)
unfolding print_digits
print_digits-StartsWithDigit zero n = elim (Bool-cases (ltb n 10)) [
  | inl e ↦ (48 + n, [], rw e refl, omega arith)
  | inr e ↦ rw e (48 + n % 10, [], refl, omega arith)
]
print_digits-StartsWithDigit (suc fuel) n =
    let earlier = print_digits-StartsWithDigit fuel (n / 10) in
    elim (Bool-cases (ltb n 10)) [
      | inl e ↦ (48 + n, [], rw e refl, omega arith)
      | inr e ↦ rw e (starts_append (print_digits (suc fuel) (n / 10)) ((48 + n % 10) ∷ []) earlier)
    ]

parse_u64_digits : (t : Text) → StartsWithDigit t → parse_u64 t ≡ parse_digits 0 t
unfolding parse_u64
parse_u64_digits t (c, s, e, d) = rw e (ground (arith, d))

parse_digits-nil : (m : ℕ) → parse_digits m [] ≡ some m
unfolding parse_digits
parse_digits-nil m = refl

-- A `u64` is read back from its decimal text.
pub parse_u64-print_u64 : (n : ℕ) → n < 2 ^ 64 → parse_u64 (print_u64 n) ≡ some n
parse_u64-print_u64 n h =
    parse_u64_digits (print_u64 n) (print_digits-StartsWithDigit 19 n)
    ∙ ap (parse_digits 0) (sym (append_nil (print_u64 n)))
    ∙ parse_digits-print_digits 20 n [] (omega (arith, h)) h
    ∙ parse_digits-nil n
