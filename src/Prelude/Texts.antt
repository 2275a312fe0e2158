-- ===== src/Prelude/Texts.antt =====
-- Text as its list of Unicode scalar values: the program counts characters, counts UTF-8 bytes,
-- trims, and compares whole texts. The order of the scalar values is the order of the bytes.
use Prim.Native.Nat.{ℕ, ◌+◌, ◌/◌, ◌%◌, compare, Ordering}
use Prim.Native.Char.{code}
use Prim.Native.String.{String}
use mathlib.Core.Path.{◌≡◌, refl}
use mathlib.Core.Logic.{◌↔◌}
use mathlib.Core.Bool.{Bool, true, false}
use mathlib.Core.List.{List, [], ◌∷◌}
use native.Mathlib.Omega.{arith}
use agent_journal.Prelude.Tests.{ltb, if◌then◌else◌}
unfoldable pub use native.Mathlib.Decide.{ℕ_discrete}

abbrev pub Text : Type 0
Text = List ℕ

abbrev pub text : String → Text
text String.[] = []
text (String.◌∷◌ c s) = code c ∷ text s

-- `str::is_empty`
abbrev pub is_empty : Text → Bool
is_empty [] = true
is_empty (c ∷ s) = false

-- `str::len`: the bytes of the UTF-8 encoding.
abbrev pub char_len : ℕ → ℕ
char_len c = if ltb c 0x80 then 1 else if ltb c 0x800 then 2 else if ltb c 0x10000 then 3 else 4

unfoldable pub byte_len : Text → ℕ
byte_len [] = 0
byte_len (c ∷ s) = char_len c + byte_len s

nil-ne-cons : {a : ℕ} {s : Text} → ¬ (Path Text [] (a ∷ s))
nil-ne-cons e = cc

cons-ne-nil : {a : ℕ} {s : Text} → ¬ (Path Text (a ∷ s) [])
cons-ne-nil e = cc

heads : {a b : ℕ} {s t : Text} → Path Text (a ∷ s) (b ∷ t) → a ≡ b
heads e = cc

tails : {a b : ℕ} {s t : Text} → Path Text (a ∷ s) (b ∷ t) → s ≡ t
tails e = cc

both : {a b : ℕ} {s t : Text} → a ≡ b → s ≡ t → Path Text (a ∷ s) (b ∷ t)
both p q i = p i ∷ q i

unfoldable pub Text-discrete : Discrete Text
unfolding nil-ne-cons cons-ne-nil heads tails both
Text-discrete [] [] = yes refl
Text-discrete [] (b ∷ t) = no nil-ne-cons
Text-discrete (a ∷ s) [] = no cons-ne-nil
Text-discrete (a ∷ s) (b ∷ t) =
    let rest = Text-discrete s t in
    elim (ℕ_discrete a b) [
      | no n ↦ no (λ e. n (heads e))
      | yes p ↦ elim rest [ no n ↦ no (λ e. n (tails e)) | yes q ↦ yes (both p q) ]
    ]

-- Equality as a Boolean; the tactics split on the decision and read the equation.
abbrev pub same : Text → Text → Bool
same a b = elim (Text-discrete a b) [ yes _ ↦ true | no _ ↦ false ]

pub same_iff : (a b : Text) → (same a b ≡ true) ↔ (a ≡ b)
same_iff a b = ground arith

-- The strict order of texts, byte by byte.
unfoldable pub text_lt : Text → Text → Bool
text_lt [] [] = false
text_lt [] (b ∷ bs) = true
text_lt (a ∷ as') [] = false
text_lt (a ∷ as') (b ∷ bs) = elim (compare a b) [
  | Ordering.lt ↦ true
  | Ordering.eq ↦ text_lt as' bs
  | Ordering.gt ↦ false
]

pub text_lt_irrefl : (a : Text) → text_lt a a ≡ false
unfolding text_lt
text_lt_irrefl [] = refl
text_lt_irrefl (a ∷ as') = ground (arith, text_lt_irrefl as')

pub text_lt_trans : (a b c : Text) → text_lt a b ≡ true → text_lt b c ≡ true → text_lt a c ≡ true
unfolding text_lt
text_lt_trans [] [] c h k = absurd (cc)
text_lt_trans [] (b ∷ bs) [] h k = absurd (cc)
text_lt_trans [] (b ∷ bs) (c ∷ cs) h k = refl
text_lt_trans (a ∷ as') [] c h k = absurd (cc)
text_lt_trans (a ∷ as') (b ∷ bs) [] h k = absurd (cc)
text_lt_trans (a ∷ as') (b ∷ bs) (c ∷ cs) h k = ground (arith, text_lt_trans as' bs cs)

pub text_lt_connex : (a b : Text) → text_lt a b ≡ false → text_lt b a ≡ false → a ≡ b
unfolding text_lt
text_lt_connex [] [] h k = refl
text_lt_connex [] (b ∷ bs) h k = absurd (cc)
text_lt_connex (a ∷ as') [] h k = absurd (cc)
text_lt_connex (a ∷ as') (b ∷ bs) h k = ground (arith, text_lt_connex as' bs)

test_same : same (text "abc") (text "abc") ≡ true
unfolding Text-discrete ℕ_discrete
test_same = refl

-- `str::as_bytes`: the UTF-8 encoding.
abbrev pub utf8_char : ℕ → List ℕ → List ℕ
utf8_char c rest =
    if ltb c 0x80
    then c ∷ rest
    else if ltb c 0x800
    then (0xc0 + c / 64) ∷ (0x80 + c % 64) ∷ rest
    else if ltb c 0x10000
    then (0xe0 + c / 4096) ∷ (0x80 + c / 64 % 64) ∷ (0x80 + c % 64) ∷ rest
    else (0xf0 + c / 262144)
      ∷ (0x80 + c / 4096 % 64)
      ∷ (0x80 + c / 64 % 64)
      ∷ (0x80 + c % 64)
      ∷ rest

unfoldable pub utf8 : Text → List ℕ
utf8 [] = []
utf8 (c ∷ s) = utf8_char c (utf8 s)
