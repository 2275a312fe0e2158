-- ===== src/Domain/Titles.antt =====
-- Trimming a title a second time changes nothing, so that the title an append stores is judged as
-- the submitted one was (crates/journal-domain/src/lib.rs).
use mathlib.Core.List.{reverse, reverse-append, reverse-reverse}
use agent_journal.Prelude.{
  ◌≡◌, refl, sym, ap, ◌∙◌, Text, Option, none, some, [], ◌∷◌, ◌++◌, false, Bool-cases, inl, inr,
  arith,
}
use agent_journal.Domain.Types.{RecordInput}
use agent_journal.Domain.Title.{is_whitespace, trim_start, trim_end, trim, normalize_title}
use agent_journal.Domain.Validate.{validate}

-- The text does not begin with white space.
abbrev pub IsClean : Text → Type 0
IsClean [] = Unit
IsClean (c ∷ s) = is_whitespace c ≡ false

trim_start-IsClean : (s : Text) → IsClean (trim_start s)
unfolding trim_start
trim_start-IsClean [] = tt
trim_start-IsClean (c ∷ s) = ground (arith, trim_start-IsClean s)

trim_start_of_IsClean : (s : Text) → IsClean s → trim_start s ≡ s
unfolding trim_start
trim_start_of_IsClean [] h = refl
trim_start_of_IsClean (c ∷ s) h = ground arith

dropped : (s : Text) → (p : Text) × (p ++ trim_start s ≡ s)
unfolding trim_start
dropped [] = ([], refl)
dropped (c ∷ s) = elim (Bool-cases (is_whitespace c)) [
  | inl e ↦ let (p, h) = dropped s in (c ∷ p, rw e (ap (◌∷◌ c) h))
  | inr e ↦ ([], rw e)
]

IsClean-prefix : (s t : Text) → IsClean (s ++ t) → IsClean s
IsClean-prefix [] t h = tt
IsClean-prefix (c ∷ s) t h = h

trim_end-prefix : (s : Text) → (p : Text) × (trim_end s ++ p ≡ s)
unfolding trim_end
trim_end-prefix s =
    let (p, h) = dropped (reverse s) in
    (reverse p, sym (reverse-append p (trim_start (reverse s))) ∙ ap reverse h ∙ reverse-reverse s)

trim_end-IsClean : (s : Text) → IsClean s → IsClean (trim_end s)
trim_end-IsClean s h = let (p, e) = trim_end-prefix s in IsClean-prefix (trim_end s) p (rw e h)

trim_end_idem : (s : Text) → trim_end (trim_end s) ≡ trim_end s
unfolding trim_end
trim_end_idem s = rw (
  reverse-reverse (trim_start (reverse s)),
  trim_start_of_IsClean (trim_start (reverse s)) (trim_start-IsClean (reverse s)),
)

pub trim-IsClean : (s : Text) → IsClean (trim s)
unfolding trim
trim-IsClean s = trim_end-IsClean (trim_start s) (trim_start-IsClean s)

-- What is left of a trimmed text's end is no white space either.
pub trim-IsClean_end : (s : Text) → IsClean (reverse (trim s))
unfolding trim trim_end
trim-IsClean_end s =
    rw (reverse-reverse (trim_start (reverse (trim_start s))))
      (trim_start-IsClean (reverse (trim_start s)))

pub trim_idem : (s : Text) → trim (trim s) ≡ trim s
unfolding trim
trim_idem s =
    rw (trim_start_of_IsClean (trim_end (trim_start s)) (trim-IsClean s))
      (trim_end_idem (trim_start s))

pub normalize_title_idem :
    (t : Option Text) → normalize_title (normalize_title t) ≡ normalize_title t
unfolding normalize_title
normalize_title_idem none = refl
normalize_title_idem (some s) = ground (arith, trim_idem s)

-- Validation gives the same verdict, and on refusal the same error, for a request and for the
-- request with its title normalized.
pub validate-normalize_title :
    (input : RecordInput)
    → validate (record input { title = normalize_title input.title }) ≡ validate input
unfolding validate
validate-normalize_title input = rw (normalize_title_idem input.title)
