-- ===== src/Domain/Spec.antt =====
-- What a valid append request is, said without the code's order of tests, and the proof that
-- `validate` of crates/journal-domain/src/lib.rs decides it.
use agent_journal.Prelude.{
  ℕ, suc, ◌+◌, ◌≤◌, ◌≡◌, ◌≢◌, ◌↔◌, refl, Text, String, Option, none, some, List, [], ◌∷◌, Bool,
  false, if◌then◌else◌, length, byte_len, is_empty, any, All, same, ok, arith,
}
use agent_journal.Domain.Types.{
  Relation, RecordInput, max_content_bytes, max_relations, max_attention_recipients,
  max_identifier_chars, max_title_chars,
}
use agent_journal.Domain.Title.{is_control, trim, normalize_title, validate_title}
use agent_journal.Domain.Validate.{
  non_empty, validate_identifier, validate_optional, validate_optional_title, check_attention,
  is_reply, check_relations, validate,
}

abbrev pub IsIdentifier : Text → Type 0
IsIdentifier s = (1 ≤ length s) × (length s ≤ max_identifier_chars)

-- Absent, or at most as long as an identifier; empty is allowed.
abbrev pub IsOptional : Option Text → Type 0
IsOptional none = Unit
IsOptional (some s) = length s ≤ max_identifier_chars

abbrev pub IsTitle : Option Text → Type 0
IsTitle none = Unit
IsTitle (some s) = (length (trim s) ≤ max_title_chars) × All (λ c. is_control c ≡ false) (trim s)

abbrev pub Distinct : List Text → Type 0
Distinct [] = Unit
Distinct (x ∷ xs) = All (λ y. x ≢ y) xs × Distinct xs

pub replies : List Relation → ℕ
unfolding is_reply
replies [] = 0
replies (r ∷ rs) = if is_reply r.relation_type then suc (replies rs) else replies rs

pub record IsValidInput (input : RecordInput) : Type 0 where
  pub kind : IsIdentifier input.kind
  pub content : (1 ≤ byte_len input.content) × (byte_len input.content ≤ max_content_bytes)
  pub relation_count : length input.relations ≤ max_relations
  pub attention_count : length input.attention ≤ max_attention_recipients
  pub recipients : All IsIdentifier input.attention
  pub distinct : Distinct input.attention
  pub run_id : IsOptional input.run_id
  pub targets : All (λ r. IsIdentifier r.record_id) input.relations
  pub one_reply : replies input.relations ≤ 1
  pub routing_key : IsOptional input.routing_key
  pub title : IsTitle input.title

IsIdentifier-iff : (f : String) (s : Text) → (validate_identifier f s ≡ ok tt) ↔ IsIdentifier s
unfolding validate_identifier
IsIdentifier-iff f [] = ground arith
IsIdentifier-iff f (c ∷ s) = ground arith

IsOptional-iff :
    (f : String) (o : Option Text) → (validate_optional f (non_empty o) ≡ ok tt) ↔ IsOptional o
unfolding non_empty
IsOptional-iff f none = (λ _. tt, λ _. refl)
IsOptional-iff f (some []) = ground arith
IsOptional-iff f (some (c ∷ s)) = ground (arith, IsIdentifier-iff f (c ∷ s))

any-All : (p : ℕ → Bool) (s : Text) → (any p s ≡ false) ↔ All (λ c. p c ≡ false) s
unfolding any
any-All p [] = (λ _. tt, λ _. refl)
any-All p (c ∷ s) = ground (arith, any-All p s)

IsTitle-iff : (o : Option Text) → (validate_optional_title (normalize_title o) ≡ ok tt) ↔ IsTitle o
unfolding normalize_title validate_title
IsTitle-iff none = (λ _. tt, λ _. refl)
IsTitle-iff (some s) = ground (arith, any-All is_control (trim s))

any-same-All : (x : Text) (xs : List Text) → (any (same x) xs ≡ false) ↔ All (λ y. x ≢ y) xs
unfolding any
any-same-All x [] = (λ _. tt, λ _. refl)
any-same-All x (y ∷ xs) = ground (arith, any-same-All x xs)

-- No member of the second list is in the first.
abbrev Apart : List Text → List Text → Type 0
Apart seen xs = All (λ x. All (λ y. x ≢ y) seen) xs

cons-Apart :
    (x : Text) (seen xs : List Text) → Apart (x ∷ seen) xs ↔ (All (λ y. x ≢ y) xs × Apart seen xs)
cons-Apart x seen [] = (λ _. (tt, tt), λ _. tt)
cons-Apart x seen (y ∷ xs) = ground (arith, cons-Apart x seen xs)

attention_iff :
    (seen xs : List Text)
    → (check_attention seen xs ≡ ok tt) ↔ (All IsIdentifier xs × Distinct xs × Apart seen xs)
unfolding check_attention
attention_iff seen [] = (λ _. (tt, tt, tt), λ _. refl)
attention_iff seen (x ∷ xs) = ground (
  arith,
  IsIdentifier-iff "attention principal" x,
  any-same-All x seen,
  cons-Apart x seen xs,
  attention_iff (x ∷ seen) xs,
)

relations_iff :
    (count : ℕ) (rs : List Relation)
    → count ≤ 1
    → (check_relations count rs ≡ ok tt)
      ↔ (All (λ r. IsIdentifier r.record_id) rs × (count + replies rs ≤ 1))
unfolding check_relations replies
relations_iff count [] h = ground arith
relations_iff count (r ∷ rs) h = ground (
  arith,
  IsIdentifier-iff "relation record" r.record_id,
  relations_iff count rs h,
  relations_iff (count + 1) rs,
)

content_iff : (s : Text) → (is_empty s ≡ false) ↔ (1 ≤ byte_len s)
unfolding byte_len
content_iff [] = ground arith
content_iff (c ∷ s) = ground arith

Apart-nil : (xs : List Text) → Apart [] xs
Apart-nil [] = tt
Apart-nil (x ∷ xs) = (tt, Apart-nil xs)

module _ (input : RecordInput) where
  validate-IsValidInput : validate input ≡ ok tt → IsValidInput input
  unfolding validate
  validate-IsValidInput h = ground (
    arith,
    IsIdentifier-iff "kind" input.kind,
    content_iff input.content,
    attention_iff [] input.attention,
    IsOptional-iff "run_id" input.run_id,
    relations_iff 0 input.relations,
    IsOptional-iff "routing_key" input.routing_key,
    IsTitle-iff input.title,
  )

  IsValidInput-validate : IsValidInput input → validate input ≡ ok tt
  unfolding validate
  IsValidInput-validate v = ground (
    arith,
    IsIdentifier-iff "kind" input.kind,
    content_iff input.content,
    Apart-nil input.attention,
    attention_iff [] input.attention,
    IsOptional-iff "run_id" input.run_id,
    relations_iff 0 input.relations,
    IsOptional-iff "routing_key" input.routing_key,
    IsTitle-iff input.title,
  )

-- `validate` accepts a request exactly when the request is valid: each identifier has 1 to 128
-- characters, the content 1 to 65536 bytes, there are at most 32 relations with at most one reply,
-- at most 16 distinct recipients, and the trimmed title has at most 200 characters, none a control.
pub validate_iff : (input : RecordInput) → (validate input ≡ ok tt) ↔ IsValidInput input
validate_iff input = (validate-IsValidInput input, IsValidInput-validate input)
