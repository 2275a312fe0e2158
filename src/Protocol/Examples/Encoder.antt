-- ===== src/Protocol/Examples/Encoder.antt =====
-- An injective encoder of append requests: each text and list stands behind its length.
use agent_journal.Prelude.{
  ℕ, ◌≡◌, refl, Text, Option, none, some, List, [], ◌∷◌, ◌++◌, length, Result, ok, arith,
}
use agent_journal.Domain.Types.{
  RecordInput, Relation, RelationType, reply_to, supersedes, tombstones, refers_to, acknowledges,
}
use agent_journal.Protocol.Canonical.{CanonicalizationError}
use agent_journal.Protocol.Canonical.Order.{IsEncoder}

abbrev append_text : Text → List ℕ → List ℕ
append_text s rest = length s ∷ (s ++ rest)

splits : (s t r q : Text) → length s ≡ length t → s ++ r ≡ t ++ q → (s ≡ t) × (r ≡ q)
splits [] [] r q n e = (refl, e)
splits [] (c ∷ t) r q n e = absurd (omega arith)
splits (b ∷ s) [] r q n e = absurd (omega arith)
splits (b ∷ s) (c ∷ t) r q n e = ground (arith, splits s t r q)

put_text : Text → List ℕ → List ℕ
put_text = append_text

put_text-injective : (s t r q : Text) → put_text s r ≡ put_text t q → (s ≡ t) × (r ≡ q)
unfolding put_text
put_text-injective s t r q e = ground (arith, splits s t r q)

put_option : Option Text → List ℕ → List ℕ
put_option none rest = 0 ∷ rest
put_option (some s) rest = 1 ∷ put_text s rest

put_option-injective :
    (s t : Option Text) (r q : List ℕ) → put_option s r ≡ put_option t q → (s ≡ t) × (r ≡ q)
unfolding put_option
put_option-injective none none r q e = ground arith
put_option-injective none (some t) r q e = absurd (ground arith)
put_option-injective (some s) none r q e = absurd (ground arith)
put_option-injective (some s) (some t) r q e = ground (arith, put_text-injective s t r q)

put_texts : List Text → List ℕ → List ℕ
put_texts [] rest = 0 ∷ rest
put_texts (s ∷ ss) rest = 1 ∷ put_text s (put_texts ss rest)

put_texts-injective :
    (ss ts : List Text) (r q : List ℕ) → put_texts ss r ≡ put_texts ts q → (ss ≡ ts) × (r ≡ q)
unfolding put_texts
put_texts-injective [] [] r q e = ground arith
put_texts-injective [] (t ∷ ts) r q e = absurd (ground arith)
put_texts-injective (s ∷ ss) [] r q e = absurd (ground arith)
put_texts-injective (s ∷ ss) (t ∷ ts) r q e =
    ground (
      arith,
      put_text-injective s t (put_texts ss r) (put_texts ts q),
      put_texts-injective ss ts r q,
    )

type_code : RelationType → ℕ
type_code reply_to = 0
type_code supersedes = 1
type_code tombstones = 2
type_code refers_to = 3
type_code acknowledges = 4

type_code-injective : (a b : RelationType) → type_code a ≡ type_code b → a ≡ b
unfolding type_code
type_code-injective a b e = ground arith

put_relations : List Relation → List ℕ → List ℕ
put_relations [] rest = 0 ∷ rest
put_relations (r ∷ rs) rest =
    1 ∷ type_code r.relation_type ∷ put_text r.record_id (put_relations rs rest)

put_relations-injective :
    (as' bs : List Relation) (r q : List ℕ)
    → put_relations as' r ≡ put_relations bs q
    → (as' ≡ bs) × (r ≡ q)
unfolding put_relations
put_relations-injective [] [] r q e = ground arith
put_relations-injective [] (b ∷ bs) r q e = absurd (ground arith)
put_relations-injective (a ∷ as') [] r q e = absurd (ground arith)
put_relations-injective (a ∷ as') (b ∷ bs) r q e = ground (
  arith,
  type_code-injective a.relation_type b.relation_type,
  put_text-injective a.record_id b.record_id (put_relations as' r) (put_relations bs q),
  put_relations-injective as' bs r q,
)

bytes_of : RecordInput → List ℕ
bytes_of i = put_text i.kind (
    put_text i.content (
      put_option i.run_id (
        put_texts i.attention
          (put_option i.routing_key (put_relations i.relations (put_option i.title []))))))

bytes_of-injective : (a b : RecordInput) → bytes_of a ≡ bytes_of b → a ≡ b
unfolding bytes_of
bytes_of-injective a b e =
    let (kind, e1) = put_text-injective _ _ _ _ e in
    let (content, e2) = put_text-injective _ _ _ _ e1 in
    let (run_id, e3) = put_option-injective _ _ _ _ e2 in
    let (attention, e4) = put_texts-injective _ _ _ _ e3 in
    let (routing_key, e5) = put_option-injective _ _ _ _ e4 in
    let (relations, e6) = put_relations-injective _ _ _ _ e5 in
    let (title, e7) = put_option-injective _ _ _ _ e6 in
    λ i. record {
      kind = kind i;
      content = content i;
      run_id = run_id i;
      attention = attention i;
      routing_key = routing_key i;
      relations = relations i;
      title = title i;
    }

pub encode_input : RecordInput → Result CanonicalizationError (List ℕ)
unfolding bytes_of
encode_input i = ok (bytes_of i)

ok-injective : (a b : List ℕ) → Path (Result CanonicalizationError (List ℕ)) (ok a) (ok b) → a ≡ b
ok-injective a b e = cc

pub encode_input-IsEncoder : IsEncoder encode_input
unfolding encode_input
encode_input-IsEncoder = record {
  injective = λ r s e. bytes_of-injective r s (ok-injective (bytes_of r) (bytes_of s) e);
}
