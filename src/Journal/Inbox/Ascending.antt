-- ===== src/Journal/Inbox/Ascending.antt =====
-- Items in the order of their numbers (crates/journal-service/src/inbox.rs, `inbox`).
use agent_journal.Prelude.{
  ℕ, zero, suc, ◌≤◌, ◌<◌, ◌≡◌, ◌≢◌, refl, ◌∙◌, Text, some, List, [], ◌∷◌, Bool, true, ltb,
  if◌then◌else◌, length, take, drop, last, filter, All, same, Bool-cases, inl, inr, arith,
}
use agent_journal.Journal.Schema.{MailboxRow}
use agent_journal.Journal.Inbox.{insert_by_recipient_seq, sort_by_recipient_seq}

-- In strictly ascending order.
abbrev pub Ascending : List MailboxRow → Type 0
Ascending [] = Unit
Ascending (m ∷ ms) = All (λ (x : MailboxRow). m.recipient_seq < x.recipient_seq) ms × Ascending ms

-- No two items of the principal have the same number.
abbrev pub NoTie : Text → List MailboxRow → Type 0
NoTie actor [] = Unit
NoTie actor (m ∷ ms) =
    All
      (λ (x : MailboxRow).
        same m.recipient_principal_id actor ≡ true
        → same x.recipient_principal_id actor ≡ true
        → m.recipient_seq ≢ x.recipient_seq)
      ms
    × NoTie actor ms

abbrev pub Apart : MailboxRow → List MailboxRow → Type 0
Apart m ms = All (λ (x : MailboxRow). m.recipient_seq ≢ x.recipient_seq) ms

All-insert :
    (P : MailboxRow → Type 0) (x : MailboxRow) (ms : List MailboxRow)
    → P x
    → All P ms
    → All P (insert_by_recipient_seq x ms)
unfolding insert_by_recipient_seq
All-insert P x [] p h = (p, tt)
All-insert P x (m ∷ ms) p h = elim (Bool-cases (ltb m.recipient_seq x.recipient_seq)) [
  | inl e ↦ rw e (h.0, All-insert P x ms p h.1)
  | inr e ↦ rw e (p, h)
]

pub All-sort :
    (P : MailboxRow → Type 0) (ms : List MailboxRow) → All P ms → All P (sort_by_recipient_seq ms)
unfolding sort_by_recipient_seq
All-sort P [] h = tt
All-sort P (m ∷ ms) h = All-insert P m (sort_by_recipient_seq ms) h.0 (All-sort P ms h.1)

All-above :
    (a b : ℕ) (ms : List MailboxRow)
    → a < b
    → All (λ (x : MailboxRow). b < x.recipient_seq) ms
    → All (λ (x : MailboxRow). a < x.recipient_seq) ms
All-above a b [] l h = tt
All-above a b (m ∷ ms) l h = (omega (arith, h.0), All-above a b ms l h.1)

pub insert-Ascending :
    (x : MailboxRow) (ms : List MailboxRow)
    → Ascending ms
    → Apart x ms
    → Ascending (insert_by_recipient_seq x ms)
unfolding insert_by_recipient_seq
insert-Ascending x [] a n = (tt, tt)
insert-Ascending x (m ∷ ms) a n = elim (Bool-cases (ltb m.recipient_seq x.recipient_seq)) [
  | inl e ↦ rw e (All-insert _ x ms (ground arith) a.0, insert-Ascending x ms a.1 n.1)
  | inr e ↦
      let below : x.recipient_seq < m.recipient_seq = ground (arith, e, n.0) in
      rw e ((below, All-above x.recipient_seq m.recipient_seq ms below a.0), a)
]

-- Items beyond a number, of an ascending list.
abbrev pub beyond : ℕ → MailboxRow → Bool
beyond a m = ltb a m.recipient_seq

pub filter-insert :
    (a : ℕ) (x : MailboxRow) (ms : List MailboxRow)
    → Ascending ms
    → filter (beyond a) (insert_by_recipient_seq x ms) ≡ (
        if beyond a x
        then insert_by_recipient_seq x (filter (beyond a) ms)
        else filter (beyond a) ms)
unfolding insert_by_recipient_seq filter
filter-insert a x [] h = ground arith
filter-insert a x (m ∷ ms) h = ground (arith, filter-insert a x ms h.1)

filter_above :
    (a : ℕ) (ms : List MailboxRow)
    → All (λ (x : MailboxRow). a < x.recipient_seq) ms
    → filter (beyond a) ms ≡ ms
unfolding filter
filter_above a [] h = refl
filter_above a (m ∷ ms) h = ground (arith, filter_above a ms h.1, h.0)

filter-skip :
    (a : ℕ) (m : MailboxRow) (ms : List MailboxRow)
    → m.recipient_seq ≤ a
    → filter (beyond a) (m ∷ ms) ≡ filter (beyond a) ms
unfolding filter
filter-skip a m ms h = ground arith

-- What lies beyond the last of the first n items are the others.
pub filter-last :
    (n : ℕ) (ms : List MailboxRow)
    → Ascending ms
    → n < length ms
    → (m : MailboxRow) × (last (take (suc n) ms) ≡ some m)
      × (filter (beyond m.recipient_seq) ms ≡ drop (suc n) ms)
      × All (λ (x : MailboxRow). x.recipient_seq ≤ m.recipient_seq) (take (suc n) ms)
unfolding last filter
filter-last n [] a h = absurd (omega arith)
filter-last zero (m ∷ ms) a h =
    (m, refl, ground (arith, filter_above m.recipient_seq ms a.0), (omega arith, tt))
filter-last (suc n) (m ∷ []) a h = absurd (omega arith)
filter-last (suc n) (m ∷ x ∷ ms) a h =
    let (z, e, f, below) = filter-last n (x ∷ ms) a.1 (omega arith) in
    (
      z,
      e,
      filter-skip z.recipient_seq m (x ∷ ms) (omega (arith, below.0, a.0.0)) ∙ f,
      (omega (arith, below.0, a.0.0), below),
    )
