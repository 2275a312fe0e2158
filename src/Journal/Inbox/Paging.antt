-- ===== src/Journal/Inbox/Paging.antt =====
-- Following the cursors of an inbox skips no item and repeats none (crates/journal-service/src/inbox.rs,
-- `inbox`).
use agent_journal.Prelude.{
  filter_lem, All-take, ℕ, suc, ◌≤◌, ◌<◌, ◌≡◌, ◌≢◌, refl, sym, ap, ◌∙◌, Text, some, List, [], ◌∷◌,
  Bool, true, ◌&&◌, ltb, leb, length, take, drop, last, filter, All, same, Bool-cases, inl, inr,
  arith,
}
use agent_journal.Protocol.Pages.{InboxState}
use agent_journal.Journal.Schema.{Db, MailboxRow}
use agent_journal.Journal.Inbox.{
  in_state, is_joined, insert_by_recipient_seq, sort_by_recipient_seq, select_items,
}
use agent_journal.Journal.Inbox.Ascending.{
  Ascending, NoTie, Apart, beyond, All-sort, insert-Ascending, filter-insert, filter-last,
}

-- The condition of the query, without its lower end and with it.
abbrev fits : Db → Text → InboxState → ℕ → ℕ → MailboxRow → Bool
fits db actor state after upper m =
    (same m.recipient_principal_id actor && (in_state state m && is_joined db m))
    && (ltb after m.recipient_seq && leb m.recipient_seq upper)

fits-filter :
    (db : Db) (actor : Text) (state : InboxState) (after later upper : ℕ) (ms : List MailboxRow)
    → after ≤ later
    → filter (fits db actor state later upper) ms
      ≡ filter (beyond later) (filter (fits db actor state after upper) ms)
unfolding filter
fits-filter db actor state after later upper [] h = refl
fits-filter db actor state after later upper (m ∷ ms) h =
    ground (arith, fits-filter db actor state after later upper ms h)

fits-Apart :
    (db : Db) (actor : Text) (state : InboxState) (after upper : ℕ) (m : MailboxRow)
    (ms : List MailboxRow)
    → same m.recipient_principal_id actor ≡ true
    → All
        (λ (x : MailboxRow).
          same m.recipient_principal_id actor ≡ true
          → same x.recipient_principal_id actor ≡ true
          → m.recipient_seq ≢ x.recipient_seq)
        ms
    → Apart m (filter (fits db actor state after upper) ms)
unfolding filter
fits-Apart db actor state after upper m [] own h = tt
fits-Apart db actor state after upper m (x ∷ ms) own h =
    elim (Bool-cases (fits db actor state after upper x)) [
      | inl e ↦ rw e (h.0 own (ground arith), fits-Apart db actor state after upper m ms own h.1)
      | inr e ↦ rw e (fits-Apart db actor state after upper m ms own h.1)
    ]

sort-Ascending :
    (db : Db) (actor : Text) (state : InboxState) (after upper : ℕ) (ms : List MailboxRow)
    → NoTie actor ms
    → Ascending (sort_by_recipient_seq (filter (fits db actor state after upper) ms))
unfolding filter sort_by_recipient_seq
sort-Ascending db actor state after upper [] t = tt
sort-Ascending db actor state after upper (m ∷ ms) t =
    elim (Bool-cases (fits db actor state after upper m)) [
      | inl e ↦ rw e (
          insert-Ascending m _ (sort-Ascending db actor state after upper ms t.1)
            (All-sort _ _ (fits-Apart db actor state after upper m ms (ground arith) t.0)))
      | inr e ↦ rw e (sort-Ascending db actor state after upper ms t.1)
    ]

sort-filter :
    (later : ℕ) (db : Db) (actor : Text) (state : InboxState) (after upper : ℕ)
    (ms : List MailboxRow)
    → NoTie actor ms
    → sort_by_recipient_seq (filter (beyond later) (filter (fits db actor state after upper) ms))
      ≡ filter (beyond later) (sort_by_recipient_seq (filter (fits db actor state after upper) ms))
unfolding filter sort_by_recipient_seq
sort-filter later db actor state after upper [] t = refl
sort-filter later db actor state after upper (m ∷ ms) t =
    let kept = filter (fits db actor state after upper) ms in
    let rest = sort-filter later db actor state after upper ms t.1 in
    let moved =
      filter-insert later m (sort_by_recipient_seq kept)
        (sort-Ascending db actor state after upper ms t.1) in
    elim (Bool-cases (fits db actor state after upper m)) [
      | inr e ↦ rw e rest
      | inl e ↦ rw e (elim (Bool-cases (beyond later m)) [
        | inl b ↦
            rw b (ap (insert_by_recipient_seq m) rest ∙ sym (let moved' = rw b at moved in moved'))
        | inr b ↦ rw b (rest ∙ sym (let moved' = rw b at moved in moved'))
      ])
    ]

last-All :
    (P : MailboxRow → Type 0) (ms : List MailboxRow) (m : MailboxRow)
    → All P ms
    → last ms ≡ some m
    → P m
unfolding last
last-All P [] m h e = absurd (cc)
last-All P (x ∷ []) m h e = let q : x ≡ m = ground arith in rw (sym q) h.0
last-All P (x ∷ y ∷ ms) m h e = last-All P (y ∷ ms) m h.1 e

-- After a page of n + 1 items of the inbox, of more than those, there is a last item, and the query
-- from its number on, to the same bound, finds exactly the items that the page has left, in the
-- same order; if no two items of the principal have the same number.
pub select_items-drop :
    (db : Db) (actor : Text) (state : InboxState) (after upper n : ℕ)
    → NoTie actor db.mailbox_items
    → n < length (select_items db actor state after upper)
    → (m : MailboxRow) × (last (take (suc n) (select_items db actor state after upper)) ≡ some m)
      × (select_items db actor state m.recipient_seq upper
          ≡ drop (suc n) (select_items db actor state after upper))
unfolding select_items
select_items-drop db actor state after upper n t h =
    let kept = filter (fits db actor state after upper) db.mailbox_items in
    let page = sort_by_recipient_seq kept in
    let (m, e, f, below) =
      filter-last n page (sort-Ascending db actor state after upper db.mailbox_items t) h in
    let fit : fits db actor state after upper m ≡ true =
      last-All (λ x. fits db actor state after upper x ≡ true) (take (suc n) page) m
        (All-take _ (suc n) page
          (All-sort _ kept (filter_lem (fits db actor state after upper) db.mailbox_items)))
        e in
    (
      m,
      e,
      ap sort_by_recipient_seq (
            fits-filter db actor state after m.recipient_seq upper db.mailbox_items
              (ground (arith, fit)))
          ∙ sort-filter m.recipient_seq db actor state after upper db.mailbox_items t
          ∙ f,
    )
