-- ===== src/Worker/Bounds.antt =====
-- The worker's memory is bounded, whatever the journal and the runtime answer
-- (crates/journal-inbox-worker/src/lib.rs).
use agent_journal.Prelude.{
  ◌||◌, ℕ, ◌+◌, ◌≤◌, ◌≡◌, Text, some, List, [], ◌∷◌, Bool, false, true, not, ◌-◌, ltb, leb, length,
  length-append, length-filter-le, same, Result, ok, err, if◌then◌else◌, Option-cases, Bool-cases,
  List-cases, ap, inl, inr, arith,
}
use agent_journal.Protocol.Pages.{Page, InboxItem}
use agent_journal.Worker.Retry.{no_retry, fail}
use agent_journal.Worker.Envelope.{StaticRoutes, from_item}
use agent_journal.Worker.Failures.{remove, length-insert-le, length-remove-le, length-make_room}
use agent_journal.Worker.State.{
  page_limit, pending_limit, failure_limit, ClientError, EventKind, Pending, Worker, Env, Step,
  next,
}
use agent_journal.Worker.Tick.{
  take_first, settle, fetched, unsettled, fetch_failed, note_failure, acknowledge, retry_pending,
  fill_page, hand_off, handed, deliver_item, deliver, work, tick,
}

-- At most `n` acknowledgments are pending, and the other parts keep their limits.
pub record IsBounded (n : ℕ) (w : Worker) : Type 0 where
  pub pending : length w.pending ≤ n
  pub failures : length w.failures ≤ failure_limit
  pub page : length w.page ≤ page_limit

take_first-length {ℓ} :
    {A : Type ℓ} (p : A → Bool) (xs : List A) (y : A) (ys : List A)
    → take_first p xs ≡ some (y, ys)
    → length ys + 1 ≡ length xs
unfolding take_first
take_first-length p [] y ys h = absurd (cc)
take_first-length p (x ∷ xs) y ys h = elim (Option-cases (take_first p xs)) [
  | inl e ↦ ground arith
  | inr ((z, zs), e) ↦ ground (arith, take_first-length p xs z zs e)
]

module _ {W : Type 0} where
  next-IsBounded :
      {A B : Type 0} {n m : ℕ} (r : Step W A) (f : A → Worker × W → Step W B)
      → n ≤ m
      → IsBounded n r.1.0
      → ((a : A) (σ : Worker × W) → IsBounded n σ.0 → IsBounded m (f a σ).1.0)
      → IsBounded m (next r f).1.0
  next-IsBounded (ok a, σ) f h b k = k a σ b
  next-IsBounded (err e, σ) f h b k = ground arith

  then-IsBounded :
      {A B : Type 0} {n : ℕ} (r : Step W A) (f : A → Worker × W → Step W B)
      → IsBounded n r.1.0
      → ((a : A) (σ : Worker × W) → IsBounded n σ.0 → IsBounded n (f a σ).1.0)
      → IsBounded n (next r f).1.0
  then-IsBounded r f b k = next-IsBounded r f (omega arith) b k

  if-IsBounded :
      {A : Type 0} (n : ℕ) (b : Bool) (x y : Step W A)
      → IsBounded n x.1.0
      → IsBounded n y.1.0
      → IsBounded n (if b then x else y).1.0
  if-IsBounded n true x y p q = p
  if-IsBounded n false x y p q = q

  settle-IsBounded :
      (p : Pending) (now n : ℕ) (w : Worker) (r : Result ClientError (Unit {0}) × W)
      → IsBounded n w
      → IsBounded (n + 1) (settle p now w r).1.0
  unfolding settle unsettled
  settle-IsBounded p now n w (ok _, s) b =
      ground
        (arith, length-filter-le (λ (item : InboxItem). not (same item.inbox_item_id p.id)) w.page)
  settle-IsBounded p now n w (err e, s) b =
      ground (arith, length-append w.pending (record p { retry = fail p.retry now } ∷ []))

  fetched-IsBounded :
      (now n : ℕ) (w : Worker) (r : Result ClientError (Page InboxItem) × W)
      → IsBounded n w
      → IsBounded n (fetched now w r).1.0
  unfolding fetched fetch_failed
  fetched-IsBounded now n w (ok page, s) b = ground arith
  fetched-IsBounded now n w (err e, s) b = ground arith

  note_failure-IsBounded :
      (now n : ℕ) (id : Text) (kind : EventKind) (w : Worker) (s : W)
      → IsBounded n w
      → IsBounded n (note_failure now id kind w s).1.0
  unfolding note_failure
  note_failure-IsBounded now n id kind w s b =
      grind (arith, length-insert-le, length-make_room, length-remove-le id w.failures)

module _ {W : Type 0} (env : Env W) (quote : Text → Text) (routes : StaticRoutes) where
  retry_pending-IsBounded :
      (now n : ℕ) (w : Worker) (s : W)
      → IsBounded n w
      → IsBounded n (retry_pending env now (w, s)).1.0
  unfolding retry_pending acknowledge
  retry_pending-IsBounded now n w s b =
      elim (Option-cases (take_first (λ (p : Pending). leb p.retry.after now) w.pending)) [
        | inl e ↦ rw (e, retry_pending) b
        | inr ((p, rest), e) ↦
            let short : length rest + 1 ≤ n =
              omega (arith, b.pending, take_first-length _ w.pending p rest e) in
            let e' : length rest + 1 ≡ length w.pending = take_first-length _ w.pending p rest e in
            let smaller : IsBounded (n - 1) (record w { pending = rest }) = ground arith in
            let bounded : IsBounded n (acknowledge env p now (record w { pending = rest }, s)).1.0 =
              ground (
                arith,
                settle-IsBounded p now (n - 1) (record w { pending = rest })
                    (env.acknowledge p.id s) smaller,
              ) in
            rw (e, retry_pending) (then-IsBounded _ _ bounded (λ a σ k. k))
      ]

  fill_page-IsBounded :
      (now n : ℕ) (w : Worker) (s : W) → IsBounded n w → IsBounded n (fill_page env now (w, s)).1.0
  unfolding fill_page
  fill_page-IsBounded now n w s b =
      ground (arith, fetched-IsBounded now n w (env.fetch w.cursor s) b)

  handed-IsBounded :
      (now n : ℕ) (id : Text) (w : Worker) (r : Result EventKind Text × W)
      → IsBounded n w
      → IsBounded (n + 1) (handed env now id w r).1.0
  unfolding handed acknowledge
  handed-IsBounded now n id w (err kind, s) b =
      ground (arith, note_failure-IsBounded now n id kind w s b)
  handed-IsBounded now n id w (ok receipt, s) b =
      let smaller : IsBounded n (record w { failures = remove id w.failures }) =
        ground (arith, length-remove-le id w.failures) in
      then-IsBounded _ _
        (settle-IsBounded (record { id = id; retry = no_retry }) now n
          (record w { failures = remove id w.failures }) (env.acknowledge id s) smaller)
        (λ a σ k. k)

  deliver_item-IsBounded :
      (now n : ℕ) (item : InboxItem) (w : Worker) (s : W)
      → IsBounded n w
      → IsBounded (n + 1) (deliver_item env quote routes now item w s).1.0
  unfolding deliver_item
  deliver_item-IsBounded now n item w s b = ground (
    arith,
    handed-IsBounded now n item.inbox_item_id w (hand_off env quote routes (from_item item) s) b,
  )

  deliver-IsBounded :
      (now n : ℕ) (w : Worker) (s : W)
      → IsBounded n w
      → IsBounded (n + 1) (deliver env quote routes now (w, s)).1.0
  unfolding deliver
  deliver-IsBounded now n w s b = elim (List-cases w.page) [
    | inl e ↦ rw (e, deliver) (ground arith)
    | inr (item, rest, e) ↦
        rw (e, deliver)
          (deliver_item-IsBounded now n item (record w { page = rest }) s
            (ground (arith, ap length e)))
  ]

  work-IsBounded :
      (now n : ℕ) (w : Worker) (s : W)
      → IsBounded n w
      → IsBounded (n + 1) (work env quote routes now (w, s)).1.0
  unfolding work
  work-IsBounded now n w s b =
      next-IsBounded (fill_page env now (w, s)) _ (omega arith) (fill_page-IsBounded now n w s b)
        λ (events, stop) (w', s') b'.
          if-IsBounded (n + 1) stop _ _ (ground arith)
            (then-IsBounded _ _ (deliver-IsBounded now n w' s' b') (λ a σ k. k))

  -- A tick, whether it returns or raises, keeps at most 100 pending acknowledgments, 4096 failed
  -- items and 50 items of the page, whatever the journal and the runtime answer.
  pub tick-IsBounded :
      (now : ℕ) (w : Worker) (s : W)
      → IsBounded pending_limit w
      → IsBounded pending_limit (tick env quote routes now (w, s)).1.0
  unfolding tick
  tick-IsBounded now w s b = if-IsBounded pending_limit (ltb now w.central.after) _ _ b (
      next-IsBounded (retry_pending env now (w, s)) _ (omega arith)
        (retry_pending-IsBounded now pending_limit w s b)
        λ (events, stop) (w', s') b'.
          elim (Bool-cases (stop || leb pending_limit (length w'.pending))) [
            | inl e ↦ rw e b'
            | inr e ↦
                rw e (then-IsBounded _ _ (work-IsBounded now 99 w' s' (ground arith)) (λ a σ k. k))
          ])
