-- ===== src/Outbox/Outage.antt =====
-- The drainer's loop while nothing can be published.
use openpay.Base.{
  ℕ, zero, suc, ◌+◌, ◌≤◌, ◌==◌, ◌≡◌, ◌≢◌, ◌∙◌, ap, refl, subst, Bool, true, false, inl, inr, ltb,
  String, Option, none, some, List, [], ◌∷◌, length, arith, if◌then◌else◌, if_true, if_false,
  Bool-cases,
}
use openpay.Outbox.{
  OutboxEvent, Publisher, is_published, claim, failed, mark_failed, mark, sweep, drain_once, drain,
  backlog,
}

failed-is_published :
    (cause : String) (i : ℕ) (e : OutboxEvent) → is_published (failed cause i e) ≡ is_published e
unfolding is_published
failed-is_published cause i e = either (e.id == i)
  where
    either :
        (b : Bool)
        → is_published
            (if b then record e { attempts = e.attempts + 1; last_error = some cause } else e)
          ≡ is_published e
    either true = refl
    either false = refl

mark_failed-backlog :
    (cause : String) (i : ℕ) (rows : List OutboxEvent)
    → backlog (mark_failed cause i rows) ≡ backlog rows
unfolding backlog mark_failed
mark_failed-backlog cause i [] = refl
mark_failed-backlog cause i (e ∷ es) =
    rw (failed-is_published cause i e, mark_failed-backlog cause i es) refl

claim-full : (n : ℕ) (rows : List OutboxEvent) → n ≤ backlog rows → length (claim n rows) ≡ n
unfolding claim backlog
claim-full zero rows h = refl
claim-full (suc n) [] h = omega (arith, h)
claim-full (suc n) (e ∷ es) h = elim (Bool-cases (is_published e)) [
  | inl p ↦
      ap length (if_true _ _ p) ∙ claim-full (suc n) es (subst (λ m. suc n ≤ m) (if_true _ _ p) h)
  | inr p ↦
      ap length (if_false _ _ p)
      ∙ ap suc (claim-full n es (below (subst (λ m. suc n ≤ m) (if_false _ _ p) h)))
]
  where
    below : suc n ≤ suc (backlog es) → n ≤ backlog es
    below h = omega (arith, h)

module _ (publish : Publisher) (now batch : ℕ) (down : (e : OutboxEvent) → publish e ≢ none) where
  marked :
      (o : Option String) (i : ℕ) (rows : List OutboxEvent)
      → o ≢ none
      → backlog (mark publish now batch o i rows) ≡ backlog rows
  marked none i rows h = elim (h refl) [ ]
  marked (some cause) i rows h = mark_failed-backlog cause i rows

  sweep-keeps :
      (es rows : List OutboxEvent) → backlog (sweep publish now batch es rows) ≡ backlog rows
  unfolding sweep
  sweep-keeps [] rows = refl
  sweep-keeps (e ∷ es) rows =
      sweep-keeps es (mark publish now batch (publish e) e.id rows)
      ∙ marked (publish e) e.id rows (down e)

  -- While nothing can be published and a whole batch of events is waiting, the loop that drains before
  -- it waits never ends, however many turns it takes.
  pub drain-never_waits :
      (fuel : ℕ) (rows : List OutboxEvent)
      → batch ≤ backlog rows
      → drain publish now batch fuel rows ≡ none
  unfolding drain drain_once
  drain-never_waits zero rows h = refl
  drain-never_waits (suc fuel) rows h =
      if_false _ _ (is_full (length (claim batch rows)) batch (claim-full batch rows h))
      ∙ drain-never_waits fuel (sweep publish now batch (claim batch rows) rows)
          (omega (arith, h, sweep-keeps (claim batch rows) rows))
    where
      is_full : (m n : ℕ) → m ≡ n → ltb m n ≡ false
      is_full m n h = ground (arith, h)
