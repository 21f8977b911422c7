-- ===== src/Outbox/Drain.antt =====
-- The drainer's loop ends with nothing left, unless a whole batch keeps failing.
use openpay.Base.{
  ℕ, zero, suc, ◌≤◌, ◌<◌, ◌==◌, ◌≡◌, ◌∙◌, sym, ap, refl, subst, Bool, true, false, ◌||◌, ◌&&◌, not,
  inl, inr, ltb, none, some, List, [], ◌∷◌, length, arith, if◌then◌else◌, if_true, if_false,
  Bool-cases, All,
}
use openpay.Outbox.{
  OutboxEvent, Publisher, is_published, claim, published, mark_published, mark, sweep, drain_once,
  drain, backlog,
}

published-is_published :
    (now i : ℕ) (e : OutboxEvent) → is_published e ≡ true → is_published (published now i e) ≡ true
unfolding is_published
published-is_published now i e h = ground (arith, h)

no_truth : false ≡ true → ⊥
no_truth e = cc

not_below : (n : ℕ) → n < 0 → ⊥
not_below n h = omega (arith, h)

no_event : (e : OutboxEvent) (rest : List OutboxEvent) → [] ≡ e ∷ rest → ⊥
no_event e rest h = cc

first_event : (a b : OutboxEvent) (as_ bs : List OutboxEvent) → a ∷ as_ ≡ b ∷ bs → a ≡ b
first_event a b as_ bs h = cc

counted :
    (b c : Bool) (m n : ℕ)
    → (c ≡ true → b ≡ true)
    → m ≤ n
    → (if b then m else suc m) ≤ (if c then n else suc n)
counted true true m n h l = l
counted true false m n h l = omega arith
counted false true m n h l = elim (no_truth (h refl)) [ ]
counted false false m n h l = omega arith

mark_published-backlog :
    (now i : ℕ) (rows : List OutboxEvent) → backlog (mark_published now i rows) ≤ backlog rows
unfolding backlog mark_published
mark_published-backlog now i [] = omega arith
mark_published-backlog now i (e ∷ es) =
    counted _ _ _ _ (published-is_published now i e) (mark_published-backlog now i es)

-- Is an event with this id still to be published?
has_pending : ℕ → List OutboxEvent → Bool
has_pending i [] = false
has_pending i (e ∷ es) = (not (is_published e) && e.id == i) || has_pending i es

published-named :
    (now : ℕ) (e : OutboxEvent) (i : ℕ)
    → (e.id == i) ≡ true
    → is_published (published now i e) ≡ true
unfolding is_published
published-named now e i h = ground (arith, h)

mark_published-less :
    (now i : ℕ) (rows : List OutboxEvent)
    → has_pending i rows ≡ true
    → backlog (mark_published now i rows) < backlog rows
unfolding has_pending backlog mark_published
mark_published-less now i [] h = elim (no_truth h) [ ]
mark_published-less now i (e ∷ es) h =
    fewer (is_published (published now i e)) (is_published e) (e.id == i) (has_pending i es) _ _
      (published-is_published now i e) (published-named now e i) h (mark_published-backlog now i es)
      (mark_published-less now i es)
  where
    fewer :
        (b c d p : Bool) (m n : ℕ)
        → (c ≡ true → b ≡ true)
        → (d ≡ true → b ≡ true)
        → (not c && d) || p ≡ true
        → m ≤ n
        → (p ≡ true → m < n)
        → (if b then m else suc m) < (if c then n else suc n)
    fewer b c d p m n h k e l s = ground (arith, h, k, e, s)

claim-has_pending :
    (n : ℕ) (rows : List OutboxEvent) (e : OutboxEvent) (rest : List OutboxEvent)
    → claim n rows ≡ e ∷ rest
    → has_pending e.id rows ≡ true
unfolding has_pending claim
claim-has_pending zero rows e rest h = elim (no_event e rest h) [ ]
claim-has_pending (suc n) [] e rest h = elim (no_event e rest h) [ ]
claim-has_pending (suc n) (r ∷ rows) e rest h = elim (Bool-cases (is_published r)) [
  | inl p ↦
      later (not (is_published r) && r.id == e.id) _
        (claim-has_pending (suc n) rows e rest (sym (if_true _ _ p) ∙ h))
  | inr p ↦
      let same : r ≡ e = first_event r e (claim n rows) rest (sym (if_false _ _ p) ∙ h) in
      sooner (is_published r) (r.id == e.id) _ p
        (same_id r.id e.id (ap (λ (x : OutboxEvent). x.id) same))
]
  where
    later : (a b : Bool) → b ≡ true → a || b ≡ true
    later a b h = ground (arith, h)

    sooner : (a b c : Bool) → a ≡ false → b ≡ true → (not a && b) || c ≡ true
    sooner a b c h k = ground (arith, h, k)

    same_id : (m n : ℕ) → m ≡ n → (m == n) ≡ true
    same_id m n h = ground (arith, h)

-- Is an event with this id among these?
abbrev names : ℕ → List OutboxEvent → Bool
names i [] = false
names i (e ∷ es) = e.id == i || names i es

abbrev Covered : List OutboxEvent → List OutboxEvent → Type 0
Covered es rows = All (λ r. is_published r || names r.id es ≡ true) rows

Covered-more :
    (e : OutboxEvent) (es rows : List OutboxEvent) → Covered es rows → Covered (e ∷ es) rows
Covered-more e es [] c = tt
Covered-more e es (r ∷ rows) (h, c) =
    (more (is_published r) (e.id == r.id) (names r.id es) h, Covered-more e es rows c)
  where
    more : (a b c : Bool) → a || c ≡ true → a || (b || c) ≡ true
    more a b c h = ground (arith, h)

-- A claim that is not full has every event that is still to be published.
claim-Covered :
    (n : ℕ) (rows : List OutboxEvent) → length (claim n rows) < n → Covered (claim n rows) rows
unfolding claim
claim-Covered zero rows h = elim (not_below (length (claim 0 rows)) h) [ ]
claim-Covered (suc n) [] h = tt
claim-Covered (suc n) (r ∷ rows) h = elim (Bool-cases (is_published r)) [
  | inl p ↦
      let same : claim (suc n) rows ≡ claim (suc n) (r ∷ rows) = sym (if_true _ _ p) in
      (
        done (is_published r) _ p,
        subst (λ es. Covered es rows) same
            (claim-Covered (suc n) rows (subst (λ es. length es < suc n) (sym same) h)),
      )
  | inr p ↦
      let same : r ∷ claim n rows ≡ claim (suc n) (r ∷ rows) = sym (if_false _ _ p) in
      let c = claim-Covered n rows (below (subst (λ es. length es < suc n) (sym same) h)) in
      (
        subst (λ es. is_published r || names r.id es ≡ true) same
            (there (is_published r) (r.id == r.id) _ (itself r.id)),
        subst (λ es. Covered es rows) same (Covered-more r (claim n rows) rows c),
      )
]
  where
    done : (a b : Bool) → a ≡ true → a || b ≡ true
    done a b h = ground (arith, h)

    there : (a b c : Bool) → b ≡ true → a || (b || c) ≡ true
    there a b c h = ground (arith, h)

    itself : (i : ℕ) → (i == i) ≡ true
    itself i = ground arith

    below : suc (length (claim n rows)) < suc n → length (claim n rows) < n
    below h = omega (arith, h)

mark_published-Covered :
    (now : ℕ) (e : OutboxEvent) (es rows : List OutboxEvent)
    → Covered (e ∷ es) rows
    → Covered es (mark_published now e.id rows)
unfolding mark_published
mark_published-Covered now e es [] c = tt
mark_published-Covered now e es (r ∷ rows) (h, c) = (head, mark_published-Covered now e es rows c)
  where
    left : (a b c : Bool) → a ≡ true → a || b ≡ true
    left a b c h = ground (arith, h)

    rest : (a b c : Bool) → b ≡ false → a || (b || c) ≡ true → a || c ≡ true
    rest a b c h k = ground (arith, h, k)

    flip : (m n : ℕ) → (m == n) ≡ false → (n == m) ≡ false
    flip m n h = ground (arith, h)

    head : is_published (published now e.id r) || names (published now e.id r).id es ≡ true
    head = elim (Bool-cases (r.id == e.id)) [
      | inl p ↦ left (is_published (published now e.id r)) _ false (published-named now r e.id p)
      | inr p ↦
          subst (λ x. is_published x || names x.id es ≡ true) (sym (if_false _ _ p))
            (rest (is_published r) (e.id == r.id) (names r.id es) (flip r.id e.id p) h)
    ]

Covered-backlog : (rows : List OutboxEvent) → Covered [] rows → backlog rows ≡ 0
unfolding backlog
Covered-backlog [] c = refl
Covered-backlog (r ∷ rows) (h, c) = if_true _ _ (only (is_published r) h) ∙ Covered-backlog rows c
  where
    only : (a : Bool) → a || false ≡ true → a ≡ true
    only a h = ground (arith, h)

module _ (publish : Publisher) (now batch : ℕ) where
  module _ (up : (e : OutboxEvent) → publish e ≡ none) where
    marked :
        (e : OutboxEvent) (rows : List OutboxEvent)
        → mark publish now batch (publish e) e.id rows ≡ mark_published now e.id rows
    marked e rows = ap (λ o. mark publish now batch o e.id rows) (up e)

    sweep-backlog :
        (es rows : List OutboxEvent) → backlog (sweep publish now batch es rows) ≤ backlog rows
    unfolding sweep
    sweep-backlog [] rows = omega arith
    sweep-backlog (e ∷ es) rows = omega (
      arith,
      sweep-backlog es (mark publish now batch (publish e) e.id rows),
      ap backlog (marked e rows),
      mark_published-backlog now e.id rows,
    )

    -- A sweep that claims anything leaves fewer events.
    sweep-less :
        (n : ℕ) (rows es : List OutboxEvent)
        → claim n rows ≡ es
        → 0 < length es
        → backlog (sweep publish now batch es rows) < backlog rows
    unfolding sweep
    sweep-less n rows [] h k = omega arith
    sweep-less n rows (e ∷ es) h k = omega (
      arith,
      sweep-backlog es (mark publish now batch (publish e) e.id rows),
      ap backlog (marked e rows),
      mark_published-less now e.id rows (claim-has_pending n rows e es h),
    )

    sweep-clears :
        (es rows : List OutboxEvent)
        → Covered es rows
        → backlog (sweep publish now batch es rows) ≡ 0
    unfolding sweep
    sweep-clears [] rows c = Covered-backlog rows c
    sweep-clears (e ∷ es) rows c =
        sweep-clears es (mark publish now batch (publish e) e.id rows)
          (subst (Covered es) (sym (marked e rows)) (mark_published-Covered now e es rows c))

    -- When every event can be published, the loop that drains before it waits ends, and it leaves
    -- nothing to publish. It needs no more turns than there are events to publish, and one.
    pub drain-empties :
        (fuel : ℕ) (rows : List OutboxEvent)
        → 0 < batch
        → backlog rows < fuel
        → (rest : List OutboxEvent) × (drain publish now batch fuel rows ≡ some rest)
          × (backlog rest ≡ 0)
    unfolding drain drain_once
    drain-empties zero rows h k = elim (not_below (backlog rows) k) [ ]
    drain-empties (suc fuel) rows h k = elim (Bool-cases (ltb (length (claim batch rows)) batch)) [
      | inl p ↦ (
        sweep publish now batch (claim batch rows) rows,
        if_true _ _ p,
        sweep-clears (claim batch rows) rows
            (claim-Covered batch rows (under (length (claim batch rows)) batch p)),
      )
      | inr p ↦
          let less =
            sweep-less batch rows (claim batch rows) refl
              (full (length (claim batch rows)) batch h p) in
          let (rest, e, done) =
            drain-empties fuel (sweep publish now batch (claim batch rows) rows) h
              (omega (arith, less, k)) in
          (rest, if_false _ _ p ∙ e, done)
    ]
      where
        under : (m n : ℕ) → ltb m n ≡ true → m < n
        under m n h = ground (arith, h)

        full : (m n : ℕ) → 0 < n → ltb m n ≡ false → 0 < m
        full m n k h = ground (arith, h, k)
