-- ===== src/Order/Refund/Taken.antt =====
-- What the loop over an order's tenders takes from them.
use openpay.Base.{
  ◌<◌, ◌≡◌, ◌∙◌, sym, ap, true, false, inl, inr, List, [], ◌∷◌, All, arith, Bool-cases, if_true,
  if_false, subst,
}
use openpay.Base.Int.{
  ℤ, pos, magnitude, pos_part, neg_part, leb_ℤ, eqb_ℤ, ◌+ℤ◌, ◌-ℤ◌, ◌≤ℤ◌, ◌<ℤ◌, int_laws, +ℤ_parts,
  -ℤ_parts, eqb_ℤ_iff,
}
use openpay.Base.Int64.{wrap_of_small, half, add64, sub64}
use openpay.Order.Refund.{Tender, Part, min_ℤ, take_from}

-- A tender that has been refunded by no more than it paid.
pub record IsTender (t : Tender) : Type 0 where
  pub refunded : pos 0 ≤ℤ t.refunded_amount
  pub within : t.refunded_amount ≤ℤ t.amount
  pub small : magnitude t.amount < half

abbrev pub part_sum : List Part → ℤ
part_sum [] = pos 0
part_sum (p ∷ ps) = p.take +ℤ part_sum ps

-- What the tenders can still give back.
abbrev pub left_sum : List Tender → ℤ
left_sum [] = pos 0
left_sum (t ∷ ts) = (t.amount -ℤ t.refunded_amount) +ℤ left_sum ts

-- A part takes something, and leaves its tender refunded by no more than it paid.
pub record IsPart (p : Part) : Type 0 where
  pub positive : pos 0 <ℤ p.take
  pub tender : IsTender p.tender

nothing_left : (r l : ℤ) → pos 0 <ℤ r → pos 0 ≤ℤ l → leb_ℤ (min_ℤ r l) (pos 0) ≡ true → l ≡ pos 0
nothing_left r l p q h = ground arith

record Take (r l t : ℤ) : Type 0 where
  positive : pos 0 <ℤ t
  most : t ≤ℤ r
  fits : t ≤ℤ l
  whole : (r ≤ℤ l → t ≡ r) × (l ≤ℤ r → t ≡ l)

some_taken : (r l : ℤ) → leb_ℤ (min_ℤ r l) (pos 0) ≡ false → Take r l (min_ℤ r l)
some_taken r l h = record {
  positive = ground arith;
  most = ground arith;
  fits = ground arith;
  whole = (λ e. ground (arith, e), λ e. ground (arith, e));
}

less_taken : (r t : ℤ) → pos 0 <ℤ t → t ≤ℤ r → magnitude r < half → sub64 r t ≡ r -ℤ t
unfolding sub64
less_taken r t p q h = wrap_of_small (r -ℤ t) (smaller r t p q h)
  where
    smaller : (r t : ℤ) → pos 0 <ℤ t → t ≤ℤ r → magnitude r < half → magnitude (r -ℤ t) < half
    smaller r t p q h = ground (arith, -ℤ_parts r t)

more_taken :
    (a f t : ℤ) → pos 0 ≤ℤ f → pos 0 <ℤ t → t ≤ℤ a -ℤ f → magnitude a < half → add64 f t ≡ f +ℤ t
unfolding add64
more_taken a f t p q h b = wrap_of_small (f +ℤ t) (smaller a f t p q h b)
  where
    smaller :
        (a f t : ℤ)
        → pos 0 ≤ℤ f
        → pos 0 <ℤ t
        → t ≤ℤ a -ℤ f
        → magnitude a < half
        → magnitude (f +ℤ t) < half
    smaller a f t p q h b = ground (arith, +ℤ_parts f t, -ℤ_parts a f)

-- What the loop does with what remains, on the tenders that it has not seen.
pub record Taken (r : ℤ) (ts : List Tender) (out : List Part × ℤ) : Type 0 where
  pub total : part_sum (out.0) +ℤ out.1 ≡ r
  pub within : part_sum (out.0) ≤ℤ left_sum ts
  pub fair : All IsPart (out.0)
  pub enough : r ≤ℤ left_sum ts → out.1 ≡ pos 0

zero_more : (a : ℤ) → pos 0 +ℤ a ≡ a
zero_more a = omega int_laws

gone : (r l s : ℤ) → l ≡ pos 0 → r ≤ℤ l +ℤ s → r ≤ℤ s
gone r l s e h = omega (arith, ap pos_part e, ap neg_part e, +ℤ_parts l s)

gone' : (x l s : ℤ) → l ≡ pos 0 → x ≤ℤ s → x ≤ℤ l +ℤ s
gone' x l s e h = omega (arith, ap pos_part e, ap neg_part e, +ℤ_parts l s)

skip_tender :
    (r : ℤ) (t : Tender) (ts : List Tender) (out : List Part × ℤ)
    → t.amount -ℤ t.refunded_amount ≡ pos 0
    → Taken r ts out
    → Taken r (t ∷ ts) out
skip_tender r t ts out e k = record {
  total = k.total;
  within = gone' (part_sum (out.0)) _ (left_sum ts) e k.within;
  fair = k.fair;
  enough = λ h. k.enough (gone r _ (left_sum ts) e h);
}

left_sum-nonneg : (ts : List Tender) → All IsTender ts → pos 0 ≤ℤ left_sum ts
left_sum-nonneg [] g = omega arith
left_sum-nonneg (t ∷ ts) g = omega (
  arith,
  left_sum-nonneg ts g.1,
  g.0.within,
  -ℤ_parts t.amount t.refunded_amount,
  +ℤ_parts (t.amount -ℤ t.refunded_amount) (left_sum ts),
)

last_part : (r t : ℤ) → t +ℤ pos 0 +ℤ (r -ℤ t) ≡ r
last_part r t = omega int_laws

one_part : (r t x y : ℤ) → x +ℤ y ≡ r -ℤ t → t +ℤ x +ℤ y ≡ r
one_part r t x y e = assoc t x y ∙ ap (λ z. t +ℤ z) e ∙ back t r
  where
    assoc : (a b c : ℤ) → a +ℤ b +ℤ c ≡ a +ℤ (b +ℤ c)
    assoc a b c = omega int_laws

    back : (a b : ℤ) → a +ℤ (b -ℤ a) ≡ b
    back a b = omega int_laws

sum_le : (t l x s : ℤ) → t ≤ℤ l → x ≤ℤ s → t +ℤ x ≤ℤ l +ℤ s
sum_le t l x s p q = omega (arith, +ℤ_parts t x, +ℤ_parts l s)

more_left : (r t : ℤ) → t ≤ℤ r → eqb_ℤ (r -ℤ t) (pos 0) ≡ false → pos 0 <ℤ r -ℤ t
more_left r t h e = ground (arith, -ℤ_parts r t)

rest_enough : (r l t s : ℤ) → Take r l t → pos 0 <ℤ r -ℤ t → r ≤ℤ l +ℤ s → (r -ℤ t) ≤ℤ s
rest_enough r l t s k more h = elim (Bool-cases (leb_ℤ r l)) [
  | inl small ↦ let is : t ≡ r = k.whole.0 (ground (arith, small)) in absurd (none_left r t is more)
  | inr large ↦
      let is : t ≡ l = k.whole.1 (ground (arith, large)) in
      omega (arith, ap pos_part is, ap neg_part is, -ℤ_parts r t, +ℤ_parts l s)
]
  where
    none_left : (r t : ℤ) → t ≡ r → pos 0 <ℤ r -ℤ t → ⊥
    none_left r t e h = omega (arith, ap pos_part e, ap neg_part e, -ℤ_parts r t)

smaller_left : (r t : ℤ) → pos 0 <ℤ t → t ≤ℤ r → magnitude r < half → magnitude (r -ℤ t) < half
smaller_left r t p q h = ground (arith, -ℤ_parts r t)

abbrev taken_part : Tender → ℤ → Part
taken_part t take = record {
  tender = record t { refunded_amount = t.refunded_amount +ℤ take };
  take = take;
}

taken_part-IsPart :
    (r : ℤ) (t : Tender) (take : ℤ)
    → IsTender t
    → Take r (t.amount -ℤ t.refunded_amount) take
    → IsPart (taken_part t take)
taken_part-IsPart r t take g k = record {
  positive = k.positive;
  tender = record {
    refunded = omega (arith, g.refunded, k.positive, +ℤ_parts t.refunded_amount take);
    within =
        omega (arith, k.fits, +ℤ_parts t.refunded_amount take, -ℤ_parts t.amount t.refunded_amount);
    small = g.small;
  };
}

still_refundable : (a f : ℤ) → pos 0 ≤ℤ f → f ≤ℤ a → magnitude a < half → sub64 a f ≡ a -ℤ f
unfolding sub64
still_refundable a f p q h = wrap_of_small (a -ℤ f) (smaller a f p q h)
  where
    smaller : (r t : ℤ) → pos 0 ≤ℤ t → t ≤ℤ r → magnitude r < half → magnitude (r -ℤ t) < half
    smaller r t p q h = ground (arith, -ℤ_parts r t)

abbrev left_of : Tender → ℤ
left_of t = t.amount -ℤ t.refunded_amount

-- One tender that something is taken from, in unbounded integers.
module _ (r : ℤ) (t : Tender) (ts : List Tender) (positive : pos 0 <ℤ r)
    (bound : magnitude r < half) (g : IsTender t) (gs : All IsTender ts) (take : ℤ)
    (k : Take r (left_of t) take) where
  last_Taken : r -ℤ take ≡ pos 0 → Taken r (t ∷ ts) (taken_part t take ∷ [], r -ℤ take)
  last_Taken done = record {
    total = last_part r take;
    within = sum_le take (left_of t) (pos 0) (left_sum ts) k.fits (left_sum-nonneg ts gs);
    fair = (taken_part-IsPart r t take g k, tt);
    enough = λ h. done;
  }

  more_Taken :
      (out : List Part × ℤ)
      → pos 0 <ℤ r -ℤ take
      → Taken (r -ℤ take) ts out
      → Taken r (t ∷ ts) (taken_part t take ∷ out.0, out.1)
  more_Taken out more rest = record {
    total = one_part r take (part_sum (out.0)) (out.1) rest.total;
    within = sum_le take (left_of t) (part_sum (out.0)) (left_sum ts) k.fits rest.within;
    fair = (taken_part-IsPart r t take g k, rest.fair);
    enough = λ h. rest.enough (rest_enough r (left_of t) take (left_sum ts) k more h);
  }

pub take_from-Taken :
    (r : ℤ) (ts : List Tender)
    → pos 0 <ℤ r
    → magnitude r < half
    → All IsTender ts
    → Taken r ts (take_from r ts)
unfolding take_from
take_from-Taken r [] p b g = record {
  total = zero_more r;
  within = omega arith;
  fair = tt;
  enough = λ h. absurd (omega (arith, p, h));
}
take_from-Taken r (t ∷ ts) p b g =
    let e1 : sub64 t.amount t.refunded_amount ≡ left_of t =
      still_refundable t.amount t.refunded_amount g.0.refunded g.0.within g.0.small in
    let room : pos 0 ≤ℤ left_of t =
      omega (arith, g.0.within, -ℤ_parts t.amount t.refunded_amount) in
    rw e1 (elim (Bool-cases (leb_ℤ (min_ℤ r (left_of t)) (pos 0))) [
      | inl out ↦ subst (Taken r (t ∷ ts)) (sym (if_true _ _ out)) (
          skip_tender r t ts (take_from r ts) (nothing_left r (left_of t) p room out)
            (take_from-Taken r ts p b g.1))
      | inr here ↦
          let take = min_ℤ r (left_of t) in
          let k = some_taken r (left_of t) here in
          let e2 : sub64 r take ≡ r -ℤ take = less_taken r take k.positive k.most b in
          let e3 : add64 t.refunded_amount take ≡ t.refunded_amount +ℤ take =
            more_taken t.amount t.refunded_amount take g.0.refunded k.positive k.fits g.0.small in
          subst (Taken r (t ∷ ts)) (sym (if_false _ _ here)) (
            rw e2 (
              rw e3 (elim (Bool-cases (eqb_ℤ (r -ℤ take) (pos 0))) [
                | inl done ↦
                    subst (Taken r (t ∷ ts)) (sym (if_true _ _ done)) (
                      last_Taken r t ts p b g.0 g.1 take k ((eqb_ℤ_iff (r -ℤ take) (pos 0)).0 done))
                | inr goes_on ↦
                    let more = more_left r take k.most goes_on in
                    subst (Taken r (t ∷ ts)) (sym (if_false _ _ goes_on)) (
                      more_Taken r t ts p b g.0 g.1 take k (take_from (r -ℤ take) ts) more (
                        take_from-Taken (r -ℤ take) ts more
                          (smaller_left r take k.positive k.most b) g.1))
              ])))
    ])

pub within_left : (r x y s : ℤ) → x +ℤ y ≡ r → y ≡ pos 0 → x ≤ℤ s → r ≤ℤ s
within_left r x y s e z h =
    omega (arith, ap pos_part e, ap neg_part e, ap pos_part z, ap neg_part z, +ℤ_parts x y)

pub whole_sum : (r x y : ℤ) → x +ℤ y ≡ r → y ≡ pos 0 → x ≡ r
whole_sum r x y e z = sym (rw z (omega int_laws)) ∙ e
