-- ===== src/Order/Refund/Split.antt =====
-- A refund's split adds up to its amount.
use openpay.Base.{
  ◌+◌, ◌<◌, ◌≡◌, ◌∙◌, sym, ap, Bool, true, Option, none, some, arith, Bool-cases, inl, inr,
}
use openpay.Base.Int.{
  ℤ, pos, magnitude, eqb_ℤ, ◌+ℤ◌, ◌-ℤ◌, int_laws, magnitude-+ℤ, magnitude-sub, eqb_ℤ_iff,
}
use openpay.Base.Int64.{half, add64, sub64, mul64, add64_exact, sub64_exact}
use openpay.Errors.{ok}
use openpay.Order.Refund.{Breakdown, Order, quot, split_refund}

-- There is room for the split's figures.
abbrev pub FitsIn64 : Breakdown → ℤ → Type 0
FitsIn64 b amount =
    magnitude b.subtotal + magnitude b.discount + magnitude b.tax + magnitude amount < half

exact_sum :
    (b : Breakdown) (amount : ℤ)
    → FitsIn64 b amount
    → add64 (sub64 b.subtotal b.discount) b.tax ≡ b.subtotal -ℤ b.discount +ℤ b.tax
exact_sum b amount small =
    ap (λ x. add64 x b.tax) (sub64_exact b.subtotal b.discount (omega arith))
    ∙ add64_exact (b.subtotal -ℤ b.discount) b.tax
        (omega (arith, magnitude-sub b.subtotal b.discount))

gross : (a : ℤ) → a -ℤ pos 0 +ℤ pos 0 ≡ a
gross a = omega int_laws

rebuilt : (a d t : ℤ) → a +ℤ d -ℤ t -ℤ d +ℤ t ≡ a
rebuilt a d t = omega int_laws

-- The three ways to split, each of which adds up.
provided_sum :
    (o : Order) (amount : ℤ) (b s : Breakdown) (p : Bool)
    → FitsIn64 s amount
    → split_refund o amount (some b) ≡ ok (s, p)
    → s.subtotal -ℤ s.discount +ℤ s.tax ≡ amount
unfolding split_refund
provided_sum o amount b s p small h =
    let is : b ≡ s = ground (arith, h) in
    let test : eqb_ℤ (add64 (sub64 b.subtotal b.discount) b.tax) amount ≡ true =
      ground (arith, h) in
    sym (exact_sum s amount small)
    ∙ ap (λ (x : Breakdown). add64 (sub64 x.subtotal x.discount) x.tax) (sym is)
    ∙ (eqb_ℤ_iff _ amount).0 test

abbrev proportional : ℤ → ℤ → ℤ → Breakdown
proportional amount discount tax = record {
  subtotal = sub64 (add64 amount discount) tax;
  discount = discount;
  tax = tax;
}

proportional_sum :
    (amount d t : ℤ) (s : Breakdown)
    → FitsIn64 s amount
    → proportional amount d t ≡ s
    → s.subtotal -ℤ s.discount +ℤ s.tax ≡ amount
proportional_sum amount d t s small is =
    let d_is : d ≡ s.discount = ap (λ (x : Breakdown). x.discount) is in
    let t_is : t ≡ s.tax = ap (λ (x : Breakdown). x.tax) is in
    let small_d : magnitude amount + magnitude d + magnitude t < half =
      rw d_is (rw t_is (omega arith)) in
    let exact : sub64 (add64 amount d) t ≡ amount +ℤ d -ℤ t =
      ap (λ x. sub64 x t) (add64_exact amount d (omega arith))
      ∙ sub64_exact (amount +ℤ d) t (omega (arith, magnitude-+ℤ amount d)) in
    ap (λ (x : Breakdown). x.subtotal -ℤ x.discount +ℤ x.tax) (sym is)
    ∙ ap (λ x. x -ℤ d +ℤ t) exact
    ∙ rebuilt amount d t

-- However a refund is split, by the breakdown that the product sent, gross, or in proportion to the
-- order, its subtotal less its discount plus its tax is its amount, where these figures add up
-- below 2^63.
pub split_refund-sum :
    (o : Order) (amount : ℤ) (given : Option Breakdown) (s : Breakdown) (p : Bool)
    → FitsIn64 s amount
    → split_refund o amount given ≡ ok (s, p)
    → s.subtotal -ℤ s.discount +ℤ s.tax ≡ amount
unfolding split_refund
split_refund-sum o amount (some b) s p small h = provided_sum o amount b s p small h
split_refund-sum o amount none s p small h = elim (Bool-cases o.tax_breakdown_provided) [
  | inr bare ↦
      let is : record { subtotal = amount; discount = pos 0; tax = pos 0 } ≡ s =
        ground (arith, h, bare) in
      ap (λ (x : Breakdown). x.subtotal -ℤ x.discount +ℤ x.tax) (sym is) ∙ gross amount
  | inl taxed ↦
      let is : proportional amount (quot (mul64 amount o.discount) o.total)
            (quot (mul64 amount o.tax) o.total)
          ≡ s =
        ground (arith, h, taxed) in
      proportional_sum amount _ _ s small is
]
