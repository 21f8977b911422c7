-- ===== src/Order/Journals/Balance.antt =====
-- An order's journals balance.
use openpay.Base.{
  ◌≡◌, ◌∙◌, sym, ap, refl, Bool, true, false, ◌⊎◌, inl, inr, String, List, [], ◌∷◌, ◌++◌, All,
  arith, str_eq, if◌then◌else◌, Bool-cases, if_true, if_false,
}
use openpay.Base.Int.{
  ℤ, pos, neg, leb_ℤ, eqb_ℤ, ◌+ℤ◌, ◌-ℤ◌, ◌*ℤ◌, ◌≤ℤ◌, int_laws, one_*ℤ, minus_one_*ℤ, eqb_ℤ_iff,
}
use openpay.Ledger.Types.{Posting, debit, credit}
use openpay.Ledger.Validate.Laws.{currency_sum}
use openpay.Order.Journals.{
  Leg, Share, Components, positive_legs, nonzero_legs, share_legs, settlement_legs,
  settlement_postings, refund_legs, refund_postings,
}

-- Debits less credits of legs that are not posted yet.
abbrev pub leg_sum : List Leg → ℤ
leg_sum [] = pos 0
leg_sum (l ∷ ls) = l.direction *ℤ l.amount +ℤ leg_sum ls

-- A debit or a credit whose amount is not negative.
pub record IsPayable (l : Leg) : Type 0 where
  pub amount : pos 0 ≤ℤ l.amount
  pub side : (l.direction ≡ debit) ⊎ (l.direction ≡ credit)

neg_zero : neg (pos 0) ≡ pos 0
unfolding neg
neg_zero = refl

nothing : (a : ℤ) → pos 0 ≤ℤ a → leb_ℤ a (pos 0) ≡ true → a ≡ pos 0
nothing a p h = ground arith

times_zero : (d : ℤ) → (d ≡ debit) ⊎ (d ≡ credit) → d *ℤ pos 0 ≡ pos 0
times_zero d (inl e) = rw e (one_*ℤ (pos 0))
times_zero d (inr e) = rw e (minus_one_*ℤ (pos 0) ∙ neg_zero)

no_amount :
    (l : Leg) → IsPayable l → leb_ℤ l.amount (pos 0) ≡ true → l.direction *ℤ l.amount ≡ pos 0
no_amount l p h =
    ap (λ a. l.direction *ℤ a) (nothing l.amount p.amount h) ∙ times_zero l.direction p.side

zero_first : (a b : ℤ) → a ≡ pos 0 → b ≡ a +ℤ b
zero_first a b e = rw e (omega int_laws)

skip : (b : Bool) (a x : ℤ) → a ≡ pos 0 → (if b then x else pos 0) ≡ (if b then a +ℤ x else pos 0)
skip b a x e = ap (λ y. if b then y else pos 0) (zero_first a x e)

add :
    (b : Bool) (a x y : ℤ)
    → x ≡ (if b then y else pos 0)
    → (if b then a +ℤ x else x) ≡ (if b then a +ℤ y else pos 0)
add true a x y e = ap (λ z. a +ℤ z) e
add false a x y e = e

empty : (b : Bool) → pos 0 ≡ (if b then pos 0 else pos 0)
empty true = refl
empty false = refl

-- The legs that are left out carry nothing.
positive_legs-sum :
    (c k : String) (ls : List Leg)
    → All IsPayable ls
    → currency_sum k (positive_legs c ls) ≡ (if str_eq c k then leg_sum ls else pos 0)
unfolding positive_legs
positive_legs-sum c k [] p = empty (str_eq c k)
positive_legs-sum c k (l ∷ ls) p =
    let ih = positive_legs-sum c k ls p.1 in
    elim (Bool-cases (leb_ℤ l.amount (pos 0))) [
      | inl out ↦
          ap (currency_sum k) (if_true _ _ out)
          ∙ ih
          ∙ skip (str_eq c k) _ (leg_sum ls) (no_amount l p.0 out)
      | inr here ↦
          ap (currency_sum k) (if_false _ _ here)
          ∙ add (str_eq c k) (l.direction *ℤ l.amount) _ (leg_sum ls) ih
    ]

nonzero_legs-sum :
    (c k : String) (ls : List Leg)
    → All (λ (l : Leg). (l.direction ≡ debit) ⊎ (l.direction ≡ credit)) ls
    → currency_sum k (nonzero_legs c ls) ≡ (if str_eq c k then leg_sum ls else pos 0)
unfolding nonzero_legs
nonzero_legs-sum c k [] p = empty (str_eq c k)
nonzero_legs-sum c k (l ∷ ls) p =
    let ih = nonzero_legs-sum c k ls p.1 in
    elim (Bool-cases (eqb_ℤ l.amount (pos 0))) [
      | inl out ↦
          ap (currency_sum k) (if_true _ _ out)
          ∙ ih
          ∙ skip (str_eq c k) _ (leg_sum ls) (
              ap (λ a. l.direction *ℤ a) ((eqb_ℤ_iff l.amount (pos 0)).0 out)
              ∙ times_zero l.direction p.0)
      | inr here ↦
          ap (currency_sum k) (if_false _ _ here)
          ∙ add (str_eq c k) (l.direction *ℤ l.amount) _ (leg_sum ls) ih
    ]

-- The tenders' shares, added up.
abbrev pub share_sum : List Share → ℤ
share_sum [] = pos 0
share_sum (t ∷ ts) = t.amount +ℤ share_sum ts

sum_assoc : (a b c : ℤ) → a +ℤ (b +ℤ c) ≡ a +ℤ b +ℤ c
sum_assoc a b c = omega int_laws

share_legs-sum :
    (ts : List Share) (ls : List Leg) → leg_sum (share_legs ts ++ ls) ≡ share_sum ts +ℤ leg_sum ls
share_legs-sum [] ls = zero_first (pos 0) (leg_sum ls) refl
share_legs-sum (t ∷ ts) ls =
    rw (one_*ℤ t.amount)
      (rw (share_legs-sum ts ls) (sum_assoc t.amount (share_sum ts) (leg_sum ls)))

share_legs-IsPayable :
    (ts : List Share) (ls : List Leg)
    → All (λ (t : Share). pos 0 ≤ℤ t.amount) ts
    → All IsPayable ls
    → All IsPayable (share_legs ts ++ ls)
share_legs-IsPayable [] ls p q = q
share_legs-IsPayable (t ∷ ts) ls p q =
    (record { amount = p.0; side = inl refl }, share_legs-IsPayable ts ls p.1 q)

settled : (t s d x : ℤ) → t ≡ s -ℤ d +ℤ x → t +ℤ (d +ℤ (neg s +ℤ (neg x +ℤ pos 0))) ≡ pos 0
settled t s d x e = rw e (omega int_laws)

reversed : (m s d x : ℤ) → m ≡ s -ℤ d +ℤ x → neg m +ℤ (s +ℤ (x +ℤ (neg d +ℤ pos 0))) ≡ pos 0
reversed m s d x e = rw e (omega int_laws)

settlement_sum :
    (o : Components)
    → leg_sum (settlement_legs o) ≡ o.discount +ℤ (neg o.subtotal +ℤ (neg o.tax +ℤ pos 0))
settlement_sum o =
    rw (one_*ℤ o.discount) (rw (minus_one_*ℤ o.subtotal) (rw (minus_one_*ℤ o.tax) refl))

refund_sum :
    (o : Components) → leg_sum (refund_legs o) ≡ o.subtotal +ℤ (o.tax +ℤ (neg o.discount +ℤ pos 0))
refund_sum o = rw (one_*ℤ o.subtotal) (rw (one_*ℤ o.tax) (rw (minus_one_*ℤ o.discount) refl))

both : (b : Bool) (x : ℤ) → x ≡ pos 0 → (if b then x else pos 0) ≡ pos 0
both true x e = e
both false x e = refl

-- The journal that pays for an order balances in every currency, where no share and no component
-- is negative and the shares add up to subtotal less discount plus tax.
pub settlement_postings-balanced :
    (c k : String) (shares : List Share) (o : Components)
    → All (λ (t : Share). pos 0 ≤ℤ t.amount) shares
    → pos 0 ≤ℤ o.subtotal
    → pos 0 ≤ℤ o.discount
    → pos 0 ≤ℤ o.tax
    → share_sum shares ≡ o.subtotal -ℤ o.discount +ℤ o.tax
    → currency_sum k (settlement_postings c shares o) ≡ pos 0
unfolding settlement_postings
settlement_postings-balanced c k shares o owed s d x total =
    positive_legs-sum c k (share_legs shares ++ settlement_legs o) (
      share_legs-IsPayable shares (settlement_legs o) owed (
        record { amount = d; side = inl refl },
        (record { amount = s; side = inr refl }, (record { amount = x; side = inr refl }, tt)),
      ))
    ∙ both (str_eq c k) _ (
        share_legs-sum shares (settlement_legs o)
        ∙ ap (λ y. share_sum shares +ℤ y) (settlement_sum o)
        ∙ settled (share_sum shares) o.subtotal o.discount o.tax total)

currency_sum-append :
    (k : String) (ps qs : List Posting)
    → currency_sum k (ps ++ qs) ≡ currency_sum k ps +ℤ currency_sum k qs
currency_sum-append k [] qs = zero_first (pos 0) (currency_sum k qs) refl
currency_sum-append k (p ∷ ps) qs = elim (Bool-cases (str_eq p.currency k)) [
  | inl e ↦
      if_true _ _ e
      ∙ ap (λ y. p.direction *ℤ p.amount +ℤ y) (currency_sum-append k ps qs)
      ∙ sum_assoc _ (currency_sum k ps) (currency_sum k qs)
      ∙ ap (λ y. y +ℤ currency_sum k qs) (sym (if_true _ _ e))
  | inr e ↦
      if_false _ _ e
      ∙ currency_sum-append k ps qs
      ∙ ap (λ y. y +ℤ currency_sum k qs) (sym (if_false _ _ e))
]

joined :
    (b : Bool) (a x : ℤ)
    → a +ℤ x ≡ pos 0
    → (if b then a else pos 0) +ℤ (if b then x else pos 0) ≡ pos 0
joined true a x e = e
joined false a x e = sym (zero_first (pos 0) (pos 0) refl)

-- The journal that refunds an order balances in every currency, where its credits add up to the
-- amount of the refund, all in the order's currency, and the amount is subtotal less discount plus
-- tax of the refund's split.
pub refund_postings-balanced :
    (c k : String) (credits : List Posting) (o : Components) (amount : ℤ)
    → currency_sum k credits ≡ (if str_eq c k then neg amount else pos 0)
    → amount ≡ o.subtotal -ℤ o.discount +ℤ o.tax
    → currency_sum k (refund_postings c credits o) ≡ pos 0
unfolding refund_postings
refund_postings-balanced c k credits o amount credited split =
    currency_sum-append k credits (nonzero_legs c (refund_legs o))
    ∙ ap (λ y. y +ℤ currency_sum k (nonzero_legs c (refund_legs o))) credited
    ∙ ap (λ y. (if str_eq c k then neg amount else pos 0) +ℤ y)
        (nonzero_legs-sum c k (refund_legs o) (inl refl, (inl refl, (inr refl, tt))))
    ∙ joined (str_eq c k) (neg amount) _ (
        ap (λ y. neg amount +ℤ y) (refund_sum o)
        ∙ reversed amount o.subtotal o.discount o.tax split)
