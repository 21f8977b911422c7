-- ===== src/Payment/Refund/Accounts.antt =====
-- What refunds have promised back, against what a payment captured.
use openpay.Base.{
  ℕ, ◌<◌, ◌==◌, ◌≡◌, ◌∙◌, sym, ap, refl, subst, Bool, true, false, not, ◌&&◌, inl, inr, none, some,
  Option, List, [], ◌∷◌, All, arith, if◌then◌else◌, if_true, if_false, some-eq, Bool-cases,
}
use openpay.Base.Int.{ℤ, pos, pos_part, neg_part, ◌+ℤ◌, ◌-ℤ◌, ◌≤ℤ◌, ◌<ℤ◌, int_laws}
use openpay.Base.Int64.{half, add64, sub64, wrap}
use openpay.Payment.Types.{Payment}
use openpay.Payment.Tables.{RefundStatus, Refund, Tables, find_refund, update_refund}

abbrev pub is_failed : RefundStatus → Bool
is_failed RefundStatus.failed = true
is_failed _ = false

-- What a refund still promises of a payment's money.
abbrev pub share : ℕ → Refund → ℤ
share i r = if r.payment_id == i && not (is_failed r.status) then r.amount else pos 0

abbrev pub promised : ℕ → List Refund → ℤ
promised i [] = pos 0
promised i (r ∷ rs) = share i r +ℤ promised i rs

abbrev pub captured_of : Payment → ℤ
captured_of p = elim p.captured_amount [ none ↦ pos 0 | some c ↦ c ]

-- The refunded amount of the payment is what its refunds promise, and no more than was captured.
pub record IsAccounted {O : Type 0} (x : Tables O) : Type 0 where
  pub refunded : x.base.payment.refunded_amount ≡ promised x.base.payment.id x.refunds
  pub covered : promised x.base.payment.id x.refunds ≤ℤ captured_of x.base.payment
  pub room : pos_part (captured_of x.base.payment) < half
  pub positive : All (λ (r : Refund). pos 0 <ℤ r.amount) x.refunds

pub promised-pos :
    (i : ℕ) (rs : List Refund) → All (λ (r : Refund). pos 0 <ℤ r.amount) rs → pos 0 ≤ℤ promised i rs
promised-pos i [] a = omega arith
promised-pos i (r ∷ rs) a = elim (Bool-cases (r.payment_id == i && not (is_failed r.status))) [
  | inl e ↦ rw e (omega (int_laws, promised-pos i rs a.1, a.0))
  | inr e ↦ rw e (omega (int_laws, promised-pos i rs a.1))
]

share-pos : (i : ℕ) (r : Refund) → pos 0 <ℤ r.amount → pos 0 ≤ℤ share i r
share-pos i r a = elim (Bool-cases (r.payment_id == i && not (is_failed r.status))) [
  | inl e ↦ rw e (omega (arith, a))
  | inr e ↦ rw e (omega arith)
]

-- One refund's share is within the whole.
pub share-le-promised :
    (i k : ℕ) (rs : List Refund) (r : Refund)
    → All (λ (r : Refund). pos 0 <ℤ r.amount) rs
    → find_refund k rs ≡ some r
    → (share i r ≤ℤ promised i rs) × (pos 0 <ℤ r.amount)
share-le-promised i k [] r a e = cc
share-le-promised i k (q ∷ rs) r a e = elim (Bool-cases (q.id == k)) [
  | inl here ↦
      let same : q ≡ r = some-eq q r (sym (if_true _ _ here) ∙ e) in
      (
        subst (λ (z : Refund). share i z ≤ℤ promised i (q ∷ rs)) same
            (omega (int_laws, promised-pos i rs a.1)),
        subst (λ (z : Refund). pos 0 <ℤ z.amount) same a.0,
      )
  | inr there ↦
      let (below, some_amount) = share-le-promised i k rs r a.1 (sym (if_false _ _ there) ∙ e) in
      (omega (int_laws, below, share-pos i q a.0), some_amount)
]

-- To change a refund is to change its share.
pub promised-update_refund :
    (i : ℕ) (rs : List Refund) (r q : Refund)
    → find_refund r.id rs ≡ some q
    → promised i (update_refund r rs) +ℤ share i q ≡ promised i rs +ℤ share i r
promised-update_refund i [] r q e = cc
promised-update_refund i (p ∷ rs) r q e = elim (Bool-cases (p.id == r.id)) [
  | inl here ↦
      let same : p ≡ q = some-eq p q (sym (if_true _ _ here) ∙ e) in
      rw here (
        subst
          (λ (z : Refund).
            (share i r +ℤ promised i rs) +ℤ share i z ≡ (share i p +ℤ promised i rs) +ℤ share i r)
          same (omega int_laws))
  | inr there ↦
      let ih = promised-update_refund i rs r q (sym (if_false _ _ there) ∙ e) in
      rw there (omega (int_laws, ap pos_part ih, ap neg_part ih))
]

pub positive-update_refund :
    (rs : List Refund) (r : Refund)
    → pos 0 <ℤ r.amount
    → All (λ (r : Refund). pos 0 <ℤ r.amount) rs
    → All (λ (r : Refund). pos 0 <ℤ r.amount) (update_refund r rs)
positive-update_refund [] r p a = tt
positive-update_refund (q ∷ rs) r p a = elim (Bool-cases (q.id == r.id)) [
  | inl here ↦ rw here (p, a.1)
  | inr there ↦ rw there (a.0, positive-update_refund rs r p a.1)
]

-- A checked addition or subtraction of int64 figures is exact.
pub add64_checked :
    (a b : ℤ)
    → pos 0 ≤ℤ a
    → pos_part a < half
    → pos 0 <ℤ b
    → pos_part b < half
    → pos 0 ≤ℤ add64 a b
    → add64 a b ≡ a +ℤ b
unfolding add64 wrap ◌+ℤ◌
add64_checked a b p q r s t = ground arith

pub sub64_within : (a b : ℤ) → pos_part a < half → pos 0 ≤ℤ b → b ≤ℤ a → sub64 a b ≡ a -ℤ b
unfolding sub64 wrap ◌-ℤ◌
sub64_within a b p q r = ground arith

module _ {O : Type 0} where
  -- What a step leaves of the payment's own figures and of the refunds.
  pub record SameAccounts (x y : Tables O) : Type 0 where
    pub id : y.base.payment.id ≡ x.base.payment.id
    pub amount : y.base.payment.refunded_amount ≡ x.base.payment.refunded_amount
    pub captured : y.base.payment.captured_amount ≡ x.base.payment.captured_amount
    pub refunds : y.refunds ≡ x.refunds

  pub SameAccounts-IsAccounted : (x y : Tables O) → SameAccounts x y → IsAccounted x → IsAccounted y
  SameAccounts-IsAccounted x y s a = record {
    refunded = s.amount ∙ a.refunded ∙ sums;
    covered =
        subst (λ z. z ≤ℤ captured_of y.base.payment) sums
          (subst (λ z. promised x.base.payment.id x.refunds ≤ℤ z) most a.covered);
    room = subst (λ z. pos_part z < half) most a.room;
    positive = subst (All (λ (r : Refund). pos 0 <ℤ r.amount)) (sym s.refunds) a.positive;
  }
    where
      sums : promised x.base.payment.id x.refunds ≡ promised y.base.payment.id y.refunds
      sums =
          ap (λ i. promised i x.refunds) (sym s.id)
          ∙ ap (promised y.base.payment.id) (sym s.refunds)

      most : captured_of x.base.payment ≡ captured_of y.base.payment
      most = ap (λ (o : Option ℤ). elim o [ none ↦ pos 0 | some c ↦ c ]) (sym s.captured)

  -- A refund's row changes, and its share with it.
  pub save-IsAccounted :
      (x y : Tables O) (q r : Refund)
      → IsAccounted x
      → find_refund r.id x.refunds ≡ some q
      → r.payment_id ≡ q.payment_id
      → r.amount ≡ q.amount
      → is_failed r.status ≡ is_failed q.status
      → SameAccounts (record x { refunds = update_refund r x.refunds }) y
      → IsAccounted y
  save-IsAccounted x y q r a found payment amount status s =
      SameAccounts-IsAccounted (record x { refunds = update_refund r x.refunds }) y s
        (record {
          refunded = a.refunded ∙ sym same;
          covered = subst (λ z. z ≤ℤ captured_of x.base.payment) (sym same) a.covered;
          room = a.room;
          positive =
              positive-update_refund x.refunds r
                (subst (λ z. pos 0 <ℤ z) (sym amount)
                  (share-le-promised x.base.payment.id r.id x.refunds q a.positive found).1)
                a.positive;
        })
    where
      shares : share x.base.payment.id r ≡ share x.base.payment.id q
      shares = rw (payment, amount, status) refl

      moved :
          promised x.base.payment.id (update_refund r x.refunds) +ℤ share x.base.payment.id q
          ≡ promised x.base.payment.id x.refunds +ℤ share x.base.payment.id r
      moved = promised-update_refund x.base.payment.id x.refunds r q found

      cancel : (m n k l : ℤ) → m +ℤ k ≡ n +ℤ l → l ≡ k → m ≡ n
      cancel m n k l e f =
          omega (int_laws, ap pos_part e, ap neg_part e, ap pos_part f, ap neg_part f)

      same :
          promised x.base.payment.id (update_refund r x.refunds)
          ≡ promised x.base.payment.id x.refunds
      same = cancel _ _ _ _ moved shares
