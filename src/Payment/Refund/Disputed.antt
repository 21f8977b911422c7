-- ===== src/Payment/Refund/Disputed.antt =====
-- A refund that ends while its payment is disputed.
use openpay.Base.{
  ℕ, ◌≡◌, ◌≢◌, ◌∙◌, sym, ap, subst, Bool, true, false, not, ◌||◌, ◌⊎◌, inl, inr, some, String,
  arith, if◌then◌else◌, if_false, some-eq, str_eq,
}
use openpay.Base.Int.{eqb_ℤ}
use openpay.Errors.{ok, bind-eq-ok, fail_if, or_fail, or_fail-some, not_found, failed_precondition}
use openpay.Product.{find_product}
use openpay.Payment.State.{PaymentStatus, transitions, can_transition}
use openpay.Payment.Sync.{transition}
use openpay.Payment.Sync.Laws.{transition-Went}
use openpay.Payment.Tables.{
  is_final, Refund, ProviderRefundStatus, ProviderRefund, Tables, lock_payment, find_refund,
}
use openpay.Payment.Refund.{Desk, post_between, complete_refund, follow, apply_refund, sync_refund}

stuck :
    (b : Bool) (s : PaymentStatus)
    → s ≡ PaymentStatus.disputed
    → (s ≡ (if b then PaymentStatus.refunded else PaymentStatus.partially_refunded))
      ⊎ (can_transition s (if b then PaymentStatus.refunded else PaymentStatus.partially_refunded)
          ≡ true)
    → ⊥
unfolding can_transition transitions
stuck true s e (inl f) = cc
stuck false s e (inl f) = cc
stuck true s e (inr f) = ground (arith, e, f)
stuck false s e (inr f) = ground (arith, e, f)

module _ {O : Type 0} (desk : Desk O) where
  complete_refund-disputed :
      (r : Refund) (pr : ProviderRefund) (source : String) (x y : Tables O)
      → x.base.payment.status ≡ PaymentStatus.disputed
      → complete_refund desk r pr source x ≢ ok y
  unfolding complete_refund
  complete_refund-disputed r pr source x y disputed h =
      let (u, _, h1) =
        bind-eq-ok
          (fail_if (not (eqb_ℤ pr.amount r.amount) || not (str_eq pr.currency r.currency))
            failed_precondition)
          _ h in
      let (payment, _, h2) = bind-eq-ok (lock_payment r.payment_id x) _ h1 in
      let (product, _, h3) =
        bind-eq-ok (or_fail (find_product r.product_id x.base.products) not_found) _ h2 in
      let (s, _, h4) = bind-eq-ok (post_between _ _ _ _ _ _ _ _ _ x.base.books) _ h3 in
      let (moved, going, h5) =
        bind-eq-ok (transition desk.hooks _ source (some r.public_id) _) _ h4 in
      let went = transition-Went desk.hooks _ source (some r.public_id) _ moved going in
      stuck _ x.base.payment.status disputed went.allowed

  -- While a payment is disputed, a report that one of its refunds was processed is refused every time:
  -- the refund cannot be recorded as processed, whatever its amount, although the provider has paid it.
  pub sync_refund-disputed :
      (i : ℕ) (pr : ProviderRefund) (source : String) (x y : Tables O) (r : Refund)
      → find_refund i x.refunds ≡ some r
      → is_final r.status ≡ false
      → pr.status ≡ ProviderRefundStatus.processed
      → x.base.payment.status ≡ PaymentStatus.disputed
      → sync_refund desk i pr source x ≢ ok y
  unfolding sync_refund apply_refund follow
  sync_refund-disputed i pr source x y r found going processed disputed h =
      let (q, there, h1) = bind-eq-ok (or_fail (find_refund i x.refunds) not_found) _ h in
      let same : q ≡ r = some-eq q r (sym (or_fail-some _ not_found q there) ∙ found) in
      let alive : is_final q.status ≡ false = ap (λ (z : Refund). is_final z.status) same ∙ going in
      complete_refund-disputed (record q { provider_refund_id = some pr.provider_refund_id }) pr
        source x y disputed
        (subst
          (λ s.
            follow desk s (record q { provider_refund_id = some pr.provider_refund_id }) pr source x
            ≡ ok y)
          processed (sym (if_false _ _ alive) ∙ h1))
