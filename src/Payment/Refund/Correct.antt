-- ===== src/Payment/Refund/Correct.antt =====
-- Every step on refunds keeps the payment's account of them.
use openpay.Base.{
  ℕ, ◌<◌, ◌==◌, ◌≡◌, ◌∙◌, sym, ap, refl, subst, true, false, not, ◌||◌, inl, inr, some, String,
  arith, if◌then◌else◌, if_true, if_false, Bool-cases, str_eq,
}
use openpay.Base.Int.{ℤ, pos, pos_part, neg_part, ◌+ℤ◌, ◌-ℤ◌, ◌≤ℤ◌, ◌<ℤ◌, eqb_ℤ, int_laws}
use openpay.Base.Int64.{half, sub64}
use openpay.Errors.{Result, ok, bind-eq-ok, fail_if, or_fail, not_found, failed_precondition}
use openpay.Ledger.Store.{get_journal}
use openpay.Product.{find_product}
use openpay.Wallet.Engine.{restore}
use openpay.Payment.Types.{Payment}
use openpay.Payment.Sync.{transition}
use openpay.Payment.Sync.Laws.{transition-Went}
use openpay.Payment.Tables.{
  RefundStatus, Refund, ProviderRefund, Tables, wallet_world, lock_payment, update_payment,
  find_refund, update_refund,
}
use openpay.Payment.Refund.{
  Desk, is_from_wallet, payment_wallet, post_between, complete_refund, give_back, fail_refund,
}
use openpay.Payment.Refund.Accounts.{
  is_failed, share, promised, captured_of, IsAccounted, SameAccounts, SameAccounts-IsAccounted,
  save-IsAccounted, sub64_within, promised-pos, share-le-promised, promised-update_refund,
  positive-update_refund,
}

small : (a c : ℤ) → pos 0 ≤ℤ a → a ≤ℤ c → pos_part c < half → pos_part a < half
small a c p q r = ground arith

module _ {O : Type 0} (desk : Desk O) where
  -- The row that a step works on, as the table has it.
  pub record IsRowOf (r : Refund) (x : Tables O) : Type 0 where
    pub row : Refund
    pub found : find_refund r.id x.refunds ≡ some row
    pub payment : r.payment_id ≡ row.payment_id
    pub amount : r.amount ≡ row.amount
    pub open_row : is_failed row.status ≡ false

  pub locked :
      (i : ℕ) (x : Tables O) (p : Payment)
      → lock_payment i x ≡ ok p
      → ((x.base.payment.id == i) ≡ true) × (p ≡ x.base.payment)
  locked i x p e = elim (Bool-cases (x.base.payment.id == i)) [
    | inl same ↦ (same, ground (arith, e, same))
    | inr other ↦ cc
  ]

  pub complete_refund-IsAccounted :
      (r : Refund) (pr : ProviderRefund) (source : String) (x y : Tables O)
      → IsRowOf r x
      → IsAccounted x
      → complete_refund desk r pr source x ≡ ok y
      → IsAccounted y
  unfolding complete_refund
  complete_refund-IsAccounted r pr source x y row a h =
      let (u, _, h1) =
        bind-eq-ok
          (fail_if (not (eqb_ℤ pr.amount r.amount) || not (str_eq pr.currency r.currency))
            failed_precondition)
          _ h in
      let (payment, _, h2) = bind-eq-ok (lock_payment r.payment_id x) _ h1 in
      let (product, _, h3) =
        bind-eq-ok (or_fail (find_product r.product_id x.base.products) not_found) _ h2 in
      let (s, _, h4) = bind-eq-ok (post_between _ _ _ _ _ _ _ _ _ x.base.books) _ h3 in
      let (moved, going, h5) =
        bind-eq-ok (transition desk.hooks _ source (some r.public_id) _) _ h4 in
      let went = transition-Went desk.hooks _ source (some r.public_id) _ moved going in
      save-IsAccounted x y row.row
        (record r { status = RefundStatus.processed; processed_at = some x.base.now }) a row.found
        row.payment row.amount (sym row.open_row)
        (record {
          id = ground (arith, h5, went.payment);
          amount = ground (arith, h5, went.payment);
          captured = ground (arith, h5, went.payment);
          refunds = ground (arith, h5);
        })

  keeps_books :
      (r : Refund) (payment : Payment) (x y : Tables O)
      → give_back desk r payment x ≡ ok y
      → SameAccounts x y
  unfolding give_back
  keeps_books r payment x y h =
      let (reserve, _, h1) = bind-eq-ok (or_fail (get_journal _ x.base.books) not_found) _ h in
      let (wallet, _, h2) = bind-eq-ok (payment_wallet payment x) _ h1 in
      let (product, _, h3) =
        bind-eq-ok (or_fail (find_product payment.product_id x.base.products) not_found) _ h2 in
      let (answer, _, h4) =
        bind-eq-ok (restore desk.clock desk.limits _ reserve (wallet_world x)) _ h3 in
      record {
        id = ground (arith, h4);
        amount = ground (arith, h4);
        captured = ground (arith, h4);
        refunds = ground (arith, h4);
      }

  -- The payment's account after a refund has failed and given up its share.
  released :
      (x : Tables O) (r q : Refund) (payment : Payment)
      → IsAccounted x
      → find_refund r.id x.refunds ≡ some q
      → q.payment_id ≡ x.base.payment.id
      → is_failed q.status ≡ false
      → q.amount ≡ r.amount
      → is_failed r.status ≡ true
      → payment ≡ x.base.payment
      → IsAccounted (record x {
        base = record (x.base) {
          payment = record payment { refunded_amount = sub64 payment.refunded_amount r.amount };
        };
        refunds = update_refund r x.refunds;
      })
  released x r q payment a found own alive amount failed same =
      let i = x.base.payment.id in
      let (below, positive) = share-le-promised i r.id x.refunds q a.positive found in
      let whole : share i q ≡ q.amount = ground (arith, own, alive) in
      let nothing : share i r ≡ pos 0 = ground (arith, failed) in
      let moved = promised-update_refund i x.refunds r q found in
      let exact : sub64 (promised i x.refunds) r.amount ≡ promised i x.refunds -ℤ r.amount =
        sub64_within (promised i x.refunds) r.amount
          (small (promised i x.refunds) (captured_of x.base.payment)
            (promised-pos i x.refunds a.positive) a.covered a.room)
          (subst (λ z. pos 0 ≤ℤ z) amount (omega (arith, positive)))
          (subst (λ z. z ≤ℤ promised i x.refunds) (whole ∙ amount) below) in
      let less : promised i (update_refund r x.refunds) ≡ promised i x.refunds -ℤ r.amount =
        difference (promised i (update_refund r x.refunds)) (promised i x.refunds) r.amount (
          subst (λ z. promised i (update_refund r x.refunds) +ℤ z ≡ promised i x.refunds +ℤ pos 0)
            (whole ∙ amount)
            (subst
              (λ z. promised i (update_refund r x.refunds) +ℤ share i q ≡ promised i x.refunds +ℤ z)
              nothing moved)) in
      rw same (record {
        refunded = ap (λ z. sub64 z r.amount) a.refunded ∙ exact ∙ sym less;
        covered =
            subst (λ z. z ≤ℤ captured_of x.base.payment) (sym less)
              (omega (int_laws, a.covered, positive, ap pos_part amount, ap neg_part amount));
        room = a.room;
        positive =
            positive-update_refund x.refunds r (subst (λ z. pos 0 <ℤ z) amount positive) a.positive;
      })
    where
      difference : (m n k : ℤ) → m +ℤ k ≡ n +ℤ pos 0 → m ≡ n -ℤ k
      difference m n k e = omega (int_laws, ap pos_part e, ap neg_part e)

  pub fail_refund-IsAccounted :
      (r : Refund) (reason : String) (x y : Tables O)
      → IsRowOf r x
      → IsAccounted x
      → fail_refund desk r reason x ≡ ok y
      → IsAccounted y
  unfolding fail_refund update_payment
  fail_refund-IsAccounted r reason x y row a h =
      let (payment, locking, h1) = bind-eq-ok (lock_payment r.payment_id x) _ h in
      let (is_own, same) = locked r.payment_id x payment locking in
      let (v, giving, h2) =
        bind-eq-ok (if is_from_wallet r.source then give_back desk r payment x else ok x) _ h1 in
      let (z, updating, h3) =
        bind-eq-ok
          (update_payment
            (record payment { refunded_amount = sub64 payment.refunded_amount r.amount }) v)
          _ h2 in
      let failed : Refund = record r {
        status = RefundStatus.failed;
        failure_code = some "provider_failed";
        failure_reason = some reason;
      } in
      let own : row.row.payment_id ≡ x.base.payment.id = ground (arith, is_own, row.payment) in
      let kept = either_way r payment x v giving in
      SameAccounts-IsAccounted _ y
        (record {
          id = ground (arith, h3, updating);
          amount = ground (arith, h3, updating);
          captured = ground (arith, h3, updating);
          refunds = ground (arith, h3, updating, kept.refunds);
        })
        (released x failed row.row payment a row.found own row.open_row (sym row.amount) refl same)
    where
      either_way :
          (r : Refund) (payment : Payment) (x v : Tables O)
          → (if is_from_wallet r.source then give_back desk r payment x else ok x) ≡ ok v
          → SameAccounts x v
      either_way r payment x v e = elim (Bool-cases (is_from_wallet r.source)) [
        | inl from_wallet ↦ keeps_books r payment x v (sym (if_true _ _ from_wallet) ∙ e)
        | inr other ↦ here x v (sym (if_false _ _ other) ∙ e)
      ]
        where
          here : (x v : Tables O) → ◌≡◌ {A = Result (Tables O)} (ok x) (ok v) → SameAccounts x v
          here x v e = record {
            id = ground (arith, e);
            amount = ground (arith, e);
            captured = ground (arith, e);
            refunds = ground (arith, e);
          }
