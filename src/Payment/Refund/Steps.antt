-- ===== src/Payment/Refund/Steps.antt =====
-- The calls on refunds: creating one, and following the provider's view of it.
use openpay.Base.{
  ℕ, ◌+◌, ◌<◌, ◌==◌, ◌≡◌, ◌∙◌, sym, ap, refl, subst, Bool, true, false, not, ◌&&◌, inl, inr, some,
  String, List, [], ◌∷◌, arith, if◌then◌else◌, if_true, if_false, some-eq, Bool-cases,
}
use openpay.Base.Int.{ℤ, pos, pos_part, ◌+ℤ◌, ◌≤ℤ◌, ◌<ℤ◌, leb_ℤ, int_laws}
use openpay.Base.Int64.{half, add64}
use openpay.Errors.{
  Result, ok, err, bind-eq-ok, fail_if, fail_if-passes, or_fail, or_fail-some, not_found,
  failed_precondition, invalid_argument, internal,
}
use openpay.Product.{find_product}
use openpay.Wallet.Engine.{refund_out, is_among}
use openpay.Payment.Types.{Payment}
use openpay.Payment.Tables.{
  RefundStatus, is_final, Refund, ProviderRefundStatus, ProviderRefund, Tables, wallet_world,
  lock_payment, with_payment, update_payment, find_refund,
}
use openpay.Payment.Refund.{
  Desk, RefundRequest, refund_reasons, is_refundable, source_of, is_from_wallet, is_unavailable,
  payment_wallet, follow, apply_refund, answered, submit_refund, new_refund, reserve_from_wallet,
  create_refund, sync_refund, deref,
}
use openpay.Payment.Refund.Accounts.{
  is_failed, share, promised, captured_of, IsAccounted, SameAccounts, SameAccounts-IsAccounted,
  save-IsAccounted, add64_checked, promised-pos,
}
use openpay.Payment.Refund.Correct.{
  IsRowOf, locked, complete_refund-IsAccounted, fail_refund-IsAccounted,
}

same_ok : {A : Type 0} (x y : A) → ◌≡◌ {A = Result A} (ok x) (ok y) → x ≡ y
same_ok x y e = cc

not_final_alive : (s : RefundStatus) → is_final s ≡ false → is_failed s ≡ false
not_final_alive s e = ground arith

same_id : (n : ℕ) → (n == n) ≡ true
same_id n = ground arith

find_refund-id : (i : ℕ) (rs : List Refund) (r : Refund) → find_refund i rs ≡ some r → r.id ≡ i
find_refund-id i [] r e = cc
find_refund-id i (q ∷ rs) r e = elim (Bool-cases (q.id == i)) [
  | inl here ↦
      let same : q ≡ r = some-eq q r (sym (if_true _ _ here) ∙ e) in ground (arith, here, same)
  | inr there ↦ find_refund-id i rs r (sym (if_false _ _ there) ∙ e)
]

module _ {O : Type 0} (desk : Desk O) where
  follow-IsAccounted :
      (s : ProviderRefundStatus) (r : Refund) (pr : ProviderRefund) (source : String)
      (x y : Tables O)
      → IsRowOf desk r x
      → IsAccounted x
      → follow desk s r pr source x ≡ ok y
      → IsAccounted y
  unfolding follow
  follow-IsAccounted ProviderRefundStatus.pending r pr source x y row a h =
      save-IsAccounted x y row.row (record r { status = RefundStatus.pending }) a row.found
        row.payment row.amount (sym row.open_row)
        (record {
          id = ground (arith, h);
          amount = ground (arith, h);
          captured = ground (arith, h);
          refunds = ground (arith, h);
        })
  follow-IsAccounted ProviderRefundStatus.processed r pr source x y row a h =
      complete_refund-IsAccounted desk r pr source x y row a h
  follow-IsAccounted ProviderRefundStatus.failed r pr source x y row a h =
      fail_refund-IsAccounted desk r pr.failure_reason x y row a h

  apply_refund-IsAccounted :
      (r : Refund) (pr : ProviderRefund) (source : String) (x y : Tables O)
      → find_refund r.id x.refunds ≡ some r
      → IsAccounted x
      → apply_refund desk r pr source x ≡ ok y
      → IsAccounted y
  unfolding apply_refund
  apply_refund-IsAccounted r pr source x y found a h = elim (Bool-cases (is_final r.status)) [
    | inl final ↦ subst IsAccounted (same_ok x y (sym (if_true _ _ final) ∙ h)) a
    | inr going ↦
        follow-IsAccounted pr.status (record r { provider_refund_id = some pr.provider_refund_id })
          pr source x y
          (record {
            row = r;
            found = found;
            payment = refl;
            amount = refl;
            open_row = not_final_alive r.status going;
          })
          a (sym (if_false _ _ going) ∙ h)
  ]

  answered-IsAccounted :
      (answer : Result ProviderRefund) (r : Refund) (x y : Tables O)
      → find_refund r.id x.refunds ≡ some r
      → IsAccounted x
      → answered desk answer r x ≡ ok y
      → IsAccounted y
  unfolding answered
  answered-IsAccounted (ok pr) r x y found a h = apply_refund-IsAccounted r pr "api" x y found a h
  answered-IsAccounted (err c) r x y found a h = elim (Bool-cases (is_unavailable c)) [
    | inl waits ↦ subst IsAccounted (same_ok x y (sym (if_true _ _ waits) ∙ h)) a
    | inr refused ↦ cc
  ]

  submit_refund-IsAccounted :
      (r : Refund) (x y : Tables O)
      → find_refund r.id x.refunds ≡ some r
      → IsAccounted x
      → submit_refund desk r x ≡ ok y
      → IsAccounted y
  unfolding submit_refund
  submit_refund-IsAccounted r x y found a h =
      let (attempt, _, h1) = bind-eq-ok (or_fail x.latest_attempt failed_precondition) _ h in
      let (provider_payment, _, h2) = bind-eq-ok (or_fail attempt failed_precondition) _ h1 in
      answered-IsAccounted (desk.ask r provider_payment) r x y found a h2

  -- Following a provider's report of a refund keeps the account of the payment's refunds: its refunded
  -- amount is what its refunds that have not failed come to, and no more than was captured.
  pub sync_refund-IsAccounted :
      (i : ℕ) (pr : ProviderRefund) (source : String) (x y : Tables O)
      → IsAccounted x
      → sync_refund desk i pr source x ≡ ok y
      → IsAccounted y
  unfolding sync_refund
  sync_refund-IsAccounted i pr source x y a h =
      let (r, found, h1) = bind-eq-ok (or_fail (find_refund i x.refunds) not_found) _ h in
      let there = or_fail-some (find_refund i x.refunds) not_found r found in
      apply_refund-IsAccounted r pr source x y
        (subst (λ k. find_refund k x.refunds ≡ some r) (sym (find_refund-id i x.refunds r there))
          there)
        a h1

  reserved :
      (p : Payment) (r : Refund) (x y : Tables O)
      → reserve_from_wallet desk p r x ≡ ok y
      → SameAccounts x y
  unfolding reserve_from_wallet
  reserved p r x y h =
      let (wallet, _, h1) = bind-eq-ok (payment_wallet p x) _ h in
      let (product, _, h2) =
        bind-eq-ok (or_fail (find_product p.product_id x.base.products) not_found) _ h1 in
      let (answer, _, h3) =
        bind-eq-ok (refund_out desk.clock desk.limits _ (wallet_world x)) _ h2 in
      record {
        id = ground (arith, h3);
        amount = ground (arith, h3);
        captured = ground (arith, h3);
        refunds = ground (arith, h3);
      }

  reserved_if :
      (b : Bool) (p : Payment) (r : Refund) (x y : Tables O)
      → (if b then reserve_from_wallet desk p r x else ok x) ≡ ok y
      → SameAccounts x y
  reserved_if true p r x y h = reserved p r x y h
  reserved_if false p r x y h = record {
    id = ground (arith, h);
    amount = ground (arith, h);
    captured = ground (arith, h);
    refunds = ground (arith, h);
  }

  update_payment-eq-ok :
      (p : Payment) (x y : Tables O)
      → update_payment p x ≡ ok y
      → (y ≡ with_payment p x) × (pos 0 ≤ℤ p.refunded_amount) × (p.refunded_amount ≤ℤ captured_of p)
  unfolding update_payment
  update_payment-eq-ok p x y h =
      elim (Bool-cases
        (leb_ℤ (pos 0) p.refunded_amount && leb_ℤ p.refunded_amount (captured_of p))) [
          | inl passes ↦ (
            sym (same_ok (with_payment p x) y (sym (if_true _ _ passes) ∙ h)),
            ground (arith, passes),
            ground (arith, passes),
          )
          | inr refused ↦ absurd (no_answer (sym (if_false _ _ refused) ∙ h))
        ]
    where
      no_answer : ◌≡◌ {A = Result (Tables O)} (err failed_precondition) (ok y) → ⊥
      no_answer e = cc

  -- A new refund joins the account.
  joined :
      (x : Tables O) (r : Refund) (next : ℕ) (p : Payment)
      → IsAccounted x
      → p ≡ x.base.payment
      → r.payment_id ≡ x.base.payment.id
      → r.status ≡ RefundStatus.initiated
      → pos 0 <ℤ r.amount
      → pos_part r.amount < half
      → pos 0 ≤ℤ add64 p.refunded_amount r.amount
      → add64 p.refunded_amount r.amount ≤ℤ captured_of p
      → IsAccounted (
          with_payment
            (record p { refunded_amount = add64 p.refunded_amount r.amount })
            (record x { refunds = r ∷ x.refunds; next_refund = next }))
  joined x r next p a same own fresh positive small above below =
      let i = x.base.payment.id in
      let mine : share i r ≡ r.amount = ground (arith, own, fresh) in
      let bound = promised-pos i x.refunds a.positive in
      let at : p.refunded_amount ≡ promised i x.refunds =
        ap (λ (q : Payment). q.refunded_amount) same ∙ a.refunded in
      let exact : add64 (promised i x.refunds) r.amount ≡ promised i x.refunds +ℤ r.amount =
        add64_checked (promised i x.refunds) r.amount bound
          (small_of (promised i x.refunds) (captured_of x.base.payment) bound a.covered a.room)
          positive small (subst (λ z. pos 0 ≤ℤ add64 z r.amount) at above) in
      let sums : add64 p.refunded_amount r.amount ≡ promised i (r ∷ x.refunds) =
        ap (λ z. add64 z r.amount) at
        ∙ exact
        ∙ swapped (promised i x.refunds) r.amount (share i r) mine in
      let most : captured_of p ≡ captured_of x.base.payment = ap captured_of same in
      let named : p.id ≡ i = ap (λ (q : Payment). q.id) same in
      record {
        refunded = sums ∙ ap (λ k. promised k (r ∷ x.refunds)) (sym named);
        covered =
            subst (λ k. promised k (r ∷ x.refunds) ≤ℤ captured_of p) (sym named)
              (subst (λ z. z ≤ℤ captured_of p) sums below);
        room = subst (λ z. pos_part z < half) (sym most) a.room;
        positive = (positive, a.positive);
      }
    where
      small_of : (m c : ℤ) → pos 0 ≤ℤ m → m ≤ℤ c → pos_part c < half → pos_part m < half
      small_of m c p q r = ground arith

      swapped : (m n k : ℤ) → k ≡ n → m +ℤ n ≡ k +ℤ m
      swapped m n k e = rw e (omega int_laws)

  -- Creating a refund keeps the account of the payment's refunds, whatever the provider answers: its
  -- refunded amount is what its refunds that have not failed come to, and no more than was captured.
  -- In particular a sum that overflows is refused.
  pub create_refund-IsAccounted :
      (public_id : String) (q : RefundRequest) (x y : Tables O)
      → pos_part q.amount < half
      → IsAccounted x
      → create_refund desk public_id q x ≡ ok y
      → IsAccounted y
  unfolding create_refund
  create_refund-IsAccounted public_id q x y small a h =
      let (u, _, h1) =
        bind-eq-ok (fail_if (not (is_among q.reason_code refund_reasons)) invalid_argument) _ h in
      let (payment, locking, h2) = bind-eq-ok (lock_payment q.payment_id x) _ h1 in
      let (is_own, same) = locked desk q.payment_id x payment locking in
      let (v, _, h3) =
        bind-eq-ok (fail_if (not (is_refundable payment.status)) failed_precondition) _ h2 in
      let (source, _, h4) = bind-eq-ok (source_of payment.application payment.purpose) _ h3 in
      let (k, checking, h5) = bind-eq-ok (fail_if (leb_ℤ q.amount (pos 0)) internal) _ h4 in
      let r = new_refund desk q payment source (deref payment.provider) public_id x.next_refund in
      let (z, updating, h6) =
        bind-eq-ok
          (update_payment
            (record payment { refunded_amount = add64 payment.refunded_amount q.amount })
            (record x { refunds = r ∷ x.refunds; next_refund = x.next_refund + 1 }))
          _ h5 in
      let (world, above, below) = update_payment-eq-ok _ _ z updating in
      let (t, reserving, h7) =
        bind-eq-ok (if is_from_wallet source then reserve_from_wallet desk payment r z else ok z) _
          h6 in
      let kept = reserved_if (is_from_wallet source) payment r z t reserving in
      let accounted =
        joined x r (x.next_refund + 1) payment a same (ap (λ (p : Payment). p.id) same) refl
          (above_zero q.amount (fail_if-passes (leb_ℤ q.amount (pos 0)) internal k checking)) small
          above below in
      submit_refund-IsAccounted r t y
        (subst (λ rs. find_refund r.id rs ≡ some r)
          (sym (kept.refunds ∙ ap (λ (x : Tables O). x.refunds) world))
          (if_true _ _ (same_id r.id)))
        (SameAccounts-IsAccounted z t kept (subst IsAccounted (sym world) accounted)) h7
    where
      above_zero : (n : ℤ) → leb_ℤ n (pos 0) ≡ false → pos 0 <ℤ n
      above_zero n e = ground arith
