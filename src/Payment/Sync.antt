-- ===== src/Payment/Sync.antt =====
-- internal/payment/engine.go: `Sync`, `applyCapture`, `applyOrderCapture`, `post` and `transition`;
-- internal/payment/settle.go: `MarkSettled`. An error carries no state, as the transaction or the
-- savepoint rolls back.
pub mod Capture
pub mod Laws
pub mod Correct
pub mod History
use openpay.Base.{
  ℕ, ◌≡◌, refl, Bool, true, false, ◌==◌, ◌&&◌, ◌||◌, not, Option, none, some, String, List, [], ◌∷◌,
  arith, str_eq, if◌then◌else◌,
}
use Prim.Native.String.{◌++◌ as text_append}
use openpay.Base.Int.{ℤ, pos, eqb_ℤ}
use openpay.Errors.{
  Code, Result, ok, err, internal, not_found, failed_precondition, wallet_operation_denied, ◌>>=◌,
  ◌>>◌, fail_if, or_fail,
}
use openpay.Ledger.Types.{Journal, JournalKind, Posting, debit, credit}
use openpay.Ledger.Store.{Store, AccountRow}
use openpay.Ledger.Chart.{
  find_account_by_code, psp_receivable, psp_suspense, product_refunds_payable,
}
use openpay.Ledger.Post.{post_journal, no_check}
use openpay.Product.{Product, find_product}
use openpay.Payment.State.{
  PaymentStatus, same, is_open, can_transition, ProviderStatus, from_provider,
}
use openpay.Payment.Types.{
  PaymentPurpose, PaymentApplication, Payment, PaymentAttempt, ProviderPayment, PaymentTransition,
  Event, OrderHook, Hooks, World,
}

abbrev pub capture_id : Payment → String
capture_id p = text_append (text_append "payment:" p.public_id) ":capture"

abbrev pub posting : ℕ → ℤ → ℤ → String → Posting
posting account direction amount currency = record {
  journal_id = 0;
  account_id = account;
  direction = direction;
  amount = amount;
  currency = currency;
  seq = 0;
  balance_after = pos 0;
}

-- The journal of `post`, less the public id, which is fresh.
abbrev pub capture_journal : String → Payment → ℕ → ℕ → ℤ → String → String → Journal
capture_journal external p receivable waiting amount currency memo = record {
  id = 0;
  public_id = "";
  external_id = external;
  kind = JournalKind.topup;
  product_id = some p.product_id;
  source_kind = some "payment";
  source_id = some p.public_id;
  reverses_journal_id = none;
  memo = memo;
  reason_code = none;
  postings = posting receivable debit amount currency ∷ posting waiting credit amount currency ∷ [];
}

unfoldable pub post :
    String → Payment → String → String → ℤ → String → String → Store → Result Store
post external p provider credit_code amount currency memo s = do
  receivable ← or_fail (find_account_by_code (psp_receivable provider) s.accounts) not_found
  waiting ← or_fail (find_account_by_code credit_code s.accounts) not_found
  (posted, j, s') ←
      post_journal [] no_check
        (capture_journal external p receivable.account.id waiting.account.id amount currency memo) s
  ok s'

-- `terminalTopics`
abbrev pub terminal_topic : PaymentStatus → Option String
terminal_topic PaymentStatus.captured = some "payment.succeeded"
terminal_topic PaymentStatus.failed = some "payment.failed"
terminal_topic PaymentStatus.expired = some "payment.expired"
terminal_topic PaymentStatus.cancelled = some "payment.cancelled"
terminal_topic _ = none

abbrev pub is_order : PaymentPurpose → Bool
is_order PaymentPurpose.order = true
is_order PaymentPurpose.wallet_topup = false

abbrev pub is_ended : PaymentStatus → Bool
is_ended to =
    same to PaymentStatus.failed || same to PaymentStatus.expired || same to PaymentStatus.cancelled

-- Do the provider's figures differ from what was asked for?
unfoldable pub differs : ProviderPayment → Payment → Bool
differs pp p = not (eqb_ℤ pp.amount p.amount) || not (str_eq pp.currency p.currency)

-- The failure fields: kept where the provider names no failure.
abbrev pub failure_of :
    ProviderPayment → Option String × Option String → Option String × Option String
failure_of pp old =
    if str_eq pp.failure_code "" then old else (some pp.failure_code, some pp.failure_reason)

-- The attempt's row, after the provider's report.
unfoldable pub reported : ProviderPayment → PaymentAttempt → PaymentAttempt
reported pp a =
    let f = failure_of pp (a.failure_code, a.failure_reason) in
    record a { status = pp.status; failure_code = f.0; failure_reason = f.1 }

-- `apperrors.Is(err, apperrors.WalletOperationDenied)`
abbrev pub is_denied : Code → Bool
is_denied wallet_operation_denied = true
is_denied _ = false

module _ {O : Type 0} where
  -- The hook's call in `transition`.
  unfoldable pub tell_order : Option (OrderHook O) → PaymentStatus → World O → Result (World O)
  tell_order none to w = ok w
  tell_order (some hook) to w =
      if is_order w.payment.purpose && is_ended to
      then (hook.payment_ended w.payment w.orders w.books >>= λ b.
          ok (record w { orders = b.0; books = b.1 }))
      else ok w

  unfoldable pub emit : PaymentStatus → World O → World O
  emit to w = elim (terminal_topic to) [
    | none ↦ w
    | some topic ↦ record w {
      outbox =
          record {
            topic = topic;
            status = to;
            application = w.payment.application;
            captured_amount = w.payment.captured_amount;
          }
          ∷ w.outbox;
    }
  ]

  -- The payment's row and the history, as `transition` writes them.
  abbrev pub moved : PaymentStatus → String → Option String → World O → World O
  moved to source reference w = record w {
    payment = record (w.payment) { status = to };
    history =
        record { from = w.payment.status; to = to; source = source; reference = reference }
        ∷ w.history;
  }

  unfoldable pub transition :
      Hooks O → PaymentStatus → String → Option String → World O → Result (World O)
  transition hooks to source reference w = do
    fail_if (not (same w.payment.status to) && not (can_transition w.payment.status to))
        failed_precondition
    told ← tell_order hooks.orders to (moved to source reference w)
    ok (emit to told)

  abbrev pub applied_as : PaymentApplication → Store → World O → World O
  applied_as application books w = record w {
    payment = record (w.payment) { application = application };
    books = books;
  }

  -- `applyOrderCapture`
  unfoldable pub apply_order_capture :
      Hooks O → Product → ProviderPayment → World O → Result (World O)
  apply_order_capture hooks product pp w = do
    hook ← or_fail hooks.orders internal
    (taken, orders, books) ← hook.capture_order w.payment w.attempt.provider w.orders w.books
    let w' = record w { orders = orders; books = books }
    if taken
        then ok (applied_as PaymentApplication.applied books w')
        else (post (capture_id w.payment) w.payment w.attempt.provider
              (product_refunds_payable product.code) pp.amount pp.currency
              "order could not take the payment" books
            >>= λ s. ok (applied_as PaymentApplication.unapplied s w'))

  -- The switch on `credit` in `applyCapture`; the savepoint has undone what a failed credit wrote.
  unfoldable pub credited : Result (O × Store) → Result Store → World O → Result (World O)
  credited (ok b) unapplied w =
      ok (record (applied_as PaymentApplication.applied (b.1) w) { orders = b.0 })
  credited (err c) unapplied w =
      if is_denied c
      then (unapplied >>= λ s. ok (applied_as PaymentApplication.unapplied s w))
      else err c

  unfoldable pub apply_topup_capture :
      Hooks O → Product → ProviderPayment → World O → Result (World O)
  apply_topup_capture hooks product pp w =
      credited
        (hooks.fund w.payment pp.amount w.attempt.provider (capture_id w.payment) w.orders w.books)
        (post (capture_id w.payment) w.payment w.attempt.provider
          (product_refunds_payable product.code) pp.amount pp.currency "wallet refused the credit"
          w.books)
        w

  -- What `applyCapture` writes to the payment before it books anything.
  abbrev pub with_capture : ProviderPayment → World O → World O
  with_capture pp w = record w {
    payment = record (w.payment) {
      captured_amount = some pp.amount;
      captured_at = some w.now;
      failure_code = none;
      failure_reason = none;
    };
  }

  unfoldable pub apply_capture : Hooks O → ProviderPayment → World O → Result (World O)
  apply_capture hooks pp w0 =
      let w = with_capture pp w0 in
      or_fail (find_product w.payment.product_id w.products) not_found >>= λ product.
      if differs pp w.payment
      then (post (capture_id w.payment) w.payment w.attempt.provider
            (psp_suspense w.attempt.provider) pp.amount pp.currency
            "provider amount differs from the payment's" w.books
          >>= λ s. ok (applied_as PaymentApplication.suspense s w))
      else if is_order w.payment.purpose
      then apply_order_capture hooks product pp w
      else apply_topup_capture hooks product pp w

  unfoldable pub with_attempt : ProviderPayment → World O → World O
  with_attempt pp w = record w { attempt = reported pp w.attempt }

  unfoldable pub with_failure : ProviderPayment → World O → World O
  with_failure pp w =
      let f = failure_of pp (w.payment.failure_code, w.payment.failure_reason) in
      record w { payment = record (w.payment) { failure_code = f.0; failure_reason = f.1 } }

  -- The switch on the target status.
  unfoldable pub prepare : Hooks O → PaymentStatus → ProviderPayment → World O → Result (World O)
  prepare hooks PaymentStatus.captured pp w = apply_capture hooks pp w
  prepare hooks PaymentStatus.failed pp w = ok (with_failure pp w)
  prepare hooks PaymentStatus.cancelled pp w = ok (with_failure pp w)
  prepare hooks _ pp w = ok w

  -- `Sync`, on the payment that the attempt belongs to.
  unfoldable pub sync :
      Hooks O → ProviderPayment → String → Option String → World O → Result (World O)
  sync hooks pp source reference w0 =
      let w = with_attempt pp w0 in
      let target = from_provider pp.status in
      if same target w.payment.status || not (can_transition w.payment.status target)
      then ok w
      else (prepare hooks target pp w >>= λ w'. transition hooks target source reference w')

  unfoldable pub mark_settled : Hooks O → Option String → World O → Result (World O)
  mark_settled hooks reference w = elim w.payment.settled_at [
    | some at ↦ ok w
    | none ↦
        let w' = record w { payment = record (w.payment) { settled_at = some w.now } } in
        if same w.payment.status PaymentStatus.captured
        then transition hooks PaymentStatus.settled "settlement" reference w'
        else ok w'
  ]
