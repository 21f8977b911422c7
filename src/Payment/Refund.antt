-- ===== src/Payment/Refund.antt =====
-- internal/payment/refund.go: money that goes back to its source.
pub mod Accounts
pub mod Correct
pub mod Steps
pub mod Disputed
use Prim.Native.String.{◌++◌ as text_append}
use openpay.Base.{
  ℕ, ◌+◌, ◌==◌, ◌&&◌, ◌||◌, not, Bool, true, false, Option, none, some, String, List, [], ◌∷◌,
  str_eq, if◌then◌else◌,
}
use openpay.Base.Int.{ℤ, pos, ◌+ℤ◌, eqb_ℤ, leb_ℤ}
use openpay.Base.Int64.{add64, sub64}
use openpay.Errors.{
  Code, Result, ok, err, internal, invalid_argument, not_found, failed_precondition, unavailable,
  ◌>>=◌, ◌>>◌, fail_if, or_fail,
}
use openpay.Ledger.Types.{Journal, JournalKind, debit, credit}
use openpay.Ledger.Store.{Store, get_journal}
use openpay.Ledger.Chart.{find_account_by_code, psp_receivable, product_refunds_payable}
use openpay.Ledger.Post.{post_journal, no_check}
use openpay.Product.{Product, find_product}
use openpay.Wallet.Types.{Wallet, Limits, Clock, SpendRequest}
use openpay.Wallet.Engine.{is_among, refund_out, restore}
use openpay.Wallet.Expiry.{find_wallet}
use openpay.Payment.State.{PaymentStatus}
use openpay.Payment.Types.{PaymentPurpose, PaymentApplication, Payment, Hooks, World}
use openpay.Payment.Sync.{posting, transition}
use openpay.Payment.Tables.{
  RefundStatus, is_final, RefundSource, Refund, ProviderRefundStatus, ProviderRefund, AfterEvent,
  refund_event, Tables, wallet_world, with_books, with_wallet_world, lock_payment, with_payment,
  update_payment, find_refund, update_refund,
}

abbrev pub refund_reasons : List String
refund_reasons =
    "customer_request" ∷ "duplicate_payment" ∷ "fraud" ∷ "service_issue" ∷ "unapplied_payment" ∷ []

pub record RefundRequest : Type 0 where
  pub payment_id : ℕ
  pub amount : ℤ
  pub reason_code : String
  pub memo : String
  pub requested_by : String

abbrev pub deref : Option String → String
deref none = ""
deref (some s) = s

abbrev pub refund_key : Refund → String → String
refund_key r suffix = text_append (text_append "refund:" r.public_id) suffix

abbrev pub reserve_id : Refund → String
reserve_id r = refund_key r ":reserve"

abbrev pub processed_id : Refund → String
processed_id r = refund_key r ":processed"

abbrev pub restore_id : Refund → String
restore_id r = refund_key r ":restore"

-- The journal of `postBetween`, less the public id, which is fresh.
abbrev pub between_journal :
    String → JournalKind → Payment → ℕ → ℕ → ℤ → String → String → Option ℕ → Journal
between_journal external kind p debited credited amount currency memo reverses = record {
  id = 0;
  public_id = "";
  external_id = external;
  kind = kind;
  product_id = some p.product_id;
  source_kind = some "payment";
  source_id = some p.public_id;
  reverses_journal_id = reverses;
  memo = memo;
  reason_code = none;
  postings = posting debited debit amount currency ∷ posting credited credit amount currency ∷ [];
}

unfoldable pub post_between :
    String
    → JournalKind
    → Payment
    → String
    → String
    → ℤ
    → String
    → String
    → Option ℕ
    → Store
    → Result Store
post_between external kind p debit_code credit_code amount currency memo reverses s = do
  debited ← or_fail (find_account_by_code debit_code s.accounts) not_found
  credited ← or_fail (find_account_by_code credit_code s.accounts) not_found
  (posted, j, s') ←
      post_journal [] no_check
        (between_journal external kind p debited.account.id credited.account.id amount currency memo
          reverses)
        s
  ok s'

-- May money of a payment in this status go back?
unfoldable pub is_refundable : PaymentStatus → Bool
is_refundable PaymentStatus.captured = true
is_refundable PaymentStatus.settled = true
is_refundable PaymentStatus.partially_refunded = true
is_refundable _ = false

-- Where the money is taken from.
unfoldable pub source_of : PaymentApplication → PaymentPurpose → Result RefundSource
source_of PaymentApplication.applied PaymentPurpose.order = ok RefundSource.from_order
source_of PaymentApplication.applied PaymentPurpose.wallet_topup = ok RefundSource.from_wallet
source_of PaymentApplication.unapplied purpose = ok RefundSource.from_unapplied
source_of PaymentApplication.pending purpose = err failed_precondition
source_of PaymentApplication.suspense purpose = err failed_precondition

abbrev pub is_from_wallet : RefundSource → Bool
is_from_wallet RefundSource.from_wallet = true
is_from_wallet _ = false

abbrev pub is_unavailable : Code → Bool
is_unavailable unavailable = true
is_unavailable _ = false

-- The amounts of a payment's refunds that the provider has returned: `SumProcessedRefunds`.
unfoldable pub sum_processed : ℕ → List Refund → ℤ
sum_processed i [] = pos 0
sum_processed i (r ∷ rs) =
    let rest = sum_processed i rs in
    if r.payment_id == i && elim r.status [ RefundStatus.processed ↦ true | _ ↦ false ]
    then r.amount +ℤ rest
    else rest

abbrev pub is_covered : ℤ → Option ℤ → Bool
is_covered amount none = false
is_covered amount (some captured) = leb_ℤ captured amount

-- The wallet that a payment names, as `*payment.WalletPublicID` reads it: a nil pointer is a panic.
module _ {O : Type 0} where
  abbrev pub payment_wallet : Payment → Tables O → Result Wallet
  payment_wallet p x =
      or_fail p.wallet_public_id internal >>= λ i. or_fail (find_wallet i x.wallets) not_found

-- The payment engine's collaborators: the wallet engine, the order hook, and the provider's `Refund`.
pub record Desk (O : Type 0) : Type 0 where
  pub clock : Clock
  pub limits : Limits
  pub hooks : Hooks O
  pub ask : Refund → String → Result ProviderRefund

module _ {O : Type 0} (desk : Desk O) where
  abbrev pub emit_refund : Refund → String → Tables O → Tables O
  emit_refund r topic x = record x { events = refund_event topic r ∷ x.events }

  abbrev pub save_refund : Refund → Tables O → Tables O
  save_refund r x = record x { refunds = update_refund r x.refunds }

  unfoldable pub reserve_from_wallet : Payment → Refund → Tables O → Result (Tables O)
  reserve_from_wallet p r x = do
    wallet ← payment_wallet p x
    product ← or_fail (find_product p.product_id x.base.products) not_found
    (j, w) ←
        refund_out desk.clock desk.limits
          (record {
            wallet = wallet;
            amount = r.amount;
            counter_account_code = product_refunds_payable product.code;
            product_id = p.product_id;
            kind = JournalKind.refund;
            external_id = reserve_id r;
          })
          (wallet_world x)
    ok (with_wallet_world w x)

  unfoldable pub complete_refund : Refund → ProviderRefund → String → Tables O → Result (Tables O)
  complete_refund r pr source x = do
    fail_if (not (eqb_ℤ pr.amount r.amount) || not (str_eq pr.currency r.currency))
        failed_precondition
    payment ← lock_payment r.payment_id x
    product ← or_fail (find_product r.product_id x.base.products) not_found
    s ←
        post_between (processed_id r) JournalKind.refund payment
          (product_refunds_payable product.code) (psp_receivable r.provider) r.amount r.currency
          (text_append "refund processed by " r.provider) none x.base.books
    let done = record r { status = RefundStatus.processed; processed_at = some x.base.now }
    let y = save_refund done (with_books s x)
    let to =
        if is_covered (sum_processed payment.id y.refunds) payment.captured_amount
        then PaymentStatus.refunded
        else PaymentStatus.partially_refunded
    moved ← transition desk.hooks to source (some r.public_id) y.base
    ok (emit_refund done "refund.processed" (record y { base = moved }))

  -- The part of `failRefund` that gives a wallet its reservation back.
  unfoldable pub give_back : Refund → Payment → Tables O → Result (Tables O)
  give_back r payment x = do
    reserve ← or_fail (get_journal (reserve_id r) x.base.books) not_found
    wallet ← payment_wallet payment x
    product ← or_fail (find_product payment.product_id x.base.products) not_found
    (j, w) ←
        restore desk.clock desk.limits
          (record {
            wallet = wallet;
            amount = r.amount;
            counter_account_code = product_refunds_payable product.code;
            product_id = payment.product_id;
            kind = JournalKind.reversal;
            external_id = restore_id r;
          })
          reserve (wallet_world x)
    ok (with_wallet_world w x)

  unfoldable pub fail_refund : Refund → String → Tables O → Result (Tables O)
  fail_refund r reason x = do
    payment ← lock_payment r.payment_id x
    y ← if is_from_wallet r.source then give_back r payment x else ok x
    z ←
        update_payment (record payment { refunded_amount = sub64 payment.refunded_amount r.amount })
          y
    let failed = record r {
      status = RefundStatus.failed;
      failure_code = some "provider_failed";
      failure_reason = some reason;
    }
    ok (emit_refund failed "refund.failed" (save_refund failed z))

  -- The switch of `applyRefund` over the provider's status.
  unfoldable pub follow :
      ProviderRefundStatus → Refund → ProviderRefund → String → Tables O → Result (Tables O)
  follow ProviderRefundStatus.pending r pr source x =
      ok (save_refund (record r { status = RefundStatus.pending }) x)
  follow ProviderRefundStatus.processed r pr source x = complete_refund r pr source x
  follow ProviderRefundStatus.failed r pr source x = fail_refund r pr.failure_reason x

  unfoldable pub apply_refund : Refund → ProviderRefund → String → Tables O → Result (Tables O)
  apply_refund r pr source x =
      if is_final r.status
      then ok x
      else follow pr.status (record r { provider_refund_id = some pr.provider_refund_id }) pr source
          x

  -- What `submitRefund` does with the provider's answer: a time-out leaves the refund as it is.
  unfoldable pub answered : Result ProviderRefund → Refund → Tables O → Result (Tables O)
  answered (ok pr) r x = apply_refund r pr "api" x
  answered (err c) r x = if is_unavailable c then ok x else err c

  unfoldable pub submit_refund : Refund → Tables O → Result (Tables O)
  submit_refund r x = do
    attempt ← or_fail x.latest_attempt failed_precondition
    provider_payment ← or_fail attempt failed_precondition
    answered (desk.ask r provider_payment) r x

  abbrev pub new_refund : RefundRequest → Payment → RefundSource → String → String → ℕ → Refund
  new_refund q p source provider public_id i = record {
    id = i;
    public_id = public_id;
    payment_id = p.id;
    product_id = p.product_id;
    amount = q.amount;
    currency = p.currency;
    status = RefundStatus.initiated;
    source = source;
    reason_code = q.reason_code;
    memo = q.memo;
    provider = provider;
    provider_refund_id = none;
    failure_code = none;
    failure_reason = none;
    requested_by = q.requested_by;
    processed_at = none;
  }

  -- `CreateRefund`; the public id of the refund is fresh, and the insert refuses an amount that is
  -- not positive.
  unfoldable pub create_refund : String → RefundRequest → Tables O → Result (Tables O)
  create_refund public_id q x = do
    fail_if (not (is_among q.reason_code refund_reasons)) invalid_argument
    payment ← lock_payment q.payment_id x
    fail_if (not (is_refundable payment.status)) failed_precondition
    source ← source_of payment.application payment.purpose
    fail_if (leb_ℤ q.amount (pos 0)) internal
    let r = new_refund q payment source (deref payment.provider) public_id x.next_refund
    let y = record x { refunds = r ∷ x.refunds; next_refund = x.next_refund + 1 }
    z ←
        update_payment (record payment { refunded_amount = add64 payment.refunded_amount q.amount })
          y
    v ← if is_from_wallet source then reserve_from_wallet payment r z else ok z
    submit_refund r v

  unfoldable pub sync_refund : ℕ → ProviderRefund → String → Tables O → Result (Tables O)
  sync_refund i pr source x = do
    refund ← or_fail (find_refund i x.refunds) not_found
    apply_refund refund pr source x

  -- The branch of `PollRefund` for a refund that is still initiated.
  unfoldable pub resubmit_refund : ℕ → Tables O → Result (Tables O)
  resubmit_refund i x = do
    refund ← or_fail (find_refund i x.refunds) not_found
    elim refund.status [ RefundStatus.initiated ↦ submit_refund refund x | _ ↦ ok x ]
