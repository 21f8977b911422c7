-- ===== src/Payment/Dispute.antt =====
-- internal/payment/dispute.go: chargebacks. Evidence, which no step reads, is left out of the rows.
pub mod Laws
pub mod Posted
pub mod Steps
pub mod Charge
use Prim.Native.String.{◌++◌ as text_append}
use openpay.Base.{
  ℕ, ◌+◌, ◌==◌, ◌&&◌, ◌||◌, not, Bool, true, false, Option, none, some, String, List, [], ◌∷◌,
  str_eq, if◌then◌else◌,
}
use openpay.Base.Int.{ℤ, pos, ◌+ℤ◌, eqb_ℤ, leb_ℤ, ltb_ℤ}
use openpay.Base.Int64.{add64, sub64}
use openpay.Errors.{
  Result, ok, err, internal, not_found, already_exists, failed_precondition, ◌>>=◌, ◌>>◌, fail_if,
  or_fail,
}
use openpay.Ledger.Types.{AccountType, JournalKind, available}
use openpay.Ledger.Store.{Store, get_journal}
use openpay.Ledger.Chart.{
  psp_receivable, product_refunds_payable, product_disputed, product_chargebacks,
}
use openpay.Product.{Product, find_product}
use openpay.Wallet.Types.{Wallet}
use openpay.Wallet.Limits.{get_balance}
use openpay.Wallet.Engine.{chargeback_out, restore}
use openpay.Payment.State.{PaymentStatus, can_transition}
use openpay.Payment.Types.{PaymentApplication, Payment}
use openpay.Payment.Sync.{transition}
use openpay.Payment.Tables.{
  DisputeStatus, Dispute, ProviderDispute, AfterEvent, dispute_event, Tables, wallet_world,
  with_books, with_wallet_world, lock_payment, find_dispute, update_dispute,
}
use openpay.Payment.Refund.{Desk, payment_wallet, post_between}

-- Go's `min` and `max`
unfoldable pub smaller : ℤ → ℤ → ℤ
smaller a b = if ltb_ℤ b a then b else a

unfoldable pub larger : ℤ → ℤ → ℤ
larger a b = if ltb_ℤ a b then b else a

-- Where the contested money comes from.
pub record Sources : Type 0 where
  pub wallet : ℤ
  pub unapplied : ℤ
  pub expense : ℤ

abbrev pub rest_from_expense : ℤ → ℤ → ℤ → Sources
rest_from_expense amount wallet unapplied = record {
  wallet = wallet;
  unapplied = unapplied;
  expense = sub64 amount (add64 wallet unapplied);
}

-- What is captured and not refunded.
abbrev pub outstanding : ℤ → ℤ → ℤ
outstanding captured refunded = larger (sub64 captured refunded) (pos 0)

-- The switch on the payment's application, with what the wallet has available.
unfoldable pub split_sources : PaymentApplication → ℤ → ℤ → ℤ → Sources
split_sources PaymentApplication.applied amount left spendable =
    rest_from_expense amount (smaller (smaller amount left) (larger spendable (pos 0))) (pos 0)
split_sources PaymentApplication.unapplied amount left spendable =
    rest_from_expense amount (pos 0) (smaller amount left)
split_sources _ amount left spendable = rest_from_expense amount (pos 0) (pos 0)

abbrev pub is_applied : PaymentApplication → Bool
is_applied PaymentApplication.applied = true
is_applied _ = false

abbrev pub dispute_leg : Dispute → String → String
dispute_leg d part = text_append (text_append (text_append "dispute:" d.public_id) ":") part

-- `IsResolved`
abbrev pub is_resolved : DisputeStatus → Bool
is_resolved DisputeStatus.won = true
is_resolved DisputeStatus.lost = true
is_resolved _ = false

abbrev pub has_ref : String → String → List Dispute → Bool
has_ref provider ref [] = false
has_ref provider ref (d ∷ ds) =
    (str_eq d.provider provider && str_eq d.provider_dispute_id ref) || has_ref provider ref ds

module _ {O : Type 0} (desk : Desk O) where
  abbrev pub new_dispute : ProviderDispute → Payment → Sources → String → String → ℕ → Dispute
  new_dispute pd p s provider public_id i = record {
    id = i;
    public_id = public_id;
    payment_id = p.id;
    product_id = p.product_id;
    provider = provider;
    provider_dispute_id = pd.provider_dispute_id;
    amount = pd.amount;
    currency = pd.currency;
    reason = pd.reason;
    status = DisputeStatus.open_dispute;
    from_wallet = s.wallet;
    from_unapplied = s.unapplied;
    from_expense = s.expense;
    resolved_at = none;
  }

  -- `CreateDispute`, with the table's constraints.
  unfoldable pub insert_dispute : Dispute → Tables O → Result (Tables O)
  insert_dispute d x = do
    fail_if (has_ref d.provider d.provider_dispute_id x.disputes) already_exists
    fail_if
        (leb_ℤ d.amount (pos 0)
          || (ltb_ℤ d.from_wallet (pos 0)
              || (ltb_ℤ d.from_unapplied (pos 0)
                  || (ltb_ℤ d.from_expense (pos 0)
                      || not (
                          eqb_ℤ ((d.from_wallet +ℤ d.from_unapplied) +ℤ d.from_expense)
                            d.amount)))))
        internal
    ok (record x { disputes = d ∷ x.disputes; next_dispute = x.next_dispute + 1 })

  unfoldable pub charge_wallet : Dispute → Payment → Wallet → String → Tables O → Result (Tables O)
  charge_wallet d p wallet disputed x = do
    (j, w) ←
        chargeback_out desk.clock desk.limits
          (record {
            wallet = wallet;
            amount = d.from_wallet;
            counter_account_code = disputed;
            product_id = p.product_id;
            kind = JournalKind.adjustment;
            external_id = dispute_leg d "wallet";
          })
          (wallet_world x)
    ok (with_wallet_world w x)

  -- One part of the contested money, moved between two accounts; a part of nothing is not booked.
  unfoldable pub move_part :
      String
      → JournalKind
      → Payment
      → String
      → String
      → ℤ
      → String
      → String
      → Option ℕ
      → Tables O
      → Result (Tables O)
  move_part external kind p debit_code credit_code amount currency memo reverses x =
      post_between external kind p debit_code credit_code amount currency memo reverses x.base.books
      >>= λ s. ok (with_books s x)

  -- What the wallet has available, where the money was applied to one.
  unfoldable pub spendable_of : Payment → Tables O → Result (Option Wallet × ℤ)
  spendable_of p x =
      if is_applied p.application
      then (payment_wallet p x >>= λ wallet.
          get_balance wallet.ledger_account_id x.base.books.accounts >>= λ balance.
          ok (some wallet, available balance AccountType.liability))
      else ok (none, pos 0)

  unfoldable pub charge_if :
      Bool → Option Wallet → Dispute → Payment → String → Tables O → Result (Tables O)
  charge_if false wallet d p disputed x = ok x
  charge_if true none d p disputed x = err internal
  charge_if true (some wallet) d p disputed x = charge_wallet d p wallet disputed x

  -- `openDispute`, on the payment that the attempt belongs to.
  unfoldable pub open_dispute :
      String → String → ProviderDispute → Tables O → Result (Dispute × Tables O)
  open_dispute public_id provider pd x = do
    let payment = x.base.payment
    fail_if (not (can_transition payment.status PaymentStatus.disputed)) failed_precondition
    product ← or_fail (find_product payment.product_id x.base.products) not_found
    captured ← or_fail payment.captured_amount internal
    (wallet, spendable) ← spendable_of payment x
    let sources =
        split_sources payment.application pd.amount (outstanding captured payment.refunded_amount)
          spendable
    let d = new_dispute pd payment sources provider public_id x.next_dispute
    let disputed = product_disputed product.code
    a ← insert_dispute d x
    b ← charge_if (ltb_ℤ (pos 0) d.from_wallet) wallet d payment disputed a
    c ←
        if ltb_ℤ (pos 0) d.from_unapplied
        then move_part (dispute_leg d "unapplied") JournalKind.adjustment payment
            (product_refunds_payable product.code) disputed d.from_unapplied d.currency
            "chargeback opened: owed-back money held" none b
        else ok b
    e ←
        if ltb_ℤ (pos 0) d.from_expense
        then move_part (dispute_leg d "expense") JournalKind.adjustment payment
            (product_chargebacks product.code) disputed d.from_expense d.currency
            "chargeback opened: customer had already spent this" none c
        else ok c
    moved ← transition desk.hooks PaymentStatus.disputed "webhook" (some d.public_id) e.base
    ok (d, record e { base = moved; events = dispute_event "dispute.opened" d ∷ e.events })

  -- The part of `returnDisputedFunds` that restores the wallet.
  unfoldable pub restore_wallet : Dispute → Payment → String → Tables O → Result (Tables O)
  restore_wallet d p disputed x = do
    taken ← or_fail (get_journal (dispute_leg d "wallet") x.base.books) not_found
    wallet ← payment_wallet p x
    (j, w) ←
        restore desk.clock desk.limits
          (record {
            wallet = wallet;
            amount = d.from_wallet;
            counter_account_code = disputed;
            product_id = p.product_id;
            kind = JournalKind.reversal;
            external_id = dispute_leg d "won:wallet";
          })
          taken (wallet_world x)
    ok (with_wallet_world w x)

  -- The body of the loop over `returns`.
  unfoldable pub return_part :
      Dispute → Payment → String → String → String → ℤ → Tables O → Result (Tables O)
  return_part d p disputed part code amount x =
      if eqb_ℤ amount (pos 0)
      then ok x
      else (or_fail (get_journal (dispute_leg d part) x.base.books) not_found >>= λ taken.
          move_part (dispute_leg d (text_append "won:" part)) JournalKind.reversal p disputed code
            amount d.currency "chargeback won" (some taken.id) x)

  unfoldable pub return_disputed_funds : Dispute → Payment → String → Tables O → Result (Tables O)
  return_disputed_funds d p disputed x = do
    a ← if ltb_ℤ (pos 0) d.from_wallet then restore_wallet d p disputed x else ok x
    product ← or_fail (find_product d.product_id a.base.products) not_found
    b ←
        return_part d p disputed "unapplied" (product_refunds_payable product.code) d.from_unapplied
          a
    return_part d p disputed "expense" (product_chargebacks product.code) d.from_expense b

  unfoldable pub resolve_dispute : Dispute → Bool → String → Tables O → Result (Tables O)
  resolve_dispute d won source x = do
    payment ← lock_payment d.payment_id x
    product ← or_fail (find_product d.product_id x.base.products) not_found
    let disputed = product_disputed product.code
    a ←
        if won
        then return_disputed_funds d payment disputed x
        else move_part (dispute_leg d "lost") JournalKind.adjustment payment disputed
            (psp_receivable d.provider) d.amount d.currency "chargeback lost" none x
    let done = record d {
      status = if won then DisputeStatus.won else DisputeStatus.lost;
      resolved_at = some x.base.now;
    }
    moved ←
        transition desk.hooks
          (if won then PaymentStatus.dispute_won else PaymentStatus.dispute_lost) source
          (some d.public_id) a.base
    ok (record a {
      base = moved;
      disputes = update_dispute done a.disputes;
      events = dispute_event (if won then "dispute.won" else "dispute.lost") done ∷ a.events;
    })

  -- The switch of `SyncDispute`.
  unfoldable pub follow_dispute : DisputeStatus → Dispute → String → Tables O → Result (Tables O)
  follow_dispute DisputeStatus.won d source x = resolve_dispute d true source x
  follow_dispute DisputeStatus.lost d source x = resolve_dispute d false source x
  follow_dispute status d source x =
      ok (record x { disputes = update_dispute (record d { status = status }) x.disputes })

  unfoldable pub sync_dispute : ℕ → ProviderDispute → String → Tables O → Result (Tables O)
  sync_dispute i pd source x = do
    d ← or_fail (find_dispute i x.disputes) not_found
    if is_resolved d.status then ok x else follow_dispute pd.status d source x
