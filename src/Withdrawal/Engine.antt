-- ===== src/Withdrawal/Engine.antt =====
-- internal/withdrawal/engine.go: `Request`, `Approve`, `Reject`, `submit`, `apply`, `returnFunds`,
-- `Sync` and `Poll`, as the transaction sees the tables. A step gives the withdrawal as it leaves it.
use Prim.Native.String.{◌++◌ as text_append}
use openpay.Base.{
  ℕ, ◌+◌, ◌==◌, ◌&&◌, not, Bool, true, false, ltb, Option, none, some, String, [], ◌∷◌, str_eq,
  if◌then◌else◌,
}
use openpay.Base.Int.{pos, ltb_ℤ, leb_ℤ}
use openpay.Errors.{
  Code, Result, ok, err, internal, invalid_argument, not_found, permission_denied,
  failed_precondition, unavailable, wallet_operation_denied, ◌>>=◌, ◌>>◌, fail_if, or_fail,
}
use openpay.Ledger.Types.{Journal, JournalKind, debit, credit}
use openpay.Ledger.Store.{Store, get_journal}
use openpay.Ledger.Chart.{find_account_by_code, payouts_in_transit, bank}
use openpay.Ledger.Post.{post_journal, no_check}
use openpay.Wallet.Policy.{WalletType, needs_approval, above}
use openpay.Wallet.Types.{Wallet, find_type}
use openpay.Wallet.Types as WalletTypes
use openpay.Wallet.Engine.{leg, withdraw_out, restore}
use openpay.Wallet.Expiry.{find_wallet}
use openpay.Withdrawal.Types.{
  BeneficiaryStatus, WithdrawalStatus, Withdrawal, PayoutStatus, Payout, WithdrawalRequest, Desk,
  World, find_withdrawal, save, find_beneficiary, withdrawn_since,
}

abbrev pub withdrawal_id : Withdrawal → String → String
withdrawal_id x step = text_append (text_append (text_append "withdrawal:" x.public_id) ":") step

-- `debitID`
abbrev pub debit_id : Withdrawal → String
debit_id x = withdrawal_id x "debit"

-- `productOf`
abbrev pub product_of : Withdrawal → ℕ
product_of x = elim x.product_id [ none ↦ 0 | some i ↦ i ]

abbrev pub status_name : WithdrawalStatus → String
status_name WithdrawalStatus.pending_approval = "pending_approval"
status_name WithdrawalStatus.approved = "approved"
status_name WithdrawalStatus.processing = "processing"
status_name WithdrawalStatus.paid = "paid"
status_name WithdrawalStatus.failed = "failed"
status_name WithdrawalStatus.rejected = "rejected"
status_name WithdrawalStatus.reversed = "reversed"

abbrev pub is_pending : WithdrawalStatus → Bool
is_pending WithdrawalStatus.pending_approval = true
is_pending _ = false

abbrev pub is_approved : WithdrawalStatus → Bool
is_approved WithdrawalStatus.approved = true
is_approved _ = false

abbrev pub is_paid : WithdrawalStatus → Bool
is_paid WithdrawalStatus.paid = true
is_paid _ = false

-- The statuses on which `Sync` does nothing.
unfoldable pub is_settled : WithdrawalStatus → Bool
is_settled WithdrawalStatus.failed = true
is_settled WithdrawalStatus.rejected = true
is_settled WithdrawalStatus.reversed = true
is_settled WithdrawalStatus.pending_approval = true
is_settled _ = false

abbrev pub is_unavailable : Code → Bool
is_unavailable unavailable = true
is_unavailable _ = false

abbrev pub is_verified : BeneficiaryStatus → Bool
is_verified BeneficiaryStatus.verified = true
is_verified _ = false

abbrev pub emit : Withdrawal → String → World → World
emit x topic w = record w { events = record { topic = topic; withdrawal = x } ∷ w.events }

abbrev pub with_base : WalletTypes.World → World → World
with_base b w = record w { base = b }

-- The journal of `post`, less the public id, which is fresh.
abbrev pub step_journal : Withdrawal → String → ℕ → ℕ → Journal
step_journal x step debited credited = record {
  id = 0;
  public_id = "";
  external_id = withdrawal_id x step;
  kind = JournalKind.adjustment;
  product_id = x.product_id;
  source_kind = some "withdrawal";
  source_id = some x.public_id;
  reverses_journal_id = none;
  memo = text_append "withdrawal " step;
  reason_code = none;
  postings = leg debited debit x.amount x.currency ∷ leg credited credit x.amount x.currency ∷ [];
}

unfoldable pub post : Withdrawal → String → String → String → Store → Result Store
post x step debit_code credit_code s = do
  debited ← or_fail (find_account_by_code debit_code s.accounts) not_found
  credited ← or_fail (find_account_by_code credit_code s.accounts) not_found
  (posted, j, s') ←
      post_journal [] no_check (step_journal x step debited.account.id credited.account.id) s
  ok s'

module _ (desk : Desk) where
  unfoldable pub return_funds :
      Withdrawal → WithdrawalStatus → String → String → World → Result (Withdrawal × World)
  return_funds x status reason from w = do
    debited ← or_fail (get_journal (debit_id x) w.base.books) not_found
    wallet ← or_fail (find_wallet x.wallet_public_id w.base.wallets) not_found
    (j, b) ←
        restore desk.wallet_clock desk.wallet_limits
          (record {
            wallet = wallet;
            amount = x.amount;
            counter_account_code = from;
            product_id = product_of x;
            kind = JournalKind.reversal;
            external_id = withdrawal_id x (status_name status);
          })
          debited w.base
    let y = record x { status = status; failure_reason = some reason }
    saved ← save y (with_base b w)
    ok (y, emit y (text_append "withdrawal." (status_name status)) saved)

  -- `apply` for a payout that was paid.
  unfoldable pub apply_paid : Withdrawal → World → Result (Withdrawal × World)
  apply_paid x w =
      if is_paid x.status
      then ok (x, w)
      else (post x "paid" payouts_in_transit (bank desk.bank) w.base.books >>= λ s.
          let y = record x { status = WithdrawalStatus.paid; paid_at = some desk.now } in
          save y (with_base (record (w.base) { books = s }) w) >>= λ saved.
          ok (y, emit y "withdrawal.paid" saved))

  -- The switch of `apply` over the payout's status.
  unfoldable pub follow : PayoutStatus → String → Withdrawal → World → Result (Withdrawal × World)
  follow PayoutStatus.processing reason x w =
      let y =
        if is_approved x.status then record x { status = WithdrawalStatus.processing } else x in
      save y w >>= λ saved. ok (y, saved)
  follow PayoutStatus.paid reason x w = apply_paid x w
  follow PayoutStatus.failed reason x w =
      return_funds x WithdrawalStatus.failed reason payouts_in_transit w
  follow PayoutStatus.reversed reason x w = apply_paid x w >>= λ (y, v).
      return_funds y WithdrawalStatus.reversed reason (bank desk.bank) v

  unfoldable pub apply : Withdrawal → Payout → World → Result (Withdrawal × World)
  apply x p w =
      follow p.status p.failure_reason (record x { provider_payout_id = some p.provider_payout_id })
        w

  -- What `submit` does with the provider's answer.
  unfoldable pub answered : Result Payout → Withdrawal → World → Result (Withdrawal × World)
  answered (ok p) x w = apply x p w
  answered (err c) x w =
      if is_unavailable c
      then (save x w >>= λ saved. ok (x, saved))
      else return_funds x WithdrawalStatus.failed "" payouts_in_transit w

  abbrev pub unsealed : Option String → Result (Option String)
  unsealed none = ok none
  unsealed (some sealed) = desk.unseal sealed >>= λ account. ok (some account)

  unfoldable pub submit : Withdrawal → World → Result (Withdrawal × World)
  submit x w = do
    pay ← desk.payer x.provider
    b ← or_fail (find_beneficiary x.beneficiary_id w.beneficiaries) not_found
    account ← unsealed b.account_number
    answered (pay x (record b { account_number = account })) x w

  -- `decide`, up to what is done about the decision.
  unfoldable pub decide : ℕ → String → String → World → Result (Withdrawal × World)
  decide i approver note w = do
    fail_if (str_eq note "") invalid_argument
    x ← or_fail (find_withdrawal i w.rows) not_found
    fail_if (not (is_pending x.status)) failed_precondition
    fail_if (str_eq approver x.requested_by) permission_denied
    let y = record x {
      decided_by = some approver;
      decided_at = some desk.now;
      decision_note = some note;
    }
    saved ← save y w
    ok (y, saved)

  unfoldable pub approve : ℕ → String → String → World → Result World
  approve i approver note w = do
    (x, v) ← decide i approver note w
    (y, u) ← submit (record x { status = WithdrawalStatus.approved }) v
    save y u

  unfoldable pub reject : ℕ → String → String → World → Result World
  reject i approver note w = do
    (x, v) ← decide i approver note w
    (y, u) ←
        return_funds x WithdrawalStatus.rejected (text_append "rejected: " note) payouts_in_transit
          v
    save y u

  unfoldable pub check_daily_limits : Withdrawal → WalletType → World → Result (Unit {0})
  check_daily_limits x t w = do
    fail_if
        (above (withdrawn_since x.customer_id (some x.wallet_id) desk.start_of_day w.rows).0
          t.daily_withdrawal_limit)
        wallet_operation_denied
    let (amount, count) = withdrawn_since x.customer_id none desk.start_of_day w.rows
    fail_if
        (ltb_ℤ (pos 0) desk.max_customer_daily_withdrawal
          && ltb_ℤ desk.max_customer_daily_withdrawal amount)
        wallet_operation_denied
    fail_if
        (ltb_ℤ (pos 0) desk.max_customer_daily_withdrawals
          && ltb_ℤ desk.max_customer_daily_withdrawals (pos count))
        wallet_operation_denied

  abbrev pub new_withdrawal : WithdrawalRequest → WalletType → String → String → ℕ → Withdrawal
  new_withdrawal r t provider public_id i = record {
    id = i;
    public_id = public_id;
    wallet_id = r.wallet.id;
    customer_id = r.wallet.customer_id;
    product_id = r.wallet.product_id;
    beneficiary_id = r.beneficiary.id;
    amount = r.amount;
    currency = t.currency;
    status =
        if needs_approval t r.amount
        then WithdrawalStatus.pending_approval
        else WithdrawalStatus.approved;
    requires_approval = needs_approval t r.amount;
    requested_by = r.requested_by;
    decided_by = none;
    decided_at = none;
    decision_note = none;
    provider = provider;
    provider_payout_id = none;
    failure_reason = none;
    paid_at = none;
    wallet_public_id = r.wallet.public_id;
    created_at = desk.now;
  }

  -- `Request`; the public id is fresh, and the insert refuses an amount that is not positive.
  unfoldable pub request : String → WithdrawalRequest → World → Result (Withdrawal × World)
  request public_id r w = do
    fail_if (not (r.beneficiary.customer_id == r.wallet.customer_id)) not_found
    fail_if (not (is_verified r.beneficiary.status)) failed_precondition
    verified ← or_fail r.beneficiary.verified_at internal
    fail_if (ltb desk.now (verified + desk.beneficiary_cooling)) failed_precondition
    t ← or_fail (find_type r.wallet.wallet_type_id w.base.types) not_found
    provider ← desk.choose
    let x = new_withdrawal r t provider public_id w.next_row
    fail_if (leb_ℤ r.amount (pos 0)) internal
    let v = record w { rows = x ∷ w.rows; next_row = w.next_row + 1 }
    (j, b) ←
        withdraw_out desk.wallet_clock desk.wallet_limits
          (record {
            wallet = r.wallet;
            amount = x.amount;
            counter_account_code = payouts_in_transit;
            product_id = product_of x;
            kind = JournalKind.adjustment;
            external_id = debit_id x;
          })
          v.base
    let u = with_base b v
    check_daily_limits x t u
    let told = emit x "withdrawal.requested" u
    if x.requires_approval then ok (x, told) else submit x told

  unfoldable pub sync : ℕ → Payout → World → Result World
  sync i p w = or_fail (find_withdrawal i w.rows) not_found >>= λ x.
      if is_settled x.status then ok w else (apply x p w >>= λ (y, v). ok v)

  -- The branch of `Poll` for a withdrawal that is still approved.
  unfoldable pub resubmit : ℕ → World → Result World
  resubmit i w = or_fail (find_withdrawal i w.rows) not_found >>= λ x.
      if is_approved x.status then (submit x w >>= λ (y, v). ok v) else ok w
