-- ===== src/Withdrawal/Examples.antt =====
-- Tests of the withdrawals of one wallet, and instances of their theorems.
use openpay.Base.{◌≡◌, refl, true, false, none, some, String, List, [], ◌∷◌}
use openpay.Base.Int.{ℤ, pos, negsuc, neg, ◌*ℤ◌, ◌+ℤ◌, ◌-ℤ◌}
use openpay.Errors.{ok}
use openpay.Ledger.Types.{AccountType, natural, normal_sign, signed}
use openpay.Ledger.Examples.{account}
use openpay.Wallet.Policy.{WalletType, needs_approval, assert_allowed, capable, credits, loads}
use openpay.Wallet.Examples.{main, wallet, clock, caps, shop}
use openpay.Wallet.Engine.{
  conclude, has_leg, move, movements, movements_of, post as post_wallet, restore, withdraw_out,
}
use openpay.Wallet.Limits.{
  check_customer_limits, check_limited, check_limits_after_posting, check_max_balance,
  customer_funded_balance, customer_funded_loads, is_funded, is_wallet_load,
}
use openpay.Ledger.Chart.{coded, find_account_by_code}
use openpay.Ledger.Post.{
  apply_posting, free_release, free_releases, is_overdrawn, post_journal, post_new, write_balances,
  write_legs,
}
use openpay.Ledger.Validate.{add_sum, check_sums, sum_postings, validate_journal}
use openpay.Base.Int64.{add64, mul64, neg64, sub64, wrap}
use openpay.Ledger.Store.{get_journal}
use openpay.Ledger.Locks.{
  add_id, contains, insert, lock_accounts, lock_accounts_for_posting, lock_ids, posting_ids,
  release_ids, sort,
}
use openpay.Withdrawal.Types.{
  BeneficiaryStatus, Beneficiary, WithdrawalStatus, Withdrawal, PayoutStatus, Payout, Desk, World,
  save, has_four_eyes, withdrawn_since,
}
use openpay.Withdrawal.Engine.{
  request, approve, reject, decide, submit, answered, apply, follow, apply_paid, return_funds, sync,
  resubmit, check_daily_limits, post, is_settled,
}
use openpay.Withdrawal.Vetted.{AllVetted}
use openpay.Withdrawal.Calls.{Call, run, serve, serve-AllVetted}

abbrev payable_out : WalletType
payable_out = record main {
  withdrawable = true;
  daily_withdrawal_limit = some (pos 400);
  withdrawal_approval_threshold = some (pos 100);
}

abbrev home_bank : Beneficiary
home_bank = record {
  id = 1;
  public_id = "ben_1";
  customer_id = 7;
  account_number = some "sealed";
  vpa = none;
  status = BeneficiaryStatus.verified;
  verified_at = some 10;
}

abbrev under_way : Payout
under_way = record {
  provider_payout_id = "pout_1";
  status = PayoutStatus.processing;
  failure_reason = "";
}

abbrev bounced : Payout
bounced = record {
  provider_payout_id = "pout_1";
  status = PayoutStatus.reversed;
  failure_reason = "account closed";
}

abbrev desk : Desk
desk = record {
  wallet_clock = clock;
  wallet_limits = caps;
  now = 100;
  start_of_day = 50;
  bank = "hdfc";
  beneficiary_cooling = 30;
  max_customer_daily_withdrawal = pos 0;
  max_customer_daily_withdrawals = pos 3;
  choose = ok "mock";
  unseal = λ sealed. ok "0123456789";
  payer = λ name. ok (λ x b. ok under_way);
}

abbrev counter : World
counter = record {
  base = record shop {
    types = payable_out ∷ [];
    books = record (shop.books) {
      accounts =
          account 1 "liability:payouts_in_transit" AccountType.liability true (pos 0) (pos 0)
          ∷ account 2 "wallet:cus_1:shop:MAIN" AccountType.liability false (negsuc 499) (pos 0)
          ∷ account 3 "bank:hdfc:current" AccountType.asset true (pos 500) (pos 0)
          ∷ [];
    };
  };
  beneficiaries = home_bank ∷ [];
  rows = [];
  next_row = 1;
  events = [];
}

abbrev asked : String → ℤ → Call
asked public_id n =
    Call.requesting public_id
      (record { wallet = wallet; beneficiary = home_bank; amount = n; requested_by = "asha" })

status_of : List Withdrawal → List WithdrawalStatus
status_of [] = []
status_of (x ∷ xs) = x.status ∷ status_of xs

abbrev statuses : List (Desk × Call) → List WithdrawalStatus
statuses calls = status_of (serve calls counter).rows

abbrev calls : List (Desk × Call)
calls =
    (desk, asked "po_1" (pos 200))
    ∷ (desk, Call.approving 1 "asha" "mine")
    ∷ (desk, asked "po_2" (pos 50))
    ∷ []

abbrev more_calls : List (Desk × Call)
more_calls =
    (desk, asked "po_1" (pos 200))
    ∷ (desk, Call.approving 1 "ravi" "known payee")
    ∷ (desk, Call.syncing 1 bounced)
    ∷ (desk, asked "po_2" (pos 500))
    ∷ []

-- Above the threshold it waits, and asha may not decide on her own; a small one is sent at once.
statuses_test :
    statuses calls ≡ WithdrawalStatus.processing ∷ WithdrawalStatus.pending_approval ∷ []
unfolding needs_approval run serve request approve reject decide submit answered apply follow
    apply_paid return_funds sync resubmit check_daily_limits post is_settled save has_four_eyes
    withdrawn_since withdraw_out move post_wallet restore conclude movements_of movements has_leg
    check_limits_after_posting check_limited check_max_balance check_customer_limits is_wallet_load
    is_funded customer_funded_balance customer_funded_loads natural assert_allowed capable credits
    loads coded find_account_by_code post_journal validate_journal sum_postings check_sums add_sum
    add64 sub64 mul64 neg64 neg wrap ◌+ℤ◌ ◌-ℤ◌ ◌*ℤ◌ signed get_journal post_new
    lock_accounts_for_posting lock_accounts lock_ids sort insert add_id contains posting_ids
    release_ids apply_posting free_release free_releases is_overdrawn write_balances write_legs
    normal_sign status_of
statuses_test = refl

-- The payout that ravi approved bounces back, and a withdrawal above the day's limit leaves no row.
bounced_test : statuses more_calls ≡ WithdrawalStatus.reversed ∷ []
unfolding needs_approval run serve request approve reject decide submit answered apply follow
    apply_paid return_funds sync resubmit check_daily_limits post is_settled save has_four_eyes
    withdrawn_since withdraw_out move post_wallet restore conclude movements_of movements has_leg
    check_limits_after_posting check_limited check_max_balance check_customer_limits is_wallet_load
    is_funded customer_funded_balance customer_funded_loads natural assert_allowed capable credits
    loads coded find_account_by_code post_journal validate_journal sum_postings check_sums add_sum
    add64 sub64 mul64 neg64 neg wrap ◌+ℤ◌ ◌-ℤ◌ ◌*ℤ◌ signed get_journal post_new
    lock_accounts_for_posting lock_accounts lock_ids sort insert add_id contains posting_ids
    release_ids apply_posting free_release free_releases is_overdrawn write_balances write_legs
    normal_sign status_of
bounced_test = refl

serve-AllVetted_example : AllVetted (serve calls counter)
serve-AllVetted_example = serve-AllVetted calls counter tt
