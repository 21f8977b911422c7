-- ===== src/Payment/Examples.antt =====
-- Tests of refunds and disputes on a captured top-up, and instances of their theorems.
use openpay.Base.{◌≡◌, ◌≢◌, refl, true, none, some, [], ◌∷◌, arith}
use openpay.Base.Int.{pos, negsuc, ◌+ℤ◌, ◌-ℤ◌, ◌*ℤ◌, neg}
use openpay.Base.Int64.{add64, sub64, mul64, neg64, wrap}
use openpay.Errors.{Result, ok, err, unavailable}
use openpay.Ledger.Types.{AccountType, signed, normal_sign, natural, available}
use openpay.Ledger.Store.{get_journal}
use openpay.Ledger.Chart.{coded, find_account_by_code}
use openpay.Ledger.Validate.{validate_journal, sum_postings, check_sums, add_sum}
use openpay.Ledger.Locks.{
  lock_accounts_for_posting, lock_accounts, lock_ids, sort, insert, add_id, contains, posting_ids,
  release_ids,
}
use openpay.Ledger.Post.{
  post_journal, post_new, apply_posting, free_release, free_releases, is_overdrawn, write_balances,
  write_legs,
}
use openpay.Ledger.Examples.{account}
use openpay.Wallet.Policy.{assert_allowed, capable, credits, loads}
use openpay.Wallet.Limits.{check_limits_after_posting}
use openpay.Wallet.Engine.{
  movements_of, movements, has_leg, conclude, post, move, refund_out, restore, chargeback_out,
}
use openpay.Wallet.Examples as Shop
use openpay.Payment.State.{PaymentStatus, ProviderStatus, can_transition, transitions}
use openpay.Payment.Types.{PaymentPurpose, PaymentApplication, Payment}
use openpay.Payment.Sync.{transition, tell_order, emit}
use openpay.Payment.Tables.{
  RefundStatus, RefundSource, Refund, ProviderRefundStatus, ProviderRefund, Tables, DisputeStatus,
  Dispute, ProviderDispute, update_payment,
}
use openpay.Payment.Refund.{
  Desk, RefundRequest, is_refundable, source_of, post_between, reserve_from_wallet, complete_refund,
  give_back, fail_refund, follow, apply_refund, answered, submit_refund, create_refund, sync_refund,
}
use openpay.Payment.Refund.Accounts.{IsAccounted}
use openpay.Payment.Refund.Steps.{create_refund-IsAccounted, sync_refund-IsAccounted}
use openpay.Payment.Refund.Disputed.{sync_refund-disputed}
use openpay.Payment.Dispute.{
  smaller, larger, split_sources, insert_dispute, charge_wallet, move_part, spendable_of, charge_if,
  open_dispute,
}

abbrev payment : Payment
payment = record {
  id = 1;
  public_id = "pay_1";
  product_id = 1;
  purpose = PaymentPurpose.wallet_topup;
  wallet_public_id = some "wal_1";
  provider = some "mock";
  amount = pos 500;
  currency = "INR";
  status = PaymentStatus.captured;
  application = PaymentApplication.applied;
  captured_amount = some (pos 500);
  captured_at = some 100;
  settled_at = none;
  refunded_amount = pos 0;
  failure_code = none;
  failure_reason = none;
}

abbrev desk : Desk (Unit {0})
desk = record {
  clock = Shop.clock;
  limits = Shop.caps;
  hooks = record { orders = none; fund = λ p a provider x o s. err unavailable };
  ask = λ r p. err unavailable;
}

abbrev tables : Tables (Unit {0})
tables = record {
  base = record {
    now = 100;
    payment = payment;
    attempt = record {
      public_id = "pat_1";
      provider = "mock";
      status = ProviderStatus.captured;
      failure_code = none;
      failure_reason = none;
    };
    history = [];
    outbox = [];
    products = Shop.shop.products;
    orders = tt;
    books = Shop.funded.books;
  };
  latest_attempt = some (some "mock_pay_1");
  wallets = Shop.shop.wallets;
  types = Shop.shop.types;
  movements = Shop.funded.outbox;
  refunds = [];
  next_refund = 1;
  disputes = [];
  next_dispute = 1;
  events = [];
}

abbrev request : RefundRequest
request = record {
  payment_id = 1;
  amount = pos 200;
  reason_code = "customer_request";
  memo = "";
  requested_by = "operator";
}

value : Result (Tables (Unit {0})) → Tables (Unit {0})
value (ok x) = x
value (err c) = tables

created : Tables (Unit {0})
created = value (create_refund desk "rfd_1" request tables)

creates : create_refund desk "rfd_1" request tables ≡ ok created
unfolding value created create_refund submit_refund answered apply_refund follow complete_refund
    fail_refund give_back reserve_from_wallet update_payment is_refundable source_of refund_out move
    post conclude movements_of movements has_leg check_limits_after_posting assert_allowed capable
    credits loads coded find_account_by_code post_journal validate_journal sum_postings check_sums
    add_sum add64 sub64 mul64 neg64 neg wrap ◌+ℤ◌ ◌-ℤ◌ ◌*ℤ◌ signed get_journal post_new
    lock_accounts_for_posting lock_accounts lock_ids sort insert add_id contains posting_ids
    release_ids apply_posting free_release free_releases is_overdrawn write_balances write_legs
    normal_sign
creates = refl

tables-IsAccounted : IsAccounted tables
tables-IsAccounted = record {
  refunded = refl;
  covered = omega arith;
  room = omega arith;
  positive = tt;
}

create_refund-IsAccounted_example : IsAccounted created
create_refund-IsAccounted_example =
    create_refund-IsAccounted desk "rfd_1" request tables created (omega arith) tables-IsAccounted
      creates

abbrev failed_report : ProviderRefund
failed_report = record {
  provider_refund_id = "mock_rfd_1";
  status = ProviderRefundStatus.failed;
  amount = pos 200;
  currency = "INR";
  failure_reason = "bank closed";
}

failed : Tables (Unit {0})
failed = value (sync_refund desk 1 failed_report "poller" created)

fails : sync_refund desk 1 failed_report "poller" created ≡ ok failed
unfolding value failed created create_refund sync_refund submit_refund answered apply_refund follow
    complete_refund fail_refund give_back reserve_from_wallet update_payment is_refundable source_of
    refund_out restore move post conclude movements_of movements has_leg check_limits_after_posting
    assert_allowed capable credits loads coded find_account_by_code post_journal validate_journal
    sum_postings check_sums add_sum add64 sub64 mul64 neg64 neg wrap ◌+ℤ◌ ◌-ℤ◌ ◌*ℤ◌ signed
    get_journal post_new lock_accounts_for_posting lock_accounts lock_ids sort insert add_id
    contains posting_ids release_ids apply_posting free_release free_releases is_overdrawn
    write_balances write_legs normal_sign
fails = refl

sync_refund-IsAccounted_example : IsAccounted failed
sync_refund-IsAccounted_example =
    sync_refund-IsAccounted desk 1 failed_report "poller" created failed
      (create_refund-IsAccounted desk "rfd_1" request tables created (omega arith)
        tables-IsAccounted creates)
      fails

abbrev refund : Refund
refund = record {
  id = 1;
  public_id = "rfd_1";
  payment_id = 1;
  product_id = 1;
  amount = pos 200;
  currency = "INR";
  status = RefundStatus.pending;
  source = RefundSource.from_wallet;
  reason_code = "customer_request";
  memo = "";
  provider = "mock";
  provider_refund_id = some "mock_rfd_1";
  failure_code = none;
  failure_reason = none;
  requested_by = "operator";
  processed_at = none;
}

abbrev disputed : Tables (Unit {0})
disputed = record tables {
  base = record (tables.base) {
    payment = record payment { status = PaymentStatus.disputed; refunded_amount = pos 200 };
  };
  refunds = refund ∷ [];
}

abbrev processed_report : ProviderRefund
processed_report = record failed_report {
  status = ProviderRefundStatus.processed;
  failure_reason = "";
}

sync_refund-disputed_example : sync_refund desk 1 processed_report "webhook" disputed ≢ ok disputed
sync_refund-disputed_example =
    sync_refund-disputed desk 1 processed_report "webhook" disputed disputed refund refl refl refl
      refl

-- A chargeback of the whole payment, of which the customer has spent nothing.
abbrev chargeback : ProviderDispute
chargeback = record {
  provider_dispute_id = "mock_dsp_1";
  status = DisputeStatus.open_dispute;
  amount = pos 600;
  currency = "INR";
  reason = "fraud";
}

abbrev bank_tables : Tables (Unit {0})
bank_tables = record tables {
  base = record (tables.base) {
    books = record (Shop.funded.books) {
      accounts =
          Shop.moved Shop.receivable (pos 500) 1
          ∷ Shop.moved Shop.balance (negsuc 499) 1
          ∷ account 3 "liability:shop:disputed" AccountType.liability true (pos 0) (pos 0)
          ∷ account 4 "expense:shop:chargebacks" AccountType.expense true (pos 0) (pos 0)
          ∷ [];
    };
  };
}

opened_of : Result (Dispute × Tables (Unit {0})) → Dispute × Tables (Unit {0})
opened_of (ok x) = x
opened_of (err c) = (
  record {
    id = 0;
    public_id = "";
    payment_id = 0;
    product_id = 0;
    provider = "";
    provider_dispute_id = "";
    amount = pos 0;
    currency = "";
    reason = "";
    status = DisputeStatus.lost;
    from_wallet = pos 0;
    from_unapplied = pos 0;
    from_expense = pos 0;
    resolved_at = none;
  },
  tables,
)

opened : Dispute × Tables (Unit {0})
opened = opened_of (open_dispute desk "dsp_1" "mock" chargeback bank_tables)

-- The wallet's 500 are taken back, and 100 come from the product's chargebacks.
parts : (opened.0.from_wallet ≡ pos 500) × (opened.0.from_expense ≡ pos 100)
unfolding opened_of opened open_dispute spendable_of split_sources smaller larger insert_dispute
    charge_if charge_wallet move_part post_between transition tell_order emit can_transition
    transitions available natural chargeback_out move post conclude movements_of movements has_leg
    check_limits_after_posting assert_allowed capable credits loads coded find_account_by_code
    post_journal validate_journal sum_postings check_sums add_sum add64 sub64 mul64 neg64 neg wrap
    ◌+ℤ◌ ◌-ℤ◌ ◌*ℤ◌ signed get_journal post_new lock_accounts_for_posting lock_accounts lock_ids sort
    insert add_id contains posting_ids release_ids apply_posting free_release free_releases
    is_overdrawn write_balances write_legs normal_sign
parts = (refl, refl)
