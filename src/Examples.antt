-- ===== src/Examples.antt =====
-- Tests of payments, orders, wallet policies and provider calls, and instances of their theorems.
use openpay.Base.{
  String, Option, ℕ, zero, suc, ◌+◌, ◌<◌, ◌≡◌, ◌↔◌, ◌≤◌, ◌⊎◌, inr, refl, true, false, none, some,
  List, [], ◌∷◌, All, arith, if◌then◌else◌, str_eq,
}
use openpay.Base.Int.{pos, neg, ◌+ℤ◌, ◌-ℤ◌, ◌*ℤ◌, ◌≤ℤ◌, ◌<ℤ◌}
use openpay.Base.Int64.{half, add64, sub64, mul64, wrap}
use openpay.Errors.{Result, ok, err, wallet_operation_denied, unavailable}
use openpay.Ledger.Types.{credit, signed, normal_sign}
use openpay.Ledger.Validate.{validate_journal, sum_postings, check_sums, add_sum}
use openpay.Ledger.Validate.Laws.{currency_sum}
use openpay.Ledger.Store.{get_journal}
use openpay.Ledger.Locks.{
  lock_accounts_for_posting, lock_accounts, lock_ids, sort, insert, add_id, contains, posting_ids,
  release_ids,
}
use openpay.Ledger.Post.{
  post_journal, post_new, apply_posting, free_release, free_releases, is_overdrawn, write_balances,
  write_legs,
}
use openpay.Ledger.Chart.{coded, find_account_by_code}
use openpay.Ledger.Examples.{leg, books}
use openpay.Payment.State.{
  PaymentStatus, ProviderStatus, transitions, can_transition, from_provider,
}
use openpay.Payment.State.Reach.{
  has_money, is_news, Run, stay, move, Run-has_money, can_transition-is_news,
}
use openpay.Payment.Types.{
  PaymentPurpose, PaymentApplication, Payment, ProviderPayment, Hooks, World,
}
use openpay.Payment.Sync.{
  moved, post, tell_order, emit, transition, differs, apply_capture, reported, with_attempt,
  prepare, sync,
}
use openpay.Payment.Sync.Laws.{IsHistory}
use openpay.Payment.Sync.History.{Life, opened, transitioned, changes, Life-changes}
use openpay.Order.Amounts.{CreateRequest, sum_lines, check_lines, validate_amounts}
use openpay.Order.Amounts.Laws.{line_volume, AmountsAgree, validate_amounts-AmountsAgree}
use openpay.Order.Refund.{
  Order, Breakdown, quot, split_refund, TenderKind, Tender, Part, accept_parts, accept_part,
  accept_wallet, accept_whole, take_from, refund_shares,
}
use openpay.Order.Refund.Taken.{IsTender, IsPart, left_sum, part_sum}
use openpay.Order.Refund.Shares.{CanGoTo, refund_shares_iff, refund_shares-total}
use openpay.Wallet.Types as WalletTypes
use openpay.Wallet.Expiry.{check_refund_in}
use openpay.Wallet.Examples.{shop, wallet}
use openpay.Order.Refund.Split.{split_refund-sum}
use openpay.Order.Journals.{Share, Components, settlement_postings, refund_postings}
use openpay.Order.Journals.Balance.{
  share_sum, settlement_postings-balanced, refund_postings-balanced,
}
use openpay.Wallet.Policy.{Operation, WalletStatus, WalletType, bypasses, capable, assert_allowed}
use openpay.Wallet.Policy.Laws.{IsWithinRules, assert_allowed_iff}
use openpay.Provider.Resilient.{Config, Circuit, Attempt, healthy, do_call}
use openpay.Provider.Resilient.Laws.{Ran, do_call-Ran, do_call-probes}
use openpay.Payment.Sync.Correct.{sync-replay, sync-IsHistory}

-- A payment that failed, and the provider's late report that it was captured, of another amount.
abbrev payment : Payment
payment = record {
  id = 7;
  public_id = "pay_1";
  product_id = 1;
  purpose = PaymentPurpose.wallet_topup;
  wallet_public_id = some "wal_1";
  provider = some "mock";
  amount = pos 500;
  currency = "INR";
  status = PaymentStatus.failed;
  application = PaymentApplication.pending;
  captured_amount = none;
  captured_at = none;
  settled_at = none;
  refunded_amount = pos 0;
  failure_code = some "declined";
  failure_reason = none;
}

abbrev before : World (Unit {0})
before = record {
  now = 100;
  payment = payment;
  attempt = record {
    public_id = "pat_1";
    provider = "mock";
    status = ProviderStatus.failed;
    failure_code = none;
    failure_reason = none;
  };
  history =
      record {
        from = PaymentStatus.created;
        to = PaymentStatus.failed;
        source = "webhook";
        reference = none;
      }
      ∷ [];
  outbox = [];
  products = record { id = 1; code = "shop" } ∷ [];
  orders = tt;
  books = books;
}

abbrev report : ProviderPayment
report = record {
  status = ProviderStatus.captured;
  amount = pos 400;
  currency = "INR";
  failure_code = "";
  failure_reason = "";
}

abbrev hooks : Hooks (Unit {0})
hooks = record { orders = none; fund = λ p a provider x o s. err wallet_operation_denied }

unfoldable value : Result (World (Unit {0})) → World (Unit {0})
value (ok w) = w
value (err c) = before

unfoldable after : World (Unit {0})
after = value (sync hooks report "webhook" none before)

sync_late : sync hooks report "webhook" none before ≡ ok after
unfolding value after sync prepare with_attempt reported apply_capture differs post transition
    tell_order emit can_transition transitions from_provider coded find_account_by_code post_journal
    validate_journal sum_postings check_sums add_sum add64 sub64 mul64 wrap ◌+ℤ◌ ◌-ℤ◌ ◌*ℤ◌ signed
    get_journal post_new lock_accounts_for_posting lock_accounts lock_ids sort insert add_id
    contains posting_ids release_ids apply_posting free_release free_releases is_overdrawn
    write_balances write_legs normal_sign
sync_late = refl

sync-replay_example : sync hooks report "poller" none after ≡ ok after
sync-replay_example = sync-replay hooks report "webhook" "poller" none none before after sync_late

history_before : IsHistory before.payment.status before.history
unfolding can_transition transitions
history_before = (refl, inr refl, tt)

sync-IsHistory_example : IsHistory after.payment.status after.history
sync-IsHistory_example =
    sync-IsHistory hooks report "webhook" none before after sync_late history_before

late_capture : Run 2 PaymentStatus.failed PaymentStatus.settled
unfolding can_transition transitions
late_capture = move {t = PaymentStatus.captured} refl (move {t = PaymentStatus.settled} refl stay)

refunds : Run 1 PaymentStatus.captured PaymentStatus.refunded
unfolding can_transition transitions
refunds = move {t = PaymentStatus.refunded} refl stay

-- A capture that comes late, and two partial refunds after it.
abbrev untouched : World (Unit {0})
untouched = record before { history = [] }

abbrev then_to : PaymentStatus → Option String → World (Unit {0}) → World (Unit {0})
then_to to reference w = emit to (moved to "webhook" reference w)

abbrev captured_late : World (Unit {0})
captured_late = then_to PaymentStatus.captured none untouched

abbrev refunded_once : World (Unit {0})
refunded_once = then_to PaymentStatus.partially_refunded (some "rfd_1") captured_late

abbrev refunded_twice : World (Unit {0})
refunded_twice = then_to PaymentStatus.partially_refunded (some "rfd_2") refunded_once

two_refunds : Life refunded_twice
unfolding transition tell_order emit can_transition transitions
two_refunds =
    transitioned hooks PaymentStatus.partially_refunded "webhook" (some "rfd_2")
      (transitioned hooks PaymentStatus.partially_refunded "webhook" (some "rfd_1")
        (transitioned hooks PaymentStatus.captured "webhook" none (opened {w = untouched} refl)
          refl)
        refl)
      refl

changes_test : changes refunded_twice.history ≡ 2
unfolding changes emit
changes_test = refl

Life-changes_example : changes refunded_twice.history ≤ 9
Life-changes_example = Life-changes refunded_twice two_refunds

Run-has_money_example : has_money PaymentStatus.refunded ≡ true
Run-has_money_example = Run-has_money 1 PaymentStatus.captured PaymentStatus.refunded refunds refl

can_transition-is_news_example :
    can_transition PaymentStatus.captured (from_provider ProviderStatus.pending)
    ≡ is_news PaymentStatus.captured ProviderStatus.pending
can_transition-is_news_example =
    can_transition-is_news PaymentStatus.captured ProviderStatus.pending

-- An order of 118, 18 of it tax, paid with 30 from a wallet and 88 by card.
abbrev tenders : List Tender
tenders =
    record {
      id = 1;
      kind = TenderKind.gateway;
      wallet_public_id = none;
      amount = pos 88;
      refunded_amount = pos 20;
    }
    ∷ record {
      id = 2;
      kind = TenderKind.wallet;
      wallet_public_id = some "wal_1";
      amount = pos 30;
      refunded_amount = pos 0;
    }
    ∷ []

tenders-IsTender : All IsTender tenders
tenders-IsTender = (
  record { refunded = omega arith; within = omega arith; small = omega arith },
  (record { refunded = omega arith; within = omega arith; small = omega arith }, tt),
)

abbrev by_card : Tender
by_card = record {
  id = 1;
  kind = TenderKind.gateway;
  wallet_public_id = none;
  amount = pos 88;
  refunded_amount = pos 88;
}

abbrev by_wallet : Tender
by_wallet = record {
  id = 2;
  kind = TenderKind.wallet;
  wallet_public_id = some "wal_1";
  amount = pos 30;
  refunded_amount = pos 12;
}

abbrev parts : List Part
parts =
    record { tender = by_card; take = pos 68 } ∷ record { tender = by_wallet; take = pos 12 } ∷ []

shares : refund_shares none shop (pos 80) tenders ≡ ok parts
unfolding refund_shares accept_parts accept_part accept_wallet accept_whole check_refund_in
    assert_allowed capable take_from add64 sub64 wrap ◌+ℤ◌ ◌-ℤ◌
shares = refl

-- The wallet is frozen, and the customer's share cannot go back to it.
abbrev closed_shop : WalletTypes.World
closed_shop = record shop { wallets = record wallet { status = WalletStatus.frozen } ∷ [] }

frozen : refund_shares none closed_shop (pos 80) tenders ≡ err wallet_operation_denied
unfolding refund_shares accept_parts accept_part accept_wallet accept_whole check_refund_in
    assert_allowed capable take_from add64 sub64 wrap ◌+ℤ◌ ◌-ℤ◌
frozen = refl

refund_shares_iff_example :
    ((ps : List Part) × (refund_shares none shop (pos 80) tenders ≡ ok ps))
    ↔ ((pos 80 ≤ℤ left_sum tenders) × CanGoTo none shop (pos 80) (take_from (pos 80) tenders).0)
refund_shares_iff_example =
    refund_shares_iff none shop (pos 80) tenders (omega arith) (omega arith) tenders-IsTender

refund_shares-total_example : (part_sum parts ≡ pos 80) × All IsPart parts
refund_shares-total_example =
    refund_shares-total none shop (pos 80) tenders parts (omega arith) (omega arith)
      tenders-IsTender shares

abbrev taxed : Order
taxed = record { tax_breakdown_provided = true; discount = pos 10; tax = pos 18; total = pos 118 }

abbrev half_of_it : Breakdown
half_of_it = record { subtotal = pos 55; discount = pos 5; tax = pos 9 }

half_split : split_refund taxed (pos 59) none ≡ ok (half_of_it, false)
unfolding split_refund quot add64 sub64 mul64 wrap ◌+ℤ◌ ◌-ℤ◌ ◌*ℤ◌
half_split = refl

split_refund-sum_example : half_of_it.subtotal -ℤ half_of_it.discount +ℤ half_of_it.tax ≡ pos 59
split_refund-sum_example =
    split_refund-sum taxed (pos 59) none half_of_it false (omega arith) half_split

abbrev components : Components
components = record {
  sales = 10;
  gst = 11;
  discounts = 12;
  subtotal = pos 110;
  discount = pos 10;
  tax = pos 18;
}

abbrev paid_from : List Share
paid_from = record { account = 2; amount = pos 30 } ∷ record { account = 1; amount = pos 88 } ∷ []

paid_in_full : share_sum paid_from ≡ components.subtotal -ℤ components.discount +ℤ components.tax
unfolding ◌+ℤ◌ ◌-ℤ◌
paid_in_full = refl

settlement_postings-balanced_example :
    currency_sum "INR" (settlement_postings "INR" paid_from components) ≡ pos 0
settlement_postings-balanced_example =
    settlement_postings-balanced "INR" "INR" paid_from components (omega arith, (omega arith, tt))
      (omega arith) (omega arith) (omega arith) paid_in_full

abbrev refunded : Components
refunded = record {
  sales = 10;
  gst = 11;
  discounts = 12;
  subtotal = pos 55;
  discount = pos 5;
  tax = pos 9;
}

credited_in_full :
    currency_sum "INR" (leg 2 credit (pos 59) ∷ [])
    ≡ (if str_eq "INR" "INR" then neg (pos 59) else pos 0)
unfolding ◌+ℤ◌ ◌*ℤ◌ neg
credited_in_full = refl

split_in_full : pos 59 ≡ refunded.subtotal -ℤ refunded.discount +ℤ refunded.tax
unfolding ◌+ℤ◌ ◌-ℤ◌
split_in_full = refl

refund_postings-balanced_example :
    currency_sum "INR" (refund_postings "INR" (leg 2 credit (pos 59) ∷ []) refunded) ≡ pos 0
refund_postings-balanced_example =
    refund_postings-balanced "INR" "INR" (leg 2 credit (pos 59) ∷ []) refunded (pos 59)
      credited_in_full split_in_full

abbrev request : CreateRequest
request = record {
  total = pos 118;
  subtotal = pos 110;
  discount = pos 10;
  tax = pos 18;
  lines =
      record { quantity = pos 2; unit_amount = pos 40 }
      ∷ record { quantity = pos 1; unit_amount = pos 30 }
      ∷ [];
  is_guest = false;
  has_tenders = true;
  auto_tender = false;
}

line_volume_small : line_volume request.lines < half
unfolding ◌*ℤ◌
line_volume_small = omega arith

request_valid : validate_amounts request ≡ ok tt
unfolding validate_amounts check_lines sum_lines add64 sub64 mul64 wrap ◌+ℤ◌ ◌-ℤ◌ ◌*ℤ◌
request_valid = refl

validate_amounts-AmountsAgree_example : AmountsAgree request
validate_amounts-AmountsAgree_example =
    validate_amounts-AmountsAgree request (omega arith) line_volume_small request_valid

abbrev bonus : WalletType
bonus = record {
  id = 2;
  code = "BONUS";
  product_id = some 1;
  currency = "INR";
  allow_negative = false;
  max_balance = none;
  daily_load_limit = none;
  daily_withdrawal_limit = none;
  fundable = false;
  grantable = true;
  withdrawable = false;
  transferable = false;
  refundable_to_source = true;
  max_txn_amount = some (pos 1000);
  min_withdrawal_amount = none;
  withdrawal_approval_threshold = none;
}

assert_allowed_iff_example :
    (assert_allowed bonus WalletStatus.active Operation.withdraw (pos 10) ≡ ok tt) ↔ (
      (pos 0 <ℤ pos 10)
      × ((bypasses Operation.withdraw ≡ true)
          ⊎ IsWithinRules bonus WalletStatus.active Operation.withdraw (pos 10)))
assert_allowed_iff_example =
    assert_allowed_iff bonus WalletStatus.active Operation.withdraw (pos 10)

abbrev config : Config
config = record { retries = 2; failure_threshold = 5; cooldown = 30 }

-- The first attempt times out, the next succeeds.
abbrev flaky : ℕ → Attempt ℕ
flaky zero = record { at = 101; result = err unavailable }
flaky (suc n) = record { at = 102 + n; result = ok 42 }

abbrev closed : Circuit
closed = record { failures = 0; open_until = 0 }

abbrev cooled : Circuit
cooled = record { failures = 5; open_until = 90 }

healthy-closed : healthy 100 closed ≡ true
unfolding healthy
healthy-closed = refl

healthy-cooled : healthy 100 cooled ≡ true
unfolding healthy
healthy-cooled = refl

do_call-Ran_example : Ran config 2 flaky 0 (do_call config 100 flaky closed)
do_call-Ran_example = do_call-Ran config 100 flaky closed healthy-closed

do_call-probes_example :
    ((do_call config 100 flaky cooled).calls ≡ 1)
    × (healthy 101 (do_call config 100 flaky cooled).circuit ≡ false)
do_call-probes_example = do_call-probes config 100 flaky cooled healthy-cooled (omega arith) refl
