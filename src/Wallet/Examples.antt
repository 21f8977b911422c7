-- ===== src/Wallet/Examples.antt =====
-- Tests of the wallet engine on a customer's wallet in a shop, and instances of its theorems.
use openpay.Base.{
  ℕ, ◌+◌, ◌*◌, ◌<◌, ◌≡◌, refl, true, false, Option, none, some, String, List, [], ◌∷◌, arith,
}
use openpay.Base.Int.{ℤ, pos, negsuc, ◌+ℤ◌, ◌-ℤ◌, ◌*ℤ◌, neg}
use openpay.Base.Int64.{half, add64, sub64, mul64, neg64, wrap}
use openpay.Errors.{Result, ok, err, already_exists}
use openpay.Ledger.Types.{
  Direction, AccountType, JournalKind, Journal, Posting, debit, credit, signed, normal_sign,
  natural,
}
use openpay.Ledger.Store.{AccountRow, find_account, get_journal}
use openpay.Ledger.Chart.{coded, find_account_by_code}
use openpay.Ledger.Validate.{validate_journal, sum_postings, check_sums, add_sum}
use openpay.Ledger.Locks.{
  locked_of, lock_accounts_for_posting, lock_accounts, lock_ids, sort, insert, add_id, contains,
  posting_ids, release_ids,
}
use openpay.Ledger.Post.{
  post_journal, post_new, apply_posting, free_release, free_releases, is_overdrawn, write_balances,
  write_legs,
}
use openpay.Ledger.Post.Effect.{HasRoomFor}
use openpay.Ledger.Sound.{IsSoundAccount, IsSound}
use openpay.Ledger.Examples.{account}
use openpay.Wallet.Policy.{
  Operation, WalletStatus, WalletType, assert_allowed, capable, credits, loads,
}
use openpay.Wallet.Types.{
  Wallet, Limits, FundRequest, SpendRequest, ExpiryCandidate, Clock, World, Movement,
}
use openpay.Wallet.Limits.{
  is_wallet_load, is_funded, customer_funded_balance, customer_funded_loads, check_customer_limits,
  check_max_balance, check_limited, check_limits_after_posting, limited,
}
use openpay.Wallet.Engine.{
  movements_of, movements, has_leg, conclude, post, fund, move, refund_out, restore, fund_journal,
  account_by_code,
}
use openpay.Wallet.Expiry.{destination, expire, is_still_dormant, latest_posting_id}
use openpay.Wallet.Expiry.Laws.{IsLapsed, expire-lapses}
use openpay.Wallet.Engine.Effects.{HasRoomForMove, moved_on, move-moves, restore-refund_out}
use openpay.Wallet.Engine.Retry.{HasLeg, post-retry}
use openpay.Wallet.Engine.Bounds.{IsWithinLimits, post-IsWithinLimits}
use openpay.Wallet.Engine.Books.{Sides, funding, moving, run-IsSound, run-moves}

abbrev pub main : WalletType
main = record {
  id = 1;
  code = "MAIN";
  product_id = some 1;
  currency = "INR";
  allow_negative = false;
  max_balance = some (pos 1000);
  daily_load_limit = some (pos 800);
  daily_withdrawal_limit = none;
  fundable = true;
  grantable = false;
  withdrawable = false;
  transferable = true;
  refundable_to_source = true;
  max_txn_amount = some (pos 600);
  min_withdrawal_amount = none;
  withdrawal_approval_threshold = none;
}

abbrev pub wallet : Wallet
wallet = record {
  id = 1;
  public_id = "wal_1";
  customer_id = 7;
  customer_public_id = "cus_1";
  wallet_type_id = 1;
  product_id = some 1;
  ledger_account_id = 2;
  status = WalletStatus.active;
}

abbrev pub clock : Clock
clock = record {
  posting_id = λ p. p.journal_id * 10 + p.seq;
  created_at = λ p. 100;
  start_of_day = 50;
}

abbrev pub caps : Limits
caps = record { max_customer_balance = pos 900; max_customer_daily_load = pos 900 }

abbrev pub shop : World
shop = record {
  wallets = wallet ∷ [];
  types = main ∷ [];
  products = record { id = 1; code = "shop" } ∷ [];
  outbox = [];
  books = record {
    in_tx = true;
    now = 100;
    accounts =
        account 1 "psp:mock:receivable" AccountType.asset true (pos 0) (pos 0)
        ∷ account 2 "wallet:cus_1:shop:MAIN" AccountType.liability false (pos 0) (pos 0)
        ∷ account 3 "liability:shop:refunds_payable" AccountType.liability true (pos 0) (pos 0)
        ∷ account 4 "income:shop:breakage" AccountType.income true (pos 0) (pos 0)
        ∷ [];
    journals = [];
    postings = [];
    holds = [];
    next_journal = 1;
    next_hold = 1;
  };
}

abbrev topup : FundRequest
topup = record {
  wallet = wallet;
  amount = pos 500;
  provider = "mock";
  product_id = 1;
  external_id = "payment:pay_1:capture";
}

value : Result (Journal × World) → World
value (ok (j, w)) = w
value (err c) = shop

no_journal : Journal
no_journal = record {
  id = 0;
  public_id = "";
  external_id = "";
  kind = JournalKind.topup;
  product_id = none;
  source_kind = none;
  source_id = none;
  reverses_journal_id = none;
  memo = "";
  reason_code = none;
  postings = [];
}

journal_of : Result (Journal × World) → Journal
journal_of (ok (j, w)) = j
journal_of (err c) = no_journal

-- The row with this raw balance, after so many changes.
abbrev pub moved : AccountRow → ℤ → ℕ → AccountRow
moved r raw n = record r { balance = record { raw_balance = raw; held = pos 0; version = pos n } }

abbrev pub written : ℕ → ℕ → ℕ → ℤ → ℤ → ℤ → Posting
written journal seq account direction amount after = record {
  journal_id = journal;
  account_id = account;
  direction = direction;
  amount = amount;
  currency = "INR";
  seq = seq;
  balance_after = after;
}

abbrev pub journal : ℕ → String → JournalKind → Option ℕ → String → List Posting → Journal
journal i external kind reverses memo legs = record {
  id = i;
  public_id = "";
  external_id = external;
  kind = kind;
  product_id = some 1;
  source_kind = some "wallet";
  source_id = some "wal_1";
  reverses_journal_id = reverses;
  memo = memo;
  reason_code = none;
  postings = legs;
}

abbrev pub told : String → ℤ → ℤ → Journal → Movement
told topic amount after j = record {
  topic = topic;
  wallet_id = "wal_1";
  customer_id = "cus_1";
  amount = amount;
  currency = "INR";
  balance_after = after;
  journal_id = "";
  journal_kind = j.kind;
  external_id = j.external_id;
  reason_code = none;
}

abbrev pub receivable : AccountRow
receivable = account 1 "psp:mock:receivable" AccountType.asset true (pos 0) (pos 0)

abbrev pub balance : AccountRow
balance = account 2 "wallet:cus_1:shop:MAIN" AccountType.liability false (pos 0) (pos 0)

abbrev pub payable : AccountRow
payable = account 3 "liability:shop:refunds_payable" AccountType.liability true (pos 0) (pos 0)

abbrev pub breakage : AccountRow
breakage = account 4 "income:shop:breakage" AccountType.income true (pos 0) (pos 0)

abbrev pub topup_journal : Journal
topup_journal =
    journal 1 "payment:pay_1:capture" JournalKind.topup none ""
      (written 1 0 1 debit (pos 500) (pos 500) ∷ written 1 1 2 credit (pos 500) (negsuc 499) ∷ [])

abbrev pub funded : World
funded = record shop {
  outbox = told "wallet.credited" (pos 500) (pos 500) topup_journal ∷ [];
  books = record (shop.books) {
    accounts =
        moved receivable (pos 500) 1 ∷ moved balance (negsuc 499) 1 ∷ payable ∷ breakage ∷ [];
    journals = record topup_journal { postings = [] } ∷ [];
    postings =
        written 1 1 2 credit (pos 500) (negsuc 499) ∷ written 1 0 1 debit (pos 500) (pos 500) ∷ [];
    next_journal = 2;
  };
}

fund_shop : fund clock caps topup shop ≡ ok (topup_journal, funded)
unfolding fund move refund_out restore expire is_still_dormant latest_posting_id post conclude
    movements_of movements has_leg check_limits_after_posting check_limited check_max_balance
    check_customer_limits is_wallet_load is_funded customer_funded_balance customer_funded_loads
    natural assert_allowed capable credits loads coded find_account_by_code post_journal
    validate_journal sum_postings check_sums add_sum add64 sub64 mul64 neg64 neg wrap ◌+ℤ◌ ◌-ℤ◌ ◌*ℤ◌
    signed get_journal post_new lock_accounts_for_posting lock_accounts lock_ids sort insert add_id
    contains posting_ids release_ids apply_posting free_release free_releases is_overdrawn
    write_balances write_legs normal_sign
fund_shop = refl

abbrev outgoing : SpendRequest
outgoing = record {
  wallet = wallet;
  amount = pos 200;
  counter_account_code = "liability:shop:refunds_payable";
  product_id = 1;
  kind = JournalKind.refund;
  external_id = "refund:rfd_1:reserve";
}

abbrev incoming : SpendRequest
incoming = record outgoing { kind = JournalKind.reversal; external_id = "refund:rfd_1:restore" }

abbrev reserve_journal : Journal
reserve_journal =
    journal 2 "refund:rfd_1:reserve" JournalKind.refund none "" (
      written 2 0 2 debit (pos 200) (negsuc 299) ∷ written 2 1 3 credit (pos 200) (negsuc 199) ∷ [])

abbrev reserved : World
reserved = record funded {
  outbox =
      told "wallet.credited" (pos 500) (pos 500) topup_journal
      ∷ told "wallet.debited" (pos 200) (pos 300) reserve_journal
      ∷ [];
  books = record (funded.books) {
    accounts =
        moved receivable (pos 500) 1
        ∷ moved balance (negsuc 299) 2
        ∷ moved payable (negsuc 199) 1
        ∷ breakage
        ∷ [];
    journals =
        record reserve_journal { postings = [] } ∷ record topup_journal { postings = [] } ∷ [];
    postings =
        written 2 1 3 credit (pos 200) (negsuc 199)
        ∷ written 2 0 2 debit (pos 200) (negsuc 299)
        ∷ written 1 1 2 credit (pos 500) (negsuc 499)
        ∷ written 1 0 1 debit (pos 500) (pos 500)
        ∷ [];
    next_journal = 3;
  };
}

refund_shop : refund_out clock caps outgoing funded ≡ ok (reserve_journal, reserved)
unfolding fund move refund_out restore expire is_still_dormant latest_posting_id post conclude
    movements_of movements has_leg check_limits_after_posting check_limited check_max_balance
    check_customer_limits is_wallet_load is_funded customer_funded_balance customer_funded_loads
    natural assert_allowed capable credits loads coded find_account_by_code post_journal
    validate_journal sum_postings check_sums add_sum add64 sub64 mul64 neg64 neg wrap ◌+ℤ◌ ◌-ℤ◌ ◌*ℤ◌
    signed get_journal post_new lock_accounts_for_posting lock_accounts lock_ids sort insert add_id
    contains posting_ids release_ids apply_posting free_release free_releases is_overdrawn
    write_balances write_legs normal_sign
refund_shop = refl

restored : World
restored = value (restore clock caps incoming reserve_journal reserved)

restore_journal : Journal
restore_journal = journal_of (restore clock caps incoming reserve_journal reserved)

restore_shop : restore clock caps incoming reserve_journal reserved ≡ ok (restore_journal, restored)
unfolding restored restore_journal value journal_of fund move refund_out restore expire
    is_still_dormant latest_posting_id post conclude movements_of movements has_leg
    check_limits_after_posting check_limited check_max_balance check_customer_limits is_wallet_load
    is_funded customer_funded_balance customer_funded_loads natural assert_allowed capable credits
    loads coded find_account_by_code post_journal validate_journal sum_postings check_sums add_sum
    add64 sub64 mul64 neg64 neg wrap ◌+ℤ◌ ◌-ℤ◌ ◌*ℤ◌ signed get_journal post_new
    lock_accounts_for_posting lock_accounts lock_ids sort insert add_id contains posting_ids
    release_ids apply_posting free_release free_releases is_overdrawn write_balances write_legs
    normal_sign
restore_shop = refl

abbrev dormant : ExpiryCandidate
dormant = record { wallet_public_id = "wal_1"; last_posting_id = 11; balance = pos 500 }

lapsed : World
lapsed = value (expire clock (λ n. "11") "" dormant funded)

lapse : Journal
lapse = journal_of (expire clock (λ n. "11") "" dormant funded)

expire_shop : expire clock (λ n. "11") "" dormant funded ≡ ok (lapse, lapsed)
unfolding lapsed lapse value journal_of fund move refund_out restore expire is_still_dormant
    latest_posting_id post conclude movements_of movements has_leg check_limits_after_posting
    check_limited check_max_balance check_customer_limits is_wallet_load is_funded
    customer_funded_balance customer_funded_loads natural assert_allowed capable credits loads coded
    find_account_by_code post_journal validate_journal sum_postings check_sums add_sum add64 sub64
    mul64 neg64 neg wrap ◌+ℤ◌ ◌-ℤ◌ ◌*ℤ◌ signed get_journal post_new lock_accounts_for_posting
    lock_accounts lock_ids sort insert add_id contains posting_ids release_ids apply_posting
    free_release free_releases is_overdrawn write_balances write_legs normal_sign
expire_shop = refl

shop-rows :
    (n i : ℕ) (r : AccountRow)
    → n < half
    → find_account i shop.books.accounts ≡ some r
    → IsSoundAccount n [] (locked_of r)
unfolding ◌*ℤ◌ normal_sign
shop-rows n i r small e = record {
  balanced = ground (arith, e);
  room = ground (arith, e, small);
  reserve = ground (arith, e);
  covered = λ strict. ground (arith, e, strict);
}

shop-IsSound : IsSound shop.books
shop-IsSound = record {
  accounts = λ i r e. shop-rows 0 i r (omega arith) e;
  held = λ i r e. ground (arith, e);
  running = tt;
  balanced = λ j c. refl;
  two_legs = tt;
  currency = tt;
  fresh = tt;
  numbered = tt;
}

shop-HasRoomForMove : HasRoomForMove (pos 500) shop
shop-HasRoomForMove = (omega arith, λ i r e. shop-rows 1000 i r (omega arith) e)

topup_is_new : get_journal "payment:pay_1:capture" shop.books ≡ none
unfolding get_journal
topup_is_new = refl

run-moves_example :
    IsSound funded.books
    × ((first : ℕ) × (second : ℕ) × (way : Direction) × Sides shop (funding topup) first second way
        × ((i : ℕ) (row : AccountRow)
            → find_account i shop.books.accounts ≡ some row
            → (row' : AccountRow) × (find_account i funded.books.accounts ≡ some row')
              × (row'.account ≡ row.account)
              × (row'.balance.raw_balance
                  ≡ row.balance.raw_balance +ℤ moved_on i first second way (pos 500))
              × (row'.balance.held ≡ row.balance.held)))
run-moves_example =
    run-moves clock caps (funding topup) shop topup_journal funded shop-HasRoomForMove shop-IsSound
      topup_is_new fund_shop

funded-HasRoomFor : HasRoomFor 1000 funded.books
funded-HasRoomFor i r e =
    let sound =
      run-IsSound clock caps (funding topup) shop topup_journal funded (omega arith)
        (λ i r e. shop-rows 1000 i r (omega arith) e) shop-IsSound fund_shop in
    let a = sound.accounts i r e in
    record {
      balanced = a.balanced;
      room = ground (arith, e);
      reserve = a.reserve;
      covered = a.covered;
    }

reserved-HasRoomFor : HasRoomFor 400 reserved.books
reserved-HasRoomFor i r e =
    let sound =
      run-IsSound clock caps (moving outgoing Operation.refund_out debit none) funded
        reserve_journal reserved (omega arith) (λ i r e. room400 i r e)
        (run-IsSound clock caps (funding topup) shop topup_journal funded (omega arith)
          (λ i r e. shop-rows 1000 i r (omega arith) e) shop-IsSound fund_shop)
        (unfold refund_out in refund_shop) in
    let a = sound.accounts i r e in
    record {
      balanced = a.balanced;
      room = ground (arith, e);
      reserve = a.reserve;
      covered = a.covered;
    }
  where
    room400 : HasRoomFor 400 funded.books
    room400 i r e =
        let a = funded-HasRoomFor i r e in
        record {
          balanced = a.balanced;
          room = omega (arith, a.room);
          reserve = a.reserve;
          covered = a.covered;
        }

fund_posts :
    post clock caps
      (fund_journal clock caps topup main receivable)
      wallet
      credit
      (pos 500)
      (limited wallet main Operation.fund)
      []
      shop
    ≡ ok (topup_journal, funded)
unfolding fund move refund_out restore expire is_still_dormant latest_posting_id post conclude
    movements_of movements has_leg check_limits_after_posting check_limited check_max_balance
    check_customer_limits is_wallet_load is_funded customer_funded_balance customer_funded_loads
    natural assert_allowed capable credits loads coded find_account_by_code post_journal
    validate_journal sum_postings check_sums add_sum add64 sub64 mul64 neg64 neg wrap ◌+ℤ◌ ◌-ℤ◌ ◌*ℤ◌
    signed get_journal post_new lock_accounts_for_posting lock_accounts lock_ids sort insert add_id
    contains posting_ids release_ids apply_posting free_release free_releases is_overdrawn
    write_balances write_legs normal_sign
fund_posts = refl

is_credit : credits Operation.fund ≡ true
unfolding credits
is_credit = refl

is_new : get_journal "payment:pay_1:capture" shop.books ≡ none
unfolding get_journal
is_new = refl

post-IsWithinLimits_example :
    IsWithinLimits clock caps funded wallet main Operation.fund funded.books
post-IsWithinLimits_example =
    post-IsWithinLimits clock caps (fund_journal clock caps topup main receivable) wallet credit
      (pos 500) wallet main Operation.fund [] shop topup_journal funded is_credit is_new fund_posts

refund_is_new : get_journal "refund:rfd_1:reserve" funded.books ≡ none
unfolding get_journal
refund_is_new = refl

restore_is_new : get_journal "refund:rfd_1:restore" reserved.books ≡ none
unfolding get_journal
restore_is_new = refl

payable_named : account_by_code "liability:shop:refunds_payable" funded ≡ ok payable
unfolding find_account_by_code
payable_named = refl

funded-HasRoomForMove : HasRoomForMove (pos 200) funded
funded-HasRoomForMove = (omega arith, room400)
  where
    room400 : HasRoomFor 400 funded.books
    room400 i r e =
        let a = funded-HasRoomFor i r e in
        record {
          balanced = a.balanced;
          room = omega (arith, a.room);
          reserve = a.reserve;
          covered = a.covered;
        }

move-moves_example :
    (row : AccountRow) × (find_account 3 reserved.books.accounts ≡ some row)
    × (row.account ≡ payable.account)
    × (row.balance.raw_balance ≡ pos 0 +ℤ moved_on 3 2 3 debit (pos 200))
    × (row.balance.held ≡ pos 0)
unfolding refund_out
move-moves_example =
    move-moves clock caps outgoing Operation.refund_out debit none funded reserve_journal reserved
      refund_shop payable payable_named refund_is_new funded-HasRoomForMove 3 payable refl

restore-refund_out_example :
    (row : AccountRow) × (find_account 2 restored.books.accounts ≡ some row)
    × (row.account ≡ (moved balance (negsuc 499) 1).account)
    × (row.balance.raw_balance ≡ negsuc 499)
    × (row.balance.held ≡ pos 0)
restore-refund_out_example =
    restore-refund_out clock caps outgoing incoming funded reserved restored reserve_journal
      restore_journal refl refl refl refund_is_new restore_is_new funded-HasRoomForMove
      (omega arith, reserved-HasRoomFor) refund_shop restore_shop 2 (moved balance (negsuc 499) 1)
      refl

-- The same top-up for another amount.
abbrev other_topup : Journal
other_topup = fund_journal clock caps (record topup { amount = pos 501 }) main receivable

other_topup_valid : validate_journal other_topup ≡ ok tt
unfolding validate_journal sum_postings check_sums add_sum add64 mul64 wrap ◌+ℤ◌ ◌*ℤ◌ signed
other_topup_valid = refl

post-retry_example :
    (HasLeg 2 credit (pos 501) (fund_journal clock caps topup main receivable).postings
      → post clock caps other_topup wallet credit
          (pos 501)
          (limited wallet main Operation.fund)
          []
          funded
        ≡ ok (topup_journal, funded))
    × ((HasLeg 2 credit (pos 501) (fund_journal clock caps topup main receivable).postings → ⊥)
        → post clock caps other_topup wallet credit
            (pos 501)
            (limited wallet main Operation.fund)
            []
            funded
          ≡ err already_exists)
post-retry_example =
    post-retry clock caps (fund_journal clock caps topup main receivable) other_topup wallet wallet
      credit credit (pos 500) (pos 501) (limited wallet main Operation.fund)
      (limited wallet main Operation.fund) [] [] shop topup_journal funded shop-IsSound is_new
      fund_posts refl other_topup_valid

expiry_is_new : get_journal "expiry:wal_1:11" funded.books ≡ none
unfolding get_journal
expiry_is_new = refl

breakage_named : account_by_code (destination main "shop") funded ≡ ok breakage
unfolding find_account_by_code coded
breakage_named = refl

expire-lapses_example :
    IsLapsed clock wallet dormant lapse lapsed.books × (negsuc 499 ≡ neg (pos 500))
expire-lapses_example =
    expire-lapses clock (λ n. "11") "" dormant funded lapse lapsed wallet
      (moved balance (negsuc 499) 1) breakage 1 main (record { id = 1; code = "shop" }) expire_shop
      refl expiry_is_new (omega arith) funded-HasRoomFor refl refl refl refl breakage_named
      (omega arith)
