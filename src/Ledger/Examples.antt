-- ===== src/Ledger/Examples.antt =====
-- Tests of the ledger on a receivable and a customer's wallet, and instances of its theorems.
use openpay.Base.{
  inl, ◌↔◌, ◌||◌, ℕ, ◌<◌, ◌≡◌, refl, Bool, true, false, none, some, String, [], ◌∷◌, arith,
}
use openpay.Base.Int.{ℤ, pos, negsuc, ◌+ℤ◌, ◌-ℤ◌, ◌*ℤ◌}
use openpay.Base.Int64.{half, add64, sub64, mul64, wrap}
use openpay.Errors.{Result, ok, err, insufficient_balance}
use openpay.Ledger.Validate.Laws.{IsBalanced, validate_journal_iff}
use openpay.Ledger.Locks.Order.{
  Before, posts_to, releases_on, contains-lock_ids, lock_ids_never_cross,
}
use openpay.Ledger.Hold.{
  lock_account, write_held, is_short, reserve, replay_hold, place_hold, unreserve, resolve_locked,
  resolve_hold,
}
use openpay.Ledger.Hold.{net_natural_change, raw_change}
use openpay.Ledger.Hold.Capture.{
  capture_hold, first_hold, capture_holds, lock_holds, sort_holds, insert_hold, captured_before,
  capture_active, take_all, taken_from, releases_of, captured_holds, mark_captured,
}
use openpay.Ledger.Hold.Capture.Laws.{capture_hold-IsSound}
use openpay.Base.Int64.{neg64}
use openpay.Base.Int.{neg}
use openpay.Ledger.Hold.Table.{IsHoldTable}
use openpay.Ledger.Hold.Laws.Correct.{place_hold-IsSound, resolve_hold-IsSound}
use openpay.Ledger.Types.{
  AccountType, OwnerKind, AccountStatus, Journal, JournalKind, Posting, debit, credit, Hold,
  HoldStatus, signed, normal_sign,
}
use openpay.Ledger.Store.{AccountRow, Store, find_account, get_journal}
use openpay.Ledger.Locks.{
  locked_of, lock_accounts_for_posting, lock_accounts, lock_ids, sort, insert, add_id, contains,
  posting_ids, release_ids,
}
use openpay.Ledger.Post.{
  post_journal, no_check, post_new, apply_posting, free_release, free_releases, is_overdrawn,
  write_balances, write_legs,
}
use openpay.Ledger.Post.Correct.{post_journal-IsSound, post_journal-replay, post_journal-moves}
use openpay.Ledger.Validate.{validate_journal, sum_postings, check_sums, add_sum}
use openpay.Ledger.Post.Effect.{HasRoomFor}
use openpay.Ledger.Sound.{IsSoundAccount, IsSound, posted}

abbrev pub account : ℕ → String → AccountType → Bool → ℤ → ℤ → AccountRow
account i code type negative raw held = record {
  account = record {
    id = i;
    public_id = code;
    code = code;
    product_id = none;
    type = type;
    currency = "INR";
    owner_kind = OwnerKind.platform;
    owner_id = none;
    allow_negative = negative;
    status = AccountStatus.active;
  };
  balance = record { raw_balance = raw; held = held; version = pos 0 };
}

abbrev pub books : Store
books = record {
  in_tx = true;
  now = 100;
  accounts =
      account 1 "psp:mock:receivable" AccountType.asset true (pos 0) (pos 0)
      ∷ account 2 "wallet:cus_1:shop:MAIN" AccountType.liability false (pos 0) (pos 0)
      ∷ account 3 "psp:mock:suspense" AccountType.liability true (pos 0) (pos 0)
      ∷ [];
  journals = [];
  postings = [];
  holds = [];
  next_journal = 1;
  next_hold = 1;
}

abbrev pub leg : ℕ → ℤ → ℤ → Posting
leg i direction amount = record {
  journal_id = 0;
  account_id = i;
  direction = direction;
  amount = amount;
  currency = "INR";
  seq = 0;
  balance_after = pos 0;
}

abbrev pub topup : Journal
topup = record {
  id = 0;
  public_id = "ljr_1";
  external_id = "payment:pay_1:capture";
  kind = JournalKind.topup;
  product_id = none;
  source_kind = none;
  source_id = none;
  reverses_journal_id = none;
  memo = "";
  reason_code = none;
  postings = leg 1 debit (pos 500) ∷ leg 2 credit (pos 500) ∷ [];
}

pub books-IsSoundAccount :
    (n i : ℕ) (r : AccountRow)
    → n < half
    → find_account i books.accounts ≡ some r
    → IsSoundAccount n [] (locked_of r)
unfolding ◌*ℤ◌ normal_sign
books-IsSoundAccount n i r small e = record {
  balanced = ground (arith, e);
  room = ground (arith, e, small);
  reserve = ground (arith, e);
  covered = λ strict. ground (arith, e, strict);
}

pub books-IsSound : IsSound books
books-IsSound = record {
  accounts = λ i r e. books-IsSoundAccount 0 i r (omega arith) e;
  held = λ i r e. ground (arith, e);
  running = tt;
  balanced = λ j c. refl;
  two_legs = tt;
  currency = tt;
  fresh = tt;
  numbered = tt;
}

-- What posting the top-up leaves.
abbrev pub funded : Store
funded = record books {
  accounts =
      record (account 1 "psp:mock:receivable" AccountType.asset true (pos 500) (pos 0)) {
        balance = record { raw_balance = pos 500; held = pos 0; version = pos 1 };
      }
      ∷ record (account 2 "wallet:cus_1:shop:MAIN" AccountType.liability false (pos 0) (pos 0)) {
        balance = record { raw_balance = negsuc 499; held = pos 0; version = pos 1 };
      }
      ∷ account 3 "psp:mock:suspense" AccountType.liability true (pos 0) (pos 0)
      ∷ [];
  journals = record topup { id = 1; postings = [] } ∷ [];
  postings =
      record (leg 2 credit (pos 500)) { journal_id = 1; seq = 1; balance_after = negsuc 499 }
      ∷ record (leg 1 debit (pos 500)) { journal_id = 1; seq = 0; balance_after = pos 500 }
      ∷ [];
  next_journal = 2;
}

abbrev pub topup_posted : Journal
topup_posted = record topup {
  id = 1;
  postings =
      record (leg 1 debit (pos 500)) { journal_id = 1; seq = 0; balance_after = pos 500 }
      ∷ record (leg 2 credit (pos 500)) { journal_id = 1; seq = 1; balance_after = negsuc 499 }
      ∷ [];
}

pub post_topup : post_journal [] no_check topup books ≡ ok (true, topup_posted, funded)
unfolding post_journal validate_journal sum_postings check_sums add_sum add64 sub64 mul64 wrap ◌+ℤ◌
    ◌-ℤ◌ ◌*ℤ◌ signed get_journal post_new lock_accounts_for_posting lock_accounts lock_ids sort
    insert add_id contains posting_ids release_ids apply_posting free_release free_releases
    is_overdrawn write_balances write_legs normal_sign
post_topup = refl

topup_valid : validate_journal topup ≡ ok tt
unfolding post_journal validate_journal sum_postings check_sums add_sum add64 sub64 mul64 wrap ◌+ℤ◌
    ◌-ℤ◌ ◌*ℤ◌ signed get_journal post_new lock_accounts_for_posting lock_accounts lock_ids sort
    insert add_id contains posting_ids release_ids apply_posting free_release free_releases
    is_overdrawn write_balances write_legs normal_sign
topup_valid = refl

books-HasRoomFor : HasRoomFor 1000 books
books-HasRoomFor i r e = books-IsSoundAccount 1000 i r (omega arith) e

pub funded-IsSound : IsSound funded
funded-IsSound =
    post_journal-IsSound no_check topup books true topup_posted funded (omega arith)
      books-HasRoomFor books-IsSound post_topup

funded-HasRoomFor : HasRoomFor 200 funded
funded-HasRoomFor i r e =
    let a = funded-IsSound.accounts i r e in
    record {
      balanced = a.balanced;
      room = ground (arith, e);
      reserve = a.reserve;
      covered = a.covered;
    }

abbrev reservation : Hold
reservation = record {
  id = 0;
  public_id = "hld_1";
  external_id = "ord_1";
  account_id = 2;
  amount = pos 200;
  currency = "INR";
  status = HoldStatus.active;
  expires_at = 160;
  capture_journal_id = none;
  captured_amount = none;
}

abbrev wallet_after : ℤ → ℤ → AccountRow
wallet_after held version =
    record (account 2 "wallet:cus_1:shop:MAIN" AccountType.liability false (pos 0) (pos 0)) {
      balance = record { raw_balance = negsuc 499; held = held; version = version };
    }

abbrev receivable_after : AccountRow
receivable_after =
    record (account 1 "psp:mock:receivable" AccountType.asset true (pos 500) (pos 0)) {
      balance = record { raw_balance = pos 500; held = pos 0; version = pos 1 };
    }

abbrev held_books : Store
held_books = record funded {
  accounts =
      receivable_after
      ∷ wallet_after (pos 200) (pos 2)
      ∷ account 3 "psp:mock:suspense" AccountType.liability true (pos 0) (pos 0)
      ∷ [];
  holds = record reservation { id = 1 } ∷ [];
  next_hold = 2;
}

abbrev freed_books : Store
freed_books = record held_books {
  accounts =
      receivable_after
      ∷ wallet_after (pos 0) (pos 3)
      ∷ account 3 "psp:mock:suspense" AccountType.liability true (pos 0) (pos 0)
      ∷ [];
  holds = record reservation { id = 1; status = HoldStatus.released } ∷ [];
}

place : place_hold reservation funded ≡ ok (record reservation { id = 1 }, held_books)
unfolding post_journal validate_journal sum_postings check_sums add_sum add64 sub64 mul64 wrap ◌+ℤ◌
    ◌-ℤ◌ ◌*ℤ◌ signed get_journal post_new lock_accounts_for_posting lock_accounts lock_ids sort
    insert add_id contains posting_ids release_ids apply_posting free_release free_releases
    is_overdrawn write_balances write_legs normal_sign lock_account write_held is_short reserve
    replay_hold place_hold unreserve resolve_locked resolve_hold
place = refl

resolve :
    resolve_hold "ord_1" HoldStatus.released held_books
    ≡ ok (record reservation { id = 1; status = HoldStatus.released }, freed_books)
unfolding post_journal validate_journal sum_postings check_sums add_sum add64 sub64 mul64 wrap ◌+ℤ◌
    ◌-ℤ◌ ◌*ℤ◌ signed get_journal post_new lock_accounts_for_posting lock_accounts lock_ids sort
    insert add_id contains posting_ids release_ids apply_posting free_release free_releases
    is_overdrawn write_balances write_legs normal_sign lock_account write_held is_short reserve
    replay_hold place_hold unreserve resolve_locked resolve_hold
resolve = refl

-- More than is available is refused, and so is a journal that would spend what is reserved.
test_short : place_hold (record reservation { amount = pos 501 }) funded ≡ err insufficient_balance
unfolding post_journal validate_journal sum_postings check_sums add_sum add64 sub64 mul64 wrap ◌+ℤ◌
    ◌-ℤ◌ ◌*ℤ◌ signed get_journal post_new lock_accounts_for_posting lock_accounts lock_ids sort
    insert add_id contains posting_ids release_ids apply_posting free_release free_releases
    is_overdrawn write_balances write_legs normal_sign lock_account write_held is_short reserve
    replay_hold place_hold unreserve resolve_locked resolve_hold
test_short = refl

abbrev spend : Journal
spend = record topup {
  external_id = "spend";
  postings = leg 2 debit (pos 400) ∷ leg 3 credit (pos 400) ∷ [];
}

test_overdraft : post_journal [] no_check spend held_books ≡ err insufficient_balance
unfolding post_journal validate_journal sum_postings check_sums add_sum add64 sub64 mul64 wrap ◌+ℤ◌
    ◌-ℤ◌ ◌*ℤ◌ signed get_journal post_new lock_accounts_for_posting lock_accounts lock_ids sort
    insert add_id contains posting_ids release_ids apply_posting free_release free_releases
    is_overdrawn write_balances write_legs normal_sign lock_account write_held is_short reserve
    replay_hold place_hold unreserve resolve_locked resolve_hold
test_overdraft = refl

held-IsSound : IsSound held_books × IsHoldTable 2 held_books.holds
held-IsSound =
    place_hold-IsSound reservation funded (record reservation { id = 1 }) held_books funded-IsSound
      tt funded-HasRoomFor place

locks_in_order : Before 1 2 (lock_ids (leg 2 debit (pos 5) ∷ leg 1 credit (pos 5) ∷ []) [])
unfolding post_journal validate_journal sum_postings check_sums add_sum add64 sub64 mul64 wrap ◌+ℤ◌
    ◌-ℤ◌ ◌*ℤ◌ signed get_journal post_new lock_accounts_for_posting lock_accounts lock_ids sort
    insert add_id contains posting_ids release_ids apply_posting free_release free_releases
    is_overdrawn write_balances write_legs normal_sign
locks_in_order = inl (refl, refl)

abbrev purchase : Journal
purchase = record topup {
  external_id = "order:1:paid";
  postings = leg 2 debit (pos 150) ∷ leg 3 credit (pos 150) ∷ [];
}

unfoldable captured_value : Result (Hold × Bool × Journal × Store) → Journal × Store
captured_value (ok (h, b, j, s)) = (j, s)
captured_value (err c) = (purchase, held_books)

unfoldable captured : Journal × Store
captured = captured_value (capture_hold "ord_1" purchase held_books)

abbrev captured_reservation : Hold
captured_reservation = record reservation {
  id = 1;
  status = HoldStatus.captured;
  capture_journal_id = some 2;
  captured_amount = some (pos 150);
}

capture :
    capture_hold "ord_1" purchase held_books
    ≡ ok (captured_reservation, true, captured.0, captured.1)
unfolding post_journal validate_journal sum_postings check_sums add_sum add64 sub64 mul64 wrap ◌+ℤ◌
    ◌-ℤ◌ ◌*ℤ◌ signed get_journal post_new lock_accounts_for_posting lock_accounts lock_ids sort
    insert add_id contains posting_ids release_ids apply_posting free_release free_releases
    is_overdrawn write_balances write_legs normal_sign lock_account write_held is_short reserve
    replay_hold place_hold unreserve resolve_locked resolve_hold captured captured_value first_hold
    capture_hold capture_holds lock_holds sort_holds insert_hold captured_before capture_active
    take_all taken_from releases_of captured_holds mark_captured net_natural_change raw_change neg64
    neg
capture = refl

held-HasRoomFor : HasRoomFor 300 held_books
held-HasRoomFor i r e =
    let a = held-IsSound.0.accounts i r e in
    record {
      balanced = a.balanced;
      room = ground (arith, e);
      reserve = a.reserve;
      covered = a.covered;
    }

capture_hold-IsSound_example : IsSound captured.1 × IsHoldTable 2 captured.1.holds
capture_hold-IsSound_example =
    capture_hold-IsSound "ord_1" purchase held_books captured_reservation true captured.0 captured.1
      (omega arith) held-HasRoomFor (held-IsSound.0) (held-IsSound.1) capture

post_journal-IsSound_example : IsSound funded
post_journal-IsSound_example =
    post_journal-IsSound no_check topup books true topup_posted funded (omega arith)
      books-HasRoomFor books-IsSound post_topup

post_journal-replay_example :
    post_journal [] no_check topup funded ≡ ok (false, topup_posted, funded)
post_journal-replay_example =
    post_journal-replay [] [] no_check no_check topup topup books topup_posted funded books-IsSound
      post_topup refl topup_valid

post_journal-moves_example :
    (r' : AccountRow) × (find_account 2 funded.accounts ≡ some r')
    × (r'.account
        ≡ (account 2 "wallet:cus_1:shop:MAIN" AccountType.liability false (pos 0) (pos 0)).account)
    × (r'.balance.raw_balance ≡ pos 0 +ℤ posted 2 topup.postings)
    × (r'.balance.held ≡ pos 0)
post_journal-moves_example =
    post_journal-moves no_check topup books topup_posted funded (omega arith) books-HasRoomFor
      post_topup 2 (account 2 "wallet:cus_1:shop:MAIN" AccountType.liability false (pos 0) (pos 0))
      refl

validate_journal_iff_example : (validate_journal topup ≡ ok tt) ↔ IsBalanced topup
validate_journal_iff_example = validate_journal_iff topup (omega arith)

place_hold-IsSound_example : IsSound held_books × IsHoldTable 2 held_books.holds
place_hold-IsSound_example =
    place_hold-IsSound reservation funded (record reservation { id = 1 }) held_books funded-IsSound
      tt funded-HasRoomFor place

resolve_hold-IsSound_example : IsSound freed_books × IsHoldTable 2 freed_books.holds
resolve_hold-IsSound_example =
    resolve_hold-IsSound "ord_1" HoldStatus.released held_books
      (record reservation { id = 1; status = HoldStatus.released }) freed_books refl
      (held-IsSound.0) (held-IsSound.1) resolve

lock_ids_never_cross_example :
    ¬ Before 2 1 (lock_ids (leg 1 credit (pos 7) ∷ leg 2 debit (pos 7) ∷ []) [])
lock_ids_never_cross_example =
    lock_ids_never_cross 1 2 (leg 2 debit (pos 5) ∷ leg 1 credit (pos 5) ∷ [])
      (leg 1 credit (pos 7) ∷ leg 2 debit (pos 7) ∷ []) [] [] locks_in_order

contains-lock_ids_example :
    contains 2 (lock_ids topup.postings []) ≡ (posts_to 2 topup.postings || releases_on 2 [])
contains-lock_ids_example = contains-lock_ids 2 topup.postings []
