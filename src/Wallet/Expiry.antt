-- ===== src/Wallet/Expiry.antt =====
-- internal/wallet/engine.go: holds on a wallet, the expiry of a dormant one, and the questions that
-- are asked of a wallet before money is collected.
pub mod Laws
use Prim.Native.String.{◌++◌ as text_append}
use openpay.Base.{
  ℕ, ◌==◌, ◌&&◌, ◌||◌, not, Bool, true, false, Option, none, some, String, List, [], ◌∷◌, ltb, leb,
  str_eq, if◌then◌else◌,
}
use openpay.Base.Int.{ℤ, pos, eqb_ℤ}
use openpay.Errors.{
  Code, Result, ok, err, not_found, failed_precondition, insufficient_balance, ◌>>=◌, ◌>>◌, fail_if,
  or_fail,
}
use openpay.Ledger.Types.{debit, credit, Hold, HoldStatus, Journal, JournalKind, Posting, Balance}
use openpay.Ledger.Store.{AccountRow, Store}
use openpay.Ledger.Chart.{product_promotions, product_breakage}
use openpay.Ledger.Post.{Check, post_journal}
use openpay.Ledger.Hold.{place_hold, release_hold}
use openpay.Ledger.Hold.Capture.{capture_hold}
use openpay.Product.{find_product}
use openpay.Wallet.Policy.{Operation, WalletType, assert_allowed}
use openpay.Wallet.Types.{
  Wallet, SpendRequest, HoldRequest, ExpiryCandidate, Clock, World, find_type,
}
use openpay.Wallet.Limits.{get_balance}
use openpay.Wallet.Engine.{
  leg, new_journal, wallet_key, emit_movements, allowed_type, account_by_code,
}

-- `HoldExternalID`
abbrev pub hold_external_id : Wallet → String → String
hold_external_id w reference = wallet_key "hold:" w reference

-- `Hold`; its public id is fresh.
unfoldable pub hold : HoldRequest → World → Result (Hold × World)
hold r w = do
  t ← allowed_type Operation.hold r.wallet r.amount w
  (h, s) ←
      place_hold
        (record {
          id = 0;
          public_id = "";
          external_id = hold_external_id r.wallet r.reference;
          account_id = r.wallet.ledger_account_id;
          amount = r.amount;
          currency = t.currency;
          status = HoldStatus.active;
          expires_at = r.expires_at;
          capture_journal_id = none;
          captured_amount = none;
        })
        w.books
  ok (h, record w { books = s })

-- `CaptureHold`
unfoldable pub spend_hold : SpendRequest → String → World → Result (Journal × World)
spend_hold r reference w = do
  t ← or_fail (find_type r.wallet.wallet_type_id w.types) not_found
  counter ← account_by_code r.counter_account_code w
  let legs =
      leg r.wallet.ledger_account_id debit r.amount t.currency
      ∷ leg counter.account.id credit r.amount t.currency
      ∷ []
  (h, captured, j, s) ←
      capture_hold (hold_external_id r.wallet reference)
        (new_journal r.external_id r.kind (some r.product_id) r.wallet none "" none legs) w.books
  ok (
      if captured
      then (j, emit_movements j (r.wallet ∷ []) (record w { books = s }))
      else (j, record w { books = s }))

-- `ReleaseHold`
unfoldable pub free_hold : Wallet → String → World → Result (Hold × World)
free_hold wallet reference w = do
  (h, s) ← release_hold (hold_external_id wallet reference) w.books
  ok (h, record w { books = s })

-- `GetWalletByPublicID`
abbrev pub find_wallet : String → List Wallet → Option Wallet
find_wallet x [] = none
find_wallet x (w ∷ ws) = if str_eq w.public_id x then some w else find_wallet x ws

abbrev pub max_ℕ : ℕ → ℕ → ℕ
max_ℕ a b = if ltb a b then b else a

-- `LatestPostingID`
unfoldable pub latest_posting_id : Clock → ℕ → ℕ → List Posting → ℕ
latest_posting_id c account excluding [] = 0
latest_posting_id c account excluding (p ∷ ps) =
    let rest = latest_posting_id c account excluding ps in
    if p.account_id == account && not (p.journal_id == excluding)
    then max_ℕ (c.posting_id p) rest
    else rest

-- `ErrExpiryStale` is an error of the code failed_precondition.
unfoldable pub is_still_dormant : Clock → Wallet → ℕ → Check
is_still_dormant c wallet last j s = do
  balance ← get_balance wallet.ledger_account_id s.accounts
  fail_if
      (not (latest_posting_id c wallet.ledger_account_id j.id s.postings == last)
        || (not (eqb_ℤ balance.raw_balance (pos 0)) || not (eqb_ℤ balance.held (pos 0))))
      failed_precondition

-- `apperrors.Is(err, apperrors.InsufficientBalance)` answers `ErrExpiryStale`.
abbrev pub as_stale : Code → Code
as_stale insufficient_balance = failed_precondition
as_stale c = c

abbrev pub mend {ℓ} : {A : Type ℓ} → Result A → Result A
mend (ok a) = ok a
mend (err c) = err (as_stale c)

-- Where an expired balance goes.
abbrev pub destination : WalletType → String → String
destination t product = if t.fundable then product_breakage product else product_promotions product

abbrev pub expiry_journal :
    (ℕ → String) → ExpiryCandidate → Wallet → ℕ → String → String → ℕ → Journal
expiry_journal format candidate w product currency memo counter =
    new_journal (wallet_key "expiry:" w (format candidate.last_posting_id)) JournalKind.expiry
      (some product) w none memo none
      (leg w.ledger_account_id debit candidate.balance currency
        ∷ leg counter credit candidate.balance currency
        ∷ [])

-- `Expire`; `format` is `strconv.FormatInt`, and the memo is free text.
unfoldable pub expire :
    Clock → (ℕ → String) → String → ExpiryCandidate → World → Result (Journal × World)
expire c format memo candidate w = do
  wallet ← or_fail (find_wallet candidate.wallet_public_id w.wallets) not_found
  owner ← or_fail wallet.product_id failed_precondition
  t ← or_fail (find_type wallet.wallet_type_id w.types) not_found
  product ← or_fail (find_product owner w.products) not_found
  counter ← account_by_code (destination t product.code) w
  (posted, j, s) ← mend (
      post_journal [] (is_still_dormant c wallet candidate.last_posting_id)
        (expiry_journal format candidate wallet owner t.currency memo counter.account.id) w.books)
  ok (
      if posted
      then (j, emit_movements j (wallet ∷ []) (record w { books = s }))
      else (j, record w { books = s }))

-- `CheckFund`, `CheckSpend` and `CheckRefundIn`
unfoldable pub check_fund : Wallet → ℤ → World → Result (Unit {0})
check_fund wallet amount w = do
  t ← or_fail (find_type wallet.wallet_type_id w.types) not_found
  assert_allowed t wallet.status Operation.fund amount

unfoldable pub check_spend : Wallet → ℤ → World → Result (Unit {0})
check_spend wallet amount w = do
  t ← or_fail (find_type wallet.wallet_type_id w.types) not_found
  assert_allowed t wallet.status Operation.spend amount

unfoldable pub check_refund_in : Wallet → ℤ → World → Result (Unit {0})
check_refund_in wallet amount w = do
  t ← or_fail (find_type wallet.wallet_type_id w.types) not_found
  assert_allowed t wallet.status Operation.refund_in amount
