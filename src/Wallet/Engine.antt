-- ===== src/Wallet/Engine.antt =====
-- internal/wallet/engine.go: the operations that move a wallet's money, as the transaction that
-- `WithTx` opens sees the tables. An error carries no tables: the transaction rolls back.
pub mod Laws
pub mod Bounds
pub mod Books
pub mod Effects
pub mod Retry
use Prim.Native.String.{◌++◌ as text_append}
use openpay.Base.{
  ℕ, ◌==◌, ◌&&◌, ◌||◌, not, Bool, true, false, Option, none, some, String, List, [], ◌∷◌, ◌++◌,
  str_eq, if◌then◌else◌,
}
use openpay.Base.Int.{ℤ, pos, eqb_ℤ}
use openpay.Base.Int64.{mul64, neg64}
use openpay.Errors.{
  Code, Result, ok, err, invalid_argument, not_found, already_exists, failed_precondition,
  insufficient_balance, wallet_operation_denied, ◌>>=◌, ◌>>◌, fail_if, or_fail,
}
use openpay.Ledger.Types.{
  AccountType, normal_sign, Direction, debit, credit, Hold, HoldStatus, Journal, JournalKind,
  Posting,
}
use openpay.Ledger.Store.{AccountRow, Store}
use openpay.Ledger.Chart.{
  find_account_by_code, psp_receivable, product_promotions, product_adjustments, product_breakage,
}
use openpay.Ledger.Post.{Check, post_journal}
use openpay.Ledger.Hold.{place_hold, release_hold}
use openpay.Ledger.Hold.Capture.{capture_hold}
use openpay.Product.{Product, find_product}
use openpay.Wallet.Policy.{Operation, WalletType, assert_allowed}
use openpay.Wallet.Types.{
  Wallet, Limits, Movement, GrantRequest, FundRequest, SpendRequest, TransferRequest, AdjustRequest,
  HoldRequest, ExpiryCandidate, Clock, World, find_type,
}
use openpay.Wallet.Limits.{LimitCheck, unlimited, limited, check_limits_after_posting, get_balance}

abbrev pub is_among : String → List String → Bool
is_among x [] = false
is_among x (y ∷ ys) = str_eq x y || is_among x ys

abbrev pub grant_reasons : List String
grant_reasons = "promotion" ∷ "referral" ∷ "cashback" ∷ "loyalty" ∷ "compensation" ∷ []

abbrev pub adjust_reasons : List String
adjust_reasons = "goodwill" ∷ "error_correction" ∷ "fraud_recovery" ∷ "migration" ∷ []

abbrev pub leg : ℕ → Direction → ℤ → String → Posting
leg account direction amount currency = record {
  journal_id = 0;
  account_id = account;
  direction = direction;
  amount = amount;
  currency = currency;
  seq = 0;
  balance_after = pos 0;
}

-- `newJournal`, less the public id, which is fresh, and with what its callers set.
abbrev pub new_journal :
    String
    → JournalKind
    → Option ℕ
    → Wallet
    → Option String
    → String
    → Option ℕ
    → List Posting
    → Journal
new_journal external kind product w reason memo reverses legs = record {
  id = 0;
  public_id = "";
  external_id = external;
  kind = kind;
  product_id = product;
  source_kind = some "wallet";
  source_id = some w.public_id;
  reverses_journal_id = reverses;
  memo = memo;
  reason_code = reason;
  postings = legs;
}

-- prefix + the wallet's public id + ":" + reference
abbrev pub wallet_key : String → Wallet → String → String
wallet_key prefix w reference =
    text_append (text_append (text_append prefix w.public_id) ":") reference

-- The body of the loop of `emitMovements`.
abbrev pub movement : Journal → Wallet → Posting → Movement
movement j w p = record {
  topic = if eqb_ℤ p.direction debit then "wallet.debited" else "wallet.credited";
  wallet_id = w.public_id;
  customer_id = w.customer_public_id;
  amount = p.amount;
  currency = p.currency;
  balance_after = mul64 p.balance_after (normal_sign AccountType.liability);
  journal_id = j.public_id;
  journal_kind = j.kind;
  external_id = j.external_id;
  reason_code = j.reason_code;
}

unfoldable pub movements_of : Journal → Wallet → List Posting → List Movement
movements_of j w [] = []
movements_of j w (p ∷ ps) =
    let rest = movements_of j w ps in
    if p.account_id == w.ledger_account_id then movement j w p ∷ rest else rest

-- The events of `emitMovements`, in the order in which it saves them.
unfoldable pub movements : Journal → List Wallet → List Movement
movements j [] = []
movements j (w ∷ ws) = movements_of j w j.postings ++ movements j ws

abbrev pub emit_movements : Journal → List Wallet → World → World
emit_movements j ws w = record w { outbox = w.outbox ++ movements j ws }

-- The loop of `post` over a replayed journal.
unfoldable pub has_leg : ℕ → Direction → ℤ → List Posting → Bool
has_leg account direction amount [] = false
has_leg account direction amount (p ∷ ps) =
    (p.account_id == account && (eqb_ℤ p.direction direction && eqb_ℤ p.amount amount))
    || has_leg account direction amount ps

-- `assertAllowed` on the type that the wallet names.
abbrev pub allowed_type : Operation → Wallet → ℤ → World → Result WalletType
allowed_type op wallet amount w =
    or_fail (find_type wallet.wallet_type_id w.types) not_found >>= λ t.
    assert_allowed t wallet.status op amount >>= λ u. ok t

abbrev pub account_by_code : String → World → Result AccountRow
account_by_code code w = or_fail (find_account_by_code code w.books.accounts) not_found

-- A wallet of a product is paid for by that product.
abbrev pub is_foreign : Option ℕ → ℕ → Bool
is_foreign none product = false
is_foreign (some own) product = not (own == product)

module _ (c : Clock) (limits : Limits) where
  -- What `post` does with the ledger's answer.
  unfoldable pub conclude :
      Wallet
      → Direction
      → ℤ
      → List Wallet
      → World
      → Bool × Journal × Store
      → Result (Journal × World)
  conclude wallet direction amount others w (posted, j, s) =
      if posted
      then ok (j, emit_movements j (wallet ∷ others) (record w { books = s }))
      else if has_leg wallet.ledger_account_id direction amount j.postings
      then ok (j, record w { books = s })
      else err already_exists

  unfoldable pub post :
      Journal → Wallet → Direction → ℤ → LimitCheck → List Wallet → World → Result (Journal × World)
  post j wallet direction amount check others w =
      post_journal [] (check_limits_after_posting c limits w check) j w.books >>= λ answer.
      conclude wallet direction amount others w answer

  unfoldable pub grant : GrantRequest → World → Result (Journal × World)
  grant r w = do
    fail_if (not (is_among r.reason_code grant_reasons)) invalid_argument
    fail_if (is_foreign r.wallet.product_id r.funding_product_id) wallet_operation_denied
    t ← allowed_type Operation.grant r.wallet r.amount w
    product ← or_fail (find_product r.funding_product_id w.products) not_found
    promotions ← account_by_code (product_promotions product.code) w
    let legs =
        leg promotions.account.id debit r.amount t.currency
        ∷ leg r.wallet.ledger_account_id credit r.amount t.currency
        ∷ []
    post
        (new_journal (wallet_key "grant:" r.wallet r.reference) JournalKind.grant (some product.id)
          r.wallet (some r.reason_code) r.memo none legs)
        r.wallet credit r.amount (limited r.wallet t Operation.grant) [] w

  abbrev pub fund_journal : FundRequest → WalletType → AccountRow → Journal
  fund_journal r t receivable =
      new_journal r.external_id JournalKind.topup (some r.product_id) r.wallet none "" none (
        leg receivable.account.id debit r.amount t.currency
        ∷ leg r.wallet.ledger_account_id credit r.amount t.currency
        ∷ [])

  unfoldable pub fund : FundRequest → World → Result (Journal × World)
  fund r w = do
    t ← allowed_type Operation.fund r.wallet r.amount w
    receivable ← account_by_code (psp_receivable r.provider) w
    post (fund_journal r t receivable) r.wallet credit r.amount (limited r.wallet t Operation.fund)
        [] w

  unfoldable pub spend : SpendRequest → World → Result (Journal × World)
  spend r w = do
    t ← allowed_type Operation.spend r.wallet r.amount w
    counter ← account_by_code r.counter_account_code w
    let legs =
        leg r.wallet.ledger_account_id debit r.amount t.currency
        ∷ leg counter.account.id credit r.amount t.currency
        ∷ []
    post (new_journal r.external_id r.kind (some r.product_id) r.wallet none "" none legs) r.wallet
        debit r.amount unlimited [] w

  unfoldable pub transfer : TransferRequest → World → Result (Journal × World)
  transfer r w = do
    fail_if (not (r.from.wallet_type_id == r.to.wallet_type_id)) wallet_operation_denied
    fail_if (r.from.id == r.to.id) invalid_argument
    t ← or_fail (find_type r.from.wallet_type_id w.types) not_found
    assert_allowed t r.from.status Operation.transfer_out r.amount
    assert_allowed t r.to.status Operation.transfer_in r.amount
    let legs =
        leg r.from.ledger_account_id debit r.amount t.currency
        ∷ leg r.to.ledger_account_id credit r.amount t.currency
        ∷ []
    post
        (new_journal (wallet_key "transfer:" r.from r.reference) JournalKind.transfer
          r.from.product_id r.from none "" none legs)
        r.from debit r.amount (limited r.to t Operation.transfer_in) (r.to ∷ []) w

  unfoldable pub adjust : AdjustRequest → World → Result (Journal × World)
  adjust r w = do
    fail_if (not (is_among r.reason_code adjust_reasons)) invalid_argument
    fail_if (not (eqb_ℤ r.direction credit) && not (eqb_ℤ r.direction debit)) invalid_argument
    fail_if (is_foreign r.wallet.product_id r.product_id) invalid_argument
    t ← allowed_type Operation.adjust r.wallet r.amount w
    product ← or_fail (find_product r.product_id w.products) not_found
    adjustments ← account_by_code (product_adjustments product.code) w
    let legs =
        leg adjustments.account.id (neg64 r.direction) r.amount t.currency
        ∷ leg r.wallet.ledger_account_id r.direction r.amount t.currency
        ∷ []
    post
        (new_journal (wallet_key "adjust:" r.wallet r.reference) JournalKind.adjustment
          (some product.id) r.wallet (some r.reason_code) r.memo none legs)
        r.wallet r.direction r.amount unlimited [] w

  abbrev pub move_journal : SpendRequest → WalletType → AccountRow → Direction → Option ℕ → Journal
  move_journal r t counter direction reverses =
      new_journal r.external_id r.kind (if r.product_id == 0 then none else some r.product_id)
        r.wallet none "" reverses
        (leg r.wallet.ledger_account_id direction r.amount t.currency
          ∷ leg counter.account.id (neg64 direction) r.amount t.currency
          ∷ [])

  unfoldable pub move :
      SpendRequest → Operation → Direction → Option ℕ → World → Result (Journal × World)
  move r op direction reverses w = do
    t ← allowed_type op r.wallet r.amount w
    counter ← account_by_code r.counter_account_code w
    post (move_journal r t counter direction reverses) r.wallet direction r.amount unlimited [] w

  unfoldable pub refund_out : SpendRequest → World → Result (Journal × World)
  refund_out r w = move r Operation.refund_out debit none w

  unfoldable pub restore : SpendRequest → Journal → World → Result (Journal × World)
  restore r reverses w = move r Operation.restore credit (some reverses.id) w

  unfoldable pub chargeback_out : SpendRequest → World → Result (Journal × World)
  chargeback_out r w = move r Operation.chargeback debit none w

  unfoldable pub withdraw_out : SpendRequest → World → Result (Journal × World)
  withdraw_out r w = move r Operation.withdraw debit none w
