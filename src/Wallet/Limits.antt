-- ===== src/Wallet/Limits.antt =====
-- The limits that internal/wallet/engine.go checks behind a posting, under the ledger's locks, and
-- the queries of internal/repository/postgresql/wallet.go that they read. The check cannot see
-- `wallets` or `wallet_types` change, since a posting writes to neither.
use openpay.Base.{
  ℕ, Bool, true, false, ◌==◌, ◌&&◌, ◌||◌, not, leb, Option, none, some, List, [], ◌∷◌,
  if◌then◌else◌,
}
use openpay.Base.Int.{ℤ, pos, ◌+ℤ◌, neg, eqb_ℤ, ltb_ℤ}
use openpay.Errors.{Result, ok, not_found, wallet_operation_denied, ◌>>=◌, ◌>>◌, fail_if, or_fail}
use openpay.Ledger.Types.{AccountType, Balance, JournalKind, Journal, Posting, credit, natural}
use openpay.Ledger.Store.{AccountRow, Store, find_account}
use openpay.Ledger.Post.{Check}
use openpay.Wallet.Policy.{Operation, WalletType, credits, loads, above}
use openpay.Wallet.Types.{Wallet, Limits, Clock, World, find_type}

-- `GetBalance`
abbrev pub get_balance : ℕ → List AccountRow → Result Balance
get_balance i rows = or_fail (find_account i rows) not_found >>= λ r. ok r.balance

-- `j.kind IN ('topup', 'grant', 'transfer')`
abbrev pub is_load : JournalKind → Bool
is_load JournalKind.topup = true
is_load JournalKind.grant = true
is_load JournalKind.transfer = true
is_load _ = false

-- The join with `ledger_journals`.
abbrev pub loaded_by : ℕ → List Journal → Bool
loaded_by i [] = false
loaded_by i (j ∷ js) = if j.id == i then is_load j.kind else loaded_by i js

-- The condition of `SumWalletLoadsSince`.
unfoldable pub is_wallet_load : Clock → ℕ → Store → Posting → Bool
is_wallet_load c account s p =
    p.account_id == account
    && (eqb_ℤ p.direction credit
        && (leb c.start_of_day (c.created_at p) && loaded_by p.journal_id s.journals))

abbrev pub sum_loads : Clock → ℕ → Store → List Posting → ℤ
sum_loads c account s [] = pos 0
sum_loads c account s (p ∷ ps) =
    let rest = sum_loads c account s ps in
    if is_wallet_load c account s p then p.amount +ℤ rest else rest

-- `SumWalletLoadsSince` the start of the day.
abbrev pub wallet_loads : Clock → ℕ → Store → ℤ
wallet_loads c account s = sum_loads c account s s.postings

-- `JOIN wallet_types wt ON wt.id = w.wallet_type_id AND wt.fundable`, for a customer.
unfoldable pub is_funded : ℕ → List WalletType → Wallet → Bool
is_funded customer types w =
    w.customer_id == customer
    && elim (find_type w.wallet_type_id types) [ none ↦ false | some t ↦ t.fundable ]

abbrev pub owed : ℕ → List AccountRow → ℤ
owed i rows = elim (find_account i rows) [ none ↦ pos 0 | some r ↦ neg r.balance.raw_balance ]

-- `CustomerFundedBalance`
unfoldable pub customer_funded_balance : ℕ → List WalletType → List Wallet → List AccountRow → ℤ
customer_funded_balance customer types [] rows = pos 0
customer_funded_balance customer types (w ∷ ws) rows =
    let rest = customer_funded_balance customer types ws rows in
    if is_funded customer types w then owed w.ledger_account_id rows +ℤ rest else rest

-- `CustomerFundedLoadsSince` the start of the day.
unfoldable pub customer_funded_loads : Clock → ℕ → List WalletType → List Wallet → Store → ℤ
customer_funded_loads c customer types [] s = pos 0
customer_funded_loads c customer types (w ∷ ws) s =
    let rest = customer_funded_loads c customer types ws s in
    if is_funded customer types w then wallet_loads c w.ledger_account_id s +ℤ rest else rest

-- `limitCheck`: the zero value has no wallet.
pub data LimitCheck : Type 0 where
  unlimited : LimitCheck
  limited : Wallet → WalletType → Operation → LimitCheck

unfoldable pub check_max_balance : Option ℤ → ℕ → List AccountRow → Result (Unit {0})
check_max_balance none account rows = ok tt
check_max_balance (some most) account rows = do
  balance ← get_balance account rows
  fail_if (ltb_ℤ most (natural balance AccountType.liability)) wallet_operation_denied

module _ (c : Clock) (limits : Limits) (w : World) where
  -- `LockCustomer` reads nothing that the limits depend on.
  unfoldable pub check_customer_limits : Wallet → WalletType → Operation → Store → Result (Unit {0})
  check_customer_limits wallet t op s =
      if not t.fundable
        || (eqb_ℤ limits.max_customer_balance (pos 0)
            && eqb_ℤ limits.max_customer_daily_load (pos 0))
      then ok tt
      else (fail_if
            (ltb_ℤ (pos 0) limits.max_customer_balance
              && ltb_ℤ limits.max_customer_balance
                  (customer_funded_balance wallet.customer_id w.types w.wallets s.accounts))
            wallet_operation_denied
          >> fail_if
              (ltb_ℤ (pos 0) limits.max_customer_daily_load
                && (loads op
                    && ltb_ℤ limits.max_customer_daily_load
                        (customer_funded_loads c wallet.customer_id w.types w.wallets s)))
              wallet_operation_denied)

  -- `checkLimitsAfterPosting`, for a wallet that the posting credits.
  unfoldable pub check_limited : Wallet → WalletType → Operation → Store → Result (Unit {0})
  check_limited wallet t op s = do
    check_max_balance t.max_balance wallet.ledger_account_id s.accounts
    fail_if (loads op && above (wallet_loads c wallet.ledger_account_id s) t.daily_load_limit)
        wallet_operation_denied
    check_customer_limits wallet t op s

  unfoldable pub check_limits_after_posting : LimitCheck → Check
  check_limits_after_posting unlimited j s = ok tt
  check_limits_after_posting (limited wallet t op) j s =
      if credits op then check_limited wallet t op s else ok tt
