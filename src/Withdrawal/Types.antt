-- ===== src/Withdrawal/Types.antt =====
-- internal/models/dao/withdrawal.go, the payouts of internal/provider/provider.go, the configuration of
-- internal/withdrawal/engine.go, and the rows that its steps read and write.
use openpay.Base.{
  ℕ, ◌+◌, ◌==◌, ◌&&◌, not, Bool, true, false, leb, Option, none, some, String, List, [], ◌∷◌,
  str_eq, if◌then◌else◌,
}
use openpay.Base.Int.{ℤ, pos, ◌+ℤ◌}
use openpay.Errors.{Result, ok, err, internal, permission_denied, or_fail, ◌>>=◌}
use openpay.Wallet.Types.{Wallet, Limits}
use openpay.Wallet.Types as WalletTypes

pub data BeneficiaryStatus : Type 0 where
  pending verified failed : BeneficiaryStatus

-- The account, sealed, and the address are read only to send a payout.
pub record Beneficiary : Type 0 where
  pub id : ℕ
  pub public_id : String
  pub customer_id : ℕ
  pub account_number : Option String
  pub vpa : Option String
  pub status : BeneficiaryStatus
  pub verified_at : Option ℕ

pub data WithdrawalStatus : Type 0 where
  pending_approval approved processing paid failed rejected reversed : WithdrawalStatus

pub record Withdrawal : Type 0 where
  pub id : ℕ
  pub public_id : String
  pub wallet_id : ℕ
  pub customer_id : ℕ
  pub product_id : Option ℕ
  pub beneficiary_id : ℕ
  pub amount : ℤ
  pub currency : String
  pub status : WithdrawalStatus
  pub requires_approval : Bool
  pub requested_by : String
  pub decided_by : Option String
  pub decided_at : Option ℕ
  pub decision_note : Option String
  pub provider : String
  pub provider_payout_id : Option String
  pub failure_reason : Option String
  pub paid_at : Option ℕ
  pub wallet_public_id : String
  pub created_at : ℕ

-- `provider.Payout`
pub data PayoutStatus : Type 0 where
  processing paid failed reversed : PayoutStatus

pub record Payout : Type 0 where
  pub provider_payout_id : String
  pub status : PayoutStatus
  pub failure_reason : String

pub record WithdrawalRequest : Type 0 where
  pub wallet : Wallet
  pub beneficiary : Beneficiary
  pub amount : ℤ
  pub requested_by : String

-- `Config`, the clock, and what the engine calls: the registry's choice of a provider, the opening of
-- a sealed account number, and a provider's `CreatePayout` by the provider's name.
pub record Desk : Type 0 where
  pub wallet_clock : WalletTypes.Clock
  pub wallet_limits : Limits
  pub now : ℕ
  pub start_of_day : ℕ
  pub bank : String
  pub beneficiary_cooling : ℕ
  pub max_customer_daily_withdrawal : ℤ
  pub max_customer_daily_withdrawals : ℤ
  pub choose : Result String
  pub unseal : String → Result String
  pub payer : String → Result (Withdrawal → Beneficiary → Result Payout)

-- An outbox row: its topic and the withdrawal.
pub record WithdrawalEvent : Type 0 where
  pub topic : String
  pub withdrawal : Withdrawal

pub record World : Type 0 where
  pub base : WalletTypes.World
  pub beneficiaries : List Beneficiary
  pub rows : List Withdrawal
  pub next_row : ℕ
  pub events : List WithdrawalEvent

-- `LockWithdrawal`
abbrev pub find_withdrawal : ℕ → List Withdrawal → Option Withdrawal
find_withdrawal i [] = none
find_withdrawal i (x ∷ xs) = if x.id == i then some x else find_withdrawal i xs

abbrev pub update_row : Withdrawal → List Withdrawal → List Withdrawal
update_row x [] = []
update_row x (y ∷ ys) = if y.id == x.id then x ∷ ys else y ∷ update_row x ys

-- Does the constraint ck_withdrawals_four_eyes take the row?
unfoldable pub has_four_eyes : Withdrawal → Bool
has_four_eyes x = elim x.decided_by [ none ↦ true | some who ↦ not (str_eq who x.requested_by) ]

-- `UpdateWithdrawal`; the columns that it does not set are as they were read.
unfoldable pub save : Withdrawal → World → Result World
save x w = or_fail (find_withdrawal x.id w.rows) internal >>= λ old.
    if has_four_eyes x then ok (record w { rows = update_row x w.rows }) else err permission_denied

-- `GetBeneficiaryByID`
abbrev pub find_beneficiary : ℕ → List Beneficiary → Option Beneficiary
find_beneficiary i [] = none
find_beneficiary i (b ∷ bs) = if b.id == i then some b else find_beneficiary i bs

-- `status NOT IN ('failed', 'rejected', 'reversed')`
abbrev pub counts : WithdrawalStatus → Bool
counts WithdrawalStatus.failed = false
counts WithdrawalStatus.rejected = false
counts WithdrawalStatus.reversed = false
counts _ = true

abbrev pub is_on : Option ℕ → ℕ → Bool
is_on none wallet = true
is_on (some i) wallet = wallet == i

-- `WithdrawnSince`: the amount and the number of a customer's withdrawals.
unfoldable pub withdrawn_since : ℕ → Option ℕ → ℕ → List Withdrawal → ℤ × ℕ
withdrawn_since customer wallet since [] = (pos 0, 0)
withdrawn_since customer wallet since (x ∷ xs) =
    let (amount, count) = withdrawn_since customer wallet since xs in
    if x.customer_id == customer
      && (is_on wallet x.wallet_id && (leb since x.created_at && counts x.status))
    then (x.amount +ℤ amount, count + 1)
    else (amount, count)
