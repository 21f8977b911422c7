-- ===== src/Payment/Dispute/Charge.antt =====
-- What opening a dispute takes from the customer's wallet.
use Prim.Native.String.{◌++◌ as text_append}
use openpay.Base.{◌≡◌, ◌⊎◌, String}
use openpay.Base.Int.{ℤ, pos, ◌+ℤ◌, ◌≤ℤ◌}
use openpay.Ledger.Store.{Store}
use openpay.Wallet.Types.{Wallet}
use openpay.Payment.Tables.{Dispute, Tables}
use openpay.Payment.Dispute.{outstanding, larger, dispute_leg}
use openpay.Payment.Dispute.Posted.{IsCharged}

-- What a dispute takes from the customer's wallet, of the payment's money that is applied there.
pub record IsTaken (d : Dispute) (wallet : Wallet) (available_there left : ℤ) (s : Store)
    : Type 0 where
  pub most : d.from_wallet ≤ℤ d.amount
  pub outstanding : d.from_wallet ≤ℤ left
  pub spendable : d.from_wallet ≤ℤ larger available_there (pos 0)
  pub as_much :
      (d.from_wallet ≡ d.amount)
      ⊎ (d.from_wallet ≡ left)
      ⊎ (d.from_wallet ≡ larger available_there (pos 0))
  pub rest : d.from_wallet +ℤ d.from_expense ≡ d.amount
  pub charged :
      (d.from_wallet ≡ pos 0)
      ⊎ IsCharged (dispute_leg d "wallet") wallet.ledger_account_id d.from_wallet s
