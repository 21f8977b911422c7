-- ===== src/Wallet/Types.antt =====
-- internal/models/dao/wallet.go, the requests and limits of internal/wallet/engine.go, and the rows
-- that a wallet operation reads and writes.
use openpay.Base.{ℕ, ◌==◌, Option, none, some, String, List, [], ◌∷◌, if◌then◌else◌}
use openpay.Base.Int.{ℤ}
use openpay.Ledger.Types.{Direction, JournalKind, Posting}
use openpay.Ledger.Store.{Store}
use openpay.Product.{Product}
use openpay.Wallet.Policy.{WalletStatus, WalletType}

pub record Wallet : Type 0 where
  pub id : ℕ
  pub public_id : String
  pub customer_id : ℕ
  pub customer_public_id : String
  pub wallet_type_id : ℕ
  pub product_id : Option ℕ
  pub ledger_account_id : ℕ
  pub status : WalletStatus

-- `Limits`: the caps that span a customer's wallets; 0 is no cap.
pub record Limits : Type 0 where
  pub max_customer_balance : ℤ
  pub max_customer_daily_load : ℤ

-- `walletMovement`, with its topic.
pub record Movement : Type 0 where
  pub topic : String
  pub wallet_id : String
  pub customer_id : String
  pub amount : ℤ
  pub currency : String
  pub balance_after : ℤ
  pub journal_id : String
  pub journal_kind : JournalKind
  pub external_id : String
  pub reason_code : Option String

pub record GrantRequest : Type 0 where
  pub wallet : Wallet
  pub amount : ℤ
  pub funding_product_id : ℕ
  pub reason_code : String
  pub memo : String
  pub reference : String

pub record FundRequest : Type 0 where
  pub wallet : Wallet
  pub amount : ℤ
  pub provider : String
  pub product_id : ℕ
  pub external_id : String

pub record SpendRequest : Type 0 where
  pub wallet : Wallet
  pub amount : ℤ
  pub counter_account_code : String
  pub product_id : ℕ
  pub kind : JournalKind
  pub external_id : String

pub record TransferRequest : Type 0 where
  pub from : Wallet
  pub to : Wallet
  pub amount : ℤ
  pub reference : String

pub record AdjustRequest : Type 0 where
  pub wallet : Wallet
  pub amount : ℤ
  pub direction : Direction
  pub product_id : ℕ
  pub reason_code : String
  pub memo : String
  pub reference : String

pub record HoldRequest : Type 0 where
  pub wallet : Wallet
  pub amount : ℤ
  pub reference : String
  pub expires_at : ℕ

pub record ExpiryCandidate : Type 0 where
  pub wallet_public_id : String
  pub last_posting_id : ℕ
  pub balance : ℤ

-- Columns of `ledger_postings` that the ledger itself does not read, and `startOfDay()`.
pub record Clock : Type 0 where
  pub posting_id : Posting → ℕ
  pub created_at : Posting → ℕ
  pub start_of_day : ℕ

-- The tables that a wallet operation reads and writes.
pub record World : Type 0 where
  pub wallets : List Wallet
  pub types : List WalletType
  pub products : List Product
  pub outbox : List Movement
  pub books : Store

-- `GetWalletTypeByID`
abbrev pub find_type : ℕ → List WalletType → Option WalletType
find_type i [] = none
find_type i (t ∷ ts) = if t.id == i then some t else find_type i ts
