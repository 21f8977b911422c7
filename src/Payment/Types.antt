-- ===== src/Payment/Types.antt =====
-- internal/models/dao/payment.go and the provider's view in internal/provider/provider.go. Fields
-- that no step reads or writes are left out; a time is a number of seconds.
use openpay.Base.{ℕ, Bool, Option, String, List}
use openpay.Base.Int.{ℤ}
use openpay.Errors.{Result}
use openpay.Ledger.Store.{Store}
use openpay.Product.{Product}
use openpay.Payment.State.{PaymentStatus, ProviderStatus}

pub data PaymentPurpose : Type 0 where
  wallet_topup order : PaymentPurpose

pub data PaymentApplication : Type 0 where
  pending applied unapplied suspense : PaymentApplication

pub record Payment : Type 0 where
  pub id : ℕ
  pub public_id : String
  pub product_id : ℕ
  pub purpose : PaymentPurpose
  pub wallet_public_id : Option String
  pub provider : Option String
  pub amount : ℤ
  pub currency : String
  pub status : PaymentStatus
  pub application : PaymentApplication
  pub captured_amount : Option ℤ
  pub captured_at : Option ℕ
  pub settled_at : Option ℕ
  pub refunded_amount : ℤ
  pub failure_code : Option String
  pub failure_reason : Option String

pub record PaymentAttempt : Type 0 where
  pub public_id : String
  pub provider : String
  pub status : ProviderStatus
  pub failure_code : Option String
  pub failure_reason : Option String

-- `provider.Payment`
pub record ProviderPayment : Type 0 where
  pub status : ProviderStatus
  pub amount : ℤ
  pub currency : String
  pub failure_code : String
  pub failure_reason : String

pub record PaymentTransition : Type 0 where
  pub from : PaymentStatus
  pub to : PaymentStatus
  pub source : String
  pub reference : Option String

-- An outbox row: its topic and the status, application and captured amount in its payload.
pub record Event : Type 0 where
  pub topic : String
  pub status : PaymentStatus
  pub application : PaymentApplication
  pub captured_amount : Option ℤ

-- `OrderHook`, over the tables `O` of the order engine and the ledger.
pub record OrderHook (O : Type 0) : Type 0 where
  pub capture_order : Payment → String → O → Store → Result (Bool × O × Store)
  pub payment_ended : Payment → O → Store → Result (O × Store)

-- The engine's collaborators: `orders` is nil until it is set; `fund` is `wallets.Fund` on the
-- payment's wallet for an amount, a provider and an external id.
pub record Hooks (O : Type 0) : Type 0 where
  pub orders : Option (OrderHook O)
  pub fund : Payment → ℤ → String → String → O → Store → Result (O × Store)

-- The rows that a step on one payment reads and writes, with the payment locked.
pub record World (O : Type 0) : Type 0 where
  pub now : ℕ
  pub payment : Payment
  pub attempt : PaymentAttempt
  pub history : List PaymentTransition
  pub outbox : List Event
  pub products : List Product
  pub orders : O
  pub books : Store
