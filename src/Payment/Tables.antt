-- ===== src/Payment/Tables.antt =====
-- What comes after a capture: refunds and disputes, with the types of internal/models/dao/payment.go
-- and internal/provider/provider.go, and the tables that their steps read and write.
use openpay.Base.{
  ℕ, ◌==◌, ◌&&◌, Bool, true, false, Option, none, some, String, List, [], ◌∷◌, if◌then◌else◌,
}
use openpay.Base.Int.{ℤ, pos, leb_ℤ}
use openpay.Errors.{Result, ok, err, not_found, failed_precondition}
use openpay.Ledger.Store.{Store}
use openpay.Payment.Types.{Payment, World}
use openpay.Wallet.Policy.{WalletType}
use openpay.Wallet.Types.{Wallet, Movement}
use openpay.Wallet.Types as WalletTypes

pub data RefundStatus : Type 0 where
  initiated pending processed failed : RefundStatus

-- `IsFinal`
abbrev pub is_final : RefundStatus → Bool
is_final RefundStatus.initiated = false
is_final RefundStatus.pending = false
is_final RefundStatus.processed = true
is_final RefundStatus.failed = true

-- The sources `RefundFromWallet`, `RefundFromUnapplied` and `RefundFromOrder`.
pub data RefundSource : Type 0 where
  from_wallet from_unapplied from_order : RefundSource

pub record Refund : Type 0 where
  pub id : ℕ
  pub public_id : String
  pub payment_id : ℕ
  pub product_id : ℕ
  pub amount : ℤ
  pub currency : String
  pub status : RefundStatus
  pub source : RefundSource
  pub reason_code : String
  pub memo : String
  pub provider : String
  pub provider_refund_id : Option String
  pub failure_code : Option String
  pub failure_reason : Option String
  pub requested_by : String
  pub processed_at : Option ℕ

-- `provider.Refund`
pub data ProviderRefundStatus : Type 0 where
  pending processed failed : ProviderRefundStatus

pub record ProviderRefund : Type 0 where
  pub provider_refund_id : String
  pub status : ProviderRefundStatus
  pub amount : ℤ
  pub currency : String
  pub failure_reason : String

pub data DisputeStatus : Type 0 where
  open_dispute under_review won lost : DisputeStatus

pub record Dispute : Type 0 where
  pub id : ℕ
  pub public_id : String
  pub payment_id : ℕ
  pub product_id : ℕ
  pub provider : String
  pub provider_dispute_id : String
  pub amount : ℤ
  pub currency : String
  pub reason : String
  pub status : DisputeStatus
  pub from_wallet : ℤ
  pub from_unapplied : ℤ
  pub from_expense : ℤ
  pub resolved_at : Option ℕ

-- `provider.Dispute`; its statuses carry the names of ours.
pub record ProviderDispute : Type 0 where
  pub provider_dispute_id : String
  pub status : DisputeStatus
  pub amount : ℤ
  pub currency : String
  pub reason : String

-- An outbox row of a refund or a dispute.
pub data AfterEvent : Type 0 where
  refund_event : String → Refund → AfterEvent
  dispute_event : String → Dispute → AfterEvent

-- The tables, with one payment locked; `base` holds what `Sync` works on.
pub record Tables (O : Type 0) : Type 0 where
  pub base : World O
  -- `provider_payment_id` of the payment's latest attempt, if there is an attempt.
  pub latest_attempt : Option (Option String)
  pub wallets : List Wallet
  pub types : List WalletType
  pub movements : List Movement
  pub refunds : List Refund
  pub next_refund : ℕ
  pub disputes : List Dispute
  pub next_dispute : ℕ
  pub events : List AfterEvent

module _ {O : Type 0} where
  -- The tables that the wallet engine works on.
  abbrev pub wallet_world : Tables O → WalletTypes.World
  wallet_world x = record {
    wallets = x.wallets;
    types = x.types;
    products = x.base.products;
    outbox = x.movements;
    books = x.base.books;
  }

  abbrev pub with_books : Store → Tables O → Tables O
  with_books s x = record x { base = record (x.base) { books = s } }

  abbrev pub with_wallet_world : WalletTypes.World → Tables O → Tables O
  with_wallet_world w x = record (with_books w.books x) { movements = w.outbox }

  -- `LockPayment`
  abbrev pub lock_payment : ℕ → Tables O → Result Payment
  lock_payment i x = if x.base.payment.id == i then ok x.base.payment else err not_found

  abbrev pub with_payment : Payment → Tables O → Tables O
  with_payment p x = record x { base = record (x.base) { payment = p } }

  -- `UpdatePayment`, with the constraint ck_payments_refunded.
  unfoldable pub update_payment : Payment → Tables O → Result (Tables O)
  update_payment p x =
      if leb_ℤ (pos 0) p.refunded_amount
        && leb_ℤ p.refunded_amount (elim p.captured_amount [ none ↦ pos 0 | some c ↦ c ])
      then ok (with_payment p x)
      else err failed_precondition

-- `LockRefund`
abbrev pub find_refund : ℕ → List Refund → Option Refund
find_refund i [] = none
find_refund i (r ∷ rs) = if r.id == i then some r else find_refund i rs

-- `UpdateRefund`
abbrev pub update_refund : Refund → List Refund → List Refund
update_refund r [] = []
update_refund r (q ∷ qs) = if q.id == r.id then r ∷ qs else q ∷ update_refund r qs

abbrev pub find_dispute : ℕ → List Dispute → Option Dispute
find_dispute i [] = none
find_dispute i (d ∷ ds) = if d.id == i then some d else find_dispute i ds

-- `UpdateDispute`
abbrev pub update_dispute : Dispute → List Dispute → List Dispute
update_dispute d [] = []
update_dispute d (e ∷ es) = if e.id == d.id then d ∷ es else e ∷ update_dispute d es
