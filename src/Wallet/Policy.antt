-- ===== src/Wallet/Policy.antt =====
-- internal/wallet/policy.go, with the types of internal/models/dao/wallet_type.go and wallet.go that
-- it reads.
pub mod Laws
use openpay.Base.{
  ℕ, ◌≡◌, Bool, true, false, ◌&&◌, ◌||◌, not, Option, none, some, String, if◌then◌else◌,
}
use openpay.Base.Int.{ℤ, pos, leb_ℤ, ltb_ℤ}
use openpay.Errors.{
  Result, ok, err, invalid_argument, wallet_operation_denied, ◌>>=◌, ◌>>◌, fail_if,
}

pub data Operation : Type 0 where
  fund grant spend hold transfer_out transfer_in withdraw refund_in refund_out : Operation
  restore chargeback adjust : Operation

pub data WalletStatus : Type 0 where
  active frozen : WalletStatus

abbrev pub is_active : WalletStatus → Bool
is_active WalletStatus.active = true
is_active WalletStatus.frozen = false

-- `WalletType`: what it is, its capabilities and its limits; no limit is `none`.
pub record WalletType : Type 0 where
  pub id : ℕ
  pub code : String
  pub product_id : Option ℕ
  pub currency : String
  pub allow_negative : Bool
  pub max_balance : Option ℤ
  pub daily_load_limit : Option ℤ
  pub daily_withdrawal_limit : Option ℤ
  pub fundable : Bool
  pub grantable : Bool
  pub withdrawable : Bool
  pub transferable : Bool
  pub refundable_to_source : Bool
  pub max_txn_amount : Option ℤ
  pub min_withdrawal_amount : Option ℤ
  pub withdrawal_approval_threshold : Option ℤ

unfoldable pub credits : Operation → Bool
credits Operation.fund = true
credits Operation.grant = true
credits Operation.transfer_in = true
credits Operation.refund_in = true
credits _ = false

unfoldable pub loads : Operation → Bool
loads Operation.fund = true
loads Operation.grant = true
loads Operation.transfer_in = true
loads _ = false

-- `op == OpAdjust || op == OpRestore || op == OpChargeback`
abbrev pub bypasses : Operation → Bool
bypasses Operation.adjust = true
bypasses Operation.restore = true
bypasses Operation.chargeback = true
bypasses _ = false

-- The switch on the operation; those of `bypasses` do not reach it, where Go answers Internal.
unfoldable pub capable : WalletType → Operation → Bool
capable t Operation.fund = t.fundable
capable t Operation.grant = t.grantable
capable t Operation.withdraw = t.withdrawable
capable t Operation.transfer_out = t.transferable
capable t Operation.transfer_in = t.transferable
capable t Operation.refund_in = t.refundable_to_source
capable t Operation.spend = true
capable t Operation.hold = true
capable t Operation.refund_out = true
capable t Operation.restore = false
capable t Operation.chargeback = false
capable t Operation.adjust = false

abbrev pub is_withdraw : Operation → Bool
is_withdraw Operation.withdraw = true
is_withdraw _ = false

abbrev pub is_refund : Operation → Bool
is_refund Operation.refund_out = true
is_refund Operation.refund_in = true
is_refund _ = false

abbrev pub below : ℤ → Option ℤ → Bool
below amount none = false
below amount (some least) = ltb_ℤ amount least

abbrev pub above : ℤ → Option ℤ → Bool
above amount none = false
above amount (some most) = ltb_ℤ most amount

unfoldable pub assert_allowed : WalletType → WalletStatus → Operation → ℤ → Result (Unit {0})
assert_allowed t status op amount =
    if leb_ℤ amount (pos 0)
    then err invalid_argument
    else if bypasses op
    then ok tt
    else if not (is_active status)
    then err wallet_operation_denied
    else if not (capable t op)
    then err wallet_operation_denied
    else if is_withdraw op && below amount t.min_withdrawal_amount
    then err wallet_operation_denied
    else if not (is_refund op) && above amount t.max_txn_amount
    then err wallet_operation_denied
    else ok tt

unfoldable pub needs_approval : WalletType → ℤ → Bool
needs_approval t amount = above amount t.withdrawal_approval_threshold
