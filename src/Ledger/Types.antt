-- ===== src/Ledger/Types.antt =====
-- internal/models/dao/ledger.go: accounts, journals, postings, balances and holds. Amounts and
-- balances are int64 (`Base.Int64`); a row id is a BIGSERIAL, so a natural number; a time is a
-- number of seconds. Timestamps that no code reads are left out, as are the columns that the
-- API's read path joins in.
use openpay.Base.{ℕ, Bool, true, false, Option, String, List, if◌then◌else◌}
use openpay.Base.Int.{ℤ, pos, negsuc, eqb_ℤ, ◌*ℤ◌}
use openpay.Base.Int64.{mul64, sub64}

pub data AccountType : Type 0 where
  asset liability equity income expense : AccountType

unfoldable pub normal_sign : AccountType → ℤ
normal_sign AccountType.asset = pos 1
normal_sign AccountType.expense = pos 1
normal_sign _ = negsuc 0

pub data OwnerKind : Type 0 where
  platform customer provider merchant : OwnerKind

pub data AccountStatus : Type 0 where
  active closed : AccountStatus

abbrev pub is_active : AccountStatus → Bool
is_active AccountStatus.active = true
is_active AccountStatus.closed = false

-- `type Direction int16`: the multiplier that a posting contributes with.
abbrev pub Direction : Type 0
Direction = ℤ

abbrev pub debit : Direction
debit = pos 1

abbrev pub credit : Direction
credit = negsuc 0

unfoldable pub direction_string : Direction → String
direction_string d = if eqb_ℤ d debit then "debit" else "credit"

pub record LedgerAccount : Type 0 where
  pub id : ℕ
  pub public_id : String
  pub code : String
  pub product_id : Option ℕ
  pub type : AccountType
  pub currency : String
  pub owner_kind : OwnerKind
  pub owner_id : Option String
  pub allow_negative : Bool
  pub status : AccountStatus

pub data JournalKind : Type 0 where
  topup purchase refund transfer grant fee settlement adjustment reversal expiry : JournalKind

pub record Posting : Type 0 where
  pub journal_id : ℕ
  pub account_id : ℕ
  pub direction : Direction
  pub amount : ℤ
  pub currency : String
  pub seq : ℕ
  pub balance_after : ℤ

pub record Journal : Type 0 where
  pub id : ℕ
  pub public_id : String
  pub external_id : String
  pub kind : JournalKind
  pub product_id : Option ℕ
  pub source_kind : Option String
  pub source_id : Option String
  pub reverses_journal_id : Option ℕ
  pub memo : String
  pub reason_code : Option String
  pub postings : List Posting

-- What a posting contributes to its account's raw balance.
unfoldable pub signed : Posting → ℤ
signed p = mul64 p.direction p.amount

-- `p.direction * p.amount`, as SQL's SUM reads it: with no bound.
abbrev pub contribution : Posting → ℤ
contribution p = p.direction *ℤ p.amount

pub record Balance : Type 0 where
  pub raw_balance : ℤ
  pub held : ℤ
  pub version : ℤ

unfoldable pub natural : Balance → AccountType → ℤ
unfolding normal_sign
natural b t = mul64 b.raw_balance (normal_sign t)

unfoldable pub available : Balance → AccountType → ℤ
unfolding natural
available b t = sub64 (natural b t) b.held

pub data HoldStatus : Type 0 where
  active captured released expired : HoldStatus

pub HoldStatus-discrete : Discrete HoldStatus
HoldStatus-discrete = hlevel

abbrev pub hold_is_active : HoldStatus → Bool
hold_is_active HoldStatus.active = true
hold_is_active _ = false

pub record Hold : Type 0 where
  pub id : ℕ
  pub public_id : String
  pub external_id : String
  pub account_id : ℕ
  pub amount : ℤ
  pub currency : String
  pub status : HoldStatus
  pub expires_at : ℕ
  pub capture_journal_id : Option ℕ
  pub captured_amount : Option ℤ

-- The lines of the trial balance.
pub record TrialBalanceLine : Type 0 where
  pub code : String
  pub type : AccountType
  pub currency : String
  pub debits : ℤ
  pub credits : ℤ

unfoldable pub raw : TrialBalanceLine → ℤ
raw l = sub64 l.debits l.credits
