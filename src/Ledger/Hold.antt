-- ===== src/Ledger/Hold.antt =====
-- internal/repository/postgresql/ledger_hold.go: placing, capturing, releasing and expiring holds.
-- An update on BIGINT that overflows fails in the database, which the code reports as Internal.
-- An account is written back as it was read under its lock.
pub mod Capture
pub mod Table
pub mod Laws
use openpay.Base.{
  ℕ, ◌+◌, ◌≡◌, refl, Bool, true, false, ◌==◌, ◌&&◌, ◌||◌, not, leb, ltb, Option, none, some, String,
  List, [], ◌∷◌, arith, str_eq, if◌then◌else◌,
}
use openpay.Base.Int.{ℤ, pos, neg, ltb_ℤ, leb_ℤ, eqb_ℤ, ◌+ℤ◌, ◌-ℤ◌}
use openpay.Base.Int64.{half, fits, add64, sub64, mul64, neg64}
use openpay.Errors.{
  Result, ok, err, internal, invalid_argument, not_found, already_exists, failed_precondition,
  currency_mismatch, insufficient_balance, ◌>>=◌, ◌>>◌, fail_if, or_fail,
}
use openpay.Ledger.Types.{
  AccountType, Hold, HoldStatus, hold_is_active, LedgerAccount, Journal, Posting, is_active,
  normal_sign, signed,
}
use openpay.Ledger.Store.{AccountRow, Store, find_account, find_hold, get_journal}
use openpay.Ledger.Locks.{HoldRelease, LockedAccount, locked_of}
use openpay.Ledger.Post.{update_balance, post_journal, no_check}

unfoldable pub lock_account : ℕ → List AccountRow → Result LockedAccount
lock_account i rows = or_fail (find_account i rows) not_found >>= λ r.
    if is_active r.account.status then ok (locked_of r) else err failed_precondition

-- `UPDATE ledger_balances SET held = …`
unfoldable pub write_held : LockedAccount → ℤ → List AccountRow → Result (List AccountRow)
write_held a held rows =
    if fits held then ok (update_balance (record a { held = held }) rows) else err internal

abbrev pub new_hold : Hold → Store → Hold
new_hold h s = record h {
  id = s.next_hold;
  status = HoldStatus.active;
  capture_journal_id = none;
  captured_amount = none;
}

unfoldable pub replay_hold : Hold → Hold → Result Hold
replay_hold h existing =
    if not (existing.account_id == h.account_id)
      || not (eqb_ℤ existing.amount h.amount)
      || not (str_eq existing.currency h.currency)
    then err already_exists
    else ok existing

-- Is less available on the account than is asked for?
unfoldable pub is_short : LockedAccount → ℤ → Bool
is_short a amount =
    not a.allow_negative
    && ltb_ℤ (sub64 (mul64 a.raw_balance (normal_sign a.account_type)) a.held) amount

-- `PlaceHold`, behind an insert that wrote the row `h`.
unfoldable pub reserve : Hold → Store → Result (Hold × Store)
reserve h s = do
  a ← lock_account h.account_id s.accounts
  fail_if (not (str_eq a.currency h.currency)) currency_mismatch
  fail_if (is_short a h.amount) insufficient_balance
  rows ← write_held a (a.held +ℤ h.amount) s.accounts
  ok (h, record s { accounts = rows; holds = h ∷ s.holds; next_hold = s.next_hold + 1 })

unfoldable pub place_hold : Hold → Store → Result (Hold × Store)
place_hold h s = do
  fail_if (not s.in_tx) internal
  fail_if (str_eq h.external_id "") internal
  fail_if (leb_ℤ h.amount (pos 0)) invalid_argument
  fail_if (leb h.expires_at s.now) invalid_argument
  elim (find_hold h.external_id s.holds) [
    | none ↦ reserve (new_hold h s) s
    | some existing ↦ (replay_hold h existing >>= λ e. ok (e, s))
  ]

-- `UPDATE ledger_holds SET … WHERE id = $1`
abbrev pub update_hold : Hold → List Hold → List Hold
update_hold h [] = []
update_hold h (k ∷ ks) = if k.id == h.id then h ∷ update_hold h ks else k ∷ update_hold h ks

abbrev pub same_status : HoldStatus → HoldStatus → Bool
same_status HoldStatus.active HoldStatus.active = true
same_status HoldStatus.captured HoldStatus.captured = true
same_status HoldStatus.released HoldStatus.released = true
same_status HoldStatus.expired HoldStatus.expired = true
same_status _ _ = false

-- `resolveHold`, for a hold that is active and may take the status.
unfoldable pub unreserve : Hold → HoldStatus → Store → Result (Hold × Store)
unreserve h to s = do
  a ← lock_account h.account_id s.accounts
  fail_if (ltb_ℤ a.held h.amount) internal
  rows ← write_held a (a.held -ℤ h.amount) s.accounts
  let resolved = record h { status = to }
  ok (resolved, record s { accounts = rows; holds = update_hold resolved s.holds })

-- The switch over the locked hold's status, and what follows it.
unfoldable pub resolve_locked : Hold → HoldStatus → Store → Result (Hold × Store)
resolve_locked h to s =
    if same_status h.status to
    then ok (h, s)
    else if not (hold_is_active h.status)
    then err failed_precondition
    else if same_status to HoldStatus.expired && ltb s.now h.expires_at
    then err failed_precondition
    else unreserve h to s

unfoldable pub resolve_hold : String → HoldStatus → Store → Result (Hold × Store)
resolve_hold x to s = do
  fail_if (not s.in_tx) internal
  h ← or_fail (find_hold x s.holds) not_found
  resolve_locked h to s

unfoldable pub release_hold : String → Store → Result (Hold × Store)
release_hold x s = resolve_hold x HoldStatus.released s

unfoldable pub expire_hold : String → Store → Result (Hold × Store)
expire_hold x s = resolve_hold x HoldStatus.expired s

-- `ListExpiredHolds`, without its order and limit.
unfoldable pub expired_holds : ℕ → List Hold → List String
expired_holds now [] = []
expired_holds now (h ∷ hs) =
    let rest = expired_holds now hs in
    if hold_is_active h.status && leb h.expires_at now then h.external_id ∷ rest else rest

-- The sum that a journal's postings make on an account.
unfoldable pub raw_change : ℤ → List Posting → ℕ → ℤ
raw_change acc [] i = acc
raw_change acc (p ∷ ps) i =
    raw_change (if p.account_id == i then add64 acc (signed p) else acc) ps i

unfoldable pub net_natural_change : Journal → LedgerAccount → ℤ
net_natural_change j a = mul64 (raw_change (pos 0) j.postings a.id) (normal_sign a.type)
