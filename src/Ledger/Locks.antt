-- ===== src/Ledger/Locks.antt =====
-- internal/repository/postgresql/ledger.go: `lockAccountsForPosting`.
pub mod Order
use openpay.Base.{
  ℕ, zero, suc, ◌≡◌, refl, Bool, true, false, ◌==◌, ◌||◌, leb, Option, none, some, String, List, [],
  ◌∷◌, ◌++◌, arith, if◌then◌else◌,
}
use openpay.Base.Int.{ℤ}
use openpay.Errors.{Result, ok, err, not_found, failed_precondition, ◌>>=◌}
use openpay.Ledger.Types.{AccountType, AccountStatus, Journal, Posting, is_active}
use openpay.Ledger.Store.{AccountRow, Store, find_account}

-- `holdRelease`: a reservation that is freed while a journal is posted.
pub record HoldRelease : Type 0 where
  pub account_id : ℕ
  pub amount : ℤ

pub record LockedAccount : Type 0 where
  pub id : ℕ
  pub code : String
  pub account_type : AccountType
  pub currency : String
  pub allow_negative : Bool
  pub status : AccountStatus
  pub raw_balance : ℤ
  pub held : ℤ

-- `slices.Contains`
unfoldable pub contains : ℕ → List ℕ → Bool
contains i [] = false
contains i (j ∷ js) = i == j || contains i js

-- `if !slices.Contains(ids, id) { ids = append(ids, id) }`
unfoldable pub add_id : List ℕ → ℕ → List ℕ
add_id ids i = if contains i ids then ids else ids ++ i ∷ []

unfoldable pub posting_ids : List ℕ → List Posting → List ℕ
posting_ids ids [] = ids
posting_ids ids (p ∷ ps) = posting_ids (add_id ids p.account_id) ps

unfoldable pub release_ids : List ℕ → List HoldRelease → List ℕ
release_ids ids [] = ids
release_ids ids (r ∷ rs) = release_ids (add_id ids r.account_id) rs

-- `slices.Sort`
unfoldable pub insert : ℕ → List ℕ → List ℕ
insert i [] = i ∷ []
insert i (j ∷ js) = if leb i j then i ∷ j ∷ js else j ∷ insert i js

unfoldable pub sort : List ℕ → List ℕ
sort [] = []
sort (i ∷ is) = insert i (sort is)

-- The accounts to lock, in the order in which they are locked.
unfoldable pub lock_ids : List Posting → List HoldRelease → List ℕ
lock_ids ps rs = sort (release_ids (posting_ids [] ps) rs)

-- A row of the SELECT … FOR UPDATE OF b.
abbrev pub locked_of : AccountRow → LockedAccount
locked_of r = record {
  id = r.account.id;
  code = r.account.code;
  account_type = r.account.type;
  currency = r.account.currency;
  allow_negative = r.account.allow_negative;
  status = r.account.status;
  raw_balance = r.balance.raw_balance;
  held = r.balance.held;
}

-- The loop over `ids` that checks each account, with the row that the query gives for it.
unfoldable pub lock_accounts : List ℕ → List AccountRow → Result (List LockedAccount)
lock_accounts [] rows = ok []
lock_accounts (i ∷ is) rows =
    let rest = lock_accounts is rows in
    elim (find_account i rows) [
      | none ↦ err not_found
      | some r ↦
          if is_active r.account.status
          then (rest >>= λ ls. ok (locked_of r ∷ ls))
          else err failed_precondition
    ]

unfoldable pub lock_accounts_for_posting :
    List Posting → List HoldRelease → List AccountRow → Result (List LockedAccount)
lock_accounts_for_posting ps rs rows = lock_accounts (lock_ids ps rs) rows

-- `accounts[id]`
abbrev pub find_locked : ℕ → List LockedAccount → Option LockedAccount
find_locked i [] = none
find_locked i (l ∷ ls) = if l.id == i then some l else find_locked i ls

-- A write through the pointer that `accounts[a.id]` holds.
abbrev pub set_locked : LockedAccount → List LockedAccount → List LockedAccount
set_locked a [] = []
set_locked a (l ∷ ls) = if l.id == a.id then a ∷ ls else l ∷ set_locked a ls
