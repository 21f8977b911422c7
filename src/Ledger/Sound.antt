-- ===== src/Ledger/Sound.antt =====
-- The rules that internal/repository/postgresql/ledger_check.go checks, as an invariant of the
-- tables. Sums are unbounded, as SQL's SUM over BIGINT is.
use openpay.Base.{
  ℕ, suc, ◌+◌, ◌<◌, ◌≤◌, ◌≡◌, false, ◌==◌, some, String, List, [], ◌∷◌, All, str_eq, if◌then◌else◌,
}
use openpay.Base.Int.{ℤ, pos, magnitude, ◌+ℤ◌, ◌*ℤ◌, ◌≤ℤ◌}
use openpay.Base.Int64.{half}
use openpay.Ledger.Types.{Journal, Posting, Hold, contribution, normal_sign, hold_is_active}
use openpay.Ledger.Store.{AccountRow, Store, find_account}
use openpay.Ledger.Locks.{LockedAccount, locked_of}

-- The sum of an account's postings.
abbrev pub posted : ℕ → List Posting → ℤ
posted i [] = pos 0
posted i (p ∷ ps) = if p.account_id == i then contribution p +ℤ posted i ps else posted i ps

-- The sum of a journal's postings in one currency, and their number.
abbrev pub journal_sum : ℕ → String → List Posting → ℤ
journal_sum j c [] = pos 0
journal_sum j c (p ∷ ps) =
    if p.journal_id == j
    then (if str_eq p.currency c then contribution p +ℤ journal_sum j c ps else journal_sum j c ps)
    else journal_sum j c ps

abbrev pub journal_count : ℕ → List Posting → ℕ
journal_count j [] = 0
journal_count j (p ∷ ps) =
    if p.journal_id == j then suc (journal_count j ps) else journal_count j ps

-- The sum of the active holds on an account.
abbrev pub reserved : ℕ → List Hold → ℤ
reserved i [] = pos 0
reserved i (h ∷ hs) =
    if h.account_id == i
    then (if hold_is_active h.status then h.amount +ℤ reserved i hs else reserved i hs)
    else reserved i hs

-- Every posting carries the running sum of its account up to it.
abbrev pub HasRunningBalances : List Posting → Type 0
HasRunningBalances [] = Unit
HasRunningBalances (p ∷ ps) =
    (p.balance_after ≡ posted p.account_id (p ∷ ps)) × HasRunningBalances ps

-- A table in which the journals from this id on have no posting.
abbrev pub IsFresh : ℕ → List Posting → Type 0
IsFresh j ps = All (λ (p : Posting). p.journal_id < j) ps

-- The natural balance, in unbounded integers.
abbrev pub natural_exact : LockedAccount → ℤ
natural_exact l = l.raw_balance *ℤ normal_sign l.account_type

-- What is checked of one account: its balance is the sum of its postings, and if it may not go
-- negative then its holds are covered. There is room for `n` more in its figures.
pub record IsSoundAccount (n : ℕ) (ps : List Posting) (l : LockedAccount) : Type 0 where
  pub balanced : l.raw_balance ≡ posted l.id ps
  pub room : magnitude l.raw_balance + magnitude l.held + n < half
  pub reserve : pos 0 ≤ℤ l.held
  pub covered : l.allow_negative ≡ false → l.held ≤ℤ natural_exact l

-- The currency of a posting is its account's.
abbrev pub IsInCurrency : List AccountRow → Posting → Type 0
IsInCurrency rows p =
    (r : AccountRow) × (find_account p.account_id rows ≡ some r) × (p.currency ≡ r.account.currency)

-- The whole ledger: what every query of `ledgerInvariants` looks for a breach of, and that the
-- ids that the next journal will take are unused. A figure of an account is below 2^63.
pub record IsSound (s : Store) : Type 0 where
  pub accounts :
      (i : ℕ) (r : AccountRow)
      → find_account i s.accounts ≡ some r
      → IsSoundAccount 0 s.postings (locked_of r)
  pub held :
      (i : ℕ) (r : AccountRow)
      → find_account i s.accounts ≡ some r
      → r.balance.held ≡ reserved i s.holds
  pub running : HasRunningBalances s.postings
  pub balanced : (j : ℕ) (c : String) → journal_sum j c s.postings ≡ pos 0
  pub two_legs : All (λ (j : Journal). 2 ≤ journal_count j.id s.postings) s.journals
  pub currency : All (IsInCurrency s.accounts) s.postings
  pub fresh : IsFresh s.next_journal s.postings
  pub numbered : All (λ (j : Journal). j.id < s.next_journal) s.journals
