-- ===== src/Ledger/Store.antt =====
-- The tables that the ledger reads and writes, and the statements on them. The rows of
-- `postings` stand newest first; an account's row is joined with its balance row, which
-- `insertLedgerAccount` creates with it. A statement that the database itself fails (a lost
-- connection) is not modelled. `reversed` undoes the order, for `ORDER BY seq`.
use openpay.Base.{
  ℕ, Bool, ◌==◌, Option, none, some, String, List, [], ◌∷◌, ◌++◌, str_eq, if◌then◌else◌,
}
use openpay.Ledger.Types.{LedgerAccount, Balance, Journal, Posting, Hold}

-- ledger_accounts JOIN ledger_balances
pub record AccountRow : Type 0 where
  pub account : LedgerAccount
  pub balance : Balance

-- The database as one transaction sees it. `in_tx` is what `InTx(ctx)` reports.
pub record Store : Type 0 where
  pub in_tx : Bool
  pub now : ℕ
  pub accounts : List AccountRow
  pub journals : List Journal
  pub postings : List Posting
  pub holds : List Hold
  pub next_journal : ℕ
  pub next_hold : ℕ

-- `WHERE a.id = $1`
abbrev pub find_account : ℕ → List AccountRow → Option AccountRow
find_account i [] = none
find_account i (r ∷ rs) = if r.account.id == i then some r else find_account i rs

-- `WHERE external_id = $1`
abbrev pub find_journal : String → List Journal → Option Journal
find_journal x [] = none
find_journal x (j ∷ js) = if str_eq j.external_id x then some j else find_journal x js

abbrev pub find_hold : String → List Hold → Option Hold
find_hold x [] = none
find_hold x (h ∷ hs) = if str_eq h.external_id x then some h else find_hold x hs

-- `WHERE p.journal_id = $1 ORDER BY p.seq`: a journal's postings are written in the order of seq.
abbrev pub postings_of : ℕ → List Posting → List Posting
postings_of i [] = []
postings_of i (p ∷ ps) =
    let rest = postings_of i ps in if p.journal_id == i then rest ++ p ∷ [] else rest

-- `GetJournalByExternalID`: a journal with its postings.
unfoldable pub get_journal : String → Store → Option Journal
get_journal x s = elim (find_journal x s.journals) [
  | none ↦ none
  | some j ↦ some (record j { postings = postings_of j.id s.postings })
]
