-- ===== src/Ledger/Post.antt =====
-- internal/repository/postgresql/ledger.go: `postJournal` and `writePostings`.
pub mod Apply
pub mod Legs
pub mod Tables
pub mod Rows
pub mod Effect
pub mod Invariant
pub mod Correct
use openpay.Base.{
  ℕ, zero, suc, ◌+◌, ◌≡◌, refl, Bool, true, false, ◌==◌, ◌&&◌, not, Option, none, some, String,
  List, [], ◌∷◌, ◌++◌, arith, str_eq, if◌then◌else◌,
}
use openpay.Base.Int.{ℤ, pos, ltb_ℤ}
use openpay.Base.Int64.{add64, sub64, mul64}
use openpay.Errors.{
  Result, ok, err, internal, currency_mismatch, insufficient_balance, ◌>>=◌, ◌>>◌, fail_if, or_fail,
}
use openpay.Ledger.Types.{Journal, Posting, Balance, signed, normal_sign}
use openpay.Ledger.Validate.{validate_journal}
use openpay.Ledger.Store.{AccountRow, Store, get_journal}
use openpay.Ledger.Locks.{
  HoldRelease, LockedAccount, find_locked, set_locked, lock_accounts_for_posting,
}

-- The body of the loop over `opts.releases`. Every released account was locked, so that the
-- lookup, which Go answers with a nil pointer, does not fail.
unfoldable pub free_release : HoldRelease → List LockedAccount → Result (List LockedAccount)
free_release r ls = elim (find_locked r.account_id ls) [
  | none ↦ err internal
  | some a ↦
      if ltb_ℤ a.held r.amount
      then err internal
      else ok (set_locked (record a { held = sub64 a.held r.amount }) ls)
]

unfoldable pub free_releases : List HoldRelease → List LockedAccount → Result (List LockedAccount)
free_releases [] ls = ok ls
free_releases (r ∷ rs) ls = do ls' ← free_release r ls; free_releases rs ls'

-- Would the balance that a posting leaves be short of what holds reserve?
unfoldable pub is_overdrawn : LockedAccount → ℤ → Bool
is_overdrawn a raw =
    let natural = mul64 raw (normal_sign a.account_type) in ltb_ℤ (sub64 natural a.held) (pos 0)

-- One posting against the account that it names.
unfoldable pub apply_posting : Posting → LockedAccount → Result LockedAccount
unfolding is_overdrawn
apply_posting p a =
    let raw = add64 a.raw_balance (signed p) in
    if not (str_eq p.currency a.currency)
    then err currency_mismatch
    else if not a.allow_negative
        && (ltb_ℤ (mul64 (signed p) (normal_sign a.account_type)) (pos 0) && is_overdrawn a raw)
    then err insufficient_balance
    else ok (record a { raw_balance = raw })

-- The accounts, the table and the journal's own postings as the loop leaves them.
pub record Written : Type 0 where
  pub locked : List LockedAccount
  pub table : List Posting
  pub postings : List Posting

abbrev pub written_posting : ℕ → ℕ → Posting → LockedAccount → Posting
written_posting journal seq p a = record p {
  journal_id = journal;
  seq = seq;
  balance_after = a.raw_balance;
}

-- The loop of `writePostings` over the journal's postings, for the journal with this id.
unfoldable pub write_legs :
    ℕ → ℕ → List Posting → List LockedAccount → List Posting → Result Written
write_legs journal seq [] ls table = ok (record { locked = ls; table = table; postings = [] })
write_legs journal seq (p ∷ ps) ls table = or_fail (find_locked p.account_id ls) internal >>= λ a.
    apply_posting p a >>= λ b.
    let q = written_posting journal seq p b in
    write_legs journal (seq + 1) ps (set_locked b ls) (q ∷ table) >>= λ w.
    ok (record w { postings = q ∷ w.postings })

-- `UPDATE ledger_balances SET raw_balance = $2, held = $3, version = version + 1`
abbrev pub updated : LockedAccount → AccountRow → AccountRow
updated l r = record r {
  balance = record {
    raw_balance = l.raw_balance;
    held = l.held;
    version = add64 r.balance.version (pos 1);
  };
}

abbrev pub update_balance : LockedAccount → List AccountRow → List AccountRow
update_balance l [] = []
update_balance l (r ∷ rs) =
    if r.account.id == l.id then updated l r ∷ rs else r ∷ update_balance l rs

-- The loop over the map of locked accounts, whose order Go leaves open.
unfoldable pub write_balances : List LockedAccount → List AccountRow → List AccountRow
write_balances [] rows = rows
write_balances (l ∷ ls) rows = update_balance l (write_balances ls rows)

-- `insertJournal`, where the external id is new: the row that it writes.
abbrev pub new_row : Journal → Store → Journal
new_row j s = record j { id = s.next_journal }

-- What a check that runs under the locks may read: the journal and the tables as they would commit.
abbrev pub Check : Type 0
Check = Journal → Store → Result (Unit {0})

abbrev pub no_check : Check
no_check j s = ok tt

abbrev pub commit_journal : Journal → Written → Store → Store
commit_journal j w s = record s {
  accounts = write_balances w.locked s.accounts;
  journals = record j { postings = [] } ∷ s.journals;
  postings = w.table;
  next_journal = s.next_journal + 1;
}

-- The part of `postJournal` behind `insertJournal`, for a journal that this call has inserted.
unfoldable pub post_new :
    List HoldRelease → Check → Journal → Store → Result (Bool × Journal × Store)
post_new releases check j s = do
  locked ← lock_accounts_for_posting j.postings releases s.accounts
  freed ← free_releases releases locked
  w ← write_legs j.id 0 j.postings freed s.postings
  let posted = record j { postings = w.postings }
  let s' = commit_journal j w s
  check posted s'
  ok (true, posted, s')

unfoldable pub post_journal :
    List HoldRelease → Check → Journal → Store → Result (Bool × Journal × Store)
post_journal releases check j s = do
  fail_if (not s.in_tx) internal
  validate_journal j
  elim (get_journal j.external_id s) [
    | none ↦ post_new releases check (new_row j s) s
    | some existing ↦ ok (false, existing, s)
  ]
