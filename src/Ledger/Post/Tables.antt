-- ===== src/Ledger/Post/Tables.antt =====
-- What the loop of `writePostings` adds to the table of postings.
use openpay.Base.{
  ℕ, ◌+◌, ◌≡◌, ◌∙◌, sym, ap, refl, Bool, true, false, ◌==◌, none, some, String, List, [], ◌∷◌, ◌++◌,
  length, All, arith, str_eq, if◌then◌else◌, Bool-cases, if_false, inl, inr, ==_iff,
}
use mathlib.Core.List.{append_assoc, append-nil}
use openpay.Base.Int.{ℤ, pos, ◌+ℤ◌, int_laws}
use openpay.Errors.{ok}
use openpay.Ledger.Types.{Posting, contribution}
use openpay.Ledger.Validate.Laws.{IsLeg, volume, currency_sum}
use openpay.Ledger.Store.{postings_of}
use openpay.Ledger.Locks.{LockedAccount, find_locked, set_locked}
use openpay.Ledger.Post.{written_posting, write_legs, Written}
use openpay.Ledger.Post.Legs.{
  write_legs-nil, write_legs-Round, AllSound, round-AllSound, round_running,
}
use openpay.Ledger.Sound.{posted, HasRunningBalances, journal_sum, journal_count, IsFresh}

-- The running balances stay right.
pub write_legs-HasRunningBalances :
    (journal seq : ℕ) (ps : List Posting) (ls : List LockedAccount) (table : List Posting)
    (w : Written)
    → All IsLeg ps
    → AllSound (volume ps) table ls
    → HasRunningBalances table
    → write_legs journal seq ps ls table ≡ ok w
    → HasRunningBalances w.table
write_legs-HasRunningBalances journal seq [] ls table w legs sound run h =
    rw (← write_legs-nil journal seq ls table w h) run
write_legs-HasRunningBalances journal seq (p ∷ ps) ls table w legs sound run h =
    let r = write_legs-Round journal seq p ps ls table w h in
    rw r.result (
      write_legs-HasRunningBalances journal (seq + 1) ps (set_locked r.after ls)
        (written_posting journal seq p r.after ∷ table) r.rest legs.1
        (round-AllSound journal seq (volume ps) p legs.0 ls table r.before r.after r.found r.applied
          sound)
        (
          round_running journal seq (volume ps) p legs.0 ls table r.before r.after r.found r.applied
              sound,
          run,
        )
        r.goes_on)

pub set_locked-none :
    (i : ℕ) (b : LockedAccount) (ls : List LockedAccount)
    → find_locked i ls ≡ none
    → find_locked i (set_locked b ls) ≡ none
set_locked-none i b [] e = refl
set_locked-none i b (l ∷ ls) e = elim (Bool-cases (l.id == b.id)) [
  | inl same ↦ rw same (ground (arith, same))
  | inr other ↦ rw other (ground (arith, set_locked-none i b ls))
]

pub found_elsewhere :
    (i k : ℕ) (ls : List LockedAccount) (a : LockedAccount)
    → find_locked i ls ≡ none
    → find_locked k ls ≡ some a
    → (k == i) ≡ false
found_elsewhere i k [] a e f = cc
found_elsewhere i k (l ∷ ls) a e f = ground (arith, found_elsewhere i k ls a)

pub write_legs-none :
    (i journal seq : ℕ) (ps : List Posting) (ls : List LockedAccount) (table : List Posting)
    (w : Written)
    → find_locked i ls ≡ none
    → write_legs journal seq ps ls table ≡ ok w
    → find_locked i w.locked ≡ none
write_legs-none i journal seq [] ls table w e h =
    ap (λ (x : Written). find_locked i x.locked) (sym (write_legs-nil journal seq ls table w h)) ∙ e
write_legs-none i journal seq (p ∷ ps) ls table w e h =
    let r = write_legs-Round journal seq p ps ls table w h in
    ap (λ (x : Written). find_locked i x.locked) r.result
    ∙ write_legs-none i journal (seq + 1) ps (set_locked r.after ls)
        (written_posting journal seq p r.after ∷ table) r.rest (set_locked-none i r.after ls e)
        r.goes_on

pub write_legs-elsewhere :
    (i journal seq : ℕ) (ps : List Posting) (ls : List LockedAccount) (table : List Posting)
    (w : Written)
    → find_locked i ls ≡ none
    → write_legs journal seq ps ls table ≡ ok w
    → posted i ps ≡ pos 0
write_legs-elsewhere i journal seq [] ls table w e h = refl
write_legs-elsewhere i journal seq (p ∷ ps) ls table w e h =
    let r = write_legs-Round journal seq p ps ls table w h in
    if_false _ _ (found_elsewhere i p.account_id ls r.before e r.found)
    ∙ write_legs-elsewhere i journal (seq + 1) ps (set_locked r.after ls)
        (written_posting journal seq p r.after ∷ table) r.rest (set_locked-none i r.after ls e)
        r.goes_on

-- An account that is not locked gets no posting.
pub write_legs-posted :
    (i journal seq : ℕ) (ps : List Posting) (ls : List LockedAccount) (table : List Posting)
    (w : Written)
    → find_locked i ls ≡ none
    → write_legs journal seq ps ls table ≡ ok w
    → posted i w.table ≡ posted i table
write_legs-posted i journal seq [] ls table w e h = rw (← write_legs-nil journal seq ls table w h)
write_legs-posted i journal seq (p ∷ ps) ls table w e h =
    let r = write_legs-Round journal seq p ps ls table w h in
    rw r.result (
      write_legs-posted i journal (seq + 1) ps (set_locked r.after ls)
        (written_posting journal seq p r.after ∷ table) r.rest (set_locked-none i r.after ls e)
        r.goes_on
      ∙ if_false _ _ (found_elsewhere i p.account_id ls r.before e r.found))

one_more :
    (b : Bool) (x cs t : ℤ) → cs +ℤ (if b then x +ℤ t else t) ≡ (if b then x +ℤ cs else cs) +ℤ t
one_more true x cs t = omega int_laws
one_more false x cs t = refl

zero_more : (t : ℤ) → t ≡ pos 0 +ℤ t
zero_more t = omega int_laws

-- The journal's own postings sum to what was handed in.
pub write_legs-journal_sum :
    (c : String) (journal seq : ℕ) (ps : List Posting) (ls : List LockedAccount)
    (table : List Posting) (w : Written)
    → write_legs journal seq ps ls table ≡ ok w
    → journal_sum journal c w.table ≡ currency_sum c ps +ℤ journal_sum journal c table
write_legs-journal_sum c journal seq [] ls table w h =
    rw (← write_legs-nil journal seq ls table w h) (zero_more (journal_sum journal c table))
write_legs-journal_sum c journal seq (p ∷ ps) ls table w h =
    let r = write_legs-Round journal seq p ps ls table w h in
    rw r.result (
      write_legs-journal_sum c journal (seq + 1) ps (set_locked r.after ls)
        (written_posting journal seq p r.after ∷ table) r.rest r.goes_on
      ∙ rw ((==_iff journal journal).1 refl) (
          one_more (str_eq p.currency c) (contribution p) (currency_sum c ps)
            (journal_sum journal c table)))

-- They are as many as were handed in.
pub write_legs-journal_count :
    (journal seq : ℕ) (ps : List Posting) (ls : List LockedAccount) (table : List Posting)
    (w : Written)
    → write_legs journal seq ps ls table ≡ ok w
    → journal_count journal w.table ≡ length ps + journal_count journal table
write_legs-journal_count journal seq [] ls table w h =
    rw (← write_legs-nil journal seq ls table w h) (omega arith)
write_legs-journal_count journal seq (p ∷ ps) ls table w h =
    let r = write_legs-Round journal seq p ps ls table w h in
    rw r.result (
      write_legs-journal_count journal (seq + 1) ps (set_locked r.after ls)
        (written_posting journal seq p r.after ∷ table) r.rest r.goes_on
      ∙ rw ((==_iff journal journal).1 refl) (omega arith))

module _ (k journal : ℕ) (other : (journal == k) ≡ false) where
  -- The other journals keep their postings.
  pub write_legs-journal_sum_ne :
      (c : String) (seq : ℕ) (ps : List Posting) (ls : List LockedAccount) (table : List Posting)
      (w : Written)
      → write_legs journal seq ps ls table ≡ ok w
      → journal_sum k c w.table ≡ journal_sum k c table
  write_legs-journal_sum_ne c seq [] ls table w h = rw (← write_legs-nil journal seq ls table w h)
  write_legs-journal_sum_ne c seq (p ∷ ps) ls table w h =
      let r = write_legs-Round journal seq p ps ls table w h in
      rw r.result (
        write_legs-journal_sum_ne c (seq + 1) ps (set_locked r.after ls)
          (written_posting journal seq p r.after ∷ table) r.rest r.goes_on
        ∙ if_false _ _ other)

  pub write_legs-journal_count_ne :
      (seq : ℕ) (ps : List Posting) (ls : List LockedAccount) (table : List Posting) (w : Written)
      → write_legs journal seq ps ls table ≡ ok w
      → journal_count k w.table ≡ journal_count k table
  write_legs-journal_count_ne seq [] ls table w h = rw (← write_legs-nil journal seq ls table w h)
  write_legs-journal_count_ne seq (p ∷ ps) ls table w h =
      let r = write_legs-Round journal seq p ps ls table w h in
      rw r.result (
        write_legs-journal_count_ne (seq + 1) ps (set_locked r.after ls)
          (written_posting journal seq p r.after ∷ table) r.rest r.goes_on
        ∙ if_false _ _ other)

-- The postings that are read back are those that the loop hands out, in the same order.
pub write_legs-postings_of :
    (journal seq : ℕ) (ps : List Posting) (ls : List LockedAccount) (table : List Posting)
    (w : Written)
    → write_legs journal seq ps ls table ≡ ok w
    → postings_of journal w.table ≡ postings_of journal table ++ w.postings
write_legs-postings_of journal seq [] ls table w h =
    rw (← write_legs-nil journal seq ls table w h) (sym (append-nil (postings_of journal table)))
write_legs-postings_of journal seq (p ∷ ps) ls table w h =
    let r = write_legs-Round journal seq p ps ls table w h in
    rw r.result (
      write_legs-postings_of journal (seq + 1) ps (set_locked r.after ls)
        (written_posting journal seq p r.after ∷ table) r.rest r.goes_on
      ∙ rw ((==_iff journal journal).1 refl) (
          append_assoc (postings_of journal table) (written_posting journal seq p r.after ∷ [])
            r.rest.postings))

pub journal_sum-IsFresh :
    (j : ℕ) (c : String) (ps : List Posting) → IsFresh j ps → journal_sum j c ps ≡ pos 0
journal_sum-IsFresh j c [] f = refl
journal_sum-IsFresh j c (p ∷ ps) f = ground (arith, journal_sum-IsFresh j c ps f.1)

pub journal_count-IsFresh : (j : ℕ) (ps : List Posting) → IsFresh j ps → journal_count j ps ≡ 0
journal_count-IsFresh j [] f = refl
journal_count-IsFresh j (p ∷ ps) f = ground (arith, journal_count-IsFresh j ps f.1)

pub postings_of-IsFresh : (j : ℕ) (ps : List Posting) → IsFresh j ps → postings_of j ps ≡ []
postings_of-IsFresh j [] f = refl
postings_of-IsFresh j (p ∷ ps) f = ground (arith, postings_of-IsFresh j ps f.1)

IsFresh-suc : (j : ℕ) (ps : List Posting) → IsFresh j ps → IsFresh (j + 1) ps
IsFresh-suc j [] f = tt
IsFresh-suc j (p ∷ ps) f = (omega arith, IsFresh-suc j ps f.1)

write_legs-IsFresh_suc :
    (journal seq : ℕ) (ps : List Posting) (ls : List LockedAccount) (table : List Posting)
    (w : Written)
    → IsFresh (journal + 1) table
    → write_legs journal seq ps ls table ≡ ok w
    → IsFresh (journal + 1) w.table
write_legs-IsFresh_suc journal seq [] ls table w f h =
    rw (← write_legs-nil journal seq ls table w h) f
write_legs-IsFresh_suc journal seq (p ∷ ps) ls table w f h =
    let r = write_legs-Round journal seq p ps ls table w h in
    rw r.result (
      write_legs-IsFresh_suc journal (seq + 1) ps (set_locked r.after ls)
        (written_posting journal seq p r.after ∷ table) r.rest (omega arith, f) r.goes_on)

pub write_legs-IsFresh :
    (journal seq : ℕ) (ps : List Posting) (ls : List LockedAccount) (table : List Posting)
    (w : Written)
    → IsFresh journal table
    → write_legs journal seq ps ls table ≡ ok w
    → IsFresh (journal + 1) w.table
write_legs-IsFresh journal seq ps ls table w f h =
    write_legs-IsFresh_suc journal seq ps ls table w (IsFresh-suc journal table f) h
