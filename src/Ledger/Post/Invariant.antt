-- ===== src/Ledger/Post/Invariant.antt =====
-- Posting a journal keeps every rule of the ledger.
use openpay.Base.{
  ℕ, ◌+◌, ◌<◌, ◌≤◌, ◌≡◌, ◌∙◌, sym, ap, false, ◌==◌, none, some, String, List, [], ◌∷◌, length, All,
  arith, eq_iff, Bool-cases, Option-cases, some-eq, subst, inl, inr,
}
use openpay.Base.Int.{pos, ◌+ℤ◌, ◌-ℤ◌, int_laws}
use openpay.Errors.{ok}
use openpay.Ledger.Types.{Posting, Journal}
use openpay.Ledger.Validate.Laws.{IsLeg, volume, currency_sum}
use openpay.Ledger.Store.{AccountRow, Store, find_account}
use openpay.Ledger.Locks.{
  HoldRelease, LockedAccount, find_locked, set_locked, locked_of, lock_ids,
  lock_accounts_for_posting,
}
use openpay.Ledger.Post.{Check, Written, written_posting, apply_posting, write_legs, write_balances}
use openpay.Ledger.Post.Legs.{
  write_legs-Round, write_legs-nil, id-find_locked, find_locked-set_locked,
}
use openpay.Ledger.Post.Tables.{
  write_legs-HasRunningBalances, write_legs-journal_sum, write_legs-journal_count,
  write_legs-journal_sum_ne, write_legs-journal_count_ne, journal_sum-IsFresh, write_legs-IsFresh,
}
use openpay.Ledger.Post.Rows.{
  AllFair, released, lock_accounts-rows, find_account-write_balances-none, free_releases-exact,
  free_releases-none,
}
use openpay.Ledger.Post.Effect.{
  Stages, Moved, HasRoomFor, locked-AllSound, freed-AllSound, write-Moved,
}
use openpay.Ledger.Sound.{
  journal_sum, journal_count, reserved, HasRunningBalances, IsFresh, IsSoundAccount, IsInCurrency,
  IsSound,
}

All-map :
    {A : Type 0} {P Q R : A → Type 0} (xs : List A)
    → ((x : A) → P x → Q x → R x)
    → All P xs
    → All Q xs
    → All R xs
All-map [] f p q = tt
All-map (x ∷ xs) f p q = (f x p.0 q.0, All-map xs f p.1 q.1)

clash : {A : Type 0} (a : A) → none ≡ some a → ⊥
clash a e = cc

zero_sum : pos 0 +ℤ pos 0 ≡ pos 0
zero_sum = omega int_laws

-- The locked accounts are in the currencies of their rows.
abbrev FromRows : List AccountRow → List LockedAccount → Type 0
FromRows rows ls =
    (i : ℕ) (l : LockedAccount)
    → find_locked i ls ≡ some l
    → (r : AccountRow) × (find_account i rows ≡ some r) × (l.currency ≡ r.account.currency)

apply_posting-same :
    (p : Posting) (a b : LockedAccount)
    → apply_posting p a ≡ ok b
    → (b.id ≡ a.id) × (b.currency ≡ a.currency) × (p.currency ≡ a.currency)
unfolding apply_posting
apply_posting-same p a b h =
    (ground arith, ground arith, ground (arith, eq_iff p.currency a.currency))

FromRows-set_locked :
    (rows : List AccountRow) (ls : List LockedAccount) (k : ℕ) (a b : LockedAccount)
    → FromRows rows ls
    → find_locked k ls ≡ some a
    → b.id ≡ a.id
    → b.currency ≡ a.currency
    → FromRows rows (set_locked b ls)
FromRows-set_locked rows ls k a b from found same cur i l at_i =
    let here : b.id ≡ k = same ∙ id-find_locked k ls a found in
    let moved = find_locked-set_locked i b ls a (ap (λ n. find_locked n ls) here ∙ found) in
    elim (Bool-cases (b.id == i)) [
      | inl hit ↦
          let is_b : b ≡ l = ground (arith, moved, hit) in
          let k_is : k ≡ i = ground (arith, hit) in
          let (r, at_r, c) = from k a found in
          (
            r,
            ap (λ n. find_account n rows) (sym k_is) ∙ at_r,
            ap (λ (x : LockedAccount). x.currency) (sym is_b) ∙ cur ∙ c,
          )
      | inr miss ↦ from i l (ground (arith, moved, miss))
    ]

write_legs-IsInCurrency :
    (rows : List AccountRow) (journal seq : ℕ) (ps : List Posting) (ls : List LockedAccount)
    (table : List Posting) (w : Written)
    → FromRows rows ls
    → All (IsInCurrency rows) table
    → write_legs journal seq ps ls table ≡ ok w
    → All (IsInCurrency rows) w.table
write_legs-IsInCurrency rows journal seq [] ls table w from good h =
    rw (← write_legs-nil journal seq ls table w h) good
write_legs-IsInCurrency rows journal seq (p ∷ ps) ls table w from good h =
    let r = write_legs-Round journal seq p ps ls table w h in
    let (same, cur, c) = apply_posting-same p r.before r.after r.applied in
    let (row, at_row, e) = from p.account_id r.before r.found in
    rw r.result (
      write_legs-IsInCurrency rows journal (seq + 1) ps (set_locked r.after ls)
        (written_posting journal seq p r.after ∷ table) r.rest
        (FromRows-set_locked rows ls p.account_id r.before r.after from r.found same cur)
        ((row, at_row, c ∙ e), good) r.goes_on)

module _ (releases : List HoldRelease) (check : Check) (j : Journal) (s : Store) (j' : Journal)
    (s' : Store) (fair : AllFair releases) (legs : All IsLeg j.postings)
    (room : HasRoomFor (volume j.postings) s) (st : Stages releases check j s j' s')
    (sound : IsSound s) (new : j.id ≡ s.next_journal) (two : 2 ≤ length j.postings)
    (even : (c : String) → currency_sum c j.postings ≡ pos 0) where
  -- A row of the new table is an old row, moved.
  pub row_before :
      (i : ℕ) (r' : AccountRow)
      → find_account i (write_balances st.w.locked s.accounts) ≡ some r'
      → (r : AccountRow) × (find_account i s.accounts ≡ some r)
        × Moved releases j.postings st.w.table i r r'
  row_before i r' at_i = elim (Option-cases (find_account i s.accounts)) [
    | inl missing ↦
        absurd (
          clash r' (sym (find_account-write_balances-none i st.w.locked s.accounts missing) ∙ at_i))
    | inr (r, found) ↦
        let (r2, found', m) = write-Moved releases check j s j' s' fair legs room st i r found in
        (
          r,
          found,
          subst (Moved releases j.postings st.w.table i r) (some-eq r2 r' (sym found' ∙ at_i)) m,
        )
  ]

  freed-FromRows : FromRows s.accounts st.freed
  unfolding lock_accounts_for_posting
  freed-FromRows i l at_i = elim (Option-cases (find_locked i st.locked)) [
    | inl missing ↦ absurd (
        clash l
          (sym (free_releases-none releases st.locked st.freed st.freeing i missing).0 ∙ at_i))
    | inr (a, found) ↦
        let exact =
          free_releases-exact (volume j.postings) s.postings releases st.locked st.freed fair
            (locked-AllSound releases check j s j' s' fair legs room st) st.freeing i a found in
        let is_l : record a { held = a.held -ℤ released i releases } ≡ l =
          some-eq _ l (sym exact ∙ at_i) in
        let (r, at_r, same) =
          lock_accounts-rows (lock_ids j.postings releases) s.accounts st.locked st.locking i a
            found in
        (
          r,
          at_r,
          ap (λ (x : LockedAccount). x.currency) (sym is_l)
              ∙ ap (λ (x : LockedAccount). x.currency) same,
        )
  ]

  pub new-accounts :
      (i : ℕ) (r' : AccountRow)
      → find_account i (write_balances st.w.locked s.accounts) ≡ some r'
      → IsSoundAccount 0 st.w.table (locked_of r')
  new-accounts i r' at_i = let (r, found, m) = row_before i r' at_i in m.sound

  pub new-held :
      (i : ℕ) (r' : AccountRow)
      → find_account i (write_balances st.w.locked s.accounts) ≡ some r'
      → r'.balance.held ≡ reserved i s.holds -ℤ released i releases
  new-held i r' at_i =
      let (r, found, m) = row_before i r' at_i in
      m.held ∙ ap (λ x. x -ℤ released i releases) (sound.held i r found)

  pub new-running : HasRunningBalances st.w.table
  new-running =
      write_legs-HasRunningBalances j.id 0 j.postings st.freed s.postings st.w legs
        (freed-AllSound releases check j s j' s' fair legs room st) sound.running st.writing

  IsFresh-here : IsFresh j.id s.postings
  IsFresh-here = rw new sound.fresh

  pub new-balanced : (k : ℕ) (c : String) → journal_sum k c st.w.table ≡ pos 0
  new-balanced k c = elim (Bool-cases (j.id == k)) [
    | inl here ↦
        let same : j.id ≡ k = ground (arith, here) in
        ap (λ n. journal_sum n c st.w.table) (sym same)
        ∙ write_legs-journal_sum c j.id 0 j.postings st.freed s.postings st.w st.writing
        ∙ rw (even c) (rw (journal_sum-IsFresh j.id c s.postings IsFresh-here) zero_sum)
    | inr other ↦
        write_legs-journal_sum_ne k j.id other c 0 j.postings st.freed s.postings st.w st.writing
        ∙ sound.balanced k c
  ]

  old_legs :
      (k : Journal)
      → 2 ≤ journal_count k.id s.postings
      → k.id < s.next_journal
      → 2 ≤ journal_count k.id st.w.table
  old_legs k n below =
      let other : (j.id == k.id) ≡ false = ground (arith, new, below) in
      rw
        (write_legs-journal_count_ne k.id j.id other 0 j.postings st.freed s.postings st.w
          st.writing)
        n

  pub new-two_legs :
      All
        (λ (k : Journal). 2 ≤ journal_count k.id st.w.table)
        (record j { postings = [] } ∷ s.journals)
  new-two_legs = (
    omega (
      arith,
      two,
      write_legs-journal_count j.id 0 j.postings st.freed s.postings st.w st.writing,
    ),
    All-map s.journals old_legs sound.two_legs sound.numbered,
  )

  row_kept :
      (p : Posting)
      → IsInCurrency s.accounts p
      → IsInCurrency (write_balances st.w.locked s.accounts) p
  row_kept p (r, found, e) =
      let (r', found', m) =
        write-Moved releases check j s j' s' fair legs room st p.account_id r found in
      (r', found', e ∙ ap (λ x. x.currency) (sym m.account))

  pub new-currency : All (IsInCurrency (write_balances st.w.locked s.accounts)) st.w.table
  new-currency =
      let here =
        write_legs-IsInCurrency s.accounts j.id 0 j.postings st.freed s.postings st.w freed-FromRows
          sound.currency st.writing in
      All-map st.w.table (λ p a b. row_kept p a) here here

  pub new-IsFresh : IsFresh (s.next_journal + 1) st.w.table
  new-IsFresh =
      subst (λ n. IsFresh (n + 1) st.w.table) new
        (write_legs-IsFresh j.id 0 j.postings st.freed s.postings st.w IsFresh-here st.writing)

  below_next :
      (k : Journal) → k.id < s.next_journal → k.id < s.next_journal → k.id < s.next_journal + 1
  below_next k a b = omega arith

  pub new-numbered :
      All (λ (k : Journal). k.id < s.next_journal + 1) (record j { postings = [] } ∷ s.journals)
  new-numbered = (omega (arith, new), All-map s.journals below_next sound.numbered sound.numbered)
