-- ===== src/Ledger/Post/Effect.antt =====
-- What a journal that is posted does to the balances.
use openpay.Base.{
  ℕ, ◌+◌, ◌≡◌, ◌∙◌, sym, ap, refl, Bool, true, none, some, List, All, arith, Option-cases, some-eq,
  inl, inr, subst,
}
use openpay.Base.Int.{ℤ, pos, ◌+ℤ◌, ◌-ℤ◌, int_laws}
use openpay.Errors.{Result, ok, bind-eq-ok}
use openpay.Ledger.Types.{Posting, Journal}
use openpay.Ledger.Validate.Laws.{IsLeg, volume}
use openpay.Ledger.Store.{AccountRow, Store, find_account}
use openpay.Ledger.Locks.{
  HoldRelease, LockedAccount, find_locked, locked_of, lock_ids, lock_accounts_for_posting,
}
use openpay.Ledger.Post.{
  Check, Written, free_releases, write_legs, write_balances, commit_journal, post_new,
}
use openpay.Ledger.Post.Legs.{AllSound, AllSound-le, write_legs-AllSound, write_legs-some}
use openpay.Ledger.Post.Tables.{write_legs-none, write_legs-posted, write_legs-elsewhere}
use openpay.Ledger.Post.Rows.{
  AllFair, released, lock_accounts-rows, free_releases-AllSound, free_releases-exact,
  free_releases-none, RowAfter, find_account-write_balances, id-find_account,
}
use openpay.Ledger.Sound.{posted, IsSoundAccount}

-- The stages of a journal that is posted.
pub record Stages (releases : List HoldRelease) (check : Check) (j : Journal) (s : Store)
    (j' : Journal) (s' : Store) : Type 0 where
  pub locked : List LockedAccount
  pub freed : List LockedAccount
  pub w : Written
  pub locking : lock_accounts_for_posting j.postings releases s.accounts ≡ ok locked
  pub freeing : free_releases releases locked ≡ ok freed
  pub writing : write_legs j.id 0 j.postings freed s.postings ≡ ok w
  pub journal : j' ≡ record j { postings = w.postings }
  pub store : s' ≡ commit_journal j w s
  pub checked : check j' s' ≡ ok tt

check_moves :
    (check : Check) (j j' : Journal) (s s' : Store) (b : Bool) (u : Unit {0})
    → check j s ≡ ok u
    → ◌≡◌ {A = Result (Bool × Journal × Store)} (ok (true, j, s)) (ok (b, j', s'))
    → check j' s' ≡ ok tt
check_moves check j j' s s' b u checked same = cc

pub post_new-Stages :
    (releases : List HoldRelease) (check : Check) (j : Journal) (s : Store) (b : Bool)
    (j' : Journal) (s' : Store)
    → post_new releases check j s ≡ ok (b, j', s')
    → (b ≡ true) × Stages releases check j s j' s'
unfolding post_new
post_new-Stages releases check j s b j' s' h =
    let (locked, locking, h1) =
      bind-eq-ok (lock_accounts_for_posting j.postings releases s.accounts) _ h in
    let (freed, freeing, h2) = bind-eq-ok (free_releases releases locked) _ h1 in
    let (w, writing, h3) = bind-eq-ok (write_legs j.id 0 j.postings freed s.postings) _ h2 in
    let (u, checked, h4) =
      bind-eq-ok (check (record j { postings = w.postings }) (commit_journal j w s)) _ h3 in
    (
      ground (arith, h4),
      record {
        locked = locked;
        freed = freed;
        w = w;
        locking = locking;
        freeing = freeing;
        writing = writing;
        journal = ground (arith, h4);
        store = ground (arith, h4);
        checked =
            check_moves check (record j { postings = w.postings }) j' (commit_journal j w s) s' b u
              checked h4;
      },
    )

-- The balances that a journal leaves on an account.
pub record Moved (releases : List HoldRelease) (ps table : List Posting) (i : ℕ) (r r' : AccountRow)
    : Type 0 where
  pub account : r'.account ≡ r.account
  pub raw_balance : r'.balance.raw_balance ≡ r.balance.raw_balance +ℤ posted i ps
  pub held : r'.balance.held ≡ r.balance.held -ℤ released i releases
  pub sound : IsSoundAccount 0 table (locked_of r')

locked_of-eq :
    (r r' : AccountRow) (x y : ℤ)
    → r'.account ≡ r.account
    → r'.balance.raw_balance ≡ x
    → r'.balance.held ≡ y
    → record (locked_of r) { raw_balance = x; held = y } ≡ locked_of r'
locked_of-eq r r' x y a b c = ground arith

plus_nothing : (a z : ℤ) → z ≡ pos 0 → a ≡ a +ℤ z
plus_nothing a z e = rw e (omega int_laws)

minus_nothing : (a z : ℤ) → z ≡ pos 0 → a ≡ a -ℤ z
minus_nothing a z e = rw e (omega int_laws)

-- There is room on every account for the amounts of a journal.
abbrev pub HasRoomFor : ℕ → Store → Type 0
HasRoomFor n s =
    (i : ℕ) (r : AccountRow)
    → find_account i s.accounts ≡ some r
    → IsSoundAccount n s.postings (locked_of r)

module _ (releases : List HoldRelease) (check : Check) (j : Journal) (s : Store) (j' : Journal)
    (s' : Store) (fair : AllFair releases) (legs : All IsLeg j.postings)
    (room : HasRoomFor (volume j.postings) s) (st : Stages releases check j s j' s') where
  pub locked-AllSound : AllSound (volume j.postings) s.postings st.locked
  unfolding lock_accounts_for_posting
  locked-AllSound i l e =
      let (r, found, same) =
        lock_accounts-rows (lock_ids j.postings releases) s.accounts st.locked st.locking i l e in
      subst (IsSoundAccount (volume j.postings) s.postings) (sym same) (room i r found)

  pub freed-AllSound : AllSound (volume j.postings) s.postings st.freed
  freed-AllSound =
      free_releases-AllSound (volume j.postings) s.postings releases st.locked st.freed fair
        locked-AllSound st.freeing

  -- An account that the journal does not lock keeps its row.
  untouched :
      (i : ℕ) (r : AccountRow)
      → find_account i s.accounts ≡ some r
      → find_locked i st.locked ≡ none
      → (r' : AccountRow) × (find_account i (write_balances st.w.locked s.accounts) ≡ some r')
        × Moved releases j.postings st.w.table i r r'
  untouched i r found missing =
      let (free, nothing) = free_releases-none releases st.locked st.freed st.freeing i missing in
      let still = write_legs-none i j.id 0 j.postings st.freed s.postings st.w free st.writing in
      let (r', found', after) = find_account-write_balances i st.w.locked s.accounts r found in
      let same : r' ≡ r = rw still at after in
      let before = room i r found in
      (
        r,
        found' ∙ ap some same,
        record {
          account = refl;
          raw_balance =
              plus_nothing r.balance.raw_balance _
                (write_legs-elsewhere i j.id 0 j.postings st.freed s.postings st.w free st.writing);
          held = minus_nothing r.balance.held _ nothing;
          sound = record {
            balanced =
                before.balanced
                ∙ ap (λ k. posted k s.postings) (id-find_account i s.accounts r found)
                ∙ sym
                    (write_legs-posted i j.id 0 j.postings st.freed s.postings st.w free st.writing)
                ∙ ap (λ k. posted k st.w.table) (sym (id-find_account i s.accounts r found));
            room = omega (arith, before.room);
            reserve = before.reserve;
            covered = before.covered;
          };
        },
      )

  touched :
      (i : ℕ) (r : AccountRow) (l : LockedAccount)
      → find_account i s.accounts ≡ some r
      → find_locked i st.locked ≡ some l
      → (r' : AccountRow) × (find_account i (write_balances st.w.locked s.accounts) ≡ some r')
        × Moved releases j.postings st.w.table i r r'
  unfolding lock_accounts_for_posting
  touched i r l found at_i =
      let (r0, found0, same) =
        lock_accounts-rows (lock_ids j.postings releases) s.accounts st.locked st.locking i l
          at_i in
      let l_is : l ≡ locked_of r = same ∙ ap locked_of (some-eq r0 r (sym found0 ∙ found)) in
      let freed =
        free_releases-exact (volume j.postings) s.postings releases st.locked st.freed fair
          locked-AllSound st.freeing i l at_i in
      let moved =
        write_legs-some j.id 0 j.postings st.freed s.postings st.w legs freed-AllSound st.writing i
          _ freed in
      let (r', found', after) = find_account-write_balances i st.w.locked s.accounts r found in
      let moved_row : RowAfter
          (some (record l {
            held = l.held -ℤ released i releases;
            raw_balance = l.raw_balance +ℤ posted i j.postings;
          }))
          r r' =
        rw moved at after in
      let (acc, raw, held) = moved_row in
      let raw' : r'.balance.raw_balance ≡ r.balance.raw_balance +ℤ posted i j.postings =
        raw ∙ ap (λ (x : LockedAccount). x.raw_balance +ℤ posted i j.postings) l_is in
      let held' : r'.balance.held ≡ r.balance.held -ℤ released i releases =
        held ∙ ap (λ (x : LockedAccount). x.held -ℤ released i releases) l_is in
      (
        r',
        found',
        record {
          account = acc;
          raw_balance = raw';
          held = held';
          sound = subst (IsSoundAccount 0 st.w.table) (locked_of-eq r r' _ _ acc raw' held') (
              write_legs-AllSound j.id 0 0 j.postings st.freed s.postings st.w legs
                (AllSound-le (volume j.postings) (volume j.postings + 0) s.postings st.freed
                  (omega arith) freed-AllSound)
                st.writing i _
                (moved
                  ∙ ap
                      (λ (x : LockedAccount). some (record x {
                        held = x.held -ℤ released i releases;
                        raw_balance = x.raw_balance +ℤ posted i j.postings;
                      }))
                      l_is));
        },
      )

  -- Every account's balance moves by what the journal's postings sum to on it, its reservation
  -- falls by what is released on it, and the rules hold of it afterwards.
  pub write-Moved :
      (i : ℕ) (r : AccountRow)
      → find_account i s.accounts ≡ some r
      → (r' : AccountRow) × (find_account i (write_balances st.w.locked s.accounts) ≡ some r')
        × Moved releases j.postings st.w.table i r r'
  write-Moved i r found = elim (Option-cases (find_locked i st.locked)) [
    | inl missing ↦ untouched i r found missing
    | inr (l, at_i) ↦ touched i r l found at_i
  ]
