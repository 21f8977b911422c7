-- ===== src/Ledger/Post/Rows.antt =====
-- The accounts that a posting locks, releases and writes back, against the rows of the table.
use openpay.Base.{
  ℕ, ◌<◌, ◌≤◌, ◌≡◌, ◌∙◌, sym, ap, refl, true, false, ◌==◌, Option, none, some, List, [], ◌∷◌, All,
  arith, if◌then◌else◌, Bool-cases, Option-cases, if_true, if_false, some-eq, inl, inr, ==_iff,
}
use openpay.Base.Int.{ℤ, pos, magnitude, ◌+ℤ◌, ◌-ℤ◌, ◌≤ℤ◌, int_laws, ltb_ℤ, -ℤ_parts}
use openpay.Base.Int64.{half, sub64, wrap_of_small}
use openpay.Errors.{ok, Result-cases, bind-eq-ok}
use openpay.Ledger.Types.{Posting}
use openpay.Ledger.Store.{AccountRow, find_account}
use openpay.Ledger.Locks.{
  HoldRelease, LockedAccount, find_locked, set_locked, locked_of, lock_accounts,
}
use openpay.Ledger.Post.{free_release, free_releases, updated, update_balance, write_balances}
use openpay.Ledger.Post.Legs.{id-find_locked, find_locked-set_locked, AllSound}
use openpay.Ledger.Post.Tables.{set_locked-none, found_elsewhere}
use openpay.Ledger.Sound.{IsSoundAccount}

pub id-find_account :
    (i : ℕ) (rows : List AccountRow) (r : AccountRow)
    → find_account i rows ≡ some r
    → r.account.id ≡ i
id-find_account i [] r e = cc
id-find_account i (x ∷ rows) r e = ground (arith, id-find_account i rows r)

clash : (l : LockedAccount) → none ≡ some l → ⊥
clash l e = cc

magnitude_between : (h a : ℤ) → pos 0 ≤ℤ a → a ≤ℤ h → magnitude (h -ℤ a) ≤ magnitude h
magnitude_between h a p q = ground (arith, -ℤ_parts h a)

id_apart : (a l i : ℕ) → (a == l) ≡ true → (a == i) ≡ (l == i)
id_apart a l i e = ground arith

-- The write of one balance, as seen through `find_account`.
pub find_account-update_balance :
    (i : ℕ) (l : LockedAccount) (rows : List AccountRow) (r : AccountRow)
    → find_account i rows ≡ some r
    → find_account i (update_balance l rows) ≡ some (if l.id == i then updated l r else r)
find_account-update_balance i l [] r e = cc
find_account-update_balance i l (x ∷ rows) r e = elim (Bool-cases (x.account.id == l.id)) [
  | inl same ↦
      rw (same, id_apart x.account.id l.id i same)
        (elim (Bool-cases (l.id == i)) [
          | inl here ↦ rw here (
              ap (λ y. some (updated l y))
                (some-eq x r (sym (if_true _ _ (id_apart x.account.id l.id i same ∙ here)) ∙ e)))
          | inr there ↦
              rw there (sym (if_false _ _ (id_apart x.account.id l.id i same ∙ there)) ∙ e)
        ])
  | inr other ↦ rw other (elim (Bool-cases (x.account.id == i)) [
    | inl here ↦ rw here (rw (apart' x.account.id l.id i other here) (sym (if_true _ _ here) ∙ e))
    | inr there ↦ rw there (find_account-update_balance i l rows r (sym (if_false _ _ there) ∙ e))
  ])
]
  where
    apart' : (a l i : ℕ) → (a == l) ≡ false → (a == i) ≡ true → (l == i) ≡ false
    apart' a l i e h = ground arith

-- A balance after the loop that writes them all.
abbrev pub RowAfter : Option LockedAccount → AccountRow → AccountRow → Type 0
RowAfter none r r' = r' ≡ r
RowAfter (some l) r r' =
    (r'.account ≡ r.account) × (r'.balance.raw_balance ≡ l.raw_balance) × (r'.balance.held ≡ l.held)

account_after :
    (o : Option LockedAccount) (r r' : AccountRow) → RowAfter o r r' → r'.account ≡ r.account
account_after none r r' h = ap (λ (x : AccountRow). x.account) h
account_after (some l) r r' h = h.0

write_then :
    (i : ℕ) (l : LockedAccount) (ls : List LockedAccount) (rows : List AccountRow) (r' : AccountRow)
    → find_account i (write_balances ls rows) ≡ some r'
    → find_account i (write_balances (l ∷ ls) rows) ≡ some (if l.id == i then updated l r' else r')
unfolding write_balances
write_then i l ls rows r' found = find_account-update_balance i l (write_balances ls rows) r' found

pub find_account-write_balances :
    (i : ℕ) (ls : List LockedAccount) (rows : List AccountRow) (r : AccountRow)
    → find_account i rows ≡ some r
    → (r' : AccountRow) × (find_account i (write_balances ls rows) ≡ some r')
      × RowAfter (find_locked i ls) r r'
find_account-write_balances i [] rows r e = (r, unfold write_balances in e, refl)
find_account-write_balances i (l ∷ ls) rows r e =
    let (r', found, after) = find_account-write_balances i ls rows r e in
    elim (Bool-cases (l.id == i)) [
      | inl here ↦ (
        updated l r',
        write_then i l ls rows r' found ∙ ap some (if_true _ _ here),
        rw here (account_after (find_locked i ls) r r' after, refl, refl),
      )
      | inr there ↦
          (r', write_then i l ls rows r' found ∙ ap some (if_false _ _ there), rw there after)
    ]

pub find_account-write_balances-none :
    (i : ℕ) (ls : List LockedAccount) (rows : List AccountRow)
    → find_account i rows ≡ none
    → find_account i (write_balances ls rows) ≡ none
unfolding write_balances
find_account-write_balances-none i [] rows e = e
find_account-write_balances-none i (l ∷ ls) rows e =
    update_none i l (write_balances ls rows) (find_account-write_balances-none i ls rows e)
  where
    update_none :
        (i : ℕ) (l : LockedAccount) (rows : List AccountRow)
        → find_account i rows ≡ none
        → find_account i (update_balance l rows) ≡ none
    update_none i l [] e = refl
    update_none i l (x ∷ rows) e = ground (arith, update_none i l rows)

-- The accounts that a posting locks are rows of the table.
pub lock_accounts-rows :
    (is : List ℕ) (rows : List AccountRow) (ls : List LockedAccount)
    → lock_accounts is rows ≡ ok ls
    → (i : ℕ) (l : LockedAccount) → find_locked i ls ≡ some l
    → (r : AccountRow) × (find_account i rows ≡ some r) × (l ≡ locked_of r)
unfolding lock_accounts
lock_accounts-rows [] rows ls h i l e = absurd (ground (arith, h))
lock_accounts-rows (k ∷ is) rows ls h i l e = elim (Option-cases (find_account k rows)) [
  | inl missing ↦ absurd (ground (arith, missing))
  | inr (r, found) ↦ elim (Result-cases (lock_accounts is rows)) [
    | inr (c, failed) ↦ absurd (ground (arith, found, failed))
    | inl (rest, locked) ↦
        let whole : locked_of r ∷ rest ≡ ls = ground (arith, found, locked) in
        let at_i : find_locked i (locked_of r ∷ rest) ≡ some l = ap (find_locked i) whole ∙ e in
        elim (Bool-cases (r.account.id == i)) [
          | inl here ↦ (
            r,
            rw (sym (id-find_account k rows r found) ∙ (==_iff r.account.id i).0 here) at found,
            some-eq l (locked_of r) (sym (sym (if_true _ _ here) ∙ at_i)),
          )
          | inr there ↦ lock_accounts-rows is rows rest locked i l (sym (if_false _ _ there) ∙ at_i)
        ]
  ]
]

-- What the releases of a posting free on one account.
abbrev pub released : ℕ → List HoldRelease → ℤ
released i [] = pos 0
released i (r ∷ rs) = if r.account_id == i then r.amount +ℤ released i rs else released i rs

-- One release, as the loop goes through it.
pub record Freeing (r : HoldRelease) (ls ls' : List LockedAccount) : Type 0 where
  pub before : LockedAccount
  pub found : find_locked r.account_id ls ≡ some before
  pub enough : ltb_ℤ before.held r.amount ≡ false
  pub result : ls' ≡ set_locked (record before { held = sub64 before.held r.amount }) ls

free_release-Freeing :
    (r : HoldRelease) (ls ls' : List LockedAccount) → free_release r ls ≡ ok ls' → Freeing r ls ls'
unfolding free_release
free_release-Freeing r ls ls' h = elim (Option-cases (find_locked r.account_id ls)) [
  | inl missing ↦ absurd (ground (arith, missing))
  | inr (a, found) ↦ record {
    before = a;
    found = found;
    enough = ground (arith, found);
    result = ground (arith, found);
  }
]

-- A release frees its amount on its account, and leaves the other accounts alone.
abbrev freed_by : ℕ → HoldRelease → LockedAccount → LockedAccount
freed_by i r a = if r.account_id == i then record a { held = sub64 a.held r.amount } else a

pub free_release-find_locked :
    (r : HoldRelease) (ls ls' : List LockedAccount)
    → free_release r ls ≡ ok ls'
    → (i : ℕ) (a : LockedAccount) → find_locked i ls ≡ some a
    → find_locked i ls' ≡ some (freed_by i r a)
free_release-find_locked r ls ls' h i a e =
    let f = free_release-Freeing r ls ls' h in
    let same = id-find_locked r.account_id ls f.before f.found in
    let b : LockedAccount = record f.before { held = sub64 f.before.held r.amount } in
    ap (find_locked i) f.result
    ∙ find_locked-set_locked i b ls f.before (rw same f.found)
    ∙ ap (λ k. if k == i then some b else find_locked i ls) same
    ∙ elim (Bool-cases (r.account_id == i)) [
      | inl here ↦ rw here (
          ap (λ (x : LockedAccount). some (record x { held = sub64 x.held r.amount }))
            (some-eq f.before a (sym (rw ((==_iff r.account_id i).0 here) at f.found) ∙ e)))
      | inr there ↦ rw there e
    ]

free_release-none :
    (r : HoldRelease) (ls ls' : List LockedAccount)
    → free_release r ls ≡ ok ls'
    → (i : ℕ) → find_locked i ls ≡ none
    → (find_locked i ls' ≡ none) × ((r.account_id == i) ≡ false)
free_release-none r ls ls' h i e =
    let f = free_release-Freeing r ls ls' h in
    (
      ap (find_locked i) f.result ∙ set_locked-none i _ ls e,
      found_elsewhere i r.account_id ls f.before e f.found,
    )

-- Freeing what an account holds stays within range.
sub64_between : (h a : ℤ) → pos 0 ≤ℤ a → a ≤ℤ h → magnitude h < half → sub64 h a ≡ h -ℤ a
unfolding sub64
sub64_between h a p q r = wrap_of_small (h -ℤ a) (omega (arith, magnitude_between h a p q))

module _ (n : ℕ) (table : List Posting) (r : HoldRelease) (fair : pos 0 ≤ℤ r.amount)
    (ls ls' : List LockedAccount) (freed : free_release r ls ≡ ok ls')
    (sound : AllSound n table ls) where
  freed_held :
      (i : ℕ) (a : LockedAccount)
      → find_locked i ls ≡ some a
      → (r.account_id == i) ≡ true
      → (sub64 a.held r.amount ≡ a.held -ℤ r.amount) × (r.amount ≤ℤ a.held)
  freed_held i a e here =
      let f = free_release-Freeing r ls ls' freed in
      let same : f.before ≡ a =
        some-eq f.before a (sym (rw ((==_iff r.account_id i).0 here) at f.found) ∙ e) in
      let enough : ltb_ℤ a.held r.amount ≡ false =
        ap (λ (x : LockedAccount). ltb_ℤ x.held r.amount) (sym same) ∙ f.enough in
      let le : r.amount ≤ℤ a.held = ground arith in
      (sub64_between a.held r.amount fair le (omega (arith, (sound i a e).room)), le)

  freed_sound :
      (a : LockedAccount)
      → IsSoundAccount n table a
      → r.amount ≤ℤ a.held
      → IsSoundAccount n table (record a { held = a.held -ℤ r.amount })
  freed_sound a s le = record {
    balanced = s.balanced;
    room = omega (arith, s.room, magnitude_between a.held r.amount fair le);
    reserve = omega (int_laws, s.reserve);
    covered = λ h. omega (int_laws, s.covered h);
  }

  free_release-AllSound : AllSound n table ls'
  free_release-AllSound i l e = elim (Option-cases (find_locked i ls)) [
    | inl missing ↦ absurd (clash l (sym (free_release-none r ls ls' freed i missing).0 ∙ e))
    | inr (a, found) ↦
        let same : freed_by i r a ≡ l =
          some-eq _ l (sym (free_release-find_locked r ls ls' freed i a found) ∙ e) in
        rw (← same) (elim (Bool-cases (r.account_id == i)) [
          | inl here ↦ rw here (
              rw ((freed_held i a found here).0)
                (freed_sound a (sound i a found) (freed_held i a found here).1))
          | inr there ↦ rw there (sound i a found)
        ])
  ]

  -- The release of one hold, on every account, in unbounded integers.
  free_release-exact :
      (i : ℕ) (a : LockedAccount)
      → find_locked i ls ≡ some a
      → find_locked i ls'
        ≡ some (if r.account_id == i then record a { held = a.held -ℤ r.amount } else a)
  free_release-exact i a e =
      free_release-find_locked r ls ls' freed i a e ∙ elim (Bool-cases (r.account_id == i)) [
        | inl here ↦ rw here (ap (λ h. some (record a { held = h })) (freed_held i a e here).0)
        | inr there ↦ rw there refl
      ]

free_releases-cons :
    (r : HoldRelease) (rs : List HoldRelease) (ls ls' : List LockedAccount)
    → free_releases (r ∷ rs) ls ≡ ok ls'
    → (mid : List LockedAccount) × (free_release r ls ≡ ok mid) × (free_releases rs mid ≡ ok ls')
unfolding free_releases
free_releases-cons r rs ls ls' h = bind-eq-ok (free_release r ls) (free_releases rs) h

free_releases-nil : (ls ls' : List LockedAccount) → free_releases [] ls ≡ ok ls' → ls ≡ ls'
unfolding free_releases
free_releases-nil ls ls' h = ground arith

abbrev pub AllFair : List HoldRelease → Type 0
AllFair rs = All (λ (r : HoldRelease). pos 0 ≤ℤ r.amount) rs

-- Releasing holds keeps the rules on every account.
pub free_releases-AllSound :
    (n : ℕ) (table : List Posting) (rs : List HoldRelease) (ls ls' : List LockedAccount)
    → AllFair rs
    → AllSound n table ls
    → free_releases rs ls ≡ ok ls'
    → AllSound n table ls'
free_releases-AllSound n table [] ls ls' fair sound h = rw (← free_releases-nil ls ls' h) sound
free_releases-AllSound n table (r ∷ rs) ls ls' fair sound h =
    let (mid, first, rest) = free_releases-cons r rs ls ls' h in
    free_releases-AllSound n table rs mid ls' fair.1
      (free_release-AllSound n table r fair.0 ls mid first sound) rest

minus_sum : (h a b : ℤ) → h -ℤ a -ℤ b ≡ h -ℤ (a +ℤ b)
minus_sum h a b = omega int_laws

minus_zero : (h : ℤ) → h ≡ h -ℤ pos 0
minus_zero h = omega int_laws

-- It frees on each account the sum of the releases that name it.
pub free_releases-exact :
    (n : ℕ) (table : List Posting) (rs : List HoldRelease) (ls ls' : List LockedAccount)
    → AllFair rs
    → AllSound n table ls
    → free_releases rs ls ≡ ok ls'
    → (i : ℕ) (a : LockedAccount) → find_locked i ls ≡ some a
    → find_locked i ls' ≡ some (record a { held = a.held -ℤ released i rs })
free_releases-exact n table [] ls ls' fair sound h i a e =
    ap (find_locked i) (sym (free_releases-nil ls ls' h))
    ∙ e
    ∙ ap (λ x. some (record a { held = x })) (minus_zero a.held)
free_releases-exact n table (r ∷ rs) ls ls' fair sound h i a e =
    let (mid, first, rest) = free_releases-cons r rs ls ls' h in
    let step = free_release-exact n table r fair.0 ls mid first sound i a e in
    let go =
      free_releases-exact n table rs mid ls' fair.1
        (free_release-AllSound n table r fair.0 ls mid first sound) rest i in
    elim (Bool-cases (r.account_id == i)) [
      | inl here ↦
          go _ (step ∙ ap some (if_true _ _ here))
          ∙ rw here
              (ap (λ x. some (record a { held = x })) (minus_sum a.held r.amount (released i rs)))
      | inr there ↦ go _ (step ∙ ap some (if_false _ _ there)) ∙ rw there refl
    ]

-- An account that is not locked has no release, and stays unlocked.
pub free_releases-none :
    (rs : List HoldRelease) (ls ls' : List LockedAccount)
    → free_releases rs ls ≡ ok ls'
    → (i : ℕ) → find_locked i ls ≡ none
    → (find_locked i ls' ≡ none) × (released i rs ≡ pos 0)
free_releases-none [] ls ls' h i e =
    (ap (find_locked i) (sym (free_releases-nil ls ls' h)) ∙ e, refl)
free_releases-none (r ∷ rs) ls ls' h i e =
    let (mid, first, rest) = free_releases-cons r rs ls ls' h in
    let (e', apart) = free_release-none r ls mid first i e in
    let (e'', zero_rest) = free_releases-none rs mid ls' rest i e' in
    (e'', if_false _ _ apart ∙ zero_rest)
