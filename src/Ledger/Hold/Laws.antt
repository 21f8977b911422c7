-- ===== src/Ledger/Hold/Laws.antt =====
-- Placing and resolving holds keep the rules of the ledger.
pub mod Correct
use openpay.Base.{
  ℕ, ◌+◌, ◌<◌, ◌≤◌, ◌≡◌, ◌∙◌, sym, ap, refl, Bool, true, false, ◌==◌, Option, none, some, String,
  List, [], ◌∷◌, All, arith, str_eq, eq_iff, if◌then◌else◌, Bool-cases, Option-cases, if_true,
  if_false, some-eq, inl, inr, ==_iff, subst,
}
use openpay.Base.Int.{ℤ, pos, magnitude, ◌+ℤ◌, ◌-ℤ◌, ◌≤ℤ◌, ◌<ℤ◌, int_laws}
use openpay.Base.Int64.{half}
use openpay.Ledger.Types.{Hold, Posting}
use openpay.Ledger.Store.{AccountRow, Store, find_account}
use openpay.Ledger.Locks.{LockedAccount, locked_of}
use openpay.Ledger.Post.{updated, update_balance, write_balances}
use openpay.Ledger.Post.Rows.{
  id-find_account, find_account-update_balance, find_account-write_balances-none,
}
use openpay.Ledger.Sound.{posted, reserved, natural_exact, IsSoundAccount, IsInCurrency, IsSound}

-- The store after a change of one account's reservation and of the holds.
abbrev pub reserve_to : AccountRow → ℤ → List Hold → ℕ → Store → Store
reserve_to r held hs next s = record s {
  accounts = update_balance (record (locked_of r) { held = held }) s.accounts;
  holds = hs;
  next_hold = next;
}

All-imp :
    {A : Type 0} {P Q : A → Type 0} (xs : List A) → ((x : A) → P x → Q x) → All P xs → All Q xs
All-imp [] f p = tt
All-imp (x ∷ xs) f p = (f x p.0, All-imp xs f p.1)

clash : {A : Type 0} (a : A) → none ≡ some a → ⊥
clash a e = cc

update_balance-none :
    (i : ℕ) (l : LockedAccount) (rows : List AccountRow)
    → find_account i rows ≡ none
    → find_account i (update_balance l rows) ≡ none
update_balance-none i l rows e =
    unfold write_balances in find_account-write_balances-none i (l ∷ []) rows e

module _ (s : Store) (sound : IsSound s) (k : ℕ) (r : AccountRow)
    (found : find_account k s.accounts ≡ some r) (held : ℤ) (hs : List Hold) (next : ℕ)
    (room : magnitude r.balance.raw_balance + magnitude held < half) (reserve : pos 0 ≤ℤ held)
    (covered : r.account.allow_negative ≡ false → held ≤ℤ natural_exact (locked_of r))
    (here : reserved k hs ≡ held)
    (elsewhere : (i : ℕ) → (k == i) ≡ false → reserved i hs ≡ reserved i s.holds) where
  row_kept :
      (i : ℕ) (x : AccountRow)
      → find_account i s.accounts ≡ some x
      → find_account i (update_balance (record (locked_of r) { held = held }) s.accounts)
        ≡ some (if r.account.id == i then updated (record (locked_of r) { held = held }) x else x)
  row_kept i x at_i =
      find_account-update_balance i (record (locked_of r) { held = held }) s.accounts x at_i

  row_before :
      (i : ℕ) (x' : AccountRow)
      → find_account i (update_balance (record (locked_of r) { held = held }) s.accounts) ≡ some x'
      → (x : AccountRow) × (find_account i s.accounts ≡ some x)
        × (x' ≡ (if r.account.id == i then updated (record (locked_of r) { held = held }) x else x))
  row_before i x' at_i = elim (Option-cases (find_account i s.accounts)) [
    | inl missing ↦ absurd (
        clash x' (
          sym (update_balance-none i (record (locked_of r) { held = held }) s.accounts missing)
          ∙ at_i))
    | inr (x, there) ↦ (x, there, some-eq x' _ (sym at_i ∙ row_kept i x there))
  ]

  key : r.account.id ≡ k
  key = id-find_account k s.accounts r found

  this_sound : IsSoundAccount 0 s.postings (record (locked_of r) { held = held })
  this_sound = record {
    balanced = (sound.accounts k r found).balanced;
    room = omega (arith, room);
    reserve = reserve;
    covered = covered;
  }

  -- The rows other than the holds and the reservation are as they were.
  pub reserve_to-IsSound : IsSound (reserve_to r held hs next s)
  reserve_to-IsSound = record {
    accounts = λ i x' at_i.
        let (x, there, e) = row_before i x' at_i in
        elim (Bool-cases (r.account.id == i)) [
          | inl mine ↦
              let same : x ≡ r = some-eq x r (
                sym there
                ∙ ap (λ n. find_account n s.accounts) (sym ((==_iff r.account.id i).0 mine) ∙ key)
                ∙ found) in
              let is : x' ≡ updated (record (locked_of r) { held = held }) r =
                e ∙ if_true _ _ mine ∙ ap (updated (record (locked_of r) { held = held })) same in
              subst (λ (y : AccountRow). IsSoundAccount 0 s.postings (locked_of y)) (sym is)
                this_sound
          | inr theirs ↦
              subst (λ (y : AccountRow). IsSoundAccount 0 s.postings (locked_of y))
                (sym (e ∙ if_false _ _ theirs)) (sound.accounts i x there)
        ];
    held = λ i x' at_i.
        let (x, there, e) = row_before i x' at_i in
        elim (Bool-cases (r.account.id == i)) [
          | inl mine ↦
              ap (λ (y : AccountRow). y.balance.held) (e ∙ if_true _ _ mine)
              ∙ sym here
              ∙ ap (λ n. reserved n hs) (sym key ∙ (==_iff r.account.id i).0 mine)
          | inr theirs ↦
              ap (λ (y : AccountRow). y.balance.held) (e ∙ if_false _ _ theirs)
              ∙ sound.held i x there
              ∙ sym (elsewhere i (ap (λ n. n == i) (sym key) ∙ theirs))
        ];
    running = sound.running;
    balanced = sound.balanced;
    two_legs = sound.two_legs;
    currency =
        All-imp s.postings
          (λ (p : Posting) (c : IsInCurrency s.accounts p).
            let (x, there, e) = c in
            (
              _,
              row_kept p.account_id x there,
              elim (Bool-cases (r.account.id == p.account_id)) [
                | inl mine ↦
                    e ∙ ap (λ (y : AccountRow). y.account.currency) (sym (if_true _ _ mine))
                | inr theirs ↦
                    e ∙ ap (λ (y : AccountRow). y.account.currency) (sym (if_false _ _ theirs))
              ],
            ))
          sound.currency;
    fresh = sound.fresh;
    numbered = sound.numbered;
  }
