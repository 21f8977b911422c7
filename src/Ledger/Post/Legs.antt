-- ===== src/Ledger/Post/Legs.antt =====
-- The loop of `writePostings` keeps the rules on accounts and postings.
use openpay.Base.{
  ℕ, ◌+◌, ◌≤◌, ◌≡◌, ◌∙◌, sym, ap, refl, true, false, ◌==◌, Option, none, some, List, [], ◌∷◌, All,
  arith, if◌then◌else◌, Bool-cases, if_true, if_false, some-eq, subst, inl, inr, ==_iff,
}
use openpay.Base.Int.{ℤ, pos, magnitude, ◌+ℤ◌, int_laws, magnitude-+ℤ}
use openpay.Errors.{Code, ok, bind-eq-ok, or_fail}
use openpay.Ledger.Types.{Posting, contribution}
use openpay.Ledger.Validate.Laws.{IsLeg, volume, magnitude-contribution}
use openpay.Ledger.Locks.{LockedAccount, find_locked, set_locked}
use openpay.Ledger.Post.{apply_posting, written_posting, write_legs, Written}
use openpay.Ledger.Post.Apply.{apply_posting-eq, apply_posting-covered}
use openpay.Ledger.Sound.{posted, IsSoundAccount}

pub id-find_locked :
    (i : ℕ) (ls : List LockedAccount) (l : LockedAccount) → find_locked i ls ≡ some l → l.id ≡ i
id-find_locked i [] l e = cc
id-find_locked i (k ∷ ls) l e = ground (arith, id-find_locked i ls l)

other_key : (l b i : ℕ) → (l == b) ≡ true → (b == i) ≡ false → (l == i) ≡ false
other_key l b i h k = ground arith

other_key' : (l b i : ℕ) → (l == b) ≡ false → (l == i) ≡ true → (b == i) ≡ false
other_key' l b i h k = ground arith

pub find_locked-set_locked :
    (i : ℕ) (b : LockedAccount) (ls : List LockedAccount) (old : LockedAccount)
    → find_locked b.id ls ≡ some old
    → find_locked i (set_locked b ls) ≡ (if b.id == i then some b else find_locked i ls)
find_locked-set_locked i b [] old e = cc
find_locked-set_locked i b (l ∷ ls) old e = elim (Bool-cases (l.id == b.id)) [
  | inl same ↦ rw same (elim (Bool-cases (b.id == i)) [
    | inl here ↦ rw here refl
    | inr there ↦ rw there (rw (other_key l.id b.id i same there) refl)
  ])
  | inr other ↦ rw other (elim (Bool-cases (l.id == i)) [
    | inl here ↦ rw here (rw (other_key' l.id b.id i other here) refl)
    | inr there ↦ rw there (find_locked-set_locked i b ls old (rw other at e))
  ])
]

plus_zero : (a : ℤ) → a ≡ a +ℤ pos 0
plus_zero a = omega int_laws

plus_sum : (a b c : ℤ) → a +ℤ b +ℤ c ≡ a +ℤ (b +ℤ c)
plus_sum a b c = omega int_laws

-- One round of the loop.
pub record Round (journal seq : ℕ) (p : Posting) (ps : List Posting) (ls : List LockedAccount)
    (table : List Posting) (w : Written) : Type 0 where
  pub before : LockedAccount
  pub after : LockedAccount
  pub rest : Written
  pub found : find_locked p.account_id ls ≡ some before
  pub applied : apply_posting p before ≡ ok after
  pub goes_on :
      write_legs journal
        (seq + 1)
        ps
        (set_locked after ls)
        (written_posting journal seq p after ∷ table)
      ≡ ok rest
  pub result : w ≡ record rest { postings = written_posting journal seq p after ∷ rest.postings }

or_fail-eq-ok : {A : Type 0} (o : Option A) (c : Code) (a : A) → or_fail o c ≡ ok a → o ≡ some a
or_fail-eq-ok none c a e = cc
or_fail-eq-ok (some x) c a e = cc

pub write_legs-Round :
    (journal seq : ℕ) (p : Posting) (ps : List Posting) (ls : List LockedAccount)
    (table : List Posting) (w : Written)
    → write_legs journal seq (p ∷ ps) ls table ≡ ok w
    → Round journal seq p ps ls table w
unfolding write_legs
write_legs-Round journal seq p ps ls table w h =
    let (a, found, h1) = bind-eq-ok (or_fail (find_locked p.account_id ls) _) _ h in
    let (b, applied, h2) = bind-eq-ok (apply_posting p a) _ h1 in
    let (rest, goes_on, h3) =
      bind-eq-ok
        (write_legs journal (seq + 1) ps (set_locked b ls)
          (written_posting journal seq p b ∷ table))
        _ h2 in
    record {
      before = a;
      after = b;
      rest = rest;
      found = or_fail-eq-ok _ _ a found;
      applied = applied;
      goes_on = goes_on;
      result = ground (arith, h3);
    }

-- Every account that the loop works on satisfies its rules.
abbrev pub AllSound : ℕ → List Posting → List LockedAccount → Type 0
AllSound n table ls =
    (i : ℕ) (l : LockedAccount) → find_locked i ls ≡ some l → IsSoundAccount n table l

posted-written :
    (i journal seq : ℕ) (p : Posting) (a : LockedAccount) (table : List Posting)
    → posted i (written_posting journal seq p a ∷ table)
      ≡ (if p.account_id == i then contribution p +ℤ posted i table else posted i table)
posted-written i journal seq p a table = refl

elsewhere : (b k l i : ℕ) → (b == i) ≡ false → b ≡ k → l ≡ i → (k == l) ≡ false
elsewhere b k l i h e f = ground arith

add_comm_ℤ : (a b : ℤ) → a +ℤ b ≡ b +ℤ a
add_comm_ℤ a b = omega int_laws

module _ (journal seq n : ℕ) (p : Posting) (leg : IsLeg p) (ls : List LockedAccount)
    (table : List Posting) (a b : LockedAccount) (found : find_locked p.account_id ls ≡ some a)
    (applied : apply_posting p a ≡ ok b) (sound : AllSound (magnitude p.amount + n) table ls) where
  this_sound : IsSoundAccount n (written_posting journal seq p b ∷ table) b
  this_sound =
      let s = sound p.account_id a found in
      let same : a.id ≡ p.account_id = id-find_locked p.account_id ls a found in
      let e : b ≡ record a { raw_balance = a.raw_balance +ℤ contribution p } =
        apply_posting-eq p a b leg (omega (arith, s.room)) applied in
      let c = magnitude-contribution p leg in
      record {
        balanced =
            rw (posted-written, e)
              (rw (same, (==_iff p.account_id p.account_id).1 refl)
                (rw s.balanced
                  (rw same (add_comm_ℤ (posted p.account_id table) (contribution p)))));
        room = rw e (omega (arith, s.room, c, magnitude-+ℤ a.raw_balance (contribution p)));
        reserve = rw e s.reserve;
        covered = λ no_overdraft.
            apply_posting-covered p a b leg (omega (arith, s.room)) applied no_overdraft
              (s.covered (rw e at no_overdraft));
      }

  other :
      (i : ℕ) (l : LockedAccount)
      → (b.id == i) ≡ false
      → b.id ≡ p.account_id
      → find_locked i ls ≡ some l
      → IsSoundAccount n (written_posting journal seq p b ∷ table) l
  other i l apart same at_i =
      let s = sound i l at_i in
      record {
        balanced =
            s.balanced
            ∙ sym (
                posted-written l.id journal seq p b table
                ∙ if_false _ _
                    (elsewhere b.id p.account_id l.id i apart same (id-find_locked i ls l at_i)));
        room = omega (arith, s.room);
        reserve = s.reserve;
        covered = s.covered;
      }

  pub round_running :
      (written_posting journal seq p b).balance_after
      ≡ posted p.account_id (written_posting journal seq p b ∷ table)
  round_running =
      this_sound.balanced
      ∙ ap (λ i. posted i (written_posting journal seq p b ∷ table))
          (ap (λ (x : LockedAccount). x.id)
              (apply_posting-eq p a b leg (omega (arith, (sound p.account_id a found).room))
                applied)
            ∙ id-find_locked p.account_id ls a found)

  -- A round keeps the rules on every account, and uses up the room for its posting.
  pub round-AllSound : AllSound n (written_posting journal seq p b ∷ table) (set_locked b ls)
  round-AllSound i l at_i =
      let same : b.id ≡ p.account_id =
        ap (λ (x : LockedAccount). x.id)
          (apply_posting-eq p a b leg (omega (arith, (sound p.account_id a found).room)) applied)
        ∙ id-find_locked p.account_id ls a found in
      let seen = find_locked-set_locked i b ls a (rw same found) in
      elim (Bool-cases (b.id == i)) [
        | inl here ↦
            subst (IsSoundAccount n (written_posting journal seq p b ∷ table))
              (some-eq b l (sym (seen ∙ if_true _ _ here) ∙ at_i)) this_sound
        | inr there ↦ other i l there same (sym (seen ∙ if_false _ _ there) ∙ at_i)
      ]

pub write_legs-nil :
    (journal seq : ℕ) (ls : List LockedAccount) (table : List Posting) (w : Written)
    → write_legs journal seq [] ls table ≡ ok w
    → record { locked = ls; table = table; postings = [] } ≡ w
unfolding write_legs
write_legs-nil journal seq ls table w h = ground arith

-- Room for more is room for less.
pub AllSound-le :
    (n k : ℕ) (table : List Posting) (ls : List LockedAccount)
    → k ≤ n
    → AllSound n table ls
    → AllSound k table ls
AllSound-le n k table ls h sound i l at_i =
    let s = sound i l at_i in
    record {
      balanced = s.balanced;
      room = omega (arith, s.room);
      reserve = s.reserve;
      covered = s.covered;
    }

-- The loop keeps the rules on the accounts that it works on.
pub write_legs-AllSound :
    (journal seq n : ℕ) (ps : List Posting) (ls : List LockedAccount) (table : List Posting)
    (w : Written)
    → All IsLeg ps
    → AllSound (volume ps + n) table ls
    → write_legs journal seq ps ls table ≡ ok w
    → AllSound n w.table w.locked
write_legs-AllSound journal seq n [] ls table w legs sound h =
    rw (← write_legs-nil journal seq ls table w h)
      (AllSound-le (0 + n) n table ls (omega arith) sound)
write_legs-AllSound journal seq n (p ∷ ps) ls table w legs sound h =
    let r = write_legs-Round journal seq p ps ls table w h in
    rw r.result (
      write_legs-AllSound journal (seq + 1) n ps (set_locked r.after ls)
        (written_posting journal seq p r.after ∷ table) r.rest legs.1
        (round-AllSound journal seq (volume ps + n) p legs.0 ls table r.before r.after r.found
          r.applied
          (AllSound-le (volume (p ∷ ps) + n) (magnitude p.amount + (volume ps + n)) table ls
            (omega arith) sound))
        r.goes_on)

-- The loop changes nothing of a locked account but its raw balance, and locks no other.
pub write_legs-some :
    (journal seq : ℕ) (ps : List Posting) (ls : List LockedAccount) (table : List Posting)
    (w : Written)
    → All IsLeg ps
    → AllSound (volume ps) table ls
    → write_legs journal seq ps ls table ≡ ok w
    → (i : ℕ) (a : LockedAccount) → find_locked i ls ≡ some a
    → find_locked i w.locked ≡ some (record a { raw_balance = a.raw_balance +ℤ posted i ps })
write_legs-some journal seq [] ls table w legs sound h i a e =
    ap (λ (x : Written). find_locked i x.locked) (sym (write_legs-nil journal seq ls table w h))
    ∙ e
    ∙ ap (λ x. some (record a { raw_balance = x })) (plus_zero a.raw_balance)
write_legs-some journal seq (p ∷ ps) ls table w legs sound h i a e =
    let r = write_legs-Round journal seq p ps ls table w h in
    let result =
      apply_posting-eq p r.before r.after legs.0
        (omega (arith, (sound p.account_id r.before r.found).room)) r.applied in
    let same : r.after.id ≡ p.account_id =
      ap (λ (x : LockedAccount). x.id) result ∙ id-find_locked p.account_id ls r.before r.found in
    let seen =
      find_locked-set_locked i r.after ls r.before (rw same r.found)
      ∙ ap (λ k. if k == i then some r.after else find_locked i ls) same in
    let go =
      write_legs-some journal (seq + 1) ps (set_locked r.after ls)
        (written_posting journal seq p r.after ∷ table) r.rest legs.1
        (round-AllSound journal seq (volume ps) p legs.0 ls table r.before r.after r.found r.applied
          sound)
        r.goes_on i in
    ap (λ (x : Written). find_locked i x.locked) r.result ∙ elim (Bool-cases (p.account_id == i)) [
      | inl here ↦
          let this : r.before ≡ a =
            some-eq r.before a (sym (rw ((==_iff p.account_id i).0 here) at r.found) ∙ e) in
          go _ (
            seen
            ∙ if_true _ _ here
            ∙ ap some result
            ∙ ap
                (λ (x : LockedAccount).
                  some (record x { raw_balance = x.raw_balance +ℤ contribution p }))
                this)
          ∙ rw here (
              ap (λ x. some (record a { raw_balance = x }))
                (plus_sum a.raw_balance (contribution p) (posted i ps)))
      | inr there ↦ go a (seen ∙ if_false _ _ there ∙ e) ∙ rw there refl
    ]
