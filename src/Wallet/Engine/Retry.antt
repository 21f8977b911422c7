-- ===== src/Wallet/Engine/Retry.antt =====
-- A wallet operation that is asked for again.
use openpay.Base.{
  ℕ, ◌+◌, ◌==◌, ◌≡◌, ◌∙◌, ap, refl, ◌&&◌, ◌||◌, none, List, [], ◌∷◌, if◌then◌else◌, inl, inr, ◌⊎◌,
  ◌↔◌, Bool, true, false, Bool-cases, if_true, if_false, arith,
}
use openpay.Base.Int.{ℤ, eqb_ℤ, eqb_ℤ_iff}
use openpay.Errors.{ok, err, already_exists}
use openpay.Ledger.Types.{Direction, Journal, Posting}
use openpay.Ledger.Validate.{validate_journal}
use openpay.Ledger.Store.{Store, get_journal}
use openpay.Ledger.Locks.{LockedAccount, set_locked}
use openpay.Ledger.Post.{Check, Written, new_row, post_journal, write_legs, written_posting}
use openpay.Ledger.Post.Legs.{write_legs-Round, write_legs-nil}
use openpay.Ledger.Post.Effect.{post_new-Stages}
use openpay.Ledger.Post.Correct.{post_journal-Answer, post_journal-replay}
use openpay.Ledger.Sound.{IsSound}
use openpay.Wallet.Types.{Wallet, Limits, Clock, World}
use openpay.Wallet.Limits.{LimitCheck, check_limits_after_posting}
use openpay.Wallet.Engine.{has_leg, conclude, post}
use openpay.Wallet.Engine.Laws.{post-Posted, Posted-new}

-- The legs of a journal keep their account, direction and amount when they are written.
has_leg-write_legs :
    (account : ℕ) (direction : Direction) (amount : ℤ) (journal seq : ℕ) (ps : List Posting)
    (ls : List LockedAccount) (table : List Posting) (w : Written)
    → write_legs journal seq ps ls table ≡ ok w
    → has_leg account direction amount w.postings ≡ has_leg account direction amount ps
unfolding has_leg
has_leg-write_legs account direction amount journal seq [] ls table w h =
    rw (← write_legs-nil journal seq ls table w h)
has_leg-write_legs account direction amount journal seq (p ∷ ps) ls table w h =
    let r = write_legs-Round journal seq p ps ls table w h in
    rw r.result (
      ap
        (λ b.
          (p.account_id == account && (eqb_ℤ p.direction direction && eqb_ℤ p.amount amount)) || b)
        (has_leg-write_legs account direction amount journal (seq + 1) ps (set_locked r.after ls)
          (written_posting journal seq p r.after ∷ table) r.rest r.goes_on))

pub has_leg-posted :
    (account : ℕ) (direction : Direction) (amount : ℤ) (check : Check) (j j' : Journal)
    (s s' : Store)
    → post_journal [] check j s ≡ ok (true, j', s')
    → has_leg account direction amount j'.postings ≡ has_leg account direction amount j.postings
has_leg-posted account direction amount check j j' s s' h =
    let (in_tx, valid, answer) = post_journal-Answer [] check j s true j' s' h in
    elim answer [
      | inl (fresh, posted_new) ↦
          let st = (post_new-Stages [] check (new_row j s) s true j' s' posted_new).1 in
          ap (λ (k : Journal). has_leg account direction amount k.postings) st.journal
          ∙ has_leg-write_legs account direction amount s.next_journal 0 j.postings st.freed
              s.postings st.w st.writing
      | inr (there, replay, unchanged) ↦ cc
    ]

-- A leg on this account, in this direction and of this amount.
abbrev pub IsLeg : ℕ → Direction → ℤ → Posting → Type 0
IsLeg account direction amount p =
    (p.account_id ≡ account) × (p.direction ≡ direction) × (p.amount ≡ amount)

abbrev pub HasLeg : ℕ → Direction → ℤ → List Posting → Type 0
HasLeg account direction amount [] = ⊥
HasLeg account direction amount (p ∷ ps) =
    IsLeg account direction amount p ⊎ HasLeg account direction amount ps

leg_tests :
    (account i : ℕ) (direction d : Direction) (amount a : ℤ)
    → (i == account && (eqb_ℤ d direction && eqb_ℤ a amount) ≡ true)
      ↔ ((i ≡ account) × (d ≡ direction) × (a ≡ amount))
leg_tests account i direction d amount a = (
  λ h. (
    ground (arith, h),
    (eqb_ℤ_iff d direction).0 (ground (arith, h)),
    (eqb_ℤ_iff a amount).0 (ground (arith, h)),
  ),
  λ (h, k, l). all_three _ _ _ (same h) ((eqb_ℤ_iff d direction).1 k) ((eqb_ℤ_iff a amount).1 l),
)
  where
    all_three : (a b c : Bool) → a ≡ true → b ≡ true → c ≡ true → a && (b && c) ≡ true
    all_three a b c h k l = ground (arith, h, k, l)

    same : i ≡ account → (i == account) ≡ true
    same h = ground (arith, h)

pub has_leg_iff :
    (account : ℕ) (direction : Direction) (amount : ℤ) (ps : List Posting)
    → (has_leg account direction amount ps ≡ true) ↔ HasLeg account direction amount ps
unfolding has_leg
has_leg_iff account direction amount [] = (λ h. elim (no_truth h) [ ], λ h. elim h [ ])
  where
    no_truth : false ≡ true → ⊥
    no_truth e = cc
has_leg_iff account direction amount (p ∷ ps) =
    let here = leg_tests account p.account_id direction p.direction amount p.amount in
    let there = has_leg_iff account direction amount ps in
    (
      λ h. elim (or_cases _ _ h) [ inl a ↦ inl (here.0 a) | inr b ↦ inr (there.0 b) ],
      λ h. elim h [ inl a ↦ or_left _ _ (here.1 a) | inr b ↦ or_right _ _ (there.1 b) ],
    )
  where
    or_cases : (a b : Bool) → a || b ≡ true → (a ≡ true) ⊎ (b ≡ true)
    or_cases true b h = inl refl
    or_cases false b h = inr h

    or_left : (a b : Bool) → a ≡ true → a || b ≡ true
    or_left a b h = ground (arith, h)

    or_right : (a b : Bool) → b ≡ true → a || b ≡ true
    or_right a b h = ground (arith, h)

retried :
    {A : Type 0} (account : ℕ) (direction : Direction) (amount : ℤ) (ps : List Posting) (x y z : A)
    → x ≡ (if has_leg account direction amount ps then y else z)
    → (HasLeg account direction amount ps → x ≡ y)
      × ((HasLeg account direction amount ps → ⊥) → x ≡ z)
retried account direction amount ps x y z e = (
  λ h. e ∙ if_true y z ((has_leg_iff account direction amount ps).1 h),
  λ h. elim (Bool-cases (has_leg account direction amount ps)) [
    | inl b ↦ elim (h ((has_leg_iff account direction amount ps).0 b)) [ ]
    | inr b ↦ e ∙ if_false y z b
  ],
)

answered_again :
    (c : Clock) (limits : Limits) (j k : Journal) (wallet wallet' : Wallet)
    (direction direction' : Direction) (amount amount' : ℤ) (check check' : LimitCheck)
    (others others' : List Wallet) (w : World) (j' : Journal) (w' : World)
    → IsSound w.books
    → get_journal j.external_id w.books ≡ none
    → post c limits j wallet direction amount check others w ≡ ok (j', w')
    → k.external_id ≡ j.external_id
    → validate_journal k ≡ ok tt
    → post c limits k wallet' direction' amount' check' others' w' ≡ (
        if has_leg wallet'.ledger_account_id direction' amount' j.postings
        then ok (j', w')
        else err already_exists)
unfolding post conclude
answered_again c limits j k wallet wallet' direction direction' amount amount' check check' others
      others' w j' w' sound new h same valid =
    let p = post-Posted c limits j wallet direction amount check others w j' w' h in
    let (posting, told) =
      Posted-new c limits j wallet direction amount check others w j' w' p new in
    let again =
      post_journal-replay [] [] (check_limits_after_posting c limits w check)
        (check_limits_after_posting c limits w' check') j k w.books j' w'.books sound posting same
        valid in
    let legs =
      has_leg-posted wallet'.ledger_account_id direction' amount'
        (check_limits_after_posting c limits w check) j j' w.books w'.books posting in
    rw again (rw legs refl)

-- Once a wallet operation has newly been booked under an external id, on sound tables, and nothing
-- has happened since, asking again under that id with any valid journal books nothing. It is answered
-- by the first journal, with nothing changed, if the first journal has a leg on that wallet's account
-- of the same amount in the same direction, and refused as already used otherwise.
pub post-retry :
    (c : Clock) (limits : Limits) (j k : Journal) (wallet wallet' : Wallet)
    (direction direction' : Direction) (amount amount' : ℤ) (check check' : LimitCheck)
    (others others' : List Wallet) (w : World) (j' : Journal) (w' : World)
    → IsSound w.books
    → get_journal j.external_id w.books ≡ none
    → post c limits j wallet direction amount check others w ≡ ok (j', w')
    → k.external_id ≡ j.external_id
    → validate_journal k ≡ ok tt
    → (HasLeg wallet'.ledger_account_id direction' amount' j.postings
        → post c limits k wallet' direction' amount' check' others' w' ≡ ok (j', w'))
      × ((HasLeg wallet'.ledger_account_id direction' amount' j.postings → ⊥)
          → post c limits k wallet' direction' amount' check' others' w' ≡ err already_exists)
post-retry c limits j k wallet wallet' direction direction' amount amount' check check' others
      others' w j' w' sound new h same valid =
    retried wallet'.ledger_account_id direction' amount' j.postings _ _ _ (
      answered_again c limits j k wallet wallet' direction direction' amount amount' check check'
        others others' w j' w' sound new h same valid)
