-- ===== src/Ledger/Hold/Capture/Laws.antt =====
-- Capturing holds keeps the rules of the ledger.
use openpay.Base.{
  ℕ, ◌<◌, ◌≡◌, ◌∙◌, sym, ap, refl, Bool, true, false, ◌==◌, not, inl, inr, String, List, [], ◌∷◌,
  length, arith, if◌then◌else◌, Bool-cases, if_true, if_false, subst,
}
use openpay.Base.Int.{ℤ, pos, ◌+ℤ◌, ◌-ℤ◌, ◌≤ℤ◌, ◌<ℤ◌, int_laws}
use openpay.Base.Int64.{half}
use openpay.Errors.{
  Result, ok, bind-eq-ok, fail_if, or_fail, or_fail-some, internal, failed_precondition, not_found,
  already_exists,
}
use openpay.Ledger.Types.{Hold, hold_is_active, Journal}
use openpay.Ledger.Validate.Laws.{IsBalanced, volume, validate_journal_iff}
use openpay.Ledger.Store.{AccountRow, Store, find_hold, get_journal}
use openpay.Ledger.Post.{new_row, post_journal, no_check}
use openpay.Ledger.Post.Rows.{AllFair, released}
use openpay.Ledger.Post.Effect.{Stages, HasRoomFor, post_new-Stages}
use openpay.Ledger.Post.Invariant
use openpay.Ledger.Post.Correct.{post_journal-Answer}
use openpay.Ledger.Hold.{update_hold}
use openpay.Ledger.Hold.Table.{
  IsUnused, IsHoldTable, IsRow, find_hold-IsRow, row-positive, reserved-update_hold,
  update_hold-IsHoldTable,
}
use openpay.Ledger.Hold.Capture.{
  taken_from, take_all, releases_of, captured_hold, mark_captured, capture_active, captured_before,
  sort_holds, insert_hold, lock_holds, all_captured_by, replay_capture, capture_holds, capture_hold,
  first_hold,
}
use openpay.Ledger.Sound.{reserved, IsSound}

-- Holds that may be captured together: active rows of the table, each named once.
abbrev pub AreHeld : List Hold → List Hold → Type 0
AreHeld table [] = Unit
AreHeld table (h ∷ hs) =
    IsRow h table × (hold_is_active h.status ≡ true) × IsUnused h.id hs × AreHeld table hs

abbrev holds_of : List (Hold × ℤ) → List Hold
holds_of [] = []
holds_of ((h, taken) ∷ hs) = h ∷ holds_of hs

-- The loop that fills `taken` goes through the holds in their order.
take_all-holds_of :
    (j : Journal) (rows : List AccountRow) (hs : List Hold) (taken : List (Hold × ℤ))
    → take_all j rows hs ≡ ok taken
    → holds_of taken ≡ hs
unfolding take_all
take_all-holds_of j rows [] taken e = ground (arith, e)
take_all-holds_of j rows (h ∷ hs) taken e =
    let (t, e0, e1) = bind-eq-ok (taken_from j rows h) _ e in
    let (rest, e2, e3) = bind-eq-ok (take_all j rows hs) _ e1 in
    let ih = take_all-holds_of j rows hs rest e2 in
    ap holds_of (sym (ok_is ((h, t) ∷ rest) taken e3)) ∙ ap (λ x. h ∷ x) ih
  where
    ok_is : (x y : List (Hold × ℤ)) → ok x ≡ ok y → x ≡ y
    ok_is x y e = cc

-- A row stays a row while another is updated.
IsRow-update_hold :
    (k h : Hold) (hs : List Hold) → IsRow h hs → (h.id == k.id) ≡ false → IsRow h (update_hold k hs)
IsRow-update_hold k h [] r other = r
IsRow-update_hold k h (x ∷ hs) (inl e) other =
    subst (IsRow h) (sym (if_false _ _ (ap (λ (y : Hold). y.id == k.id) e ∙ other))) (inl e)
IsRow-update_hold k h (x ∷ hs) (inr r) other = elim (Bool-cases (x.id == k.id)) [
  | inl same ↦ subst (IsRow h) (sym (if_true _ _ same)) (inr (IsRow-update_hold k h hs r other))
  | inr apart ↦ subst (IsRow h) (sym (if_false _ _ apart)) (inr (IsRow-update_hold k h hs r other))
]

AreHeld-update_hold :
    (k : Hold) (table hs : List Hold)
    → IsUnused k.id hs
    → AreHeld table hs
    → AreHeld (update_hold k table) hs
AreHeld-update_hold k table [] u a = tt
AreHeld-update_hold k table (h ∷ hs) u (row, on, once, rest) =
    (IsRow-update_hold k h table row (u.0), on, once, AreHeld-update_hold k table hs (u.1) rest)

minus_sum : (r a b : ℤ) → r -ℤ a -ℤ b ≡ r -ℤ (a +ℤ b)
minus_sum r a b = omega int_laws

minus_zero : (r : ℤ) → r ≡ r -ℤ pos 0
minus_zero r = omega int_laws

less_each : (b : Bool) (r a x : ℤ) → (if b then r -ℤ a else r) -ℤ x ≡ r -ℤ (if b then a +ℤ x else x)
less_each true r a x = minus_sum r a x
less_each false r a x = refl

-- Marking holds as captured takes what they release off what is reserved on each account, and
-- keeps the table well formed.
mark_captured-reserved :
    (n j i : ℕ) (taken : List (Hold × ℤ)) (table : List Hold)
    → IsHoldTable n table
    → AreHeld table (holds_of taken)
    → (reserved i (mark_captured j taken table)
        ≡ reserved i table -ℤ released i (releases_of taken))
      × IsHoldTable n (mark_captured j taken table)
unfolding mark_captured releases_of
mark_captured-reserved n j i [] table t a = (minus_zero (reserved i table), t)
mark_captured-reserved n j i ((h, x) ∷ taken) table t (row, on, once, rest) =
    let k = captured_hold j h x in
    let t' = update_hold-IsHoldTable n k table (row-positive n h table row t) t in
    let (sum, good) =
      mark_captured-reserved n j i taken (update_hold k table) t'
        (AreHeld-update_hold k table (holds_of taken) once rest) in
    let step = reserved-update_hold n i h k table t row refl refl on refl in
    (
      sum
          ∙ ap (λ y. y -ℤ released i (releases_of taken)) step
          ∙ less_each (h.account_id == i) (reserved i table) h.amount
              (released i (releases_of taken)),
      good,
    )

releases_of-AllFair :
    (n : ℕ) (table : List Hold) (taken : List (Hold × ℤ))
    → IsHoldTable n table
    → AreHeld table (holds_of taken)
    → AllFair (releases_of taken)
unfolding releases_of
releases_of-AllFair n table [] t a = tt
releases_of-AllFair n table ((h, x) ∷ taken) t (row, on, once, rest) =
    (fair h.amount (row-positive n h table row t), releases_of-AllFair n table taken t rest)
  where
    fair : (a : ℤ) → pos 0 <ℤ a → pos 0 ≤ℤ a
    fair a p = omega arith

-- The tables after a capture, from the tables that the journal leaves.
abbrev marked : ℕ → List (Hold × ℤ) → Store → Store
marked j taken s = record s { holds = mark_captured j taken s.holds }

posted-IsSound :
    (taken : List (Hold × ℤ)) (j : Journal) (s : Store) (j' : Journal) (s' : Store) (k : ℕ)
    → IsBalanced j
    → j.id ≡ s.next_journal
    → HasRoomFor (volume j.postings) s
    → IsSound s
    → IsHoldTable s.next_hold s.holds
    → AreHeld s.holds (holds_of taken)
    → Stages (releases_of taken) no_check j s j' s'
    → IsSound (marked k taken s') × IsHoldTable s.next_hold (mark_captured k taken s'.holds)
posted-IsSound taken j s j' s' k good new room sound table held st =
    let rs = releases_of taken in
    let fair = releases_of-AllFair s.next_hold s.holds taken table held in
    let sums = λ (i : ℕ). mark_captured-reserved s.next_hold k i taken s.holds table held in
    subst
      (λ (x : Store).
        IsSound (marked k taken x) × IsHoldTable s.next_hold (mark_captured k taken x.holds))
      (sym st.store)
      (
        record {
          accounts =
              Invariant.new-accounts rs no_check j s j' s' fair good.legs room st sound new
                good.two_legs good.balanced;
          held = λ i r' at_i.
              Invariant.new-held rs no_check j s j' s' fair good.legs room st sound new
                good.two_legs good.balanced i r' at_i
              ∙ sym ((sums i).0);
          running =
              Invariant.new-running rs no_check j s j' s' fair good.legs room st sound new
                good.two_legs good.balanced;
          balanced =
              Invariant.new-balanced rs no_check j s j' s' fair good.legs room st sound new
                good.two_legs good.balanced;
          two_legs =
              Invariant.new-two_legs rs no_check j s j' s' fair good.legs room st sound new
                good.two_legs good.balanced;
          currency =
              Invariant.new-currency rs no_check j s j' s' fair good.legs room st sound new
                good.two_legs good.balanced;
          fresh =
              Invariant.new-IsFresh rs no_check j s j' s' fair good.legs room st sound new
                good.two_legs good.balanced;
          numbered =
              Invariant.new-numbered rs no_check j s j' s' fair good.legs room st sound new
                good.two_legs good.balanced;
        },
        (sums 0).1,
      )

fourth {ℓ} :
    {A : Type ℓ} (a a' : A) (b b' : Bool) (j j' : Journal) (s s' : Store)
    → ◌≡◌ {A = Result (A × Bool × Journal × Store)} (ok (a, b, j, s)) (ok (a', b', j', s'))
    → s ≡ s'
fourth a a' b b' j j' s s' e = cc

-- Capturing active holds, each named once, by a journal that the ledger inserts, leaves the rules of
-- the ledger and of the holds table in force, on tables with room for the journal's amounts.
pub capture_active-IsSound :
    (hs : List Hold) (j : Journal) (s : Store) (hs' : List Hold) (b : Bool) (j' : Journal)
    (s' : Store)
    → AreHeld s.holds hs
    → volume j.postings < half
    → HasRoomFor (volume j.postings) s
    → IsSound s
    → IsHoldTable s.next_hold s.holds
    → capture_active hs j s ≡ ok (hs', b, j', s')
    → IsSound s' × IsHoldTable s.next_hold s'.holds
unfolding capture_active
capture_active-IsSound hs j s hs' b j' s' held v room sound table e =
    let (taken, e0, e1) = bind-eq-ok (take_all j s.accounts hs) _ e in
    let (out, e2, e3) = bind-eq-ok (post_journal (releases_of taken) no_check j s) _ e1 in
    let (u, test, e4) = bind-eq-ok (fail_if (not out.0) already_exists) _ e3 in
    let held' : AreHeld s.holds (holds_of taken) =
      subst (AreHeld s.holds) (sym (take_all-holds_of j s.accounts hs taken e0)) held in
    let (in_tx, valid, answer) =
      post_journal-Answer (releases_of taken) no_check j s out.0 out.1 out.2 e2 in
    let good = (validate_journal_iff j v).0 valid in
    let is : marked out.1.id taken out.2 ≡ s' = fourth _ hs' _ b _ j' _ s' e4 in
    elim answer [
      | inl (fresh, posted_new) ↦
          let (is_new, st) =
            post_new-Stages (releases_of taken) no_check (new_row j s) s out.0 out.1 out.2
              posted_new in
          let (after, tab) =
            posted-IsSound taken (new_row j s) s out.1 out.2 out.1.id
              (record {
                identified = good.identified;
                two_legs = good.two_legs;
                legs = good.legs;
                balanced = good.balanced;
              })
              refl room sound table held' st in
          (subst IsSound is after, subst (λ (x : Store). IsHoldTable s.next_hold x.holds) is tab)
      | inr (there, replay, same) ↦ absurd (twice out.0 u test replay)
    ]
  where
    twice : (b : Bool) (u : Unit {0}) → fail_if (not b) already_exists ≡ ok u → b ≡ false → ⊥
    twice b u e f = ground (arith, e, f)

active_of :
    (h : Hold) (n : ℕ)
    → captured_before (h ∷ []) ≡ ok n
    → (n == 0) ≡ true
    → hold_is_active h.status ≡ true
unfolding captured_before
active_of h n e z = ground (arith, e, z)

replay_keeps :
    (n : ℕ) (hs : List Hold) (j : Journal) (s : Store) (hs' : List Hold) (b : Bool) (j' : Journal)
    (s' : Store)
    → replay_capture n hs j s ≡ ok (hs', b, j', s')
    → s ≡ s'
unfolding replay_capture
replay_keeps n hs j s hs' b j' s' e =
    let (existing, e0, e1) =
      bind-eq-ok (or_fail (get_journal j.external_id s) failed_precondition) _ e in
    let (u, t, e2) = bind-eq-ok (fail_if (not (n == length hs)) failed_precondition) _ e1 in
    let (v, w, e3) =
      bind-eq-ok (fail_if (not (all_captured_by existing.id hs)) failed_precondition) _ e2 in
    fourth _ hs' _ b _ j' _ s' e3

capture_one-IsSound :
    (x : String) (j : Journal) (s : Store) (hs' : List Hold) (b : Bool) (j' : Journal) (s' : Store)
    → volume j.postings < half
    → HasRoomFor (volume j.postings) s
    → IsSound s
    → IsHoldTable s.next_hold s.holds
    → capture_holds (x ∷ []) j s ≡ ok (hs', b, j', s')
    → IsSound s' × IsHoldTable s.next_hold s'.holds
unfolding capture_holds lock_holds sort_holds insert_hold
capture_one-IsSound x j s hs' b j' s' v room sound table e =
    let (u, in_tx, e0) = bind-eq-ok (fail_if (not s.in_tx) internal) _ e in
    let (locked, e1, e2) = bind-eq-ok (lock_holds (x ∷ []) s.holds) _ e0 in
    let (h, found, e3) = bind-eq-ok (or_fail (find_hold x s.holds) not_found) _ e1 in
    let only : h ∷ [] ≡ locked = list_is (h ∷ []) locked e3 in
    let (n, counted, e4) = bind-eq-ok (captured_before (sort_holds locked)) _ e2 in
    let counted' : captured_before (h ∷ []) ≡ ok n =
      subst (λ hs. captured_before (sort_holds hs) ≡ ok n) (sym only) counted in
    elim (Bool-cases (n == 0)) [
      | inl new ↦
          let row =
            find_hold-IsRow x s.holds h (or_fail-some (find_hold x s.holds) not_found h found) in
          let go = sym (if_true _ _ new) ∙ e4 in
          capture_active-IsSound (h ∷ []) j s hs' b j' s' (row, active_of h n counted' new, tt, tt)
            v room sound table
            (subst (λ hs. capture_active (sort_holds hs) j s ≡ ok (hs', b, j', s')) (sym only) go)
      | inr before ↦
          let same =
            replay_keeps n (sort_holds locked) j s hs' b j' s' (sym (if_false _ _ before) ∙ e4) in
          (
            subst IsSound same sound,
            subst (λ (y : Store). IsHoldTable s.next_hold y.holds) same table,
          )
    ]
  where
    list_is : (x y : List Hold) → ok x ≡ ok y → x ≡ y
    list_is x y e = cc

-- A capture of one hold that succeeds leaves the rules of the ledger and of the holds table in
-- force, whether it posts the journal, frees the whole reservation and marks the hold, or finds the
-- hold captured by that journal before, on tables with room for the journal's amounts.
pub capture_hold-IsSound :
    (x : String) (j : Journal) (s : Store) (h' : Hold) (b : Bool) (j' : Journal) (s' : Store)
    → volume j.postings < half
    → HasRoomFor (volume j.postings) s
    → IsSound s
    → IsHoldTable s.next_hold s.holds
    → capture_hold x j s ≡ ok (h', b, j', s')
    → IsSound s' × IsHoldTable s.next_hold s'.holds
unfolding capture_hold
capture_hold-IsSound x j s h' b j' s' v room sound table e =
    let (out, done, e0) = bind-eq-ok (capture_holds (x ∷ []) j s) _ e in
    let (h, first, e1) = bind-eq-ok (or_fail (first_hold out.0) internal) _ e0 in
    let is : out.3 ≡ s' = fourth _ h' _ b _ j' _ s' e1 in
    let kept = capture_one-IsSound x j s out.0 out.1 out.2 out.3 v room sound table done in
    (subst IsSound is kept.0, subst (λ (y : Store). IsHoldTable s.next_hold y.holds) is kept.1)
