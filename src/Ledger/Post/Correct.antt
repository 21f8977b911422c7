-- ===== src/Ledger/Post/Correct.antt =====
-- What `postJournal` promises its callers.
use openpay.Base.{
  ℕ, ◌<◌, ◌≡◌, ◌∙◌, ap, refl, Bool, true, false, none, some, List, [], ◌++◌, arith, eq_iff, not,
  Option-cases, some-eq, inl, inr, ◌⊎◌,
}
use openpay.Base.Int.{ℤ, ◌+ℤ◌, ◌-ℤ◌, int_laws}
use openpay.Base.Int64.{half}
use openpay.Errors.{ok, bind-eq-ok, fail_if, internal}
use openpay.Ledger.Types.{Journal}
use openpay.Ledger.Validate.{validate_journal}
use openpay.Ledger.Validate.Laws.{IsBalanced, volume, validate_journal_iff}
use openpay.Ledger.Store.{AccountRow, Store, find_account, get_journal, postings_of}
use openpay.Ledger.Locks.{HoldRelease}
use openpay.Ledger.Post.{Check, new_row, post_new, post_journal}
use openpay.Ledger.Post.Tables.{write_legs-postings_of, postings_of-IsFresh}
use openpay.Ledger.Post.Rows.{released}
use openpay.Ledger.Post.Effect.{Stages, HasRoomFor, post_new-Stages, write-Moved}
use openpay.Ledger.Post.Invariant
use openpay.Ledger.Sound.{posted, IsSound, reserved}

-- How a journal is answered: it is inserted, or the journal of its external id is given back.
abbrev pub Answer : List HoldRelease → Check → Journal → Store → Bool → Journal → Store → Type 0
Answer rs check j s b j' s' =
    ((get_journal j.external_id s ≡ none) × (post_new rs check (new_row j s) s ≡ ok (b, j', s')))
    ⊎ ((get_journal j.external_id s ≡ some j') × (b ≡ false) × (s' ≡ s))

fail_if-eq-ok : (b : Bool) (u : Unit {0}) → fail_if (not b) internal ≡ ok u → b ≡ true
fail_if-eq-ok true u e = refl
fail_if-eq-ok false u e = cc

pub post_journal-Answer :
    (rs : List HoldRelease) (check : Check) (j : Journal) (s : Store) (b : Bool) (j' : Journal)
    (s' : Store)
    → post_journal rs check j s ≡ ok (b, j', s')
    → (s.in_tx ≡ true) × (validate_journal j ≡ ok tt) × Answer rs check j s b j' s'
unfolding post_journal
post_journal-Answer rs check j s b j' s' h =
    let (u, in_tx, h1) = bind-eq-ok (fail_if (not s.in_tx) internal) _ h in
    let (v, valid, h2) = bind-eq-ok (validate_journal j) _ h1 in
    (
      fail_if-eq-ok s.in_tx u in_tx,
      valid,
      elim (Option-cases (get_journal j.external_id s)) [
        | inl none_yet ↦ inl (none_yet, ground (arith, h2, none_yet))
        | inr (k, there) ↦
            inr (ground (arith, h2, there), ground (arith, h2, there), ground (arith, h2, there))
      ],
    )

no_release : (i : ℕ) (a : ℤ) → a -ℤ released i [] ≡ a
no_release i a = omega int_laws

-- A journal that the ledger inserts, on tables that keep the rules, leaves tables that keep them.
post_new-IsSound :
    (check : Check) (j : Journal) (s : Store) (j' : Journal) (s' : Store)
    → IsBalanced j
    → j.id ≡ s.next_journal
    → HasRoomFor (volume j.postings) s
    → IsSound s
    → Stages [] check j s j' s'
    → IsSound s'
post_new-IsSound check j s j' s' good new room sound st = rw st.store (record {
  accounts =
      Invariant.new-accounts [] check j s j' s' tt good.legs room st sound new good.two_legs
        good.balanced;
  held = λ i r' at_i.
      Invariant.new-held [] check j s j' s' tt good.legs room st sound new good.two_legs
        good.balanced i r' at_i
      ∙ no_release i (reserved i s.holds);
  running =
      Invariant.new-running [] check j s j' s' tt good.legs room st sound new good.two_legs
        good.balanced;
  balanced =
      Invariant.new-balanced [] check j s j' s' tt good.legs room st sound new good.two_legs
        good.balanced;
  two_legs =
      Invariant.new-two_legs [] check j s j' s' tt good.legs room st sound new good.two_legs
        good.balanced;
  currency =
      Invariant.new-currency [] check j s j' s' tt good.legs room st sound new good.two_legs
        good.balanced;
  fresh =
      Invariant.new-IsFresh [] check j s j' s' tt good.legs room st sound new good.two_legs
        good.balanced;
  numbered =
      Invariant.new-numbered [] check j s j' s' tt good.legs room st sound new good.two_legs
        good.balanced;
})

-- On tables that keep the rules, with room for the amounts, `postJournal` without releases leaves
-- tables that keep the rules: every balance is the sum of its postings and every journal sums to
-- zero in every currency, no account that may not go negative is overdrawn, reservations match the
-- active holds, and running balances, currencies and ids are consistent.
pub post_journal-IsSound :
    (check : Check) (j : Journal) (s : Store) (b : Bool) (j' : Journal) (s' : Store)
    → volume j.postings < half
    → HasRoomFor (volume j.postings) s
    → IsSound s
    → post_journal [] check j s ≡ ok (b, j', s')
    → IsSound s'
post_journal-IsSound check j s b j' s' v room sound h =
    let (in_tx, valid, answer) = post_journal-Answer [] check j s b j' s' h in
    let good = (validate_journal_iff j v).0 valid in
    elim answer [
      | inl (fresh, posted_new) ↦
          let (is_new, st) = post_new-Stages [] check (new_row j s) s b j' s' posted_new in
          post_new-IsSound check (new_row j s) s j' s'
            (record {
              identified = good.identified;
              two_legs = good.two_legs;
              legs = good.legs;
              balanced = good.balanced;
            })
            refl room sound st
      | inr (there, replay, same) ↦ rw same sound
    ]

-- Where `postJournal` inserts a journal without releases, it moves every account's balance by
-- exactly what the journal's postings sum to on that account, and leaves the account's own row
-- and its reservation as they were.
pub post_journal-moves :
    (check : Check) (j : Journal) (s : Store) (j' : Journal) (s' : Store)
    → volume j.postings < half
    → HasRoomFor (volume j.postings) s
    → post_journal [] check j s ≡ ok (true, j', s')
    → (i : ℕ) (r : AccountRow) → find_account i s.accounts ≡ some r
    → (r' : AccountRow) × (find_account i s'.accounts ≡ some r')
      × (r'.account ≡ r.account)
      × (r'.balance.raw_balance ≡ r.balance.raw_balance +ℤ posted i j.postings)
      × (r'.balance.held ≡ r.balance.held)
post_journal-moves check j s j' s' v room h i r found =
    let (in_tx, valid, answer) = post_journal-Answer [] check j s true j' s' h in
    let good = (validate_journal_iff j v).0 valid in
    elim answer [
      | inl (fresh, posted_new) ↦
          let (is_new, st) = post_new-Stages [] check (new_row j s) s true j' s' posted_new in
          let (r', found', m) =
            write-Moved [] check (new_row j s) s j' s' tt good.legs room st i r found in
          (
            r',
            ap (λ (x : Store). find_account i x.accounts) st.store ∙ found',
            m.account,
            m.raw_balance,
            m.held ∙ no_release i r.balance.held,
          )
      | inr (there, replay, same) ↦ absurd (ground (arith, replay))
    ]

-- What was inserted is read back by its external id.
get_journal-posted :
    (rs : List HoldRelease) (check : Check) (j : Journal) (s : Store) (j' : Journal) (s' : Store)
    → IsSound s
    → j.id ≡ s.next_journal
    → Stages rs check j s j' s'
    → get_journal j.external_id s' ≡ some j'
unfolding get_journal
get_journal-posted rs check j s j' s' sound new st =
    let kept : postings_of j.id st.w.table ≡ st.w.postings =
      write_legs-postings_of j.id 0 j.postings st.freed s.postings st.w st.writing
      ∙ ap (λ ps. ps ++ st.w.postings) (postings_of-IsFresh j.id s.postings (rw new sound.fresh)) in
    rw st.store (rw st.journal (ground (arith, eq_iff j.external_id j.external_id, kept)))

-- Once a journal has been posted, `postJournal` answers every valid journal of the same external
-- id, whatever it would post, release or check, with the journal that was posted, reports that it
-- posted nothing, and changes nothing.
pub post_journal-replay :
    (rs ss : List HoldRelease) (check check' : Check) (j k : Journal) (s : Store) (j' : Journal)
    (s' : Store)
    → IsSound s
    → post_journal rs check j s ≡ ok (true, j', s')
    → k.external_id ≡ j.external_id
    → validate_journal k ≡ ok tt
    → post_journal ss check' k s' ≡ ok (false, j', s')
unfolding post_journal
post_journal-replay rs ss check check' j k s j' s' sound h same valid =
    let (in_tx, valid_j, answer) = post_journal-Answer rs check j s true j' s' h in
    elim answer [
      | inl (fresh, posted_new) ↦
          let (is_new, st) = post_new-Stages rs check (new_row j s) s true j' s' posted_new in
          let there = get_journal-posted rs check (new_row j s) s j' s' sound refl st in
          let still : s'.in_tx ≡ true = ap (λ (x : Store). x.in_tx) st.store ∙ in_tx in
          let there' : get_journal k.external_id s' ≡ some j' =
            ap (λ x. get_journal x s') same ∙ there in
          ground (arith, still, valid, there')
      | inr (there, replay, unchanged) ↦ absurd (ground (arith, replay))
    ]

-- A journal that the ledger answers with success is the one that its external id reads back.
pub post_journal-get_journal :
    (rs : List HoldRelease) (check : Check) (j : Journal) (s : Store) (b : Bool) (j' : Journal)
    (s' : Store)
    → IsSound s
    → post_journal rs check j s ≡ ok (b, j', s')
    → get_journal j.external_id s' ≡ some j'
post_journal-get_journal rs check j s b j' s' sound h =
    let (in_tx, valid, answer) = post_journal-Answer rs check j s b j' s' h in
    elim answer [
      | inl (fresh, posted_new) ↦
          let (is_new, st) = post_new-Stages rs check (new_row j s) s b j' s' posted_new in
          get_journal-posted rs check (new_row j s) s j' s' sound refl st
      | inr (there, replay, unchanged) ↦ rw unchanged there
    ]

-- The check that a caller hands over held of the tables that a journal left.
pub post_journal-checked :
    (rs : List HoldRelease) (check : Check) (j : Journal) (s : Store) (j' : Journal) (s' : Store)
    → post_journal rs check j s ≡ ok (true, j', s')
    → check j' s' ≡ ok tt
post_journal-checked rs check j s j' s' h =
    let (in_tx, valid, answer) = post_journal-Answer rs check j s true j' s' h in
    elim answer [
      | inl (fresh, posted_new) ↦
          (post_new-Stages rs check (new_row j s) s true j' s' posted_new).1.checked
      | inr (there, replay, unchanged) ↦ cc
    ]

-- Whether a journal is inserted hangs on its external id alone; one that is there is given back.
pub post_journal-posted :
    (rs : List HoldRelease) (check : Check) (j : Journal) (s : Store) (b : Bool) (j' : Journal)
    (s' : Store)
    → post_journal rs check j s ≡ ok (b, j', s')
    → (get_journal j.external_id s ≡ none → b ≡ true)
      × ((k : Journal) → get_journal j.external_id s ≡ some k → (b ≡ false) × (j' ≡ k) × (s' ≡ s))
post_journal-posted rs check j s b j' s' h =
    let (in_tx, valid, answer) = post_journal-Answer rs check j s b j' s' h in
    elim answer [
      | inl (fresh, posted_new) ↦
          (λ e. (post_new-Stages rs check (new_row j s) s b j' s' posted_new).0, λ k e. cc)
      | inr (there, replay, unchanged) ↦ (λ e. cc, λ k e. (replay, some-eq j' k (cc), unchanged))
    ]
