-- ===== src/Payment/Dispute/Posted.antt =====
-- That the journals a dispute posts stay in the books with their legs.
use openpay.Base.{
  ℕ, ◌≡◌, ◌∙◌, sym, ap, subst, Bool, true, false, ◌⊎◌, inl, inr, String, List, [], ◌∷◌,
}
use openpay.Base.Int.{ℤ}
use openpay.Errors.{ok}
use openpay.Ledger.Types.{Journal, Direction, debit}
use openpay.Ledger.Store.{Store}
use openpay.Ledger.Post.{Check, post_journal, new_row}
use openpay.Ledger.Post.Effect.{post_new-Stages}
use openpay.Ledger.Post.Correct.{post_journal-Answer}
use openpay.Wallet.Engine.Retry.{HasLeg, has_leg_iff, has_leg-posted}

-- Is a journal's row in a table?
abbrev pub IsIn : Journal → List Journal → Type 0
IsIn j [] = ⊥
IsIn j (k ∷ ks) = (k ≡ j) ⊎ IsIn j ks

-- Rows that are there stay there.
abbrev pub Grows : Store → Store → Type 0
Grows s s' = (j : Journal) → IsIn j s.journals → IsIn j s'.journals

pub post_journal-Grows :
    (check : Check) (j : Journal) (s : Store) (b : Bool) (j' : Journal) (s' : Store)
    → post_journal [] check j s ≡ ok (b, j', s')
    → Grows s s'
post_journal-Grows check j s b j' s' h = elim (post_journal-Answer [] check j s b j' s' h).2 [
  | inl (fresh, posted_new) ↦
      let st = (post_new-Stages [] check (new_row j s) s b j' s' posted_new).1 in
      λ k there. subst (λ (z : Store). IsIn k z.journals) (sym st.store) (inr there)
  | inr (there, replay, unchanged) ↦
      λ k there. subst (λ (z : Store). IsIn k z.journals) (sym unchanged) there
]

-- A journal newly posted, and its legs.
pub record IsPosted (j : Journal) (s s' : Store) : Type 0 where
  pub row : Journal
  pub external_id : row.external_id ≡ j.external_id
  pub there : IsIn (record row { postings = [] }) s'.journals
  pub legs :
      (i : ℕ) (d : Direction) (amount : ℤ)
      → HasLeg i d amount j.postings
      → HasLeg i d amount row.postings

pub post_journal-IsPosted :
    (check : Check) (j : Journal) (s : Store) (j' : Journal) (s' : Store)
    → post_journal [] check j s ≡ ok (true, j', s')
    → IsPosted j s s'
post_journal-IsPosted check j s j' s' h = elim (post_journal-Answer [] check j s true j' s' h).2 [
  | inl (fresh, posted_new) ↦
      let st = (post_new-Stages [] check (new_row j s) s true j' s' posted_new).1 in
      record {
        row = j';
        external_id = ap (λ (k : Journal). k.external_id) st.journal;
        there =
            subst (λ (z : Store). IsIn (record j' { postings = [] }) z.journals) (sym st.store)
              (inl (ap (λ (k : Journal). record k { postings = [] }) (sym st.journal)));
        legs = λ i d amount leg. (has_leg_iff i d amount j'.postings).0 (
            has_leg-posted i d amount check j j' s s' h
            ∙ (has_leg_iff i d amount j.postings).1 leg);
      }
  | inr (there, replay, unchanged) ↦ absurd (clash replay)
]
  where
    clash : true ≡ false → ⊥
    clash e = cc

-- A journal of this external id that takes the amount from this account is in the books.
pub record IsCharged (external : String) (account : ℕ) (amount : ℤ) (s : Store) : Type 0 where
  pub journal : Journal
  pub external_id : journal.external_id ≡ external
  pub there : IsIn (record journal { postings = [] }) s.journals
  pub leg : HasLeg account debit amount journal.postings
