-- ===== src/Payment/Sync/History.antt =====
-- How often a payment changes its status, whatever is recorded on it.
use openpay.Base.{
  ℕ, suc, ◌≤◌, ◌≡◌, ◌∙◌, sym, ap, refl, String, Option, subst, Bool, true, false, List, [], ◌∷◌,
  inl, inr, ◌⊎◌, arith, if◌then◌else◌, Bool-cases, if_true, if_false,
}
use openpay.Payment.State.{PaymentStatus, same, can_transition}
use openpay.Payment.State.Reach.{rank, can_transition-rank, rank-le}
use openpay.Payment.Types.{PaymentTransition, Hooks, World}
use openpay.Payment.Sync.{transition}
use openpay.Errors.{ok}
use openpay.Payment.Sync.Laws.{IsHistory, same_iff, same_refl, transition-Went}

-- The entries that change the status.
unfoldable pub changes : List PaymentTransition → ℕ
changes [] = 0
changes (t ∷ ts) = if same t.from t.to then changes ts else suc (changes ts)

changes-rank :
    (s : PaymentStatus) (ts : List PaymentTransition) → IsHistory s ts → changes ts ≤ rank s
unfolding changes
changes-rank s [] h = omega arith
changes-rank s (t ∷ ts) (to, step, past) =
    let ih = changes-rank t.from ts past in
    let reached : rank t.to ≡ rank s = ap rank to in
    elim (Bool-cases (same t.from t.to)) [
      | inl stays ↦
          let kept : rank t.from ≡ rank t.to = ap rank (same_iff t.from t.to stays) in
          subst (λ n. n ≤ rank s) (sym (if_true _ _ stays)) (omega (arith, ih, reached, kept))
      | inr changed ↦
          let more = can_transition-rank t.from t.to (moves t step changed) in
          subst (λ n. n ≤ rank s) (sym (if_false _ _ changed)) (omega (arith, ih, reached, more))
    ]
  where
    clash : (b : Bool) → b ≡ true → b ≡ false → ⊥
    clash b e f = cc

    moves :
        (t : PaymentTransition)
        → (t.from ≡ t.to) ⊎ (can_transition t.from t.to ≡ true)
        → same t.from t.to ≡ false
        → can_transition t.from t.to ≡ true
    moves t (inl e) f = absurd (clash _ (ap (same t.from) (sym e) ∙ same_refl t.from) f)
    moves t (inr e) f = e

module _ {O : Type 0} where
  -- A payment's rows from its opening on: its status and history change by transitions alone, with any
  -- order engine and wallet engine, and anything else may be written in between.
  pub data Life : World O → Type 0 where
    opened : {w : World O} → w.history ≡ [] → Life w
    written :
        {w v : World O}
        → Life w
        → v.payment.status ≡ w.payment.status
        → v.history ≡ w.history
        → Life v
    transitioned :
        {w v : World O} (hooks : Hooks O) (to : PaymentStatus) (source : String)
        (reference : Option String)
        → Life w
        → transition hooks to source reference w ≡ ok v
        → Life v

  pub Life-IsHistory : (w : World O) → Life w → IsHistory w.payment.status w.history
  Life-IsHistory w (opened new) = subst (IsHistory w.payment.status) (sym new) tt
  Life-IsHistory w (written {w = u} life status history) =
      subst (λ s. IsHistory s w.history) (sym status)
        (subst (IsHistory u.payment.status) (sym history) (Life-IsHistory u life))
  Life-IsHistory w (transitioned {w = u} hooks to source reference life h) =
      let went = transition-Went hooks to source reference u w h in
      subst (λ s. IsHistory s w.history) (sym went.status)
        (subst (IsHistory to) (sym went.history) (refl, went.allowed, Life-IsHistory u life))

  -- However many transitions are recorded on a payment in its life, and every further partial refund
  -- records one, at most nine of them change its status.
  pub Life-changes : (w : World O) → Life w → changes w.history ≤ 9
  Life-changes w life = omega (
    arith,
    changes-rank w.payment.status w.history (Life-IsHistory w life),
    rank-le w.payment.status,
  )
