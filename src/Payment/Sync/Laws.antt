-- ===== src/Payment/Sync/Laws.antt =====
-- What `Sync` and `MarkSettled` keep of a payment and its history.
use openpay.Base.{
  ◌≡◌, ◌∙◌, sym, ap, refl, Bool, true, false, ◌&&◌, not, ◌⊎◌, inl, inr, Option, none, some, String,
  List, [], ◌∷◌, arith, Bool-cases, if_true, if_false, subst,
}
use openpay.Errors.{Result, ok, bind-eq-ok, fail_if, fail_if-passes, failed_precondition}
use openpay.Payment.State.{PaymentStatus, same, can_transition}
use openpay.Payment.Types.{PaymentTransition, Hooks, World, OrderHook}
use openpay.Payment.Sync.{is_order, is_ended, tell_order, emit, moved, transition}

pub same_iff : (s t : PaymentStatus) → same s t ≡ true → s ≡ t
same_iff s t h = ground arith

pub same_refl : (s : PaymentStatus) → same s s ≡ true
same_refl s = ground arith

-- Each entry of the history is a transition that the machine allows, or one that stays, they join
-- up, and the newest leads to the status.
abbrev pub IsHistory : PaymentStatus → List PaymentTransition → Type 0
IsHistory s [] = Unit
IsHistory s (t ∷ ts) =
    (t.to ≡ s) × ((t.from ≡ t.to) ⊎ (can_transition t.from t.to ≡ true)) × IsHistory t.from ts

pub ok-inj : {A : Type 0} (x y : A) → ◌≡◌ {A = Result A} (ok x) (ok y) → x ≡ y
ok-inj x y e = cc

tests_allow :
    (s to : PaymentStatus) (b : Bool) → not (same s to) && not b ≡ false → (s ≡ to) ⊎ (b ≡ true)
tests_allow s to true h = inr refl
tests_allow s to false h = inl (same_iff s to (ground arith))

module _ {O : Type 0} where
  -- What a step leaves alone.
  pub record Keeps (w w' : World O) : Type 0 where
    pub status : w'.payment.status ≡ w.payment.status
    pub history : w'.history ≡ w.history
    pub attempt : w'.attempt ≡ w.attempt

  emit-Keeps : (to : PaymentStatus) (w : World O) → Keeps w (emit to w)
  unfolding emit
  emit-Keeps to w = ground arith

  Keeps-of_eq :
      (w x w' : World O) → Keeps w x → ◌≡◌ {A = Result (World O)} (ok x) (ok w') → Keeps w w'
  Keeps-of_eq w x w' k e = subst (Keeps w) (ok-inj x w' e) k

  Keeps-refl : (w : World O) → Keeps w w
  Keeps-refl w = record { status = refl; history = refl; attempt = refl }

  tell_order-Keeps :
      (hook : Option (OrderHook O)) (to : PaymentStatus) (w w' : World O)
      → tell_order hook to w ≡ ok w'
      → Keeps w w'
  unfolding tell_order
  tell_order-Keeps none to w w' h = Keeps-of_eq w w w' (Keeps-refl w) h
  tell_order-Keeps (some hook) to w w' h =
      elim (Bool-cases (is_order w.payment.purpose && is_ended to)) [
        | inl ends ↦
            let (b, e, h1) =
              bind-eq-ok (hook.payment_ended w.payment w.orders w.books) _
                (sym (if_true _ _ ends) ∙ h) in
            Keeps-of_eq w (record w { orders = b.0; books = b.1 }) w'
              (record { status = refl; history = refl; attempt = refl }) h1
        | inr goes_on ↦ Keeps-of_eq w w w' (Keeps-refl w) (sym (if_false _ _ goes_on) ∙ h)
      ]

  tell_order-payment :
      (hook : Option (OrderHook O)) (to : PaymentStatus) (w w' : World O)
      → tell_order hook to w ≡ ok w'
      → w'.payment ≡ w.payment
  unfolding tell_order
  tell_order-payment none to w w' h = ground (arith, h)
  tell_order-payment (some hook) to w w' h =
      elim (Bool-cases (is_order w.payment.purpose && is_ended to)) [
        | inl ends ↦
            let (b, e, h1) =
              bind-eq-ok (hook.payment_ended w.payment w.orders w.books) _
                (sym (if_true _ _ ends) ∙ h) in
            ground (arith, h1)
        | inr goes_on ↦
            ap (λ (x : World O). x.payment) (sym (ok-inj w w' (sym (if_false _ _ goes_on) ∙ h)))
      ]

  emit-payment : (to : PaymentStatus) (w : World O) → (emit to w).payment ≡ w.payment
  unfolding emit
  emit-payment to w = ground arith

  -- A transition that goes through.
  pub record Went (to : PaymentStatus) (source : String) (reference : Option String)
      (w w' : World O) : Type 0 where
    pub allowed : (w.payment.status ≡ to) ⊎ (can_transition w.payment.status to ≡ true)
    pub status : w'.payment.status ≡ to
    pub payment : w'.payment ≡ record (w.payment) { status = to }
    pub history :
        w'.history
        ≡ record { from = w.payment.status; to = to; source = source; reference = reference }
          ∷ w.history
    pub attempt : w'.attempt ≡ w.attempt

  pub transition-Went :
      (hooks : Hooks O) (to : PaymentStatus) (source : String) (reference : Option String)
      (w w' : World O)
      → transition hooks to source reference w ≡ ok w'
      → Went to source reference w w'
  unfolding transition
  transition-Went hooks to source reference w w' h =
      let (u, test, h1) =
        bind-eq-ok
          (fail_if (not (same w.payment.status to) && not (can_transition w.payment.status to))
            failed_precondition)
          _ h in
      let (told, telling, h2) =
        bind-eq-ok (tell_order hooks.orders to (moved to source reference w)) _ h1 in
      let kept = tell_order-Keeps hooks.orders to (moved to source reference w) told telling in
      let emitted = emit-Keeps to told in
      let is : emit to told ≡ w' = ground (arith, h2) in
      record {
        allowed = tests_allow w.payment.status to _ (fail_if-passes _ failed_precondition u test);
        status = ap (λ (x : World O). x.payment.status) (sym is) ∙ emitted.status ∙ kept.status;
        payment =
            ap (λ (x : World O). x.payment) (sym is)
            ∙ emit-payment to told
            ∙ tell_order-payment hooks.orders to (moved to source reference w) told telling;
        history = ap (λ (x : World O). x.history) (sym is) ∙ emitted.history ∙ kept.history;
        attempt = ap (λ (x : World O). x.attempt) (sym is) ∙ emitted.attempt ∙ kept.attempt;
      }
