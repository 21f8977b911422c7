-- ===== src/Payment/Sync/Correct.antt =====
-- What `Sync` promises, whatever order reports come in.
use openpay.Base.{
  ◌≡◌, ◌∙◌, sym, ap, refl, Bool, true, false, ◌||◌, not, ◌⊎◌, inl, inr, Option, String, arith,
  Bool-cases, if_true, if_false, subst,
}
use openpay.Errors.{Result, ok, bind-eq-ok}
use openpay.Payment.State.{PaymentStatus, same, can_transition, from_provider}
use openpay.Payment.Types.{PaymentAttempt, ProviderPayment, Hooks, World}
use openpay.Payment.Sync.{reported, with_attempt, with_failure, prepare, transition, sync}
use openpay.Payment.Sync.Laws.{IsHistory, same_refl, Keeps, transition-Went, ok-inj}
use openpay.Payment.Sync.Capture.{apply_capture-Captured}

reported_twice :
    (pp : ProviderPayment) (a : PaymentAttempt) → reported pp (reported pp a) ≡ reported pp a
unfolding reported
reported_twice pp a = ground arith

news_test : (a b : Bool) → a || not b ≡ false → b ≡ true
news_test a b h = ground arith

or_true : (a b : Bool) → a ≡ true → a || b ≡ true
or_true a b h = rw h refl

module _ {O : Type 0} where
  same_failure : (pp : ProviderPayment) (w : World O) → Keeps w (with_failure pp w)
  unfolding with_failure
  same_failure pp w = record { status = refl; history = refl; attempt = refl }

  Keeps-to : (w x w' : World O) → Keeps w x → ◌≡◌ {A = Result (World O)} (ok x) (ok w') → Keeps w w'
  Keeps-to w x w' k e = subst (Keeps w) (ok-inj x w' e) k

  nothing_done : (w w' : World O) → ◌≡◌ {A = Result (World O)} (ok w) (ok w') → Keeps w w'
  nothing_done w w' e = Keeps-to w w w' (record { status = refl; history = refl; attempt = refl }) e

  prepare-Keeps :
      (hooks : Hooks O) (to : PaymentStatus) (pp : ProviderPayment) (w w' : World O)
      → prepare hooks to pp w ≡ ok w'
      → Keeps w w'
  unfolding prepare
  prepare-Keeps hooks PaymentStatus.captured pp w w' h =
      (apply_capture-Captured hooks pp w w' h).kept
  prepare-Keeps hooks PaymentStatus.failed pp w w' h =
      Keeps-to w (with_failure pp w) w' (same_failure pp w) h
  prepare-Keeps hooks PaymentStatus.cancelled pp w w' h =
      Keeps-to w (with_failure pp w) w' (same_failure pp w) h
  prepare-Keeps hooks _ pp w w' h = nothing_done w w' h

  -- A report that is written over the payment.
  pub record News (hooks : Hooks O) (pp : ProviderPayment) (source : String)
      (reference : Option String) (w w' : World O) : Type 0 where
    pub ready : World O
    pub allowed : can_transition w.payment.status (from_provider pp.status) ≡ true
    pub prepared : prepare hooks (from_provider pp.status) pp (with_attempt pp w) ≡ ok ready
    pub went : transition hooks (from_provider pp.status) source reference ready ≡ ok w'

  sync-cases :
      (hooks : Hooks O) (pp : ProviderPayment) (source : String) (reference : Option String)
      (w w' : World O)
      → sync hooks pp source reference w ≡ ok w'
      → ((same (from_provider pp.status) w.payment.status
              || not (can_transition w.payment.status (from_provider pp.status))
            ≡ true)
          × (with_attempt pp w ≡ w'))
        ⊎ News hooks pp source reference w w'
  unfolding sync with_attempt
  sync-cases hooks pp source reference w w' h =
      elim (Bool-cases (
        same (from_provider pp.status) w.payment.status
        || not (can_transition w.payment.status (from_provider pp.status)))) [
          | inl stale ↦ inl (stale, ok-inj (with_attempt pp w) w' (sym (if_true _ _ stale) ∙ h))
          | inr news ↦
              let (ready, e, h1) =
                bind-eq-ok (prepare hooks (from_provider pp.status) pp (with_attempt pp w)) _
                  (sym (if_false _ _ news) ∙ h) in
              inr (record { ready = ready; allowed = news_test _ _ news; prepared = e; went = h1 })
        ]

  ok_of : (x w : World O) → x ≡ w → ◌≡◌ {A = Result (World O)} (ok x) (ok w)
  ok_of x w e = cc

  -- A second report of the same status finds nothing to do.
  settles :
      (hooks : Hooks O) (pp : ProviderPayment) (source : String) (reference : Option String)
      (w : World O)
      → same (from_provider pp.status) w.payment.status
          || not (can_transition w.payment.status (from_provider pp.status))
        ≡ true
      → reported pp w.attempt ≡ w.attempt
      → sync hooks pp source reference w ≡ ok w
  unfolding sync with_attempt
  settles hooks pp source reference w stale told =
      if_true _ _ stale
      ∙ ok_of (record w { attempt = reported pp w.attempt }) w
          (ap (λ (a : PaymentAttempt). record w { attempt = a }) told)

  -- A report that `Sync` has taken changes nothing when it comes again at once, with no other report
  -- in between, from whatever source.
  pub sync-replay :
      (hooks : Hooks O) (pp : ProviderPayment) (source source' : String)
      (reference reference' : Option String) (w w' : World O)
      → sync hooks pp source reference w ≡ ok w'
      → sync hooks pp source' reference' w' ≡ ok w'
  unfolding with_attempt
  sync-replay hooks pp source source' reference reference' w w' h =
      elim (sync-cases hooks pp source reference w w' h) [
        | inl (stale, is) ↦
            settles hooks pp source' reference' w'
              (subst
                (λ (x : World O).
                  same (from_provider pp.status) x.payment.status
                    || not (can_transition x.payment.status (from_provider pp.status))
                  ≡ true)
                is stale)
              (subst (λ (x : World O). reported pp x.attempt ≡ x.attempt) is
                (reported_twice pp w.attempt))
        | inr news ↦
            let went =
              transition-Went hooks (from_provider pp.status) source reference news.ready w'
                news.went in
            let kept =
              prepare-Keeps hooks (from_provider pp.status) pp (with_attempt pp w) news.ready
                news.prepared in
            let is : w'.attempt ≡ reported pp w.attempt = went.attempt ∙ kept.attempt in
            settles hooks pp source' reference' w'
              (or_true _ _ (
                ap (same (from_provider pp.status)) went.status
                ∙ same_refl (from_provider pp.status)))
              (ap (reported pp) is ∙ reported_twice pp w.attempt ∙ sym is)
      ]

  -- After any report that `Sync` takes, the entries of the history join up and lead to the payment's
  -- status, if they did before, and each is a transition that the state machine allows or records the
  -- same status again.
  pub sync-IsHistory :
      (hooks : Hooks O) (pp : ProviderPayment) (source : String) (reference : Option String)
      (w w' : World O)
      → sync hooks pp source reference w ≡ ok w'
      → IsHistory w.payment.status w.history
      → IsHistory w'.payment.status w'.history
  unfolding with_attempt
  sync-IsHistory hooks pp source reference w w' h past =
      elim (sync-cases hooks pp source reference w w' h) [
        | inl (stale, is) ↦ subst (λ (x : World O). IsHistory x.payment.status x.history) is past
        | inr news ↦
            let to = from_provider pp.status in
            let went = transition-Went hooks to source reference news.ready w' news.went in
            let kept = prepare-Keeps hooks to pp (with_attempt pp w) news.ready news.prepared in
            let before : IsHistory news.ready.payment.status news.ready.history =
              subst (λ s. IsHistory s news.ready.history) (sym kept.status)
                (subst (λ ts. IsHistory w.payment.status ts) (sym kept.history) past) in
            subst (λ s. IsHistory s w'.history) (sym went.status)
              (subst (λ ts. IsHistory to ts) (sym went.history) (refl, went.allowed, before))
      ]

  -- Telling of a capture: the order hook is not called, and only the status, the history and the
  -- outbox change.
  record Told (w w' : World O) : Type 0 where
    books : w'.books ≡ w.books
    application : w'.payment.application ≡ w.payment.application
    amount : w'.payment.captured_amount ≡ w.payment.captured_amount
