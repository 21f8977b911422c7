-- ===== src/Payment/Sync/Capture.antt =====
-- Where captured money goes.
use openpay.Base.{
  ℕ, ◌∷◌, ◌⊎◌, true, false, arith, ap, ◌≡◌, ◌∙◌, sym, refl, Bool, inl, inr, none, some, String, [],
  Bool-cases, if_true, if_false, subst,
}
use openpay.Base.Int.{ℤ}
use openpay.Errors.{
  Code, Result, ok, err, bind-eq-ok, or_fail, or_fail-some, not_found, internal,
  wallet_operation_denied,
}
use openpay.Ledger.Types.{Journal, Direction, debit, credit}
use openpay.Ledger.Store.{Store, AccountRow, get_journal}
use openpay.Ledger.Chart.{
  psp_receivable, psp_suspense, product_refunds_payable, find_account_by_code,
}
use openpay.Ledger.Post.{post_journal, no_check, new_row}
use openpay.Ledger.Post.Effect.{post_new-Stages}
use openpay.Ledger.Post.Correct.{post_journal-Answer}
use openpay.Wallet.Engine.Retry.{HasLeg, has_leg_iff, has_leg-posted}
use openpay.Product.{Product, find_product}
use openpay.Payment.Types.{PaymentApplication, Payment, ProviderPayment, OrderHook, Hooks, World}
use openpay.Payment.Sync.{
  capture_id, capture_journal, post, differs, is_order, is_denied, applied_as, with_capture,
  apply_order_capture, credited, apply_topup_capture, apply_capture,
}
use openpay.Payment.Sync.Laws.{Keeps, ok-inj}

-- A journal that this call posted: it is in the books under its external id, and has a leg that
-- debits the one account by the amount, and a leg that credits the other.
pub record IsNewlyBooked (x : String) (debited credited : AccountRow) (amount : ℤ) (j : Journal)
    (s s' : Store) : Type 0 where
  pub none_yet : get_journal x s ≡ none
  pub external_id : j.external_id ≡ x
  pub in_books : s'.journals ≡ record j { postings = [] } ∷ s.journals
  pub debit_leg : HasLeg debited.account.id debit amount j.postings
  pub credit_leg : HasLeg credited.account.id credit amount j.postings

-- Money stands in a journal from the provider's receivable to the account of a code, newly booked, or
-- the external id had been taken before and nothing changed.
pub record IsBooked (x provider code : String) (amount : ℤ) (s s' : Store) : Type 0 where
  pub receivable : AccountRow
  pub waiting : AccountRow
  pub journal : Journal
  pub from_provider : find_account_by_code (psp_receivable provider) s.accounts ≡ some receivable
  pub to_code : find_account_by_code code s.accounts ≡ some waiting
  pub booked :
      IsNewlyBooked x receivable waiting amount journal s s'
      ⊎ ((get_journal x s ≡ some journal) × (s' ≡ s))

post-IsBooked :
    (x : String) (p : Payment) (provider code : String) (amount : ℤ) (currency memo : String)
    (s s' : Store)
    → post x p provider code amount currency memo s ≡ ok s'
    → IsBooked x provider code amount s s'
unfolding post
post-IsBooked x p provider code amount currency memo s s' h =
    let (r, e0, h1) =
      bind-eq-ok (or_fail (find_account_by_code (psp_receivable provider) s.accounts) not_found) _
        h in
    let (c, e1, h2) = bind-eq-ok (or_fail (find_account_by_code code s.accounts) not_found) _ h1 in
    let j = capture_journal x p r.account.id c.account.id amount currency memo in
    let (out, e2, h3) = bind-eq-ok (post_journal [] no_check j s) _ h2 in
    let posting : post_journal [] no_check j s ≡ ok (out.0, out.1, s') =
      subst (λ (z : Store). post_journal [] no_check j s ≡ ok (out.0, out.1, z))
        (ok-inj out.2 s' h3) e2 in
    record {
      receivable = r;
      waiting = c;
      journal = out.1;
      from_provider = or_fail-some _ not_found r e0;
      to_code = or_fail-some _ not_found c e1;
      booked = (elim (post_journal-Answer [] no_check j s out.0 out.1 s' posting).2 [
        | inl (fresh, posted_new) ↦
            let (is_new, st) =
              post_new-Stages [] no_check (new_row j s) s out.0 out.1 s' posted_new in
            let posting' =
              subst (λ b. post_journal [] no_check j s ≡ ok (b, out.1, s')) is_new posting in
            let has : (i : ℕ) (d : Direction)
                → HasLeg i d amount j.postings
                → HasLeg i d amount out.1.postings =
              λ i d leg. (has_leg_iff i d amount out.1.postings).0 (
                has_leg-posted i d amount no_check j out.1 s s' posting'
                ∙ (has_leg_iff i d amount j.postings).1 leg) in
            inl (record {
              none_yet = fresh;
              external_id = ap (λ (k : Journal). k.external_id) st.journal;
              in_books =
                  ap (λ (z : Store). z.journals) st.store
                  ∙ ap (λ (k : Journal). record k { postings = [] } ∷ s.journals) (sym st.journal);
              debit_leg = has r.account.id debit (inl (refl, refl, refl));
              credit_leg = has c.account.id credit (inr (inl (refl, refl, refl)));
            })
        | inr (there, replay, unchanged) ↦ inr (there, unchanged)
      ]);
    }

denied_code : (c : Code) → is_denied c ≡ true → c ≡ wallet_operation_denied
denied_code c h = ground (arith, h)

module _ {O : Type 0} where
  -- Where captured money is, from what the wallet engine or the order engine answered: taken by one of
  -- them, whose books these are, or in a journal, owed back to the customer where they refused it, or
  -- in suspense where the provider's figures are not the payment's.
  pub data Landed (hooks : Hooks O) (pp : ProviderPayment) (w : World O)
      : PaymentApplication → Store → Type 0 where
    in_wallet :
        {s : Store} (o : O)
        → differs pp w.payment ≡ false
        → is_order w.payment.purpose ≡ false
        → hooks.fund
            (with_capture pp w).payment
            pp.amount
            w.attempt.provider
            (capture_id w.payment)
            w.orders
            w.books
          ≡ ok (o, s)
        → Landed hooks pp w PaymentApplication.applied s
    in_order :
        {s : Store} (hook : OrderHook O) (o : O)
        → differs pp w.payment ≡ false
        → is_order w.payment.purpose ≡ true
        → hooks.orders ≡ some hook
        → hook.capture_order (with_capture pp w).payment w.attempt.provider w.orders w.books
          ≡ ok (true, o, s)
        → Landed hooks pp w PaymentApplication.applied s
    wallet_refused :
        {s : Store} (product : Product)
        → find_product w.payment.product_id w.products ≡ some product
        → hooks.fund
            (with_capture pp w).payment
            pp.amount
            w.attempt.provider
            (capture_id w.payment)
            w.orders
            w.books
          ≡ err wallet_operation_denied
        → IsBooked
            (capture_id w.payment)
            w.attempt.provider
            (product_refunds_payable product.code)
            pp.amount
            w.books
            s
        → Landed hooks pp w PaymentApplication.unapplied s
    order_refused :
        {s : Store} (product : Product) (hook : OrderHook O) (o : O) (left : Store)
        → find_product w.payment.product_id w.products ≡ some product
        → hooks.orders ≡ some hook
        → hook.capture_order (with_capture pp w).payment w.attempt.provider w.orders w.books
          ≡ ok (false, o, left)
        → IsBooked
            (capture_id w.payment)
            w.attempt.provider
            (product_refunds_payable product.code)
            pp.amount
            left
            s
        → Landed hooks pp w PaymentApplication.unapplied s
    parked :
        {s : Store}
        → differs pp w.payment ≡ true
        → IsBooked
            (capture_id w.payment)
            w.attempt.provider
            (psp_suspense w.attempt.provider)
            pp.amount
            w.books
            s
        → Landed hooks pp w PaymentApplication.suspense s

  pub record Captured (hooks : Hooks O) (pp : ProviderPayment) (w w' : World O) : Type 0 where
    pub kept : Keeps w w'
    pub amount : w'.payment.captured_amount ≡ some pp.amount
    pub landed : Landed hooks pp w w'.payment.application w'.books

  kept_apart :
      (w w' : World O)
      → w'.payment.status ≡ w.payment.status
      → w'.history ≡ w.history
      → w'.attempt ≡ w.attempt
      → Keeps w w'
  kept_apart w w' a b c = record { status = a; history = b; attempt = c }

  refused : {w' : World O} (c : Code) → ◌≡◌ {A = Result (World O)} (err c) (ok w') → ⊥
  refused c e = cc

  Captured-of_eq :
      (hooks : Hooks O) (pp : ProviderPayment) (w x w' : World O)
      → Captured hooks pp w x
      → ◌≡◌ {A = Result (World O)} (ok x) (ok w')
      → Captured hooks pp w w'
  Captured-of_eq hooks pp w x w' k e = subst (Captured hooks pp w) (ok-inj x w' e) k

  module _ (hooks : Hooks O) (pp : ProviderPayment) (w w' : World O) (product : Product)
      (sold : find_product w.payment.product_id w.products ≡ some product)
      (agreed : differs pp w.payment ≡ false) where
    apply_order_capture-Captured :
        is_order w.payment.purpose ≡ true
        → apply_order_capture hooks product pp (with_capture pp w) ≡ ok w'
        → Captured hooks pp w w'
    unfolding apply_order_capture
    apply_order_capture-Captured purchase h =
        let (hook, e0, h1) = bind-eq-ok (or_fail hooks.orders internal) _ h in
        let there = or_fail-some hooks.orders internal hook e0 in
        let v = with_capture pp w in
        let (out, e1, h2) =
          bind-eq-ok (hook.capture_order v.payment v.attempt.provider v.orders v.books) _ h1 in
        let answer = λ (b : Bool) (e : out.0 ≡ b).
          subst
            (λ b.
              hook.capture_order v.payment v.attempt.provider v.orders v.books
              ≡ ok (b, out.1, out.2))
            e e1 in
        elim (Bool-cases (out.0)) [
          | inl taken ↦
              Captured-of_eq hooks pp w
                (applied_as PaymentApplication.applied (out.2)
                  (record v { orders = out.1; books = out.2 }))
                w'
                (record {
                  kept = kept_apart _ _ refl refl refl;
                  amount = refl;
                  landed = in_order hook (out.1) agreed purchase there (answer true taken);
                })
                (sym (if_true _ _ taken) ∙ h2)
          | inr declined ↦
              let (s, e2, h3) =
                bind-eq-ok
                  (post (capture_id w.payment) v.payment v.attempt.provider
                    (product_refunds_payable product.code) pp.amount pp.currency
                    "order could not take the payment" (out.2))
                  _ (sym (if_false _ _ declined) ∙ h2) in
              Captured-of_eq hooks pp w
                (applied_as PaymentApplication.unapplied s
                  (record v { orders = out.1; books = out.2 }))
                w'
                (record {
                  kept = kept_apart _ _ refl refl refl;
                  amount = refl;
                  landed =
                      order_refused product hook (out.1) (out.2) sold there (answer false declined)
                        (post-IsBooked (capture_id w.payment) v.payment v.attempt.provider _
                          pp.amount pp.currency _ (out.2) s e2);
                })
                h3
        ]

    credited-Captured :
        is_order w.payment.purpose ≡ false
        → (credit : Result (O × Store))
        → hooks.fund
            (with_capture pp w).payment
            pp.amount
            w.attempt.provider
            (capture_id w.payment)
            w.orders
            w.books
          ≡ credit
        → credited credit
            (post
              (capture_id w.payment)
              (with_capture pp w).payment
              w.attempt.provider
              (product_refunds_payable product.code)
              pp.amount
              pp.currency
              "wallet refused the credit"
              w.books)
            (with_capture pp w)
          ≡ ok w'
        → Captured hooks pp w w'
    unfolding credited
    credited-Captured topup (ok b) funding h =
        Captured-of_eq hooks pp w
          (record (applied_as PaymentApplication.applied (b.1) (with_capture pp w)) {
            orders = b.0;
          })
          w'
          (record {
            kept = kept_apart _ _ refl refl refl;
            amount = refl;
            landed = in_wallet (b.0) agreed topup funding;
          })
          h
    credited-Captured topup (err c) funding h = elim (Bool-cases (is_denied c)) [
      | inl denied ↦
          let (s, e2, h3) =
            bind-eq-ok
              (post (capture_id w.payment) (with_capture pp w).payment w.attempt.provider
                (product_refunds_payable product.code) pp.amount pp.currency
                "wallet refused the credit" w.books)
              _ (sym (if_true _ _ denied) ∙ h) in
          Captured-of_eq hooks pp w (applied_as PaymentApplication.unapplied s (with_capture pp w))
            w'
            (record {
              kept = kept_apart _ _ refl refl refl;
              amount = refl;
              landed = wallet_refused product sold (funding ∙ ap err (denied_code c denied)) (
                  post-IsBooked (capture_id w.payment) (with_capture pp w).payment
                    w.attempt.provider _ pp.amount pp.currency _ w.books s e2);
            })
            h3
      | inr other ↦ absurd (refused c (sym (if_false _ _ other) ∙ h))
    ]

  pub apply_capture-Captured :
      (hooks : Hooks O) (pp : ProviderPayment) (w w' : World O)
      → apply_capture hooks pp w ≡ ok w'
      → Captured hooks pp w w'
  unfolding apply_capture apply_topup_capture
  apply_capture-Captured hooks pp w w' h =
      let v = with_capture pp w in
      let (product, e0, h1) =
        bind-eq-ok (or_fail (find_product w.payment.product_id w.products) not_found) _ h in
      let sold = or_fail-some _ not_found product e0 in
      elim (Bool-cases (differs pp v.payment)) [
        | inl other ↦
            let (s, e2, h3) =
              bind-eq-ok
                (post (capture_id w.payment) v.payment v.attempt.provider
                  (psp_suspense v.attempt.provider) pp.amount pp.currency
                  "provider amount differs from the payment's" v.books)
                _ (sym (if_true _ _ other) ∙ h1) in
            Captured-of_eq hooks pp w (applied_as PaymentApplication.suspense s v) w'
              (record {
                kept = kept_apart _ _ refl refl refl;
                amount = refl;
                landed = parked (unfold differs in other) (
                    post-IsBooked (capture_id w.payment) v.payment v.attempt.provider _ pp.amount
                      pp.currency _ v.books s e2);
              })
              h3
        | inr agreed ↦
            let h2 = sym (if_false _ _ agreed) ∙ h1 in
            elim (Bool-cases (is_order v.payment.purpose)) [
              | inl purchase ↦
                  apply_order_capture-Captured hooks pp w w' product sold (unfold differs in agreed)
                    purchase (sym (if_true _ _ purchase) ∙ h2)
              | inr topup ↦
                  credited-Captured hooks pp w w' product sold (unfold differs in agreed) topup _
                    refl (sym (if_false _ _ topup) ∙ h2)
            ]
      ]
