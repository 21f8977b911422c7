-- ===== src/Payment/Dispute/Steps.antt =====
-- The steps of opening a dispute, from the charge on the wallet to the end.
use openpay.Base.{
  ℕ, ◌≡◌, ◌∙◌, sym, ap, refl, subst, Bool, true, false, not, ◌&&◌, ◌⊎◌, inl, inr, Option, none,
  some, String, [], arith, if◌then◌else◌, if_true, if_false, some-eq, Bool-cases,
}
use openpay.Base.Int.{ℤ, pos, ◌≤ℤ◌, ltb_ℤ}
use openpay.Errors.{ok, bind-eq-ok, fail_if, or_fail, not_found, failed_precondition}
use openpay.Ledger.Types.{AccountType, JournalKind, debit, available}
use openpay.Ledger.Store.{AccountRow, Store, find_account, get_journal}
use openpay.Ledger.Chart.{find_account_by_code}
use openpay.Ledger.Post.{post_journal, no_check}
use openpay.Wallet.Types.{Wallet, SpendRequest}
use openpay.Wallet.Policy.{Operation}
use openpay.Wallet.Limits.{unlimited, check_limits_after_posting}
use openpay.Wallet.Engine.{chargeback_out, move_journal}
use openpay.Wallet.Engine.Laws.{post-Posted, Posted-new}
use openpay.Wallet.Engine.Effects.{move-stages}
use openpay.Payment.State.{PaymentStatus, can_transition, same}
use openpay.Payment.Types.{PaymentApplication, Payment, OrderHook, Hooks, World}
use openpay.Payment.Sync.{tell_order, emit, moved, transition}
use openpay.Payment.Tables.{Dispute, Tables, wallet_world}
use openpay.Payment.Refund.{Desk, payment_wallet, post_between, between_journal}
use openpay.Payment.Dispute.Laws.{same_ok}
use openpay.Payment.Dispute.{
  is_applied, dispute_leg, spendable_of, charge_wallet, charge_if, move_part,
}
use openpay.Payment.Dispute.Posted.{
  IsIn, Grows, post_journal-Grows, post_journal-IsPosted, IsCharged,
}

nothing_or_some : (a : ℤ) → pos 0 ≤ℤ a → (a ≡ pos 0) ⊎ (ltb_ℤ (pos 0) a ≡ true)
nothing_or_some a h = elim (Bool-cases (ltb_ℤ (pos 0) a)) [
  | inl some_taken ↦ inr some_taken
  | inr none_taken ↦ inl (ground (arith, h, none_taken))
]

module _ {O : Type 0} where
  tells_nothing :
      (hook : Option (OrderHook O)) (w told : World O)
      → tell_order hook PaymentStatus.disputed w ≡ ok told
      → w ≡ told
  unfolding tell_order
  tells_nothing none w told h = same_ok w told h
  tells_nothing (some hook) w told h = same_ok w told (sym (if_false _ _ (and_false _)) ∙ h)
    where
      and_false : (b : Bool) → b && false ≡ false
      and_false true = refl
      and_false false = refl

  emit-books : (w : World O) → (emit PaymentStatus.disputed w).books ≡ w.books
  unfolding emit
  emit-books w = refl

  transition-books :
      (hooks : Hooks O) (source : String) (reference : Option String) (w w' : World O)
      → transition hooks PaymentStatus.disputed source reference w ≡ ok w'
      → w'.books ≡ w.books
  unfolding transition
  transition-books hooks source reference w w' h =
      let (u, test, h1) =
        bind-eq-ok
          (fail_if
            (not (same w.payment.status PaymentStatus.disputed)
              && not (can_transition w.payment.status PaymentStatus.disputed))
            failed_precondition)
          _ h in
      let (told, telling, h2) =
        bind-eq-ok
          (tell_order hooks.orders PaymentStatus.disputed
            (moved PaymentStatus.disputed source reference w))
          _ h1 in
      ap (λ (x : World O). x.books) (sym (same_ok _ w' h2))
      ∙ emit-books told
      ∙ ap (λ (x : World O). x.books) (sym (tells_nothing hooks.orders _ told telling))

  move_part-Grows :
      (desk : Desk O) (b : Bool) (external : String) (kind : JournalKind) (p : Payment)
      (from to : String) (amount : ℤ) (currency memo : String) (reverses : Option ℕ)
      (x y : Tables O)
      → (if b then move_part desk external kind p from to amount currency memo reverses x else ok x)
        ≡ ok y
      → Grows x.base.books y.base.books
  unfolding move_part post_between
  move_part-Grows desk false external kind p from to amount currency memo reverses x y h =
      λ k there. subst (λ (z : Tables O). IsIn k z.base.books.journals) (same_ok x y h) there
  move_part-Grows desk true external kind p from to amount currency memo reverses x y h =
      let (s, e, h1) =
        bind-eq-ok (post_between external kind p from to amount currency memo reverses x.base.books)
          _ h in
      let (a, e1, h2) =
        bind-eq-ok (or_fail (find_account_by_code from x.base.books.accounts) not_found) _ e in
      let (c, e2, h3) =
        bind-eq-ok (or_fail (find_account_by_code to x.base.books.accounts) not_found) _ h2 in
      let (out, e3, h4) =
        bind-eq-ok
          (post_journal [] no_check
            (between_journal external kind p a.account.id c.account.id amount currency memo
              reverses)
            x.base.books)
          _ h3 in
      λ k there.
        subst (λ (z : Tables O). IsIn k z.base.books.journals) (same_ok _ y h1)
          (subst (λ (z : Store). IsIn k z.journals) (same_ok _ s h4)
            (post_journal-Grows no_check _ x.base.books out.0 out.1 out.2 e3 k there))

  charge_wallet-IsCharged :
      (desk : Desk O) (d : Dispute) (p : Payment) (wallet : Wallet) (disputed : String)
      (x y : Tables O)
      → get_journal (dispute_leg d "wallet") x.base.books ≡ none
      → charge_wallet desk d p wallet disputed x ≡ ok y
      → IsCharged (dispute_leg d "wallet") wallet.ledger_account_id d.from_wallet y.base.books
  unfolding charge_wallet chargeback_out
  charge_wallet-IsCharged desk d p wallet disputed x y new h =
      let r : SpendRequest = record {
        wallet = wallet;
        amount = d.from_wallet;
        counter_account_code = disputed;
        product_id = p.product_id;
        kind = JournalKind.adjustment;
        external_id = dispute_leg d "wallet";
      } in
      let (out, e, h1) =
        bind-eq-ok (chargeback_out desk.clock desk.limits r (wallet_world x)) _ h in
      let (t, row, named, posting) =
        move-stages desk.clock desk.limits r Operation.chargeback debit none (wallet_world x) out.0
          out.1 e in
      let j = move_journal desk.clock desk.limits r t row debit none in
      let p =
        post-Posted desk.clock desk.limits j wallet debit d.from_wallet unlimited []
          (wallet_world x) out.0 out.1 posting in
      let (fresh, told) =
        Posted-new desk.clock desk.limits j wallet debit d.from_wallet unlimited [] (wallet_world x)
          out.0 out.1 p new in
      let posted =
        post_journal-IsPosted
          (check_limits_after_posting desk.clock desk.limits (wallet_world x) unlimited) j
          x.base.books out.0 out.1.books fresh in
      record {
        journal = posted.row;
        external_id = posted.external_id;
        there =
            subst
              (λ (z : Tables O). IsIn (record posted.row { postings = [] }) z.base.books.journals)
              (same_ok _ y h1) posted.there;
        leg = posted.legs wallet.ledger_account_id debit d.from_wallet (inl (refl, refl, refl));
      }

  charge_if-IsCharged :
      (desk : Desk O) (b : Bool) (wallet : Option Wallet) (owner : Wallet) (d : Dispute)
      (p : Payment) (disputed : String) (x y : Tables O)
      → wallet ≡ some owner
      → b ≡ true
      → get_journal (dispute_leg d "wallet") x.base.books ≡ none
      → charge_if desk b wallet d p disputed x ≡ ok y
      → IsCharged (dispute_leg d "wallet") owner.ledger_account_id d.from_wallet y.base.books
  unfolding charge_if
  charge_if-IsCharged desk false wallet owner d p disputed x y is needed new h =
      absurd (clash needed)
    where
      clash : false ≡ true → ⊥
      clash e = cc
  charge_if-IsCharged desk true none owner d p disputed x y is needed new h = absurd (missing is)
    where
      missing : none ≡ some owner → ⊥
      missing e = cc
  charge_if-IsCharged desk true (some wallet) owner d p disputed x y is needed new h =
      subst
        (λ (z : Wallet).
          IsCharged (dispute_leg d "wallet") z.ledger_account_id d.from_wallet y.base.books)
        (some-eq wallet owner is) (charge_wallet-IsCharged desk d p wallet disputed x y new h)

  -- The steps of a dispute, from the charge on the wallet to the end.
  pub steps-IsCharged :
      (desk : Desk O) (e : Dispute) (p : Payment) (wallet : Option Wallet) (owner : Wallet)
      (payable chargebacks disputed : String) (a b f g : Tables O) (m : World O)
      → wallet ≡ some owner
      → pos 0 ≤ℤ e.from_wallet
      → get_journal (dispute_leg e "wallet") a.base.books ≡ none
      → charge_if desk (ltb_ℤ (pos 0) e.from_wallet) wallet e p disputed a ≡ ok b
      → (if ltb_ℤ (pos 0) e.from_unapplied
          then move_part desk
              (dispute_leg e "unapplied")
              JournalKind.adjustment
              p
              payable
              disputed
              e.from_unapplied
              e.currency
              "chargeback opened: owed-back money held"
              none
              b
          else ok b)
        ≡ ok f
      → (if ltb_ℤ (pos 0) e.from_expense
          then move_part desk
              (dispute_leg e "expense")
              JournalKind.adjustment
              p
              chargebacks
              disputed
              e.from_expense
              e.currency
              "chargeback opened: customer had already spent this"
              none
              f
          else ok f)
        ≡ ok g
      → transition desk.hooks PaymentStatus.disputed "webhook" (some e.public_id) g.base ≡ ok m
      → (e.from_wallet ≡ pos 0)
        ⊎ IsCharged (dispute_leg e "wallet") owner.ledger_account_id e.from_wallet m.books
  steps-IsCharged desk e p wallet owner payable chargebacks disputed a b f g m is natural new
        charging from_unapplied from_expense moving =
      elim (nothing_or_some e.from_wallet natural) [
        | inl nothing ↦ inl nothing
        | inr needed ↦
            let k =
              charge_if-IsCharged desk (ltb_ℤ (pos 0) e.from_wallet) wallet owner e p disputed a b
                is needed new charging in
            inr (record {
              journal = k.journal;
              external_id = k.external_id;
              there =
                  subst (λ (z : Store). IsIn (record (k.journal) { postings = [] }) z.journals)
                    (sym (transition-books desk.hooks "webhook" (some e.public_id) g.base m moving))
                    (move_part-Grows desk (ltb_ℤ (pos 0) e.from_expense) (dispute_leg e "expense")
                      JournalKind.adjustment p chargebacks disputed e.from_expense e.currency
                      "chargeback opened: customer had already spent this" none f g from_expense
                      (record (k.journal) { postings = [] })
                      (move_part-Grows desk (ltb_ℤ (pos 0) e.from_unapplied)
                        (dispute_leg e "unapplied") JournalKind.adjustment p payable disputed
                        e.from_unapplied e.currency "chargeback opened: owed-back money held" none b
                        f from_unapplied (record (k.journal) { postings = [] }) k.there));
              leg = k.leg;
            })
      ]

  pub spendable_of-applied :
      (desk : Desk O) (p : Payment) (x : Tables O) (wallet : Wallet) (row : AccountRow)
      → p.application ≡ PaymentApplication.applied
      → payment_wallet p x ≡ ok wallet
      → find_account wallet.ledger_account_id x.base.books.accounts ≡ some row
      → spendable_of desk p x ≡ ok (some wallet, available row.balance AccountType.liability)
  unfolding spendable_of
  spendable_of-applied desk p x wallet row applied named found =
      if_true _ _ (ap is_applied applied) ∙ rw (named, found) refl
