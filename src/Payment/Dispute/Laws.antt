-- ===== src/Payment/Dispute/Laws.antt =====
-- Where contested money is taken from.
use openpay.Base.{◌<◌, ◌≡◌, sym, ap, not, ◌||◌, arith, if◌then◌else◌}
use openpay.Base.Int.{ℤ, pos, pos_part, ◌+ℤ◌, ◌-ℤ◌, ◌≤ℤ◌, ltb_ℤ, leb_ℤ, eqb_ℤ, int_laws}
use openpay.Base.Int64.{half}
use openpay.Errors.{Result, ok, bind-eq-ok, fail_if, fail_if-passes, internal, already_exists}
use openpay.Payment.Tables.{Dispute, Tables}
use openpay.Payment.Refund.{Desk}
use openpay.Payment.Refund.Accounts.{sub64_within}
use openpay.Payment.Dispute.{smaller, larger, outstanding, has_ref, insert_dispute}

pub smaller-le : (a b : ℤ) → (smaller a b ≤ℤ a) × (smaller a b ≤ℤ b)
unfolding smaller
smaller-le a b = ground arith

pub outstanding-eq :
    (captured refunded : ℤ)
    → pos 0 ≤ℤ refunded
    → refunded ≤ℤ captured
    → pos_part captured < half
    → outstanding captured refunded ≡ captured -ℤ refunded
unfolding larger
outstanding-eq captured refunded p q r =
    let e = sub64_within captured refunded r p q in
    rw e (above (captured -ℤ refunded) (omega int_laws))
  where
    above : (a : ℤ) → pos 0 ≤ℤ a → (if ltb_ℤ a (pos 0) then pos 0 else a) ≡ a
    above a h = ground arith

pub same_ok : {A : Type 0} (x y : A) → ◌≡◌ {A = Result A} (ok x) (ok y) → x ≡ y
same_ok x y e = cc

module _ {O : Type 0} (desk : Desk O) where
  pub insert_dispute-parts :
      (d : Dispute) (x y : Tables O)
      → insert_dispute desk d x ≡ ok y
      → (pos 0 ≤ℤ d.from_wallet)
        × (pos 0 ≤ℤ d.from_unapplied)
        × (pos 0 ≤ℤ d.from_expense)
        × ((d.from_wallet +ℤ d.from_unapplied) +ℤ d.from_expense ≡ d.amount)
        × (y.base ≡ x.base)
  unfolding insert_dispute
  insert_dispute-parts d x y h =
      let (u, _, h1) =
        bind-eq-ok (fail_if (has_ref d.provider d.provider_dispute_id x.disputes) already_exists) _
          h in
      let (v, parts, h2) =
        bind-eq-ok
          (fail_if
            (leb_ℤ d.amount (pos 0)
              || (ltb_ℤ d.from_wallet (pos 0)
                  || (ltb_ℤ d.from_unapplied (pos 0)
                      || (ltb_ℤ d.from_expense (pos 0)
                          || not (
                              eqb_ℤ ((d.from_wallet +ℤ d.from_unapplied) +ℤ d.from_expense)
                                d.amount)))))
            internal)
          _ h1 in
      let passes = fail_if-passes _ internal v parts in
      (
        ground (arith, passes),
        ground (arith, passes),
        ground (arith, passes),
        ground (arith, passes),
        ap (λ (z : Tables O). z.base) (sym (same_ok _ y h2)),
      )
