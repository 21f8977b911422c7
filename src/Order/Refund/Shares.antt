-- ===== src/Order/Refund/Shares.antt =====
-- A refund's split and its shares add up.
use openpay.Base.{
  refl, Bool, not, Option, none, some, String, ◌⊎◌, ◌<◌, ◌≡◌, ◌∙◌, sym, ap, true, false, ◌↔◌, inl,
  inr, List, [], ◌∷◌, All, arith, subst,
}
use openpay.Base.Int.{ℤ, pos, magnitude, eqb_ℤ, ◌≤ℤ◌, ◌<ℤ◌, eqb_ℤ_iff}
use openpay.Base.Int64.{half}
use openpay.Errors.{
  Result, ok, bind-eq-ok, fail_if, fail_if-passes, or_fail, or_fail-some, internal, not_found,
  failed_precondition,
}
use openpay.Wallet.Types.{Wallet, World}
use openpay.Wallet.Expiry.{find_wallet, check_refund_in}
use openpay.Order.Refund.Taken.{
  IsTender, IsPart, part_sum, left_sum, take_from-Taken, within_left, whole_sum,
}
use openpay.Order.Refund.{
  TenderKind, Tender, Part, take_from, accept_wallet, accept_part, accept_parts, accept_whole,
  refund_shares,
}

-- A part's wallet, where one gets it back, takes it.
abbrev pub IsAccepted : World → Part → Type 0
IsAccepted w p =
    (p.tender.kind ≡ TenderKind.gateway)
    ⊎ ((i : String) × (wallet : Wallet) × (p.tender.wallet_public_id ≡ some i)
        × (find_wallet i w.wallets ≡ some wallet)
        × (check_refund_in wallet p.take w ≡ ok tt))

-- The refund has wallets that take it: the store credit's, of the whole, or of each share its tender's.
abbrev pub CanGoTo : Option Wallet → World → ℤ → List Part → Type 0
CanGoTo none w amount ps = All (IsAccepted w) ps
CanGoTo (some store_credit) w amount ps = check_refund_in store_credit amount w ≡ ok tt

accept_wallet_iff :
    (x : Option String) (take : ℤ) (w : World)
    → (accept_wallet x take w ≡ ok tt) ↔ (
        (i : String) × (wallet : Wallet) × (x ≡ some i)
        × (find_wallet i w.wallets ≡ some wallet)
        × (check_refund_in wallet take w ≡ ok tt))
unfolding accept_wallet
accept_wallet_iff x take w = (
  λ h.
      let (i, e0, h1) = bind-eq-ok (or_fail x internal) _ h in
      let (wallet, e1, h2) = bind-eq-ok (or_fail (find_wallet i w.wallets) not_found) _ h1 in
      (i, wallet, or_fail-some x internal i e0, or_fail-some _ not_found wallet e1, h2),
  λ (i, wallet, named, found, takes). rw (named, found) takes,
)

accept_part_iff : (w : World) (p : Part) → (accept_part none w p ≡ ok tt) ↔ IsAccepted w p
unfolding accept_part
accept_part_iff w p = by_kind p.tender.kind
  where
    never : TenderKind.wallet ≡ TenderKind.gateway → ⊥
    never e = cc

    by_kind :
        (k : TenderKind)
        → ((elim k [
          | TenderKind.wallet ↦ accept_wallet p.tender.wallet_public_id p.take w
          | TenderKind.gateway ↦ ok tt
        ])
            ≡ ok tt)
          ↔ ((k ≡ TenderKind.gateway)
              ⊎ ((i : String) × (wallet : Wallet) × (p.tender.wallet_public_id ≡ some i)
                  × (find_wallet i w.wallets ≡ some wallet)
                  × (check_refund_in wallet p.take w ≡ ok tt)))
    by_kind TenderKind.gateway = (λ h. inl refl, λ h. refl)
    by_kind TenderKind.wallet =
        let known = accept_wallet_iff p.tender.wallet_public_id p.take w in
        (λ h. inr (known.0 h), λ h. elim h [ inl e ↦ absurd (never e) | inr k ↦ known.1 k ])

accept_parts_iff :
    (w : World) (ps : List Part) → (accept_parts none w ps ≡ ok tt) ↔ All (IsAccepted w) ps
unfolding accept_parts
accept_parts_iff w [] = (λ h. tt, λ h. refl)
accept_parts_iff w (p ∷ ps) =
    let this = accept_part_iff w p in
    let rest = accept_parts_iff w ps in
    (
      λ h. let (u, e, h1) = bind-eq-ok (accept_part none w p) _ h in (this.0 e, rest.0 h1),
      λ (a, more). rw (this.1 a) (rest.1 more),
    )

accept_parts-store_credit :
    (store_credit : Wallet) (w : World) (ps : List Part)
    → accept_parts (some store_credit) w ps ≡ ok tt
unfolding accept_parts accept_part
accept_parts-store_credit store_credit w [] = refl
accept_parts-store_credit store_credit w (p ∷ ps) = accept_parts-store_credit store_credit w ps

accepted_iff :
    (store_credit : Option Wallet) (w : World) (amount : ℤ) (ps : List Part)
    → ((accept_parts store_credit w ps ≡ ok tt) × (accept_whole store_credit amount w ≡ ok tt))
      ↔ CanGoTo store_credit w amount ps
unfolding accept_whole
accepted_iff none w amount ps =
    let known = accept_parts_iff w ps in (λ (a, b). known.0 a, λ h. (known.1 h, refl))
accepted_iff (some store_credit) w amount ps =
    (λ (a, b). b, λ h. (accept_parts-store_credit store_credit w ps, h))

same_ok : {A : Type 0} (x y : A) → ◌≡◌ {A = Result A} (ok x) (ok y) → x ≡ y
same_ok x y e = cc

-- What a refund that is split came through.
record Split (store_credit : Option Wallet) (w : World) (r : ℤ) (ts : List Tender) (ps : List Part)
    : Type 0 where
  accepted : accept_parts store_credit w (take_from r ts).0 ≡ ok tt
  whole : accept_whole store_credit r w ≡ ok tt
  nothing_over : eqb_ℤ ((take_from r ts).1) (pos 0) ≡ true
  parts : (take_from r ts).0 ≡ ps

refund_shares-Split :
    (store_credit : Option Wallet) (w : World) (r : ℤ) (ts : List Tender) (ps : List Part)
    → refund_shares store_credit w r ts ≡ ok ps
    → Split store_credit w r ts ps
unfolding refund_shares
refund_shares-Split store_credit w r ts ps h =
    let (a, e0, h1) = bind-eq-ok (accept_parts store_credit w (take_from r ts).0) _ h in
    let (b, e1, h2) =
      bind-eq-ok (fail_if (not (eqb_ℤ ((take_from r ts).1) (pos 0))) failed_precondition) _ h1 in
    let (c, e2, h3) = bind-eq-ok (accept_whole store_credit r w) _ h2 in
    record {
      accepted = e0;
      whole = e2;
      nothing_over = flip _ (fail_if-passes _ failed_precondition b e1);
      parts = same_ok _ ps h3;
    }
  where
    flip : (b : Bool) → not b ≡ false → b ≡ true
    flip b h = ground (arith, h)

-- A refund of a positive amount is split over the tenders, in their order, exactly when they can still
-- give it back and every wallet that would get money takes it: the store credit's the whole, where
-- the refund goes there, and otherwise each wallet tender's its share.
pub refund_shares_iff :
    (store_credit : Option Wallet) (w : World) (r : ℤ) (ts : List Tender)
    → pos 0 <ℤ r
    → magnitude r < half
    → All IsTender ts
    → ((ps : List Part) × (refund_shares store_credit w r ts ≡ ok ps))
      ↔ ((r ≤ℤ left_sum ts) × CanGoTo store_credit w r (take_from r ts).0)
unfolding refund_shares
refund_shares_iff store_credit w r ts p b g =
    let k = take_from-Taken r ts p b g in
    let takes = accepted_iff store_credit w r (take_from r ts).0 in
    (
      λ (ps, e).
          let split = refund_shares-Split store_credit w r ts ps e in
          (
            within_left r (part_sum (take_from r ts).0) ((take_from r ts).1) (left_sum ts) k.total
                ((eqb_ℤ_iff _ (pos 0)).0 split.nothing_over) k.within,
            takes.0 (split.accepted, split.whole),
          ),
      λ (h, can).
          let (parts, whole) = takes.1 can in
          let over = (eqb_ℤ_iff ((take_from r ts).1) (pos 0)).1 (k.enough h) in
          ((take_from r ts).0, rw (parts, over, whole) refl),
    )

-- The parts that a refund is split into add up to its amount, and each takes something from its
-- tender and leaves it refunded by no more than it paid.
pub refund_shares-total :
    (store_credit : Option Wallet) (w : World) (r : ℤ) (ts : List Tender) (ps : List Part)
    → pos 0 <ℤ r
    → magnitude r < half
    → All IsTender ts
    → refund_shares store_credit w r ts ≡ ok ps
    → (part_sum ps ≡ r) × All IsPart ps
refund_shares-total store_credit w r ts ps p b g e =
    let k = take_from-Taken r ts p b g in
    let split = refund_shares-Split store_credit w r ts ps e in
    (
      ap part_sum (sym split.parts)
          ∙ whole_sum r _ _ k.total ((eqb_ℤ_iff ((take_from r ts).1) (pos 0)).0 split.nothing_over),
      subst (All IsPart) split.parts k.fair,
    )
