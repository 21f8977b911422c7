-- ===== src/Wallet/Policy/Laws.antt =====
-- What a wallet's policy lets through.
use openpay.Base.{
  ap, sym, refl, Bool-cases, ◌≡◌, ◌≢◌, ◌↔◌, ◌⊎◌, inl, inr, Bool, true, false, ◌&&◌, not, Option,
  none, some, arith,
}
use openpay.Base.Int.{ℤ, pos, ◌≤ℤ◌, ◌<ℤ◌}
use openpay.Errors.{ok}
use openpay.Wallet.Policy.{
  Operation, WalletStatus, WalletType, is_active, bypasses, capable, is_withdraw, is_refund, below,
  above, assert_allowed,
}

-- Does a capability of the type stand against the operation, by the capability's own account?
pub record IsPermitted (t : WalletType) (op : Operation) : Type 0 where
  pub funded : op ≡ Operation.fund → t.fundable ≡ true
  pub granted : op ≡ Operation.grant → t.grantable ≡ true
  pub withdrawn : op ≡ Operation.withdraw → t.withdrawable ≡ true
  pub sent : op ≡ Operation.transfer_out → t.transferable ≡ true
  pub received : op ≡ Operation.transfer_in → t.transferable ≡ true
  pub refunded : op ≡ Operation.refund_in → t.refundable_to_source ≡ true

abbrev pub AtLeast : ℤ → Option ℤ → Type 0
AtLeast amount none = Unit
AtLeast amount (some least) = least ≤ℤ amount

abbrev pub AtMost : ℤ → Option ℤ → Type 0
AtMost amount none = Unit
AtMost amount (some most) = amount ≤ℤ most

-- The rules for an operation that a customer asks for.
pub record IsWithinRules (t : WalletType) (status : WalletStatus) (op : Operation) (amount : ℤ)
    : Type 0 where
  pub open_wallet : status ≡ WalletStatus.active
  pub permitted : IsPermitted t op
  pub least : op ≡ Operation.withdraw → AtLeast amount t.min_withdrawal_amount
  pub most : op ≢ Operation.refund_in → op ≢ Operation.refund_out → AtMost amount t.max_txn_amount

capable-IsPermitted : (t : WalletType) (op : Operation) → capable t op ≡ true → IsPermitted t op
unfolding capable
capable-IsPermitted t op h = record {
  funded = λ e. rw e at h;
  granted = λ e. rw e at h;
  withdrawn = λ e. rw e at h;
  sent = λ e. rw e at h;
  received = λ e. rw e at h;
  refunded = λ e. rw e at h;
}

IsPermitted-capable :
    (t : WalletType) (op : Operation) → bypasses op ≡ false → IsPermitted t op → capable t op ≡ true
unfolding capable
IsPermitted-capable t Operation.fund b p = p.funded refl
IsPermitted-capable t Operation.grant b p = p.granted refl
IsPermitted-capable t Operation.withdraw b p = p.withdrawn refl
IsPermitted-capable t Operation.transfer_out b p = p.sent refl
IsPermitted-capable t Operation.transfer_in b p = p.received refl
IsPermitted-capable t Operation.refund_in b p = p.refunded refl
IsPermitted-capable t Operation.spend b p = refl
IsPermitted-capable t Operation.hold b p = refl
IsPermitted-capable t Operation.refund_out b p = refl
IsPermitted-capable t Operation.restore b p = sym b
IsPermitted-capable t Operation.chargeback b p = sym b
IsPermitted-capable t Operation.adjust b p = sym b

AtLeast-iff : (amount : ℤ) (o : Option ℤ) → (below amount o ≡ false) ↔ AtLeast amount o
AtLeast-iff amount none = (λ h. tt, λ h. refl)
AtLeast-iff amount (some least) = (λ h. ground (arith, h), λ h. ground (arith, h))

AtMost-iff : (amount : ℤ) (o : Option ℤ) → (above amount o ≡ false) ↔ AtMost amount o
AtMost-iff amount none = (λ h. tt, λ h. refl)
AtMost-iff amount (some most) = (λ h. ground (arith, h), λ h. ground (arith, h))

is_refund_iff :
    (op : Operation) → op ≢ Operation.refund_in → op ≢ Operation.refund_out → is_refund op ≡ false
is_refund_iff op a b = ground (arith, a, b)

active_iff : (s : WalletStatus) → is_active s ≡ true → s ≡ WalletStatus.active
active_iff s h = ground arith

least_test :
    (op : Operation) (b : Bool)
    → (op ≡ Operation.withdraw → b ≡ false)
    → is_withdraw op && b ≡ false
least_test Operation.withdraw b h = h refl
least_test Operation.fund b h = refl
least_test Operation.grant b h = refl
least_test Operation.spend b h = refl
least_test Operation.hold b h = refl
least_test Operation.transfer_out b h = refl
least_test Operation.transfer_in b h = refl
least_test Operation.refund_in b h = refl
least_test Operation.refund_out b h = refl
least_test Operation.restore b h = refl
least_test Operation.chargeback b h = refl
least_test Operation.adjust b h = refl

refund_or :
    (op : Operation)
    → (is_refund op ≡ true) ⊎ ((op ≢ Operation.refund_in) × (op ≢ Operation.refund_out))
refund_or op = elim (Bool-cases (is_refund op)) [
  | inl e ↦ inl e
  | inr e ↦
      inr (λ h. clash op Operation.refund_in e h refl, λ h. clash op Operation.refund_out e h refl)
]
  where
    clash : (op k : Operation) → is_refund op ≡ false → op ≡ k → is_refund k ≡ true → ⊥
    clash op k e h g = ground (arith, e, ap is_refund h, g)

most_test :
    (op : Operation) (b : Bool)
    → (op ≢ Operation.refund_in → op ≢ Operation.refund_out → b ≡ false)
    → not (is_refund op) && b ≡ false
most_test op b h = elim (refund_or op) [ inl e ↦ rw e refl | inr (x, y) ↦ ground (arith, h x y) ]

-- `assertAllowed` lets an operation through exactly when its amount is positive and it is an
-- adjustment, a restoration or a chargeback, or else the wallet is active, the wallet type has the
-- capability that the operation needs, a withdrawal reaches the minimum, and the amount is within
-- the limit of a transaction, which refunds are free of.
pub assert_allowed_iff :
    (t : WalletType) (status : WalletStatus) (op : Operation) (amount : ℤ)
    → (assert_allowed t status op amount ≡ ok tt)
      ↔ ((pos 0 <ℤ amount) × ((bypasses op ≡ true) ⊎ IsWithinRules t status op amount))
unfolding assert_allowed
assert_allowed_iff t status op amount = (to, from)
  where
    to :
        assert_allowed t status op amount ≡ ok tt
        → (pos 0 <ℤ amount) × ((bypasses op ≡ true) ⊎ IsWithinRules t status op amount)
    to h = (
      ground arith,
      elim (Bool-cases (bypasses op)) [
        | inl free ↦ inl free
        | inr ruled ↦ inr (record {
          open_wallet = active_iff status (ground (arith, h, ruled));
          permitted = capable-IsPermitted t op (ground (arith, h, ruled));
          least = λ e. (AtLeast-iff amount t.min_withdrawal_amount).0 (ground (arith, h, ruled, e));
          most = λ a b.
              (AtMost-iff amount t.max_txn_amount).0
                (ground (arith, h, ruled, is_refund_iff op a b));
        })
      ],
    )

    from :
        (pos 0 <ℤ amount) × ((bypasses op ≡ true) ⊎ IsWithinRules t status op amount)
        → assert_allowed t status op amount ≡ ok tt
    from (p, inl free) = ground (arith, p, free)
    from (p, inr w) = elim (Bool-cases (bypasses op)) [
      | inl free ↦ ground (arith, p, free)
      | inr ruled ↦
          let can = IsPermitted-capable t op ruled w.permitted in
          let on : is_active status ≡ true = ap is_active w.open_wallet in
          let least : is_withdraw op && below amount t.min_withdrawal_amount ≡ false =
            least_test op _ (λ e. (AtLeast-iff amount t.min_withdrawal_amount).1 (w.least e)) in
          let most : not (is_refund op) && above amount t.max_txn_amount ≡ false =
            most_test op _ (λ a b. (AtMost-iff amount t.max_txn_amount).1 (w.most a b)) in
          ground (arith, p, ruled, can, on, least, most)
    ]
