-- ===== src/Ledger/Post/Apply.antt =====
-- What one posting does to its account.
use openpay.Base.{◌+◌, ◌<◌, ◌≤◌, ◌≡◌, ◌∙◌, sym, refl, false, arith, eq_iff, inl, inr, ◌⊎◌}
use openpay.Base.Int.{
  ℤ, pos, negsuc, magnitude, ◌+ℤ◌, ◌-ℤ◌, ◌*ℤ◌, ◌≤ℤ◌, int_laws, +ℤ_parts, -ℤ_parts, ltb_ℤ,
  magnitude-+ℤ, magnitude-neg, *ℤ_one, *ℤ_minus_one,
}
use openpay.Base.Int64.{half, add64, add64_exact, sub64_exact, mul64, mul64_one, mul64_minus_one}
use openpay.Errors.{ok}
use openpay.Ledger.Types.{Posting, contribution, signed, normal_sign, AccountType, asset, expense}
use openpay.Ledger.Validate.Laws.{IsLeg, signed-contribution, magnitude-contribution}
use openpay.Ledger.Locks.{LockedAccount}
use openpay.Ledger.Post.{is_overdrawn, apply_posting}
use openpay.Ledger.Sound.{natural_exact}

-- The sign of an account type is 1 or -1.
normal_sign-cases : (t : AccountType) → (normal_sign t ≡ pos 1) ⊎ (normal_sign t ≡ negsuc 0)
unfolding normal_sign
normal_sign-cases asset = inl refl
normal_sign-cases expense = inl refl
normal_sign-cases _ = inr refl

pub mul64-normal_sign :
    (a : ℤ) (t : AccountType) → magnitude a < half → mul64 a (normal_sign t) ≡ a *ℤ normal_sign t
mul64-normal_sign a t h = elim (normal_sign-cases t) [
  | inl e ↦ rw e (mul64_one a h ∙ sym (*ℤ_one a))
  | inr e ↦ rw e (mul64_minus_one a h ∙ sym (*ℤ_minus_one a))
]

pub magnitude-normal_sign : (a : ℤ) (t : AccountType) → magnitude (a *ℤ normal_sign t) ≡ magnitude a
magnitude-normal_sign a t = elim (normal_sign-cases t) [
  | inl e ↦ rw e (rw (*ℤ_one a))
  | inr e ↦ rw e (rw (*ℤ_minus_one a) (magnitude-neg a))
]

-- Adding on both sides of the sign.
+ℤ-normal_sign :
    (a b : ℤ) (t : AccountType)
    → (a +ℤ b) *ℤ normal_sign t ≡ a *ℤ normal_sign t +ℤ b *ℤ normal_sign t
+ℤ-normal_sign a b t = elim (normal_sign-cases t) [
  | inl e ↦ rw e (rw (*ℤ_one a) (rw (*ℤ_one b) (*ℤ_one (a +ℤ b))))
  | inr e ↦
      rw e (rw (*ℤ_minus_one a) (rw (*ℤ_minus_one b) (rw (*ℤ_minus_one (a +ℤ b)) (omega int_laws))))
]

-- The overdraft test, in unbounded integers.
is_overdrawn_exact :
    (a : LockedAccount) (raw : ℤ)
    → magnitude raw + magnitude a.held < half
    → is_overdrawn a raw ≡ ltb_ℤ (raw *ℤ normal_sign a.account_type -ℤ a.held) (pos 0)
unfolding is_overdrawn
is_overdrawn_exact a raw h = rw (mul64-normal_sign raw a.account_type (omega arith)) (
    rw
      (sub64_exact (raw *ℤ normal_sign a.account_type) a.held
        (omega (arith, magnitude-normal_sign raw a.account_type)))
      refl)

-- An account that is covered stays covered by a posting that adds to it.
covered_by_increase :
    (n s m held : ℤ) → m ≡ n +ℤ s → ltb_ℤ s (pos 0) ≡ false → held ≤ℤ n → held ≤ℤ m
covered_by_increase n s m held e up h = rw e (ground (arith, +ℤ_parts n s))

covered_by_test : (m held : ℤ) → ltb_ℤ (m -ℤ held) (pos 0) ≡ false → held ≤ℤ m
covered_by_test m held h = ground (arith, -ℤ_parts m held)

module _ (p : Posting) (a b : LockedAccount) (leg : IsLeg p)
    (room : magnitude a.raw_balance + magnitude a.held + magnitude p.amount < half)
    (applied : apply_posting p a ≡ ok b) where
  apply_posting-sum : add64 a.raw_balance (signed p) ≡ a.raw_balance +ℤ contribution p
  apply_posting-sum =
      rw (signed-contribution p leg (omega arith))
        (add64_exact a.raw_balance (contribution p) (omega (arith, magnitude-contribution p leg)))

  -- An accepted posting adds what it contributes, to an account of its currency.
  pub apply_posting-eq : b ≡ record a { raw_balance = a.raw_balance +ℤ contribution p }
  unfolding apply_posting
  apply_posting-eq = ground (arith, apply_posting-sum)

  pub apply_posting-currency : p.currency ≡ a.currency
  unfolding apply_posting
  apply_posting-currency = ground (arith, eq_iff p.currency a.currency)

  apply_posting-tests :
      a.allow_negative ≡ false
      → (ltb_ℤ (contribution p *ℤ normal_sign a.account_type) (pos 0) ≡ false)
        ⊎ (is_overdrawn a (a.raw_balance +ℤ contribution p) ≡ false)
  unfolding apply_posting
  apply_posting-tests no_overdraft =
      let small : magnitude (contribution p) ≤ magnitude p.amount = magnitude-contribution p leg in
      ground (
        arith,
        apply_posting-sum,
        signed-contribution p leg (omega arith),
        mul64-normal_sign (contribution p) a.account_type (omega arith),
      )

  pub apply_posting-covered :
      b.allow_negative ≡ false → a.held ≤ℤ natural_exact a → b.held ≤ℤ natural_exact b
  apply_posting-covered = rw apply_posting-eq λ no_overdraft before.
      elim (apply_posting-tests no_overdraft) [
        | inl up ↦
            covered_by_increase (natural_exact a) (contribution p *ℤ normal_sign a.account_type) _
              a.held (+ℤ-normal_sign a.raw_balance (contribution p) a.account_type) up before
        | inr test ↦ covered_by_test _ a.held (
            sym (
              is_overdrawn_exact a (a.raw_balance +ℤ contribution p) (
                omega (
                  arith,
                  magnitude-+ℤ a.raw_balance (contribution p),
                  magnitude-contribution p leg,
                )))
            ∙ test)
      ]
