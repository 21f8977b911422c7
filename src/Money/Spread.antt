-- ===== src/Money/Spread.antt =====
-- What the last loop of `Allocate` does to the total of the shares, modulo 2^64.
use openpay.Base.{
  ℕ, zero, suc, ◌+◌, ◌%◌, ◌<◌, ◌≡◌, ◌∙◌, sym, ap, refl, subst, true, false, inl, inr, List, [], ◌∷◌,
  length, arith, if_true, if_false, Bool-cases,
}
use openpay.Base.Int.{ℤ, pos, negsuc, magnitude, ◌+ℤ◌, ◌-ℤ◌, ltb_ℤ}
use openpay.Base.Int64.{modulus, add64, sub64}
use openpay.Money.{remainder_from, bump, spread, settle}
use openpay.Money.Residues.{residue, residue-wrap, residue-+ℤ, residue--ℤ}

pub residue-add64 : (a b : ℤ) → residue (add64 a b) ≡ (residue a + residue b) % modulus
unfolding add64
residue-add64 a b = residue-wrap (a +ℤ b) ∙ residue-+ℤ a b

residue-sub64 : (a b : ℤ) → (residue (sub64 a b) + residue b) % modulus ≡ residue a
unfolding sub64
residue-sub64 a b = ap (λ r. (r + residue b) % modulus) (residue-wrap (a -ℤ b)) ∙ residue--ℤ a b

abbrev pub residues : List ℤ → ℕ
residues [] = 0
residues (s ∷ ss) = residue s + residues ss

pub length-bump : (d : ℤ) (i : ℕ) (ss : List ℤ) → length (bump d i ss) ≡ length ss
unfolding bump
length-bump d i [] = refl
length-bump d zero (s ∷ ss) = refl
length-bump d (suc i) (s ∷ ss) = ap suc (length-bump d i ss)

residues-bump :
    (d : ℤ) (i : ℕ) (ss : List ℤ)
    → i < length ss
    → residues (bump d i ss) % modulus ≡ (residues ss + residue d) % modulus
unfolding bump
residues-bump d i [] h = omega (arith, h)
residues-bump d zero (s ∷ ss) h = omega (arith, residue-add64 s d)
residues-bump d (suc i) (s ∷ ss) h = omega (arith, residues-bump d i ss (omega (arith, h)))

within : (m n : ℕ) → 0 < n → m % n < n
within m n h = grind arith

residues-spread_up :
    (n i : ℕ) (ss : List ℤ)
    → i < length ss
    → residues (spread n (pos 1) i ss) % modulus ≡ (residues ss + n) % modulus
unfolding spread
residues-spread_up zero i ss h = omega arith
residues-spread_up (suc n) i ss h = omega (
  arith,
  residues-bump (pos 1) i ss h,
  residues-spread_up n ((i + 1) % length ss) (bump (pos 1) i ss) (
      subst (λ m. (i + 1) % length ss < m) (sym (length-bump (pos 1) i ss))
        (within (i + 1) (length ss) (omega (arith, h)))),
)

residues-spread_down :
    (n i : ℕ) (ss : List ℤ)
    → i < length ss
    → (residues (spread n (negsuc 0) i ss) + n) % modulus ≡ residues ss % modulus
unfolding spread
residues-spread_down zero i ss h = omega arith
residues-spread_down (suc n) i ss h = omega (
  arith,
  residues-bump (negsuc 0) i ss h,
  residues-spread_down n ((i + 1) % length ss) (bump (negsuc 0) i ss) (
      subst (λ m. (i + 1) % length ss < m) (sym (length-bump (negsuc 0) i ss))
        (within (i + 1) (length ss) (omega (arith, h)))),
)

above : (left : ℤ) → ltb_ℤ (pos 0) left ≡ true → residue left ≡ magnitude left % modulus
above (pos n) h = omega arith
above (negsuc n) h = ground (arith, h)

below : (left : ℤ) → ltb_ℤ (pos 0) left ≡ false → (residue left + magnitude left) % modulus ≡ 0
below (pos n) h = ground (arith, h)
below (negsuc n) h = omega arith

residues-settle :
    (left : ℤ) (ss : List ℤ)
    → 0 < length ss
    → residues (settle left ss) % modulus ≡ (residues ss + residue left) % modulus
unfolding settle
residues-settle left ss h = elim (Bool-cases (ltb_ℤ (pos 0) left)) [
  | inl p ↦
      ap (λ xs. residues xs % modulus) (if_true _ _ p)
      ∙ omega (arith, residues-spread_up (magnitude left) 0 ss h, above left p)
  | inr p ↦
      ap (λ xs. residues xs % modulus) (if_false _ _ p)
      ∙ omega (arith, residues-spread_down (magnitude left) 0 ss h, below left p)
]

pub residue-remainder_from :
    (left : ℤ) (ss : List ℤ)
    → (residue (remainder_from left ss) + residues ss) % modulus ≡ residue left % modulus
unfolding remainder_from
residue-remainder_from left [] = omega arith
residue-remainder_from left (s ∷ ss) =
    omega (arith, residue-sub64 left s, residue-remainder_from (sub64 left s) ss)

pub settle-whole :
    (a : ℤ) (ss : List ℤ)
    → 0 < length ss
    → residues (settle (remainder_from a ss) ss) % modulus ≡ residue a % modulus
settle-whole a ss h =
    omega (arith, residues-settle (remainder_from a ss) ss h, residue-remainder_from a ss)
