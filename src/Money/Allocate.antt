-- ===== src/Money/Allocate.antt =====
-- The parts of an amount add up to the whole, in Go's arithmetic.
use native.Mathlib.Nat.{div-le_self}
use openpay.Base.{
  ℕ, zero, suc, ◌+◌, ◌%◌, ◌/◌, ◌≤◌, ◌<◌, ◌≡◌, ◌∙◌, sym, ap, refl, subst, Bool, true, false, inl,
  inr, Option, none, some, List, [], ◌∷◌, length, arith, if◌then◌else◌, if_true, if_false,
  Bool-cases, some-eq, eq_iff, All,
}
use openpay.Base.Int.{ℤ, pos, negsuc, magnitude, neg, ◌+ℤ◌, ltb_ℤ, eqb_ℤ}
use openpay.Base.Int64.{half, modulus, InRange, wrap, wrap-InRange, add64, mul64}
use openpay.Order.Refund.{quot}
use openpay.Money.{
  Amount, add, sum_from, sum, total_from, shares_of, remainder_from, bump, spread, settle,
  amounts_in, allocate,
}
use openpay.Money.Spread.{residues, residue-add64, length-bump, settle-whole}
use openpay.Money.Residues.{residue, eq_of_residue}

length-spread : (n : ℕ) (d : ℤ) (i : ℕ) (ss : List ℤ) → length (spread n d i ss) ≡ length ss
unfolding spread
length-spread zero d i ss = refl
length-spread (suc n) d i ss =
    length-spread n d ((i + 1) % length ss) (bump d i ss) ∙ length-bump d i ss

add-residue :
    (a b : Amount)
    → a.currency ≡ b.currency
    → (c : Amount) × (add a b ≡ some c)
      × (c.currency ≡ a.currency)
      × (residue c.minor ≡ (residue a.minor + residue b.minor) % modulus)
      × InRange c.minor
add-residue a b same = (
  record { minor = add64 a.minor b.minor; currency = a.currency },
  if_true _ _ ((eq_iff a.currency b.currency).1 same),
  refl,
  residue-add64 a.minor b.minor,
  unfold add64 in wrap-InRange (a.minor +ℤ b.minor),
)

-- What `sum_from` gives for amounts of one currency.
sum_from-residues :
    (total : Amount) (ss : List ℤ)
    → InRange total.minor
    → (c : Amount) × (sum_from total (amounts_in total.currency ss) ≡ some c)
      × (c.currency ≡ total.currency)
      × (residue c.minor ≡ (residue total.minor + residues ss) % modulus)
      × InRange c.minor
sum_from-residues total [] h = (total, refl, refl, omega arith, h)
sum_from-residues total (s ∷ ss) h =
    let (next, e, same, r, k) =
      add-residue total (record { minor = s; currency = total.currency }) refl in
    let (c, f, same', q, l) = sum_from-residues next ss k in
    (
      c,
      ap (carry (amounts_in total.currency ss)) e
          ∙ ap (λ currency. sum_from next (amounts_in currency ss)) (sym same)
          ∙ f,
      same' ∙ same,
      omega (arith, q, r),
      l,
    )
  where
    carry : List Amount → Option Amount → Option Amount
    carry rest none = none
    carry rest (some next) = sum_from next rest

bump-InRange : (d : ℤ) (i : ℕ) (ss : List ℤ) → All InRange ss → All InRange (bump d i ss)
unfolding bump add64
bump-InRange d i [] a = tt
bump-InRange d zero (s ∷ ss) (h, a) = (wrap-InRange (s +ℤ d), a)
bump-InRange d (suc i) (s ∷ ss) (h, a) = (h, bump-InRange d i ss a)

spread-InRange :
    (n : ℕ) (d : ℤ) (i : ℕ) (ss : List ℤ) → All InRange ss → All InRange (spread n d i ss)
unfolding spread
spread-InRange zero d i ss a = a
spread-InRange (suc n) d i ss a =
    spread-InRange n d ((i + 1) % length ss) (bump d i ss) (bump-InRange d i ss a)

settle-InRange : (left : ℤ) (ss : List ℤ) → All InRange ss → All InRange (settle left ss)
unfolding settle
settle-InRange left ss a = either (ltb_ℤ (pos 0) left)
  where
    either :
        (b : Bool)
        → All InRange (
            if b
            then spread (magnitude left) (pos 1) 0 ss
            else spread (magnitude left) (negsuc 0) 0 ss)
    either true = spread-InRange (magnitude left) (pos 1) 0 ss a
    either false = spread-InRange (magnitude left) (negsuc 0) 0 ss a

signed-InRange :
    (p q : Bool) (n : ℕ)
    → n ≤ half
    → (p ≡ false → n < half)
    → InRange
        (if p then (if q then wrap (pos n) else neg (pos n)) else if q then neg (pos n) else pos n)
unfolding neg
signed-InRange true true n h k = wrap-InRange (pos n)
signed-InRange true false n h k = ground (arith, h)
signed-InRange false true n h k = ground (arith, h)
signed-InRange false false n h k = (k refl, omega arith)

length-settle : (left : ℤ) (ss : List ℤ) → length (settle left ss) ≡ length ss
unfolding settle
length-settle left ss = either (ltb_ℤ (pos 0) left)
  where
    either :
        (b : Bool)
        → length (
            if b
            then spread (magnitude left) (pos 1) 0 ss
            else spread (magnitude left) (negsuc 0) 0 ss)
          ≡ length ss
    either true = length-spread (magnitude left) (pos 1) 0 ss
    either false = length-spread (magnitude left) (negsuc 0) 0 ss

quot-InRange : (a b : ℤ) → InRange a → InRange (quot a b)
unfolding quot
quot-InRange a b h =
    let less = div-le_self (magnitude a) (magnitude b) in
    signed-InRange (ltb_ℤ a (pos 0)) (ltb_ℤ b (pos 0)) (magnitude a / magnitude b)
      (omega (arith, less, magnitude_le a h)) (λ p. omega (arith, less, magnitude_less a h p))
  where
    magnitude_le : (a : ℤ) → InRange a → magnitude a ≤ half
    magnitude_le (pos n) h = omega (arith, h)
    magnitude_le (negsuc n) h = omega (arith, h)

    magnitude_less : (a : ℤ) → InRange a → ltb_ℤ a (pos 0) ≡ false → magnitude a < half
    magnitude_less (pos n) h p = omega (arith, h)
    magnitude_less (negsuc n) h p = ground (arith, h, p)

shares_of-InRange : (a total : ℤ) (rs : List ℤ) → All InRange (shares_of a total rs)
unfolding shares_of mul64
shares_of-InRange a total [] = tt
shares_of-InRange a total (r ∷ rs) =
    (quot-InRange _ total (wrap-InRange _), shares_of-InRange a total rs)

shares_of-some : (a total r : ℤ) (rs : List ℤ) → 0 < length (shares_of a total (r ∷ rs))
unfolding shares_of
shares_of-some a total r rs = omega arith

Amount-eq : (a b : Amount) → a.minor ≡ b.minor → a.currency ≡ b.currency → a ≡ b
Amount-eq a b h k = cc

not_less : 0 < 0 → ⊥
not_less k = omega (arith, k)

sum-whole :
    (a : Amount) (ss : List ℤ)
    → InRange a.minor
    → 0 < length ss
    → All InRange ss
    → residues ss % modulus ≡ residue a.minor % modulus
    → sum (amounts_in a.currency ss) ≡ some a
sum-whole a [] h k l e = elim (not_less k) [ ]
sum-whole a (s ∷ ss) h k (l, ls) e =
    let (c, f, same, r, m) = sum_from-residues (record { minor = s; currency = a.currency }) ss l in
    f ∙ ap some (Amount-eq c a (eq_of_residue c.minor a.minor m h (omega (arith, e, r))) same)

nothing : {A : Type 0} (a : A) → ◌≡◌ {A = Option A} none (some a) → ⊥
nothing a h = cc

-- The parts that `Allocate` gives add up, by `Sum`, to the amount that was split, whatever the ratios
-- are and also when a product in between overflows. The amount is an int64.
pub sum-allocate :
    (a : Amount) (ratios : List ℤ) (parts : List Amount)
    → InRange a.minor
    → allocate a ratios ≡ some parts
    → sum parts ≡ some a
unfolding allocate
sum-allocate a [] parts h e = elim (nothing parts e) [ ]
sum-allocate a (r ∷ rs) parts h e = given (total_from (pos 0) (r ∷ rs)) e
  where
    given :
        (o : Option ℤ)
        → (elim o [
          | none ↦ none
          | some total ↦
              (if eqb_ℤ total (pos 0)
                then none
                else some (
                    amounts_in a.currency (
                      settle
                        (remainder_from a.minor (shares_of a.minor total (r ∷ rs)))
                        (shares_of a.minor total (r ∷ rs)))))
        ])
          ≡ some parts
        → sum parts ≡ some a
    given none e = elim (nothing parts e) [ ]
    given (some total) e = elim (Bool-cases (eqb_ℤ total (pos 0))) [
      | inl p ↦ elim (nothing parts (sym (if_true _ _ p) ∙ e)) [ ]
      | inr p ↦
          let shares = shares_of a.minor total (r ∷ rs) in
          let out = settle (remainder_from a.minor shares) shares in
          subst (λ x. sum x ≡ some a) (some-eq _ parts (sym (if_false _ _ p) ∙ e))
            (sum-whole a out h
              (subst (λ n. 0 < n) (sym (length-settle (remainder_from a.minor shares) shares))
                (shares_of-some a.minor total r rs))
              (settle-InRange (remainder_from a.minor shares) shares
                (shares_of-InRange a.minor total (r ∷ rs)))
              (settle-whole a.minor shares (shares_of-some a.minor total r rs)))
    ]
