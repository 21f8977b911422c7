-- ===== src/Money.antt =====
-- pkg/money/money.go: the arithmetic of amounts, and `Allocate`. An error is `none`.
pub mod Residues
pub mod Spread
pub mod Allocate
pub mod Examples
use openpay.Base.{
  ℕ, zero, suc, ◌+◌, ◌%◌, Bool, true, false, not, Option, none, some, String, List, [], ◌∷◌, length,
  str_eq, if◌then◌else◌,
}
use openpay.Base.Int.{ℤ, pos, negsuc, magnitude, ltb_ℤ, eqb_ℤ}
use openpay.Base.Int64.{add64, sub64, mul64, neg64}
use openpay.Order.Refund.{quot}

pub record Amount : Type 0 where
  pub minor : ℤ
  pub currency : String

abbrev pub add : Amount → Amount → Option Amount
add a b =
    if str_eq a.currency b.currency
    then some (record { minor = add64 a.minor b.minor; currency = a.currency })
    else none

abbrev pub sum_from : Amount → List Amount → Option Amount
sum_from total [] = some total
sum_from total (a ∷ rest) = elim (add total a) [ none ↦ none | some next ↦ sum_from next rest ]

abbrev pub sum : List Amount → Option Amount
sum [] = none
sum (a ∷ rest) = sum_from a rest

-- The ratios' total, so far; a negative one is refused.
abbrev pub total_from : ℤ → List ℤ → Option ℤ
total_from total [] = some total
total_from total (r ∷ rs) =
    let rest = total_from (add64 total r) rs in if ltb_ℤ r (pos 0) then none else rest

unfoldable pub shares_of : ℤ → ℤ → List ℤ → List ℤ
shares_of a total [] = []
shares_of a total (r ∷ rs) = quot (mul64 a r) total ∷ shares_of a total rs

unfoldable pub remainder_from : ℤ → List ℤ → ℤ
remainder_from left [] = left
remainder_from left (s ∷ ss) = remainder_from (sub64 left s) ss

-- `shares[i].minor++`, or `--`
unfoldable pub bump : ℤ → ℕ → List ℤ → List ℤ
bump d i [] = []
bump d zero (s ∷ ss) = add64 s d ∷ ss
bump d (suc i) (s ∷ ss) = s ∷ bump d i ss

-- The last loop, for a remainder of n units.
unfoldable pub spread : ℕ → ℤ → ℕ → List ℤ → List ℤ
spread zero d i ss = ss
spread (suc n) d i ss = spread n d ((i + 1) % length ss) (bump d i ss)

unfoldable pub settle : ℤ → List ℤ → List ℤ
settle left ss =
    if ltb_ℤ (pos 0) left
    then spread (magnitude left) (pos 1) 0 ss
    else spread (magnitude left) (negsuc 0) 0 ss

abbrev pub amounts_in : String → List ℤ → List Amount
amounts_in currency [] = []
amounts_in currency (s ∷ ss) = record { minor = s; currency = currency } ∷ amounts_in currency ss

unfoldable pub allocate : Amount → List ℤ → Option (List Amount)
allocate a [] = none
allocate a (r ∷ rs) = elim (total_from (pos 0) (r ∷ rs)) [
  | none ↦ none
  | some total ↦
      let shares = shares_of a.minor total (r ∷ rs) in
      if eqb_ℤ total (pos 0)
      then none
      else some (amounts_in a.currency (settle (remainder_from a.minor shares) shares))
]
