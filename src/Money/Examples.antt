-- ===== src/Money/Examples.antt =====
-- Tests of the splitting of amounts, and an instance of its theorem.
use openpay.Base.{◌≡◌, refl, none, some, [], ◌∷◌, arith}
use openpay.Base.Int.{ℤ, pos, negsuc, neg, ◌+ℤ◌, ◌-ℤ◌, ◌*ℤ◌}
use openpay.Base.Int64.{wrap, add64, sub64, mul64}
use openpay.Order.Refund.{quot}
use openpay.Money.{Amount, sum, shares_of, remainder_from, bump, spread, settle, allocate}
use openpay.Money.Allocate.{sum-allocate}

abbrev rupees : ℤ → Amount
rupees n = record { minor = n; currency = "INR" }

-- Ten rupees three ways, ten owed rupees three ways, and no way to split.
three_ways :
    allocate (rupees (pos 1000)) (pos 1 ∷ pos 1 ∷ pos 1 ∷ [])
    ≡ some (rupees (pos 334) ∷ rupees (pos 333) ∷ rupees (pos 333) ∷ [])
unfolding allocate settle spread bump remainder_from shares_of quot add64 sub64 mul64 wrap ◌+ℤ◌ ◌-ℤ◌
    ◌*ℤ◌ neg
three_ways = refl

owed_ways :
    allocate (rupees (negsuc 999)) (pos 2 ∷ pos 0 ∷ pos 1 ∷ [])
    ≡ some (rupees (negsuc 666) ∷ rupees (pos 0) ∷ rupees (negsuc 332) ∷ [])
unfolding allocate settle spread bump remainder_from shares_of quot add64 sub64 mul64 wrap ◌+ℤ◌ ◌-ℤ◌
    ◌*ℤ◌ neg
owed_ways = refl

refused :
    (allocate (rupees (pos 1000)) (pos 0 ∷ pos 0 ∷ []) ≡ none)
    × (allocate (rupees (pos 1000)) (pos 1 ∷ negsuc 0 ∷ []) ≡ none)
    × (allocate (rupees (pos 1000)) [] ≡ none)
unfolding allocate add64 wrap ◌+ℤ◌
refused = (refl, refl, refl)

sum-allocate_example :
    sum (rupees (pos 334) ∷ rupees (pos 333) ∷ rupees (pos 333) ∷ []) ≡ some (rupees (pos 1000))
sum-allocate_example =
    sum-allocate (rupees (pos 1000)) (pos 1 ∷ pos 1 ∷ pos 1 ∷ [])
      (rupees (pos 334) ∷ rupees (pos 333) ∷ rupees (pos 333) ∷ []) (omega arith, omega arith)
      three_ways
