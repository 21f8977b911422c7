-- ===== src/Ledger/Validate.antt =====
-- internal/repository/postgresql/ledger.go: `validateJournal`.
pub mod Laws
use openpay.Base.{
  ℕ, ◌&&◌, not, Bool, true, false, Option, none, some, String, List, [], ◌∷◌, length, ltb, str_eq,
  if◌then◌else◌,
}
use openpay.Base.Int.{ℤ, pos, leb_ℤ, eqb_ℤ}
use openpay.Base.Int64.{add64}
use openpay.Errors.{Result, ok, err, internal, ledger_imbalance, fail_if, ◌>>=◌, ◌>>◌}
use openpay.Ledger.Types.{Posting, Journal, debit, credit, signed}

-- The map from currency to sum, as an association list; a missing key reads as 0.
abbrev pub Sums : Type 0
Sums = List (String × ℤ)

abbrev pub get_sum : String → Sums → ℤ
get_sum c [] = pos 0
get_sum c ((k, v) ∷ m) = if str_eq k c then v else get_sum c m

-- `sums[currency] += x`
unfoldable pub add_sum : String → ℤ → Sums → Sums
add_sum c x [] = (c, add64 (pos 0) x) ∷ []
add_sum c x ((k, v) ∷ m) = if str_eq k c then (k, add64 v x) ∷ m else (k, v) ∷ add_sum c x m

unfoldable pub sum_postings : List Posting → Sums → Result Sums
sum_postings [] sums = ok sums
sum_postings (p ∷ ps) sums =
    let rest = sum_postings ps (add_sum p.currency (signed p) sums) in
    if leb_ℤ p.amount (pos 0)
    then err ledger_imbalance
    else if not (eqb_ℤ p.direction debit) && not (eqb_ℤ p.direction credit)
    then err ledger_imbalance
    else if str_eq p.currency ""
    then err ledger_imbalance
    else rest

unfoldable pub check_sums : Sums → Result (Unit {0})
check_sums [] = ok tt
check_sums ((c, v) ∷ m) = if eqb_ℤ v (pos 0) then check_sums m else err ledger_imbalance

unfoldable pub validate_journal : Journal → Result (Unit {0})
validate_journal j = do
  fail_if (str_eq j.external_id "") internal
  fail_if (ltb (length j.postings) 2) ledger_imbalance
  sums ← sum_postings j.postings []
  check_sums sums
