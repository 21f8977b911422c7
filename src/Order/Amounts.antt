-- ===== src/Order/Amounts.antt =====
-- internal/order/engine.go: `validateAmounts`.
pub mod Laws
use openpay.Base.{ℕ, ◌≡◌, Bool, true, false, ◌==◌, ◌&&◌, ◌||◌, not, List, [], ◌∷◌, if◌then◌else◌}
use openpay.Base.Int.{ℤ, pos, ltb_ℤ, leb_ℤ, eqb_ℤ}
use openpay.Base.Int64.{add64, sub64, mul64}
use openpay.Errors.{Result, ok, err, invalid_argument, ◌>>=◌, ◌>>◌, fail_if}

pub record Line : Type 0 where
  pub quantity : ℤ
  pub unit_amount : ℤ

-- The fields of `CreateRequest` that the checks read.
pub record CreateRequest : Type 0 where
  pub total : ℤ
  pub subtotal : ℤ
  pub discount : ℤ
  pub tax : ℤ
  pub lines : List Line
  pub is_guest : Bool
  pub has_tenders : Bool
  pub auto_tender : Bool

abbrev pub is_negative : ℤ → Bool
is_negative a = ltb_ℤ a (pos 0)

-- The loop over the lines.
unfoldable pub sum_lines : ℤ → List Line → Result ℤ
sum_lines sum [] = ok sum
sum_lines sum (l ∷ ls) =
    let rest = sum_lines (add64 sum (mul64 l.quantity l.unit_amount)) ls in
    if leb_ℤ l.quantity (pos 0) || is_negative l.unit_amount then err invalid_argument else rest

unfoldable pub check_lines : CreateRequest → Result (Unit {0})
check_lines req = elim req.lines [
  | [] ↦ ok tt
  | l ∷ ls ↦
      (sum_lines (pos 0) (l ∷ ls) >>= λ sum.
      fail_if (not (eqb_ℤ sum req.subtotal)) invalid_argument)
]

unfoldable pub validate_amounts : CreateRequest → Result (Unit {0})
validate_amounts req = do
  fail_if (leb_ℤ req.total (pos 0)) invalid_argument
  fail_if
      (is_negative req.subtotal
        || is_negative req.discount
        || is_negative req.tax
        || ltb_ℤ req.subtotal req.discount)
      invalid_argument
  fail_if (not (eqb_ℤ (add64 (sub64 req.subtotal req.discount) req.tax) req.total)) invalid_argument
  check_lines req
  fail_if (req.is_guest && (req.has_tenders || req.auto_tender)) invalid_argument
