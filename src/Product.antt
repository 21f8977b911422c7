-- ===== src/Product.antt =====
-- internal/models/dao/product.go, and `GetProductByID`.
use openpay.Base.{ℕ, ◌==◌, Option, none, some, String, List, [], ◌∷◌, if◌then◌else◌}

pub record Product : Type 0 where
  pub id : ℕ
  pub code : String

-- `WHERE id = $1`
abbrev pub find_product : ℕ → List Product → Option Product
find_product i [] = none
find_product i (p ∷ ps) = if p.id == i then some p else find_product i ps
