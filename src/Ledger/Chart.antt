-- ===== src/Ledger/Chart.antt =====
-- internal/ledger/chart.go: the codes of the accounts, and `GetLedgerAccountByCode`.
use openpay.Base.{Option, none, some, String, List, [], ◌∷◌, str_eq, if◌then◌else◌}
use Prim.Native.String.{◌++◌ as text_append}
use openpay.Ledger.Store.{AccountRow}

abbrev pub currency_inr : String
currency_inr = "INR"

abbrev pub gst_payable : String
gst_payable = "liability:gst_payable"

abbrev pub platform_psp_fees : String
platform_psp_fees = "expense:psp_fees"

abbrev pub input_tax_credit : String
input_tax_credit = "asset:input_tax_credit"

-- prefix + name + suffix
unfoldable pub coded : String → String → String → String
coded prefix name suffix = text_append (text_append prefix name) suffix

abbrev pub psp_receivable : String → String
psp_receivable provider = coded "psp:" provider ":receivable"

abbrev pub psp_suspense : String → String
psp_suspense provider = coded "psp:" provider ":suspense"

abbrev pub bank : String → String
bank name = coded "bank:" name ":current"

abbrev pub product_sales : String → String
product_sales product = coded "income:" product ":product_sales"

abbrev pub product_discounts : String → String
product_discounts product = coded "expense:" product ":discounts"

abbrev pub product_promotions : String → String
product_promotions product = coded "expense:" product ":promotions"

abbrev pub product_adjustments : String → String
product_adjustments product = coded "expense:" product ":adjustments"

abbrev pub product_refunds_payable : String → String
product_refunds_payable product = coded "liability:" product ":refunds_payable"

abbrev pub product_breakage : String → String
product_breakage product = coded "income:" product ":breakage"

abbrev pub product_disputed : String → String
product_disputed product = coded "liability:" product ":disputed"

abbrev pub product_chargebacks : String → String
product_chargebacks product = coded "expense:" product ":chargebacks"

abbrev pub payouts_in_transit : String
payouts_in_transit = "liability:payouts_in_transit"

-- `WHERE a.code = $1`
unfoldable pub find_account_by_code : String → List AccountRow → Option AccountRow
find_account_by_code c [] = none
find_account_by_code c (r ∷ rs) =
    if str_eq r.account.code c then some r else find_account_by_code c rs
