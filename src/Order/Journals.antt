-- ===== src/Order/Journals.antt =====
-- The postings of internal/order/engine.go's `settlementJournal` and internal/order/refund.go's
-- `refundJournal`, over the ids that the lookups give.
pub mod Balance
use openpay.Base.{ℕ, ◌≡◌, Bool, true, false, ◌==◌, not, String, List, [], ◌∷◌, ◌++◌, if◌then◌else◌}
use openpay.Base.Int.{ℤ, pos, leb_ℤ, eqb_ℤ}
use openpay.Ledger.Types.{Posting, debit, credit, Direction}

-- A leg before it is posted: its account, its direction and its amount.
pub record Leg : Type 0 where
  pub account : ℕ
  pub direction : Direction
  pub amount : ℤ

abbrev pub posting : String → Leg → Posting
posting c l = record {
  journal_id = 0;
  account_id = l.account;
  direction = l.direction;
  amount = l.amount;
  currency = c;
  seq = 0;
  balance_after = pos 0;
}

-- `add`, over several legs: only positive amounts are posted.
unfoldable pub positive_legs : String → List Leg → List Posting
positive_legs c [] = []
positive_legs c (l ∷ ls) =
    let rest = positive_legs c ls in if leb_ℤ l.amount (pos 0) then rest else posting c l ∷ rest

-- The loop of `refundJournal`: legs with no amount are left out.
unfoldable pub nonzero_legs : String → List Leg → List Posting
nonzero_legs c [] = []
nonzero_legs c (l ∷ ls) =
    let rest = nonzero_legs c ls in if eqb_ℤ l.amount (pos 0) then rest else posting c l ∷ rest

-- A tender: the account that it is paid from, a wallet's or the provider's receivable, and its share.
pub record Share : Type 0 where
  pub account : ℕ
  pub amount : ℤ

abbrev pub share_legs : List Share → List Leg
share_legs [] = []
share_legs (t ∷ ts) =
    record { account = t.account; direction = debit; amount = t.amount } ∷ share_legs ts

-- The components of an order or of a refund, with their accounts.
pub record Components : Type 0 where
  pub sales : ℕ
  pub gst : ℕ
  pub discounts : ℕ
  pub subtotal : ℤ
  pub discount : ℤ
  pub tax : ℤ

abbrev pub settlement_legs : Components → List Leg
settlement_legs o =
    record { account = o.discounts; direction = debit; amount = o.discount }
    ∷ record { account = o.sales; direction = credit; amount = o.subtotal }
    ∷ record { account = o.gst; direction = credit; amount = o.tax }
    ∷ []

unfoldable pub settlement_postings : String → List Share → Components → List Posting
settlement_postings c shares o = positive_legs c (share_legs shares ++ settlement_legs o)

abbrev pub refund_legs : Components → List Leg
refund_legs o =
    record { account = o.sales; direction = debit; amount = o.subtotal }
    ∷ record { account = o.gst; direction = debit; amount = o.tax }
    ∷ record { account = o.discounts; direction = credit; amount = o.discount }
    ∷ []

-- `refundJournal`: what is credited, and then the components reversed.
unfoldable pub refund_postings : String → List Posting → Components → List Posting
refund_postings c credits o = credits ++ nonzero_legs c (refund_legs o)
