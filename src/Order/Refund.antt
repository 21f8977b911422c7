-- ===== src/Order/Refund.antt =====
-- internal/order/refund.go: `splitRefund`, and the loop of `refundTenders`. Go's
-- integer division, which truncates, is `quot`; the total that divides is positive.
pub mod Taken
pub mod Shares
pub mod Split
use openpay.Base.{
  ℕ, ◌≡◌, ◌/◌, Bool, true, false, ◌==◌, ◌&&◌, ◌||◌, not, Option, none, some, String, List, [], ◌∷◌,
  ◌++◌, if◌then◌else◌,
}
use openpay.Base.Int.{ℤ, pos, negsuc, pos_part, neg_part, magnitude, neg, ltb_ℤ, leb_ℤ, eqb_ℤ}
use openpay.Base.Int64.{add64, sub64, mul64, wrap}
use openpay.Errors.{
  Result, ok, err, invalid_argument, failed_precondition, internal, not_found, ◌>>=◌, ◌>>◌, fail_if,
  or_fail,
}
use openpay.Wallet.Types.{Wallet, World}
use openpay.Wallet.Expiry.{find_wallet, check_refund_in}

pub record Breakdown : Type 0 where
  pub subtotal : ℤ
  pub discount : ℤ
  pub tax : ℤ

-- The fields of `dao.Order` that a refund's split reads.
pub record Order : Type 0 where
  pub tax_breakdown_provided : Bool
  pub discount : ℤ
  pub tax : ℤ
  pub total : ℤ

abbrev pub is_negative : ℤ → Bool
is_negative a = ltb_ℤ a (pos 0)

unfoldable pub quot : ℤ → ℤ → ℤ
quot a b =
    let n = pos (magnitude a / magnitude b) in
    if is_negative a
    then (if is_negative b then wrap n else neg n)
    else if is_negative b
    then neg n
    else n

unfoldable pub split_refund : Order → ℤ → Option Breakdown → Result (Breakdown × Bool)
split_refund o amount (some b) =
    if is_negative b.subtotal
      || is_negative b.discount
      || is_negative b.tax
      || not (eqb_ℤ (add64 (sub64 b.subtotal b.discount) b.tax) amount)
    then err invalid_argument
    else ok (b, true)
split_refund o amount none =
    if not o.tax_breakdown_provided
    then ok (record { subtotal = amount; discount = pos 0; tax = pos 0 }, false)
    else (let tax = quot (mul64 amount o.tax) o.total in
        let discount = quot (mul64 amount o.discount) o.total in
        ok (
          record { subtotal = sub64 (add64 amount discount) tax; discount = discount; tax = tax },
          false,
        ))

pub data TenderKind : Type 0 where
  wallet gateway : TenderKind

-- The fields of `dao.OrderTender` that the loop reads and writes.
pub record Tender : Type 0 where
  pub id : ℕ
  pub kind : TenderKind
  pub wallet_public_id : Option String
  pub amount : ℤ
  pub refunded_amount : ℤ

abbrev pub min_ℤ : ℤ → ℤ → ℤ
min_ℤ a b = if leb_ℤ a b then a else b

-- A part of the refund: the tender as updated, and what is taken from it.
pub record Part : Type 0 where
  pub tender : Tender
  pub take : ℤ

-- The loop over the tenders: the parts, and what remains.
unfoldable pub take_from : ℤ → List Tender → List Part × ℤ
take_from remaining [] = ([], remaining)
take_from remaining (t ∷ ts) =
    let take = min_ℤ remaining (sub64 t.amount t.refunded_amount) in
    let left = sub64 remaining take in
    let part : Part = record {
      tender = record t { refunded_amount = add64 t.refunded_amount take };
      take = take;
    } in
    let skipped = take_from remaining ts in
    let rest = take_from left ts in
    if leb_ℤ take (pos 0)
    then skipped
    else if eqb_ℤ left (pos 0)
    then (part ∷ [], left)
    else (part ∷ rest.0, rest.1)

-- The branch of the loop's switch for a wallet tender.
unfoldable pub accept_wallet : Option String → ℤ → World → Result (Unit {0})
accept_wallet wallet_public_id take w = do
  i ← or_fail wallet_public_id internal
  owner ← or_fail (find_wallet i w.wallets) not_found
  check_refund_in owner take w

-- What the loop asks of a part before it goes on: where there is no store credit, a wallet tender's
-- wallet must take its share back.
unfoldable pub accept_part : Option Wallet → World → Part → Result (Unit {0})
accept_part (some store_credit) w p = ok tt
accept_part none w p = elim p.tender.kind [
  | TenderKind.wallet ↦ accept_wallet p.tender.wallet_public_id p.take w
  | TenderKind.gateway ↦ ok tt
]

unfoldable pub accept_parts : Option Wallet → World → List Part → Result (Unit {0})
accept_parts store_credit w [] = ok tt
accept_parts store_credit w (p ∷ ps) =
    accept_part store_credit w p >> accept_parts store_credit w ps

-- Does the store credit, if the refund goes there, take the whole?
unfoldable pub accept_whole : Option Wallet → ℤ → World → Result (Unit {0})
accept_whole none amount w = ok tt
accept_whole (some store_credit) amount w = check_refund_in store_credit amount w

-- The parts of `refundTenders`, for a wallet of store credit or none. A part that is refused ends the
-- call, so that it is the same to split first and to ask after.
unfoldable pub refund_shares : Option Wallet → World → ℤ → List Tender → Result (List Part)
refund_shares store_credit w amount ts = do
  let out = take_from amount ts
  accept_parts store_credit w out.0
  fail_if (not (eqb_ℤ (out.1) (pos 0))) failed_precondition
  accept_whole store_credit amount w
  ok (out.0)
