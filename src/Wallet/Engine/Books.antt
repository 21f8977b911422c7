-- ===== src/Wallet/Engine/Books.antt =====
-- The operations on wallets keep the rules of the ledger.
use openpay.Base.{
  none, some, String, [], ◌∷◌, ◌∙◌, ap, inl, inr, if◌then◌else◌, Bool-cases, ℕ, ◌+◌, ◌==◌, ◌<◌, ◌≡◌,
  sym, refl, subst, not, ◌&&◌, Option, List,
}
use openpay.Base.Int.{ℤ, pos, magnitude, eqb_ℤ, ◌+ℤ◌, ◌*ℤ◌, neg, int_laws}
use openpay.Base.Int64.{half, neg64, wrap}
use openpay.Errors.{
  Result, ok, bind-eq-ok, fail_if, or_fail, or_fail-some, invalid_argument, not_found,
  wallet_operation_denied,
}
use openpay.Ledger.Types.{Direction, Journal, debit, credit}
use openpay.Ledger.Validate.Laws.{volume}
use openpay.Ledger.Chart.{psp_receivable, product_promotions, product_adjustments}
use openpay.Ledger.Post.Effect.{HasRoomFor}
use openpay.Ledger.Post.Correct.{post_journal-IsSound, post_journal-moves}
use openpay.Ledger.Store.{AccountRow, find_account, get_journal}
use openpay.Ledger.Sound.{IsSound, posted}
use openpay.Product.{Product, find_product}
use openpay.Wallet.Policy.{Operation, assert_allowed}
use openpay.Wallet.Types.{
  Wallet, Limits, GrantRequest, FundRequest, SpendRequest, TransferRequest, AdjustRequest, Clock,
  World, find_type,
}
use openpay.Wallet.Limits.{LimitCheck, check_limits_after_posting}
use openpay.Wallet.Engine.{
  leg, wallet_key, is_among, grant_reasons, adjust_reasons, is_foreign, allowed_type,
  account_by_code, post, grant, fund, spend, transfer, adjust, move,
}
use openpay.Wallet.Engine.Laws.{Posted, post-Posted, Posted-new}
use openpay.Wallet.Engine.Effects.{moved_on, HasRoomForMove}

-- The calls that move a wallet's money by a journal of two legs.
pub data Request : Type 0 where
  granting : GrantRequest → Request
  funding : FundRequest → Request
  spending : SpendRequest → Request
  transferring : TransferRequest → Request
  adjusting : AdjustRequest → Request
  moving : SpendRequest → Operation → Direction → Option ℕ → Request

abbrev pub amount_of : Request → ℤ
amount_of (granting r) = r.amount
amount_of (funding r) = r.amount
amount_of (spending r) = r.amount
amount_of (transferring r) = r.amount
amount_of (adjusting r) = r.amount
amount_of (moving r op direction reverses) = r.amount

-- The external id under which a call is booked.
abbrev pub external_id_of : Request → String
external_id_of (granting r) = wallet_key "grant:" r.wallet r.reference
external_id_of (funding r) = r.external_id
external_id_of (spending r) = r.external_id
external_id_of (transferring r) = wallet_key "transfer:" r.from r.reference
external_id_of (adjusting r) = wallet_key "adjust:" r.wallet r.reference
external_id_of (moving r op direction reverses) = r.external_id

-- The account that a call is about, the account that it is booked against, and the way that the money
-- goes on the first.
pub data Sides (w : World) : Request → ℕ → ℕ → Direction → Type 0 where
  granted :
      {r : GrantRequest} (product : Product) (row : AccountRow)
      → find_product r.funding_product_id w.products ≡ some product
      → account_by_code (product_promotions product.code) w ≡ ok row
      → Sides w (granting r) r.wallet.ledger_account_id row.account.id credit
  funded :
      {r : FundRequest} (row : AccountRow)
      → account_by_code (psp_receivable r.provider) w ≡ ok row
      → Sides w (funding r) r.wallet.ledger_account_id row.account.id credit
  spent :
      {r : SpendRequest} (row : AccountRow)
      → account_by_code r.counter_account_code w ≡ ok row
      → Sides w (spending r) r.wallet.ledger_account_id row.account.id debit
  transferred :
      {r : TransferRequest}
      → Sides w (transferring r) r.from.ledger_account_id r.to.ledger_account_id debit
  adjusted :
      {r : AdjustRequest} (product : Product) (row : AccountRow)
      → find_product r.product_id w.products ≡ some product
      → account_by_code (product_adjustments product.code) w ≡ ok row
      → Sides w (adjusting r) r.wallet.ledger_account_id row.account.id r.direction
  shifted :
      {r : SpendRequest} {op : Operation} {direction : Direction} {reverses : Option ℕ}
      (row : AccountRow)
      → account_by_code r.counter_account_code w ≡ ok row
      → Sides w (moving r op direction reverses) r.wallet.ledger_account_id row.account.id direction

on_account : ℕ → ℕ → Direction → ℤ → ℤ
on_account i account direction amount = if account == i then direction *ℤ amount else pos 0

posted-legs :
    (i a b : ℕ) (d e : Direction) (amount : ℤ) (currency : String)
    → posted i (leg a d amount currency ∷ leg b e amount currency ∷ [])
      ≡ on_account i a d amount +ℤ on_account i b e amount
unfolding on_account
posted-legs i a b d e amount currency = elim (Bool-cases (a == i)) [
  | inl x ↦ elim (Bool-cases (b == i)) [
    | inl y ↦ rw (x, y) (omega int_laws)
    | inr y ↦ rw (x, y) (omega int_laws)
  ]
  | inr x ↦ elim (Bool-cases (b == i)) [
    | inl y ↦ rw (x, y) (omega int_laws)
    | inr y ↦ rw (x, y) (omega int_laws)
  ]
]

-- Its account first, or its counter account first.
posted-forward :
    (i a b : ℕ) (d e : Direction) (amount : ℤ) (currency : String)
    → e ≡ neg64 d
    → posted i (leg a d amount currency ∷ leg b e amount currency ∷ []) ≡ moved_on i a b d amount
unfolding on_account
posted-forward i a b d e amount currency opposite =
    posted-legs i a b d e amount currency
    ∙ ap (λ x. on_account i a d amount +ℤ on_account i b x amount) opposite

posted-backward :
    (i a b : ℕ) (d e : Direction) (amount : ℤ) (currency : String)
    → e ≡ neg64 d
    → posted i (leg b e amount currency ∷ leg a d amount currency ∷ []) ≡ moved_on i a b d amount
unfolding on_account
posted-backward i a b d e amount currency opposite =
    posted-legs i b a e d amount currency
    ∙ swap (on_account i b e amount) (on_account i a d amount)
    ∙ ap (λ x. on_account i a d amount +ℤ on_account i b x amount) opposite
  where
    swap : (x y : ℤ) → x +ℤ y ≡ y +ℤ x
    swap x y = omega int_laws

credit_from_debit : credit ≡ neg64 debit
unfolding neg64 neg wrap
credit_from_debit = refl

debit_from_credit : debit ≡ neg64 credit
unfolding neg64 neg wrap
debit_from_credit = refl

module _ (c : Clock) (limits : Limits) where
  abbrev pub run : Request → World → Result (Journal × World)
  run (granting r) w = grant c limits r w
  run (funding r) w = fund c limits r w
  run (spending r) w = spend c limits r w
  run (transferring r) w = transfer c limits r w
  run (adjusting r) w = adjust c limits r w
  run (moving r op direction reverses) w = move c limits r op direction reverses w

  -- A call that comes down to `post`, with a journal of two legs of one amount.
  record Booked (r : Request) (w : World) (j' : Journal) (w' : World) : Type 0 where
    j : Journal
    wallet : Wallet
    direction : Direction
    check : LimitCheck
    others : List Wallet
    posting : Posted c limits j wallet direction (amount_of r) check others w j' w'
    size : volume j.postings ≡ magnitude (amount_of r) + (magnitude (amount_of r) + 0)
    external_id : j.external_id ≡ external_id_of r
    first : ℕ
    second : ℕ
    way : Direction
    sides : Sides w r first second way
    effect : (i : ℕ) → posted i j.postings ≡ moved_on i first second way (amount_of r)

  booked :
      (r : Request) (j : Journal) (wallet : Wallet) (direction : Direction) (check : LimitCheck)
      (others : List Wallet) (w : World) (j' : Journal) (w' : World) (first second : ℕ)
      (way : Direction)
      → post c limits j wallet direction (amount_of r) check others w ≡ ok (j', w')
      → volume j.postings ≡ magnitude (amount_of r) + (magnitude (amount_of r) + 0)
      → j.external_id ≡ external_id_of r
      → Sides w r first second way
      → ((i : ℕ) → posted i j.postings ≡ moved_on i first second way (amount_of r))
      → Booked r w j' w'
  booked r j wallet direction check others w j' w' first second way h size x sides effect = record {
    j = j;
    wallet = wallet;
    direction = direction;
    check = check;
    others = others;
    posting = post-Posted c limits j wallet direction (amount_of r) check others w j' w' h;
    size = size;
    external_id = x;
    first = first;
    second = second;
    way = way;
    sides = sides;
    effect = effect;
  }

  run-Booked :
      (r : Request) (w : World) (j' : Journal) (w' : World)
      → run r w ≡ ok (j', w')
      → Booked r w j' w'
  unfolding grant fund spend transfer adjust move
  run-Booked (granting r) w j' w' h =
      let (a, _, h1) =
        bind-eq-ok (fail_if (not (is_among r.reason_code grant_reasons)) invalid_argument) _ h in
      let (b, _, h2) =
        bind-eq-ok
          (fail_if (is_foreign r.wallet.product_id r.funding_product_id) wallet_operation_denied) _
          h1 in
      let (t, _, h3) = bind-eq-ok (allowed_type Operation.grant r.wallet r.amount w) _ h2 in
      let (product, sold, h4) =
        bind-eq-ok (or_fail (find_product r.funding_product_id w.products) not_found) _ h3 in
      let (d, named, h5) = bind-eq-ok (account_by_code (product_promotions product.code) w) _ h4 in
      booked (granting r) _ _ _ _ _ w j' w' r.wallet.ledger_account_id d.account.id credit h5 refl
        refl (granted product d (or_fail-some _ not_found product sold) named)
        (λ i.
          posted-backward i r.wallet.ledger_account_id d.account.id credit debit r.amount t.currency
            debit_from_credit)
  run-Booked (funding r) w j' w' h =
      let (t, _, h1) = bind-eq-ok (allowed_type Operation.fund r.wallet r.amount w) _ h in
      let (d, named, h2) = bind-eq-ok (account_by_code (psp_receivable r.provider) w) _ h1 in
      booked (funding r) _ _ _ _ _ w j' w' r.wallet.ledger_account_id d.account.id credit h2 refl
        refl (funded d named)
        (λ i.
          posted-backward i r.wallet.ledger_account_id d.account.id credit debit r.amount t.currency
            debit_from_credit)
  run-Booked (spending r) w j' w' h =
      let (t, _, h1) = bind-eq-ok (allowed_type Operation.spend r.wallet r.amount w) _ h in
      let (d, named, h2) = bind-eq-ok (account_by_code r.counter_account_code w) _ h1 in
      booked (spending r) _ _ _ _ _ w j' w' r.wallet.ledger_account_id d.account.id debit h2 refl
        refl (spent d named)
        (λ i.
          posted-forward i r.wallet.ledger_account_id d.account.id debit credit r.amount t.currency
            credit_from_debit)
  run-Booked (transferring r) w j' w' h =
      let (a, _, h1) =
        bind-eq-ok
          (fail_if (not (r.from.wallet_type_id == r.to.wallet_type_id)) wallet_operation_denied) _
          h in
      let (b, _, h2) = bind-eq-ok (fail_if (r.from.id == r.to.id) invalid_argument) _ h1 in
      let (t, _, h3) =
        bind-eq-ok (or_fail (find_type r.from.wallet_type_id w.types) not_found) _ h2 in
      let (u, _, h4) =
        bind-eq-ok (assert_allowed t r.from.status Operation.transfer_out r.amount) _ h3 in
      let (v, _, h5) =
        bind-eq-ok (assert_allowed t r.to.status Operation.transfer_in r.amount) _ h4 in
      booked (transferring r) _ _ _ _ _ w j' w' r.from.ledger_account_id r.to.ledger_account_id
        debit h5 refl refl transferred
        (λ i.
          posted-forward i r.from.ledger_account_id r.to.ledger_account_id debit credit r.amount
            t.currency credit_from_debit)
  run-Booked (adjusting r) w j' w' h =
      let (a, _, h1) =
        bind-eq-ok (fail_if (not (is_among r.reason_code adjust_reasons)) invalid_argument) _ h in
      let (b, _, h2) =
        bind-eq-ok
          (fail_if (not (eqb_ℤ r.direction credit) && not (eqb_ℤ r.direction debit))
            invalid_argument)
          _ h1 in
      let (d, _, h3) =
        bind-eq-ok (fail_if (is_foreign r.wallet.product_id r.product_id) invalid_argument) _ h2 in
      let (t, _, h4) = bind-eq-ok (allowed_type Operation.adjust r.wallet r.amount w) _ h3 in
      let (product, sold, h5) =
        bind-eq-ok (or_fail (find_product r.product_id w.products) not_found) _ h4 in
      let (e, named, h6) = bind-eq-ok (account_by_code (product_adjustments product.code) w) _ h5 in
      booked (adjusting r) _ _ _ _ _ w j' w' r.wallet.ledger_account_id e.account.id r.direction h6
        refl refl (adjusted product e (or_fail-some _ not_found product sold) named)
        (λ i.
          posted-backward i r.wallet.ledger_account_id e.account.id r.direction (neg64 r.direction)
            r.amount t.currency refl)
  run-Booked (moving r op direction reverses) w j' w' h =
      let (t, _, h1) = bind-eq-ok (allowed_type op r.wallet r.amount w) _ h in
      let (d, named, h2) = bind-eq-ok (account_by_code r.counter_account_code w) _ h1 in
      booked (moving r op direction reverses) _ _ _ _ _ w j' w' r.wallet.ledger_account_id
        d.account.id direction h2 refl refl (shifted d named)
        (λ i.
          posted-forward i r.wallet.ledger_account_id d.account.id direction (neg64 direction)
            r.amount t.currency refl)

pub run-IsSound :
    (c : Clock) (limits : Limits) (r : Request) (w : World) (j' : Journal) (w' : World)
    → magnitude (amount_of r) + (magnitude (amount_of r) + 0) < half
    → HasRoomFor (magnitude (amount_of r) + (magnitude (amount_of r) + 0)) w.books
    → IsSound w.books
    → run c limits r w ≡ ok (j', w')
    → IsSound w'.books
run-IsSound c limits r w j' w' small room sound h =
    let b = run-Booked c limits r w j' w' h in
    post_journal-IsSound (check_limits_after_posting c limits w b.check) b.j w.books
      b.posting.inserted j' w'.books (subst (λ n. n < half) (sym b.size) small)
      (subst (λ n. HasRoomFor n w.books) (sym b.size) room) sound b.posting.posting

-- A grant, top-up, spend, transfer, adjustment or movement of a refund, chargeback or withdrawal that is
-- booked under a new external id moves its amount between two accounts and changes no other balance and
-- no reservation. A grant comes from the funding product's promotions, a top-up from the provider's
-- receivable, a spend goes to the counter account, a transfer to the other wallet, and an adjustment is
-- against the product's adjustments, in the direction asked for. The tables keep the rules of the ledger.
-- This is for tables that keep those rules and have room for the two legs.
pub run-moves :
    (c : Clock) (limits : Limits) (r : Request) (w : World) (j' : Journal) (w' : World)
    → HasRoomForMove (amount_of r) w
    → IsSound w.books
    → get_journal (external_id_of r) w.books ≡ none
    → run c limits r w ≡ ok (j', w')
    → IsSound w'.books
      × ((first : ℕ) × (second : ℕ) × (way : Direction) × Sides w r first second way
          × ((i : ℕ) (row : AccountRow)
              → find_account i w.books.accounts ≡ some row
              → (row' : AccountRow) × (find_account i w'.books.accounts ≡ some row')
                × (row'.account ≡ row.account)
                × (row'.balance.raw_balance
                    ≡ row.balance.raw_balance +ℤ moved_on i first second way (amount_of r))
                × (row'.balance.held ≡ row.balance.held)))
run-moves c limits r w j' w' room sound new h =
    let b = run-Booked c limits r w j' w' h in
    let (posting, told) =
      Posted-new c limits b.j b.wallet b.direction (amount_of r) b.check b.others w j' w' b.posting
        (ap (λ x. get_journal x w.books) b.external_id ∙ new) in
    (
      run-IsSound c limits r w j' w' room.0 room.1 sound h,
      (
        b.first,
        b.second,
        b.way,
        b.sides,
        λ i row found.
            let (row', found', account, raw, held) =
              post_journal-moves (check_limits_after_posting c limits w b.check) b.j w.books j'
                w'.books (subst (λ n. n < half) (sym b.size) room.0)
                (subst (λ n. HasRoomFor n w.books) (sym b.size) room.1) posting i row found in
            (
              row',
              found',
              account,
              raw ∙ ap (λ z. row.balance.raw_balance +ℤ z) (b.effect i),
              held,
            ),
      ),
    )
