-- ===== src/Wallet/Engine/Effects.antt =====
-- What a movement between a wallet and a counter account does to every balance.
use openpay.Base.{
  ℕ, ◌+◌, ◌==◌, ◌<◌, ◌≡◌, ◌∙◌, sym, ap, refl, subst, Bool, none, some, String, Option, List, [],
  ◌∷◌, arith, if◌then◌else◌, Bool-cases, some-eq, inl, inr,
}
use openpay.Base.Int.{ℤ, pos, magnitude, ◌+ℤ◌, ◌*ℤ◌, neg, int_laws, one_*ℤ, minus_one_*ℤ}
use openpay.Base.Int64.{half, neg64, wrap}
use openpay.Errors.{Result, ok, bind-eq-ok, or_fail-some, not_found}
use openpay.Ledger.Types.{Direction, Journal, LedgerAccount, debit, credit}
use openpay.Ledger.Store.{AccountRow, Store, find_account, get_journal}
use openpay.Ledger.Chart.{find_account_by_code}
use openpay.Ledger.Locks.{LockedAccount}
use openpay.Ledger.Post.{Check, new_row, post_journal, update_balance, write_balances}
use openpay.Ledger.Post.Effect.{HasRoomFor, post_new-Stages}
use openpay.Ledger.Post.Correct.{post_journal-Answer, post_journal-moves}
use openpay.Ledger.Sound.{posted}
use openpay.Wallet.Policy.{Operation, WalletType}
use openpay.Wallet.Types.{Limits, SpendRequest, Clock, World}
use openpay.Wallet.Limits.{unlimited, check_limits_after_posting}
use openpay.Wallet.Engine.{
  move_journal, allowed_type, account_by_code, post, move, refund_out, restore,
}
use openpay.Wallet.Engine.Laws.{post-Posted, Posted-new}

-- What the two legs of a movement sum to on an account.
abbrev pub moved_on : ℕ → ℕ → ℕ → Direction → ℤ → ℤ
moved_on i wallet counter direction amount =
    (if wallet == i then direction *ℤ amount else pos 0)
    +ℤ (if counter == i then neg64 direction *ℤ amount else pos 0)

posted-move_journal :
    (c : Clock) (limits : Limits) (i : ℕ) (r : SpendRequest) (t : WalletType) (row : AccountRow)
    (direction : Direction) (reverses : Option ℕ)
    → posted i (move_journal c limits r t row direction reverses).postings
      ≡ moved_on i r.wallet.ledger_account_id row.account.id direction r.amount
posted-move_journal c limits i r t row direction reverses =
    elim (Bool-cases (r.wallet.ledger_account_id == i)) [
      | inl a ↦ elim (Bool-cases (row.account.id == i)) [
        | inl b ↦ rw (a, b) (omega int_laws)
        | inr b ↦ rw (a, b) (omega int_laws)
      ]
      | inr a ↦ elim (Bool-cases (row.account.id == i)) [
        | inl b ↦ rw (a, b) (omega int_laws)
        | inr b ↦ rw (a, b) (omega int_laws)
      ]
    ]

same_row : {A : Type 0} (x y : A) → ◌≡◌ {A = Result A} (ok x) (ok y) → x ≡ y
same_row x y e = cc

-- There is room on every account for two legs of an amount.
abbrev pub HasRoomForMove : ℤ → World → Type 0
HasRoomForMove amount w =
    (magnitude amount + (magnitude amount + 0) < half)
    × HasRoomFor (magnitude amount + (magnitude amount + 0)) w.books

module _ (c : Clock) (limits : Limits) (r : SpendRequest) (op : Operation) (direction : Direction)
    (reverses : Option ℕ) (w : World) (j' : Journal) (w' : World)
    (h : move c limits r op direction reverses w ≡ ok (j', w')) where
  pub move-stages :
      (t : WalletType) × (row : AccountRow) × (account_by_code r.counter_account_code w ≡ ok row)
      × (post c limits
            (move_journal c limits r t row direction reverses)
            r.wallet
            direction
            r.amount
            unlimited
            []
            w
          ≡ ok (j', w'))
  unfolding move
  move-stages =
      let (t, _, h1) = bind-eq-ok (allowed_type op r.wallet r.amount w) _ h in
      let (d, there, h2) = bind-eq-ok (account_by_code r.counter_account_code w) _ h1 in
      (t, d, there, h2)

  -- A movement that is booked changes the wallet's raw balance by the amount in its direction, the
  -- counter account's by the opposite, and no other balance; no reservation changes.
  pub move-moves :
      (counter : AccountRow)
      → account_by_code r.counter_account_code w ≡ ok counter
      → get_journal r.external_id w.books ≡ none
      → HasRoomForMove r.amount w
      → (i : ℕ) (row : AccountRow) → find_account i w.books.accounts ≡ some row
      → (row' : AccountRow) × (find_account i w'.books.accounts ≡ some row')
        × (row'.account ≡ row.account)
        × (row'.balance.raw_balance
            ≡ row.balance.raw_balance
              +ℤ moved_on i r.wallet.ledger_account_id counter.account.id direction r.amount)
        × (row'.balance.held ≡ row.balance.held)
  move-moves counter named new room i row found =
      let (t, d, there, h1) = move-stages in
      let p =
        post-Posted c limits (move_journal c limits r t d direction reverses) r.wallet direction
          r.amount unlimited [] w j' w' h1 in
      let (posting, told) =
        Posted-new c limits (move_journal c limits r t d direction reverses) r.wallet direction
          r.amount unlimited [] w j' w' p new in
      let (row', found', account, raw, held) =
        post_journal-moves (check_limits_after_posting c limits w unlimited)
          (move_journal c limits r t d direction reverses) w.books j' w'.books room.0 room.1 posting
          i row found in
      (
        row',
        found',
        account,
        raw
            ∙ ap (λ z. row.balance.raw_balance +ℤ z)
                (posted-move_journal c limits i r t d direction reverses
                  ∙ ap
                      (λ (x : AccountRow).
                        moved_on i r.wallet.ledger_account_id x.account.id direction r.amount)
                      (same_row d counter (sym there ∙ named))),
        held,
      )

abbrev account_of : Option AccountRow → Option LedgerAccount
account_of none = none
account_of (some r) = some r.account

-- Posting changes no account's code.
find_account_by_code-update_balance :
    (x : String) (l : LockedAccount) (rows : List AccountRow)
    → account_of (find_account_by_code x (update_balance l rows))
      ≡ account_of (find_account_by_code x rows)
unfolding find_account_by_code
find_account_by_code-update_balance x l [] = refl
find_account_by_code-update_balance x l (r ∷ rows) =
    ground (arith, find_account_by_code-update_balance x l rows)

find_account_by_code-write_balances :
    (x : String) (ls : List LockedAccount) (rows : List AccountRow)
    → account_of (find_account_by_code x (write_balances ls rows))
      ≡ account_of (find_account_by_code x rows)
unfolding write_balances
find_account_by_code-write_balances x [] rows = refl
find_account_by_code-write_balances x (l ∷ ls) rows =
    find_account_by_code-update_balance x l (write_balances ls rows)
    ∙ find_account_by_code-write_balances x ls rows

-- Posting a journal leaves every code with the account that it named.
pub post_journal-find_account_by_code :
    (check : Check) (j : Journal) (s : Store) (b : Bool) (j' : Journal) (s' : Store) (x : String)
    → post_journal [] check j s ≡ ok (b, j', s')
    → account_of (find_account_by_code x s'.accounts)
      ≡ account_of (find_account_by_code x s.accounts)
post_journal-find_account_by_code check j s b j' s' x h =
    let (in_tx, valid, answer) = post_journal-Answer [] check j s b j' s' h in
    elim answer [
      | inl (fresh, posted_new) ↦
          let st = (post_new-Stages [] check (new_row j s) s b j' s' posted_new).1 in
          ap (λ (z : Store). account_of (find_account_by_code x z.accounts)) st.store
          ∙ find_account_by_code-write_balances x st.w.locked s.accounts
      | inr (there, replay, unchanged) ↦
          ap (λ (z : Store). account_of (find_account_by_code x z.accounts)) unchanged
    ]

back_and_forth :
    (i wallet counter : ℕ) (amount x : ℤ)
    → (x +ℤ moved_on i wallet counter debit amount) +ℤ moved_on i wallet counter credit amount ≡ x
unfolding neg64 neg wrap
back_and_forth i wallet counter amount x = elim (Bool-cases (wallet == i)) [
  | inl a ↦ elim (Bool-cases (counter == i)) [
    | inl b ↦ rw (a, b, one_*ℤ, minus_one_*ℤ) (omega int_laws)
    | inr b ↦ rw (a, b, one_*ℤ, minus_one_*ℤ) (omega int_laws)
  ]
  | inr a ↦ elim (Bool-cases (counter == i)) [
    | inl b ↦ rw (a, b, one_*ℤ, minus_one_*ℤ) (omega int_laws)
    | inr b ↦ rw (a, b) (omega int_laws)
  ]
]

same_account :
    (x y : Option AccountRow) (r q : AccountRow)
    → x ≡ some r
    → y ≡ some q
    → account_of y ≡ account_of x
    → q.account ≡ r.account
same_account x y r q e f same =
    some-eq q.account r.account (sym (ap account_of f) ∙ same ∙ ap account_of e)

there_and_back :
    (i a a' b b' : ℕ) (x x' z y y' : ℤ)
    → a' ≡ a
    → b' ≡ b
    → x' ≡ x
    → y ≡ z +ℤ moved_on i a b debit x
    → y' ≡ y +ℤ moved_on i a' b' credit x'
    → y' ≡ z
there_and_back i a a' b b' x x' z y y' ea eb ex e f =
    rw (f, e, ea, eb, ex) (back_and_forth i a b x z)

-- A refund that a provider fails gives the wallet back what it took: after `RefundOut` and then
-- `Restore` of the same amount between the same wallet and counter account, each booked under a new
-- external id, every account has the balance and the reservation that it had before.
pub restore-refund_out :
    (c : Clock) (limits : Limits) (r q : SpendRequest) (w w1 w2 : World) (j1 j2 : Journal)
    → q.wallet.ledger_account_id ≡ r.wallet.ledger_account_id
    → q.counter_account_code ≡ r.counter_account_code
    → q.amount ≡ r.amount
    → get_journal r.external_id w.books ≡ none
    → get_journal q.external_id w1.books ≡ none
    → HasRoomForMove r.amount w
    → HasRoomForMove r.amount w1
    → refund_out c limits r w ≡ ok (j1, w1)
    → restore c limits q j1 w1 ≡ ok (j2, w2)
    → (i : ℕ) (row : AccountRow) → find_account i w.books.accounts ≡ some row
    → (row' : AccountRow) × (find_account i w2.books.accounts ≡ some row')
      × (row'.account ≡ row.account)
      × (row'.balance.raw_balance ≡ row.balance.raw_balance)
      × (row'.balance.held ≡ row.balance.held)
unfolding refund_out restore
restore-refund_out c limits r q w w1 w2 j1 j2 wallet code amount new1 new2 room1 room2 out back i
      row found =
    let (t, counter, named, h1) =
      move-stages c limits r Operation.refund_out debit none w j1 w1 out in
    let (t', counter', named', h2) =
      move-stages c limits q Operation.restore credit (some j1.id) w1 j2 w2 back in
    let p = post-Posted c limits _ _ _ _ _ _ w j1 w1 h1 in
    let (row1, found1, account1, raw1, held1) =
      move-moves c limits r Operation.refund_out debit none w j1 w1 out counter named new1 room1 i
        row found in
    let (row2, found2, account2, raw2, held2) =
      move-moves c limits q Operation.restore credit (some j1.id) w1 j2 w2 back counter' named' new2
        (subst (λ x. HasRoomForMove x w1) (sym amount) room2) i row1 found1 in
    let same : counter'.account.id ≡ counter.account.id =
      ap (λ (x : LedgerAccount). x.id)
        (same_account (find_account_by_code r.counter_account_code w.books.accounts)
          (find_account_by_code r.counter_account_code w1.books.accounts) counter counter'
          (or_fail-some _ not_found counter named)
          (or_fail-some _ not_found counter'
            (subst (λ x. account_by_code x w1 ≡ ok counter') code named'))
          (post_journal-find_account_by_code _ _ w.books p.inserted j1 w1.books
            r.counter_account_code p.posting)) in
    (
      row2,
      found2,
      account2 ∙ account1,
      there_and_back i r.wallet.ledger_account_id q.wallet.ledger_account_id counter.account.id
          counter'.account.id r.amount q.amount row.balance.raw_balance row1.balance.raw_balance
          row2.balance.raw_balance wallet same amount raw1 raw2,
      held2 ∙ held1,
    )
