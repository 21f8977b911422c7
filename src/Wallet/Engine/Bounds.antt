-- ===== src/Wallet/Engine/Bounds.antt =====
-- The limits of a wallet's type and of a person hold behind every credit.
use openpay.Base.{
  ◌≡◌, ◌∙◌, sym, subst, true, false, ◌&&◌, if_true, some-eq, none, some, Option, List, [], arith,
}
use openpay.Base.Int.{ℤ, pos, ◌≤ℤ◌, ◌<ℤ◌, ltb_ℤ}
use openpay.Errors.{
  Result, ok, bind-eq-ok, fail_if, fail_if-passes, or_fail, or_fail-some, not_found,
  wallet_operation_denied,
}
use openpay.Ledger.Types.{AccountType, Balance, Direction, Journal, natural}
use openpay.Ledger.Store.{AccountRow, Store, find_account, get_journal}
use openpay.Ledger.Post.Correct.{post_journal-checked}
use openpay.Wallet.Policy.{Operation, WalletType, credits, loads, above}
use openpay.Wallet.Types.{Wallet, Limits, Clock, World}
use openpay.Wallet.Limits.{
  limited, get_balance, wallet_loads, customer_funded_balance, customer_funded_loads,
  check_max_balance, check_customer_limits, check_limited, check_limits_after_posting,
}
use openpay.Wallet.Engine.{post}
use openpay.Wallet.Engine.Laws.{post-Posted, Posted-new, Posted-tables}

-- The limits that a credit to a wallet of this type must respect, on the tables `s`.
pub record IsWithinLimits (c : Clock) (limits : Limits) (w : World) (wallet : Wallet)
    (t : WalletType) (op : Operation) (s : Store) : Type 0 where
  pub balance :
      (most : ℤ)
      → t.max_balance ≡ some most
      → (r : AccountRow) × (find_account wallet.ledger_account_id s.accounts ≡ some r)
        × (natural r.balance AccountType.liability ≤ℤ most)
  pub daily :
      (most : ℤ)
      → t.daily_load_limit ≡ some most
      → loads op ≡ true
      → wallet_loads c wallet.ledger_account_id s ≤ℤ most
  pub person :
      t.fundable ≡ true
      → pos 0 <ℤ limits.max_customer_balance
      → customer_funded_balance wallet.customer_id w.types w.wallets s.accounts
        ≤ℤ limits.max_customer_balance
  pub person_daily :
      t.fundable ≡ true
      → pos 0 <ℤ limits.max_customer_daily_load
      → loads op ≡ true
      → customer_funded_loads c wallet.customer_id w.types w.wallets s
        ≤ℤ limits.max_customer_daily_load

not_above : (a b : ℤ) → ltb_ℤ b a ≡ false → a ≤ℤ b
not_above a b h = ground arith

same_ok : {A : Type 0} (x y : A) → ◌≡◌ {A = Result A} (ok x) (ok y) → x ≡ y
same_ok x y e = cc

check_max_balance-passes :
    (wallet : Wallet) (s : Store) (most : Option ℤ)
    → check_max_balance most wallet.ledger_account_id s.accounts ≡ ok tt
    → (m : ℤ) → most ≡ some m
    → (r : AccountRow) × (find_account wallet.ledger_account_id s.accounts ≡ some r)
      × (natural r.balance AccountType.liability ≤ℤ m)
unfolding check_max_balance
check_max_balance-passes wallet s none h m e = cc
check_max_balance-passes wallet s (some x) h m e =
    let (b, got, h1) = bind-eq-ok (get_balance wallet.ledger_account_id s.accounts) _ h in
    let (r, found, h2) =
      bind-eq-ok (or_fail (find_account wallet.ledger_account_id s.accounts) not_found) _ got in
    let fits =
      not_above (natural b AccountType.liability) x (
        fail_if-passes (ltb_ℤ x (natural b AccountType.liability)) wallet_operation_denied tt h1) in
    (
      r,
      or_fail-some _ not_found r found,
      subst (λ (z : ℤ). natural r.balance AccountType.liability ≤ℤ z) (some-eq x m e)
          (subst (λ (z : Balance). natural z AccountType.liability ≤ℤ x)
            (sym (same_ok r.balance b h2)) fits),
    )

module _ (c : Clock) (limits : Limits) (w : World) (wallet : Wallet) (t : WalletType)
    (op : Operation) (s : Store) where
  check_customer_limits-passes :
      check_customer_limits c limits w wallet t op s ≡ ok tt
      → t.fundable ≡ true
      → (pos 0 <ℤ limits.max_customer_balance
          → customer_funded_balance wallet.customer_id w.types w.wallets s.accounts
            ≤ℤ limits.max_customer_balance)
        × (pos 0 <ℤ limits.max_customer_daily_load
            → loads op ≡ true
            → customer_funded_loads c wallet.customer_id w.types w.wallets s
              ≤ℤ limits.max_customer_daily_load)
  unfolding check_customer_limits
  check_customer_limits-passes h fundable =
      (λ cap. ground (arith, h), λ cap loading. ground (arith, h))

  check_limited-IsWithinLimits :
      check_limited c limits w wallet t op s ≡ ok tt → IsWithinLimits c limits w wallet t op s
  unfolding check_limited
  check_limited-IsWithinLimits h =
      let (u, max, h1) =
        bind-eq-ok (check_max_balance t.max_balance wallet.ledger_account_id s.accounts) _ h in
      let (v, load, h2) =
        bind-eq-ok
          (fail_if
            (loads op && above (wallet_loads c wallet.ledger_account_id s) t.daily_load_limit)
            wallet_operation_denied)
          _ h1 in
      let under =
        fail_if-passes
          (loads op && above (wallet_loads c wallet.ledger_account_id s) t.daily_load_limit)
          wallet_operation_denied v load in
      record {
        balance = check_max_balance-passes wallet s t.max_balance max;
        daily = λ m e loading. ground (arith, under, e, loading);
        person = λ fundable. (check_customer_limits-passes h2 fundable).0;
        person_daily = λ fundable. (check_customer_limits-passes h2 fundable).1;
      }

pairs : {A B : Type 0} (a a' : A) (b b' : B) → a' ≡ a → b' ≡ b → ◌≡◌ {A = A × B} (a, b) (a', b')
pairs a a' b b' e f = cc

-- A credit that `post` writes with the limits of a wallet's type leaves the wallet within them: its
-- balance is at most the type's maximum, what was loaded into it today is at most the daily limit,
-- and for money that was paid in, the person's balance and loads over all wallets are within the
-- caps that are set.
pub post-IsWithinLimits :
    (c : Clock) (limits : Limits) (j : Journal) (wallet : Wallet) (direction : Direction)
    (amount : ℤ) (target : Wallet) (t : WalletType) (op : Operation) (others : List Wallet)
    (w : World) (j' : Journal) (w' : World)
    → credits op ≡ true
    → get_journal j.external_id w.books ≡ none
    → post c limits j wallet direction amount (limited target t op) others w ≡ ok (j', w')
    → IsWithinLimits c limits w' target t op w'.books
unfolding check_limits_after_posting
post-IsWithinLimits c limits j wallet direction amount target t op others w j' w' credit new h =
    let p = post-Posted c limits j wallet direction amount (limited target t op) others w j' w' h in
    let (posting, told) =
      Posted-new c limits j wallet direction amount (limited target t op) others w j' w' p new in
    let (types, wallets) =
      Posted-tables c limits j wallet direction amount (limited target t op) others w j' w' p in
    let checked =
      post_journal-checked [] (check_limits_after_posting c limits w (limited target t op)) j
        w.books j' w'.books posting in
    let within =
      check_limited-IsWithinLimits c limits w target t op w'.books
        (sym (if_true _ _ credit) ∙ checked) in
    record {
      balance = within.balance;
      daily = within.daily;
      person = λ fundable cap.
          subst
            (λ (x : List WalletType × List Wallet).
              customer_funded_balance target.customer_id x.0 x.1 w'.books.accounts
              ≤ℤ limits.max_customer_balance)
            (pairs _ _ _ _ types wallets) (within.person fundable cap);
      person_daily = λ fundable cap loading.
          subst
            (λ (x : List WalletType × List Wallet).
              customer_funded_loads c target.customer_id x.0 x.1 w'.books
              ≤ℤ limits.max_customer_daily_load)
            (pairs _ _ _ _ types wallets) (within.person_daily fundable cap loading);
    }
