-- ===== src/Wallet/Expiry/Laws.antt =====
-- A dormant wallet lapses whole, or not at all.
use openpay.Base.{
  ℕ, ◌+◌, ◌==◌, ◌<◌, ◌≡◌, ◌≢◌, ◌∙◌, sym, ap, refl, subst, Bool, true, false, not, ◌||◌, none, some,
  String, [], ◌∷◌, arith, if◌then◌else◌, if_true, some-eq,
}
use openpay.Base.Int.{
  ℤ, pos, pos_part, neg_part, magnitude, ◌+ℤ◌, ◌*ℤ◌, neg, eqb_ℤ, int_laws, one_*ℤ,
}
use openpay.Base.Int64.{half}
use openpay.Errors.{
  Result, ok, err, bind-eq-ok, or_fail, or_fail-some, fail_if-passes, not_found,
  failed_precondition,
}
use openpay.Ledger.Types.{Balance, Journal, debit, credit}
use openpay.Ledger.Store.{AccountRow, Store, find_account, get_journal}
use openpay.Ledger.Post.{post_journal}
use openpay.Ledger.Post.Effect.{HasRoomFor}
use openpay.Ledger.Post.Correct.{post_journal-checked, post_journal-posted, post_journal-moves}
use openpay.Product.{Product, find_product}
use openpay.Wallet.Policy.{WalletType}
use openpay.Wallet.Types.{Wallet, ExpiryCandidate, Clock, World, find_type}
use openpay.Wallet.Limits.{get_balance}
use openpay.Wallet.Engine.{account_by_code, emit_movements, wallet_key}
use openpay.Wallet.Expiry.{
  find_wallet, latest_posting_id, is_still_dormant, mend, destination, expiry_journal, expire,
}

mend-ok : {A : Type 0} (x : Result A) (a : A) → mend x ≡ ok a → x ≡ ok a
mend-ok (ok x) a h = h
mend-ok (err x) a h = cc

-- What a lapse leaves of a wallet's account.
pub record IsLapsed (c : Clock) (wallet : Wallet) (candidate : ExpiryCandidate) (j : Journal)
    (s : Store) : Type 0 where
  pub row : AccountRow
  pub found : find_account wallet.ledger_account_id s.accounts ≡ some row
  pub empty : row.balance.raw_balance ≡ pos 0
  pub unheld : row.balance.held ≡ pos 0
  pub dormant :
      latest_posting_id c wallet.ledger_account_id j.id s.postings ≡ candidate.last_posting_id

same_ok : {A : Type 0} (x y : A) → ◌≡◌ {A = Result A} (ok x) (ok y) → x ≡ y
same_ok x y e = cc

is_still_dormant-IsLapsed :
    (c : Clock) (wallet : Wallet) (candidate : ExpiryCandidate) (j : Journal) (s : Store)
    → is_still_dormant c wallet candidate.last_posting_id j s ≡ ok tt
    → IsLapsed c wallet candidate j s
unfolding is_still_dormant
is_still_dormant-IsLapsed c wallet candidate j s h =
    let (b, got, h1) = bind-eq-ok (get_balance wallet.ledger_account_id s.accounts) _ h in
    let (r, found, h2) =
      bind-eq-ok (or_fail (find_account wallet.ledger_account_id s.accounts) not_found) _ got in
    let same : r.balance ≡ b = same_ok r.balance b h2 in
    let passes =
      fail_if-passes
        (not (
            latest_posting_id c wallet.ledger_account_id j.id s.postings
            == candidate.last_posting_id)
          || (not (eqb_ℤ b.raw_balance (pos 0)) || not (eqb_ℤ b.held (pos 0))))
        failed_precondition tt h1 in
    record {
      row = r;
      found = or_fail-some _ not_found r found;
      empty = ap (λ (x : Balance). x.raw_balance) same ∙ ground (arith, passes);
      unheld = ap (λ (x : Balance). x.held) same ∙ ground (arith, passes);
      dormant = ground (arith, passes);
    }

answered :
    (b : Bool) (k : Journal) (s : Store) (wallet : Wallet) (w : World) (j' : Journal) (w' : World)
    → ◌≡◌ {A = Result (Journal × World)}
        (ok (
          if b
          then (k, emit_movements k (wallet ∷ []) (record w { books = s }))
          else (k, record w { books = s })))
        (ok (j', w'))
    → ◌≡◌ {A = Result (Bool × Journal × Store)} (ok (b, k, s)) (ok (b, j', w'.books))
answered true k s wallet w j' w' e = ground (arith, e)
answered false k s wallet w j' w' e = ground (arith, e)

module _ (c : Clock) (format : ℕ → String) (memo : String) (candidate : ExpiryCandidate) (w : World)
    (j' : Journal) (w' : World) (h : expire c format memo candidate w ≡ ok (j', w'))
    (wallet : Wallet) (there : find_wallet candidate.wallet_public_id w.wallets ≡ some wallet) where
  pub record Expired : Type 0 where
    pub owner : ℕ
    pub t : WalletType
    pub product : Product
    pub counter : AccountRow
    pub owned : wallet.product_id ≡ some owner
    pub typed : find_type wallet.wallet_type_id w.types ≡ some t
    pub sold : find_product owner w.products ≡ some product
    pub named : account_by_code (destination t product.code) w ≡ ok counter
    pub inserted : Bool
    pub posting :
        post_journal []
          (is_still_dormant c wallet candidate.last_posting_id)
          (expiry_journal format candidate wallet owner t.currency memo counter.account.id)
          w.books
        ≡ ok (inserted, j', w'.books)

  expire-Expired : Expired
  unfolding expire
  expire-Expired =
      let (wallet', e0, h0) =
        bind-eq-ok (or_fail (find_wallet candidate.wallet_public_id w.wallets) not_found) _ h in
      let same : wallet' ≡ wallet =
        some-eq wallet' wallet (sym (or_fail-some _ not_found wallet' e0) ∙ there) in
      let (owner, e1, h1) = bind-eq-ok (or_fail wallet'.product_id failed_precondition) _ h0 in
      let (t, e2, h2) =
        bind-eq-ok (or_fail (find_type wallet'.wallet_type_id w.types) not_found) _ h1 in
      let (product, e3, h3) = bind-eq-ok (or_fail (find_product owner w.products) not_found) _ h2 in
      let (counter, e4, h4) = bind-eq-ok (account_by_code (destination t product.code) w) _ h3 in
      let (answer, e5, h5) =
        bind-eq-ok
          (mend (
            post_journal [] (is_still_dormant c wallet' candidate.last_posting_id)
              (expiry_journal format candidate wallet' owner t.currency memo counter.account.id)
              w.books))
          _ h4 in
      record {
        owner = owner;
        t = t;
        product = product;
        counter = counter;
        owned =
            subst (λ (x : Wallet). x.product_id ≡ some owner) same
              (or_fail-some _ failed_precondition owner e1);
        typed =
            subst (λ (x : Wallet). find_type x.wallet_type_id w.types ≡ some t) same
              (or_fail-some _ not_found t e2);
        sold = or_fail-some _ not_found product e3;
        named = e4;
        inserted = answer.0;
        posting =
            subst
              (λ (x : Wallet).
                post_journal [] (is_still_dormant c x candidate.last_posting_id)
                  (expiry_journal format candidate x owner t.currency memo counter.account.id)
                  w.books
                ≡ ok (answer.0, j', w'.books))
              same (mend-ok _ answer e5 ∙ answered answer.0 answer.1 answer.2 wallet' w j' w' h5);
      }

whole :
    (i counter : ℕ) (x amount y : ℤ)
    → counter ≢ i
    → y ≡ x +ℤ ((debit *ℤ amount) +ℤ (if counter == i then (credit *ℤ amount) +ℤ pos 0 else pos 0))
    → y ≡ pos 0
    → x ≡ neg amount
whole i counter x amount y other e z =
    let far : (counter == i) ≡ false = ground arith in
    let e1 : pos 0 ≡ x +ℤ (amount +ℤ pos 0) = sym z ∙ e ∙ rw (far, one_*ℤ) refl in
    omega (int_laws, ap pos_part e1, ap neg_part e1)

same_id : (n : ℕ) → (n == n) ≡ true
same_id n = ground arith

destined :
    (t t' : WalletType) (p p' : Product) (w : World)
    → t ≡ t'
    → p ≡ p'
    → account_by_code (destination t p.code) w ≡ account_by_code (destination t' p'.code) w
destined t t' p p' w e f = cc

-- When a lapse is booked for a dormant wallet, the journal took the wallet's whole balance: the
-- account held exactly the balance that was found, it is left empty and with nothing reserved, and no
-- posting has touched it since the one at which it was found. This is for a wallet that is not its own
-- counter account.
pub expire-lapses :
    (c : Clock) (format : ℕ → String) (memo : String) (candidate : ExpiryCandidate) (w : World)
    (j' : Journal) (w' : World) (wallet : Wallet) (row counter : AccountRow) (owner : ℕ)
    (t : WalletType) (product : Product)
    → expire c format memo candidate w ≡ ok (j', w')
    → find_wallet candidate.wallet_public_id w.wallets ≡ some wallet
    → get_journal (wallet_key "expiry:" wallet (format candidate.last_posting_id)) w.books ≡ none
    → magnitude candidate.balance + (magnitude candidate.balance + 0) < half
    → HasRoomFor (magnitude candidate.balance + (magnitude candidate.balance + 0)) w.books
    → find_account wallet.ledger_account_id w.books.accounts ≡ some row
    → wallet.product_id ≡ some owner
    → find_type wallet.wallet_type_id w.types ≡ some t
    → find_product owner w.products ≡ some product
    → account_by_code (destination t product.code) w ≡ ok counter
    → counter.account.id ≢ wallet.ledger_account_id
    → IsLapsed c wallet candidate j' w'.books × (row.balance.raw_balance ≡ neg candidate.balance)
expire-lapses c format memo candidate w j' w' wallet row counter owner t product h there new small
      room found owned typed sold named other =
    let e = expire-Expired c format memo candidate w j' w' h wallet there in
    let inserted : e.inserted ≡ true =
      (post_journal-posted [] _ _ w.books e.inserted j' w'.books e.posting).0 new in
    let posting =
      subst
        (λ b.
          post_journal [] (is_still_dormant c wallet candidate.last_posting_id)
            (expiry_journal format candidate wallet e.owner e.t.currency memo e.counter.account.id)
            w.books
          ≡ ok (b, j', w'.books))
        inserted e.posting in
    let lapsed =
      is_still_dormant-IsLapsed c wallet candidate j' w'.books
        (post_journal-checked [] _ _ w.books j' w'.books posting) in
    let (row', found', account, raw, held) =
      post_journal-moves _ _ w.books j' w'.books small room posting wallet.ledger_account_id row
        found in
    let same_owner : e.owner ≡ owner = some-eq _ _ (sym e.owned ∙ owned) in
    let same_type : e.t ≡ t = some-eq _ _ (sym e.typed ∙ typed) in
    let same_product : e.product ≡ product =
      some-eq _ _ (sym e.sold ∙ ap (λ n. find_product n w.products) same_owner ∙ sold) in
    let same_counter : e.counter ≡ counter =
      same_ok e.counter counter (sym e.named ∙ destined _ _ _ _ w same_type same_product ∙ named) in
    let same : row' ≡ lapsed.row = some-eq row' lapsed.row (sym found' ∙ lapsed.found) in
    (
      lapsed,
      whole wallet.ledger_account_id e.counter.account.id row.balance.raw_balance candidate.balance
          row'.balance.raw_balance
          (λ x. other (ap (λ (y : AccountRow). y.account.id) (sym same_counter) ∙ x))
          (raw
            ∙ ap (λ z. row.balance.raw_balance +ℤ z)
                (if_true _ _ (same_id wallet.ledger_account_id)))
          (ap (λ (x : AccountRow). x.balance.raw_balance) same ∙ lapsed.empty),
    )
