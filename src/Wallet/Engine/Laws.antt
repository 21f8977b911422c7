-- ===== src/Wallet/Engine/Laws.antt =====
-- What `post` of the wallet engine makes of the ledger's answer.
use openpay.Base.{
  ◌≡◌, ◌∙◌, sym, ap, subst, Bool, true, false, Bool-cases, if_true, if_false, if◌then◌else◌, none,
  some, List, [], ◌∷◌, arith, inl, inr,
}
use openpay.Base.Int.{ℤ}
use openpay.Errors.{Result, ok, err, already_exists, bind-eq-ok}
use openpay.Ledger.Types.{Direction, Journal}
use openpay.Ledger.Store.{Store, get_journal}
use openpay.Ledger.Post.{post_journal}
use openpay.Ledger.Post.Correct.{post_journal-posted}
use openpay.Wallet.Types.{Wallet, Limits, Clock, World}
use openpay.Wallet.Limits.{LimitCheck, check_limits_after_posting}
use openpay.Wallet.Engine.{has_leg, emit_movements, conclude, post}

module _ (c : Clock) (limits : Limits) where
  -- What a call of `post` that succeeds did: the ledger's answer, and the world it made of it.
  pub record Posted (j : Journal) (wallet : Wallet) (direction : Direction) (amount : ℤ)
      (check : LimitCheck) (others : List Wallet) (w : World) (j' : Journal) (w' : World)
      : Type 0 where
    pub inserted : Bool
    pub posting :
        post_journal [] (check_limits_after_posting c limits w check) j w.books
        ≡ ok (inserted, j', w'.books)
    pub world : w' ≡ (
        if inserted
        then emit_movements j' (wallet ∷ others) (record w { books = w'.books })
        else record w { books = w'.books })

  Posted-inserted :
      (j : Journal) (wallet : Wallet) (direction : Direction) (amount : ℤ) (check : LimitCheck)
      (others : List Wallet) (w : World) (k : Journal) (s : Store) (j' : Journal) (w' : World)
      → post_journal [] (check_limits_after_posting c limits w check) j w.books ≡ ok (true, k, s)
      → ◌≡◌ {A = Result (Journal × World)}
          (ok (k, emit_movements k (wallet ∷ others) (record w { books = s })))
          (ok (j', w'))
      → Posted j wallet direction amount check others w j' w'
  Posted-inserted j wallet direction amount check others w k s j' w' e h =
      let books : s ≡ w'.books = ground (arith, h) in
      let journal : k ≡ j' = ground (arith, h) in
      record { inserted = true; posting = e ∙ ground (arith, h); world = ground (arith, h) }

  Posted-replayed :
      (j : Journal) (wallet : Wallet) (direction : Direction) (amount : ℤ) (check : LimitCheck)
      (others : List Wallet) (w : World) (k : Journal) (s : Store) (j' : Journal) (w' : World)
      → post_journal [] (check_limits_after_posting c limits w check) j w.books ≡ ok (false, k, s)
      → ◌≡◌ {A = Result (Journal × World)} (ok (k, record w { books = s })) (ok (j', w'))
      → Posted j wallet direction amount check others w j' w'
  Posted-replayed j wallet direction amount check others w k s j' w' e h = record {
    inserted = false;
    posting = e ∙ ground (arith, h);
    world = ground (arith, h);
  }

  conclude-Posted :
      (j : Journal) (wallet : Wallet) (direction : Direction) (amount : ℤ) (check : LimitCheck)
      (others : List Wallet) (w : World) (b : Bool) (k : Journal) (s : Store) (j' : Journal)
      (w' : World)
      → post_journal [] (check_limits_after_posting c limits w check) j w.books ≡ ok (b, k, s)
      → conclude c limits wallet direction amount others w (b, k, s) ≡ ok (j', w')
      → Posted j wallet direction amount check others w j' w'
  unfolding conclude
  conclude-Posted j wallet direction amount check others w true k s j' w' e h =
      Posted-inserted j wallet direction amount check others w k s j' w' e h
  conclude-Posted j wallet direction amount check others w false k s j' w' e h =
      elim (Bool-cases (has_leg wallet.ledger_account_id direction amount k.postings)) [
        | inl there ↦
            Posted-replayed j wallet direction amount check others w k s j' w' e
              (sym (if_true _ _ there) ∙ h)
        | inr other ↦ absurd (refused (sym (if_false _ _ other) ∙ h))
      ]
    where
      refused : ◌≡◌ {A = Result (Journal × World)} (err already_exists) (ok (j', w')) → ⊥
      refused x = cc

  pub post-Posted :
      (j : Journal) (wallet : Wallet) (direction : Direction) (amount : ℤ) (check : LimitCheck)
      (others : List Wallet) (w : World) (j' : Journal) (w' : World)
      → post c limits j wallet direction amount check others w ≡ ok (j', w')
      → Posted j wallet direction amount check others w j' w'
  unfolding post
  post-Posted j wallet direction amount check others w j' w' h =
      let (answer, e, h1) =
        bind-eq-ok (post_journal [] (check_limits_after_posting c limits w check) j w.books) _ h in
      conclude-Posted j wallet direction amount check others w answer.0 answer.1 answer.2 j' w' e h1

module _ (c : Clock) (limits : Limits) (j : Journal) (wallet : Wallet) (direction : Direction)
    (amount : ℤ) (check : LimitCheck) (others : List Wallet) (w : World) (j' : Journal) (w' : World)
    (p : Posted c limits j wallet direction amount check others w j' w') where
  -- A journal of a new external id is inserted, and its movements are told.
  pub Posted-new :
      get_journal j.external_id w.books ≡ none
      → (post_journal [] (check_limits_after_posting c limits w check) j w.books
          ≡ ok (true, j', w'.books))
        × (w' ≡ emit_movements j' (wallet ∷ others) (record w { books = w'.books }))
  Posted-new new =
      let inserted : p.inserted ≡ true =
        (post_journal-posted [] (check_limits_after_posting c limits w check) j w.books p.inserted
            j' w'.books p.posting).0
          new in
      (
        subst
            (λ b.
              post_journal [] (check_limits_after_posting c limits w check) j w.books
              ≡ ok (b, j', w'.books))
            inserted p.posting,
        p.world ∙ if_true _ _ inserted,
      )

  -- One that is there changes nothing.
  pub Posted-old : (k : Journal) → get_journal j.external_id w.books ≡ some k → (j' ≡ k) × (w' ≡ w)
  Posted-old k old =
      let (replay, same, kept) =
        (post_journal-posted [] (check_limits_after_posting c limits w check) j w.books p.inserted
            j' w'.books p.posting).1
          k old in
      (same, p.world ∙ if_false _ _ replay ∙ ap (λ (s : Store). record w { books = s }) kept)

  pub Posted-tables : (w'.types ≡ w.types) × (w'.wallets ≡ w.wallets)
  Posted-tables = (
    ap (λ (x : World). x.types) p.world ∙ either,
    ap (λ (x : World). x.wallets) p.world ∙ either_wallets,
  )
    where
      told : World
      told = emit_movements j' (wallet ∷ others) (record w { books = w'.books })

      kept : World
      kept = record w { books = w'.books }

      either : (if p.inserted then told else kept).types ≡ w.types
      either = ground arith

      either_wallets : (if p.inserted then told else kept).wallets ≡ w.wallets
      either_wallets = ground arith
