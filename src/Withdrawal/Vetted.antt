-- ===== src/Withdrawal/Vetted.antt =====
-- What above its threshold leaves approval has been decided on by someone else than its requester.
use openpay.Base.{
  ℕ, ◌==◌, ◌≡◌, ◌≢◌, ◌∙◌, sym, refl, subst, Bool, true, false, ◌⊎◌, inl, inr, Option, none, some,
  String, List, [], ◌∷◌, if◌then◌else◌, All, Bool-cases, if_true, if_false, some-eq,
}
use openpay.Errors.{
  Result, ok, err, Code, bind-eq-ok, or_fail, not_found, internal, permission_denied, ◌>>=◌,
}
use Prim.Native.String.{◌++◌ as text_append}
use openpay.Ledger.Store.{get_journal}
use openpay.Ledger.Chart.{payouts_in_transit, bank}
use openpay.Wallet.Engine.{restore}
use openpay.Wallet.Expiry.{find_wallet}
use openpay.Withdrawal.Types.{
  WithdrawalStatus, Withdrawal, PayoutStatus, Payout, Desk, World, find_withdrawal, update_row,
  has_four_eyes, save, find_beneficiary,
}
use openpay.Withdrawal.Engine.{
  debit_id, status_name, emit, with_base, is_approved, is_paid, is_unavailable, post, return_funds,
  apply_paid, follow, apply, answered, unsealed, submit,
}

-- Someone else than its requester has decided on it, if it takes that.
abbrev pub IsDecided : Withdrawal → Type 0
IsDecided x =
    x.requires_approval ≡ true → (who : String) × (x.decided_by ≡ some who) × (who ≢ x.requested_by)

abbrev pub IsVetted : Withdrawal → Type 0
IsVetted x = (x.status ≡ WithdrawalStatus.pending_approval) ⊎ IsDecided x

abbrev pub AllVetted : World → Type 0
AllVetted w = All IsVetted w.rows

select_row :
    (l r : List Withdrawal) (b : Bool)
    → All IsVetted l
    → All IsVetted r
    → All IsVetted (if b then l else r)
select_row l r true p q = p
select_row l r false p q = q

update_row-AllVetted :
    (x : Withdrawal) (xs : List Withdrawal)
    → IsVetted x
    → All IsVetted xs
    → All IsVetted (update_row x xs)
update_row-AllVetted x [] v a = tt
update_row-AllVetted x (y ∷ ys) v (a, rest) =
    select_row _ _ (y.id == x.id) (v, rest) (a, update_row-AllVetted x ys v rest)

pub same_ok : {A : Type 0} (x y : A) → ◌≡◌ {A = Result A} (ok x) (ok y) → x ≡ y
same_ok x y e = cc

failed_ok : {A : Type 0} (c : Code) (y : A) → ◌≡◌ {A = Result A} (err c) (ok y) → ⊥
failed_ok c y e = cc

pub pair_ok :
    {A B : Type 0} (a a' : A) (b b' : B)
    → ◌≡◌ {A = Result (A × B)} (ok (a, b)) (ok (a', b'))
    → (a ≡ a') × (b ≡ b')
pair_ok a a' b b' e = (cc, cc)

pub save-AllVetted :
    (x : Withdrawal) (w w' : World) → IsVetted x → AllVetted w → save x w ≡ ok w' → AllVetted w'
unfolding save
save-AllVetted x w w' v a h =
    let (old, _, h1) = bind-eq-ok (or_fail (find_withdrawal x.id w.rows) internal) _ h in
    elim (Bool-cases (has_four_eyes x)) [
      | inl e ↦
          subst AllVetted
            (same_ok (record w { rows = update_row x w.rows }) w' (sym (if_true _ _ e) ∙ h1))
            (update_row-AllVetted x w.rows v a)
      | inr e ↦ elim (failed_ok permission_denied w' (sym (if_false _ _ e) ∙ h1)) [ ]
    ]

pub find_withdrawal-IsVetted :
    (i : ℕ) (xs : List Withdrawal) (x : Withdrawal)
    → All IsVetted xs
    → find_withdrawal i xs ≡ some x
    → IsVetted x
find_withdrawal-IsVetted i [] x a h = elim (none_some h) [ ]
  where
    none_some : ◌≡◌ {A = Option Withdrawal} none (some x) → ⊥
    none_some e = cc
find_withdrawal-IsVetted i (y ∷ ys) x (a, rest) h = elim (Bool-cases (y.id == i)) [
  | inl e ↦ subst IsVetted (some-eq y x (sym (if_true _ _ e) ∙ h)) a
  | inr e ↦ find_withdrawal-IsVetted i ys x rest (sym (if_false _ _ e) ∙ h)
]

-- What a step leaves of a withdrawal that was decided on, and of the table.
abbrev pub Keeps : (Withdrawal → World → Result (Withdrawal × World)) → Type 0
Keeps step =
    (x y : Withdrawal) (w v : World)
    → IsDecided x
    → AllVetted w
    → step x w ≡ ok (y, v)
    → IsDecided y × AllVetted v

-- A step that ends by writing the withdrawal and giving it.
write_out :
    (x y : Withdrawal) (w v : World) (f : World → World)
    → ((u : World) → (f u).rows ≡ u.rows)
    → IsDecided x
    → AllVetted w
    → ◌>>=◌ {B = Withdrawal × World} (save x w) (λ saved. ok (x, f saved)) ≡ ok (y, v)
    → IsDecided y × AllVetted v
write_out x y w v f same d a h =
    let (saved, e, h1) = bind-eq-ok (save x w) _ h in
    let (this, left) = pair_ok x y (f saved) v h1 in
    (
      subst IsDecided this d,
      subst AllVetted left
          (subst (All IsVetted) (sym (same saved)) (save-AllVetted x w saved (inr d) a e)),
    )

module _ (desk : Desk) where
  pub return_funds-Keeps :
      (s : WithdrawalStatus) (reason from : String)
      → Keeps (λ x w. return_funds desk x s reason from w)
  unfolding return_funds
  return_funds-Keeps s reason from x y w v d a h =
      let (j, _, h1) = bind-eq-ok (or_fail (get_journal (debit_id x) w.base.books) not_found) _ h in
      let (wallet, _, h2) =
        bind-eq-ok (or_fail (find_wallet x.wallet_public_id w.base.wallets) not_found) _ h1 in
      let (moved, _, h3) =
        bind-eq-ok (restore desk.wallet_clock desk.wallet_limits _ j w.base) _ h2 in
      write_out (record x { status = s; failure_reason = some reason }) y (with_base moved.1 w) v
        (emit (record x { status = s; failure_reason = some reason })
          (text_append "withdrawal." (status_name s)))
        (λ u. refl) d a h3

  apply_paid-Keeps : Keeps (apply_paid desk)
  unfolding apply_paid
  apply_paid-Keeps x y w v d a h = elim (Bool-cases (is_paid x.status)) [
    | inl e ↦
        let (this, left) = pair_ok x y w v (sym (if_true _ _ e) ∙ h) in
        (subst IsDecided this d, subst AllVetted left a)
    | inr e ↦
        let (s, _, h1) =
          bind-eq-ok (post x "paid" payouts_in_transit (bank desk.bank) w.base.books) _
            (sym (if_false _ _ e) ∙ h) in
        write_out (record x { status = WithdrawalStatus.paid; paid_at = some desk.now }) y
          (with_base (record (w.base) { books = s }) w) v
          (emit (record x { status = WithdrawalStatus.paid; paid_at = some desk.now })
            "withdrawal.paid")
          (λ u. refl) d a h1
  ]

  follow-Keeps : (p : PayoutStatus) (reason : String) → Keeps (follow desk p reason)
  unfolding follow
  follow-Keeps PayoutStatus.processing reason x y w v d a h =
      write_out
        (if is_approved x.status then record x { status = WithdrawalStatus.processing } else x) y w
        v (λ u. u) (λ u. refl) (either (is_approved x.status)) a h
    where
      either :
          (b : Bool)
          → IsDecided (if b then record x { status = WithdrawalStatus.processing } else x)
      either true = d
      either false = d
  follow-Keeps PayoutStatus.paid reason x y w v d a h = apply_paid-Keeps x y w v d a h
  follow-Keeps PayoutStatus.failed reason x y w v d a h =
      return_funds-Keeps WithdrawalStatus.failed reason payouts_in_transit x y w v d a h
  follow-Keeps PayoutStatus.reversed reason x y w v d a h =
      let (paid, e, h1) = bind-eq-ok (apply_paid desk x w) _ h in
      let (d', a') = apply_paid-Keeps x paid.0 w paid.1 d a e in
      return_funds-Keeps WithdrawalStatus.reversed reason (bank desk.bank) paid.0 y paid.1 v d' a'
        h1

  pub apply-Keeps : (p : Payout) → Keeps (λ x w. apply desk x p w)
  unfolding apply
  apply-Keeps p x y w v d a h =
      follow-Keeps p.status p.failure_reason
        (record x { provider_payout_id = some p.provider_payout_id }) y w v d a h

  answered-Keeps : (answer : Result Payout) → Keeps (answered desk answer)
  unfolding answered
  answered-Keeps (ok p) x y w v d a h = apply-Keeps p x y w v d a h
  answered-Keeps (err c) x y w v d a h = elim (Bool-cases (is_unavailable c)) [
    | inl e ↦ write_out x y w v (λ u. u) (λ u. refl) d a (sym (if_true _ _ e) ∙ h)
    | inr e ↦
        return_funds-Keeps WithdrawalStatus.failed "" payouts_in_transit x y w v d a
          (sym (if_false _ _ e) ∙ h)
  ]

  pub submit-Keeps : Keeps (submit desk)
  unfolding submit
  submit-Keeps x y w v d a h =
      let (pay, _, h1) = bind-eq-ok (desk.payer x.provider) _ h in
      let (b, _, h2) =
        bind-eq-ok (or_fail (find_beneficiary x.beneficiary_id w.beneficiaries) not_found) _ h1 in
      let (account, _, h3) = bind-eq-ok (unsealed desk b.account_number) _ h2 in
      answered-Keeps _ x y w v d a h3
