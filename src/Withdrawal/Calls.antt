-- ===== src/Withdrawal/Calls.antt =====
-- Every call of internal/withdrawal/engine.go that writes a withdrawal, and any sequence of them.
use openpay.Base.{
  ℕ, ◌+◌, ◌≡◌, ◌∙◌, sym, refl, subst, Bool, true, false, not, inl, inr, some, String, List, [], ◌∷◌,
  ltb, ◌==◌, if_true, if_false, Bool-cases, ap, str_eq, eq_iff,
}
use openpay.Base.Int.{pos, leb_ℤ}
use Prim.Native.String.{◌++◌ as text_append}
use openpay.Errors.{
  Result, ok, err, bind-eq-ok, fail_if, fail_if-passes, or_fail, or_fail-some, internal, not_found,
  invalid_argument, failed_precondition, permission_denied, ◌>>=◌,
}
use openpay.Ledger.Chart.{payouts_in_transit}
use openpay.Wallet.Policy.{WalletType, needs_approval}
use openpay.Wallet.Types.{find_type}
use openpay.Wallet.Engine.{withdraw_out}
use openpay.Withdrawal.Types.{
  WithdrawalStatus, Withdrawal, Payout, WithdrawalRequest, Desk, World, find_withdrawal, save,
}
use openpay.Withdrawal.Engine.{
  emit, with_base, is_pending, is_approved, is_verified, is_settled, return_funds, apply, submit,
  decide, approve, reject, check_daily_limits, new_withdrawal, request, sync, resubmit,
}
use openpay.Withdrawal.Vetted.{
  IsDecided, IsVetted, AllVetted, find_withdrawal-IsVetted, save-AllVetted, pair_ok, same_ok,
  return_funds-Keeps, apply-Keeps, submit-Keeps,
}

pub data Call : Type 0 where
  requesting : String → WithdrawalRequest → Call
  approving rejecting : ℕ → String → String → Call
  syncing : ℕ → Payout → Call
  resubmitting : ℕ → Call

unfoldable pub run : Desk → Call → World → Result World
run desk (Call.requesting public_id r) w = request desk public_id r w >>= λ (x, v). ok v
run desk (Call.approving i approver note) w = approve desk i approver note w
run desk (Call.rejecting i approver note) w = reject desk i approver note w
run desk (Call.syncing i p) w = sync desk i p w
run desk (Call.resubmitting i) w = resubmit desk i w

-- A call that fails leaves the tables as they were.
abbrev committed : Result World → World → World
committed (ok v) w = v
committed (err c) w = w

unfoldable pub serve : List (Desk × Call) → World → World
serve [] w = w
serve ((desk, call) ∷ calls) w = serve calls (committed (run desk call w) w)

clash : (b : Bool) → b ≡ false → b ≡ true → ⊥
clash b e f = cc

module _ (desk : Desk) where
  decide-Keeps :
      (i : ℕ) (approver note : String) (w v : World) (y : Withdrawal)
      → AllVetted w
      → decide desk i approver note w ≡ ok (y, v)
      → IsDecided y × AllVetted v
  unfolding decide
  decide-Keeps i approver note w v y a h =
      let (_, _, h1) = bind-eq-ok (fail_if (str_eq note "") invalid_argument) _ h in
      let (x, _, h2) = bind-eq-ok (or_fail (find_withdrawal i w.rows) not_found) _ h1 in
      let (_, _, h3) = bind-eq-ok (fail_if (not (is_pending x.status)) failed_precondition) _ h2 in
      let (u, other, h4) =
        bind-eq-ok (fail_if (str_eq approver x.requested_by) permission_denied) _ h3 in
      let z : Withdrawal = record x {
        decided_by = some approver;
        decided_at = some desk.now;
        decision_note = some note;
      } in
      let d : IsDecided z = λ needed. (
        approver,
        refl,
        λ e.
            clash _ (fail_if-passes _ permission_denied u other)
              ((eq_iff approver x.requested_by).1 e),
      ) in
      let (saved, e, h5) = bind-eq-ok (save z w) _ h4 in
      let (this, left) = pair_ok z y saved v h5 in
      (subst IsDecided this d, subst AllVetted left (save-AllVetted z w saved (inr d) a e))

  settled-IsDecided : (x : Withdrawal) → IsVetted x → is_settled x.status ≡ false → IsDecided x
  unfolding is_settled
  settled-IsDecided x (inl e) h = elim (clash _ h (ap is_settled e)) [ ]
  settled-IsDecided x (inr d) h = d

  approved-IsDecided : (x : Withdrawal) → IsVetted x → is_approved x.status ≡ true → IsDecided x
  approved-IsDecided x (inl e) h = elim (clash _ (ap is_approved e) h) [ ]
  approved-IsDecided x (inr d) h = d

  new_withdrawal-IsVetted :
      (r : WithdrawalRequest) (t : WalletType) (provider public_id : String) (i : ℕ)
      → IsVetted (new_withdrawal desk r t provider public_id i)
  new_withdrawal-IsVetted r t provider public_id i = elim (Bool-cases (needs_approval t r.amount)) [
    | inl e ↦ inl (if_true _ _ e)
    | inr e ↦ inr (λ needed. elim (clash _ e needed) [ ])
  ]

  request-AllVetted :
      (public_id : String) (r : WithdrawalRequest) (w v : World) (x : Withdrawal)
      → AllVetted w
      → request desk public_id r w ≡ ok (x, v)
      → AllVetted v
  unfolding request
  request-AllVetted public_id r w v y a h =
      let (_, _, h1) =
        bind-eq-ok (fail_if (not (r.beneficiary.customer_id == r.wallet.customer_id)) not_found) _
          h in
      let (_, _, h2) =
        bind-eq-ok (fail_if (not (is_verified r.beneficiary.status)) failed_precondition) _ h1 in
      let (verified, _, h3) = bind-eq-ok (or_fail r.beneficiary.verified_at internal) _ h2 in
      let (_, _, h4) =
        bind-eq-ok
          (fail_if (ltb desk.now (verified + desk.beneficiary_cooling)) failed_precondition) _ h3 in
      let (t, _, h5) =
        bind-eq-ok (or_fail (find_type r.wallet.wallet_type_id w.base.types) not_found) _ h4 in
      let (provider, _, h6) = bind-eq-ok desk.choose _ h5 in
      let x = new_withdrawal desk r t provider public_id w.next_row in
      let vetted = new_withdrawal-IsVetted r t provider public_id w.next_row in
      let (_, _, h7) = bind-eq-ok (fail_if (leb_ℤ r.amount (pos 0)) internal) _ h6 in
      let (moved, _, h8) =
        bind-eq-ok (withdraw_out desk.wallet_clock desk.wallet_limits _ w.base) _ h7 in
      let u = with_base moved.1 (record w { rows = x ∷ w.rows; next_row = w.next_row + 1 }) in
      let (_, _, h9) = bind-eq-ok (check_daily_limits desk x t u) _ h8 in
      let told = emit x "withdrawal.requested" u in
      let a' : AllVetted told = (vetted, a) in
      elim (Bool-cases x.requires_approval) [
        | inl e ↦ subst AllVetted (pair_ok x y told v (sym (if_true _ _ e) ∙ h9)).1 a'
        | inr e ↦
            (submit-Keeps desk x y told v (λ needed. elim (clash _ e needed) [ ]) a'
              (sym (if_false _ _ e) ∙ h9)).1
      ]

  approve-AllVetted :
      (i : ℕ) (approver note : String) (w v : World)
      → AllVetted w
      → approve desk i approver note w ≡ ok v
      → AllVetted v
  unfolding approve
  approve-AllVetted i approver note w v a h =
      let (decided, e1, h1) = bind-eq-ok (decide desk i approver note w) _ h in
      let (d, a1) = decide-Keeps i approver note w decided.1 decided.0 a e1 in
      let x : Withdrawal = record (decided.0) { status = WithdrawalStatus.approved } in
      let (sent, e2, h2) = bind-eq-ok (submit desk x decided.1) _ h1 in
      let (d', a2) = submit-Keeps desk x sent.0 decided.1 sent.1 d a1 e2 in
      save-AllVetted sent.0 sent.1 v (inr d') a2 h2

  reject-AllVetted :
      (i : ℕ) (approver note : String) (w v : World)
      → AllVetted w
      → reject desk i approver note w ≡ ok v
      → AllVetted v
  unfolding reject
  reject-AllVetted i approver note w v a h =
      let (decided, e1, h1) = bind-eq-ok (decide desk i approver note w) _ h in
      let (d, a1) = decide-Keeps i approver note w decided.1 decided.0 a e1 in
      let (sent, e2, h2) =
        bind-eq-ok
          (return_funds desk decided.0 WithdrawalStatus.rejected (text_append "rejected: " note)
            payouts_in_transit decided.1)
          _ h1 in
      let (d', a2) =
        return_funds-Keeps desk WithdrawalStatus.rejected (text_append "rejected: " note)
          payouts_in_transit decided.0 sent.0 decided.1 sent.1 d a1 e2 in
      save-AllVetted sent.0 sent.1 v (inr d') a2 h2

  sync-AllVetted :
      (i : ℕ) (p : Payout) (w v : World) → AllVetted w → sync desk i p w ≡ ok v → AllVetted v
  unfolding sync
  sync-AllVetted i p w v a h =
      let (x, e, h1) = bind-eq-ok (or_fail (find_withdrawal i w.rows) not_found) _ h in
      let found =
        find_withdrawal-IsVetted i w.rows x a
          (or_fail-some (find_withdrawal i w.rows) not_found x e) in
      elim (Bool-cases (is_settled x.status)) [
        | inl s ↦ subst AllVetted (same_ok w v (sym (if_true _ _ s) ∙ h1)) a
        | inr s ↦
            let (sent, e2, h2) = bind-eq-ok (apply desk x p w) _ (sym (if_false _ _ s) ∙ h1) in
            subst AllVetted (same_ok sent.1 v h2)
              (apply-Keeps desk p x sent.0 w sent.1 (settled-IsDecided x found s) a e2).1
      ]

  resubmit-AllVetted : (i : ℕ) (w v : World) → AllVetted w → resubmit desk i w ≡ ok v → AllVetted v
  unfolding resubmit
  resubmit-AllVetted i w v a h =
      let (x, e, h1) = bind-eq-ok (or_fail (find_withdrawal i w.rows) not_found) _ h in
      let found =
        find_withdrawal-IsVetted i w.rows x a
          (or_fail-some (find_withdrawal i w.rows) not_found x e) in
      elim (Bool-cases (is_approved x.status)) [
        | inl s ↦
            let (sent, e2, h2) = bind-eq-ok (submit desk x w) _ (sym (if_true _ _ s) ∙ h1) in
            subst AllVetted (same_ok sent.1 v h2)
              (submit-Keeps desk x sent.0 w sent.1 (approved-IsDecided x found s) a e2).1
        | inr s ↦ subst AllVetted (same_ok w v (sym (if_false _ _ s) ∙ h1)) a
      ]

  run-AllVetted : (call : Call) (w v : World) → AllVetted w → run desk call w ≡ ok v → AllVetted v
  unfolding run
  run-AllVetted (Call.requesting public_id r) w v a h =
      let (made, e, h1) = bind-eq-ok (request desk public_id r w) _ h in
      subst AllVetted (same_ok made.1 v h1) (request-AllVetted public_id r w made.1 made.0 a e)
  run-AllVetted (Call.approving i approver note) w v a h = approve-AllVetted i approver note w v a h
  run-AllVetted (Call.rejecting i approver note) w v a h = reject-AllVetted i approver note w v a h
  run-AllVetted (Call.syncing i p) w v a h = sync-AllVetted i p w v a h
  run-AllVetted (Call.resubmitting i) w v a h = resubmit-AllVetted i w v a h

-- Whatever calls are made and whatever providers answer, every withdrawal that needs approval either
-- still waits for it, or was decided on by someone else than the one who requested it. The calls start
-- from a table of which this is true, and a call that fails is rolled back.
pub serve-AllVetted :
    (calls : List (Desk × Call)) (w : World) → AllVetted w → AllVetted (serve calls w)
unfolding serve
serve-AllVetted [] w a = a
serve-AllVetted ((desk, call) ∷ calls) w a =
    serve-AllVetted calls (committed (run desk call w) w) (kept _ refl)
  where
    kept : (m : Result World) → run desk call w ≡ m → AllVetted (committed m w)
    kept (ok v) e = run-AllVetted desk call w v a e
    kept (err c) e = a
