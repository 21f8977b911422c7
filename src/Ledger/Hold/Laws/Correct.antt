-- ===== src/Ledger/Hold/Laws/Correct.antt =====
-- What placing, releasing and expiring a hold promise.
use openpay.Base.{
  ℕ, ◌+◌, ◌<◌, ◌≤◌, ◌≡◌, ◌∙◌, sym, ap, refl, true, false, ◌==◌, not, leb, some, String, List, ◌∷◌,
  arith, str_eq, if◌then◌else◌, Bool-cases, Option-cases, if_true, if_false, inl, inr, ==_iff,
  subst,
}
use openpay.Base.Int.{
  ℤ, pos, magnitude, ◌+ℤ◌, ◌-ℤ◌, ◌≤ℤ◌, ◌<ℤ◌, leb_ℤ, ltb_ℤ, int_laws, magnitude-+ℤ, magnitude-sub,
  +ℤ_parts, -ℤ_parts,
}
use openpay.Base.Int64.{half, fits, sub64_exact}
use openpay.Errors.{
  ◌>>=◌, ok, bind-eq-ok, or_fail, fail_if, fail_if-passes, or_fail-some, internal, not_found,
  invalid_argument, currency_mismatch, insufficient_balance,
}
use openpay.Ledger.Types.{Hold, HoldStatus, hold_is_active}
use openpay.Ledger.Store.{AccountRow, Store, find_account, find_hold}
use openpay.Ledger.Locks.{LockedAccount, locked_of}
use openpay.Ledger.Post.{update_balance}
use openpay.Ledger.Post.Apply.{mul64-normal_sign, magnitude-normal_sign}
use openpay.Ledger.Post.Effect.{HasRoomFor}
use openpay.Ledger.Hold.{
  lock_account, write_held, new_hold, is_short, reserve, replay_hold, place_hold, update_hold,
  same_status, unreserve, resolve_locked, resolve_hold,
}
use openpay.Ledger.Hold.Table.{
  IsHoldTable, IsHoldTable-suc, IsUnused-next, update_hold-IsHoldTable, find_hold-IsRow,
  row-positive, reserved-update_hold,
}
use openpay.Ledger.Hold.Laws.{reserve_to, reserve_to-IsSound}
use openpay.Ledger.Sound.{reserved, natural_exact, IsSound}

lock_account-row :
    (i : ℕ) (rows : List AccountRow) (a : LockedAccount)
    → lock_account i rows ≡ ok a
    → (r : AccountRow) × (find_account i rows ≡ some r) × (a ≡ locked_of r)
unfolding lock_account
lock_account-row i rows a h =
    let (r, found, rest) = bind-eq-ok (or_fail (find_account i rows) not_found) _ h in
    (r, or_fail-some _ not_found r found, ground (arith, rest))

write_held-ok :
    (a : LockedAccount) (held : ℤ) (rows rows' : List AccountRow)
    → write_held a held rows ≡ ok rows'
    → rows' ≡ update_balance (record a { held = held }) rows
unfolding write_held
write_held-ok a held rows rows' h = elim (Bool-cases (fits held)) [
  | inl fine ↦ ground (arith, fine)
  | inr over ↦ absurd (ground (arith, over))
]

enough : (n held amount : ℤ) → ltb_ℤ (n -ℤ held) amount ≡ false → held +ℤ amount ≤ℤ n
enough n held amount h = ground (arith, -ℤ_parts n held, +ℤ_parts held amount)

-- A hold that is not refused is covered.
is_short-covers :
    (a : LockedAccount) (amount : ℤ)
    → magnitude a.raw_balance + magnitude a.held < half
    → is_short a amount ≡ false
    → a.allow_negative ≡ false
    → a.held +ℤ amount ≤ℤ natural_exact a
unfolding is_short
is_short-covers a amount room short strict =
    let exact =
      sub64_exact (natural_exact a) a.held
        (omega (arith, magnitude-normal_sign a.raw_balance a.account_type, room)) in
    enough (natural_exact a) a.held amount (
      ground (
        arith,
        short,
        strict,
        mul64-normal_sign a.raw_balance a.account_type (omega (arith, room)),
        exact,
      ))

add_in_front : (a b c : ℤ) → b ≡ c → a +ℤ c ≡ b +ℤ a
add_in_front a b c e = rw e (omega int_laws)

module _ (h : Hold) (s : Store) (sound : IsSound s) (table : IsHoldTable s.next_hold s.holds)
    (room : HasRoomFor (magnitude h.amount) s) (positive : pos 0 <ℤ h.amount) (h' : Hold)
    (s' : Store) where
  reserve-IsSound :
      h.id ≡ s.next_hold
      → h.status ≡ HoldStatus.active
      → reserve h s ≡ ok (h', s')
      → IsSound s' × IsHoldTable s'.next_hold s'.holds
  unfolding reserve
  reserve-IsSound id active e =
      let (a, locking, e1) = bind-eq-ok (lock_account h.account_id s.accounts) _ e in
      let (u, currency, e2) =
        bind-eq-ok (fail_if (not (str_eq a.currency h.currency)) currency_mismatch) _ e1 in
      let (v, covered, e3) = bind-eq-ok (fail_if (is_short a h.amount) insufficient_balance) _ e2 in
      let (rows, writing, e4) = bind-eq-ok (write_held a (a.held +ℤ h.amount) s.accounts) _ e3 in
      let (r, found, a_is) = lock_account-row h.account_id s.accounts a locking in
      let before = room h.account_id r found in
      let not_short : is_short (locked_of r) h.amount ≡ false =
        ap (λ x. is_short x h.amount) (sym a_is)
        ∙ fail_if-passes (is_short a h.amount) insufficient_balance v covered in
      let new_rows : rows
          ≡ update_balance (record (locked_of r) { held = r.balance.held +ℤ h.amount }) s.accounts =
        write_held-ok a (a.held +ℤ h.amount) s.accounts rows writing
        ∙ ap
            (λ (x : LockedAccount).
              update_balance (record x { held = x.held +ℤ h.amount }) s.accounts)
            a_is in
      let is : reserve_to r (r.balance.held +ℤ h.amount) (h ∷ s.holds) (s.next_hold + 1) s ≡ s' =
        ground (arith, e4, new_rows) in
      let good : IsSound
          (reserve_to r (r.balance.held +ℤ h.amount) (h ∷ s.holds) (s.next_hold + 1) s) =
        reserve_to-IsSound s sound h.account_id r found (r.balance.held +ℤ h.amount) (h ∷ s.holds)
          (s.next_hold + 1) (omega (arith, before.room, magnitude-+ℤ r.balance.held h.amount))
          (omega (arith, before.reserve, +ℤ_parts r.balance.held h.amount))
          (λ strict.
            is_short-covers (locked_of r) h.amount (omega (arith, before.room)) not_short strict)
          (rw active (
            if_true _ _ ((==_iff h.account_id h.account_id).1 refl)
            ∙ add_in_front h.amount r.balance.held (reserved h.account_id s.holds)
                (sound.held h.account_id r found)))
          (λ i other. if_false _ _ other) in
      let tab : IsHoldTable (s.next_hold + 1) (h ∷ s.holds) = (
        positive,
        omega (arith, id),
        rw id (IsUnused-next s.next_hold s.holds table),
        IsHoldTable-suc s.next_hold s.holds table,
      ) in
      (subst IsSound is good, subst (λ (x : Store). IsHoldTable x.next_hold x.holds) is tab)

replay_keeps :
    (h k h' : Hold) (s s' : Store)
    → ◌>>=◌ {B = Hold × Store} (replay_hold h k) (λ x. ok (x, s)) ≡ ok (h', s')
    → s ≡ s'
replay_keeps h k h' s s' e =
    let (x, found, e1) = bind-eq-ok (replay_hold h k) _ e in ground (arith, e1)

-- A hold that `PlaceHold` answers with success leaves the rules of the ledger and of the holds
-- table in force, whether it reserved the amount or found the hold already placed, on tables with
-- room for the amount.
pub place_hold-IsSound :
    (h : Hold) (s : Store) (h' : Hold) (s' : Store)
    → IsSound s
    → IsHoldTable s.next_hold s.holds
    → HasRoomFor (magnitude h.amount) s
    → place_hold h s ≡ ok (h', s')
    → IsSound s' × IsHoldTable s'.next_hold s'.holds
unfolding place_hold
place_hold-IsSound h s h' s' sound table room e =
    let (u1, in_tx, e1) = bind-eq-ok (fail_if (not s.in_tx) internal) _ e in
    let (u2, named, e2) = bind-eq-ok (fail_if (str_eq h.external_id "") internal) _ e1 in
    let (u3, amount, e3) = bind-eq-ok (fail_if (leb_ℤ h.amount (pos 0)) invalid_argument) _ e2 in
    let (u4, later, e4) = bind-eq-ok (fail_if (leb h.expires_at s.now) invalid_argument) _ e3 in
    let positive : pos 0 <ℤ h.amount =
      ground (arith, fail_if-passes (leb_ℤ h.amount (pos 0)) invalid_argument u3 amount) in
    elim (Option-cases (find_hold h.external_id s.holds)) [
      | inl new ↦
          reserve-IsSound (new_hold h s) s sound table room positive h' s' refl refl
            (ground (arith, e4, new))
      | inr (k, there) ↦
          let same : s ≡ s' = replay_keeps h k h' s s' (ground (arith, e4, there)) in
          (
            subst IsSound same sound,
            subst (λ (y : Store). IsHoldTable y.next_hold y.holds) same table,
          )
    ]

less : (a b n : ℤ) → pos 0 <ℤ b → a ≤ℤ n → a -ℤ b ≤ℤ n
less a b n p h = omega (arith, -ℤ_parts a b)

still_positive : (a b : ℤ) → ltb_ℤ a b ≡ false → pos 0 ≤ℤ a -ℤ b
still_positive a b h = ground (arith, -ℤ_parts a b)

smaller :
    (a b : ℤ) (m : ℕ)
    → pos 0 <ℤ b
    → pos 0 ≤ℤ a
    → ltb_ℤ a b ≡ false
    → m + magnitude a < half
    → m + magnitude (a -ℤ b) < half
smaller a b m p q h r = ground (arith, -ℤ_parts a b, magnitude_less a b)
  where
    magnitude_less : (a b : ℤ) → magnitude (a -ℤ b) ≤ magnitude a + magnitude b
    magnitude_less a b = magnitude-sub a b

module _ (x : String) (h : Hold) (to : HoldStatus) (s : Store) (sound : IsSound s)
    (table : IsHoldTable s.next_hold s.holds) (there : find_hold x s.holds ≡ some h)
    (on : hold_is_active h.status ≡ true) (off : hold_is_active to ≡ false) (h' : Hold)
    (s' : Store) where
  unreserve-IsSound :
      unreserve h to s ≡ ok (h', s') → IsSound s' × IsHoldTable s'.next_hold s'.holds
  unfolding unreserve
  unreserve-IsSound e =
      let (a, locking, e1) = bind-eq-ok (lock_account h.account_id s.accounts) _ e in
      let (u, held, e2) = bind-eq-ok (fail_if (ltb_ℤ a.held h.amount) internal) _ e1 in
      let (rows, writing, e3) = bind-eq-ok (write_held a (a.held -ℤ h.amount) s.accounts) _ e2 in
      let (r, found, a_is) = lock_account-row h.account_id s.accounts a locking in
      let before = sound.accounts h.account_id r found in
      let row = find_hold-IsRow x s.holds h there in
      let positive = row-positive s.next_hold h s.holds row table in
      let enough_held : ltb_ℤ r.balance.held h.amount ≡ false =
        ap (λ (y : LockedAccount). ltb_ℤ y.held h.amount) (sym a_is)
        ∙ fail_if-passes (ltb_ℤ a.held h.amount) internal u held in
      let new_rows : rows
          ≡ update_balance (record (locked_of r) { held = r.balance.held -ℤ h.amount }) s.accounts =
        write_held-ok a (a.held -ℤ h.amount) s.accounts rows writing
        ∙ ap
            (λ (y : LockedAccount).
              update_balance (record y { held = y.held -ℤ h.amount }) s.accounts)
            a_is in
      let k = record h { status = to } in
      let is : reserve_to r (r.balance.held -ℤ h.amount) (update_hold k s.holds) s.next_hold s
          ≡ s' =
        ground (arith, e3, new_rows) in
      let sums : (i : ℕ)
          → reserved i (update_hold k s.holds)
            ≡ (if h.account_id == i then reserved i s.holds -ℤ h.amount else reserved i s.holds) =
        λ i. reserved-update_hold s.next_hold i h k s.holds table row refl refl on off in
      let good : IsSound
          (reserve_to r (r.balance.held -ℤ h.amount) (update_hold k s.holds) s.next_hold s) =
        reserve_to-IsSound s sound h.account_id r found (r.balance.held -ℤ h.amount)
          (update_hold k s.holds) s.next_hold
          (smaller r.balance.held h.amount (magnitude r.balance.raw_balance) positive before.reserve
            enough_held (omega (arith, before.room)))
          (still_positive r.balance.held h.amount enough_held)
          (λ strict.
            less r.balance.held h.amount (natural_exact (locked_of r)) positive
              (before.covered strict))
          (sums h.account_id
            ∙ if_true _ _ ((==_iff h.account_id h.account_id).1 refl)
            ∙ ap (λ y. y -ℤ h.amount) (sym (sound.held h.account_id r found)))
          (λ i other. sums i ∙ if_false _ _ other) in
      let tab : IsHoldTable s.next_hold (update_hold k s.holds) =
        update_hold-IsHoldTable s.next_hold k s.holds positive table in
      (subst IsSound is good, subst (λ (y : Store). IsHoldTable y.next_hold y.holds) is tab)

-- A release or an expiry that succeeds leaves the rules of the ledger and of the holds table in
-- force: the amount of an active hold is taken off its account's reservation, and a hold that
-- already has the status is left alone.
pub resolve_hold-IsSound :
    (x : String) (to : HoldStatus) (s : Store) (h' : Hold) (s' : Store)
    → hold_is_active to ≡ false
    → IsSound s
    → IsHoldTable s.next_hold s.holds
    → resolve_hold x to s ≡ ok (h', s')
    → IsSound s' × IsHoldTable s'.next_hold s'.holds
unfolding resolve_hold resolve_locked
resolve_hold-IsSound x to s h' s' off sound table e =
    let (u1, in_tx, e1) = bind-eq-ok (fail_if (not s.in_tx) internal) _ e in
    let (h, locking, e2) = bind-eq-ok (or_fail (find_hold x s.holds) not_found) _ e1 in
    let there = or_fail-some (find_hold x s.holds) not_found h locking in
    elim (Bool-cases (same_status h.status to)) [
      | inl same ↦
          let is : s ≡ s' = ground (arith, e2, same) in
          (subst IsSound is sound, subst (λ (y : Store). IsHoldTable y.next_hold y.holds) is table)
      | inr other ↦
          let on : hold_is_active h.status ≡ true = ground (arith, e2, other) in
          unreserve-IsSound x h to s sound table there on off h' s' (ground (arith, e2, other))
    ]
