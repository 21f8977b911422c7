-- ===== src/Ledger/Hold/Table.antt =====
-- The holds table: its keys and the sums over it.
use openpay.Base.{
  ℕ, ◌+◌, ◌<◌, ◌≡◌, ap, refl, Bool, true, false, ◌==◌, some, String, List, [], ◌∷◌, All, arith,
  str_eq, if◌then◌else◌, Bool-cases, inl, inr, ◌⊎◌,
}
use openpay.Base.Int.{ℤ, pos, ◌+ℤ◌, ◌-ℤ◌, ◌<ℤ◌, int_laws}
use openpay.Ledger.Types.{Hold, hold_is_active}
use openpay.Ledger.Store.{find_hold}
use openpay.Ledger.Hold.{update_hold}
use openpay.Ledger.Sound.{reserved}

-- No row of the table has the id.
abbrev pub IsUnused : ℕ → List Hold → Type 0
IsUnused i hs = All (λ (h : Hold). (h.id == i) ≡ false) hs

-- Amounts are positive and ids are distinct and below the next one.
abbrev pub IsHoldTable : ℕ → List Hold → Type 0
IsHoldTable n [] = Unit
IsHoldTable n (h ∷ hs) = (pos 0 <ℤ h.amount) × (h.id < n) × IsUnused h.id hs × IsHoldTable n hs

pub IsHoldTable-suc : (n : ℕ) (hs : List Hold) → IsHoldTable n hs → IsHoldTable (n + 1) hs
IsHoldTable-suc n [] t = tt
IsHoldTable-suc n (h ∷ hs) (p, b, u, t) = (p, omega arith, u, IsHoldTable-suc n hs t)

pub IsUnused-next : (n : ℕ) (hs : List Hold) → IsHoldTable n hs → IsUnused n hs
IsUnused-next n [] t = tt
IsUnused-next n (h ∷ hs) (p, b, u, t) = (ground arith, IsUnused-next n hs t)

update_hold-IsUnused :
    (i : ℕ) (k : Hold) (hs : List Hold)
    → (k.id == i) ≡ false
    → IsUnused i hs
    → IsUnused i (update_hold k hs)
update_hold-IsUnused i k [] e u = tt
update_hold-IsUnused i k (h ∷ hs) e u = elim (Bool-cases (h.id == k.id)) [
  | inl same ↦ rw same (e, update_hold-IsUnused i k hs e u.1)
  | inr other ↦ rw other (u.0, update_hold-IsUnused i k hs e u.1)
]

update_hold-unused : (k : Hold) (hs : List Hold) → IsUnused k.id hs → update_hold k hs ≡ hs
update_hold-unused k [] u = refl
update_hold-unused k (h ∷ hs) u = rw (u.0) (ap (λ x. h ∷ x) (update_hold-unused k hs u.1))

same_key : (a b : ℕ) (hs : List Hold) → (a == b) ≡ true → IsUnused a hs → IsUnused b hs
same_key a b [] e u = tt
same_key a b (h ∷ hs) e u = (ground (arith, u.0), same_key a b hs e u.1)

apart_sym : (a b : ℕ) → (a == b) ≡ false → (b == a) ≡ false
apart_sym a b e = ground arith

-- An update of a row keeps the table well formed.
pub update_hold-IsHoldTable :
    (n : ℕ) (k : Hold) (hs : List Hold)
    → pos 0 <ℤ k.amount
    → IsHoldTable n hs
    → IsHoldTable n (update_hold k hs)
update_hold-IsHoldTable n k [] pk t = tt
update_hold-IsHoldTable n k (h ∷ hs) pk (p, b, u, t) = elim (Bool-cases (h.id == k.id)) [
  | inl same ↦
      let free : IsUnused k.id hs = same_key h.id k.id hs same u in
      rw same (rw (update_hold-unused k hs free) (pk, ground (arith, same), free, t))
  | inr other ↦ rw other (
    p,
    b,
    update_hold-IsUnused h.id k hs (apart_sym h.id k.id other) u,
    update_hold-IsHoldTable n k hs pk t,
  )
]

-- A row of the table.
abbrev pub IsRow : Hold → List Hold → Type 0
IsRow h [] = ⊥
IsRow h (k ∷ ks) = (k ≡ h) ⊎ IsRow h ks

pub find_hold-IsRow :
    (x : String) (hs : List Hold) (h : Hold) → find_hold x hs ≡ some h → IsRow h hs
find_hold-IsRow x [] h e = cc
find_hold-IsRow x (k ∷ hs) h e = elim (Bool-cases (str_eq k.external_id x)) [
  | inl here ↦ inl (ground (arith, here))
  | inr there ↦ inr (find_hold-IsRow x hs h (ground (arith, there)))
]

row-apart : (i : ℕ) (h : Hold) (hs : List Hold) → IsRow h hs → IsUnused i hs → (h.id == i) ≡ false
row-apart i h [] r u = elim r [ ]
row-apart i h (k ∷ hs) (inl e) u = rw (← e) (u.0)
row-apart i h (k ∷ hs) (inr r) u = row-apart i h hs r u.1

pub row-positive :
    (n : ℕ) (h : Hold) (hs : List Hold) → IsRow h hs → IsHoldTable n hs → pos 0 <ℤ h.amount
row-positive n h [] r t = elim r [ ]
row-positive n h (k ∷ hs) (inl e) t = rw (← e) (t.0)
row-positive n h (k ∷ hs) (inr r) (p, b, u, t) = row-positive n h hs r t

add_back : (a b : ℤ) → b ≡ a +ℤ b -ℤ a
add_back a b = omega int_laws

keep_minus : (a b c : ℤ) → a +ℤ (b -ℤ c) ≡ a +ℤ b -ℤ c
keep_minus a b c = omega int_laws

clash : (a b : ℕ) → (a == b) ≡ true → (b == a) ≡ false → ⊥
clash a b e f = ground arith

-- The sum with one more row in front of it.
less_step :
    (b mine active : Bool) (a r c : ℤ)
    → (if mine
        then (if active then a +ℤ (if b then r -ℤ c else r) else (if b then r -ℤ c else r))
        else (if b then r -ℤ c else r))
      ≡ (if b
          then (if mine then (if active then a +ℤ r else r) else r) -ℤ c
          else (if mine then (if active then a +ℤ r else r) else r))
less_step true true true a r c = keep_minus a r c
less_step true true false a r c = refl
less_step true false active a r c = refl
less_step false true true a r c = refl
less_step false true false a r c = refl
less_step false false active a r c = refl

-- Resolving an active hold takes its amount off what is reserved on its account.
pub reserved-update_hold :
    (n i : ℕ) (h k : Hold) (hs : List Hold)
    → IsHoldTable n hs
    → IsRow h hs
    → k.id ≡ h.id
    → k.account_id ≡ h.account_id
    → hold_is_active h.status ≡ true
    → hold_is_active k.status ≡ false
    → reserved i (update_hold k hs)
      ≡ (if h.account_id == i then reserved i hs -ℤ h.amount else reserved i hs)
reserved-update_hold n i h k [] t row id acc on off = elim row [ ]
reserved-update_hold n i h k (x ∷ hs) (p, b, u, t) row id acc on off =
    elim (Bool-cases (x.id == k.id)) [
      | inl same ↦
          let free : IsUnused k.id hs = same_key x.id k.id hs same u in
          elim row [
            | inl is_h ↦ rw same (
                rw (update_hold-unused k hs free) (elim (Bool-cases (h.account_id == i)) [
                  | inl mine ↦
                      rw mine (
                        ground (arith, is_h, acc, on, off, mine, add_back h.amount (reserved i hs)))
                  | inr theirs ↦ rw theirs (ground (arith, is_h, acc, on, off, theirs))
                ]))
            | inr later ↦
                absurd (clash x.id h.id (ground (arith, same, id)) (row-apart x.id h hs later u))
          ]
      | inr other ↦ elim row [
        | inl is_h ↦ absurd (ground (arith, is_h, id, other))
        | inr later ↦ rw other (
            rw (reserved-update_hold n i h k hs t later id acc on off) (
              less_step (h.account_id == i) (x.account_id == i) (hold_is_active x.status) x.amount
                (reserved i hs) h.amount))
      ]
    ]
