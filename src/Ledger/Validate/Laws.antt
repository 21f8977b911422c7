-- ===== src/Ledger/Validate/Laws.antt =====
-- What a validated journal satisfies.
use openpay.Base.{
  ℕ, ◌+◌, ◌<◌, ◌≤◌, ◌≡◌, ◌≢◌, ◌↔◌, ◌⊎◌, ◌∙◌, sym, refl, false, String, List, [], ◌∷◌, length, All,
  arith, str_eq, eq_iff, if◌then◌else◌, Bool-cases, inl, inr,
}
use openpay.Base.Int.{
  ℤ, pos, pos_part, magnitude, ◌+ℤ◌, int_laws, magnitude-+ℤ, magnitude-neg, one_*ℤ, minus_one_*ℤ,
}
use openpay.Base.Int64.{half, add64_exact, one_mul64, minus_one_mul64}
use openpay.Errors.{ok, Result-cases}
use openpay.Ledger.Types.{Posting, Journal, debit, credit, signed, contribution}
use openpay.Ledger.Validate.{Sums, get_sum, add_sum, sum_postings, check_sums, validate_journal}

-- A posting that the ledger accepts: a positive amount, a debit or a credit, in a currency.
pub record IsLeg (p : Posting) : Type 0 where
  pub positive : 0 < pos_part p.amount
  pub side : (p.direction ≡ debit) ⊎ (p.direction ≡ credit)
  pub named : p.currency ≢ ""

-- The amounts of a list of postings, added up without overflow.
abbrev pub volume : List Posting → ℕ
volume [] = 0
volume (p ∷ ps) = magnitude p.amount + volume ps

-- Debits minus credits in one currency, in unbounded integers.
abbrev pub currency_sum : String → List Posting → ℤ
currency_sum c [] = pos 0
currency_sum c (p ∷ ps) =
    if str_eq p.currency c then contribution p +ℤ currency_sum c ps else currency_sum c ps

pub signed-contribution :
    (p : Posting) → IsLeg p → magnitude p.amount < half → signed p ≡ contribution p
unfolding signed
signed-contribution p l h = elim l.side [
  | inl e ↦ rw e (one_mul64 p.amount h ∙ sym (one_*ℤ p.amount))
  | inr e ↦ rw e (minus_one_mul64 p.amount h ∙ sym (minus_one_*ℤ p.amount))
]

pub magnitude-contribution :
    (p : Posting) → IsLeg p → magnitude (contribution p) ≤ magnitude p.amount
magnitude-contribution p l = elim l.side [
  | inl e ↦ rw e (rw (one_*ℤ p.amount) (omega arith))
  | inr e ↦ rw e (rw (minus_one_*ℤ p.amount) (omega (arith, magnitude-neg p.amount)))
]

-- Every sum in the map has room for `n` more.
abbrev HasRoom : ℕ → Sums → Type 0
HasRoom n [] = Unit
HasRoom n ((k, v) ∷ m) = (magnitude v + n < half) × HasRoom n m

HasRoom-le : (n k : ℕ) (m : Sums) → k ≤ n → HasRoom n m → HasRoom k m
HasRoom-le n k [] h r = tt
HasRoom-le n k ((c, v) ∷ m) h r = (omega arith, HasRoom-le n k m h r.1)

get_sum-add_sum :
    (c k : String) (x : ℤ) (m : Sums)
    → magnitude x < half
    → HasRoom (magnitude x) m
    → get_sum c (add_sum k x m) ≡ (if str_eq k c then get_sum c m +ℤ x else get_sum c m)
unfolding add_sum
get_sum-add_sum c k x [] h r = elim (Bool-cases (str_eq k c)) [
  | inl e ↦ rw e (add64_exact (pos 0) x (omega arith))
  | inr e ↦ rw e
]
get_sum-add_sum c k x ((j, v) ∷ m) h r =
    ground
      (arith, eq_iff j k, eq_iff j c, eq_iff k c, add64_exact v x, get_sum-add_sum c k x m h r.1)

HasRoom-add_sum :
    (n : ℕ) (k : String) (x : ℤ) (m : Sums)
    → magnitude x + n < half
    → HasRoom (magnitude x + n) m
    → HasRoom n (add_sum k x m)
unfolding add_sum
HasRoom-add_sum n k x [] h r =
    (rw (add64_exact (pos 0) x (omega arith)) (omega (arith, magnitude-+ℤ (pos 0) x)), tt)
HasRoom-add_sum n k x ((j, v) ∷ m) h r = elim (Bool-cases (str_eq j k)) [
  | inl e ↦ rw e (
    rw (add64_exact v x (omega arith)) (omega (arith, magnitude-+ℤ v x)),
    HasRoom-le (magnitude x + n) n m (omega arith) r.1,
  )
  | inr e ↦ rw e (omega arith, HasRoom-add_sum n k x m h r.1)
]

-- A posting that passes the loop is a leg, and the loop goes on with its sum added.
sum_postings-cons :
    (p : Posting) (ps : List Posting) (sums out : Sums)
    → sum_postings (p ∷ ps) sums ≡ ok out
    → IsLeg p × (sum_postings ps (add_sum p.currency (signed p) sums) ≡ ok out)
unfolding sum_postings
sum_postings-cons p ps sums out h = (
  record {
    positive = ground arith;
    side = ground arith;
    named = ground (arith, eq_iff p.currency "");
  },
  ground arith,
)

sum_postings_step :
    (p : Posting) (ps : List Posting) (sums : Sums)
    → IsLeg p
    → sum_postings (p ∷ ps) sums ≡ sum_postings ps (add_sum p.currency (signed p) sums)
unfolding sum_postings
sum_postings_step p ps sums l = ground (arith, l, eq_iff p.currency "")

sum_postings-IsLeg :
    (ps : List Posting) (sums out : Sums) → sum_postings ps sums ≡ ok out → All IsLeg ps
sum_postings-IsLeg [] sums out h = tt
sum_postings-IsLeg (p ∷ ps) sums out h =
    let (leg, rest) = sum_postings-cons p ps sums out h in
    (leg, sum_postings-IsLeg ps (add_sum p.currency (signed p) sums) out rest)

zero_right : (a : ℤ) → a ≡ a +ℤ pos 0
zero_right a = omega int_laws

zero_left : (a : ℤ) → pos 0 +ℤ a ≡ a
zero_left a = omega int_laws

add_leg :
    (c k : String) (a x y : ℤ)
    → (if str_eq k c then a +ℤ x else a) +ℤ y ≡ a +ℤ (if str_eq k c then x +ℤ y else y)
add_leg c k a x y = elim (Bool-cases (str_eq k c)) [ inl e ↦ rw e (omega int_laws) | inr e ↦ rw e ]

sum_postings-get_sum :
    (c : String) (ps : List Posting) (sums out : Sums)
    → volume ps < half
    → HasRoom (volume ps) sums
    → sum_postings ps sums ≡ ok out
    → get_sum c out ≡ get_sum c sums +ℤ currency_sum c ps
sum_postings-get_sum c [] sums out v r h =
    unfold sum_postings in ground (arith, zero_right (get_sum c out))
sum_postings-get_sum c (p ∷ ps) sums out v r h =
    let (leg, rest) = sum_postings-cons p ps sums out h in
    let e : signed p ≡ contribution p = signed-contribution p leg (omega arith) in
    let small : magnitude (contribution p) ≤ magnitude p.amount = magnitude-contribution p leg in
    sum_postings-get_sum c ps (add_sum p.currency (signed p) sums) out (omega arith)
      (rw e (
        HasRoom-add_sum (volume ps) p.currency (contribution p) sums (omega arith)
          (HasRoom-le _ _ sums (omega arith) r)))
      rest
    ∙ rw e (
        rw
          (get_sum-add_sum c p.currency (contribution p) sums (omega arith)
            (HasRoom-le _ _ sums (omega arith) r))
          (add_leg c p.currency (get_sum c sums) (contribution p) (currency_sum c ps)))

check_sums-get_sum : (c : String) (m : Sums) → check_sums m ≡ ok tt → get_sum c m ≡ pos 0
unfolding check_sums
check_sums-get_sum c [] h = refl
check_sums-get_sum c ((k, v) ∷ m) h = ground (arith, check_sums-get_sum c m)

-- Every currency is listed once.
abbrev Absent : String → Sums → Type 0
Absent c [] = Unit
Absent c ((k, v) ∷ m) = (str_eq k c ≡ false) × Absent c m

abbrev IsMap : Sums → Type 0
IsMap [] = Unit
IsMap ((k, v) ∷ m) = Absent k m × IsMap m

-- What `validateJournal` is to accept, in unbounded integers.
pub record IsBalanced (j : Journal) : Type 0 where
  pub identified : j.external_id ≢ ""
  pub two_legs : 2 ≤ length j.postings
  pub legs : All IsLeg j.postings
  pub balanced : (c : String) → currency_sum c j.postings ≡ pos 0

validate_journal-cases :
    (j : Journal)
    → validate_journal j ≡ ok tt
    → (j.external_id ≢ "")
      × (2 ≤ length j.postings)
      × (out : Sums) × (sum_postings j.postings [] ≡ ok out)
      × (check_sums out ≡ ok tt)
unfolding validate_journal
validate_journal-cases j h = elim (Result-cases (sum_postings j.postings [])) [
  | inl (out, e) ↦
      (ground (arith, eq_iff j.external_id ""), ground arith, out, e, ground (arith, e))
  | inr (c, e) ↦ absurd (ground (arith, e))
]

validate_journal-IsBalanced_of_ok :
    (j : Journal) → volume j.postings < half → validate_journal j ≡ ok tt → IsBalanced j
validate_journal-IsBalanced_of_ok j v h =
    let (named, two, out, e, zero_sums) = validate_journal-cases j h in
    record {
      identified = named;
      two_legs = two;
      legs = sum_postings-IsLeg j.postings [] out e;
      balanced = λ c.
          sym (
            sum_postings-get_sum c j.postings [] out v tt e ∙ zero_left (currency_sum c j.postings))
          ∙ check_sums-get_sum c out zero_sums;
    }

sum_postings-total :
    (ps : List Posting) (sums : Sums)
    → All IsLeg ps
    → (out : Sums) × (sum_postings ps sums ≡ ok out)
sum_postings-total [] sums h = (sums, unfold sum_postings in refl)
sum_postings-total (p ∷ ps) sums h =
    let (out, e) = sum_postings-total ps (add_sum p.currency (signed p) sums) h.1 in
    (out, sum_postings_step p ps sums h.0 ∙ e)

Absent-add_sum :
    (c k : String) (x : ℤ) (m : Sums) → str_eq k c ≡ false → Absent c m → Absent c (add_sum k x m)
unfolding add_sum
Absent-add_sum c k x [] ne a = (ne, tt)
Absent-add_sum c k x ((j, v) ∷ m) ne a = elim (Bool-cases (str_eq j k)) [
  | inl e ↦ rw e a
  | inr e ↦ rw e (a.0, Absent-add_sum c k x m ne a.1)
]

IsMap-add_sum : (k : String) (x : ℤ) (m : Sums) → IsMap m → IsMap (add_sum k x m)
unfolding add_sum
IsMap-add_sum k x [] a = (tt, tt)
IsMap-add_sum k x ((j, v) ∷ m) a = elim (Bool-cases (str_eq j k)) [
  | inl e ↦ rw e a
  | inr e ↦
      rw e (
        Absent-add_sum j k x m (ground (arith, eq_iff j k, eq_iff k j)) a.0,
        IsMap-add_sum k x m a.1,
      )
]

sum_postings-IsMap :
    (ps : List Posting) (sums out : Sums) → IsMap sums → sum_postings ps sums ≡ ok out → IsMap out
sum_postings-IsMap [] sums out a h = unfold sum_postings in ground (arith, a)
sum_postings-IsMap (p ∷ ps) sums out a h =
    sum_postings-IsMap ps (add_sum p.currency (signed p) sums) out
      (IsMap-add_sum p.currency (signed p) sums a) (sum_postings-cons p ps sums out h).1

get_sum-Absent : (c : String) (m : Sums) → Absent c m → get_sum c m ≡ pos 0
get_sum-Absent c [] a = refl
get_sum-Absent c ((k, v) ∷ m) a = rw (a.0) (get_sum-Absent c m a.1)

get_sum-tail :
    (k c : String) (v : ℤ) (m : Sums)
    → Absent k m
    → get_sum c ((k, v) ∷ m) ≡ pos 0
    → get_sum c m ≡ pos 0
get_sum-tail k c v m a h = elim (Bool-cases (str_eq k c)) [
  | inl e ↦ rw (← (eq_iff k c).0 e) (get_sum-Absent k m a)
  | inr e ↦ ground (arith, e)
]

check_sums_of_zero :
    (m : Sums) → IsMap m → ((c : String) → get_sum c m ≡ pos 0) → check_sums m ≡ ok tt
unfolding check_sums
check_sums_of_zero [] a h = refl
check_sums_of_zero ((k, v) ∷ m) a h =
    ground (arith, h k, eq_iff k k, check_sums_of_zero m a.1 (λ c. get_sum-tail k c v m a.0 (h c)))

validate_journal-ok_of_IsBalanced :
    (j : Journal) → volume j.postings < half → IsBalanced j → validate_journal j ≡ ok tt
unfolding validate_journal
validate_journal-ok_of_IsBalanced j v b =
    let (out, e) = sum_postings-total j.postings [] b.legs in
    ground (
      arith,
      e,
      eq_iff j.external_id "",
      check_sums_of_zero out (sum_postings-IsMap j.postings [] out tt e) (λ c.
          sum_postings-get_sum c j.postings [] out v tt e
          ∙ zero_left (currency_sum c j.postings)
          ∙ b.balanced c),
    )

-- `validateJournal` accepts exactly the journals that carry an external id, have two postings or
-- more, each a positive debit or credit in a named currency, and sum to zero in every currency,
-- provided that the amounts of the journal add up below 2^63.
pub validate_journal_iff :
    (j : Journal) → volume j.postings < half → (validate_journal j ≡ ok tt) ↔ IsBalanced j
validate_journal_iff j v =
    (validate_journal-IsBalanced_of_ok j v, validate_journal-ok_of_IsBalanced j v)
