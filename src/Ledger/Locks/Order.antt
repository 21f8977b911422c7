-- ===== src/Ledger/Locks/Order.antt =====
-- The order in which balance rows are locked.
use openpay.Base.{
  ℕ, ◌<◌, ◌≡◌, ◌⊎◌, inl, inr, refl, Bool, true, false, ◌==◌, ◌||◌, List, [], ◌∷◌, ◌++◌, All,
  Bool-cases, arith,
}
use openpay.Ledger.Types.{Posting}
use openpay.Ledger.Locks.{
  HoldRelease, contains, add_id, posting_ids, release_ids, insert, sort, lock_ids,
}

-- Strictly ascending: in order, and nothing twice.
abbrev pub IsAscending : List ℕ → Type 0
IsAscending [] = Unit
IsAscending (i ∷ is) = All (λ j. i < j) is × IsAscending is

abbrev IsDistinct : List ℕ → Type 0
IsDistinct [] = Unit
IsDistinct (i ∷ is) = (contains i is ≡ false) × IsDistinct is

contains-append : (i j : ℕ) (is : List ℕ) → contains i (is ++ j ∷ []) ≡ (contains i is || i == j)
unfolding contains
contains-append i j [] = ground arith
contains-append i j (k ∷ is) = ground (arith, contains-append i j is)

IsDistinct-append :
    (j : ℕ) (is : List ℕ) → contains j is ≡ false → IsDistinct is → IsDistinct (is ++ j ∷ [])
unfolding contains
IsDistinct-append j [] n d = (refl, tt)
IsDistinct-append j (k ∷ is) n d =
    (ground (arith, contains-append k j is), IsDistinct-append j is (ground arith) d.1)

IsDistinct-add_id : (is : List ℕ) (j : ℕ) → IsDistinct is → IsDistinct (add_id is j)
unfolding add_id
IsDistinct-add_id is j d = ground (arith, IsDistinct-append j is)

same_or_absorbed :
    (i j : ℕ) (is : List ℕ) → contains j is ≡ true → contains i is ≡ (contains i is || i == j)
unfolding contains
same_or_absorbed i j [] e = cc
same_or_absorbed i j (k ∷ is) e = ground (arith, same_or_absorbed i j is)

contains-add_id :
    (i : ℕ) (is : List ℕ) (j : ℕ) → contains i (add_id is j) ≡ (contains i is || i == j)
unfolding add_id
contains-add_id i is j = elim (Bool-cases (contains j is)) [
  | inl e ↦ rw e (same_or_absorbed i j is e)
  | inr e ↦ rw e (contains-append i j is)
]

IsDistinct-posting_ids :
    (is : List ℕ) (ps : List Posting) → IsDistinct is → IsDistinct (posting_ids is ps)
unfolding posting_ids
IsDistinct-posting_ids is [] d = d
IsDistinct-posting_ids is (p ∷ ps) d =
    IsDistinct-posting_ids (add_id is p.account_id) ps (IsDistinct-add_id is p.account_id d)

IsDistinct-release_ids :
    (is : List ℕ) (rs : List HoldRelease) → IsDistinct is → IsDistinct (release_ids is rs)
unfolding release_ids
IsDistinct-release_ids is [] d = d
IsDistinct-release_ids is (r ∷ rs) d =
    IsDistinct-release_ids (add_id is r.account_id) rs (IsDistinct-add_id is r.account_id d)

-- The accounts that the postings name, and those whose holds are released.
abbrev pub posts_to : ℕ → List Posting → Bool
posts_to i [] = false
posts_to i (p ∷ ps) = i == p.account_id || posts_to i ps

abbrev pub releases_on : ℕ → List HoldRelease → Bool
releases_on i [] = false
releases_on i (r ∷ rs) = i == r.account_id || releases_on i rs

contains-posting_ids :
    (i : ℕ) (is : List ℕ) (ps : List Posting)
    → contains i (posting_ids is ps) ≡ (contains i is || posts_to i ps)
unfolding posting_ids
contains-posting_ids i is [] = ground arith
contains-posting_ids i is (p ∷ ps) =
    ground
      (arith, contains-posting_ids i (add_id is p.account_id) ps, contains-add_id i is p.account_id)

contains-release_ids :
    (i : ℕ) (is : List ℕ) (rs : List HoldRelease)
    → contains i (release_ids is rs) ≡ (contains i is || releases_on i rs)
unfolding release_ids
contains-release_ids i is [] = ground arith
contains-release_ids i is (r ∷ rs) =
    ground
      (arith, contains-release_ids i (add_id is r.account_id) rs, contains-add_id i is r.account_id)

contains-insert : (i j : ℕ) (is : List ℕ) → contains i (insert j is) ≡ (i == j || contains i is)
unfolding contains insert
contains-insert i j [] = refl
contains-insert i j (k ∷ is) = ground (arith, contains-insert i j is)

contains-sort : (i : ℕ) (is : List ℕ) → contains i (sort is) ≡ contains i is
unfolding contains sort
contains-sort i [] = refl
contains-sort i (j ∷ is) = ground (arith, contains-sort i is, contains-insert i j (sort is))

All-insert : (k j : ℕ) (is : List ℕ) → k < j → All (λ i. k < i) is → All (λ i. k < i) (insert j is)
unfolding insert
All-insert k j [] h a = (h, tt)
All-insert k j (i ∷ is) h a = ground (arith, All-insert k j is h a.1)

All-lt : (k j : ℕ) (is : List ℕ) → k < j → All (λ i. j < i) is → All (λ i. k < i) is
All-lt k j [] h a = tt
All-lt k j (i ∷ is) h a = (omega arith, All-lt k j is h a.1)

insert-IsAscending :
    (j : ℕ) (is : List ℕ) → contains j is ≡ false → IsAscending is → IsAscending (insert j is)
unfolding contains insert
insert-IsAscending j [] n a = (tt, tt)
insert-IsAscending j (i ∷ is) n a =
    ground (arith, All-lt j i is, All-insert i j is, insert-IsAscending j is)

sort-IsAscending : (is : List ℕ) → IsDistinct is → IsAscending (sort is)
unfolding sort
sort-IsAscending [] d = tt
sort-IsAscending (i ∷ is) d =
    insert-IsAscending i (sort is) (rw contains-sort d.0) (sort-IsAscending is d.1)

-- Every journal locks its accounts in strictly ascending order of their ids, whatever the order
-- of its postings and releases, and however often an account is named.
pub lock_ids-IsAscending :
    (ps : List Posting) (rs : List HoldRelease) → IsAscending (lock_ids ps rs)
unfolding lock_ids
lock_ids-IsAscending ps rs =
    sort-IsAscending _
      (IsDistinct-release_ids (posting_ids [] ps) rs (IsDistinct-posting_ids [] ps tt))

contains-nil : (i : ℕ) → contains i [] ≡ false
unfolding contains
contains-nil i = refl

-- It locks the accounts that it posts to or releases a hold on, and no others.
pub contains-lock_ids :
    (i : ℕ) (ps : List Posting) (rs : List HoldRelease)
    → contains i (lock_ids ps rs) ≡ (posts_to i ps || releases_on i rs)
unfolding lock_ids
contains-lock_ids i ps rs = ground (
  arith,
  contains-sort i (release_ids (posting_ids [] ps) rs),
  contains-release_ids i (posting_ids [] ps) rs,
  contains-posting_ids i [] ps,
  contains-nil i,
)

-- `i` is locked, and `j` after it.
abbrev pub Before : ℕ → ℕ → List ℕ → Type 0
Before i j [] = ⊥
Before i j (k ∷ is) = ((k ≡ i) × (contains j is ≡ true)) ⊎ Before i j is

All-contains : (k j : ℕ) (is : List ℕ) → All (λ i. k < i) is → contains j is ≡ true → k < j
unfolding contains
All-contains k j [] a h = cc
All-contains k j (i ∷ is) a h = ground (arith, All-contains k j is a.1)

Before-lt : (i j : ℕ) (is : List ℕ) → IsAscending is → Before i j is → i < j
Before-lt i j [] a b = elim b [ ]
Before-lt i j (k ∷ is) a (inl (e, c)) = rw (← e) (All-contains k j is a.0 c)
Before-lt i j (k ∷ is) a (inr b) = Before-lt i j is a.1 b

-- Two journals never lock the same two accounts in opposite orders, so that neither can hold
-- what the other waits for while it waits for the other.
pub lock_ids_never_cross :
    (i j : ℕ) (ps qs : List Posting) (rs ts : List HoldRelease)
    → Before i j (lock_ids ps rs)
    → ¬ Before j i (lock_ids qs ts)
lock_ids_never_cross i j ps qs rs ts b c = omega (
  arith,
  Before-lt i j (lock_ids ps rs) (lock_ids-IsAscending ps rs) b,
  Before-lt j i (lock_ids qs ts) (lock_ids-IsAscending qs ts) c,
)
