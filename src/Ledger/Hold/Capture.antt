-- ===== src/Ledger/Hold/Capture.antt =====
-- internal/repository/postgresql/ledger_hold.go: `CaptureHold` and `CaptureHolds`. The order in which
-- rows are locked shows in no result: the holds are sorted by id whatever order they were read in.
pub mod Laws
use openpay.Base.{
  ℕ, ◌+◌, Bool, true, false, ◌==◌, ◌&&◌, ◌||◌, not, leb, length, Option, none, some, String, List,
  [], ◌∷◌, if◌then◌else◌,
}
use openpay.Base.Int.{ℤ, pos, ltb_ℤ, leb_ℤ}
use openpay.Base.Int64.{neg64}
use openpay.Errors.{
  Result, ok, err, internal, invalid_argument, not_found, already_exists, failed_precondition,
  ◌>>=◌, ◌>>◌, fail_if, or_fail,
}
use openpay.Ledger.Types.{Hold, HoldStatus, Journal}
use openpay.Ledger.Store.{AccountRow, Store, find_account, find_hold, get_journal}
use openpay.Ledger.Locks.{HoldRelease}
use openpay.Ledger.Post.{post_journal, no_check}
use openpay.Ledger.Hold.{net_natural_change, update_hold}

unfoldable pub lock_holds : List String → List Hold → Result (List Hold)
lock_holds [] hs = ok []
lock_holds (x ∷ xs) hs = do
  h ← or_fail (find_hold x hs) not_found
  rest ← lock_holds xs hs
  ok (h ∷ rest)

-- `slices.SortFunc` by id
unfoldable pub insert_hold : Hold → List Hold → List Hold
insert_hold h [] = h ∷ []
insert_hold h (k ∷ ks) = if leb h.id k.id then h ∷ k ∷ ks else k ∷ insert_hold h ks

unfoldable pub sort_holds : List Hold → List Hold
sort_holds [] = []
sort_holds (h ∷ hs) = insert_hold h (sort_holds hs)

-- The first loop over the holds: how many were captured before.
unfoldable pub captured_before : List Hold → Result ℕ
captured_before [] = ok 0
captured_before (h ∷ hs) =
    let rest = captured_before hs in
    elim h.status [
      | HoldStatus.captured ↦ (rest >>= λ n. ok (n + 1))
      | HoldStatus.active ↦ rest
      | HoldStatus.released ↦ err failed_precondition
      | HoldStatus.expired ↦ err failed_precondition
    ]

unfoldable pub captured_by : ℕ → Option ℕ → Bool
captured_by j none = false
captured_by j (some k) = k == j

unfoldable pub all_captured_by : ℕ → List Hold → Bool
all_captured_by j [] = true
all_captured_by j (h ∷ hs) = captured_by j h.capture_journal_id && all_captured_by j hs

-- What capturing takes from one hold.
unfoldable pub taken_from : Journal → List AccountRow → Hold → Result ℤ
taken_from j rows h = do
  r ← or_fail (find_account h.account_id rows) not_found
  let taken = neg64 (net_natural_change j r.account)
  fail_if (leb_ℤ taken (pos 0) || ltb_ℤ h.amount taken) invalid_argument
  ok taken

-- The loop over the holds that fills `taken`.
unfoldable pub take_all : Journal → List AccountRow → List Hold → Result (List (Hold × ℤ))
take_all j rows [] = ok []
take_all j rows (h ∷ hs) = do
  taken ← taken_from j rows h
  rest ← take_all j rows hs
  ok ((h, taken) ∷ rest)

unfoldable pub releases_of : List (Hold × ℤ) → List HoldRelease
releases_of [] = []
releases_of ((h, taken) ∷ hs) =
    record { account_id = h.account_id; amount = h.amount } ∷ releases_of hs

abbrev pub captured_hold : ℕ → Hold → ℤ → Hold
captured_hold j h taken = record h {
  status = HoldStatus.captured;
  capture_journal_id = some j;
  captured_amount = some taken;
}

-- The last loop over the holds: the rows, and the holds that are returned.
unfoldable pub mark_captured : ℕ → List (Hold × ℤ) → List Hold → List Hold
mark_captured j [] table = table
mark_captured j ((h, taken) ∷ hs) table =
    mark_captured j hs (update_hold (captured_hold j h taken) table)

unfoldable pub captured_holds : ℕ → List (Hold × ℤ) → List Hold
captured_holds j [] = []
captured_holds j ((h, taken) ∷ hs) = captured_hold j h taken ∷ captured_holds j hs

-- The retry of a capture that went through.
unfoldable pub replay_capture :
    ℕ → List Hold → Journal → Store → Result (List Hold × Bool × Journal × Store)
replay_capture before hs j s = do
  existing ← or_fail (get_journal j.external_id s) failed_precondition
  fail_if (not (before == length hs)) failed_precondition
  fail_if (not (all_captured_by existing.id hs)) failed_precondition
  ok (hs, false, existing, s)

unfoldable pub capture_active :
    List Hold → Journal → Store → Result (List Hold × Bool × Journal × Store)
capture_active hs j s = do
  taken ← take_all j s.accounts hs
  (posted, j', s') ← post_journal (releases_of taken) no_check j s
  fail_if (not posted) already_exists
  ok (
    captured_holds j'.id taken,
    true,
    j',
    record s' { holds = mark_captured j'.id taken s'.holds },
  )

unfoldable pub capture_holds :
    List String → Journal → Store → Result (List Hold × Bool × Journal × Store)
capture_holds xs j s = do
  fail_if (not s.in_tx) internal
  locked ← lock_holds xs s.holds
  let hs = sort_holds locked
  before ← captured_before hs
  if before == 0 then capture_active hs j s else replay_capture before hs j s

unfoldable pub first_hold : List Hold → Option Hold
first_hold [] = none
first_hold (h ∷ hs) = some h

-- `holds[0]` is in range whenever `CaptureHolds` succeeds; the panic it would be otherwise is an error
-- here.
unfoldable pub capture_hold : String → Journal → Store → Result (Hold × Bool × Journal × Store)
capture_hold x j s = do
  (hs, captured, j', s') ← capture_holds (x ∷ []) j s
  h ← or_fail (first_hold hs) internal
  ok (h, captured, j', s')
