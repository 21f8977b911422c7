-- ===== src/Payment/State.antt =====
-- internal/payment/state.go and the statuses of internal/models/dao/payment.go: the payment state
-- machine.
pub mod Reach
use openpay.Base.{◌≡◌, refl, Bool, true, false, ◌||◌, List, [], ◌∷◌, arith}

pub data PaymentStatus : Type 0 where
  created pending authorized captured settled failed expired cancelled : PaymentStatus
  partially_refunded refunded disputed dispute_won dispute_lost : PaymentStatus

abbrev pub same : PaymentStatus → PaymentStatus → Bool
same PaymentStatus.created PaymentStatus.created = true
same PaymentStatus.pending PaymentStatus.pending = true
same PaymentStatus.authorized PaymentStatus.authorized = true
same PaymentStatus.captured PaymentStatus.captured = true
same PaymentStatus.settled PaymentStatus.settled = true
same PaymentStatus.failed PaymentStatus.failed = true
same PaymentStatus.expired PaymentStatus.expired = true
same PaymentStatus.cancelled PaymentStatus.cancelled = true
same PaymentStatus.partially_refunded PaymentStatus.partially_refunded = true
same PaymentStatus.refunded PaymentStatus.refunded = true
same PaymentStatus.disputed PaymentStatus.disputed = true
same PaymentStatus.dispute_won PaymentStatus.dispute_won = true
same PaymentStatus.dispute_lost PaymentStatus.dispute_lost = true
same _ _ = false

-- `IsOpen`
unfoldable pub is_open : PaymentStatus → Bool
is_open s =
    same s PaymentStatus.created || same s PaymentStatus.pending || same s PaymentStatus.authorized

-- The map `transitions`; a missing key reads as no status.
unfoldable pub transitions : PaymentStatus → List PaymentStatus
transitions PaymentStatus.created =
    PaymentStatus.pending ∷ PaymentStatus.authorized ∷ PaymentStatus.captured ∷ PaymentStatus.failed
    ∷ PaymentStatus.expired ∷ PaymentStatus.cancelled ∷ []
transitions PaymentStatus.pending =
    PaymentStatus.authorized ∷ PaymentStatus.captured ∷ PaymentStatus.failed ∷ PaymentStatus.expired
    ∷ PaymentStatus.cancelled ∷ []
transitions PaymentStatus.authorized =
    PaymentStatus.captured ∷ PaymentStatus.failed ∷ PaymentStatus.expired ∷ PaymentStatus.cancelled
    ∷ []
transitions PaymentStatus.captured =
    PaymentStatus.settled ∷ PaymentStatus.partially_refunded ∷ PaymentStatus.refunded
    ∷ PaymentStatus.disputed ∷ []
transitions PaymentStatus.settled =
    PaymentStatus.partially_refunded ∷ PaymentStatus.refunded ∷ PaymentStatus.disputed ∷ []
transitions PaymentStatus.partially_refunded = PaymentStatus.refunded ∷ PaymentStatus.disputed ∷ []
transitions PaymentStatus.refunded = PaymentStatus.disputed ∷ []
transitions PaymentStatus.disputed = PaymentStatus.dispute_won ∷ PaymentStatus.dispute_lost ∷ []
transitions PaymentStatus.failed = PaymentStatus.captured ∷ []
transitions PaymentStatus.expired = PaymentStatus.captured ∷ []
transitions PaymentStatus.cancelled = PaymentStatus.captured ∷ []
transitions PaymentStatus.dispute_won = []
transitions PaymentStatus.dispute_lost = []

-- The loop of `canTransition`.
abbrev pub allows : PaymentStatus → List PaymentStatus → Bool
allows to [] = false
allows to (s ∷ ss) = same s to || allows to ss

unfoldable pub can_transition : PaymentStatus → PaymentStatus → Bool
unfolding transitions
can_transition from to = allows to (transitions from)

-- internal/provider/provider.go: `Status`
pub data ProviderStatus : Type 0 where
  created pending authorized captured failed cancelled : ProviderStatus

unfoldable pub from_provider : ProviderStatus → PaymentStatus
from_provider ProviderStatus.pending = PaymentStatus.pending
from_provider ProviderStatus.authorized = PaymentStatus.authorized
from_provider ProviderStatus.captured = PaymentStatus.captured
from_provider ProviderStatus.failed = PaymentStatus.failed
from_provider ProviderStatus.cancelled = PaymentStatus.cancelled
from_provider ProviderStatus.created = PaymentStatus.created
