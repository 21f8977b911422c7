-- ===== src/Payment/State/Reach.antt =====
-- What the payment state machine allows over any sequence of transitions.
use openpay.Base.{ℕ, suc, ◌≤◌, ◌<◌, ◌≡◌, Bool, true, false, arith}
use openpay.Payment.State.{
  PaymentStatus, ProviderStatus, transitions, can_transition, from_provider,
}

-- Has money been collected in this status?
abbrev pub has_money : PaymentStatus → Bool
has_money PaymentStatus.created = false
has_money PaymentStatus.pending = false
has_money PaymentStatus.authorized = false
has_money PaymentStatus.failed = false
has_money PaymentStatus.expired = false
has_money PaymentStatus.cancelled = false
has_money _ = true

-- A sequence of transitions with its length.
pub data Run : ℕ → PaymentStatus → PaymentStatus → Type 0 where
  stay : {s : PaymentStatus} → Run 0 s s
  move : {n : ℕ} {s t u : PaymentStatus} → can_transition s t ≡ true → Run n t u → Run (suc n) s u

-- A measure that every transition raises.
abbrev pub rank : PaymentStatus → ℕ
rank PaymentStatus.created = 0
rank PaymentStatus.pending = 1
rank PaymentStatus.authorized = 2
rank PaymentStatus.failed = 3
rank PaymentStatus.expired = 3
rank PaymentStatus.cancelled = 3
rank PaymentStatus.captured = 4
rank PaymentStatus.settled = 5
rank PaymentStatus.partially_refunded = 6
rank PaymentStatus.refunded = 7
rank PaymentStatus.disputed = 8
rank PaymentStatus.dispute_won = 9
rank PaymentStatus.dispute_lost = 9

pub can_transition-rank : (s t : PaymentStatus) → can_transition s t ≡ true → rank s < rank t
unfolding can_transition transitions
can_transition-rank s t h = ground arith

can_transition-has_money :
    (s t : PaymentStatus) → can_transition s t ≡ true → has_money s ≡ true → has_money t ≡ true
unfolding can_transition transitions
can_transition-has_money s t h m = ground arith

pub rank-le : (s : PaymentStatus) → rank s ≤ 9
rank-le s = ground arith

-- Money that has been collected stays so in every status that any sequence of transitions reaches.
pub Run-has_money :
    (n : ℕ) (s t : PaymentStatus) → Run n s t → has_money s ≡ true → has_money t ≡ true
Run-has_money _ _ _ stay m = m
Run-has_money _ _ _ (move {n} {s} {t} {u} step rest) m =
    Run-has_money n t u rest (can_transition-has_money s t step m)

-- Does a provider's report say more than the status?
abbrev pub is_news : PaymentStatus → ProviderStatus → Bool
is_news PaymentStatus.created ProviderStatus.created = false
is_news PaymentStatus.created _ = true
is_news PaymentStatus.pending ProviderStatus.created = false
is_news PaymentStatus.pending ProviderStatus.pending = false
is_news PaymentStatus.pending _ = true
is_news PaymentStatus.authorized ProviderStatus.captured = true
is_news PaymentStatus.authorized ProviderStatus.failed = true
is_news PaymentStatus.authorized ProviderStatus.cancelled = true
is_news PaymentStatus.failed ProviderStatus.captured = true
is_news PaymentStatus.expired ProviderStatus.captured = true
is_news PaymentStatus.cancelled ProviderStatus.captured = true
is_news _ _ = false

-- A provider's report may be written over a payment's status exactly where no money has been
-- collected and the report is of a later status, in the order created, pending, authorized, and then
-- captured, failed or cancelled; a failed, expired or cancelled payment takes only a capture.
pub can_transition-is_news :
    (s : PaymentStatus) (p : ProviderStatus) → can_transition s (from_provider p) ≡ is_news s p
unfolding can_transition transitions from_provider
can_transition-is_news s p = ground arith
