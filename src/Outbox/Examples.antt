-- ===== src/Outbox/Examples.antt =====
-- Tests of the outbox's drainer, and instances of its theorems.
use openpay.Base.{ℕ, ◌+◌, ◌≡◌, ◌≢◌, refl, Option, none, some, List, [], ◌∷◌, arith}
use openpay.Base.Int.{pos}
use openpay.Outbox.{
  OutboxEvent, Publisher, batch_size, is_published, claim, mark_published, mark_failed, sweep,
  drain_once, drain, backlog,
}
use openpay.Outbox.Drain.{drain-empties}
use openpay.Outbox.Outage.{drain-never_waits}

abbrev event : ℕ → Option ℕ → OutboxEvent
event i at = record {
  id = i;
  event_id = "evt";
  topic = "wallet.credited";
  aggregate_type = "wallet";
  aggregate_id = "wal_1";
  payload = "{}";
  created_at = 1;
  published_at = at;
  attempts = 0;
  last_error = none;
}

abbrev outbox : List OutboxEvent
outbox = event 1 none ∷ event 2 (some 5) ∷ event 3 none ∷ event 4 none ∷ []

abbrev works : Publisher
works e = none

abbrev broken : Publisher
broken e = some "connection refused"

outbox-backlog : backlog outbox ≡ 3
unfolding backlog is_published
outbox-backlog = refl

default_batch : (batch_size (pos 0) ≡ 100) × (batch_size (pos 7) ≡ 7)
unfolding batch_size
default_batch = (refl, refl)

drained : OutboxEvent → OutboxEvent
drained e = record e { published_at = some 9; attempts = e.attempts + 1 }

three_drained :
    drain works 9 2 3 outbox
    ≡ some (
        drained (event 1 none)
        ∷ event 2 (some 5)
        ∷ drained (event 3 none)
        ∷ drained (event 4 none)
        ∷ [])
unfolding drain drain_once claim sweep is_published mark_published drained
three_drained = refl

one_fails : drain_once broken 9 1 outbox ≡ (
  1,
  record (event 1 none) { attempts = 1; last_error = some "connection refused" }
      ∷ event 2 (some 5)
      ∷ event 3 none
      ∷ event 4 none
      ∷ [],
)
unfolding drain_once claim sweep is_published mark_failed
one_fails = refl

drain-empties_example :
    (rest : List OutboxEvent) × (drain works 9 2 4 outbox ≡ some rest) × (backlog rest ≡ 0)
drain-empties_example =
    drain-empties works 9 2 (λ e. refl) 4 outbox (omega arith) (omega (arith, outbox-backlog))

drain-never_waits_example : drain broken 9 3 50 outbox ≡ none
drain-never_waits_example =
    drain-never_waits broken 9 3 is_down 50 outbox (omega (arith, outbox-backlog))
  where
    is_down : (e : OutboxEvent) → broken e ≢ none
    is_down e h = cc
