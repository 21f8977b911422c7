-- ===== src/Outbox.antt =====
-- internal/outbox/drainer.go: `drainOnce` and the loop of `Run` that drains before it waits, on the
-- rows of internal/repository/postgresql/outbox.go, in the order of their ids.
pub mod Drain
pub mod Outage
pub mod Examples
use openpay.Base.{
  ℕ, zero, suc, ◌+◌, ◌==◌, ◌&&◌, not, Bool, true, false, ltb, Option, none, some, String, List, [],
  ◌∷◌, length, map, if◌then◌else◌,
}
use openpay.Base.Int.{ℤ, pos, leb_ℤ, magnitude}

-- `dao.OutboxEvent`
pub record OutboxEvent : Type 0 where
  pub id : ℕ
  pub event_id : String
  pub topic : String
  pub aggregate_type : String
  pub aggregate_id : String
  pub payload : String
  pub created_at : ℕ
  pub published_at : Option ℕ
  pub attempts : ℕ
  pub last_error : Option String

-- `withDefaults`, of the batch size.
unfoldable pub batch_size : ℤ → ℕ
batch_size n = if leb_ℤ n (pos 0) then 100 else magnitude n

unfoldable pub is_published : OutboxEvent → Bool
is_published e = elim e.published_at [ none ↦ false | some at ↦ true ]

-- `ClaimUnpublishedOutboxEvents`, when no other drainer holds a row.
unfoldable pub claim : ℕ → List OutboxEvent → List OutboxEvent
claim zero es = []
claim (suc n) [] = []
claim (suc n) (e ∷ es) = if is_published e then claim (suc n) es else e ∷ claim n es

abbrev pub published : ℕ → ℕ → OutboxEvent → OutboxEvent
published now i e =
    if e.id == i
    then record e { published_at = some now; attempts = e.attempts + 1; last_error = none }
    else e

-- `MarkOutboxEventPublished`
unfoldable pub mark_published : ℕ → ℕ → List OutboxEvent → List OutboxEvent
mark_published now i [] = []
mark_published now i (e ∷ es) = published now i e ∷ mark_published now i es

abbrev pub failed : String → ℕ → OutboxEvent → OutboxEvent
failed cause i e =
    if e.id == i then record e { attempts = e.attempts + 1; last_error = some cause } else e

-- `MarkOutboxEventFailed`
unfoldable pub mark_failed : String → ℕ → List OutboxEvent → List OutboxEvent
mark_failed cause i [] = []
mark_failed cause i (e ∷ es) = failed cause i e ∷ mark_failed cause i es

-- What publishing an event gives: nothing, or why it failed.
abbrev pub Publisher : Type 0
Publisher = OutboxEvent → Option String

module _ (publish : Publisher) (now batch : ℕ) where
  abbrev pub mark : Option String → ℕ → List OutboxEvent → List OutboxEvent
  mark none i rows = mark_published now i rows
  mark (some cause) i rows = mark_failed cause i rows

  -- The loop of `drainOnce` over the claimed events.
  unfoldable pub sweep : List OutboxEvent → List OutboxEvent → List OutboxEvent
  sweep [] rows = rows
  sweep (e ∷ es) rows = sweep es (mark (publish e) e.id rows)

  -- The number of events handled, and the rows.
  unfoldable pub drain_once : List OutboxEvent → ℕ × List OutboxEvent
  drain_once rows = (length (claim batch rows), sweep (claim batch rows) rows)

  -- The inner loop of `Run`, on fuel.
  unfoldable pub drain : ℕ → List OutboxEvent → Option (List OutboxEvent)
  drain zero rows = none
  drain (suc fuel) rows =
      let (handled, rest) = drain_once rows in
      let more = drain fuel rest in if ltb handled batch then some rest else more

-- How many events are still to be published.
unfoldable pub backlog : List OutboxEvent → ℕ
backlog [] = 0
backlog (e ∷ es) = if is_published e then backlog es else suc (backlog es)
