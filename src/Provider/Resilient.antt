-- ===== src/Provider/Resilient.antt =====
-- internal/provider/resilient.go: the retries and the circuit breaker around a provider's calls. A
-- provider is not deterministic, so that its results are a sequence, one for each attempt, with the
-- time at which it arrives; a timeout is one of the results, Unavailable. The caller's own
-- cancellation, which ends the wait before a retry, is not modelled, nor is a second caller.
pub mod Laws
use openpay.Base.{
  ℕ, zero, suc, ◌+◌, ◌≡◌, Bool, true, false, not, leb, ltb, List, [], ◌∷◌, if◌then◌else◌,
}
use openpay.Errors.{Code, Result, ok, err, unavailable}

pub record Config : Type 0 where
  pub retries : ℕ
  pub failure_threshold : ℕ
  pub cooldown : ℕ

pub record Circuit : Type 0 where
  pub failures : ℕ
  pub open_until : ℕ

-- `Health().Healthy`
unfoldable pub healthy : ℕ → Circuit → Bool
healthy now c = ltb c.open_until now

abbrev pub is_unavailable : Code → Bool
is_unavailable unavailable = true
is_unavailable _ = false

-- Does an attempt count against the provider?
abbrev pub counts : {A : Type 0} → Result A → Bool
counts (ok a) = false
counts (err c) = is_unavailable c

unfoldable pub record_result : Config → ℕ → Bool → Circuit → Circuit
record_result cfg now failed c =
    if not failed
    then record c { failures = 0 }
    else if leb cfg.failure_threshold (c.failures + 1)
    then record { failures = c.failures + 1; open_until = now + cfg.cooldown }
    else record c { failures = c.failures + 1 }

-- What one attempt gives, and when.
pub record Attempt (A : Type 0) : Type 0 where
  pub at : ℕ
  pub result : Result A

-- What `do` returns, with the circuit and the number of calls that it has made.
pub record Outcome (A : Type 0) : Type 0 where
  pub result : Result A
  pub circuit : Circuit
  pub calls : ℕ

module _ {A : Type 0} where
  -- The loop from the attempt `n` on: `left` is how many retries there are after it. The circuit
  -- is looked at when the attempt's result arrives.
  unfoldable pub attempts : Config → ℕ → (ℕ → Attempt A) → ℕ → Circuit → Outcome A
  attempts cfg zero call n c = record {
    result = (call n).result;
    circuit = record_result cfg (call n).at (counts (call n).result) c;
    calls = n + 1;
  }
  attempts cfg (suc left) call n c =
      let c' = record_result cfg (call n).at (counts (call n).result) c in
      let stop : Outcome A = record { result = (call n).result; circuit = c'; calls = n + 1 } in
      let rest = attempts cfg left call (n + 1) c' in
      if not (counts (call n).result)
      then stop
      else if not (healthy (call n).at c')
      then stop
      else rest

  -- `do`
  unfoldable pub do_call : Config → ℕ → (ℕ → Attempt A) → Circuit → Outcome A
  do_call cfg now call c =
      let refused : Outcome A = record { result = err unavailable; circuit = c; calls = 0 } in
      let tried = attempts cfg cfg.retries call 0 c in
      if not (healthy now c) then refused else tried
