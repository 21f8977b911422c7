-- ===== src/Provider/Resilient/Laws.antt =====
-- How often a provider is called, and what a caller gets.
use openpay.Base.{
  ℕ, zero, suc, ◌+◌, ◌≤◌, ◌<◌, ◌≡◌, ◌∙◌, sym, ap, refl, Bool, true, false, not, leb, arith,
  Bool-cases, if_true, if_false, inl, inr, subst,
}
use openpay.Provider.Resilient.{
  Config, Circuit, healthy, counts, record_result, Attempt, Outcome, attempts, do_call,
}

cleared :
    (cfg : Config) (at : ℕ) (b : Bool) (c : Circuit)
    → b ≡ false
    → (record_result cfg at b c).failures ≡ 0
unfolding record_result
cleared cfg at b c e = ground (arith, e)

-- A circuit that has failed up to its threshold but one opens at the next failure.
reopens :
    (cfg : Config) (at : ℕ) (b : Bool) (c : Circuit)
    → b ≡ true
    → cfg.failure_threshold ≤ c.failures + 1
    → healthy at (record_result cfg at b c) ≡ false
unfolding record_result healthy
reopens cfg at b c e h = ground (arith, e, h)

module _ {A : Type 0} where
  -- A run of the loop from the attempt `n`.
  pub record Ran (cfg : Config) (left : ℕ) (call : ℕ → Attempt A) (n : ℕ) (out : Outcome A)
      : Type 0 where
    pub last : ℕ
    pub calls : out.calls ≡ last + 1
    pub first : n ≤ last
    pub bounded : last ≤ n + left
    pub result : out.result ≡ (call last).result
    pub before : (i : ℕ) → n ≤ i → i < last → counts (call i).result ≡ true
    pub settled : counts (call last).result ≡ false → out.circuit.failures ≡ 0

  stopped :
      (cfg : Config) (left : ℕ) (call : ℕ → Attempt A) (n : ℕ) (c : Circuit)
      → Ran cfg left call n (record {
        result = (call n).result;
        circuit = record_result cfg (call n).at (counts (call n).result) c;
        calls = n + 1;
      })
  stopped cfg left call n c = record {
    last = n;
    calls = refl;
    first = omega arith;
    bounded = omega arith;
    result = refl;
    before = λ i lo hi. absurd (omega (arith, lo, hi));
    settled = λ e. cleared cfg (call n).at (counts (call n).result) c e;
  }

  retried :
      (cfg : Config) (left : ℕ) (call : ℕ → Attempt A) (n : ℕ) (out : Outcome A)
      → counts (call n).result ≡ true
      → Ran cfg left call (n + 1) out
      → Ran cfg (suc left) call n out
  retried cfg left call n out failed r = record {
    last = r.last;
    calls = r.calls;
    first = omega (arith, r.first);
    bounded = omega (arith, r.bounded);
    result = r.result;
    before = λ i lo hi. elim (Bool-cases (leb i n)) [
      | inl small ↦ subst (λ k. counts (call k).result ≡ true) (is_n i lo small) failed
      | inr large ↦ r.before i (past i large) hi
    ];
    settled = r.settled;
  }
    where
      is_n : (i : ℕ) → n ≤ i → leb i n ≡ true → n ≡ i
      is_n i lo small = ground (arith, lo, small)

      past : (i : ℕ) → leb i n ≡ false → n + 1 ≤ i
      past i large = ground (arith, large)

  attempts-Ran :
      (cfg : Config) (left : ℕ) (call : ℕ → Attempt A) (n : ℕ) (c : Circuit)
      → Ran cfg left call n (attempts cfg left call n c)
  unfolding attempts
  attempts-Ran cfg zero call n c = stopped cfg 0 call n c
  attempts-Ran cfg (suc left) call n c =
      let c' = record_result cfg (call n).at (counts (call n).result) c in
      elim (Bool-cases (counts (call n).result)) [
        | inr good ↦
            subst (Ran cfg (suc left) call n) (sym (if_true _ _ (ap not good)))
              (stopped cfg (suc left) call n c)
        | inl failed ↦
            subst (Ran cfg (suc left) call n) (sym (if_false _ _ (ap not failed)))
              (elim (Bool-cases (healthy (call n).at c')) [
                | inr opened ↦
                    subst (Ran cfg (suc left) call n) (sym (if_true _ _ (ap not opened)))
                      (stopped cfg (suc left) call n c)
                | inl on ↦
                    subst (Ran cfg (suc left) call n) (sym (if_false _ _ (ap not on)))
                      (retried cfg left call n _ failed (attempts-Ran cfg left call (n + 1) c'))
              ])
      ]

  -- A call through a healthy circuit reaches the provider at least once and at most once more than
  -- the retries allow, returns what the last attempt gave, repeats only attempts that were
  -- Unavailable, and clears the count of failures if the last was not.
  pub do_call-Ran :
      (cfg : Config) (now : ℕ) (call : ℕ → Attempt A) (c : Circuit)
      → healthy now c ≡ true
      → Ran cfg cfg.retries call 0 (do_call cfg now call c)
  unfolding do_call
  do_call-Ran cfg now call c on =
      subst (Ran cfg cfg.retries call 0) (sym (if_false _ _ (ap not on)))
        (attempts-Ran cfg cfg.retries call 0 c)

  attempts_once :
      (cfg : Config) (left : ℕ) (call : ℕ → Attempt A) (n : ℕ) (c : Circuit)
      → counts (call n).result ≡ true
      → cfg.failure_threshold ≤ c.failures + 1
      → ((attempts cfg left call n c).calls ≡ n + 1)
        × (healthy (call n).at (attempts cfg left call n c).circuit ≡ false)
  unfolding attempts
  attempts_once cfg zero call n c failed near = (refl, reopens cfg (call n).at _ c failed near)
  attempts_once cfg (suc left) call n c failed near =
      let shut = reopens cfg (call n).at _ c failed near in
      let e = if_false _ _ (ap not failed) ∙ if_true _ _ (ap not shut) in
      (
        ap (λ (o : Outcome A). o.calls) e,
        ap (λ (o : Outcome A). healthy (call n).at o.circuit) e ∙ shut,
      )

  -- A circuit that has failed to within one of its threshold, such as one that was open and has
  -- cooled down, lets one attempt through: if that is Unavailable, then there is no second, and the
  -- circuit is open again when it returns.
  pub do_call-probes :
      (cfg : Config) (now : ℕ) (call : ℕ → Attempt A) (c : Circuit)
      → healthy now c ≡ true
      → cfg.failure_threshold ≤ c.failures + 1
      → counts (call 0).result ≡ true
      → ((do_call cfg now call c).calls ≡ 1)
        × (healthy (call 0).at (do_call cfg now call c).circuit ≡ false)
  unfolding do_call
  do_call-probes cfg now call c on near failed =
      let e = if_false _ _ (ap not on) in
      let (once, shut) = attempts_once cfg cfg.retries call 0 c failed near in
      (
        ap (λ (o : Outcome A). o.calls) e ∙ once,
        ap (λ (o : Outcome A). healthy (call 0).at o.circuit) e ∙ shut,
      )
