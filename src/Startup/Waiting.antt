-- ===== src/Startup/Waiting.antt =====
-- The wait for readiness ends (`waitReady` in internal/pool/pool.go).
use go_pool.Prelude.{
  ℕ, zero, suc, ◌+◌, ◌≤◌, ◌<◌, ◌≡◌, ◌⊎◌, inl, inr, refl, arith, Option, none, some,
}
use go_pool.Startup.{
  ReadyError, cancelled, deadline_exceeded, no_policy, waiting_for_validator, wallet, Waited,
  is_ready, gave_up, decide_round, wait_ready,
}

-- An error of a context.
abbrev pub IsContext : ReadyError → Type 0
IsContext e = (e ≡ cancelled) ⊎ (e ≡ deadline_exceeded)

-- How a round can end the wait, from what `ensureReady` answers and from the state of the context
-- after it: there is no error; the error is a context's, and it is given back; or it is another one
-- and the context is done, whose error is given back.
pub data Decides : Option ReadyError → Option ReadyError → Waited → Type 0 where
  ready : {s : Option ReadyError} → Decides none s is_ready
  context : {e : ReadyError} {s : Option ReadyError} → IsContext e → Decides (some e) s (gave_up e)
  stopped : {e why : ReadyError} → ¬ IsContext e → Decides (some e) (some why) (gave_up why)

-- A round with an error that is no context's, in which the context is not done.
pub data GoesOn : Option ReadyError → Option ReadyError → Type 0 where
  retried : {e : ReadyError} → ¬ IsContext e → GoesOn (some e) none

-- This many rounds, from one on, do not end the wait.
abbrev pub Waits : (ℕ → Option ReadyError) → (ℕ → Option ReadyError) → ℕ → ℕ → Type 0
Waits ensure done round zero = Unit
Waits ensure done round (suc n) =
    GoesOn (ensure round) (done round) × Waits ensure done (suc round) n

round-cases :
    (a s : Option ReadyError) (rest : Waited)
    → Decides a s (decide_round a s rest) ⊎ (GoesOn a s × (decide_round a s rest ≡ rest))
round-cases none s rest = inl ready
round-cases (some cancelled) s rest = inl (context (inl refl))
round-cases (some deadline_exceeded) s rest = inl (context (inr refl))
round-cases (some no_policy) none rest = inr (retried (λ c. ground arith), refl)
round-cases (some no_policy) (some why) rest = inl (stopped (λ c. ground arith))
round-cases (some waiting_for_validator) none rest = inr (retried (λ c. ground arith), refl)
round-cases (some waiting_for_validator) (some why) rest = inl (stopped (λ c. ground arith))
round-cases (some (wallet e)) none rest = inr (retried (λ c. ground arith), refl)
round-cases (some (wallet e)) (some why) rest = inl (stopped (λ c. ground arith))

Decides-not_GoesOn : (a s : Option ReadyError) (r : Waited) → Decides a s r → ¬ GoesOn a s
Decides-not_GoesOn _ _ _ ready on = elim on [ ]
Decides-not_GoesOn _ _ _ (context c) (retried not_context) = not_context c
Decides-not_GoesOn _ _ _ (stopped _) on = elim on [ ]

module _ (ensure done : ℕ → Option ReadyError) where
  wait_from :
      (n round fuel : ℕ) (r : Waited)
      → Decides (ensure (round + n)) (done (round + n)) r
      → n < fuel
      → (m : ℕ) × (m ≤ n)
        × Waits ensure done round m
        × Decides (ensure (round + m)) (done (round + m)) (wait_ready ensure done round fuel)
  unfolding wait_ready
  wait_from n round zero r ends lt = absurd (omega arith)
  wait_from zero round (suc fuel) r ends lt =
      let here : round + 0 ≡ round = omega arith in
      elim (round-cases (ensure round) (done round) (wait_ready ensure done (suc round) fuel)) [
        | inl now ↦ (0, omega arith, tt, rw here now)
        | inr (on, _) ↦
            absurd (Decides-not_GoesOn (ensure round) (done round) r (rw here at ends) on)
      ]
  wait_from (suc n) round (suc fuel) r ends lt =
      let here : round + 0 ≡ round = omega arith in
      let later : round + suc n ≡ suc round + n = omega arith in
      elim (round-cases (ensure round) (done round) (wait_ready ensure done (suc round) fuel)) [
        | inl now ↦ (0, omega arith, tt, rw here now)
        | inr (on, same) ↦
            let (m, le, waits, end) =
              wait_from n (suc round) fuel r (rw later at ends) (omega arith) in
            let behind : round + suc m ≡ suc round + m = omega arith in
            (suc m, omega arith, (on, waits), rw behind (rw same end))
      ]

  -- Let there be a round in which the wait can end: there is no error, the error is a context's, or
  -- it is another one and the context is done. Then the wait ends, at the latest in that round, if as
  -- many rounds are looked at: all rounds before the one it ends in have an error that is no
  -- context's and a context that is not done, and what it gives back is what that round is to give:
  -- readiness, the context's error that the check met, or the reason why the context is done.
  pub wait_ready-ends :
      (k fuel : ℕ) (r : Waited)
      → Decides (ensure k) (done k) r
      → k < fuel
      → (n : ℕ) × (n ≤ k)
        × Waits ensure done 0 n
        × Decides (ensure n) (done n) (wait_ready ensure done 0 fuel)
  wait_ready-ends k fuel r ends lt =
      let start : 0 + k ≡ k = omega arith in
      let (n, le, waits, end) = wait_from k 0 fuel r (rw start ends) lt in
      let same : 0 + n ≡ n = omega arith in (n, le, waits, rw same at end)
