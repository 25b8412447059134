-- ===== src/Hpc/Transfer/Retries.antt =====
-- When the loop over the tries of an upload or a download succeeds.
use operandi.Common.{
  ℕ, zero, suc, ◌+◌, ◌≤◌, ◌<◌, ◌≡◌, refl, ap, ◌⊎◌, arith, Result, Result-cases, done, raise, other,
  inl, inr, Exc,
}
use operandi.Hpc.Transfer.{retry_loop, with_retries}

equal_or_less : (i k : ℕ) → i ≤ k → (i ≡ k) ⊎ (i + 1 ≤ k)
equal_or_less i k low = omega arith

module _ (attempt : ℕ → Result (Unit {0})) where
  retry_loop-done :
      (i tries k : ℕ)
      → i ≤ k
      → k < i + tries
      → attempt k ≡ done tt
      → retry_loop attempt i tries ≡ done tt
  unfolding retry_loop
  retry_loop-done i zero k low high succeeds = ground arith
  retry_loop-done i (suc tries) k low high succeeds =
      let later = retry_loop-done (i + 1) tries k in
      elim (Result-cases (attempt i)) [
        | inr (_, works) ↦ rw (retry_loop, works) refl
        | inl (e, fails) ↦ elim (equal_or_less i k low) [
          | inl same ↦ ground (arith, same, ap attempt same)
          | inr more ↦ ground (arith, later more)
        ]
      ]

  retry_loop-raised :
      (i tries : ℕ)
      → ((k : ℕ) → i ≤ k → k < i + suc tries → (e : Exc) × (attempt k ≡ raise e))
      → retry_loop attempt i (suc tries) ≡ raise other
  unfolding retry_loop
  retry_loop-raised i zero fail = rw (retry_loop, (fail i (omega arith) (omega arith)).1) refl
  retry_loop-raised i (suc tries) fail =
      rw (retry_loop, (fail i (omega arith) (omega arith)).1)
        (retry_loop-raised (i + 1) tries λ k low high. fail k (omega arith) (omega arith))

  -- The transfer of a file with at least one try succeeds where one of its tries does, whatever
  -- the tries before it raise.
  pub with_retries-done :
      (tries k : ℕ) → k < tries → attempt k ≡ done tt → with_retries attempt tries ≡ done tt
  unfolding with_retries
  with_retries-done tries k high succeeds =
      retry_loop-done 0 tries k (omega arith) (omega arith) succeeds

  -- It raises where each of its tries does.
  pub with_retries-raised :
      (tries : ℕ)
      → ((k : ℕ) → k < suc tries → (e : Exc) × (attempt k ≡ raise e))
      → with_retries attempt (suc tries) ≡ raise other
  unfolding with_retries
  with_retries-raised tries fail = retry_loop-raised 0 tries λ k low high. fail k (omega arith)

  -- With no tries at all, nothing is transferred and nothing is raised.
  pub with_retries-none : with_retries attempt 0 ≡ done tt
  unfolding with_retries retry_loop
  with_retries-none = refl
