-- ===== src/Hpc/Executor/Polling.antt =====
-- The loops that ask for the state of a slurm job.
use operandi.Common.{
  ℕ, zero, suc, ◌+◌, ◌*◌, ◌<◌, ◌≡◌, ◌≢◌, refl, Bool, false, none, some, arith, Result, done, nat_eq,
  ◌∙◌, true, List, [], ◌∷◌, ◌==◌, contains,
}
use native.Mathlib.Nat.{add-zero, zero-add}
use operandi.Constants.Slurm.{
  StateJobSlurm, unset, state_job_slurm_eq, is_state_hpc_success, is_state_waiting,
  is_state_running, is_state_hpc_fail,
}
use operandi.Hpc.Executor.{
  CommandOutput, check_slurm_job_state_once, check_loop, check_slurm_job_state, poll_loop,
  poll_verdict, poll_till_end_slurm_job_state,
}

shift : (a i : ℕ) → a + 1 + i ≡ a + suc i
shift a i = omega arith

module _ (probe : ℕ → Result CommandOutput) where
  -- The attempts from `from` on, up to but not with the `k`-th, find no state.
  abbrev pub NoState : ℕ → ℕ → Type 0
  NoState from k = (i : ℕ) → i < k → check_slurm_job_state_once (probe (from + i)) ≡ done unset

  check_loop_found :
      (k tries from : ℕ) (st : StateJobSlurm) (r : Result StateJobSlurm)
      → NoState from k
      → k < tries
      → check_slurm_job_state_once (probe (from + k)) ≡ r
      → r ≢ done unset
      → check_loop probe from st tries ≡ r
  unfolding check_loop
  check_loop_found k zero from st r before h found set = absurd (omega arith)
  check_loop_found zero (suc tries) from st r before h found set =
      let here : check_slurm_job_state_once (probe from) ≡ r = simp add-zero at found in
      ground arith
  check_loop_found (suc k) (suc tries) from st r before h found set =
      let here : check_slurm_job_state_once (probe from) ≡ done unset =
        simp add-zero at (before 0 (omega arith)) in
      ground (
        arith,
        check_loop_found k tries (from + 1) unset r
            (λ i lt. rw (shift from i) (before (suc i) (omega arith))) (omega arith)
            (rw (shift from k) found) set,
      )

  check_loop_empty :
      (tries from : ℕ) → NoState from tries → check_loop probe from unset tries ≡ done unset
  unfolding check_loop
  check_loop_empty zero from before = refl
  check_loop_empty (suc tries) from before =
      let here : check_slurm_job_state_once (probe from) ≡ done unset =
        simp add-zero at (before 0 (omega arith)) in
      ground (
        arith,
        check_loop_empty tries (from + 1)
            (λ i lt. rw (shift from i) (before (suc i) (omega arith))),
      )

  -- Where the `k`-th attempt from 0, with `k` below the number of tries, is the first one that does
  -- not find `UNSET`, the state check returns the state that it finds, or raises the exception that
  -- it raises; the later attempts do not count.
  pub check_first_answer :
      (k tries : ℕ) (r : Result StateJobSlurm)
      → NoState 0 k
      → k < tries
      → check_slurm_job_state_once (probe k) ≡ r
      → r ≢ done unset
      → check_slurm_job_state probe tries ≡ r
  unfolding check_slurm_job_state
  check_first_answer k tries r before h found set =
      check_loop_found k tries 0 unset r before h (rw zero-add found) set

  -- Where no try finds a state, the result is `UNSET`.
  pub check_no_answer :
      (tries : ℕ) → NoState 0 tries → check_slurm_job_state probe tries ≡ done unset
  unfolding check_slurm_job_state
  check_no_answer tries before = check_loop_empty tries 0 before

module _ (states : ℕ → Result StateJobSlurm) (interval timeout : ℕ) where
  -- The rounds from `from` on, up to but not with the `k`-th, find a state that ends no polling.
  abbrev pub GoesOn : ℕ → ℕ → Type 0
  GoesOn from k =
      (i : ℕ) → i < k → (s : StateJobSlurm) × (states (from + i) ≡ done s) × (poll_verdict s ≡ none)

  go_on_at :
      (from k : ℕ)
      → GoesOn from (suc k)
      → (s : StateJobSlurm) × (states from ≡ done s) × (poll_verdict s ≡ none)
  go_on_at from k h = let (s, e, v) = h 0 (omega arith) in (s, simp add-zero at e, v)

  go_on_after : (from k : ℕ) → GoesOn from (suc k) → GoesOn (from + 1) k
  go_on_after from k h i lt = let (s, e, v) = h (suc i) (omega arith) in (s, rw (shift from i) e, v)

  poll_step :
      (fuel from spent : ℕ) (s : StateJobSlurm)
      → states from ≡ done s
      → poll_verdict s ≡ none
      → spent ≢ timeout
      → poll_loop states interval timeout (suc fuel) from spent
        ≡ poll_loop states interval timeout fuel (from + 1) (spent + interval)
  unfolding poll_loop
  poll_step fuel from spent s e v more = ground arith

  poll_finds :
      (k n fuel from spent : ℕ) (s : StateJobSlurm) (b : Bool)
      → timeout ≡ spent + n * interval
      → 0 < interval
      → k < n
      → k < fuel
      → GoesOn from k
      → states (from + k) ≡ done s
      → poll_verdict s ≡ some b
      → poll_loop states interval timeout fuel from spent ≡ some (done b)
  unfolding poll_loop
  poll_finds k zero fuel from spent s b t i lt lf before e v = absurd (omega arith)
  poll_finds k (suc n) zero from spent s b t i lt lf before e v = absurd (omega arith)
  poll_finds zero (suc n) (suc fuel) from spent s b t i lt lf before e v =
      let here : states from ≡ done s = simp add-zero at e in
      let more : spent ≢ timeout = grind arith in ground arith
  poll_finds (suc k) (suc n) (suc fuel) from spent s b t i lt lf before e v =
      let (s', e', v') = go_on_at from k before in
      let more : spent ≢ timeout = grind arith in
      poll_step fuel from spent s' e' v' more
      ∙ poll_finds k n fuel (from + 1) (spent + interval) s b (omega arith) i (omega arith)
          (omega arith) (go_on_after from k before) (rw (shift from k) e) v

  poll_times_out :
      (n fuel from spent : ℕ)
      → timeout ≡ spent + n * interval
      → 0 < interval
      → n < fuel
      → GoesOn from n
      → poll_loop states interval timeout fuel from spent ≡ some (done false)
  unfolding poll_loop
  poll_times_out n zero from spent t i lf before = absurd (omega arith)
  poll_times_out zero (suc fuel) from spent t i lf before =
      let over : spent ≡ timeout = omega arith in ground arith
  poll_times_out (suc n) (suc fuel) from spent t i lf before =
      let (s', e', v') = go_on_at from n before in
      let more : spent ≢ timeout = grind arith in
      poll_step fuel from spent s' e' v' more
      ∙ poll_times_out n fuel (from + 1) (spent + interval) (omega arith) i (omega arith)
          (go_on_after from n before)

  poll_never :
      (fuel from spent : ℕ)
      → ((n : ℕ) → timeout ≢ spent + n * interval)
      → GoesOn from fuel
      → poll_loop states interval timeout fuel from spent ≡ none
  unfolding poll_loop
  poll_never zero from spent t before = refl
  poll_never (suc fuel) from spent t before =
      let (s', e', v') = go_on_at from fuel before in
      let more : spent ≢ timeout = λ e. t 0 (omega arith) in
      poll_step fuel from spent s' e' v' more
      ∙ poll_never fuel (from + 1) (spent + interval) (λ n e. t (suc n) (omega arith))
          (go_on_after from fuel before)

  poll_ends :
      (n fuel from spent : ℕ)
      → timeout ≡ spent + n * interval
      → n < fuel
      → poll_loop states interval timeout fuel from spent ≢ none
  unfolding poll_loop
  poll_ends n zero from spent t lf = absurd (omega arith)
  poll_ends zero (suc fuel) from spent t lf =
      let over : spent ≡ timeout = omega arith in ground arith
  poll_ends (suc n) (suc fuel) from spent t lf =
      let next : timeout ≡ spent + interval + n * interval = omega arith in
      ground (arith, poll_ends n fuel (from + 1) (spent + interval))

-- The states in which a slurm job has not ended, and those in which it has.
abbrev pub ongoing_states : List StateJobSlurm
ongoing_states =
    StateJobSlurm.pending ∷ StateJobSlurm.completing ∷ StateJobSlurm.requeued
    ∷ StateJobSlurm.resizing ∷ StateJobSlurm.running ∷ unset ∷ []

abbrev pub final_states : List StateJobSlurm
final_states =
    StateJobSlurm.completed ∷ StateJobSlurm.boot_fail ∷ StateJobSlurm.cancelled
    ∷ StateJobSlurm.deadline ∷ StateJobSlurm.failed ∷ StateJobSlurm.node_fail
    ∷ StateJobSlurm.out_of_memory ∷ StateJobSlurm.preempted ∷ StateJobSlurm.revoked
    ∷ StateJobSlurm.timeout ∷ StateJobSlurm.suspended ∷ []

ongoing-poll_verdict :
    (s : StateJobSlurm) → contains ongoing_states s ≡ true → poll_verdict s ≡ none
unfolding poll_verdict is_state_hpc_success is_state_waiting is_state_running is_state_hpc_fail
ongoing-poll_verdict s ongoing = ground arith

final-poll_verdict :
    (s : StateJobSlurm)
    → contains final_states s ≡ true
    → poll_verdict s ≡ some (s == StateJobSlurm.completed)
unfolding poll_verdict is_state_hpc_success is_state_waiting is_state_running is_state_hpc_fail
final-poll_verdict s final = ground arith

module _ (states : ℕ → Result StateJobSlurm) (interval timeout n : ℕ)
    (exact : timeout ≡ n * interval) where
  -- Where the interval divides the timeout into `n` rounds, more than `n` units of fuel are enough:
  -- polling ends, with a result or an exception.
  pub poll_terminates :
      (fuel : ℕ) → n < fuel → poll_till_end_slurm_job_state states interval timeout fuel ≢ none
  unfolding poll_till_end_slurm_job_state
  poll_terminates fuel h = poll_cases interval exact
    where
      poll_cases :
          (i : ℕ) → timeout ≡ n * i → poll_till_end_slurm_job_state states i timeout fuel ≢ none
      poll_cases zero e = ground arith
      poll_cases (suc i) e = poll_ends states (suc i) timeout n fuel 0 0 (omega arith) h

  -- The first round that finds a final state decides: the result is `true` if the state is
  -- `COMPLETED`, and `false` if it is `SUSPENDED` or one of the nine failing states. The interval
  -- is positive and divides the timeout into `n` rounds, the deciding round is the `k`-th from 0
  -- with `k < n`, the rounds before it find `PENDING`, `COMPLETING`, `REQUEUED`, `RESIZING`,
  -- `RUNNING` or `UNSET`, and there are more than `k` units of fuel.
  pub poll_first_final_state :
      (k fuel : ℕ) (s : StateJobSlurm)
      → 0 < interval
      → k < n
      → k < fuel
      → ((i : ℕ)
          → i < k
          → (o : StateJobSlurm) × (states i ≡ done o) × (contains ongoing_states o ≡ true))
      → states k ≡ done s
      → contains final_states s ≡ true
      → poll_till_end_slurm_job_state states interval timeout fuel
        ≡ some (done (s == StateJobSlurm.completed))
  unfolding poll_till_end_slurm_job_state
  poll_first_final_state k fuel s i lt lf before e final = poll_cases interval exact i
    where
      earlier : (i' : ℕ) → GoesOn states i' timeout 0 k
      earlier i' j lt' =
          let (o, found, ongoing) = before j lt' in
          (o, rw zero-add found, ongoing-poll_verdict o ongoing)

      poll_cases :
          (i : ℕ)
          → timeout ≡ n * i
          → 0 < i
          → poll_till_end_slurm_job_state states i timeout fuel
            ≡ some (done (s == StateJobSlurm.completed))
      poll_cases zero t pos = absurd (omega arith)
      poll_cases (suc i) t pos =
          poll_finds states (suc i) timeout k n fuel 0 0 s _ (omega arith) pos lt lf
            (earlier (suc i)) (rw zero-add e) (final-poll_verdict s final)

  -- Where no round finds a final state, the result after `n` rounds is `false`.
  pub poll_timeout :
      (fuel : ℕ)
      → 0 < interval
      → n < fuel
      → GoesOn states interval timeout 0 n
      → poll_till_end_slurm_job_state states interval timeout fuel ≡ some (done false)
  unfolding poll_till_end_slurm_job_state
  poll_timeout fuel i lf before = poll_cases interval exact i before
    where
      poll_cases :
          (i : ℕ)
          → timeout ≡ n * i
          → 0 < i
          → GoesOn states interval timeout 0 n
          → poll_till_end_slurm_job_state states i timeout fuel ≡ some (done false)
      poll_cases zero t pos g = absurd (omega arith)
      poll_cases (suc i) t pos g =
          poll_times_out states (suc i) timeout n fuel 0 0 (omega arith) pos lf g

-- Where the interval does not divide the timeout, the timeout is never met: as long as no round
-- finds a final state, polling goes on, whatever the fuel.
pub poll_without_end :
    (states : ℕ → Result StateJobSlurm) (interval timeout fuel : ℕ)
    → 0 < interval
    → ((n : ℕ) → timeout ≢ n * interval)
    → GoesOn states interval timeout 0 fuel
    → poll_till_end_slurm_job_state states interval timeout fuel ≡ none
unfolding poll_till_end_slurm_job_state
poll_without_end states zero timeout fuel i apart before = absurd (omega arith)
poll_without_end states (suc i) timeout fuel pos apart before =
    poll_never states (suc i) timeout fuel 0 0 (λ n e. apart n (omega arith)) before
