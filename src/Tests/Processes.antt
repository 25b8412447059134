-- ===== src/Tests/Processes.antt =====
-- A broker whose third fork fails and whose second worker is gone when it is interrupted.
use operandi.Common.{
  ℕ, ◌+◌, ◌≡◌, ◌≢◌, none, Option, some, [], ◌∷◌, ◌==◌, nat_eq, if◌then◌else◌, arith, Result, done,
  raise, other, ok,
}
use operandi.Broker.Processes.{
  Signal, SignalError, sigint, sigkill, other_error, no_such_process, new_broker, run_broker,
}
use operandi.Broker.Processes.Signals.{submit_child, download_child, run_broker_lem}

abbrev fork : ℕ → Result ℕ
fork n = if n == 2 then raise other else done (n + 100)

abbrev answer : Signal → ℕ → Option SignalError
answer signal pid = if pid == 101 then some no_such_process else none

answer-expected : (signal : Signal) (pid : ℕ) → answer signal pid ≢ some other_error
answer-expected signal pid = ground arith

run_broker_lem_example :
    run_broker fork answer new_broker
    ≡ ok tt (record {
      queues_and_workers =
          ("operandi_queue_harvester", 100 ∷ [])
          ∷ ("operandi_queue_users", 101 ∷ [])
          ∷ ("operandi_queue_job_statuses", [])
          ∷ ("operandi_queue_hpc_downloads", 103 ∷ [])
          ∷ [];
      forks = 4;
      children =
          (100, "operandi_queue_harvester", submit_child)
          ∷ (101, "operandi_queue_users", submit_child)
          ∷ (103, "operandi_queue_hpc_downloads", download_child)
          ∷ [];
      sent =
          (sigint, 100)
          ∷ (sigint, 101)
          ∷ (sigint, 103)
          ∷ (sigkill, 100)
          ∷ (sigkill, 101)
          ∷ (sigkill, 103)
          ∷ [];
    })
unfolding nat_eq
run_broker_lem_example = run_broker_lem fork answer answer-expected
