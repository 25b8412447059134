-- ===== src/Broker/Processes.antt =====
-- src/broker/operandi_broker/broker.py and broker_utils.py: the worker processes of the broker. The
-- parent process is the one whose state is kept; what a child does is `child_worker`.
pub mod Signals
use operandi.Common.{
  ℕ, suc, String, Bool, true, false, none, Option, some, List, [], ◌∷◌, ◌++◌, ◌==◌, string_eq,
  nat_eq, if◌then◌else◌, Exc, other, Result, done, raise, Exec, Outcome, ok, raised, pure, throw,
  gets, ◌>>=◌, ◌>>◌,
}

pub data Signal : Type 0 where
  sigint sigkill : Signal

-- The errors of psutil that are caught, and any other one.
pub data SignalError : Type 0 where
  zombie_process no_such_process access_denied other_error : SignalError

pub data WorkerClass : Type 0 where
  job_worker_status job_worker_download job_worker_submit : WorkerClass

-- The worker of a child and the arguments of its `run`.
pub record ChildWorker : Type 0 where
  pub worker : WorkerClass
  pub hpc_executor : Bool
  pub hpc_io_transfer : Bool
  pub publisher : Bool

pub record ServiceBroker : Type 0 where
  pub queues_and_workers : List (String × List ℕ)
  -- how often the parent forked, and the children that it got, with their queues
  pub forks : ℕ
  pub children : List (ℕ × String × ChildWorker)
  -- the signals, in order
  pub sent : List (Signal × ℕ)

abbrev pub new_broker : ServiceBroker
new_broker = record { queues_and_workers = []; forks = 0; children = []; sent = [] }

unfoldable pub child_worker : String → ChildWorker
child_worker worker_type =
    if worker_type == "status_worker"
    then record {
      worker = job_worker_status;
      hpc_executor = true;
      hpc_io_transfer = false;
      publisher = true;
    }
    else record {
      worker = if worker_type == "download_worker" then job_worker_download else job_worker_submit;
      hpc_executor = true;
      hpc_io_transfer = true;
      publisher = false;
    }

-- The status with which a child ends, by what its worker does; `exit(-1)` is 255.
unfoldable pub child_exit : (ChildWorker → Result (Unit {0})) → String → ℕ
child_exit run worker_type = elim (run (child_worker worker_type)) [ done u ↦ 0 | raise e ↦ 255 ]

unfoldable pub has_queue : String → List (String × List ℕ) → Bool
has_queue queue_name [] = false
has_queue queue_name ((q, pids) ∷ d) = if queue_name == q then true else has_queue queue_name d

unfoldable pub append_worker : String → ℕ → List (String × List ℕ) → List (String × List ℕ)
append_worker queue_name pid [] = []
append_worker queue_name pid ((q, pids) ∷ d) =
    if queue_name == q
    then (q, pids ++ pid ∷ []) ∷ d
    else (q, pids) ∷ append_worker queue_name pid d

-- `fork` has the parent's answer of each fork.
module _ (fork : ℕ → Result ℕ) where
  unfoldable pub create_child_process : String → String → Exec ServiceBroker ℕ
  unfolding child_worker
  create_child_process queue_name worker_type s =
      let s' = record s { forks = suc s.forks } in
      elim (fork s.forks) [
        | raise os_error ↦ ok 0 s'
        | done created_pid ↦
            if created_pid == 0
            then ok 0 s'
            else ok created_pid (record s' {
              children = s.children ++ (created_pid, queue_name, child_worker worker_type) ∷ [];
            })
      ]

  unfoldable pub create_worker_process : String → String → Exec ServiceBroker (Unit {0})
  unfolding create_child_process
  create_worker_process queue_name worker_type s =
      let s₁ : ServiceBroker = record s {
        queues_and_workers =
            if has_queue queue_name s.queues_and_workers
            then s.queues_and_workers
            else s.queues_and_workers ++ (queue_name, []) ∷ [];
      } in
      elim (create_child_process queue_name worker_type s₁) [
        | raised e s₂ ↦ raised e s₂
        | ok child_pid s₂ ↦
            if child_pid == 0
            then ok tt s₂
            else ok tt (record s₂ {
              queues_and_workers = append_worker queue_name child_pid s₂.queues_and_workers;
            })
      ]

  unfoldable pub create_workers : Exec ServiceBroker (Unit {0})
  create_workers = do
    create_worker_process "operandi_queue_harvester" "submit_worker"
    create_worker_process "operandi_queue_users" "submit_worker"
    create_worker_process "operandi_queue_job_statuses" "status_worker"
    create_worker_process "operandi_queue_hpc_downloads" "download_worker"

-- `answer` has what psutil answers to a signal: nothing, or an error.
module _ (answer : Signal → ℕ → Option SignalError) where
  unfoldable pub send_signal_to_worker : ℕ → Signal → Exec ServiceBroker (Unit {0})
  send_signal_to_worker worker_pid signal_type s =
      let s' = record s { sent = s.sent ++ (signal_type, worker_pid) ∷ [] } in
      elim (answer signal_type worker_pid) [
        | none ↦ ok tt s'
        | some e ↦ elim e [
          | zombie_process ↦ ok tt s'
          | no_such_process ↦ ok tt s'
          | access_denied ↦ ok tt s'
          | other_error ↦ raised other s'
        ]
      ]

  unfoldable pub interrupt_workers : List ℕ → List ℕ → Exec ServiceBroker (List ℕ)
  interrupt_workers [] interrupted_pids = pure interrupted_pids
  interrupt_workers (worker_pid ∷ pids) interrupted_pids = do
    send_signal_to_worker worker_pid sigint
    interrupt_workers pids (interrupted_pids ++ worker_pid ∷ [])

  unfoldable pub interrupt_queues : List (String × List ℕ) → List ℕ → Exec ServiceBroker (List ℕ)
  interrupt_queues [] interrupted_pids = pure interrupted_pids
  interrupt_queues ((queue_name, pids) ∷ d) interrupted_pids = do
    interrupted ← interrupt_workers pids interrupted_pids
    interrupt_queues d interrupted

  unfoldable pub kill_pids : List ℕ → Exec ServiceBroker (Unit {0})
  kill_pids [] = pure tt
  kill_pids (pid ∷ pids) = do send_signal_to_worker pid sigkill; kill_pids pids

  unfoldable pub kill_workers : Exec ServiceBroker (Unit {0})
  kill_workers = do
    queues_and_workers ← gets (λ s. s.queues_and_workers)
    interrupted_pids ← interrupt_queues queues_and_workers []
    kill_pids interrupted_pids

-- The broker from its start to a SIGINT that comes while it sleeps.
unfoldable pub run_broker :
    (ℕ → Result ℕ) → (Signal → ℕ → Option SignalError) → Exec ServiceBroker (Unit {0})
run_broker fork answer = do create_workers fork; kill_workers answer
