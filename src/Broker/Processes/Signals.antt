-- ===== src/Broker/Processes/Signals.antt =====
-- Which processes the broker starts, and which signals they get when it is interrupted.
use operandi.Common.{
  ℕ, suc, ◌≡◌, ◌≢◌, refl, ap, ◌∙◌, String, true, false, Option, some, List, [], ◌∷◌, ◌++◌, ◌==◌,
  string_eq, nat_eq, append-nil, append_assoc, if◌then◌else◌, arith, Result, done, raise, ok,
  Result-cases, Bool-cases, inl, inr, ◌>>◌,
}
use operandi.Broker.Worker.Steps.{bind_ok}
use operandi.Broker.Processes.{
  job_worker_submit, job_worker_status, job_worker_download, ChildWorker, child_worker, Signal,
  SignalError, sigint, sigkill, other_error, ServiceBroker, new_broker, has_queue, append_worker,
  create_child_process, create_worker_process, create_workers, send_signal_to_worker,
  interrupt_workers, interrupt_queues, kill_pids, kill_workers, run_broker,
}

abbrev pub submit_child : ChildWorker
submit_child = record {
  worker = job_worker_submit;
  hpc_executor = true;
  hpc_io_transfer = true;
  publisher = false;
}

abbrev pub status_child : ChildWorker
status_child = record {
  worker = job_worker_status;
  hpc_executor = true;
  hpc_io_transfer = false;
  publisher = true;
}

abbrev pub download_child : ChildWorker
download_child = record {
  worker = job_worker_download;
  hpc_executor = true;
  hpc_io_transfer = true;
  publisher = false;
}

abbrev pub pids_of : List (String × List ℕ) → List ℕ
pids_of [] = []
pids_of ((q, pids) ∷ d) = pids ++ pids_of d

-- The process that the `n`-th fork gives, if it does.
abbrev pub forked : (ℕ → Result ℕ) → ℕ → List ℕ
forked fork n = elim (fork n) [ raise e ↦ [] | done pid ↦ if pid == 0 then [] else pid ∷ [] ]

-- The same with its queue and its worker.
abbrev pub child_of : (ℕ → Result ℕ) → ℕ → String → ChildWorker → List (ℕ × String × ChildWorker)
child_of fork n q w = elim (fork n) [
  | raise e ↦ []
  | done pid ↦ if pid == 0 then [] else (pid, q, w) ∷ []
]

abbrev pub all_forked : (ℕ → Result ℕ) → List ℕ
all_forked fork = forked fork 0 ++ (forked fork 1 ++ (forked fork 2 ++ (forked fork 3 ++ [])))

abbrev pub all_get : Signal → List ℕ → List (Signal × ℕ)
all_get signal [] = []
all_get signal (pid ∷ pids) = (signal, pid) ∷ all_get signal pids

module _ (answer : Signal → ℕ → Option SignalError)
    (expected : (signal : Signal) (pid : ℕ) → answer signal pid ≢ some other_error) where
  send_signal_to_worker_lem :
      (pid : ℕ) (signal : Signal) (s : ServiceBroker)
      → send_signal_to_worker answer pid signal s
        ≡ ok tt (record s { sent = s.sent ++ (signal, pid) ∷ [] })
  unfolding send_signal_to_worker
  send_signal_to_worker_lem pid signal s = ground (arith, expected signal pid)

  kill_pids_lem :
      (pids : List ℕ) (s : ServiceBroker)
      → kill_pids answer pids s ≡ ok tt (record s { sent = s.sent ++ all_get sigkill pids })
  unfolding kill_pids
  kill_pids_lem [] s = ground (arith, append-nil s.sent)
  kill_pids_lem (pid ∷ pids) s =
      let s₁ : ServiceBroker = record s { sent = s.sent ++ (sigkill, pid) ∷ [] } in
      ground (
        arith,
        send_signal_to_worker_lem pid sigkill s,
        kill_pids_lem pids s₁,
        append_assoc s.sent ((sigkill, pid) ∷ []) (all_get sigkill pids),
      )

  interrupt_workers_lem :
      (pids before : List ℕ) (s : ServiceBroker)
      → interrupt_workers answer pids before s
        ≡ ok (before ++ pids) (record s { sent = s.sent ++ all_get sigint pids })
  unfolding interrupt_workers
  interrupt_workers_lem [] before s = ground (arith, append-nil s.sent, append-nil before)
  interrupt_workers_lem (pid ∷ pids) before s =
      let s₁ : ServiceBroker = record s { sent = s.sent ++ (sigint, pid) ∷ [] } in
      ground (
        arith,
        send_signal_to_worker_lem pid sigint s,
        interrupt_workers_lem pids (before ++ pid ∷ []) s₁,
        append_assoc before (pid ∷ []) pids,
        append_assoc s.sent ((sigint, pid) ∷ []) (all_get sigint pids),
      )

  all_get-append :
      (signal : Signal) (ps qs : List ℕ)
      → all_get signal (ps ++ qs) ≡ all_get signal ps ++ all_get signal qs
  all_get-append signal [] qs = refl
  all_get-append signal (p ∷ ps) qs = ap (λ l. (signal, p) ∷ l) (all_get-append signal ps qs)

  interrupt_queues_lem :
      (d : List (String × List ℕ)) (before : List ℕ) (s : ServiceBroker)
      → interrupt_queues answer d before s
        ≡ ok (before ++ pids_of d) (record s { sent = s.sent ++ all_get sigint (pids_of d) })
  unfolding interrupt_queues
  interrupt_queues_lem [] before s = ground (arith, append-nil s.sent, append-nil before)
  interrupt_queues_lem ((q, pids) ∷ d) before s =
      let s₁ : ServiceBroker = record s { sent = s.sent ++ all_get sigint pids } in
      ground (
        arith,
        interrupt_workers_lem pids before s,
        interrupt_queues_lem d (before ++ pids) s₁,
        append_assoc before pids (pids_of d),
        append_assoc s.sent (all_get sigint pids) (all_get sigint (pids_of d)),
        all_get-append sigint pids (pids_of d),
      )

  -- Every worker of every queue gets a SIGINT, and then every one a SIGKILL, in the order of the
  -- queues, also where some of them have ended before; psutil may answer with any of the three
  -- errors that are caught.
  pub kill_workers_lem :
      (s : ServiceBroker)
      → kill_workers answer s
        ≡ ok tt (record s {
          sent =
              (s.sent ++ all_get sigint (pids_of s.queues_and_workers))
              ++ all_get sigkill (pids_of s.queues_and_workers);
        })
  unfolding kill_workers
  kill_workers_lem s =
      let d = s.queues_and_workers in
      let s₁ : ServiceBroker = record s { sent = s.sent ++ all_get sigint (pids_of d) } in
      ground (arith, interrupt_queues_lem d [] s, kill_pids_lem (pids_of d) s₁)

append_worker-fresh :
    (q : String) (pid : ℕ) (d : List (String × List ℕ))
    → has_queue q d ≡ false
    → append_worker q pid (d ++ (q, []) ∷ []) ≡ d ++ (q, pid ∷ []) ∷ []
unfolding has_queue append_worker
append_worker-fresh q pid [] fresh = ground arith
append_worker-fresh q pid ((q', ps) ∷ d) fresh = elim (Bool-cases (q == q')) [
  | inl same ↦ ground arith
  | inr differs ↦ ground (arith, append_worker-fresh q pid d)
]

module _ (fork : ℕ → Result ℕ) where
  -- The first process of a queue.
  create_worker_process-fresh :
      (q t : String) (s : ServiceBroker)
      → has_queue q s.queues_and_workers ≡ false
      → create_worker_process fork q t s
        ≡ ok tt (record s {
          queues_and_workers = s.queues_and_workers ++ (q, forked fork s.forks) ∷ [];
          forks = suc s.forks;
          children = s.children ++ child_of fork s.forks q (child_worker t);
        })
  unfolding create_worker_process create_child_process
  create_worker_process-fresh q t s fresh = elim (Result-cases (fork s.forks)) [
    | inl (e, fails) ↦ ground (arith, append-nil s.children)
    | inr (pid, forks) ↦ elim (Bool-cases (pid == 0)) [
      | inl child ↦ ground (arith, append-nil s.children)
      | inr parent ↦ ground (arith, append_worker-fresh q pid s.queues_and_workers)
    ]
  ]

-- The two submit workers, the status worker and the download worker, each for its queue.
abbrev pub started : (ℕ → Result ℕ) → ServiceBroker
started fork = record {
  queues_and_workers =
      ("operandi_queue_harvester", forked fork 0)
      ∷ ("operandi_queue_users", forked fork 1)
      ∷ ("operandi_queue_job_statuses", forked fork 2)
      ∷ ("operandi_queue_hpc_downloads", forked fork 3)
      ∷ [];
  forks = 4;
  children =
      child_of fork 0 "operandi_queue_harvester" submit_child
      ++ child_of fork 1 "operandi_queue_users" submit_child
      ++ child_of fork 2 "operandi_queue_job_statuses" status_child
      ++ child_of fork 3 "operandi_queue_hpc_downloads" download_child;
  sent = [];
}

create_workers-new_broker :
    (fork : ℕ → Result ℕ) → create_workers fork new_broker ≡ ok tt (started fork)
unfolding create_workers has_queue string_eq child_worker
create_workers-new_broker fork =
    let create = create_worker_process fork in
    let fresh = create_worker_process-fresh fork in
    let s₁ : ServiceBroker = record {
      queues_and_workers = ("operandi_queue_harvester", forked fork 0) ∷ [];
      forks = 1;
      children = child_of fork 0 "operandi_queue_harvester" submit_child;
      sent = [];
    } in
    let s₂ : ServiceBroker = record s₁ {
      queues_and_workers = s₁.queues_and_workers ++ ("operandi_queue_users", forked fork 1) ∷ [];
      forks = 2;
      children = s₁.children ++ child_of fork 1 "operandi_queue_users" submit_child;
    } in
    let s₃ : ServiceBroker = record s₂ {
      queues_and_workers =
          s₂.queues_and_workers ++ ("operandi_queue_job_statuses", forked fork 2) ∷ [];
      forks = 3;
      children = s₂.children ++ child_of fork 2 "operandi_queue_job_statuses" status_child;
    } in
    let last = create "operandi_queue_hpc_downloads" "download_worker" in
    let last₂ = create "operandi_queue_job_statuses" "status_worker" >> last in
    let last₃ = create "operandi_queue_users" "submit_worker" >> last₂ in
    bind_ok (create "operandi_queue_harvester" "submit_worker") (λ _. last₃) new_broker tt s₁
      (fresh "operandi_queue_harvester" "submit_worker" new_broker refl)
    ∙ bind_ok (create "operandi_queue_users" "submit_worker") (λ _. last₂) s₁ tt s₂
        (fresh "operandi_queue_users" "submit_worker" s₁ refl)
    ∙ bind_ok (create "operandi_queue_job_statuses" "status_worker") (λ _. last) s₂ tt s₃
        (fresh "operandi_queue_job_statuses" "status_worker" s₂ refl)
    ∙ fresh "operandi_queue_hpc_downloads" "download_worker" s₃ refl

-- A broker that is interrupted after its start has one list of workers for each of the four
-- queues, with the process of its fork or, where the fork failed, empty. The processes run two
-- submit workers, a status worker, which alone has a publisher and no SFTP client, and a download
-- worker. At the interrupt it sends a SIGINT to every process that it started and then a SIGKILL
-- to every one, to no other process and in the order of the forks. psutil may answer with any of
-- the three errors that are caught.
pub run_broker_lem :
    (fork : ℕ → Result ℕ) (answer : Signal → ℕ → Option SignalError)
    → ((signal : Signal) (pid : ℕ) → answer signal pid ≢ some other_error)
    → run_broker fork answer new_broker
      ≡ ok tt (record (started fork) {
        sent = all_get sigint (all_forked fork) ++ all_get sigkill (all_forked fork);
      })
unfolding run_broker
run_broker_lem fork answer expected =
    rw (create_workers-new_broker fork) (kill_workers_lem answer expected (started fork))
