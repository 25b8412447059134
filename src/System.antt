-- ===== src/System.antt =====
-- The server and the three workers over one database: the requests for a job and the callbacks, in
-- any order. A queue may hold any message, and the outside may answer anything at each step.
pub mod Reachable
use operandi.Common.{ℕ, String, Option, List, [], state_of}
use operandi.Database.Models.{Db}
use operandi.Hpc.Transfer.{Local}
use operandi.Broker.Worker.{Body, Worker, Site, Env, DownloadMessage, new_worker}
use operandi.Broker.Status as Status
use operandi.Broker.Download as Download
use operandi.Broker.Submit as Submit
use operandi.Broker.Submit.{SubmitWorker}
use operandi.Server.State.{Server, Outside, Message}
use operandi.Server.Users.{HttpBasicCredentials}
use operandi.Server.Submission.{
  WorkflowArguments, SbatchArguments, submit_to_rabbitmq_queue, get_workflow_job_status,
}

pub record System : Type 0 where
  pub db : Db
  -- what the server published, and the directories of its jobs
  pub requests : List Message
  pub dirs : List String
  -- what the status worker published for the download worker
  pub downloads : List DownloadMessage
  pub local : Local
  pub submit_worker : SubmitWorker
  pub status_worker : Worker
  pub download_worker : Worker
  -- the acknowledged tags of each worker
  pub submit_acked : List (Option ℕ)
  pub status_acked : List (Option ℕ)
  pub download_acked : List (Option ℕ)

abbrev pub server_of : System → Server
server_of s = record { db = s.db; published = s.requests; dirs = s.dirs }

abbrev pub with_server : System → Server → System
with_server s t = record s { db = t.db; requests = t.published; dirs = t.dirs }

abbrev pub submit_site : System → Site SubmitWorker
submit_site s = record {
  db = s.db;
  worker = s.submit_worker;
  local = s.local;
  acked = s.submit_acked;
  published = s.downloads;
}

abbrev pub with_submit_site : System → Site SubmitWorker → System
with_submit_site s t = record s {
  db = t.db;
  submit_worker = t.worker;
  local = t.local;
  submit_acked = t.acked;
  downloads = t.published;
}

abbrev pub status_site : System → Site Worker
status_site s = record {
  db = s.db;
  worker = s.status_worker;
  local = s.local;
  acked = s.status_acked;
  published = s.downloads;
}

abbrev pub with_status_site : System → Site Worker → System
with_status_site s t = record s {
  db = t.db;
  status_worker = t.worker;
  local = t.local;
  status_acked = t.acked;
  downloads = t.published;
}

abbrev pub download_site : System → Site Worker
download_site s = record {
  db = s.db;
  worker = s.download_worker;
  local = s.local;
  acked = s.download_acked;
  published = s.downloads;
}

abbrev pub with_download_site : System → Site Worker → System
with_download_site s t = record s {
  db = t.db;
  download_worker = t.worker;
  local = t.local;
  download_acked = t.acked;
  downloads = t.published;
}

-- One request or one message. Its handler runs to its end, whether it returns or raises.
pub data Step : System → System → Type 0 where
  request :
      (s : System) (out : Outside) (workflow_id : String) (args : WorkflowArguments)
      (sbatch : SbatchArguments) (details : String) (auth : HttpBasicCredentials)
      → Step s (
          with_server s (
            state_of
              (submit_to_rabbitmq_queue out workflow_id args sbatch details auth (server_of s))))
  submit :
      (s : System) (env : Env) (tag : ℕ) (body : Body)
      → Step s (
          with_submit_site s (state_of (Submit.consumed_msg_callback env tag body (submit_site s))))
  status :
      (s : System) (env : Env) (tag : ℕ) (body : Body)
      → Step s (
          with_status_site s (state_of (Status.consumed_msg_callback env tag body (status_site s))))
  download :
      (s : System) (env : Env) (tag : ℕ) (body : Body)
      → Step s (
          with_download_site s
            (state_of (Download.consumed_msg_callback env tag body (download_site s))))

pub data Reach (s : System) : System → Type 0 where
  start : Reach s s
  later : {t u : System} → Reach s t → Step t u → Reach s u
