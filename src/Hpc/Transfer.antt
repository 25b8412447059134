-- ===== src/Hpc/Transfer.antt =====
-- src/utils/operandi_utils/hpc/nhr_transfer.py: the retry loops, the upload of a workspace and
-- the download of its results. The SFTP client, the archives and the links are a parameter; of
-- the local files the paths that are there are kept.
pub mod Retries
pub mod Results
use operandi.Common.{
  ℕ, zero, suc, ◌+◌, String, ◌<>◌, Bool, true, false, List, [], ◌∷◌, Eq, ◌==◌, string_eq, not,
  if◌then◌else◌, Exec, Outcome, ok, raised, Result, done, raise, other, select, lift, modify, pure,
  ◌>>=◌, ◌>>◌, join, path_name, path_parent,
}

abbrev pub try_times : ℕ
try_times = 100

-- The loop of `_upload_file_with_retries` and `_download_file_with_retries`: `attempt i` is the
-- outcome of the `i`-th `put_file` or `get_file`.
unfoldable pub retry_loop : (ℕ → Result (Unit {0})) → ℕ → ℕ → Result (Unit {0})
retry_loop attempt i zero = done tt
retry_loop attempt i (suc tries) = elim (attempt i) [
  | done _ ↦ done tt
  | raise e ↦ elim tries [ zero ↦ raise other | suc t ↦ retry_loop attempt (i + 1) tries ]
]

unfoldable pub with_retries : (ℕ → Result (Unit {0})) → ℕ → Result (Unit {0})
unfolding retry_loop
with_retries attempt tries = retry_loop attempt 0 tries

-- What the transfer asks of the outside.
pub record Sftp : Type 0 where
  pub connect : Result (Unit {0})
  pub get : String → String → ℕ → Result (Unit {0})
  pub put : String → String → ℕ → Result (Unit {0})
  pub unpack : String → String → Result (Unit {0})
  pub symlink : String → String → Result (Unit {0})
  pub slurm_workspaces_dir : String
  pub batch_scripts_dir : String
  -- the directory that `mkdtemp` makes
  pub mkdtemp : String
  pub copytree : String → String → Result (Unit {0})
  pub make_zip_archive : String → String → Result (Unit {0})

-- The local paths that are there.
abbrev pub Local : Type 0
Local = List String

abbrev add_path : String → Exec Local (Unit {0})
add_path p = modify (λ l. p ∷ l)

-- `unlink(missing_ok=True)`, `rmtree(ignore_errors=True)`
unfoldable pub remove_path : String → Local → Local
remove_path p = select (λ q. not (q == p))

abbrev unlink : String → Exec Local (Unit {0})
unlink p = modify (remove_path p)

module _ (sftp : Sftp) where
  unfoldable pub download_file_with_retries : String → String → Exec Local (Unit {0})
  download_file_with_retries remote_src local_dst = do
    lift (with_retries (sftp.get remote_src local_dst) try_times)
    add_path local_dst

  unfoldable pub upload_file_with_retries : String → String → Exec Local (Unit {0})
  upload_file_with_retries local_src remote_dst =
      lift (with_retries (sftp.put local_src remote_dst) try_times)

  -- The directory of the job is packed with a link to the script and a copy of the workspace.
  unfoldable pub create_slurm_workspace_zip : String → String → String → Exec Local String
  create_slurm_workspace_zip ocrd_workspace_dir workflow_job_id script_path = do
    let job_dir = join sftp.mkdtemp workflow_job_id
    let dst_script = join job_dir (path_name script_path)
    let dst_workspace = join job_dir (path_name ocrd_workspace_dir)
    let dst_zip = job_dir <> ".zip"
    add_path sftp.mkdtemp
    add_path job_dir
    lift (sftp.symlink script_path dst_script)
    add_path dst_script
    lift (sftp.copytree ocrd_workspace_dir dst_workspace)
    add_path dst_workspace
    lift (sftp.make_zip_archive job_dir dst_zip)
    add_path dst_zip
    pure dst_zip

  -- One attempt only: `put_file` is called without the retry loop.
  unfoldable pub put_slurm_workspace : String → String → Exec Local String
  put_slurm_workspace local_src_slurm_zip workflow_job_id = do
    let hpc_dst = join sftp.slurm_workspaces_dir (workflow_job_id <> ".zip")
    lift sftp.connect
    lift (sftp.put local_src_slurm_zip hpc_dst 0)
    pure hpc_dst

  unfoldable pub pack_and_put_slurm_workspace :
      String → String → String → Exec Local (String × String)
  pack_and_put_slurm_workspace ocrd_workspace_dir workflow_job_id script_path = do
    zip ← create_slurm_workspace_zip ocrd_workspace_dir workflow_job_id script_path
    dst ← put_slurm_workspace zip workflow_job_id
    unlink zip
    pure (zip, dst)

  unfoldable pub download_slurm_job_log_file : String → String → Exec Local String
  download_slurm_job_log_file slurm_job_id local_wf_job_dir = do
    lift sftp.connect
    let file = "slurm-job-" <> slurm_job_id <> ".txt"
    let get_src = join (join sftp.slurm_workspaces_dir (path_name local_wf_job_dir)) file
    let get_dst = join local_wf_job_dir file
    download_file_with_retries get_src get_dst
    pure get_dst

  unfoldable pub download_workflow_job_zip : String → Exec Local String
  download_workflow_job_zip local_wf_job_dir = do
    let id = path_name local_wf_job_dir
    let get_src = join (join sftp.slurm_workspaces_dir id) ("wf_" <> id <> ".zip")
    let get_dst = join (path_parent local_wf_job_dir) (id <> ".zip")
    download_file_with_retries get_src get_dst
    pure get_dst

  unfoldable pub download_workspace_zip : String → String → Exec Local String
  download_workspace_zip local_ocrd_ws_dir local_wf_job_dir = do
    let id = path_name local_ocrd_ws_dir
    let get_src =
        join (join sftp.slurm_workspaces_dir (path_name local_wf_job_dir)) ("ws_" <> id <> ".zip")
    let get_dst = join (path_parent local_ocrd_ws_dir) (id <> ".zip")
    download_file_with_retries get_src get_dst
    pure get_dst

  -- `_unzip_workflow_job_dir` and `_unzip_workspace_dir`: the archive goes, whether it could be
  -- unpacked or not.
  unfoldable pub unzip_dir : String → String → Bool → Exec Local (Unit {0})
  unfolding remove_path
  unzip_dir zip dir remove_zip local = elim (sftp.unpack zip dir) [
    | raise e ↦ raised other (if remove_zip then remove_path zip local else local)
    | done _ ↦ ok tt (dir ∷ (if remove_zip then remove_path zip local else local))
  ]

  unfoldable pub get_and_unpack_slurm_workspace : String → String → Exec Local (Unit {0})
  unfolding join path_name
  get_and_unpack_slurm_workspace ocrd_workspace_dir workflow_job_dir = do
    lift sftp.connect
    wf_job_zip ← download_workflow_job_zip workflow_job_dir
    unzip_dir wf_job_zip workflow_job_dir true
    unlink ocrd_workspace_dir
    ws_zip ← download_workspace_zip ocrd_workspace_dir workflow_job_dir
    unzip_dir ws_zip ocrd_workspace_dir true
    link (join workflow_job_dir (path_name ocrd_workspace_dir))
    where
      link : String → Exec Local (Unit {0})
      link dst local = elim (sftp.symlink ocrd_workspace_dir dst) [
        | raise e ↦ raised other local
        | done _ ↦ ok tt (dst ∷ local)
      ]
