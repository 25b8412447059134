-- ===== src/Hpc/Transfer/Results.antt =====
-- The local files around the transfer of the results.
use operandi.Common.{
  ◌≡◌, refl, String, true, false, not, ◌&&◌, [], ◌∷◌, arith, contains, ◌==◌, string_eq, ==_iff,
  ==_refl, Exc, ok, raised, done, select, join, path_name,
}
use operandi.Hpc.Transfer.{
  Sftp, Local, remove_path, download_file_with_retries, download_workflow_job_zip,
  download_workspace_zip, unzip_dir, get_and_unpack_slurm_workspace,
}

contains-remove_path :
    (p q : String) (l : Local) → contains (remove_path p l) q ≡ (contains l q && not (q == p))
unfolding remove_path select
contains-remove_path p q [] = refl
contains-remove_path p q (x ∷ l) =
    ground (arith, ==_iff q x, ==_iff x p, ==_iff q p, contains-remove_path p q l)

removed : (p : String) (l : Local) → contains (remove_path p l) p ≡ false
removed p l = ground (arith, contains-remove_path p p l, ==_refl p)

module _ (sftp : Sftp) (ws_dir job_dir : String) where
  -- A download that raises leaves the local files as they were.
  download_workspace_zip-raised :
      (local local' : Local) (e : Exc)
      → download_workspace_zip sftp ws_dir job_dir local ≡ raised e local'
      → local' ≡ local
  unfolding download_workspace_zip download_file_with_retries
  download_workspace_zip-raised local local' e h = ground arith

  unzip_dir-contains :
      (zip : String) (local local' : Local)
      → unzip_dir sftp zip ws_dir true local ≡ ok tt local'
      → contains local' ws_dir ≡ true
  unfolding unzip_dir
  unzip_dir-contains zip local local' h = ground (arith, ==_refl ws_dir)

  module _ (local local₁ local₂ : Local) (zip : String) (connected : sftp.connect ≡ done tt)
      (downloaded : download_workflow_job_zip sftp job_dir local ≡ ok zip local₁)
      (unpacked : unzip_dir sftp zip job_dir true local₁ ≡ ok tt local₂) where
    -- The old workspace is removed before the new one is there: where the second download fails,
    -- the workspace directory is gone.
    pub failed_download_loses_workspace :
        (local₃ : Local) (e : Exc)
        → download_workspace_zip sftp ws_dir job_dir (remove_path ws_dir local₂) ≡ raised e local₃
        → (get_and_unpack_slurm_workspace sftp ws_dir job_dir local ≡ raised e local₃)
          × (contains local₃ ws_dir ≡ false)
    unfolding get_and_unpack_slurm_workspace
    failed_download_loses_workspace local₃ e fails = ground (
      arith,
      connected,
      downloaded,
      unpacked,
      fails,
      download_workspace_zip-raised (remove_path ws_dir local₂) local₃ e fails,
      removed ws_dir local₂,
    )

    -- Where every step works, both directories are there, with the link from the one to the other.
    pub results_unpacked :
        (local₃ local₄ : Local) (ws_zip : String)
        → download_workspace_zip sftp ws_dir job_dir (remove_path ws_dir local₂) ≡ ok ws_zip local₃
        → unzip_dir sftp ws_zip ws_dir true local₃ ≡ ok tt local₄
        → sftp.symlink ws_dir (join job_dir (path_name ws_dir)) ≡ done tt
        → (get_and_unpack_slurm_workspace sftp ws_dir job_dir local
            ≡ ok tt (join job_dir (path_name ws_dir) ∷ local₄))
          × (contains local₄ ws_dir ≡ true)
    unfolding get_and_unpack_slurm_workspace
    results_unpacked local₃ local₄ ws_zip fetched unzipped linked = (
      ground (arith, connected, downloaded, unpacked, fetched, unzipped, linked),
      unzip_dir-contains ws_zip local₃ local₄ unzipped,
    )
