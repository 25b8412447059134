-- ===== src/Broker/Worker/Sound.antt =====
-- What is known of the documents between the calls of a worker. The slurm jobs of the jobs that
-- stand in a published message are always known.
use operandi.Common.{
  ◌≡◌, refl, sym, subst, String, Option, some, false, List, [], ◌∷◌, ◌++◌, All, All-append,
  All-take, Exec, Outcome, ok, raised, Ensures, Post, Ensures-bind, ◌>>=◌,
}
use operandi.Database.Models.{Db}
use operandi.Database.Consistency.Operations.{Knows, HasSlurmJob, Keeps}
use operandi.Hpc.Transfer.{Local}
use operandi.Broker.Worker.{Site, DownloadMessage, handle_msg_failure, on_db, on_local, publish}
use operandi.Broker.Worker.Rules.{Ensures-on_db, Ensures-on_local}

abbrev pub asked : List DownloadMessage → List (Option String)
asked [] = []
asked (m ∷ ms) = some m.job_id ∷ asked ms

asked-append :
    (ms : List DownloadMessage) (m : DownloadMessage)
    → asked (ms ++ m ∷ []) ≡ asked ms ++ some m.job_id ∷ []
asked-append [] m = refl
asked-append (x ∷ ms) m = rw (asked-append ms m) refl

module _ {W : Type 0} where
  abbrev pub Sound : List (Option String) → List (Option String) → Site W → Type 0
  Sound js ks s = Knows js (ks ++ asked s.published) s.db

  -- Before and after an action of the worker, the same is known.
  abbrev pub Sounds :
      List (Option String) → List (Option String) → {A : Type 0} → Exec (Site W) A → Type 0
  Sounds js ks m = Ensures (Sound js ks) m (λ _. Sound js ks) (Sound js ks)

module _ {W A B : Type 0} (js ks : List (Option String)) where
  pub Sounds-bind :
      (m : Exec (Site W) A) (f : A → Exec (Site W) B)
      → Sounds js ks m
      → ((a : A) → Sounds js ks (f a))
      → Sounds js ks (m >>= f)
  Sounds-bind m f h k = Ensures-bind (λ _. Sound js ks) m f h k

module _ {W A : Type 0} (js ks : List (Option String)) where
  pub Sounds-on_db :
      (m : Exec Db A)
      → ((more : List (Option String)) → Keeps js (ks ++ more) m)
      → Sounds js ks (on_db {W = W} m)
  Sounds-on_db m h = Ensures-on_db m (λ s. h (asked s.published))

  pub Sounds-on_local : (m : Exec Local A) → Sounds js ks (on_local {W = W} m)
  Sounds-on_local m = Ensures-on_local m (λ s. record { at = λ l p. Post-local s (m l) p })
    where
      Post-local :
          (s : Site W) (r : Outcome Local A)
          → Sound js ks s
          → Post
              (λ a l. Sound js ks (record s { local = l }))
              (λ l. Sound js ks (record s { local = l }))
              r
      Post-local s (ok a l) p = p
      Post-local s (raised e l) p = p

module _ {W : Type 0} (js ks : List (Option String)) where
  -- A message may be published for a job that is known to have a slurm job.
  pub Sounds-publish : (m : DownloadMessage) → Sounds js (some m.job_id ∷ ks) (publish {W = W} m)
  Sounds-publish m = record {
    at = λ s p.
        let P = HasSlurmJob s.db in
        let (at_ks, at_asked) = All-take P ks (asked s.published) p.slurm_jobs.1 in
        record {
          consistent = p.consistent;
          jobs = p.jobs;
          slurm_jobs = (
            p.slurm_jobs.0,
            All-append P ks (asked (s.published ++ m ∷ [])) at_ks (
                subst (All P) (sym (asked-append s.published m)) (
                  All-append P (asked s.published) (some m.job_id ∷ []) at_asked
                    (p.slurm_jobs.0, tt))),
          );
        };
  }

pub handle_msg_failure-Sounds :
    (js ks : List (Option String)) → Sounds js ks (handle_msg_failure false)
unfolding handle_msg_failure
handle_msg_failure-Sounds js ks = record { at = λ s p. p }
