-- ===== src/Tests/Installation.antt =====
-- A server with a ready workspace.
use operandi.Common.{
  value_error, String, ◌<>◌, true, some, [], ◌∷◌, done, string_eq, option_eq, nat_eq,
}
use operandi.Constants.{AccountType, StateWorkspace, account_type_eq, state_workspace_eq}
use operandi.Constants.Job.{state_job_eq}
use operandi.Database.Models.{DbWorkspace}
use operandi.Server.State.{Server, Outside}
use operandi.Server.Users.{PyUserAction, HttpBasicCredentials}
use operandi.Server.Submission.{WorkflowArguments, SbatchArguments}
use operandi.Tests.Fixtures.{user, workspace, db}

-- A digest that is good enough for a test.
abbrev pub digest : String → String
digest s = "h" <> s

abbrev pub out : Outside
out = record {
  now = 9;
  assign_ocrd_mets = value_error;
  new_id = "j2";
  sha512 = digest;
  salt = "ab";
  mets_file_groups = λ _ _. done ("IN" ∷ []);
  publish_to_queue = done tt;
  workflow_jobs_dir = "/jobs";
}

-- The user can log in with the password `pw`, and the workspace is ready.
abbrev pub ready_workspace : DbWorkspace
ready_workspace = record workspace { state = StateWorkspace.ready }

abbrev pub server : Server
server = record {
  db = record db {
    user_accounts = record user { encrypted_pass = "ab$habpw"; details = some "d" } ∷ [];
    workspaces = ready_workspace ∷ [];
  };
  published = [];
  dirs = [];
}

abbrev pub credentials : HttpBasicCredentials
credentials = record { username = "u@x.org"; password = "pw" }

abbrev pub action : AccountType → PyUserAction
action type = record {
  institution_id = "goe";
  user_id = "u1";
  email = "u@x.org";
  account_type = type;
  approved_user = true;
  details = "d";
}

abbrev pub arguments : WorkflowArguments
arguments = record {
  workspace_id = "ws1";
  input_file_grp = some "IN";
  remove_file_grps = some "";
  preserve_file_grps = some "";
}

abbrev pub sbatch : SbatchArguments
sbatch = record { partition = "p"; cpus = 4; ram = 64 }
