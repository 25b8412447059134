-- ===== src/Constants.antt =====
-- src/utils/operandi_utils/constants.py: the account types and the states of jobs and workspaces.
-- The enumerations extend `str`; where the code meets a member as text, it meets its value.
pub mod Slurm
pub mod Job
pub mod Images
use operandi.Common.{Eq}

pub data AccountType : Type 0 where
  admin harvester machine user unset : AccountType

pub data StateWorkspace : Type 0 where
  running queued pending ready transferring_to_hpc transferring_from_hpc unset : StateWorkspace

account_type_dec : Discrete AccountType
account_type_dec = hlevel

instance unfoldable pub account_type_eq : Eq AccountType
unfolding account_type_dec
account_type_eq = record { dec = account_type_dec }

state_workspace_dec : Discrete StateWorkspace
state_workspace_dec = hlevel

instance unfoldable pub state_workspace_eq : Eq StateWorkspace
unfolding state_workspace_dec
state_workspace_eq = record { dec = state_workspace_dec }
