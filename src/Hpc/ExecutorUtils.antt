-- ===== src/Hpc/ExecutorUtils.antt =====
-- src/utils/operandi_utils/hpc/nhr_executor_utils.py
pub mod Laws
use operandi.Common.{
  ℕ, zero, suc, ◌-◌, String, Bool, true, false, Option, none, some, List, [], ◌∷◌, Result, done,
  raise, index_error, length, ltb, if◌then◌else◌, Text, text_eq, codes, split, Eq, ◌==◌,
}
use operandi.Constants.Slurm.{StateJobSlurm, unset, members, value}

-- The four messages that stand beside a state.
pub data ParseMessage : Type 0 where
  no_output job_not_listed_yet unknown_parsed_state parsed_state_recognized : ParseMessage

-- The member of an enumeration that has a value.
module _ {A : Type 0} (value_of : A → Text) where
  member_with : Text → List A → Option A
  member_with t [] = none
  member_with t (s ∷ ss) = if t == value_of s then some s else member_with t ss

-- `StateJobSlurm(t)`, with `none` for a `ValueError`.
unfoldable pub state_of_value : Text → Option StateJobSlurm
unfolding text_eq member_with
state_of_value t = member_with (λ s. codes (value s)) t members

-- `xs[i]`, with `none` for an `IndexError`.
abbrev pub get_elem? {ℓ} : {A : Type ℓ} → List A → ℕ → Option A
get_elem? [] i = none
get_elem? (x ∷ xs) zero = some x
get_elem? (x ∷ xs) (suc i) = get_elem? xs i

abbrev recognise : Text → StateJobSlurm × ParseMessage
recognise t = elim (state_of_value t) [
  | none ↦ (unset, unknown_parsed_state)
  | some s ↦ (s, parsed_state_recognized)
]

-- `output[-2].split()[1]`, from the line `output[-2]`.
abbrev parse_line : Option Text → Result (StateJobSlurm × ParseMessage)
parse_line none = raise index_error
parse_line (some line) = elim (get_elem? (split line) 1) [
  | none ↦ raise index_error
  | some word ↦ done (recognise word)
]

unfoldable pub parse_slurm_job_state_from_output : List Text → Result (StateJobSlurm × ParseMessage)
unfolding state_of_value split
parse_slurm_job_state_from_output [] = done (unset, no_output)
parse_slurm_job_state_from_output (line ∷ lines) =
    let output = line ∷ lines in
    if ltb (length output) 3
    then done (unset, job_not_listed_yet)
    else parse_line (get_elem? output (length output - 2))
