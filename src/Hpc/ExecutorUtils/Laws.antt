-- ===== src/Hpc/ExecutorUtils/Laws.antt =====
-- What a listing of `sacct` is read as.
use operandi.Common.{
  ℕ, zero, suc, ◌-◌, ◌<◌, ◌≡◌, refl, ◌↔◌, some, List, [], ◌∷◌, ◌++◌, arith, ◌∙◌, Text, text_eq,
  codes, split, length, length-append, raise, index_error,
}
use operandi.Constants.Slurm.{StateJobSlurm, value, members}
use operandi.Hpc.ExecutorUtils.{
  state_of_value, member_with, parse_slurm_job_state_from_output, get_elem?, parse_line,
}

member_with_sound :
    {A : Type 0} (value_of : A → Text) (t : Text) (ss : List A) (s : A)
    → member_with value_of t ss ≡ some s
    → t ≡ value_of s
unfolding member_with
member_with_sound value_of t [] s h = ground arith
member_with_sound value_of t (x ∷ ss) s h = ground (arith, member_with_sound value_of t ss s)

state_of_value_complete : (s : StateJobSlurm) → state_of_value (codes (value s)) ≡ some s
unfolding state_of_value
state_of_value_complete StateJobSlurm.boot_fail = refl
state_of_value_complete _ = refl

-- A word is read as a slurm state exactly when it is the state's value.
pub state_of_value_iff :
    (t : Text) (s : StateJobSlurm) → state_of_value t ≡ some s ↔ t ≡ codes (value s)
state_of_value_iff t s = (
  λ h. unfold state_of_value in member_with_sound (λ s. codes (value s)) t members s h,
  λ e. rw e (state_of_value_complete s),
)

get_elem?-append :
    {A : Type 0} (xs : List A) (x : A) (ys : List A) (n : ℕ)
    → n ≡ length xs
    → get_elem? (xs ++ x ∷ ys) n ≡ some x
get_elem?-append [] x ys n h = rw h
get_elem?-append (z ∷ xs) x ys zero h = absurd (omega arith)
get_elem?-append (z ∷ xs) x ys (suc n) h = get_elem?-append xs x ys n (omega arith)

-- Of an output of three lines or more only the last but one counts.
pub parse_last_but_one :
    (header : Text) (lines : List Text) (line last : Text)
    → parse_slurm_job_state_from_output (header ∷ (lines ++ line ∷ last ∷ []))
      ≡ parse_line (some line)
unfolding parse_slurm_job_state_from_output
parse_last_but_one header lines line last =
    let n = length (header ∷ (lines ++ line ∷ last ∷ [])) - 2 in
    let e : n ≡ length (header ∷ lines) = omega (arith, length-append lines (line ∷ last ∷ [])) in
    ground (
      arith,
      length-append lines (line ∷ last ∷ []),
      get_elem?-append (header ∷ lines) line (last ∷ []) n e,
    )

module _ (header : Text) (lines : List Text) (line last : Text) where
  -- A listing whose last but one line has fewer than two words raises an `IndexError`.
  pub parse_short_line :
      (words : List Text)
      → split line ≡ words
      → length words < 2
      → parse_slurm_job_state_from_output (header ∷ (lines ++ line ∷ last ∷ [])) ≡ raise index_error
  parse_short_line [] h k = parse_last_but_one header lines line last ∙ rw (h, parse_line)
  parse_short_line (w ∷ []) h k = parse_last_but_one header lines line last ∙ rw (h, parse_line)
  parse_short_line (w ∷ v ∷ ws) h k = absurd (omega arith)
