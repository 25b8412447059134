-- ===== src/Server/Metadata/Blocks.antt =====
-- src/server/operandi_server/routers/workflow_utils.py: the metadata of the processes that
-- src/utils/operandi_utils/oton writes.
use operandi.Common.{
  ℕ, Bool, true, false, ◌||◌, [], ◌∷◌, ◌++◌, Text, codes, occurs, newline, joined, decimal,
  decimal-all_digits, replace_char, is_digit, nat_eq, text_eq, ◌==◌, if◌then◌else◌, ◌≡◌, refl, ap,
  ◌∙◌, append_assoc,
}
use operandi.Oton.{
  spaces, params_key_mets_socket_path, params_key_env_wrapper_cmd_step, placeholder,
}
use operandi.Oton.Arguments.{Ocrd, ProcessorCallArguments, parameters_text, dump_bash_form_with_phs}
use operandi.Oton.ProcessBlock.{process_name}
use operandi.Server.Metadata.{nothing, executable, found_on, found_in, is_executable, is_quoted}
use operandi.Server.Metadata.Lines.{
  IsFree, IsFree-append, is_free, is_free-IsFree, digits-IsFree, replace_char-IsFree,
  replaced-IsFree,
}
use operandi.Server.Metadata.Searches.{occurs-apart, occurs-missing}
use operandi.Server.Metadata.Words.{found_on-skip, found_on-executable, found_on-spaces}

-- A name without a line's end, a space or a dot.
abbrev pub IsTame : Text → Type 0
IsTame name = IsFree newline name × IsFree b' ' name × IsFree b'.' name

abbrev pub names_socket : Text → Bool
unfolding occurs nat_eq
names_socket text = occurs params_key_mets_socket_path text

-- The call can be read back: its program is `ocrd-name`, and its parameters stand on one line.
abbrev pub IsReadable : Ocrd → Text → ProcessorCallArguments → Type 0
IsReadable ocrd name p =
    (p.executable ≡ codes "ocrd-" ++ name)
    × IsTame name
    × IsFree newline (parameters_text ocrd p.parameters)
    × (names_socket (parameters_text ocrd p.parameters) ≡ false)

pub process_name-IsTame :
    (name : Text) (i : ℕ) → IsTame name → IsTame (process_name (codes "ocrd-" ++ name) i)
unfolding process_name nat_eq is_digit replace_char
process_name-IsTame name i (line, space, dot) =
    let digits = decimal-all_digits i in
    let part =
      λ (c : ℕ) (h : IsFree c name) (k : (b'_' == c) ≡ false) (d : is_digit c ≡ false)
          (first : IsFree c (codes "ocrd_")) (e : IsFree c (codes "_")).
        IsFree-append c (codes "ocrd_" ++ replace_char b'-' b'_' name) (codes "_" ++ decimal i)
          (IsFree-append c (codes "ocrd_") (replace_char b'-' b'_' name) first
            (replace_char-IsFree b'-' b'_' c name h k))
          (IsFree-append c (codes "_") (decimal i) e (digits-IsFree c (decimal i) digits d)) in
    (
      part newline line refl refl (is_free-IsFree newline (codes "ocrd_") refl)
          (is_free-IsFree newline (codes "_") refl),
      part b' ' space refl refl (is_free-IsFree b' ' (codes "ocrd_") refl)
          (is_free-IsFree b' ' (codes "_") refl),
      part b'.' dot refl refl (is_free-IsFree b'.' (codes "ocrd_") refl)
          (is_free-IsFree b'.' (codes "_") refl),
    )

-- A name of a process has no dash.
pub process_name-no_dash :
    (name : Text) (i : ℕ) → IsFree b'-' (process_name (codes "ocrd-" ++ name) i)
unfolding process_name nat_eq is_digit replace_char
process_name-no_dash name i =
    IsFree-append b'-' (codes "ocrd_" ++ replace_char b'-' b'_' name) (codes "_" ++ decimal i)
      (IsFree-append b'-' (codes "ocrd_") (replace_char b'-' b'_' name)
        (is_free-IsFree b'-' (codes "ocrd_") refl) (replaced-IsFree b'-' b'_' name refl))
      (IsFree-append b'-' (codes "_") (decimal i) (is_free-IsFree b'-' (codes "_") refl)
        (digits-IsFree b'-' (decimal i) (decimal-all_digits i) refl))

-- The first line of a process.
pub name_line :
    (name : Text) (i : ℕ)
    → IsTame name
    → found_on (
        codes "process "
        ++ (process_name (codes "ocrd-" ++ name) i ++ (codes " {" ++ newline ∷ [])))
      ≡ nothing
unfolding is_executable is_quoted found_on found_in process_name replace_char nat_eq
name_line name i tame =
    let title = process_name (codes "ocrd-" ++ name) i in
    let (line, space, _) = process_name-IsTame name i tame in
    found_on-skip (codes "process") (title ++ (codes " {" ++ newline ∷ []))
      (is_free-IsFree newline (codes "process") refl) (is_free-IsFree b' ' (codes "process") refl)
      refl refl
    ∙ found_on-skip title (codes "{" ++ newline ∷ []) line space
        (occurs-missing (codes "ocrd") [] title b'-' (process_name-no_dash name i)) refl

pub name_line_names_nothing :
    (name : Text) (i : ℕ)
    → IsTame name
    → names_socket (
        codes "process "
        ++ (process_name (codes "ocrd-" ++ name) i ++ (codes " {" ++ newline ∷ [])))
      ≡ false
unfolding occurs nat_eq
name_line_names_nothing name i tame =
    let title = process_name (codes "ocrd-" ++ name) i in
    let (_, _, dot) = process_name-IsTame name i tame in
    occurs-apart params_key_mets_socket_path title (codes "{" ++ newline ∷ []) b' '
      (is_free-IsFree b' ' params_key_mets_socket_path refl)
    ∙ ap (λ b. b || false)
        (occurs-missing (codes "params") (codes "mets_socket_path") title b'.' dot)

-- The call of the environment before a command, where there is one.
abbrev pub wrapper : Bool → ℕ → Text
wrapper wrapped i =
    if wrapped then placeholder (params_key_env_wrapper_cmd_step ++ decimal i) ++ codes " " else []

abbrev step_word : ℕ → Text
step_word i = placeholder (params_key_env_wrapper_cmd_step ++ decimal i)

step_word-IsFree :
    (c : ℕ) (i : ℕ)
    → is_digit c ≡ false
    → is_free c (codes "${params.env_wrapper_cmd_step") ≡ true
    → is_free c (codes "}") ≡ true
    → IsFree c (step_word i)
step_word-IsFree c i d h k =
    IsFree-append c (codes "${params.env_wrapper_cmd_step") (decimal i ++ codes "}")
      (is_free-IsFree c (codes "${params.env_wrapper_cmd_step") h)
      (IsFree-append c (decimal i) (codes "}")
        (digits-IsFree c (decimal i) (decimal-all_digits i) d) (is_free-IsFree c (codes "}") k))

-- What stands behind the program.
abbrev pub options : Bool → Text → Text
options true parameters =
    codes
      "-U ${params.mets_socket_path} -w ${params.workspace_dir} -m ${mets_path} --page-id ${page_range} -I ${input_group} -O ${output_group}"
    ++ parameters
options false parameters =
    codes
      "-w ${params.workspace_dir} -m ${mets_path} --page-id ${page_range} -I ${input_group} -O ${output_group}"
    ++ parameters

module _ (ocrd : Ocrd) where
  pub command_lem :
      (mets : Bool) (p : ProcessorCallArguments)
      → dump_bash_form_with_phs ocrd mets p
        ≡ p.executable ++ b' ' ∷ options mets (parameters_text ocrd p.parameters)
  unfolding dump_bash_form_with_phs
  command_lem true p = refl
  command_lem false p = refl

-- The line of a command: its first word is the program, or the environment's call and then the
-- program.
module _ (exe parameters : Text) (tame : IsTame exe) (free : IsFree newline parameters) where
  command_found :
      (mets : Bool)
      → is_executable exe ≡ true
      → found_on ((exe ++ b' ' ∷ options mets parameters) ++ newline ∷ []) ≡ executable exe
  command_found mets program =
      ap found_on (append_assoc exe (b' ' ∷ options mets parameters) (newline ∷ []))
      ∙ found_on-executable exe (options mets parameters ++ newline ∷ []) tame.0 tame.1 program

  pub command_line_found :
      (wrapped mets : Bool) (i : ℕ)
      → is_executable exe ≡ true
      → found_on (
          spaces
          ++ (spaces
              ++ (wrapper wrapped i ++ ((exe ++ b' ' ∷ options mets parameters) ++ newline ∷ []))))
        ≡ executable exe
  unfolding is_executable is_quoted nat_eq is_digit
  command_line_found true mets i program =
      let command = (exe ++ b' ' ∷ options mets parameters) ++ newline ∷ [] in
      found_on-spaces (spaces ++ (wrapper true i ++ command))
      ∙ found_on-spaces (wrapper true i ++ command)
      ∙ ap found_on (append_assoc (step_word i) (codes " ") command)
      ∙ found_on-skip (step_word i) command (step_word-IsFree newline i refl refl refl)
          (step_word-IsFree b' ' i refl refl refl)
          (occurs-missing (codes "ocrd") [] (step_word i) b'-'
            (step_word-IsFree b'-' i refl refl refl))
          refl
      ∙ command_found mets program
  command_line_found false mets i program =
      let command = (exe ++ b' ' ∷ options mets parameters) ++ newline ∷ [] in
      found_on-spaces (spaces ++ command) ∙ found_on-spaces command ∙ command_found mets program

  options_name_socket :
      (mets : Bool)
      → names_socket parameters ≡ false
      → names_socket (options mets parameters ++ newline ∷ []) ≡ mets
  unfolding occurs nat_eq
  options_name_socket true h = refl
  options_name_socket false h =
      occurs-apart params_key_mets_socket_path parameters [] newline
        (is_free-IsFree newline params_key_mets_socket_path refl)
      ∙ ap (λ b. b || false) h

  command_names_socket :
      (mets : Bool)
      → names_socket parameters ≡ false
      → names_socket ((exe ++ b' ' ∷ options mets parameters) ++ newline ∷ []) ≡ mets
  unfolding occurs nat_eq
  command_names_socket mets h =
      ap names_socket (append_assoc exe (b' ' ∷ options mets parameters) (newline ∷ []))
      ∙ occurs-apart params_key_mets_socket_path exe (options mets parameters ++ newline ∷ []) b' '
          (is_free-IsFree b' ' params_key_mets_socket_path refl)
      ∙ ap (λ b. b || names_socket (options mets parameters ++ newline ∷ []))
          (occurs-missing (codes "params") (codes "mets_socket_path") exe b'.' tame.2)
      ∙ options_name_socket mets h

  pub command_line_names_socket :
      (wrapped mets : Bool) (i : ℕ)
      → names_socket parameters ≡ false
      → names_socket (
          spaces
          ++ (spaces
              ++ (wrapper wrapped i ++ ((exe ++ b' ' ∷ options mets parameters) ++ newline ∷ []))))
        ≡ mets
  unfolding occurs nat_eq is_digit
  command_line_names_socket true mets i h =
      let command = (exe ++ b' ' ∷ options mets parameters) ++ newline ∷ [] in
      ap names_socket (append_assoc (step_word i) (codes " ") command)
      ∙ occurs-apart params_key_mets_socket_path (step_word i) command b' '
          (is_free-IsFree b' ' params_key_mets_socket_path refl)
      ∙ ap (λ b. b || names_socket command)
          (occurs-missing (codes "params.mets_soc") (codes "et_path") (step_word i) b'k'
            (step_word-IsFree b'k' i refl refl refl))
      ∙ command_names_socket mets h
  command_line_names_socket false mets i h = command_names_socket mets h

  options-IsFree : (mets : Bool) → IsFree newline (options mets parameters)
  unfolding nat_eq
  options-IsFree true =
      IsFree-append newline (options true []) parameters
        (is_free-IsFree newline (options true []) refl) free
  options-IsFree false =
      IsFree-append newline (options false []) parameters
        (is_free-IsFree newline (options false []) refl) free

  command-IsFree : (mets : Bool) → IsFree newline ((exe ++ b' ' ∷ options mets parameters) ++ [])
  unfolding nat_eq
  command-IsFree mets =
      IsFree-append newline (exe ++ b' ' ∷ options mets parameters) []
        (IsFree-append newline exe (b' ' ∷ options mets parameters) tame.0
          (refl, options-IsFree mets))
        tt

  wrapper-IsFree : (wrapped : Bool) (i : ℕ) → IsFree newline (wrapper wrapped i)
  unfolding nat_eq is_digit
  wrapper-IsFree true i =
      IsFree-append newline (step_word i) (codes " ") (step_word-IsFree newline i refl refl refl)
        (is_free-IsFree newline (codes " ") refl)
  wrapper-IsFree false i = tt

  pub command_line-IsFree :
      (wrapped mets : Bool) (i : ℕ)
      → IsFree newline (
          joined
            (spaces ∷ spaces ∷ wrapper wrapped i ∷ (exe ++ b' ' ∷ options mets parameters) ∷ []))
  unfolding nat_eq
  command_line-IsFree wrapped mets i =
      let command = (exe ++ b' ' ∷ options mets parameters) ++ [] in
      IsFree-append newline (spaces ++ spaces) (wrapper wrapped i ++ command)
        (is_free-IsFree newline (spaces ++ spaces) refl)
        (IsFree-append newline (wrapper wrapped i) command (wrapper-IsFree wrapped i)
          (command-IsFree mets))
