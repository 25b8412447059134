-- ===== src/Server/Metadata/Processes.antt =====
-- src/server/operandi_server/routers/workflow_utils.py: the metadata of the processes that
-- src/utils/operandi_utils/oton writes.
use operandi.Common.{
  ℕ, Bool, true, false, ◌||◌, List, [], ◌∷◌, ◌++◌, ◌+◌, Text, codes, occurs, starts_with, lines_of,
  newline, joined, nat_eq, text_eq, ◌≡◌, refl, sym, ap, subst, ◌∙◌, append_assoc, append-nil,
  split_at, remove_pair,
}
use operandi.Oton.{
  spaces, params_key_forks, const_dir_in, const_dir_out, const_page_range, const_mets_path,
}
use operandi.Oton.Arguments.{Ocrd, Parameters, ProcessorCallArguments, parameters_text}
use operandi.Oton.ProcessBlock.{
  nextflow_block_process, process_name, process_representation, dump_script, dump_directives,
  dump_parameters_input, directive_lines, parameter_lines, output_part, triple_quotes,
}
use operandi.Oton.Parameters.{is_wrapped, is_apptainer}
use operandi.Oton.Built.{made_block, made_blocks, directives_of}
use operandi.Oton.Converter.{process_blocks}
use operandi.Server.Metadata.{
  nothing, executable, found_on, found_in, metadata_of_lines, is_executable, is_quoted,
}
use operandi.Server.Metadata.Lines.{IsFree, IsFree-append, is_free-IsFree}
use operandi.Server.Metadata.Reads.{Reads, Reads-append}
use operandi.Server.Metadata.Pieces.{Reads-pieces, joined_to}
use operandi.Server.Metadata.Blocks.{
  IsTame, IsReadable, names_socket, name_line, name_line_names_nothing, process_name-IsTame,
  wrapper, options, command_lem, command_line_found, command_line_names_socket, command_line-IsFree,
}

vals : List Text → Parameters
vals [] = []
vals (key ∷ keys) = (key, codes "val") ∷ vals keys

-- From the directives to the script.
abbrev middle : Bool → Text
unfolding vals
middle apptainer = joined (
    directive_lines (directives_of params_key_forks apptainer)
    ∷ spaces
    ∷ codes "input:\n"
    ∷ parameter_lines
        (vals (const_mets_path ∷ const_page_range ∷ const_dir_in ∷ const_dir_out ∷ []))
    ∷ output_part (vals (const_mets_path ∷ const_page_range ∷ []))
    ∷ spaces
    ∷ codes "script:\n"
    ∷ [])

abbrev quotes_line : Text
quotes_line = joined (spaces ∷ spaces ∷ triple_quotes ∷ codes "\n" ∷ [])

middle-Reads : (apptainer : Bool) → Reads (middle apptainer) false [] []
unfolding metadata_of_lines lines_of found_on found_in is_executable is_quoted occurs starts_with
    nat_eq vals split_at remove_pair
middle-Reads true = record { at = λ rest. refl }
middle-Reads false = record { at = λ rest. refl }

quotes-Reads : Reads quotes_line false [] []
unfolding metadata_of_lines lines_of found_on found_in is_executable is_quoted occurs starts_with
    nat_eq split_at remove_pair
quotes-Reads = record { at = λ rest. refl }

pub end-Reads : Reads (codes "}\n") false [] []
unfolding metadata_of_lines lines_of found_on found_in is_executable is_quoted occurs starts_with
    nat_eq split_at remove_pair
end-Reads = record { at = λ rest. refl }

pub or_false : (b : Bool) → (b || false) ≡ b
or_false true = refl
or_false false = refl

pub Reads-mets :
    (t : Text) (m m' : Bool) (steps groups : List Text)
    → m ≡ m'
    → Reads t m steps groups
    → Reads t m' steps groups
Reads-mets t m m' steps groups p h = subst (λ x. Reads t x steps groups) p h

module _ (ocrd : Ocrd) (name : Text) (p : ProcessorCallArguments)
    (readable : IsReadable ocrd name p) where
  abbrev parameters : Text
  parameters = parameters_text ocrd p.parameters

  program_lem : is_executable p.executable ≡ true
  unfolding is_executable occurs starts_with nat_eq
  program_lem = subst (λ x. is_executable x ≡ true) (sym readable.0) refl

  exe-IsTame : IsTame p.executable
  unfolding nat_eq
  exe-IsTame =
      let (line, space, dot) = readable.1 in
      subst IsTame (sym readable.0) (
        IsFree-append newline (codes "ocrd-") name (is_free-IsFree newline (codes "ocrd-") refl)
            line,
        IsFree-append b' ' (codes "ocrd-") name (is_free-IsFree b' ' (codes "ocrd-") refl) space,
        IsFree-append b'.' (codes "ocrd-") name (is_free-IsFree b'.' (codes "ocrd-") refl) dot,
      )

  -- The script of a process.
  script-Reads :
      (wrapped mets : Bool) (i : ℕ)
      → Reads
          (joined_to
            (spaces
              ∷ spaces
              ∷ wrapper wrapped i
              ∷ (p.executable ++ b' ' ∷ options mets parameters)
              ∷ [])
            (newline ∷ quotes_line))
          mets
          (p.executable ∷ [])
          []
  unfolding occurs
  script-Reads wrapped mets i =
      let exe = p.executable in
      Reads-mets _ _ mets _ _ (or_false mets) (
        Reads-pieces
          (spaces ∷ spaces ∷ wrapper wrapped i ∷ (exe ++ b' ' ∷ options mets parameters) ∷ [])
          quotes_line mets false (executable exe) [] []
          (command_line-IsFree exe parameters exe-IsTame readable.2 wrapped mets i)
          (command_line_names_socket exe parameters exe-IsTame readable.2 wrapped mets i readable.3)
          (command_line_found exe parameters exe-IsTame readable.2 wrapped mets i program_lem)
          quotes-Reads)

  module _ (environment : Text) (mets : Bool) (i : ℕ) where
    abbrev command_lines : Text → Text
    command_lines command =
        joined_to (spaces ∷ spaces ∷ wrapper (is_wrapped environment) i ∷ command ∷ [])
          (newline ∷ quotes_line)

    abbrev known_command : Text
    known_command = p.executable ++ b' ' ∷ options mets parameters

    abbrev title : Text
    title = process_name p.executable i

    abbrev body : Text → Text
    body command =
        middle (is_apptainer environment) ++ (quotes_line ++ (command_lines command ++ codes "}\n"))

    body-Reads : Reads (body known_command) mets (p.executable ∷ []) []
    body-Reads =
        Reads-append (middle (is_apptainer environment)) _ false mets [] _ [] []
          (middle-Reads (is_apptainer environment))
          (Reads-append quotes_line _ false mets [] _ [] [] quotes-Reads (
            Reads-mets _ _ mets _ _ (or_false mets) (
              Reads-append (command_lines known_command) (codes "}\n") mets false
                (p.executable ∷ []) [] [] [] (script-Reads (is_wrapped environment) mets i)
                end-Reads)))

    block_text :
        process_representation false (made_block ocrd environment mets p i)
        ≡ joined_to (codes "process " ∷ title ∷ codes " {" ∷ []) (newline ∷ body known_command)
    unfolding process_representation nextflow_block_process dump_script dump_directives
        dump_parameters_input vals
    block_text =
        let with_body =
          λ (t : Text). joined_to (codes "process " ∷ title ∷ codes " {" ∷ []) (newline ∷ t) in
        let ds = directive_lines (directives_of params_key_forks (is_apptainer environment)) in
        let between = joined (
          spaces
          ∷ codes "input:\n"
          ∷ parameter_lines
              (vals (const_mets_path ∷ const_page_range ∷ const_dir_in ∷ const_dir_out ∷ []))
          ∷ output_part (vals (const_mets_path ∷ const_page_range ∷ []))
          ∷ spaces
          ∷ codes "script:\n"
          ∷ []) in
        let script = λ (command : Text). (quotes_line ++ (command_lines command ++ codes "}\n")) in
        ap (λ command. with_body (ds ++ (between ++ script command))) (command_lem ocrd mets p)
        ∙ ap with_body (sym (append_assoc ds between (script known_command)))

    title_facts :
        (found_on (joined_to (codes "process " ∷ title ∷ codes " {" ∷ []) (newline ∷ [])) ≡ nothing)
        × (names_socket (joined_to (codes "process " ∷ title ∷ codes " {" ∷ []) (newline ∷ []))
            ≡ false)
        × IsFree newline title
    title_facts =
        subst
          (λ exe.
            (found_on (codes "process " ++ (process_name exe i ++ (codes " {" ++ newline ∷ [])))
              ≡ nothing)
            × (names_socket
                  (codes "process " ++ (process_name exe i ++ (codes " {" ++ newline ∷ [])))
                ≡ false)
            × IsFree newline (process_name exe i))
          (sym readable.0)
          (
            name_line name i readable.1,
            name_line_names_nothing name i readable.1,
            (process_name-IsTame name i readable.1).0,
          )

    -- A process adds its program to the steps.
    pub block-Reads :
        Reads
          (process_representation false (made_block ocrd environment mets p i))
          mets
          (p.executable ∷ [])
          []
    unfolding occurs nat_eq
    block-Reads =
        let (found, names, free) = title_facts in
        subst (λ t. Reads t mets (p.executable ∷ []) []) (sym block_text)
          (Reads-pieces (codes "process " ∷ title ∷ codes " {" ∷ []) (body known_command) false mets
            nothing (p.executable ∷ []) []
            (IsFree-append newline (codes "process ") (title ++ codes " {")
              (is_free-IsFree newline (codes "process ") refl)
              (IsFree-append newline title (codes " {") free
                (is_free-IsFree newline (codes " {") refl)))
            names found body-Reads)

pub empty_line-Reads : Reads (codes "\n") false [] []
unfolding metadata_of_lines lines_of found_on found_in is_executable is_quoted occurs starts_with
    nat_eq split_at remove_pair
empty_line-Reads = record { at = λ rest. refl }

-- The programs of the processors.
abbrev pub executables_of : List ProcessorCallArguments → List Text
executables_of [] = []
executables_of (p ∷ ps) = p.executable ∷ executables_of ps

-- Each call can be read back.
abbrev pub AreReadable : Ocrd → List ProcessorCallArguments → Type 0
AreReadable ocrd [] = Unit {0}
AreReadable ocrd (p ∷ ps) = ((name : Text) × IsReadable ocrd name p) × AreReadable ocrd ps

-- Whether one of the processes names the socket.
abbrev pub some_socket : Bool → List ProcessorCallArguments → Bool
some_socket mets [] = false
some_socket mets (p ∷ ps) = mets || some_socket mets ps

pub some_socket_lem :
    (mets : Bool) (p : ProcessorCallArguments) (ps : List ProcessorCallArguments)
    → some_socket mets (p ∷ ps) ≡ mets
some_socket_lem true p ps = refl
some_socket_lem false p [] = refl
some_socket_lem false p (q ∷ ps) = some_socket_lem false q ps

-- The processes add their programs to the steps, in their order.
pub blocks-Reads :
    (ocrd : Ocrd) (environment : Text) (mets : Bool) (i : ℕ) (ps : List ProcessorCallArguments)
    → AreReadable ocrd ps
    → Reads
        (process_blocks (made_blocks ocrd environment mets i ps))
        (some_socket mets ps)
        (executables_of ps)
        []
unfolding made_blocks
blocks-Reads ocrd environment mets i [] h = record { at = λ rest. refl }
blocks-Reads ocrd environment mets i (p ∷ ps) ((name, readable), h) =
    let rest = process_blocks (made_blocks ocrd environment mets (i + 1) ps) in
    Reads-append (process_representation false (made_block ocrd environment mets p i))
      (codes "\n" ++ (rest ++ [])) mets (some_socket mets ps) (p.executable ∷ [])
      (executables_of ps) [] [] (block-Reads ocrd name p readable environment mets i)
      (Reads-append (codes "\n") (rest ++ []) false (some_socket mets ps) [] (executables_of ps) []
        [] empty_line-Reads
        (subst (λ t. Reads t (some_socket mets ps) (executables_of ps) []) (sym (append-nil rest))
          (blocks-Reads ocrd environment mets (i + 1) ps h)))
