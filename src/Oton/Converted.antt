-- ===== src/Oton/Converted.antt =====
-- src/utils/operandi_utils/oton/oton_converter.py: what a conversion makes of a workflow.
use operandi.Common.{
  ℕ, Bool, true, false, List, [], ◌∷◌, ◌+◌, Text, codes, Result, done, raise, Exc, and_then,
  and_then-step, Returns-and_then, and_then-step, Returns, Returns-done, contains, text_eq, ◌≡◌,
  refl, sym, ap, subst, ◌∙◌, ◌<◌, inl, inr, ◌↔◌, if◌then◌else◌, arith,
}
use operandi.Oton.Arguments.{Ocrd, Parameters, ProcessorCallArguments}
use operandi.Oton.Validator.{
  Files, validate, validate_all_processors, validate_file_path, validate_ocrd_process_command,
  parse_all,
}
use operandi.Oton.Parser.{read_from_file}
use operandi.Oton.ProcessBlock.{NextflowBlockProcess, process_name, nextflow_block_process}
use operandi.Oton.WorkflowBlock.{nextflow_block_workflow}
use operandi.Oton.Parameters.{
  NextflowFileExecutable, nextflow_file_executable, supported_environments, build_parameters,
}
use operandi.Oton.Executable.{build_nextflow_processes}
use operandi.Oton.Converter.{build_main_workflow, produce_nextflow_file, convert_oton}
use operandi.Oton.Accepted.{IsAmong}
use operandi.Oton.Names.{process_name-injective}
use operandi.Oton.Built.{made_blocks, made_split, made_merge, build_nextflow_processes_lem}

-- The names of processes.
abbrev pub names_of : List NextflowBlockProcess → List Text
names_of [] = []
names_of (block ∷ blocks) = block.nf_process_name ∷ names_of blocks

abbrev pub calls_of : List NextflowBlockProcess → List ProcessorCallArguments
calls_of [] = []
calls_of (block ∷ blocks) = block.processor_call_arguments ∷ calls_of blocks

-- No text stands twice in the list.
abbrev pub AreDistinct : List Text → Type 0
AreDistinct [] = Unit {0}
AreDistinct (x ∷ xs) = ¬ IsAmong x xs × AreDistinct xs

module _ (ocrd : Ocrd) (environment : Text) (mets : Bool) where
  calls_of-made_blocks :
      (i : ℕ) (ps : List ProcessorCallArguments)
      → calls_of (made_blocks ocrd environment mets i ps) ≡ ps
  unfolding made_blocks nextflow_block_process
  calls_of-made_blocks i [] = refl
  calls_of-made_blocks i (p ∷ ps) = ap (λ qs. p ∷ qs) (calls_of-made_blocks (i + 1) ps)

  later_names :
      (a : Text) (i j : ℕ) (ps : List ProcessorCallArguments)
      → i < j
      → IsAmong (process_name a i) (names_of (made_blocks ocrd environment mets j ps))
      → ⊥
  unfolding made_blocks nextflow_block_process
  later_names a i j [] h among = among
  later_names a i j (p ∷ ps) h (inl same) =
      let equal = process_name-injective a p.executable i j same in omega (arith, h, equal)
  later_names a i j (p ∷ ps) h (inr among) = later_names a i (j + 1) ps (omega (arith, h)) among

  made_blocks-AreDistinct :
      (i : ℕ) (ps : List ProcessorCallArguments)
      → AreDistinct (names_of (made_blocks ocrd environment mets i ps))
  unfolding made_blocks nextflow_block_process
  made_blocks-AreDistinct i [] = tt
  made_blocks-AreDistinct i (p ∷ ps) =
      (later_names p.executable i (i + 1) ps (omega arith), made_blocks-AreDistinct (i + 1) ps)

if_lem : {A : Type 0} (b : Bool) (x y : A) → b ≡ true → (if b then x else y) ≡ x
if_lem true x y h = refl
if_lem false x y h = ground arith

if_done :
    {A : Type 0} (b : Bool) (x y : A) (e : Exc)
    → (if b then done x else raise e) ≡ done y
    → b ≡ true
if_done true x y e h = refl
if_done false x y e h = ground arith

pub done-injective : {A : Type 0} (a b : A) → done a ≡ done b → a ≡ b
done-injective a b h = ground arith

unit_lem : (r : Result (Unit {0})) (u : Unit {0}) → r ≡ done u → r ≡ done tt
unit_lem r u p = ground arith

module _ (ocrd : Ocrd) (files : Files) where
  validate-Returns :
      (path : Text)
      → Returns (λ ps. validate_all_processors ocrd ps ≡ done tt) (validate ocrd files path)
  unfolding validate
  validate-Returns path =
      let Q = λ (ps : List ProcessorCallArguments). validate_all_processors ocrd ps ≡ done tt in
      Returns-and_then Q (validate_file_path files path) _ (λ _ _.
        Returns-and_then Q (read_from_file (files.content path)) _ (λ read _.
          Returns-and_then Q (validate_ocrd_process_command read.0) _ (λ _ _.
            Returns-and_then Q (parse_all ocrd read.1) _ (λ ps _.
              Returns-and_then Q (validate_all_processors ocrd ps) (λ _. done ps)
                (λ u valid. Returns-done Q ps (unit_lem _ u valid))))))

  -- What a conversion of processors comes to.
  abbrev pub IsConverted :
      Text → Bool → List ProcessorCallArguments → NextflowFileExecutable × Text → Type 0
  IsConverted environment mets ps r =
      (r.0.nf_blocks_process ≡ made_blocks ocrd environment mets 0 ps)
      × (r.0.nf_blocks_workflow
          ≡ nextflow_block_workflow (codes "main") (made_blocks ocrd environment mets 0 ps)
              (made_split ocrd environment mets) (made_merge ocrd environment mets) mets
            ∷ [])
      × (produce_nextflow_file mets r.0 ≡ done r.1)

  parameters_lem :
      (environment : Text) (mets : Bool)
      → contains supported_environments environment ≡ true
      → (entries : Parameters) × (build_parameters environment mets nextflow_file_executable
          ≡ done (record nextflow_file_executable { nf_lines_parameters = entries }))
  unfolding build_parameters
  parameters_lem environment mets known = (_, if_lem _ _ _ known)

  -- In an environment that is supported, the conversion of a valid file returns.
  pub convert_oton_lem :
      (path environment : Text) (mets : Bool) (p : ProcessorCallArguments)
      (qs : List ProcessorCallArguments)
      → validate ocrd files path ≡ done (p ∷ qs)
      → contains supported_environments environment ≡ true
      → (r : NextflowFileExecutable × Text) × (convert_oton ocrd files path environment mets
          ≡ done r)
        × IsConverted environment mets (p ∷ qs) r
  unfolding convert_oton build_main_workflow made_blocks produce_nextflow_file
  convert_oton_lem path environment mets p qs valid known =
      let (entries, ready) = parameters_lem environment mets known in
      let (more, built) =
        build_nextflow_processes_lem ocrd environment mets (p ∷ qs)
          (record nextflow_file_executable { nf_lines_parameters = entries }) in
      let finish = λ (f : NextflowFileExecutable).
        and_then (build_main_workflow mets f)
          (λ g. and_then (produce_nextflow_file mets g) (λ text. done (g, text))) in
      (
        _,
        and_then-step (validate ocrd files path) _ (p ∷ qs) _ valid (
            and_then-step (build_parameters environment mets nextflow_file_executable) _ _ _ ready (
              and_then-step
                (build_nextflow_processes ocrd (p ∷ qs) environment mets
                  (record nextflow_file_executable { nf_lines_parameters = entries }))
                finish _ _ built refl)),
        (refl, refl, refl),
      )

  some_lem :
      (path : Text) (ps : List ProcessorCallArguments)
      → validate ocrd files path ≡ done ps
      → (p : ProcessorCallArguments) × (qs : List ProcessorCallArguments) × (validate ocrd files
            path
          ≡ done (p ∷ qs))
  unfolding validate_all_processors
  some_lem path [] valid = let all = (validate-Returns path).at [] valid in ground arith
  some_lem path (p ∷ qs) valid = (p, qs, valid)

  known_lem :
      (environment : Text) (mets : Bool) (f g : NextflowFileExecutable)
      → build_parameters environment mets f ≡ done g
      → contains supported_environments environment ≡ true
  unfolding build_parameters
  known_lem environment mets f g h = if_done _ _ g _ h

  IsValid : Text → Text → NextflowFileExecutable × Text → Type 0
  IsValid path environment r =
      ((ps : List ProcessorCallArguments) × (validate ocrd files path ≡ done ps))
      × (contains supported_environments environment ≡ true)

  convert_oton-Returns :
      (path environment : Text) (mets : Bool)
      → Returns (IsValid path environment) (convert_oton ocrd files path environment mets)
  unfolding convert_oton IsValid
  convert_oton-Returns path environment mets =
      let Q = IsValid path environment in
      Returns-and_then Q (validate ocrd files path) _ (λ ps valid.
        Returns-and_then Q (build_parameters environment mets nextflow_file_executable) _
          (λ f ready. record {
            at = λ r h. ((ps, valid), known_lem environment mets nextflow_file_executable f ready);
          }))

  -- The conversion of a file returns a script exactly when the file is a valid workflow and the
  -- environment is one of "local", "docker" and "apptainer": no block that it builds is refused.
  pub convert_oton_iff :
      (path environment : Text) (mets : Bool)
      → ((r : NextflowFileExecutable × Text) × (convert_oton ocrd files path environment mets
            ≡ done r))
        ↔ (((ps : List ProcessorCallArguments) × (validate ocrd files path ≡ done ps))
            × (contains supported_environments environment ≡ true))
  unfolding IsValid
  convert_oton_iff path environment mets = (
    (λ (r, h). (convert_oton-Returns path environment mets).at r h),
    λ ((ps, valid), known).
        let (p, qs, processors) = some_lem path ps valid in
        let (r, made, _) = convert_oton_lem path environment mets p qs processors known in
        (r, made),
  )

  -- The blocks of a script that is converted.
  pub convert_oton-made_blocks :
      (path environment : Text) (mets : Bool) (r : NextflowFileExecutable × Text)
      → convert_oton ocrd files path environment mets ≡ done r
      → (p : ProcessorCallArguments) × (qs : List ProcessorCallArguments) × (validate ocrd files
            path
          ≡ done (p ∷ qs))
        × IsConverted environment mets (p ∷ qs) r
  unfolding IsValid
  convert_oton-made_blocks path environment mets r h =
      let ((ps, valid), known) = (convert_oton-Returns path environment mets).at r h in
      let (p, qs, processors) = some_lem path ps valid in
      let (r', made, converted) = convert_oton_lem path environment mets p qs processors known in
      (
        p,
        qs,
        processors,
        subst (IsConverted environment mets (p ∷ qs)) (done-injective r' r (sym made ∙ h))
            converted,
      )

  -- A script that is converted has one process for each processor of the workflow, in the same
  -- order and with its arguments, and no two of them have the same name, also where a processor
  -- is called more than once.
  pub convert_oton-processes :
      (path environment : Text) (mets : Bool) (r : NextflowFileExecutable × Text)
      → convert_oton ocrd files path environment mets ≡ done r
      → (validate ocrd files path ≡ done (calls_of r.0.nf_blocks_process))
        × AreDistinct (names_of r.0.nf_blocks_process)
  convert_oton-processes path environment mets r h =
      let Q = λ (blocks : List NextflowBlockProcess).
        (validate ocrd files path ≡ done (calls_of blocks)) × AreDistinct (names_of blocks) in
      let (p, qs, processors, (blocks, _, _)) =
        convert_oton-made_blocks path environment mets r h in
      let calls = calls_of-made_blocks ocrd environment mets 0 (p ∷ qs) in
      subst Q (sym blocks)
        (processors ∙ ap done (sym calls), made_blocks-AreDistinct ocrd environment mets 0 (p ∷ qs))
