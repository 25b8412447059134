-- ===== src/Server/Metadata/Converted.antt =====
-- src/server/operandi_server/routers/workflow_utils.py: the metadata of a script that
-- src/utils/operandi_utils/oton wrote.
use operandi.Common.{Bool, false, List, [], ◌∷◌, ◌++◌, Text, done, ◌≡◌, sym, ap, subst, ◌∙◌}
use operandi.Oton.Arguments.{Ocrd, ProcessorCallArguments}
use operandi.Oton.Validator.{Files, validate}
use operandi.Oton.Parameters.{NextflowFileExecutable}
use operandi.Oton.Converter.{convert_oton, process_blocks, workflow_blocks}
use operandi.Server.Metadata.Workflows.{HaveGroups, outputs_of}
use operandi.Server.Metadata.Merge.{workflow-Reads}
use operandi.Oton.Converted.{convert_oton-made_blocks, done-injective}
use operandi.Server.Metadata.Reads.{metadata_of, with_rest}
use operandi.Server.Metadata.Processes.{AreReadable, executables_of, some_socket_lem, blocks-Reads}

-- The server reads the text of the processes that the converter writes as follows, where each
-- call can be read back (its program is "ocrd-" and a name without a line's end, a space or a dot;
-- its parameters stand on one line and do not name the METS socket): to the steps that it finds in
-- the text behind them, they add the programs of the workflow's processors, one for each, in their
-- order; they add no file group; and they use the METS server exactly when the conversion was
-- asked to.
pub converted_processes :
    (ocrd : Ocrd) (files : Files) (path environment : Text) (mets : Bool)
    (r : NextflowFileExecutable × Text) (ps : List ProcessorCallArguments) (rest : Text)
    → convert_oton ocrd files path environment mets ≡ done r
    → validate ocrd files path ≡ done ps
    → AreReadable ocrd ps
    → metadata_of (process_blocks r.0.nf_blocks_process ++ rest)
      ≡ with_rest mets (executables_of ps) [] (metadata_of rest)
converted_processes ocrd files path environment mets r ps rest h valid readable =
    let (p, qs, processors, (blocks, _, _)) =
      convert_oton-made_blocks ocrd files path environment mets r h in
    let same = done-injective ps (p ∷ qs) (sym valid ∙ processors) in
    let readable' = subst (AreReadable ocrd) same readable in
    let Q = λ (xs : List ProcessorCallArguments).
      metadata_of (process_blocks r.0.nf_blocks_process ++ rest)
      ≡ with_rest mets (executables_of xs) [] (metadata_of rest) in
    subst Q (sym same) (
      ap (λ bs. metadata_of (process_blocks bs ++ rest)) blocks
      ∙ (blocks-Reads ocrd environment mets 0 (p ∷ qs) readable').at rest
      ∙ ap (λ m. with_rest m (executables_of (p ∷ qs)) [] (metadata_of rest))
          (some_socket_lem mets p qs))

-- The server reads the text of the workflow that the converter writes as follows, where moreover
-- the groups of each call have no line's end, space, dot or "ocrd-": to the file groups that it
-- finds in the text behind the workflow, it adds the output groups of the workflow's processors,
-- one text for each, in their order; it adds no step and does not use the METS server.
pub converted_workflow :
    (ocrd : Ocrd) (files : Files) (path environment : Text) (mets : Bool)
    (r : NextflowFileExecutable × Text) (ps : List ProcessorCallArguments) (rest : Text)
    → convert_oton ocrd files path environment mets ≡ done r
    → validate ocrd files path ≡ done ps
    → AreReadable ocrd ps
    → HaveGroups ps
    → metadata_of (workflow_blocks r.0.nf_blocks_workflow ++ rest)
      ≡ with_rest false [] (outputs_of ps) (metadata_of rest)
converted_workflow ocrd files path environment mets r ps rest h valid readable groups =
    let (p, qs, processors, (_, flows, _)) =
      convert_oton-made_blocks ocrd files path environment mets r h in
    let same = done-injective ps (p ∷ qs) (sym valid ∙ processors) in
    let Q = λ (xs : List ProcessorCallArguments).
      metadata_of (workflow_blocks r.0.nf_blocks_workflow ++ rest)
      ≡ with_rest false [] (outputs_of xs) (metadata_of rest) in
    subst Q (sym same) (
      ap (λ bs. metadata_of (workflow_blocks bs ++ rest)) flows
      ∙ (workflow-Reads ocrd environment mets p qs (subst (AreReadable ocrd) same readable)
            (subst HaveGroups same groups)).at
          rest)
