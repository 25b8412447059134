-- ===== src/Server/Metadata/Merge.antt =====
-- src/server/operandi_server/routers/workflow_utils.py: the metadata of a whole workflow that
-- src/utils/operandi_utils/oton writes, with its first calls and the last one.
use operandi.Common.{
  ℕ, Bool, true, false, Option, some, none, List, [], ◌∷◌, ◌++◌, Text, codes, occurs, starts_with,
  lines_of, newline, joined, nat_eq, split_at, remove_pair, if◌then◌else◌, ◌≡◌, refl, sym, ap,
  subst, ◌∙◌, append-nil,
}
use operandi.Oton.{spaces}
use operandi.Oton.Arguments.{Ocrd, ProcessorCallArguments}
use operandi.Oton.ProcessBlock.{nextflow_block_process}
use operandi.Oton.WorkflowBlock.{
  merge_call, multipliers_call, split_call, call_lines, nextflow_block_workflow,
  workflow_representation, produce_workflow_calls, workflow_calls_from,
}
use operandi.Oton.Converter.{workflow_blocks}
use operandi.Oton.Built.{made_blocks, made_split, made_merge}
use operandi.Server.Metadata.{
  nothing, found_on, found_in, metadata_of_lines, is_executable, is_quoted,
}
use operandi.Server.Metadata.Lines.{IsFree, IsFree-append, is_free, is_free-IsFree}
use operandi.Server.Metadata.Searches.{occurs-split}
use operandi.Server.Metadata.Words.{found_on-call, found_on-spaces}
use operandi.Server.Metadata.Reads.{Reads, Reads-append}
use operandi.Server.Metadata.Pieces.{Reads-pieces, joined_to}
use operandi.Server.Metadata.Blocks.{names_socket}
use operandi.Server.Metadata.Processes.{AreReadable, end-Reads}
use operandi.Server.Metadata.Calls.{
  IsTitle, found_on-skip_pieces, first_word-IsFree, not_executable, unquoted_lem,
}
use operandi.Server.Metadata.Workflows.{
  joined_to-append, joined-IsFree, calls_text, calls_text_lem, HaveGroups, outputs_of,
  first_calls-Reads,
}

abbrev merging : Text
merging = codes "merging_mets"

abbrev merge_pieces : Text → List Text
merge_pieces before =
    merging ∷ codes "(" ∷ before ∷ codes ".out[0], " ∷ before ∷ codes ".out[1])" ∷ []

last_nothing :
    (w : Text) → is_executable w ≡ false → is_quoted w ≡ false → found_in (w ∷ []) ≡ nothing
unfolding found_in
last_nothing w e q = rw (found_in, e) (rw q refl)

merge_found :
    (before : Text)
    → IsTitle before
    → found_on (spaces ++ (spaces ++ joined_to (merge_pieces before) (newline ∷ []))) ≡ nothing
unfolding nat_eq starts_with
merge_found before b =
    let (line, space, _, dash) = b.free in
    let word = before ++ codes ".out[1]" in
    let word_free = λ (c : ℕ) (k : IsFree c before) (l : is_free c (codes ".out[1]") ≡ true).
      IsFree-append c before (codes ".out[1]") k (is_free-IsFree c (codes ".out[1]") l) in
    let rest = before ++ (codes ".out[1])" ++ newline ∷ []) in
    let first = joined_to (merging ∷ codes "(" ∷ before ∷ codes ".out[0]," ∷ []) (b' ' ∷ rest) in
    let free = λ (c : ℕ) (l : is_free c merging ≡ true). is_free-IsFree c merging l in
    found_on-spaces (spaces ++ first)
    ∙ found_on-spaces first
    ∙ found_on-skip_pieces (merging ∷ codes "(" ∷ before ∷ codes ".out[0]," ∷ []) rest
        (first_word-IsFree newline merging before (free newline refl) line refl refl)
        (first_word-IsFree b' ' merging before (free b' ' refl) space refl refl)
        (not_executable _ (first_word-IsFree b'-' merging before (free b'-' refl) dash refl refl))
        (unquoted_lem _ refl)
    ∙ ap found_on
        (sym (joined_to-append (before ∷ codes ".out[1]" ∷ []) [] (codes ")" ++ newline ∷ [])))
    ∙ found_on-call word (word_free newline line refl) (word_free b' ' space refl)
    ∙ last_nothing word (not_executable word (word_free b'-' dash refl))
        (unquoted_lem word (b.unquoted (codes ".out[1]")))

merge_names_nothing :
    (before : Text)
    → IsTitle before
    → names_socket (spaces ++ (spaces ++ joined_to (merge_pieces before) (newline ∷ []))) ≡ false
unfolding occurs starts_with nat_eq
merge_names_nothing before b =
    let (_, _, dot, _) = b.free in
    let second = before ++ (codes ".out[1])" ++ newline ∷ []) in
    occurs-split (codes "params") (codes "mets_socket_path") before (codes "out[0], " ++ second)
      b'.' (is_free-IsFree b'.' (codes "params") refl) dot refl
    ∙ occurs-split (codes "params") (codes "mets_socket_path") before
        (codes "out[1])" ++ newline ∷ []) b'.' (is_free-IsFree b'.' (codes "params") refl) dot refl

merge-Reads :
    (before : Text)
    → IsTitle before
    → Reads (calls_text (merge_call merging (some before) ∷ [])) false [] []
unfolding nat_eq occurs
merge-Reads before b =
    let lit = λ (l : Text) (p : is_free newline l ≡ true). is_free-IsFree newline l p in
    subst (λ t. Reads t false [] [])
      (sym (
        calls_text_lem (merge_call merging (some before)) []
        ∙ ap (λ t. spaces ++ (spaces ++ t))
            (joined_to-append (merge_pieces before) (newline ∷ []) (codes "}\n"))))
      (Reads-pieces (spaces ∷ spaces ∷ merge_pieces before) (codes "}\n") false false nothing [] []
        (joined-IsFree newline (spaces ∷ spaces ∷ merge_pieces before) (
          lit spaces refl,
          (
            lit spaces refl,
            (
              lit merging refl,
              (
                lit (codes "(") refl,
                (
                  b.free.0,
                  (lit (codes ".out[0], ") refl, (b.free.0, (lit (codes ".out[1])") refl, tt))),
                ),
              ),
            ),
          ),
        ))
        (merge_names_nothing before b) (merge_found before b) end-Reads)

split-IsTitle : IsTitle (codes "split_page_ranges")
unfolding nat_eq starts_with
split-IsTitle = record {
  free = (
    is_free-IsFree newline (codes "split_page_ranges") refl,
    is_free-IsFree b' ' (codes "split_page_ranges") refl,
    is_free-IsFree b'.' (codes "split_page_ranges") refl,
    is_free-IsFree b'-' (codes "split_page_ranges") refl,
  );
  unquoted = λ s. refl;
}

-- The lines before the calls of the processes.
abbrev workflow_start : Text
workflow_start = joined (
    codes "workflow {\n"
    ∷ spaces
    ∷ codes "main:\n"
    ∷ spaces
    ∷ spaces
    ∷ multipliers_call
    ∷ spaces
    ∷ spaces
    ∷ split_call (codes "split_page_ranges")
    ∷ [])

workflow_start-Reads : Reads workflow_start false [] []
unfolding metadata_of_lines lines_of found_on found_in is_executable is_quoted occurs starts_with
    nat_eq split_at remove_pair
workflow_start-Reads = record { at = λ rest. refl }

-- What follows the calls of the processes.
abbrev last_calls : Bool → Option Text → List Text
last_calls mets before = if mets then [] else merge_call merging before ∷ []

last_calls-Reads :
    (mets : Bool) (before : Text)
    → IsTitle before
    → Reads (calls_text (last_calls mets (some before))) false [] []
last_calls-Reads true before b = end-Reads
last_calls-Reads false before b = merge-Reads before b

-- The workflow adds the output groups of the processors, in their order.
pub workflow-Reads :
    (ocrd : Ocrd) (environment : Text) (mets : Bool) (p : ProcessorCallArguments)
    (ps : List ProcessorCallArguments)
    → AreReadable ocrd (p ∷ ps)
    → HaveGroups (p ∷ ps)
    → Reads
        (workflow_blocks (
          nextflow_block_workflow
            (codes "main")
            (made_blocks ocrd environment mets 0 (p ∷ ps))
            (made_split ocrd environment mets)
            (made_merge ocrd environment mets)
            mets
          ∷ []))
        false
        []
        (outputs_of (p ∷ ps))
unfolding workflow_representation nextflow_block_workflow produce_workflow_calls
    nextflow_block_process
workflow-Reads ocrd environment mets p ps readable groups =
    let split_name = codes "split_page_ranges" in
    let calls =
      workflow_calls_from split_name none (made_blocks ocrd environment mets 0 (p ∷ ps)) in
    let all = calls.0 ++ last_calls mets calls.1 in
    let lines = call_lines all in
    subst (λ t. Reads t false [] (outputs_of (p ∷ ps)))
      (ap (λ t. workflow_start ++ (t ++ codes "\n"))
        (sym (append-nil lines)
          ∙ sym (append-nil (lines ++ []))
          ∙ sym (append-nil ((lines ++ []) ++ []))))
      (Reads-append workflow_start (calls_text all) false false [] [] [] (outputs_of (p ∷ ps))
        workflow_start-Reads
        (first_calls-Reads ocrd environment mets split_name (last_calls mets)
          (last_calls-Reads mets) p ps split-IsTitle readable groups))
