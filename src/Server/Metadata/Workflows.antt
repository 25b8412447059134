-- ===== src/Server/Metadata/Workflows.antt =====
-- src/server/operandi_server/routers/workflow_utils.py: the metadata of the workflow that
-- src/utils/operandi_utils/oton writes.
use operandi.Common.{
  ℕ, Bool, true, false, Option, some, none, List, [], ◌∷◌, ◌++◌, ◌+◌, Text, codes, occurs,
  starts_with, newline, joined, nat_eq, replace_char, ◌≡◌, refl, sym, ap, subst, ◌∙◌, append_assoc,
  append-nil,
}
use operandi.Oton.{spaces, params_key_input_file_grp}
use operandi.Oton.Arguments.{Ocrd, ProcessorCallArguments, shown}
use operandi.Oton.ProcessBlock.{nextflow_block_process, process_name}
use operandi.Oton.WorkflowBlock.{call_lines, in_quotes, workflow_call, workflow_calls_from}
use operandi.Oton.Built.{made_blocks}
use operandi.Server.Metadata.{file_group, found_on, is_executable, is_quoted}
use operandi.Server.Metadata.Lines.{IsFree, IsFree-append, is_free, is_free-IsFree}
use operandi.Server.Metadata.Reads.{Reads}
use operandi.Server.Metadata.Pieces.{Reads-pieces, joined_to}
use operandi.Server.Metadata.Blocks.{
  IsReadable, names_socket, process_name-IsTame, process_name-no_dash,
}
use operandi.Server.Metadata.Words.{found_on-skip}
use operandi.Server.Metadata.Processes.{AreReadable}
use operandi.Server.Metadata.Calls.{
  IsTitle, IsGroups, outputs_found, inputs_found, group_found, groups_end, group_names_nothing,
  inputs_name_nothing, outputs_name_nothing,
}

pub joined_to-append : (ts : List Text) (u v : Text) → joined_to ts u ++ v ≡ joined_to ts (u ++ v)
joined_to-append [] u v = refl
joined_to-append (t ∷ ts) u v =
    append_assoc t (joined_to ts u) v ∙ ap (λ w. t ++ w) (joined_to-append ts u v)

abbrev AllFree : ℕ → List Text → Type 0
AllFree c [] = Unit {0}
AllFree c (t ∷ ts) = IsFree c t × AllFree c ts

pub joined-IsFree : (c : ℕ) (ts : List Text) → AllFree c ts → IsFree c (joined ts)
joined-IsFree c [] h = tt
joined-IsFree c (t ∷ ts) (h, hs) = IsFree-append c t (joined ts) h (joined-IsFree c ts hs)

-- How a call names its input groups: it is passed over.
record IsInput (inputs : Text) : Type 0 where
  free : IsFree newline inputs
  found : (rest : Text) → found_on (inputs ++ (codes "," ++ b' ' ∷ rest)) ≡ found_on rest
  named : (rest : Text) → names_socket (inputs ++ (codes "," ++ b' ' ∷ rest)) ≡ names_socket rest

first-IsInput : IsInput params_key_input_file_grp
unfolding nat_eq is_executable is_quoted occurs starts_with
first-IsInput = record {
  free = is_free-IsFree newline params_key_input_file_grp refl;
  found = λ rest.
      found_on-skip (codes "params.input_file_group,") rest
        (is_free-IsFree newline (codes "params.input_file_group,") refl)
        (is_free-IsFree b' ' (codes "params.input_file_group,") refl) refl refl;
  named = λ rest. refl;
}

in_quotes-IsInput : (g : Text) → IsGroups g → IsInput (in_quotes g)
unfolding nat_eq
in_quotes-IsInput g h = record {
  free =
      IsFree-append newline (codes "\"") (g ++ codes "\"")
        (is_free-IsFree newline (codes "\"") refl)
        (IsFree-append newline g (codes "\"") h.0 (is_free-IsFree newline (codes "\"") refl));
  found = λ rest. inputs_found g rest h;
  named = λ rest. inputs_name_nothing g rest h;
}

-- The pieces of a call, without the spaces before it and the end of the line.
abbrev call_pieces : Text → Text → Text → Text → List Text
call_pieces title before inputs outs =
    title
    ∷ codes "("
    ∷ before
    ∷ codes ".out[0], "
    ∷ before
    ∷ codes ".out[1], "
    ∷ inputs
    ∷ codes ", \""
    ∷ outs
    ∷ codes "\")"
    ∷ []

-- A call adds its output groups.
call-Reads :
    (title before inputs outs u : Text) (groups : List Text)
    → IsTitle title
    → IsTitle before
    → IsInput inputs
    → IsGroups outs
    → Reads u false [] groups
    → Reads
        (spaces
          ++ (spaces ++ (joined_to (call_pieces title before inputs outs) (newline ∷ []) ++ u)))
        false
        []
        (outs ∷ groups)
unfolding nat_eq occurs
call-Reads title before inputs outs u groups t b i o h =
    let text = λ (v : Text). Reads (spaces ++ (spaces ++ v)) false [] (outs ∷ groups) in
    let tail = inputs ++ (codes ", " ++ groups_end outs) in
    let lit = λ (l : Text) (p : is_free newline l ≡ true). is_free-IsFree newline l p in
    subst text (sym (joined_to-append (call_pieces title before inputs outs) (newline ∷ []) u)) (
      Reads-pieces (spaces ∷ spaces ∷ call_pieces title before inputs outs) u false false
        (file_group outs) [] groups
        (joined-IsFree newline (spaces ∷ spaces ∷ call_pieces title before inputs outs) (
          lit spaces refl,
          (
            lit spaces refl,
            (
              t.free.0,
              (
                lit (codes "(") refl,
                (
                  b.free.0,
                  (
                    lit (codes ".out[0], ") refl,
                    (
                      b.free.0,
                      (
                        lit (codes ".out[1], ") refl,
                        (i.free, (lit (codes ", \"") refl, (o.0, (lit (codes "\")") refl, tt)))),
                      ),
                    ),
                  ),
                ),
              ),
            ),
          ),
        ))
        (outputs_name_nothing title before tail t b
          ∙ i.named (groups_end outs)
          ∙ group_names_nothing outs o)
        (outputs_found title before tail t b ∙ i.found (groups_end outs) ∙ group_found outs o) h)

-- A process of a call that can be read back has a title.
process_name-IsTitle :
    (ocrd : Ocrd) (name : Text) (p : ProcessorCallArguments) (i : ℕ)
    → IsReadable ocrd name p
    → IsTitle (process_name p.executable i)
unfolding process_name replace_char starts_with nat_eq
process_name-IsTitle ocrd name p i readable =
    let (line, space, dot) = process_name-IsTame name i readable.1 in
    subst (λ exe. IsTitle (process_name exe i)) (sym readable.0)
      (record { free = (line, space, dot, process_name-no_dash name i); unquoted = λ s. refl })

-- The file groups of each call can stand in a script.
abbrev pub HaveGroups : List ProcessorCallArguments → Type 0
HaveGroups [] = Unit {0}
HaveGroups (p ∷ ps) =
    (IsGroups (shown p.input_file_grps) × IsGroups (shown p.output_file_grps)) × HaveGroups ps

-- The output groups of the processors.
abbrev pub outputs_of : List ProcessorCallArguments → List Text
outputs_of [] = []
outputs_of (p ∷ ps) = shown p.output_file_grps ∷ outputs_of ps

-- The calls, to the end of the workflow.
abbrev pub calls_text : List Text → Text
calls_text calls = call_lines calls ++ codes "\n"

pub calls_text_lem :
    (call : Text) (calls : List Text)
    → calls_text (call ∷ calls) ≡ spaces ++ (spaces ++ (call ++ calls_text calls))
calls_text_lem call calls =
    ap (λ t. spaces ++ (spaces ++ t))
      (append_assoc call (call_lines calls ++ []) (codes "\n")
        ∙ ap (λ t. call ++ (t ++ codes "\n")) (append-nil (call_lines calls)))

-- The calls of the processes add the output groups, in their order, where what comes after the last
-- process adds nothing.
module _ (ocrd : Ocrd) (environment : Text) (mets : Bool) (split_name : Text)
    (last : Option Text → List Text)
    (h : (t : Text) → IsTitle t → Reads (calls_text (last (some t))) false [] []) where
  calls-Reads :
      (i : ℕ) (ps : List ProcessorCallArguments) (before : Text)
      → IsTitle before
      → AreReadable ocrd ps
      → HaveGroups ps
      → Reads
          (calls_text (
            (workflow_calls_from split_name
              (some before)
              (made_blocks ocrd environment mets i ps)).0
            ++ last
                (workflow_calls_from split_name
                  (some before)
                  (made_blocks ocrd environment mets i ps)).1))
          false
          []
          (outputs_of ps)
  unfolding workflow_calls_from made_blocks workflow_call nextflow_block_process
  calls-Reads i [] before b readable groups = h before b
  calls-Reads i (p ∷ ps) before b ((name, r), readable) ((ins, outs), groups) =
      let title = process_name p.executable i in
      let t = process_name-IsTitle ocrd name p i r in
      subst (λ x. Reads x false [] (outputs_of (p ∷ ps))) (sym (calls_text_lem _ _))
        (call-Reads title before (in_quotes (shown p.input_file_grps)) (shown p.output_file_grps) _
          (outputs_of ps) t b (in_quotes-IsInput (shown p.input_file_grps) ins) outs
          (calls-Reads (i + 1) ps title t readable groups))

  pub first_calls-Reads :
      (p : ProcessorCallArguments) (ps : List ProcessorCallArguments)
      → IsTitle split_name
      → AreReadable ocrd (p ∷ ps)
      → HaveGroups (p ∷ ps)
      → Reads
          (calls_text (
            (workflow_calls_from split_name none (made_blocks ocrd environment mets 0 (p ∷ ps))).0
            ++ last
                (workflow_calls_from split_name none
                  (made_blocks ocrd environment mets 0 (p ∷ ps))).1))
          false
          []
          (outputs_of (p ∷ ps))
  unfolding workflow_calls_from made_blocks workflow_call nextflow_block_process
  first_calls-Reads p ps b ((name, r), readable) ((ins, outs), groups) =
      let title = process_name p.executable 0 in
      let t = process_name-IsTitle ocrd name p 0 r in
      subst (λ x. Reads x false [] (outputs_of (p ∷ ps))) (sym (calls_text_lem _ _))
        (call-Reads title split_name params_key_input_file_grp (shown p.output_file_grps) _
          (outputs_of ps) t b first-IsInput outs (calls-Reads 1 ps title t readable groups))
