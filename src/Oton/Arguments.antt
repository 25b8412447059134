-- ===== src/Oton/Arguments.antt =====
-- src/utils/operandi_utils/oton/process_call_arguments.py
use operandi.Common.{
  Bool, true, false, not, ◌&&◌, Option, none, some, List, [], ◌∷◌, ◌++◌, if◌then◌else◌, Text, codes,
  Result, done, raise, value_error, text_eq,
}
use operandi.Oton.{
  const_dir_in, const_dir_out, const_mets_path, const_page_range, params_key_mets_socket_path,
  params_key_workspace_dir, placeholder,
}

-- The JSON description of a tool: whether it has the key `output_file_grp`, and the whole
-- description, as a text, for the validation of parameters.
pub record ToolJson : Type 0 where
  pub description : Text
  pub output_file_grp : Bool

-- The parameters of a processor: a key and the JSON text of its value.
abbrev pub Parameters : Type 0
Parameters = List (Text × Text)

-- What the package `ocrd` does for the converter, and its table of tools. A description that is
-- missing or empty is `none`.
pub record Ocrd : Type 0 where
  pub ocrd_all_json : Text → Option ToolJson
  pub json_dumps : Parameters → Text
  pub parse_json_string_or_file : Text → Result Parameters
  pub set_json_key_value_overrides : Parameters → List Text → Result Parameters
  -- whether the report of `ParameterValidator` is valid, where there is one
  pub validates : Option ToolJson → Parameters → Result Bool

pub record ProcessorCallArguments : Type 0 where
  pub executable : Text
  pub workspace_dir : Option Text
  pub mets_file_path : Option Text
  pub mets_socket_path : Option Text
  pub input_file_grps : Option Text
  pub output_file_grps : Option Text
  pub page_id : Option Text
  pub parameters : Parameters

-- The constructor, with the name alone.
unfoldable pub processor_call_arguments : Text → Result ProcessorCallArguments
processor_call_arguments [] = raise value_error
processor_call_arguments (c ∷ cs) = done (record {
  executable = codes "ocrd-" ++ (c ∷ cs);
  workspace_dir = none;
  mets_file_path = none;
  mets_socket_path = none;
  input_file_grps = none;
  output_file_grps = none;
  page_id = none;
  parameters = [];
})

-- Whether a text counts as true.
abbrev pub given : Option Text → Bool
given none = false
given (some []) = false
given (some (c ∷ cs)) = true

-- `f"{value}"`
abbrev pub shown : Option Text → Text
shown none = codes "None"
shown (some value) = value

-- `f" {flag} {value}"`, where the value counts as true.
abbrev pub option_text : Text → Option Text → Text
option_text flag value =
    if given value then codes " " ++ (flag ++ (codes " " ++ shown value)) else []

module _ (ocrd : Ocrd) where
  abbrev pub parameters_text : Parameters → Text
  parameters_text [] = []
  parameters_text (p ∷ ps) = codes " -p '" ++ (ocrd.json_dumps (p ∷ ps) ++ codes "'")

  unfoldable pub dump_bash_form : ProcessorCallArguments → Text
  dump_bash_form a =
      a.executable
      ++ (option_text (codes "-U") a.mets_socket_path
          ++ (option_text (codes "-w") a.workspace_dir
              ++ (option_text (codes "-m") a.mets_file_path
                  ++ (codes " -I "
                      ++ (shown a.input_file_grps
                          ++ (codes " -O "
                              ++ (shown a.output_file_grps
                                  ++ (option_text (codes "--page_id") a.page_id
                                      ++ parameters_text a.parameters))))))))

  -- With placeholders, and the page id.
  unfoldable pub dump_bash_form_with_phs : Bool → ProcessorCallArguments → Text
  dump_bash_form_with_phs with_mets_socket a =
      a.executable
      ++ ((if with_mets_socket then codes " -U " ++ placeholder params_key_mets_socket_path else [])
          ++ (codes " -w "
              ++ (placeholder params_key_workspace_dir
                  ++ (codes " -m "
                      ++ (placeholder const_mets_path
                          ++ (codes " --page-id "
                              ++ (placeholder const_page_range
                                  ++ (codes " -I "
                                      ++ (placeholder const_dir_in
                                          ++ (codes " -O "
                                              ++ (placeholder const_dir_out
                                                  ++ parameters_text a.parameters)))))))))))

  unfoldable pub self_validate : ProcessorCallArguments → Result (Unit {0})
  self_validate a = elim (ocrd.ocrd_all_json a.executable) [
    | none ↦ raise value_error
    | some tool ↦
        if not (given a.input_file_grps)
        then raise value_error
        else if tool.output_file_grp && not (given a.output_file_grps)
        then raise value_error
        else done tt
  ]
