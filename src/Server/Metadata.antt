-- ===== src/Server/Metadata.antt =====
-- src/server/operandi_server/routers/workflow_utils.py: what the server reads from a script.
pub mod Lines
pub mod Searches
pub mod Reads
pub mod Words
pub mod Pieces
pub mod Blocks
pub mod Processes
pub mod Calls
pub mod Workflows
pub mod Merge
pub mod Converted
use operandi.Common.{
  Bool, true, false, ◌&&◌, ◌||◌, Option, none, some, List, [], ◌∷◌, Text, codes, Result, done,
  raise, Exc, lines_of, remove_pair, split_at, occurs, starts_with, ends_with, but_first, but_last,
  newline,
}
use operandi.Oton.{params_key_mets_socket_path}

pub record Metadata : Type 0 where
  pub uses_mets_server : Bool
  pub executable_steps : List Text
  pub producible_file_groups : List Text

-- What the words of a line give: the first one that counts ends the search.
pub data Found : Type 0 where
  nothing : Found
  executable : Text → Found
  file_group : Text → Found

unfoldable pub is_executable : Text → Bool
unfolding occurs
is_executable word = occurs (codes "ocrd-") word

unfoldable pub is_quoted : Text → Bool
unfolding starts_with ends_with
is_quoted word = starts_with (codes "\"") word && ends_with (codes "\"") word

unfoldable pub found_in : List Text → Found
unfolding is_executable is_quoted
found_in [] = nothing
found_in (word ∷ words) = elim (is_executable word) [
  | true ↦ executable word
  | false ↦ elim (is_quoted word) [
    | true ↦ file_group (but_last (but_first word))
    | false ↦ found_in words
  ]
]

unfoldable pub found_on : Text → Found
unfolding found_in remove_pair split_at
found_on line = found_in (split_at b' ' (remove_pair b')' newline line))

abbrev pub add_executable : Found → List Text → List Text
add_executable (executable word) words = word ∷ words
add_executable (file_group word) words = words
add_executable nothing words = words

abbrev pub add_group : Found → List Text → List Text
add_group (executable word) words = words
add_group (file_group word) words = word ∷ words
add_group nothing words = words

-- `while line`
unfoldable pub metadata_of_lines : List Text → Metadata
unfolding found_on occurs
metadata_of_lines [] = record {
  uses_mets_server = false;
  executable_steps = [];
  producible_file_groups = [];
}
metadata_of_lines (line ∷ lines) =
    let rest = metadata_of_lines lines in
    record {
      uses_mets_server = occurs params_key_mets_socket_path line || rest.uses_mets_server;
      executable_steps = add_executable (found_on line) rest.executable_steps;
      producible_file_groups = add_group (found_on line) rest.producible_file_groups;
    }

-- The content of the script, where the file can be read.
unfoldable pub nf_script_extract_metadata_with_handling : Option Text → Result Metadata
unfolding metadata_of_lines lines_of
nf_script_extract_metadata_with_handling none = raise (Exc.http_exception 422)
nf_script_extract_metadata_with_handling (some content) =
    done (metadata_of_lines (lines_of content))
