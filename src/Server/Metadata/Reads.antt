-- ===== src/Server/Metadata/Reads.antt =====
-- src/server/operandi_server/routers/workflow_utils.py: what a part of a script adds to the
-- metadata.
use operandi.Common.{
  Bool, true, false, ◌||◌, List, [], ◌∷◌, ◌++◌, Text, lines_of, occurs, newline, ◌≡◌, refl, ap, ◌∙◌,
  append_assoc,
}
use operandi.Oton.{params_key_mets_socket_path}
use operandi.Server.Metadata.{
  Metadata, Found, nothing, executable, file_group, found_on, metadata_of_lines, add_executable,
  add_group,
}
use operandi.Server.Metadata.Lines.{IsFree, lines_from-free}

abbrev pub metadata_of : Text → Metadata
metadata_of text = metadata_of_lines (lines_of text)

-- The metadata of a part, and those of what follows it.
abbrev pub with_rest : Bool → List Text → List Text → Metadata → Metadata
with_rest mets steps groups m = record {
  uses_mets_server = mets || m.uses_mets_server;
  executable_steps = steps ++ m.executable_steps;
  producible_file_groups = groups ++ m.producible_file_groups;
}

-- The text is whole lines, which give these metadata.
pub record Reads (text : Text) (mets : Bool) (steps : List Text) (groups : List Text) : Type 0 where
  pub at :
      (rest : Text) → metadata_of (text ++ rest) ≡ with_rest mets steps groups (metadata_of rest)

with_rest-with_rest :
    (mets mets' : Bool) (steps steps' groups groups' : List Text) (m : Metadata)
    → with_rest mets steps groups (with_rest mets' steps' groups' m)
      ≡ with_rest (mets || mets') (steps ++ steps') (groups ++ groups') m
with_rest-with_rest true mets' steps steps' groups groups' m =
    rw
      (
        append_assoc steps steps' m.executable_steps,
        append_assoc groups groups' m.producible_file_groups,
      )
      refl
with_rest-with_rest false mets' steps steps' groups groups' m =
    rw
      (
        append_assoc steps steps' m.executable_steps,
        append_assoc groups groups' m.producible_file_groups,
      )
      refl

add_found :
    (found : Found) (mets : Bool) (m : Metadata)
    → (record {
      uses_mets_server = mets || m.uses_mets_server;
      executable_steps = add_executable found m.executable_steps;
      producible_file_groups = add_group found m.producible_file_groups;
    })
      ≡ with_rest mets (add_executable found []) (add_group found []) m
add_found nothing mets m = refl
add_found (executable word) mets m = refl
add_found (file_group word) mets m = refl

pub Reads-append :
    (t u : Text) (mets mets' : Bool) (steps steps' groups groups' : List Text)
    → Reads t mets steps groups
    → Reads u mets' steps' groups'
    → Reads (t ++ u) (mets || mets') (steps ++ steps') (groups ++ groups')
Reads-append t u mets mets' steps steps' groups groups' h k = record {
  at = λ rest.
      ap metadata_of (append_assoc t u rest)
      ∙ h.at (u ++ rest)
      ∙ ap (with_rest mets steps groups) (k.at rest)
      ∙ with_rest-with_rest mets mets' steps steps' groups groups' (metadata_of rest);
}

-- One line.
pub Reads-line :
    (t : Text) (mets : Bool)
    → IsFree newline t
    → occurs params_key_mets_socket_path (t ++ newline ∷ []) ≡ mets
    → Reads
        (t ++ newline ∷ [])
        mets
        (add_executable (found_on (t ++ newline ∷ [])) [])
        (add_group (found_on (t ++ newline ∷ [])) [])
unfolding metadata_of_lines lines_of
Reads-line t mets h m = record {
  at = λ rest.
      ap metadata_of (append_assoc t (newline ∷ []) rest)
      ∙ ap metadata_of_lines (lines_from-free [] t rest h)
      ∙ rw m (add_found (found_on (t ++ newline ∷ [])) mets (metadata_of rest));
}
