-- ===== src/Server/Metadata/Pieces.antt =====
-- src/server/operandi_server/routers/workflow_utils.py: lines that are put together of pieces.
use operandi.Common.{
  Bool, ◌||◌, List, [], ◌∷◌, ◌++◌, Text, occurs, newline, joined, ◌≡◌, refl, ap, subst, ◌∙◌,
  append_assoc,
}
use operandi.Oton.{params_key_mets_socket_path}
use operandi.Server.Metadata.{Found, found_on, add_executable, add_group}
use operandi.Server.Metadata.Lines.{IsFree}
use operandi.Server.Metadata.Reads.{Reads, Reads-append, Reads-line}

-- The pieces, and the text after them.
abbrev pub joined_to : List Text → Text → Text
joined_to [] u = u
joined_to (t ∷ ts) u = t ++ joined_to ts u

pub joined_to_lem : (ts : List Text) (u : Text) → joined ts ++ u ≡ joined_to ts u
joined_to_lem [] u = refl
joined_to_lem (t ∷ ts) u = append_assoc t (joined ts) u ∙ ap (λ v. t ++ v) (joined_to_lem ts u)

-- A line of pieces, and the text after it.
pub Reads-pieces :
    (ts : List Text) (u : Text) (mets mets' : Bool) (found : Found) (steps groups : List Text)
    → IsFree newline (joined ts)
    → occurs params_key_mets_socket_path (joined_to ts (newline ∷ [])) ≡ mets
    → found_on (joined_to ts (newline ∷ [])) ≡ found
    → Reads u mets' steps groups
    → Reads
        (joined_to ts (newline ∷ u))
        (mets || mets')
        (add_executable found [] ++ steps)
        (add_group found [] ++ groups)
Reads-pieces ts u mets mets' found steps groups free m f h =
    let t = joined ts in
    let line = joined_to_lem ts (newline ∷ []) in
    let first = Reads-line t mets free (ap (occurs params_key_mets_socket_path) line ∙ m) in
    let known =
      subst (λ x. Reads (t ++ newline ∷ []) mets (add_executable x []) (add_group x []))
        (ap found_on line ∙ f) first in
    subst
      (λ x.
        Reads x (mets || mets') (add_executable found [] ++ steps) (add_group found [] ++ groups))
      (append_assoc t (newline ∷ []) u ∙ joined_to_lem ts (newline ∷ u))
      (Reads-append (t ++ newline ∷ []) u mets mets' _ steps _ groups known h)
