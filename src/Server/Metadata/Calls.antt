-- ===== src/Server/Metadata/Calls.antt =====
-- src/server/operandi_server/routers/workflow_utils.py: the words of a call in the workflow of a
-- script.
use operandi.Common.{
  ℕ, true, false, ◌||◌, List, [], ◌∷◌, ◌++◌, Text, codes, occurs, starts_with, ends_with, newline,
  joined, nat_eq, but_last, ◌≡◌, refl, sym, ap, ◌∙◌, append_assoc,
}
use mathlib.Core.List.{reverse, reverse-append}
use operandi.Oton.{spaces, params_key_mets_socket_path}
use operandi.Oton.WorkflowBlock.{in_quotes}
use operandi.Server.Metadata.{file_group, found_on, found_in, is_executable, is_quoted}
use operandi.Server.Metadata.Lines.{IsFree, IsFree-append, is_free, is_free-IsFree}
use operandi.Server.Metadata.Searches.{occurs-apart, occurs-missing, occurs-split}
use operandi.Server.Metadata.Words.{found_on-skip, found_on-spaces, found_on-call}
use operandi.Server.Metadata.Pieces.{joined_to, joined_to_lem}
use operandi.Server.Metadata.Blocks.{names_socket}

-- Words of pieces, before a space.
pub found_on-skip_pieces :
    (ts : List Text) (s : Text)
    → IsFree newline (joined ts)
    → IsFree b' ' (joined ts)
    → is_executable (joined ts) ≡ false
    → is_quoted (joined ts) ≡ false
    → found_on (joined_to ts (b' ' ∷ s)) ≡ found_on s
found_on-skip_pieces ts s h k e q =
    ap found_on (sym (joined_to_lem ts (b' ' ∷ s))) ∙ found_on-skip (joined ts) s h k e q

-- The name of a process: no dash, and no quote at its start.
pub record IsTitle (title : Text) : Type 0 where
  pub free : IsFree newline title × IsFree b' ' title × IsFree b'.' title × IsFree b'-' title
  pub unquoted : (s : Text) → starts_with (codes "\"") (title ++ s) ≡ false

-- File groups that can stand in a script.
abbrev pub IsGroups : Text → Type 0
IsGroups g = IsFree newline g × IsFree b' ' g × IsFree b'.' g × (is_executable g ≡ false)

pub not_executable : (w : Text) → IsFree b'-' w → is_executable w ≡ false
unfolding is_executable
not_executable w h = occurs-missing (codes "ocrd") [] w b'-' h

module _ (c : ℕ) (title before : Text) (ht : IsFree c title) (hb : IsFree c before) where
  pub first_word-IsFree :
      is_free c (codes "(") ≡ true
      → is_free c (codes ".out[0],") ≡ true
      → IsFree c (joined (title ∷ codes "(" ∷ before ∷ codes ".out[0]," ∷ []))
  first_word-IsFree h k = IsFree-append c title (codes "(" ++ (before ++ codes ".out[0],")) ht (
      IsFree-append c (codes "(") (before ++ codes ".out[0],") (is_free-IsFree c (codes "(") h)
        (IsFree-append c before (codes ".out[0],") hb (is_free-IsFree c (codes ".out[0],") k)))

  second_word-IsFree :
      is_free c (codes ".out[1],") ≡ true → IsFree c (joined (before ∷ codes ".out[1]," ∷ []))
  second_word-IsFree k =
      IsFree-append c before (codes ".out[1],") hb (is_free-IsFree c (codes ".out[1],") k)

pub unquoted_lem : (w : Text) → starts_with (codes "\"") w ≡ false → is_quoted w ≡ false
unfolding is_quoted
unquoted_lem w h = rw h refl

-- The outputs of an earlier process are passed over.
pub outputs_found :
    (title before rest : Text)
    → IsTitle title
    → IsTitle before
    → found_on (
        joined_to
          (spaces
            ∷ spaces
            ∷ title
            ∷ codes "("
            ∷ before
            ∷ codes ".out[0], "
            ∷ before
            ∷ codes ".out[1], "
            ∷ [])
          rest)
      ≡ found_on rest
unfolding nat_eq
outputs_found title before rest t b =
    let (tl, ts, _, td) = t.free in
    let (bl, bs, _, bd) = b.free in
    let second = joined_to (before ∷ codes ".out[1]," ∷ []) (b' ' ∷ rest) in
    let first = joined_to (title ∷ codes "(" ∷ before ∷ codes ".out[0]," ∷ []) (b' ' ∷ second) in
    found_on-spaces (spaces ++ first)
    ∙ found_on-spaces first
    ∙ found_on-skip_pieces (title ∷ codes "(" ∷ before ∷ codes ".out[0]," ∷ []) second
        (first_word-IsFree newline title before tl bl refl refl)
        (first_word-IsFree b' ' title before ts bs refl refl)
        (not_executable _ (first_word-IsFree b'-' title before td bd refl refl))
        (unquoted_lem _ (t.unquoted _))
    ∙ found_on-skip_pieces (before ∷ codes ".out[1]," ∷ []) rest
        (second_word-IsFree newline title before tl bl refl)
        (second_word-IsFree b' ' title before ts bs refl)
        (not_executable _ (second_word-IsFree b'-' title before td bd refl))
        (unquoted_lem _ (b.unquoted _))

reverse-end : (s : Text) (c : ℕ) → reverse (s ++ c ∷ []) ≡ c ∷ reverse s
reverse-end s c = reverse-append s (c ∷ [])

but_last-end : (s : Text) (c : ℕ) → but_last (s ++ c ∷ []) ≡ s
but_last-end [] c = refl
but_last-end (x ∷ []) c = refl
but_last-end (x ∷ y ∷ s) c = ap (λ t. x ∷ t) (but_last-end (y ∷ s) c)

quoted_executable :
    (g s : Text)
    → is_executable g ≡ false
    → is_executable s ≡ false
    → is_executable (codes "\"" ++ (g ++ b'"' ∷ s)) ≡ false
unfolding is_executable occurs nat_eq
quoted_executable g s h k =
    occurs-apart (codes "ocrd-") g s b'"' (is_free-IsFree b'"' (codes "ocrd-") refl) ∙ rw h k

is_quoted-in_quotes : (g : Text) → is_quoted (in_quotes g) ≡ true
unfolding is_quoted ends_with starts_with nat_eq
is_quoted-in_quotes g = ap (λ t. starts_with (codes "\"") t) (reverse-end (b'"' ∷ g) b'"')

in_quotes-IsFree :
    (c : ℕ) (g : Text) → is_free c (codes "\"") ≡ true → IsFree c g → IsFree c (in_quotes g)
in_quotes-IsFree c g q h =
    IsFree-append c (codes "\"") (g ++ codes "\"") (is_free-IsFree c (codes "\"") q)
      (IsFree-append c g (codes "\"") h (is_free-IsFree c (codes "\"") q))

found_in-in_quotes :
    (g : Text) → is_executable g ≡ false → found_in (in_quotes g ∷ []) ≡ file_group g
unfolding found_in
found_in-in_quotes g plain =
    rw (found_in, quoted_executable g [] plain refl)
      (rw (is_quoted-in_quotes g) (ap file_group (but_last-end g b'"')))

-- The last word of a call is its output groups.
pub group_found :
    (g : Text)
    → IsGroups g
    → found_on (codes "\"" ++ (g ++ (codes "\")" ++ newline ∷ []))) ≡ file_group g
unfolding nat_eq
group_found g (line, space, _, plain) =
    ap (λ t. found_on (b'"' ∷ t)) (sym (append_assoc g (codes "\"") (codes ")" ++ newline ∷ [])))
    ∙ found_on-call (in_quotes g) (in_quotes-IsFree newline g refl line)
        (in_quotes-IsFree b' ' g refl space)
    ∙ found_in-in_quotes g plain

-- Words in quotes with a comma behind them are passed over.
pub inputs_found :
    (g rest : Text)
    → IsGroups g
    → found_on (in_quotes g ++ (codes "," ++ b' ' ∷ rest)) ≡ found_on rest
unfolding nat_eq is_executable is_quoted ends_with occurs starts_with
inputs_found g rest (line, space, _, plain) =
    found_on-skip_pieces (in_quotes g ∷ codes "," ∷ []) rest
      (IsFree-append newline (in_quotes g) (codes ",") (in_quotes-IsFree newline g refl line)
        (is_free-IsFree newline (codes ",") refl))
      (IsFree-append b' ' (in_quotes g) (codes ",") (in_quotes-IsFree b' ' g refl space)
        (is_free-IsFree b' ' (codes ",") refl))
      (ap (λ t. is_executable (b'"' ∷ t)) (append_assoc g (codes "\"") (codes ","))
        ∙ quoted_executable g (codes ",") plain refl)
      (ap (λ t. starts_with (codes "\"") t) (reverse-end (in_quotes g) b','))

-- What a call's last part is.
abbrev pub groups_end : Text → Text
groups_end g = codes "\"" ++ (g ++ (codes "\")" ++ newline ∷ []))

pub group_names_nothing : (g : Text) → IsGroups g → names_socket (groups_end g) ≡ false
unfolding occurs nat_eq
group_names_nothing g (_, _, dot, _) =
    occurs-apart params_key_mets_socket_path g (codes ")" ++ newline ∷ []) b'"'
      (is_free-IsFree b'"' params_key_mets_socket_path refl)
    ∙ ap (λ b. b || false) (occurs-missing (codes "params") (codes "mets_socket_path") g b'.' dot)

pub inputs_name_nothing :
    (g rest : Text)
    → IsGroups g
    → names_socket (in_quotes g ++ (codes "," ++ b' ' ∷ rest)) ≡ names_socket rest
unfolding occurs nat_eq
inputs_name_nothing g rest (_, _, dot, _) =
    ap (λ t. names_socket (b'"' ∷ t)) (append_assoc g (codes "\"") (codes "," ++ b' ' ∷ rest))
    ∙ occurs-apart params_key_mets_socket_path g (codes "," ++ b' ' ∷ rest) b'"'
        (is_free-IsFree b'"' params_key_mets_socket_path refl)
    ∙ ap (λ b. b || names_socket rest)
        (occurs-missing (codes "params") (codes "mets_socket_path") g b'.' dot)

pub outputs_name_nothing :
    (title before rest : Text)
    → IsTitle title
    → IsTitle before
    → names_socket (
        joined_to
          (spaces
            ∷ spaces
            ∷ title
            ∷ codes "("
            ∷ before
            ∷ codes ".out[0], "
            ∷ before
            ∷ codes ".out[1], "
            ∷ [])
          rest)
      ≡ names_socket rest
unfolding occurs starts_with nat_eq
outputs_name_nothing title before rest t b =
    let (_, _, td, _) = t.free in
    let (_, _, bd, _) = b.free in
    let second = before ++ (codes ".out[1], " ++ rest) in
    let first = before ++ (codes ".out[0], " ++ second) in
    occurs-apart params_key_mets_socket_path title first b'('
      (is_free-IsFree b'(' params_key_mets_socket_path refl)
    ∙ ap (λ x. x || names_socket first)
        (occurs-missing (codes "params") (codes "mets_socket_path") title b'.' td)
    ∙ occurs-split (codes "params") (codes "mets_socket_path") before (codes "out[0], " ++ second)
        b'.' (is_free-IsFree b'.' (codes "params") refl) bd refl
    ∙ occurs-split (codes "params") (codes "mets_socket_path") before (codes "out[1], " ++ rest)
        b'.' (is_free-IsFree b'.' (codes "params") refl) bd refl
