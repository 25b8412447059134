-- ===== src/Common/Paths.antt =====
-- `os.path.join`, and the `name` and the `parent` of a `Path`.
use Prim.Native.Char.{Char, code}
use Prim.Native.String.{String, ◌++◌ as ◌<>◌}
use mathlib.Core.Bool.{Bool, true, false, not, ◌&&◌}
use operandi.Common.Equality.{◌==◌, nat_eq, if◌then◌else◌}

abbrev is_slash : Char → Bool
is_slash c = code c == b'/'

abbrev starts_with_slash : String → Bool
starts_with_slash String.[] = false
starts_with_slash (String.◌∷◌ c s) = is_slash c

-- Whether nothing has to be put between the text and a name: it is empty or ends in a slash.
abbrev needs_no_slash : String → Bool
needs_no_slash String.[] = true
needs_no_slash (String.◌∷◌ c String.[]) = is_slash c
needs_no_slash (String.◌∷◌ c (String.◌∷◌ d s)) = needs_no_slash (String.◌∷◌ d s)

unfoldable pub join : String → String → String
unfolding nat_eq
join a b = if starts_with_slash b then b else if needs_no_slash a then a <> b else a <> "/" <> b

abbrev is_empty : String → Bool
is_empty String.[] = true
is_empty (String.◌∷◌ c s) = false

abbrev name_from : String → String → String
name_from acc String.[] = acc
name_from acc (String.◌∷◌ c s) =
    name_from
      (if is_slash c then (if is_empty s then acc else "") else acc <> String.◌∷◌ c String.[]) s

-- `Path(p).name`, the part behind the last slash; a slash at the end does not count.
unfoldable pub path_name : String → String
unfolding nat_eq
path_name p = name_from "" p

abbrev parent_from : String → String → String → String
parent_from before part String.[] = before
parent_from before part (String.◌∷◌ c s) =
    let ends_part = is_slash c && not (is_empty s) in
    parent_from (if ends_part then before <> part <> "/" else before)
      (if ends_part then "" else part <> String.◌∷◌ c String.[]) s

-- `Path(p).parent`, with the slash behind it, which `join` does not double.
unfoldable pub path_parent : String → String
unfolding nat_eq
path_parent p = parent_from "" "" p
