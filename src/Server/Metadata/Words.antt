-- ===== src/Server/Metadata/Words.antt =====
-- src/server/operandi_server/routers/workflow_utils.py: the words of a line, one after another.
use operandi.Common.{
  true, false, [], ◌∷◌, ◌++◌, Text, remove_pair, split_at, split_at_from, newline, nat_eq, ◌≡◌,
  refl, sym, ap, ◌∙◌, append_assoc, append-nil,
}
use operandi.Oton.{spaces}
use operandi.Server.Metadata.{executable, found_in, found_on, is_executable, is_quoted}
use operandi.Server.Metadata.Lines.{IsFree, remove_pair-call, remove_pair-step, split_at_from-word}

remove_pair-space :
    (s : Text) → remove_pair b')' newline (b' ' ∷ s) ≡ b' ' ∷ remove_pair b')' newline s
unfolding remove_pair nat_eq
remove_pair-space [] = refl
remove_pair-space (y ∷ s) = refl

remove_pair-word :
    (w s : Text)
    → IsFree newline w
    → remove_pair b')' newline (w ++ b' ' ∷ s) ≡ w ++ b' ' ∷ remove_pair b')' newline s
unfolding nat_eq
remove_pair-word [] s h = remove_pair-space s
remove_pair-word (x ∷ []) s h =
    remove_pair-step x b' ' s refl ∙ ap (λ t. x ∷ t) (remove_pair-space s)
remove_pair-word (x ∷ y ∷ w) s (hx, (hy, h)) =
    remove_pair-step x y (w ++ b' ' ∷ s) hy ∙ ap (λ t. x ∷ t) (remove_pair-word (y ∷ w) s (hy, h))

-- A line that starts with a word.
found_on-word :
    (w s : Text)
    → IsFree newline w
    → IsFree b' ' w
    → found_on (w ++ b' ' ∷ s) ≡ found_in (w ∷ split_at b' ' (remove_pair b')' newline s))
unfolding found_on split_at
found_on-word w s h k =
    ap (λ t. found_in (split_at b' ' t)) (remove_pair-word w s h)
    ∙ ap found_in (split_at_from-word [] w (remove_pair b')' newline s) k)

pub found_on-skip :
    (w s : Text)
    → IsFree newline w
    → IsFree b' ' w
    → is_executable w ≡ false
    → is_quoted w ≡ false
    → found_on (w ++ b' ' ∷ s) ≡ found_on s
unfolding found_on found_in
found_on-skip w s h k e q = found_on-word w s h k ∙ rw (found_in, e) (rw q refl)

pub found_on-executable :
    (w s : Text)
    → IsFree newline w
    → IsFree b' ' w
    → is_executable w ≡ true
    → found_on (w ++ b' ' ∷ s) ≡ executable w
unfolding found_in
found_on-executable w s h k e = found_on-word w s h k ∙ rw (found_in, e) refl

pub found_on-spaces : (s : Text) → found_on (spaces ++ s) ≡ found_on s
unfolding is_executable is_quoted
found_on-spaces s =
    found_on-skip [] (b' ' ∷ b' ' ∷ b' ' ∷ s) tt tt refl refl
    ∙ found_on-skip [] (b' ' ∷ b' ' ∷ s) tt tt refl refl
    ∙ found_on-skip [] (b' ' ∷ s) tt tt refl refl
    ∙ found_on-skip [] s tt tt refl refl

split_at_from-end : (w v : Text) → IsFree b' ' v → split_at_from b' ' w v ≡ (w ++ v) ∷ []
unfolding nat_eq
split_at_from-end w [] h = ap (λ t. t ∷ []) (sym (append-nil w))
split_at_from-end w (d ∷ v) (h, hs) =
    rw (h, split_at_from)
      (split_at_from-end (w ++ d ∷ []) v hs ∙ ap (λ t. t ∷ []) (append_assoc w (d ∷ []) v))

-- The last word of a call.
pub found_on-call :
    (w : Text)
    → IsFree newline w
    → IsFree b' ' w
    → found_on (w ++ b')' ∷ newline ∷ []) ≡ found_in (w ∷ [])
unfolding found_on split_at
found_on-call w h k =
    ap (λ t. found_in (split_at b' ' t)) (remove_pair-call w h)
    ∙ ap found_in (split_at_from-end [] w k)
