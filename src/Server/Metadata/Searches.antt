-- ===== src/Server/Metadata/Searches.antt =====
-- src/server/operandi_server/routers/workflow_utils.py: what is searched in a line.
use operandi.Common.{
  ℕ, false, ◌||◌, ◌&&◌, [], ◌∷◌, ◌++◌, Text, occurs, starts_with, nat_eq, ◌==◌, ==_iff, ◌≡◌, refl,
  ap, arith,
}
use operandi.Server.Metadata.Lines.{IsFree}

starts_with-apart :
    (p t s : Text) (c : ℕ) → IsFree c p → starts_with p (t ++ c ∷ s) ≡ starts_with p t
unfolding starts_with
starts_with-apart [] t s c h = refl
starts_with-apart (x ∷ p) [] s c (h, hs) = rw h refl
starts_with-apart (x ∷ p) (d ∷ t) s c (h, hs) =
    ap (λ b. (x == d) && b) (starts_with-apart p t s c hs)

-- A text with no `c` is found before `c` or behind it.
pub occurs-apart :
    (p t s : Text) (c : ℕ) → IsFree c p → occurs p (t ++ c ∷ s) ≡ (occurs p t || occurs p s)
unfolding occurs
occurs-apart p [] s c h = ap (λ b. b || occurs p s) (starts_with-apart p [] s c h)
occurs-apart p (d ∷ t) s c h =
    let ih = occurs-apart p t s c h in let here = starts_with-apart p (d ∷ t) s c h in ground arith

starts_with-missing : (p q t : Text) (c : ℕ) → IsFree c t → starts_with (p ++ c ∷ q) t ≡ false
unfolding starts_with
starts_with-missing [] q [] c h = refl
starts_with-missing (x ∷ p) q [] c h = refl
starts_with-missing [] q (d ∷ t) c (h, hs) =
    let same = ==_iff c d in let other = ==_iff d c in ground arith
starts_with-missing (x ∷ p) q (d ∷ t) c (h, hs) =
    let ih = starts_with-missing p q t c hs in ground arith

-- A text with `c` is not found in one without.
pub occurs-missing : (p q t : Text) (c : ℕ) → IsFree c t → occurs (p ++ c ∷ q) t ≡ false
unfolding occurs
occurs-missing p q [] c h = starts_with-missing p q [] c h
occurs-missing p q (d ∷ t) c (h, hs) =
    let here = starts_with-missing p q (d ∷ t) c (h, hs) in
    let ih = occurs-missing p q t c hs in ground arith

starts_with-split :
    (q r x s : Text) (c : ℕ)
    → IsFree c q
    → IsFree c x
    → starts_with r s ≡ false
    → starts_with (q ++ c ∷ r) (x ++ c ∷ s) ≡ false
unfolding starts_with
starts_with-split [] r [] s c h k differ = let same = ==_iff c c in ground arith
starts_with-split [] r (d ∷ x) s c h (k, ks) differ =
    let same = ==_iff c d in let other = ==_iff d c in ground arith
starts_with-split (e ∷ q) r [] s c (h, hs) k differ = rw h refl
starts_with-split (e ∷ q) r (d ∷ x) s c (h, hs) (k, ks) differ =
    let ih = starts_with-split q r x s c hs ks differ in ground arith

-- Where a text has one `c`, it is not found around another `c` that goes on differently.
pub occurs-split :
    (q r x s : Text) (c : ℕ)
    → IsFree c q
    → IsFree c x
    → starts_with r s ≡ false
    → occurs (q ++ c ∷ r) (x ++ c ∷ s) ≡ occurs (q ++ c ∷ r) s
unfolding occurs
occurs-split q r [] s c h k differ =
    let here = starts_with-split q r [] s c h k differ in ground arith
occurs-split q r (d ∷ x) s c h (k, ks) differ =
    let here = starts_with-split q r (d ∷ x) s c h (k, ks) differ in
    let ih = occurs-split q r x s c h ks differ in ground arith
