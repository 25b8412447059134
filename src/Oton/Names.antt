-- ===== src/Oton/Names.antt =====
-- src/utils/operandi_utils/oton/nf_block_process.py: the names of the processes.
use operandi.Common.{
  ℕ, true, false, [], ◌∷◌, ◌++◌, Text, decimal, decimal-injective, decimal-all_digits, all_digits,
  is_digit, replace_char, but_first, ◌≡◌, refl, sym, ap, subst, arith,
}
use operandi.Oton.ProcessBlock.{process_name}

abbrev underscore : ℕ
underscore = b'_'

underscore_is_no_digit : is_digit underscore ≡ false
unfolding is_digit
underscore_is_no_digit = refl

-- No underscore stands among digits.
digits-no_underscore : (x d e : Text) → d ≡ x ++ underscore ∷ e → all_digits d ≡ true → ⊥
digits-no_underscore [] d e p h =
    let q : all_digits (underscore ∷ e) ≡ true = subst (λ t. all_digits t ≡ true) p h in
    ground (arith, underscore_is_no_digit)
digits-no_underscore (c ∷ x) d e p h =
    let q : all_digits (c ∷ (x ++ underscore ∷ e)) ≡ true = subst (λ t. all_digits t ≡ true) p h in
    digits-no_underscore x (x ++ underscore ∷ e) e refl (ground arith)

-- What stands behind the last underscore is determined, where it is digits.
suffix_lem :
    (x y d e : Text)
    → x ++ underscore ∷ d ≡ y ++ underscore ∷ e
    → all_digits d ≡ true
    → all_digits e ≡ true
    → d ≡ e
suffix_lem [] [] d e p hd he = ap but_first p
suffix_lem [] (c ∷ y) d e p hd he = absurd (digits-no_underscore y d e (ap but_first p) hd)
suffix_lem (c ∷ x) [] d e p hd he = absurd (digits-no_underscore x e d (sym (ap but_first p)) he)
suffix_lem (b ∷ x) (c ∷ y) d e p hd he = suffix_lem x y d e (ap but_first p) hd he

-- Processes at different places have different names, whatever the names of their programs.
pub process_name-injective : (a b : Text) (i j : ℕ) → process_name a i ≡ process_name b j → i ≡ j
unfolding process_name
process_name-injective a b i j p = decimal-injective i j (
    suffix_lem (replace_char b'-' b'_' a) (replace_char b'-' b'_' b) (decimal i) (decimal j) p
      (decimal-all_digits i) (decimal-all_digits j))
