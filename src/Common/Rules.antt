-- ===== src/Common/Rules.antt =====
-- Conditions before and after an action, one rule for each way to build an action.
use mathlib.Core.Path.{◌≡◌, refl}
use mathlib.Core.Bool.{Bool, true, false}
use operandi.Common.Equality.{if◌then◌else◌}
use operandi.Common.Effects.{
  Result, done, raise, Outcome, ok, raised, state_of, Exec, pure, lift, ◌>>=◌, continue,
}

-- `Q` of the value and the state where the action returned, `E` of the state where it raised.
abbrev pub Post {ℓ κ μ} :
    {S : Type ℓ} {A : Type κ} → (A → S → Type μ) → (S → Type μ) → Outcome S A → Type μ
Post Q E (ok a t) = Q a t
Post Q E (raised e t) = E t

-- From a state with `P`, the action `m` ends with `Q` or raises with `E`.
pub record Ensures {S A : Type 0} (P : S → Type 0) (m : Exec S A) (Q : A → S → Type 0)
    (E : S → Type 0) : Type 0 where
  pub at : (s : S) → P s → Post Q E (m s)

-- Where the condition is the same whether the action returned or raised.
module _ {S A : Type 0} (P : S → Type 0) where
  pub Post-state_of : (r : Outcome S A) → P (state_of r) → Post (λ _. P) P r
  Post-state_of (ok a t) h = h
  Post-state_of (raised e t) h = h

  pub state_of-Post : (r : Outcome S A) → Post (λ _. P) P r → P (state_of r)
  state_of-Post (ok a t) h = h
  state_of-Post (raised e t) h = h

module _ {S A : Type 0} {P : S → Type 0} {Q : A → S → Type 0} {E : S → Type 0} where
  pub Ensures-pure : (a : A) → ((s : S) → P s → Q a s) → Ensures P (pure a) Q E
  Ensures-pure a h = record { at = h }

  pub Ensures-lift :
      (r : Result A)
      → ((a : A) → r ≡ done a → (s : S) → P s → Q a s)
      → ((s : S) → P s → E s)
      → Ensures P (lift r) Q E
  Ensures-lift (done a) h k = record { at = λ s p. h a refl s p }
  Ensures-lift (raise e) h k = record { at = k }

  pub Ensures-if :
      (b : Bool) (m n : Exec S A)
      → (b ≡ true → Ensures P m Q E)
      → (b ≡ false → Ensures P n Q E)
      → Ensures P (if b then m else n) Q E
  Ensures-if true m n h k = h refl
  Ensures-if false m n h k = k refl

module _ {S A : Type 0} {Q Q' : A → S → Type 0} {E E' : S → Type 0} where
  Post-map :
      (r : Outcome S A)
      → ((a : A) (s : S) → Q a s → Q' a s)
      → ((s : S) → E s → E' s)
      → Post Q E r
      → Post Q' E' r
  Post-map (ok a t) h k p = h a t p
  Post-map (raised e t) h k p = k t p

  -- A stronger condition before, weaker ones after.
  pub Ensures-map :
      {P P' : S → Type 0} (m : Exec S A)
      → Ensures P m Q E
      → ((s : S) → P' s → P s)
      → ((a : A) (s : S) → Q a s → Q' a s)
      → ((s : S) → E s → E' s)
      → Ensures P' m Q' E'
  Ensures-map m h before after escape = record {
    at = λ s p. Post-map (m s) after escape (h.at s (before s p));
  }

module _ {S A : Type 0} {P : S → Type 0} {Q : A → S → Type 0} {E : S → Type 0} where
  -- What does not depend on the state stays.
  pub Ensures-and :
      (C : Type 0) (m : Exec S A) → Ensures P m Q E → Ensures (λ s. P s × C) m (λ a s. Q a s × C) E
  Ensures-and C m h = record {
    at = λ s (p, c). Post-map (m s) (λ a t q. (q, c)) (λ t e. e) (h.at s p);
  }

module _ {S A B : Type 0} {Q : B → S → Type 0} {E : S → Type 0} (R : A → S → Type 0) where
  Post-continue :
      (r : Outcome S A) (f : A → Exec S B)
      → Post R E r
      → ((a : A) → Ensures (R a) (f a) Q E)
      → Post Q E (continue r f)
  Post-continue (ok a t) f h k = (k a).at t h
  Post-continue (raised e t) f h k = h

  pub Ensures-bind :
      {P : S → Type 0} (m : Exec S A) (f : A → Exec S B)
      → Ensures P m R E
      → ((a : A) → Ensures (R a) (f a) Q E)
      → Ensures P (m >>= f) Q E
  Ensures-bind m f h k = record { at = λ s p. Post-continue (m s) f (h.at s p) k }
