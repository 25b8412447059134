-- ===== src/Common/Documents.antt =====
-- A collection of the document database: `find_one`, `find_many`, and the `save` of a document that
-- `find_one` returned. A document is saved under its own `_id`, so it takes the place of the one
-- that was found, whatever fields were changed.
use mathlib.Core.Path.{◌≡◌, refl, subst}
use mathlib.Core.Bool.{Bool, true, false}
use mathlib.Core.Option.{Option, none, some, some-injective}
use mathlib.Core.List.{List, [], ◌∷◌, ◌++◌}
use native.Mathlib.Omega.{arith}
use operandi.Common.Equality.{if◌then◌else◌, Eq, ◌==◌, Bool-cases}
use mathlib.Core.Logic.{inl, inr}
use operandi.Common.Lists.{length, All}

module _ {ℓ} {D : Type ℓ} (p : D → Bool) where
  unfoldable pub find_one : List D → Option D
  find_one [] = none
  find_one (d ∷ ds) = if p d then some d else find_one ds

  unfoldable pub save_found : D → List D → List D
  save_found d' [] = []
  save_found d' (d ∷ ds) = if p d then d' ∷ ds else d ∷ save_found d' ds

  pub find_one_sound : (ds : List D) {d : D} → find_one ds ≡ some d → p d ≡ true
  unfolding find_one
  find_one_sound [] h = ground arith
  find_one_sound (x ∷ ds) {d} h = ground (arith, find_one_sound ds {d = d})

  pub find_one-save_found :
      (d' : D) (ds : List D) {d : D}
      → find_one ds ≡ some d
      → p d' ≡ true
      → find_one (save_found d' ds) ≡ some d'
  unfolding find_one save_found
  find_one-save_found d' [] h k = ground arith
  find_one-save_found d' (x ∷ ds) {d} h k = ground (arith, find_one-save_found d' ds {d = d})

  pub length-save_found : (d' : D) (ds : List D) → length (save_found d' ds) ≡ length ds
  unfolding save_found
  length-save_found d' [] = refl
  length-save_found d' (x ∷ ds) = ground (arith, length-save_found d' ds)

  pub find_one-append :
      (ds es : List D)
      → find_one (ds ++ es) ≡ elim (find_one ds) [ none ↦ find_one es | some d ↦ some d ]
  unfolding find_one
  find_one-append [] es = refl
  find_one-append (x ∷ ds) es = ground (arith, find_one-append ds es)

-- A search by `q` does not see that a document found by `p` was saved, when neither the old nor the
-- new one meets `q`.
pub find_one-save_found_ne {ℓ} :
    {D : Type ℓ} (p q : D → Bool) (d' : D) (ds : List D)
    → ((d : D) → p d ≡ true → q d ≡ false)
    → q d' ≡ false
    → find_one q (save_found p d' ds) ≡ find_one q ds
unfolding find_one save_found
find_one-save_found_ne p q d' [] apart h = refl
find_one-save_found_ne p q d' (x ∷ ds) apart h =
    ground (arith, apart x, find_one-save_found_ne p q d' ds apart h)

-- Collections whose documents are found by a key.
module _ {ℓ κ} {D : Type ℓ} {K : Type κ} ⦃e : Eq K⦄ (key : D → K) where
  -- A save under a key that stays is seen by a search for that key, and by no other.
  pub find_one-save_found_key :
      (k j : K) (d' : D) (ds : List D) (d : D)
      → find_one (λ x. key x == k) ds ≡ some d
      → key d' ≡ k
      → find_one (λ x. key x == j) (save_found (λ x. key x == k) d' ds)
        ≡ (if j == k then some d' else find_one (λ x. key x == j) ds)
  unfolding find_one save_found
  find_one-save_found_key k j d' [] d h q = ground arith
  find_one-save_found_key k j d' (x ∷ ds) d h q =
      ground (arith, find_one-save_found_key k j d' ds d)

  pub key-find_one :
      (k : K) (ds : List D) (d : D) → find_one (λ x. key x == k) ds ≡ some d → key d ≡ k
  unfolding find_one
  key-find_one k [] d h = ground arith
  key-find_one k (x ∷ ds) d h = ground (arith, key-find_one k ds d)

pub All-save_found {ℓ κ} :
    {D : Type ℓ} (P : D → Type κ) (p : D → Bool) (d' : D) (ds : List D)
    → P d'
    → All P ds
    → All P (save_found p d' ds)
unfolding save_found
All-save_found P p d' [] new old = tt
All-save_found P p d' (x ∷ ds) new old = elim (Bool-cases (p x)) [
  | inl found ↦ rw found (new, old.1)
  | inr other ↦ rw other (old.0, All-save_found P p d' ds new old.1)
]

pub All-find_one {ℓ κ} :
    {D : Type ℓ} (P : D → Type κ) (p : D → Bool) (ds : List D) (d : D)
    → find_one p ds ≡ some d
    → All P ds
    → P d
unfolding find_one
All-find_one P p [] d h all = cc
All-find_one P p (x ∷ ds) d h all = elim (Bool-cases (p x)) [
  | inl found ↦ subst P (some-injective x d (rw found at h)) all.0
  | inr other ↦ All-find_one P p ds d (rw other at h) all.1
]
