-- ===== src/Common/Sort.antt =====
-- Sorting by a text, as sort.Slice and sort.Strings do: an insertion sort by the bytes of the text.
use Prim.Native.Nat.{suc, Ordering}
use Prim.Native.String
use Prim.Native.String.{String}
use mathlib.Core.Path.{◌≡◌, refl}
use mathlib.Core.Logic.{◌↔◌, ◌⊎◌, inl, inr}
use mathlib.Core.Bool.{Bool, true, false}
use mathlib.Core.List.{List, [], ◌∷◌}
use native.Mathlib.Omega.{arith}
use fun_project.Common.Tests.{if◌then◌else◌, either_branch}
use fun_project.Common.Lists.{length}

-- The order of texts by their bytes
abbrev pub text_le : String → String → Bool
text_le a b = elim (String.compare a b) [ Ordering.gt ↦ false | _ ↦ true ]

module _ {A : Type 0} (key : A → String) where
  unfoldable pub place_by : A → List A → List A
  place_by a [] = a ∷ []
  place_by a (x ∷ xs) =
      let rest = place_by a xs in if text_le (key a) (key x) then a ∷ x ∷ xs else x ∷ rest

  unfoldable pub sort_by : List A → List A
  unfolding place_by
  sort_by [] = []
  sort_by (a ∷ xs) = place_by a (sort_by xs)

-- The value is one of the list.
abbrev pub Listed : {A : Type 0} → A → List A → Type 0
Listed a [] = ⊥
Listed a (x ∷ xs) = (x ≡ a) ⊎ Listed a xs

module _ {A : Type 0} (key : A → String) where
  pub Listed-place_by :
      (a e : A) (xs : List A) → Listed a (place_by key e xs) ↔ ((e ≡ a) ⊎ Listed a xs)
  unfolding place_by
  Listed-place_by a e [] = ((λ h. h), (λ h. h))
  Listed-place_by a e (x ∷ xs) =
      let rest = Listed-place_by a e xs in
      either_branch (λ ys. Listed a ys ↔ ((e ≡ a) ⊎ ((x ≡ a) ⊎ Listed a xs))) _ (e ∷ x ∷ xs)
        (x ∷ place_by key e xs) ((λ h. h), (λ h. h))
        (
          (λ h. elim h [
            | inl here ↦ inr (inl here)
            | inr later ↦ elim (rest.0 later) [ inl new ↦ inl new | inr old ↦ inr (inr old) ]
          ]),
          (λ h. elim h [
            | inl new ↦ inr (rest.1 (inl new))
            | inr old ↦ elim old [ inl here ↦ inl here | inr later ↦ inr (rest.1 (inr later)) ]
          ]),
        )

  pub Listed-sort_by : (a : A) (xs : List A) → Listed a (sort_by key xs) ↔ Listed a xs
  unfolding sort_by
  Listed-sort_by a [] = ((λ h. h), (λ h. h))
  Listed-sort_by a (x ∷ xs) =
      let here = Listed-place_by a x (sort_by key xs) in
      let rest = Listed-sort_by a xs in
      (
        (λ h. elim (here.0 h) [ inl new ↦ inl new | inr old ↦ inr (rest.0 old) ]),
        (λ h. elim h [ inl new ↦ here.1 (inl new) | inr old ↦ here.1 (inr (rest.1 old)) ]),
      )

  pub length-place_by : (a : A) (xs : List A) → length (place_by key a xs) ≡ suc (length xs)
  unfolding place_by
  length-place_by a [] = refl
  length-place_by a (x ∷ xs) = ground (arith, length-place_by a xs)

  pub length-sort_by : (xs : List A) → length (sort_by key xs) ≡ length xs
  unfolding sort_by
  length-sort_by [] = refl
  length-sort_by (x ∷ xs) = omega (arith, length-place_by x (sort_by key xs), length-sort_by xs)
