-- ===== src/Common/Count.antt =====
-- How many items of a list pass a test, sorting by a comparison, and totals over a map.
use Prim.Native.Nat.{ℕ, zero, suc, ◌+◌, ◌≤◌}
use Prim.Native.String.{String}
use mathlib.Core.Path.{◌≡◌, refl, sym, ap}
use mathlib.Core.Logic.{inl, inr}
use mathlib.Core.Bool.{Bool}
use mathlib.Core.Option.{Option, none, some}
use mathlib.Core.List.{List, [], ◌∷◌, ◌++◌}
use native.Mathlib.Omega.{arith}
use text.Mathlib.Text.{◌==◌}
use text.Mathlib.TextEquality.{eq_iff}
use fun_project.Common.Tests.{if◌then◌else◌, Bool-cases}
use fun_project.Common.Sort.{place_by, sort_by}
use fun_project.Common.Assoc.{Assoc, keys, at_key, delete_key, set_key}

module _ {A : Type 0} where
  unfoldable pub sum_by : (A → ℕ) → List A → ℕ
  sum_by f [] = 0
  sum_by f (x ∷ xs) = f x + sum_by f xs

  pub sum_by-append : (f : A → ℕ) (xs ys : List A) → sum_by f (xs ++ ys) ≡ sum_by f xs + sum_by f ys
  unfolding sum_by
  sum_by-append f [] ys = omega arith
  sum_by-append f (x ∷ xs) ys = omega (arith, sum_by-append f xs ys)

  abbrev pub count_if : (A → Bool) → List A → ℕ
  count_if p xs = sum_by (λ x. if p x then 1 else 0) xs

  -- An insertion sort; `le a b` lets a stand before b.
  unfoldable pub place_with : (A → A → Bool) → A → List A → List A
  place_with le a [] = a ∷ []
  place_with le a (x ∷ xs) =
      let rest = place_with le a xs in if le a x then a ∷ x ∷ xs else x ∷ rest

  unfoldable pub sort_with : (A → A → Bool) → List A → List A
  unfolding place_with
  sort_with le [] = []
  sort_with le (a ∷ xs) = place_with le a (sort_with le xs)

  sum_by-place_with :
      (f : A → ℕ) (le : A → A → Bool) (a : A) (xs : List A)
      → sum_by f (place_with le a xs) ≡ f a + sum_by f xs
  unfolding sum_by place_with
  sum_by-place_with f le a [] = refl
  sum_by-place_with f le a (x ∷ xs) =
      let rest = sum_by-place_with f le a xs in
      elim (Bool-cases (le a x)) [
        | inl first ↦ simp first refl
        | inr later ↦ simp later (omega (arith, rest))
      ]

  -- Sorting keeps every sum.
  pub sum_by-sort_with :
      (f : A → ℕ) (le : A → A → Bool) (xs : List A) → sum_by f (sort_with le xs) ≡ sum_by f xs
  unfolding sum_by sort_with
  sum_by-sort_with f le [] = refl
  sum_by-sort_with f le (a ∷ xs) =
      omega (arith, sum_by-place_with f le a (sort_with le xs), sum_by-sort_with f le xs)

-- How often a text stands in a list
abbrev pub times : String → List String → ℕ
times k xs = count_if (λ j. j == k) xs

module _ (k : String) where
  times-place_by :
      (a : String) (xs : List String)
      → times k (place_by (λ (x : String). x) a xs) ≡ (if a == k then 1 else 0) + times k xs
  unfolding sum_by place_by
  times-place_by a [] = refl
  times-place_by a (x ∷ xs) = ground (arith, times-place_by a xs)

  pub times-sort_by : (xs : List String) → times k (sort_by (λ (x : String). x) xs) ≡ times k xs
  unfolding sum_by sort_by
  times-sort_by [] = refl
  times-sort_by (x ∷ xs) =
      omega (arith, times-place_by x (sort_by (λ (y : String). y) xs), times-sort_by xs)

module _ {V : Type 0} where
  unfoldable pub total : (String → V → ℕ) → Assoc V → ℕ
  total w [] = 0
  total w ((j, v) ∷ m) = w j v + total w m

  abbrev pub worth : (V → ℕ) → Option V → ℕ
  worth w none = 0
  worth w (some v) = w v

  -- How many entries a key has
  abbrev pub entries_at : String → Assoc V → ℕ
  entries_at k m = total (λ j v. if j == k then 1 else 0) m

  -- As in a Go map, each key has at most one.
  abbrev pub IsMap : Assoc V → Type 0
  IsMap m = (k : String) → entries_at k m ≤ 1

  pub total-delete_absent :
      (w : String → V → ℕ) (m : Assoc V) (k : String)
      → entries_at k m ≡ 0
      → total w (delete_key m k) ≡ total w m
  unfolding total delete_key
  total-delete_absent w [] k h = refl
  total-delete_absent w ((j, v) ∷ m) k h = elim (Bool-cases (j == k)) [
    | inl here ↦
        let none_left : (if j == k then 1 else 0) + entries_at k m ≡ 0 = h in
        let one : (if j == k then suc zero else zero) ≡ suc zero = simp here refl in
        omega (arith, none_left, one)
    | inr other ↦
        let none_left : (if j == k then 1 else 0) + entries_at k m ≡ 0 = h in
        let rest = total-delete_absent w m k (omega (arith, none_left)) in
        simp other (omega (arith, rest))
  ]

  pub total-delete_key :
      (w : String → V → ℕ) (m : Assoc V) (k : String)
      → entries_at k m ≤ 1
      → total w (delete_key m k) + worth (w k) (at_key m k) ≡ total w m
  unfolding total delete_key at_key
  total-delete_key w [] k h = refl
  total-delete_key w ((j, v) ∷ m) k h = elim (Bool-cases (j == k)) [
    | inl here ↦
        let few : (if j == k then 1 else 0) + entries_at k m ≤ 1 = h in
        let one : (if j == k then suc zero else zero) ≡ suc zero = simp here refl in
        let gone = total-delete_absent w m k (omega (arith, few, one)) in
        let same : w k v ≡ w j v = ap (λ (i : String). w i v) (sym ((eq_iff j k).0 here)) in
        simp here (omega (arith, gone, same))
    | inr other ↦
        let few : (if j == k then 1 else 0) + entries_at k m ≤ 1 = h in
        let rest = total-delete_key w m k (omega (arith, few)) in simp other (omega (arith, rest))
  ]

  pub total-set_key :
      (w : String → V → ℕ) (m : Assoc V) (k : String) (v : V)
      → entries_at k m ≤ 1
      → total w (set_key m k v) + worth (w k) (at_key m k) ≡ w k v + total w m
  unfolding total set_key
  total-set_key w m k v h = omega (arith, total-delete_key w m k h)

  pub entries_at-delete_key :
      (m : Assoc V) (k j : String)
      → entries_at j (delete_key m k) ≡ (if k == j then 0 else entries_at j m)
  unfolding total delete_key
  entries_at-delete_key [] k j = ground arith
  entries_at-delete_key ((i, v) ∷ m) k j =
      ground (arith, entries_at-delete_key m k j, eq_iff i k, eq_iff i j, eq_iff k j)

  pub IsMap-delete_key : (m : Assoc V) (k : String) → IsMap m → IsMap (delete_key m k)
  IsMap-delete_key m k h j = ground (arith, h j, entries_at-delete_key m k j)

  pub IsMap-set_key : (m : Assoc V) (k : String) (v : V) → IsMap m → IsMap (set_key m k v)
  unfolding set_key total
  IsMap-set_key m k v h j = ground (arith, h j, entries_at-delete_key m k j)

  pub sum_by-keys : (f : String → ℕ) (m : Assoc V) → sum_by f (keys m) ≡ total (λ j v. f j) m
  unfolding sum_by total
  sum_by-keys f [] = refl
  sum_by-keys f ((j, v) ∷ m) = omega (arith, sum_by-keys f m)

  -- A key is read as often as it has an entry.
  pub worth_one :
      (m : Assoc V) (k : String) → IsMap m → worth (λ v. 1) (at_key m k) ≡ entries_at k m
  worth_one m k h =
      let gone = entries_at-delete_key m k k in
      let parts = total-delete_key (λ j v. if j == k then 1 else 0) m k (h k) in
      ground (arith, gone, parts, eq_iff k k)

  IsMap-tail : (j : String) (v : V) (m : Assoc V) → IsMap ((j, v) ∷ m) → IsMap m
  unfolding total
  IsMap-tail j v m h k = omega (arith, h k)

  zero_in_tail :
      (w : String → V → ℕ) (j : String) (v : V) (m : Assoc V) (k : String)
      → entries_at k ((j, v) ∷ m) ≤ 1
      → IsMap m
      → worth (w k) (at_key ((j, v) ∷ m) k) ≡ 0
      → worth (w k) (at_key m k) ≡ 0
  unfolding total at_key
  zero_in_tail w j v m k few h none_at = elim (Bool-cases (j == k)) [
    | inl here ↦ ground (arith, few, here, worth_one m k h)
    | inr other ↦ simp other at none_at
  ]

  pub total_zero :
      (w : String → V → ℕ) (m : Assoc V)
      → IsMap m
      → ((k : String) → worth (w k) (at_key m k) ≡ 0)
      → total w m ≡ 0
  unfolding total at_key
  total_zero w [] h none_at = refl
  total_zero w ((j, v) ∷ m) h none_at =
      let here : worth (w j) (if j == j then some v else at_key m j) ≡ 0 = none_at j in
      let rest =
        total_zero w m (IsMap-tail j v m h)
          (λ k. zero_in_tail w j v m k (h k) (IsMap-tail j v m h) (none_at k)) in
      ground (arith, here, rest, eq_iff j j)
