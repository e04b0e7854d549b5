-- ===== src/Storage/Table/Laws.antt =====
-- What the statements on a table do to a lookup.
use fun_project.Common.{
  ℕ, String, Option, none, some, List, [], ◌∷◌, ◌++◌, false, ◌==◌, nat_eq, if◌then◌else◌, ◌≡◌, refl,
  arith, eq_iff,
}
use fun_project.Storage.Table.{Row, find, update_where, affected}

-- The first of two lookups that finds something.
abbrev pub or_else {ℓ} : {A : Type ℓ} → Option A → Option A → Option A
or_else none b = b
or_else (some a) b = some a

abbrev pub on_version : {A : Type 0} → (A → ℕ) → ℕ → (A → A) → Option A → Option A
on_version version v g none = none
on_version version v g (some x) = some (if nat_eq (version x) v then g x else x)

module _ {A : Type 0} (key : A → String) where
  pub find-append :
      (k : String) (rows : List (Row A)) (r : Row A)
      → find key k (rows ++ r ∷ [])
        ≡ or_else (find key k rows) (if key r.value == k then some r.value else none)
  unfolding find
  find-append k [] r = refl
  find-append k (s ∷ rows) r = ground (arith, find-append k rows r)

  pub key_of_find :
      (k : String) (rows : List (Row A)) (x : A) → find key k rows ≡ some x → key x ≡ k
  unfolding find
  key_of_find k [] x h = ground arith
  key_of_find k (r ∷ rows) x h = ground (arith, eq_iff (key r.value) k, key_of_find k rows x)

  module _ (version : A → ℕ) where
    pub find-update :
        (k id : String) (v : ℕ) (f : Row A → Row A) (g : A → A)
        → ((r : Row A) → (f r).value ≡ g r.value)
        → ((x : A) → key (g x) ≡ key x)
        → (rows : List (Row A))
        → find key k (update_where key version id v f rows)
          ≡ (if id == k then on_version version v g (find key k rows) else find key k rows)
    unfolding find update_where
    find-update k id v f g val keep [] = ground arith
    find-update k id v f g val keep (r ∷ rows) = ground (
      arith,
      find-update k id v f g val keep rows,
      val r,
      keep r.value,
      eq_iff id k,
      eq_iff (key r.value) id,
      eq_iff (key r.value) k,
      eq_iff (key (f r).value) k,
    )

    -- A row that is found with its version is hit by the UPDATE.
    pub affected_of_find :
        (id : String) (rows : List (Row A)) (x : A)
        → find key id rows ≡ some x
        → nat_eq (affected key version id (version x) rows) 0 ≡ false
    unfolding find affected
    affected_of_find id [] x h = ground arith
    affected_of_find id (r ∷ rows) x h =
        ground (arith, affected_of_find id rows x, eq_iff (key r.value) id)
