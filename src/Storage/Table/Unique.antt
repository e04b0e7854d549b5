-- ===== src/Storage/Table/Unique.antt =====
-- Primary keys: no two rows of a table have one id.
use fun_project.Common.{
  ℕ, String, none, List, [], ◌∷◌, ◌++◌, false, is_none, ◌≡◌, refl, arith, eq_iff,
}
use fun_project.Storage.Table.{Row, find, update_where}
use fun_project.Storage.Table.Laws.{find-append, find-update}

module _ {A : Type 0} (key : A → String) where
  abbrev pub Unique : List (Row A) → Type 0
  Unique [] = Unit
  Unique (r ∷ rows) = (find key (key r.value) rows ≡ none) × Unique rows

  pub Unique-append :
      (rows : List (Row A)) (r : Row A)
      → find key (key r.value) rows ≡ none
      → Unique rows
      → Unique (rows ++ r ∷ [])
  unfolding find
  Unique-append [] r h u = (refl, tt)
  Unique-append (s ∷ rows) r h u = (
    ground (
      arith,
      find-append key (key s.value) rows r,
      eq_iff (key s.value) (key r.value),
      eq_iff (key r.value) (key s.value),
    ),
    Unique-append rows r (ground (arith, eq_iff (key s.value) (key r.value))) u.1,
  )

  pub exists-append :
      (k : String) (rows : List (Row A)) (r : Row A)
      → is_none (find key k rows) ≡ false
      → is_none (find key k (rows ++ r ∷ [])) ≡ false
  exists-append k rows r h = ground (arith, find-append key k rows r)

  module _ (version : A → ℕ) (f : Row A → Row A) (g : A → A)
      (val : (r : Row A) → (f r).value ≡ g r.value) (keep : (x : A) → key (g x) ≡ key x) where
    pub exists-update :
        (k id : String) (v : ℕ) (rows : List (Row A))
        → is_none (find key k (update_where key version id v f rows)) ≡ is_none (find key k rows)
    exists-update k id v rows = ground (arith, find-update key version k id v f g val keep rows)

    pub Unique-update :
        (id : String) (v : ℕ) (rows : List (Row A))
        → Unique rows
        → Unique (update_where key version id v f rows)
    unfolding update_where
    Unique-update id v [] u = tt
    Unique-update id v (r ∷ rows) u = (
      ground (
        arith,
        val r,
        keep r.value,
        find-update key version (key r.value) id v f g val keep rows,
        find-update key version (key (f r).value) id v f g val keep rows,
      ),
      Unique-update id v rows u.1,
    )
