-- ===== src/Storage/Table.antt =====
-- A table of the SQLite file as the list of its rows, oldest first: the SELECT, INSERT and UPDATE
-- statements of store.go, over the column `id` and the column `version`.
pub mod Laws
pub mod Unique
use fun_project.Common.{
  ℕ, suc, String, Option, none, some, List, [], ◌∷◌, Bool, ◌&&◌, ◌==◌, nat_eq, if◌then◌else◌,
}
use fun_project.Storage.Schema.Types.{Time}

pub record Row (A : Type 0) : Type 0 where
  pub value : A
  pub created_at : Time
  pub updated_at : Time

module _ {A : Type 0} (key : A → String) where
  -- SELECT … WHERE id = ?
  unfoldable pub find : String → List (Row A) → Option A
  find k [] = none
  find k (r ∷ rows) = if key r.value == k then some r.value else find k rows

  module _ (version : A → ℕ) where
    abbrev pub hit : String → ℕ → Row A → Bool
    hit k v r = key r.value == k && nat_eq (version r.value) v

    -- UPDATE … SET f WHERE id = ? AND version = ?
    unfoldable pub update_where : String → ℕ → (Row A → Row A) → List (Row A) → List (Row A)
    update_where k v f [] = []
    update_where k v f (r ∷ rows) = (if hit k v r then f r else r) ∷ update_where k v f rows

    -- RowsAffected of that UPDATE
    unfoldable pub affected : String → ℕ → List (Row A) → ℕ
    affected k v [] = 0
    affected k v (r ∷ rows) = let n = affected k v rows in if hit k v r then suc n else n
