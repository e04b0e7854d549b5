-- ===== src/Common/Assoc.antt =====
-- A Go map with text keys, as the list of its keys with their values, each key once.
use mathlib.Core.Path.{◌≡◌}
use mathlib.Core.Option.{Option, none, some}
use mathlib.Core.List.{List, [], ◌∷◌, map}
use native.Mathlib.Omega.{arith}
use text.Mathlib.Text.{◌==◌}
use text.Mathlib.TextEquality.{eq_iff}
use Prim.Native.String.{String}
use fun_project.Common.Tests.{if◌then◌else◌}

abbrev pub Assoc : Type 0 → Type 0
Assoc V = List (String × V)

abbrev pub keys : {V : Type 0} → Assoc V → List String
keys m = map (λ e. e.0) m

module _ {V : Type 0} where
  -- v, ok := m[key]
  unfoldable pub at_key : Assoc V → String → Option V
  at_key [] key = none
  at_key ((j, v) ∷ m) key = if j == key then some v else at_key m key

  -- delete(m, key)
  unfoldable pub delete_key : Assoc V → String → Assoc V
  delete_key [] key = []
  delete_key ((j, v) ∷ m) key =
      let rest = delete_key m key in if j == key then rest else (j, v) ∷ rest

  -- m[key] = v
  unfoldable pub set_key : Assoc V → String → V → Assoc V
  unfolding delete_key
  set_key m key v = (key, v) ∷ delete_key m key

  pub at_key-delete_key :
      (m : Assoc V) (key k : String)
      → at_key (delete_key m key) k ≡ (if key == k then none else at_key m k)
  unfolding at_key delete_key
  at_key-delete_key [] key k = ground arith
  at_key-delete_key ((j, v) ∷ m) key k =
      ground (arith, at_key-delete_key m key k, eq_iff j key, eq_iff j k, eq_iff key k)

  pub at_key-set_key :
      (m : Assoc V) (key k : String) (v : V)
      → at_key (set_key m key v) k ≡ (if key == k then some v else at_key m k)
  unfolding at_key set_key
  at_key-set_key m key k v = ground (arith, at_key-delete_key m key k)
