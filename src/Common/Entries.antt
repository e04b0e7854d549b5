-- ===== src/Common/Entries.antt =====
-- What holds of each entry of a map.
use Prim.Native.String.{String}
use mathlib.Core.Path.{subst}
use mathlib.Core.Option.{Option, none, some}
use mathlib.Core.List.{[], ◌∷◌}
use text.Mathlib.Text.{◌==◌}
use text.Mathlib.TextEquality.{eq_iff}
use fun_project.Common.Tests.{each_branch}
use fun_project.Common.Assoc.{Assoc, at_key, delete_key, set_key}

module _ {V : Type 0} (P : String → V → Type 0) where
  abbrev pub Entries : Assoc V → Type 0
  Entries [] = Unit
  Entries ((k, v) ∷ m) = P k v × Entries m

  abbrev pub Holds : String → Option V → Type 0
  Holds k none = Unit
  Holds k (some v) = P k v

  pub Entries-at_key : (m : Assoc V) (k : String) → Entries m → Holds k (at_key m k)
  unfolding at_key
  Entries-at_key [] k h = tt
  Entries-at_key ((j, v) ∷ m) k h =
      each_branch (Holds k) (j == k) (some v) (at_key m k)
        (λ here. subst (λ (i : String). P i v) ((eq_iff j k).0 here) h.0)
        (λ other. Entries-at_key m k h.1)

  pub Entries-delete_key : (m : Assoc V) (k : String) → Entries m → Entries (delete_key m k)
  unfolding delete_key
  Entries-delete_key [] k h = tt
  Entries-delete_key ((j, v) ∷ m) k h =
      let rest = Entries-delete_key m k h.1 in
      each_branch Entries (j == k) (delete_key m k) ((j, v) ∷ delete_key m k) (λ here. rest)
        (λ other. (h.0, rest))

  pub Entries-set_key :
      (m : Assoc V) (k : String) (v : V) → P k v → Entries m → Entries (set_key m k v)
  unfolding set_key
  Entries-set_key m k v here h = (here, Entries-delete_key m k h)
