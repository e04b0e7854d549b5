-- ===== src/Storage/Query/Reach.antt =====
-- What a traversal may reach: nodes within a number of hops of the origin over active edges, and the
-- edges at the nodes that a hop starts from.
use fun_project.Common.{ℕ, suc, String, List, [], ◌∷◌, ◌⊎◌, inl, inr, ◌≡◌, refl, All}
use fun_project.Storage.Schema.Types.{Relationship}
use fun_project.Storage.Query.{View, Direction, edges_for_node, other_end}

-- The edge is one of the list.
abbrev pub Among : Relationship → List Relationship → Type 0
Among r [] = ⊥
Among r (x ∷ xs) = (x ≡ r) ⊎ Among r xs

module _ (view : View) (dir : Direction) (origin : String) where
  pub data Within : ℕ → String → Type 0 where
    home : (n : ℕ) → Within n origin
    hop :
        (n : ℕ) (id : String) (r : Relationship)
        → Within n id
        → Among r (edges_for_node view id dir)
        → Within (suc n) (other_end id r)

  -- The edge is at a node from which one more hop stays within the bound.
  pub data Crossed : ℕ → Relationship → Type 0 where
    crossed :
        (n : ℕ) (id : String) (r : Relationship)
        → Within n id
        → Among r (edges_for_node view id dir)
        → Crossed (suc n) r

  pub Within-suc : (n : ℕ) (id : String) → Within n id → Within (suc n) id
  Within-suc _ _ (home n) = home (suc n)
  Within-suc _ _ (hop n id r w a) = hop (suc n) id r (Within-suc n id w) a

  pub Crossed-suc : (n : ℕ) (r : Relationship) → Crossed n r → Crossed (suc n) r
  Crossed-suc _ _ (crossed n id r w a) = crossed (suc n) id r (Within-suc n id w) a

-- Every member of a part of the list is a member of the list.
pub All-Among : (xs : List Relationship) → All (λ r. Among r xs) xs
All-Among [] = tt
All-Among (x ∷ xs) = (inl refl, weaken x xs xs (All-Among xs))
  where
    weaken :
        (x : Relationship) (xs ys : List Relationship)
        → All (λ r. Among r xs) ys
        → All (λ r. Among r (x ∷ xs)) ys
    weaken x xs [] h = tt
    weaken x xs (y ∷ ys) h = (inr h.0, weaken x xs ys h.1)
