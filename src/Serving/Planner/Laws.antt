-- ===== src/Serving/Planner/Laws.antt =====
-- The plans that are made, and how deep an analysis of impact looks.
use fun_project.Common.{
  ℕ, ◌≤◌, true, false, ◌==◌, ◌≡◌, refl, ◌⊎◌, inl, inr, arith, each_branch, some, ltb,
}
use fun_project.Common.Exec.{Result, ok, err}
use fun_project.Storage.Query.{ℤ, pos, negsuc, both}
use fun_project.Serving.Intent.{Archetype, structural, runtime, temporal, impact, governance}
use fun_project.Serving.Planner.{
  Action, fetch_neighborhood, read_log, impact_analysis, health_audit, Plan, Request, PlanError,
  missing_namespace, impact_needs_entity, structural_needs_entity, max_or, entity_of, default_depth,
}

abbrev pub IsAtLeast : ℕ → ℤ → Type 0
IsAtLeast n (pos d) = n ≤ d
IsAtLeast n (negsuc d) = ⊥

-- At least as deep as the depth that was asked for
abbrev pub IsAsDeep : ℤ → ℤ → Type 0
IsAsDeep (pos n) d = IsAtLeast n d
IsAsDeep (negsuc n) d = Unit

-- The action of a question about an entity, with the entity that the request names
abbrev pub NamesFor : Action → Request → Plan → Type 0
NamesFor a req p =
    (p.action ≡ a) × (p.entity_name ≡ entity_of req) × ((p.entity_name == "") ≡ false)

abbrev pub LooksAround : Request → Plan → Type 0
LooksAround req p =
    NamesFor fetch_neighborhood req p
    × (p.depth ≡ default_depth req.depth)
    × (p.direction ≡ some both)

-- The action that a question of the archetype asks for, and what the action reads
abbrev pub Carries : Archetype → Request → Plan → Type 0
Carries impact req p =
    NamesFor impact_analysis req p
    × IsAtLeast 5 p.depth
    × IsAsDeep (default_depth req.depth) p.depth
    × ((p.depth ≡ pos 5) ⊎ (p.depth ≡ default_depth req.depth))
Carries governance req p = (p.action ≡ health_audit) × ((p.namespace == "") ≡ false)
Carries temporal req p = p.action ≡ read_log
Carries structural req p = LooksAround req p
Carries runtime req p = LooksAround req p

-- Why there is no plan
abbrev pub Lacks : Archetype → Request → PlanError → Type 0
Lacks a req missing_namespace = (a ≡ governance) × ((req.namespace == "") ≡ true)
Lacks a req impact_needs_entity = (a ≡ impact) × ((entity_of req == "") ≡ true)
Lacks a req structural_needs_entity =
    ((a ≡ structural) ⊎ (a ≡ runtime)) × ((entity_of req == "") ≡ true)

abbrev pub IsPlanned : Archetype → Request → Result PlanError Plan → Type 0
IsPlanned a req (ok p) = (p.namespace ≡ req.namespace) × Carries a req p
IsPlanned a req (err e) = Lacks a req e

pub max_or_five :
    (d : ℤ)
    → IsAtLeast 5 (max_or d (pos 5))
      × IsAsDeep d (max_or d (pos 5))
      × ((max_or d (pos 5) ≡ pos 5) ⊎ (max_or d (pos 5) ≡ d))
unfolding max_or
max_or_five (pos d) =
    each_branch (λ m. IsAtLeast 5 m × IsAsDeep (pos d) m × ((m ≡ pos 5) ⊎ (m ≡ pos d))) (ltb 5 d)
      (pos d) (pos 5) (λ h. (ground (arith, h), omega arith, inr refl))
      (λ h. (omega arith, ground (arith, h), inl refl))
max_or_five (negsuc d) = (omega arith, tt, inl refl)
