-- ===== src/Ingestion/Plan/Visit.antt =====
-- The search of topoOrder: what a visit leaves, and that the depth never runs out.
use fun_project.Common.{
  ℕ, zero, suc, ◌<◌, String, Option, none, some, List, [], ◌∷◌, ◌++◌, ◌≡◌, refl, arith, eq_iff,
  mem_text, ◌==◌, Bool-cases, inl, inr, subst,
}
use fun_project.Common.Exec.{Result, ok, err, and_then}
use fun_project.Common.Assoc.{Assoc, at_key, keys}
use fun_project.Ingestion.Contract.{Ingestor}
use fun_project.Ingestion.Registry.{id_of}
use fun_project.Ingestion.Plan.{
  Color, in_progress, finished, PlanError, cycle, unregistered, out_of_fuel, Marks, mark, visit,
  visit_each, by_color, finish_visit,
}
use fun_project.Ingestion.Plan.Order.{mem_text-keys}
use fun_project.Ingestion.Plan.Coloring.{
  unseen, unseen-le, unseen-lt, Extends-refl, Extends-trans, Inv, Visited, AllVisited, Inv-mark,
  finish_visit-Visited,
}

module _ (by_id : Assoc Ingestor)
    (keyed : (k : String) (i : Ingestor) → at_key by_id k ≡ some i → id_of i ≡ k) where
  -- A visit ends, by a result as it should be or by an error of the source's.
  abbrev pub Ends : String → Marks → Result PlanError Marks → Type 0
  Ends id s (ok s') = Visited by_id keyed id s s'
  Ends id s (err out_of_fuel) = ⊥
  Ends id s (err (cycle stack k)) = Unit
  Ends id s (err (unregistered k stack)) = Unit

  abbrev pub AllEnd : List String → Marks → Result PlanError Marks → Type 0
  AllEnd ds s (ok s') = AllVisited by_id keyed ds s s'
  AllEnd ds s (err out_of_fuel) = ⊥
  AllEnd ds s (err (cycle stack k)) = Unit
  AllEnd ds s (err (unregistered k stack)) = Unit

  abbrev pub left : Marks → ℕ
  left s = unseen (keys by_id) s.color

  AllEnd-later :
      (d : String) (ds : List String) (s s' : Marks) (r : Result PlanError Marks)
      → Visited by_id keyed d s s'
      → AllEnd ds s' r
      → AllEnd (d ∷ ds) s r
  unfolding mem_text
  AllEnd-later d ds s s' (ok t) e a = record {
    inv = a.inv;
    extends = Extends-trans s s' t e.extends a.extends;
    done = λ k m. elim (Bool-cases (d == k)) [
      | inl same ↦
          subst (λ j. at_key t.color j ≡ some finished) ((eq_iff d k).0 same)
            (a.extends.stays d finished e.done)
      | inr other ↦ a.done k (simp other at m)
    ];
  }
  AllEnd-later d ds s s' (err out_of_fuel) e a = a
  AllEnd-later d ds s s' (err (cycle stack k)) e a = tt
  AllEnd-later d ds s s' (err (unregistered k stack)) e a = tt

  AllEnd-cons :
      (f : String → Marks → Result PlanError Marks) (d : String) (ds : List String) (s : Marks)
      (r : Result PlanError Marks)
      → Ends d s r
      → ((s' : Marks) → Visited by_id keyed d s s' → AllEnd ds s' (visit_each f ds s'))
      → AllEnd (d ∷ ds) s (and_then r (visit_each f ds))
  AllEnd-cons f d ds s (ok s') e rest = AllEnd-later d ds s s' (visit_each f ds s') e (rest s' e)
  AllEnd-cons f d ds s (err out_of_fuel) e rest = e
  AllEnd-cons f d ds s (err (cycle stack k)) e rest = tt
  AllEnd-cons f d ds s (err (unregistered k stack)) e rest = tt

  -- The loop over ids, where each visit ends as long as enough ids are colored.
  pub visit_each-AllEnd :
      (n : ℕ) (f : String → Marks → Result PlanError Marks)
      → ((d : String) (s : Marks) → Inv by_id keyed s → left s < n → Ends d s (f d s))
      → (ds : List String) (s : Marks) → Inv by_id keyed s
      → left s < n
      → AllEnd ds s (visit_each f ds s)
  unfolding visit_each mem_text
  visit_each-AllEnd n f each [] s i h = record {
    inv = i;
    extends = Extends-refl s;
    done = λ d m. absurd (cc);
  }
  visit_each-AllEnd n f each (d ∷ ds) s i h = AllEnd-cons f d ds s (f d s) (each d s i h) (λ s' e.
      visit_each-AllEnd n f each ds s' e.inv
        (omega (arith, unseen-le (keys by_id) s.color s'.color e.extends.stays)))

  AllEnd-finish :
      (id : String) (ing : Ingestor) (s : Marks) (r : Result PlanError Marks)
      → at_key s.color id ≡ none
      → at_key by_id id ≡ some ing
      → AllEnd ing.metadata.dependencies (mark id in_progress s) r
      → Ends id s (and_then r (finish_visit id ing))
  unfolding finish_visit
  AllEnd-finish id ing s (ok t) new found a =
      finish_visit-Visited by_id keyed id ing s t new found a
  AllEnd-finish id ing s (err out_of_fuel) new found a = a
  AllEnd-finish id ing s (err (cycle stack k)) new found a = tt
  AllEnd-finish id ing s (err (unregistered k stack)) new found a = tt

  by_color-Ends :
      (n : ℕ) (f : String → Marks → Result PlanError Marks)
      → ((d : String) (s : Marks) → Inv by_id keyed s → left s < n → Ends d s (f d s))
      → (id : String) (stack : List String) (c : Option Color) (o : Option Ingestor) (s : Marks)
      → at_key s.color id ≡ c
      → at_key by_id id ≡ o
      → Inv by_id keyed s
      → left s < suc n
      → Ends id s (by_color by_id f id stack c o s)
  unfolding by_color
  by_color-Ends n f each id stack (some in_progress) o s new found i h = tt
  by_color-Ends n f each id stack (some finished) o s new found i h = record {
    inv = i;
    extends = Extends-refl s;
    done = new;
  }
  by_color-Ends n f each id stack none none s new found i h = tt
  by_color-Ends n f each id stack none (some ing) s new found i h =
      AllEnd-finish id ing s _ new found (
        visit_each-AllEnd n f each ing.metadata.dependencies (mark id in_progress s)
          (Inv-mark by_id keyed id s new i)
          (omega (
            arith,
            unseen-lt (keys by_id) s.color id in_progress (mem_text-keys by_id id ing found) new,
          )))

  -- With more fuel than uncolored ids a visit ends.
  pub visit-Ends :
      (n : ℕ) (id : String) (stack : List String) (s : Marks)
      → Inv by_id keyed s
      → left s < n
      → Ends id s (visit by_id n id stack s)
  unfolding visit
  visit-Ends zero id stack s i h = absurd (omega arith)
  visit-Ends (suc n) id stack s i h =
      by_color-Ends n (λ dep. visit by_id n dep (stack ++ id ∷ []))
        (λ d t. visit-Ends n d (stack ++ id ∷ []) t) id stack _ _ s refl refl i h
