-- ===== src/Serving/Retriever/Laws.antt =====
-- What a retrieval answers with.
use fun_project.Common.{
  ℕ, zero, suc, ◌≤◌, String, Bool, true, false, ◌&&◌, ◌||◌, List, [], ◌∷◌, ◌==◌, ◌≡◌, refl, sym, ap,
  ◌∙◌, subst, ◌⊎◌, inl, inr, ◌↔◌, eq_iff, if◌then◌else◌, either_branch, each_branch, arith, All,
  length, leb, mem_text,
}
use fun_project.Common.Exec.{Result, ok, err, and_then}
use fun_project.Common.Assoc.{Assoc}
use fun_project.Common.Count.{sort_with, place_with}
use fun_project.Common.Entries.{Entries}
use fun_project.Common.Sort.{Listed}
use fun_project.Storage.Query.{ℤ, Direction}
use fun_project.Storage.Schema.Float.{Float64, float_lt, float_zero, zero_is_less}
use fun_project.Serving.Client.{Z4Entity, Z4Relationship, Neighborhood}
use fun_project.Serving.Retriever.{
  ScoredNode, Subgraph, drop_threshold, max_nodes, survives, surviving, best_first, first_nodes,
  kept_of, kept_ids, edges_between, clamp_depth, by_id_of, propagate, score_and_prune, back_off,
  retrieve,
}
use fun_project.Serving.Retriever.Paths.{
  ScorePath, CarriesZero, IsScored, IsScored-by_id_of, IsScored-propagate,
}

length-first_nodes : (k : ℕ) (ns : List ScoredNode) → length (first_nodes k ns) ≤ k
unfolding first_nodes
length-first_nodes zero ns = omega arith
length-first_nodes (suc k) [] = omega arith
length-first_nodes (suc k) (n ∷ ns) = omega (arith, length-first_nodes k ns)

-- What holds of the nodes holds of those that are kept.
module _ (P : ScoredNode → Type 0) where
  All-first_nodes : (k : ℕ) (ns : List ScoredNode) → All P ns → All P (first_nodes k ns)
  unfolding first_nodes
  All-first_nodes zero ns h = tt
  All-first_nodes (suc k) [] h = tt
  All-first_nodes (suc k) (n ∷ ns) h = (h.0, All-first_nodes k ns h.1)

  All-place_with :
      (le : ScoredNode → ScoredNode → Bool) (a : ScoredNode) (ns : List ScoredNode)
      → P a
      → All P ns
      → All P (place_with le a ns)
  unfolding place_with
  All-place_with le a [] here h = (here, tt)
  All-place_with le a (n ∷ ns) here h =
      either_branch (All P) (le a n) (a ∷ n ∷ ns) (n ∷ place_with le a ns) (here, h)
        (h.0, All-place_with le a ns here h.1)

  All-sort_with :
      (le : ScoredNode → ScoredNode → Bool) (ns : List ScoredNode)
      → All P ns
      → All P (sort_with le ns)
  unfolding sort_with
  All-sort_with le [] h = tt
  All-sort_with le (n ∷ ns) h = All-place_with le n (sort_with le ns) h.0 (All-sort_with le ns h.1)

  All-kept_of : (id : String) (m : Assoc ScoredNode) → All P (surviving id m) → All P (kept_of id m)
  unfolding kept_of
  All-kept_of id m h = All-first_nodes max_nodes _ (All-sort_with best_first (surviving id m) h)

module _ (ids : List String) where
  abbrev ends_kept : Z4Relationship → Bool
  ends_kept e = mem_text e.from_id ids && mem_text e.to_id ids

  Listed-edges_between :
      (es : List Z4Relationship) (e : Z4Relationship)
      → Listed e (edges_between ids es) ↔ (Listed e es × (ends_kept e ≡ true))
  unfolding edges_between
  Listed-edges_between [] e = ((λ h. absurd h), (λ h. absurd h.0))
  Listed-edges_between (f ∷ es) e =
      let rest = Listed-edges_between es e in
      each_branch (λ ys. Listed e ys ↔ (((f ≡ e) ⊎ Listed e es) × (ends_kept e ≡ true)))
        (ends_kept f) (f ∷ edges_between ids es) (edges_between ids es)
        (λ kept. (
          (λ h. elim h [
            | inl here ↦ (inl here, subst (λ r. ends_kept r ≡ true) here kept)
            | inr later ↦ (inr (rest.0 later).0, (rest.0 later).1)
          ]),
          (λ h. elim h.0 [ inl here ↦ inl here | inr later ↦ inr (rest.1 (later, h.1)) ]),
        ))
        (λ cut. (
          (λ h. (inr (rest.0 h).0, (rest.0 h).1)),
          (λ h. elim h.0 [
            | inl here ↦
                absurd (ground (arith, cut, h.1, ap (λ (r : Z4Relationship). ends_kept r) here))
            | inr later ↦ rest.1 (later, h.1)
          ]),
        ))

low_zero : (s : Float64) → s ≡ float_zero → float_lt s drop_threshold ≡ false → ⊥
low_zero s zero_score high =
    let low : float_lt float_zero drop_threshold ≡ false =
      subst (λ (x : Float64). float_lt x drop_threshold ≡ false) zero_score high in
    ground (arith, low, zero_is_less)

module _ (mul : Float64 → Float64 → Float64) (nb : Neighborhood) where
  -- A node that storage answered with, other than the origin, whose score is that of a path and not below the
  -- threshold
  pub record IsKept (n : ScoredNode) : Type 0 where
    pub not_origin : (n.entity.id == nb.origin.id) ≡ false
    pub not_low : float_lt n.score drop_threshold ≡ false
    pub known : Listed n.entity nb.nodes
    pub path : ScorePath mul nb n.entity.id n.score

  IsKept-of :
      (id : String) (n : ScoredNode)
      → IsScored mul nb id n
      → survives nb.origin.id id n ≡ true
      → IsKept n
  unfolding survives
  IsKept-of id n h s =
      let apart : (id == nb.origin.id) ≡ false = ground (arith, s) in
      let other : (n.entity.id == nb.origin.id) ≡ false =
        ap (λ (i : String). i == nb.origin.id) h.own_id ∙ apart in
      record {
        not_origin = other;
        not_low = ground (arith, s);
        known = elim h.known [
          | inl e ↦ absurd (
              ground (arith, ap (λ (x : Z4Entity). x.id) e, other, eq_iff n.entity.id nb.origin.id))
          | inr l ↦ l
        ];
        path = elim h.path [
          | inl unreached ↦ absurd (low_zero n.score unreached (ground (arith, s)))
          | inr path ↦ subst (λ (i : String). ScorePath mul nb i n.score) (sym h.own_id) path
        ];
      }

  IsKept-surviving :
      (m : Assoc ScoredNode) → Entries (IsScored mul nb) m → All IsKept (surviving nb.origin.id m)
  unfolding surviving
  IsKept-surviving [] h = tt
  IsKept-surviving ((id, n) ∷ m) h =
      let rest = IsKept-surviving m h.1 in
      each_branch (All IsKept) (survives nb.origin.id id n) (n ∷ surviving nb.origin.id m)
        (surviving nb.origin.id m) (λ s. (IsKept-of id n h.0 s, rest)) (λ s. rest)

  -- What `Retrieve` makes of an answer of storage.
  pub record IsPruned (sub : Subgraph) : Type 0 where
    pub few : length sub.nodes ≤ 200
    pub kept : All IsKept sub.nodes
    pub joined :
        (e : Z4Relationship)
        → Listed e sub.edges ↔ (
            Listed e nb.edges
            × ((mem_text e.from_id (kept_ids nb.origin.id sub.nodes)
                  && mem_text e.to_id (kept_ids nb.origin.id sub.nodes))
                ≡ true))
    pub counted :
        (sub.stats.nodes_after_prune ≡ length sub.nodes) × (sub.stats.edges_kept ≡ length sub.edges)

  pub kept_few :
      (requested applied : ℕ) → length (score_and_prune mul nb requested applied).nodes ≤ 200
  unfolding score_and_prune kept_of
  kept_few requested applied = length-first_nodes 200 _

  -- For every answer of storage and every product of floats in which an edge of the answer carries 0 on as 0, the
  -- pruned graph has at most 200 nodes. Each is a node of the answer and not the origin, and its score is not below
  -- 0.15 and is that of a path of the answer's edges from the origin. An edge is kept just where it is one of the
  -- answer and joins nodes that are kept or the origin.
  pub score_and_prune-IsPruned :
      (requested applied : ℕ)
      → CarriesZero mul nb
      → IsPruned (score_and_prune mul nb requested applied)
  unfolding score_and_prune kept_of
  score_and_prune-IsPruned requested applied still =
      let m : Assoc ScoredNode = propagate mul 6 nb.origin.id nb.edges (by_id_of nb) in
      let scored = IsScored-propagate mul nb still 6 (by_id_of nb) (IsScored-by_id_of mul nb) in
      record {
        few = length-first_nodes 200 (sort_with best_first (surviving nb.origin.id m));
        kept = All-kept_of IsKept nb.origin.id m (IsKept-surviving m scored);
        joined = Listed-edges_between (kept_ids nb.origin.id (kept_of nb.origin.id m)) nb.edges;
        counted = (refl, refl);
      }

and_then-ext :
    {E A B : Type 0} (r : Result E A) (f g : A → Result E B)
    → ((a : A) → f a ≡ g a)
    → and_then r f ≡ and_then r g
and_then-ext (ok a) f g h = h a
and_then-ext (err e) f g h = refl

module _ (mul : Float64 → Float64 → Float64)
    (neighborhood : String → ℕ → Direction → Result String Neighborhood) where
  stops_at_once :
      (nb : Neighborhood) (requested d : ℕ) (rest : Result String Subgraph)
      → (if leb (length (score_and_prune mul nb requested d).nodes) max_nodes || leb d 1
          then ok (score_and_prune mul nb requested d)
          else rest)
        ≡ ok (score_and_prune mul nb requested d)
  stops_at_once nb requested d rest =
      let few = kept_few mul nb requested d in
      let within : leb (length (score_and_prune mul nb requested d).nodes) max_nodes ≡ true =
        ground (arith, few) in
      simp within refl

  back_off_once :
      (id : String) (dir : Direction) (requested d : ℕ)
      → back_off mul neighborhood id dir requested d
        ≡ and_then (neighborhood id d dir) (λ nb. ok (score_and_prune mul nb requested d))
  unfolding back_off
  back_off_once id dir requested zero = refl
  back_off_once id dir requested (suc d) =
      and_then-ext (neighborhood id (suc d) dir) _ _
        (λ nb. stops_at_once nb requested (suc d) (back_off mul neighborhood id dir requested d))

  -- Storage is asked once, for the depth that was asked for within 1 and 5, and what it answers is pruned: the
  -- pruning keeps so few nodes that a smaller depth is never tried.
  pub retrieve_once :
      (id : String) (depth : ℤ) (dir : Direction)
      → retrieve mul neighborhood id depth dir
        ≡ and_then
            (neighborhood id (clamp_depth depth) dir)
            (λ nb. ok (score_and_prune mul nb (clamp_depth depth) (clamp_depth depth)))
  unfolding retrieve
  retrieve_once id depth dir = back_off_once id dir (clamp_depth depth) (clamp_depth depth)
