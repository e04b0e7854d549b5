-- ===== src/Serving/Impact/Spread.antt =====
-- How a failure spreads, as a relation, and what one frame of the search adds.
use fun_project.Common.{
  ℕ, zero, suc, ◌+◌, ◌-◌, ◌<◌, ◌≤◌, String, false, ◌||◌, not, List, [], ◌∷◌, ◌++◌, ◌==◌, ◌≡◌, ◌≢◌,
  inl, inr, refl, arith, eq_iff, leb, All, All-append, Bool-cases,
}
use fun_project.Common.Exec.{Result, ok, err}
use fun_project.Common.Assoc.{at_key, set_key}
use fun_project.Common.Sort.{Listed}
use fun_project.Storage.Schema.Float.{Float64, float_one}
use fun_project.Serving.Client.{Z4Entity, Z4Relationship, Neighborhood}
use fun_project.Serving.Impact.{
  passed_on, float_ge, impact_prune_thresh, AffectedNode, Frame, ImpactError, Search, frames_of,
  note_node, expand, visit_frame, edge_calls, edges_in, frame_count, seen_as_likely, origin_lookup,
  expansion, out_of_fuel,
}

module _ (mul : Float64 → Float64 → Float64) (get_entity : String → Result String Z4Entity)
    (neighborhood : String → Result String Neighborhood) where
  -- An edge that enters the node and passes on more than the threshold
  pub record Carries (p : Float64) (e : Z4Relationship) (id : String) (es : List Z4Relationship)
      : Type 0 where
    pub listed : Listed e es
    pub enters : e.to_id ≡ id
    pub above : float_ge impact_prune_thresh (passed_on mul get_entity neighborhood p e) ≡ false

  module _ (origin_id : String) (max_depth : ℕ) where
    -- The failure reaches an id with a depth and a probability along incoming edges, from the origin.
    pub data Spread : String → ℕ → Float64 → Type 0 where
      at_origin : Spread origin_id 0 float_one
      along :
          (id : String) (d : ℕ) (p : Float64) (nb : Neighborhood) (e : Z4Relationship)
          → Spread id d p
          → d < max_depth
          → neighborhood id ≡ ok nb
          → Carries p e id nb.edges
          → Spread e.from_id (suc d) (passed_on mul get_entity neighborhood p e)

    pub Spread-depth : (id : String) (d : ℕ) (p : Float64) → Spread id d p → d ≤ max_depth
    Spread-depth _ _ _ at_origin = omega arith
    Spread-depth _ _ _ (along id d p nb e s h n c) = omega (arith, h)

    pub Spread-positive :
        (id : String) (d : ℕ) (p : Float64) → Spread id d p → id ≢ origin_id → 0 < d
    Spread-positive _ _ _ at_origin h = absurd (h refl)
    Spread-positive _ _ _ (along id d p nb e s l n c) h = omega arith

    abbrev pub IsSpreadFrame : Frame → Type 0
    IsSpreadFrame f = Spread f.node_id f.depth f.prob

    -- A node of the answer, as the relation has it
    abbrev pub IsAffected : AffectedNode → Type 0
    IsAffected a = Spread a.node_id a.depth a.impact_probability × (a.node_id ≢ origin_id)

    -- What the frames of the queue can still make
    unfoldable pub weight : List Frame → ℕ
    weight [] = 0
    weight (f ∷ q) =
        frame_count mul get_entity neighborhood (max_depth - f.depth) f.node_id + weight q

    pub weight-append : (q r : List Frame) → weight (q ++ r) ≡ weight q + weight r
    unfolding weight
    weight-append [] r = omega arith
    weight-append (f ∷ q) r = omega (arith, weight-append q r)

    weight-frames_of :
        (f : Frame) (es : List Z4Relationship)
        → weight (frames_of mul get_entity neighborhood f es)
          ≤ edge_calls mul get_entity neighborhood
              (frame_count mul get_entity neighborhood (max_depth - suc f.depth))
              es
    unfolding frames_of edge_calls weight
    weight-frames_of f [] = omega arith
    weight-frames_of f (e ∷ es) =
        let rest = weight-frames_of f es in
        elim (Bool-cases (
          not (e.to_id == f.node_id)
          || float_ge impact_prune_thresh (passed_on mul get_entity neighborhood f.prob e))) [
            | inl dropped ↦ simp dropped (omega (arith, rest))
            | inr carried ↦ simp carried (omega (arith, rest))
          ]

    frames_of-IsSpread :
        (f : Frame) (nb : Neighborhood) (es : List Z4Relationship)
        → ((e : Z4Relationship) → Listed e es → Listed e nb.edges)
        → IsSpreadFrame f
        → f.depth < max_depth
        → neighborhood f.node_id ≡ ok nb
        → All IsSpreadFrame (frames_of mul get_entity neighborhood f es)
    unfolding frames_of
    frames_of-IsSpread f nb [] part s h n = tt
    frames_of-IsSpread f nb (e ∷ es) part s h n =
        let rest = frames_of-IsSpread f nb es (λ x l. part x (inr l)) s h n in
        elim (Bool-cases (
          not (e.to_id == f.node_id)
          || float_ge impact_prune_thresh (passed_on mul get_entity neighborhood f.prob e))) [
            | inl dropped ↦ simp dropped rest
            | inr carried ↦ simp carried (
              along f.node_id f.depth f.prob nb e s h n (record {
                listed = part e (inl refl);
                enters = (eq_iff e.to_id f.node_id).0 (ground (arith, carried));
                above = ground (arith, carried);
              }),
              rest,
            )
          ]

    -- A frame that may still spread pays for the frames that it makes.
    weight-expand :
        (f : Frame) (nb : Neighborhood)
        → f.depth < max_depth
        → neighborhood f.node_id ≡ ok nb
        → suc (weight (frames_of mul get_entity neighborhood f nb.edges))
          ≤ frame_count mul get_entity neighborhood (max_depth - f.depth) f.node_id
    unfolding frame_count edges_in
    weight-expand f nb h n =
        let e : max_depth - f.depth ≡ suc (max_depth - suc f.depth) = omega (arith, h) in
        rw (e, n) (omega (arith, weight-frames_of f nb.edges))

    frame_count-positive : (k : ℕ) (id : String) → 0 < frame_count mul get_entity neighborhood k id
    unfolding frame_count
    frame_count-positive zero id = omega arith
    frame_count-positive (suc k) id = omega arith

    -- A state of the search: its queue and its answer so far spread from the origin.
    pub record IsSound (s : Search) : Type 0 where
      pub queued : All IsSpreadFrame s.queue
      pub answered : All IsAffected s.affected

    -- What a frame leaves: a sound state with less to do, or an error of the client
    abbrev pub Steps : ℕ → Result ImpactError Search → Type 0
    Steps w (ok s) = IsSound s × (weight s.queue < w)
    Steps w (err (origin_lookup why)) = Unit
    Steps w (err (expansion id why)) = Unit
    Steps w (err out_of_fuel) = ⊥

    note_node-All :
        (f : Frame) (nb : Neighborhood) (xs : List AffectedNode)
        → IsSpreadFrame f
        → All IsAffected xs
        → All IsAffected (note_node mul get_entity neighborhood origin_id max_depth f nb xs)
    unfolding note_node
    note_node-All f nb xs s h = elim (Bool-cases (f.node_id == origin_id)) [
      | inl own ↦ simp own h
      | inr other ↦ simp other (
          All-append IsAffected xs _ h
            ((s, (λ e. ground (arith, e, other, eq_iff f.node_id origin_id))), tt))
    ]

    expand-Steps :
        (f : Frame) (s : Search) (r : Result String Neighborhood)
        → neighborhood f.node_id ≡ r
        → IsSpreadFrame f
        → IsSound s
        → Steps
            (weight (f ∷ s.queue))
            (expand mul get_entity neighborhood origin_id max_depth f r s)
    unfolding expand weight
    expand-Steps f s (err why) n h i = tt
    expand-Steps f s (ok nb) n h i = elim (Bool-cases (leb max_depth f.depth)) [
      | inl deep ↦ simp deep (
        record { queued = i.queued; answered = note_node-All f nb s.affected h i.answered },
        omega (arith, frame_count-positive (max_depth - f.depth) f.node_id),
      )
      | inr shallow ↦
          let d : f.depth < max_depth = ground (arith, shallow) in
          simp shallow (
            record {
              queued =
                  All-append IsSpreadFrame s.queue _ i.queued
                    (frames_of-IsSpread f nb nb.edges (λ e l. l) h d n);
              answered = note_node-All f nb s.affected h i.answered;
            },
            omega (
              arith,
              weight-append s.queue (frames_of mul get_entity neighborhood f nb.edges),
              weight-expand f nb d n,
            ),
          )
    ]

    pub visit_frame-Steps :
        (f : Frame) (s : Search)
        → IsSpreadFrame f
        → IsSound s
        → Steps
            (weight (f ∷ s.queue))
            (visit_frame mul get_entity neighborhood origin_id max_depth f s)
    unfolding visit_frame weight
    visit_frame-Steps f s h i =
        let fresh =
          expand-Steps f (record s { visited = set_key s.visited f.node_id f.prob })
            (neighborhood f.node_id) refl h (record { queued = i.queued; answered = i.answered }) in
        elim (Bool-cases (seen_as_likely (at_key s.visited f.node_id) f.prob)) [
          | inl seen ↦
              simp seen (i, omega (arith, frame_count-positive (max_depth - f.depth) f.node_id))
          | inr new ↦ simp new fresh
        ]
