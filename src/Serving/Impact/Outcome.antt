-- ===== src/Serving/Impact/Outcome.antt =====
-- The loop of CalculateBlastRadius in serving/internal/analytics/impact.go, and its answer.
use fun_project.Common.{
  ℕ, zero, suc, ◌-◌, ◌<◌, ◌≤◌, String, List, [], ◌∷◌, ◌≡◌, ◌≢◌, inl, inr, refl, sym, subst, arith,
  All, length, Bool-cases,
}
use fun_project.Common.Exec.{Result, ok, err, and_then}
use fun_project.Storage.Schema.Float.{Float64, float_lt}
use fun_project.Serving.Client.{Z4Entity, Neighborhood}
use fun_project.Serving.Impact.{
  AffectedNode, BlastRadius, Frame, ImpactError, origin_lookup, expansion, out_of_fuel, Search,
  clamp_depth, place_likely, most_likely_first, search_on, search, frame_count, first_search,
  radius_of, from_origin, calculate_blast_radius,
}
use fun_project.Serving.Impact.Spread.{
  at_origin, Spread-depth, Spread-positive, IsAffected, IsSpreadFrame, weight, IsSound, Steps,
  visit_frame-Steps,
}

module _ (P : AffectedNode → Type 0) where
  place_likely-All :
      (a : AffectedNode) (xs : List AffectedNode) → P a → All P xs → All P (place_likely a xs)
  unfolding place_likely
  place_likely-All a [] p h = (p, tt)
  place_likely-All a (x ∷ xs) p h =
      elim (Bool-cases (float_lt a.impact_probability x.impact_probability)) [
        | inl less ↦ simp less (h.0, place_likely-All a xs p h.1)
        | inr more ↦ simp more (p, h)
      ]

  most_likely_first-All : (xs : List AffectedNode) → All P xs → All P (most_likely_first xs)
  unfolding most_likely_first
  most_likely_first-All [] h = tt
  most_likely_first-All (a ∷ xs) h =
      place_likely-All a (most_likely_first xs) h.0 (most_likely_first-All xs h.1)

All-map :
    (P Q : AffectedNode → Type 0) (xs : List AffectedNode)
    → ((a : AffectedNode) → P a → Q a)
    → All P xs
    → All Q xs
All-map P Q [] f h = tt
All-map P Q (x ∷ xs) f h = (f x h.0, All-map P Q xs f h.1)

length-place_likely :
    (a : AffectedNode) (xs : List AffectedNode) → length (place_likely a xs) ≡ suc (length xs)
unfolding place_likely
length-place_likely a [] = refl
length-place_likely a (x ∷ xs) = ground (arith, length-place_likely a xs)

length-most_likely_first : (xs : List AffectedNode) → length (most_likely_first xs) ≡ length xs
unfolding most_likely_first
length-most_likely_first [] = refl
length-most_likely_first (a ∷ xs) =
    omega (arith, length-place_likely a (most_likely_first xs), length-most_likely_first xs)

ok_eq : {E A : Type 0} {a b : A} → ◌≡◌ {A = Result E A} (ok a) (ok b) → a ≡ b
ok_eq h = cc (h)

module _ (mul : Float64 → Float64 → Float64) (get_entity : String → Result String Z4Entity)
    (neighborhood : String → Result String Neighborhood) where
  -- A result of the search: an answer that spreads, or an error of the client
  abbrev Ends : String → ℕ → Result ImpactError Search → Type 0
  Ends id depth (ok s) = All (IsAffected mul get_entity neighborhood id depth) s.affected
  Ends id depth (err (origin_lookup why)) = Unit
  Ends id depth (err (expansion at why)) = Unit
  Ends id depth (err out_of_fuel) = ⊥

  module _ (id : String) (depth : ℕ) where
    search_on-Ends :
        (next : Search → Result ImpactError Search) (w : ℕ) (r : Result ImpactError Search)
        → Steps mul get_entity neighborhood id depth w r
        → ((s : Search)
            → IsSound mul get_entity neighborhood id depth s
            → weight mul get_entity neighborhood id depth s.queue < w
            → Ends id depth (next s))
        → Ends id depth (and_then r next)
    search_on-Ends next w (ok s) (h, l) each = each s h l
    search_on-Ends next w (err (origin_lookup why)) h each = tt
    search_on-Ends next w (err (expansion at why)) h each = tt
    search_on-Ends next w (err out_of_fuel) h each = h

    queue_rest :
        (next : Search → Result ImpactError Search) (q : List Frame) (s : Search)
        → All (IsSpreadFrame mul get_entity neighborhood id depth) q
        → All (IsAffected mul get_entity neighborhood id depth) s.affected
        → ((t : Search)
            → IsSound mul get_entity neighborhood id depth t
            → weight mul get_entity neighborhood id depth t.queue
              < weight mul get_entity neighborhood id depth q
            → Ends id depth (next t))
        → Ends id depth (search_on mul get_entity neighborhood id depth next q s)
    unfolding search_on
    queue_rest next [] s qs h each = h
    queue_rest next (f ∷ q) s qs h each =
        search_on-Ends next _ _
          (visit_frame-Steps mul get_entity neighborhood id depth f (record s { queue = q }) qs.0
            (record { queued = qs.1; answered = h }))
          each

    search-Ends :
        (n : ℕ) (s : Search)
        → IsSound mul get_entity neighborhood id depth s
        → weight mul get_entity neighborhood id depth s.queue < n
        → Ends id depth (search mul get_entity neighborhood id depth n s)
    unfolding search
    search-Ends zero s i h = absurd (omega arith)
    search-Ends (suc n) s i h =
        queue_rest (search mul get_entity neighborhood id depth n) s.queue s i.queued i.answered
          (λ t j l. search-Ends n t j (omega (arith, l, h)))

    weight-first :
        weight mul get_entity neighborhood id depth
          (first_search mul get_entity neighborhood id).queue
        < suc (frame_count mul get_entity neighborhood depth id)
    unfolding weight
    weight-first = let e : depth - 0 ≡ depth = omega arith in rw e (omega arith)

    first-Ends : Ends id depth (
        search mul get_entity neighborhood id depth
          (suc (frame_count mul get_entity neighborhood depth id))
          (first_search mul get_entity neighborhood id))
    first-Ends = search-Ends _ _ (record { queued = (at_origin, tt); answered = tt }) weight-first

  radius_of-Ends :
      (origin : Z4Entity) (id : String) (depth : ℕ) (r : Result ImpactError Search)
      → Ends id depth r
      → radius_of mul get_entity neighborhood origin depth r ≢ err out_of_fuel
  unfolding radius_of
  radius_of-Ends origin id depth (ok s) h e = absurd (cc)
  radius_of-Ends origin id depth (err (origin_lookup why)) h e = absurd (cc)
  radius_of-Ends origin id depth (err (expansion at why)) h e = absurd (cc)
  radius_of-Ends origin id depth (err out_of_fuel) h e = h

  from_origin-ends :
      (id : String) (depth : ℕ) (r : Result String Z4Entity)
      → from_origin mul get_entity neighborhood id depth r ≢ err out_of_fuel
  unfolding from_origin
  from_origin-ends id depth (err why) e = absurd (cc)
  from_origin-ends id depth (ok origin) e = radius_of-Ends origin id depth _ (first-Ends id depth) e

  -- The search of the blast radius ends for every graph and every product of probabilities, cycles
  -- included, after at most one round for each walk of at most the depth along listed edges, and one.
  pub calculate_blast_radius_ends :
      (id : String) (depth : ℕ)
      → calculate_blast_radius mul get_entity neighborhood id depth ≢ err out_of_fuel
  unfolding calculate_blast_radius
  calculate_blast_radius_ends id depth = from_origin-ends id (clamp_depth depth) (get_entity id)

  -- What an answer says
  pub record IsRadius (id : String) (origin : Z4Entity) (depth : ℕ) (b : BlastRadius) : Type 0 where
    pub from : b.origin ≡ origin
    pub deep : b.max_depth ≡ depth
    pub spread : All (IsAffected mul get_entity neighborhood id depth) b.affected
    pub near : All (λ a. (0 < a.depth) × (a.depth ≤ depth)) b.affected
    pub counted : b.total_affected ≡ length b.affected

  radius_of-IsRadius :
      (origin : Z4Entity) (id : String) (depth : ℕ) (b : BlastRadius)
      (r : Result ImpactError Search)
      → Ends id depth r
      → radius_of mul get_entity neighborhood origin depth r ≡ ok b
      → IsRadius id origin depth b
  unfolding radius_of
  radius_of-IsRadius origin id depth b (ok s) h e =
      let spreads = IsAffected mul get_entity neighborhood id depth in
      let sorted = most_likely_first-All spreads s.affected h in
      subst (IsRadius id origin depth) (ok_eq e) (record {
        from = refl;
        deep = refl;
        spread = sorted;
        near =
            All-map spreads (λ a. (0 < a.depth) × (a.depth ≤ depth)) (most_likely_first s.affected)
              (λ (a : AffectedNode) (q : spreads a). (
                Spread-positive mul get_entity neighborhood id depth a.node_id a.depth
                    a.impact_probability q.0 q.1,
                Spread-depth mul get_entity neighborhood id depth a.node_id a.depth
                    a.impact_probability q.0,
              ))
              sorted;
        counted = sym (length-most_likely_first s.affected);
      })
  radius_of-IsRadius origin id depth b (err x) h e = absurd (cc)

  from_origin-IsRadius :
      (id : String) (depth : ℕ) (b : BlastRadius) (r : Result String Z4Entity)
      → get_entity id ≡ r
      → from_origin mul get_entity neighborhood id depth r ≡ ok b
      → (origin : Z4Entity) × (get_entity id ≡ ok origin) × IsRadius id origin depth b
  unfolding from_origin
  from_origin-IsRadius id depth b (err why) g e = absurd (cc)
  from_origin-IsRadius id depth b (ok origin) g e =
      (origin, g, radius_of-IsRadius origin id depth b _ (first-Ends id depth) e)

  -- A blast radius that is returned has the entity of the id as its origin, and each node of it is not
  -- the origin and is reached along incoming edges, each of which passes on more than the threshold, in
  -- as many steps as its depth says, between 1 and the depth brought into 1..5, with its probability.
  pub calculate_blast_radius-IsRadius :
      (id : String) (depth : ℕ) (b : BlastRadius)
      → calculate_blast_radius mul get_entity neighborhood id depth ≡ ok b
      → (origin : Z4Entity) × (get_entity id ≡ ok origin) × IsRadius id origin (clamp_depth depth) b
  unfolding calculate_blast_radius
  calculate_blast_radius-IsRadius id depth b e =
      from_origin-IsRadius id (clamp_depth depth) b (get_entity id) refl e
