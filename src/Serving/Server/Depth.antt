-- ===== src/Serving/Server/Depth.antt =====
-- How deep the analysis of impact looks that answers a question.
use fun_project.Common.{
  ℕ, ◌≤◌, String, ◌==◌, Option, some, none, ◌≡◌, refl, ap, sym, ◌∙◌, subst, arith, Bool-cases, inl,
  inr,
}
use fun_project.Common.Exec.{Result, ok, err}
use fun_project.Storage.Query.{ℤ, pos, negsuc, inbound}
use fun_project.Serving.Client.{Z4Entity}
use fun_project.Serving.Impact.{
  BlastRadius, ImpactError, clamp_depth, from_origin, calculate_blast_radius,
}
use fun_project.Serving.Intent.{Archetype, impact, Classification, classify}
use fun_project.Serving.Planner.{Plan, Request, default_depth, entity_of, plan_for, make}
use fun_project.Serving.Planner.Laws.{IsAtLeast, max_or_five}
use fun_project.Serving.Server.Laws.{request_of}
use fun_project.Serving.Server.{
  Backend, ClientError, AskReq, Found, Body, asked, Response, shown, depth_of, blast_radius_of,
  blast_radius, or_internal, ask_impact, carry_out, carry_out_plan, handle_ask,
}

clamp_depth-five : (n : ℕ) → 5 ≤ n → clamp_depth n ≡ 5
unfolding clamp_depth
clamp_depth-five n h = ground (arith, h)

module _ (Health Answer : Type 0) (b : Backend Health Answer) where
  at_least_five :
      (id : String) (d : ℤ)
      → IsAtLeast 5 d
      → blast_radius_of Health Answer b id d ≡ blast_radius_of Health Answer b id (pos 5)
  unfolding calculate_blast_radius depth_of
  at_least_five id (negsuc n) h = absurd h
  at_least_five id (pos n) h =
      ap
        (λ (k : ℕ).
          from_origin b.mul (λ i. shown (b.get_entity i))
            (λ i. shown (b.neighborhood i (pos 1) inbound)) id k (shown (b.get_entity id)))
        (clamp_depth-five n h ∙ sym (clamp_depth-five 5 (omega arith)))

  -- What a response has found, without the plan that it repeats
  abbrev pub found_of : Body Health Answer → Option (Found Health Answer)
  found_of (asked plan cls found) = some found
  found_of _ = none

  -- Two responses with one status and one find
  abbrev pub IsAlike : Response Health Answer → Response Health Answer → Type 0
  IsAlike r r' = (r.status ≡ r'.status) × (found_of r.body ≡ found_of r'.body)

  reported-IsAlike :
      (p p' : Plan) (cls : Classification) (r : Result ImpactError BlastRadius)
      → IsAlike
          (or_internal Health Answer "blast_radius_failed" (λ x. asked p cls (blast_radius x)) r)
          (or_internal Health Answer "blast_radius_failed" (λ x. asked p' cls (blast_radius x)) r)
  unfolding or_internal
  reported-IsAlike p p' cls (ok r) = (refl, refl)
  reported-IsAlike p p' cls (err e) = (refl, refl)

  ask_impact-IsAlike :
      (p p' : Plan) (cls : Classification) (r : Result ClientError Z4Entity)
      → IsAtLeast 5 p.depth
      → IsAtLeast 5 p'.depth
      → IsAlike
          (ask_impact Health Answer b p (asked p cls) r)
          (ask_impact Health Answer b p' (asked p' cls) r)
  unfolding ask_impact
  ask_impact-IsAlike p p' cls (err e) h h' = (refl, refl)
  ask_impact-IsAlike p p' cls (ok e) h h' =
      rw (at_least_five e.id p.depth h, at_least_five e.id p'.depth h')
        (reported-IsAlike p p' cls (blast_radius_of Health Answer b e.id (pos 5)))

  planned-IsAlike :
      (req : Request) (d : ℤ) (cls : Classification)
      → IsAlike (carry_out_plan Health Answer b req.question cls (plan_for impact req)) (
          carry_out_plan Health Answer b req.question cls
            (plan_for impact (record req { depth = d })))
  unfolding carry_out_plan carry_out plan_for entity_of
  planned-IsAlike req d cls = elim (Bool-cases (entity_of req == "")) [
    | inl unnamed ↦ simp unnamed (refl, refl)
    | inr named ↦ simp named (
        ask_impact-IsAlike _ _ cls (b.entity_by_name req.namespace (entity_of req))
          (max_or_five (default_depth req.depth)).0 (max_or_five (default_depth d)).0)
  ]

  -- The depth that a question about impact asks for has no effect on what is found: two requests that differ in
  -- the depth only are answered with one status, and with one blast radius where there is one. (The body also
  -- repeats the plan, in which the depths can differ.)
  pub impact_depth :
      (req : AskReq) (d : ℤ)
      → (classify req.question).archetype ≡ impact
      → IsAlike
          (handle_ask Health Answer b (some req))
          (handle_ask Health Answer b (some (record req { depth = d })))
  unfolding handle_ask make
  impact_depth req d asks = elim (Bool-cases (req.question == "")) [
    | inl empty ↦ simp empty (refl, refl)
    | inr given ↦ simp given (
        subst
          (λ (a : Archetype).
            IsAlike
              (carry_out_plan Health Answer b req.question (classify req.question)
                (plan_for a (request_of req)))
              (carry_out_plan Health Answer b req.question (classify req.question)
                (plan_for a (request_of (record req { depth = d })))))
          (sym asks) (planned-IsAlike (request_of req) d (classify req.question)))
  ]
