-- ===== src/Serving/Server/Laws.antt =====
-- The statuses with which handleAsk of serving/internal/server/handlers.go answers.
use fun_project.Common.{
  ℕ, String, true, false, Option, none, some, ◌==◌, ◌≡◌, ◌≢◌, refl, ◌⊎◌, inl, inr, ◌↔◌, arith,
  each_branch,
}
use fun_project.Common.Exec.{Result, ok, err}
use fun_project.Storage.Query.{Direction}
use fun_project.Serving.Client.{Z4Entity}
use fun_project.Serving.Intent.{Classification}
use fun_project.Serving.Planner.{
  Action, fetch_neighborhood, list_namespace, read_log, impact_analysis, health_audit, Plan,
  PlanError, Request, make,
}
use fun_project.Serving.Retriever.{Subgraph}
use fun_project.Serving.Server.{
  Backend, ClientError, not_found, zone4, AskReq, Found, Body, asked, Response, write_client_err,
  or_internal, answer_to, ask_impact, ask_around, direction_of, carry_out, carry_out_plan,
  handle_ask,
}

abbrev pub request_of : AskReq → Request
request_of req = record {
  question = req.question;
  namespace = req.namespace;
  entity_name = req.entity_name;
  depth = req.depth;
}

-- The actions that look an entity up by its name
abbrev pub NamesEntity : Action → Type 0
NamesEntity impact_analysis = Unit
NamesEntity fetch_neighborhood = Unit
NamesEntity _ = ⊥

abbrev pub IsUnplanned : Result PlanError Plan → Type 0
IsUnplanned (ok plan) = ⊥
IsUnplanned (err e) = Unit

-- A request that does not decode, asks nothing or cannot be planned
abbrev pub IsRefused : Option AskReq → Type 0
IsRefused none = Unit
IsRefused (some req) = ((req.question == "") ≡ true) ⊎ IsUnplanned (make (request_of req)).0

-- The status after a look-up by name
abbrev pub ByLookup : Result ClientError Z4Entity → ℕ → Type 0
ByLookup (ok e) status = (status ≡ 200) ⊎ (status ≡ 500)
ByLookup (err not_found) status = status ≡ 404
ByLookup (err (zone4 why)) status = status ≡ 502

ByLookup-not_found :
    (r : Result ClientError Z4Entity) (n : ℕ)
    → ByLookup r n
    → ((n ≡ 404) ↔ (r ≡ err not_found)) × (n ≢ 400)
ByLookup-not_found (ok e) n (inl h) =
    (((λ k. absurd (omega (arith, h, k))), (λ k. absurd (cc))), (λ k. omega (arith, h, k)))
ByLookup-not_found (ok e) n (inr h) =
    (((λ k. absurd (omega (arith, h, k))), (λ k. absurd (cc))), (λ k. omega (arith, h, k)))
ByLookup-not_found (err not_found) n h = (((λ k. refl), (λ k. h)), (λ k. omega (arith, h, k)))
ByLookup-not_found (err (zone4 why)) n h =
    (((λ k. absurd (omega (arith, h, k))), (λ k. absurd (cc))), (λ k. omega (arith, h, k)))

abbrev Answers : ℕ → Type 0
Answers n = (n ≡ 200) ⊎ (n ≡ 500)

neither : {P : Type 0} (n : ℕ) → Answers n → ((n ≡ 404) ↔ (⊥ × P)) × (n ≢ 400)
neither n (inl h) =
    (((λ k. absurd (omega (arith, h, k))), (λ k. absurd k.0)), (λ k. omega (arith, h, k)))
neither n (inr h) =
    (((λ k. absurd (omega (arith, h, k))), (λ k. absurd k.0)), (λ k. omega (arith, h, k)))

module _ (Health Answer : Type 0) where
  or_internal-Answers :
      {E A : Type 0} (code : String) (f : A → Body Health Answer) (r : Result E A)
      → Answers (or_internal Health Answer code f r).status
  unfolding or_internal
  or_internal-Answers code f (ok a) = inl refl
  or_internal-Answers code f (err e) = inr refl

  module _ (b : Backend Health Answer) (f : Found Health Answer → Body Health Answer) where
    answer_to-Answers :
        (question : String) (r : Result String Subgraph)
        → Answers (answer_to Health Answer b question f r).status
    unfolding answer_to
    answer_to-Answers question (err why) = inr refl
    answer_to-Answers question (ok sub) =
        or_internal-Answers "reason_failed" _ (b.answer question sub)

    ask_impact-ByLookup :
        (plan : Plan) (r : Result ClientError Z4Entity)
        → ByLookup r (ask_impact Health Answer b plan f r).status
    unfolding ask_impact write_client_err
    ask_impact-ByLookup plan (ok e) = or_internal-Answers "blast_radius_failed" _ _
    ask_impact-ByLookup plan (err not_found) = refl
    ask_impact-ByLookup plan (err (zone4 why)) = refl

    ask_around-ByLookup :
        (question : String) (plan : Plan) (dir : Direction) (r : Result ClientError Z4Entity)
        → ByLookup r (ask_around Health Answer b question plan dir f r).status
    unfolding ask_around write_client_err
    ask_around-ByLookup question plan dir (ok e) = answer_to-Answers question _
    ask_around-ByLookup question plan dir (err not_found) = refl
    ask_around-ByLookup question plan dir (err (zone4 why)) = refl

    carry_out-outcome :
        (a : Action) (question : String) (plan : Plan)
        → (((carry_out Health Answer b a question plan f).status ≡ 404)
            ↔ (NamesEntity a × (b.entity_by_name plan.namespace plan.entity_name ≡ err not_found)))
          × ((carry_out Health Answer b a question plan f).status ≢ 400)
    unfolding carry_out
    carry_out-outcome impact_analysis question plan =
        let r =
          ByLookup-not_found _ _
            (ask_impact-ByLookup plan (b.entity_by_name plan.namespace plan.entity_name)) in
        (((λ h. (tt, r.0.0 h)), (λ h. r.0.1 h.1)), r.1)
    carry_out-outcome fetch_neighborhood question plan =
        let r = ByLookup-not_found _ _ (
          ask_around-ByLookup question plan (direction_of Health Answer b plan.direction)
            (b.entity_by_name plan.namespace plan.entity_name)) in
        (((λ h. (tt, r.0.0 h)), (λ h. r.0.1 h.1)), r.1)
    carry_out-outcome health_audit question plan =
        neither _ (or_internal-Answers "audit_failed" _ _)
    carry_out-outcome read_log question plan =
        neither _ (or_internal-Answers "evolution_failed" _ _)
    carry_out-outcome list_namespace question plan = neither _ (inr refl)

  module _ (b : Backend Health Answer) where
    -- A plan that names an entity that storage does not have
    abbrev pub IsUnknown : Result PlanError Plan → Type 0
    IsUnknown (err e) = ⊥
    IsUnknown (ok plan) =
        NamesEntity plan.action × (b.entity_by_name plan.namespace plan.entity_name ≡ err not_found)

    -- A request whose plan does
    abbrev pub AsksUnknown : Option AskReq → Type 0
    AsksUnknown none = ⊥
    AsksUnknown (some req) = ((req.question == "") ≡ false) × IsUnknown (make (request_of req)).0

    planned-outcome :
        (question : String) (cls : Classification) (r : Result PlanError Plan)
        → (((carry_out_plan Health Answer b question cls r).status ≡ 404) ↔ IsUnknown r)
          × (((carry_out_plan Health Answer b question cls r).status ≡ 400) ↔ IsUnplanned r)
    unfolding carry_out_plan
    planned-outcome question cls (err e) =
        (((λ h. absurd (omega (arith, h))), (λ h. absurd h)), ((λ h. tt), (λ h. refl)))
    planned-outcome question cls (ok plan) =
        let r = carry_out-outcome b (asked plan cls) plan.action question plan in
        (r.0, ((λ h. absurd (r.1 h)), (λ h. absurd h)))

    abbrev Outcome : AskReq → Response Health Answer → Type 0
    Outcome req r =
        ((r.status ≡ 404) ↔ AsksUnknown (some req)) × ((r.status ≡ 400) ↔ IsRefused (some req))

    asked-Outcome : (req : AskReq) → Outcome req (handle_ask Health Answer b (some req))
    unfolding handle_ask
    asked-Outcome req =
        each_branch (Outcome req) (req.question == "") _ _
          (λ empty. (
            ((λ h. absurd (omega (arith, h))), (λ h. absurd (ground (arith, empty, h.0)))),
            ((λ h. inl empty), (λ h. refl)),
          ))
          (λ given.
            let r =
              planned-outcome req.question (make (request_of req)).1 (make (request_of req)).0 in
            (
              ((λ h. (given, r.0.0 h)), (λ h. r.0.1 h.1)),
              (
                (λ h. inr (r.1.0 h)),
                (λ h. elim h [
                  | inl empty ↦ absurd (ground (arith, empty, given))
                  | inr no_plan ↦ r.1.1 no_plan
                ]),
              ),
            ))

    -- A question is answered with 404 just if its plan names an entity and storage has none of that name in the
    -- namespace, and with 400 just if the request does not decode, asks nothing or cannot be planned.
    pub handle_ask_refuses :
        (req : Option AskReq)
        → (((handle_ask Health Answer b req).status ≡ 404) ↔ AsksUnknown req)
          × (((handle_ask Health Answer b req).status ≡ 400) ↔ IsRefused req)
    unfolding handle_ask
    handle_ask_refuses none =
        (((λ h. absurd (omega (arith, h))), (λ h. absurd h)), ((λ h. tt), (λ h. refl)))
    handle_ask_refuses (some req) = asked-Outcome req
