-- ===== src/Serving/Server.antt =====
-- serving/internal/server/handlers.go: the endpoints that question the graph, from a decoded request to the status and
-- the body of the response. Of an error the code is kept and not its message.
pub mod Laws
pub mod Depth
use fun_project.Common.{
  ℕ, String, Bool, true, false, ◌||◌, Option, none, some, List, ◌==◌, if◌then◌else◌,
}
use fun_project.Common.Exec.{Result, ok, err}
use fun_project.Storage.Query.{ℤ, pos, negsuc, Direction, inbound, both}
use fun_project.Storage.Schema.Float.{Float64}
use fun_project.Storage.Schema.Types.{Time, zero_time}
use fun_project.Serving.Client.{Z4Entity, Neighborhood, NamespaceListing, LogEntry}
use fun_project.Serving.Intent.{Classification}
use fun_project.Serving.Planner.{
  Action, fetch_neighborhood, list_namespace, read_log, impact_analysis, health_audit, Plan,
  PlanError, make,
}
use fun_project.Serving.Impact.{BlastRadius, ImpactError, calculate_blast_radius}
use fun_project.Serving.Retriever.{Subgraph, RetrieveStats, retrieve}
use fun_project.Serving.Evolution.{EvolutionReport, compute_evolution}

-- ErrNotFound, or another error of the storage client
pub data ClientError : Type 0 where
  not_found : ClientError
  zone4 : String → ClientError

pub record AskReq : Type 0 where
  pub question : String
  pub namespace : String
  pub entity_name : String
  pub depth : ℤ

pub record BlastReq : Type 0 where
  pub entity_id : String
  pub entity_name : String
  pub namespace : String
  pub max_depth : ℤ

pub record DiffReq : Type 0 where
  pub namespace : String
  pub since : Time
  pub until : Time

abbrev pub shown : {A : Type 0} → Result ClientError A → Result String A
shown (ok a) = ok a
shown (err not_found) = err "zone4: not found"
shown (err (zone4 why)) = err why

-- A depth of CalculateBlastRadius: one below 1 is read as 0 is.
unfoldable pub depth_of : ℤ → ℕ
depth_of (pos n) = n
depth_of (negsuc n) = 0

-- The reports of Audit and the answers of the reasoner, whose code is not modelled
module _ (Health Answer : Type 0) where
  -- The field of askResp that is set, if the plan is carried out
  pub data Found : Type 0 where
    blast_radius : BlastRadius → Found
    health_report : Health → Found
    evolution : EvolutionReport → Found
    answered : RetrieveStats → Answer → Found

  pub data Body : Type 0 where
    failure : String → Body
    asked : Plan → Classification → Found → Body
    radius : BlastRadius → Body
    health : Health → Body
    diff : EvolutionReport → Body
    entity : Z4Entity → Body
    around : Neighborhood → Body
    listing : NamespaceListing → Body

  pub record Response : Type 0 where
    pub status : ℕ
    pub body : Body

  abbrev pub write_json : Body → Response
  write_json b = record { status = 200; body = b }

  abbrev pub write_error : ℕ → String → Response
  write_error status code = record { status = status; body = failure code }

  unfoldable pub write_client_err : ClientError → Response
  write_client_err not_found = write_error 404 "not_found"
  write_client_err (zone4 why) = write_error 502 "zone4_error"

  -- One of the client's answers, passed on
  unfoldable pub passed_through : {A : Type 0} → (A → Body) → Result ClientError A → Response
  unfolding write_client_err
  passed_through f (ok a) = write_json (f a)
  passed_through f (err e) = write_client_err e

  -- Where every error is a 500
  unfoldable pub or_internal : {E A : Type 0} → String → (A → Body) → Result E A → Response
  or_internal code f (ok a) = write_json (f a)
  or_internal code f (err e) = write_error 500 code

  -- What the server calls: the storage client, the product of floats, and the code that is not modelled
  pub record Backend : Type 0 where
    pub mul : Float64 → Float64 → Float64
    pub entity_by_name : String → String → Result ClientError Z4Entity
    pub get_entity : String → Result ClientError Z4Entity
    pub neighborhood : String → ℤ → Direction → Result ClientError Neighborhood
    pub list_namespace : String → Result ClientError NamespaceListing
    pub read_log : ℕ → Result ClientError (List LogEntry)
    pub audit : NamespaceListing → Health
    pub answer : String → Subgraph → Result String Answer

  module _ (b : Backend) where
    abbrev pub blast_radius_of : String → ℤ → Result ImpactError BlastRadius
    unfolding depth_of
    blast_radius_of id depth =
        calculate_blast_radius b.mul (λ i. shown (b.get_entity i))
          (λ i. shown (b.neighborhood i (pos 1) inbound)) id (depth_of depth)

    -- Audit lists the namespace and reports on the listing.
    unfoldable pub audit_of : Result ClientError NamespaceListing → Result ClientError Health
    audit_of (ok l) = ok (b.audit l)
    audit_of (err e) = err e

    -- Retrieve, Assemble and Answer
    unfoldable pub answer_to : String → (Found → Body) → Result String Subgraph → Response
    unfolding or_internal
    answer_to question f (err why) = write_error 500 "retrieve_failed"
    answer_to question f (ok sub) =
        or_internal "reason_failed" (λ a. f (answered sub.stats a)) (b.answer question sub)

    unfoldable pub ask_impact : Plan → (Found → Body) → Result ClientError Z4Entity → Response
    unfolding write_client_err or_internal
    ask_impact plan f (err e) = write_client_err e
    ask_impact plan f (ok e) =
        or_internal "blast_radius_failed" (λ r. f (blast_radius r))
          (blast_radius_of e.id plan.depth)

    unfoldable pub ask_around :
        String → Plan → Direction → (Found → Body) → Result ClientError Z4Entity → Response
    unfolding write_client_err answer_to
    ask_around question plan dir f (err e) = write_client_err e
    ask_around question plan dir f (ok e) =
        answer_to question f
          (retrieve b.mul (λ i d dir. shown (b.neighborhood i (pos d) dir)) e.id plan.depth dir)

    -- An absent direction is the empty text; a plan that reads it sets it.
    abbrev pub direction_of : Option Direction → Direction
    direction_of (some dir) = dir
    direction_of none = both

    -- The switch on the action
    unfoldable pub carry_out : Action → String → Plan → (Found → Body) → Response
    unfolding ask_impact ask_around or_internal audit_of
    carry_out impact_analysis question plan f =
        ask_impact plan f (b.entity_by_name plan.namespace plan.entity_name)
    carry_out health_audit question plan f =
        or_internal "audit_failed" (λ h. f (health_report h))
          (audit_of (b.list_namespace plan.namespace))
    carry_out read_log question plan f =
        or_internal "evolution_failed" (λ r. f (evolution r))
          (compute_evolution plan.namespace zero_time zero_time (λ limit. shown (b.read_log limit)))
    carry_out fetch_neighborhood question plan f =
        ask_around question plan (direction_of plan.direction) f
          (b.entity_by_name plan.namespace plan.entity_name)
    carry_out list_namespace question plan f = write_error 500 "unhandled_action"

    unfoldable pub carry_out_plan : String → Classification → Result PlanError Plan → Response
    unfolding carry_out
    carry_out_plan question cls (err e) = write_error 400 "plan_failed"
    carry_out_plan question cls (ok plan) = carry_out plan.action question plan (asked plan cls)

    -- A body that does not decode is none.
    unfoldable pub handle_ask : Option AskReq → Response
    unfolding carry_out_plan make
    handle_ask none = write_error 400 "invalid_json"
    handle_ask (some req) =
        let planned = make (record {
          question = req.question;
          namespace = req.namespace;
          entity_name = req.entity_name;
          depth = req.depth;
        }) in
        if req.question == ""
        then write_error 400 "missing_question"
        else carry_out_plan req.question planned.1 planned.0

    unfoldable pub resolve_id : String → String → String → Result ClientError String
    resolve_id id namespace name =
        if id == ""
        then (if name == "" || namespace == ""
            then err (zone4 "entity_id OR (namespace + entity_name) required")
            else elim (b.entity_by_name namespace name) [ ok e ↦ ok e.id | err e ↦ err e ])
        else ok id

    unfoldable pub blast_radius_response : ℤ → Result ClientError String → Response
    unfolding write_client_err or_internal
    blast_radius_response depth (err e) = write_client_err e
    blast_radius_response depth (ok id) =
        or_internal "blast_radius_failed" radius (blast_radius_of id depth)

    unfoldable pub handle_blast_radius : Option BlastReq → Response
    unfolding blast_radius_response resolve_id
    handle_blast_radius none = write_error 400 "invalid_json"
    handle_blast_radius (some req) =
        blast_radius_response req.max_depth (resolve_id req.entity_id req.namespace req.entity_name)

    unfoldable pub handle_health_audit : Option String → Response
    unfolding or_internal audit_of
    handle_health_audit none = write_error 400 "invalid_json"
    handle_health_audit (some namespace) =
        if namespace == ""
        then write_error 400 "missing_namespace"
        else or_internal "audit_failed" health (audit_of (b.list_namespace namespace))

    unfoldable pub handle_diff : Option DiffReq → Response
    unfolding or_internal
    handle_diff none = write_error 400 "invalid_json"
    handle_diff (some req) =
        or_internal "diff_failed" diff
          (compute_evolution req.namespace req.since req.until (λ limit. shown (b.read_log limit)))

    -- The depth of the query: absent, no number, or a number
    unfoldable pub handle_get_entity : String → Option (Option ℤ) → Response
    unfolding passed_through
    handle_get_entity id none = passed_through entity (b.get_entity id)
    handle_get_entity id (some none) = write_error 400 "invalid_depth"
    handle_get_entity id (some (some depth)) = passed_through around (b.neighborhood id depth both)

    unfoldable pub handle_list_entities : String → Response
    unfolding passed_through
    handle_list_entities ns =
        if ns == ""
        then write_error 400 "missing_namespace"
        else passed_through listing (b.list_namespace ns)
