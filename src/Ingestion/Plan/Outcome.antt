-- ===== src/Ingestion/Plan/Outcome.antt =====
-- topoOrder ends, and what it returns is an order of all ingestors.
use fun_project.Common.{
  suc, String, some, true, List, [], ◌∷◌, ◌≡◌, ◌≢◌, ◌↔◌, refl, arith, eq_iff, All, mem_text, length,
  subst,
}
use fun_project.Common.Exec.{Result, ok, err, and_then}
use fun_project.Common.Assoc.{Assoc, at_key, set_key, at_key-set_key, keys}
use fun_project.Common.Sort.{Listed-sort_by}
use fun_project.Ingestion.Contract.{Ingestor}
use fun_project.Ingestion.Registry.{id_of}
use fun_project.Ingestion.Plan.{
  PlanError, cycle, unregistered, out_of_fuel, Marks, index_by_id, no_marks, sorted_ids, plan_marks,
  topo_order,
}
use fun_project.Ingestion.Plan.Order.{ids, IsPlan, mem_text-Listed, mem_text-keys}
use fun_project.Ingestion.Plan.Coloring.{Inv, AllVisited, unseen}
use fun_project.Ingestion.Plan.Visit.{AllEnd, visit_each-AllEnd, visit-Ends}

abbrev pub IsKeyed : Assoc Ingestor → Type 0
IsKeyed m = (k : String) (i : Ingestor) → at_key m k ≡ some i → id_of i ≡ k

pub index_by_id-IsKeyed :
    (m : Assoc Ingestor) (ings : List Ingestor) → IsKeyed m → IsKeyed (index_by_id m ings)
unfolding index_by_id
index_by_id-IsKeyed m [] h = h
index_by_id-IsKeyed m (i ∷ ings) h =
    index_by_id-IsKeyed (set_key m (id_of i) i) ings
      (λ k j e. ground (arith, e, at_key-set_key m (id_of i) k i, h k j, eq_iff (id_of i) k))

pub no_ingestors-IsKeyed : IsKeyed []
unfolding at_key
no_ingestors-IsKeyed k i e = absurd (cc)

pub mem_text-sorted_ids :
    (m : Assoc Ingestor) (k : String)
    → (mem_text k (sorted_ids m) ≡ true) ↔ (mem_text k (keys m) ≡ true)
mem_text-sorted_ids m k =
    let sorted = mem_text-Listed k (sorted_ids m) in
    let given = mem_text-Listed k (keys m) in
    let same = Listed-sort_by (λ (id : String). id) k (keys m) in
    ((λ h. given.1 (same.0 (sorted.0 h))), (λ h. sorted.1 (same.1 (given.0 h))))

pub unseen_all : (ks : List String) → unseen ks [] ≡ length ks
unfolding unseen at_key
unseen_all [] = refl
unseen_all (k ∷ ks) = omega (arith, unseen_all ks)

module _ (m : Assoc Ingestor) (keyed : IsKeyed m) where
  pub no_marks-Inv : Inv m keyed no_marks
  unfolding at_key mem_text
  no_marks-Inv = record {
    placed = λ k. ((λ h. absurd (cc)), (λ h. absurd (cc)));
    ordered = tt;
    distinct = tt;
    known = tt;
  }

  pub plan_marks-AllEnd : AllEnd m keyed (sorted_ids m) no_marks (plan_marks m)
  unfolding plan_marks
  plan_marks-AllEnd =
      visit_each-AllEnd m keyed (suc (length (keys m))) _
        (λ d s. visit-Ends m keyed (suc (length (keys m))) d [] s) (sorted_ids m) no_marks
        no_marks-Inv (omega (arith, unseen_all (keys m)))

  known-mem :
      (is : List Ingestor) (k : String)
      → All (λ i. at_key m (id_of i) ≡ some i) is
      → mem_text k (ids is) ≡ true
      → mem_text k (keys m) ≡ true
  unfolding mem_text
  known-mem [] k h e = absurd (cc)
  known-mem (i ∷ is) k h e =
      ground (arith, e, mem_text-keys m (id_of i) i h.0, known-mem is k h.1, eq_iff (id_of i) k)

  pub AllVisited-IsPlan :
      (s : Marks) → AllVisited m keyed (sorted_ids m) no_marks s → IsPlan m s.order
  AllVisited-IsPlan s a = record {
    ordered = a.inv.ordered;
    distinct = a.inv.distinct;
    known = a.inv.known;
    complete = λ id. (
      known-mem s.order id a.inv.known,
      λ h. (a.inv.placed id).0 (a.done id ((mem_text-sorted_ids m id).1 h)),
    );
  }

  plan-not_stuck :
      (r : Result PlanError Marks)
      → AllEnd m keyed (sorted_ids m) no_marks r
      → and_then r (λ s. ok s.order) ≢ err out_of_fuel
  plan-not_stuck (ok s) a h = absurd (cc)
  plan-not_stuck (err out_of_fuel) a h = a
  plan-not_stuck (err (cycle stack k)) a h = absurd (cc)
  plan-not_stuck (err (unregistered k stack)) a h = absurd (cc)

  AllEnd-IsPlan :
      (r : Result PlanError Marks) (order : List Ingestor)
      → AllEnd m keyed (sorted_ids m) no_marks r
      → and_then r (λ s. ok s.order) ≡ ok order
      → IsPlan m order
  AllEnd-IsPlan (ok s) order a h = subst (IsPlan m) (ground (arith, h)) (AllVisited-IsPlan s a)
  AllEnd-IsPlan (err e) order a h = absurd (cc)

pub index-IsKeyed : (ings : List Ingestor) → IsKeyed (index_by_id [] ings)
index-IsKeyed ings = index_by_id-IsKeyed [] ings no_ingestors-IsKeyed

-- The recursion of topoOrder is never deeper than one call for each ingestor and one more, whatever
-- the dependencies are: it always returns an order or one of its two errors.
pub topo_order_ends : (ings : List Ingestor) → topo_order ings ≢ err out_of_fuel
unfolding topo_order
topo_order_ends ings =
    let m = index_by_id [] ings in
    plan-not_stuck m (index-IsKeyed ings) (plan_marks m) (plan_marks-AllEnd m (index-IsKeyed ings))

-- An order that topoOrder returns holds each registered ingestor once and nothing else, and each
-- stands behind all its dependencies.
pub topo_order-IsPlan :
    (ings order : List Ingestor) → topo_order ings ≡ ok order → IsPlan (index_by_id [] ings) order
unfolding topo_order
topo_order-IsPlan ings order h =
    let m = index_by_id [] ings in
    AllEnd-IsPlan m (index-IsKeyed ings) (plan_marks m) order
      (plan_marks-AllEnd m (index-IsKeyed ings)) h
