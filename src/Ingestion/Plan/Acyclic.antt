-- ===== src/Ingestion/Plan/Acyclic.antt =====
-- topoOrder succeeds exactly when the dependencies are registered and have no cycle.
use fun_project.Common.{
  ℕ, zero, suc, ◌<◌, String, Option, none, some, true, List, [], ◌∷◌, ◌++◌, ◌≡◌, ◌↔◌, ◌⊎◌, inl, inr,
  refl, sym, arith, eq_iff, All, mem_text, length, ◌==◌, if◌then◌else◌, subst, Bool-cases,
}
use fun_project.Common.Exec.{Result, ok, err, and_then}
use fun_project.Common.Assoc.{Assoc, at_key, at_key-set_key, keys}
use fun_project.Ingestion.Contract.{Ingestor}
use fun_project.Ingestion.Registry.{id_of}
use fun_project.Ingestion.Plan.{
  Color, in_progress, finished, PlanError, Marks, mark, visit, visit_each, by_color, finish_visit,
  index_by_id, no_marks, sorted_ids, plan_marks, topo_order,
}
use fun_project.Ingestion.Plan.Order.{
  ids, IsPlan, IsOrdered, IsDistinct, mem_text-keys, at_key-of_mem,
}
use fun_project.Ingestion.Plan.Coloring.{Inv, Visited, unseen-lt, unseen-le, Inv-mark}
use fun_project.Ingestion.Plan.Visit.{Ends, left, visit-Ends}
use fun_project.Ingestion.Plan.Outcome.{
  IsKeyed, index-IsKeyed, no_marks-Inv, mem_text-sorted_ids, unseen_all, topo_order-IsPlan,
}

-- The dependencies are registered, and a rank falls along them, so that there is no cycle.
pub record IsAcyclic (m : Assoc Ingestor) : Type 0 where
  pub rank : String → ℕ
  pub registered :
      (k : String) (i : Ingestor) (d : String)
      → at_key m k ≡ some i
      → mem_text d i.metadata.dependencies ≡ true
      → mem_text d (keys m) ≡ true
  pub falls :
      (k : String) (i : Ingestor) (d : String)
      → at_key m k ≡ some i
      → mem_text d i.metadata.dependencies ≡ true
      → rank d < rank k

-- The first place of the id
index_of : String → List String → ℕ
index_of k [] = 0
index_of k (x ∷ xs) = let n = index_of k xs in if x == k then 0 else suc n

dep_before :
    (seen : List String) (is : List Ingestor) (i : Ingestor) (d : String)
    → IsOrdered seen is
    → IsDistinct (ids is)
    → mem_text (id_of i) (ids is) ≡ true
    → All (λ j. (id_of j ≡ id_of i) → j ≡ i) is
    → mem_text d i.metadata.dependencies ≡ true
    → (mem_text d seen ≡ true)
      ⊎ (mem_text d (ids is) ≡ true) × (index_of d (ids is) < index_of (id_of i) (ids is))
unfolding mem_text index_of
dep_before seen [] i d o u m same h = absurd (cc)
dep_before seen (j ∷ is) i d o u m same h = elim (Bool-cases (id_of j == id_of i)) [
  | inl here ↦
      let e = same.0 ((eq_iff (id_of j) (id_of i)).0 here) in
      inl (o.0 d (subst (λ x. mem_text d x.metadata.dependencies ≡ true) (sym e) h))
  | inr other ↦
      let rest = dep_before (id_of j ∷ seen) is i d o.1 u.1 (simp other at m) same.1 h in
      ground (arith, rest, other, eq_iff (id_of j) d)
]

module _ (m : Assoc Ingestor) (keyed : IsKeyed m) where
  same_of_known :
      (i : Ingestor) (is : List Ingestor)
      → at_key m (id_of i) ≡ some i
      → All (λ j. at_key m (id_of j) ≡ some j) is
      → All (λ j. (id_of j ≡ id_of i) → j ≡ i) is
  same_of_known i [] f h = tt
  same_of_known i (j ∷ is) f h = (
    (λ e.
        let g = h.0 in
        let g' : at_key m (id_of i) ≡ some j = subst (λ k. at_key m k ≡ some j) e g in cc (f, g')),
    same_of_known i is f h.1,
  )

  plan-IsAcyclic : (order : List Ingestor) → IsPlan m order → IsAcyclic m
  unfolding mem_text
  plan-IsAcyclic order p = record {
    rank = λ k. index_of k (ids order);
    registered = λ k i d f h.
        (p.complete d).0
          (elim (place k i d f h) [ inl none_seen ↦ absurd (cc) | inr found ↦ found.0 ]);
    falls = λ k i d f h. elim (place k i d f h) [
      | inl none_seen ↦ absurd (cc)
      | inr found ↦
          subst (λ x. index_of d (ids order) < index_of x (ids order)) (keyed k i f) found.1
    ];
  }
    where
      place :
          (k : String) (i : Ingestor) (d : String)
          → at_key m k ≡ some i
          → mem_text d i.metadata.dependencies ≡ true
          → (mem_text d [] ≡ true)
            ⊎ (mem_text d (ids order) ≡ true)
              × (index_of d (ids order) < index_of (id_of i) (ids order))
      place k i d f h =
          let at : at_key m (id_of i) ≡ some i =
            subst (λ x. at_key m x ≡ some i) (sym (keyed k i f)) f in
          dep_before [] order i d p.ordered p.distinct
            ((p.complete (id_of i)).1 (mem_text-keys m (id_of i) i at))
            (same_of_known i order at p.known) h

abbrev IsOk : Result PlanError Marks → Type 0
IsOk (ok s) = Unit
IsOk (err e) = ⊥

module _ (m : Assoc Ingestor) (keyed : IsKeyed m) (acyclic : IsAcyclic m) where
  -- The visits that are going on are of ids above this one.
  abbrev Above : String → Marks → Type 0
  Above d s = (k : String) → at_key s.color k ≡ some in_progress → acyclic.rank d < acyclic.rank k

  record Ready (d : String) (s : Marks) : Type 0 where
    there : mem_text d (keys m) ≡ true
    above : Above d s

  then_IsOk :
      (d : String) (s : Marks) (r : Result PlanError Marks) (g : Marks → Result PlanError Marks)
      → Ends m keyed d s r
      → IsOk r
      → ((t : Marks) → Visited m keyed d s t → IsOk (g t))
      → IsOk (and_then r g)
  then_IsOk d s (ok t) g e k next = next t e
  then_IsOk d s (err x) g e k next = absurd k

  visit_each-IsOk :
      (n : ℕ) (f : String → Marks → Result PlanError Marks)
      → ((d : String) (s : Marks) → Inv m keyed s → left m keyed s < n → Ends m keyed d s (f d s))
      → ((d : String) (s : Marks) → Inv m keyed s → left m keyed s < n → Ready d s → IsOk (f d s))
      → (ds : List String) (s : Marks) → Inv m keyed s
      → left m keyed s < n
      → ((d : String) → mem_text d ds ≡ true → Ready d s)
      → IsOk (visit_each f ds s)
  unfolding visit_each mem_text
  visit_each-IsOk n f ends each [] s i h r = tt
  visit_each-IsOk n f ends each (d ∷ ds) s i h r =
      then_IsOk d s (f d s) (visit_each f ds) (ends d s i h)
        (each d s i h (r d (ground (arith, eq_iff d d))))
        (λ t e.
          visit_each-IsOk n f ends each ds t e.inv
            (omega (arith, unseen-le (keys m) s.color t.color e.extends.stays))
            (λ x y.
              let ready = r x (ground (arith, y)) in
              record {
                there = ready.there;
                above = λ z w. ready.above z (e.extends.open_back z w);
              }))

  finish-IsOk :
      (id : String) (ing : Ingestor) (r : Result PlanError Marks)
      → IsOk r
      → IsOk (and_then r (finish_visit id ing))
  unfolding finish_visit
  finish-IsOk id ing (ok t) k = tt
  finish-IsOk id ing (err e) k = k

  by_color-IsOk :
      (n : ℕ) (f : String → Marks → Result PlanError Marks)
      → ((d : String) (s : Marks) → Inv m keyed s → left m keyed s < n → Ends m keyed d s (f d s))
      → ((d : String) (s : Marks) → Inv m keyed s → left m keyed s < n → Ready d s → IsOk (f d s))
      → (id : String) (stack : List String) (c : Option Color) (o : Option Ingestor) (s : Marks)
      → at_key s.color id ≡ c
      → at_key m id ≡ o
      → Inv m keyed s
      → left m keyed s < suc n
      → Ready id s
      → IsOk (by_color m f id stack c o s)
  unfolding by_color
  by_color-IsOk n f ends each id stack (some in_progress) o s color found i h r =
      absurd (omega (arith, r.above id color))
  by_color-IsOk n f ends each id stack (some finished) o s color found i h r = tt
  by_color-IsOk n f ends each id stack none none s color found i h r =
      let (ing, e) = at_key-of_mem m id r.there in absurd (cc (e, found))
  by_color-IsOk n f ends each id stack none (some ing) s color found i h r = finish-IsOk id ing _ (
      visit_each-IsOk n f ends each ing.metadata.dependencies (mark id in_progress s)
        (Inv-mark m keyed id s color i)
        (omega
          (arith, unseen-lt (keys m) s.color id in_progress (mem_text-keys m id ing found) color))
        (λ d h. record {
          there = acyclic.registered id ing d found h;
          above = λ k e. elim (Bool-cases (id == k)) [
            | inl same ↦
                subst (λ x. acyclic.rank d < acyclic.rank x) ((eq_iff id k).0 same)
                  (acyclic.falls id ing d found h)
            | inr other ↦
                let before =
                  r.above k (ground (arith, e, other, at_key-set_key s.color id k in_progress)) in
                omega (arith, before, acyclic.falls id ing d found h)
          ];
        }))

  visit-IsOk :
      (n : ℕ) (id : String) (stack : List String) (s : Marks)
      → Inv m keyed s
      → left m keyed s < n
      → Ready id s
      → IsOk (visit m n id stack s)
  unfolding visit
  visit-IsOk zero id stack s i h r = absurd (omega arith)
  visit-IsOk (suc n) id stack s i h r =
      by_color-IsOk n (λ dep. visit m n dep (stack ++ id ∷ []))
        (λ d t. visit-Ends m keyed n d (stack ++ id ∷ []) t)
        (λ d t. visit-IsOk n d (stack ++ id ∷ []) t) id stack _ _ s refl refl i h r

  plan_marks-IsOk : IsOk (plan_marks m)
  unfolding plan_marks at_key
  plan_marks-IsOk =
      let fuel = suc (length (keys m)) in
      visit_each-IsOk fuel (λ id. visit m fuel id []) (λ d s. visit-Ends m keyed fuel d [] s)
        (λ d s. visit-IsOk fuel d [] s) (sorted_ids m) no_marks (no_marks-Inv m keyed)
        (omega (arith, unseen_all (keys m)))
        (λ d h. record { there = (mem_text-sorted_ids m d).0 h; above = λ k e. absurd (cc) })

order_of :
    (r : Result PlanError Marks)
    → IsOk r
    → (order : List Ingestor) × (and_then r (λ s. ok s.order) ≡ ok order)
order_of (ok s) h = (s.order, refl)
order_of (err e) h = absurd h

-- topoOrder finds an order exactly when the dependencies are registered and a rank falls along them,
-- that is, when they have no cycle.
pub topo_order_iff :
    (ings : List Ingestor)
    → ((order : List Ingestor) × (topo_order ings ≡ ok order)) ↔ IsAcyclic (index_by_id [] ings)
unfolding topo_order
topo_order_iff ings =
    let m = index_by_id [] ings in
    (
      (λ h.
          plan-IsAcyclic m (index-IsKeyed ings) h.0
            (topo_order-IsPlan ings h.0 (unfold topo_order in h.1))),
      (λ h. order_of (plan_marks m) (plan_marks-IsOk m (index-IsKeyed ings) h)),
    )
