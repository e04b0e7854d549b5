-- ===== src/Ingestion/Dispatch/Progress.antt =====
-- The loop of RunAll gets on: a scan with nothing in flight starts or skips something, and no step can
-- be taken for ever.
use fun_project.Common.{
  ℕ, ◌+◌, ◌*◌, ◌<◌, ◌≤◌, String, Option, some, Bool, true, false, List, [], ◌∷◌, ◌≡◌, ◌⊎◌, inl, inr,
  refl, arith, eq_iff, mem_text, subst, sym, none, is_none, ◌||◌, Bool-cases, All, length,
  length-append, if◌then◌else◌, ◌↔◌,
}
use fun_project.Common.Assoc.{Assoc, at_key}
use fun_project.Common.Sort.{Listed}
use fun_project.Ingestion.Contract.{Ingestor}
use fun_project.Ingestion.Registry.{id_of}
use fun_project.Ingestion.Plan.Order.{ids, IsOrdered, IsPlan}
use fun_project.Ingestion.Dispatch.{
  Status, Board, drop_text, good_status, failed_status, success, partial, failed, deps_satisfied,
  any_dep_failed, look_at, scan, come_back, Step, scanned, returned, Reached,
}
use fun_project.Ingestion.Dispatch.Steps.{OneEach, Reached-Inv, status_of}

All-Listed : {A : Type 0} (P : A → Type 0) (xs : List A) (x : A) → All P xs → Listed x xs → P x
All-Listed P [] x h l = absurd l
All-Listed P (y ∷ xs) x h l = elim l [
  | inl e ↦ subst P e h.0
  | inr later ↦ All-Listed P xs x h.1 later
]

pub IsPlan-OneEach :
    (by_id : Assoc Ingestor) (plan : List Ingestor) → IsPlan by_id plan → OneEach plan
IsPlan-OneEach by_id plan p i j li lj same =
    let hi = All-Listed (λ (k : Ingestor). at_key by_id (id_of k) ≡ some k) plan i p.known li in
    let hj = All-Listed (λ (k : Ingestor). at_key by_id (id_of k) ≡ some k) plan j p.known lj in
    cc (hi, hj, same)

deps_satisfied-each :
    (ds : List String) (done : Assoc Status) (d : String)
    → deps_satisfied ds done ≡ true
    → mem_text d ds ≡ true
    → good_status (at_key done d) ≡ true
unfolding deps_satisfied mem_text
deps_satisfied-each [] done d h m = absurd (cc)
deps_satisfied-each (e ∷ ds) done d h m =
    ground (arith, h, m, deps_satisfied-each ds done d, eq_iff e d)

good_or_failed : (s : Option Status) → is_none s ≡ false → (good_status s || failed_status s) ≡ true
unfolding good_status failed_status
good_or_failed none h = absurd (cc)
good_or_failed (some success) h = refl
good_or_failed (some partial) h = refl
good_or_failed (some failed) h = refl

-- Dependencies that all have a status are satisfied, or one has failed.
deps_settled :
    (ds : List String) (done : Assoc Status)
    → ((d : String) → mem_text d ds ≡ true → is_none (at_key done d) ≡ false)
    → (deps_satisfied ds done || any_dep_failed ds done) ≡ true
unfolding deps_satisfied any_dep_failed mem_text
deps_settled [] done h = refl
deps_settled (d ∷ ds) done h =
    let rest = deps_settled ds done (λ e m. h e (ground (arith, m))) in
    let own = good_or_failed (at_key done d) (h d (ground (arith, eq_iff d d))) in
    ground (arith, rest, own)

look_at-settled :
    (i : Ingestor) (c : Board × Bool) → mem_text (id_of i) c.0.pending ≡ false → look_at i c ≡ c
unfolding look_at
look_at-settled i (b, progress) h = simp h refl

look_at-true : (i : Ingestor) (c : Board × Bool) → c.1 ≡ true → (look_at i c).1 ≡ true
unfolding look_at
look_at-true i (b, progress) h = ground (arith, h)

look_at-pending :
    (i : Ingestor) (b : Board)
    → mem_text (id_of i) b.pending ≡ true
    → (deps_satisfied i.metadata.dependencies b.done
        || any_dep_failed i.metadata.dependencies b.done)
      ≡ true
    → (look_at i (b, false)).1 ≡ true
unfolding look_at
look_at-pending i b pending h = ground (arith, pending, h)

scan-true : (is : List Ingestor) (c : Board × Bool) → c.1 ≡ true → (scan is c).1 ≡ true
unfolding scan
scan-true [] c h = h
scan-true (i ∷ is) c h = scan-true is (look_at i c) (look_at-true i c h)

-- A scan of the rest of the plan, all ids before it having a status, gets on if one of it is pending.
scan_gets_on :
    (seen : List String) (is : List Ingestor) (b : Board)
    → IsOrdered seen is
    → ((k : String) → mem_text k seen ≡ true → is_none (at_key b.done k) ≡ false)
    → ((k : String)
        → mem_text k (ids is) ≡ true
        → mem_text k b.pending ≡ false
        → is_none (at_key b.done k) ≡ false)
    → (k : String) → mem_text k (ids is) ≡ true
    → mem_text k b.pending ≡ true
    → (scan is (b, false)).1 ≡ true
unfolding scan mem_text
scan_gets_on seen [] b o s r k m p = absurd (cc)
scan_gets_on seen (i ∷ is) b o s r k m p = elim (Bool-cases (mem_text (id_of i) b.pending)) [
  | inr settled ↦
      let own = r (id_of i) (ground (arith, eq_iff (id_of i) (id_of i))) settled in
      subst (λ (c : Board × Bool). (scan is c).1 ≡ true)
        (sym (look_at-settled i (b, false) settled))
        (scan_gets_on (id_of i ∷ seen) is b o.1
          (λ j n. ground (arith, n, s j, own, eq_iff (id_of i) j))
          (λ j n q. r j (ground (arith, n)) q) k (ground (arith, m, p, settled, eq_iff (id_of i) k))
          p)
  | inl pending ↦ scan-true is (look_at i (b, false)) (
      look_at-pending i b pending
        (deps_settled i.metadata.dependencies b.done (λ d n. s d (o.0 d n))))
]

-- What can still happen: a start or a skip of each pending id, and the end of each running one.
unfoldable pub left_to_do : Board → ℕ
left_to_do b = 2 * length b.pending + length b.running

length-drop_text :
    (k : String) (xs : List String)
    → length (drop_text k xs) + (if mem_text k xs then 1 else 0) ≤ length xs
unfolding drop_text mem_text
length-drop_text k [] = ground arith
length-drop_text k (x ∷ xs) = ground (arith, length-drop_text k xs)

left_to_do-look_at :
    (i : Ingestor) (c : Board × Bool)
    → (look_at i c ≡ c) ⊎ (left_to_do (look_at i c).0 < left_to_do c.0)
unfolding look_at left_to_do
left_to_do-look_at i (b, progress) =
    let gone = length-drop_text (id_of i) b.pending in
    let more = length-append b.running (id_of i ∷ []) in
    elim (Bool-cases (mem_text (id_of i) b.pending)) [
      | inr settled ↦ inl (simp settled refl)
      | inl pending ↦ elim (Bool-cases (deps_satisfied i.metadata.dependencies b.done)) [
        | inl sat ↦ inr (simp (pending, sat) (ground (arith, gone, more, pending)))
        | inr unsat ↦ elim (Bool-cases (any_dep_failed i.metadata.dependencies b.done)) [
          | inl broken ↦ inr (simp (pending, unsat, broken) (ground (arith, gone, pending)))
          | inr waiting ↦ inl (simp (pending, unsat, waiting) refl)
        ]
      ]
    ]

left_to_do-scan :
    (is : List Ingestor) (c : Board × Bool)
    → (scan is c ≡ c) ⊎ (left_to_do (scan is c).0 < left_to_do c.0)
unfolding scan
left_to_do-scan [] c = inl refl
left_to_do-scan (i ∷ is) c = elim (left_to_do-look_at i c) [
  | inl same ↦
      subst (λ (x : Board × Bool). (scan is x ≡ c) ⊎ (left_to_do (scan is x).0 < left_to_do c.0))
        (sym same) (left_to_do-scan is c)
  | inr less ↦ elim (left_to_do-scan is (look_at i c)) [
    | inl same ↦ inr (subst (λ (x : Board × Bool). left_to_do x.0 < left_to_do c.0) (sym same) less)
    | inr more ↦ inr (omega (arith, less, more))
  ]
]

-- Every step of the dispatch loop leaves the board as it was (a scan that finds nothing to do) or
-- lowers what is left to do, so only finitely many steps change the board.
pub Step-left_to_do :
    (plan : List Ingestor) (b b' : Board)
    → Step plan b b'
    → (b' ≡ b) ⊎ (left_to_do b' < left_to_do b)
unfolding come_back left_to_do
Step-left_to_do plan _ _ (scanned b) = elim (left_to_do-scan plan (b, false)) [
  | inl same ↦ inl (subst (λ (c : Board × Bool). c.0 ≡ b) (sym same) refl)
  | inr less ↦ inr less
]
Step-left_to_do plan _ _ (returned b id res r) =
    inr (ground (arith, r, length-drop_text id b.running))

module _ (by_id : Assoc Ingestor) (plan : List Ingestor) (p : IsPlan by_id plan) where
  -- In every state the loop can reach, an ingestor of the plan that runs, or has run well, has only
  -- dependencies that have ended as a success or a partial run.
  pub deps_before :
      (b : Board) (i : Ingestor) (d : String)
      → Reached plan b
      → Listed i plan
      → (mem_text (id_of i) b.running || good_status (at_key b.done (id_of i))) ≡ true
      → mem_text d i.metadata.dependencies ≡ true
      → good_status (at_key b.done d) ≡ true
  deps_before b i d r l at m =
      let h = Reached-Inv plan (IsPlan-OneEach by_id plan p) b r in
      elim (Bool-cases (mem_text (id_of i) b.running)) [
        | inl runs ↦ deps_satisfied-each i.metadata.dependencies b.done d (h.ready i l runs) m
        | inr idle ↦
            deps_satisfied-each i.metadata.dependencies b.done d
              (h.earned i l (ground (arith, at, idle))) m
      ]

  -- In a state the loop can reach where nothing is in flight and an id is still pending, a scan of the
  -- plan makes progress: the loop never waits for an end that cannot come.
  pub scan_never_stalls :
      (b : Board) (k : String)
      → Reached plan b
      → b.running ≡ []
      → mem_text k b.pending ≡ true
      → (scan plan (b, false)).1 ≡ true
  unfolding mem_text
  scan_never_stalls b k r idle pending =
      let h = Reached-Inv plan (IsPlan-OneEach by_id plan p) b r in
      let quiet =
        (λ (j : String). subst (λ (x : List String). mem_text j x ≡ false) (sym idle) refl) in
      scan_gets_on [] plan b p.ordered (λ j n. absurd (cc))
        (λ j n q. ground (arith, n, q, h.placed j, quiet j)) k (ground (arith, pending, h.placed k))
        pending

  -- In a state the loop can reach with nothing pending and nothing in flight, the summary's results
  -- have exactly the ids of the plan, each with the status that the loop keeps for it.
  pub finished_results :
      (b : Board) (k : String)
      → Reached plan b
      → b.pending ≡ []
      → b.running ≡ []
      → ((mem_text k (ids plan) ≡ true) ↔ (is_none (at_key b.results k) ≡ false))
        × (at_key b.done k ≡ status_of (at_key b.results k))
  unfolding mem_text
  finished_results b k r over idle =
      let h = Reached-Inv plan (IsPlan-OneEach by_id plan p) b r in
      let quiet = subst (λ (x : List String). mem_text k x ≡ false) (sym idle) refl in
      let gone = subst (λ (x : List String). mem_text k x ≡ false) (sym over) refl in
      (
        (
          (λ m. ground (arith, m, h.placed k, h.reported k, quiet, gone)),
          (λ n. ground (arith, n, h.placed k, h.reported k, quiet, gone)),
        ),
        h.reported k,
      )
