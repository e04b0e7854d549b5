-- ===== src/Ingestion/Dispatch/Steps.antt =====
-- What every state of the dispatch loop has in common.
use fun_project.Common.{
  String, Option, none, some, Bool, true, false, List, [], ◌∷◌, ◌≡◌, refl, sym, arith, eq_iff,
  mem_text, mem_text-append, is_none, ◌==◌, ◌||◌, not, if◌then◌else◌, Bool-cases, inl, inr, subst,
}
use fun_project.Common.Assoc.{Assoc, at_key, at_key-set_key}
use fun_project.Common.Sort.{Listed}
use fun_project.Ingestion.Contract.{Ingestor}
use fun_project.Ingestion.Registry.{id_of}
use fun_project.Ingestion.Plan.Order.{ids}
use fun_project.Ingestion.Dispatch.{
  Status, failed, IngestorRun, Board, drop_text, good_status, deps_satisfied, any_dep_failed,
  dispatch, skip, skipped_run, look_at, scan, come_back, start_board, Step, scanned, returned,
  Reached, begun, then_step,
}

pub mem_text-drop_text :
    (j k : String) (xs : List String)
    → mem_text k (drop_text j xs) ≡ (if j == k then false else mem_text k xs)
unfolding mem_text drop_text
mem_text-drop_text j k [] = ground arith
mem_text-drop_text j k (x ∷ xs) =
    ground (arith, mem_text-drop_text j k xs, eq_iff x j, eq_iff x k, eq_iff j k)

-- Good statuses that stay good keep dependencies satisfied.
deps_satisfied_mono :
    (ds : List String) (done done' : Assoc Status)
    → ((k : String) → good_status (at_key done k) ≡ true → good_status (at_key done' k) ≡ true)
    → deps_satisfied ds done ≡ true
    → deps_satisfied ds done' ≡ true
unfolding deps_satisfied
deps_satisfied_mono [] done done' keep h = refl
deps_satisfied_mono (d ∷ ds) done done' keep h =
    ground (arith, h, keep d, deps_satisfied_mono ds done done' keep)

abbrev pub status_of : Option IngestorRun → Option Status
status_of none = none
status_of (some r) = some r.status

-- No two ingestors of the plan have one id.
abbrev pub OneEach : List Ingestor → Type 0
OneEach plan = (i j : Ingestor) → Listed i plan → Listed j plan → id_of i ≡ id_of j → i ≡ j

module _ (plan : List Ingestor) where
  -- Each id of the plan is at one place, what runs or has run well had its dependencies, and the
  -- statuses are those of the results.
  pub record Inv (b : Board) : Type 0 where
    pub placed :
        (k : String)
        → mem_text k (ids plan)
          ≡ (mem_text k b.pending || mem_text k b.running || not (is_none (at_key b.done k)))
    pub waits :
        (k : String)
        → mem_text k b.pending ≡ true
        → (mem_text k b.running ≡ false) × (is_none (at_key b.done k) ≡ true)
    pub runs : (k : String) → mem_text k b.running ≡ true → is_none (at_key b.done k) ≡ true
    pub ready :
        (i : Ingestor)
        → Listed i plan
        → mem_text (id_of i) b.running ≡ true
        → deps_satisfied i.metadata.dependencies b.done ≡ true
    pub earned :
        (i : Ingestor)
        → Listed i plan
        → good_status (at_key b.done (id_of i)) ≡ true
        → deps_satisfied i.metadata.dependencies b.done ≡ true
    pub reported : (k : String) → at_key b.done k ≡ status_of (at_key b.results k)

  pub Inv-start : Inv (start_board plan)
  unfolding mem_text at_key good_status
  Inv-start = record {
    placed = λ k. ground arith;
    waits = λ k h. ground arith;
    runs = λ k h. absurd (cc);
    ready = λ i l h. absurd (cc);
    earned = λ i l h. absurd (cc);
    reported = λ k. refl;
  }

  module _ (once : OneEach plan) where
    Inv-dispatch :
        (i : Ingestor) (b : Board)
        → Listed i plan
        → mem_text (id_of i) b.pending ≡ true
        → deps_satisfied i.metadata.dependencies b.done ≡ true
        → Inv b
        → Inv (dispatch (id_of i) b)
    unfolding mem_text
    Inv-dispatch i b listed pending sat h = record {
      placed = λ k. ground (
        arith,
        pending,
        h.placed k,
        h.waits k,
        mem_text-drop_text (id_of i) k b.pending,
        mem_text-append k b.running (id_of i ∷ []),
        eq_iff (id_of i) k,
      );
      waits = λ k w. ground (
        arith,
        w,
        h.waits k,
        mem_text-drop_text (id_of i) k b.pending,
        mem_text-append k b.running (id_of i ∷ []),
        eq_iff (id_of i) k,
      );
      runs = λ k r. ground (
        arith,
        r,
        h.runs k,
        h.waits k,
        pending,
        mem_text-append k b.running (id_of i ∷ []),
        eq_iff (id_of i) k,
      );
      ready = λ j l r. elim (Bool-cases (id_of i == id_of j)) [
        | inl same ↦
            subst (λ x. deps_satisfied x.metadata.dependencies b.done ≡ true)
              (once i j listed l ((eq_iff (id_of i) (id_of j)).0 same)) sat
        | inr other ↦
            h.ready j l
              (ground (arith, r, other, mem_text-append (id_of j) b.running (id_of i ∷ [])))
      ];
      earned = h.earned;
      reported = h.reported;
    }

    -- An id that has no status yet gets one, and leaves the place where it was.
    Inv-settle :
        (id : String) (res : IngestorRun) (b c : Board)
        → is_none (at_key b.done id) ≡ true
        → mem_text id (ids plan) ≡ true
        → ((i : Ingestor)
            → Listed i plan
            → id_of i ≡ id
            → good_status (some res.status) ≡ true
            → deps_satisfied i.metadata.dependencies b.done ≡ true)
        → ((k : String) → mem_text k c.pending ≡ (if id == k then false else mem_text k b.pending))
        → ((k : String) → mem_text k c.running ≡ (if id == k then false else mem_text k b.running))
        → ((k : String) → at_key c.done k ≡ (if id == k then some res.status else at_key b.done k))
        → ((k : String) → at_key c.results k ≡ (if id == k then some res else at_key b.results k))
        → Inv b
        → Inv c
    unfolding good_status
    Inv-settle id res b c new planned sat pending running done results h = record {
      placed = λ k. ground (arith, planned, h.placed k, pending k, running k, done k, eq_iff id k);
      waits = λ k w. ground (arith, w, h.waits k, pending k, running k, done k, eq_iff id k);
      runs = λ k r. ground (arith, r, h.runs k, running k, done k, eq_iff id k);
      ready = λ i l r. kept i (h.ready i l (ground (arith, r, running (id_of i))));
      earned = λ i l g. elim (Bool-cases (id == id_of i)) [
        | inl own ↦
            kept i
              (sat i l (sym ((eq_iff id (id_of i)).0 own)) (ground (arith, g, own, done (id_of i))))
        | inr other ↦ kept i (h.earned i l (ground (arith, g, other, done (id_of i))))
      ];
      reported = λ k. ground (arith, done k, results k, h.reported k);
    }
      where
        kept :
            (i : Ingestor)
            → deps_satisfied i.metadata.dependencies b.done ≡ true
            → deps_satisfied i.metadata.dependencies c.done ≡ true
        kept i =
            deps_satisfied_mono i.metadata.dependencies b.done c.done
              (λ k g. ground (arith, g, new, done k, eq_iff id k))

    Inv-skip :
        (i : Ingestor) (b : Board)
        → Listed i plan
        → mem_text (id_of i) b.pending ≡ true
        → Inv b
        → Inv (skip i b)
    unfolding good_status
    Inv-skip i b listed pending h =
        Inv-settle (id_of i) (skipped_run i) b (skip i b) (h.waits (id_of i) pending).1
          (ground (arith, pending, h.placed (id_of i))) (λ j l e g. absurd (cc))
          (λ k. mem_text-drop_text (id_of i) k b.pending)
          (λ k. ground (arith, pending, h.waits k, eq_iff (id_of i) k))
          (λ k. at_key-set_key b.done (id_of i) k failed)
          (λ k. at_key-set_key b.results (id_of i) k (skipped_run i)) h

    Inv-come_back :
        (id : String) (res : IngestorRun) (b : Board)
        → mem_text id b.running ≡ true
        → Inv b
        → Inv (come_back id res b)
    unfolding come_back
    Inv-come_back id res b running h =
        Inv-settle id res b (come_back id res b) (h.runs id running)
          (ground (arith, running, h.placed id))
          (λ i l e g. h.ready i l (subst (λ k. mem_text k b.running ≡ true) (sym e) running))
          (λ k. ground (arith, running, h.waits k, eq_iff id k))
          (λ k. mem_text-drop_text id k b.running) (λ k. at_key-set_key b.done id k res.status)
          (λ k. at_key-set_key b.results id k res) h

    Inv-look_at : (i : Ingestor) (c : Board × Bool) → Listed i plan → Inv c.0 → Inv (look_at i c).0
    unfolding look_at
    Inv-look_at i (b, progress) listed h = elim (Bool-cases (mem_text (id_of i) b.pending)) [
      | inr settled ↦ simp settled h
      | inl pending ↦ elim (Bool-cases (deps_satisfied i.metadata.dependencies b.done)) [
        | inl sat ↦ simp (pending, sat) (Inv-dispatch i b listed pending sat h)
        | inr unsat ↦ elim (Bool-cases (any_dep_failed i.metadata.dependencies b.done)) [
          | inl broken ↦ simp (pending, unsat, broken) (Inv-skip i b listed pending h)
          | inr waiting ↦ simp (pending, unsat, waiting) h
        ]
      ]
    ]

    Inv-scan :
        (is : List Ingestor) (c : Board × Bool)
        → ((i : Ingestor) → Listed i is → Listed i plan)
        → Inv c.0
        → Inv (scan is c).0
    unfolding scan
    Inv-scan [] c part h = h
    Inv-scan (i ∷ is) c part h =
        Inv-scan is (look_at i c) (λ j l. part j (inr l)) (Inv-look_at i c (part i (inl refl)) h)

    Step-Inv : (b b' : Board) → Step plan b b' → Inv b → Inv b'
    Step-Inv _ _ (scanned b) h = Inv-scan plan (b, false) (λ i l. l) h
    Step-Inv _ _ (returned b id res r) h = Inv-come_back id res b r h

    pub Reached-Inv : (b : Board) → Reached plan b → Inv b
    Reached-Inv _ begun = Inv-start
    Reached-Inv _ (then_step b b' r s) = Step-Inv b b' s (Reached-Inv b r)
