-- ===== src/Ingestion/RunOne/Laws.antt =====
-- What runOne leaves alone: validation and the dead letters touch neither the checkpoints, nor the
-- ledger, nor what the sink delivers to; the last line touches only the ledger.
use fun_project.Common.{
  ℕ, ◌+◌, String, Bool, true, false, Option, none, some, List, [], ◌∷◌, ◌++◌, ◌≡◌, refl, ◌∙◌, ap,
  arith, ◌⊎◌, Bool-cases, inl, inr, length, if◌then◌else◌,
}
use fun_project.Common.Exec.{Result, ok, err}
use fun_project.Storage.Schema.Types.{Time, is_zero}
use fun_project.Nif.{
  Entity, Relationship, Batch, Rejection, batch_len, validate_entity, validate_relationship,
}
use fun_project.Ingestion.Contract.{Sink}
use fun_project.Ingestion.Stores.{
  Entry, FailureStage, Original, of_entity, of_relationship, Reason, DeadLetter, World, tick, push,
  add_letter, add_line, append_entry,
}
use fun_project.Ingestion.RunOne.{
  passes, finish_entry, push_to, push_dlq, note_refusal, sort_out, sort_out_batch, stamped,
}

-- The records of a loop that pass, and those that do not
abbrev pub kept : {A : Type 0} → (A → Result Rejection Unit) → List A → List A
kept check [] = []
kept check (a ∷ more) = if passes (check a) then a ∷ kept check more else kept check more

abbrev pub clean_batch : Batch → Batch
clean_batch b = record {
  entities = kept (λ e. validate_entity (some e)) b.entities;
  relationships = kept (λ r. validate_relationship (some r)) b.relationships;
}

pub record SameBut {S : Type 0} (w w' : World S) : Type 0 where
  pub checkpoints : w'.checkpoints ≡ w.checkpoints
  pub ledger : w'.ledger ≡ w.ledger
  pub delivered : w'.delivered ≡ w.delivered

abbrev pub SameBut-refl : {S : Type 0} (w : World S) → SameBut w w
SameBut-refl w = record { checkpoints = refl; ledger = refl; delivered = refl }

pub SameBut-then : {S : Type 0} (u v w : World S) → SameBut u v → SameBut v w → SameBut u w
SameBut-then u v w a b = record {
  checkpoints = b.checkpoints ∙ a.checkpoints;
  ledger = b.ledger ∙ a.ledger;
  delivered = b.delivered ∙ a.delivered;
}

SameBut-if :
    {S : Type 0} (c : Bool) (w x y : World S)
    → SameBut w x
    → SameBut w y
    → SameBut w (if c then x else y)
SameBut-if true w x y a b = a
SameBut-if false w x y a b = b

module _ {S : Type 0} (now : ℕ → Time) (fault : ℕ → Option String)
    (encode : Original → Option String) (sink : Sink S) where
  add_letter-SameBut :
      (f : Option String) (d : DeadLetter) (ds : List DeadLetter) (w : World S)
      → SameBut w (add_letter now fault f d ds w)
  unfolding add_letter
  add_letter-SameBut none d ds w = record { checkpoints = refl; ledger = refl; delivered = refl }
  add_letter-SameBut (some why) d ds w = record {
    checkpoints = refl;
    ledger = refl;
    delivered = refl;
  }

  push-SameBut :
      (d : DeadLetter) (ds : List DeadLetter) (w : World S) → SameBut w (push now fault d ds w)
  unfolding push
  push-SameBut d ds w =
      SameBut-if (is_zero d.failed_at) w _ _
        (SameBut-then w (tick w) _ (record { checkpoints = refl; ledger = refl; delivered = refl })
          (add_letter-SameBut _ _ ds (tick w)))
        (add_letter-SameBut _ d ds w)

  push_to-SameBut :
      (q : Option (List DeadLetter)) (d : DeadLetter) (w : World S)
      → SameBut w (push_to now fault encode sink q d w)
  unfolding push_to
  push_to-SameBut none d w = SameBut-refl w
  push_to-SameBut (some ds) d w = push-SameBut d ds w

  pub push_dlq-SameBut :
      (run_id : String) (stage : FailureStage) (o : Original) (why : Reason) (w : World S)
      → SameBut w (push_dlq now fault encode sink run_id stage o why w)
  unfolding push_dlq
  push_dlq-SameBut run_id stage o why w = push_to-SameBut w.dlq _ w

  module _ {A : Type 0} (check : A → Result Rejection Unit) (original : A → Original)
      (run_id : String) where
    note_refusal-SameBut :
        (a : A) (r : Result Rejection Unit) (w : World S)
        → SameBut w (note_refusal now fault encode sink check original run_id a r w)
    unfolding note_refusal
    note_refusal-SameBut a (ok u) w = SameBut-refl w
    note_refusal-SameBut a (err why) w = push_dlq-SameBut _ _ _ _ w

    pub sort_out-SameBut :
        (xs : List A) (w : World S)
        → SameBut w (sort_out now fault encode sink check original run_id xs w).1
    unfolding sort_out
    sort_out-SameBut [] w = SameBut-refl w
    sort_out-SameBut (a ∷ more) w =
        SameBut-then w _ _ (note_refusal-SameBut a (check a) w) (sort_out-SameBut more _)

    pub sort_out-kept :
        (xs : List A) (w : World S)
        → ((sort_out now fault encode sink check original run_id xs w).0.0 ≡ kept check xs)
          × ((sort_out now fault encode sink check original run_id xs w).0.1
                + length (kept check xs)
              ≡ length xs)
    unfolding sort_out
    sort_out-kept [] w = (refl, refl)
    sort_out-kept (a ∷ more) w =
        let (e, n) =
          sort_out-kept more
            (note_refusal now fault encode sink check original run_id a (check a) w) in
        elim (Bool-cases (passes (check a))) [
          | inl good ↦ simp good (ap (λ ys. a ∷ ys) e, omega (arith, n))
          | inr bad ↦ simp bad (e, omega (arith, n))
        ]

  -- The two loops of runOne: the published batch is the records that pass, the others are counted.
  pub sort_out_batch-clean :
      (run_id : String) (b : Batch) (w : World S)
      → (sort_out_batch now fault encode sink run_id b w).0.0 ≡ clean_batch b
  unfolding sort_out_batch
  sort_out_batch-clean run_id b w =
      let (es, n) =
        sort_out-kept (λ (e : Entity). validate_entity (some e)) of_entity run_id b.entities w in
      let (rs, m) =
        sort_out-kept (λ (r : Relationship). validate_relationship (some r)) of_relationship run_id
          b.relationships
          (sort_out now fault encode sink (λ (e : Entity). validate_entity (some e)) of_entity
            run_id b.entities w).1 in
      cc (es, rs)

  pub sort_out_batch-count :
      (run_id : String) (b : Batch) (w : World S)
      → (sort_out_batch now fault encode sink run_id b w).0.1 + batch_len (clean_batch b)
        ≡ batch_len b
  unfolding sort_out_batch batch_len
  sort_out_batch-count run_id b w =
      let (es, n) =
        sort_out-kept (λ (e : Entity). validate_entity (some e)) of_entity run_id b.entities w in
      let (rs, m) =
        sort_out-kept (λ (r : Relationship). validate_relationship (some r)) of_relationship run_id
          b.relationships
          (sort_out now fault encode sink (λ (e : Entity). validate_entity (some e)) of_entity
            run_id b.entities w).1 in
      omega (arith, n, m)

  pub sort_out_batch-SameBut :
      (run_id : String) (b : Batch) (w : World S)
      → SameBut w (sort_out_batch now fault encode sink run_id b w).1
  unfolding sort_out_batch
  sort_out_batch-SameBut run_id b w =
      SameBut-then w _ _ (sort_out-SameBut _ of_entity run_id b.entities w)
        (sort_out-SameBut _ of_relationship run_id b.relationships _)

  add_line-SameBut :
      (f : Option String) (e : Entry) (w : World S)
      → ((add_line now fault f e w).checkpoints ≡ w.checkpoints)
        × (((add_line now fault f e w).ledger ≡ w.ledger)
            ⊎ ((add_line now fault f e w).ledger ≡ w.ledger ++ some e ∷ []))
  unfolding add_line
  add_line-SameBut none e w = (refl, inr refl)
  add_line-SameBut (some why) e w = (refl, inl refl)

  -- finishEntry writes one line, if it can, and leaves the checkpoints alone.
  pub finish_entry-writes :
      (e : Entry) (w : World S)
      → ((finish_entry now fault encode sink e w).1.checkpoints ≡ w.checkpoints)
        × (((finish_entry now fault encode sink e w).1.ledger ≡ w.ledger)
            ⊎ ((finish_entry now fault encode sink e w).1.ledger
                ≡ w.ledger ++ some (stamped (now w.calls) e) ∷ []))
  unfolding finish_entry append_entry
  finish_entry-writes e w = add_line-SameBut _ (stamped (now w.calls) e) (tick w)
