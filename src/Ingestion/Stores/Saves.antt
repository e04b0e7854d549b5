-- ===== src/Ingestion/Stores/Saves.antt =====
-- What Save does to the files, and that Load finds it again.
use fun_project.Common.{
  ℕ, suc, String, Option, none, some, ◌≡◌, ◌≢◌, refl, sym, subst, ◌∙◌, arith, eq_iff,
}
use fun_project.Common.Exec.{Result, ok, err}
use fun_project.Common.Assoc.{Assoc, at_key, set_key, at_key-set_key}
use fun_project.Storage.Schema.Types.{Time}
use fun_project.Ingestion.Stores.{
  CheckpointRecord, World, tick, sanitize, load, save, save_next, write_checkpoint,
  rename_checkpoint, read_checkpoint, decode_checkpoint,
}

abbrev pub Files : Type 0
Files = Assoc (Result String CheckpointRecord)

-- The files after Save has written one
pub record IsMovedTo (id position : String) (old new : Files) : Type 0 where
  pub written : CheckpointRecord
  pub own : written.source_id ≡ id
  pub at : written.position ≡ position
  pub files : new ≡ set_key old (sanitize id) (ok written)

pub IsMovedTo-then :
    (id position : String) (old mid new : Files)
    → IsMovedTo id position old mid
    → new ≡ mid
    → IsMovedTo id position old new
IsMovedTo-then id position old mid new m e = record {
  written = m.written;
  own = m.own;
  at = m.at;
  files = e ∙ m.files;
}

module _ {S : Type 0} (now : ℕ → Time) (fault : ℕ → Option String) where
  -- What a step of Save has done, with its error or without
  abbrev pub Saves : String → String → World S → Result String Unit × World S → Type 0
  Saves id position w (ok u, w') = IsMovedTo id position w.checkpoints w'.checkpoints
  Saves id position w (err why, w') = w'.checkpoints ≡ w.checkpoints

  rename_checkpoint-Saves :
      (f : Option String) (id : String) (r : CheckpointRecord) (w : World S)
      → r.source_id ≡ id
      → Saves id r.position w (rename_checkpoint now fault f id r w)
  unfolding rename_checkpoint
  rename_checkpoint-Saves none id r w e = record { written = r; own = e; at = refl; files = refl }
  rename_checkpoint-Saves (some why) id r w e = refl

  write_checkpoint-Saves :
      (f : Option String) (id : String) (r : CheckpointRecord) (w : World S)
      → r.source_id ≡ id
      → Saves id r.position w (write_checkpoint now fault f id r w)
  unfolding write_checkpoint
  write_checkpoint-Saves none id r w e =
      rename_checkpoint-Saves (fault (suc w.calls)) id r (tick w) e
  write_checkpoint-Saves (some why) id r w e = refl

  save_next-Saves :
      (r : Result String CheckpointRecord) (id position : String) (w : World S)
      → Saves id position w (save_next now fault r id position w)
  unfolding save_next
  save_next-Saves (ok prev) id position w =
      write_checkpoint-Saves (fault (suc w.calls)) id _ (tick w) refl
  save_next-Saves (err why) id position w = refl

  pub save-Saves :
      (id position : String) (w : World S) → Saves id position w (save now fault id position w)
  unfolding save
  save-Saves id position w = save_next-Saves _ id position (tick w)

-- The files after a Save: the one of the id has the position, and those of other names are as before.
pub record IsSaved (id position : String) (old new : Files) : Type 0 where
  pub written : CheckpointRecord
  pub own : written.source_id ≡ id
  pub at : written.position ≡ position
  pub found : at_key new (sanitize id) ≡ some (ok written)
  pub others : (name : String) → name ≢ sanitize id → at_key new name ≡ at_key old name

IsMovedTo-IsSaved :
    (id position : String) (old new : Files)
    → IsMovedTo id position old new
    → IsSaved id position old new
IsMovedTo-IsSaved id position old new m = record {
  written = m.written;
  own = m.own;
  at = m.at;
  found =
      subst (λ (f : Files). at_key f (sanitize id) ≡ some (ok m.written)) (sym m.files)
        (ground (
          arith,
          at_key-set_key old (sanitize id) (sanitize id) (ok m.written),
          eq_iff (sanitize id) (sanitize id),
        ));
  others = λ name n.
      subst (λ (f : Files). at_key f name ≡ at_key old name) (sym m.files)
        (ground (
          arith,
          n,
          at_key-set_key old (sanitize id) name (ok m.written),
          eq_iff (sanitize id) name,
        ));
}

module _ {S : Type 0} (now : ℕ → Time) (fault : ℕ → Option String) where
  load_found :
      (id : String) (w : World S) (r : CheckpointRecord)
      → fault w.calls ≡ none
      → at_key w.checkpoints (sanitize id) ≡ some (ok r)
      → (load now fault id w).0 ≡ ok r
  unfolding load read_checkpoint decode_checkpoint
  load_found id w r f e = simp (f, e) refl

  saved :
      (id position : String) (w : World S) (r : Result String Unit × World S)
      → Saves now fault id position w r
      → r.0 ≡ ok tt
      → IsSaved id position w.checkpoints r.1.checkpoints
  saved id position w (ok u, w') s e = IsMovedTo-IsSaved id position w.checkpoints w'.checkpoints s
  saved id position w (err why, w') s e = absurd (cc)

  -- After a Save that reports no error, a Load of the id whose read does not fail gives a record of
  -- that id with the saved position, and the files of other names are as they were.
  pub load-save :
      (id position : String) (w : World S)
      → (save now fault id position w).0 ≡ ok tt
      → fault (save now fault id position w).1.calls ≡ none
      → (r : CheckpointRecord) × ((load now fault id (save now fault id position w).1).0 ≡ ok r)
        × (r.source_id ≡ id)
        × (r.position ≡ position)
        × ((name : String)
            → name ≢ sanitize id
            → at_key (save now fault id position w).1.checkpoints name ≡ at_key w.checkpoints name)
  load-save id position w e f =
      let s =
        saved id position w (save now fault id position w) (save-Saves now fault id position w) e in
      (
        s.written,
        load_found id (save now fault id position w).1 s.written f s.found,
        s.own,
        s.at,
        s.others,
      )
