-- ===== src/Storage/Snapshot/Replay/Laws.antt =====
-- Lookups in a replayed graph, and the replay of a longer log.
use fun_project.Common.{
  ℕ, String, Option, none, some, List, [], ◌∷◌, ◌++◌, ◌==◌, if◌then◌else◌, ◌≡◌, refl, arith, eq_iff,
}
use fun_project.Common.Exec.{Result, ok, err}
use fun_project.Storage.Table.{Row, find, update_where}
use fun_project.Storage.Table.Laws.{or_else, find-append, find-update}
use fun_project.Storage.Session.{LogEntry}
use fun_project.Storage.Schema.Validate.{Error}
use fun_project.Storage.Snapshot.Replay.{
  GraphState, put_value, find_value, and_then, replay_entry, replay_all,
}

and_then-ok : {A : Type 0} (r : Result Error A) → and_then r ok ≡ r
and_then-ok (ok a) = refl
and_then-ok (err e) = refl

and_then_assoc :
    {A B C : Type 0} (r : Result Error A) (f : A → Result Error B) (g : B → Result Error C)
    (h : A → Result Error C)
    → ((a : A) → h a ≡ and_then (f a) g)
    → and_then r h ≡ and_then (and_then r f) g
and_then_assoc (ok a) f g h e = e a
and_then_assoc (err x) f g h e = refl

-- The graph after one more entry.
pub replay_all-append :
    (log : List LogEntry) (e : LogEntry) (g : GraphState)
    → replay_all (log ++ e ∷ []) g ≡ and_then (replay_all log g) (replay_entry e)
unfolding replay_all
replay_all-append [] e g = and_then-ok (replay_entry e g)
replay_all-append (d ∷ log) e g =
    and_then_assoc (replay_entry d g) (replay_all log) (replay_entry e) (replay_all (log ++ e ∷ []))
      (replay_all-append log e)

abbrev pub option_map : {A : Type 0} → (A → A) → Option A → Option A
option_map f none = none
option_map f (some a) = some (f a)

module _ {A : Type 0} (key : A → String) where
  pub find_value-append :
      (k : String) (xs : List A) (x : A)
      → find_value key k (xs ++ x ∷ [])
        ≡ or_else (find_value key k xs) (if key x == k then some x else none)
  unfolding find_value
  find_value-append k [] x = refl
  find_value-append k (y ∷ xs) x = ground (arith, find_value-append k xs x)

  pub find_value-put_value :
      (k : String) (x : A) (xs : List A)
      → find_value key k (put_value key x xs) ≡ (if key x == k then some x else find_value key k xs)
  unfolding find_value put_value
  find_value-put_value k x [] = refl
  find_value-put_value k x (y ∷ xs) = ground (
    arith,
    find_value-put_value k x xs,
    eq_iff (key y) (key x),
    eq_iff (key y) k,
    eq_iff (key x) k,
  )

  module _ (settle : A → A) where
    -- Each key leads to the same value in a graph and in a table, up to what `settle` forgets.
    abbrev pub Agree : List A → List (Row A) → Type 0
    Agree xs rows =
        (k : String) → option_map settle (find_value key k xs) ≡ option_map settle (find key k rows)

    pub Agree-append :
        (xs : List A) (rows : List (Row A)) (r : Row A)
        → Agree xs rows
        → Agree (xs ++ r.value ∷ []) (rows ++ r ∷ [])
    Agree-append xs rows r h k =
        ground (arith, h k, find_value-append k xs r.value, find-append key k rows r)

    pub Agree-update :
        (version : A → ℕ) (f : Row A → Row A) (g : A → A)
        → ((r : Row A) → (f r).value ≡ g r.value)
        → ((x : A) → key (g x) ≡ key x)
        → (xs : List A) (rows : List (Row A)) (id : String) (x y : A) → key y ≡ id
        → find key id rows ≡ some x
        → settle y ≡ settle (g x)
        → Agree xs rows
        → Agree (put_value key y xs) (update_where key version id (version x) f rows)
    Agree-update version f g val keep xs rows id x y at found same h k = ground (
      arith,
      h k,
      find_value-put_value k y xs,
      find-update key version k id (version x) f g val keep rows,
      eq_iff (key y) k,
      eq_iff id k,
    )
