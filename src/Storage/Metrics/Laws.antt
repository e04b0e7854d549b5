-- ===== src/Storage/Metrics/Laws.antt =====
-- What GetLatestEntityMetrics returns.
use fun_project.Common.{
  String, Option, none, some, Bool, true, List, [], ◌∷◌, ◌≡◌, refl, ◌⊎◌, inl, inr, All, Bool-cases,
  eq_iff, sym, subst, either_branch, ◌==◌, if◌then◌else◌,
}
use fun_project.Storage.Schema.Types.{Time}
use fun_project.Storage.Metrics.{EntityMetrics, MetricsEnv, latest, newer}

-- Texts are compared by a total order.
pub record IsOrder (le : Time → Time → Bool) : Type 0 where
  pub total : (a b : Time) → (le a b ≡ true) ⊎ (le b a ≡ true)
  pub transitive : (a b c : Time) → le a b ≡ true → le b c ≡ true → le a c ≡ true

-- The measurement is one of the rows.
abbrev pub Recorded : EntityMetrics → List EntityMetrics → Type 0
Recorded m [] = ⊥
Recorded m (n ∷ rows) = (n ≡ m) ⊎ Recorded m rows

-- The measurement is not later than the answer, where it is one of that entity.
abbrev pub UpTo : MetricsEnv → String → Option EntityMetrics → EntityMetrics → Type 0
UpTo env id none m = (m.entity_id == id) ≡ Bool.false
UpTo env id (some n) m =
    ((m.entity_id == id) ≡ Bool.false) ⊎ (env.text_le m.timestamp n.timestamp ≡ true)

abbrev pub IsOwn : String → List EntityMetrics → Option EntityMetrics → Type 0
IsOwn id rows none = Unit
IsOwn id rows (some m) = (m.entity_id ≡ id) × Recorded m rows

All-UpTo :
    (env : MetricsEnv) (id : String) (o p : Option EntityMetrics)
    → ((m : EntityMetrics) → UpTo env id o m → UpTo env id p m)
    → (rows : List EntityMetrics) → All (UpTo env id o) rows
    → All (UpTo env id p) rows
All-UpTo env id o p f [] h = tt
All-UpTo env id o p f (m ∷ rows) h = (f m h.0, All-UpTo env id o p f rows h.1)

IsOwn-later :
    (id : String) (n : EntityMetrics) (rows : List EntityMetrics) (o : Option EntityMetrics)
    → IsOwn id rows o
    → IsOwn id (n ∷ rows) o
IsOwn-later id n rows none h = tt
IsOwn-later id n rows (some m) h = (h.0, inr h.1)

module _ (env : MetricsEnv) (order : IsOrder env.text_le) (id : String) where
  newer-IsOwn :
      (m : EntityMetrics) (rows : List EntityMetrics) (o : Option EntityMetrics)
      → m.entity_id ≡ id
      → IsOwn id rows o
      → IsOwn id (m ∷ rows) (some (newer env m o))
  unfolding newer
  newer-IsOwn m rows none own h = (own, inl refl)
  newer-IsOwn m rows (some n) own h =
      either_branch (λ y. IsOwn id (m ∷ rows) (some y)) (env.text_le m.timestamp n.timestamp) n m
        (h.0, inr h.1) (own, inl refl)

  newer-UpTo :
      (m x : EntityMetrics) (o : Option EntityMetrics)
      → UpTo env id o x
      → UpTo env id (some (newer env m o)) x
  unfolding newer
  newer-UpTo m x none h = inl h
  newer-UpTo m x (some n) (inl h) = inl h
  newer-UpTo m x (some n) (inr h) = elim (Bool-cases (env.text_le m.timestamp n.timestamp)) [
    | inl le ↦ simp le (inr h)
    | inr gt ↦ simp gt (elim (order.total m.timestamp n.timestamp) [
      | inl le ↦ absurd (cc)
      | inr ge ↦ inr (order.transitive x.timestamp n.timestamp m.timestamp h ge)
    ])
  ]

  UpTo-newer : (m : EntityMetrics) (o : Option EntityMetrics) → UpTo env id (some (newer env m o)) m
  unfolding newer
  UpTo-newer m none = inr (elim (order.total m.timestamp m.timestamp) [ inl h ↦ h | inr h ↦ h ])
  UpTo-newer m (some n) = elim (Bool-cases (env.text_le m.timestamp n.timestamp)) [
    | inl le ↦ simp le (inr refl)
    | inr gt ↦ simp gt (inr (elim (order.total m.timestamp m.timestamp) [ inl h ↦ h | inr h ↦ h ]))
  ]

  UpTo-foreign :
      (m : EntityMetrics) (o : Option EntityMetrics)
      → (m.entity_id == id) ≡ Bool.false
      → UpTo env id o m
  UpTo-foreign m none h = h
  UpTo-foreign m (some n) h = inl h

  -- Where the texts of instants are compared by a total order, GetLatestEntityMetrics of a table
  -- answers with a row of the entity than which no row of the entity is later, and with nothing
  -- only where the table has no row of the entity.
  pub latest-IsNewest :
      (rows : List EntityMetrics)
      → IsOwn id rows (latest env id rows) × All (UpTo env id (latest env id rows)) rows
  unfolding latest
  latest-IsNewest [] = (tt, tt)
  latest-IsNewest (m ∷ rows) =
      let rest = latest-IsNewest rows in
      let newest = newer env m (latest env id rows) in
      let Answer : Bool → Type 0 = λ b.
        let o = if b then some newest else latest env id rows in
        IsOwn id (m ∷ rows) o × All (UpTo env id o) (m ∷ rows) in
      elim (Bool-cases (m.entity_id == id)) [
        | inl own ↦ subst Answer (sym own) (
          newer-IsOwn m rows (latest env id rows) ((eq_iff m.entity_id id).0 own) rest.0,
          (
            UpTo-newer m (latest env id rows),
            All-UpTo env id (latest env id rows) (some newest)
                (λ x. newer-UpTo m x (latest env id rows)) rows rest.1,
          ),
        )
        | inr foreign ↦ subst Answer (sym foreign) (
          IsOwn-later id m rows (latest env id rows) rest.0,
          (UpTo-foreign m (latest env id rows) foreign, rest.1),
        )
      ]
