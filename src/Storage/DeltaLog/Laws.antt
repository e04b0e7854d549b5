-- ===== src/Storage/DeltaLog/Laws.antt =====
-- What Read returns.
use fun_project.Common.{
  ℕ, zero, suc, ◌≤◌, ◌<◌, String, true, List, [], ◌∷◌, ◌==◌, ◌||◌, ◌≡◌, refl, ap, sym, subst, ◌⊎◌,
  inl, inr, ◌↔◌, arith, length, nat_eq, ltb, Bool-cases, eq_iff,
}
use fun_project.Common.Sort.{Listed}
use fun_project.Storage.Query.{ℤ, pos, negsuc}
use fun_project.Storage.Session.{Db, LogEntry}
use fun_project.Storage.DeltaLog.{ReadOpts, behind, wanted, selects, select, effective_limit, read}
use fun_project.Storage.Mutation.Integrity.{IsNumbered, IsConsistent}

-- Nothing is wanted of a field, or its value is.
abbrev pub IsWanted : String → String → Type 0
IsWanted want have = (want ≡ "") ⊎ (have ≡ want)

-- A first number that is not above 0 asks for nothing.
abbrev pub IsFrom : ℤ → ℕ → Type 0
IsFrom (negsuc n) id = Unit
IsFrom (pos n) id = n ≤ id

-- The entries that a reader asks for
pub record IsSelected (o : ReadOpts) (e : LogEntry) : Type 0 where
  pub from : IsFrom o.from_entry_id e.entry_id
  pub entity : IsWanted o.entity_id e.entity_id
  pub relationship : IsWanted o.relationship_id e.relationship_id
  pub transaction : IsWanted o.transaction_id e.transaction_id

-- The number of entries that may be returned: the one asked for, or 100 where it is not above 0 or is above 1000.
abbrev pub IsCap : ℤ → ℕ → Type 0
IsCap (negsuc asked) n = n ≡ 100
IsCap (pos asked) n =
    ((1 ≤ asked) × (asked ≤ 1000) × (n ≡ asked)) ⊎ (((asked ≡ 0) ⊎ (1000 < asked)) × (n ≡ 100))

abbrev pub IsAscending : List LogEntry → Type 0
IsAscending [] = Unit
IsAscending (e ∷ es) = ((x : LogEntry) → Listed x es → e.entry_id < x.entry_id) × IsAscending es

-- The oldest entries of a log that are asked for, `n` at most and in the order of their numbers: one
-- that is left out is behind `n` that are not.
pub record IsOldest (o : ReadOpts) (n : ℕ) (log out : List LogEntry) : Type 0 where
  pub bounded : length out ≤ n
  pub ascending : IsAscending out
  pub sound : (e : LogEntry) → Listed e out → Listed e log × IsSelected o e
  pub complete :
      (e : LogEntry)
      → Listed e log
      → IsSelected o e
      → Listed e out
        ⊎ ((length out ≡ n) × ((x : LogEntry) → Listed x out → x.entry_id < e.entry_id))

wanted_iff : (want have : String) → (wanted want have ≡ true) ↔ IsWanted want have
unfolding wanted
wanted_iff want have = elim (Bool-cases (want == "")) [
  | inl any ↦ ((λ h. inl ((eq_iff want "").0 any)), (λ h. ground (arith, any)))
  | inr given ↦ (
    (λ h. inr ((eq_iff have want).0 (ground (arith, h, given)))),
    (λ h. elim h [
      | inl any ↦ absurd (ground (arith, given, (eq_iff want "").1 any))
      | inr same ↦ ground (arith, (eq_iff have want).1 same)
    ]),
  )
]

behind_iff : (first : ℤ) (id : ℕ) → (behind first id ≡ true) ↔ IsFrom first id
unfolding behind
behind_iff (negsuc n) id = ((λ h. tt), (λ h. refl))
behind_iff (pos n) id = ((λ h. ground (arith, h)), (λ h. ground (arith, h)))

selects_iff : (o : ReadOpts) (e : LogEntry) → (selects o e ≡ true) ↔ IsSelected o e
unfolding selects
selects_iff o e =
    let f = behind_iff o.from_entry_id e.entry_id in
    let w = wanted_iff o.entity_id e.entity_id in
    let r = wanted_iff o.relationship_id e.relationship_id in
    let t = wanted_iff o.transaction_id e.transaction_id in
    (
      (λ h. record {
        from = f.0 (ground (arith, h));
        entity = w.0 (ground (arith, h));
        relationship = r.0 (ground (arith, h));
        transaction = t.0 (ground (arith, h));
      }),
      (λ s. ground (arith, f.1 s.from, w.1 s.entity, r.1 s.relationship, t.1 s.transaction)),
    )

numbered_above :
    (n : ℕ) (log : List LogEntry) (e : LogEntry) → IsNumbered n log → Listed e log → n < e.entry_id
numbered_above n [] e num h = absurd h
numbered_above n (x ∷ log) e num (inl same) =
    subst (λ (y : LogEntry). n < y.entry_id) same (omega (arith, num.0))
numbered_above n (x ∷ log) e num (inr later) =
    omega (arith, numbered_above (suc n) log e num.1 later)

taken :
    (o : ReadOpts) (n : ℕ) (log out : List LogEntry) (e : LogEntry)
    → IsSelected o e
    → ((x : LogEntry) → Listed x log → e.entry_id < x.entry_id)
    → IsOldest o n log out
    → IsOldest o (suc n) (e ∷ log) (e ∷ out)
taken o n log out e chosen above rest = record {
  bounded = omega (arith, rest.bounded);
  ascending = ((λ x h. above x (rest.sound x h).0), rest.ascending);
  sound = λ x h. elim h [
    | inl same ↦ (inl same, subst (IsSelected o) same chosen)
    | inr later ↦ (inr (rest.sound x later).0, (rest.sound x later).1)
  ];
  complete = λ x h s. elim h [
    | inl same ↦ inl (inl same)
    | inr later ↦ elim (rest.complete x later s) [
      | inl here ↦ inl (inr here)
      | inr (full, behind) ↦ inr (
        ap (λ (k : ℕ). suc k) full,
        (λ y g. elim g [
          | inl first ↦ subst (λ (z : LogEntry). z.entry_id < x.entry_id) first (above x later)
          | inr more ↦ behind y more
        ]),
      )
    ]
  ];
}

skipped :
    (o : ReadOpts) (n : ℕ) (log out : List LogEntry) (e : LogEntry)
    → (IsSelected o e → ⊥)
    → IsOldest o n log out
    → IsOldest o n (e ∷ log) out
skipped o n log out e passed rest = record {
  bounded = rest.bounded;
  ascending = rest.ascending;
  sound = λ x h. (inr (rest.sound x h).0, (rest.sound x h).1);
  complete = λ x h s. elim h [
    | inl same ↦ absurd (passed (subst (IsSelected o) (sym same) s))
    | inr later ↦ rest.complete x later s
  ];
}

select-IsOldest :
    (o : ReadOpts) (n k : ℕ) (log : List LogEntry)
    → IsNumbered k log
    → IsOldest o n log (select o n log)
unfolding select
select-IsOldest o zero k log num = record {
  bounded = omega arith;
  ascending = tt;
  sound = λ e h. absurd h;
  complete = λ e h s. inr (refl, (λ x g. absurd g));
}
select-IsOldest o (suc n) k [] num = record {
  bounded = omega arith;
  ascending = tt;
  sound = λ e h. absurd h;
  complete = λ e h s. absurd h;
}
select-IsOldest o (suc n) k (e ∷ log) num =
    let above : (x : LogEntry) → Listed x log → e.entry_id < x.entry_id =
      λ x h. ground (arith, num.0, numbered_above (suc k) log x num.1 h) in
    elim (Bool-cases (selects o e)) [
      | inl chosen ↦
          let rest = select-IsOldest o n (suc k) log num.1 in
          let goes_on : select o (suc n) (e ∷ log) ≡ e ∷ select o n log = ground (arith, chosen) in
          rw goes_on (taken o n log (select o n log) e ((selects_iff o e).0 chosen) above rest)
      | inr passed ↦
          let rest = select-IsOldest o (suc n) (suc k) log num.1 in
          let goes_on : select o (suc n) (e ∷ log) ≡ select o (suc n) log =
            ground (arith, passed) in
          rw goes_on (
            skipped o (suc n) log (select o (suc n) log) e
              (λ s. absurd (ground (arith, passed, (selects_iff o e).1 s))) rest)
    ]

effective_limit-IsCap : (n : ℤ) → IsCap n (effective_limit n)
unfolding effective_limit
effective_limit-IsCap (negsuc n) = refl
effective_limit-IsCap (pos n) = elim (Bool-cases (nat_eq n 0 || ltb 1000 n)) [
  | inl out ↦ simp out (inr (ground (arith, out), refl))
  | inr within ↦ simp within (inl (ground (arith, within), ground (arith, within), refl))
]

-- Of a well-formed log Read returns the oldest of the entries that have at least the number asked for
-- and the entity, edge and transaction asked for, where one is: in the order of their numbers, and
-- as many as there are, up to the limit asked for, or 100 where that is not above 0 or is above 1000.
pub read-IsOldest :
    (o : ReadOpts) (db : Db)
    → IsConsistent db
    → (n : ℕ) × IsCap o.limit n × IsOldest o n db.delta_log (read o db)
unfolding read
read-IsOldest o db c =
    let n = effective_limit o.limit in
    (n, effective_limit-IsCap o.limit, select-IsOldest o n 0 db.delta_log c.numbered)
