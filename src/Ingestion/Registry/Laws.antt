-- ===== src/Ingestion/Registry/Laws.antt =====
-- When Register takes an ingestor, and what the registry then holds.
use fun_project.Common.{
  String, Option, none, some, ◌≡◌, ◌≢◌, ◌↔◌, refl, arith, eq_iff, Bool-cases, inl, inr, ◌==◌,
  if◌then◌else◌,
}
use fun_project.Common.Exec.{Result, ok}
use fun_project.Common.Assoc.{at_key, set_key, at_key-set_key}
use fun_project.Ingestion.Contract.{Ingestor}
use fun_project.Ingestion.Registry.{
  Registry, id_of, RegisterError, add_new, register_valid, register, get_ingestor,
}

-- An ingestor that may be registered: it has an id, its configuration is valid and the id is free.
pub record IsWelcome (i : Ingestor) (r : Registry) : Type 0 where
  pub named : id_of i ≢ ""
  pub valid : i.config_error ≡ none
  pub free : get_ingestor r (id_of i) ≡ none

-- The registry with one more ingestor
abbrev pub HasAlso : Ingestor → Registry → Registry → Type 0
HasAlso i r r' =
    (k : String) → get_ingestor r' k ≡ (if id_of i == k then some i else get_ingestor r k)

Added : Ingestor → Registry → Result RegisterError Registry → Type 0
Added i r res = (r' : Registry) × (res ≡ ok r') × HasAlso i r r'

add_new-Added :
    (i : Ingestor) (r : Registry) (old : Option Ingestor)
    → (Added i r (add_new i old r)) ↔ (old ≡ none)
unfolding add_new Added get_ingestor
add_new-Added i r none =
    ((λ a. refl), (λ e. (set_key r (id_of i) i, refl, (λ k. at_key-set_key r (id_of i) k i))))
add_new-Added i r (some other) = ((λ (r', e, h). absurd (cc)), (λ e. absurd (cc)))

register_valid-Added :
    (i : Ingestor) (r : Registry) (config : Option String)
    → (Added i r (register_valid i config r))
      ↔ ((config ≡ none) × (get_ingestor r (id_of i) ≡ none))
unfolding register_valid get_ingestor Added
register_valid-Added i r none =
    let both = add_new-Added i r (at_key r (id_of i)) in
    ((λ a. (refl, both.0 a)), (λ (c, f). both.1 f))
register_valid-Added i r (some why) = ((λ (r', e, h). absurd (cc)), (λ (c, f). absurd (cc)))

-- Register succeeds exactly for an ingestor with an id that is not empty and not taken, whose
-- configuration is valid; the registry it gives finds that ingestor under its id, and under every
-- other id what was there.
pub register_iff :
    (i : Ingestor) (r : Registry)
    → ((r' : Registry) × (register (some i) r ≡ ok r') × HasAlso i r r') ↔ IsWelcome i r
unfolding register Added
register_iff i r = elim (Bool-cases (id_of i == "")) [
  | inl empty ↦ simp empty (
    (λ (r', e, h). absurd (cc)),
    (λ (w : IsWelcome i r). absurd (w.named ((eq_iff (id_of i) "").0 empty))),
  )
  | inr named ↦
      let both = register_valid-Added i r i.config_error in
      simp named (
        (λ a.
            let (v, f) = both.0 a in
            record {
              named = λ e. ground (arith, e, named, eq_iff (id_of i) "");
              valid = v;
              free = f;
            }),
        (λ (w : IsWelcome i r). both.1 (w.valid, w.free)),
      )
]
