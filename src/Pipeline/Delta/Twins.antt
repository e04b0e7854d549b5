-- ===== src/Pipeline/Delta/Twins.antt =====
-- Maps of properties that differ only where stage 6 does not look.
use fun_project.Common.{
  suc, String, Bool, true, false, ◌||◌, some, ◌≡◌, ◌⊎◌, inl, inr, refl, sym, ap, ◌∙◌, subst, arith,
  eq_iff, Bool-cases, ◌==◌,
}
use fun_project.Storage.Schema.Json.{Json, Fields, end, field, text, field_count, get_field}
use fun_project.Storage.Schema.Types.{Time}
use fun_project.Storage.Query.{set_field}
use fun_project.Nif.{SourceInfo}
use fun_project.Pipeline.Delta.{ignored, set_if, with_source, same_value, same_at_keys, maps_equal}

-- Maps with the same keys, whose values differ at most where they are ignored
abbrev pub Twin : Fields → Fields → Type 0
Twin end end = Unit
Twin end (field j w b) = ⊥
Twin (field k v a) end = ⊥
Twin (field k v a) (field j w b) = (k ≡ j) × ((ignored k ≡ true) ⊎ (v ≡ w)) × Twin a b

Twin-refl : (a : Fields) → Twin a a
Twin-refl end = tt
Twin-refl (field k v a) = (refl, inr refl, Twin-refl a)

Twin-set_field :
    (k : String) (v w : Json) (a b : Fields)
    → (ignored k ≡ true) ⊎ (v ≡ w)
    → Twin a b
    → Twin (set_field k v a) (set_field k w b)
unfolding set_field
Twin-set_field k v w end end h t = (refl, h, tt)
Twin-set_field k v w end (field j y b) h t = absurd t
Twin-set_field k v w (field i x a) end h t = absurd t
Twin-set_field k v w (field i x a) (field j y b) h (same, e, t) =
    let there = ap (λ (s : String). s == k) (sym same) in
    elim (Bool-cases (i == k)) [
      | inl here ↦ simp (here, there ∙ here) (refl, h, t)
      | inr other ↦ simp (other, there ∙ other) (same, e, Twin-set_field k v w a b h t)
    ]

pub Twin-set_if :
    (c : Bool) (k : String) (v : Json) (a b : Fields)
    → Twin a b
    → Twin (set_if c k v a) (set_if c k v b)
unfolding set_if
Twin-set_if true k v a b t = Twin-set_field k v v a b (inr refl) t
Twin-set_if false k v a b t = t

field_count-Twin : (a b : Fields) → Twin a b → field_count a ≡ field_count b
unfolding field_count
field_count-Twin end end t = refl
field_count-Twin end (field j y b) t = absurd t
field_count-Twin (field i x a) end t = absurd t
field_count-Twin (field i x a) (field j y b) (same, e, t) = ap suc (field_count-Twin a b t)

pub self_eq : (s : String) → (s == s) ≡ true
self_eq s = (eq_iff s s).1 refl

or_true : (a b : Bool) → (a ≡ true) ⊎ (b ≡ true) → (a || b) ≡ true
or_true a b h = ground (arith, h)

module _ (now : String → Time) (time_value : Time → Json) (marshal : Json → String) where
  same_value_refl : (v : Json) → same_value now time_value marshal (some v) (some v) ≡ true
  unfolding same_value
  same_value_refl v = ground (arith, eq_iff (marshal v) (marshal v))

  -- The keys that are compared are the first map's, so each has a value there.
  HasKeys : Fields → Fields → Type 0
  HasKeys end a = Unit
  HasKeys (field k v rest) a = ((w : Json) × (get_field k a ≡ some w)) × HasKeys rest a

  get_field-Twin :
      (k : String) (a b : Fields)
      → Twin a b
      → (w : Json) → get_field k a ≡ some w
      → (ignored k || same_value now time_value marshal (get_field k a) (get_field k b)) ≡ true
  unfolding get_field
  get_field-Twin k end end t w h = absurd (cc)
  get_field-Twin k end (field j y b) t w h = absurd t
  get_field-Twin k (field i x a) end t w h = absurd t
  get_field-Twin k (field i x a) (field j y b) (e, d, t) w h =
      let there = ap (λ (s : String). s == k) (sym e) in
      elim (Bool-cases (i == k)) [
        | inl here ↦
            simp (here, there ∙ here)
              (or_true (ignored k) _ (elim d [
                | inl skipped ↦
                    inl (subst (λ (s : String). ignored s ≡ true) ((eq_iff i k).0 here) skipped)
                | inr equal ↦ inr (
                    subst (λ (z : Json). same_value now time_value marshal (some x) (some z) ≡ true)
                      equal (same_value_refl x))
              ]))
        | inr other ↦ simp (other, there ∙ other) (get_field-Twin k a b t w (simp other at h))
      ]

  HasKeys-weaker :
      (i : String) (x : Json) (rest a : Fields) → HasKeys rest a → HasKeys rest (field i x a)
  unfolding HasKeys get_field
  HasKeys-weaker i x end a h = tt
  HasKeys-weaker i x (field k v rest) a ((w, e), h) = (
    elim (Bool-cases (i == k)) [ inl here ↦ (x, simp here refl) | inr other ↦ (w, simp other e) ],
    HasKeys-weaker i x rest a h,
  )

  HasKeys-own : (a : Fields) → HasKeys a a
  unfolding HasKeys get_field
  HasKeys-own end = tt
  HasKeys-own (field i x a) =
      ((x, ground (arith, eq_iff i i)), HasKeys-weaker i x a a (HasKeys-own a))

  same_at_keys-Twin :
      (rest a b : Fields)
      → Twin a b
      → HasKeys rest a
      → same_at_keys now time_value marshal rest a b ≡ true
  unfolding same_at_keys HasKeys
  same_at_keys-Twin end a b t h = refl
  same_at_keys-Twin (field k v rest) a b t ((w, e), h) =
      ground (arith, get_field-Twin k a b t w e, same_at_keys-Twin rest a b t h)

  pub maps_equal-Twin : (a b : Fields) → Twin a b → maps_equal now time_value marshal a b ≡ true
  unfolding maps_equal
  maps_equal-Twin a b t =
      ground (arith, field_count-Twin a b t, same_at_keys-Twin a a b t (HasKeys-own a))

  pub with_source-Twin :
      (s s' : SourceInfo) (run run' : String) (props : Fields)
      → s.source_type ≡ s'.source_type
      → s.source_id ≡ s'.source_id
      → s.source_ref ≡ s'.source_ref
      → Twin
          (with_source now time_value marshal s run props)
          (with_source now time_value marshal s' run' props)
  unfolding with_source ignored
  with_source-Twin s s' run run' props t i r =
      Twin-set_field "ingestion_run_id" _ _ _ _ (inl refl) (
        Twin-set_field "observed_at" _ _ _ _ (inl refl) (
          Twin-set_field "source_ref" _ _ _ _ (inr (ap text r)) (
            Twin-set_field "source_id" _ _ _ _ (inr (ap text i))
              (Twin-set_field "source_type" _ _ _ _ (inr (ap text t)) (Twin-refl props)))))
