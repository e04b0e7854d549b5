-- ===== src/Serving/Topics/Few.antt =====
-- The cap on the number of topics: merging into misc, and how many directories are left.
use fun_project.Common.{
  ℕ, zero, suc, ◌+◌, ◌≤◌, String, Bool, false, List, [], ◌∷◌, ◌==◌, ◌≡◌, refl, ap, ◌∙◌, arith, inl,
  inr, Bool-cases, length, if◌then◌else◌, ltb, eq_iff,
}
use fun_project.Common.Assoc.{at_key, keys}
use fun_project.Common.Count.{
  total, worth, entries_at, IsMap, times, sum_by, sum_by-sort_with, sum_by-keys, worth_one,
}
use fun_project.Serving.Topics.{
  Buckets, larger_first, sorted_keys_by_size, merge_bucket, past_first, into_misc, cap_topics,
}
use fun_project.Serving.Topics.Merge.{
  IsMap-merge_bucket, total-merge_bucket, entries_at-merge_bucket,
}
use fun_project.Serving.Topics.Names.{misc_dir}

-- The directories but misc
abbrev pub named : Buckets → ℕ
named bs = total (λ d ids. if d == misc_dir then 0 else 1) bs

abbrev pub named_of : List String → ℕ
named_of ds = sum_by (λ d. if d == misc_dir then 0 else 1) ds

times-head : (d : String) (ds : List String) → 1 ≤ times d (d ∷ ds)
unfolding sum_by
times-head d ds = ground (arith, eq_iff d d)

-- A directory that is there once and is merged into misc is there no more.
times-merge_bucket :
    (d : String) (ds : List String) (bs : Buckets) (k : String)
    → IsMap bs
    → (d == misc_dir) ≡ false
    → times k (d ∷ ds) ≤ entries_at k bs
    → times k ds ≤ entries_at k (merge_bucket bs d misc_dir)
unfolding sum_by
times-merge_bucket d ds bs k h apart there = ground (
  arith,
  there,
  h k,
  entries_at-merge_bucket bs d misc_dir k h apart,
  eq_iff d k,
  eq_iff misc_dir k,
)

named-merge_bucket :
    (bs : Buckets) (d : String)
    → IsMap bs
    → (d == misc_dir) ≡ false
    → 1 ≤ entries_at d bs
    → suc (named (merge_bucket bs d misc_dir)) ≡ named bs
named-merge_bucket bs d h apart there =
    let sums = total-merge_bucket (λ j ids. if j == misc_dir then 0 else 1) bs d misc_dir h apart in
    let one : worth (λ (ids : List String). if d == misc_dir then 0 else 1) (at_key bs d)
        ≡ worth (λ (ids : List String). 1) (at_key bs d) =
      simp apart refl in
    ground (arith, sums, one, worth_one bs d h, h d, there, eq_iff misc_dir misc_dir)

named-into_misc :
    (ds : List String) (bs : Buckets)
    → IsMap bs
    → ((k : String) → times k ds ≤ entries_at k bs)
    → named (into_misc ds bs) + named_of ds ≡ named bs
unfolding into_misc sum_by
named-into_misc [] bs h there = omega arith
named-into_misc (d ∷ ds) bs h there = elim (Bool-cases (d == misc_dir)) [
  | inl misc ↦
      let rest = named-into_misc ds bs h (λ k. ground (arith, there k)) in
      simp misc (omega (arith, rest))
  | inr apart ↦
      let rest =
        named-into_misc ds (merge_bucket bs d misc_dir) (IsMap-merge_bucket bs d misc_dir h)
          (λ k. times-merge_bucket d ds bs k h apart (there k)) in
      let one_less = named-merge_bucket bs d h apart (omega (arith, there d, times-head d ds)) in
      let step : named (into_misc (d ∷ ds) bs) ≡ named (into_misc ds (merge_bucket bs d misc_dir)) =
        ap (λ (b : Bool). named (into_misc ds (if b then bs else merge_bucket bs d misc_dir)))
          apart in
      let counted : named_of (d ∷ ds) ≡ suc (named_of ds) = simp apart (omega arith) in
      omega (arith, rest, one_less, step, counted)
]

named_of-past_first : (n : ℕ) (ds : List String) → named_of ds ≤ n + named_of (past_first n ds)
unfolding past_first sum_by
named_of-past_first zero ds = omega arith
named_of-past_first (suc n) [] = omega arith
named_of-past_first (suc n) (d ∷ ds) = ground (arith, named_of-past_first n ds)

times-past_first : (k : String) (n : ℕ) (ds : List String) → times k (past_first n ds) ≤ times k ds
unfolding past_first sum_by
times-past_first k zero ds = omega arith
times-past_first k (suc n) [] = omega arith
times-past_first k (suc n) (d ∷ ds) = ground (arith, times-past_first k n ds)

pub sum_by-sorted_keys_by_size :
    (f : String → ℕ) (bs : Buckets) → sum_by f (sorted_keys_by_size bs) ≡ total (λ d ids. f d) bs
unfolding sorted_keys_by_size
sum_by-sorted_keys_by_size f bs = sum_by-sort_with f (larger_first bs) (keys bs) ∙ sum_by-keys f bs

pub length-named : (bs : Buckets) → length bs ≡ named bs + entries_at misc_dir bs
unfolding total
length-named [] = omega arith
length-named ((d, ids) ∷ bs) = ground (arith, length-named bs)

times-keys :
    (bs : Buckets) (k : String) (n : ℕ)
    → times k (past_first n (sorted_keys_by_size bs)) ≤ entries_at k bs
times-keys bs k n = omega (
  arith,
  times-past_first k n (sorted_keys_by_size bs),
  sum_by-sorted_keys_by_size (λ d. if d == k then 1 else 0) bs,
)

pub named-cap_topics : (most : ℕ) (bs : Buckets) → IsMap bs → named (cap_topics most bs) ≤ most
unfolding cap_topics
named-cap_topics most bs h = elim (Bool-cases (ltb most (length bs))) [
  | inl over ↦
      let ds : List String = sorted_keys_by_size bs in
      let one : String → ℕ = λ d. if d == misc_dir then 0 else 1 in
      let merged = named-into_misc (past_first most ds) bs h (λ k. times-keys bs k most) in
      simp over
        (omega (arith, merged, named_of-past_first most ds, sum_by-sorted_keys_by_size one bs))
  | inr within ↦ simp within (ground (arith, within, length-named bs))
]
