-- ===== src/Serving/Topics/Merge.antt =====
-- What merging a directory into another does to totals over the buckets, and to their keys.
use fun_project.Common.{
  ℕ, ◌+◌, String, false, none, some, List, [], ◌∷◌, ◌++◌, ◌==◌, ◌≡◌, refl, ap, ◌∙◌, inl, inr,
  Bool-cases, arith, eq_iff, if◌then◌else◌, either_branch, map, length, ltb,
}
use fun_project.Common.Assoc.{at_key, set_key, at_key-set_key, at_key-delete_key}
use fun_project.Common.Count.{
  total, worth, entries_at, IsMap, times, sum_by, sum_by-append, total-delete_key, total-set_key,
  entries_at-delete_key, IsMap-delete_key, IsMap-set_key,
}
use fun_project.Serving.Client.{Z4Entity}
use fun_project.Serving.Topics.{
  Buckets, Cross, ids_at, put_entity, bucket_up, merge_bucket, fold_small, into_misc, cap_topics,
  past_first, sorted_keys_by_size,
}
use fun_project.Serving.Topics.Names.{misc_dir, dir_key_of}

pub total-merge_bucket :
    (w : String → List String → ℕ) (bs : Buckets) (from to : String)
    → IsMap bs
    → (from == to) ≡ false
    → total w (merge_bucket bs from to)
        + worth (w from) (at_key bs from)
        + worth (w to) (at_key bs to)
      ≡ total w bs + w to (ids_at bs to ++ ids_at bs from)
unfolding merge_bucket
total-merge_bucket w bs from to h apart =
    let grown : Buckets = set_key bs to (ids_at bs to ++ ids_at bs from) in
    let away = total-delete_key w grown from (IsMap-set_key bs to _ h from) in
    let put = total-set_key w bs to (ids_at bs to ++ ids_at bs from) (h to) in
    let other : at_key grown from ≡ at_key bs from = ground (
      arith,
      at_key-set_key bs to from (ids_at bs to ++ ids_at bs from),
      eq_iff from to,
      eq_iff to from,
    ) in
    let same : worth (w from) (at_key grown from) ≡ worth (w from) (at_key bs from) =
      ap (worth (w from)) other in
    simp apart (omega (arith, away, put, same))

pub IsMap-merge_bucket :
    (bs : Buckets) (from to : String) → IsMap bs → IsMap (merge_bucket bs from to)
unfolding merge_bucket
IsMap-merge_bucket bs from to h = elim (Bool-cases (from == to)) [
  | inl same ↦ simp same h
  | inr apart ↦ simp apart (IsMap-delete_key (set_key bs to _) from (IsMap-set_key bs to _ h))
]

pub entries_at-merge_bucket :
    (bs : Buckets) (from to k : String)
    → IsMap bs
    → (from == to) ≡ false
    → entries_at k (merge_bucket bs from to)
      ≡ (if from == k then 0 else (if to == k then 1 else entries_at k bs))
unfolding merge_bucket set_key total
entries_at-merge_bucket bs from to k h apart = ground (
  arith,
  entries_at-delete_key (set_key bs to (ids_at bs to ++ ids_at bs from)) from k,
  entries_at-delete_key bs to k,
  eq_iff from to,
  eq_iff from k,
  eq_iff to k,
)

-- How often an id stands in a directory
abbrev pub uses : String → Buckets → ℕ
uses k bs = total (λ d ids. times k ids) bs

pub worth-times :
    (bs : Buckets) (d k : String) → worth (times k) (at_key bs d) ≡ times k (ids_at bs d)
unfolding ids_at sum_by
worth-times bs d k = ground arith

pub uses-merge_bucket :
    (bs : Buckets) (from to k : String) → IsMap bs → uses k (merge_bucket bs from to) ≡ uses k bs
unfolding merge_bucket
uses-merge_bucket bs from to k h = elim (Bool-cases (from == to)) [
  | inl same ↦ simp same refl
  | inr apart ↦
      let sums = total-merge_bucket (λ d ids. times k ids) bs from to h apart in
      let joined = sum_by-append (λ j. if j == k then 1 else 0) (ids_at bs to) (ids_at bs from) in
      omega (arith, sums, joined, worth-times bs from k, worth-times bs to k)
]

pub IsMap-bucket_up : (es : List Z4Entity) (bs : Buckets) → IsMap bs → IsMap (bucket_up es bs)
unfolding bucket_up put_entity
IsMap-bucket_up [] bs h = h
IsMap-bucket_up (e ∷ es) bs h =
    IsMap-bucket_up es (put_entity bs e) (IsMap-set_key bs (dir_key_of e) _ h)

pub uses-bucket_up :
    (es : List Z4Entity) (bs : Buckets) (k : String)
    → IsMap bs
    → uses k (bucket_up es bs) ≡ uses k bs + times k (map (λ (e : Z4Entity). e.id) es)
unfolding bucket_up put_entity sum_by
uses-bucket_up [] bs k h = omega arith
uses-bucket_up (e ∷ es) bs k h =
    let d : String = dir_key_of e in
    let put = total-set_key (λ d ids. times k ids) bs d (ids_at bs d ++ e.id ∷ []) (h d) in
    let joined = sum_by-append (λ j. if j == k then 1 else 0) (ids_at bs d) (e.id ∷ []) in
    let rest = uses-bucket_up es (put_entity bs e) k (IsMap-set_key bs d _ h) in
    omega (arith, rest, put, joined, worth-times bs d k)

-- What merging keeps, the steps that merge keep.
module _ (P : Buckets → Type 0)
    (keep : (bs : Buckets) (from to : String) → P bs → P (merge_bucket bs from to)) where
  pub fold_small-keeps :
      (least : ℕ) (cross : Cross) (ds : List String) (bs : Buckets)
      → P bs
      → P (fold_small least cross ds bs)
  unfolding fold_small
  fold_small-keeps least cross [] bs h = h
  fold_small-keeps least cross (d ∷ ds) bs h =
      fold_small-keeps least cross ds _
        (either_branch P _ bs (merge_bucket bs d _) h (keep bs d _ h))

module _ (P : Buckets → Type 0)
    (keep : (bs : Buckets) (from : String) → P bs → P (merge_bucket bs from misc_dir)) where
  pub into_misc-keeps : (ds : List String) (bs : Buckets) → P bs → P (into_misc ds bs)
  unfolding into_misc
  into_misc-keeps [] bs h = h
  into_misc-keeps (d ∷ ds) bs h =
      into_misc-keeps ds _
        (either_branch P (d == misc_dir) bs (merge_bucket bs d misc_dir) h (keep bs d h))

  pub cap_topics-keeps : (most : ℕ) (bs : Buckets) → P bs → P (cap_topics most bs)
  unfolding cap_topics
  cap_topics-keeps most bs h =
      let ds : List String = past_first most (sorted_keys_by_size bs) in
      either_branch P (ltb most (length bs)) (into_misc ds bs) bs (into_misc-keeps ds bs h) h

-- A map in which the id stands n times
abbrev pub Keeps : String → ℕ → Buckets → Type 0
Keeps k n bs = IsMap bs × (uses k bs ≡ n)

pub Keeps-merge_bucket :
    (k : String) (n : ℕ) (bs : Buckets) (from to : String)
    → Keeps k n bs
    → Keeps k n (merge_bucket bs from to)
Keeps-merge_bucket k n bs from to h =
    (IsMap-merge_bucket bs from to h.0, uses-merge_bucket bs from to k h.0 ∙ h.1)

pub at_key-merge_bucket :
    (bs : Buckets) (from to k : String)
    → (from == to) ≡ false
    → at_key (merge_bucket bs from to) k ≡ (
        if from == k
        then none
        else (if to == k then some (ids_at bs to ++ ids_at bs from) else at_key bs k))
unfolding merge_bucket
at_key-merge_bucket bs from to k apart =
    let put : List String = ids_at bs to ++ ids_at bs from in
    ground (arith, at_key-delete_key (set_key bs to put) from k, at_key-set_key bs to k put)
