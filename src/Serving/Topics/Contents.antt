-- ===== src/Serving/Topics/Contents.antt =====
-- The entities of the topics that Segment of serving/internal/wiki/topics.go makes.
use fun_project.Common.{
  ℕ, ◌+◌, ◌≤◌, String, some, List, [], ◌∷◌, ◌++◌, ◌==◌, ◌≡◌, refl, ◌∙◌, arith, map, inl, inr,
  Bool-cases, nat_eq, length, if◌then◌else◌,
}
use fun_project.Common.Sort.{sort_by}
use fun_project.Common.Count.{
  total, IsMap, times, sum_by, sum_by-append, sum_by-sort_with, times-sort_by,
}
use fun_project.Serving.Client.{Z4Entity, NamespaceListing}
use fun_project.Serving.Topics.{
  Topic, SegmentOptions, Buckets, Cross, with_defaults, bucket_up, entity_dirs, cross_edges,
  sorted_keys_by_size, topic_of, topic_before, materialize, final_buckets, segment,
}
use fun_project.Serving.Topics.Merge.{
  uses, IsMap-bucket_up, uses-bucket_up, fold_small-keeps, cap_topics-keeps, Keeps,
  Keeps-merge_bucket,
}
use fun_project.Serving.Topics.Names.{misc_dir}

abbrev pub ids_of : List Topic → List String
ids_of [] = []
ids_of (t ∷ ts) = t.entity_ids ++ ids_of ts

times-map :
    {A : Type 0} (k : String) (f : A → String) (xs : List A) → times k (map f xs) ≤ length xs
unfolding sum_by
times-map k f [] = omega arith
times-map k f (x ∷ xs) = ground (arith, times-map k f xs)

times-ids_of :
    (k : String) (ts : List Topic)
    → times k (ids_of ts) ≡ sum_by (λ (t : Topic). times k t.entity_ids) ts
unfolding sum_by
times-ids_of k [] = refl
times-ids_of k (t ∷ ts) = omega (
  arith,
  sum_by-append (λ j. if j == k then 1 else 0) t.entity_ids (ids_of ts),
  times-ids_of k ts,
)

sum_by-topic_of :
    (f : Topic → ℕ) (bs : Buckets)
    → sum_by f (map topic_of bs) ≡ total (λ d ids. f (topic_of (d, ids))) bs
unfolding sum_by total
sum_by-topic_of f [] = refl
sum_by-topic_of f ((d, ids) ∷ bs) = omega (arith, sum_by-topic_of f bs)

-- A sum over the topics is one over the buckets.
pub sum_by-materialize :
    (f : Topic → ℕ) (bs : Buckets)
    → sum_by f (materialize bs) ≡ total (λ d ids. f (topic_of (d, ids))) bs
unfolding materialize
sum_by-materialize f bs = sum_by-sort_with f topic_before (map topic_of bs) ∙ sum_by-topic_of f bs

total-sorted :
    (k : String) (bs : Buckets)
    → total (λ d ids. times k (sort_by (λ (x : String). x) ids)) bs ≡ uses k bs
unfolding total
total-sorted k [] = refl
total-sorted k ((d, ids) ∷ bs) = omega (arith, times-sort_by k ids, total-sorted k bs)

times-materialize : (k : String) (bs : Buckets) → times k (ids_of (materialize bs)) ≡ uses k bs
unfolding topic_of
times-materialize k bs =
    times-ids_of k (materialize bs)
    ∙ sum_by-materialize (λ (t : Topic). times k t.entity_ids) bs
    ∙ total-sorted k bs

pub IsMap-none : IsMap {V = List String} []
unfolding total
IsMap-none k = omega arith

pub Keeps-bucket_up :
    (es : List Z4Entity) (k : String)
    → Keeps k (times k (map (λ (e : Z4Entity). e.id) es)) (bucket_up es [])
unfolding total
Keeps-bucket_up es k =
    let put : uses k (bucket_up es []) ≡ 0 + times k (map (λ (e : Z4Entity). e.id) es) =
      uses-bucket_up es [] k IsMap-none in
    (IsMap-bucket_up es [] IsMap-none, omega (arith, put))

pub Keeps-final_buckets :
    (listing : NamespaceListing) (opts : SegmentOptions) (k : String)
    → Keeps k (times k (map (λ (e : Z4Entity). e.id) listing.entities)) (final_buckets listing opts)
unfolding final_buckets
Keeps-final_buckets listing opts k =
    let o : SegmentOptions = with_defaults opts in
    let bs : Buckets = bucket_up listing.entities [] in
    let cross : Cross = cross_edges (entity_dirs listing.entities []) listing.relationships [] in
    let n : ℕ = times k (map (λ (e : Z4Entity). e.id) listing.entities) in
    let folded =
      fold_small-keeps (Keeps k n) (Keeps-merge_bucket k n) o.min_topic_size cross
        (sorted_keys_by_size bs) bs (Keeps-bucket_up listing.entities k) in
    cap_topics-keeps (Keeps k n) (λ bs d. Keeps-merge_bucket k n bs d misc_dir) o.max_topics _
      folded

-- Every id stands in the topics together as often as it does in the listing: segmenting drops no entity and
-- repeats none.
pub segment_keeps :
    (listing : NamespaceListing) (opts : SegmentOptions) (k : String)
    → times k (ids_of (segment (some listing) opts))
      ≡ times k (map (λ (e : Z4Entity). e.id) listing.entities)
unfolding segment sum_by
segment_keeps listing opts k =
    let kept = Keeps-final_buckets listing opts k in
    let found = times-materialize k (final_buckets listing opts) in
    elim (Bool-cases (nat_eq (length listing.entities) 0)) [
      | inl empty ↦
          simp empty (ground (arith, times-map k (λ (e : Z4Entity). e.id) listing.entities, empty))
      | inr some_left ↦ simp some_left (found ∙ kept.1)
    ]
