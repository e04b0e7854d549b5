-- ===== src/Serving/Topics/Bounds.antt =====
-- How many topics there are, and how small one may be.
use fun_project.Common.{
  ℕ, suc, ◌≤◌, String, Option, none, some, List, [], ◌∷◌, ◌==◌, ◌≡◌, refl, ◌∙◌, arith, All, ◌⊎◌,
  either_branch, nat_eq, length, if◌then◌else◌, eq_iff,
}
use fun_project.Common.Assoc.{at_key}
use fun_project.Common.Sort.{sort_by, length-sort_by}
use fun_project.Common.Count.{total, worth, IsMap, times, count_if, sum_by, worth_one, total_zero}
use fun_project.Serving.Client.{NamespaceListing}
use fun_project.Serving.Topics.{
  Topic, SegmentOptions, Buckets, Cross, with_defaults, bucket_up, entity_dirs, cross_edges,
  sorted_keys_by_size, topic_of, materialize, final_buckets, segment,
}
use fun_project.Serving.Topics.Merge.{
  IsMap-bucket_up, IsMap-merge_bucket, fold_small-keeps, cap_topics-keeps,
}
use fun_project.Serving.Topics.Contents.{Keeps-final_buckets, IsMap-none, sum_by-materialize}
use fun_project.Serving.Topics.Names.{misc_dir}
use fun_project.Serving.Topics.Few.{
  named, named-cap_topics, sum_by-sorted_keys_by_size, length-named,
}
use fun_project.Serving.Topics.Sizes.{lack, lack-fold_small, lack-misc}

worth-lack :
    (least : ℕ) (k : String) (ids : Option (List String))
    → worth (lack least k) ids ≤ worth (λ v. 1) ids
worth-lack least k none = omega arith
worth-lack least k (some ids) = ground arith

IsMap-buckets : (listing : NamespaceListing) → IsMap (bucket_up listing.entities [])
IsMap-buckets listing = IsMap-bucket_up listing.entities [] IsMap-none

IsMap-final_buckets :
    (listing : NamespaceListing) (opts : SegmentOptions) → IsMap (final_buckets listing opts)
IsMap-final_buckets listing opts k = (Keeps-final_buckets listing opts k).0 k

lack-final_buckets :
    (listing : NamespaceListing) (opts : SegmentOptions) (k : String)
    → worth (lack (with_defaults opts).min_topic_size k) (at_key (final_buckets listing opts) k) ≡ 0
unfolding final_buckets
lack-final_buckets listing opts k =
    let o : SegmentOptions = with_defaults opts in
    let bs : Buckets = bucket_up listing.entities [] in
    let cross : Cross = cross_edges (entity_dirs listing.entities []) listing.relationships [] in
    let P : Buckets → Type 0 = λ b. worth (lack o.min_topic_size k) (at_key b k) ≡ 0 in
    let listed = sum_by-sorted_keys_by_size (λ d. if d == k then 1 else 0) bs in
    let once = worth_one bs k (IsMap-buckets listing) in
    let start : worth (lack o.min_topic_size k) (at_key bs k) ≤ times k (sorted_keys_by_size bs) =
      omega (arith, listed, worth-lack o.min_topic_size k (at_key bs k), once) in
    cap_topics-keeps P (lack-misc o.min_topic_size k) o.max_topics _
      (lack-fold_small o.min_topic_size cross k (sorted_keys_by_size bs) bs start)

named-final_buckets :
    (listing : NamespaceListing) (opts : SegmentOptions)
    → named (final_buckets listing opts) ≤ (with_defaults opts).max_topics
unfolding final_buckets
named-final_buckets listing opts = named-cap_topics (with_defaults opts).max_topics _ (
    fold_small-keeps IsMap IsMap-merge_bucket (with_defaults opts).min_topic_size
      (cross_edges (entity_dirs listing.entities []) listing.relationships [])
      (sorted_keys_by_size (bucket_up listing.entities [])) (bucket_up listing.entities [])
      (IsMap-buckets listing))

length-sum_by : {A : Type 0} (xs : List A) → sum_by (λ (x : A). 1) xs ≡ length xs
unfolding sum_by
length-sum_by [] = refl
length-sum_by (x ∷ xs) = omega (arith, length-sum_by xs)

length-total : (bs : Buckets) → total (λ d ids. 1) bs ≡ length bs
unfolding total
length-total [] = refl
length-total ((d, ids) ∷ bs) = omega (arith, length-total bs)

total-lack :
    (least : ℕ) (bs : Buckets)
    → total (λ d ids. lack least d (sort_by (λ (x : String). x) ids)) bs ≡ total (lack least) bs
unfolding total
total-lack least [] = refl
total-lack least ((d, ids) ∷ bs) =
    ground (arith, total-lack least bs, length-sort_by (λ (x : String). x) ids)

-- Misc, or not small
abbrev pub Suffices : ℕ → Topic → Type 0
Suffices least t = (t.dir ≡ misc_dir) ⊎ (least ≤ length t.entity_ids)

All-Suffices :
    (least : ℕ) (ts : List Topic)
    → sum_by (λ (t : Topic). lack least t.dir t.entity_ids) ts ≡ 0
    → All (Suffices least) ts
unfolding sum_by
All-Suffices least [] h = tt
All-Suffices least (t ∷ ts) h =
    let none_here : lack least t.dir t.entity_ids ≡ 0 = omega (arith, h) in
    (ground (arith, none_here, eq_iff t.dir misc_dir), All-Suffices least ts (omega (arith, h)))

-- What `segment` promises of the topics it returns.
pub record IsSegmented (listing : NamespaceListing) (opts : SegmentOptions) (ts : List Topic)
    : Type 0 where
  pub few : length ts ≤ suc (with_defaults opts).max_topics
  pub sized : All (Suffices (with_defaults opts).min_topic_size) ts
  pub apart : (d : String) → count_if (λ (t : Topic). t.dir == d) ts ≤ 1

no_topics-IsSegmented :
    (listing : NamespaceListing) (opts : SegmentOptions) → IsSegmented listing opts []
unfolding sum_by
no_topics-IsSegmented listing opts = record {
  few = omega arith;
  sized = tt;
  apart = λ d. omega arith;
}

full-IsSegmented :
    (listing : NamespaceListing) (opts : SegmentOptions)
    → IsSegmented listing opts (materialize (final_buckets listing opts))
unfolding topic_of
full-IsSegmented listing opts =
    let o : SegmentOptions = with_defaults opts in
    let bs : Buckets = final_buckets listing opts in
    let as_map = IsMap-final_buckets listing opts in
    let counted = length-sum_by (materialize bs) in
    let buckets = sum_by-materialize (λ t. 1) bs in
    let misc = as_map misc_dir in
    let small = sum_by-materialize (λ (t : Topic). lack o.min_topic_size t.dir t.entity_ids) bs in
    let folded = total_zero (lack o.min_topic_size) bs as_map (lack-final_buckets listing opts) in
    record {
      few = omega (
        arith,
        counted,
        buckets,
        length-total bs,
        length-named bs,
        named-final_buckets listing opts,
        misc,
      );
      sized =
          All-Suffices o.min_topic_size (materialize bs)
            (small ∙ total-lack o.min_topic_size bs ∙ folded);
      apart = λ d.
          omega
            (arith, as_map d, sum_by-materialize (λ (t : Topic). if t.dir == d then 1 else 0) bs);
    }

-- For every listing and options, with the defaults 3 and 25 for a bound of 0: there is at most one topic more
-- than the cap, every topic but misc has at least the least number of entities, and no two topics are of the
-- same directory.
pub segment-IsSegmented :
    (listing : NamespaceListing) (opts : SegmentOptions)
    → IsSegmented listing opts (segment (some listing) opts)
unfolding segment
segment-IsSegmented listing opts =
    either_branch (IsSegmented listing opts) (nat_eq (length listing.entities) 0) [] _
      (no_topics-IsSegmented listing opts) (full-IsSegmented listing opts)
