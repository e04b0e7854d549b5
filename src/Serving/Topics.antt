-- ===== src/Serving/Topics.antt =====
-- serving/internal/wiki/topics.go: a listing cut into topics, by directory. A listing has no nil entity or edge.
pub mod Names
pub mod Merge
pub mod Contents
pub mod Few
pub mod Sizes
pub mod Bounds
use fun_project.Common.{
  ℕ, zero, suc, ◌+◌, String, Bool, true, false, ◌&&◌, ◌||◌, not, Option, none, some, List, [], ◌∷◌,
  ◌++◌, ◌==◌, map, ltb, leb, nat_eq, length, if◌then◌else◌,
}
use fun_project.Common.Assoc.{Assoc, keys, at_key, set_key, delete_key}
use fun_project.Common.Sort.{text_le, sort_by}
use fun_project.Common.Count.{sort_with}
use fun_project.Serving.Client.{Z4Entity, Z4Relationship, NamespaceListing}
use Names.{misc_dir, dir_key_of, slug, humanize}

-- Children is always empty, and is not kept. Summary is written by the generator.
pub record Topic : Type 0 where
  pub id : String
  pub title : String
  pub summary : String
  pub dir : String
  pub entity_ids : List String

-- A bound that is not positive is 0.
pub record SegmentOptions : Type 0 where
  pub min_topic_size : ℕ
  pub max_topics : ℕ

unfoldable pub with_defaults : SegmentOptions → SegmentOptions
with_defaults o = record {
  min_topic_size = if nat_eq o.min_topic_size 0 then 3 else o.min_topic_size;
  max_topics = if nat_eq o.max_topics 0 then 25 else o.max_topics;
}

-- The ids of each directory
abbrev pub Buckets : Type 0
Buckets = Assoc (List String)

-- A key that is absent reads as the nil slice.
unfoldable pub ids_at : Buckets → String → List String
unfolding at_key
ids_at bs d = elim (at_key bs d) [ some ids ↦ ids | none ↦ [] ]

unfoldable pub put_entity : Buckets → Z4Entity → Buckets
unfolding ids_at set_key dir_key_of
put_entity bs e = let d = dir_key_of e in set_key bs d (ids_at bs d ++ e.id ∷ [])

unfoldable pub bucket_up : List Z4Entity → Buckets → Buckets
unfolding put_entity
bucket_up [] bs = bs
bucket_up (e ∷ es) bs = bucket_up es (put_entity bs e)

unfoldable pub entity_dirs : List Z4Entity → Assoc String → Assoc String
unfolding set_key dir_key_of
entity_dirs [] dirs = dirs
entity_dirs (e ∷ es) dirs = entity_dirs es (set_key dirs e.id (dir_key_of e))

-- How many edges run between two directories
abbrev pub Cross : Type 0
Cross = Assoc (Assoc ℕ)

unfoldable pub edges_of : Cross → String → Assoc ℕ
unfolding at_key
edges_of cross a = elim (at_key cross a) [ some m ↦ m | none ↦ [] ]

unfoldable pub add_cross : Cross → String → String → Cross
unfolding edges_of at_key set_key
add_cross cross a b =
    let m = edges_of cross a in
    set_key cross a (set_key m b (elim (at_key m b) [ some n ↦ suc n | none ↦ 1 ]))

-- One edge, by the directories of its ends
unfoldable pub note_edge : Option String → Option String → Cross → Cross
unfolding add_cross
note_edge (some a) (some b) cross = if a == b then cross else add_cross (add_cross cross a b) b a
note_edge _ _ cross = cross

unfoldable pub cross_edges : Assoc String → List Z4Relationship → Cross → Cross
unfolding note_edge at_key
cross_edges dirs [] cross = cross
cross_edges dirs (r ∷ rs) cross =
    cross_edges dirs rs (note_edge (at_key dirs r.from_id) (at_key dirs r.to_id) cross)

unfoldable pub is_large : ℕ → Buckets → String → Bool
unfolding ids_at
is_large least bs d = leb least (length (ids_at bs d))

-- `best` and `best_n` are those of the edges read so far.
module _ (bs : Buckets) (least : ℕ) (own : String) where
  unfoldable pub is_passed_over : String → Bool
  unfolding is_large
  is_passed_over d = d == own || d == misc_dir || not (is_large least bs d)

  unfoldable pub is_better : String → ℕ → String → ℕ → Bool
  is_better d n best best_n =
      ltb best_n n || nat_eq n best_n && (best == "" || not (text_le best d))

  unfoldable pub best_of : Assoc ℕ → String → ℕ → String
  unfolding is_passed_over is_better
  best_of [] best best_n = best
  best_of ((d, n) ∷ edges) best best_n =
      let kept = best_of edges best best_n in
      let taken = best_of edges d n in
      if is_passed_over d then kept else (if is_better d n best best_n then taken else kept)

  unfoldable pub best_large_neighbor : Assoc ℕ → String
  unfolding best_of
  best_large_neighbor edges = best_of edges "" 0

-- The directories of entities, which it changes too, are not read after step 2.
unfoldable pub merge_bucket : Buckets → String → String → Buckets
unfolding ids_at set_key delete_key
merge_bucket bs from to =
    if from == to then bs else delete_key (set_key bs to (ids_at bs to ++ ids_at bs from)) from

-- Largest first, then by name
unfoldable pub larger_first : Buckets → String → String → Bool
unfolding ids_at
larger_first bs a b =
    if nat_eq (length (ids_at bs a)) (length (ids_at bs b))
    then text_le a b
    else ltb (length (ids_at bs b)) (length (ids_at bs a))

unfoldable pub sorted_keys_by_size : Buckets → List String
unfolding larger_first sort_with
sorted_keys_by_size bs = sort_with (larger_first bs) (keys bs)

unfoldable pub target_of : ℕ → Cross → Buckets → String → String
unfolding edges_of best_large_neighbor
target_of least cross bs d =
    let best = best_large_neighbor bs least d (edges_of cross d) in
    if best == "" then misc_dir else best

-- Step 3, over the keys as they were at its start
unfoldable pub fold_small : ℕ → Cross → List String → Buckets → Buckets
unfolding is_large target_of merge_bucket
fold_small least cross [] bs = bs
fold_small least cross (d ∷ ds) bs = fold_small least cross ds (
    if d == misc_dir || is_large least bs d
    then bs
    else merge_bucket bs d (target_of least cross bs d))

-- keep[n:]
unfoldable pub past_first : ℕ → List String → List String
past_first zero ds = ds
past_first (suc n) [] = []
past_first (suc n) (d ∷ ds) = past_first n ds

unfoldable pub into_misc : List String → Buckets → Buckets
unfolding merge_bucket
into_misc [] bs = bs
into_misc (d ∷ ds) bs = into_misc ds (if d == misc_dir then bs else merge_bucket bs d misc_dir)

unfoldable pub cap_topics : ℕ → Buckets → Buckets
unfolding sorted_keys_by_size past_first into_misc
cap_topics most bs =
    if ltb most (length bs) then into_misc (past_first most (sorted_keys_by_size bs)) bs else bs

unfoldable pub topic_of : String × List String → Topic
unfolding slug humanize sort_by
topic_of (d, ids) = record {
  id = slug d;
  title = humanize d;
  summary = "";
  dir = d;
  entity_ids = sort_by (λ (id : String). id) ids;
}

-- Misc last, then largest first, then by directory
unfoldable pub topic_before : Topic → Topic → Bool
topic_before s t =
    if (s.dir == misc_dir) && not (t.dir == misc_dir)
    then false
    else (if not (s.dir == misc_dir) && (t.dir == misc_dir)
        then true
        else (if nat_eq (length s.entity_ids) (length t.entity_ids)
            then text_le s.dir t.dir
            else ltb (length t.entity_ids) (length s.entity_ids)))

unfoldable pub materialize : Buckets → List Topic
unfolding sort_with topic_before topic_of
materialize bs = sort_with topic_before (map topic_of bs)

-- The buckets after step 4
unfoldable pub final_buckets : NamespaceListing → SegmentOptions → Buckets
unfolding bucket_up entity_dirs cross_edges fold_small sorted_keys_by_size cap_topics with_defaults
final_buckets listing opts =
    let o = with_defaults opts in
    let bs = bucket_up listing.entities [] in
    let cross = cross_edges (entity_dirs listing.entities []) listing.relationships [] in
    cap_topics o.max_topics (fold_small o.min_topic_size cross (sorted_keys_by_size bs) bs)

-- No listing, or one without entities, has no topics.
unfoldable pub segment : Option NamespaceListing → SegmentOptions → List Topic
unfolding final_buckets materialize
segment none opts = []
segment (some listing) opts =
    if nat_eq (length listing.entities) 0 then [] else materialize (final_buckets listing opts)
