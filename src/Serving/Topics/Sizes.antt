-- ===== src/Serving/Topics/Sizes.antt =====
-- Folding small directories, and the sizes of those that are left.
use fun_project.Common.{
  ℕ, ◌+◌, ◌≤◌, String, true, false, List, [], ◌∷◌, ◌++◌, ◌==◌, ◌≡◌, refl, sym, ap, arith, inl, inr,
  ◌⊎◌, ◌||◌, either_branch, each_branch, Bool-cases, length, length-append, if◌then◌else◌, leb,
  eq_iff,
}
use fun_project.Common.Assoc.{at_key}
use fun_project.Common.Count.{worth, times, sum_by}
use fun_project.Serving.Topics.{
  Buckets, Cross, ids_at, fold_small, is_large, best_of, is_passed_over, is_better,
  best_large_neighbor, target_of, edges_of, merge_bucket,
}
use fun_project.Serving.Topics.Merge.{at_key-merge_bucket}
use fun_project.Serving.Topics.Names.{misc_dir}

-- 1 for a directory but misc that has fewer ids
abbrev pub lack : ℕ → String → List String → ℕ
lack least d ids = if d == misc_dir then 0 else (if leb least (length ids) then 0 else 1)

module _ (least : ℕ) (bs : Buckets) where
  -- A best neighbor, or the empty text for none
  abbrev IsBest : String → Type 0
  IsBest d = (d ≡ "") ⊎ (is_large least bs d ≡ true)

  large_of : (own d : String) → is_passed_over bs least own d ≡ false → is_large least bs d ≡ true
  unfolding is_passed_over
  large_of own d h = ground (arith, h)

  best_of-IsBest :
      (own : String) (edges : List (String × ℕ)) (best : String) (n : ℕ)
      → IsBest best
      → IsBest (best_of bs least own edges best n)
  unfolding best_of
  best_of-IsBest own [] best n h = h
  best_of-IsBest own ((d, m) ∷ edges) best n h =
      let kept = best_of-IsBest own edges best n h in
      each_branch IsBest (is_passed_over bs least own d) _ _ (λ over. kept)
        (λ candidate.
          either_branch IsBest (is_better bs least own d m best n) _ _
            (best_of-IsBest own edges d m (inr (large_of own d candidate))) kept)

  target_of-IsTarget :
      (cross : Cross) (d : String)
      → (target_of least cross bs d ≡ misc_dir)
        ⊎ (is_large least bs (target_of least cross bs d) ≡ true)
  unfolding target_of best_large_neighbor
  target_of-IsTarget cross d =
      let best : String = best_large_neighbor bs least d (edges_of cross d) in
      each_branch (λ t. (t ≡ misc_dir) ⊎ (is_large least bs t ≡ true)) (best == "") misc_dir best
        (λ e. inl refl)
        (λ some_best. elim (best_of-IsBest d (edges_of cross d) "" 0 (inl refl)) [
          | inl e ↦ absurd (ground (arith, e, some_best, eq_iff best ""))
          | inr large ↦ inr large
        ])

  apart_from_target :
      (d t : String)
      → (d == misc_dir) ≡ false
      → is_large least bs d ≡ false
      → (t ≡ misc_dir) ⊎ (is_large least bs t ≡ true)
      → (d == t) ≡ false
  apart_from_target d t named_dir small target = elim (Bool-cases (d == t)) [
    | inr apart ↦ apart
    | inl same ↦ elim target [
      | inl misc ↦ ground (arith, misc, same, named_dir, eq_iff d t, eq_iff d misc_dir)
      | inr large ↦
          let e : is_large least bs d ≡ is_large least bs t =
            ap (is_large least bs) ((eq_iff d t).0 same) in
          ground (arith, e, large, small)
    ]
  ]

  lack-append :
      (t : String) (xs : List String)
      → (t ≡ misc_dir) ⊎ (is_large least bs t ≡ true)
      → lack least t (ids_at bs t ++ xs) ≡ 0
  unfolding is_large
  lack-append t xs target = elim target [
    | inl misc ↦ ground (arith, misc, eq_iff t misc_dir)
    | inr large ↦ ground (arith, large, length-append (ids_at bs t) xs)
  ]

  lack_at-merge_bucket :
      (d t k : String) (n : ℕ)
      → (d == t) ≡ false
      → (t ≡ misc_dir) ⊎ (is_large least bs t ≡ true)
      → worth (lack least k) (at_key bs k) ≤ (if d == k then 1 else 0) + n
      → worth (lack least k) (at_key (merge_bucket bs d t) k) ≤ n
  lack_at-merge_bucket d t k n apart target h =
      let read = at_key-merge_bucket bs d t k apart in
      let grown = lack-append t (ids_at bs d) target in
      elim (Bool-cases (d == k)) [
        | inl from ↦ rw read (simp from (omega arith))
        | inr not_from ↦ elim (Bool-cases (t == k)) [
          | inl to ↦
              let same : lack least k (ids_at bs t ++ ids_at bs d)
                  ≡ lack least t (ids_at bs t ++ ids_at bs d) =
                ap (λ (j : String). lack least j (ids_at bs t ++ ids_at bs d))
                  (sym ((eq_iff t k).0 to)) in
              rw read (simp not_from (simp to (omega (arith, same, grown))))
          | inr neither ↦
              let before : worth (lack least k) (at_key bs k) ≤ 0 + n = simp not_from at h in
              rw read (simp not_from (simp neither (omega (arith, before))))
        ]
      ]

  lack_passed :
      (d : String)
      → (d == misc_dir || is_large least bs d) ≡ true
      → worth (lack least d) (at_key bs d) ≡ 0
  unfolding is_large ids_at
  lack_passed d passed = ground (arith, passed)

  lack_at-passed :
      (d k : String) (n : ℕ)
      → (d == misc_dir || is_large least bs d) ≡ true
      → worth (lack least k) (at_key bs k) ≤ (if d == k then 1 else 0) + n
      → worth (lack least k) (at_key bs k) ≤ n
  lack_at-passed d k n passed h = elim (Bool-cases (d == k)) [
    | inl same ↦
        let e : worth (lack least d) (at_key bs d) ≡ worth (lack least k) (at_key bs k) =
          ap (λ (j : String). worth (lack least j) (at_key bs j)) ((eq_iff d k).0 same) in
        omega (arith, e, lack_passed d passed)
    | inr apart ↦
        let before : worth (lack least k) (at_key bs k) ≤ 0 + n = simp apart at h in
        omega (arith, before)
  ]

-- The fold of the small directories
module _ (least : ℕ) (cross : Cross) (k : String) where
  pub lack-fold_small :
      (ds : List String) (bs : Buckets)
      → worth (lack least k) (at_key bs k) ≤ times k ds
      → worth (lack least k) (at_key (fold_small least cross ds bs) k) ≡ 0
  unfolding fold_small sum_by
  lack-fold_small [] bs h = omega (arith, h)
  lack-fold_small (d ∷ ds) bs h =
      let P : Buckets → Type 0 = λ b. worth (lack least k) (at_key b k) ≤ times k ds in
      lack-fold_small ds _ (
        each_branch P (d == misc_dir || is_large least bs d) bs
          (merge_bucket bs d (target_of least cross bs d))
          (λ passed. lack_at-passed least bs d k (times k ds) passed h)
          (λ small.
            lack_at-merge_bucket least bs d (target_of least cross bs d) k (times k ds)
              (apart_from_target least bs d (target_of least cross bs d) (ground (arith, small))
                (ground (arith, small)) (target_of-IsTarget least bs cross d))
              (target_of-IsTarget least bs cross d) h))

-- Merging into misc leaves none small.
pub lack-misc :
    (least : ℕ) (k : String) (bs : Buckets) (d : String)
    → worth (lack least k) (at_key bs k) ≡ 0
    → worth (lack least k) (at_key (merge_bucket bs d misc_dir) k) ≡ 0
unfolding merge_bucket
lack-misc least k bs d h = elim (Bool-cases (d == misc_dir)) [
  | inl same ↦ simp same h
  | inr apart ↦
      let few = lack_at-merge_bucket least bs d misc_dir k 0 apart (inl refl) (omega (arith, h)) in
      omega (arith, few)
]
