-- ===== src/Ingestion/Plan/Coloring.antt =====
-- The colors of topoOrder's search: which ids are left, and how the colors agree with the order.
use fun_project.Common.{
  ℕ, suc, ◌≤◌, ◌<◌, String, none, some, true, false, List, [], ◌∷◌, ◌++◌, ◌≡◌, ◌↔◌, sym, arith,
  eq_iff, All, All-append, mem_text, is_none, if◌then◌else◌, Option-cases, inl, inr, subst,
}
use fun_project.Common.Assoc.{Assoc, at_key, set_key, at_key-set_key}
use fun_project.Ingestion.Contract.{Ingestor}
use fun_project.Ingestion.Registry.{id_of}
use fun_project.Ingestion.Plan.{Color, in_progress, finished, Marks, mark}
use fun_project.Ingestion.Plan.Order.{
  ids, ids-append, IsOrdered, IsOrdered-append, IsDistinct, IsDistinct-append, mem_text-ids,
}

-- The ids of the list that are not colored yet
unfoldable pub unseen : List String → Assoc Color → ℕ
unseen [] color = 0
unseen (k ∷ ks) color = let n = unseen ks color in if is_none (at_key color k) then suc n else n

abbrev pub Stays : Assoc Color → Assoc Color → Type 0
Stays c c' = (k : String) (x : Color) → at_key c k ≡ some x → at_key c' k ≡ some x

pub unseen-le : (ks : List String) (c c' : Assoc Color) → Stays c c' → unseen ks c' ≤ unseen ks c
unfolding unseen
unseen-le [] c c' s = omega arith
unseen-le (k ∷ ks) c c' s = elim (Option-cases (at_key c k)) [
  | inl new ↦ rw new (ground (arith, unseen-le ks c c' s))
  | inr (x, old) ↦ rw (old, s k x old) (unseen-le ks c c' s)
]

pub Stays-set_key :
    (c : Assoc Color) (id : String) (x : Color) → at_key c id ≡ none → Stays c (set_key c id x)
Stays-set_key c id x h k y e = ground (arith, h, e, at_key-set_key c id k x, eq_iff id k)

pub unseen-lt :
    (ks : List String) (c : Assoc Color) (id : String) (x : Color)
    → mem_text id ks ≡ true
    → at_key c id ≡ none
    → unseen ks (set_key c id x) < unseen ks c
unfolding unseen mem_text
unseen-lt [] c id x m h = absurd (cc)
unseen-lt (k ∷ ks) c id x m h =
    let kept = unseen-le ks c (set_key c id x) (Stays-set_key c id x h) in
    ground
      (arith, m, h, kept, at_key-set_key c id k x, eq_iff k id, eq_iff id k, unseen-lt ks c id x)

pub record Extends (s s' : Marks) : Type 0 where
  pub stays : Stays s.color s'.color
  pub open_back :
      (k : String) → at_key s'.color k ≡ some in_progress → at_key s.color k ≡ some in_progress

pub Extends-refl : (s : Marks) → Extends s s
Extends-refl s = record { stays = λ k x h. h; open_back = λ k h. h }

pub Extends-trans : (r s t : Marks) → Extends r s → Extends s t → Extends r t
Extends-trans r s t g h = record {
  stays = λ k x e. h.stays k x (g.stays k x e);
  open_back = λ k e. g.open_back k (h.open_back k e);
}

module _ (by_id : Assoc Ingestor)
    (keyed : (k : String) (i : Ingestor) → at_key by_id k ≡ some i → id_of i ≡ k) where
  -- The finished ids are those of the order, which is one.
  pub record Inv (s : Marks) : Type 0 where
    pub placed :
        (k : String) → (at_key s.color k ≡ some finished) ↔ (mem_text k (ids s.order) ≡ true)
    pub ordered : IsOrdered [] s.order
    pub distinct : IsDistinct (ids s.order)
    pub known : All (λ i. at_key by_id (id_of i) ≡ some i) s.order

  pub record Visited (id : String) (s s' : Marks) : Type 0 where
    pub inv : Inv s'
    pub extends : Extends s s'
    pub done : at_key s'.color id ≡ some finished

  pub record AllVisited (ds : List String) (s s' : Marks) : Type 0 where
    pub inv : Inv s'
    pub extends : Extends s s'
    pub done : (d : String) → mem_text d ds ≡ true → at_key s'.color d ≡ some finished

  -- The first color of an id changes nothing else.
  pub Inv-mark :
      (id : String) (s : Marks) → at_key s.color id ≡ none → Inv s → Inv (mark id in_progress s)
  Inv-mark id s new i = record {
    placed =
        λ k. ground (arith, new, i.placed k, at_key-set_key s.color id k in_progress, eq_iff id k);
    ordered = i.ordered;
    distinct = i.distinct;
    known = i.known;
  }

  gray :
      (id : String) (ing : Ingestor) (s t : Marks)
      → at_key s.color id ≡ none
      → at_key by_id id ≡ some ing
      → AllVisited ing.metadata.dependencies (mark id in_progress s) t
      → at_key t.color id ≡ some in_progress
  gray id ing s t new found a =
      a.extends.stays id in_progress
        (ground (arith, at_key-set_key s.color id id in_progress, eq_iff id id))

  Inv-finish :
      (id : String) (ing : Ingestor) (s t : Marks)
      → at_key s.color id ≡ none
      → at_key by_id id ≡ some ing
      → AllVisited ing.metadata.dependencies (mark id in_progress s) t
      → Inv (record t { color = set_key t.color id finished; order = t.order ++ ing ∷ [] })
  unfolding mem_text
  Inv-finish id ing s t new found a =
      let named = keyed id ing found in
      let open_one = gray id ing s t new found a in
      let absent : mem_text (id_of ing) (ids t.order) ≡ false =
        ground (arith, open_one, a.inv.placed (id_of ing), named) in
      record {
        placed = λ k. ground (
          arith,
          open_one,
          a.inv.placed k,
          mem_text-ids k t.order ing,
          at_key-set_key t.color id k finished,
          eq_iff id k,
          eq_iff (id_of ing) k,
          named,
        );
        ordered =
            IsOrdered-append [] t.order ing a.inv.ordered (λ d m. (a.inv.placed d).0 (a.done d m));
        distinct =
            rw (ids-append t.order (ing ∷ []))
              (IsDistinct-append (ids t.order) (id_of ing) absent a.inv.distinct);
        known =
            All-append (λ i. at_key by_id (id_of i) ≡ some i) t.order (ing ∷ []) a.inv.known
              (subst (λ k. at_key by_id k ≡ some ing) (sym named) found, tt);
      }

  Extends-finish :
      (id : String) (ing : Ingestor) (s t : Marks)
      → at_key s.color id ≡ none
      → at_key by_id id ≡ some ing
      → AllVisited ing.metadata.dependencies (mark id in_progress s) t
      → Extends s (record t { color = set_key t.color id finished; order = t.order ++ ing ∷ [] })
  Extends-finish id ing s t new found a = record {
    stays = λ k x e. ground (
      arith,
      new,
      e,
      at_key-set_key t.color id k finished,
      a.extends.stays k x,
      at_key-set_key s.color id k in_progress,
      eq_iff id k,
    );
    open_back = λ k e. ground (
      arith,
      e,
      at_key-set_key t.color id k finished,
      a.extends.open_back k,
      at_key-set_key s.color id k in_progress,
      eq_iff id k,
    );
  }

  -- What the last lines of a visit leave, after the dependencies were visited.
  pub finish_visit-Visited :
      (id : String) (ing : Ingestor) (s t : Marks)
      → at_key s.color id ≡ none
      → at_key by_id id ≡ some ing
      → AllVisited ing.metadata.dependencies (mark id in_progress s) t
      → Visited id s (record t { color = set_key t.color id finished; order = t.order ++ ing ∷ [] })
  finish_visit-Visited id ing s t new found a = record {
    inv = Inv-finish id ing s t new found a;
    extends = Extends-finish id ing s t new found a;
    done = ground (arith, at_key-set_key t.color id id finished, eq_iff id id);
  }
