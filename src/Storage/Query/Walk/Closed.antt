-- ===== src/Storage/Query/Walk/Closed.antt =====
-- Over well-formed tables, both ends of every edge that the traversal has taken are known.
use fun_project.Common.{
  String, Option, none, some, List, [], ◌∷◌, ◌++◌, ◌≡◌, ◌⊎◌, inl, inr, refl, subst, true, false,
  arith, eq_iff, mem_text, mem_text-append, map, All, Bool-cases, is_none, ◌==◌,
}
use fun_project.Storage.Schema.Types.{Entity, Relationship}
use fun_project.Storage.Table.{Row, find}
use fun_project.Storage.Table.Unique.{Unique}
use fun_project.Storage.Graph.{find_entity, entity_key, rel_key}
use fun_project.Storage.Mutation.Integrity.{IsConsistent, IsTied}
use fun_project.Storage.Query.{
  View, Reader, Direction, outbound, inbound, both, Search, seen, admit, take_edge, edges_among,
  touches, other_end, load_entity, serve_entity, keep_entity,
}
use fun_project.Storage.Query.Reach.{Among}
use fun_project.Storage.Query.Walk.Grows.{seen-append}

abbrev pub values : List (Row Relationship) → List Relationship
values rows = map (λ row. row.value) rows

Among-append :
    (r e : Relationship) (xs : List Relationship) → Among r xs ⊎ (e ≡ r) → Among r (xs ++ e ∷ [])
Among-append r e [] (inl h) = absurd h
Among-append r e [] (inr h) = inl h
Among-append r e (x ∷ xs) (inl (inl h)) = inl h
Among-append r e (x ∷ xs) (inl (inr h)) = inr (Among-append r e xs (inl h))
Among-append r e (x ∷ xs) (inr h) = inr (Among-append r e xs (inr h))

pub stored_edge :
    (dir : Direction) (id : String) (r : Relationship) (rows : List (Row Relationship))
    → Among r (edges_among dir id rows)
    → Among r (values rows) × (touches dir id r ≡ true)
unfolding edges_among
stored_edge dir id r [] a = absurd a
stored_edge dir id r (row ∷ rows) a = elim (Bool-cases (touches dir id row.value)) [
  | inl here ↦ elim (simp here at a) [
    | inl same ↦ (inl same, subst (λ x. touches dir id x ≡ true) same here)
    | inr later ↦ let rest = stored_edge dir id r rows later in (inr rest.0, rest.1)
  ]
  | inr not_here ↦ let rest = stored_edge dir id r rows (simp not_here at a) in (inr rest.0, rest.1)
]

find-Among :
    (r : Relationship) (rows : List (Row Relationship))
    → Unique rel_key rows
    → Among r (values rows)
    → find rel_key r.id rows ≡ some r
unfolding find
find-Among r [] u a = absurd a
find-Among r (row ∷ rows) u (inl h) = ground (arith, h, eq_iff row.value.id r.id)
find-Among r (row ∷ rows) u (inr h) =
    ground (arith, u.0, find-Among r rows u.1 h, eq_iff row.value.id r.id)

pub tied :
    (nodes : List (Row Entity)) (r : Relationship) (rows : List (Row Relationship))
    → All (IsTied nodes) rows
    → Among r (values rows)
    → (is_none (find entity_key r.from_id nodes) ≡ false)
      × (is_none (find entity_key r.to_id nodes) ≡ false)
tied nodes r [] h a = absurd a
tied nodes r (row ∷ rows) h (inl same) = (
  subst (λ x. is_none (find entity_key x.from_id nodes) ≡ false) same h.0.from_found,
  subst (λ x. is_none (find entity_key x.to_id nodes) ≡ false) same h.0.to_found,
)
tied nodes r (row ∷ rows) h (inr later) = tied nodes r rows h.1 later

-- The far end of an edge at `nid`, with `nid`, are its two ends.
pub both_ends :
    (nodes : List (String × Entity)) (dir : Direction) (nid : String) (e : Relationship)
    → touches dir nid e ≡ true
    → seen nid nodes ≡ true
    → seen (other_end nid e) nodes ≡ true
    → (seen e.from_id nodes ≡ true) × (seen e.to_id nodes ≡ true)
unfolding touches other_end
both_ends nodes outbound nid e t p q = ground (arith, eq_iff e.from_id nid, eq_iff e.to_id nid)
both_ends nodes inbound nid e t p q = ground (arith, eq_iff e.from_id nid, eq_iff e.to_id nid)
both_ends nodes both nid e t p q = ground (arith, eq_iff e.from_id nid, eq_iff e.to_id nid)

keep-found :
    (view : View) (o : Option Entity) (s : Reader)
    → is_none o ≡ false
    → is_none (keep_entity view o s).0 ≡ false
unfolding keep_entity
keep-found view none s h = h
keep-found view (some e) s h = refl

serve-found :
    (view : View) (id : String) (o : Option Entity) (s : Reader)
    → is_none (find_entity id view.db) ≡ false
    → is_none (serve_entity view id o s).0 ≡ false
unfolding serve_entity
serve-found view id none s h = keep-found view _ s h
serve-found view id (some e) s h = refl

pub load-found :
    (view : View) (id : String) (s : Reader)
    → is_none (find_entity id view.db) ≡ false
    → is_none (load_entity view id s).0 ≡ false
unfolding load_entity
load-found view id s h = serve-found view id _ _ h

module _ (view : View) (dir : Direction) (well : IsConsistent view.db) where
  abbrev pub Stored : Relationship → Type 0
  Stored r = Among r (values view.db.relationships)

  pub record IsClosed (w : Search) : Type 0 where
    pub ends :
        (r : Relationship)
        → Stored r
        → mem_text r.id w.seen_edges ≡ true
        → (seen r.from_id w.seen_nodes ≡ true) × (seen r.to_id w.seen_nodes ≡ true)
    pub kept : (r : Relationship) → Stored r → mem_text r.id w.seen_edges ≡ true → Among r w.edges
    pub listed : (k : String) → mem_text k w.next ≡ true → seen k w.seen_nodes ≡ true

  -- Two stored edges with one id are one.
  one_edge : (r e : Relationship) → Stored r → Stored e → e.id ≡ r.id → e ≡ r
  one_edge r e a b h =
      let x = find-Among r view.db.relationships well.edges a in
      let y = find-Among e view.db.relationships well.edges b in cc (x, y, h)

  pub IsClosed-take :
      (e : Relationship) (w : Search)
      → Stored e
      → (seen e.from_id w.seen_nodes ≡ true) × (seen e.to_id w.seen_nodes ≡ true)
      → IsClosed w
      → IsClosed (take_edge e w)
  unfolding mem_text
  IsClosed-take e w a b c = record {
    ends = λ r x m. elim (Bool-cases (e.id == r.id)) [
      | inl same ↦
          subst (λ z. (seen z.from_id w.seen_nodes ≡ true) × (seen z.to_id w.seen_nodes ≡ true))
            (one_edge r e x a ((eq_iff e.id r.id).0 same)) b
      | inr other ↦ c.ends r x (simp other at m)
    ];
    kept = λ r x m. Among-append r e w.edges (elim (Bool-cases (e.id == r.id)) [
      | inl same ↦ inr (one_edge r e x a ((eq_iff e.id r.id).0 same))
      | inr other ↦ inl (c.kept r x (simp other at m))
    ]);
    listed = c.listed;
  }

  pub IsClosed-admit :
      (j : String) (o : Option Entity) (w : Search)
      → is_none o ≡ false
      → IsClosed w
      → IsClosed (admit j o w) × (seen j (admit j o w).seen_nodes ≡ true)
  unfolding admit seen mem_text
  IsClosed-admit j none w f c = absurd (cc)
  IsClosed-admit j (some n) w f c = (
    record {
      ends = λ r x m.
          let old = c.ends r x m in
          (
            ground (arith, old.0, seen-append r.from_id w.seen_nodes ((j, n) ∷ [])),
            ground (arith, old.1, seen-append r.to_id w.seen_nodes ((j, n) ∷ [])),
          );
      kept = c.kept;
      listed = λ k m. ground (
        arith,
        m,
        c.listed k,
        seen-append k w.seen_nodes ((j, n) ∷ []),
        mem_text-append k w.next (j ∷ []),
      );
    },
    ground (arith, seen-append j w.seen_nodes ((j, n) ∷ []), eq_iff j j),
  )
