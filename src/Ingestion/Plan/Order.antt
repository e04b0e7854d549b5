-- ===== src/Ingestion/Plan/Order.antt =====
-- What an order of ingestors is: each stands behind its dependencies, and none stands twice.
use fun_project.Common.{
  String, some, true, false, List, [], ◌∷◌, ◌++◌, ◌≡◌, ◌↔◌, inl, inr, refl, arith, eq_iff, map, All,
  mem_text, mem_text-append, ◌||◌, ◌==◌, Bool-cases,
}
use fun_project.Common.Assoc.{Assoc, at_key, keys}
use fun_project.Common.Sort.{Listed}
use fun_project.Ingestion.Contract.{Ingestor}
use fun_project.Ingestion.Registry.{id_of}

abbrev pub ids : List Ingestor → List String
ids is = map id_of is

abbrev pub DepsIn : Ingestor → List String → Type 0
DepsIn i seen = (d : String) → mem_text d i.metadata.dependencies ≡ true → mem_text d seen ≡ true

abbrev pub IsOrdered : List String → List Ingestor → Type 0
IsOrdered seen [] = Unit
IsOrdered seen (i ∷ is) = DepsIn i seen × IsOrdered (id_of i ∷ seen) is

abbrev pub IsDistinct : List String → Type 0
IsDistinct [] = Unit
IsDistinct (x ∷ xs) = (mem_text x xs ≡ false) × IsDistinct xs

pub ids-append : (is js : List Ingestor) → ids (is ++ js) ≡ ids is ++ ids js
ids-append [] js = refl
ids-append (i ∷ is) js = cc (ids-append is js)

pub mem_text-ids :
    (k : String) (is : List Ingestor) (i : Ingestor)
    → mem_text k (ids (is ++ i ∷ [])) ≡ (mem_text k (ids is) || id_of i == k)
unfolding mem_text
mem_text-ids k [] i = ground arith
mem_text-ids k (j ∷ is) i = ground (arith, mem_text-ids k is i)

-- One more ingestor whose dependencies stand in the list.
pub IsOrdered-append :
    (seen : List String) (is : List Ingestor) (i : Ingestor)
    → IsOrdered seen is
    → ((d : String)
        → mem_text d i.metadata.dependencies ≡ true
        → (mem_text d seen || mem_text d (ids is)) ≡ true)
    → IsOrdered seen (is ++ i ∷ [])
unfolding mem_text
IsOrdered-append seen [] i h deps = ((λ d m. ground (arith, deps d m)), tt)
IsOrdered-append seen (j ∷ is) i h deps =
    (h.0, IsOrdered-append (id_of j ∷ seen) is i h.1 (λ d m. ground (arith, deps d m)))

pub IsDistinct-append :
    (xs : List String) (x : String)
    → mem_text x xs ≡ false
    → IsDistinct xs
    → IsDistinct (xs ++ x ∷ [])
unfolding mem_text
IsDistinct-append [] x m h = (refl, tt)
IsDistinct-append (y ∷ xs) x m h = (
  ground (arith, m, h.0, mem_text-append y xs (x ∷ []), eq_iff x y, eq_iff y x),
  IsDistinct-append xs x (ground (arith, m)) h.1,
)

pub mem_text-Listed : (k : String) (xs : List String) → (mem_text k xs ≡ true) ↔ Listed k xs
unfolding mem_text
mem_text-Listed k [] = ((λ h. absurd (cc)), (λ h. absurd h))
mem_text-Listed k (x ∷ xs) =
    let rest = mem_text-Listed k xs in
    (
      (λ h. elim (Bool-cases (x == k)) [
        | inl here ↦ inl ((eq_iff x k).0 here)
        | inr other ↦ inr (rest.0 (simp other at h))
      ]),
      (λ h. elim h [
        | inl here ↦ ground (arith, eq_iff x k)
        | inr later ↦ let m = rest.1 later in ground (arith, m)
      ]),
    )

pub mem_text-keys :
    {V : Type 0} (m : Assoc V) (k : String) (v : V)
    → at_key m k ≡ some v
    → mem_text k (keys m) ≡ true
unfolding at_key mem_text
mem_text-keys [] k v h = absurd (cc)
mem_text-keys ((j, w) ∷ m) k v h = ground (arith, mem_text-keys m k v)

pub at_key-of_mem :
    {V : Type 0} (m : Assoc V) (k : String)
    → mem_text k (keys m) ≡ true
    → (v : V) × (at_key m k ≡ some v)
unfolding at_key mem_text
at_key-of_mem [] k h = absurd (cc)
at_key-of_mem ((j, w) ∷ m) k h = elim (Bool-cases (j == k)) [
  | inl here ↦ (w, simp here refl)
  | inr other ↦ let (v, e) = at_key-of_mem m k (simp other at h) in (v, simp other e)
]

-- The search's colors agree with its order.
module _ (by_id : Assoc Ingestor) where
  -- An order of the ingestors of a map: each once, each behind its dependencies.
  pub record IsPlan (order : List Ingestor) : Type 0 where
    pub ordered : IsOrdered [] order
    pub distinct : IsDistinct (ids order)
    pub known : All (λ i. at_key by_id (id_of i) ≡ some i) order
    pub complete :
        (id : String) → (mem_text id (ids order) ≡ true) ↔ (mem_text id (keys by_id) ≡ true)
