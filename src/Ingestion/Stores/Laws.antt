-- ===== src/Ingestion/Stores/Laws.antt =====
-- Tail of the ledger against its description.
use fun_project.Common.{
  ℕ, zero, suc, ◌+◌, ◌-◌, ◌≤◌, Option, List, [], ◌∷◌, ◌++◌, ◌≡◌, refl, sym, ap, ◌∙◌, arith,
  Bool-cases, inl, inr, ltb, length, length-append, if◌then◌else◌,
}
use fun_project.Ingestion.Stores.{Entry, decoded_lines, reverse_onto, drop_first, tail_entries}

-- The abstract ledger: a list of entries, newest last, of which the last ones are looked at
abbrev pub reversed : List Entry → List Entry
reversed [] = []
reversed (e ∷ es) = reversed es ++ e ∷ []

abbrev pub first_of : ℕ → List Entry → List Entry
first_of zero es = []
first_of (suc n) [] = []
first_of (suc n) (e ∷ es) = e ∷ first_of n es

append_assoc : (xs ys zs : List Entry) → (xs ++ ys) ++ zs ≡ xs ++ (ys ++ zs)
append_assoc [] ys zs = refl
append_assoc (x ∷ xs) ys zs = ap (λ l. x ∷ l) (append_assoc xs ys zs)

reverse_onto-reversed : (es acc : List Entry) → reverse_onto es acc ≡ reversed es ++ acc
unfolding reverse_onto
reverse_onto-reversed [] acc = refl
reverse_onto-reversed (e ∷ es) acc =
    reverse_onto-reversed es (e ∷ acc) ∙ sym (append_assoc (reversed es) (e ∷ []) acc)

append_nil : (xs : List Entry) → xs ++ [] ≡ xs
append_nil [] = refl
append_nil (x ∷ xs) = ap (λ l. x ∷ l) (append_nil xs)

length-reversed : (es : List Entry) → length (reversed es) ≡ length es
length-reversed [] = refl
length-reversed (e ∷ es) = omega (arith, length-append (reversed es) (e ∷ []), length-reversed es)

first_of-append :
    (n : ℕ) (xs ys : List Entry) → n ≤ length xs → first_of n (xs ++ ys) ≡ first_of n xs
first_of-append zero xs ys h = refl
first_of-append (suc n) [] ys h = absurd (omega (arith, h))
first_of-append (suc n) (x ∷ xs) ys h = ap (λ l. x ∷ l) (first_of-append n xs ys (omega (arith, h)))

first_of-all : (n : ℕ) (xs : List Entry) → length xs ≤ n → first_of n xs ≡ xs
first_of-all zero [] h = refl
first_of-all zero (x ∷ xs) h = absurd (omega (arith, h))
first_of-all (suc n) [] h = refl
first_of-all (suc n) (x ∷ xs) h = ap (λ l. x ∷ l) (first_of-all n xs (omega (arith, h)))

-- Dropping the oldest and turning round is taking the first of the whole turned round.
reversed-drop_first :
    (n m : ℕ) (es : List Entry)
    → length es ≡ n + m
    → reversed (drop_first n es) ≡ first_of m (reversed es)
unfolding drop_first
reversed-drop_first zero m es h =
    sym (first_of-all m (reversed es) (omega (arith, h, length-reversed es)))
reversed-drop_first (suc n) m [] h = absurd (omega (arith, h))
reversed-drop_first (suc n) m (e ∷ es) h =
    reversed-drop_first n m es (omega (arith, h))
    ∙ sym (first_of-append m (reversed es) (e ∷ []) (omega (arith, h, length-reversed es)))

-- Tail gives the entries of the lines that can be decoded, newest first: all of them for a limit that
-- is not positive, and as many as the limit for one that is.
pub tail_entries-eq-first_of :
    (lines : List (Option Entry)) (limit : ℕ)
    → tail_entries lines limit ≡ (
        if ltb 0 limit
        then first_of limit (reversed (decoded_lines lines))
        else reversed (decoded_lines lines))
unfolding tail_entries
tail_entries-eq-first_of lines limit =
    let all = decoded_lines lines in
    elim (Bool-cases (ltb 0 limit)) [
      | inr unbounded ↦ simp unbounded (reverse_onto-reversed all [] ∙ append_nil (reversed all))
      | inl bounded ↦ elim (Bool-cases (ltb limit (length all))) [
        | inl long ↦
            simp (bounded, long)
              (reverse_onto-reversed (drop_first (length all - limit) all) []
                ∙ append_nil _
                ∙ reversed-drop_first (length all - limit) limit all (ground (arith, long)))
        | inr short ↦
            simp (bounded, short)
              (reverse_onto-reversed all []
                ∙ append_nil _
                ∙ sym (
                    first_of-all limit (reversed all) (ground (arith, short, length-reversed all))))
      ]
    ]
