-- ===== src/Prelude/Marked.antt =====
-- What a loop of `UPDATE ... WHERE id = :id` over some rows does to a table: it rewrites every
-- row whose id is that of one of them.
use Prim.Native.Nat.{◌≤◌}
use Prim.Native.String.{String}
use mathlib.Core.Path.{◌≡◌, refl, sym, ap, ap₂, subst}
use mathlib.Core.Logic.{inl, inr}
use mathlib.Core.Bool.{Bool, true, false}
use mathlib.Core.List.{List, [], ◌∷◌, map}
use native.Mathlib.Omega.{arith}
use text.Mathlib.TextEquality.{eq_iff}
use text.Mathlib.TextPositions.{eq_refl}
use lehen.Prelude.Tests.{◌==◌, if◌then◌else◌, Bool-cases}
use lehen.Prelude.Lists.{any, filter, count_if, All}

module _ {R : Type 0} where
  abbrev pub is_listed : (R → String) → List R → R → Bool
  is_listed id ts c = any (λ t. id c == id t) ts

  abbrev pub mark : (R → String) → (R → R) → List R → R → R
  mark id f ts c = if is_listed id ts c then f c else c

  pub map-mark_nil : (id : R → String) (f : R → R) (xs : List R) → map (mark id f []) xs ≡ xs
  map-mark_nil id f [] = refl
  map-mark_nil id f (x ∷ xs) = ap (λ ys. x ∷ ys) (map-mark_nil id f xs)

module _ {R : Type 0} (id : R → String) (f : R → R) (f_idem : (c : R) → f (f c) ≡ f c)
    (f_id : (c : R) → id (f c) ≡ id c) where
  mark_one :
      (row : R) (rest : List R) (c : R)
      → mark id f rest (if id c == id row then f c else c) ≡ mark id f (row ∷ rest) c
  mark_one row rest c = elim (Bool-cases (id c == id row)) [
    | inl same ↦ rw same (rw f_id (ground (arith, f_idem c)))
    | inr other ↦ rw other refl
  ]

  -- One more round of the loop is one more row to mark.
  pub map-mark :
      (row : R) (rest xs : List R)
      → map (mark id f rest) (map (λ c. if id c == id row then f c else c) xs)
        ≡ map (mark id f (row ∷ rest)) xs
  map-mark row rest [] = refl
  map-mark row rest (x ∷ xs) = ap₂ ◌∷◌ (mark_one row rest x) (map-mark row rest xs)

module _ {R : Type 0} (id : R → String) (P : R → Bool) where
  -- The rows of the second list on which the test holds have their ids among the first.
  abbrev Covers : List R → List R → Type 0
  Covers ts xs = All (λ c. P c ≡ true → is_listed id ts c ≡ true) xs

  Covers-more : (x : R) (ts xs : List R) → Covers ts xs → Covers (x ∷ ts) xs
  Covers-more x ts [] h = tt
  Covers-more x ts (c ∷ cs) h = (λ p. ground (arith, h.0 p), Covers-more x ts cs h.1)

  pub Covers-filter : (xs : List R) → Covers (filter P xs) xs
  Covers-filter [] = tt
  Covers-filter (x ∷ xs) = elim (Bool-cases (P x)) [
    | inl p ↦
        let e : filter P (x ∷ xs) ≡ x ∷ filter P xs = rw p in
        subst (λ ts. Covers ts (x ∷ xs)) (sym e)
          (λ q. rw (eq_refl (id x)), Covers-more x (filter P xs) xs (Covers-filter xs))
    | inr p ↦
        let e : filter P (x ∷ xs) ≡ filter P xs = rw p in
        subst (λ ts. Covers ts (x ∷ xs)) (sym e) (λ q. cc, Covers-filter xs)
  ]

  module _ (f : R → R) (stops : (c : R) → P (f c) ≡ false) where
    filter-mark-Covers : (ts xs : List R) → Covers ts xs → filter P (map (mark id f ts) xs) ≡ []
    filter-mark-Covers ts [] h = refl
    filter-mark-Covers ts (x ∷ xs) h = ground (arith, stops x, h.0, filter-mark-Covers ts xs h.1)

    -- If the rewriting makes the condition false, the query returns nothing after the loop.
    pub filter-mark : (xs : List R) → filter P (map (mark id f (filter P xs)) xs) ≡ []
    filter-mark xs = filter-mark-Covers (filter P xs) xs (Covers-filter xs)

-- A rewriting after which only rows pass a test that passed it before.
pub count_if-map-le :
    {R : Type 0} (Q : R → Bool) (g : R → R) (xs : List R)
    → ((c : R) → Q (g c) ≡ true → Q c ≡ true)
    → count_if Q (map g xs) ≤ count_if Q xs
count_if-map-le Q g [] h = omega arith
count_if-map-le Q g (x ∷ xs) h = ground (arith, h x, count_if-map-le Q g xs h)

module _ {R : Type 0} (id : R → String) where
  -- No two rows have the same id.
  abbrev pub HasDistinctIds : List R → Type 0
  HasDistinctIds [] = Unit
  HasDistinctIds (x ∷ xs) = All (λ c. (id c == id x) ≡ false) xs × HasDistinctIds xs

  module _ (P : R → Bool) where
    abbrev Lists : List R → List R → Type 0
    Lists ts xs = All (λ c. is_listed id ts c ≡ P c) xs

    Lists-skip :
        (x : R) (ts xs : List R)
        → All (λ c. (id c == id x) ≡ false) xs
        → Lists ts xs
        → Lists (x ∷ ts) xs
    Lists-skip x ts [] d h = tt
    Lists-skip x ts (c ∷ cs) d h = (rw d.0 h.0, Lists-skip x ts cs d.1 h.1)

    is_listed-filter :
        (x : R) (xs : List R)
        → All (λ c. (id c == id x) ≡ false) xs
        → is_listed id (filter P xs) x ≡ false
    is_listed-filter x [] d = refl
    is_listed-filter x (c ∷ cs) d =
        ground (arith, d.0, eq_iff (id c) (id x), eq_iff (id x) (id c), is_listed-filter x cs d.1)

    Lists-filter : (xs : List R) → HasDistinctIds xs → Lists (filter P xs) xs
    Lists-filter [] d = tt
    Lists-filter (x ∷ xs) d = elim (Bool-cases (P x)) [
      | inl p ↦
          let e : filter P (x ∷ xs) ≡ x ∷ filter P xs = rw p in
          subst (λ ts. Lists ts (x ∷ xs)) (sym e)
            (rw (eq_refl (id x)) (sym p), Lists-skip x (filter P xs) xs d.0 (Lists-filter xs d.1))
      | inr p ↦
          let e : filter P (x ∷ xs) ≡ filter P xs = rw p in
          subst (λ ts. Lists ts (x ∷ xs)) (sym e)
            (rw (is_listed-filter x xs d.0) (sym p), Lists-filter xs d.1)
    ]

    map-mark-Lists :
        (f : R → R) (ts xs : List R)
        → Lists ts xs
        → map (mark id f ts) xs ≡ map (λ c. if P c then f c else c) xs
    map-mark-Lists f ts [] h = refl
    map-mark-Lists f ts (x ∷ xs) h = ap₂ ◌∷◌ (rw h.0) (map-mark-Lists f ts xs h.1)

    -- With distinct ids the loop rewrites exactly the rows of the query.
    pub map-mark-filter :
        (f : R → R) (xs : List R)
        → HasDistinctIds xs
        → map (mark id f (filter P xs)) xs ≡ map (λ c. if P c then f c else c) xs
    map-mark-filter f xs d = map-mark-Lists f (filter P xs) xs (Lists-filter xs d)
