-- ===== src/Arcade/Counts.antt =====
-- What a query returns, and how many rows it counts, after a statement.
use lehen.Prelude.{
  ◌+◌, Bool, true, false, List, [], ◌∷◌, ◌≡◌, refl, ap, ◌∙◌, map, arith, count_if,
  count_if-inserted, filter, Inserted, if◌then◌else◌, inl, inr, Bool-cases,
}
use lehen.Arcade.{Arcade, select}

module _ {R : Type 0} (p : R → Bool) where
  filter-inserted_new :
      (r : R) {xs ys : List R}
      → Inserted r xs ys
      → p r ≡ true
      → filter p xs ≡ []
      → filter p ys ≡ r ∷ []
  filter-inserted_new r Inserted.here pr none = rw pr (ap (λ l. r ∷ l) none)
  filter-inserted_new r (Inserted.later {x = x} i) pr none = elim (Bool-cases (p x)) [
    | inl there ↦ let h = rw there at none in absurd (cc h)
    | inr skipped ↦ rw skipped (filter-inserted_new r i pr (rw skipped at none))
  ]

  filter-inserted_skip :
      (r : R) {xs ys : List R} → Inserted r xs ys → p r ≡ false → filter p ys ≡ filter p xs
  filter-inserted_skip r Inserted.here pr = rw pr refl
  filter-inserted_skip r (Inserted.later {x = x} i) pr = rw (filter-inserted_skip r i pr) refl

  -- A rewriting under which the test stands: the rows that it finds are rewritten.
  filter-map :
      (f g : R → R) (xs : List R)
      → ((c : R) → p (g c) ≡ p c)
      → ((c : R) → p c ≡ true → g c ≡ f c)
      → filter p (map g xs) ≡ map f (filter p xs)
  filter-map f g [] stands same = refl
  filter-map f g (x ∷ xs) stands same = elim (Bool-cases (p x)) [
    | inl found ↦ rw (stands x, found, same x found, filter-map f g xs stands same) refl
    | inr skipped ↦ rw (stands x, skipped, filter-map f g xs stands same) refl
  ]

map_self : {R : Type 0} (xs : List R) → map (λ x. x) xs ≡ xs
map_self [] = refl
map_self (x ∷ xs) = ap (λ l. x ∷ l) (map_self xs)

module _ (arcade : Arcade) {R : Type 0} where
  open arcade use {Table, rows, insert, update}

  pub count_if-insert :
      (p : R → Bool) (r : R) (t : Table R)
      → count_if p (rows (insert r t)) ≡ (if p r then 1 else 0) + count_if p (rows t)
  count_if-insert p r t = count_if-inserted p r (arcade.rows-insert r t)

  pub select-insert_new :
      (p : R → Bool) (r : R) (t : Table R)
      → p r ≡ true
      → select arcade p t ≡ []
      → select arcade p (insert r t) ≡ r ∷ []
  select-insert_new p r t = filter-inserted_new p r (arcade.rows-insert r t)

  pub select-insert_skip :
      (p : R → Bool) (r : R) (t : Table R)
      → p r ≡ false
      → select arcade p (insert r t) ≡ select arcade p t
  select-insert_skip p r t = filter-inserted_skip p r (arcade.rows-insert r t)

  -- An update of the rows that a query finds, which it still finds.
  pub select-update_same :
      (p : R → Bool) (f : R → R) (t : Table R)
      → ((c : R) → p c ≡ true → p (f c) ≡ true)
      → select arcade p (update p f t) ≡ map f (select arcade p t)
  select-update_same p f t keeps =
      ap (filter p) (arcade.rows-update p f t)
      ∙ filter-map p f (λ c. if p c then f c else c) (rows t) (λ c. ground (arith, keeps c))
          (λ c h. rw h refl)

  -- An update of other rows.
  pub select-update_other :
      (p q : R → Bool) (f : R → R) (t : Table R)
      → ((c : R) → p c ≡ true → q c ≡ false)
      → ((c : R) → p c ≡ true → q (f c) ≡ false)
      → select arcade q (update p f t) ≡ select arcade q t
  select-update_other p q f t apart stays =
      ap (filter q) (arcade.rows-update p f t)
      ∙ filter-map q (λ c. c) (λ c. if p c then f c else c) (rows t)
          (λ c. ground (arith, apart c, stays c)) (λ c h. ground (arith, apart c))
      ∙ map_self (select arcade q t)
