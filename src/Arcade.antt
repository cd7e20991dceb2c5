-- ===== src/Arcade.antt =====
-- ArcadeDB, the document database behind storage/arcade.py. The engine is not code of the
-- repository, so it is a parameter: a document type is an abstract table with the statements that
-- the Hub sends, and what the Hub relies on as laws.
-- `rows` is what a SELECT without a condition returns. Each statement is one atomic change, and
-- succeeds: a call that fails raises ArcadeError, which no service catches, and is left out.
pub mod Counts
use lehen.Prelude.{Bool, List, [], ◌≡◌, map, not, filter, Inserted, if◌then◌else◌}

pub record Arcade : Type 1 where
  pub Table : Type 0 → Type 0
  pub rows : {R : Type 0} → Table R → List R
  -- INSERT INTO T CONTENT r
  pub insert : {R : Type 0} → R → Table R → Table R
  -- UPDATE T SET ... WHERE p, and UPDATE T CONTENT ... WHERE p
  pub update : {R : Type 0} → (R → Bool) → (R → R) → Table R → Table R
  -- DELETE FROM T WHERE p
  pub delete : {R : Type 0} → (R → Bool) → Table R → Table R
  -- A new row stands at some place of the scan, and moves no other row.
  pub rows-insert : {R : Type 0} (r : R) (t : Table R) → Inserted r (rows t) (rows (insert r t))
  -- An update rewrites in place the rows on which the condition holds.
  pub rows-update :
      {R : Type 0} (p : R → Bool) (f : R → R) (t : Table R)
      → rows (update p f t) ≡ map (λ r. if p r then f r else r) (rows t)
  pub rows-delete :
      {R : Type 0} (p : R → Bool) (t : Table R)
      → rows (delete p t) ≡ filter (λ r. not (p r)) (rows t)

module _ (arcade : Arcade) where
  open arcade use {Table, rows}

  -- SELECT FROM T WHERE p
  abbrev pub select : {R : Type 0} → (R → Bool) → Table R → List R
  select p t = filter p (rows t)
