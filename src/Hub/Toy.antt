-- ===== src/Hub/Toy.antt =====
-- A concrete engine: a table is the list of its rows.
use lehen.Prelude.{List, refl, ◌∷◌, map, not, filter, Inserted, if◌then◌else◌}
use lehen.Arcade.{Arcade}

abbrev pub toy : Arcade
toy = record {
  Table = List;
  rows = λ t. t;
  insert = λ r t. r ∷ t;
  update = λ p f t. map (λ r. if p r then f r else r) t;
  delete = λ p t. filter (λ r. not (p r)) t;
  rows-insert = λ r t. Inserted.here;
  rows-update = λ p f t. refl;
  rows-delete = λ p t. refl;
}
