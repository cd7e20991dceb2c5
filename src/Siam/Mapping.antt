-- ===== src/Siam/Mapping.antt =====
-- `_normalize` and `SIAMService.get` of admin/siam_service.py.
-- A dict is the list of its items. The mapping is typed `dict[str, list[str]]` at the endpoint, so
-- the branches of `_normalize` for other shapes cannot be taken.
use lehen.Prelude.{String, Bool, false, List, [], ◌∷◌, ◌==◌, if◌then◌else◌}
use lehen.Prelude.Order.{text_leb, sorted_set}
use lehen.Arcade.{Arcade, select}
use lehen.Hub.{Mapping, SiamMapping, World}

-- mapping.get(role, [])
unfoldable pub instances_of : String → Mapping → List String
instances_of role [] = []
instances_of role ((r, ids) ∷ m) = if r == role then ids else instances_of role m

-- `role in mapping`
unfoldable pub has_role : String → Mapping → Bool
has_role role [] = false
has_role role ((r, _) ∷ m) = if r == role then Bool.true else has_role role m

unfoldable pub insert_item : String → List String → Mapping → Mapping
insert_item role ids [] = (role, ids) ∷ []
insert_item role ids ((r, js) ∷ m) =
    if role == r
    then (role, ids) ∷ m
    else if text_leb role r
    then (role, ids) ∷ (r, js) ∷ m
    else (r, js) ∷ insert_item role ids m

-- Sorts each list, dropping repetitions, and then the roles.
unfoldable pub normalize : Mapping → Mapping
unfolding insert_item
normalize [] = []
normalize ((role, ids) ∷ m) = insert_item role (sorted_set ids) (normalize m)

abbrev pub siam_id : String
siam_id = "default"

-- rows[0].get("mapping") or {}
unfoldable pub first_mapping : List SiamMapping → Mapping
first_mapping [] = []
first_mapping (row ∷ _) = row.mapping

module _ (arcade : Arcade) where
  unfoldable pub get : World arcade → Mapping
  unfolding first_mapping
  get w = normalize (first_mapping (select arcade (λ row. row.id == siam_id) w.siam_mappings))
