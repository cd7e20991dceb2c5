-- ===== src/Siam/Normal.antt =====
-- The normal form that `_normalize` of siam_service.py gives, and the rights in it.
use lehen.Prelude.{
  String, Bool, true, false, List, [], ◌∷◌, ◌≡◌, refl, sym, subst, ap, ap₂, ◌∙◌, arith, any, ◌==◌,
  eq_iff, ◌||◌, if◌then◌else◌, Bool-cases, inl, inr,
}
use lehen.Prelude.Order.{text_leb, text_leb-total, sorted_set}
use lehen.Prelude.Sorted.{IsAscending, sorted_set-IsAscending, sorted_set_fixed, any-sorted_set}
use lehen.Arcade.{Arcade, select}
use lehen.Hub.{Mapping, CurrentUser, World}
use lehen.Siam.Mapping.{instances_of, insert_item, normalize, siam_id, first_mapping, get}
use lehen.Connections.Rows.{some_role_allows, is_siam_authorized}

-- The role stands strictly before the first role of the mapping.
abbrev Leads : String → Mapping → Type 0
Leads role [] = Unit
Leads role ((r, _) ∷ m) = ((role == r) ≡ false) × (text_leb role r ≡ true)

-- Roles and lists of instances are ascending.
abbrev pub IsNormal : Mapping → Type 0
IsNormal [] = Unit
IsNormal ((role, ids) ∷ m) = Leads role m × (IsAscending ids × IsNormal m)

differ_sym : (s t : String) → (s == t) ≡ false → (t == s) ≡ false
differ_sym s t h = ground (arith, eq_iff s t, eq_iff t s)

Leads-insert_item :
    (role r : String) (ids : List String) (m : Mapping)
    → Leads r m
    → (role == r) ≡ false
    → text_leb role r ≡ false
    → Leads r (insert_item role ids m)
unfolding insert_item
Leads-insert_item role r ids [] h ne gt = (differ_sym role r ne, text_leb-total role r gt)
Leads-insert_item role r ids ((q, js) ∷ m) h ne gt = elim (Bool-cases (role == q)) [
  | inl same ↦ rw same (differ_sym role r ne, text_leb-total role r gt)
  | inr other ↦ elim (Bool-cases (text_leb role q)) [
    | inl le ↦ rw (other, le) (differ_sym role r ne, text_leb-total role r gt)
    | inr more ↦ rw (other, more) h
  ]
]

Leads-same : (role r : String) (m : Mapping) → (role == r) ≡ true → Leads r m → Leads role m
Leads-same role r [] same h = tt
Leads-same role r ((q, js) ∷ m) same h =
    let p : role ≡ r = (eq_iff role r).0 same in subst (λ s. Leads s ((q, js) ∷ m)) (sym p) h

insert_item-IsNormal :
    (role : String) (ids : List String) (m : Mapping)
    → IsAscending ids
    → IsNormal m
    → IsNormal (insert_item role ids m)
unfolding insert_item
insert_item-IsNormal role ids [] a h = (tt, (a, tt))
insert_item-IsNormal role ids ((r, js) ∷ m) a h = elim (Bool-cases (role == r)) [
  | inl same ↦ rw same (Leads-same role r m same h.0, (a, h.1.1))
  | inr other ↦ elim (Bool-cases (text_leb role r)) [
    | inl le ↦ rw (other, le) ((other, le), (a, h))
    | inr more ↦
        rw (other, more)
          (
            Leads-insert_item role r ids m h.0 other more,
            (h.1.0, insert_item-IsNormal role ids m a h.1.1),
          )
  ]
]

pub normalize-IsNormal : (m : Mapping) → IsNormal (normalize m)
unfolding normalize
normalize-IsNormal [] = tt
normalize-IsNormal ((role, ids) ∷ m) =
    insert_item-IsNormal role (sorted_set ids) (normalize m) (sorted_set-IsAscending ids)
      (normalize-IsNormal m)

insert_item-Leads :
    (role : String) (ids : List String) (m : Mapping)
    → Leads role m
    → insert_item role ids m ≡ (role, ids) ∷ m
unfolding insert_item
insert_item-Leads role ids [] h = refl
insert_item-Leads role ids ((r, js) ∷ m) h = rw (h.0, h.1) refl

normalize_fixed : (m : Mapping) → IsNormal m → normalize m ≡ m
unfolding normalize
normalize_fixed [] h = refl
normalize_fixed ((role, ids) ∷ m) h =
    ap₂ (insert_item role) (sorted_set_fixed ids h.1.0) (normalize_fixed m h.1.1)
    ∙ insert_item-Leads role ids m h.0

-- Normalizing twice is normalizing once.
pub normalize_idem : (m : Mapping) → normalize (normalize m) ≡ normalize m
normalize_idem m = normalize_fixed (normalize m) (normalize-IsNormal m)

instances_of-insert_item :
    (role r : String) (ids : List String) (m : Mapping)
    → instances_of role (insert_item r ids m) ≡ (if r == role then ids else instances_of role m)
unfolding instances_of insert_item
instances_of-insert_item role r ids [] = refl
instances_of-insert_item role r ids ((q, js) ∷ m) =
    ground (arith, eq_iff r q, eq_iff r role, eq_iff q role, instances_of-insert_item role r ids m)

-- Whether a role lists an instance.
abbrev pub lists : String → String → Mapping → Bool
lists instance_id role m = any (λ i. i == instance_id) (instances_of role m)

lists-normalize :
    (instance_id role : String) (m : Mapping)
    → lists instance_id role (normalize m) ≡ lists instance_id role m
unfolding normalize instances_of
lists-normalize instance_id role [] = refl
lists-normalize instance_id role ((r, ids) ∷ m) =
    ap (any (λ i. i == instance_id))
      (instances_of-insert_item role r (sorted_set ids) (normalize m))
    ∙ elim (Bool-cases (r == role)) [
      | inl same ↦ rw same (any-sorted_set instance_id ids)
      | inr other ↦ rw other (lists-normalize instance_id role m)
    ]

some_role_allows-normalize :
    (roles : List String) (instance_id : String) (m : Mapping)
    → some_role_allows roles instance_id (normalize m)
      ≡ any (λ role. lists instance_id role m) roles
unfolding some_role_allows
some_role_allows-normalize [] instance_id m = refl
some_role_allows-normalize (role ∷ roles) instance_id m =
    ap₂ ◌||◌ (lists-normalize instance_id role m) (some_role_allows-normalize roles instance_id m)

-- The gate of the connections passes a user exactly when one of their roles lists the instance in
-- the mapping as it is stored, whatever its order and its repetitions.
pub is_siam_authorized_lem :
    (arcade : Arcade) (user : CurrentUser) (instance_id : String) (w : World arcade)
    → is_siam_authorized arcade user instance_id w
      ≡ any
          (λ role.
            any
              (λ i. i == instance_id)
              (instances_of role
                (first_mapping (select arcade (λ row. row.id == siam_id) w.siam_mappings))))
          user.realm_roles
unfolding is_siam_authorized get
is_siam_authorized_lem arcade user instance_id w =
    some_role_allows-normalize user.realm_roles instance_id
      (first_mapping (select arcade (λ row. row.id == siam_id) w.siam_mappings))
