-- ===== src/Me/Listing.antt =====
-- Which instances `me` of me_service.py lists.
use lehen.Prelude.{
  ℕ, suc, String, Bool, true, false, Option, List, [], ◌∷◌, ◌++◌, ◌≡◌, refl, sym, ap, ◌∙◌, arith,
  any, filter, count_if, ◌==◌, eq_iff, ◌&&◌, ◌||◌, Bool-cases, Option-cases, inl, inr,
}
use lehen.Prelude.Dict.{Dict, lookup}
use lehen.Prelude.Order.{sorted_set}
use lehen.Prelude.Sorted.{any-sorted_set}
use lehen.Prelude.Effects.{ok}
use lehen.Arcade.{Arcade}
use lehen.Arcade.Counts.{count_if-insert}
use lehen.Hub.{Connection, CurrentUser, Mapping, World, Host}
use lehen.Siam.Mapping.{get, has_role, instances_of}
use lehen.Connections.Rows.{some_role_allows, is_siam_authorized, list_for_user}
use lehen.Integrations.Config.{Rendered}
use lehen.Me.{
  MeEntry, insert_sorted, sort_texts, allowed_ids, is_shown, payload_of, connections_by_instance,
  listed_instances, me_view, record_user_login, me,
}

any-insert_sorted :
    (p : String → Bool) (s : String) (ts : List String)
    → any p (insert_sorted s ts) ≡ (p s || any p ts)
unfolding insert_sorted
any-insert_sorted p s [] = refl
any-insert_sorted p s (t ∷ ts) = ground (arith, any-insert_sorted p s ts)

any-sort_texts : (p : String → Bool) (xs : List String) → any p (sort_texts xs) ≡ any p xs
unfolding sort_texts
any-sort_texts p [] = refl
any-sort_texts p (x ∷ xs) =
    any-insert_sorted p x (sort_texts xs) ∙ ap (λ b. p x || b) (any-sort_texts p xs)

any-filter :
    (p q : String → Bool) (xs : List String)
    → ((x : String) → q x ≡ false → p x ≡ false)
    → any p (filter q xs) ≡ any p xs
any-filter p q [] h = refl
any-filter p q (x ∷ xs) h = ground (arith, h x, any-filter p q xs h)

any-append : (p : String → Bool) (xs ys : List String) → any p (xs ++ ys) ≡ (any p xs || any p ys)
any-append p [] ys = refl
any-append p (x ∷ xs) ys = ground (arith, any-append p xs ys)

module _ (instance_id : String) (mapping : Mapping) where
  abbrev gives : String → Bool
  gives role = any (λ i. i == instance_id) (instances_of role mapping)

  any-allowed_ids :
      (roles : List String)
      → any (λ i. i == instance_id) (allowed_ids mapping roles) ≡ any gives roles
  unfolding allowed_ids
  any-allowed_ids [] = refl
  any-allowed_ids (role ∷ roles) =
      any-append (λ i. i == instance_id) (instances_of role mapping) (allowed_ids mapping roles)
      ∙ ap (λ b. gives role || b) (any-allowed_ids roles)

  some_role_allows-eq :
      (roles : List String) → some_role_allows roles instance_id mapping ≡ any gives roles
  unfolding some_role_allows
  some_role_allows-eq [] = refl
  some_role_allows-eq (role ∷ roles) = ap (λ b. gives role || b) (some_role_allows-eq roles)

gives-has_role :
    (instance_id role : String) (mapping : Mapping)
    → has_role role mapping ≡ false
    → gives instance_id mapping role ≡ false
unfolding has_role instances_of
gives-has_role instance_id role [] h = refl
gives-has_role instance_id role ((r, ids) ∷ m) h = elim (Bool-cases (r == role)) [
  | inl same ↦ let k = rw same at h in absurd (cc k)
  | inr other ↦ rw other (gives-has_role instance_id role m (rw other at h))
]

abbrev pub is_entry : String → MeEntry → Bool
is_entry instance_id e = e.instance_id == instance_id

any-payload_of :
    (instance_id : String) (instances : Dict Rendered) (connections : Dict Connection)
    (ids : List String)
    → any (is_entry instance_id) (payload_of instances connections ids)
      ≡ (any (λ i. i == instance_id) ids && is_shown (lookup instance_id instances))
unfolding payload_of
any-payload_of instance_id instances connections [] = refl
any-payload_of instance_id instances connections (id ∷ ids) =
    let rest = any-payload_of instance_id instances connections ids in
    elim (Bool-cases (id == instance_id)) [
      | inl same ↦
          let p : lookup id instances ≡ lookup instance_id instances =
            ap (λ k. lookup k instances) ((eq_iff id instance_id).0 same) in
          elim (Option-cases (lookup instance_id instances)) [
            | inl missing ↦ rw (p, missing, same) (rest ∙ rw missing (ground arith))
            | inr (i, found) ↦ rw (p, found, same) (ground (arith, rest, found, same))
          ]
      | inr other ↦ elim (Option-cases (lookup id instances)) [
        | inl missing ↦ rw (missing, other) rest
        | inr (i, found) ↦ rw (found, other) (ground (arith, rest, other))
      ]
    ]

module _ (arcade : Arcade) (user : CurrentUser) (w : World arcade) where
  me_view_lem :
      (instance_id : String)
      → any (is_entry instance_id) (me_view arcade user w).integrations ≡ (
          is_siam_authorized arcade user instance_id w
          && is_shown (lookup instance_id (listed_instances arcade w)))
  unfolding me_view is_siam_authorized
  me_view_lem instance_id =
      let mapping : Mapping = get arcade w in
      let kept : List String = filter (λ r. has_role r mapping) user.realm_roles in
      let found : any (λ i. i == instance_id) (sorted_set (allowed_ids mapping (sort_texts kept)))
          ≡ some_role_allows user.realm_roles instance_id mapping =
        any-sorted_set instance_id (allowed_ids mapping (sort_texts kept))
        ∙ any-allowed_ids instance_id mapping (sort_texts kept)
        ∙ any-sort_texts (gives instance_id mapping) kept
        ∙ any-filter (gives instance_id mapping) (λ r. has_role r mapping) user.realm_roles
            (λ r. gives-has_role instance_id r mapping)
        ∙ sym (some_role_allows-eq instance_id mapping user.realm_roles) in
      any-payload_of instance_id (listed_instances arcade w)
        (connections_by_instance [] (list_for_user arcade user.sub w))
        (sorted_set (allowed_ids mapping (sort_texts kept)))
      ∙ ap (λ b. b && is_shown (lookup instance_id (listed_instances arcade w))) found

  -- The call always succeeds and leaves one login event, and it lists an instance exactly when the
  -- gate of the connections passes the user and the instance exists and is enabled.
  pub me_lists :
      (host : Host) (days : ℕ) (request_id : Option String)
      → let (r, w') = me arcade host days user request_id w in
        (r ≡ ok (me_view arcade user w))
        × (count_if (λ _. true) (arcade.rows w'.login_events)
            ≡ suc (count_if (λ _. true) (arcade.rows w.login_events)))
        × ((instance_id : String)
            → any (is_entry instance_id) (me_view arcade user w).integrations ≡ (
                is_siam_authorized arcade user instance_id w
                && is_shown (lookup instance_id (listed_instances arcade w))))
  unfolding me record_user_login
  me_lists host days request_id = (refl, rw (count_if-insert arcade) (omega arith), me_view_lem)
