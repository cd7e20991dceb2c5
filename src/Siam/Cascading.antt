-- ===== src/Siam/Cascading.antt =====
-- `replace` of siam_service.py with the hook that main.py sets: the stored mapping, and the
-- connections.
use lehen.Prelude.{
  ℕ, ◌+◌, String, true, false, Option, none, some, List, [], ◌∷◌, ◌≡◌, refl, sym, subst, filter, ap,
  ap₂, ◌∙◌, arith, map, ◌==◌, eq_iff, Bool-cases, inl, inr,
}
use mathlib.Core.Bool.{false≢true}
use lehen.Prelude.Effects.{Result, ok, bind_ok, pure, ◌>>◌}
use lehen.Arcade.{Arcade, select}
use lehen.Arcade.Counts.{select-insert_new, select-update_same}
use lehen.Hub.{Bytes, Connection, CurrentUser, Mapping, SiamMapping, World, Host}
use lehen.Audit.{record_event}
use lehen.Connections.Rows.{is_empty}
use lehen.Connections.Cascade.{revoke_for_users_no_longer_authorized}
use lehen.Connections.Orphans.{is_lost, cascade_complete, siam_mappings-cascade}
use lehen.Siam.Mapping.{normalize, siam_id, first_mapping, get}
use lehen.Siam.Normal.{normalize_idem}
use lehen.Siam.Replace.{texts_eq, mapping_eq, store_mapping, store_and_audit, call_cascade, replace}

texts_eq_sound : (ss ts : List String) → texts_eq ss ts ≡ true → ss ≡ ts
texts_eq_sound [] [] h = refl
texts_eq_sound [] (t ∷ ts) h = absurd (false≢true h)
texts_eq_sound (s ∷ ss) [] h = absurd (false≢true h)
texts_eq_sound (s ∷ ss) (t ∷ ts) h =
    ap₂ ◌∷◌ ((eq_iff s t).0 (ground arith)) (texts_eq_sound ss ts (ground arith))

mapping_eq_sound : (m n : Mapping) → mapping_eq m n ≡ true → m ≡ n
mapping_eq_sound [] [] h = refl
mapping_eq_sound [] (_ ∷ _) h = absurd (false≢true h)
mapping_eq_sound (_ ∷ _) [] h = absurd (false≢true h)
mapping_eq_sound ((r, is) ∷ m) ((q, js) ∷ n) h =
    ap₂ ◌∷◌
      (ap₂ (λ x y. (x, y)) ((eq_iff r q).0 (ground arith)) (texts_eq_sound is js (ground arith)))
      (mapping_eq_sound m n (ground arith))

first_mapping-map :
    (doc : SiamMapping) (rows : List SiamMapping)
    → is_empty rows ≡ false
    → first_mapping (map (λ _. doc) rows) ≡ doc.mapping
unfolding first_mapping
first_mapping-map doc [] h = absurd (false≢true (sym h))
first_mapping-map doc (x ∷ xs) h = refl

is_empty-nil : (rows : List SiamMapping) → is_empty rows ≡ true → rows ≡ []
is_empty-nil [] h = refl
is_empty-nil (x ∷ xs) h = absurd (false≢true h)

module _ (arcade : Arcade) (host : Host) (days : ℕ) (pepper : Bytes) where
  -- What was stored is found.
  first_mapping-store_mapping :
      (doc : SiamMapping) (w : World arcade)
      → doc.id ≡ siam_id
      → first_mapping (
          select arcade
            (λ row. row.id == siam_id)
            (store_mapping arcade host pepper doc w).1.siam_mappings)
        ≡ doc.mapping
  unfolding first_mapping store_mapping
  first_mapping-store_mapping doc w own =
      let p = λ (row : SiamMapping). row.id == siam_id in
      let found = select arcade p w.siam_mappings in
      let own_id : p doc ≡ true = (eq_iff doc.id siam_id).1 own in
      elim (Bool-cases (is_empty found)) [
        | inl nothing ↦ rw nothing (
            ap first_mapping
              (select-insert_new arcade p doc w.siam_mappings own_id (is_empty-nil found nothing)))
        | inr something ↦ rw something (
            ap first_mapping
              (select-update_same arcade p (λ _. doc) w.siam_mappings (λ c h. own_id))
            ∙ first_mapping-map doc found something)
      ]

  abbrev pub wired : Mapping → Mapping → Option String → World arcade → Result ℕ × World arcade
  wired = revoke_for_users_no_longer_authorized arcade host days

  -- The mapping that was stored is what is read then, and the connections stand.
  store_and_audit_lem :
      (actor : CurrentUser) (before mapping : Mapping) (request_id : Option String)
      (w : World arcade)
      → let (r, w') = store_and_audit arcade host pepper actor before mapping request_id w in
        (r ≡ ok (normalize mapping)) × (get arcade w' ≡ normalize mapping)
  unfolding store_and_audit get record_event
  store_and_audit_lem actor before mapping request_id w =
      let doc : SiamMapping = record {
        id = siam_id;
        mapping = normalize mapping;
        updated_by = actor.username;
        updated_at = host.clock w.readings;
      } in
      let stored = first_mapping-store_mapping doc (record w { readings = w.readings + 1 }) refl in
      let read = ap normalize stored ∙ normalize_idem mapping in (ap ok read, read)

  no_orphans : (m : Mapping) (c : Connection) → is_lost arcade host days m m none c ≡ false
  no_orphans m c = ground arith

  none_lost :
      (m : Mapping) (xs : List Connection) → filter (is_lost arcade host days m m none) xs ≡ []
  none_lost m [] = refl
  none_lost m (x ∷ xs) = rw (no_orphans m x) (none_lost m xs)

  -- The hook's call returned, wrote no mapping, and left no orphan.
  record Cascaded (before after : Mapping) (w : World arcade) (x : Result (Unit {0}) × World arcade)
      : Type 0 where
    returned : x.0 ≡ ok tt
    kept : x.1.siam_mappings ≡ w.siam_mappings
    gone : select arcade (is_lost arcade host days before after none) x.1.connections ≡ []

  call_cascade-Cascaded :
      (before after : Mapping) (request_id : Option String) (w : World arcade)
      → Cascaded before after w
          (call_cascade arcade host pepper (some wired) before after request_id w)
  unfolding call_cascade
  call_cascade-Cascaded before after request_id w = elim (Bool-cases (mapping_eq before after)) [
    | inl same ↦
        let e : before ≡ after = mapping_eq_sound before after same in
        rw same (record {
          returned = refl;
          kept = refl;
          gone =
              subst
                (λ m.
                  filter (is_lost arcade host days before m none) (arcade.rows w.connections) ≡ [])
                e (none_lost before (arcade.rows w.connections));
        })
    | inr other ↦
        let (answered, empty) = cascade_complete arcade host days before after request_id w in
        rw other (
          subst (Cascaded before after w)
            (sym (bind_ok (wired before after request_id) (λ _. pure tt) w answered))
            (record {
              returned = refl;
              kept = siam_mappings-cascade arcade host days before after request_id w;
              gone = empty;
            }))
  ]

  -- With the hook that main.py sets, an admin's new mapping is returned and read afterwards
  -- in its normal form, and no connection is active whose instance some role mapped before
  -- and none maps now.
  pub replace_complete :
      (actor : CurrentUser) (mapping : Mapping) (request_id : Option String) (w : World arcade)
      → let (r, w') = replace arcade host pepper (some wired) actor mapping request_id w in
        (r ≡ ok (normalize mapping))
        × (get arcade w' ≡ normalize mapping)
        × (select arcade
              (is_lost arcade host days (get arcade w) (normalize mapping) none)
              w'.connections
            ≡ [])
  unfolding replace get
  replace_complete actor mapping request_id w =
      let before = get arcade w in
      let store = store_and_audit arcade host pepper actor before mapping request_id in
      let call =
        λ (m : Mapping). call_cascade arcade host pepper (some wired) before m request_id in
      let (answered, read) = store_and_audit_lem actor before mapping request_id w in
      let c = call_cascade-Cascaded before (normalize mapping) request_id (store w).1 in
      let ran : replace arcade host pepper (some wired) actor mapping request_id w
          ≡ (ok (normalize mapping), (call (normalize mapping) (store w).1).1) =
        bind_ok store (λ (m : Mapping). call m >> pure m) w answered
        ∙ bind_ok (call (normalize mapping)) (λ _. pure (normalize mapping)) (store w).1
            c.returned in
      rw ran (
        refl,
        ap
              (λ t.
                normalize
                  (first_mapping (select arcade (λ (row : SiamMapping). row.id == siam_id) t)))
              c.kept
            ∙ read,
        c.gone,
      )
