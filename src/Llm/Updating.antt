-- ===== src/Llm/Updating.antt =====
-- What an update of `LLMService` that returns has done to the row.
use Prim.Native.String.{count}
use lehen.Prelude.{
  ℕ, String, true, false, Option, some, ◌≡◌, refl, sym, subst, ap, ◌∙◌, filter, not, is_none, ◌==◌,
  ◌&&◌,
}
use lehen.Prelude.Dict.{Dict, lookup, insert}
use lehen.Prelude.Effects.{
  Result, ok, pure, raise_if, llm_config, OnOk, bind_inv, is_ok, ◌>>=◌, ◌>>◌,
}
use lehen.Arcade.{Arcade, select}
use lehen.Arcade.Counts.{select-update_same}
use lehen.Hub.{Bytes, CurrentUser, Value, text, Hub, World, Host}
use lehen.Crypto.Envelope.{key_len, CipherLaws}
use lehen.Audit.{record_event}
use lehen.Connections.Rows.{first}
use lehen.Integrations.Config.{config_value}
use lehen.Llm.Service.{
  Draft, LlmView, names_default, is_default, is_internal, llm_config_id, apply_sides, first_draft,
  stamped, raw_get, render_for_read, store_draft, update,
}
use lehen.Llm.Fields.{StoredAfter, IsSameAt, lookup-insert_other}
use lehen.Llm.Stored.{config_value-same}
use lehen.Llm.Sides.{
  Side, inference, embedding, key_of, given_key, payload_of, apply_sides-id, apply_sides-IsStored,
  IsStored,
}
use lehen.Llm.Frame.{apply_sides-Keeps}
use lehen.Llm.Rows.{
  raw_get-reads, config_value-some, raw_get-first, first-raw_get, first-map, lookup-insert_same,
  first_draft-same,
}

module _ (arcade : Arcade) (host : Host) (pepper key : Bytes) (actor : CurrentUser)
    (i e : Option (Dict Value)) (request_id : Option String) (w : World arcade) where
  abbrev pub updated : Result LlmView × World arcade
  updated = update arcade host pepper key actor i e request_id w

  -- The steps of an update that returned.
  pub record Steps : Type 0 where
    pub before : Dict Value
    pub draft : Draft
    pub middle : World arcade
    pub read : (raw_get arcade w).0 ≡ ok before
    pub applied : apply_sides arcade host key i e (first_draft host before) w ≡ (ok draft, middle)
    pub stored :
        updated.1 ≡ (store_draft arcade host pepper key actor before request_id draft middle).1

  pub update-Steps : is_ok updated.0 ≡ true → Steps
  unfolding update
  update-Steps h =
      let finish : Hub arcade LlmView =
        raw_get arcade >>= λ after_raw. pure (render_for_read host after_raw) in
      let save : Dict Value → Draft → Hub arcade LlmView =
        λ b d. store_draft arcade host pepper key actor b request_id d >> finish in
      let apply : Dict Value → Hub arcade LlmView =
        λ b. apply_sides arcade host key i e (first_draft host b) >>= save b in
      let (_, _, ran, h0) =
        bind_inv (raise_if (is_none i && is_none e) llm_config) (λ _. raw_get arcade >>= apply) w
          h in
      let (before, read, ran0, h1) = bind_inv (raw_get arcade) apply w h0 in
      let here = raw_get-reads arcade w in
      let h2 = rw here at h1 in
      let (draft, applied, ran1, h3) =
        bind_inv (apply_sides arcade host key i e (first_draft host before)) (save before) w h2 in
      let middle = (apply_sides arcade host key i e (first_draft host before) w).1 in
      let (_, _, ran2, h4) =
        bind_inv (store_draft arcade host pepper key actor before request_id draft) (λ _. finish)
          middle h3 in
      let last = (store_draft arcade host pepper key actor before request_id draft middle).1 in
      let (_, _, ran3, _) =
        bind_inv (raw_get arcade) (λ after_raw. pure (render_for_read host after_raw)) last h4 in
      let stored : updated.1 ≡ last =
        ap (λ x. x.1) ran
        ∙ ap (λ x. x.1) ran0
        ∙ ap (λ v. (apply before v).1) here
        ∙ ap (λ x. x.1) ran1
        ∙ ap (λ x. x.1) ran2
        ∙ ap (λ x. x.1) ran3
        ∙ raw_get-reads arcade last in
      record {
        before = before;
        draft = draft;
        middle = middle;
        read = read;
        applied = ap (λ r. (r, middle)) applied;
        stored = stored;
      }

  lookup-stamped :
      (k : String) (ts : ℕ) (d : Dict Value)
      → ("updated_at" == k) ≡ false
      → ("updated_by" == k) ≡ false
      → lookup k (stamped actor ts d) ≡ lookup k d
  lookup-stamped k ts d at_other by_other =
      lookup-insert_other "updated_at" k (Value.num ts)
        (insert "updated_by" (text actor.username) d) at_other
      ∙ lookup-insert_other "updated_by" k (text actor.username) d by_other

  store_draft-llm_configs :
      (before : Dict Value) (draft : Draft) (t : World arcade)
      → (store_draft arcade host pepper key actor before request_id draft t).1.llm_configs
        ≡ arcade.update is_default
            (λ _. stamped actor (host.clock t.readings) draft.merged)
            t.llm_configs
  unfolding store_draft record_event
  store_draft-llm_configs before draft t = refl

  -- The row that is found afterwards.
  raw_get-stored :
      (before : Dict Value) (draft : Draft) (t : World arcade)
      → first (select arcade is_default t.llm_configs) ≡ some before
      → lookup "id" draft.merged ≡ some (text llm_config_id)
      → (raw_get arcade (store_draft arcade host pepper key actor before request_id draft t).1).0
        ≡ ok (stamped actor (host.clock t.readings) draft.merged)
  unfolding config_value
  raw_get-stored before draft t found id =
      let row = stamped actor (host.clock t.readings) draft.merged in
      let named : lookup "id" row ≡ some (text llm_config_id) =
        lookup-stamped "id" (host.clock t.readings) draft.merged refl refl ∙ id in
      let marked : is_default row ≡ true = ap names_default (config_value-some "id" row named) in
      let selected =
        ap (select arcade is_default) (store_draft-llm_configs before draft t)
        ∙ select-update_same arcade is_default (λ _. row) t.llm_configs (λ _ _. marked) in
      raw_get-first arcade (store_draft arcade host pepper key actor before request_id draft t).1
        (ap first selected ∙ first-map row (select arcade is_default t.llm_configs) found)

  -- The secret of a side in the draft that `update` starts from, and in the row that it writes.
  first_draft-key :
      (side : Side) (before : Dict Value)
      → config_value (key_of side) (first_draft host before).merged
        ≡ config_value (key_of side) before
  first_draft-key inference before = first_draft-same host (key_of inference) before refl refl
  first_draft-key embedding before = first_draft-same host (key_of embedding) before refl refl

  stamped-key :
      (side : Side) (ts : ℕ) (d : Dict Value)
      → config_value (key_of side) (stamped actor ts d) ≡ config_value (key_of side) d
  stamped-key inference ts d =
      config_value-same (key_of inference) (stamped actor ts d) d
        (lookup-stamped (key_of inference) ts d refl refl)
  stamped-key embedding ts d =
      config_value-same (key_of embedding) (stamped actor ts d) d
        (lookup-stamped (key_of embedding) ts d refl refl)

  draft-StoredAfter :
      CipherLaws host
      → count key ≡ key_len
      → (side : Side) (steps : Steps) (ts : ℕ)
      → StoredAfter host key
          (config_value (key_of side) steps.before)
          (given_key (payload_of side i e))
          (config_value (key_of side) (stamped actor ts steps.draft.merged))
  draft-StoredAfter laws size side steps ts =
      let drafted =
        subst (OnOk (IsStored arcade host key laws size side i e (first_draft host steps.before)))
          (ap (λ x. x.0) steps.applied)
          (apply_sides-IsStored arcade host key laws size side i e (first_draft host steps.before)
            w) in
      let started =
        subst
          (λ old.
            StoredAfter host key old (given_key (payload_of side i e))
              (config_value (key_of side) steps.draft.merged))
          (first_draft-key side steps.before) drafted in
      subst
        (StoredAfter host key (config_value (key_of side) steps.before)
          (given_key (payload_of side i e)))
        (sym (stamped-key side ts steps.draft.merged)) started

  -- With a key of 32 bytes and packages that keep their promises, after an update that returns the
  -- row has, for the key of each side: what it had if the update gave none, null if it gave the
  -- empty text, and otherwise an envelope that decrypts to the text of what it gave.
  pub update_stored :
      CipherLaws host
      → count key ≡ key_len
      → (side : Side) → is_ok (update arcade host pepper key actor i e request_id w).0 ≡ true
      → (before : Dict Value) × (after : Dict Value) × ((raw_get arcade w).0 ≡ ok before)
        × ((raw_get arcade (update arcade host pepper key actor i e request_id w).1).0 ≡ ok after)
        × StoredAfter host key
            (config_value (key_of side) before)
            (given_key (payload_of side i e))
            (config_value (key_of side) after)
  update_stored laws size side h =
      let steps = update-Steps h in
      let before = steps.before in
      let draft = steps.draft in
      let t = steps.middle in
      let same_table : t.llm_configs ≡ w.llm_configs =
        ap (λ x. x.1.llm_configs) (sym steps.applied)
        ∙ apply_sides-Keeps arcade host key (λ v. v.llm_configs) (λ v n. refl) i e
            (first_draft host before) w in
      let found : first (select arcade is_default t.llm_configs) ≡ some before =
        ap (λ table. first (select arcade is_default table)) same_table
        ∙ first-raw_get arcade w before steps.read in
      let id : lookup "id" draft.merged ≡ some (text llm_config_id) =
        subst (OnOk (IsSameAt arcade host key "id" (first_draft host before)))
          (ap (λ x. x.0) steps.applied)
          (apply_sides-id arcade host key i e (first_draft host before) w)
        ∙ lookup-insert_same "id" (text llm_config_id)
            (filter (λ kv. not (is_internal kv.0)) before) in
      let read =
        ap (λ v. (raw_get arcade v).0) steps.stored ∙ raw_get-stored before draft t found id in
      (
        before,
        stamped actor (host.clock t.readings) draft.merged,
        steps.read,
        read,
        draft-StoredAfter laws size side steps (host.clock t.readings),
      )
