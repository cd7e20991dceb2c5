-- ===== src/Siam/Replace.antt =====
-- `SIAMService.replace`. The cascade is the hook that main.py sets: none before that.
use lehen.Prelude.{
  ℕ, String, Bool, true, false, Option, none, some, List, [], ◌∷◌, ◌&&◌, not, ◌==◌, if◌then◌else◌,
}
use lehen.Prelude.Effects.{gets, pure, modify, ◌>>=◌, ◌>>◌}
use lehen.Arcade.{Arcade, select}
use lehen.Hub.{Bytes, CurrentUser, Mapping, SiamMapping, Value, roles_map, Hub, Host, now}
use lehen.Audit.{record_event}
use lehen.Connections.Rows.{is_empty}
use lehen.Siam.Mapping.{normalize, siam_id, get}

abbrev pub Cascade : Arcade → Type 0
Cascade arcade = Mapping → Mapping → Option String → Hub arcade ℕ

-- `before == after`, for two normalized mappings, whose items are in order
abbrev pub texts_eq : List String → List String → Bool
texts_eq [] [] = true
texts_eq [] (_ ∷ _) = false
texts_eq (_ ∷ _) [] = false
texts_eq (s ∷ ss) (t ∷ ts) = s == t && texts_eq ss ts

abbrev pub mapping_eq : Mapping → Mapping → Bool
mapping_eq [] [] = true
mapping_eq [] (_ ∷ _) = false
mapping_eq (_ ∷ _) [] = false
mapping_eq ((r, is) ∷ m) ((q, js) ∷ n) = r == q && (texts_eq is js && mapping_eq m n)

-- {"mapping": m}
abbrev pub mapping_field : Mapping → Option (List (String × Value))
mapping_field m = some (("mapping", roles_map m) ∷ [])

module _ (arcade : Arcade) (host : Host) (pepper : Bytes) where
  -- the call of the hook
  unfoldable pub call_cascade :
      Option (Cascade arcade) → Mapping → Mapping → Option String → Hub arcade Unit
  call_cascade none before after request_id = pure tt
  call_cascade (some cascade) before after request_id =
      if not (mapping_eq before after)
      then (do revoked ← cascade before after request_id; pure tt)
      else pure tt

  -- the UPDATE or the INSERT
  unfoldable pub store_mapping : SiamMapping → Hub arcade Unit
  store_mapping doc = do
    existing ← gets (λ w. select arcade (λ row. row.id == siam_id) w.siam_mappings)
    modify (λ w. record w {
      siam_mappings =
          if is_empty existing
          then arcade.insert doc w.siam_mappings
          else arcade.update (λ row. row.id == siam_id) (λ _. doc) w.siam_mappings;
    })

  -- from the UPDATE or INSERT to the audit record
  unfoldable pub store_and_audit :
      CurrentUser → Mapping → Mapping → Option String → Hub arcade Mapping
  unfolding store_mapping
  store_and_audit actor before mapping request_id = do
    ts ← now arcade host
    store_mapping (record {
      id = siam_id;
      mapping = normalize mapping;
      updated_by = actor.username;
      updated_at = ts;
    })
    after ← gets (get arcade)
    record_event host pepper arcade (record {
      actor_sub = actor.sub;
      actor_username = actor.username;
      action = "siam.update";
      target_id = some siam_id;
      before = mapping_field before;
      after = mapping_field after;
      secret_fields = [];
      request_id = request_id;
    })
    pure after

  unfoldable pub replace :
      Option (Cascade arcade) → CurrentUser → Mapping → Option String → Hub arcade Mapping
  unfolding store_and_audit call_cascade
  replace cascade actor mapping request_id = do
    before ← gets (get arcade)
    after ← store_and_audit actor before mapping request_id
    call_cascade cascade before after request_id
    pure after
