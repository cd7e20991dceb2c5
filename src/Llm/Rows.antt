-- ===== src/Llm/Rows.antt =====
-- How the row of `LLMService` is found, and what the keys of a document give.
use lehen.Prelude.{
  String, Bool, true, false, some, List, [], ◌∷◌, ◌≡◌, refl, sym, subst, ap, ◌∙◌, map, filter, not,
  inl, inr, Bool-cases, Option-cases, eq_iff, eq_refl, ◌==◌,
}
use lehen.Prelude.Dict.{Dict, lookup, insert, lookup-insert}
use lehen.Prelude.Effects.{ok}
use lehen.Arcade.{Arcade, select}
use lehen.Hub.{Value, text, World, Host}
use lehen.Connections.Rows.{first}
use lehen.Integrations.Config.{config_value}
use lehen.Llm.Service.{is_default, is_internal, llm_config_id, first_draft, raw_get}
use lehen.Llm.Fields.{lookup-insert_other}
use lehen.Llm.Stored.{config_value-same}

-- A filter on the keys.
pub lookup-filter :
    (p : String → Bool) (k : String) (d : Dict Value)
    → p k ≡ true
    → lookup k (filter (λ kv. p kv.0) d) ≡ lookup k d
unfolding lookup
lookup-filter p k [] h = refl
lookup-filter p k ((j, v) ∷ d) h = elim (Bool-cases (j == k)) [
  | inl same ↦
      let kept : p j ≡ true = subst (λ i. p i ≡ true) (sym ((eq_iff j k).0 same)) h in
      rw (kept, same) refl
  | inr other ↦ elim (Bool-cases (p j)) [
    | inl kept ↦ rw (kept, other) (lookup-filter p k d h)
    | inr dropped ↦ rw (dropped, other) (lookup-filter p k d h)
  ]
]

pub raw_get-reads : (arcade : Arcade) (w : World arcade) → (raw_get arcade w).1 ≡ w
unfolding raw_get
raw_get-reads arcade w = elim (Option-cases (first (select arcade is_default w.llm_configs))) [
  | inl missing ↦ rw missing refl
  | inr (row, found) ↦ rw found refl
]

pub config_value-some :
    (k : String) (d : Dict Value) {v : Value} → lookup k d ≡ some v → config_value k d ≡ v
unfolding config_value
config_value-some k d e = rw (config_value, e) refl

pub raw_get-first :
    (arcade : Arcade) (w : World arcade) {row : Dict Value}
    → first (select arcade is_default w.llm_configs) ≡ some row
    → (raw_get arcade w).0 ≡ ok row
unfolding raw_get
raw_get-first arcade w found = rw found refl

pub first-raw_get :
    (arcade : Arcade) (w : World arcade) (row : Dict Value)
    → (raw_get arcade w).0 ≡ ok row
    → first (select arcade is_default w.llm_configs) ≡ some row
unfolding raw_get
first-raw_get arcade w row read =
    elim (Option-cases (first (select arcade is_default w.llm_configs))) [
      | inl missing ↦ let h = rw missing at read in absurd (cc h)
      | inr (r, found) ↦ let h : ok r ≡ ok row = rw found at read in found ∙ ap some (cc h)
    ]

pub first-map :
    {A : Type 0} (b : A) (l : List A) {a : A} → first l ≡ some a → first (map (λ _. b) l) ≡ some b
first-map b [] h = absurd (cc h)
first-map b (x ∷ l) h = refl

pub lookup-insert_same :
    (k : String) (v : Value) (d : Dict Value) → lookup k (insert k v d) ≡ some v
lookup-insert_same k v d = lookup-insert k k v d ∙ rw (eq_refl k) refl

pub first_draft-same :
    (host : Host) (k : String) (before : Dict Value)
    → ("id" == k) ≡ false
    → not (is_internal k) ≡ true
    → config_value k (first_draft host before).merged ≡ config_value k before
first_draft-same host k before other kept =
    let stripped = filter (λ kv. not (is_internal kv.0)) before in
    config_value-same k (insert "id" (text llm_config_id) stripped) before (
      lookup-insert_other "id" k (text llm_config_id) stripped other
      ∙ lookup-filter (λ j. not (is_internal j)) k before kept)
