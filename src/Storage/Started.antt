-- ===== src/Storage/Started.antt =====
-- The state of the Hub after a start, and a second start.
use lehen.Prelude.{
  ◌+◌, ℕ, String, true, false, Option, none, some, List, [], ◌∷◌, ◌≡◌, refl, sym, subst, ap, ◌∙◌,
  All, arith, eq_refl, inl, inr, Bool-cases, eqb, count_if, filter, ◌==◌,
}
use lehen.Prelude.Dict.{lookup}
use lehen.Prelude.Effects.{Result, ok}
use lehen.Integrations.Config.{config_value}
use lehen.Arcade.{Arcade}
use lehen.Arcade.Counts.{count_if-insert, select-insert_new}
use lehen.Hub.{Value, World, Host}
use lehen.Llm.Service.{raw_get, is_default}
use lehen.Storage.Bootstrap.{
  Server, has, doc_types, seed_document, ensure_database, create_if_missing, create_types,
  is_llm_config_empty, seed_llm_config, seed_if_empty, ensure_admin_schema,
}

module _ (server : Server) where
  open server use {Schema, database_exists, type_names, create_type}

  abbrev Has : Schema → String → Type 0
  Has s n = has n (type_names s) ≡ true

  Has-create_if_missing :
      (existing : List String) (name n : String) (s : Schema)
      → Has s n
      → Has (create_if_missing server existing name s) n
  Has-create_if_missing existing name n s h = elim (Bool-cases (has name existing)) [
    | inl there ↦ rw there h
    | inr missing ↦ elim (Bool-cases (name == n)) [
      | inl same ↦ rw (missing, server.has-create_type n name s, same) refl
      | inr other ↦ rw (missing, server.has-create_type n name s, other) h
    ]
  ]

  Has-created :
      (existing : List String) (name : String) (s : Schema)
      → (has name existing ≡ true → Has s name)
      → Has (create_if_missing server existing name s) name
  Has-created existing name s base = elim (Bool-cases (has name existing)) [
    | inl there ↦ rw there (base there)
    | inr missing ↦ rw (missing, server.has-create_type name name s, eq_refl name) refl
  ]

  Has-create_types :
      (existing names : List String) (n : String) (s : Schema)
      → Has s n
      → Has (create_types server existing names s).1 n
  unfolding create_types
  Has-create_types existing [] n s h = h
  Has-create_types existing (name ∷ names) n s h =
      Has-create_types existing names n (create_if_missing server existing name s)
        (Has-create_if_missing existing name n s h)

  create_types-All :
      (existing names : List String) (s : Schema)
      → ((n : String) → has n existing ≡ true → Has s n)
      → All (Has (create_types server existing names s).1) names
  unfolding create_types
  create_types-All existing [] s base = tt
  create_types-All existing (name ∷ names) s base =
      let next = create_if_missing server existing name s in
      (
        Has-create_types existing names name next (Has-created existing name s (base name)),
        create_types-All existing names next
            (λ n h. Has-create_if_missing existing name n s (base n h)),
      )

  create_types-database :
      (existing names : List String) (s : Schema)
      → database_exists (create_types server existing names s).1 ≡ database_exists s
  unfolding create_types
  create_types-database existing [] s = refl
  create_types-database existing (name ∷ names) s =
      create_types-database existing names (create_if_missing server existing name s)
      ∙ elim (Bool-cases (has name existing)) [
        | inl there ↦ rw there refl
        | inr missing ↦ rw missing (server.database_exists-create_type name s)
      ]

  create_types-none :
      (existing names : List String) (s : Schema)
      → All (λ n. has n existing ≡ true) names
      → create_types server existing names s ≡ ([], s)
  unfolding create_types
  create_types-none existing [] s h = refl
  create_types-none existing (name ∷ names) s h = rw (h.0) (create_types-none existing names s h.1)

  database_exists-ensure : (s : Schema) → database_exists (ensure_database server s) ≡ true
  database_exists-ensure s = elim (Bool-cases (database_exists s)) [
    | inl there ↦ rw there there
    | inr missing ↦ rw missing (server.database_exists-create_database s)
  ]

  module _ (arcade : Arcade) (host : Host) where
    -- The time that a start writes down, and the state after it was read.
    abbrev pub stamp : Option ℕ → World arcade → ℕ × World arcade
    stamp (some ts) w = (ts, w)
    stamp none w = (host.clock w.readings, record w { readings = w.readings + 1 })

    abbrev pub started :
        Option ℕ → Schema → World arcade → Result (List String) × (Schema × World arcade)
    started given s w = ensure_admin_schema server arcade host given (s, w)

    abbrev pub typed : Schema → List String × Schema
    typed s =
        create_types server (type_names (ensure_database server s)) doc_types
          (ensure_database server s)

    started-lem :
        (given : Option ℕ) (s : Schema) (w : World arcade)
        → started given s w ≡ (
          ok (typed s).0,
          ((typed s).1, seed_if_empty server arcade host (stamp given w).0 (stamp given w).1),
        )
    unfolding ensure_admin_schema
    started-lem none s w = refl
    started-lem (some ts) s w = refl

    seed_if_empty-filled :
        (ts : ℕ) (w : World arcade)
        → is_llm_config_empty server arcade host (seed_if_empty server arcade host ts w) ≡ false
    unfolding seed_llm_config
    seed_if_empty-filled ts w = elim (Bool-cases (is_llm_config_empty server arcade host w)) [
      | inr filled ↦ rw filled filled
      | inl empty ↦
          rw empty
            (ground (arith, count_if-insert arcade (λ row. true) (seed_document ts) w.llm_configs))
    ]

    stamp-filled :
        (given : Option ℕ) (w : World arcade)
        → is_llm_config_empty server arcade host (stamp given w).1
          ≡ is_llm_config_empty server arcade host w
    stamp-filled none w = refl
    stamp-filled (some ts) w = refl

    -- After a start there are the database, all the document types and a configuration of the
    -- LLMs, and a second start creates nothing, and changes nothing but the readings of the clock.
    pub ensure_admin_schema_idem :
        (given later : Option ℕ) (s : Schema) (w : World arcade)
        → All (Has (started given s w).1.0) doc_types
          × (database_exists (started given s w).1.0 ≡ true)
          × (is_llm_config_empty server arcade host (started given s w).1.1 ≡ false)
          × (ensure_admin_schema server arcade host later (started given s w).1
              ≡ (ok [], ((started given s w).1.0, (stamp later (started given s w).1.1).1)))
    ensure_admin_schema_idem given later s w =
        let s1 = ensure_database server s in
        let t = (typed s).1 in
        let v = seed_if_empty server arcade host (stamp given w).0 (stamp given w).1 in
        let all : All (Has t) doc_types =
          create_types-All (type_names s1) doc_types s1 (λ n h. h) in
        let there : database_exists t ≡ true =
          create_types-database (type_names s1) doc_types s1 ∙ database_exists-ensure s in
        let filled : is_llm_config_empty server arcade host v ≡ false =
          seed_if_empty-filled (stamp given w).0 (stamp given w).1 in
        let again : started later t v ≡ (ok [], (t, (stamp later v).1)) =
          started-lem later t v
          ∙ rw
              (
                there,
                create_types-none (type_names t) doc_types t all,
                stamp-filled later v,
                filled,
              )
              refl in
        subst
          (λ x.
            All (Has x.1.0) doc_types
            × (database_exists x.1.0 ≡ true)
            × (is_llm_config_empty server arcade host x.1.1 ≡ false)
            × (ensure_admin_schema server arcade host later x.1
                ≡ (ok [], (x.1.0, (stamp later x.1.1).1))))
          (sym (started-lem given s w)) (all, there, filled, again)

    empty-nil :
        (rows : List (List (String × Value)))
        → eqb (count_if (λ row. true) rows) 0 ≡ true
        → rows ≡ []
    empty-nil [] h = refl
    empty-nil (row ∷ rows) h = ground (arith, h)

    -- Where there was no configuration of the LLMs, the admin's service reads the seeded one after
    -- the start.
    pub started_reads :
        (given : Option ℕ) (s : Schema) (w : World arcade)
        → is_llm_config_empty server arcade host w ≡ true
        → raw_get arcade (started given s w).1.1
          ≡ (ok (seed_document (stamp given w).0), (started given s w).1.1)
    unfolding raw_get seed_llm_config config_value lookup
    started_reads given s w empty =
        let ts = (stamp given w).0 in
        let v = (stamp given w).1 in
        let none_stored : arcade.rows v.llm_configs ≡ [] =
          empty-nil (arcade.rows v.llm_configs) (stamp-filled given w ∙ empty) in
        let found =
          select-insert_new arcade is_default (seed_document ts) v.llm_configs refl
            (ap (λ l. filter is_default l) none_stored) in
        subst (λ x. raw_get arcade x.1.1 ≡ (ok (seed_document ts), x.1.1))
          (sym (started-lem given s w)) (rw (stamp-filled given w ∙ empty, found) refl)
