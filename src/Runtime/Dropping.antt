-- ===== src/Runtime/Dropping.antt =====
-- What stays open when a table or a database is dropped.
use database_management_syst.Prelude.{
  ◌≡◌, refl, ap, subst, ◌∙◌, inl, inr, List, [], ◌∷◌, ◌++◌, append_assoc, Bool, Bool-cases, true,
  false, if◌then◌else◌, none, arith,
}
use database_management_syst.Prelude.Text.{codes}
use database_management_syst.Binary.{Bytes}
use database_management_syst.Value.{eq_bytes}
use database_management_syst.Value.Order.{eq_bytes→eq}
use database_management_syst.Schema.{TableDescriptor}
use database_management_syst.Catalog.Files.{starts_with}
use database_management_syst.Runtime.Parts.{
  NodeParts, NodeEngine, make_cache_key, ensure_started, opened_table, is_opened,
}
use database_management_syst.Runtime.Operations.{
  kept_tables, kept_logs, close_tables, close_all_of, drop_database,
}

module _ (closes : Bytes → Bool) (key : Bytes) where
  opened_table-kept_tables :
      (opened : List (Bytes × TableDescriptor))
      → opened_table key (kept_tables closes opened)
        ≡ (if closes key then none else opened_table key opened)
  unfolding opened_table kept_tables
  opened_table-kept_tables [] = elim (Bool-cases (closes key)) [
    | inl e ↦ rw e refl
    | inr e ↦ rw e refl
  ]
  opened_table-kept_tables ((first, descriptor) ∷ opened) =
      let rest = opened_table-kept_tables opened in
      elim (Bool-cases (eq_bytes first key)) [
        | inl e ↦
            let same : closes first ≡ closes key = ap closes (eq_bytes→eq first key e) in
            elim (Bool-cases (closes key)) [
              | inl f ↦ rw (same, f) (rw f at rest)
              | inr f ↦ rw (same, f, e) refl
            ]
        | inr e ↦ elim (Bool-cases (closes first)) [
          | inl f ↦ rw (f, e) rest
          | inr f ↦ rw (f, e) rest
        ]
      ]

  is_opened-kept_logs :
      (opened : List Bytes)
      → is_opened key (kept_logs closes opened)
        ≡ (if closes key then false else is_opened key opened)
  unfolding is_opened kept_logs
  is_opened-kept_logs [] = elim (Bool-cases (closes key)) [ inl e ↦ rw e refl | inr e ↦ rw e refl ]
  is_opened-kept_logs (first ∷ opened) =
      let rest = is_opened-kept_logs opened in
      elim (Bool-cases (eq_bytes first key)) [
        | inl e ↦
            let same : closes first ≡ closes key = ap closes (eq_bytes→eq first key e) in
            elim (Bool-cases (closes key)) [
              | inl f ↦ rw (same, f) (rw f at rest)
              | inr f ↦ rw (same, f, e) refl
            ]
        | inr e ↦ elim (Bool-cases (closes first)) [
          | inl f ↦ rw (f, e) rest
          | inr f ↦ rw (f, e) rest
        ]
      ]

starts_with-append : (prefix rest : Bytes) → starts_with prefix (prefix ++ rest) ≡ true
unfolding starts_with
starts_with-append [] rest = refl
starts_with-append (c ∷ prefix) rest = ground (arith, starts_with-append prefix rest)

-- Exactly the keys that are closed are not open any more, of tables and of logs.
abbrev pub Closes : {P : Type 0} → (Bytes → Bool) → NodeEngine P → NodeEngine P → Type 0
Closes closes e e' =
    (key : Bytes)
    → (opened_table key e'.opened_tables
        ≡ (if closes key then none else opened_table key e.opened_tables))
      × (is_opened key e'.opened_version_logs
          ≡ (if closes key then false else is_opened key e.opened_version_logs))

module _ {P : Type 0} (parts : NodeParts P) (db_name : Bytes) (e : NodeEngine P)
    (started : e.started ≡ true) where
  -- While the engine is started, DropDatabase, whether the catalog then succeeds or fails, closes
  -- the open tables and version logs whose keys start with the database's name and two colons, every
  -- table of the database among them, and leaves every other one open that was.
  pub drop_database-Closes :
      let e' = (drop_database parts db_name e).1 in
      Closes (starts_with (db_name ++ codes "::")) e e'
      × ((table_name : Bytes)
          → opened_table (make_cache_key db_name table_name) e'.opened_tables ≡ none)
  unfolding drop_database close_all_of close_tables ensure_started make_cache_key
  drop_database-Closes = (
    closed,
    λ table_name. (closed (make_cache_key db_name table_name)).0 ∙ rw (covered table_name) refl,
  )
    where
      closed : Closes (starts_with (db_name ++ codes "::")) e (drop_database parts db_name e).1
      closed key = rw started (
        opened_table-kept_tables (starts_with (db_name ++ codes "::")) key e.opened_tables,
        is_opened-kept_logs (starts_with (db_name ++ codes "::")) key e.opened_version_logs,
      )

      covered :
          (table_name : Bytes)
          → starts_with (db_name ++ codes "::") (make_cache_key db_name table_name) ≡ true
      covered table_name =
          subst (λ key. starts_with (db_name ++ codes "::") key ≡ true)
            (append_assoc db_name (codes "::") table_name)
            (starts_with-append (db_name ++ codes "::") table_name)
