-- ===== src/Catalog/Paths.antt =====
-- The paths of tables' metadata tell the tables apart.
use mathlib.Core.List.{append_cancel_left, append_cancel_right}
use database_management_syst.Prelude.{
  not, ◌≡◌, refl, sym, ◌∙◌, [], ◌∷◌, ◌++◌, append_assoc, Bool, true, false, ◌||◌, ◌==◌, arith,
}
use database_management_syst.Prelude.Text.{codes, is_space}
use database_management_syst.Binary.{Bytes}
use database_management_syst.Catalog.Files.{
  has_slash, table_meta_path, catalog_dir_path, database_path,
}
use database_management_syst.Catalog.Checks.{scan_name, is_valid_name}

scan_name-has_slash :
    (name : Bytes) (prev_dot has_non_space : Bool)
    → scan_name name prev_dot has_non_space ≡ true
    → has_slash name ≡ false
unfolding scan_name has_slash
scan_name-has_slash [] p h e = refl
scan_name-has_slash (ch ∷ name) p h e =
    ground (arith, scan_name-has_slash name (ch == b'.') (h || not (is_space ch)))

pub is_valid_name-has_slash : (name : Bytes) → is_valid_name name ≡ true → has_slash name ≡ false
unfolding is_valid_name
is_valid_name-has_slash name e = scan_name-has_slash name false false e

-- Texts up to the first slash.
split_slash :
    (a b x y : Bytes)
    → has_slash a ≡ false
    → has_slash b ≡ false
    → a ++ (b'/' ∷ x) ≡ b ++ (b'/' ∷ y)
    → (a ≡ b) × (x ≡ y)
unfolding has_slash
split_slash [] [] x y ha hb e = (refl, cc)
split_slash [] (d ∷ b) x y ha hb e = absurd (ground (arith, e, hb))
split_slash (c ∷ a) [] x y ha hb e = absurd (ground (arith, e, ha))
split_slash (c ∷ a) (d ∷ b) x y ha hb e =
    let (same, rest) = split_slash a b x y (ground (arith, ha)) (ground (arith, hb)) (cc) in
    (cc, rest)

meta_path_eq :
    (root_dir db_name table_name : Bytes)
    → table_meta_path root_dir db_name table_name
      ≡ root_dir ++ (b'/' ∷ (db_name ++ (codes "/catalog/" ++ (table_name ++ codes ".meta"))))
unfolding table_meta_path catalog_dir_path database_path
meta_path_eq root_dir db_name table_name = simp append_assoc

pub table_meta_path_injective :
    (root_dir db t db' t' : Bytes)
    → has_slash db ≡ false
    → has_slash db' ≡ false
    → table_meta_path root_dir db t ≡ table_meta_path root_dir db' t'
    → (db ≡ db') × (t ≡ t')
table_meta_path_injective root_dir db t db' t' h h' e =
    let same = sym (meta_path_eq root_dir db t) ∙ e ∙ meta_path_eq root_dir db' t' in
    let tails : db ++ (codes "/catalog/" ++ (t ++ codes ".meta"))
        ≡ db' ++ (codes "/catalog/" ++ (t' ++ codes ".meta")) =
      append_cancel_left (root_dir ++ codes "/") _ _ (simp append_assoc same) in
    let (dbs, rest) = split_slash db db' _ _ h h' tails in
    (dbs, append_cancel_right t t' (codes ".meta") (append_cancel_left (codes "catalog/") _ _ rest))
