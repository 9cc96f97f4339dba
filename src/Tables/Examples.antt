-- ===== src/Tables/Examples.antt =====
-- Tuples prepared for a concrete schema.
use database_management_syst.Prelude.{◌≡◌, refl, [], ◌∷◌, true, false, some, none, take, length}
use database_management_syst.Prelude.Int.{pos}
use database_management_syst.Status.{ok}
use database_management_syst.Value.{null, int, bool}
use database_management_syst.Schema.{TableSchema, int_column, bool_column, string_column}
use database_management_syst.Serialization.Rows.{Tuple}
use database_management_syst.Tables.{prepare_tuple, fill_columns, validate_value, missing_value}
use database_management_syst.Tables.Prepared.{prepare_tuple_again}

-- A required number, a flag that is true by default, and a name.
abbrev people : TableSchema
people =
    record {
      name = b'i' ∷ [];
      type = int_column;
      not_null = true;
      indexed = true;
      default_value = none;
    }
    ∷ record {
      name = b'f' ∷ [];
      type = bool_column;
      not_null = true;
      indexed = false;
      default_value = some (bool true);
    }
    ∷ record {
      name = b'n' ∷ [];
      type = string_column;
      not_null = false;
      indexed = false;
      default_value = none;
    }
    ∷ []

abbrev given : Tuple
given = int (pos 4) ∷ []

abbrev filled : Tuple
filled = int (pos 4) ∷ bool true ∷ null ∷ []

prepare_given : prepare_tuple people given ≡ ok filled
unfolding prepare_tuple fill_columns validate_value missing_value
prepare_given = refl

prepare_tuple_again_example :
    (3 ≡ length people) × (take 1 filled ≡ given) × (prepare_tuple people filled ≡ ok filled)
prepare_tuple_again_example = prepare_tuple_again people given filled prepare_given
