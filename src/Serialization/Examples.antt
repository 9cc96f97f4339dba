-- ===== src/Serialization/Examples.antt =====
-- The serializers at concrete inputs.
use database_management_syst.Prelude.{
  ◌≤◌, ◌≡◌, [], ◌∷◌, ◌++◌, true, false, some, none, length, replicate, length-replicate, arith,
}
use database_management_syst.Prelude.Int.{negsuc}
use database_management_syst.Status.{ok, err, invalid_argument}
use database_management_syst.Binary.{le_bytes}
use database_management_syst.Binary.Format.{
  uint32_bytes, uint64_bytes, int64_bytes, bool_bytes, string_bytes,
}
use database_management_syst.Value.{null, int, string, bool}
use database_management_syst.Schema.{int_column, string_column, TableDescriptor}
use database_management_syst.Serialization.Sequence.{sequence_bytes}
use database_management_syst.Serialization.Values.RoundTrip.{value_bytes}
use database_management_syst.Serialization.Rows.{
  Tuple, Row, serialize_tuple, deserialize_tuple, serialize_row, deserialize_row,
}
use database_management_syst.Serialization.Rows.RoundTrip.{
  tuple_bytes, deserialize_row-serialize, deserialize_tuple_too_long,
}
use database_management_syst.Serialization.Catalog.{
  serialize_table_descriptor, deserialize_table_descriptor,
}
use database_management_syst.Serialization.Catalog.RoundTrip.{
  deserialize_table_descriptor-serialize,
}
use database_management_syst.Serialization.Bounds.{deserialize_row_within}

abbrev person : Row
person = record {
  rid = 7;
  tuple = int (negsuc 4) ∷ string (b'a' ∷ b'b' ∷ []) ∷ null ∷ bool true ∷ [];
  deleted = true;
}

deserialize_row-serialize_example :
    deserialize_row (serialize_row person (1 ∷ 2 ∷ []) ++ (9 ∷ [])) 2
    ≡ ok (person, length (serialize_row person (1 ∷ 2 ∷ [])))
unfolding tuple_bytes value_bytes sequence_bytes uint32_bytes uint64_bytes int64_bytes bool_bytes
    string_bytes le_bytes
deserialize_row-serialize_example =
    deserialize_row-serialize person (1 ∷ 2 ∷ []) (9 ∷ []) (omega arith)

long_tuple : Tuple
long_tuple = replicate 1048577 null

length-long_tuple : length long_tuple ≡ 1048577
unfolding long_tuple
length-long_tuple = length-replicate 1048577 null

deserialize_tuple_too_long_example :
    deserialize_tuple (serialize_tuple long_tuple [] ++ []) 0 ≡ err invalid_argument
deserialize_tuple_too_long_example =
    deserialize_tuple_too_long long_tuple [] [] (omega (arith, length-long_tuple))
      (omega (arith, length-long_tuple))

abbrev people : TableDescriptor
people = record {
  database_name = b'd' ∷ [];
  table_name = b't' ∷ [];
  data_file = b'f' ∷ [];
  index_dir = [];
  schema =
      record {
        name = b'n' ∷ [];
        type = int_column;
        not_null = true;
        indexed = true;
        default_value = none;
      }
      ∷ record {
        name = b's' ∷ [];
        type = string_column;
        not_null = false;
        indexed = false;
        default_value = some (string (b'x' ∷ []));
      }
      ∷ [];
  indexes =
      record {
        name = b'i' ∷ [];
        table_name = b't' ∷ [];
        column_name = b'n' ∷ [];
        file_path = b'p' ∷ [];
        unique = true;
      }
      ∷ [];
}

deserialize_table_descriptor-serialize_example :
    deserialize_table_descriptor (serialize_table_descriptor people [] ++ (3 ∷ [])) 0
    ≡ ok (people, length (serialize_table_descriptor people []))
deserialize_table_descriptor-serialize_example =
    deserialize_table_descriptor-serialize people [] (3 ∷ []) (omega arith)

deserialize_row_within_example :
    (2 ≤ length (serialize_row person (1 ∷ 2 ∷ [])))
    × (length (serialize_row person (1 ∷ 2 ∷ []))
        ≤ length (serialize_row person (1 ∷ 2 ∷ []) ++ (9 ∷ [])))
deserialize_row_within_example =
    deserialize_row_within (serialize_row person (1 ∷ 2 ∷ []) ++ (9 ∷ [])) 2 _ person
      deserialize_row-serialize_example
