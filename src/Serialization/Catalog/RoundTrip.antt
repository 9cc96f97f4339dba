-- ===== src/Serialization/Catalog/RoundTrip.antt =====
-- The metadata of a table is read back as it was written.
use database_management_syst.Prelude.{
  ℕ, ◌%◌, ◌^◌, ◌<◌, ◌≤◌, ◌≡◌, subst, sym, ◌++◌, true, false, Option, none, some, length, All, arith,
  append_assoc, refl,
}
use database_management_syst.Status.{Result, ok, ◌>>=◌}
use database_management_syst.Binary.{Bytes, read_uint32, read_bool}
use database_management_syst.Binary.Cursor.{Cursor, Yields, Yields-bind, Yields-ok, read_back}
use database_management_syst.Binary.Format.{writes, uint32_bytes, bool_bytes, string_bytes}
use database_management_syst.Binary.RoundTrip.{
  read_uint32-bytes, read_string-bytes, read_bool-bytes,
}
use database_management_syst.Value.{Value}
use database_management_syst.Schema.{
  ColumnType, int_column, string_column, bool_column, unknown, ColumnSchema, TableSchema,
  IndexDescriptor, TableDescriptor,
}
use database_management_syst.Serialization.Sequence.{
  sequence_bytes, write_sequence-eq, read_sequence-bytes,
}
use database_management_syst.Serialization.Values.RoundTrip.{
  IsStorable, value_bytes, serialize_value-eq, deserialize_value-bytes,
}
use database_management_syst.Serialization.Catalog.{
  column_type_number, column_type_of, write_default, serialize_column_schema, read_default,
  deserialize_column_schema, serialize_table_schema, deserialize_table_schema,
  serialize_index_descriptor, deserialize_index_descriptor, serialize_table_descriptor,
  deserialize_table_descriptor,
}
use native.Mathlib.Nat.{mod-eq_of_lt}

-- What the format can hold: texts and lists whose size fits 32 bits, storable defaults, and a
-- column type that its number stands for.
abbrev pub IsShort : Bytes → Type 0
IsShort text = length text < 2 ^ 32

abbrev pub IsStorableType : ColumnType → Type 0
IsStorableType (unknown n) = (3 ≤ n) × (n < 2 ^ 32)
IsStorableType t = Unit {0}

abbrev pub IsStorableDefault : Option Value → Type 0
IsStorableDefault none = Unit {0}
IsStorableDefault (some v) = IsStorable v

abbrev pub IsStorableColumn : ColumnSchema → Type 0
IsStorableColumn c = IsShort c.name × IsStorableType c.type × IsStorableDefault c.default_value

abbrev pub IsStorableSchema : TableSchema → Type 0
IsStorableSchema s = (length s < 2 ^ 32) × All IsStorableColumn s

abbrev pub IsStorableIndex : IndexDescriptor → Type 0
IsStorableIndex i =
    IsShort i.name × IsShort i.table_name × IsShort i.column_name × IsShort i.file_path

abbrev pub IsStorableDescriptor : TableDescriptor → Type 0
IsStorableDescriptor d =
    IsShort d.database_name
    × IsShort d.table_name
    × IsShort d.data_file
    × IsShort d.index_dir
    × IsStorableSchema d.schema
    × (length d.indexes < 2 ^ 32)
    × All IsStorableIndex d.indexes

column_type_number-lt : (t : ColumnType) → IsStorableType t → column_type_number t < 2 ^ 32
unfolding column_type_number
column_type_number-lt int_column h = omega arith
column_type_number-lt string_column h = omega arith
column_type_number-lt bool_column h = omega arith
column_type_number-lt (unknown n) h = h.1

column_type_of-number :
    (t : ColumnType) → IsStorableType t → column_type_of (column_type_number t) ≡ t
unfolding column_type_number column_type_of
column_type_of-number int_column h = refl
column_type_of-number string_column h = refl
column_type_of-number bool_column h = refl
column_type_of-number (unknown n) h = ground arith

-- The format.
pub default_bytes : Option Value → Bytes
default_bytes none = bool_bytes false
default_bytes (some v) = bool_bytes true ++ value_bytes v

pub column_bytes : ColumnSchema → Bytes
column_bytes c =
    string_bytes c.name
    ++ (uint32_bytes (column_type_number c.type % 2 ^ 32)
        ++ (bool_bytes c.not_null ++ (bool_bytes c.indexed ++ default_bytes c.default_value)))

pub schema_bytes : TableSchema → Bytes
schema_bytes s = uint32_bytes (length s % 2 ^ 32) ++ sequence_bytes column_bytes s

pub index_bytes : IndexDescriptor → Bytes
index_bytes i =
    string_bytes i.name
    ++ (string_bytes i.table_name
        ++ (string_bytes i.column_name ++ (string_bytes i.file_path ++ bool_bytes i.unique)))

unfoldable pub descriptor_bytes : TableDescriptor → Bytes
descriptor_bytes d =
    string_bytes d.database_name
    ++ (string_bytes d.table_name
        ++ (string_bytes d.data_file
            ++ (string_bytes d.index_dir
                ++ (schema_bytes d.schema
                    ++ (uint32_bytes (length d.indexes % 2 ^ 32)
                        ++ sequence_bytes index_bytes d.indexes)))))

write_default-eq : (d : Option Value) (b : Bytes) → write_default d b ≡ b ++ default_bytes d
unfolding write_default default_bytes
write_default-eq none b = simp writes
write_default-eq (some v) b = simp (serialize_value-eq, writes)

column-eq : (c : ColumnSchema) (b : Bytes) → serialize_column_schema c b ≡ b ++ column_bytes c
unfolding serialize_column_schema column_bytes
column-eq c b = simp (write_default-eq, writes)

schema-eq : (s : TableSchema) (b : Bytes) → serialize_table_schema s b ≡ b ++ schema_bytes s
unfolding serialize_table_schema schema_bytes
schema-eq s b = simp (write_sequence-eq serialize_column_schema column_bytes column-eq, writes)

index-eq : (i : IndexDescriptor) (b : Bytes) → serialize_index_descriptor i b ≡ b ++ index_bytes i
unfolding serialize_index_descriptor index_bytes
index-eq i b = simp writes

pub serialize_table_descriptor-eq :
    (d : TableDescriptor) (b : Bytes) → serialize_table_descriptor d b ≡ b ++ descriptor_bytes d
unfolding serialize_table_descriptor descriptor_bytes
serialize_table_descriptor-eq d b =
    simp (write_sequence-eq serialize_index_descriptor index_bytes index-eq, schema-eq, writes)

-- A count or number that fits 32 bits is not changed by the cast.
read_cast :
    (n : ℕ) {bytes : Bytes} {off : ℕ} {rest : Bytes}
    → n < 2 ^ 32
    → Cursor bytes off (uint32_bytes (n % 2 ^ 32) ++ rest)
    → Yields (read_uint32 bytes off) n bytes rest
read_cast n {bytes} {off} {rest} h c =
    read_uint32-bytes n h
      (subst (λ k. Cursor bytes off (uint32_bytes k ++ rest)) (mod-eq_of_lt h) c)

read_default-bytes :
    (d : Option Value) {bytes : Bytes} {off : ℕ} {rest : Bytes} {B : Type 0} {b : B} {last : Bytes}
    (k : Option Value × ℕ → Result (B × ℕ))
    → IsStorableDefault d
    → Cursor bytes off (default_bytes d ++ rest)
    → ((next : ℕ) → Cursor bytes next rest → Yields (k (d, next)) b bytes last)
    → Yields (do (has, o) ← read_bool bytes off; read_default has bytes o >>= k) b bytes last
unfolding default_bytes read_default
read_default-bytes none k h c f = Yields-bind _ (read_bool-bytes false c) f
read_default-bytes (some v) k h c f =
    Yields-bind _ (read_bool-bytes true (rw append_assoc at c))
      λ _ c1. Yields-bind _ (Yields-bind _ (deserialize_value-bytes v h c1) λ _ c2. Yields-ok c2) f

read_column-bytes :
    (c : ColumnSchema) (bytes : Bytes) (off : ℕ) (rest : Bytes)
    → IsStorableColumn c
    → Cursor bytes off (column_bytes c ++ rest)
    → Yields (deserialize_column_schema bytes off) c bytes rest
unfolding deserialize_column_schema column_bytes
read_column-bytes c bytes off rest (hn, ht, hd) start =
    Yields-bind _ (read_string-bytes c.name hn (simp append_assoc at start)) λ _ c1.
      Yields-bind _ (read_cast (column_type_number c.type) (column_type_number-lt c.type ht) c1)
        λ _ c2. Yields-bind _ (read_bool-bytes c.not_null c2) λ _ c3.
          Yields-bind _ (read_bool-bytes c.indexed c3) λ _ c4.
            read_default-bytes c.default_value _ hd c4 λ next c5.
              subst (λ t. Yields (ok (record c { type = t }, next)) c bytes rest)
                (sym (column_type_of-number c.type ht)) (Yields-ok c5)

read_schema-bytes :
    (s : TableSchema) {bytes : Bytes} {off : ℕ} {rest : Bytes}
    → IsStorableSchema s
    → Cursor bytes off (schema_bytes s ++ rest)
    → Yields (deserialize_table_schema bytes off) s bytes rest
unfolding deserialize_table_schema schema_bytes
read_schema-bytes s (n, h) c = Yields-bind _ (read_cast (length s) n (rw append_assoc at c)) λ _ c1.
    read_sequence-bytes deserialize_column_schema column_bytes IsStorableColumn read_column-bytes s
      h c1

read_index-bytes :
    (i : IndexDescriptor) (bytes : Bytes) (off : ℕ) (rest : Bytes)
    → IsStorableIndex i
    → Cursor bytes off (index_bytes i ++ rest)
    → Yields (deserialize_index_descriptor bytes off) i bytes rest
unfolding deserialize_index_descriptor index_bytes
read_index-bytes i bytes off rest (h1, h2, h3, h4) c =
    Yields-bind _ (read_string-bytes i.name h1 (simp append_assoc at c)) λ _ c1.
      Yields-bind _ (read_string-bytes i.table_name h2 c1) λ _ c2.
        Yields-bind _ (read_string-bytes i.column_name h3 c2) λ _ c3.
          Yields-bind _ (read_string-bytes i.file_path h4 c3)
            λ _ c4. Yields-bind _ (read_bool-bytes i.unique c4) λ _ c5. Yields-ok c5

pub deserialize_table_descriptor-bytes :
    (d : TableDescriptor) {bytes : Bytes} {off : ℕ} {rest : Bytes}
    → IsStorableDescriptor d
    → Cursor bytes off (descriptor_bytes d ++ rest)
    → Yields (deserialize_table_descriptor bytes off) d bytes rest
unfolding deserialize_table_descriptor descriptor_bytes
deserialize_table_descriptor-bytes d (h1, h2, h3, h4, hs, n, hi) c =
    Yields-bind _ (read_string-bytes d.database_name h1 (simp append_assoc at c)) λ _ c1.
      Yields-bind _ (read_string-bytes d.table_name h2 c1) λ _ c2.
        Yields-bind _ (read_string-bytes d.data_file h3 c2) λ _ c3.
          Yields-bind _ (read_string-bytes d.index_dir h4 c3) λ _ c4.
            Yields-bind _ (read_schema-bytes d.schema hs c4) λ _ c5.
              Yields-bind _ (read_cast (length d.indexes) n c5) λ _ c6.
                Yields-bind _
                  (read_sequence-bytes deserialize_index_descriptor index_bytes IsStorableIndex
                    read_index-bytes d.indexes hi c6)
                  λ _ c7. Yields-ok c7

-- The metadata of a table (names, paths, columns with their defaults, indexes) is read back from the
-- buffer that it was written to, if the format can hold it, and the reader stops where it ends.
pub deserialize_table_descriptor-serialize :
    (d : TableDescriptor) (buffer rest : Bytes)
    → IsStorableDescriptor d
    → deserialize_table_descriptor (serialize_table_descriptor d buffer ++ rest) (length buffer)
      ≡ ok (d, length (serialize_table_descriptor d buffer))
deserialize_table_descriptor-serialize d buffer rest h =
    read_back deserialize_table_descriptor d buffer (descriptor_bytes d) rest
      (serialize_table_descriptor-eq d buffer) (λ bytes off. deserialize_table_descriptor-bytes d h)
