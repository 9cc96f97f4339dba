-- ===== src/RowStore/Format/Examples.antt =====
-- Data pages at concrete rows.
use database_management_syst.Prelude.{
  ◌≡◌, true, false, List, [], ◌∷◌, ◌++◌, length-append, All, length, arith,
}
use database_management_syst.Prelude.Int.{pos}
use database_management_syst.Status.{ok}
use database_management_syst.Binary.{Bytes, le_bytes}
use database_management_syst.Binary.Format.{
  uint32_bytes, uint64_bytes, int64_bytes, bool_bytes, string_bytes,
}
use database_management_syst.Value.{int, null}
use database_management_syst.Serialization.Sequence.{sequence_bytes}
use database_management_syst.Serialization.Values.RoundTrip.{value_bytes}
use database_management_syst.Serialization.Rows.{Row}
use database_management_syst.Serialization.Rows.RoundTrip.{tuple_bytes, row_bytes}
use database_management_syst.RowStore.Format.{
  encode_page, decode_page, entries_payload, serialize_row_entry,
}
use database_management_syst.RowStore.Format.Entries.{IsStorableEntry, length-entry}
use database_management_syst.RowStore.Format.RoundTrip.{decode_page-encode_page}

abbrev first_row : Row
first_row = record { rid = 0; tuple = int (pos 3) ∷ []; deleted = true }

abbrev second_row : Row
second_row = record { rid = 1; tuple = null ∷ []; deleted = false }

abbrev two_rows : List Row
two_rows = first_row ∷ second_row ∷ []

two_rows-All : All IsStorableEntry two_rows
unfolding row_bytes tuple_bytes value_bytes sequence_bytes uint32_bytes uint64_bytes int64_bytes
    bool_bytes string_bytes le_bytes
two_rows-All = omega arith

entry_sizes :
    (length (serialize_row_entry first_row) ≡ 41) × (length (serialize_row_entry second_row) ≡ 33)
unfolding row_bytes tuple_bytes value_bytes sequence_bytes uint32_bytes uint64_bytes int64_bytes
    bool_bytes string_bytes le_bytes
entry_sizes =
    omega
      (arith, length-entry first_row (two_rows-All.0), length-entry second_row (two_rows-All.1.0))

payload_size : length (entries_payload two_rows) ≡ 74
unfolding entries_payload
payload_size = omega (
  arith,
  entry_sizes.0,
  entry_sizes.1,
  length-append (serialize_row_entry first_row) (serialize_row_entry second_row ++ []),
  length-append (serialize_row_entry second_row) [],
)

decode_page-encode_page_example :
    (image : Bytes) × ((encode_page 100 two_rows ≡ ok image)
      × (length image ≡ 100)
      × (decode_page image ≡ ok two_rows))
decode_page-encode_page_example =
    decode_page-encode_page 100 two_rows two_rows-All (omega arith) (omega (arith, payload_size))
