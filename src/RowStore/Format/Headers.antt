-- ===== src/RowStore/Format/Headers.antt =====
-- The header of a data page is read back from the front of the page.
use database_management_syst.Prelude.{
  ◌^◌, ◌<◌, ◌≡◌, refl, ap, subst, ◌∙◌, ◌++◌, false, ltb, length, arith, append_assoc, length-append,
  ge→ltb,
}
use database_management_syst.Status.{ok}
use database_management_syst.Binary.{Bytes, le_bytes}
use database_management_syst.Binary.Cursor.{Cursor, Cursor-append, Yields-then}
use database_management_syst.Binary.Format.{uint64_bytes, writes, uint32_bytes}
use database_management_syst.Binary.RoundTrip.{read_uint32-bytes, length-le_bytes}
use database_management_syst.Value.{eq_bytes}
use database_management_syst.RowStore.Format.{
  Metadata, serialize_metadata, DataPageHeader, data_page_magic, serialize_data_page_header,
  deserialize_data_page_header, page_header_size,
}

header_tail : DataPageHeader → Bytes
header_tail h = uint32_bytes h.version ++ (uint32_bytes h.entry_count ++ uint32_bytes h.used_bytes)

header-eq : (h : DataPageHeader) → serialize_data_page_header h ≡ data_page_magic ++ header_tail h
unfolding serialize_data_page_header header_tail
header-eq h = simp writes

length-header_tail : (h : DataPageHeader) → length (header_tail h) ≡ 12
unfolding header_tail uint32_bytes
length-header_tail h = omega (
  arith,
  length-append (le_bytes 4 h.version) (le_bytes 4 h.entry_count ++ le_bytes 4 h.used_bytes),
  length-append (le_bytes 4 h.entry_count) (le_bytes 4 h.used_bytes),
  length-le_bytes 4 h.version,
  length-le_bytes 4 h.entry_count,
  length-le_bytes 4 h.used_bytes,
)

header_tail-append :
    (h : DataPageHeader) (rest : Bytes)
    → header_tail h ++ rest
      ≡ uint32_bytes h.version
        ++ (uint32_bytes h.entry_count ++ (uint32_bytes h.used_bytes ++ rest))
unfolding header_tail
header_tail-append h rest =
    rw
      (
        append_assoc (uint32_bytes h.version)
            (uint32_bytes h.entry_count ++ uint32_bytes h.used_bytes) rest,
        append_assoc (uint32_bytes h.entry_count) (uint32_bytes h.used_bytes) rest,
      )
      refl

-- The header of a data page is read back from the front of the page.
deserialize_header-bytes :
    (h : DataPageHeader) (rest : Bytes)
    → h.version < 2 ^ 32
    → h.entry_count < 2 ^ 32
    → h.used_bytes < 2 ^ 32
    → deserialize_data_page_header (data_page_magic ++ (header_tail h ++ rest)) ≡ ok h
unfolding deserialize_data_page_header eq_bytes
deserialize_header-bytes h rest v e u = rw long (
    Yields-then _ (read_uint32-bytes h.version v start) λ _ c1.
      Yields-then _ (read_uint32-bytes h.entry_count e c1)
        λ _ c2. Yields-then _ (read_uint32-bytes h.used_bytes u c2) λ _ c3. refl)
  where
    long : ltb (length (data_page_magic ++ (header_tail h ++ rest))) 8 ≡ false
    long = ge→ltb (length (data_page_magic ++ (header_tail h ++ rest))) 8 (omega arith)

    start : Cursor (data_page_magic ++ (header_tail h ++ rest)) 8 (
        uint32_bytes h.version
        ++ (uint32_bytes h.entry_count ++ (uint32_bytes h.used_bytes ++ rest)))
    start =
        subst (Cursor (data_page_magic ++ (header_tail h ++ rest)) 8) (header_tail-append h rest)
          (Cursor-append data_page_magic (header_tail h ++ rest))

pub length-header : (h : DataPageHeader) → length (serialize_data_page_header h) ≡ page_header_size
length-header h = ap length (header-eq h) ∙ omega (arith, length-header_tail h)

pub header_of_page :
    (h : DataPageHeader) (xs rest : Bytes)
    → h.version < 2 ^ 32
    → h.entry_count < 2 ^ 32
    → h.used_bytes < 2 ^ 32
    → deserialize_data_page_header ((serialize_data_page_header h ++ xs) ++ rest) ≡ ok h
header_of_page h xs rest v e u =
    let flat : (serialize_data_page_header h ++ xs) ++ rest
        ≡ data_page_magic ++ (header_tail h ++ (xs ++ rest)) =
      rw (header-eq h) (append_assoc (data_page_magic ++ header_tail h) xs rest) in
    ap deserialize_data_page_header flat ∙ deserialize_header-bytes h (xs ++ rest) v e u

pub length-serialize_metadata : (m : Metadata) → length (serialize_metadata m) ≡ 36
unfolding serialize_metadata uint32_bytes uint64_bytes
length-serialize_metadata m = simp (writes, length-append, length-le_bytes) (omega arith)
