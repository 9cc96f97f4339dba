-- ===== src/Pages.antt =====
-- storage/page_manager.cpp: a file of equal pages behind a header of 32 bytes. The file is its
-- bytes; `none` is a path where no file is. The operating system's calls are taken to succeed: the
-- directory can be made, the file opened, and a seek or a write done. Reading past the end fails.
pub mod Contents
pub mod ReadWrite
pub mod Reopen
mod Examples
use database_management_syst.Prelude.{
  ℕ, ◌+◌, ◌-◌, ◌*◌, ◌/◌, ◌%◌, ◌^◌, List, [], ◌∷◌, ◌++◌, Bool, true, false, not, ◌||◌, ltb, leb,
  ◌==◌, if◌then◌else◌, Option, some, none, length, replicate,
}
use database_management_syst.Prelude.Sets.{is_empty}
use database_management_syst.Prelude.Slices.{slice, overwrite}
use database_management_syst.Status.{
  Result, ok, err, StatusCode, invalid_argument, internal_error, not_found, io_error,
}
use database_management_syst.Binary.{Bytes, le_bytes, le_value}
use database_management_syst.Value.{eq_bytes}

pub record PageManager : Type 0 where
  pub file_path : Bytes
  pub page_size : ℕ
  pub file : Option Bytes
  pub is_open : Bool
  pub page_count : ℕ

pub record Page : Type 0 where
  pub id : ℕ
  pub bytes : Bytes

-- kPageFileMagic, kPageFileVersion, HeaderSize()
abbrev pub page_file_magic : Bytes
page_file_magic = b'C' ∷ b'D' ∷ b'B' ∷ b'P' ∷ b'A' ∷ b'G' ∷ b'E' ∷ b'1' ∷ []

abbrev pub page_file_version : ℕ
page_file_version = 1

abbrev pub header_size : ℕ
header_size = 32

-- The structure's memory: four bytes of padding follow the version.
unfoldable pub make_header : ℕ → ℕ → Bytes
make_header page_size page_count =
    page_file_magic
    ++ (le_bytes 4 page_file_version
        ++ (le_bytes 4 0 ++ (le_bytes 8 page_size ++ le_bytes 8 page_count)))

abbrev pub contents : PageManager → Bytes
contents m = elim m.file [ none ↦ [] | some bytes ↦ bytes ]

pub write_header : Bytes → ℕ → ℕ → Bytes
write_header bytes page_size page_count = overwrite bytes 0 (make_header page_size page_count)

abbrev pub header_magic : Bytes → Bytes
header_magic = slice 0 8

abbrev pub header_version : Bytes → ℕ
header_version bytes = le_value (slice 8 4 bytes)

abbrev pub header_page_size : Bytes → ℕ
header_page_size bytes = le_value (slice 16 8 bytes)

abbrev pub header_page_count : Bytes → ℕ
header_page_count bytes = le_value (slice 24 8 bytes)

abbrev pub page_offset : ℕ → ℕ → ℕ
page_offset id page_size = header_size + id * page_size

-- A call returns its status, with what it outputs, and the new state.
abbrev pub Outcome : Type 0 → Type 0
Outcome A = Result A × PageManager

-- The checks of `Open` on the bytes that it finds, and the state that they lead to.
check_file : PageManager → Bytes → Outcome (Unit {0})
check_file m bytes =
    let payload_size = length bytes - header_size in
    if ltb (length bytes) header_size
    then (err invalid_argument, m)
    else if not (eq_bytes (header_magic bytes) page_file_magic)
    then (err invalid_argument, m)
    else if not (header_version bytes == page_file_version)
    then (err invalid_argument, m)
    else if not (header_page_size bytes == m.page_size)
    then (err invalid_argument, m)
    else if not (payload_size % m.page_size == 0)
    then (err invalid_argument, m)
    else if not (header_page_count bytes == payload_size / m.page_size)
    then (err invalid_argument, m)
    else (ok tt, record m { is_open = true; page_count = payload_size / m.page_size })

-- The file is created if it is not there.
create_file : PageManager → Bytes
create_file m = elim m.file [ none ↦ make_header m.page_size 0 | some bytes ↦ bytes ]

pub open_pages : PageManager → Outcome (Unit {0})
unfolding check_file create_file is_empty
open_pages m =
    if m.is_open
    then (ok tt, m)
    else if is_empty m.file_path || m.page_size == 0
    then (err invalid_argument, m)
    else check_file (record m { file = some (create_file m) }) (create_file m)

pub read_page : PageManager → ℕ → Outcome Page
read_page m id =
    let offset = page_offset id m.page_size in
    if not m.is_open
    then (err internal_error, m)
    else if leb m.page_count id
    then (err not_found, m)
    else if ltb (length (contents m)) (offset + m.page_size)
    then (err io_error, m)
    else (ok (record { id = id; bytes = slice offset m.page_size (contents m) }), m)

pub write_page : PageManager → Page → Outcome (Unit {0})
write_page m page =
    if not m.is_open
    then (err internal_error, m)
    else if leb m.page_count page.id
    then (err not_found, m)
    else if not (length page.bytes == m.page_size)
    then (err invalid_argument, m)
    else (
      ok tt,
      record m {
        file = some (overwrite (contents m) (page_offset page.id m.page_size) page.bytes);
      },
    )

pub allocate_page : PageManager → Outcome ℕ
unfolding write_header
allocate_page m =
    let grown = contents m ++ replicate m.page_size 0 in
    if not m.is_open then (err internal_error, m) else (
      ok m.page_count,
      record m {
        file = some (write_header grown m.page_size (m.page_count + 1));
        page_count = m.page_count + 1;
      },
    )

pub flush_pages : PageManager → Outcome (Unit {0})
flush_pages m = if m.is_open then (ok tt, m) else (err internal_error, m)
