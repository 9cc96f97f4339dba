-- ===== src/Versions/Reading.antt =====
-- Reading the log: entry by entry, to the end or to an entry that is cut off.
use database_management_syst.Prelude.{
  ℕ, zero, suc, ◌+◌, ◌-◌, ◌^◌, ◌%◌, ◌≤◌, ◌<◌, ◌≡◌, refl, ap, subst, ◌∙◌, List, [], ◌∷◌, ◌++◌, false,
  Bool-cases, inl, inr, ltb, ◌==◌, if◌then◌else◌, ge→ltb, lt→ltb, Option, none, some, length, take,
  drop, length-append, take-append_self, drop-append_self, length-drop, length-take, ltb→lt,
  append_assoc, All, arith,
}
use native.Mathlib.Nat.{mod-eq_of_lt}
use database_management_syst.Status.{Result, ok, err, invalid_argument}
use database_management_syst.Binary.{Bytes, le_bytes, le_value, write_uint32}
use database_management_syst.Binary.Format.{uint32_bytes, write_uint32-eq}
use database_management_syst.Binary.RoundTrip.{length-le_bytes, le_value-le_bytes}
use database_management_syst.Versions.{
  VersionRecord, log_header, log_header_size, serialize_record, log_entry, read_payload,
  ReadOutcome, cons_record, read_records,
}
use database_management_syst.Versions.RoundTrip.{IsStorableRecord, read_payload-serialize}

pub log_entry-eq :
    (payload : Bytes)
    → length payload < 2 ^ 32
    → log_entry payload ≡ uint32_bytes (length payload) ++ payload
unfolding log_entry
log_entry-eq payload h = rw (mod-eq_of_lt h, write_uint32-eq) refl

pub length-uint32_bytes : (n : ℕ) → length (uint32_bytes n) ≡ 4
unfolding uint32_bytes
length-uint32_bytes n = length-le_bytes 4 n

pub length-log_entry :
    (payload : Bytes) → length payload < 2 ^ 32 → length (log_entry payload) ≡ 4 + length payload
length-log_entry payload h = omega (
  arith,
  ap length (log_entry-eq payload h),
  length-append (uint32_bytes (length payload)) payload,
  length-uint32_bytes (length payload),
)

-- A size, then what follows.
module _ (fuel n : ℕ) (rest : Bytes) (small : n < 2 ^ 32) where
  sized : Bytes
  sized = uint32_bytes n ++ rest

  size_read : le_value (take 4 sized) ≡ n
  unfolding sized uint32_bytes
  size_read =
      ap le_value (
        subst (λ k. take k (uint32_bytes n ++ rest) ≡ uint32_bytes n) (length-uint32_bytes n)
          (take-append_self (uint32_bytes n) rest))
      ∙ le_value-le_bytes 4 n (omega arith)

  size_dropped : drop 4 sized ≡ rest
  unfolding sized
  size_dropped =
      subst (λ k. drop k (uint32_bytes n ++ rest) ≡ rest) (length-uint32_bytes n)
        (drop-append_self (uint32_bytes n) rest)

  length-sized : length sized ≡ 4 + length rest
  unfolding sized
  length-sized = omega (arith, length-append (uint32_bytes n) rest, length-uint32_bytes n)

  not_empty : (length sized == 0) ≡ false
  not_empty = ground (arith, length-sized)

  has_size : ltb (length sized) 4 ≡ false
  has_size = ge→ltb (length sized) 4 (omega (arith, length-sized))

  pub read_records-sized : read_records (suc fuel) (uint32_bytes n ++ rest) ≡ (
      if ltb (length rest) n
      then some (err invalid_argument, [])
      else cons_record (read_payload (take n rest)) (read_records fuel (drop n rest)))
  unfolding read_records sized
  read_records-sized = rw (not_empty, has_size, size_dropped, size_read) refl

read_records-log_entry :
    (fuel : ℕ) (payload rest : Bytes)
    → length payload < 2 ^ 32
    → read_records (suc fuel) (log_entry payload ++ rest)
      ≡ cons_record (read_payload payload) (read_records fuel rest)
read_records-log_entry fuel payload rest h =
    rw
      (
        log_entry-eq payload h,
        append_assoc,
        read_records-sized fuel (length payload) (payload ++ rest) h,
        ge→ltb (length (payload ++ rest)) (length payload)
            (omega (arith, length-append payload rest)),
        take-append_self payload rest,
        drop-append_self payload rest,
      )
      refl

unfoldable pub entries : List VersionRecord → Bytes
entries [] = []
entries (r ∷ rs) = log_entry (serialize_record r) ++ entries rs

-- What the reader makes of some bytes behind the entries of records.
pub read_records-entries :
    (rs : List VersionRecord) (fuel : ℕ) (rest : Bytes) (answer : ReadOutcome)
    → All IsStorableRecord rs
    → length rs ≤ fuel
    → read_records (fuel - length rs) rest ≡ some answer
    → read_records fuel (entries rs ++ rest) ≡ some (answer.0, rs ++ answer.1)
unfolding entries
read_records-entries [] fuel rest answer h l e = ground (arith, e)
read_records-entries (r ∷ rs) zero rest answer h l e = absurd (omega arith)
read_records-entries (r ∷ rs) (suc fuel) rest answer (h, hs) l e =
    rw
      (
        append_assoc,
        read_records-log_entry fuel (serialize_record r) (entries rs ++ rest) h.fits,
        read_payload-serialize r h,
        read_records-entries rs fuel rest answer hs (omega arith) (ground (arith, e)),
      )
      refl

pub length-entries : (rs : List VersionRecord) → length rs ≤ length (entries rs)
unfolding entries log_entry
length-entries [] = omega arith
length-entries (r ∷ rs) = omega (
  arith,
  length-entries rs,
  length-append (log_entry (serialize_record r)) (entries rs),
  entry_size (serialize_record r),
)
  where
    entry_size : (payload : Bytes) → 4 ≤ length (log_entry payload)
    entry_size payload = omega (
      arith,
      length-append (write_uint32 [] (length payload % 2 ^ 32)) payload,
      ap length (write_uint32-eq [] (length payload % 2 ^ 32)),
      length-uint32_bytes (length payload % 2 ^ 32),
    )

pub length-log_header : length log_header ≡ log_header_size
unfolding log_header uint32_bytes le_bytes
length-log_header = rw write_uint32-eq refl

cons_record_total :
    (r : Result VersionRecord) (rest : Option ReadOutcome) (answer : ReadOutcome)
    → rest ≡ some answer
    → (a : ReadOutcome) × (cons_record r rest ≡ some a)
cons_record_total r none answer e = absurd (ground (arith, e))
cons_record_total (err code) (some s) answer e = ((err code, []), refl)
cons_record_total (ok r) (some (status, rs)) answer e = ((status, r ∷ rs), refl)

-- With more fuel than bytes, the reader does not run out of it.
pub read_records_total :
    (fuel : ℕ) (bytes : Bytes)
    → length bytes < fuel
    → (answer : ReadOutcome) × (read_records fuel bytes ≡ some answer)
unfolding read_records
read_records_total zero bytes h = absurd (omega arith)
read_records_total (suc fuel) bytes h = elim (Bool-cases (length bytes == 0)) [
  | inl e ↦ rw e ((ok tt, []), refl)
  | inr e ↦ elim (Bool-cases (ltb (length bytes) 4)) [
    | inl f ↦ rw (e, f) ((err invalid_argument, []), refl)
    | inr f ↦ elim (Bool-cases (ltb (length (drop 4 bytes)) (le_value (take 4 bytes)))) [
      | inl g ↦ rw (e, f, g) ((err invalid_argument, []), refl)
      | inr g ↦
          let rest = drop (le_value (take 4 bytes)) (drop 4 bytes) in
          let (answer, known) = read_records_total fuel rest (
            ground (
              arith,
              f,
              h,
              length-drop 4 bytes,
              length-drop (le_value (take 4 bytes)) (drop 4 bytes),
            )) in
          rw (e, f, g) (cons_record_total _ _ answer known)
    ]
  ]
]

take-append_ge :
    (k : ℕ) (xs ys : Bytes) → length xs ≤ k → take k (xs ++ ys) ≡ xs ++ take (k - length xs) ys
take-append_ge k [] ys h = ap (λ n. take n ys) (omega arith)
take-append_ge zero (x ∷ xs) ys h = absurd (omega arith)
take-append_ge (suc k) (x ∷ xs) ys h =
    ap (x ∷◌) (take-append_ge k xs ys (omega arith) ∙ ap (λ n. xs ++ take n ys) (omega arith))

read_records_short :
    (fuel : ℕ) (bytes : Bytes)
    → 0 < length bytes
    → length bytes < 4
    → read_records (suc fuel) bytes ≡ some (err invalid_argument, [])
unfolding read_records
read_records_short fuel bytes h l = ground (arith, h, l)

-- The first part of an entry, neither empty nor whole, is refused.
pub read_records_torn :
    (fuel k : ℕ) (payload : Bytes)
    → length payload < 2 ^ 32
    → 0 < k
    → k < 4 + length payload
    → read_records (suc fuel) (take k (log_entry payload)) ≡ some (err invalid_argument, [])
read_records_torn fuel k payload h pos l = elim (Bool-cases (ltb k 4)) [
  | inl short ↦
      read_records_short fuel (take k (log_entry payload)) (omega (arith, size, ltb→lt k 4 short))
        (omega (arith, size, ltb→lt k 4 short))
  | inr long ↦
      let four : 4 ≤ k = ground (arith, long) in
      rw
        (
          log_entry-eq payload h,
          take-append_ge k (uint32_bytes n) payload (ground (arith, long, length-uint32_bytes n)),
          read_records-sized fuel n (take (k - length (uint32_bytes n)) payload) h,
          lt→ltb (length (take (k - length (uint32_bytes n)) payload)) n (
              omega (
                arith,
                l,
                pos,
                length-take (k - length (uint32_bytes n)) payload,
                length-uint32_bytes n,
                four,
              )),
        )
        refl
]
  where
    n : ℕ
    n = length payload

    size : length (take k (log_entry payload)) ≡ k
    size = omega (
      arith,
      length-take k (log_entry payload),
      ap length (log_entry-eq payload h),
      length-append (uint32_bytes n) payload,
      length-uint32_bytes n,
    )
