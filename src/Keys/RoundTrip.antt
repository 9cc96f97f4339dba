-- ===== src/Keys/RoundTrip.antt =====
-- Keys are decoded as they were encoded.
use database_management_syst.Prelude.{
  Bool, ◌≡◌, refl, sym, ap, subst, ◌∙◌, [], ◌++◌, true, false, length, append-nil, ==_iff,
}
use database_management_syst.Prelude.Int.{ℤ, IsInt64, int64_bits}
use database_management_syst.Status.{ok}
use database_management_syst.Binary.{le_bytes}
use database_management_syst.Binary.Cursor.{Cursor, Cursor-start, Yields-then}
use database_management_syst.Binary.Format.{writes, int64_bytes, bool_bytes}
use database_management_syst.Binary.RoundTrip.{read_int64-bytes, length-le_bytes}
use database_management_syst.Value.{Value, null, int, string, bool, value_type, int_type, bool_type}
use database_management_syst.Keys.{encode, decode}

-- Integers of 64 bits, and every other value.
abbrev pub IsEncodable : Value → Type 0
IsEncodable (int v) = IsInt64 v
IsEncodable v = Unit {0}

encode-int : (v : ℤ) → encode (int v) ≡ int64_bytes v
unfolding encode
encode-int v = simp writes

encode-bool : (v : Bool) → encode (bool v) ≡ bool_bytes v
unfolding encode
encode-bool v = simp writes

length-int64_bytes : (v : ℤ) → length (int64_bytes v) ≡ 8
unfolding int64_bytes
length-int64_bytes v = length-le_bytes 8 (int64_bits v)

decode-int : (v : ℤ) → IsInt64 v → decode (int64_bytes v) int_type ≡ ok (int v)
unfolding decode
decode-int v h =
    let start : Cursor (int64_bytes v) 0 (int64_bytes v ++ []) =
      subst (Cursor (int64_bytes v) 0) (sym (append-nil (int64_bytes v)))
        (Cursor-start (int64_bytes v)) in
    rw ((==_iff (length (int64_bytes v)) 8).1 (length-int64_bytes v))
      (Yields-then _ (read_int64-bytes v h start) λ _ c. refl)

decode-bool : (b : Bool) → decode (bool_bytes b) bool_type ≡ ok (bool b)
unfolding decode bool_bytes le_bytes
decode-bool true = refl
decode-bool false = refl

-- A key, an integer among them of 64 bits, is decoded with its own type to itself.
pub decode-encode : (v : Value) → IsEncodable v → decode (encode v) (value_type v) ≡ ok v
unfolding decode encode value_type
decode-encode null h = refl
decode-encode (int v) h = ap (λ bytes. decode bytes int_type) (encode-int v) ∙ decode-int v h
decode-encode (string v) h = refl
decode-encode (bool true) h =
    ap (λ bytes. decode bytes bool_type) (encode-bool true) ∙ decode-bool true
decode-encode (bool false) h =
    ap (λ bytes. decode bytes bool_type) (encode-bool false) ∙ decode-bool false
