-- ===== src/Value.antt =====
-- execution/value.cpp: a value of a column, and its comparison operators. The type tag and the
-- variant are one data type. A string is the list of its bytes.
pub mod Order
use database_management_syst.Prelude.{
  ℕ, zero, suc, ◌+◌, List, [], ◌∷◌, Bool, true, false, not, ◌&&◌, ◌||◌, ltb, ◌==◌, if◌then◌else◌,
  Option, some, none,
}
use database_management_syst.Prelude.Int.{ℤ, ltb_ℤ, eqb_ℤ}
use database_management_syst.Binary.{Bytes}

pub data ValueType : Type 0 where
  null_type int_type string_type bool_type : ValueType

pub data Value : Type 0 where
  null : Value
  int : ℤ → Value
  string : Bytes → Value
  bool : Bool → Value

-- `type()`, and the enumerator's number.
unfoldable pub value_type : Value → ValueType
value_type null = null_type
value_type (int v) = int_type
value_type (string v) = string_type
value_type (bool v) = bool_type

unfoldable pub type_number : ValueType → ℕ
type_number null_type = 0
type_number int_type = 1
type_number string_type = 2
type_number bool_type = 3

unfoldable pub is_null : Value → Bool
is_null null = true
is_null v = false

-- The accessors throw on another type: `none`.
unfoldable pub as_int : Value → Option ℤ
as_int (int v) = some v
as_int v = none

unfoldable pub as_string : Value → Option Bytes
as_string (string v) = some v
as_string v = none

unfoldable pub as_bool : Value → Option Bool
as_bool (bool v) = some v
as_bool v = none

-- std::string's `==` and `<`: unsigned bytes, lexicographically.
unfoldable pub eq_bytes : Bytes → Bytes → Bool
eq_bytes [] [] = true
eq_bytes [] (y ∷ ys) = false
eq_bytes (x ∷ xs) [] = false
eq_bytes (x ∷ xs) (y ∷ ys) = x == y && eq_bytes xs ys

unfoldable pub lt_bytes : Bytes → Bytes → Bool
lt_bytes [] [] = false
lt_bytes [] (y ∷ ys) = true
lt_bytes (x ∷ xs) [] = false
lt_bytes (x ∷ xs) (y ∷ ys) = if x == y then lt_bytes xs ys else ltb x y

unfoldable pub eq_bool : Bool → Bool → Bool
eq_bool true b = b
eq_bool false b = not b

unfoldable pub eq : Value → Value → Bool
unfolding eq_bytes eq_bool
eq null null = true
eq (int a) (int b) = eqb_ℤ a b
eq (string a) (string b) = eq_bytes a b
eq (bool a) (bool b) = eq_bool a b
eq a b = false

unfoldable pub ne : Value → Value → Bool
unfolding eq
ne a b = not (eq a b)

-- The comparison of two values of one type; of two types the enumerators' numbers are compared.
unfoldable pub lt : Value → Value → Bool
unfolding lt_bytes value_type type_number
lt null null = false
lt (int a) (int b) = ltb_ℤ a b
lt (string a) (string b) = lt_bytes a b
lt (bool a) (bool b) = not a && b
lt a b = ltb (type_number (value_type a)) (type_number (value_type b))

unfoldable pub le : Value → Value → Bool
unfolding eq lt
le a b = lt a b || eq a b

unfoldable pub gt : Value → Value → Bool
unfolding lt
gt a b = lt b a

unfoldable pub ge : Value → Value → Bool
unfolding lt
ge a b = not (lt a b)
