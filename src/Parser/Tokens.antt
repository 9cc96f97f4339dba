-- ===== src/Parser/Tokens.antt =====
-- parser/token.h, and the outcome of a function that may throw ParseError.
use database_management_syst.Prelude.{ℕ, Bool, ◌==◌}
use database_management_syst.Binary.{Bytes}

pub data TokenType : Type 0 where
  eof identifier number string comma semicolon left_paren right_paren dot star : TokenType
  eq ne lt gt le ge keyword : TokenType

-- The enumerators' numbers.
unfoldable pub type_number : TokenType → ℕ
type_number eof = 0
type_number identifier = 1
type_number number = 2
type_number string = 3
type_number comma = 4
type_number semicolon = 5
type_number left_paren = 6
type_number right_paren = 7
type_number dot = 8
type_number star = 9
type_number eq = 10
type_number ne = 11
type_number lt = 12
type_number gt = 13
type_number le = 14
type_number ge = 15
type_number keyword = 16

unfoldable pub same_type : TokenType → TokenType → Bool
unfolding type_number
same_type t u = type_number t == type_number u

pub record Token : Type 0 where
  pub type : TokenType
  pub lexeme : Bytes

-- How a run fails: by the ParseError that the source throws, by a read behind the last token, which
-- the source does not check, or because the model's fuel is used up.
pub data Fault : Type 0 where
  syntax past_end no_fuel : Fault

pub data Parsed {ℓ} (A : Type ℓ) : Type ℓ where
  ok : (value : A) → Parsed A
  err : (fault : Fault) → Parsed A
