-- ===== src/Parser/Lexer.antt =====
-- Lexer::Tokenize. The position in the input is the rest of the input; the scans of one token are
-- structural, and the loop over tokens runs on fuel.
use database_management_syst.Prelude.{
  ℕ, zero, suc, List, [], ◌∷◌, Bool, true, false, ◌&&◌, ◌||◌, ◌==◌, if◌then◌else◌, Option, none,
  some, length, drop,
}
use database_management_syst.Prelude.Text.{is_alpha, is_alnum, is_digit, is_space}
use database_management_syst.Binary.{Bytes}
use database_management_syst.Parser.Tokens.{
  TokenType, eof, identifier, number, string, comma, semicolon, left_paren, right_paren, dot, star,
  eq, ne, lt, gt, le, ge, Token, syntax, no_fuel, Parsed, ok, err,
}

unfoldable pub is_identifier_start : ℕ → Bool
is_identifier_start c = is_alpha c || c == b'_'

unfoldable pub is_identifier_part : ℕ → Bool
is_identifier_part c = is_alnum c || c == b'_'

abbrev pub starts_alnum : Bytes → Bool
starts_alnum [] = false
starts_alnum (c ∷ cs) = is_alnum c

-- What a scan takes, and the rest.
abbrev pub Split : Type 0
Split = Bytes × Bytes

abbrev pub take_byte : ℕ → Split → Split
take_byte c (word, rest) = (c ∷ word, rest)

-- The rest of an identifier: parts, and dashes in front of a letter or digit, which is then a part.
unfoldable pub identifier_rest : Bytes → Split
unfolding is_identifier_part
identifier_rest [] = ([], [])
identifier_rest (c ∷ cs) =
    let more = take_byte c (identifier_rest cs) in
    if is_identifier_part c || c == b'-' && starts_alnum cs then more else ([], c ∷ cs)

unfoldable pub is_number_part : ℕ → Bool
is_number_part c = is_alnum c || (c == b'.' || (c == b'-' || c == b':'))

unfoldable pub number_rest : Bytes → Split
unfolding is_number_part
number_rest [] = ([], [])
number_rest (c ∷ cs) =
    let more = take_byte c (number_rest cs) in if is_number_part c then more else ([], c ∷ cs)

-- Whether all bytes are digits: `!identifier_like`.
unfoldable pub all_digits : Bytes → Bool
all_digits [] = true
all_digits (c ∷ cs) = is_digit c && all_digits cs

abbrev pub push_byte : ℕ → Option Split → Option Split
push_byte c (some s) = some (take_byte c s)
push_byte c none = none

-- The literal up to its closing quote; `none` if there is none. A backslash that is not the last byte
-- stands for the byte behind it.
unfoldable pub string_rest : ℕ → Bytes → Option Split
string_rest quote [] = none
string_rest quote (c ∷ []) = if c == quote then some ([], []) else none
string_rest quote (c ∷ (d ∷ cs)) =
    let escaped = push_byte d (string_rest quote cs) in
    let plain = push_byte c (string_rest quote (d ∷ cs)) in
    if c == quote then some ([], d ∷ cs) else if c == b'\\' then escaped else plain

-- The operators of two bytes, by their first byte when `=` follows.
unfoldable pub double_operator : ℕ → Option TokenType
double_operator c =
    if c == b'='
    then some eq
    else if c == b'!'
    then some ne
    else if c == b'<'
    then some le
    else if c == b'>'
    then some ge
    else none

unfoldable pub single_operator : ℕ → Option TokenType
single_operator c =
    if c == b','
    then some comma
    else if c == b';'
    then some semicolon
    else if c == b'('
    then some left_paren
    else if c == b')'
    then some right_paren
    else if c == b'.'
    then some dot
    else if c == b'*'
    then some star
    else if c == b'='
    then some eq
    else if c == b'<'
    then some lt
    else if c == b'>'
    then some gt
    else none

abbrev pub starts_equals : Bytes → Bool
starts_equals [] = false
starts_equals (c ∷ cs) = c == b'='

unfoldable pub operator_token : ℕ → Bytes → Option (Token × Bytes)
unfolding double_operator single_operator
operator_token c cs = elim (if starts_equals cs then double_operator c else none) [
  | some type ↦ some (record { type = type; lexeme = c ∷ b'=' ∷ [] }, drop 1 cs)
  | none ↦ elim (single_operator c) [
    | some type ↦ some (record { type = type; lexeme = c ∷ [] }, cs)
    | none ↦ none
  ]
]

-- One token at a byte that is no space, and the input behind it; `none` is a ParseError.
unfoldable pub next_token : ℕ → Bytes → Option (Token × Bytes)
unfolding is_identifier_start identifier_rest number_rest all_digits string_rest operator_token
next_token c cs =
    let (word, word_end) = identifier_rest cs in
    let (digits, number_end) = number_rest cs in
    if is_identifier_start c
    then some (record { type = identifier; lexeme = c ∷ word }, word_end)
    else if is_digit c
    then some (
      record { type = if all_digits digits then number else identifier; lexeme = c ∷ digits },
      number_end,
    )
    else if c == b'"' || c == b'\''
    then elim (string_rest c cs) [
      | some (literal, rest) ↦ some (record { type = string; lexeme = literal }, rest)
      | none ↦ none
    ]
    else operator_token c cs

abbrev pub cons_token : Token → Parsed (List Token) → Parsed (List Token)
cons_token t (ok ts) = ok (t ∷ ts)
cons_token t (err fault) = err fault

abbrev pub end_token : Token
end_token = record { type = eof; lexeme = [] }

unfoldable pub lex : ℕ → Bytes → Parsed (List Token)
unfolding next_token
lex zero input = err no_fuel
lex (suc fuel) [] = ok (end_token ∷ [])
lex (suc fuel) (c ∷ cs) = elim (is_space c) [
  | true ↦ lex fuel cs
  | false ↦ elim (next_token c cs) [
    | some (t, rest) ↦ cons_token t (lex fuel rest)
    | none ↦ err syntax
  ]
]

unfoldable pub tokenize : Bytes → Parsed (List Token)
unfolding lex
tokenize input = lex (suc (length input)) input
