-- ===== src/Parser/Monad.antt =====
-- The helpers of ParserImpl: the position is the list of the tokens that are left. A read behind the
-- last token, which the source does not check, is a fault of its own.
use database_management_syst.Prelude.{
  ℕ, zero, suc, List, [], ◌∷◌, Bool, true, false, not, ◌&&◌, ◌||◌, if◌then◌else◌, map,
}
use database_management_syst.Prelude.Text.{is_upper, is_lower, to_upper}
use database_management_syst.Binary.{Bytes}
use database_management_syst.Value.{eq_bytes}
use database_management_syst.Parser.Tokens.{
  TokenType, identifier, comma, dot, semicolon, eof, same_type, Token, Fault, syntax, past_end,
  no_fuel, Parsed, ok, err,
}
use database_management_syst.Parser.Syntax.{QualifiedName}

abbrev pub ParserM : Type 0 → Type 0
ParserM A = List Token → Parsed (A × List Token)

unfoldable pub continue :
    {A B : Type 0} → Parsed (A × List Token) → (A → ParserM B) → Parsed (B × List Token)
continue (ok (a, ts)) k = k a ts
continue (err fault) k = err fault

infixl 5 ◌>>=◌ ◌>>◌
unfoldable pub ◌>>=◌ : {A B : Type 0} → ParserM A → (A → ParserM B) → ParserM B
unfolding continue
(m >>= k) ts = continue (m ts) k

abbrev pub ◌>>◌ : {A B : Type 0} → ParserM A → ParserM B → ParserM B
m >> n = m >>= λ _. n

unfoldable pub return : {A : Type 0} → A → ParserM A
return a ts = ok (a, ts)

unfoldable pub fail : {A : Type 0} → Fault → ParserM A
fail fault ts = err fault

-- `if (!test) throw ParseError(…);`
unfoldable pub check : Bool → ParserM (Unit {0})
unfolding return fail
check test = if test then return tt else fail syntax

unfoldable pub peek : ParserM Token
peek [] = err past_end
peek (t ∷ ts) = ok (t, t ∷ ts)

unfoldable pub consume : ParserM Token
consume [] = err past_end
consume (t ∷ ts) = ok (t, ts)

unfoldable pub at : TokenType → ParserM Bool
at type = do t ← peek; return (same_type t.type type)

unfoldable pub match_token : TokenType → ParserM Bool
unfolding at
match_token type = do b ← at type; if b then (do consume; return true) else return false

unfoldable pub upper : Bytes → Bytes
unfolding to_upper
upper = map to_upper

unfoldable pub has_class : (ℕ → Bool) → Bytes → Bool
has_class p [] = false
has_class p (c ∷ cs) = p c || has_class p cs

unfoldable pub is_single_case_word : Bytes → Bool
unfolding has_class
is_single_case_word word = not (has_class is_lower word && has_class is_upper word)

unfoldable pub match_keyword : Bytes → ParserM Bool
unfolding upper is_single_case_word
match_keyword keyword = do
  t ← peek
  if not (same_type t.type identifier)
      then return false
      else if not (eq_bytes (upper t.lexeme) keyword)
      then return false
      else do check (is_single_case_word t.lexeme); consume; return true

unfoldable pub expect : TokenType → ParserM (Unit {0})
expect type = do b ← match_token type; check b

unfoldable pub expect_keyword : Bytes → ParserM (Unit {0})
expect_keyword keyword = do b ← match_keyword keyword; check b

-- `Consume().lexeme` behind `At(type)`; a ParseError otherwise.
unfoldable pub take_lexeme : TokenType → ParserM Bytes
unfolding at
take_lexeme type = do b ← at type; check b; t ← consume; return t.lexeme

abbrev pub parse_identifier : ParserM Bytes
parse_identifier = take_lexeme identifier

unfoldable pub parse_qualified_name : ParserM QualifiedName
parse_qualified_name = do
  first ← parse_identifier
  b ← match_token dot
  if b
      then (do
        name ← parse_identifier
        return (record { database_name = first; table_name = name }))
      else return (record { database_name = []; table_name = first })

unfoldable pub finish : ParserM (Unit {0})
finish = do match_token semicolon; b ← at eof; check b

-- `do { … } while (Match(kComma));`, on fuel.
unfoldable pub separated : {A : Type 0} → ParserM A → ℕ → ParserM (List A)
separated item zero = fail no_fuel
separated item (suc fuel) = do
  x ← item
  more ← match_token comma
  if more then (do xs ← separated item fuel; return (x ∷ xs)) else return (x ∷ [])
