-- ===== src/Parser/Total/Parse.antt =====
-- Parser::Parse, lexer and parser together.
use database_management_syst.Prelude.{
  suc, ◌≡◌, refl, ◌⊎◌, inl, inr, List, [], ◌∷◌, ◌++◌, length, arith,
}
use database_management_syst.Binary.{Bytes}
use database_management_syst.Parser.Tokens.{
  same_type, Token, Parsed, ok, err, syntax, past_end, no_fuel,
}
use database_management_syst.Parser.Syntax.{Statement}
use database_management_syst.Parser.Lexer.{end_token, tokenize}
use database_management_syst.Parser.Timestamp.{Mktime}
use database_management_syst.Parser.Statements.{parse_statement, statement_of, parse}
use database_management_syst.Parser.Total.{HasEof, Good}
use database_management_syst.Parser.Total.Lexing.{Lexes, tokenize_total}
use database_management_syst.Parser.Total.Statements.{Runs-parse_statement}

HasEof-end : (words : List Token) → HasEof (words ++ (end_token ∷ []))
unfolding same_type
HasEof-end [] = inl refl
HasEof-end (t ∷ words) = inr (HasEof-end words)

abbrev pub Answers : Parsed Statement → Type 0
Answers r = ((statement : Statement) × (r ≡ ok statement)) ⊎ (r ≡ err syntax)

Answers-Good :
    (P : Statement → List Token → Type 0) (r : Parsed (Statement × List Token))
    → Good P r
    → Answers (statement_of r)
Answers-Good P (ok (statement, rest)) g = inl (statement, refl)
Answers-Good P (err syntax) g = inr refl
Answers-Good P (err past_end) g = absurd g
Answers-Good P (err no_fuel) g = absurd g

-- For every text and every mktime, `parse` returns a statement or fails by a ParseError: it reads no
-- token behind the end token, and its fuel is enough.
pub parse_total : (mktime : Mktime) (sql : Bytes) → Answers (parse mktime sql)
unfolding parse
parse_total mktime sql = go (tokenize sql) (tokenize_total sql)
  where
    go :
        (tokens : Parsed (List Token))
        → Lexes (length sql) tokens
        → Answers (elim tokens as (λ _. Parsed Statement) [
          | ok ts ↦ statement_of (parse_statement mktime (suc (length ts)) ts)
          | err fault ↦ err fault
        ])
    go tokens (inl (words, w)) = rw (w.returns) (
        let ts = words ++ (end_token ∷ []) in
        Answers-Good _ _
          ((Runs-parse_statement (suc (length ts)) mktime).run ts (HasEof-end words) (omega arith)))
    go tokens (inr e) = rw e (inr refl)
