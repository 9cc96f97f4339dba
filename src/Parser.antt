-- ===== src/Parser.antt =====
-- parser/: SQL text to tokens (lexer.cpp), and tokens to a statement (parser.cpp).
pub mod Tokens
pub mod Lexer
pub mod Syntax
pub mod Monad
pub mod Expressions
pub mod Timestamp
pub mod Statements
pub mod Total
mod Examples
