-- ===== src/Parser/Total/Lexing.antt =====
-- Lexer::Tokenize: what each scan leaves, each token, and all of them.
use database_management_syst.Prelude.{
  ℕ, zero, suc, ◌≤◌, ◌<◌, ◌≡◌, refl, ap, subst, ◌⊎◌, inl, inr, List, [], ◌∷◌, ◌++◌, Bool, true,
  false, ◌==◌, if◌then◌else◌, Option, none, some, length, drop, length-drop, arith, All,
}
use database_management_syst.Prelude.Text.{is_space}
use database_management_syst.Binary.{Bytes}
use database_management_syst.Parser.Tokens.{
  TokenType, eof, identifier, number, string, same_type, Token, Parsed, ok, err, syntax,
}
use database_management_syst.Parser.Lexer.{
  Split, identifier_rest, number_rest, string_rest, starts_equals, all_digits, double_operator,
  single_operator, operator_token, next_token, cons_token, end_token, lex, tokenize, push_byte,
}

-- What is left is no longer than what was there.
length-identifier_rest : (cs : Bytes) → length (identifier_rest cs).1 ≤ length cs
unfolding identifier_rest
length-identifier_rest [] = omega arith
length-identifier_rest (c ∷ cs) = ground (arith, length-identifier_rest cs)

length-number_rest : (cs : Bytes) → length (number_rest cs).1 ≤ length cs
unfolding number_rest
length-number_rest [] = omega arith
length-number_rest (c ∷ cs) = ground (arith, length-number_rest cs)

-- What an option holds, if it holds anything.
record Each {A : Type 0} (P : A → Type 0) (o : Option A) : Type 0 where
  each : (a : A) → o ≡ some a → P a

module _ {A : Type 0} (P : A → Type 0) where
  Each-none : Each P none
  Each-none = record { each = λ a e. absurd (ground (arith, e)) }

  value_or : A → Option A → A
  value_or a none = a
  value_or a (some b) = b

  Each-some : (a : A) → P a → Each P (some a)
  unfolding value_or
  Each-some a p = record { each = λ b e. subst P (ap (value_or a) e) p }

  Each-if : (b : Bool) (o o' : Option A) → Each P o → Each P o' → Each P (if b then o else o')
  Each-if true o o' h h' = h
  Each-if false o o' h h' = h'

  Each-weaken : (Q : A → Type 0) → ((a : A) → P a → Q a) → (o : Option A) → Each P o → Each Q o
  Each-weaken Q f o h = record { each = λ a e. f a (h.each a e) }

abbrev IsShorter : ℕ → Split → Type 0
IsShorter n (word, rest) = length rest ≤ n

push_byte-IsShorter :
    (c n : ℕ) (o : Option Split) → Each (IsShorter n) o → Each (IsShorter (suc n)) (push_byte c o)
push_byte-IsShorter c n none h = Each-none _
push_byte-IsShorter c n (some s) h = Each-some _ _ (omega (arith, h.each s refl))

string_rest-IsShorter :
    (quote : ℕ) (cs : Bytes) → Each (IsShorter (length cs)) (string_rest quote cs)
unfolding string_rest
string_rest-IsShorter quote [] = Each-none _
string_rest-IsShorter quote (c ∷ []) =
    Each-if _ (c == quote) _ none (Each-some _ _ (omega arith)) (Each-none _)
string_rest-IsShorter quote (c ∷ (d ∷ cs)) =
    Each-if _ (c == quote) _ _ (Each-some _ _ (omega arith)) (
      Each-if _ (c == b'\\') _ _
        (Each-weaken (IsShorter (suc (length cs))) _ (λ a h. omega arith) _
          (push_byte-IsShorter d _ _ (string_rest-IsShorter quote cs)))
        (push_byte-IsShorter c _ _ (string_rest-IsShorter quote (d ∷ cs))))

abbrev IsOperator : TokenType → Type 0
IsOperator type = same_type type eof ≡ false

-- A token that is no end token, and no more than `n` bytes behind it.
abbrev IsWord : ℕ → Token × Bytes → Type 0
IsWord n (t, rest) = (same_type t.type eof ≡ false) × (length rest ≤ n)

ruleset each_rules = (Each-if, Each-some, Each-none)

double_operator-IsOperator : (c : ℕ) → Each IsOperator (double_operator c)
unfolding double_operator same_type
double_operator-IsOperator c = search each_rules depth 20

single_operator-IsOperator : (c : ℕ) → Each IsOperator (single_operator c)
unfolding single_operator same_type
single_operator-IsOperator c = search each_rules depth 30 fits 2000

operator_token-IsWord : (c : ℕ) (cs : Bytes) → Each (IsWord (length cs)) (operator_token c cs)
unfolding operator_token
operator_token-IsWord c cs =
    go _ (Each-if _ (starts_equals cs) _ none (double_operator-IsOperator c) (Each-none _)) _
      (single_operator-IsOperator c)
  where
    go :
        (o : Option TokenType)
        → Each IsOperator o
        → (o' : Option TokenType) → Each IsOperator o'
        → Each (IsWord (length cs)) (elim o as (λ _. Option (Token × Bytes)) [
          | some type ↦ some (record { type = type; lexeme = c ∷ b'=' ∷ [] }, drop 1 cs)
          | none ↦ elim o' [
            | some type ↦ some (record { type = type; lexeme = c ∷ [] }, cs)
            | none ↦ none
          ]
        ])
    go none h none h' = Each-none _
    go none h (some type) h' = Each-some _ _ (h'.each type refl, omega arith)
    go (some type) h o' h' = Each-some _ _ (h.each type refl, omega (arith, length-drop 1 cs))

next_token-IsWord : (c : ℕ) (cs : Bytes) → Each (IsWord (length cs)) (next_token c cs)
unfolding next_token same_type
next_token-IsWord c cs = Each-if _ _ _ _ (Each-some _ _ (refl, length-identifier_rest cs)) (
    Each-if _ _ _ _
      (Each-some _ _ (word_type (all_digits (number_rest cs).0), length-number_rest cs))
      (Each-if _ _ _ _ (literal _ (string_rest-IsShorter c cs)) (operator_token-IsWord c cs)))
  where
    word_type : (b : Bool) → same_type (if b then number else identifier) eof ≡ false
    word_type true = refl
    word_type false = refl

    literal :
        (o : Option Split)
        → Each (IsShorter (length cs)) o
        → Each (IsWord (length cs)) (elim o as (λ _. Option (Token × Bytes)) [
          | some (text, rest) ↦ some (record { type = string; lexeme = text }, rest)
          | none ↦ none
        ])
    literal none h = Each-none _
    literal (some s) h = Each-some _ _ (refl, h.each s refl)

-- Words, each no end token, and then the end token; no more words than `n`.
pub record IsTokenized (n : ℕ) (result : Parsed (List Token)) (words : List Token) : Type 0 where
  pub returns : result ≡ ok (words ++ (end_token ∷ []))
  pub no_end : All (λ t. same_type t.type eof ≡ false) words
  pub few : length words ≤ n

abbrev pub Lexes : ℕ → Parsed (List Token) → Type 0
Lexes n result = ((words : List Token) × IsTokenized n result words) ⊎ (result ≡ err syntax)

Lexes-cons :
    (n : ℕ) (t : Token) (result : Parsed (List Token))
    → same_type t.type eof ≡ false
    → Lexes n result
    → Lexes (suc n) (cons_token t result)
Lexes-cons n t result h (inl (words, w)) = inl (
  t ∷ words,
  record {
    returns = ap (cons_token t) w.returns;
    no_end = (h, w.no_end);
    few = omega (arith, w.few);
  },
)
Lexes-cons n t result h (inr e) = inr (ap (cons_token t) e)

Lexes-weaken : (n k : ℕ) (result : Parsed (List Token)) → n ≤ k → Lexes n result → Lexes k result
Lexes-weaken n k result h (inl (words, w)) =
    inl (words, record { returns = w.returns; no_end = w.no_end; few = omega (arith, w.few) })
Lexes-weaken n k result h (inr e) = inr e

lex-end : (fuel : ℕ) → Lexes 0 (lex (suc fuel) [])
unfolding lex
lex-end fuel = inl ([], record { returns = refl; no_end = tt; few = omega arith })

-- The answer at a byte, from the two decisions made there.
lex-cons :
    (fuel c : ℕ) (cs : Bytes) (P : Parsed (List Token) → Type 0)
    → (is_space c ≡ true → P (lex fuel cs))
    → (next_token c cs ≡ none → P (err syntax))
    → ((t : Token) (rest : Bytes)
        → next_token c cs ≡ some (t, rest)
        → P (cons_token t (lex fuel rest)))
    → P (lex (suc fuel) (c ∷ cs))
unfolding lex
lex-cons fuel c cs P space refused word = step (is_space c) refl
  where
    token :
        (o : Option (Token × Bytes))
        → next_token c cs ≡ o
        → P (elim o as (λ _. Parsed (List Token)) [
          | some (t, rest) ↦ cons_token t (lex fuel rest)
          | none ↦ err syntax
        ])
    token none e = refused e
    token (some (t, rest)) e = word t rest e

    step :
        (b : Bool)
        → is_space c ≡ b
        → P (elim b as (λ _. Parsed (List Token)) [
          | true ↦ lex fuel cs
          | false ↦ elim (next_token c cs) [
            | some (t, rest) ↦ cons_token t (lex fuel rest)
            | none ↦ err syntax
          ]
        ])
    step true e = space e
    step false e = token (next_token c cs) refl

pub lex-Lexes :
    (fuel : ℕ) (input : Bytes) → length input < fuel → Lexes (length input) (lex fuel input)
lex-Lexes zero input h = absurd (omega arith)
lex-Lexes (suc fuel) [] h = lex-end fuel
lex-Lexes (suc fuel) (c ∷ cs) h =
    lex-cons fuel c cs (Lexes (suc (length cs)))
      (λ _. Lexes-weaken _ _ _ (omega arith) (lex-Lexes fuel cs (omega arith))) (λ _. inr refl)
      (λ t rest e.
        let (word, shorter) = (next_token-IsWord c cs).each (t, rest) e in
        Lexes-weaken _ _ _ (omega arith)
          (Lexes-cons (length rest) t _ word (lex-Lexes fuel rest (omega arith))))

-- `tokenize` on any input returns words, none of them an end token and at most as many as the input
-- has bytes, with the end token behind them, or fails by a ParseError.
pub tokenize_total : (input : Bytes) → Lexes (length input) (tokenize input)
unfolding tokenize
tokenize_total input = lex-Lexes (suc (length input)) input (omega arith)
