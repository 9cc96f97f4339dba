-- ===== src/Parser/Total.antt =====
-- Parsers that read no token behind the end of the input and, with enough fuel, do not run out of it.
-- One rule for each way to build a parser.
pub mod Lexing
pub mod Expressions
pub mod Statements
pub mod Parse
use database_management_syst.Prelude.{
  ℕ, zero, suc, ◌+◌, ◌≤◌, ◌<◌, ◌≡◌, refl, ◌⊎◌, inl, inr, List, [], ◌∷◌, Bool, true, false,
  Bool-cases, not, if◌then◌else◌, length, arith,
}
use database_management_syst.Binary.{Bytes}
use database_management_syst.Value.{eq_bytes}
use database_management_syst.Parser.Tokens.{
  TokenType, eof, identifier, comma, same_type, Token, Fault, syntax, past_end, no_fuel, Parsed, ok,
  err,
}
use database_management_syst.Parser.Monad.{
  ParserM, continue, ◌>>=◌, ◌>>◌, return, fail, check, peek, consume, at, match_token,
  match_keyword, take_lexeme, expect, expect_keyword, parse_qualified_name, finish, separated,
  is_single_case_word, upper,
}

-- One of the tokens is the end token.
abbrev pub HasEof : List Token → Type 0
HasEof [] = ⊥
HasEof (t ∷ ts) = (same_type t.type eof ≡ true) ⊎ HasEof ts

-- A run that fails only by a ParseError, and leaves an end token and tokens as `P` says.
abbrev pub Good : {A : Type 0} → (A → List Token → Type 0) → Parsed (A × List Token) → Type 0
Good P (ok (a, rest)) = HasEof rest × P a rest
Good P (err syntax) = Unit {0}
Good P (err past_end) = ⊥
Good P (err no_fuel) = ⊥

-- From less than `n` tokens, with an end token among them, it leaves less than `n`.
pub record Runs {A : Type 0} (n : ℕ) (m : ParserM A) : Type 0 where
  pub run : (ts : List Token) → HasEof ts → length ts < n → Good (λ _ rest. length rest < n) (m ts)

-- It takes a token.
pub record Takes {A : Type 0} (m : ParserM A) : Type 0 where
  pub take : (ts : List Token) → HasEof ts → Good (λ _ rest. length rest < length ts) (m ts)

-- It takes a token if it answers `true`.
pub record Tests (m : ParserM Bool) : Type 0 where
  pub test :
      (ts : List Token)
      → HasEof ts
      → Good (λ b rest. length rest + (if b then 1 else 0) ≤ length ts) (m ts)

Good-continue :
    {A B : Type 0} (P : A → List Token → Type 0) (Q : B → List Token → Type 0)
    (r : Parsed (A × List Token)) (k : A → ParserM B)
    → Good P r
    → ((a : A) (rest : List Token) → HasEof rest → P a rest → Good Q (k a rest))
    → Good Q (continue r k)
unfolding continue
Good-continue P Q (ok (a, rest)) k (h, p) f = f a rest h p
Good-continue P Q (err syntax) k g f = tt
Good-continue P Q (err past_end) k g f = absurd g
Good-continue P Q (err no_fuel) k g f = absurd g

Good-weaken :
    {A : Type 0} (P Q : A → List Token → Type 0)
    → ((a : A) (rest : List Token) → P a rest → Q a rest)
    → (r : Parsed (A × List Token)) → Good P r
    → Good Q r
Good-weaken P Q f (ok (a, rest)) (h, p) = (h, f a rest p)
Good-weaken P Q f (err syntax) g = tt
Good-weaken P Q f (err past_end) g = g
Good-weaken P Q f (err no_fuel) g = g

module _ {A B : Type 0} (n : ℕ) (m : ParserM A) (k : A → ParserM B) where
  pub Runs-bind : Runs n m → ((a : A) → Runs n (k a)) → Runs n (m >>= k)
  unfolding ◌>>=◌
  Runs-bind r f = record {
    run = λ ts h l.
        Good-continue (λ _ rest. length rest < n) (λ _ rest. length rest < n) (m ts) k
          (r.run ts h l) λ a rest h' l'. (f a).run rest h' l';
  }

  pub Runs-Takes : Takes m → ((a : A) → Runs n (k a)) → Runs (suc n) (m >>= k)
  unfolding ◌>>=◌
  Runs-Takes t f = record {
    run = λ ts h l.
        Good-continue (λ _ rest. length rest < length ts) (λ _ rest. length rest < suc n) (m ts) k
          (t.take ts h)
          λ a rest h' l'.
            Good-weaken _ _ (λ b left p. omega arith) (k a rest) ((f a).run rest h' (omega arith));
  }

  pub Takes-bind : Takes m → ((n : ℕ) (a : A) → Runs n (k a)) → Takes (m >>= k)
  unfolding ◌>>=◌
  Takes-bind t f = record {
    take = λ ts h.
        Good-continue (λ _ rest. length rest < length ts) (λ _ rest. length rest < length ts) (m ts)
          k (t.take ts h) λ a rest h' l'. (f (length ts) a).run rest h' l';
  }

module _ {A : Type 0} where
  pub Runs-return : (n : ℕ) (a : A) → Runs n (return a)
  unfolding return
  Runs-return n a = record { run = λ ts h l. (h, l) }

  pub Runs-fail : (n : ℕ) → Runs n (fail {A = A} syntax)
  unfolding fail
  Runs-fail n = record { run = λ ts h l. tt }

  pub Runs-if :
      (n : ℕ) (b : Bool) (m m' : ParserM A) → Runs n m → Runs n m' → Runs n (if b then m else m')
  Runs-if n true m m' r r' = r
  Runs-if n false m m' r r' = r'

  pub Runs-zero : (m : ParserM A) → Runs zero m
  Runs-zero m = record { run = λ ts h l. absurd (omega arith) }

  pub Takes-Runs : (n : ℕ) (m : ParserM A) → Takes m → Runs n m
  Takes-Runs n m t = record {
    run = λ ts h l.
        Good-weaken (λ _ rest. length rest < length ts) _ (λ a rest p. omega arith) (m ts)
          (t.take ts h);
  }

  -- A branch on a test: the first way has a token less to go.
  pub Runs-Tests :
      (n : ℕ) (m : ParserM Bool) (first second : ParserM A)
      → Tests m
      → Runs n first
      → Runs (suc n) second
      → Runs (suc n) (m >>= λ b. if b then first else second)
  unfolding ◌>>=◌
  Runs-Tests n m first second t y z = record {
    run = λ ts h l.
        Good-continue (λ b rest. length rest + (if b then 1 else 0) ≤ length ts)
          (λ _ rest. length rest < suc n) (m ts) (λ b. if b then first else second) (t.test ts h)
          (go ts l);
  }
    where
      go :
          (ts : List Token)
          → length ts < suc n
          → (b : Bool) (rest : List Token) → HasEof rest
          → length rest + (if b then 1 else 0) ≤ length ts
          → Good (λ _ rest. length rest < suc n) ((if b then first else second) rest)
      go ts l true rest h p =
          Good-weaken (λ _ rest. length rest < n) _ (λ a left q. omega arith) (first rest)
            (y.run rest h (omega arith))
      go ts l false rest h p = z.run rest h (omega arith)

pub Tests-Runs : (n : ℕ) (m : ParserM Bool) → Tests m → Runs n m
Tests-Runs n m t = record {
  run = λ ts h l.
      Good-weaken (λ b rest. length rest + (if b then 1 else 0) ≤ length ts) _
        (λ b rest p. omega arith) (m ts) (t.test ts h);
}

pub Runs-check : (n : ℕ) (b : Bool) → Runs n (check b)
unfolding check
Runs-check n b = Runs-if n b _ _ (Runs-return n tt) (Runs-fail n)

eof_stays :
    (t : Token) (ts : List Token) (type : TokenType)
    → same_type t.type type ≡ true
    → same_type type eof ≡ false
    → HasEof (t ∷ ts)
    → HasEof ts
unfolding same_type
eof_stays t ts type e apart (inl eof_here) = absurd (ground (arith, e, apart, eof_here))
eof_stays t ts type e apart (inr rest) = rest

pub Runs-peek : (n : ℕ) → Runs n peek
unfolding peek
Runs-peek n = record { run = λ ts. go ts }
  where
    go : (ts : List Token) → HasEof ts → length ts < n → Good (λ _ rest. length rest < n) (peek ts)
    go [] h l = absurd h
    go (t ∷ ts) h l = (h, l)

pub Runs-at : (n : ℕ) (type : TokenType) → Runs n (at type)
unfolding at
Runs-at n type = Runs-bind n _ _ (Runs-peek n) λ t. Runs-return n _

pub match_token-Tests : (type : TokenType) → same_type type eof ≡ false → Tests (match_token type)
unfolding match_token at peek consume ◌>>=◌ continue return
match_token-Tests type apart = record { test = λ ts. go ts }
  where
    go :
        (ts : List Token)
        → HasEof ts
        → Good (λ b rest. length rest + (if b then 1 else 0) ≤ length ts) (match_token type ts)
    go [] h = absurd h
    go (t ∷ ts) h = elim (Bool-cases (same_type t.type type)) [
      | inl e ↦ rw e (eof_stays t ts type e apart h, omega arith)
      | inr e ↦ rw e (h, omega arith)
    ]

pub take_lexeme-Takes : (type : TokenType) → same_type type eof ≡ false → Takes (take_lexeme type)
unfolding take_lexeme at peek consume check ◌>>=◌ continue return fail
take_lexeme-Takes type apart = record { take = λ ts. go ts }
  where
    go :
        (ts : List Token)
        → HasEof ts
        → Good (λ _ rest. length rest < length ts) (take_lexeme type ts)
    go [] h = absurd h
    go (t ∷ ts) h = elim (Bool-cases (same_type t.type type)) [
      | inl e ↦ rw e (eof_stays t ts type e apart h, omega arith)
      | inr e ↦ rw e tt
    ]

pub match_keyword-Tests : (keyword : Bytes) → Tests (match_keyword keyword)
unfolding match_keyword peek consume check ◌>>=◌ continue return fail same_type
match_keyword-Tests keyword = record { test = λ ts. go ts }
  where
    go :
        (ts : List Token)
        → HasEof ts
        → Good (λ b rest. length rest + (if b then 1 else 0) ≤ length ts) (match_keyword keyword ts)
    go [] h = absurd h
    go (t ∷ ts) h = elim (Bool-cases (same_type t.type identifier)) [
      | inr e ↦ rw e (h, omega arith)
      | inl e ↦ elim (Bool-cases (eq_bytes (upper t.lexeme) keyword)) [
        | inr f ↦ rw (e, f) (h, omega arith)
        | inl f ↦ elim (Bool-cases (is_single_case_word t.lexeme)) [
          | inl g ↦ rw (e, f, g) (eof_stays t ts identifier e refl h, omega arith)
          | inr g ↦ rw (e, f, g) tt
        ]
      ]
    ]

module _ (n : ℕ) where
  pub Runs-match_token : (type : TokenType) → same_type type eof ≡ false → Runs n (match_token type)
  Runs-match_token type apart = Tests-Runs n (match_token type) (match_token-Tests type apart)

  pub Runs-match_keyword : (keyword : Bytes) → Runs n (match_keyword keyword)
  Runs-match_keyword keyword = Tests-Runs n (match_keyword keyword) (match_keyword-Tests keyword)

  pub Runs-take_lexeme : (type : TokenType) → same_type type eof ≡ false → Runs n (take_lexeme type)
  Runs-take_lexeme type apart = Takes-Runs n (take_lexeme type) (take_lexeme-Takes type apart)

  pub Runs-expect : (type : TokenType) → same_type type eof ≡ false → Runs n (expect type)
  unfolding expect
  Runs-expect type apart = Runs-bind n _ _ (Runs-match_token type apart) λ b. Runs-check n b

  pub Runs-expect_keyword : (keyword : Bytes) → Runs n (expect_keyword keyword)
  unfolding expect_keyword
  Runs-expect_keyword keyword = Runs-bind n _ _ (Runs-match_keyword keyword) λ b. Runs-check n b

pub ruleset runs = (
  Runs-bind, Runs-return, Runs-fail, Runs-if, Runs-check, Runs-peek, Runs-at, Runs-match_token,
  Runs-match_keyword, Runs-take_lexeme, Runs-expect, Runs-expect_keyword,
)

pub Runs-parse_qualified_name : (n : ℕ) → Runs n parse_qualified_name
unfolding parse_qualified_name same_type
Runs-parse_qualified_name n = search runs

pub Runs-finish : (n : ℕ) → Runs n finish
unfolding finish same_type
Runs-finish n = search runs

-- A loop whose fuel bounds the tokens that are left.
pub Runs-separated :
    {A : Type 0} (item : ParserM A) (fuel : ℕ)
    → ((k : ℕ) → k ≤ fuel → Runs k item)
    → (n : ℕ) → n ≤ fuel
    → Runs n (separated item fuel)
unfolding separated same_type
Runs-separated item fuel r zero h = Runs-zero _
Runs-separated item zero r (suc n) h = absurd (omega arith)
Runs-separated item (suc fuel) r (suc n) h = Runs-bind (suc n) _ _ (r (suc n) h) λ x.
    Runs-Tests n _ _ _ (match_token-Tests comma refl)
      (Runs-bind n _ _ (Runs-separated item fuel (λ k l. r k (omega arith)) n (omega arith))
        λ xs. Runs-return n _)
      (Runs-return (suc n) _)
