-- ===== src/Execution/Changes.antt =====
-- The loop of UPDATE and DELETE over any engine, against a plan: a list of calls that is made from the
-- rows alone, before the first of them is done.
pub mod Tables
use database_management_syst.Prelude.{
  ℕ, suc, ◌≡◌, refl, ap, ◌∙◌, List, [], ◌∷◌, Bool, true, false, if◌then◌else◌, Option, none, some,
  length,
}
use database_management_syst.Status.{Result, ok, err}
use database_management_syst.Status
use database_management_syst.Binary.{Bytes}
use database_management_syst.Schema.{TableSchema}
use database_management_syst.Serialization.Rows.{Row}
use database_management_syst.Parser.Syntax.{Expr}
use database_management_syst.Evaluation.{RegexMatch}
use database_management_syst.Versions.Revert.{then_do}
use database_management_syst.Execution.Engine.{EngineM, ◌>>=◌, return, lift, Engine}
use database_management_syst.Execution.Select.{matches}
use database_management_syst.Execution.Write.{change_if, change_rows}

-- The calls of a statement in their order, and whether it then ends well or with a failure.
abbrev pub Plan : Type 0 → Type 0
Plan A = List A × Result (Unit {0})

-- Where the condition's value and the call of a row fail to be found, the plan ends.
unfoldable pub plan_row : {A : Type 0} → Result Bool → Result A → Plan A → Plan A
plan_row (err code) call rest = ([], err code)
plan_row (ok false) call rest = rest
plan_row (ok true) (err code) rest = ([], err code)
plan_row (ok true) (ok call) (calls, ending) = (call ∷ calls, ending)

-- A deleted row is passed over.
unfoldable pub plan_rows : {A : Type 0} → (Row → Result Bool) → (Row → Result A) → List Row → Plan A
unfolding plan_row
plan_rows test call_of [] = ([], ok tt)
plan_rows test call_of (row ∷ rows) =
    let rest = plan_rows test call_of rows in
    if row.deleted then rest else plan_row (test row) (call_of row) rest

module _ {S A : Type 0} (call : A → EngineM S (Unit {0})) where
  -- The calls in their order, up to the first that fails.
  unfoldable pub call_all : List A → EngineM S (Unit {0})
  call_all [] = return tt
  call_all (a ∷ calls) = do done ← call a; call_all calls

  -- The calls, then the plan's ending; the answer is their count.
  unfoldable pub carry_out : Plan A → EngineM S ℕ
  unfolding call_all
  carry_out (calls, ending) = do done ← call_all calls; well ← lift ending; return (length calls)

  -- A first call in front of a plan.
  carry_out-first :
      (a : A) (plan : Plan A) (s : S)
      → change_if true (call a) (carry_out plan) s ≡ carry_out (plan_row (ok true) (ok a) plan) s
  unfolding change_if plan_row carry_out call_all
  carry_out-first a (calls, ending) s = after (call a s)
    where
      ended :
          (outcome : Result (Unit {0}) × S) (ending : Result (Unit {0}))
          → then_do
              (then_do outcome (λ done. lift ending >>= λ well. return (length calls)))
              (λ n. return (suc n))
            ≡ then_do outcome (λ done. lift ending >>= λ well. return (suc (length calls)))
      ended (ok u, s) (ok v) = refl
      ended (ok u, s) (err code) = refl
      ended (err code, s) ending = refl

      after :
          (outcome : Result (Unit {0}) × S)
          → then_do outcome (λ changed. carry_out (calls, ending) >>= λ n. return (suc n))
            ≡ then_do
                (then_do outcome (λ done. call_all calls))
                (λ done. lift ending >>= λ well. return (suc (length calls)))
      after (ok u, s) = ended (call_all calls s) ending
      after (err code, s) = refl

module _ {S A : Type 0} (engine : Engine S) (regex : RegexMatch) (db table : Bytes)
    (schema : TableSchema) (predicate : Option Expr) (call_of : Row → Result A)
    (call : A → EngineM S (Unit {0})) where
  abbrev condition_at : Row → Result Bool
  condition_at row = matches regex predicate schema row.tuple

  abbrev change : Row → EngineM S (Unit {0})
  change row = lift (call_of row) >>= call

  abbrev loop : List Row → EngineM S ℕ
  loop = change_rows engine regex db table schema predicate change

  abbrev planned : List Row → EngineM S ℕ
  planned rows = carry_out call (plan_rows condition_at call_of rows)

  -- The loop, which tests a row after it has changed those in front, does what the plan says.
  pub change_rows-eq : (rows : List Row) (s : S) → loop rows s ≡ planned rows s
  unfolding change_rows plan_rows change_if plan_row carry_out call_all
  change_rows-eq [] s = refl
  change_rows-eq (row ∷ rows) s =
      at_row (λ i s. change_rows-eq rows s i) row.deleted (condition_at row) (call_of row)
    where
      rest : Plan A
      rest = plan_rows condition_at call_of rows

      taken :
          (hit : Result Bool) (made : Result A)
          → then_do (hit, s) (λ h. change_if h (lift made >>= call) (carry_out call rest))
            ≡ carry_out call (plan_row hit made rest) s
      taken (err code) made = refl
      taken (ok false) made = refl
      taken (ok true) (err code) = refl
      taken (ok true) (ok a) = carry_out-first call a rest s

      at_row :
          loop rows ≡ carry_out call rest
          → (deleted : Bool) (hit : Result Bool) (made : Result A)
          → (if deleted
                then loop rows
                else (lift hit >>= λ h. change_if h (lift made >>= call) (loop rows)))
              s
            ≡ carry_out call (if deleted then rest else plan_row hit made rest) s
      at_row same true hit made = ap (λ f. f s) same
      at_row same false hit made =
          ap (λ f. then_do (hit, s) (λ h. change_if h (lift made >>= call) f)) same ∙ taken hit made
