-- ===== src/Status.antt =====
-- common/status.h. A function that returns a `Status` and fills its output parameters returns a
-- `Result`: `ok` carries the outputs, `err` the code of a failed status. Messages are left out.
use database_management_syst.Prelude.{Bool, true, false}

pub data StatusCode : Type 0 where
  invalid_argument not_found already_exists constraint_violation io_error : StatusCode
  parse_error bind_error plan_error execution_error transaction_error : StatusCode
  network_error unauthorized internal_error : StatusCode

pub data Result {ℓ} (A : Type ℓ) : Type ℓ where
  ok : (outputs : A) → Result A
  err : (code : StatusCode) → Result A

-- `if (!status.ok()) return status;`
infixl 5 ◌>>=◌ ◌>>◌
abbrev pub ◌>>=◌ {ℓ κ} : {A : Type ℓ} {B : Type κ} → Result A → (A → Result B) → Result B
status >>= continue = elim status [ ok outputs ↦ continue outputs | err code ↦ err code ]

abbrev pub ◌>>◌ {κ} : {B : Type κ} → Result (Unit {0}) → Result B → Result B
status >> continue = elim status [ ok _ ↦ continue | err code ↦ err code ]

-- `if (!test) return Status::Error(code, …);`
abbrev pub require : Bool → StatusCode → Result (Unit {0})
require test code = elim test [ true ↦ ok tt | false ↦ err code ]
