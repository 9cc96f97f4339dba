-- ===== src/Value/Order.antt =====
-- The operators of execution/value.cpp are a strict total order and the equality that fits it.
use database_management_syst.Prelude.{
  ◌≡◌, refl, ap, [], ◌∷◌, true, false, not, ◌||◌, arith, ◌↔◌, subst,
}
use database_management_syst.Prelude.Int.{ℤ, eqb_ℤ}
use database_management_syst.Binary.{Bytes}
use database_management_syst.Value.{
  Value, null, int, string, bool, eq_bytes, lt_bytes, eq_bool, eq, ne, lt, le, gt, ge,
}

eqb_ℤ→eq : (a b : ℤ) → eqb_ℤ a b ≡ true → a ≡ b
eqb_ℤ→eq a b h = ground arith

pub eq_bytes→eq : (a b : Bytes) → eq_bytes a b ≡ true → a ≡ b
unfolding eq_bytes
eq_bytes→eq [] [] h = refl
eq_bytes→eq [] (y ∷ b) h = cc
eq_bytes→eq (x ∷ a) [] h = cc
eq_bytes→eq (x ∷ a) (y ∷ b) h = ground (arith, eq_bytes→eq a b)

pub eq_bytes_refl : (a : Bytes) → eq_bytes a a ≡ true
unfolding eq_bytes
eq_bytes_refl [] = refl
eq_bytes_refl (x ∷ a) = ground (arith, eq_bytes_refl a)

lt_bytes_irrefl : (a : Bytes) → lt_bytes a a ≡ false
unfolding lt_bytes
lt_bytes_irrefl [] = refl
lt_bytes_irrefl (x ∷ a) = ground (arith, lt_bytes_irrefl a)

lt_bytes_trans : (a b c : Bytes) → lt_bytes a b ≡ true → lt_bytes b c ≡ true → lt_bytes a c ≡ true
unfolding lt_bytes
lt_bytes_trans [] [] c h k = cc
lt_bytes_trans [] (y ∷ b) [] h k = cc
lt_bytes_trans [] (y ∷ b) (z ∷ c) h k = refl
lt_bytes_trans (x ∷ a) [] c h k = cc
lt_bytes_trans (x ∷ a) (y ∷ b) [] h k = cc
lt_bytes_trans (x ∷ a) (y ∷ b) (z ∷ c) h k = ground (arith, lt_bytes_trans a b c)

lt_bytes_total : (a b : Bytes) → (lt_bytes a b || eq_bytes a b) ≡ not (lt_bytes b a)
unfolding lt_bytes eq_bytes
lt_bytes_total [] [] = refl
lt_bytes_total [] (y ∷ b) = refl
lt_bytes_total (x ∷ a) [] = refl
lt_bytes_total (x ∷ a) (y ∷ b) = ground (arith, lt_bytes_total a b)

eq→eq : (a b : Value) → eq a b ≡ true → a ≡ b
unfolding eq eq_bool
eq→eq (string a) (string b) h = ap string (eq_bytes→eq a b h)
eq→eq (int a) (int b) h = ap int (eqb_ℤ→eq a b h)
eq→eq a b h = ground arith

pub eq_refl : (a : Value) → eq a a ≡ true
unfolding eq eq_bool
eq_refl null = refl
eq_refl (int a) = ground arith
eq_refl (string a) = eq_bytes_refl a
eq_refl (bool a) = ground arith

-- `==` holds exactly of equal values.
pub eq_iff : (a b : Value) → (eq a b ≡ true) ↔ (a ≡ b)
eq_iff a b = (eq→eq a b, λ e. subst (λ x. eq a x ≡ true) e (eq_refl a))

-- No value is less than itself.
pub lt_irrefl : (a : Value) → lt a a ≡ false
unfolding lt lt_bytes
lt_irrefl null = refl
lt_irrefl (int a) = ground arith
lt_irrefl (string a) = lt_bytes_irrefl a
lt_irrefl (bool a) = ground arith

-- `<` is transitive, across types too.
pub lt_trans : (a b c : Value) → lt a b ≡ true → lt b c ≡ true → lt a c ≡ true
unfolding lt
lt_trans (string a) (string b) (string c) h k = lt_bytes_trans a b c h k
lt_trans a b c h k = ground arith

-- `<=` and `>=` are two ways to say the same: two values that are not equal are ordered one way.
pub le-eq-ge : (a b : Value) → le a b ≡ ge b a
unfolding lt eq le ge
le-eq-ge (string a) (string b) = lt_bytes_total a b
le-eq-ge a b = ground arith

-- `==` decides equality, no value is less than itself, any two values are equal or ordered one way
-- or the other, and `!=`, `>`, `<=` and `>=` say what `==` and `<` say.
pub comparison_total :
    (a b : Value)
    → ((eq a b ≡ true) ↔ (a ≡ b))
      × (lt a a ≡ false)
      × ((lt a b || eq a b || lt b a) ≡ true)
      × (ne a b ≡ not (eq a b))
      × (gt a b ≡ lt b a)
      × (le a b ≡ ge b a)
unfolding ne gt le ge
comparison_total a b =
    (eq_iff a b, lt_irrefl a, ground (arith, le-eq-ge a b), refl, refl, le-eq-ge a b)
