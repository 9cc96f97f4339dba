-- ===== src/Binary/Bounds.antt =====
-- No reader looks or ends outside the buffer, on any input.
use database_management_syst.Prelude.{
  ℕ, ◌+◌, ◌-◌, ◌≤◌, ◌≡◌, refl, Bool, true, false, ltb, not, ◌||◌, if◌then◌else◌, length, arith,
}
use database_management_syst.Status.{
  Result, ok, err, StatusCode, invalid_argument, require, ◌>>=◌, ◌>>◌,
}
use database_management_syst.Binary.{
  Bytes, ensure_readable, read_pod, read_uint8, read_uint32, read_uint64, read_int64, read_bool,
  read_string,
}

-- A reader called at an offset inside the buffer, if it succeeds, ends at or behind that offset and
-- inside the buffer.
pub record Within {ℓ} {A : Type ℓ} (bytes : Bytes) (off : ℕ) (r : Result (A × ℕ)) : Type ℓ where
  pub bounds : (a : A) (next : ℕ) → r ≡ ok (a, next) → (off ≤ next) × (next ≤ length bytes)

module _ {ℓ} {A : Type ℓ} {bytes : Bytes} {off : ℕ} where
  pub Within-ok :
      (a : A) (next : ℕ) → off ≤ next → next ≤ length bytes → Within bytes off (ok (a, next))
  Within-ok a next h k = record { bounds = λ b n e. ground arith }

  pub Within-err : (e : StatusCode) → Within {A = A} bytes off (err e)
  Within-err e = record { bounds = λ a next h. cc }

  pub Within-require :
      (b : Bool) (e : StatusCode) (k : Result (A × ℕ))
      → (b ≡ true → Within bytes off k)
      → Within bytes off (require b e >> k)
  Within-require true e k h = h refl
  Within-require false e k h = Within-err e

pub Within-bind {ℓ κ} :
    {A : Type ℓ} {B : Type κ} {bytes : Bytes} {off : ℕ} (m : Result (A × ℕ))
    (k : A × ℕ → Result (B × ℕ))
    → Within bytes off m
    → ((a : A) (next : ℕ) → off ≤ next → next ≤ length bytes → Within bytes next (k (a, next)))
    → Within bytes off (m >>= k)
Within-bind (ok (a, next)) k h f =
    let (lo, hi) = h.bounds a next refl in
    record {
      bounds = λ b n e. let (lo', hi') = (f a next lo hi).bounds b n e in (omega arith, hi');
    }
Within-bind (err c) k h f = Within-err c

pub Within-ensure {ℓ} :
    {A : Type ℓ} {bytes : Bytes} {off : ℕ} (need : ℕ) (k : Result (A × ℕ))
    → (off + need ≤ length bytes → Within bytes off k)
    → Within bytes off (ensure_readable bytes off need >> k)
unfolding ensure_readable
Within-ensure {bytes = bytes} {off = off} need k h =
    Within-require (not (ltb (length bytes) off || ltb (length bytes - off) need)) invalid_argument
      k (λ e. h (ground arith))

read_pod-Within : (w : ℕ) (bytes : Bytes) (off : ℕ) → Within bytes off (read_pod w bytes off)
unfolding read_pod
read_pod-Within w bytes off = Within-ensure w _ (λ h. Within-ok _ _ (omega arith) h)

module _ (bytes : Bytes) (off : ℕ) where
  pub read_uint8-Within : Within bytes off (read_uint8 bytes off)
  unfolding read_uint8
  read_uint8-Within = read_pod-Within 1 bytes off

  pub read_uint32-Within : Within bytes off (read_uint32 bytes off)
  unfolding read_uint32
  read_uint32-Within = read_pod-Within 4 bytes off

  pub read_uint64-Within : Within bytes off (read_uint64 bytes off)
  unfolding read_uint64
  read_uint64-Within = read_pod-Within 8 bytes off

  pub read_int64-Within : Within bytes off (read_int64 bytes off)
  unfolding read_int64
  read_int64-Within =
      Within-bind _ _ (read_pod-Within 8 bytes off)
        (λ bits next lo hi. Within-ok _ _ (omega arith) hi)

  pub read_bool-Within : Within bytes off (read_bool bytes off)
  unfolding read_bool
  read_bool-Within = Within-bind _ _ read_uint8-Within λ raw next lo hi.
      Within-require (not (ltb 1 raw)) invalid_argument _ (λ _. Within-ok _ _ (omega arith) hi)

  pub read_string-Within : Within bytes off (read_string bytes off)
  unfolding read_string
  read_string-Within =
      Within-bind _ _ read_uint32-Within
        λ size next lo hi. Within-ensure size _ (λ h. Within-ok _ _ (omega arith) h)

pub Within-if {ℓ} :
    {A : Type ℓ} {bytes : Bytes} {off : ℕ} (b : Bool) {r s : Result (A × ℕ)}
    → Within bytes off r
    → Within bytes off s
    → Within bytes off (if b then r else s)
Within-if true h k = h
Within-if false h k = k
