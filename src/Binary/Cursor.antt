-- ===== src/Binary/Cursor.antt =====
-- Reading in sequence: where an offset stands in a buffer, and what a reader yields there.
use database_management_syst.Prelude.{
  ℕ, ◌+◌, ◌-◌, ◌≤◌, ◌≡◌, refl, sym, ap, ◌∙◌, ◌++◌, ge→ltb, length, take, drop, length-append,
  take-append_self, drop-append_self, drop-drop, arith, append_assoc,
}
use database_management_syst.Status.{Result, ok, ◌>>=◌}
use database_management_syst.Binary.{Bytes, ensure_readable}

-- `rest` is what the buffer holds from the offset on.
pub record Cursor (bytes : Bytes) (offset : ℕ) (rest : Bytes) : Type 0 where
  pub fits : offset + length rest ≡ length bytes
  pub view : drop offset bytes ≡ rest

-- The reader succeeds with `a`, and leaves the offset in front of `rest`.
pub record Yields {ℓ} {A : Type ℓ} (r : Result (A × ℕ)) (a : A) (bytes rest : Bytes) : Type ℓ where
  pub next : ℕ
  pub returns : r ≡ ok (a, next)
  pub cursor : Cursor bytes next rest

pub Yields-bind {ℓ κ} :
    {A : Type ℓ} {B : Type κ} {m : Result (A × ℕ)} (k : A × ℕ → Result (B × ℕ)) {a : A} {b : B}
    {bytes mid rest : Bytes}
    → Yields m a bytes mid
    → ((off : ℕ) → Cursor bytes off mid → Yields (k (a, off)) b bytes rest)
    → Yields (m >>= k) b bytes rest
Yields-bind k y f =
    let z = f y.next y.cursor in
    record { next = z.next; returns = ap (λ r. r >>= k) y.returns ∙ z.returns; cursor = z.cursor }

-- The same where what follows returns no offset.
pub Yields-then {ℓ κ} :
    {A : Type ℓ} {B : Type κ} {m : Result (A × ℕ)} (k : A × ℕ → Result B) {a : A} {b : B}
    {bytes mid : Bytes}
    → Yields m a bytes mid
    → ((off : ℕ) → Cursor bytes off mid → k (a, off) ≡ ok b)
    → (m >>= k) ≡ ok b
Yields-then k y f = ap (λ r. r >>= k) y.returns ∙ f y.next y.cursor

pub Yields-ok {ℓ} :
    {A : Type ℓ} {a : A} {off : ℕ} {bytes rest : Bytes}
    → Cursor bytes off rest
    → Yields (ok (a, off)) a bytes rest
Yields-ok {off = off} c = record { next = off; returns = refl; cursor = c }

pub Cursor-start : (bytes : Bytes) → Cursor bytes 0 bytes
Cursor-start bytes = record { fits = omega arith; view = refl }

pub Cursor-append : (pre rest : Bytes) → Cursor (pre ++ rest) (length pre) rest
Cursor-append pre rest = record {
  fits = sym (length-append pre rest);
  view = drop-append_self pre rest;
}

-- A reader that yields `a` from where `enc` stands reads `a` back from the buffer that a writer has
-- grown by `enc`, and stands behind it.
pub read_back {ℓ} :
    {A : Type ℓ} (read : Bytes → ℕ → Result (A × ℕ)) (a : A) (pre enc rest : Bytes)
    {written : Bytes}
    → written ≡ pre ++ enc
    → ((bytes : Bytes) (off : ℕ)
        → Cursor bytes off (enc ++ rest)
        → Yields (read bytes off) a bytes rest)
    → read (written ++ rest) (length pre) ≡ ok (a, length written)
read_back read a pre enc rest {written} e f = y.returns ∙ ap (λ n. ok (a, n)) end
  where
    start : Cursor (written ++ rest) (length pre) (enc ++ rest)
    start = rw (e, append_assoc) (Cursor-append pre (enc ++ rest))

    y : Yields (read (written ++ rest) (length pre)) a (written ++ rest) rest
    y = f (written ++ rest) (length pre) start

    end : y.next ≡ length written
    end = omega (arith, y.cursor.fits, length-append written rest)

pub ensure_readable_lem :
    (bytes : Bytes) (offset need : ℕ)
    → offset + need ≤ length bytes
    → ensure_readable bytes offset need ≡ ok tt
unfolding ensure_readable
ensure_readable_lem bytes offset need h =
    rw (
      ge→ltb (length bytes) offset (omega arith),
      ge→ltb (length bytes - offset) need (omega arith),
    )

-- A chunk that the buffer holds in front of the offset is readable, is what `take` returns, and
-- the offset behind it stands in front of the rest.
module _ (bytes : Bytes) (off : ℕ) (xs rest : Bytes) (c : Cursor bytes off (xs ++ rest)) where
  pub chunk_readable : ensure_readable bytes off (length xs) ≡ ok tt
  chunk_readable = ensure_readable_lem bytes off _ (omega (arith, c.fits, length-append xs rest))

  pub chunk_take : take (length xs) (drop off bytes) ≡ xs
  chunk_take = rw c.view (take-append_self xs rest)

  pub chunk_advance : Cursor bytes (off + length xs) rest
  chunk_advance = record {
    fits = omega (arith, c.fits, length-append xs rest);
    view =
        sym (drop-drop (length xs) off bytes)
        ∙ ap (drop (length xs)) c.view
        ∙ drop-append_self xs rest;
  }
