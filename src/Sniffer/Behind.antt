-- ===== src/Sniffer/Behind.antt =====
-- Readings that succeed, and reads of a buffer behind a prefix of it.
use knockd.Prelude.{
  ℕ, zero, suc, ◌+◌, ◌*◌, ◌≡◌, refl, Bool, true, false, List, [], ◌∷◌, ◌++◌, length, if◌then◌else◌,
  arith,
}
use knockd.Sniffer.Reads.{Reading, reject, accept, byte_at, half_at, word_at, and_then}

pub and_then_is :
    {A B : Type 0} {r : Reading A} {x : Reading B} (a : A) (k : A → Reading B)
    → r ≡ accept a
    → k a ≡ x
    → and_then r k ≡ x
unfolding and_then
and_then_is a k e f = rw e f

pub guard_is :
    {A : Type 0} {b : Bool} {x y : Reading A} → b ≡ false → y ≡ x → (if b then reject else y) ≡ x
guard_is e f = rw e f

pub if_is :
    {A : Type 0} {b : Bool} {x z : Reading A} (y : Reading A)
    → b ≡ true
    → x ≡ z
    → (if b then x else y) ≡ z
if_is y e f = rw e f

pub else_is :
    {A : Type 0} {b : Bool} {y z : Reading A} (x : Reading A)
    → b ≡ false
    → y ≡ z
    → (if b then x else y) ≡ z
else_is x e f = rw e f

-- A read behind a prefix.
pub byte_behind :
    (xs ys : List ℕ) (i j : ℕ) (r : Reading ℕ)
    → j ≡ length xs + i
    → byte_at ys i ≡ r
    → byte_at (xs ++ ys) j ≡ r
unfolding byte_at
byte_behind [] ys i j r e h = let q : j ≡ i = omega arith in rw q h
byte_behind (x ∷ xs) ys i zero r e h = absurd (omega arith)
byte_behind (x ∷ xs) ys i (suc j) r e h = byte_behind xs ys i j r (omega arith) h

pub half_behind :
    (xs ys : List ℕ) (i j a b : ℕ)
    → j ≡ length xs + i
    → byte_at ys i ≡ accept a
    → byte_at ys (i + 1) ≡ accept b
    → half_at (xs ++ ys) j ≡ accept (a * 256 + b)
unfolding half_at
half_behind xs ys i j a b e h k =
    and_then_is a _ (byte_behind xs ys i j (accept a) e h)
      (and_then_is b _ (byte_behind xs ys (i + 1) (j + 1) (accept b) (omega arith) k) refl)

pub word_behind :
    (xs ys : List ℕ) (i j a b c d : ℕ)
    → j ≡ length xs + i
    → byte_at ys i ≡ accept a
    → byte_at ys (i + 1) ≡ accept b
    → byte_at ys (i + 2) ≡ accept c
    → byte_at ys (i + 3) ≡ accept d
    → word_at (xs ++ ys) j ≡ accept (a + 256 * b + 65536 * c + 16777216 * d)
unfolding word_at
word_behind xs ys i j a b c d e ha hb hc hd =
    and_then_is a _ (byte_behind xs ys i j (accept a) e ha) (
      and_then_is b _ (byte_behind xs ys (i + 1) (j + 1) (accept b) (omega arith) hb) (
        and_then_is c _ (byte_behind xs ys (i + 2) (j + 2) (accept c) (omega arith) hc)
          (and_then_is d _ (byte_behind xs ys (i + 3) (j + 3) (accept d) (omega arith) hd) refl)))
