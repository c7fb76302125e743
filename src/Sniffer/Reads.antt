-- ===== src/Sniffer/Reads.antt =====
-- Reads of a packet buffer, and the early `continue` of src/sniffer.c as a result.
use knockd.Prelude.{
  ℕ, ◌+◌, ◌*◌, ◌<◌, ◌≡◌, Bool, true, false, refl, Option, none, some, List, [], ◌∷◌, length,
  get_elem?, if◌then◌else◌, arith, zero, suc,
}

-- A read outside the bytes held, a packet passed over, or a value.
pub data Reading {ℓ} (A : Type ℓ) : Type ℓ where
  outside : Reading A
  reject : Reading A
  accept : A → Reading A

unfoldable pub and_then {ℓ κ} : {A : Type ℓ} {B : Type κ} → Reading A → (A → Reading B) → Reading B
and_then outside k = outside
and_then reject k = reject
and_then (accept a) k = k a

abbrev pub read {ℓ} : {A : Type ℓ} → Option A → Reading A
read none = outside
read (some a) = accept a

unfoldable pub byte_at : List ℕ → ℕ → Reading ℕ
byte_at buf i = read (get_elem? buf i)

-- `ntohs` of the two bytes at an offset.
unfoldable pub half_at : List ℕ → ℕ → Reading ℕ
half_at buf i =
    and_then (byte_at buf i)
      (λ high. and_then (byte_at buf (i + 1)) (λ low. accept (high * 256 + low)))

-- The four bytes at an offset as a little-endian host reads them.
unfoldable pub word_at : List ℕ → ℕ → Reading ℕ
word_at buf i = and_then (byte_at buf i) (λ a. and_then (byte_at buf (i + 1)) (λ b.
    and_then (byte_at buf (i + 2))
      (λ c. and_then (byte_at buf (i + 3)) (λ d. accept (a + 256 * b + 65536 * c + 16777216 * d)))))

-- The reading stays inside the buffer, and a value it gives has the property.
pub data Yields {ℓ κ} {A : Type ℓ} (P : A → Type κ) : Reading A → Type (ℓ ⊔ κ) where
  rejects : Yields P reject
  accepts : {a : A} → P a → Yields P (accept a)

pub Yields-and_then {ℓ κ} :
    {A : Type ℓ} {B : Type κ} {P : A → Type 0} {Q : B → Type 0} {r : Reading A} {k : A → Reading B}
    → Yields P r
    → ((a : A) → P a → Yields Q (k a))
    → Yields Q (and_then r k)
unfolding and_then
Yields-and_then rejects h = rejects
Yields-and_then (accepts p) h = h _ p

pub Yields-if {ℓ} :
    {A : Type ℓ} {P : A → Type 0} (b : Bool) {x y : Reading A}
    → (b ≡ true → Yields P x)
    → (b ≡ false → Yields P y)
    → Yields P (if b then x else y)
Yields-if true h k = h refl
Yields-if false h k = k refl

-- `if … continue;`
pub Yields-guard {ℓ} :
    {A : Type ℓ} {P : A → Type 0} (b : Bool) {y : Reading A}
    → (b ≡ false → Yields P y)
    → Yields P (if b then reject else y)
Yields-guard b k = Yields-if b (λ e. rejects) k

abbrev pub Any : ℕ → Type 0
Any n = Unit

pub Yields-byte_at : (buf : List ℕ) (i : ℕ) → i < length buf → Yields Any (byte_at buf i)
unfolding byte_at
Yields-byte_at [] i h = absurd (omega arith)
Yields-byte_at (b ∷ buf) zero h = accepts tt
Yields-byte_at (b ∷ buf) (suc i) h = Yields-byte_at buf i (omega arith)

pub Yields-half_at : (buf : List ℕ) (i : ℕ) → i + 1 < length buf → Yields Any (half_at buf i)
unfolding half_at
Yields-half_at buf i h =
    Yields-and_then (Yields-byte_at buf i (omega arith))
      (λ a p. Yields-and_then (Yields-byte_at buf (i + 1) h) (λ b q. accepts tt))

pub Yields-word_at : (buf : List ℕ) (i : ℕ) → i + 3 < length buf → Yields Any (word_at buf i)
unfolding word_at
Yields-word_at buf i h = Yields-and_then (Yields-byte_at buf i (omega arith)) (λ a p.
    Yields-and_then (Yields-byte_at buf (i + 1) (omega arith)) (λ b q.
      Yields-and_then (Yields-byte_at buf (i + 2) (omega arith))
        (λ c r. Yields-and_then (Yields-byte_at buf (i + 3) h) (λ d t. accepts tt))))
