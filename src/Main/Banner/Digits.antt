-- ===== src/Main/Banner/Digits.antt =====
-- `%u`: the digits that stand for a number.
use native.Mathlib.Numerals.{unary_clauses}
use knockd.Prelude.{
  ℕ, zero, suc, ◌+◌, ◌-◌, ◌*◌, ◌/◌, ◌%◌, ◌^◌, ◌≤◌, ◌<◌, ◌≡◌, ◌≢◌, refl, List, [], ◌∷◌, ◌++◌, length,
  get_or, All, length-append, ltb, inl, inr, Bool-cases, arith,
}
use knockd.Config.Numbers.{IsDigit, decimal}
use knockd.Main.Banner.{print_digits, print_unsigned}

-- The digits of a number in decimal, without zeros in front.
pub record Prints (n : ℕ) (digits : List ℕ) : Type 0 where
  pub all_digits : All IsDigit digits
  pub value : decimal digits ≡ n
  pub no_zero : 1 ≤ n → get_or digits 0 0 ≢ 48

pub tenfold : (k : ℕ) → 10 ^ suc k ≡ 10 ^ k * 10
tenfold k = simp unary_clauses refl

place : (d k r c : ℕ) → d * (k * 10) + (r * 10 + c) ≡ (d * k + r) * 10 + c
place d k r c = grind arith

decimal-append : (ds : List ℕ) (d : ℕ) → decimal (ds ++ (d ∷ [])) ≡ decimal ds * 10 + (d - 48)
decimal-append [] d = omega arith
decimal-append (x ∷ ds) d =
    let l : length (ds ++ (d ∷ [])) ≡ suc (length ds) = omega (arith, length-append ds (d ∷ [])) in
    simp (l, tenfold (length ds), decimal-append ds d)
      (place (x - 48) (10 ^ length ds) (decimal ds) (d - 48))

All-append-IsDigit :
    (ds : List ℕ) (d : ℕ) → All IsDigit ds → IsDigit d → All IsDigit (ds ++ (d ∷ []))
All-append-IsDigit [] d h k = (k, tt)
All-append-IsDigit (x ∷ ds) d h k = (h.0, All-append-IsDigit ds d h.1 k)

first-append : (ds : List ℕ) (d : ℕ) → 1 ≤ decimal ds → get_or (ds ++ (d ∷ [])) 0 0 ≡ get_or ds 0 0
first-append [] d h = absurd (omega arith)
first-append (x ∷ ds) d h = refl

one_digit : (n : ℕ) → n < 10 → Prints n ((48 + n) ∷ [])
one_digit n h = record {
  all_digits = (ground arith, tt);
  value = omega arith;
  no_zero = λ l. omega arith;
}

more_digits :
    (n : ℕ) (ds : List ℕ) → 10 ≤ n → Prints (n / 10) ds → Prints n (ds ++ ((48 + n % 10) ∷ []))
more_digits n ds h p =
    let first = first-append ds (48 + n % 10) (omega (arith, p.value)) in
    record {
      all_digits = All-append-IsDigit ds (48 + n % 10) p.all_digits (ground arith);
      value = omega (arith, decimal-append ds (48 + n % 10), p.value);
      no_zero = λ l. omega (arith, first, p.no_zero (omega arith));
    }

print_digits-Prints : (room n : ℕ) → n < 10 ^ suc room → Prints n (print_digits (suc room) n)
unfolding print_digits
print_digits-Prints zero n h = elim (Bool-cases (ltb n 10)) [
  | inl e ↦ rw e (one_digit n (ground arith))
  | inr e ↦ absurd (ground arith)
]
print_digits-Prints (suc room) n h =
    let t = tenfold (suc room) in
    elim (Bool-cases (ltb n 10)) [
      | inl e ↦ rw e (one_digit n (ground arith))
      | inr e ↦ rw e (
          more_digits n (print_digits (suc room) (n / 10)) (ground arith)
            (print_digits-Prints room (n / 10) (omega arith)))
    ]

-- An unsigned int has ten digits at most.
pub print_unsigned-Prints : (n : ℕ) → n < 2 ^ 32 → Prints n (print_unsigned n)
print_unsigned-Prints n h = print_digits-Prints 9 n (omega arith)
