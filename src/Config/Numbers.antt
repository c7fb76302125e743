-- ===== src/Config/Numbers.antt =====
-- Numbers in the configuration file: a value printed in decimal is read back.
use native.Mathlib.Numerals.{unary_clauses}
use knockd.Prelude.{
  ℕ, ◌+◌, ◌-◌, ◌*◌, ◌^◌, ◌≤◌, ◌≡◌, refl, ap, ◌∙◌, Bool, true, false, ◌||◌, some, List, [], ◌∷◌,
  ◌++◌, length, All, All-map, ltb, ◌==◌, arith, pos,
}
use knockd.Config.{Config}
use knockd.Config.Text.{
  is_blank, is_space, is_digit, skip, cut, trim_end, split_at, digits, to_long, strtol, strtol_sign,
  strtol_digits,
}
use knockd.Config.Load.{
  parse_int, checked, set_key, key_of, clean_value, parse_line, port_name, same_string,
}

-- The number that digits stand for, each with the weight of its place.
abbrev pub decimal : List ℕ → ℕ
decimal [] = 0
decimal (d ∷ ds) = (d - 48) * 10 ^ length ds + decimal ds

abbrev pub IsDigit : ℕ → Type 0
IsDigit c = is_digit c ≡ true

abbrev pub IsBlank : ℕ → Type 0
IsBlank c = is_blank c ≡ true

weigh : (n d k r : ℕ) → (n * 10 + d) * k + r ≡ n * (k * 10) + (d * k + r)
weigh n d k r = grind arith

digits_lem :
    (n : ℕ) (ds : List ℕ) → All IsDigit ds → digits n ds ≡ (n * 10 ^ length ds + decimal ds, [])
unfolding digits
digits_lem n [] h = ap (λ k. (k, [])) (omega arith)
digits_lem n (d ∷ ds) h =
    let ih = digits_lem (n * 10 + (d - 48)) ds h.1 in
    simp (h.0, ih, weigh n (d - 48) (10 ^ length ds) (decimal ds), unary_clauses) refl

pub skip_none : (p : ℕ → Bool) (c : ℕ) (cs : List ℕ) → p c ≡ false → skip p (c ∷ cs) ≡ c ∷ cs
unfolding skip
skip_none p c cs h = rw h refl

pub strtol-digits :
    (d : ℕ) (ds : List ℕ)
    → All IsDigit (d ∷ ds)
    → decimal (d ∷ ds) ≤ 2147483647
    → strtol (d ∷ ds) ≡ some (record { value = pos (decimal (d ∷ ds)); erange = false; end = [] })
unfolding strtol strtol_sign strtol_digits to_long
strtol-digits d ds h l =
    let nospace : is_space d ≡ false = ground (arith, h.0) in
    let nominus : (d == 45) ≡ false = ground (arith, h.0) in
    let noplus : (d == 43) ≡ false = ground (arith, h.0) in
    let small : ltb 9223372036854775807 (decimal (d ∷ ds)) ≡ false = ground arith in
    let z : 0 * 10 ^ length (d ∷ ds) + decimal (d ∷ ds) ≡ decimal (d ∷ ds) = omega arith in
    simp (skip_none is_space d ds nospace, nominus, noplus, h.0, digits_lem 0 (d ∷ ds) h, z, small)
      refl

-- A value of digits alone that stands for a number up to INT_MAX is read as that number.
pub parse_int-digits :
    (d : ℕ) (ds : List ℕ)
    → All IsDigit (d ∷ ds)
    → decimal (d ∷ ds) ≤ 2147483647
    → parse_int (d ∷ ds) ≡ some (pos (decimal (d ∷ ds)))
unfolding parse_int checked
parse_int-digits d ds h l =
    let high : ltb 2147483647 (decimal (d ∷ ds)) ≡ false = ground arith in
    simp (strtol-digits d ds h l) (ground (arith, high))

-- The parts of a line that the parser takes off.
skip_blanks : (bs cs : List ℕ) → All IsBlank bs → skip is_blank (bs ++ cs) ≡ skip is_blank cs
unfolding skip
skip_blanks [] cs h = refl
skip_blanks (b ∷ bs) cs h = rw h.0 (skip_blanks bs cs h.1)

trim_blanks : (bs : List ℕ) → All IsBlank bs → trim_end bs ≡ []
unfolding trim_end
trim_blanks [] h = refl
trim_blanks (b ∷ bs) h = simp (trim_blanks bs h.1, h.0) refl

abbrev pub IsKept : (ℕ → Bool) → ℕ → Type 0
IsKept p c = p c ≡ false

-- Characters that are no blanks stay.
pub trim_end-kept :
    (xs bs : List ℕ) → All (IsKept is_blank) xs → All IsBlank bs → trim_end (xs ++ bs) ≡ xs
unfolding trim_end
trim_end-kept [] bs h k = trim_blanks bs k
trim_end-kept (x ∷ []) bs h k = simp (trim_blanks bs k, h.0) refl
trim_end-kept (x ∷ y ∷ xs) bs h k = simp (trim_end-kept (y ∷ xs) bs h.1 k) refl

-- A comment, a line end, or nothing.
pub data IsRest : List ℕ → Type 0 where
  nothing : IsRest []
  comment : (cs : List ℕ) → IsRest (35 ∷ cs)
  line_end : IsRest (10 ∷ [])

pub cut_kept :
    (p : ℕ → Bool) (xs ys : List ℕ) → All (IsKept p) xs → cut p (xs ++ ys) ≡ xs ++ cut p ys
unfolding cut
cut_kept p [] ys h = refl
cut_kept p (x ∷ xs) ys h = simp (h.0, cut_kept p xs ys h.1) refl

pub split_at-kept :
    (xs ys : List ℕ) → All (IsKept (λ c. c == 61)) xs → split_at 61 (xs ++ 61 ∷ ys) ≡ some (xs, ys)
unfolding split_at
split_at-kept [] ys h = refl
split_at-kept (x ∷ xs) ys h = simp (h.0, split_at-kept xs ys h.1) refl

pub All-append : (P : ℕ → Type 0) (xs ys : List ℕ) → All P xs → All P ys → All P (xs ++ ys)
All-append P [] ys h k = k
All-append P (x ∷ xs) ys h k = (h.0, All-append P xs ys h.1 k)

-- Not one of the characters that `clean_value` cuts at.
abbrev pub IsPlain : ℕ → Type 0
IsPlain c = ((c == 35) ≡ false) × ((c == 13 || c == 10) ≡ false)

digit-IsPlain : (c : ℕ) → IsDigit c → IsPlain c
digit-IsPlain c h = ground arith

blank-IsPlain : (c : ℕ) → IsBlank c → IsPlain c
blank-IsPlain c h = ground arith

value-IsPlain :
    (b1 ds b2 : List ℕ)
    → All IsBlank b1
    → All IsDigit ds
    → All IsBlank b2
    → All IsPlain (b1 ++ (ds ++ b2))
value-IsPlain b1 ds b2 h k l =
    All-append IsPlain b1 (ds ++ b2) (All-map IsBlank IsPlain b1 blank-IsPlain h) (
      All-append IsPlain ds b2 (All-map IsDigit IsPlain ds digit-IsPlain k)
        (All-map IsBlank IsPlain b2 blank-IsPlain l))

pub cut_rest :
    (xs rest : List ℕ)
    → All IsPlain xs
    → IsRest rest
    → cut (λ c. c == 13 || c == 10) (cut (λ c. c == 35) (xs ++ rest)) ≡ xs
unfolding cut
cut_rest [] _ h nothing = refl
cut_rest [] _ h (comment cs) = refl
cut_rest [] _ h line_end = refl
cut_rest (x ∷ xs) rest h r = simp (h.0.0, h.0.1, cut_rest xs rest h.1 r) refl

digits-IsKept : (ds : List ℕ) → All IsDigit ds → All (IsKept is_blank) ds
digits-IsKept ds h = All-map IsDigit (IsKept is_blank) ds (λ c k. ground arith) h

clean_value-digits :
    (b1 b2 rest : List ℕ) (d : ℕ) (ds : List ℕ)
    → All IsBlank b1
    → All IsDigit (d ∷ ds)
    → All IsBlank b2
    → IsRest rest
    → clean_value ((b1 ++ ((d ∷ ds) ++ b2)) ++ rest) ≡ d ∷ ds
unfolding clean_value
clean_value-digits b1 b2 rest d ds h k l r =
    let plain = value-IsPlain b1 (d ∷ ds) b2 h k l in
    let noblank : is_blank d ≡ false = ground (arith, k.0) in
    ap (λ v. trim_end (skip is_blank v)) (cut_rest (b1 ++ ((d ∷ ds) ++ b2)) rest plain r)
    ∙ (ap trim_end (skip_blanks b1 ((d ∷ ds) ++ b2) h ∙ skip_none is_blank d (ds ++ b2) noblank)
        ∙ trim_end-kept (d ∷ ds) b2 (digits-IsKept (d ∷ ds) k) l)

blanks-IsKept : (bs : List ℕ) → All IsBlank bs → All (IsKept (λ c. c == 61)) bs
blanks-IsKept bs h = All-map IsBlank (IsKept (λ c. c == 61)) bs (λ c k. ground arith) h

-- A line `port = digits`, with any blanks on either side of the equals sign and behind the digits,
-- and then a comment, a line end or nothing, sets the protected port to the number that the digits
-- stand for, if that is at most INT_MAX, and nothing else.
pub port_line :
    (b0 b1 b2 rest : List ℕ) (d : ℕ) (ds : List ℕ) (c : Config)
    → All IsBlank b0
    → All IsBlank b1
    → All IsDigit (d ∷ ds)
    → All IsBlank b2
    → IsRest rest
    → decimal (d ∷ ds) ≤ 2147483647
    → parse_line ((port_name ++ b0) ++ 61 ∷ ((b1 ++ ((d ∷ ds) ++ b2)) ++ rest)) c
      ≡ record c { protected_port = pos (decimal (d ∷ ds)) }
unfolding parse_line key_of same_string set_key
port_line b0 b1 b2 rest d ds c h0 h1 k h2 r l =
    let val = (b1 ++ ((d ∷ ds) ++ b2)) ++ rest in
    let key = trim_end-kept port_name b0 (refl, (refl, (refl, (refl, tt)))) h0 in
    let split =
      split_at-kept (port_name ++ b0) val (refl, (refl, (refl, (refl, blanks-IsKept b0 h0)))) in
    simp (split, key, clean_value-digits b1 b2 rest d ds h1 k h2 r, parse_int-digits d ds k l) refl
