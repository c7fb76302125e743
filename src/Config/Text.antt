-- ===== src/Config/Text.antt =====
-- Strings of src/config.c: the functions of the C library that it calls, and its loops over
-- characters. A string is the list of its bytes without the NUL.
use mathlib.Core.Option
use knockd.Prelude.{
  ℕ, zero, suc, ◌+◌, ◌-◌, ◌*◌, Bool, true, false, ◌&&◌, ◌||◌, Option, none, some, List, [], ◌∷◌,
  ltb, leb, ◌==◌, if◌then◌else◌, ℤ, pos, negsuc,
}

abbrev pub newline : ℕ
newline = 10

abbrev pub long_max : ℕ
long_max = 9223372036854775807

-- ' ' and '\t', the characters that the loops of `config_load` skip and trim.
abbrev pub is_blank : ℕ → Bool
is_blank c = c == 32 || c == 9

-- `isspace`
abbrev pub is_space : ℕ → Bool
is_space c = c == 32 || (leb 9 c && leb c 13)

abbrev pub is_digit : ℕ → Bool
is_digit c = leb 48 c && leb c 57

-- The separators of `parse_sequence`.
abbrev pub is_separator : ℕ → Bool
is_separator c = c == 44 || is_blank c

-- A loop that steps over the characters of a kind.
unfoldable pub skip : (ℕ → Bool) → List ℕ → List ℕ
skip p [] = []
skip p (c ∷ cs) = let rest = skip p cs in if p c then rest else c ∷ cs

-- A write of NUL at the first character of a kind, if there is one.
unfoldable pub cut : (ℕ → Bool) → List ℕ → List ℕ
cut p [] = []
cut p (c ∷ cs) = let rest = cut p cs in if p c then [] else c ∷ rest

abbrev put : ℕ → Bool → List ℕ → List ℕ
put c drops [] = if drops then [] else c ∷ []
put c drops (d ∷ ds) = c ∷ d ∷ ds

-- The loop that trims blanks at the end.
unfoldable pub trim_end : List ℕ → List ℕ
trim_end [] = []
trim_end (c ∷ cs) = put c (is_blank c) (trim_end cs)

-- `strchr`, and the write of NUL there: what stands before the character and what stands after it.
unfoldable pub split_at : ℕ → List ℕ → Option (List ℕ × List ℕ)
split_at x [] = none
split_at x (c ∷ cs) =
    let rest = Option.map (λ (p : List ℕ × List ℕ). (c ∷ p.0, p.1)) (split_at x cs) in
    if c == x then some ([], cs) else rest

-- The digits of `strtol` from a value on, and what follows them.
unfoldable pub digits : ℕ → List ℕ → ℕ × List ℕ
digits n [] = (n, [])
digits n (c ∷ cs) =
    let rest = digits (n * 10 + (c - 48)) cs in if is_digit c then rest else (n, c ∷ cs)

-- What `strtol` gives: its value, whether errno is ERANGE, and what `end` points to.
pub record Strtol : Type 0 where
  pub value : ℤ
  pub erange : Bool
  pub end : List ℕ

abbrev pub negated : ℕ → ℤ
negated zero = pos 0
negated (suc n) = negsuc n

-- A long from its sign and its magnitude.
unfoldable pub to_long : Bool → ℕ × List ℕ → Strtol
to_long false (n, rest) =
    if ltb long_max n
    then record { value = pos long_max; erange = true; end = rest }
    else record { value = pos n; erange = false; end = rest }
to_long true (n, rest) =
    if ltb (long_max + 1) n
    then record { value = negsuc long_max; erange = true; end = rest }
    else record { value = negated n; erange = false; end = rest }

-- From the first digit on; `none` where there is none.
unfoldable pub strtol_digits : Bool → List ℕ → Option Strtol
strtol_digits negative [] = none
strtol_digits negative (c ∷ cs) =
    if is_digit c then some (to_long negative (digits 0 (c ∷ cs))) else none

unfoldable pub strtol_sign : List ℕ → Option Strtol
strtol_sign [] = none
strtol_sign (c ∷ cs) =
    if c == 45
    then strtol_digits true cs
    else if c == 43
    then strtol_digits false cs
    else strtol_digits false (c ∷ cs)

-- `strtol` to base ten; `none` where `end == val`.
unfoldable pub strtol : List ℕ → Option Strtol
strtol val = strtol_sign (skip is_space val)

abbrev pub push : List ℕ → List (List ℕ) → List (List ℕ)
push [] ts = ts
push (c ∷ t) ts = (c ∷ t) ∷ ts

-- The token at the beginning, and those behind it.
unfoldable pub split_tokens : List ℕ → List ℕ × List (List ℕ)
split_tokens [] = ([], [])
split_tokens (c ∷ cs) =
    let (t, ts) = split_tokens cs in if is_separator c then ([], push t ts) else (c ∷ t, ts)

-- What `strtok` returns call by call.
unfoldable pub tokens : List ℕ → List (List ℕ)
tokens cs = let (t, ts) = split_tokens cs in push t ts

-- `fgets`, with room for some more characters: the rest of its line, and what the next calls read.
unfoldable pub fgets_from : ℕ → List ℕ → List ℕ × List (List ℕ)
fgets_from room [] = ([], [])
fgets_from zero (c ∷ cs) =
    let (l, ls) = fgets_from (if c == newline then 255 else 254) cs in
    if c == newline then ([], (c ∷ []) ∷ push l ls) else ([], (c ∷ l) ∷ ls)
fgets_from (suc room) (c ∷ cs) =
    let (l, ls) = fgets_from (if c == newline then 255 else room) cs in
    if c == newline then (c ∷ [], push l ls) else (c ∷ l, ls)

-- The lines that `fgets(line, 256, f)` reads of a file.
unfoldable pub fgets_lines : List ℕ → List (List ℕ)
fgets_lines file = let (l, ls) = fgets_from 255 file in push l ls
