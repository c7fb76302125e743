-- ===== src/Config/Written.antt =====
-- A configuration file of lines `name=value`, as `config_load` of src/config.c reads it.
use mathlib.Core.List.{append-nil, append_assoc}
use knockd.Prelude.{
  ℕ, zero, suc, ◌+◌, ◌≤◌, ◌<◌, ◌≡◌, refl, sym, ap, ◌∙◌, Bool, false, ◌||◌, List, [], ◌∷◌, ◌++◌,
  length, All, All-map, length-append, ◌==◌, arith,
}
use knockd.Config.{Config}
use knockd.Config.Text.{is_blank, skip, cut, trim_end, push, fgets_from, fgets_lines}
use knockd.Config.Load.{key_of, set_key, clean_value, parse_line, load_lines}
use knockd.Config.Numbers.{
  IsKept, IsPlain, line_end, split_at-kept, cut_rest, skip_none, trim_end-kept, All-append,
}

pub record Entry : Type 0 where
  pub name : List ℕ
  pub value : List ℕ

-- A character of a value: no NUL, no line end and no comment's beginning.
abbrev pub IsWritten : ℕ → Type 0
IsWritten c = IsPlain c × ((c == 0) ≡ false)

-- A character of a name: also no blank and no equals sign.
abbrev pub IsNamed : ℕ → Type 0
IsNamed c = IsWritten c × (is_blank c ≡ false) × ((c == 61) ≡ false)

-- The name and the value have such characters, there are no blanks at the ends of the value, and the
-- line fits the buffer of fgets.
pub record IsEntry (e : Entry) : Type 0 where
  pub some_name : 1 ≤ length e.name
  pub named : All IsNamed e.name
  pub written : All IsWritten e.value
  pub no_blank_before : skip is_blank e.value ≡ e.value
  pub no_blank_behind : trim_end e.value ≡ e.value
  pub fits : length e.name + length e.value ≤ 253

-- The line without its end.
abbrev pub line : Entry → List ℕ
line e = e.name ++ 61 ∷ e.value

unfoldable pub file_of : List Entry → List ℕ
file_of [] = []
file_of (e ∷ es) = line e ++ 10 ∷ file_of es

unfoldable pub set_all : List Entry → Config → Config
set_all [] c = c
set_all (e ∷ es) c = set_all es (set_key (key_of e.name) e.value c)

-- fgets reads a line that fits up to its end.
fgets_from-line :
    (room : ℕ) (l rest : List ℕ)
    → All (IsKept (λ c. c == 10)) l
    → length l < room
    → fgets_from room (l ++ 10 ∷ rest) ≡ (l ++ 10 ∷ [], fgets_lines rest)
unfolding fgets_from fgets_lines
fgets_from-line zero l rest h k = absurd (omega arith)
fgets_from-line (suc room) [] rest h k = refl
fgets_from-line (suc room) (c ∷ l) rest h k =
    simp (h.0, fgets_from-line room l rest h.1 (omega arith)) refl

push-line : (l : List ℕ) (ts : List (List ℕ)) → push (l ++ 10 ∷ []) ts ≡ (l ++ 10 ∷ []) ∷ ts
push-line [] ts = refl
push-line (c ∷ l) ts = refl

fgets_lines-line :
    (l rest : List ℕ)
    → All (IsKept (λ c. c == 10)) l
    → length l < 255
    → fgets_lines (l ++ 10 ∷ rest) ≡ (l ++ 10 ∷ []) ∷ fgets_lines rest
unfolding fgets_lines
fgets_lines-line l rest h k =
    ap (λ p. push p.0 p.1) (fgets_from-line 255 l rest h k) ∙ push-line l (fgets_lines rest)

cut_none : (p : ℕ → Bool) (xs : List ℕ) → All (IsKept p) xs → cut p xs ≡ xs
unfolding cut
cut_none p [] h = refl
cut_none p (x ∷ xs) h = simp (h.0, cut_none p xs h.1) refl

-- What is left of the line after its end, its comment and the blanks around the value are taken off.
clean_value-written :
    (value : List ℕ)
    → All IsWritten value
    → skip is_blank value ≡ value
    → trim_end value ≡ value
    → clean_value (value ++ 10 ∷ []) ≡ value
unfolding clean_value
clean_value-written value h before behind =
    let plain = All-map IsWritten IsPlain value (λ c w. w.0) h in
    ap (λ v. trim_end (skip is_blank v)) (cut_rest value (10 ∷ []) plain line_end)
    ∙ (ap trim_end before ∙ behind)

parse_line-written :
    (c : ℕ) (name value : List ℕ) (g : Config)
    → All IsNamed (c ∷ name)
    → All IsWritten value
    → skip is_blank value ≡ value
    → trim_end value ≡ value
    → parse_line ((c ∷ name) ++ 61 ∷ (value ++ 10 ∷ [])) g ≡ set_key (key_of (c ∷ name)) value g
unfolding parse_line
parse_line-written c name value g h w before behind =
    let split =
      split_at-kept (c ∷ name) (value ++ 10 ∷ [])
        (All-map IsNamed (IsKept (λ d. d == 61)) (c ∷ name) (λ d n. n.2) h) in
    let key =
      ap trim_end (sym (append-nil (c ∷ name)))
      ∙ trim_end-kept (c ∷ name) [] (All-map IsNamed (IsKept is_blank) (c ∷ name) (λ d n. n.1) h)
          tt in
    let no_end : (c == 10 || c == 13) ≡ false = ground (arith, h.0.0.0.1) in
    simp (h.0.0.0.0, no_end, split, key, clean_value-written value w before behind) refl

line-clear :
    (p : ℕ → Bool) (name value : List ℕ)
    → All (IsKept p) name
    → p 61 ≡ false
    → All (IsKept p) value
    → All (IsKept p) (name ++ 61 ∷ value)
line-clear p name value h k l = All-append (IsKept p) name (61 ∷ value) h (k, l)

-- One round of the loop of `config_load`.
read_line :
    (name value : List ℕ) (g : Config)
    → IsEntry (record { name = name; value = value })
    → parse_line (skip is_blank (cut (λ x. x == 0) ((name ++ 61 ∷ value) ++ 10 ∷ []))) g
      ≡ set_key (key_of name) value g
read_line [] value g e = absurd (omega (arith, e.some_name))
read_line (c ∷ name) value g e =
    let no_nul =
      line-clear (λ x. x == 0) (c ∷ name) value
        (All-map IsNamed (IsKept (λ x. x == 0)) (c ∷ name) (λ d n. n.0.1) e.named) refl
        (All-map IsWritten (IsKept (λ x. x == 0)) value (λ d n. n.1) e.written) in
    let whole =
      cut_none (λ x. x == 0) ((c ∷ name ++ 61 ∷ value) ++ 10 ∷ [])
        (All-append (IsKept (λ x. x == 0)) (c ∷ name ++ 61 ∷ value) (10 ∷ []) no_nul (refl, tt)) in
    ap (λ l. parse_line (skip is_blank l) g) whole
    ∙ (ap (λ l. parse_line l g) (skip_none is_blank c ((name ++ 61 ∷ value) ++ 10 ∷ []) e.named.0.1)
        ∙ (ap (λ l. parse_line l g) (append_assoc (c ∷ name) (61 ∷ value) (10 ∷ []))
            ∙ parse_line-written c name value g e.named e.written e.no_blank_before
                e.no_blank_behind))

entry-fits :
    (e : Entry) → IsEntry e → All (IsKept (λ c. c == 10)) (line e) × (length (line e) < 255)
entry-fits e h =
    let l = length-append e.name (61 ∷ e.value) in
    (
      line-clear (λ c. c == 10) e.name e.value
          (All-map IsNamed (IsKept (λ c. c == 10)) e.name (λ d n. ground (arith, n.0.0.1)) h.named)
          refl
          (All-map IsWritten (IsKept (λ c. c == 10)) e.value (λ d n. ground (arith, n.0.1))
            h.written),
      omega (arith, l, h.fits),
    )

-- The loop goes through the lines in order, and each sets its key.
pub load_lines-written :
    (es : List Entry) (g : Config)
    → All IsEntry es
    → load_lines (fgets_lines (file_of es)) g ≡ set_all es g
unfolding load_lines file_of set_all fgets_lines fgets_from
load_lines-written [] g h = refl
load_lines-written (e ∷ es) g h =
    let f = entry-fits e h.0 in
    ap (λ ls. load_lines ls g) (fgets_lines-line (line e) (file_of es) f.0 f.1)
    ∙ (ap (load_lines (fgets_lines (file_of es))) (read_line e.name e.value g h.0)
        ∙ load_lines-written es (set_key (key_of e.name) e.value g) h.1)
