-- ===== src/Config/Listed.antt =====
-- A sequence written out in the configuration file is read back.
use knockd.Prelude.{
  ℕ, ◌+◌, ◌≤◌, ◌<◌, ◌≡◌, refl, sym, ap, true, false, some, List, [], ◌∷◌, ◌++◌, length, All, leb,
  arith, pos,
}
use mathlib.Core.Option
use mathlib.Core.List.{append-nil}
use knockd.Config.{Config, set_sequence}
use knockd.Config.Text.{is_separator, split_tokens, tokens}
use knockd.Config.Load.{parse_port, parse_ports, checked, accept_ports, parse_sequence}
use knockd.Config.Numbers.{IsDigit, decimal, strtol-digits}

abbrev pub IsSeparator : ℕ → Type 0
IsSeparator c = is_separator c ≡ true

-- A port in decimal, leading zeros allowed.
pub record Spells (digits : List ℕ) (port : ℕ) : Type 0 where
  pub all_digits : All IsDigit digits
  pub some_digit : 1 ≤ length digits
  pub value : decimal digits ≡ port
  pub low : 1 ≤ port
  pub high : port ≤ 65535

-- A list of ports as text: between two of them there are separators, any number of them and of any
-- kind, and there may be some behind the last.
pub data Listed : List ℕ → List ℕ → Type 0 where
  no_port : Listed [] []
  last_port : {digits : List ℕ} {port : ℕ} → Spells digits port → Listed digits (port ∷ [])
  port_then :
      {digits text ports : List ℕ} {port : ℕ} (separator : ℕ) (separators : List ℕ)
      → Spells digits port
      → IsSeparator separator
      → All IsSeparator separators
      → Listed text ports
      → Listed (digits ++ (separator ∷ (separators ++ text))) (port ∷ ports)

tokens_gap : (gap text : List ℕ) → All IsSeparator gap → tokens (gap ++ text) ≡ tokens text
unfolding tokens split_tokens
tokens_gap [] text h = refl
tokens_gap (g ∷ gap) text h = rw h.0 (tokens_gap gap text h.1)

-- Digits are no separators, so a token goes on to the next separator.
split_tokens-digits :
    (digits text : List ℕ) (toks : List (List ℕ))
    → All IsDigit digits
    → split_tokens text ≡ ([], toks)
    → split_tokens (digits ++ text) ≡ (digits, toks)
unfolding split_tokens
split_tokens-digits [] text toks h e = e
split_tokens-digits (d ∷ digits) text toks h e =
    let inside : is_separator d ≡ false = ground (arith, h.0) in
    rw (split_tokens-digits digits text toks h.1 e, inside) refl

split_tokens-gap :
    (g : ℕ) (gap text : List ℕ)
    → IsSeparator g
    → All IsSeparator gap
    → split_tokens (g ∷ (gap ++ text)) ≡ ([], tokens text)
unfolding split_tokens tokens
split_tokens-gap g gap text h k = rw h (ap (λ ts. ([], ts)) (tokens_gap gap text k))

tokens_token :
    (digits text : List ℕ) (toks : List (List ℕ))
    → All IsDigit digits
    → 1 ≤ length digits
    → split_tokens text ≡ ([], toks)
    → tokens (digits ++ text) ≡ digits ∷ toks
unfolding tokens
tokens_token [] text toks h l e = absurd (omega arith)
tokens_token (d ∷ digits) text toks h l e = rw (split_tokens-digits (d ∷ digits) text toks h e) refl

parse_port-Spells :
    (digits : List ℕ) (port : ℕ) → Spells digits port → parse_port digits ≡ some (pos port)
unfolding parse_port checked
parse_port-Spells [] port sp = absurd (omega (arith, sp.some_digit))
parse_port-Spells (d ∷ ds) port sp =
    let read = strtol-digits d ds sp.all_digits (omega (arith, sp.value, sp.high)) in
    simp (read, sp.value) (ground (arith, sp.low, sp.high))

parse_ports_next :
    (count port : ℕ) (digits : List ℕ) (toks : List (List ℕ)) (ports : List ℕ)
    → Spells digits port
    → count < 16
    → parse_ports (count + 1) toks ≡ some ports
    → parse_ports count (digits ∷ toks) ≡ some (port ∷ ports)
unfolding parse_ports Option.bind
parse_ports_next count port digits toks ports sp l e =
    let room : leb 16 count ≡ false = ground arith in
    simp (room, parse_port-Spells digits port sp, e) refl

parse_ports-Listed :
    (count : ℕ) {text ports : List ℕ}
    → Listed text ports
    → count + length ports ≤ 16
    → parse_ports count (tokens text) ≡ some ports
unfolding parse_ports tokens split_tokens
parse_ports-Listed count no_port l = refl
parse_ports-Listed count (last_port {digits} {port} sp) l =
    let t = tokens_token digits [] [] sp.all_digits sp.some_digit refl in
    rw (sym (append-nil digits), t) (parse_ports_next count port digits [] [] sp (omega arith) refl)
parse_ports-Listed count (port_then {digits} {text} {ports} {port} g gap sp h k rest) l =
    let t =
      tokens_token digits (g ∷ (gap ++ text)) (tokens text) sp.all_digits sp.some_digit
        (split_tokens-gap g gap text h k) in
    rw t (
      parse_ports_next count port digits (tokens text) ports sp (omega arith)
        (parse_ports-Listed (count + 1) rest (omega arith)))

-- A list of one to sixteen ports, each from 1 to 65535, written out in decimal with commas, blanks
-- or tabs in between, in at most 255 characters, is read back as those ports, in their order.
pub parse_sequence-Listed :
    (text ports : List ℕ) (c : Config)
    → Listed text ports
    → length text ≤ 255
    → 1 ≤ length ports
    → length ports ≤ 16
    → parse_sequence text c ≡ set_sequence ports c
unfolding parse_sequence accept_ports
parse_sequence-Listed text [] c h l m n = absurd (omega arith)
parse_sequence-Listed text (p ∷ ports) c h l m n =
    let short : leb 256 (length text) ≡ false = ground arith in
    simp (short, parse_ports-Listed 0 h (omega arith)) refl
