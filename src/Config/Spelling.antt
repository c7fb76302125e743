-- ===== src/Config/Spelling.antt =====
-- A whole configuration, written out to a file and read back by `config_load` of src/config.c.
use mathlib.Core.List.{append-nil}
use knockd.Prelude.{
  ℕ, ◌≤◌, ◌<◌, ◌≡◌, refl, sym, ap, ◌∙◌, false, some, List, [], ◌∷◌, ◌++◌, length, All, All-map, leb,
  arith, pos,
}
use knockd.Config.{Config, defaults, set_sequence, validate}
use knockd.Config.Validate.{IsChecked, validate_same}
use knockd.Config.Text.{is_blank, skip, trim_end}
use knockd.Config.Load.{
  sequence_name, port_name, timeout_name, window_name, max_clients_name, log_level_name,
  interface_name, key_of, same_string, set_key, parse_int, parse_interface, config_load,
}
use knockd.Config.Numbers.{
  IsDigit, decimal, IsKept, parse_int-digits, trim_end-kept, skip_none, All-append,
}
use knockd.Config.Listed.{IsSeparator, Listed, no_port, last_port, port_then, parse_sequence-Listed}
use knockd.Config.Written.{Entry, IsEntry, IsWritten, IsNamed, file_of, set_all, load_lines-written}

-- What the file sets.
pub record Choice : Type 0 where
  pub ports : List ℕ
  pub port : ℕ
  pub timeout : ℕ
  pub window : ℕ
  pub max_clients : ℕ
  pub log_level : ℕ
  pub interface : List ℕ

-- The globals with these values. Behind the ports KNOCK_SEQUENCE keeps what it had.
abbrev pub chosen : Choice → Config
chosen ch = set_sequence ch.ports (record defaults {
  protected_port = pos ch.port;
  access_timeout = pos ch.timeout;
  knock_window = pos ch.window;
  max_clients = pos ch.max_clients;
  log_level = pos ch.log_level;
  knock_interface = ch.interface;
})

-- A number as text, in decimal, leading zeros allowed.
pub record Numeral (n : ℕ) : Type 0 where
  pub text : List ℕ
  pub all_digits : All IsDigit text
  pub some_digit : 1 ≤ length text
  pub value : decimal text ≡ n
  pub short : length text ≤ 200
  pub int : n ≤ 2147483647

-- The choice as texts: the ports with any separators between them, and the interface without blanks.
pub record Spelling (ch : Choice) : Type 0 where
  pub sequence : List ℕ
  pub listed : Listed sequence ch.ports
  pub no_blank_before : skip is_blank sequence ≡ sequence
  pub no_blank_behind : trim_end sequence ≡ sequence
  pub short : length sequence ≤ 200
  pub some_port : 1 ≤ length ch.ports
  pub few_ports : length ch.ports ≤ 16
  pub port : Numeral ch.port
  pub timeout : Numeral ch.timeout
  pub window : Numeral ch.window
  pub max_clients : Numeral ch.max_clients
  pub log_level : Numeral ch.log_level
  pub solid : All (λ c. IsWritten c × IsKept is_blank c) ch.interface
  pub fits : length ch.interface < 32

-- The lines of the file.
abbrev pub lines : (ch : Choice) → Spelling ch → List Entry
lines ch sp =
    record { name = sequence_name; value = sp.sequence }
    ∷ record { name = port_name; value = sp.port.text }
    ∷ record { name = timeout_name; value = sp.timeout.text }
    ∷ record { name = window_name; value = sp.window.text }
    ∷ record { name = max_clients_name; value = sp.max_clients.text }
    ∷ record { name = log_level_name; value = sp.log_level.text }
    ∷ record { name = interface_name; value = ch.interface }
    ∷ []

skip_kept : (xs : List ℕ) → All (IsKept is_blank) xs → skip is_blank xs ≡ xs
unfolding skip
skip_kept [] h = refl
skip_kept (x ∷ xs) h = skip_none is_blank x xs h.0

trim_kept : (xs : List ℕ) → All (IsKept is_blank) xs → trim_end xs ≡ xs
trim_kept xs h = ap trim_end (sym (append-nil xs)) ∙ trim_end-kept xs [] h tt

digit-IsWritten : (c : ℕ) → IsDigit c → IsWritten c
digit-IsWritten c h = ground arith

separator-IsWritten : (c : ℕ) → IsSeparator c → IsWritten c
separator-IsWritten c h = ground arith

Listed-IsWritten : {text ports : List ℕ} → Listed text ports → All IsWritten text
Listed-IsWritten no_port = tt
Listed-IsWritten (last_port {digits} sp) =
    All-map IsDigit IsWritten digits digit-IsWritten sp.all_digits
Listed-IsWritten (port_then {digits} {text} g gap sp h k rest) =
    All-append IsWritten digits (g ∷ (gap ++ text))
      (All-map IsDigit IsWritten digits digit-IsWritten sp.all_digits)
      (
        separator-IsWritten g h,
        All-append IsWritten gap text (All-map IsSeparator IsWritten gap separator-IsWritten k)
            (Listed-IsWritten rest),
      )

-- A line of a name of the program and digits.
numeral-IsEntry :
    (n : ℕ) (name : List ℕ) (num : Numeral n)
    → 1 ≤ length name
    → length name ≤ 50
    → All IsNamed name
    → IsEntry (record { name = name; value = num.text })
numeral-IsEntry n name num l m h =
    let kept = All-map IsDigit (IsKept is_blank) num.text (λ c k. ground arith) num.all_digits in
    record {
      some_name = l;
      named = h;
      written = All-map IsDigit IsWritten num.text digit-IsWritten num.all_digits;
      no_blank_before = skip_kept num.text kept;
      no_blank_behind = trim_kept num.text kept;
      fits = omega (arith, num.short);
    }

numeral_read :
    (n : ℕ) (text : List ℕ)
    → All IsDigit text
    → 1 ≤ length text
    → decimal text ≡ n
    → n ≤ 2147483647
    → parse_int text ≡ some (pos n)
numeral_read n [] h l v b = absurd (omega arith)
numeral_read n (d ∷ ds) h l v b = parse_int-digits d ds h (omega arith) ∙ ap (λ k. some (pos k)) v

-- The names of the program, character by character.
lines-IsEntry : (ch : Choice) (sp : Spelling ch) → All IsEntry (lines ch sp)
lines-IsEntry ch sp =
    let kept =
      All-map (λ c. IsWritten c × IsKept is_blank c) (IsKept is_blank) ch.interface (λ c k. k.1)
        sp.solid in
    let sequence : IsEntry (record { name = sequence_name; value = sp.sequence }) = record {
      some_name = omega arith;
      named = ground arith;
      written = Listed-IsWritten sp.listed;
      no_blank_before = sp.no_blank_before;
      no_blank_behind = sp.no_blank_behind;
      fits = omega (arith, sp.short);
    } in
    let interface : IsEntry (record { name = interface_name; value = ch.interface }) = record {
      some_name = omega arith;
      named = ground arith;
      written =
          All-map (λ c. IsWritten c × IsKept is_blank c) IsWritten ch.interface (λ c k. k.0)
            sp.solid;
      no_blank_before = skip_kept ch.interface kept;
      no_blank_behind = trim_kept ch.interface kept;
      fits = omega (arith, sp.fits);
    } in
    let port =
      numeral-IsEntry ch.port port_name sp.port (omega arith) (omega arith) (ground arith) in
    let timeout =
      numeral-IsEntry ch.timeout timeout_name sp.timeout (omega arith) (omega arith)
        (ground arith) in
    let window =
      numeral-IsEntry ch.window window_name sp.window (omega arith) (omega arith) (ground arith) in
    let clients =
      numeral-IsEntry ch.max_clients max_clients_name sp.max_clients (omega arith) (omega arith)
        (ground arith) in
    let level =
      numeral-IsEntry ch.log_level log_level_name sp.log_level (omega arith) (omega arith)
        (ground arith) in
    (sequence, (port, (timeout, (window, (clients, (level, (interface, tt)))))))

numeral-value : (n : ℕ) (num : Numeral n) → parse_int num.text ≡ some (pos n)
numeral-value n num = numeral_read n num.text num.all_digits num.some_digit num.value num.int

lines-chosen : (ch : Choice) (sp : Spelling ch) → set_all (lines ch sp) defaults ≡ chosen ch
unfolding set_all key_of same_string set_key parse_interface set_sequence
lines-chosen ch sp =
    let short : leb 32 (length ch.interface) ≡ false = ground (arith, sp.fits) in
    let ports =
      parse_sequence-Listed sp.sequence ch.ports defaults sp.listed (omega (arith, sp.short))
        sp.some_port sp.few_ports in
    simp
      (
        ports,
        numeral-value ch.port sp.port,
        numeral-value ch.timeout sp.timeout,
        numeral-value ch.window sp.window,
        numeral-value ch.max_clients sp.max_clients,
        numeral-value ch.log_level sp.log_level,
        short,
      )
      refl

-- A configuration that `config_validate` has nothing against, written out to a file as seven lines
-- `name=value`, the numbers in decimal, with any separators between the ports, each text at most 200
-- characters long and the interface without blanks and short enough for its buffer, is read back by
-- `config_load`: every global has its value.
pub config_load-Spelling :
    (ch : Choice) (sp : Spelling ch)
    → IsChecked (chosen ch)
    → config_load (some (file_of (lines ch sp))) defaults ≡ chosen ch
unfolding config_load
config_load-Spelling ch sp k =
    ap validate
      (load_lines-written (lines ch sp) defaults (lines-IsEntry ch sp) ∙ lines-chosen ch sp)
    ∙ validate_same (chosen ch) k
