-- ===== src/Config/LoadTests.antt =====
-- Runs of `config_load` on files, and the theorems of the parser at concrete values.
use mathlib.Core.Option
use knockd.Prelude.{ℕ, ◌∷◌, [], ◌++◌, ◌≡◌, refl, List, some, replicate, arith, pos}
use knockd.Settings
use knockd.Config.{
  defaults, settings, validate, check_sequence, in_range_or, positive_or, sequence_ok, has_zero,
  has_repeat, occurs, set_sequence, copy_over,
}
use knockd.Config.Validate.{SameNumbers}
use knockd.Config.Text.{
  skip, cut, trim_end, split_at, digits, to_long, strtol, strtol_sign, strtol_digits, tokens,
  split_tokens, fgets_lines, fgets_from,
}
use knockd.Config.Load.{
  config_load, load_lines, parse_line, parse_int, parse_port, parse_ports, parse_sequence,
  accept_ports, checked, clean_value, key_of, same_string, set_key, port_name, sequence_name,
}
use knockd.Config.Loaded.{loaded_settings}
use knockd.Config.Numbers.{comment, port_line}
use knockd.Config.Listed.{Spells, last_port, port_then, parse_sequence-Listed}
use knockd.Config.Typed.{IsTyped, config_load-IsTyped}

-- "1000, 2000 3000"
abbrev ports : List ℕ
ports = 49 ∷ 48 ∷ 48 ∷ 48 ∷ 44 ∷ 32 ∷ 50 ∷ 48 ∷ 48 ∷ 48 ∷ 32 ∷ 51 ∷ 48 ∷ 48 ∷ 48 ∷ []

-- "sequence = 1000, 2000 3000\nport=70000\n"
abbrev file : List ℕ
file =
    sequence_name ++ 32 ∷ 61 ∷ 32 ∷ ports ++ 10 ∷ port_name ++ 61 ∷ 55 ∷ 48 ∷ 48 ∷ 48 ∷ 48 ∷ 10 ∷ []

-- The sequence is taken, the port falls back to its default.
loads :
    config_load (some file) defaults
    ≡ record defaults { knock_sequence = 1000 ∷ 2000 ∷ 3000 ∷ replicate 13 0 }
unfolding config_load fgets_lines fgets_from load_lines parse_line skip cut trim_end split_at key_of
    same_string clean_value set_key parse_sequence tokens split_tokens parse_ports parse_port
    parse_int checked strtol strtol_sign strtol_digits digits to_long accept_ports set_sequence
    copy_over Option.bind validate check_sequence in_range_or positive_or sequence_ok has_zero
    has_repeat occurs
loads = refl

-- A comment of 255 characters, and then "port=1": the tail is read as a line.
long_comment :
    (config_load (some (replicate 255 35 ++ port_name ++ 61 ∷ 49 ∷ [])) defaults).protected_port
    ≡ pos 1
unfolding config_load fgets_lines fgets_from load_lines parse_line skip cut trim_end split_at key_of
    same_string clean_value set_key parse_int checked strtol strtol_sign strtol_digits digits
    to_long validate check_sequence in_range_or positive_or sequence_ok has_zero has_repeat occurs
long_comment = refl

loaded_settings_example :
    Settings.IsValid (settings (config_load (some file) defaults))
    × SameNumbers (config_load (some file) defaults) (settings (config_load (some file) defaults))
loaded_settings_example = loaded_settings (some file)

-- "port =\t2222 # ssh"
port_line_example :
    parse_line
      ((port_name ++ 32 ∷ [])
        ++ 61 ∷ ((9 ∷ [] ++ (50 ∷ 50 ∷ 50 ∷ 50 ∷ [] ++ 32 ∷ [])) ++ 35 ∷ 115 ∷ 115 ∷ 104 ∷ []))
      defaults
    ≡ record defaults { protected_port = pos 2222 }
port_line_example =
    port_line (32 ∷ []) (9 ∷ []) (32 ∷ []) (35 ∷ 115 ∷ 115 ∷ 104 ∷ []) 50 (50 ∷ 50 ∷ 50 ∷ [])
      defaults (refl, tt) (refl, tt) (refl, (refl, (refl, (refl, tt)))) (refl, tt)
      (comment (115 ∷ 115 ∷ 104 ∷ [])) (omega arith)

first_port : Spells (49 ∷ 48 ∷ 48 ∷ 48 ∷ []) 1000
first_port = record {
  all_digits = ground arith;
  some_digit = omega arith;
  value = refl;
  low = omega arith;
  high = omega arith;
}

second_port : Spells (50 ∷ 48 ∷ 48 ∷ 48 ∷ []) 2000
second_port = record {
  all_digits = ground arith;
  some_digit = omega arith;
  value = refl;
  low = omega arith;
  high = omega arith;
}

third_port : Spells (51 ∷ 48 ∷ 48 ∷ 48 ∷ []) 3000
third_port = record {
  all_digits = ground arith;
  some_digit = omega arith;
  value = refl;
  low = omega arith;
  high = omega arith;
}

parse_sequence-Listed_example :
    parse_sequence ports defaults ≡ set_sequence (1000 ∷ 2000 ∷ 3000 ∷ []) defaults
parse_sequence-Listed_example =
    parse_sequence-Listed ports (1000 ∷ 2000 ∷ 3000 ∷ []) defaults
      (port_then 44 (32 ∷ []) first_port refl (refl, tt)
        (port_then 32 [] second_port refl tt (last_port third_port)))
      (omega arith) (omega arith) (omega arith)

config_load-IsTyped_example : IsTyped (config_load (some file) defaults)
config_load-IsTyped_example = config_load-IsTyped (some file)
