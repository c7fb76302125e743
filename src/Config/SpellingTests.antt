-- ===== src/Config/SpellingTests.antt =====
-- A configuration file with every key, and what it is read as.
use knockd.Prelude.{◌≡◌, refl, some, All, [], ◌∷◌, ◌++◌, arith, bytes}
use knockd.Config.{defaults, set_sequence, copy_over, sequence_ok, has_zero, has_repeat, occurs}
use knockd.Config.Validate.{IsChecked}
use knockd.Config.Text.{is_blank, skip, trim_end}
use knockd.Config.Load.{config_load}
use knockd.Config.Listed.{Spells, last_port, port_then}
use knockd.Config.Numbers.{IsKept}
use knockd.Config.Written.{IsWritten, file_of}
use knockd.Config.Spelling.{Choice, chosen, Numeral, Spelling, lines, config_load-Spelling}

abbrev pub choice : Choice
choice = record {
  ports = 1000 ∷ 2000 ∷ [];
  port = 2222;
  timeout = 60;
  window = 5;
  max_clients = 16;
  log_level = 1;
  interface = bytes "eth0";
}

pub first_port : Spells (bytes "1000") 1000
first_port = record {
  all_digits = ground arith;
  some_digit = omega arith;
  value = refl;
  low = omega arith;
  high = omega arith;
}

pub second_port : Spells (bytes "2000") 2000
second_port = record {
  all_digits = ground arith;
  some_digit = omega arith;
  value = refl;
  low = omega arith;
  high = omega arith;
}

abbrev port : Numeral 2222
port = record {
  text = bytes "2222";
  all_digits = (refl, (refl, (refl, (refl, tt))));
  some_digit = omega arith;
  value = refl;
  short = omega arith;
  int = omega arith;
}

abbrev timeout : Numeral 60
timeout = record {
  text = bytes "060";
  all_digits = (refl, (refl, (refl, tt)));
  some_digit = omega arith;
  value = refl;
  short = omega arith;
  int = omega arith;
}

abbrev window : Numeral 5
window = record {
  text = bytes "5";
  all_digits = (refl, tt);
  some_digit = omega arith;
  value = refl;
  short = omega arith;
  int = omega arith;
}

abbrev clients : Numeral 16
clients = record {
  text = bytes "16";
  all_digits = (refl, (refl, tt));
  some_digit = omega arith;
  value = refl;
  short = omega arith;
  int = omega arith;
}

abbrev level : Numeral 1
level = record {
  text = bytes "1";
  all_digits = (refl, tt);
  some_digit = omega arith;
  value = refl;
  short = omega arith;
  int = omega arith;
}

pub interface-IsWritten : All (λ c. IsWritten c × IsKept is_blank c) (bytes "eth0")
interface-IsWritten = ground arith

-- "1000,\t2000"
abbrev pub spelling : Spelling choice
unfolding skip trim_end
spelling = record {
  sequence = bytes "1000" ++ (44 ∷ (9 ∷ [] ++ bytes "2000"));
  listed = port_then 44 (9 ∷ []) first_port refl (refl, tt) (last_port second_port);
  no_blank_before = refl;
  no_blank_behind = refl;
  short = omega arith;
  some_port = omega arith;
  few_ports = omega arith;
  port = port;
  timeout = timeout;
  window = window;
  max_clients = clients;
  log_level = level;
  solid = interface-IsWritten;
  fits = omega arith;
}

pub choice-IsChecked : IsChecked (chosen choice)
unfolding sequence_ok set_sequence copy_over has_zero has_repeat occurs
choice-IsChecked = record {
  sequence = refl;
  port = ground arith;
  timeout = ground arith;
  window = ground arith;
  clients = ground arith;
  level = ground arith;
}

config_load-Spelling_example :
    config_load (some (file_of (lines choice spelling))) defaults ≡ chosen choice
config_load-Spelling_example = config_load-Spelling choice spelling choice-IsChecked
