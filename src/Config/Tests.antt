-- ===== src/Config/Tests.antt =====
-- Runs of `config_validate`, and the theorems of the configuration at concrete values.
use knockd.Prelude.{◌∷◌, [], ◌≡◌, refl, replicate, arith, pos, negsuc}
use knockd.Settings.{Settings}
use knockd.Settings
use knockd.Config.{
  Config, defaults, validate, settings, check_sequence, in_range_or, positive_or, sequence_ok,
  has_zero, has_repeat, occurs, reset_sequence_to_default, set_sequence, copy_over,
}
use knockd.Config.Validate.{IsChecked, SameNumbers, validated_settings}

-- A repeated knock port, a port out of range and a window of -2.
abbrev broken : Config
broken = record {
  knock_seq_len = 3;
  knock_sequence = 7000 ∷ 7000 ∷ 9000 ∷ replicate 13 0;
  protected_port = pos 70000;
  access_timeout = pos 7200;
  knock_window = negsuc 1;
  max_clients = pos 10;
  log_level = pos 1;
  knock_interface = [];
}

-- It is repaired, and the timeout is kept.
repaired : validate broken ≡ record defaults {
  access_timeout = pos 7200;
  knock_sequence = 7000 ∷ 8000 ∷ 9000 ∷ replicate 13 0;
  max_clients = pos 10;
  log_level = pos 1;
}
unfolding validate check_sequence in_range_or positive_or sequence_ok has_zero has_repeat occurs
    reset_sequence_to_default set_sequence copy_over
repaired = refl

-- What is left of it fits what the threads rely on.
repaired_fits :
    Settings.IsValid (settings (validate broken))
    × SameNumbers (validate broken) (settings (validate broken))
repaired_fits = validated_settings broken refl

-- The compiled-in defaults pass every check.
defaults-IsChecked : IsChecked defaults
unfolding sequence_ok has_zero has_repeat occurs
defaults-IsChecked = record {
  sequence = refl;
  port = (omega arith, omega arith);
  timeout = omega arith;
  window = omega arith;
  clients = (omega arith, omega arith);
  level = (omega arith, omega arith);
}
