-- ===== src/Config.antt =====
-- The configuration: src/config.c and include/config.h. A C string is the list of its bytes, without
-- the NUL. An `int` is an integer; the parser keeps it in the range of the type. Warnings are left
-- out: they have no effect on the configuration.
pub mod Validate
pub mod Text
pub mod Load
pub mod Numbers
pub mod Loaded
pub mod Listed
pub mod Typed
pub mod Mode
mod ModeTests
pub mod Written
pub mod Spelling
mod Tests
mod LoadTests
pub mod SpellingTests
use knockd.Prelude.{
  ℕ, Bool, false, not, ◌&&◌, ◌||◌, List, [], ◌∷◌, ◌++◌, length, take, replicate, ltb, ◌==◌,
  if◌then◌else◌, ℤ, pos, pos_part, ltb_ℤ, leb_ℤ,
}
use knockd.Settings.{Settings}

abbrev pub max_knock_seq_len : ℕ
max_knock_seq_len = 16

abbrev pub ifname_max : ℕ
ifname_max = 32

-- The globals.
pub record Config : Type 0 where
  pub knock_seq_len : ℕ
  pub knock_sequence : List ℕ
  pub protected_port : ℤ
  pub access_timeout : ℤ
  pub knock_window : ℤ
  pub max_clients : ℤ
  pub log_level : ℤ
  pub knock_interface : List ℕ

abbrev pub default_sequence : List ℕ
default_sequence = 7000 ∷ 8000 ∷ 9000 ∷ []

-- The initializers.
abbrev pub defaults : Config
defaults = record {
  knock_seq_len = 3;
  knock_sequence = default_sequence ++ replicate 13 0;
  protected_port = pos 22;
  access_timeout = pos 30;
  knock_window = pos 15;
  max_clients = pos 64;
  log_level = pos 2;
  knock_interface = [];
}

-- `memcpy` of an array over the beginning of another.
unfoldable pub copy_over : List ℕ → List ℕ → List ℕ
copy_over [] dst = dst
copy_over (x ∷ src) [] = []
copy_over (x ∷ src) (y ∷ dst) = x ∷ copy_over src dst

unfoldable pub set_sequence : List ℕ → Config → Config
set_sequence ports c = record c {
  knock_sequence = copy_over ports c.knock_sequence;
  knock_seq_len = length ports;
}

pub reset_sequence_to_default : Config → Config
reset_sequence_to_default c = set_sequence default_sequence c

-- The loop that looks for port 0.
unfoldable pub has_zero : List ℕ → Bool
has_zero [] = false
has_zero (p ∷ ps) = p == 0 || has_zero ps

-- The inner loop that looks for a repeat.
unfoldable pub occurs : ℕ → List ℕ → Bool
occurs p [] = false
occurs p (q ∷ qs) = p == q || occurs p qs

unfoldable pub has_repeat : List ℕ → Bool
has_repeat [] = false
has_repeat (p ∷ ps) = occurs p ps || has_repeat ps

-- `seq_ok` after the three checks.
unfoldable pub sequence_ok : Config → Bool
sequence_ok c =
    let ports = take c.knock_seq_len c.knock_sequence in
    not (ltb c.knock_seq_len 2 || ltb max_knock_seq_len c.knock_seq_len)
    && (not (has_zero ports) && not (has_repeat ports))

-- `value < low || value > high`, and the default then.
unfoldable pub in_range_or : ℤ → ℤ → ℤ → ℤ → ℤ
in_range_or low high default value = if ltb_ℤ value low || ltb_ℤ high value then default else value

-- `value <= 0`, and the default then.
unfoldable pub positive_or : ℤ → ℤ → ℤ
positive_or default value = if leb_ℤ value (pos 0) then default else value

unfoldable pub check_sequence : Config → Config
check_sequence c = if sequence_ok c then c else reset_sequence_to_default c

unfoldable pub validate : Config → Config
validate c =
    let c1 = check_sequence c in
    record c1 {
      protected_port = in_range_or (pos 1) (pos 65535) (pos 22) c1.protected_port;
      access_timeout = positive_or (pos 30) c1.access_timeout;
      knock_window = positive_or (pos 15) c1.knock_window;
      max_clients = in_range_or (pos 1) (pos 65536) (pos 64) c1.max_clients;
      log_level = in_range_or (pos 0) (pos 3) (pos 2) c1.log_level;
    }

-- The configuration as the threads read it.
unfoldable pub settings : Config → Settings
settings c = record {
  knock_sequence = take c.knock_seq_len c.knock_sequence;
  protected_port = pos_part c.protected_port;
  access_timeout = pos_part c.access_timeout;
  knock_window = pos_part c.knock_window;
  max_clients = pos_part c.max_clients;
}
