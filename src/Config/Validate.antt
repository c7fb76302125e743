-- ===== src/Config/Validate.antt =====
-- `config_validate` leaves a configuration that the threads can run on, and keeps one that is.
use knockd.Prelude.{
  ℕ, zero, suc, ◌≤◌, ◌<◌, ◌≡◌, ◌≢◌, refl, ap, ◌∙◌, inl, inr, true, false, List, [], ◌∷◌, length,
  get_or, take, Bool-cases, arith, ℤ, pos, pos_part, ◌≤ℤ◌,
}
use knockd.Settings.{Settings, knock_port, knock_seq_len}
use knockd.Settings
use knockd.Config.{
  Config, default_sequence, copy_over, set_sequence, reset_sequence_to_default, has_zero, occurs,
  has_repeat, sequence_ok, in_range_or, positive_or, validate, settings, check_sequence,
}

-- Every field is in its range.
pub record IsChecked (c : Config) : Type 0 where
  pub sequence : sequence_ok c ≡ true
  pub port : (pos 1 ≤ℤ c.protected_port) × (c.protected_port ≤ℤ pos 65535)
  pub timeout : pos 1 ≤ℤ c.access_timeout
  pub window : pos 1 ≤ℤ c.knock_window
  pub clients : (pos 1 ≤ℤ c.max_clients) × (c.max_clients ≤ℤ pos 65536)
  pub level : (pos 0 ≤ℤ c.log_level) × (c.log_level ≤ℤ pos 3)

-- The default sequence passes the check, in an array with room for it.
default_ok :
    (ps : List ℕ) (c : Config)
    → c.knock_sequence ≡ ps
    → 3 ≤ length ps
    → sequence_ok (set_sequence default_sequence c) ≡ true
unfolding sequence_ok set_sequence copy_over has_zero has_repeat occurs
default_ok [] c e l = absurd (omega arith)
default_ok (p ∷ []) c e l = absurd (omega arith)
default_ok (p ∷ q ∷ []) c e l = absurd (omega arith)
default_ok (p ∷ q ∷ r ∷ ps) c e l = rw e refl

check_sequence_ok :
    (c : Config) → length c.knock_sequence ≡ 16 → sequence_ok (check_sequence c) ≡ true
unfolding check_sequence reset_sequence_to_default
check_sequence_ok c l = elim (Bool-cases (sequence_ok c)) [
  | inl e ↦ simp e
  | inr e ↦ simp e (default_ok c.knock_sequence c refl (omega arith))
]

in_range_or_lem :
    (low high default value : ℤ)
    → low ≤ℤ default
    → default ≤ℤ high
    → (low ≤ℤ in_range_or low high default value) × (in_range_or low high default value ≤ℤ high)
unfolding in_range_or
in_range_or_lem low high default value h k = ground arith

in_range_or_same :
    (low high default value : ℤ)
    → (low ≤ℤ value) × (value ≤ℤ high)
    → in_range_or low high default value ≡ value
unfolding in_range_or
in_range_or_same low high default value h = ground arith

positive_or_lem : (default value : ℤ) → pos 1 ≤ℤ default → pos 1 ≤ℤ positive_or default value
unfolding positive_or
positive_or_lem default value h = ground arith

positive_or_same : (default value : ℤ) → pos 1 ≤ℤ value → positive_or default value ≡ value
unfolding positive_or
positive_or_same default value h = ground arith

-- Whatever the globals hold, after `config_validate` the sequence passes the checks and every
-- number is in its range.
pub validate-IsChecked : (c : Config) → length c.knock_sequence ≡ 16 → IsChecked (validate c)
unfolding validate sequence_ok
validate-IsChecked c l =
    let c1 = check_sequence c in
    record {
      sequence = check_sequence_ok c l;
      port =
          in_range_or_lem (pos 1) (pos 65535) (pos 22) c1.protected_port (omega arith)
            (omega arith);
      timeout = positive_or_lem (pos 30) c1.access_timeout (omega arith);
      window = positive_or_lem (pos 15) c1.knock_window (omega arith);
      clients =
          in_range_or_lem (pos 1) (pos 65536) (pos 64) c1.max_clients (omega arith) (omega arith);
      level = in_range_or_lem (pos 0) (pos 3) (pos 2) c1.log_level (omega arith) (omega arith);
    }

-- `config_validate` does not touch a configuration that is already in range.
pub validate_same : (c : Config) → IsChecked c → validate c ≡ c
unfolding validate check_sequence
validate_same c k = simp (
  k.sequence,
  in_range_or_same (pos 1) (pos 65535) (pos 22) c.protected_port k.port,
  positive_or_same (pos 30) c.access_timeout k.timeout,
  positive_or_same (pos 15) c.knock_window k.window,
  in_range_or_same (pos 1) (pos 65536) (pos 64) c.max_clients k.clients,
  in_range_or_same (pos 0) (pos 3) (pos 2) c.log_level k.level,
)

-- The loops of the check, as statements about the ports.
has_zero-false : (ps : List ℕ) (i : ℕ) → has_zero ps ≡ false → i < length ps → get_or ps i 0 ≢ 0
unfolding has_zero
has_zero-false [] i h l = absurd (omega arith)
has_zero-false (p ∷ ps) zero h l = ground arith
has_zero-false (p ∷ ps) (suc i) h l = has_zero-false ps i (ground arith) (omega arith)

occurs-false :
    (p : ℕ) (ps : List ℕ) (i : ℕ) → occurs p ps ≡ false → i < length ps → p ≢ get_or ps i 0
unfolding occurs
occurs-false p [] i h l = absurd (omega arith)
occurs-false p (q ∷ ps) zero h l = ground arith
occurs-false p (q ∷ ps) (suc i) h l = occurs-false p ps i (ground arith) (omega arith)

has_repeat-false :
    (ps : List ℕ) (i j : ℕ)
    → has_repeat ps ≡ false
    → i < j
    → j < length ps
    → get_or ps i 0 ≢ get_or ps j 0
unfolding has_repeat
has_repeat-false [] i j h l m = absurd (omega arith)
has_repeat-false (p ∷ ps) i zero h l m = absurd (omega arith)
has_repeat-false (p ∷ ps) zero (suc j) h l m = occurs-false p ps j (ground arith) (omega arith)
has_repeat-false (p ∷ ps) (suc i) (suc j) h l m =
    has_repeat-false ps i j (ground arith) (omega arith) (omega arith)

length-take : (n : ℕ) (xs : List ℕ) → n ≤ length xs → length (take n xs) ≡ n
length-take zero xs h = refl
length-take (suc n) [] h = absurd (omega arith)
length-take (suc n) (x ∷ xs) h = omega (arith, length-take n xs (omega arith))

sequence_parts :
    (c : Config)
    → sequence_ok c ≡ true
    → (2 ≤ c.knock_seq_len)
      × (c.knock_seq_len ≤ 16)
      × (has_zero (take c.knock_seq_len c.knock_sequence) ≡ false)
      × (has_repeat (take c.knock_seq_len c.knock_sequence) ≡ false)
unfolding sequence_ok
sequence_parts c h = ground arith

settings-IsValid :
    (c : Config) → length c.knock_sequence ≡ 16 → IsChecked c → Settings.IsValid (settings c)
unfolding settings
settings-IsValid c l k =
    let p = sequence_parts c k.sequence in
    let ports = take c.knock_seq_len c.knock_sequence in
    let n = length-take c.knock_seq_len c.knock_sequence (omega (arith, p.1)) in
    record {
      long_enough = omega (arith, n, p.0);
      short_enough = omega (arith, n, p.1);
      nonzero = λ i h. has_zero-false ports i p.2 h;
      distinct = λ i j h m. has_repeat-false ports i j p.3 h m;
      window_pos = omega (arith, k.window);
      clients_pos = omega (arith, k.clients.0);
    }

pub length-copy_over : (src dst : List ℕ) → length (copy_over src dst) ≡ length dst
unfolding copy_over
length-copy_over [] dst = refl
length-copy_over (x ∷ src) [] = refl
length-copy_over (x ∷ src) (y ∷ dst) = ap suc (length-copy_over src dst)

length-validate : (c : Config) → length (validate c).knock_sequence ≡ length c.knock_sequence
unfolding validate check_sequence reset_sequence_to_default set_sequence
length-validate c = elim (Bool-cases (sequence_ok c)) [
  | inl e ↦ simp e
  | inr e ↦ simp (e, length-copy_over)
]

-- The numbers that the threads read are the numbers of the configuration.
abbrev pub SameNumbers : Config → Settings → Type 0
SameNumbers c s =
    (pos s.protected_port ≡ c.protected_port)
    × (pos s.access_timeout ≡ c.access_timeout)
    × (pos s.knock_window ≡ c.knock_window)
    × (pos s.max_clients ≡ c.max_clients)

pos-pos_part : (n : ℤ) → pos 1 ≤ℤ n → pos (pos_part n) ≡ n
pos-pos_part n h = ground arith

-- Whatever the globals hold, after `config_validate` the threads run on settings on which the state
-- machine's theorems rest: two to sixteen ports, none of them 0, no two the same, and a positive
-- window and table size; and the numbers that they read are those of the configuration.
pub validated_settings :
    (c : Config)
    → length c.knock_sequence ≡ 16
    → Settings.IsValid (settings (validate c)) × SameNumbers (validate c) (settings (validate c))
unfolding settings
validated_settings c l =
    let k = validate-IsChecked c l in
    (
      settings-IsValid (validate c) (length-validate c ∙ l) k,
      (
        pos-pos_part (validate c).protected_port k.port.0,
        pos-pos_part (validate c).access_timeout k.timeout,
        pos-pos_part (validate c).knock_window k.window,
        pos-pos_part (validate c).max_clients k.clients.0,
      ),
    )
