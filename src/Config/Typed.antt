-- ===== src/Config/Typed.antt =====
-- The globals of src/config.c keep to their C types.
use knockd.Prelude.{
  ℕ, ◌<◌, ◌≡◌, refl, ◌∙◌, inl, inr, ◌||◌, Option, none, some, List, [], ◌∷◌, length, All, All-map,
  leb, ◌==◌, Bool-cases, Option-cases, arith, ℤ, ◌≤ℤ◌,
}
use knockd.Config.{
  Config, default_sequence, defaults, copy_over, set_sequence, reset_sequence_to_default,
  check_sequence, sequence_ok, in_range_or, positive_or, validate,
}
use knockd.Config.Validate.{length-copy_over}
use knockd.Config.Text.{is_blank, skip, cut, trim_end, split_at, strtol, tokens, fgets_lines}
use knockd.Config.Load.{
  int_min, int_max, parse_int, or_kept, Key, sequence_key, port_key, timeout_key, window_key,
  max_clients_key, log_level_key, interface_key, unknown_key, parse_ports, accept_ports,
  parse_sequence, parse_interface, set_key, key_of, clean_value, parse_line, load_lines,
  config_load,
}
use knockd.Config.Loaded.{IsPort, checked_range, parse_ports_lem}

abbrev pub IsUint16 : ℕ → Type 0
IsUint16 n = n < 65536

abbrev pub IsInt : ℤ → Type 0
IsInt n = (int_min ≤ℤ n) × (n ≤ℤ int_max)

-- uint16_t KNOCK_SEQUENCE[16], char KNOCK_INTERFACE[32] with its NUL, and ints.
pub record IsTyped (c : Config) : Type 0 where
  pub room : length c.knock_sequence ≡ 16
  pub ports : All IsUint16 c.knock_sequence
  pub name : length c.knock_interface < 32
  pub protected_port : IsInt c.protected_port
  pub access_timeout : IsInt c.access_timeout
  pub knock_window : IsInt c.knock_window
  pub max_clients : IsInt c.max_clients
  pub log_level : IsInt c.log_level

All-copy_over :
    (P : ℕ → Type 0) (src dst : List ℕ) → All P src → All P dst → All P (copy_over src dst)
unfolding copy_over
All-copy_over P [] dst h k = k
All-copy_over P (x ∷ src) [] h k = tt
All-copy_over P (x ∷ src) (y ∷ dst) h k = (h.0, All-copy_over P src dst h.1 k.1)

set_sequence-IsTyped :
    (ps : List ℕ) (c : Config) → All IsUint16 ps → IsTyped c → IsTyped (set_sequence ps c)
unfolding set_sequence
set_sequence-IsTyped ps c h t = record {
  room = length-copy_over ps c.knock_sequence ∙ t.room;
  ports = All-copy_over IsUint16 ps c.knock_sequence h t.ports;
  name = t.name;
  protected_port = t.protected_port;
  access_timeout = t.access_timeout;
  knock_window = t.knock_window;
  max_clients = t.max_clients;
  log_level = t.log_level;
}

or_kept-IsInt : (val : List ℕ) (old : ℤ) → IsInt old → IsInt (or_kept (parse_int val) old)
unfolding parse_int
or_kept-IsInt val old h = elim (Option-cases (parse_int val)) [
  | inl e ↦ simp e h
  | inr (n, e) ↦ simp e (checked_range int_min int_max n (strtol val) e)
]

accept_ports-IsTyped :
    (o : Option (List ℕ)) (c : Config)
    → ((ps : List ℕ) → o ≡ some ps → All IsUint16 ps)
    → IsTyped c
    → IsTyped (accept_ports o c)
unfolding accept_ports
accept_ports-IsTyped none c h t = t
accept_ports-IsTyped (some []) c h t = t
accept_ports-IsTyped (some (p ∷ ps)) c h t = set_sequence-IsTyped (p ∷ ps) c (h (p ∷ ps) refl) t

parsed_ports : (toks : List (List ℕ)) (ps : List ℕ) → parse_ports 0 toks ≡ some ps → All IsUint16 ps
parsed_ports toks ps e =
    All-map IsPort IsUint16 ps (λ p k. omega (arith, k))
      (parse_ports_lem 0 toks ps (omega arith) e).0

set_key-IsTyped : (k : Key) (val : List ℕ) (c : Config) → IsTyped c → IsTyped (set_key k val c)
unfolding set_key parse_sequence parse_interface
set_key-IsTyped sequence_key val c t = elim (Bool-cases (leb 256 (length val))) [
  | inl e ↦ rw e t
  | inr e ↦ rw e (accept_ports-IsTyped (parse_ports 0 (tokens val)) c (parsed_ports (tokens val)) t)
]
set_key-IsTyped port_key val c t = ground (arith, or_kept-IsInt val c.protected_port)
set_key-IsTyped timeout_key val c t = ground (arith, or_kept-IsInt val c.access_timeout)
set_key-IsTyped window_key val c t = ground (arith, or_kept-IsInt val c.knock_window)
set_key-IsTyped max_clients_key val c t = ground (arith, or_kept-IsInt val c.max_clients)
set_key-IsTyped log_level_key val c t = ground (arith, or_kept-IsInt val c.log_level)
set_key-IsTyped interface_key val c t = ground arith
set_key-IsTyped unknown_key val c t = t

parse_line-IsTyped : (l : List ℕ) (c : Config) → IsTyped c → IsTyped (parse_line l c)
unfolding parse_line
parse_line-IsTyped [] c t = t
parse_line-IsTyped (x ∷ xs) c t = elim (Bool-cases (x == 35 || (x == 10 || x == 13))) [
  | inl e ↦ simp e t
  | inr e ↦ elim (Option-cases (split_at 61 (x ∷ xs))) [
    | inl n ↦ simp (e, n) t
    | inr (kv, n) ↦ simp (e, n) (set_key-IsTyped (key_of (trim_end kv.0)) (clean_value kv.1) c t)
  ]
]

load_lines-IsTyped : (ls : List (List ℕ)) (c : Config) → IsTyped c → IsTyped (load_lines ls c)
unfolding load_lines
load_lines-IsTyped [] c t = t
load_lines-IsTyped (l ∷ ls) c t =
    load_lines-IsTyped ls _ (parse_line-IsTyped (skip is_blank (cut (λ x. x == 0) l)) c t)

check_sequence-IsTyped : (c : Config) → IsTyped c → IsTyped (check_sequence c)
unfolding check_sequence reset_sequence_to_default
check_sequence-IsTyped c t = elim (Bool-cases (sequence_ok c)) [
  | inl e ↦ simp e t
  | inr e ↦ simp e (set_sequence-IsTyped default_sequence c (omega arith) t)
]

validate-IsTyped : (c : Config) → IsTyped c → IsTyped (validate c)
unfolding validate in_range_or positive_or
validate-IsTyped c t = let t1 = check_sequence-IsTyped c t in ground arith

defaults-IsTyped : IsTyped defaults
defaults-IsTyped = ground arith

-- Whatever bytes the configuration file holds, and where it cannot be opened, after `config_load`
-- every global has a value of its C type: sixteen numbers of 16 bits, a name that fits its buffer
-- with the NUL, and ints.
pub config_load-IsTyped : (file : Option (List ℕ)) → IsTyped (config_load file defaults)
unfolding config_load
config_load-IsTyped none = validate-IsTyped defaults defaults-IsTyped
config_load-IsTyped (some file) =
    validate-IsTyped (load_lines (fgets_lines file) defaults)
      (load_lines-IsTyped (fgets_lines file) defaults defaults-IsTyped)
