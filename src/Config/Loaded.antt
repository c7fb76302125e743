-- ===== src/Config/Loaded.antt =====
-- `config_load` on any file.
use mathlib.Core.Option
use knockd.Prelude.{
  ℕ, ◌+◌, ◌≤◌, ◌≡◌, refl, sym, ◌∙◌, subst, inl, inr, ◌||◌, Option, none, some, List, [], ◌∷◌,
  length, All, leb, ◌==◌, Bool-cases, Option-cases, some_inj, arith, ℤ, pos, pos_part, ◌≤ℤ◌,
}
use knockd.Settings
use knockd.Config.{Config, set_sequence, settings, defaults}
use knockd.Config.Validate.{SameNumbers, validated_settings, length-copy_over}
use knockd.Config.Text.{
  is_blank, skip, cut, trim_end, split_at, strtol, Strtol, tokens, fgets_lines,
}
use knockd.Config.Load.{
  Key, sequence_key, port_key, timeout_key, window_key, max_clients_key, log_level_key,
  interface_key, unknown_key, parse_ports, parse_port, checked, accept_ports, parse_sequence,
  parse_interface, set_key, key_of, clean_value, parse_line, load_lines, config_load,
}

-- The array of the sequence has its size.
abbrev pub HasRoom : Config → Type 0
HasRoom c = length c.knock_sequence ≡ 16

set_sequence-HasRoom : (ps : List ℕ) (c : Config) → HasRoom c → HasRoom (set_sequence ps c)
unfolding set_sequence
set_sequence-HasRoom ps c h = length-copy_over ps c.knock_sequence ∙ h

accept_ports-HasRoom : (o : Option (List ℕ)) (c : Config) → HasRoom c → HasRoom (accept_ports o c)
unfolding accept_ports
accept_ports-HasRoom none c h = h
accept_ports-HasRoom (some []) c h = h
accept_ports-HasRoom (some (p ∷ ps)) c h = set_sequence-HasRoom (p ∷ ps) c h

set_key-HasRoom : (k : Key) (val : List ℕ) (c : Config) → HasRoom c → HasRoom (set_key k val c)
unfolding set_key parse_sequence parse_interface
set_key-HasRoom sequence_key val c h = elim (Bool-cases (leb 256 (length val))) [
  | inl e ↦ rw e h
  | inr e ↦ rw e (accept_ports-HasRoom (parse_ports 0 (tokens val)) c h)
]
set_key-HasRoom port_key val c h = h
set_key-HasRoom timeout_key val c h = h
set_key-HasRoom window_key val c h = h
set_key-HasRoom max_clients_key val c h = h
set_key-HasRoom log_level_key val c h = h
set_key-HasRoom interface_key val c h = elim (Bool-cases (leb 32 (length val))) [
  | inl e ↦ rw e h
  | inr e ↦ rw e h
]
set_key-HasRoom unknown_key val c h = h

parse_line-HasRoom : (l : List ℕ) (c : Config) → HasRoom c → HasRoom (parse_line l c)
unfolding parse_line
parse_line-HasRoom [] c h = h
parse_line-HasRoom (x ∷ xs) c h = elim (Bool-cases (x == 35 || (x == 10 || x == 13))) [
  | inl e ↦ simp e h
  | inr e ↦ elim (Option-cases (split_at 61 (x ∷ xs))) [
    | inl n ↦ simp (e, n) h
    | inr (kv, n) ↦ simp (e, n) (set_key-HasRoom (key_of (trim_end kv.0)) (clean_value kv.1) c h)
  ]
]

load_lines-HasRoom : (ls : List (List ℕ)) (c : Config) → HasRoom c → HasRoom (load_lines ls c)
unfolding load_lines
load_lines-HasRoom [] c h = h
load_lines-HasRoom (l ∷ ls) c h =
    load_lines-HasRoom ls _ (parse_line-HasRoom (skip is_blank (cut (λ x. x == 0) l)) c h)

-- From the initial values on, whatever bytes the configuration file holds, and where it cannot be
-- opened, after `config_load` the threads run on settings on which the state machine's theorems
-- rest: two to sixteen ports, none of them 0, no two the same, and a positive window and table
-- size; and the numbers that they read are those of the configuration.
pub loaded_settings :
    (file : Option (List ℕ))
    → let c = config_load file defaults in
      Settings.IsValid (settings c) × SameNumbers c (settings c)
unfolding config_load
loaded_settings none = validated_settings defaults refl
loaded_settings (some file) =
    validated_settings (load_lines (fgets_lines file) defaults)
      (load_lines-HasRoom (fgets_lines file) defaults refl)

-- A number that the checks let through is in range.
pub checked_range :
    (low high n : ℤ) (o : Option Strtol) → checked low high o ≡ some n → (low ≤ℤ n) × (n ≤ℤ high)
unfolding checked
checked_range low high n none e = absurd (ground arith)
checked_range low high n (some r) e = ground arith

abbrev pub IsPort : ℕ → Type 0
IsPort p = (1 ≤ p) × (p ≤ 65535)

parse_port_range : (tok : List ℕ) (n : ℤ) → parse_port tok ≡ some n → IsPort (pos_part n)
unfolding parse_port
parse_port_range tok n e =
    let r = checked_range (pos 1) (pos 65535) n (strtol tok) e in ground arith

-- The ports that the loop collects are ports, and there is room for them.
pub parse_ports_lem :
    (count : ℕ) (toks : List (List ℕ)) (ps : List ℕ)
    → count ≤ 16
    → parse_ports count toks ≡ some ps
    → All IsPort ps × (count + length ps ≤ 16)
unfolding parse_ports Option.bind
parse_ports_lem count [] ps h e =
    subst (λ qs. All IsPort qs × (count + length qs ≤ 16)) (some_inj e) (tt, omega arith)
parse_ports_lem count (tok ∷ toks) ps h e = elim (Bool-cases (leb 16 count)) [
  | inl f ↦ absurd (ground (arith, f))
  | inr f ↦ elim (Option-cases (parse_port tok)) [
    | inl k ↦ absurd (ground (arith, f, k))
    | inr (n, k) ↦ elim (Option-cases (parse_ports (count + 1) toks)) [
      | inl r ↦ absurd (ground (arith, f, k, r))
      | inr (qs, r) ↦
          let q : parse_ports count (tok ∷ toks) ≡ some (pos_part n ∷ qs) = simp (f, k, r) refl in
          let ih = parse_ports_lem (count + 1) toks qs (ground arith) r in
          subst (λ rs. All IsPort rs × (count + length rs ≤ 16)) (some_inj (sym q ∙ e))
            ((parse_port_range tok n k, ih.0), omega (arith, ih.1))
    ]
  ]
]

-- What `parse_sequence` does: the configuration as it was, or one to sixteen ports in range, all of
-- the list's, at the beginning of the array.
pub data SequenceSet (val : List ℕ) (c : Config) : Config → Type 0 where
  refused : SequenceSet val c c
  taken :
      (ps : List ℕ)
      → parse_ports 0 (tokens val) ≡ some ps
      → All IsPort ps
      → 1 ≤ length ps
      → length ps ≤ 16
      → SequenceSet val c (set_sequence ps c)

accept_ports-SequenceSet :
    (val : List ℕ) (c : Config) (o : Option (List ℕ))
    → parse_ports 0 (tokens val) ≡ o
    → SequenceSet val c (accept_ports o c)
unfolding accept_ports
accept_ports-SequenceSet val c none e = refused
accept_ports-SequenceSet val c (some []) e = refused
accept_ports-SequenceSet val c (some (p ∷ ps)) e =
    let r = parse_ports_lem 0 (tokens val) (p ∷ ps) (omega arith) e in
    taken (p ∷ ps) e r.0 (omega arith) (omega (arith, r.1))

-- Whatever the value of `sequence` is, `parse_sequence` leaves the configuration as it was, or sets
-- one to sixteen ports, each from 1 to 65535, that it read from all of the value.
pub parse_sequence-SequenceSet :
    (val : List ℕ) (c : Config) → SequenceSet val c (parse_sequence val c)
unfolding parse_sequence
parse_sequence-SequenceSet val c = elim (Bool-cases (leb 256 (length val))) [
  | inl e ↦ rw e refused
  | inr e ↦ rw e (accept_ports-SequenceSet val c (parse_ports 0 (tokens val)) refl)
]
