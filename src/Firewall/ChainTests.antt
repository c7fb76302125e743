-- ===== src/Firewall/ChainTests.antt =====
-- A chain that is kept as documented, and a history of calls on it.
use knockd.Prelude.{ℕ, ◌+◌, ◌-◌, ◌≤◌, ◌≡◌, refl, Bool, true, false, some, List, [], ◌∷◌, ◌==◌}
use knockd.Settings.{Settings}
use knockd.Firewall
use knockd.Firewall.{
  Env, Command, new_chain, flush_chain, check_jump, add_jump, unhook, delete_chain, insert_grant,
  delete_grant, Runs, Grant, hook, exec, open_grant, open_in, reserve, find_grant, find_slot, tick,
  expire, revoke, is_due,
}
use knockd.Firewall.Ledger.{held, one_if}
use knockd.Firewall.Lifecycle.{Call, opens, ticks, after, apply, fresh}
use knockd.Firewall.Chain.{IsChain, left_behind}
use knockd.Firewall.Chain.Table.{chain_is_table}

abbrev pub rules : Runs → ℕ → ℕ
rules [] ip = 0
rules ((c, false) ∷ ran) ip = rules ran ip
rules ((flush_chain, true) ∷ ran) ip = 0
rules ((insert_grant j, true) ∷ ran) ip = one_if (j == ip) + rules ran ip
rules ((delete_grant j, true) ∷ ran) ip = rules ran ip - one_if (j == ip)
rules ((new_chain, true) ∷ ran) ip = rules ran ip
rules ((check_jump, true) ∷ ran) ip = rules ran ip
rules ((add_jump, true) ∷ ran) ip = rules ran ip
rules ((unhook, true) ∷ ran) ip = rules ran ip
rules ((delete_chain, true) ∷ ran) ip = 0

rules-refused : (ran : Runs) (c : Command) (ip : ℕ) → rules ((c, false) ∷ ran) ip ≡ rules ran ip
rules-refused ran new_chain ip = refl
rules-refused ran flush_chain ip = refl
rules-refused ran check_jump ip = refl
rules-refused ran add_jump ip = refl
rules-refused ran unhook ip = refl
rules-refused ran delete_chain ip = refl
rules-refused ran (insert_grant j) ip = refl
rules-refused ran (delete_grant j) ip = refl

pub rules-IsChain : IsChain rules
rules-IsChain = record {
  flushed = λ ran ip. refl;
  put = λ ran j ip. refl;
  taken_away = λ ran j ip. refl;
  checked = λ ran ip. refl;
  jumps = λ ran ip. refl;
  unhooks = λ ran ip. refl;
  removed = λ ran ip. refl;
  refused = rules-refused;
}

-- The jump is not there yet, and a deletion fails while another program holds the lock.
abbrev succeeds : Runs → Command → Bool
succeeds ran check_jump = false
succeeds ran (delete_grant ip) = false
succeeds ran _ = true

abbrev env : Env
env = record { formats = λ ip. true; succeeds = succeeds }

abbrev settings : Settings
settings = record {
  knock_sequence = 7000 ∷ 8000 ∷ [];
  protected_port = 22;
  access_timeout = 30;
  knock_window = 15;
  max_clients = 2;
}

-- Two addresses are let in, the first once more before its grant ends; the second's grant ends, and
-- its rule stays.
abbrev calls : List Call
calls = ticks 135 ∷ opens 120 10 ∷ opens 105 11 ∷ opens 100 10 ∷ []

abbrev grants : List Grant
grants =
    record { ip = 10; expires_at = 150; active = true }
    ∷ record { ip = 11; expires_at = 135; active = false }
    ∷ []

calls-grants :
    (after env settings (Firewall.init env settings true fresh).1 calls).grants ≡ some grants
unfolding after apply Firewall.init hook exec open_grant open_in reserve find_grant find_slot tick
    expire revoke is_due
calls-grants = refl

chain_is_table_example :
    let ran = (after env settings (Firewall.init env settings true fresh).1 calls).ran in
    (rules ran 11 ≡ held 11 grants + left_behind 11 ran) × (held 11 grants ≤ 1)
chain_is_table_example =
    chain_is_table rules env settings true calls grants 11 rules-IsChain calls-grants

rule_stays : rules (after env settings (Firewall.init env settings true fresh).1 calls).ran 11 ≡ 1
unfolding after apply Firewall.init hook exec open_grant open_in reserve find_grant find_slot tick
    expire revoke is_due
rule_stays = refl
