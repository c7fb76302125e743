-- ===== src/Firewall/Tests.antt =====
-- Runs of the firewall, and the theorems at inputs.
use knockd.Prelude.{◌≤◌, ◌≡◌, ◌↔◌, refl, Bool, true, false, none, some, List, [], ◌∷◌, arith}
use knockd.Settings.{Settings}
use knockd.Firewall.{
  Env, Command, check_jump, insert_grant, delete_grant, Grant, Firewall, zeroed, init, open_grant,
  shutdown,
}
use knockd.Firewall.Ledger.{inserted, deleted, held}
use knockd.Firewall.Balance.{Balanced}
use knockd.Firewall.Opening.{OpenedTo, open_grant_lem}
use knockd.Firewall.Lifecycle.{Call, opens, ticks, fresh, after, hooked, unhooked}
use knockd.Firewall.Jump.{jump_restored}
use knockd.Firewall.Child.{interrupted, exited, run_iptables, run_iptables_lem}

abbrev settings : Settings
settings = record {
  knock_sequence = 7000 ∷ 8000 ∷ 9000 ∷ [];
  protected_port = 22;
  access_timeout = 30;
  knock_window = 15;
  max_clients = 2;
}

-- A host where nothing jumps to the chain yet, and deletions fail.
abbrev answer : Command → Bool
answer check_jump = false
answer (delete_grant ip) = false
answer _ = true

abbrev host : Env
host = record { formats = λ ip. true; succeeds = λ ran cmd. answer cmd }

abbrev calls : List Call
calls = ticks 140 ∷ opens 120 11 ∷ opens 105 10 ∷ opens 100 10 ∷ []

abbrev until_135 : Grant
until_135 = record { ip = 10; expires_at = 135; active = false }

abbrev until_150 : Grant
until_150 = record { ip = 11; expires_at = 150; active = true }

abbrev running : Firewall
running = after host settings (init host settings true fresh).1 calls

abbrev held_open : List Grant
held_open = record until_135 { active = true } ∷ zeroed ∷ []

abbrev in_service : Firewall
in_service = record {
  grants = some held_open;
  added_jump = true;
  ran = (insert_grant 10, true) ∷ [];
}

in_service-Balanced : Balanced host in_service
unfolding inserted deleted held
in_service-Balanced = record {
  books = λ ip. omega arith;
  single = λ ip. ground arith;
  printable = ((λ _. refl), ((λ _. refl), tt));
}

open_grant_lem_example :
    OpenedTo host 11 130 held_open in_service.ran (open_grant host settings 100 11 in_service)
open_grant_lem_example =
    open_grant_lem host settings 100 11 held_open in_service refl refl in_service-Balanced

jump_restored_example :
    let fw = shutdown host running in
    (unhooked fw.ran ≡ hooked fw.ran) × (hooked fw.ran ≤ 1) × (fw.grants ≡ none)
jump_restored_example = jump_restored host settings true calls

run_iptables_lem_example :
    (r : Bool) × (run_iptables true (interrupted ∷ exited 0 ∷ []) ≡ some r)
    × ((r ≡ true) ↔ ((◌≡◌ {A = Bool} true true) × (exited 0 ≡ exited 0)))
run_iptables_lem_example = run_iptables_lem true (interrupted ∷ exited 0 ∷ []) (exited 0) refl
