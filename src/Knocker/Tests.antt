-- ===== src/Knocker/Tests.antt =====
-- Runs of the state machine, and the theorems at inputs.
use knockd.Prelude.{ℕ, zero, suc, ◌<◌, ◌≡◌, ◌≢◌, refl, true, some, List, [], ◌∷◌, arith}
use knockd.Settings.{Settings, IsValid, knock_port}
use knockd.Knocker.{
  KnockClient, Table, zeroed, complete, in_progress, reset, process_locked, init, find_client,
  alloc_client, advance, advance_at, match_port, expired, is_retransmit, claimed, Call, knocks,
  sweeps, apply,
}
use knockd.Knocker.Table.{tracked}
use knockd.Knocker.Alloc.{AllLive}
use knockd.Knocker.Entry.{EntryInv, IsPartway}
use knockd.Knocker.Invariant.{IsTable, process-IsTable}
use knockd.Knocker.Others.{Untouched, process-Untouched}
use knockd.Knocker.Honest.{Knocked, table_after}
use knockd.Knocker.Sound.{complete_is_earned}
use knockd.Knocker.Complete.{
  Campaign, last, own, other, swept, answers, IsGranted, sequence_completes,
}
use knockd.Knocker.Properties.{Agrees, process-Agrees, complete_once}
use knockd.Knocker.Restart.{StartsOver, wrong_port, restart_swallowed}

-- The shipped sequence, with two client slots and a window of three seconds.
abbrev settings : Settings
settings = record {
  knock_sequence = 7000 ∷ 8000 ∷ 9000 ∷ [];
  protected_port = 22;
  access_timeout = 30;
  knock_window = 3;
  max_clients = 2;
}

settings-nonzero : (i : ℕ) → i < 3 → knock_port settings i ≢ 0
settings-nonzero zero h = omega arith
settings-nonzero (suc zero) h = omega arith
settings-nonzero (suc (suc zero)) h = omega arith
settings-nonzero (suc (suc (suc i))) h = absurd (omega arith)

settings-distinct : (i j : ℕ) → i < j → j < 3 → knock_port settings i ≢ knock_port settings j
settings-distinct zero zero h l = absurd (omega arith)
settings-distinct zero (suc zero) h l = omega arith
settings-distinct zero (suc (suc zero)) h l = omega arith
settings-distinct (suc zero) zero h l = absurd (omega arith)
settings-distinct (suc zero) (suc zero) h l = absurd (omega arith)
settings-distinct (suc zero) (suc (suc zero)) h l = omega arith
settings-distinct (suc (suc i)) zero h l = absurd (omega arith)
settings-distinct (suc (suc i)) (suc zero) h l = absurd (omega arith)
settings-distinct (suc (suc i)) (suc (suc zero)) h l = absurd (omega arith)
settings-distinct i (suc (suc (suc j))) h l = absurd (omega arith)

settings-IsValid : IsValid settings
settings-IsValid = record {
  long_enough = omega arith;
  short_enough = omega arith;
  nonzero = settings-nonzero;
  distinct = settings-distinct;
  window_pos = omega arith;
  clients_pos = omega arith;
}

abbrev empty_table : Table
empty_table = zeroed ∷ zeroed ∷ []

-- Client 10 has knocked the first port at time 100.
abbrev ten : KnockClient
ten = record { ip = 10; current_step = 1; last_knock = 100; last_port = 7000; active = true }

-- Client 11 has knocked the first two, the second at time 101.
abbrev eleven : KnockClient
eleven = record { ip = 11; current_step = 2; last_knock = 101; last_port = 8000; active = true }

abbrev crowd : Table
crowd = ten ∷ eleven ∷ []

ten-IsPartway : IsPartway settings ten
ten-IsPartway = record { started = omega arith; unfinished = omega arith; last = refl }

eleven-IsPartway : IsPartway settings eleven
eleven-IsPartway = record { started = omega arith; unfinished = omega arith; last = refl }

crowd-IsTable : IsTable settings crowd
unfolding tracked
crowd-IsTable = record {
  sized = refl;
  entries = ((λ _. ten-IsPartway), ((λ _. eleven-IsPartway), tt));
  unique = ((λ _. refl), ((λ _. refl), tt));
}

zeroed-EntryInv : EntryInv settings zeroed
zeroed-EntryInv a = absurd (ground arith)

empty_table-IsTable : IsTable settings empty_table
unfolding tracked
empty_table-IsTable = record {
  sized = refl;
  entries = (zeroed-EntryInv, (zeroed-EntryInv, tt));
  unique = ((λ _. refl), ((λ _. refl), tt));
}

-- The knocks of client 10, with one of client 11 between, newest first.
abbrev history : List Call
history = knocks 102 102 10 8000 ∷ knocks 101 101 11 7000 ∷ knocks 100 100 10 7000 ∷ []

third_knock :
    (process_locked settings 103 103 (table_after settings empty_table history) 10 9000).0
    ≡ complete
unfolding table_after apply process_locked find_client alloc_client advance_at advance match_port
    expired is_retransmit claimed
third_knock = refl

empty_table-init : init settings true ≡ some empty_table
unfolding init
empty_table-init = refl

complete_is_earned_example : Knocked settings 10 3 103 (knocks 103 103 10 9000 ∷ history)
complete_is_earned_example =
    complete_is_earned settings empty_table history 103 103 10 9000 settings-IsValid
      empty_table-init third_knock

-- What client 10 does after its first knock, while client 11 knocks and the table is swept.
abbrev campaign : List Call
campaign =
    knocks 101 101 11 7000 ∷ knocks 102 102 10 8000 ∷ sweeps 103 ∷ knocks 104 104 10 9000 ∷ []

campaign-Campaign : Campaign settings 10 1 100 campaign
campaign-Campaign = other 101 101 11 7000 (omega arith) (omega arith) (
    own 102 102 8000 refl (omega arith) (omega arith)
      (swept 103 (omega arith) (last 104 104 9000 [] refl (omega arith) refl)))

not_live : ¬ AllLive settings 100 empty_table
not_live h = absurd (ground (arith, h.0.0))

sequence_completes_example :
    IsGranted 10 (answers settings empty_table (knocks 100 100 10 7000 ∷ campaign))
unfolding tracked
sequence_completes_example =
    sequence_completes settings empty_table 10 100 100 7000 campaign settings-IsValid
      empty_table-IsTable refl not_live refl campaign-Campaign

process-IsTable_example : IsTable settings (process_locked settings 102 102 crowd 11 9000).1
process-IsTable_example =
    process-IsTable settings 102 102 crowd 11 9000 settings-IsValid crowd-IsTable

ten_is_not_twelve : ◌≢◌ {A = ℕ} 10 12
ten_is_not_twelve = omega arith

process-Untouched_example :
    Untouched settings 104 crowd 10 (process_locked settings 104 104 crowd 12 7000).1
process-Untouched_example =
    process-Untouched settings 104 104 crowd 12 7000 10 settings-IsValid crowd-IsTable
      ten_is_not_twelve

process-Agrees_example : Agrees 11 (process_locked settings 102 102 crowd 11 9000)
process-Agrees_example =
    process-Agrees settings 102 102 crowd 11 9000 settings-IsValid crowd-IsTable

last_knock_completes : (process_locked settings 102 102 crowd 11 9000).0 ≡ complete
unfolding process_locked find_client advance_at advance match_port expired is_retransmit
last_knock_completes = refl

complete_once_example :
    (process_locked settings 103 103 (process_locked settings 102 102 crowd 11 9000).1 11 9000).0
    ≢ complete
complete_once_example =
    complete_once settings 102 102 103 103 crowd 11 9000 9000 settings-IsValid crowd-IsTable
      last_knock_completes

wrong_port_example :
    StartsOver settings 103 11 7000 eleven (process_locked settings 103 103 crowd 11 7000)
unfolding tracked
wrong_port_example =
    wrong_port settings 103 103 crowd 11 7000 eleven settings-IsValid crowd-IsTable refl
      (omega arith) (omega arith)

restart_swallowed_example :
    let (r, cs') = process_locked settings 104 104 crowd 10 7000 in
    (r ≡ in_progress) × (cs' ≡ crowd) × ((process_locked settings 105 105 cs' 10 8000).0 ≡ reset)
unfolding tracked
restart_swallowed_example =
    restart_swallowed settings 104 104 105 105 crowd 10 ten settings-IsValid crowd-IsTable refl refl
      (omega arith) (omega arith) (omega arith)
