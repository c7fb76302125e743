-- ===== src/Daemon/Tests.antt =====
-- A run of the processor loop: a client knocks, the rule is inserted, and the grant expires.
use knockd.Prelude.{
  All, ℕ, zero, suc, ◌<◌, ◌≡◌, ◌≢◌, refl, true, false, some, List, [], ◌∷◌, replicate, arith,
}
use knockd.Settings.{Settings, IsValid, knock_port}
use knockd.Knocker
use knockd.Firewall
use knockd.Firewall.{
  Env, new_chain, flush_chain, check_jump, insert_grant, delete_grant, hook, exec, open_grant,
  open_in, reserve, find_grant, find_slot, tick, expire, revoke, is_due,
}
use knockd.Firewall.Lifecycle.{fresh}
use knockd.Knocker.{
  process_locked, advance_at, advance, match_port, is_retransmit, expired, find_client,
  alloc_client, scan, older, claim, claimed, cleanup_stale, sweep,
}
use knockd.Daemon.{
  Daemon, Arrival, Turn, start, run_processor, turn, scan_stale, drain, process_event, is_complete,
}
use knockd.Daemon.Heard.{all_heard, Earned}
use knockd.Daemon.Invited.{only_invited}

abbrev pub settings : Settings
settings = record {
  knock_sequence = 7000 ∷ 8000 ∷ [];
  protected_port = 22;
  access_timeout = 30;
  knock_window = 15;
  max_clients = 2;
}

settings-nonzero : (i : ℕ) → i < 2 → knock_port settings i ≢ 0
settings-nonzero zero h = ground arith
settings-nonzero (suc zero) h = ground arith
settings-nonzero (suc (suc i)) h = absurd (omega arith)

settings-distinct : (i j : ℕ) → i < j → j < 2 → knock_port settings i ≢ knock_port settings j
settings-distinct i zero h l = absurd (omega arith)
settings-distinct zero (suc zero) h l = ground arith
settings-distinct (suc i) (suc zero) h l = absurd (omega arith)
settings-distinct i (suc (suc j)) h l = absurd (omega arith)

pub settings-IsValid : IsValid settings
settings-IsValid = record {
  long_enough = omega arith;
  short_enough = omega arith;
  nonzero = settings-nonzero;
  distinct = settings-distinct;
  window_pos = omega arith;
  clients_pos = omega arith;
}

-- Every address formats and every run of iptables succeeds.
abbrev pub host : Env
host = record { formats = λ ip. true; succeeds = λ ran cmd. true }

abbrev pub booted : Daemon
booted = record {
  clients = replicate 2 Knocker.zeroed;
  firewall = record {
    grants = some (replicate 2 Firewall.zeroed);
    added_jump = false;
    ran = (check_jump, true) ∷ (flush_chain, true) ∷ (new_chain, true) ∷ [];
  };
  last_cleanup = 100;
}

pub host-start : start settings host true true 100 fresh ≡ some booted
unfolding start Knocker.init Firewall.init hook exec
host-start = refl

abbrev knock : ℕ → ℕ → Arrival
knock now port = record {
  event = record { src_ip = 10; dst_port = port };
  now = now;
  later = now;
  opened = now;
}

abbrev turns : List Turn
turns =
    record { arrived = knock 101 7000 ∷ knock 101 7000 ∷ []; ticked = 101; now = 101; swept = 101 }
    ∷ record { arrived = []; ticked = 106; now = 106; swept = 106 }
    ∷ record { arrived = knock 110 8000 ∷ []; ticked = 110; now = 110; swept = 110 }
    ∷ record { arrived = []; ticked = 140; now = 140; swept = 140 }
    ∷ []

open_and_shut :
    (run_processor settings host booted turns).firewall.ran
    ≡ (delete_grant 10, true) ∷ (insert_grant 10, true) ∷ booted.firewall.ran
unfolding run_processor turn scan_stale drain process_event process_locked advance_at advance
    match_port is_retransmit expired find_client alloc_client scan older claim claimed cleanup_stale
    sweep exec open_grant open_in reserve find_grant find_slot tick expire revoke is_due is_complete
open_and_shut = refl

only_invited_example :
    All
      (Earned settings (all_heard [] turns))
      (run_processor settings host booted turns).firewall.ran
only_invited_example =
    only_invited settings host true true 100 booted turns settings-IsValid host-start
