-- ===== src/Daemon/ServedTests.antt =====
-- A client that knocks over three turns of the loop, while another knocks and the table is swept.
use knockd.Prelude.{ℕ, ◌≡◌, refl, true, some, List, [], ◌∷◌, arith}
use knockd.Knocker
use knockd.Knocker.{Call, knocks, sweeps}
use knockd.Knocker.Alloc.{AllLive}
use knockd.Knocker.Complete.{Campaign, last, other, swept}
use knockd.Knocker.Invariant.{init-IsTable}
use knockd.Firewall
use knockd.Firewall.{hook, exec}
use knockd.Firewall.Lifecycle.{init-Balanced}
use knockd.Daemon.{Arrival, Turn}
use knockd.Daemon.Tests.{settings, settings-IsValid, host, booted}
use knockd.Daemon.Ready.{IsReady}
use knockd.Daemon.Served.{loop_calls, batch_calls, Served, sequence-Served}

abbrev knock_of : ℕ → ℕ → ℕ → Arrival
knock_of ip now port = record {
  event = record { src_ip = ip; dst_port = port };
  now = now;
  later = now;
  opened = now;
}

abbrev turns : List Turn
turns =
    record {
      arrived = knock_of 10 101 7000 ∷ knock_of 11 102 7000 ∷ [];
      ticked = 102;
      now = 102;
      swept = 102;
    }
    ∷ record { arrived = []; ticked = 106; now = 106; swept = 106 }
    ∷ record { arrived = knock_of 10 110 8000 ∷ []; ticked = 110; now = 110; swept = 110 }
    ∷ []

abbrev calls : List Call
calls = knocks 102 102 11 7000 ∷ sweeps 106 ∷ knocks 110 110 10 8000 ∷ []

turns_calls : loop_calls booted.last_cleanup turns ≡ knocks 101 101 10 7000 ∷ calls
unfolding loop_calls batch_calls
turns_calls = refl

calls-Campaign : Campaign settings 10 1 101 calls
calls-Campaign =
    other 102 102 11 7000 (omega arith) (omega arith)
      (swept 106 (omega arith) (last 110 110 8000 [] refl (omega arith) refl))

booted-IsReady : IsReady host booted.firewall
unfolding Firewall.init hook exec
booted-IsReady = (_, refl, init-Balanced host settings true)

none_live : ¬ AllLive settings 101 booted.clients
none_live h = absurd (ground (arith, h.0.0))

booted-clients : Knocker.init settings true ≡ some booted.clients
unfolding Knocker.init
booted-clients = refl

sequence-Served_example : Served settings host 10 booted turns
sequence-Served_example =
    let table = init-IsTable settings booted.clients booted-clients in
    sequence-Served settings host 10 booted 101 101 7000 calls turns settings-IsValid table.0
      booted-IsReady refl (λ ran. refl) (table.1 10) none_live refl turns_calls calls-Campaign
