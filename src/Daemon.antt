-- ===== src/Daemon.antt =====
-- The processor thread of src/main.c, which joins the parts: a knock that completes a sequence opens
-- the firewall, grants expire, and abandoned sequences are swept. Its state is the client table, the
-- firewall and the time of the last sweep. What `pktqueue_wait` and `pktqueue_pop` deliver is a list
-- (Queue tells what they deliver); each call that reads the clock has the time it read beside it.
pub mod Heard
pub mod Invited
pub mod Threads
pub mod Called
pub mod Stops
pub mod Sent
pub mod Line
pub mod Packets
pub mod Progress
pub mod Turns
pub mod Realized
pub mod Ready
pub mod Served
pub mod Ends
mod ThreadsTests
mod ServedTests
mod EndsTests
mod Tests
use knockd.Prelude.{
  ℕ, ◌+◌, Bool, true, false, not, Option, none, some, List, [], ◌∷◌, leb, if◌then◌else◌,
}
use knockd.Settings.{Settings}
use knockd.Queue.{KnockEvent}
use knockd.Knocker
use knockd.Knocker.{KnockResult, complete, in_progress, reset, Table, process_locked, cleanup_stale}
use knockd.Firewall
use knockd.Firewall.{Env, Firewall, Status, ok, failed, open_grant, tick}

abbrev pub stale_scan_interval : ℕ
stale_scan_interval = 5

pub record Daemon : Type 0 where
  pub clients : Table
  pub firewall : Firewall
  pub last_cleanup : ℕ

-- An event, with the two times that `knocker_process` reads and the one that `firewall_open` reads.
pub record Arrival : Type 0 where
  pub event : KnockEvent
  pub now : ℕ
  pub later : ℕ
  pub opened : ℕ

pub is_complete : KnockResult → Bool
is_complete complete = true
is_complete in_progress = false
is_complete reset = false

pub process_event : Settings → Env → Daemon → Arrival → Daemon
unfolding is_complete
process_event s env d a =
    let ip = a.event.src_ip in
    let (result, clients) = process_locked s a.now a.later d.clients ip a.event.dst_port in
    let d1 = record d { clients = clients } in
    if not (is_complete result)
    then d1
    else if not (env.formats ip)
    then d1
    else record d1 { firewall = (open_grant env s a.opened ip d1.firewall).1 }

-- The inner loop: the event of the wait and those queued behind it; none after a timeout.
unfoldable pub drain : Settings → Env → Daemon → List Arrival → Daemon
drain s env d [] = d
drain s env d (a ∷ rest) = drain s env (process_event s env d a) rest

-- One turn of the loop: what arrived, and the times that `firewall_tick`, the loop itself and
-- `knocker_cleanup_stale` read.
pub record Turn : Type 0 where
  pub arrived : List Arrival
  pub ticked : ℕ
  pub now : ℕ
  pub swept : ℕ

pub scan_stale : Settings → Turn → Daemon → Daemon
scan_stale s t d =
    if leb (d.last_cleanup + stale_scan_interval) t.now
    then record d { clients = cleanup_stale s t.swept d.clients; last_cleanup = t.now }
    else d

unfoldable pub turn : Settings → Env → Daemon → Turn → Daemon
turn s env d t =
    let d1 = drain s env d t.arrived in
    scan_stale s t (record d1 { firewall = tick env t.ticked d1.firewall })

-- `run_processor`, for the turns until `g_running` is cleared.
unfoldable pub run_processor : Settings → Env → Daemon → List Turn → Daemon
run_processor s env d [] = d
run_processor s env d (t ∷ ts) = run_processor s env (turn s env d t) ts

-- The startup of `main`: the two tables; `clients_allocated` and `grants_allocated` say whether
-- `calloc` succeeded, and `now` is the time that `run_processor` reads first.
unfoldable pub start : Settings → Env → Bool → Bool → ℕ → Firewall → Option Daemon
start s env clients_allocated grants_allocated now fw = elim (Knocker.init s clients_allocated) [
  | none ↦ none
  | some cs ↦
      let (status, fw1) = Firewall.init env s grants_allocated fw in
      elim status [
        | failed ↦ none
        | ok ↦ some (record { clients = cs; firewall = fw1; last_cleanup = now })
      ]
]
