-- ===== src/Daemon/ThreadsTests.antt =====
-- A run of the two threads from packets to a rule, and the theorems about them at its end.
use knockd.Prelude.{ℕ, ◌≡◌, refl, inl, inr, some, true, false, List, [], ◌∷◌, All}
use knockd.Queue
use knockd.Queue.{KnockEvent, pop, push, advance}
use knockd.Sniffer.{
  Received, packet, sniffer_ok, Knock, is_knock_port, check_version, find_ip_offset, udp_port,
  l4_port, parse_ip, parse_packet, conclude, next_knock,
}
use knockd.Sniffer.Reads.{byte_at, half_at, word_at, and_then}
use knockd.Daemon.{Arrival, Turn, process_event, scan_stale, run_processor}
use knockd.Daemon.Heard.{all_heard}
use knockd.Daemon.Line.{OnWay, turned_away}
use knockd.Daemon.Sent.{events}
use knockd.Daemon.Progress.{turns_in}
use knockd.Daemon.Turns.{threads_refine}
use knockd.Daemon.Realized.{turns_realized}
use knockd.Firewall.{tick}
use knockd.Daemon.Tests.{settings, settings-IsValid, host, booted, host-start}
use knockd.Daemon.Threads.{
  Threads, CapturePhase, ProcessorPhase, sniffing, pushing, waiting, draining, ticking, scanning,
  leaving, boot, Step, Reach, here, CaptureStep, ProcessorStep, captures, processes, reports,
  pushes, takes, signalled,
}
use knockd.Daemon.Threads
use knockd.Config.{defaults}
use knockd.Sniffer.Socket.{Net, choose_interface, sniffer_init}
use knockd.Daemon.Stops.{Stops, shutdown-Stops}
use knockd.Daemon.Packets.{Backed, only_knockers}

-- A UDP datagram from 10.0.0.5, on an interface that has no link-layer header.
abbrev datagram : ℕ → ℕ → Received
datagram d1 d2 =
    packet 28
      (69 ∷ 0 ∷ 0 ∷ 28 ∷ 0 ∷ 1 ∷ 0 ∷ 0 ∷ 64 ∷ 17 ∷ 0 ∷ 0 ∷ 10 ∷ 0 ∷ 0 ∷ 5 ∷ 192 ∷ 168 ∷ 0 ∷ 1 ∷ 4
        ∷ 0 ∷ d1 ∷ d2 ∷ 0 ∷ 8 ∷ 0 ∷ 0 ∷ [])
      (record { sll_pkttype = 0; sll_ifindex = 2; sll_hatype = 65534 })

abbrev knock : ℕ → Knock
knock port = record { src_ip = 83886090; dst_port = port }

abbrev event : ℕ → KnockEvent
event port = record { src_ip = 83886090; dst_port = port }

abbrev sniffs : Threads → Threads
sniffs t = record t { capture = sniffing }

abbrev reports_port : ℕ → Threads → Threads
reports_port port t = record t {
  capture = pushing (event port);
  reported = event port ∷ t.reported;
}

abbrev pushes_port : ℕ → Threads → Threads
pushes_port port t = record t {
  queue = (push t.queue (event port) 100).1;
  capture = CapturePhase.at_test;
}

abbrev takes_port : ℕ → Threads → Threads
takes_port port t = record t {
  queue = (pop t.queue).1;
  processor = draining;
  daemon =
      process_event settings host t.daemon
        (record { event = event port; now = 101; later = 101; opened = 101 });
}

abbrev captured : Threads
captured =
    pushes_port 8000
      (reports_port 8000 (sniffs (pushes_port 7000 (reports_port 7000 (sniffs (boot booted))))))

abbrev processed : Threads
processed = takes_port 8000 (takes_port 7000 (record captured { processor = waiting }))

sniffs_first : next_knock settings 0 (datagram 27 88 ∷ []) ≡ sniffer_ok (knock 7000)
unfolding next_knock conclude parse_packet parse_ip find_ip_offset check_version l4_port udp_port
    is_knock_port and_then byte_at half_at word_at
sniffs_first = refl

sniffs_second : next_knock settings 0 (datagram 31 64 ∷ []) ≡ sniffer_ok (knock 8000)
unfolding next_knock conclude parse_packet parse_ip find_ip_offset check_version l4_port udp_port
    is_knock_port and_then byte_at half_at word_at
sniffs_second = refl

to_captured : Reach settings host 0 (boot booted) captured
unfolding boot
to_captured =
    Threads.next
      (Threads.next
        (Threads.next
          (Threads.next
            (Threads.next (Threads.next here (captures (CaptureStep.goes_on _ refl refl)))
              (captures (reports _ (datagram 27 88) (knock 7000) refl sniffs_first)))
            (captures (pushes _ (event 7000) 100 refl)))
          (captures (CaptureStep.goes_on _ refl refl)))
        (captures (reports _ (datagram 31 64) (knock 8000) refl sniffs_second)))
      (captures (pushes _ (event 8000) 100 refl))

to_processed : Reach settings host 0 (boot booted) processed
unfolding Queue.init push pop advance boot
to_processed =
    Threads.next
      (Threads.next (Threads.next to_captured (processes (ProcessorStep.goes_on _ refl refl)))
        (processes (takes _ (event 7000) 101 101 101 (inl refl) refl)))
      (processes (takes _ (event 8000) 101 101 101 (inr refl) refl))

only_knockers_example : All (Backed settings processed.reported) processed.daemon.firewall.ran
only_knockers_example =
    only_knockers settings host 0 true true 100 booted processed settings-IsValid host-start
      to_processed

-- A signal comes while two events wait.
abbrev signal_comes : Threads
signal_comes = record captured { running = false }

abbrev net : Net
net = record { socket = some 5; setsockopt = true; if_nametoindex = λ name. 0 }

net-socket : (sniffer_init defaults net).sock_fd ≡ some 5
unfolding sniffer_init choose_interface
net-socket = refl

-- Up to a thousand packets that are no knocks still come.
shutdown-Stops_example :
    let o = sniffer_init defaults net in Stops settings host o.ifindex o.times_out 1000 signal_comes
shutdown-Stops_example =
    shutdown-Stops settings host defaults net 5 1000 signal_comes net-socket refl refl

-- The processor finds the queue empty, ticks, does not sweep yet, and tests `g_running`.
abbrev times : Turn
times = record { arrived = []; ticked = 102; now = 102; swept = 102 }

abbrev emptied : Threads
emptied = record processed { queue = (pop processed.queue).1; processor = ticking }

abbrev ticked : Threads
ticked = record emptied {
  processor = scanning;
  daemon = record emptied.daemon { firewall = tick host 102 emptied.daemon.firewall };
}

abbrev turned : Threads
turned = record ticked {
  processor = ProcessorPhase.at_test;
  daemon = scan_stale settings times ticked.daemon;
}

to_turned : Reach settings host 0 (boot booted) turned
unfolding Queue.init push pop advance boot
to_turned =
    Threads.next
      (Threads.next
        (Threads.next to_processed (processes (ProcessorStep.finds_nothing _ (inr refl) refl)))
        (processes (ProcessorStep.ticks _ 102 refl)))
      (processes (ProcessorStep.scans _ times refl))

threads_refine_example :
    (turned.daemon ≡ run_processor settings host booted (turns_in to_turned))
    × OnWay (events (all_heard [] (turns_in to_turned))) (turned_away to_turned) turned
threads_refine_example = threads_refine settings host 0 booted turned to_turned (inl refl)

-- The two knocks in two turns, and a third in which the grant ends.
abbrev arrival : ℕ → Arrival
arrival port = record { event = event port; now = 101; later = 101; opened = 101 }

abbrev three_turns : List Turn
three_turns =
    record { arrived = arrival 7000 ∷ []; ticked = 102; now = 102; swept = 102 }
    ∷ record { arrived = arrival 8000 ∷ []; ticked = 103; now = 103; swept = 103 }
    ∷ record { arrived = []; ticked = 9000; now = 9000; swept = 9000 }
    ∷ []

turns_realized_example :
    (t : Threads) × (r : Reach settings host 0 (boot booted) t) × (t.processor
      ≡ ProcessorPhase.at_test)
    × (turns_in r ≡ three_turns)
    × (t.daemon ≡ run_processor settings host booted three_turns)
    × (t.reported ≡ events (all_heard [] three_turns))
    × (turned_away r ≡ [])
turns_realized_example = turns_realized settings host 0 booted three_turns (
  ((datagram 27 88 ∷ [], knock 7000, sniffs_first, refl), tt),
  (((datagram 31 64 ∷ [], knock 8000, sniffs_second, refl), tt), (tt, tt)),
)
