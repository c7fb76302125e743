-- ===== src/Daemon/Packets.antt =====
-- From the packets to the firewall: what the sniffer reports goes through the queue to the state
-- machine in order, and a rule stands behind packets on the whole sequence.
use knockd.Prelude.{ℕ, ◌≡◌, sym, subst, Bool, some, List, [], ◌∷◌, ◌++◌, All, All-map}
use knockd.Settings.{Settings, IsValid, knock_seq_len}
use knockd.Knocker.{knocks}
use knockd.Knocker.Honest.{History}
use knockd.Firewall.{
  Env, Command, insert_grant, new_chain, flush_chain, check_jump, add_jump, unhook, delete_chain,
  delete_grant,
}
use knockd.Firewall.Lifecycle.{fresh}
use knockd.Queue.{KnockEvent}
use knockd.Daemon.{Daemon, Arrival, start}
use knockd.Daemon.Heard.{Earned}
use knockd.Daemon.Invited.{
  IsInvited, process_event-IsInvited, tick-IsInvited, scan_stale-IsInvited, start-IsInvited,
}
use knockd.Daemon.Threads.{
  CapturePhase, sniffing, pushing, leaving, ended, Threads, boot, event_of, CaptureStep, reports,
  hears_nothing, fails, pushes, ends, ProcessorStep, takes, finds_nothing, ticks, scans, shuts_down,
  joins, Step, captures, processes, signalled, Reach, here,
}
use knockd.Daemon.Threads
use knockd.Daemon.Line.{
  OnWay, lost_in, CaptureStep_apart, CaptureStep-OnWay, takes-OnWay, nothing-OnWay, shutdown-OnWay,
  boot-OnWay, OnWay-Within,
}
use knockd.Daemon.Sent.{Within, Sent, Sent-Within, events, Knocked-Sent}

-- The processor has taken reported events in order, and it has let in who was invited by them.
record InOrder (s : Settings) (t : Threads) : Type 0 where
  known : History
  lost : List KnockEvent
  invited : IsInvited s known t.daemon
  line : OnWay (events known) lost t

module _ (s : Settings) (env : Env) (ifindex : ℕ) (v : IsValid s) where
  ProcessorStep-InOrder :
      {t u : Threads} → ProcessorStep s env ifindex t u → InOrder s t → InOrder s u
  unfolding events
  ProcessorStep-InOrder (ProcessorStep.goes_on t ph r) i = record {
    known = i.known;
    lost = i.lost;
    invited = i.invited;
    line = i.line;
  }
  ProcessorStep-InOrder (ProcessorStep.gives_up t ph r) i = record {
    known = i.known;
    lost = i.lost;
    invited = i.invited;
    line = i.line;
  }
  ProcessorStep-InOrder (takes t e now later opened m h) i =
      let a : Arrival = record { event = e; now = now; later = later; opened = opened } in
      record {
        known = knocks now later e.src_ip e.dst_port ∷ i.known;
        lost = i.lost;
        invited = process_event-IsInvited s env t.daemon a i.known v i.invited;
        line = takes-OnWay (events i.known) i.lost t e i.line h;
      }
  ProcessorStep-InOrder (finds_nothing t m h) i = record {
    known = i.known;
    lost = i.lost;
    invited = i.invited;
    line = nothing-OnWay (events i.known) i.lost t i.line h;
  }
  ProcessorStep-InOrder (shuts_down t ph) i = record {
    known = i.known;
    lost = i.lost;
    invited = i.invited;
    line = shutdown-OnWay (events i.known) i.lost t i.line;
  }
  ProcessorStep-InOrder (joins t ph e) i = record {
    known = i.known;
    lost = i.lost;
    invited = i.invited;
    line = i.line;
  }
  ProcessorStep-InOrder (ticks t now ph) i = record {
    known = i.known;
    lost = i.lost;
    invited = tick-IsInvited s env t.daemon now i.known i.invited;
    line = i.line;
  }
  ProcessorStep-InOrder (scans t times ph) i = record {
    known = i.known;
    lost = i.lost;
    invited = scan_stale-IsInvited s times t.daemon i.known v i.invited;
    line = i.line;
  }

  Step-InOrder : {t u : Threads} → Step s env ifindex t u → InOrder s t → InOrder s u
  Step-InOrder (captures c) i = record {
    known = i.known;
    lost = lost_in c ++ i.lost;
    invited = subst (IsInvited s i.known) (sym (CaptureStep_apart c).0) i.invited;
    line = CaptureStep-OnWay c i.line;
  }
  Step-InOrder (processes p) i = ProcessorStep-InOrder p i
  Step-InOrder (signalled t r) i = record {
    known = i.known;
    lost = i.lost;
    invited = i.invited;
    line = i.line;
  }

  Reach-InOrder : {t u : Threads} → InOrder s t → Reach s env ifindex t u → InOrder s u
  Reach-InOrder i here = i
  Reach-InOrder i (Threads.next r st) = Step-InOrder st (Reach-InOrder i r)

  boot-InOrder : (d : Daemon) → IsInvited s [] d → InOrder s (boot d)
  unfolding boot events
  boot-InOrder d i = record { known = []; lost = []; invited = i; line = boot-OnWay d }

-- A run of iptables that inserts the rule of an address stands behind events of its whole sequence.
abbrev pub Backed : Settings → List KnockEvent → Command × Bool → Type 0
Backed s es (insert_grant ip, b) = Sent s ip (knock_seq_len s) es
Backed s es (_, b) = Unit

Earned-Backed :
    (s : Settings) (h : History) (es : List KnockEvent) (c : Command × Bool)
    → Within (events h) es
    → Earned s h c
    → Backed s es c
Earned-Backed s h es (insert_grant ip, b) w e =
    Sent-Within w (Knocked-Sent s ip (knock_seq_len s) e.0 h e.1)
Earned-Backed s h es (new_chain, b) w e = tt
Earned-Backed s h es (flush_chain, b) w e = tt
Earned-Backed s h es (check_jump, b) w e = tt
Earned-Backed s h es (add_jump, b) w e = tt
Earned-Backed s h es (unhook, b) w e = tt
Earned-Backed s h es (delete_chain, b) w e = tt
Earned-Backed s h es (delete_grant ip, b) w e = tt

-- With valid settings, from a startup that succeeds on, however the two threads interleave, whatever
-- packets arrive, whatever the queue drops and whenever a signal comes: every run of iptables that
-- inserts a rule for an address is for one of which the sniffer reported packets to all the ports of
-- the sequence, in order, before.
pub only_knockers :
    (s : Settings) (env : Env) (ifindex : ℕ) (clients_allocated grants_allocated : Bool) (now : ℕ)
    (d : Daemon) (t : Threads)
    → IsValid s
    → start s env clients_allocated grants_allocated now fresh ≡ some d
    → Reach s env ifindex (boot d) t
    → All (Backed s t.reported) t.daemon.firewall.ran
only_knockers s env ifindex clients_allocated grants_allocated now d t v e r =
    let i0 = start-IsInvited s env clients_allocated grants_allocated now d e in
    let i = Reach-InOrder s env ifindex v (boot-InOrder s env ifindex v d i0) r in
    let w = OnWay-Within (events i.known) i.lost t i.line in
    All-map (Earned s i.known) (Backed s t.reported) t.daemon.firewall.ran
      (λ c. Earned-Backed s i.known t.reported c w) i.invited.earned
