-- ===== src/Daemon/Realized.antt =====
-- The turns of `run_processor` in src/main.c, played by the two threads: the list of turns that the
-- one thread's view takes is one that the threads can go through.
use mathlib.Core.List.{append-nil, append_assoc}
use knockd.Prelude.{ℕ, ◌≡◌, refl, ap, subst, ◌∙◌, inl, inr, true, List, [], ◌∷◌, ◌++◌, All, arith}
use knockd.Settings.{Settings}
use knockd.Firewall.{Env, tick}
use knockd.Queue.{KnockEvent, push, pop}
use knockd.Queue.Ring
use knockd.Queue.Ring.{contents}
use knockd.Queue.Moves.{push_empty, pop_only, pop_empty, no_event_kept, contents-init}
use knockd.Sniffer.Reads.{Reading, outside, reject, accept}
use knockd.Sniffer.{
  Received, nothing_yet, failure, packet, Knock, sniffer_ok, parse_packet, conclude, next_knock,
}
use knockd.Knocker.Honest.{History}
use knockd.Daemon.{Daemon, Arrival, Turn, process_event, drain, scan_stale, turn, run_processor}
use knockd.Daemon.Heard.{heard, hear, all_heard}
use knockd.Daemon.Threads.{
  CapturePhase, ProcessorPhase, sniffing, pushing, waiting, draining, ticking, scanning, Threads,
  boot, event_of, CaptureStep, reports, pushes, ProcessorStep, takes, finds_nothing, ticks, scans,
  MayTake, captures, processes, Reach, here,
}
use knockd.Daemon.Threads
use knockd.Daemon.Sent.{events}
use knockd.Daemon.Progress.{go_on, progress, turns_in}
use knockd.Daemon.Line.{turned_away, lost_in, unless_ok}

-- Some packets on which the sniffer reports the event.
abbrev pub Reportable : Settings → ℕ → Arrival → Type 0
Reportable s ifindex a =
    (rs : List Received) × (k : Knock) × (next_knock s ifindex rs ≡ sniffer_ok k)
    × (event_of k ≡ a.event)

-- The last of these packets is enough.
last_packet :
    (s : Settings) (ifindex : ℕ) (rs : List Received) (k : Knock)
    → next_knock s ifindex rs ≡ sniffer_ok k
    → (r : Received) × (next_knock s ifindex (r ∷ []) ≡ sniffer_ok k)
unfolding next_knock conclude
last_packet s ifindex [] k e = absurd (ground arith)
last_packet s ifindex (nothing_yet ∷ rs) k e = absurd (ground arith)
last_packet s ifindex (failure ∷ rs) k e = absurd (ground arith)
last_packet s ifindex (packet len buf sll ∷ rs) k e =
    go (parse_packet s ifindex len buf sll) refl (last_packet s ifindex rs k)
  where
    go :
        (v : Reading Knock)
        → parse_packet s ifindex len buf sll ≡ v
        → (next_knock s ifindex rs ≡ sniffer_ok k
            → (r : Received) × (next_knock s ifindex (r ∷ []) ≡ sniffer_ok k))
        → (r : Received) × (next_knock s ifindex (r ∷ []) ≡ sniffer_ok k)
    go outside f later = absurd (ground (arith, e, f))
    go reject f later = later (rw f at e)
    go (accept j) f later = (packet len buf sll, rw f (rw f at e))

module _ (s : Settings) (env : Env) (ifindex : ℕ) (d0 : Daemon) where
  -- The threads can come to a place where nothing is on its way, the processor stands where `P` says,
  -- the daemon is `d` and has heard `h`, nothing was lost, and these are the turns and the arrivals.
  record Quiet (P : ProcessorPhase → Type 0) (d : Daemon) (h : History) (us : List Turn)
      (arrivals : List Arrival) : Type 0 where
    threads : Threads
    way : Reach s env ifindex (boot d0) threads
    goes : threads.running ≡ true
    idle : threads.capture ≡ CapturePhase.at_test
    phase : P threads.processor
    same : threads.daemon ≡ d
    valid : Ring.IsValid threads.queue
    empty : contents threads.queue ≡ []
    kept : turned_away way ≡ []
    told : threads.reported ≡ events h
    over : (progress way).turns ≡ us
    so_far : (progress way).arrived ≡ arrivals

  -- An event is reported, pushed and taken.
  one_more :
      (d : Daemon) (h : History) (us : List Turn) (as0 : List Arrival) (a : Arrival)
      → Reportable s ifindex a
      → Quiet (MayTake s env ifindex) d h us as0
      → Quiet (MayTake s env ifindex) (process_event s env d a) (heard a ∷ h) us (as0 ++ a ∷ [])
  unfolding turned_away lost_in events progress go_on
  one_more d h us as0 a (rs, k, e, f) q =
      let (last, e1) = last_packet s ifindex rs k e in
      let t = q.threads in
      let t1 = record t { capture = sniffing } in
      let t2 = record t1 { capture = pushing (event_of k); reported = event_of k ∷ t.reported } in
      let t3 = record t2 {
        queue = (push t.queue (event_of k) 0).1;
        capture = CapturePhase.at_test;
      } in
      let b = push_empty t.queue (event_of k) 0 q.valid q.empty in
      let v = Ring.push-IsValid t.queue (event_of k) 0 q.valid in
      let p = pop_only t3.queue (event_of k) v b.1 in
      let r1 = Threads.next q.way (captures (CaptureStep.goes_on t q.idle q.goes)) in
      let r2 = Threads.next r1 (captures (reports t1 last k refl e1)) in
      let r3 = Threads.next r2 (captures (pushes t2 (event_of k) 0 refl)) in
      record {
        threads = record t3 {
          queue = (pop t3.queue).1;
          processor = draining;
          daemon =
              process_event s env t.daemon
                (record { event = event_of k; now = a.now; later = a.later; opened = a.opened });
        };
        way =
            Threads.next r3 (processes (takes t3 (event_of k) a.now a.later a.opened q.phase p.0));
        goes = q.goes;
        idle = refl;
        phase = inr refl;
        same =
            ap {A = KnockEvent} {B = Daemon}
              (λ m.
                process_event s env t.daemon
                  (record { event = m; now = a.now; later = a.later; opened = a.opened }))
              f
            ∙ ap (λ l. process_event s env l a) q.same;
        valid = Ring.pop-IsValid t3.queue v;
        empty = p.1;
        kept = ap (λ st. unless_ok st (event_of k) ++ turned_away q.way) b.0 ∙ q.kept;
        told = rw (f, q.told) refl;
        over = q.over;
        so_far = rw (f, q.so_far) refl;
      }

  -- All the events of a turn.
  all_more :
      (d : Daemon) (h : History) (us : List Turn) (as0 arrivals : List Arrival)
      → All (Reportable s ifindex) arrivals
      → Quiet (MayTake s env ifindex) d h us as0
      → Quiet
          (MayTake s env ifindex)
          (drain s env d arrivals)
          (hear h arrivals)
          us
          (as0 ++ arrivals)
  unfolding drain hear
  all_more d h us as0 [] p q = rw (append-nil as0) q
  all_more d h us as0 (a ∷ rest) p q =
      subst (Quiet (MayTake s env ifindex) (drain s env d (a ∷ rest)) (hear h (a ∷ rest)) us)
        (append_assoc as0 (a ∷ []) rest)
        (all_more (process_event s env d a) (heard a ∷ h) us (as0 ++ a ∷ []) rest p.1
          (one_more d h us as0 a p.0 q))

  -- A whole turn.
  one_turn :
      (d : Daemon) (h : History) (us : List Turn) (u : Turn)
      → All (Reportable s ifindex) u.arrived
      → Quiet (λ p. p ≡ ProcessorPhase.at_test) d h us []
      → Quiet
          (λ p. p ≡ ProcessorPhase.at_test)
          (turn s env d u)
          (hear h u.arrived)
          (us ++ u ∷ [])
          []
  unfolding turn turned_away progress go_on scan_stale
  one_turn d h us u p q =
      let t0 = q.threads in
      let m : Quiet (MayTake s env ifindex) d h us [] = record {
        threads = record t0 { processor = waiting };
        way = Threads.next q.way (processes (ProcessorStep.goes_on t0 q.phase q.goes));
        goes = q.goes;
        idle = q.idle;
        phase = inl refl;
        same = q.same;
        valid = q.valid;
        empty = q.empty;
        kept = q.kept;
        told = q.told;
        over = q.over;
        so_far = q.so_far;
      } in
      let n = all_more d h us [] u.arrived p m in
      let t = n.threads in
      let no_more = pop_empty t.queue n.empty in
      let t1 = record t { queue = (pop t.queue).1; processor = ticking } in
      let t2 = record t1 {
        processor = scanning;
        daemon = record t1.daemon { firewall = tick env u.ticked t1.daemon.firewall };
      } in
      let r1 = Threads.next n.way (processes (finds_nothing t n.phase no_more)) in
      let r2 = Threads.next r1 (processes (ticks t1 u.ticked refl)) in
      record {
        threads = record t2 {
          processor = ProcessorPhase.at_test;
          daemon = scan_stale s u t2.daemon;
        };
        way = Threads.next r2 (processes (scans t2 u refl));
        goes = n.goes;
        idle = n.idle;
        phase = refl;
        same =
            ap {A = Daemon} {B = Daemon}
              (λ l. scan_stale s u (record l { firewall = tick env u.ticked l.firewall })) n.same;
        valid = Ring.pop-IsValid t.queue n.valid;
        empty = ap contents (no_event_kept t.queue no_more) ∙ n.empty;
        kept = n.kept;
        told = n.told;
        over = rw (n.over, n.so_far) refl;
        so_far = refl;
      }

  all_turns :
      (d : Daemon) (h : History) (us0 us : List Turn)
      → All (λ u. All (Reportable s ifindex) u.arrived) us
      → Quiet (λ p. p ≡ ProcessorPhase.at_test) d h us0 []
      → Quiet
          (λ p. p ≡ ProcessorPhase.at_test)
          (run_processor s env d us)
          (all_heard h us)
          (us0 ++ us)
          []
  unfolding run_processor all_heard
  all_turns d h us0 [] p q = rw (append-nil us0) q
  all_turns d h us0 (u ∷ us) p q =
      subst
        (λ vs.
          Quiet (λ p. p ≡ ProcessorPhase.at_test) (run_processor s env d (u ∷ us))
            (all_heard h (u ∷ us)) vs [])
        (append_assoc us0 (u ∷ []) us)
        (all_turns (turn s env d u) (hear h u.arrived) (us0 ++ u ∷ []) us p.1
          (one_turn d h us0 u p.0 q))

  at_boot : Quiet (λ p. p ≡ ProcessorPhase.at_test) d0 [] [] []
  unfolding boot turned_away events progress
  at_boot = record {
    threads = boot d0;
    way = here;
    goes = refl;
    idle = refl;
    phase = refl;
    same = refl;
    valid = Ring.init-IsValid;
    empty = contents-init;
    kept = refl;
    told = refl;
    over = refl;
    so_far = refl;
  }

-- Any turns whose events the sniffer can report are turns that the two threads can go through: there
-- are steps from the start on, to the test of the processor's loop, in which it goes through exactly
-- these turns. The daemon is then as `run_processor` leaves it after them, the events that it took are
-- those that the sniffer reported, and none was turned away.
pub turns_realized :
    (s : Settings) (env : Env) (ifindex : ℕ) (d : Daemon) (us : List Turn)
    → All (λ u. All (Reportable s ifindex) u.arrived) us
    → (t : Threads) × (r : Reach s env ifindex (boot d) t) × (t.processor ≡ ProcessorPhase.at_test)
      × (turns_in r ≡ us)
      × (t.daemon ≡ run_processor s env d us)
      × (t.reported ≡ events (all_heard [] us))
      × (turned_away r ≡ [])
turns_realized s env ifindex d us p =
    let q = all_turns s env ifindex d d [] [] us p (at_boot s env ifindex d) in
    (q.threads, q.way, q.phase, q.over, q.same, q.told, q.kept)
