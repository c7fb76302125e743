-- ===== src/Daemon/Stops.antt =====
-- The shutdown of src/main.c: when both threads come to their end once `g_running` is cleared, and
-- `main` behind `pthread_join`.
use knockd.Prelude.{
  ℕ, zero, suc, ◌+◌, ◌*◌, ◌<◌, ◌≡◌, refl, ap, ◌∙◌, ◌⊎◌, inl, inr, Bool, true, false, some, [],
  Option-cases, arith,
}
use knockd.Settings.{Settings}
use knockd.Config.{Config}
use knockd.Queue.{pop}
use knockd.Queue.Moves.{push_count, pop_count_some, no_event_kept, shutdown_count}
use knockd.Sniffer.{nothing_yet, next_knock}
use knockd.Sniffer.Socket.{Net, choose_interface, sniffer_init}
use knockd.Firewall.{Env}
use knockd.Daemon.{Turn}
use knockd.Daemon.Threads.{
  CapturePhase, sniffing, pushing, leaving, ended, ProcessorPhase, waiting, draining, ticking,
  scanning, stopped, joining, joined, Threads, CaptureStep, reports, skips, hears_nothing, fails,
  pushes, ends, ProcessorStep, takes, finds_nothing, ticks, scans, shuts_down, joins, Step,
  captures, processes, signalled, MayTake,
}

-- `capture_thread` has returned, and `main` has joined it.
abbrev HasStopped : Threads → Type 0
HasStopped t = (t.capture ≡ ended) × (t.processor ≡ joined)

module _ {s : Settings} {env : Env} {ifindex : ℕ} where
  -- A step for which no thread waits for a packet or a signal. `times_out` is whether `recvfrom` comes
  -- back without one; `pktqueue_wait` always has a timeout.
  abbrev pub NeedsNothing : Bool → {t u : Threads} → Step s env ifindex t u → Type 0
  NeedsNothing times_out (captures (CaptureStep.goes_on t at r)) = Unit
  NeedsNothing times_out (captures (CaptureStep.gives_up t at r)) = Unit
  NeedsNothing times_out (captures (reports t r k at h)) = ⊥
  NeedsNothing times_out (captures (skips t r at h)) = ⊥
  NeedsNothing times_out (captures (hears_nothing t r at h)) = times_out ≡ true
  NeedsNothing times_out (captures (fails t r at h)) = ⊥
  NeedsNothing times_out (captures (pushes t e now at)) = Unit
  NeedsNothing times_out (captures (ends t at)) = Unit
  NeedsNothing times_out (processes p) = Unit
  NeedsNothing times_out (signalled t r) = ⊥

  -- The packets that the sniffer's loop passes over in a step.
  abbrev pub passed_over : {t u : Threads} → Step s env ifindex t u → ℕ
  passed_over (captures (skips t r at h)) = 1
  passed_over (captures (CaptureStep.goes_on t at r)) = 0
  passed_over (captures (CaptureStep.gives_up t at r)) = 0
  passed_over (captures (reports t r k at h)) = 0
  passed_over (captures (hears_nothing t r at h)) = 0
  passed_over (captures (fails t r at h)) = 0
  passed_over (captures (pushes t e now at)) = 0
  passed_over (captures (ends t at)) = 0
  passed_over (processes p) = 0
  passed_over (signalled t r) = 0

-- However the two threads and their environment go on, while the sniffer's loop passes over `n` packets
-- at most, they come to their end: as long as they have not, there is a step that waits for no packet
-- and no signal, and no run of steps goes on for ever.
pub data Stops (s : Settings) (env : Env) (ifindex : ℕ) (times_out : Bool)
    : ℕ → Threads → Type 0 where
  done : (n : ℕ) (t : Threads) → HasStopped t → Stops s env ifindex times_out n t
  goes_on :
      (n : ℕ) (t : Threads)
      → ((u : Threads) × (st : Step s env ifindex t u) × NeedsNothing times_out st)
      → ((u : Threads) (st : Step s env ifindex t u) (left : ℕ)
          → passed_over st + left ≡ n
          → Stops s env ifindex times_out left u)
      → Stops s env ifindex times_out n t

-- How far a thread is from its end; an event that waits is still to be taken.
capture_rank : CapturePhase → ℕ
capture_rank CapturePhase.at_test = 2
capture_rank sniffing = 7
capture_rank (pushing e) = 6
capture_rank leaving = 1
capture_rank ended = 0

processor_rank : ProcessorPhase → ℕ
processor_rank ProcessorPhase.at_test = 3
processor_rank waiting = 7
processor_rank draining = 6
processor_rank ticking = 5
processor_rank scanning = 4
processor_rank stopped = 2
processor_rank joining = 1
processor_rank joined = 0

rank : Threads → ℕ
unfolding capture_rank processor_rank
rank t = capture_rank t.capture + processor_rank t.processor + 3 * t.queue.count

module _ (s : Settings) (env : Env) (ifindex : ℕ) where
  -- A step after `g_running` is cleared leaves it so and comes nearer to the end, or passes over a
  -- packet.
  abbrev Nearer : ℕ → Threads → Threads → Type 0
  Nearer skipped t u = (u.running ≡ false) × (rank u < rank t + skipped)

  CaptureStep-Nearer :
      {t u : Threads} (c : CaptureStep s env ifindex t u)
      → t.running ≡ false
      → Nearer (passed_over {s = s} {env = env} {ifindex = ifindex} (captures c)) t u
  unfolding rank
  CaptureStep-Nearer (CaptureStep.goes_on t at r) f = absurd (ground arith)
  CaptureStep-Nearer (CaptureStep.gives_up t at r) f = (f, rw at (omega arith))
  CaptureStep-Nearer (reports t r k at h) f = (f, rw at (omega arith))
  CaptureStep-Nearer (skips t r at h) f = (f, omega arith)
  CaptureStep-Nearer (hears_nothing t r at h) f = (f, rw at (omega arith))
  CaptureStep-Nearer (fails t r at h) f = (refl, rw at (omega arith))
  CaptureStep-Nearer (pushes t e now at) f = (f, rw at (omega (arith, push_count t.queue e now)))
  CaptureStep-Nearer (ends t at) f = (f, rw at (omega (arith, shutdown_count t.queue)))

  ProcessorStep-Nearer :
      {t u : Threads} → ProcessorStep s env ifindex t u → t.running ≡ false → Nearer 0 t u
  unfolding rank
  ProcessorStep-Nearer (ProcessorStep.goes_on t at r) f = absurd (ground arith)
  ProcessorStep-Nearer (ProcessorStep.gives_up t at r) f = (f, rw at (omega arith))
  ProcessorStep-Nearer (takes t e now later opened (inl at) h) f =
      (f, rw at (omega (arith, pop_count_some t.queue e h)))
  ProcessorStep-Nearer (takes t e now later opened (inr at) h) f =
      (f, rw at (omega (arith, pop_count_some t.queue e h)))
  ProcessorStep-Nearer (finds_nothing t (inl at) h) f =
      (f, rw at (omega (arith, ap (λ q. q.count) (no_event_kept t.queue h))))
  ProcessorStep-Nearer (finds_nothing t (inr at) h) f =
      (f, rw at (omega (arith, ap (λ q. q.count) (no_event_kept t.queue h))))
  ProcessorStep-Nearer (ticks t now at) f = (f, rw at (omega arith))
  ProcessorStep-Nearer (scans t times at) f = (f, rw at (omega arith))
  ProcessorStep-Nearer (shuts_down t at) f = (refl, rw at (omega (arith, shutdown_count t.queue)))
  ProcessorStep-Nearer (joins t at e) f = (f, rw at (omega arith))

  Step-Nearer :
      {t u : Threads} (st : Step s env ifindex t u)
      → t.running ≡ false
      → Nearer (passed_over st) t u
  Step-Nearer (captures c) f = CaptureStep-Nearer c f
  Step-Nearer (processes p) f = ProcessorStep-Nearer p f
  Step-Nearer (signalled t r) f = absurd (ground arith)

  module _ (times_out : Bool) (timed : times_out ≡ true) where
    abbrev HasStep : Threads → Type 0
    HasStep t = (u : Threads) × (st : Step s env ifindex t u) × NeedsNothing times_out st

    capture-HasStep :
        (t : Threads) (c : CapturePhase)
        → t.capture ≡ c
        → t.running ≡ false
        → (c ≡ ended) ⊎ HasStep t
    unfolding next_knock
    capture-HasStep t CapturePhase.at_test e f = inr (_, captures (CaptureStep.gives_up t e f), tt)
    capture-HasStep t sniffing e f = inr (_, captures (hears_nothing t nothing_yet e refl), timed)
    capture-HasStep t (pushing k) e f = inr (_, captures (pushes t k 0 e), tt)
    capture-HasStep t leaving e f = inr (_, captures (ends t e), tt)
    capture-HasStep t ended e f = inl refl

    takes-HasStep : (t : Threads) → MayTake s env ifindex t.processor → HasStep t
    takes-HasStep t m = elim (Option-cases (pop t.queue).0) [
      | inl e ↦ (_, processes (finds_nothing t m e), tt)
      | inr (k, e) ↦ (_, processes (takes t k 0 0 0 m e), tt)
    ]

    abbrev no_times : Turn
    no_times = record { arrived = []; ticked = 0; now = 0; swept = 0 }

    -- `main` waits for the capture thread at `pthread_join` only.
    processor-HasStep :
        (t : Threads) (p : ProcessorPhase)
        → t.processor ≡ p
        → t.running ≡ false
        → t.capture ≡ ended
        → (p ≡ joined) ⊎ HasStep t
    processor-HasStep t ProcessorPhase.at_test e f c =
        inr (_, processes (ProcessorStep.gives_up t e f), tt)
    processor-HasStep t waiting e f c = inr (takes-HasStep t (inl e))
    processor-HasStep t draining e f c = inr (takes-HasStep t (inr e))
    processor-HasStep t ticking e f c = inr (_, processes (ticks t 0 e), tt)
    processor-HasStep t scanning e f c = inr (_, processes (scans t no_times e), tt)
    processor-HasStep t stopped e f c = inr (_, processes (shuts_down t e), tt)
    processor-HasStep t joining e f c = inr (_, processes (joins t e c), tt)
    processor-HasStep t joined e f c = inl refl

    ranked-Stops :
        (m n : ℕ) (t : Threads)
        → n + rank t < m
        → t.running ≡ false
        → Stops s env ifindex times_out n t
    ranked-Stops zero n t l f = absurd (omega arith)
    ranked-Stops (suc m) n t l f =
        let rest =
          λ (u : Threads) (st : Step s env ifindex t u) (left : ℕ) (e : passed_over st + left ≡ n).
            let k = Step-Nearer st f in ranked-Stops m left u (omega (arith, k.1, e)) k.0 in
        elim (capture-HasStep t t.capture refl f) [
          | inr h ↦ goes_on n t h rest
          | inl c ↦ elim (processor-HasStep t t.processor refl f c) [
            | inr h ↦ goes_on n t h rest
            | inl p ↦ done n t (c, p)
          ]
        ]

-- The receive timeout is set on the socket that `sniffer_init` returns.
sniffer_init-times_out :
    (c : Config) (net : Net) (fd : ℕ)
    → (sniffer_init c net).sock_fd ≡ some fd
    → (sniffer_init c net).times_out ≡ net.setsockopt
unfolding sniffer_init choose_interface
sniffer_init-times_out c net fd e = ground (arith, e)

-- On a socket that `sniffer_init` returned and on which `setsockopt` set the receive timeout, once
-- `g_running` is cleared, wherever the two threads are and however many events wait: until the capture
-- thread has returned and `main` has joined it, a thread can always go on without a packet or a signal;
-- and whatever the threads and the environment do, if `sniffer_next_knock` passes over no more than `n`
-- further packets, for any `n`, both have come to their end after finitely many steps.
pub shutdown-Stops :
    (s : Settings) (env : Env) (c : Config) (net : Net) (fd n : ℕ) (t : Threads)
    → (sniffer_init c net).sock_fd ≡ some fd
    → net.setsockopt ≡ true
    → t.running ≡ false
    → let o = sniffer_init c net in Stops s env o.ifindex o.times_out n t
shutdown-Stops s env c net fd n t e timed f =
    let o = sniffer_init c net in
    ranked-Stops s env o.ifindex o.times_out (sniffer_init-times_out c net fd e ∙ timed)
      (suc (n + rank t)) n t (omega arith) f
