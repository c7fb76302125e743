-- ===== src/Daemon/Turns.antt =====
-- The processor thread among the steps of both threads does what `run_processor` does on a list of
-- turns: the view of one thread is right about the daemon's state.
use knockd.Prelude.{ℕ, ◌≡◌, refl, sym, ap, ◌∙◌, subst, ◌⊎◌, inl, inr, List, [], ◌∷◌, ◌++◌}
use knockd.Settings.{Settings}
use knockd.Firewall.{Env, tick}
use knockd.Queue.{KnockEvent, pop}
use knockd.Knocker.Honest.{History}
use knockd.Daemon.{Daemon, Arrival, Turn, process_event, drain, scan_stale, turn, run_processor}
use knockd.Daemon.Heard.{heard, hear, all_heard}
use knockd.Daemon.Threads.{
  ProcessorPhase, waiting, draining, ticking, scanning, stopped, joining, joined, Threads, boot,
  ProcessorStep, takes, finds_nothing, ticks, scans, shuts_down, joins, MayTake, CaptureStep, Step,
  captures, processes, signalled, Reach, here,
}
use knockd.Daemon.Threads
use knockd.Daemon.Sent.{events}
use knockd.Daemon.Progress.{Progress, go_on, progress, turns_in}
use knockd.Daemon.Line.{
  OnWay, shutdown-OnWay, lost_in, turned_away, CaptureStep_apart, CaptureStep-OnWay, takes-OnWay,
  nothing-OnWay, boot-OnWay,
}

hear-append :
    (h : History) (arrivals : List Arrival) (a : Arrival)
    → hear h (arrivals ++ a ∷ []) ≡ heard a ∷ hear h arrivals
unfolding hear
hear-append h [] a = refl
hear-append h (b ∷ arrivals) a = hear-append (heard b ∷ h) arrivals a

all_heard-append :
    (h : History) (us : List Turn) (u : Turn)
    → all_heard h (us ++ u ∷ []) ≡ hear (all_heard h us) u.arrived
unfolding all_heard
all_heard-append h [] u = refl
all_heard-append h (w ∷ us) u = all_heard-append (hear h w.arrived) us u

module _ (s : Settings) (env : Env) where
  drain-append :
      (d : Daemon) (arrivals : List Arrival) (a : Arrival)
      → drain s env d (arrivals ++ a ∷ []) ≡ process_event s env (drain s env d arrivals) a
  unfolding drain
  drain-append d [] a = refl
  drain-append d (b ∷ arrivals) a = drain-append (process_event s env d b) arrivals a

  run_processor-append :
      (d : Daemon) (us : List Turn) (u : Turn)
      → run_processor s env d (us ++ u ∷ []) ≡ turn s env (run_processor s env d us) u
  unfolding run_processor
  run_processor-append d [] u = refl
  run_processor-append d (w ∷ us) u = run_processor-append (turn s env d w) us u

  -- `Stands ph b p d`: at the place `ph` of a turn that began at `b`, with this progress, the daemon
  -- is `d`.
  abbrev Stands : ProcessorPhase → Daemon → Progress → Daemon → Type 0
  Stands ProcessorPhase.at_test b p d = (p.arrived ≡ []) × (d ≡ b)
  Stands waiting b p d = (p.arrived ≡ []) × (d ≡ b)
  Stands draining b p d = d ≡ drain s env b p.arrived
  Stands ticking b p d = d ≡ drain s env b p.arrived
  Stands scanning b p d = d ≡ record (drain s env b p.arrived) {
    firewall = tick env p.ticked (drain s env b p.arrived).firewall;
  }
  Stands stopped b p d = (p.arrived ≡ []) × (d ≡ b)
  Stands joining b p d = (p.arrived ≡ []) × (d ≡ b)
  Stands joined b p d = (p.arrived ≡ []) × (d ≡ b)

  record InTurns (d0 : Daemon) (p : Progress) (lost : List KnockEvent) (t : Threads) : Type 0 where
    stands : Stands t.processor (run_processor s env d0 p.turns) p t.daemon
    line : OnWay (events (hear (all_heard [] p.turns) p.arrived)) lost t

  place_of :
      {p : Progress} {lost : List KnockEvent} (d0 : Daemon) (t : Threads) (ph : ProcessorPhase)
      → InTurns d0 p lost t
      → t.processor ≡ ph
      → Stands ph (run_processor s env d0 p.turns) p t.daemon
  place_of {p} d0 t ph i e =
      subst (λ q. Stands q (run_processor s env d0 p.turns) p t.daemon) e i.stands

  taken :
      (b d : Daemon) (arrived : List Arrival) → (arrived ≡ []) × (d ≡ b) → d ≡ drain s env b arrived
  unfolding drain
  taken b d arrived (e, f) = f ∙ ap (drain s env b) (sym e)

  so_far :
      {p : Progress} {lost : List KnockEvent} (d0 : Daemon) (t : Threads)
      → InTurns d0 p lost t
      → ((t.processor ≡ waiting) ⊎ (t.processor ≡ draining))
      → t.daemon ≡ drain s env (run_processor s env d0 p.turns) p.arrived
  so_far {p} d0 t i (inl ph) =
      taken (run_processor s env d0 p.turns) t.daemon p.arrived (place_of d0 t waiting i ph)
  so_far d0 t i (inr ph) = place_of d0 t draining i ph

  module _ {ifindex : ℕ} (d0 : Daemon) where
    ProcessorStep-InTurns :
        {p : Progress} {lost : List KnockEvent} {t u : Threads}
        (st : ProcessorStep s env ifindex t u)
        → InTurns d0 p lost t
        → InTurns d0 (go_on st p) lost u
    unfolding events turn scan_stale drain hear go_on
    ProcessorStep-InTurns (ProcessorStep.goes_on t ph r) i = record {
      stands = place_of d0 t ProcessorPhase.at_test i ph;
      line = i.line;
    }
    ProcessorStep-InTurns (ProcessorStep.gives_up t ph r) i = record {
      stands = place_of d0 t ProcessorPhase.at_test i ph;
      line = i.line;
    }
    ProcessorStep-InTurns {p} {lost} (takes t e now later opened m h) i =
        let a : Arrival = record { event = e; now = now; later = later; opened = opened } in
        let b = run_processor s env d0 p.turns in
        let all = all_heard [] p.turns in
        record {
          stands =
              ap (λ d. process_event s env d a) (so_far d0 t i m)
              ∙ sym (drain-append b p.arrived a);
          line =
              subst (λ g. OnWay (events g) lost (record t { queue = (pop t.queue).1 }))
                (sym (hear-append all p.arrived a))
                (takes-OnWay (events (hear all p.arrived)) lost t e i.line h);
        }
    ProcessorStep-InTurns {p} {lost} (finds_nothing t m h) i = record {
      stands = so_far d0 t i m;
      line = nothing-OnWay (events (hear (all_heard [] p.turns) p.arrived)) lost t i.line h;
    }
    ProcessorStep-InTurns {p} {lost} (shuts_down t ph) i = record {
      stands = place_of d0 t stopped i ph;
      line = shutdown-OnWay (events (hear (all_heard [] p.turns) p.arrived)) lost t i.line;
    }
    ProcessorStep-InTurns (joins t ph e) i = record {
      stands = place_of d0 t joining i ph;
      line = i.line;
    }
    ProcessorStep-InTurns (ticks t now ph) i = record {
      stands =
          ap {A = Daemon} {B = Daemon} (λ d. record d { firewall = tick env now d.firewall })
            (place_of d0 t ticking i ph);
      line = i.line;
    }
    ProcessorStep-InTurns {p} {lost} (scans t times ph) i =
        let u : Turn = record {
          arrived = p.arrived;
          ticked = p.ticked;
          now = times.now;
          swept = times.swept;
        } in
        record {
          stands = (
            refl,
            ap (scan_stale s times) (place_of d0 t scanning i ph)
                ∙ sym (run_processor-append d0 p.turns u),
          );
          line = subst (λ g. OnWay (events g) lost t) (sym (all_heard-append [] p.turns u)) i.line;
        }

    CaptureStep-InTurns :
        {p : Progress} {lost : List KnockEvent} {t u : Threads} (c : CaptureStep s env ifindex t u)
        → InTurns d0 p lost t
        → InTurns d0 p (lost_in c ++ lost) u
    CaptureStep-InTurns {p} {lost} {t} {u} c i = record {
      stands =
          subst (λ ph. Stands ph (run_processor s env d0 p.turns) p u.daemon)
            (sym (CaptureStep_apart c).1)
            (subst (Stands t.processor (run_processor s env d0 p.turns) p)
              (sym (CaptureStep_apart c).0) i.stands);
      line = CaptureStep-OnWay c i.line;
    }

    Reach-InTurns :
        {t : Threads} (r : Reach s env ifindex (boot d0) t)
        → InTurns d0 (progress r) (turned_away r) t
    unfolding turned_away progress boot events hear all_heard run_processor
    Reach-InTurns here = record { stands = (refl, refl); line = boot-OnWay d0 }
    Reach-InTurns (Threads.next r (captures c)) = CaptureStep-InTurns c (Reach-InTurns r)
    Reach-InTurns (Threads.next r (processes p)) = ProcessorStep-InTurns p (Reach-InTurns r)
    Reach-InTurns (Threads.next r (signalled t g)) =
        let i = Reach-InTurns r in record { stands = i.stands; line = i.line }

  at_rest :
      {p : Progress} {lost : List KnockEvent} (d0 : Daemon) (t : Threads)
      → InTurns d0 p lost t
      → (p.arrived ≡ []) × (t.daemon ≡ run_processor s env d0 p.turns)
      → (t.daemon ≡ run_processor s env d0 p.turns) × OnWay (events (all_heard [] p.turns)) lost t
  unfolding hear
  at_rest {p} {lost} d0 t i k =
      (k.1, subst (λ now. OnWay (events (hear (all_heard [] p.turns) now)) lost t) k.0 i.line)

-- However the two threads interleave and whenever a signal comes: each time the processor is at the
-- test of its loop, and when it is done, the daemon is as `run_processor` leaves it after the turns that
-- the processor went through. What the sniffer reported is, each event once and in order, what the
-- processor took in these turns, what waits in the queue, what the capture thread holds, and what
-- `pktqueue_push` turned away.
pub threads_refine :
    (s : Settings) (env : Env) (ifindex : ℕ) (d : Daemon) (t : Threads)
    (r : Reach s env ifindex (boot d) t)
    → (t.processor ≡ ProcessorPhase.at_test) ⊎ (t.processor ≡ stopped)
    → (t.daemon ≡ run_processor s env d (turns_in r))
      × OnWay (events (all_heard [] (turns_in r))) (turned_away r) t
threads_refine s env ifindex d t r ph =
    let i = Reach-InTurns s env d r in
    elim ph [
      | inl e ↦ at_rest s env d t i (place_of s env d t ProcessorPhase.at_test i e)
      | inr e ↦ at_rest s env d t i (place_of s env d t stopped i e)
    ]
