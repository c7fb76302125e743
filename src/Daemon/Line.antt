-- ===== src/Daemon/Line.antt =====
-- The way of an event: what the sniffer reported goes through the capture thread and the queue to the
-- processor, and keeps its order; what a full queue turns away is lost.
use knockd.Prelude.{ℕ, ◌≡◌, refl, sym, ap, subst, inl, inr, some, none, List, [], ◌∷◌, ◌++◌}
use knockd.Settings.{Settings}
use knockd.Firewall.{Env}
use knockd.Queue
use knockd.Queue.{KnockEvent, Queue, Status, ok, failed, push, pop}
use knockd.Queue.Ring
use knockd.Queue.Ring.{contents}
use knockd.Queue.Moves.{
  contents-push, contents-pop, contents-shutdown, shutdown-IsValid, contents-init, no_event_kept,
}
use knockd.Daemon.{Daemon}
use knockd.Daemon.Threads.{
  CapturePhase, sniffing, pushing, leaving, ended, Threads, boot, event_of, CaptureStep, reports,
  skips, hears_nothing, fails, pushes, ends, Reach, here, captures, processes, signalled,
}
use knockd.Daemon.Threads
use knockd.Daemon.Sent.{
  Within, skips, Merge, none_left, from_first, from_second, Merge-Within, onto, onto_snoc,
  Within-onto,
}

-- The event that the capture thread holds.
abbrev pub held_event : CapturePhase → List KnockEvent
held_event CapturePhase.at_test = []
held_event sniffing = []
held_event (pushing e) = e ∷ []
held_event leaving = []
held_event ended = []

-- What the sniffer reported, newest first: the event that the capture thread holds, and then in order
-- those that wait in the queue or that the processor has taken, and those that were lost.
pub record InLine (known lost : List KnockEvent) (q : Queue) (c : CapturePhase)
    (reported : List KnockEvent) : Type 0 where
  pub valid : Ring.IsValid q
  pub rest : List KnockEvent
  pub whole : reported ≡ held_event c ++ rest
  pub merged : Merge (onto (contents q) known) lost rest

abbrev pub OnWay : List KnockEvent → List KnockEvent → Threads → Type 0
OnWay known lost t = InLine known lost t.queue t.capture t.reported

-- The same at the phase that the thread is known to be in.
at_phase :
    {known lost : List KnockEvent} (t : Threads) (c : CapturePhase) (i : OnWay known lost t)
    → t.capture ≡ c
    → t.reported ≡ held_event c ++ i.rest
at_phase t c i ph = subst (λ p. t.reported ≡ held_event p ++ i.rest) ph i.whole

-- The capture thread goes to the phase `c`, and the queue stays as it is.
moves_on :
    {known lost : List KnockEvent} (t : Threads) (c : CapturePhase) (reported : List KnockEvent)
    (i : OnWay known lost t)
    → reported ≡ held_event c ++ i.rest
    → InLine known lost t.queue c reported
moves_on t c reported i e = record { valid = i.valid; rest = i.rest; whole = e; merged = i.merged }

-- A capture step leaves the processor alone.
pub CaptureStep_apart :
    {s : Settings} {env : Env} {ifindex : ℕ} {t u : Threads}
    → CaptureStep s env ifindex t u
    → (u.daemon ≡ t.daemon) × (u.processor ≡ t.processor)
CaptureStep_apart (CaptureStep.goes_on t ph r) = (refl, refl)
CaptureStep_apart (CaptureStep.gives_up t ph r) = (refl, refl)
CaptureStep_apart (reports t rs k ph h) = (refl, refl)
CaptureStep_apart (skips t r ph h) = (refl, refl)
CaptureStep_apart (hears_nothing t rs ph h) = (refl, refl)
CaptureStep_apart (fails t rs ph h) = (refl, refl)
CaptureStep_apart (pushes t e now ph) = (refl, refl)
CaptureStep_apart (ends t ph) = (refl, refl)

-- The event that a call of `pktqueue_push` turned away.
abbrev pub unless_ok : Status → KnockEvent → List KnockEvent
unless_ok ok e = []
unless_ok failed e = e ∷ []

-- The event that a step of the capture thread loses.
unfoldable pub lost_in :
    {s : Settings} {env : Env} {ifindex : ℕ} {t u : Threads}
    → CaptureStep s env ifindex t u
    → List KnockEvent
lost_in (CaptureStep.goes_on t ph r) = []
lost_in (CaptureStep.gives_up t ph r) = []
lost_in (reports t rs k ph h) = []
lost_in (skips t r ph h) = []
lost_in (hears_nothing t rs ph h) = []
lost_in (fails t rs ph h) = []
lost_in (pushes t e now ph) = unless_ok (push t.queue e now).0 e
lost_in (ends t ph) = []

-- The events that the queue turned away on the way from `t`, newest first.
unfoldable pub turned_away :
    {s : Settings} {env : Env} {ifindex : ℕ} {t u : Threads}
    → Reach s env ifindex t u
    → List KnockEvent
unfolding lost_in
turned_away here = []
turned_away (Threads.next r (captures c)) = lost_in c ++ turned_away r
turned_away (Threads.next r (processes p)) = turned_away r
turned_away (Threads.next r (signalled t g)) = turned_away r

pushed :
    (q : Queue) (e : KnockEvent) (now : ℕ) (known lost rest : List KnockEvent)
    → Ring.IsValid q
    → Merge (onto (contents q) known) lost rest
    → Merge
        (onto (contents (push q e now).1) known)
        (unless_ok (push q e now).0 e ++ lost)
        (e ∷ rest)
pushed q e now known lost rest v m = elim (contents-push q e now v) [
  | inl p ↦ rw (p.0, p.1, onto_snoc (contents q) known e) (from_first e m)
  | inr p ↦ rw (p.0, p.1) (from_second e m)
]

pub CaptureStep-OnWay :
    {s : Settings} {env : Env} {ifindex : ℕ} {known lost : List KnockEvent} {t u : Threads}
    (c : CaptureStep s env ifindex t u)
    → OnWay known lost t
    → OnWay known (lost_in c ++ lost) u
unfolding lost_in
CaptureStep-OnWay (CaptureStep.goes_on t ph r) i =
    moves_on t sniffing t.reported i (at_phase t CapturePhase.at_test i ph)
CaptureStep-OnWay (CaptureStep.gives_up t ph r) i =
    moves_on t leaving t.reported i (at_phase t CapturePhase.at_test i ph)
CaptureStep-OnWay (reports t rs k ph h) i =
    moves_on t (pushing (event_of k)) (event_of k ∷ t.reported) i
      (ap (λ l. event_of k ∷ l) (at_phase t sniffing i ph))
CaptureStep-OnWay (skips t r ph h) i = i
CaptureStep-OnWay (hears_nothing t rs ph h) i =
    moves_on t CapturePhase.at_test t.reported i (at_phase t sniffing i ph)
CaptureStep-OnWay (fails t rs ph h) i = moves_on t leaving t.reported i (at_phase t sniffing i ph)
CaptureStep-OnWay {known} {lost} (pushes t e now ph) i = record {
  valid = Ring.push-IsValid t.queue e now i.valid;
  rest = e ∷ i.rest;
  whole = at_phase t (pushing e) i ph;
  merged = pushed t.queue e now known lost i.rest i.valid i.merged;
}
CaptureStep-OnWay {known} {lost} (ends t ph) i = record {
  valid = shutdown-IsValid t.queue i.valid;
  rest = i.rest;
  whole = at_phase t leaving i ph;
  merged = rw (contents-shutdown t.queue) i.merged;
}

-- The processor takes the event that has waited longest.
pub takes-OnWay :
    (known lost : List KnockEvent) (t : Threads) (e : KnockEvent)
    → OnWay known lost t
    → (pop t.queue).0 ≡ some e
    → OnWay (e ∷ known) lost (record t { queue = (pop t.queue).1 })
unfolding onto
takes-OnWay known lost t e i h = record {
  valid = Ring.pop-IsValid t.queue i.valid;
  rest = i.rest;
  whole = i.whole;
  merged =
      subst (λ l. Merge (onto l known) lost i.rest) (contents-pop t.queue e i.valid h) i.merged;
}

pub nothing-OnWay :
    (known lost : List KnockEvent) (t : Threads)
    → OnWay known lost t
    → (pop t.queue).0 ≡ none
    → OnWay known lost (record t { queue = (pop t.queue).1 })
nothing-OnWay known lost t i h = record {
  valid = Ring.pop-IsValid t.queue i.valid;
  rest = i.rest;
  whole = i.whole;
  merged =
      subst (λ q. Merge (onto (contents q) known) lost i.rest) (sym (no_event_kept t.queue h))
        i.merged;
}

pub boot-OnWay : (d : Daemon) → OnWay [] [] (boot d)
unfolding boot onto
boot-OnWay d = record {
  valid = Ring.init-IsValid;
  rest = [];
  whole = refl;
  merged = rw contents-init none_left;
}

held-Within : (held known ys : List KnockEvent) → Within known ys → Within known (held ++ ys)
held-Within [] known ys w = w
held-Within (h ∷ held) known ys w = skips h (held-Within held known ys w)

-- `pktqueue_shutdown` leaves the events where they are.
pub shutdown-OnWay :
    (known lost : List KnockEvent) (t : Threads)
    → OnWay known lost t
    → OnWay known lost (record t { queue = Queue.shutdown t.queue })
shutdown-OnWay known lost t i = record {
  valid = shutdown-IsValid t.queue i.valid;
  rest = i.rest;
  whole = i.whole;
  merged = rw (contents-shutdown t.queue) i.merged;
}

-- What the processor has taken was reported, in order.
pub OnWay-Within :
    (known lost : List KnockEvent) (t : Threads) → OnWay known lost t → Within known t.reported
OnWay-Within known lost t i =
    let w = Within-onto (contents t.queue) known i.rest (Merge-Within i.merged) in
    subst (Within known) (sym i.whole) (held-Within (held_event t.capture) known i.rest w)
