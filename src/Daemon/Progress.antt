-- ===== src/Daemon/Progress.antt =====
-- The turns of `run_processor` in src/main.c that an execution of the two threads goes through.
use knockd.Prelude.{ℕ, List, [], ◌∷◌, ◌++◌}
use knockd.Settings.{Settings}
use knockd.Firewall.{Env}
use knockd.Daemon.{Arrival, Turn}
use knockd.Daemon.Threads.{
  Threads, ProcessorStep, takes, finds_nothing, ticks, scans, shuts_down, joins, captures,
  processes, signalled, Reach, here,
}
use knockd.Daemon.Threads

-- The turns that are over, what the present one has taken, and the time of the last tick.
pub record Progress : Type 0 where
  pub turns : List Turn
  pub arrived : List Arrival
  pub ticked : ℕ

module _ {s : Settings} {env : Env} {ifindex : ℕ} where
  unfoldable pub go_on : {t u : Threads} → ProcessorStep s env ifindex t u → Progress → Progress
  go_on (ProcessorStep.goes_on t ph r) p = p
  go_on (ProcessorStep.gives_up t ph r) p = p
  go_on (takes t e now later opened m h) p = record p {
    arrived = p.arrived ++ record { event = e; now = now; later = later; opened = opened } ∷ [];
  }
  go_on (finds_nothing t m h) p = p
  go_on (shuts_down t ph) p = p
  go_on (joins t ph e) p = p
  go_on (ticks t now ph) p = record p { ticked = now }
  go_on (scans t times ph) p =
      let u : Turn = record {
        arrived = p.arrived;
        ticked = p.ticked;
        now = times.now;
        swept = times.swept;
      } in
      record p { turns = p.turns ++ u ∷ []; arrived = [] }

  unfoldable pub progress : {t u : Threads} → Reach s env ifindex t u → Progress
  unfolding go_on
  progress here = record { turns = []; arrived = []; ticked = 0 }
  progress (Threads.next r (captures c)) = progress r
  progress (Threads.next r (processes p)) = go_on p (progress r)
  progress (Threads.next r (signalled t g)) = progress r

  -- The turns that are over.
  abbrev pub turns_in : {t u : Threads} → Reach s env ifindex t u → List Turn
  turns_in r = (progress r).turns
