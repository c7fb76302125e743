-- ===== src/Queue/Refine.antt =====
-- A valid ring behaves as the bounded FIFO of the events that it holds.
use knockd.Prelude.{◌+◌, ◌-◌, ◌%◌, ◌≡◌, refl, List, [], ◌∷◌, arith}
use knockd.Queue.{Queue, Call, pushes, pops, shuts, push, pop, drop_event, shutdown, step, run}
use knockd.Queue.Fifo.{fifo_step, fifo_run}
use knockd.Queue.Ring.{
  IsValid, contents, advance_lem, length-window, window-mod, window-set, window-ne_zero,
  step-IsValid,
}

-- Each call answers as the FIFO does, and leaves the ring holding the FIFO's events.
pub step_refines :
    (q : Queue) (c : Call)
    → IsValid q
    → let (r, q') = step q c in (r, contents q') ≡ fifo_step 256 (contents q) c
unfolding step push pop drop_event shutdown fifo_step
step_refines q (pushes e now) v =
    ground (arith, length-window q.ring q.tail q.count, window-set q.ring q.tail q.count q.head e)
step_refines q pops v = ground (
  arith,
  advance_lem q.tail,
  window-ne_zero q.ring q.tail q.count,
  window-mod q.ring (q.tail + 1) ((q.tail + 1) % 256) (q.count - 1),
)
step_refines q shuts v = refl

-- From a valid ring on, whatever the threads call, in any order, the ring answers as the bounded
-- FIFO of the events that it holds and ends up holding that FIFO's events, and it stays valid.
pub run_refines :
    (q : Queue) (cs : List Call)
    → IsValid q
    → let (rs, q') = run q cs in ((rs, contents q') ≡ fifo_run 256 (contents q) cs) × IsValid q'
unfolding run fifo_run
run_refines q [] v = (refl, v)
run_refines q (c ∷ cs) v =
    ground (arith, step_refines q c v, run_refines (step q c).1 cs (step-IsValid q c v))
