-- ===== src/Queue/Tests.antt =====
-- Runs of the ring buffer, and the theorems at inputs.
use knockd.Prelude.{
  ◌+◌, ◌*◌, ◌<◌, ◌≡◌, refl, ◌⊎◌, true, false, none, some, List, [], ◌∷◌, replicate,
  length-replicate, arith,
}
use knockd.Queue.{
  KnockEvent, Queue, Wake, Call, pushes, pops, shuts, ok, failed, init, push, pop, drop_event,
  advance, step, run, shutdown, wait, wait_loop, deadline_from_now,
}
use knockd.Queue.Fifo.{fifo_run}
use knockd.Queue.Ring.{IsValid, contents}
use knockd.Queue.Refine.{run_refines}
use knockd.Queue.Drops.{reports, lost, reported, Spaced, reports_lem}
use knockd.Queue.Wait.{TimesOut, wait_empty, deadline_lem}

abbrev knock_a : KnockEvent
knock_a = record { src_ip = 10; dst_port = 7000 }

abbrev knock_b : KnockEvent
knock_b = record { src_ip = 11; dst_port = 8000 }

abbrev script : List Call
script = pushes knock_a 100 ∷ pushes knock_b 100 ∷ pops ∷ shuts ∷ pops ∷ pops ∷ []

-- A ring that is full, one slot before the wrap.
abbrev full_ring : Queue
full_ring = record {
  ring = replicate 256 knock_a;
  head = 255;
  tail = 255;
  count = 256;
  shutting_down = false;
  dropped = 3;
  last_drop_report = 100;
}

abbrev flood : List Call
flood = pushes knock_b 105 ∷ pushes knock_b 112 ∷ pops ∷ pushes knock_b 112 ∷ []

abbrev timeout_wake : Wake
timeout_wake = record { others = λ q. q; timed_out = true }

two_threads :
    (run init script).0
    ≡ (ok, none)
      ∷ (ok, none)
      ∷ (ok, some knock_a)
      ∷ (ok, none)
      ∷ (ok, some knock_b)
      ∷ (failed, none)
      ∷ []
unfolding run init step push pop advance shutdown
two_threads = refl

report_of_five : reports full_ring flood ≡ (105, 0) ∷ (112, 5) ∷ (112, 0) ∷ []
unfolding reports push drop_event step pop advance
report_of_five = refl

full_ring-IsValid : IsValid full_ring
full_ring-IsValid = record {
  sized = length-replicate 256 knock_a;
  head_in = omega arith;
  tail_in = omega arith;
  count_in = omega arith;
  head_at = omega arith;
}

run_refines_example :
    let (rs, q') = run full_ring flood in
    ((rs, contents q') ≡ fifo_run 256 (contents full_ring) flood) × IsValid q'
run_refines_example = run_refines full_ring flood full_ring-IsValid

reports_lem_example :
    (reported (reports full_ring flood) + (run full_ring flood).1.dropped
      ≡ 3 + lost full_ring flood)
    × Spaced 100 (reports full_ring flood)
reports_lem_example = reports_lem full_ring flood (omega arith)

empty_wait : wait init (timeout_wake ∷ []) ≡ some (none, init)
unfolding wait wait_loop pop init
empty_wait = refl

wait_empty_example : (init.count ≡ 0) × ((init.shutting_down ≡ true) ⊎ TimesOut (timeout_wake ∷ []))
wait_empty_example = wait_empty init init (timeout_wake ∷ []) empty_wait

deadline_lem_example :
    let (s, n) = deadline_from_now 50 900000000 200 in
    (n < 1000000000) × (s * 1000000000 + n ≡ 50 * 1000000000 + 900000000 + 200 * 1000000)
deadline_lem_example = deadline_lem 50 900000000 200 (omega arith)
