-- ===== src/Queue/Fifo.antt =====
-- What include/packet_queue.h promises of the queue between the threads: a bounded FIFO, which
-- drops a new event when it is full.
use knockd.Prelude.{ℕ, none, some, List, [], ◌∷◌, ◌++◌, length, ltb, if◌then◌else◌}
use knockd.Queue.{KnockEvent, ok, failed, Call, pushes, pops, shuts, Reply}

-- The events that wait, oldest first.
abbrev pub Fifo : Type 0
Fifo = List KnockEvent

module _ (cap : ℕ) where
  unfoldable pub fifo_step : Fifo → Call → Reply × Fifo
  fifo_step xs (pushes e now) =
      if ltb (length xs) cap then ((ok, none), xs ++ e ∷ []) else ((failed, none), xs)
  fifo_step [] pops = ((failed, none), [])
  fifo_step (x ∷ xs) pops = ((ok, some x), xs)
  fifo_step xs shuts = ((ok, none), xs)

  unfoldable pub fifo_run : Fifo → List Call → List Reply × Fifo
  fifo_run xs [] = ([], xs)
  fifo_run xs (c ∷ cs) =
      let (r, ys) = fifo_step xs c in let (rs, zs) = fifo_run ys cs in (r ∷ rs, zs)
