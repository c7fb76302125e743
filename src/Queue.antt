-- ===== src/Queue.antt =====
-- The ring buffer between the two threads: src/packet_queue.c and include/packet_queue.h.
-- Each function runs under the queue's mutex, so a call is one step on the state. A function that
-- logs returns what it reports; the time that it reads is an argument.
pub mod Fifo
pub mod Ring
pub mod Refine
pub mod Drops
pub mod Wait
pub mod Moves
mod Tests
use knockd.Prelude.{
  ℕ, ◌+◌, ◌-◌, ◌*◌, ◌/◌, ◌%◌, ◌^◌, bit_and, Bool, true, false, not, ◌&&◌, Option, none, some, List,
  [], ◌∷◌, get_or, set, replicate, ltb, leb, ◌==◌, if◌then◌else◌,
}

-- `knock_event_t`
pub record KnockEvent : Type 0 where
  pub src_ip : ℕ
  pub dst_port : ℕ

abbrev pub queue_capacity : ℕ
queue_capacity = 256

abbrev pub drop_report_interval : ℕ
drop_report_interval = 10

-- The status of a call, 0 or -1.
pub data Status : Type 0 where
  ok failed : Status

-- The static variables of the file.
pub record Queue : Type 0 where
  pub ring : List KnockEvent
  pub head : ℕ
  pub tail : ℕ
  pub count : ℕ
  pub shutting_down : Bool
  pub dropped : ℕ
  pub last_drop_report : ℕ

abbrev pub blank_event : KnockEvent
blank_event = record { src_ip = 0; dst_port = 0 }

unfoldable pub init : Queue
init = record {
  ring = replicate queue_capacity blank_event;
  head = 0;
  tail = 0;
  count = 0;
  shutting_down = false;
  dropped = 0;
  last_drop_report = 0;
}

-- `(i + 1) & (QUEUE_CAPACITY - 1)`
unfoldable pub advance : ℕ → ℕ
advance i = bit_and (i + 1) (queue_capacity - 1)

-- The branch of `pktqueue_push` on a full ring. `dropped` is an unsigned long. The second result
-- is `to_report`; 0 reports nothing. `now - last >= interval` is a signed comparison.
unfoldable pub drop_event : Queue → ℕ → Queue × ℕ
drop_event q now =
    let n = (q.dropped + 1) % 2 ^ 64 in
    if leb (q.last_drop_report + drop_report_interval) now
    then (record q { dropped = 0; last_drop_report = now }, n)
    else (record q { dropped = n }, 0)

-- The status, the new state, and the count that the call reports.
unfoldable pub push : Queue → KnockEvent → ℕ → Status × Queue × ℕ
push q e now =
    if ltb q.count queue_capacity
    then (
      ok,
      record q { ring = set q.ring q.head e; head = advance q.head; count = q.count + 1 },
      0,
    )
    else (let (q', n) = drop_event q now in (failed, q', n))

-- The event is what goes through the out parameter, which is written on success only.
unfoldable pub pop : Queue → Option KnockEvent × Queue
pop q =
    if ltb 0 q.count
    then (
      some (get_or q.ring q.tail blank_event),
      record q { tail = advance q.tail; count = q.count - 1 },
    )
    else (none, q)

unfoldable pub shutdown : Queue → Queue
shutdown q = record q { shutting_down = true }

-- One return of `pthread_cond_timedwait`: what the other threads did to the queue while the lock
-- was released, and whether the call returned ETIMEDOUT.
pub record Wake : Type 0 where
  pub others : Queue → Queue
  pub timed_out : Bool

-- The loop of `pktqueue_wait`. `none`: still blocked after the wakes given.
pub wait_loop : Queue → List Wake → Option Queue
wait_loop q [] = if q.count == 0 && not q.shutting_down then none else some q
wait_loop q (w ∷ ws) =
    let q' = w.others q in
    let rest = wait_loop q' ws in
    if q.count == 0 && not q.shutting_down then (if w.timed_out then some q' else rest) else some q

-- `pktqueue_wait`: what follows the loop is the body of `pktqueue_pop`.
pub wait : Queue → List Wake → Option (Option KnockEvent × Queue)
wait q ws = elim (wait_loop q ws) [ none ↦ none | some q' ↦ some (pop q') ]

-- `deadline_from_now`: seconds and nanoseconds of the clock, moved on by `timeout_ms`.
pub deadline_from_now : ℕ → ℕ → ℕ → ℕ × ℕ
deadline_from_now sec nsec timeout_ms =
    let sec' = sec + timeout_ms / 1000 in
    let nsec' = nsec + timeout_ms % 1000 * 1000000 in
    if leb 1000000000 nsec' then (sec' + 1, nsec' - 1000000000) else (sec', nsec')

-- The calls of the two threads, in the order in which they take the mutex.
pub data Call : Type 0 where
  pushes : KnockEvent → ℕ → Call
  pops : Call
  shuts : Call

-- What a call hands back: its status and, for `pktqueue_pop`, the event.
abbrev pub Reply : Type 0
Reply = Status × Option KnockEvent

abbrev pub pop_status : Option KnockEvent → Status
pop_status none = failed
pop_status (some e) = ok

pub step : Queue → Call → Reply × Queue
step q (pushes e now) = let (s, q', n) = push q e now in ((s, none), q')
step q pops = let (out, q') = pop q in ((pop_status out, out), q')
step q shuts = ((ok, none), shutdown q)

pub run : Queue → List Call → List Reply × Queue
run q [] = ([], q)
run q (c ∷ cs) = let (r, q') = step q c in let (rs, q'') = run q' cs in (r ∷ rs, q'')
