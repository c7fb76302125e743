-- ===== src/Queue/Wait.antt =====
-- `pktqueue_wait`: when it comes back, and with what; and its deadline.
use knockd.Prelude.{
  ℕ, ◌+◌, ◌*◌, ◌<◌, ◌≡◌, refl, ◌⊎◌, inl, inr, Bool, true, Option, none, some, List, [], ◌∷◌, arith,
  Bool-cases, Option-cases, ◌==◌, ◌&&◌, not,
}
use knockd.Queue.{KnockEvent, Queue, Wake, pop, wait, wait_loop, deadline_from_now}

-- Some wake of the wait is a timeout.
abbrev pub TimesOut : List Wake → Type 0
TimesOut [] = ⊥
TimesOut (w ∷ ws) = (w.timed_out ≡ true) ⊎ TimesOut ws

-- The condition under which the loop goes on waiting.
abbrev blocked : Queue → Bool
blocked q = q.count == 0 && not q.shutting_down

-- Given a wake that is a timeout, the loop ends.
wait_loop-some :
    (q : Queue) (ws : List Wake) → TimesOut ws → (q' : Queue) × (wait_loop q ws ≡ some q')
unfolding wait_loop
wait_loop-some q [] h = absurd h
wait_loop-some q (w ∷ ws) (inl t) = elim (Bool-cases (blocked q)) [
  | inl b ↦ rw (b, t) (w.others q, refl)
  | inr b ↦ rw b (q, refl)
]
wait_loop-some q (w ∷ ws) (inr t) = elim (Bool-cases (blocked q)) [
  | inl b ↦ elim (Bool-cases w.timed_out) [
    | inl e ↦ rw (b, e) (w.others q, refl)
    | inr e ↦ rw (b, e) (wait_loop-some (w.others q) ws t)
  ]
  | inr b ↦ rw b (q, refl)
]

-- Where the loop ends, there is an event, or the queue shuts down, or a wake was a timeout.
wait_loop_end :
    (q q' : Queue) (ws : List Wake)
    → wait_loop q ws ≡ some q'
    → (0 < q'.count) ⊎ ((q'.shutting_down ≡ true) ⊎ TimesOut ws)
unfolding wait_loop
wait_loop_end q q' [] h = ground arith
wait_loop_end q q' (w ∷ ws) h = elim (Bool-cases (blocked q)) [
  | inl b ↦ elim (Bool-cases w.timed_out) [
    | inl e ↦ inr (inr (inl e))
    | inr e ↦ later (wait_loop_end (w.others q) q' ws (rw (b, e) at h))
  ]
  | inr b ↦ ground arith
]
  where
    later :
        (0 < q'.count) ⊎ ((q'.shutting_down ≡ true) ⊎ TimesOut ws)
        → (0 < q'.count) ⊎ ((q'.shutting_down ≡ true) ⊎ TimesOut (w ∷ ws))
    later (inl a) = inl a
    later (inr (inl a)) = inr (inl a)
    later (inr (inr a)) = inr (inr (inr a))

-- A wait that some wake times out comes back.
pub wait_total :
    (q : Queue) (ws : List Wake)
    → TimesOut ws
    → (out : Option KnockEvent) × (q' : Queue) × (wait q ws ≡ some (out, q'))
unfolding wait
wait_total q ws t =
    let (q', e) = wait_loop-some q ws t in ((pop q').0, (pop q').1, rw (e, wait) refl)

pop_empty :
    (q1 q' : Queue) (ws : List Wake)
    → (0 < q1.count) ⊎ ((q1.shutting_down ≡ true) ⊎ TimesOut ws)
    → ◌≡◌ {A = Option (Option KnockEvent × Queue)} (some (pop q1)) (some (none, q'))
    → (q'.count ≡ 0) × ((q'.shutting_down ≡ true) ⊎ TimesOut ws)
unfolding pop
pop_empty q1 q' ws (inl c) e = ground arith
pop_empty q1 q' ws (inr (inl c)) e = (ground arith, inl (ground arith))
pop_empty q1 q' ws (inr (inr c)) e = (ground arith, inr c)

-- A wait comes back with no event only from an empty queue, and only because the queue is shutting
-- down or the wait had a timeout.
pub wait_empty :
    (q q' : Queue) (ws : List Wake)
    → wait q ws ≡ some (none, q')
    → (q'.count ≡ 0) × ((q'.shutting_down ≡ true) ⊎ TimesOut ws)
unfolding wait
wait_empty q q' ws h = elim (Option-cases (wait_loop q ws)) [
  | inl e ↦ ground (arith, e)
  | inr (q1, e) ↦ pop_empty q1 q' ws (wait_loop_end q q1 ws e) (rw (e, wait) at h)
]

-- From a clock with its nanoseconds in range, the deadline is the clock moved on by exactly the
-- timeout, with its nanoseconds in range.
pub deadline_lem :
    (sec nsec ms : ℕ)
    → nsec < 1000000000
    → let (s, n) = deadline_from_now sec nsec ms in
      (n < 1000000000) × (s * 1000000000 + n ≡ sec * 1000000000 + nsec + ms * 1000000)
unfolding deadline_from_now
deadline_lem sec nsec ms h = ground arith
