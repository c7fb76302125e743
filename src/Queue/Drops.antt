-- ===== src/Queue/Drops.antt =====
-- The drop reports of `pktqueue_push`: no drop goes uncounted, and reports are rare.
use knockd.Prelude.{
  ℕ, zero, suc, ◌+◌, ◌^◌, ◌≤◌, ◌<◌, ◌≡◌, ◌⊎◌, inl, inr, List, [], subst, ◌∷◌, length, arith,
}
use knockd.Queue.{
  KnockEvent, Queue, Call, pushes, pops, shuts, push, pop, drop_event, shutdown, Status, ok, failed,
  step, run,
}

-- The report of each push, with its time; 0 reports nothing.
unfoldable pub reports : Queue → List Call → List (ℕ × ℕ)
reports q [] = []
reports q (pushes e now ∷ cs) =
    let (s, q', n) = push q e now in let rest = reports q' cs in (now, n) ∷ rest
reports q (pops ∷ cs) = reports (step q pops).1 cs
reports q (shuts ∷ cs) = reports (step q shuts).1 cs

abbrev pub failures : Status → ℕ
failures ok = 0
failures failed = 1

-- How many pushes failed.
pub lost : Queue → List Call → ℕ
lost q [] = 0
lost q (pushes e now ∷ cs) = let (s, q', n) = push q e now in failures s + lost q' cs
lost q (pops ∷ cs) = lost (step q pops).1 cs
lost q (shuts ∷ cs) = lost (step q shuts).1 cs

-- The events that the reports speak of.
abbrev pub reported : List (ℕ × ℕ) → ℕ
reported [] = 0
reported ((now, n) ∷ rs) = n + reported rs

-- Each report is at least ten seconds after the one before it.
abbrev pub Spaced : ℕ → List (ℕ × ℕ) → Type 0
Spaced last [] = Unit
Spaced last ((now, zero) ∷ rs) = Spaced last rs
Spaced last ((now, suc n) ∷ rs) = (last + 10 ≤ now) × Spaced now rs

-- One push: what it reports and what it leaves pending make up what it lost, and it moves the time
-- of the last report only when it reports, ten seconds later at the earliest.
push-reports :
    (q : Queue) (e : KnockEvent) (now : ℕ)
    → suc q.dropped < 2 ^ 64
    → let (s, q', n) = push q e now in
      (n + q'.dropped ≡ q.dropped + failures s)
      × (((n ≡ 0) × (q'.last_drop_report ≡ q.last_drop_report))
          ⊎ ((q.last_drop_report + 10 ≤ now) × (q'.last_drop_report ≡ now)))
unfolding push drop_event
push-reports q e now h = ground arith

step-dropped :
    (q : Queue)
    → ((step q pops).1.dropped ≡ q.dropped)
      × ((step q pops).1.last_drop_report ≡ q.last_drop_report)
      × ((step q shuts).1.dropped ≡ q.dropped)
      × ((step q shuts).1.last_drop_report ≡ q.last_drop_report)
unfolding step pop shutdown
step-dropped q = ground arith

Spaced-mono : (a b : ℕ) (rs : List (ℕ × ℕ)) → a ≤ b → Spaced b rs → Spaced a rs
Spaced-mono a b [] h s = tt
Spaced-mono a b ((now, zero) ∷ rs) h s = Spaced-mono a b rs h s
Spaced-mono a b ((now, suc n) ∷ rs) h s = (omega arith, s.1)

Spaced-cons :
    (last last' now n : ℕ) (rs : List (ℕ × ℕ))
    → ((n ≡ 0) × (last' ≡ last)) ⊎ ((last + 10 ≤ now) × (last' ≡ now))
    → Spaced last' rs
    → Spaced last ((now, n) ∷ rs)
Spaced-cons last last' now zero rs (inl (_, e)) s = subst (λ l. Spaced l rs) e s
Spaced-cons last last' now zero rs (inr (h, e)) s =
    Spaced-mono last now rs (omega arith) (subst (λ l. Spaced l rs) e s)
Spaced-cons last last' now (suc n) rs (inl (z, _)) s = absurd (omega arith)
Spaced-cons last last' now (suc n) rs (inr (h, e)) s = (h, subst (λ l. Spaced l rs) e s)

failures-room :
    (q : Queue) (e : KnockEvent) (now : ℕ) (cs : List Call)
    → q.dropped + suc (length cs) < 2 ^ 64
    → (push q e now).1.dropped + length cs < 2 ^ 64
unfolding push drop_event
failures-room q e now cs h = ground arith

-- Every event that a push drops is in exactly one report or still pending, as long as the counter
-- does not wrap, and two reports are at least ten seconds apart.
pub reports_lem :
    (q : Queue) (cs : List Call)
    → q.dropped + length cs < 2 ^ 64
    → (reported (reports q cs) + (run q cs).1.dropped ≡ q.dropped + lost q cs)
      × Spaced q.last_drop_report (reports q cs)
unfolding reports lost run step
reports_lem q [] h = (omega arith, tt)
reports_lem q (pushes e now ∷ cs) h =
    let one = push-reports q e now (omega arith) in
    let ih = reports_lem (push q e now).1 cs (failures-room q e now cs h) in
    (omega (arith, one.0, ih.0), Spaced-cons _ _ now _ _ one.1 ih.1)
reports_lem q (pops ∷ cs) h =
    let same = step-dropped q in
    let ih = reports_lem (step q pops).1 cs (omega (arith, same.0)) in
    (omega (arith, same.0, ih.0), subst (λ l. Spaced l (reports (step q pops).1 cs)) same.1 ih.1)
reports_lem q (shuts ∷ cs) h =
    let same = step-dropped q in
    let ih = reports_lem (step q shuts).1 cs (omega (arith, same.2)) in
    (omega (arith, same.2, ih.0), subst (λ l. Spaced l (reports (step q shuts).1 cs)) same.3 ih.1)
