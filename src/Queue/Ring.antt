-- ===== src/Queue/Ring.antt =====
-- The representation invariant of the ring, and the events that it holds.
use knockd.Prelude.{
  ℕ, zero, suc, ◌+◌, ◌-◌, ◌%◌, ◌≤◌, ◌<◌, ◌≡◌, refl, ap, ap₂, true, List, [], ◌∷◌, ◌++◌, length,
  get_or, set, length-set, length-replicate, get_or-set_self, get_or-set_ne, arith, each_index,
  each_index-true, ◌==◌, ==_iff,
}
use knockd.Queue.{
  KnockEvent, Queue, blank_event, advance, init, push, pop, drop_event, shutdown, Call, pushes,
  pops, shuts, step,
}

pub record IsValid (q : Queue) : Type 0 where
  pub sized : length q.ring ≡ 256
  pub head_in : q.head < 256
  pub tail_in : q.tail < 256
  pub count_in : q.count ≤ 256
  pub head_at : q.head ≡ (q.tail + q.count) % 256

advance_table : each_index (λ i. advance i == (i + 1) % 256) 256 ≡ true
unfolding each_index advance
advance_table = refl

-- The mask divides: on an index of the ring, the next one, and 0 after the last.
pub advance_lem : (i : ℕ) → i < 256 → advance i ≡ (i + 1) % 256
advance_lem i h = (==_iff _ _).0 (each_index-true _ 256 i h advance_table)

-- The `n` events from slot `t` on, going round at the capacity.
abbrev pub window : List KnockEvent → ℕ → ℕ → List KnockEvent
window r t zero = []
window r t (suc n) = get_or r (t % 256) blank_event ∷ window r (t + 1) n

-- The events that wait, oldest first.
abbrev pub contents : Queue → List KnockEvent
contents q = window q.ring q.tail q.count

pub length-window : (r : List KnockEvent) (t n : ℕ) → length (window r t n) ≡ n
length-window r t zero = refl
length-window r t (suc n) = ap suc (length-window r (t + 1) n)

-- A window depends on its start modulo the capacity.
pub window-mod : (r : List KnockEvent) (t u n : ℕ) → t % 256 ≡ u % 256 → window r t n ≡ window r u n
window-mod r t u zero h = refl
window-mod r t u (suc n) h =
    ap₂ ◌∷◌ (ap (λ k. get_or r k blank_event) h) (window-mod r (t + 1) (u + 1) n (omega arith))

-- A write just past a window that is not full extends it.
pub window-set :
    (r : List KnockEvent) (t n i : ℕ) (e : KnockEvent)
    → length r ≡ 256
    → n < 256
    → i ≡ (t + n) % 256
    → window (set r i e) t (suc n) ≡ window r t n ++ e ∷ []
window-set r t zero i e hr hn hi = rw hi (ground (arith, get_or-set_self r (t % 256) e blank_event))
window-set r t (suc n) i e hr hn hi =
    ap₂ ◌∷◌ (get_or-set_ne r i (t % 256) e blank_event (omega arith))
      (window-set r (t + 1) n i e hr (omega arith) (omega arith))

pub window-ne_zero :
    (r : List KnockEvent) (t n : ℕ)
    → 0 < n
    → window r t n ≡ get_or r (t % 256) blank_event ∷ window r (t + 1) (n - 1)
window-ne_zero r t zero h = absurd (omega arith)
window-ne_zero r t (suc n) h = ap (λ k. window r t (suc k)) (omega arith)

pub init-IsValid : IsValid init
unfolding init
init-IsValid = record {
  sized = length-replicate 256 blank_event;
  head_in = omega arith;
  tail_in = omega arith;
  count_in = omega arith;
  head_at = omega arith;
}

pub push-IsValid : (q : Queue) (e : KnockEvent) (now : ℕ) → IsValid q → IsValid (push q e now).1
unfolding push drop_event
push-IsValid q e now v = ground (arith, advance_lem q.head, length-set q.ring q.head e)

pub pop-IsValid : (q : Queue) → IsValid q → IsValid (pop q).1
unfolding pop
pop-IsValid q v = ground (arith, advance_lem q.tail)

pub step-IsValid : (q : Queue) (c : Call) → IsValid q → IsValid (step q c).1
unfolding step shutdown
step-IsValid q (pushes e now) v = push-IsValid q e now v
step-IsValid q pops v = pop-IsValid q v
step-IsValid q shuts v = ground arith
