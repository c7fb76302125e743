-- ===== src/Queue/Moves.antt =====
-- What one call of src/packet_queue.c does to the number of events and to the events that wait.
use knockd.Prelude.{ℕ, ◌+◌, ◌-◌, ◌%◌, ◌≤◌, ◌≡◌, refl, ◌⊎◌, none, some, [], ◌∷◌, ◌++◌, arith}
use knockd.Queue.{KnockEvent, Queue, ok, failed, push, pop, drop_event, shutdown, init}
use knockd.Queue.Ring.{
  IsValid, contents, length-window, window-ne_zero, window-set, window-mod, advance_lem,
}

pub push_count : (q : Queue) (e : KnockEvent) (now : ℕ) → (push q e now).1.count ≤ q.count + 1
unfolding push drop_event
push_count q e now = ground arith

pub pop_count_some :
    (q : Queue) (e : KnockEvent) → (pop q).0 ≡ some e → (pop q).1.count + 1 ≡ q.count
unfolding pop
pop_count_some q e h = ground arith

pub no_event_kept : (q : Queue) → (pop q).0 ≡ none → (pop q).1 ≡ q
unfolding pop
no_event_kept q h = ground arith

pub shutdown_count : (q : Queue) → (shutdown q).count ≡ q.count
unfolding shutdown
shutdown_count q = refl

pub contents-shutdown : (q : Queue) → contents (shutdown q) ≡ contents q
unfolding shutdown
contents-shutdown q = refl

-- An event is put behind those that wait, or, where as many as the ring holds wait, turned away.
pub contents-push :
    (q : Queue) (e : KnockEvent) (now : ℕ)
    → IsValid q
    → (((push q e now).0 ≡ ok) × (contents (push q e now).1 ≡ contents q ++ e ∷ []))
      ⊎ (((push q e now).0 ≡ failed) × (contents (push q e now).1 ≡ contents q))
unfolding push drop_event
contents-push q e now v = ground (arith, window-set q.ring q.tail q.count q.head e)

-- An empty queue has room.
pub push_empty :
    (q : Queue) (e : KnockEvent) (now : ℕ)
    → IsValid q
    → contents q ≡ []
    → ((push q e now).0 ≡ ok) × (contents (push q e now).1 ≡ e ∷ [])
unfolding push drop_event
push_empty q e now v c =
    ground (arith, length-window q.ring q.tail q.count, window-set q.ring q.tail q.count q.head e)

-- The only event is handed out, and leaves an empty queue.
pub pop_only :
    (q : Queue) (e : KnockEvent)
    → IsValid q
    → contents q ≡ e ∷ []
    → ((pop q).0 ≡ some e) × (contents (pop q).1 ≡ [])
unfolding pop
pop_only q e v c = ground (
  arith,
  length-window q.ring q.tail q.count,
  advance_lem q.tail,
  window-ne_zero q.ring q.tail q.count,
  window-mod q.ring (q.tail + 1) ((q.tail + 1) % 256) (q.count - 1),
)

pub pop_empty : (q : Queue) → contents q ≡ [] → (pop q).0 ≡ none
unfolding pop
pop_empty q c = ground (arith, length-window q.ring q.tail q.count)

-- The event that is taken was the first.
pub contents-pop :
    (q : Queue) (e : KnockEvent)
    → IsValid q
    → (pop q).0 ≡ some e
    → contents q ≡ e ∷ contents (pop q).1
unfolding pop
contents-pop q e v h = ground (
  arith,
  advance_lem q.tail,
  window-ne_zero q.ring q.tail q.count,
  window-mod q.ring (q.tail + 1) ((q.tail + 1) % 256) (q.count - 1),
)

pub shutdown-IsValid : (q : Queue) → IsValid q → IsValid (shutdown q)
unfolding shutdown
shutdown-IsValid q v = ground arith

pub contents-init : contents init ≡ []
unfolding init
contents-init = refl
