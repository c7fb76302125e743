-- ===== src/Daemon/Threads.antt =====
-- The two threads of src/main.c: `capture_thread` and `run_processor` as a step relation on what they
-- share, the queue and `g_running`. A step is what a thread does between two points where the other
-- can be heard of: a test of `g_running`, a call of `recvfrom` in the sniffer's loop that came back, or
-- a turn under the mutex of the queue. The sniffer's loop goes on without a test of `g_running` while
-- the packets are none of its own. While `pktqueue_wait` blocks, the other thread's steps go on; the step that
-- ends it is its last look at the queue.
use knockd.Prelude.{ℕ, ◌≡◌, ◌⊎◌, Bool, true, false, none, some, List, [], ◌∷◌}
use knockd.Settings.{Settings}
use knockd.Queue
use knockd.Queue.{KnockEvent, Queue, push, pop}
use knockd.Sniffer.{Received, Knock, sniffer_ok, sniffer_again, sniffer_error, blocked, next_knock}
use knockd.Firewall.{Env, tick}
use knockd.Daemon.{Daemon, Turn, process_event, scan_stale}

-- Where `capture_thread` stands: at its loop test, in `sniffer_next_knock`, before `pktqueue_push`,
-- behind the loop, and behind its `return`.
pub data CapturePhase : Type 0 where
  at_test : CapturePhase
  sniffing : CapturePhase
  pushing : KnockEvent → CapturePhase
  leaving : CapturePhase
  ended : CapturePhase

-- Where `run_processor` stands: at its loop test, in `pktqueue_wait`, in the inner loop before
-- `pktqueue_pop`, before `firewall_tick`, before the sweep and behind the loop; then, as `main` goes on
-- to `cleanup`, at `pthread_join` and behind it.
pub data ProcessorPhase : Type 0 where
  at_test : ProcessorPhase
  waiting : ProcessorPhase
  draining : ProcessorPhase
  ticking : ProcessorPhase
  scanning : ProcessorPhase
  stopped : ProcessorPhase
  joining : ProcessorPhase
  joined : ProcessorPhase

-- `reported` is no variable of the program: the events that the sniffer reported, newest first.
pub record Threads : Type 0 where
  pub queue : Queue
  pub running : Bool
  pub capture : CapturePhase
  pub processor : ProcessorPhase
  pub daemon : Daemon
  pub reported : List KnockEvent

abbrev pub event_of : Knock → KnockEvent
event_of k = record { src_ip = k.src_ip; dst_port = k.dst_port }

-- The threads as `main` starts them, on the tables that `start` set up.
unfoldable pub boot : Daemon → Threads
boot d = record {
  queue = Queue.init;
  running = true;
  capture = CapturePhase.at_test;
  processor = ProcessorPhase.at_test;
  daemon = d;
  reported = [];
}

module _ (s : Settings) (env : Env) (ifindex : ℕ) where
  pub data CaptureStep : Threads → Threads → Type 0 where
    goes_on :
        (t : Threads)
        → t.capture ≡ CapturePhase.at_test
        → t.running ≡ true
        → CaptureStep t (record t { capture = sniffing })
    gives_up :
        (t : Threads)
        → t.capture ≡ CapturePhase.at_test
        → t.running ≡ false
        → CaptureStep t (record t { capture = leaving })
    reports :
        (t : Threads) (r : Received) (k : Knock)
        → t.capture ≡ sniffing
        → next_knock s ifindex (r ∷ []) ≡ sniffer_ok k
        → CaptureStep t
            (record t { capture = pushing (event_of k); reported = event_of k ∷ t.reported })
    skips :
        (t : Threads) (r : Received)
        → t.capture ≡ sniffing
        → next_knock s ifindex (r ∷ []) ≡ blocked
        → CaptureStep t t
    hears_nothing :
        (t : Threads) (r : Received)
        → t.capture ≡ sniffing
        → next_knock s ifindex (r ∷ []) ≡ sniffer_again
        → CaptureStep t (record t { capture = CapturePhase.at_test })
    fails :
        (t : Threads) (r : Received)
        → t.capture ≡ sniffing
        → next_knock s ifindex (r ∷ []) ≡ sniffer_error
        → CaptureStep t (record t { running = false; capture = leaving })
    pushes :
        (t : Threads) (e : KnockEvent) (now : ℕ)
        → t.capture ≡ pushing e
        → CaptureStep t
            (record t { queue = (push t.queue e now).1; capture = CapturePhase.at_test })
    ends :
        (t : Threads)
        → t.capture ≡ leaving
        → CaptureStep t (record t { queue = Queue.shutdown t.queue; capture = ended })

  -- The event comes from `pktqueue_wait` or from `pktqueue_pop`.
  abbrev pub MayTake : ProcessorPhase → Type 0
  MayTake p = (p ≡ waiting) ⊎ (p ≡ draining)

  pub data ProcessorStep : Threads → Threads → Type 0 where
    goes_on :
        (t : Threads)
        → t.processor ≡ ProcessorPhase.at_test
        → t.running ≡ true
        → ProcessorStep t (record t { processor = waiting })
    gives_up :
        (t : Threads)
        → t.processor ≡ ProcessorPhase.at_test
        → t.running ≡ false
        → ProcessorStep t (record t { processor = stopped })
    takes :
        (t : Threads) (e : KnockEvent) (now later opened : ℕ)
        → MayTake t.processor
        → (pop t.queue).0 ≡ some e
        → ProcessorStep t (record t {
          queue = (pop t.queue).1;
          processor = draining;
          daemon =
              process_event s env t.daemon
                (record { event = e; now = now; later = later; opened = opened });
        })
    finds_nothing :
        (t : Threads)
        → MayTake t.processor
        → (pop t.queue).0 ≡ none
        → ProcessorStep t (record t { queue = (pop t.queue).1; processor = ticking })
    ticks :
        (t : Threads) (now : ℕ)
        → t.processor ≡ ticking
        → ProcessorStep t (record t {
          processor = scanning;
          daemon = record t.daemon { firewall = tick env now t.daemon.firewall };
        })
    scans :
        (t : Threads) (times : Turn)
        → t.processor ≡ scanning
        → ProcessorStep t
            (record t { processor = ProcessorPhase.at_test; daemon = scan_stale s times t.daemon })
    shuts_down :
        (t : Threads)
        → t.processor ≡ stopped
        → ProcessorStep t
            (record t { running = false; queue = Queue.shutdown t.queue; processor = joining })
    joins :
        (t : Threads)
        → t.processor ≡ joining
        → t.capture ≡ ended
        → ProcessorStep t (record t { processor = joined })

  -- `signal_handler`; a second signal changes nothing.
  pub data Step : Threads → Threads → Type 0 where
    captures : {t u : Threads} → CaptureStep t u → Step t u
    processes : {t u : Threads} → ProcessorStep t u → Step t u
    signalled : (t : Threads) → t.running ≡ true → Step t (record t { running = false })

  pub data Reach (t : Threads) : Threads → Type 0 where
    here : Reach t t
    next : {u v : Threads} → Reach t u → Step u v → Reach t v
