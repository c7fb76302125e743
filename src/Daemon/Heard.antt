-- ===== src/Daemon/Heard.antt =====
-- The knocks that the processor thread of src/main.c has taken from the queue, newest first.
use knockd.Prelude.{ℕ, Bool, List, [], ◌∷◌}
use knockd.Settings.{Settings, knock_seq_len}
use knockd.Knocker.{knocks, sweeps, Call}
use knockd.Knocker.Honest.{Knocked, none_yet, earlier, next, History}
use knockd.Firewall.{Command, insert_grant}
use knockd.Daemon.{Arrival, Turn}

-- A knock of an arrival, as the state machine hears it.
abbrev pub heard : Arrival → Call
heard a = knocks a.now a.later a.event.src_ip a.event.dst_port

-- All knocks so far, newest first.
unfoldable pub hear : History → List Arrival → History
hear h [] = h
hear h (a ∷ rest) = hear (heard a ∷ h) rest

unfoldable pub all_heard : History → List Turn → History
all_heard h [] = h
all_heard h (t ∷ ts) = all_heard (hear h t.arrived) ts

unfoldable pub only_knocks : History → History
only_knocks [] = []
only_knocks (knocks now later ip port ∷ h) = knocks now later ip port ∷ only_knocks h
only_knocks (sweeps now ∷ h) = only_knocks h

pub only_knocks-Knocked :
    (s : Settings) (ip k t : ℕ) (h : History)
    → Knocked s ip k t h
    → Knocked s ip k t (only_knocks h)
unfolding only_knocks
only_knocks-Knocked s ip _ t h (none_yet _ _) = none_yet t (only_knocks h)
only_knocks-Knocked s ip k t _ (earlier (knocks now later jp port) p) =
    earlier (knocks now later jp port) (only_knocks-Knocked s ip k t _ p)
only_knocks-Knocked s ip k t _ (earlier (sweeps now) p) = only_knocks-Knocked s ip k t _ p
only_knocks-Knocked s ip _ t _ (next now later port p e w) =
    next now later port (only_knocks-Knocked s ip _ _ _ p) e w

-- A run of iptables that inserts the rule of an address stands behind a whole sequence of its knocks.
abbrev pub Earned : Settings → History → Command × Bool → Type 0
Earned s h (insert_grant ip, b) = (t : ℕ) × Knocked s ip (knock_seq_len s) t h
Earned s h (_, b) = Unit
