-- ===== src/Daemon/Sent.antt =====
-- Lists of knock events, newest first: who sent what, and what is left of a list on the way.
use knockd.Prelude.{ℕ, suc, ◌≡◌, refl, List, [], ◌∷◌, ◌++◌}
use knockd.Settings.{Settings, knock_port}
use knockd.Knocker.{knocks, sweeps}
use knockd.Knocker.Honest.{Knocked, none_yet, earlier, next, History}
use knockd.Queue.{KnockEvent}

-- `Sent s ip k es`: among the events `es`, newest first, are some of `ip` on the first `k` ports of
-- the sequence, in order.
pub data Sent (s : Settings) (ip : ℕ) : ℕ → List KnockEvent → Type 0 where
  nothing_sent : (es : List KnockEvent) → Sent s ip 0 es
  before : {k : ℕ} {es : List KnockEvent} (e : KnockEvent) → Sent s ip k es → Sent s ip k (e ∷ es)
  on_port :
      {k : ℕ} {es : List KnockEvent} (port : ℕ)
      → Sent s ip k es
      → port ≡ knock_port s k
      → Sent s ip (suc k) (record { src_ip = ip; dst_port = port } ∷ es)

-- The events of the first list are among those of the second, in the same order.
pub data Within : List KnockEvent → List KnockEvent → Type 0 where
  no_events : (ys : List KnockEvent) → Within [] ys
  skips : {xs ys : List KnockEvent} (y : KnockEvent) → Within xs ys → Within xs (y ∷ ys)
  keeps : {xs ys : List KnockEvent} (x : KnockEvent) → Within xs ys → Within (x ∷ xs) (x ∷ ys)

pub Sent-Within :
    {s : Settings} {ip k : ℕ} {xs ys : List KnockEvent}
    → Within xs ys
    → Sent s ip k xs
    → Sent s ip k ys
Sent-Within (no_events ys) (nothing_sent _) = nothing_sent ys
Sent-Within (skips y w) p = before y (Sent-Within w p)
Sent-Within (keeps x w) (nothing_sent _) = nothing_sent _
Sent-Within (keeps x w) (before _ p) = before x (Sent-Within w p)
Sent-Within (keeps x w) (on_port port p e) = on_port port (Sent-Within w p) e

pub Within-tail : {xs ys : List KnockEvent} (x : KnockEvent) → Within (x ∷ xs) ys → Within xs ys
Within-tail x (skips y w) = skips y (Within-tail x w)
Within-tail x (keeps _ w) = skips x w

-- The events of the third list are those of the first and those of the second, each in order.
pub data Merge : List KnockEvent → List KnockEvent → List KnockEvent → Type 0 where
  none_left : Merge [] [] []
  from_first :
      {xs ys zs : List KnockEvent} (x : KnockEvent) → Merge xs ys zs → Merge (x ∷ xs) ys (x ∷ zs)
  from_second :
      {xs ys zs : List KnockEvent} (y : KnockEvent) → Merge xs ys zs → Merge xs (y ∷ ys) (y ∷ zs)

pub Merge-Within : {xs ys zs : List KnockEvent} → Merge xs ys zs → Within xs zs
Merge-Within none_left = no_events []
Merge-Within (from_first x m) = keeps x (Merge-Within m)
Merge-Within (from_second y m) = skips y (Merge-Within m)

-- A list, oldest first, put on one that is newest first.
unfoldable pub onto : List KnockEvent → List KnockEvent → List KnockEvent
onto [] acc = acc
onto (x ∷ xs) acc = onto xs (x ∷ acc)

pub onto_snoc :
    (xs acc : List KnockEvent) (e : KnockEvent) → onto (xs ++ e ∷ []) acc ≡ e ∷ onto xs acc
unfolding onto
onto_snoc [] acc e = refl
onto_snoc (x ∷ xs) acc e = onto_snoc xs (x ∷ acc) e

pub Within-onto : (xs acc ys : List KnockEvent) → Within (onto xs acc) ys → Within acc ys
unfolding onto
Within-onto [] acc ys w = w
Within-onto (x ∷ xs) acc ys w = Within-tail x (Within-onto xs (x ∷ acc) ys w)

-- The events of the knocks.
unfoldable pub events : History → List KnockEvent
events [] = []
events (knocks now later ip port ∷ h) = record { src_ip = ip; dst_port = port } ∷ events h
events (sweeps now ∷ h) = events h

pub Knocked-Sent :
    (s : Settings) (ip k t : ℕ) (h : History) → Knocked s ip k t h → Sent s ip k (events h)
unfolding events
Knocked-Sent s ip _ t h (none_yet _ _) = nothing_sent (events h)
Knocked-Sent s ip k t _ (earlier (knocks now later jp port) p) =
    before _ (Knocked-Sent s ip k t _ p)
Knocked-Sent s ip k t _ (earlier (sweeps now) p) = Knocked-Sent s ip k t _ p
Knocked-Sent s ip _ t _ (next now later port p e w) = on_port port (Knocked-Sent s ip _ _ _ p) e
