-- ===== src/Knocker.antt =====
-- The knock sequence state machine: src/knocker.c and include/knocker.h. Every function runs under
-- `table_lock`. The times that `time` returns are arguments, in seconds since the epoch and never
-- negative; `process_locked` reads the clock, and `alloc_client` reads it again. A signed
-- comparison of a difference, `now - last > w`, is written `last + w < now`. A pointer to an entry
-- is its index. Logging is left out.
pub mod Table
pub mod Alloc
pub mod Entry
pub mod Process
pub mod Invariant
pub mod Cleanup
pub mod Others
pub mod Complete
pub mod Properties
pub mod Restart
mod Tests
pub mod Honest
pub mod Sound
use knockd.Prelude.{
  ℕ, suc, ◌+◌, Bool, true, false, not, ◌&&◌, Option, none, some, List, [], ◌∷◌, get_or, set,
  replicate, map, ltb, leb, ◌==◌, if◌then◌else◌,
}
use mathlib.Core.Option
use knockd.Settings.{Settings, knock_port, knock_seq_len}

-- `knock_result_t`
pub data KnockResult : Type 0 where
  complete in_progress reset : KnockResult

abbrev pub knock_dedup_window : ℕ
knock_dedup_window = 5

-- `knock_client_t`
pub record KnockClient : Type 0 where
  pub ip : ℕ
  pub current_step : ℕ
  pub last_knock : ℕ
  pub last_port : ℕ
  pub active : Bool

-- A zeroed entry.
abbrev pub zeroed : KnockClient
zeroed = record { ip = 0; current_step = 0; last_knock = 0; last_port = 0; active = false }

abbrev pub Table : Type 0
Table = List KnockClient

unfoldable pub find_client : Table → ℕ → Option ℕ
find_client [] ip = none
find_client (c ∷ cs) ip =
    let rest = Option.map suc (find_client cs ip) in if c.active && c.ip == ip then some 0 else rest

-- `oldest == NULL || clients[i].last_knock < oldest->last_knock`; the pointer is kept as the index
-- with the entry's `last_knock`.
unfoldable pub older : ℕ → KnockClient → Option (ℕ × ℕ) → Option (ℕ × ℕ)
older i c none = some (i, c.last_knock)
older i c (some (j, t)) = if ltb c.last_knock t then some (i, c.last_knock) else some (j, t)

-- How the loop of `alloc_client` ends: at a free slot, or with the oldest entry.
pub data Scan : Type 0 where
  free : ℕ → Scan
  full : Option (ℕ × ℕ) → Scan

unfoldable pub scan : Table → ℕ → Option (ℕ × ℕ) → Scan
scan [] i oldest = full oldest
scan (c ∷ cs) i oldest =
    let rest = scan cs (i + 1) (older i c oldest) in if not c.active then free i else rest

-- What follows the loop of `alloc_client`.
unfoldable pub claim : Settings → ℕ → Scan → Option ℕ
claim s now (free i) = some i
claim s now (full none) = none
claim s now (full (some (i, t))) = if leb now (t + s.knock_window) then none else some i

-- The slot that is claimed; the caller zeroes it (`memset`) and fills it in.
unfoldable pub alloc_client : Settings → ℕ → Table → Option ℕ
unfolding claim scan older
alloc_client s now cs = claim s now (scan cs 0 none)

-- The entry as `alloc_client` zeroes it and `process_locked` claims it.
unfoldable pub claimed : ℕ → KnockClient
claimed ip = record zeroed { ip = ip; active = true }

-- `(now - c->last_knock) > KNOCK_WINDOW`
unfoldable pub expired : Settings → ℕ → KnockClient → Bool
expired s now c = ltb (c.last_knock + s.knock_window) now

-- `dst_port == c->last_port && (now - c->last_knock) <= KNOCK_DEDUP_WINDOW`
unfoldable pub is_retransmit : ℕ → ℕ → KnockClient → Bool
is_retransmit now port c = port == c.last_port && leb now (c.last_knock + knock_dedup_window)

-- The tail of `process_locked`, from the comparison with the expected port on.
unfoldable pub match_port : Settings → ℕ → ℕ → KnockClient → KnockResult × KnockClient
match_port s now port c =
    if port == knock_port s c.current_step
    then (let c' = record c {
      current_step = c.current_step + 1;
      last_knock = now;
      last_port = port;
    } in
        if leb (knock_seq_len s) (c.current_step + 1)
        then (complete, record c' { active = false })
        else (in_progress, c'))
    else (if port == knock_port s 0
        then (in_progress, record c { current_step = 1; last_knock = now; last_port = port })
        else (reset, record c { active = false }))

-- The part of `process_locked` that works on the entry `c` alone.
unfoldable pub advance : Settings → ℕ → ℕ → KnockClient → KnockResult × KnockClient
advance s now port c =
    if is_retransmit now port c
    then (in_progress, c)
    else match_port s now port
        (if ltb 0 c.current_step && expired s now c then record c { current_step = 0 } else c)

-- `advance` through the pointer to slot `i`.
unfoldable pub advance_at : Settings → ℕ → ℕ → Table → ℕ → KnockResult × Table
advance_at s now port cs i = let (r, c) = advance s now port (get_or cs i zeroed) in (r, set cs i c)

-- `now` and `later` are the two readings of the clock.
unfoldable pub process_locked : Settings → ℕ → ℕ → Table → ℕ → ℕ → KnockResult × Table
process_locked s now later cs ip port = elim (find_client cs ip) [
  | some i ↦ advance_at s now port cs i
  | none ↦ if not (port == knock_port s 0) then (reset, cs) else (elim (alloc_client s later cs) [
    | none ↦ (reset, cs)
    | some i ↦ advance_at s now port (set cs i (claimed ip)) i
  ])
]

-- `knocker_init`; `none` when `calloc` fails.
unfoldable pub init : Settings → Bool → Option Table
init s allocated = if allocated then some (replicate s.max_clients zeroed) else none

-- `knocker_shutdown`: the table is freed.
unfoldable pub shutdown : Option Table → Option Table
shutdown clients = none

-- One turn of the loop of `knocker_cleanup_stale`.
unfoldable pub sweep : Settings → ℕ → KnockClient → KnockClient
unfolding expired
sweep s now c = if c.active && expired s now c then record c { active = false } else c

unfoldable pub cleanup_stale : Settings → ℕ → Table → Table
unfolding sweep
cleanup_stale s now cs = map (sweep s now) cs

-- The calls of the processor thread, in order.
pub data Call : Type 0 where
  knocks : ℕ → ℕ → ℕ → ℕ → Call
  sweeps : ℕ → Call

-- `knocks now later ip port` and `sweeps now`.
unfoldable pub apply : Settings → Table → Call → Table
apply s cs (knocks now later ip port) = (process_locked s now later cs ip port).1
apply s cs (sweeps now) = cleanup_stale s now cs
