-- ===== src/Knocker/Cleanup.antt =====
-- `knocker_cleanup_stale`: exactly the entries past the window go.
use knockd.Prelude.{
  ℕ, suc, ◌≡◌, refl, ap, ◌∙◌, not, ◌&&◌, Option, none, some, [], ◌∷◌, map, length, All,
  if◌then◌else◌, arith,
}
use knockd.Settings.{Settings}
use knockd.Knocker.{KnockClient, Table, expired, sweep, cleanup_stale}
use knockd.Knocker.Table.{tracked, Unique}
use knockd.Knocker.Entry.{EntryInv}
use knockd.Knocker.Invariant.{IsTable}

-- The entry, unless it has expired.
abbrev pub unexpired : Settings → ℕ → Option KnockClient → Option KnockClient
unexpired s now none = none
unexpired s now (some c) = if expired s now c then none else some c

sweep_lem :
    (s : Settings) (now : ℕ) (c : KnockClient)
    → ((sweep s now c).ip ≡ c.ip) × ((sweep s now c).active ≡ (c.active && not (expired s now c)))
unfolding sweep
sweep_lem s now c = ground arith

tracked-sweep :
    (s : Settings) (now : ℕ) (cs : Table) (ip : ℕ)
    → Unique cs
    → tracked (map (sweep s now) cs) ip ≡ unexpired s now (tracked cs ip)
unfolding tracked sweep
tracked-sweep s now [] ip u = refl
tracked-sweep s now (c ∷ cs) ip u = ground (arith, tracked-sweep s now cs ip u.1, u.0)

-- After a sweep of a table with one entry for an address at most, an address is tracked exactly if
-- it was and its entry is still in the window.
pub tracked-cleanup :
    (s : Settings) (now : ℕ) (cs : Table) (ip : ℕ)
    → Unique cs
    → tracked (cleanup_stale s now cs) ip ≡ unexpired s now (tracked cs ip)
unfolding cleanup_stale
tracked-cleanup s now cs ip u = tracked-sweep s now cs ip u

sweep-EntryInv :
    (s : Settings) (now : ℕ) (c : KnockClient) → EntryInv s c → EntryInv s (sweep s now c)
unfolding sweep
sweep-EntryInv s now c h a = ground (arith, h, h (ground arith))

map-entries :
    (s : Settings) (now : ℕ) (cs : Table)
    → All (EntryInv s) cs
    → All (EntryInv s) (map (sweep s now) cs)
map-entries s now [] a = tt
map-entries s now (c ∷ cs) a = (sweep-EntryInv s now c a.0, map-entries s now cs a.1)

sweep-Unique : (s : Settings) (now : ℕ) (cs : Table) → Unique cs → Unique (map (sweep s now) cs)
sweep-Unique s now [] u = tt
sweep-Unique s now (c ∷ cs) u = (
  (λ a. ground (arith, a, sweep_lem s now c, u.0, tracked-sweep s now cs c.ip u.1)),
  sweep-Unique s now cs u.1,
)

length-sweep : (s : Settings) (now : ℕ) (cs : Table) → length (map (sweep s now) cs) ≡ length cs
length-sweep s now [] = refl
length-sweep s now (c ∷ cs) = ap suc (length-sweep s now cs)

-- A sweep keeps the invariant.
pub cleanup-IsTable :
    (s : Settings) (now : ℕ) (cs : Table) → IsTable s cs → IsTable s (cleanup_stale s now cs)
unfolding cleanup_stale
cleanup-IsTable s now cs t = record {
  sized = length-sweep s now cs ∙ t.sized;
  entries = map-entries s now cs t.entries;
  unique = sweep-Unique s now cs t.unique;
}
