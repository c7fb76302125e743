-- ===== src/Firewall.antt =====
-- The grants and their iptables rules: src/firewall.c and include/firewall.h. The processor thread
-- alone calls these functions, one after the other. What the operating system decides is an
-- `Env`: whether `inet_ntop` formats an address, and whether a run of iptables exits with status 0,
-- which may depend on all the runs before it. The time that a function reads is an argument.
pub mod Child
pub mod Ledger
pub mod Balance
pub mod Tick
pub mod Opening
pub mod Ending
pub mod Chain
pub mod Lifecycle
pub mod Jump
pub mod Asked
mod Tests
pub mod ChainTests
use knockd.Prelude.{
  ℕ, zero, suc, ◌+◌, Bool, true, false, not, ◌&&◌, Option, none, some, List, [], ◌∷◌, map, get_or,
  set, replicate, leb, ◌==◌, if◌then◌else◌,
}
use mathlib.Core.Option
use knockd.Settings.{Settings}

-- The command lines of the file. Each is fixed but for the two that insert and delete the rule of an
-- address, which also name PROTECTED_PORT.
pub data Command : Type 0 where
  new_chain flush_chain check_jump add_jump unhook delete_chain : Command
  insert_grant delete_grant : ℕ → Command

-- The runs of iptables so far, newest first, each with its success.
abbrev pub Runs : Type 0
Runs = List (Command × Bool)

pub record Env : Type 0 where
  pub formats : ℕ → Bool
  pub succeeds : Runs → Command → Bool

-- `grant_t`
pub record Grant : Type 0 where
  pub ip : ℕ
  pub expires_at : ℕ
  pub active : Bool

abbrev pub zeroed : Grant
zeroed = record { ip = 0; expires_at = 0; active = false }

abbrev pub max_expiry_per_tick : ℕ
max_expiry_per_tick = 16

-- The static variables, and what iptables has been asked to do. `none` is a NULL table.
pub record Firewall : Type 0 where
  pub grants : Option (List Grant)
  pub added_jump : Bool
  pub ran : Runs

-- The status of a call, 0 or -1.
pub data Status : Type 0 where
  ok failed : Status

-- `run_iptables`, and `run_grant_rule` for the two commands that name an address.
unfoldable pub exec : Env → Command → Firewall → Bool × Firewall
exec env cmd fw = let r = env.succeeds fw.ran cmd in (r, record fw { ran = (cmd, r) ∷ fw.ran })

unfoldable pub find_grant : List Grant → ℕ → Option ℕ
find_grant [] ip = none
find_grant (g ∷ gs) ip =
    let rest = Option.map suc (find_grant gs ip) in if g.active && g.ip == ip then some 0 else rest

-- The loop of `firewall_open` that looks for a slot.
unfoldable pub find_slot : List Grant → Option ℕ
find_slot [] = none
find_slot (g ∷ gs) =
    let rest = Option.map suc (find_slot gs) in if not g.active then some 0 else rest

-- The end of `firewall_init`, once the chain is known to be there.
unfoldable pub hook : Env → Firewall → Status × Firewall
unfolding exec
hook env fw =
    let (there, fw1) = exec env check_jump fw in
    if there
    then (ok, fw1)
    else (let (added, fw2) = exec env add_jump fw1 in
        if added
        then (ok, record fw2 { added_jump = true })
        else (failed, record fw2 { grants = none }))

-- `allocated`: `calloc` succeeded.
unfoldable pub init : Env → Settings → Bool → Firewall → Status × Firewall
init env s allocated fw =
    if not allocated
    then (failed, record fw { grants = none })
    else (let (_, fw1) =
          exec env new_chain (record fw { grants = some (replicate s.max_clients zeroed) }) in
        let (flushed, fw2) = exec env flush_chain fw1 in
        if not flushed then (failed, record fw2 { grants = none }) else hook env fw2)

-- The last part of `firewall_open`: the slot is reserved, then the rule inserted; on failure the
-- slot is given back.
unfoldable pub reserve : Env → ℕ → ℕ → List Grant → ℕ → Firewall → Status × Firewall
unfolding exec
reserve env ip expires_at gs i fw =
    let gs' = set gs i (record { ip = ip; expires_at = expires_at; active = true }) in
    let (inserted, fw1) = exec env (insert_grant ip) (record fw { grants = some gs' }) in
    if inserted then (ok, fw1) else (
      failed,
      record fw1 { grants = some (set gs' i (record (get_or gs' i zeroed) { active = false })) },
    )

-- `firewall_open` on an allocated table, for an address that formats.
unfoldable pub open_in : Env → ℕ → ℕ → List Grant → Firewall → Status × Firewall
unfolding reserve
open_in env ip expires_at gs fw = elim (find_grant gs ip) [
  | some i ↦ (
    ok,
    record fw {
      grants = some (set gs i (record (get_or gs i zeroed) { expires_at = expires_at }));
    },
  )
  | none ↦ elim (find_slot gs) [ none ↦ (failed, fw) | some i ↦ reserve env ip expires_at gs i fw ]
]

unfoldable pub open_grant : Env → Settings → ℕ → ℕ → Firewall → Status × Firewall
unfolding open_in
open_grant env s now ip fw = elim fw.grants [
  | none ↦ (failed, fw)
  | some gs ↦
      if not (env.formats ip) then (failed, fw) else open_in env ip (now + s.access_timeout) gs fw
]

-- `firewall_close` on an allocated table, for an address that formats.
pub close_in : Env → ℕ → List Grant → Firewall → Status × Firewall
unfolding exec
close_in env ip gs fw = elim (find_grant gs ip) [
  | none ↦ (ok, fw)
  | some i ↦
      let gs' = set gs i (record (get_or gs i zeroed) { active = false }) in
      let (deleted, fw1) = exec env (delete_grant ip) (record fw { grants = some gs' }) in
      if deleted then (ok, fw1) else (failed, fw1)
]

pub close_grant : Env → ℕ → Firewall → Status × Firewall
unfolding close_in
close_grant env ip fw = elim fw.grants [
  | none ↦ (failed, fw)
  | some gs ↦ if not (env.formats ip) then (failed, fw) else close_in env ip gs fw
]

-- `grants[i].active && now >= grants[i].expires_at`
unfoldable pub is_due : ℕ → Grant → Bool
is_due now g = g.active && leb g.expires_at now

-- The first loop of `firewall_tick`, with room for `room` more addresses in `expired`.
unfoldable pub expire : ℕ → ℕ → List Grant → List ℕ × List Grant
expire now zero gs = ([], gs)
expire now (suc room) [] = ([], [])
expire now (suc room) (g ∷ gs) =
    let (ips, gs') = expire now (if is_due now g then room else suc room) gs in
    if is_due now g then (g.ip ∷ ips, record g { active = false } ∷ gs') else (ips, g ∷ gs')

-- The second loop of `firewall_tick`.
unfoldable pub revoke : Env → List ℕ → Firewall → Firewall
unfolding exec
revoke env [] fw = fw
revoke env (ip ∷ ips) fw =
    revoke env ips (if env.formats ip then (exec env (delete_grant ip) fw).1 else fw)

unfoldable pub tick : Env → ℕ → Firewall → Firewall
unfolding expire revoke
tick env now fw = elim fw.grants [
  | none ↦ fw
  | some gs ↦
      let (ips, gs') = expire now max_expiry_per_tick gs in
      revoke env ips (record fw { grants = some gs' })
]

unfoldable pub shutdown : Env → Firewall → Firewall
unfolding exec
shutdown env fw = elim fw.grants [
  | none ↦ fw
  | some gs ↦
      let (_, fw1) = exec env flush_chain fw in
      let fw2 =
        if fw.added_jump
        then (let (unhooked, fwu) = exec env unhook fw1 in
            if unhooked then (exec env delete_chain fwu).1 else fwu)
        else fw1 in
      record fw2 { grants = none }
]
