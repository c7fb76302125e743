-- ===== src/Daemon/Ends.antt =====
-- Access ends: a client that does not knock the sequence again loses its grant and its rule.
use knockd.Prelude.{
  ℕ, ◌+◌, ◌-◌, ◌*◌, ◌≤◌, ◌<◌, ◌≡◌, ◌≢◌, subst, inl, inr, some, List, [], ◌∷◌, length, All, leb,
  Bool-cases, arith,
}
use knockd.Settings.{Settings}
use knockd.Knocker.{process_locked}
use knockd.Firewall.{Env, Grant, Firewall, open_grant, tick}
use knockd.Firewall.Ledger.{held, inserted, deleted}
use knockd.Firewall.Balance.{Balanced, BalancedTable}
use knockd.Firewall.Tick.{dues, tick_lem}
use knockd.Firewall.Ending.{
  RunsOut, Ended-RunsOut, Ended-dues, held-dues, held_none, none_RunsOut, dues-le-length,
  open_grant-IsKept,
}
use knockd.Daemon.{
  Daemon, Arrival, Turn, is_complete, process_event, drain, scan_stale, turn, run_processor,
}
use knockd.Daemon.Ready.{IsReady, drain-IsReady, turn-IsReady}

-- In the turn only others knock, the firewall is opened after time `t`, and its tick reads a time
-- from `t` on, and before a grant that is made at `t` runs out.
pub record Apart (s : Settings) (ip t : ℕ) (u : Turn) : Type 0 where
  pub others : All (λ a. (ip ≢ a.event.src_ip) × (t ≤ a.opened)) u.arrived
  pub from : t ≤ u.ticked
  pub before : u.ticked < t + s.access_timeout

-- The grant of the address has ended, or it runs out by time `t` and at most `left` grants are due
-- before one that is made at `t` is.
data Closing (s : Settings) (ip t left : ℕ) (fw : Firewall) : Type 0 where
  closed : (gs : List Grant) → fw.grants ≡ some gs → RunsOut (λ u. ⊥) ip gs → Closing s ip t left fw
  open_yet :
      (gs : List Grant)
      → fw.grants ≡ some gs
      → RunsOut (λ u. u ≤ t) ip gs
      → dues (t + s.access_timeout - 1) gs ≤ left
      → Closing s ip t left fw

module _ (s : Settings) (env : Env) (ip t : ℕ) (pos : 0 < s.access_timeout) where
  open_grant-Closing :
      (left now j : ℕ) (fw : Firewall)
      → ip ≢ j
      → t ≤ now
      → Closing s ip t left fw
      → Closing s ip t left (open_grant env s now j fw).1
  open_grant-Closing left now j fw ne l (closed gs e r) =
      let k =
        open_grant-IsKept (λ u. ⊥) env s ip (t + s.access_timeout - 1) now j gs fw e ne
          (omega arith) r in
      closed k.grants k.table k.runs_out
  open_grant-Closing left now j fw ne l (open_yet gs e r d) =
      let k =
        open_grant-IsKept (λ u. u ≤ t) env s ip (t + s.access_timeout - 1) now j gs fw e ne
          (omega arith) r in
      open_yet k.grants k.table k.runs_out (omega (arith, k.no_more_due))

  process_event-Closing :
      (left : ℕ) (d : Daemon) (a : Arrival)
      → ip ≢ a.event.src_ip
      → t ≤ a.opened
      → Closing s ip t left d.firewall
      → Closing s ip t left (process_event s env d a).firewall
  unfolding process_event
  process_event-Closing left d a ne l c =
      let out = process_locked s a.now a.later d.clients a.event.src_ip a.event.dst_port in
      elim (Bool-cases (is_complete out.0)) [
        | inr e ↦ simp e c
        | inl e ↦ elim (Bool-cases (env.formats a.event.src_ip)) [
          | inr f ↦ simp (e, f) c
          | inl f ↦ simp (e, f) (open_grant-Closing left a.opened a.event.src_ip d.firewall ne l c)
        ]
      ]

  drain-Closing :
      (left : ℕ) (d : Daemon) (arrivals : List Arrival)
      → All (λ a. (ip ≢ a.event.src_ip) × (t ≤ a.opened)) arrivals
      → Closing s ip t left d.firewall
      → Closing s ip t left (drain s env d arrivals).firewall
  unfolding drain
  drain-Closing left d [] h c = c
  drain-Closing left d (a ∷ rest) h c =
      drain-Closing left (process_event s env d a) rest h.1
        (process_event-Closing left d a h.0.0 h.0.1 c)

  -- A tick takes sixteen from the grants that are left, or ends all that are due.
  tick-Closing :
      (left now : ℕ) (fw : Firewall)
      → t ≤ now
      → now < t + s.access_timeout
      → Balanced env fw
      → Closing s ip t left fw
      → Closing s ip t (left - 16) (tick env now fw)
  tick-Closing left now fw l m b (closed gs e r) =
      let k = tick_lem env now gs fw e b in
      closed k.0 k.1 (Ended-RunsOut (λ u. ⊥) now ip gs k.0 k.2 r)
  tick-Closing left now fw l m b (open_yet gs e r d) =
      let k = tick_lem env now gs fw e b in
      let r' = Ended-RunsOut (λ u. u ≤ t) now ip gs k.0 k.2 r in
      let fewer = Ended-dues now (t + s.access_timeout - 1) gs k.0 (omega arith) k.2 in
      elim k.3 [
        | inl none_due ↦
            closed k.0 k.1
              (none_RunsOut ip k.0 (omega (arith, none_due, held-dues ip t now k.0 r' l)))
        | inr sixteen ↦ open_yet k.0 k.1 r' (omega (arith, sixteen, fewer))
      ]

  turn-Closing :
      (left : ℕ) (d : Daemon) (u : Turn)
      → Apart s ip t u
      → IsReady env d.firewall
      → Closing s ip t left d.firewall
      → Closing s ip t (left - 16) (turn s env d u).firewall
  unfolding turn scan_stale
  turn-Closing left d u p r c =
      let d1 = drain s env d u.arrived in
      let k =
        tick-Closing left u.ticked d1.firewall p.from p.before (drain-IsReady s env d u.arrived r).2
          (drain-Closing left d u.arrived p.others c) in
      elim (Bool-cases (leb (d1.last_cleanup + 5) u.now)) [ inl e ↦ simp e k | inr e ↦ simp e k ]

  run_processor-Closing :
      (left : ℕ) (d : Daemon) (us : List Turn)
      → All (Apart s ip t) us
      → IsReady env d.firewall
      → Closing s ip t left d.firewall
      → Closing s ip t (left - 16 * length us) (run_processor s env d us).firewall
        × IsReady env (run_processor s env d us).firewall
  unfolding run_processor
  run_processor-Closing left d [] p r c =
      let e : left ≡ left - 16 * length {A = Turn} [] = omega arith in
      (subst (λ n. Closing s ip t n d.firewall) e c, r)
  run_processor-Closing left d (u ∷ us) p r c =
      let e : left - 16 - 16 * length us ≡ left - 16 * length (u ∷ us) = omega arith in
      let k =
        run_processor-Closing (left - 16) (turn s env d u) us p.1 (turn-IsReady s env d u r)
          (turn-Closing left d u p.0 r c) in
      (subst (λ n. Closing s ip t n (run_processor s env d (u ∷ us)).firewall) e k.0, k.1)

  closed_table :
      (fw : Firewall)
      → Closing s ip t 0 fw
      → (gs : List Grant) × (fw.grants ≡ some gs) × (held ip gs ≡ 0)
  closed_table fw (closed gs e r) = (gs, e, held_none ip gs r)
  closed_table fw (open_yet gs e r d) =
      (gs, e, omega (arith, d, held-dues ip t (t + s.access_timeout - 1) gs r (omega arith)))

-- With a positive ACCESS_TIMEOUT, on a table whose books balance, where a grant of the address runs out
-- by time `t`: in turns of the loop that tick at `t` or later, but before `t` plus ACCESS_TIMEOUT, in
-- which the address does not knock and others that knock are let in at `t` or later, as many turns as
-- it takes at sixteen slots of the table each end the address's access. It has no grant then, and each
-- of its rules had its deletion run.
pub access_ends :
    (s : Settings) (env : Env) (ip t : ℕ) (d : Daemon) (gs : List Grant) (us : List Turn)
    → 0 < s.access_timeout
    → d.firewall.grants ≡ some gs
    → Balanced env d.firewall
    → RunsOut (λ u. u ≤ t) ip gs
    → All (Apart s ip t) us
    → length gs ≤ 16 * length us
    → let fw = (run_processor s env d us).firewall in
      (gs' : List Grant) × (fw.grants ≡ some gs')
      × (held ip gs' ≡ 0)
      × (inserted ip fw.ran ≡ deleted ip fw.ran)
access_ends s env ip t d gs us pos e b r p l =
    let fw = (run_processor s env d us).firewall in
    let few = dues-le-length (t + s.access_timeout - 1) gs in
    let k =
      run_processor-Closing s env ip t pos (16 * length us) d us p (gs, e, b)
        (open_yet gs e r (omega arith)) in
    let none_left : 16 * length us - 16 * length us ≡ 0 = omega arith in
    let c = closed_table s env ip t pos fw (subst (λ n. Closing s ip t n fw) none_left k.0) in
    let b' = subst (λ o. BalancedTable env o fw.ran) c.1 k.1.2 in
    (c.0, c.1, c.2, omega (arith, b'.books ip, c.2))
