-- ===== src/Daemon/Ready.antt =====
-- What the processor's loop keeps of the firewall's table: it stays, and its books balance.
use knockd.Prelude.{◌+◌, ◌≡◌, inl, inr, true, some, List, [], ◌∷◌, leb, Bool-cases, ℕ}
use knockd.Settings.{Settings}
use knockd.Knocker.{process_locked}
use knockd.Firewall.{Env, Grant, Firewall, open_grant, tick}
use knockd.Firewall.Balance.{Balanced, open_grant-Balanced}
use knockd.Firewall.Opening.{open_grant_lem}
use knockd.Firewall.Tick.{tick-Balanced, tick_lem}
use knockd.Daemon.{
  Daemon, Arrival, Turn, is_complete, process_event, drain, scan_stale, turn, run_processor,
}

-- The firewall has its table, and its books balance.
abbrev pub IsReady : Env → Firewall → Type 0
IsReady env fw = (gs : List Grant) × (fw.grants ≡ some gs) × Balanced env fw

module _ (s : Settings) (env : Env) where
  open_grant-IsReady :
      (now ip : ℕ) (fw : Firewall)
      → IsReady env fw
      → env.formats ip ≡ true
      → IsReady env (open_grant env s now ip fw).1
  open_grant-IsReady now ip fw (gs, e, b) f =
      let o = open_grant_lem env s now ip gs fw e f b in
      (o.0, o.1, open_grant-Balanced env s now ip fw b)

  pub process_event-IsReady :
      (d : Daemon) (a : Arrival)
      → IsReady env d.firewall
      → IsReady env (process_event s env d a).firewall
  unfolding process_event
  process_event-IsReady d a r =
      let out = process_locked s a.now a.later d.clients a.event.src_ip a.event.dst_port in
      elim (Bool-cases (is_complete out.0)) [
        | inr e ↦ simp e r
        | inl e ↦ elim (Bool-cases (env.formats a.event.src_ip)) [
          | inr f ↦ simp (e, f) r
          | inl f ↦ simp (e, f) (open_grant-IsReady a.opened a.event.src_ip d.firewall r f)
        ]
      ]

  pub drain-IsReady :
      (d : Daemon) (arrivals : List Arrival)
      → IsReady env d.firewall
      → IsReady env (drain s env d arrivals).firewall
  unfolding drain
  drain-IsReady d [] r = r
  drain-IsReady d (a ∷ rest) r =
      drain-IsReady (process_event s env d a) rest (process_event-IsReady d a r)

  pub tick-IsReady : (now : ℕ) (fw : Firewall) → IsReady env fw → IsReady env (tick env now fw)
  tick-IsReady now fw (gs, e, b) =
      let t = tick_lem env now gs fw e b in (t.0, t.1, tick-Balanced env now fw b)

  pub turn-IsReady :
      (d : Daemon) (t : Turn) → IsReady env d.firewall → IsReady env (turn s env d t).firewall
  unfolding turn scan_stale
  turn-IsReady d t r =
      let k =
        tick-IsReady t.ticked (drain s env d t.arrived).firewall (drain-IsReady d t.arrived r) in
      elim (Bool-cases (leb ((drain s env d t.arrived).last_cleanup + 5) t.now)) [
        | inl e ↦ simp e k
        | inr e ↦ simp e k
      ]

  pub run_processor-IsReady :
      (d : Daemon) (us : List Turn)
      → IsReady env d.firewall
      → IsReady env (run_processor s env d us).firewall
  unfolding run_processor
  run_processor-IsReady d [] r = r
  run_processor-IsReady d (u ∷ us) r =
      run_processor-IsReady (turn s env d u) us (turn-IsReady d u r)
