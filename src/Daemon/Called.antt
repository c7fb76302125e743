-- ===== src/Daemon/Called.antt =====
-- What the processor loop of src/main.c asks of the firewall: openings and ticks, and nothing else.
use knockd.Prelude.{◌≡◌, sym, ap, subst, inl, inr, List, [], ◌∷◌, Bool-cases, arith}
use knockd.Settings.{Settings}
use knockd.Knocker
use knockd.Firewall
use knockd.Firewall.{Env, Firewall, Status, ok, failed}
use knockd.Firewall.Lifecycle.{Call, opens, ticks, after, apply}
use knockd.Daemon.{
  Daemon, Arrival, Turn, process_event, is_complete, drain, scan_stale, turn, run_processor,
}

-- The second firewall is the first after some calls.
abbrev pub CalledFrom : Env → Settings → Firewall → Firewall → Type 0
CalledFrom env s fw0 fw = (cs : List Call) × (fw ≡ after env s fw0 cs)

module _ (env : Env) (s : Settings) (fw0 : Firewall) where
  called :
      (c : Call) (fw : Firewall) → CalledFrom env s fw0 fw → CalledFrom env s fw0 (apply env s fw c)
  unfolding after
  called c fw k = (c ∷ k.0, ap (λ f. apply env s f c) k.1)

  process_event-CalledFrom :
      (d : Daemon) (a : Arrival)
      → CalledFrom env s fw0 d.firewall
      → CalledFrom env s fw0 (process_event s env d a).firewall
  unfolding process_event apply
  process_event-CalledFrom d a k =
      let ip = a.event.src_ip in
      let out = Knocker.process_locked s a.now a.later d.clients ip a.event.dst_port in
      let opened = called (opens a.opened ip) d.firewall k in
      elim (Bool-cases (is_complete out.0)) [
        | inr e ↦ simp e k
        | inl e ↦ elim (Bool-cases (env.formats ip)) [
          | inr f ↦ simp (e, f) k
          | inl f ↦ simp (e, f) opened
        ]
      ]

  drain-CalledFrom :
      (d : Daemon) (rest : List Arrival)
      → CalledFrom env s fw0 d.firewall
      → CalledFrom env s fw0 (drain s env d rest).firewall
  unfolding drain
  drain-CalledFrom d [] k = k
  drain-CalledFrom d (a ∷ rest) k =
      drain-CalledFrom (process_event s env d a) rest (process_event-CalledFrom d a k)

  scan_stale-firewall : (t : Turn) (d : Daemon) → (scan_stale s t d).firewall ≡ d.firewall
  unfolding scan_stale
  scan_stale-firewall t d = ground arith

  turn-CalledFrom :
      (d : Daemon) (t : Turn)
      → CalledFrom env s fw0 d.firewall
      → CalledFrom env s fw0 (turn s env d t).firewall
  unfolding turn apply
  turn-CalledFrom d t k =
      let d1 = drain s env d t.arrived in
      let d2 : Daemon = record d1 { firewall = Firewall.tick env t.ticked d1.firewall } in
      subst (CalledFrom env s fw0) (sym (scan_stale-firewall t d2))
        (called (ticks t.ticked) d1.firewall (drain-CalledFrom d t.arrived k))

  pub run_processor-CalledFrom :
      (d : Daemon) (ts : List Turn)
      → CalledFrom env s fw0 d.firewall
      → CalledFrom env s fw0 (run_processor s env d ts).firewall
  unfolding run_processor
  run_processor-CalledFrom d [] k = k
  run_processor-CalledFrom d (t ∷ ts) k =
      run_processor-CalledFrom (turn s env d t) ts (turn-CalledFrom d t k)
