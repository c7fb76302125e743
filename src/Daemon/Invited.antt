-- ===== src/Daemon/Invited.antt =====
-- The daemon opens the firewall to nobody who has not knocked the sequence.
use knockd.Prelude.{
  ℕ, ◌+◌, ◌≡◌, refl, sym, ap, subst, inl, inr, Bool, true, some, List, [], ◌∷◌, All, leb,
  Bool-cases, arith,
}
use knockd.Settings.{Settings, IsValid, knock_seq_len}
use knockd.Knocker
use knockd.Knocker.{
  KnockResult, complete, in_progress, reset, Table, process_locked, cleanup_stale, knocks, sweeps,
  Call, apply,
}
use knockd.Knocker.Honest.{Knocked, earlier, History}
use knockd.Knocker.Sound.{Reached, apply-Reached, allocated-Reached, complete-Knocked}
use knockd.Firewall
use knockd.Firewall.{
  Env, Firewall, Status, ok, failed, open_grant, open_in, reserve, exec, hook, tick, revoke, expire,
  Runs, Command, insert_grant, delete_grant, unhook, new_chain, flush_chain, check_jump, add_jump,
  delete_chain,
}
use knockd.Firewall.Lifecycle.{fresh}
use knockd.Firewall.Asked.{HoldsBut, open_grant-All, tick-All, init-All}
use knockd.Daemon.{
  Daemon, Arrival, Turn, is_complete, process_event, drain, scan_stale, turn, run_processor, start,
}
use knockd.Daemon.Heard.{heard, hear, all_heard, only_knocks, only_knocks-Knocked, Earned}

-- What holds of the daemon that has heard some knocks.
pub record IsInvited (s : Settings) (known : History) (d : Daemon) : Type 0 where
  pub calls : History
  pub same : only_knocks calls ≡ known
  pub reached : Reached s calls d.clients
  pub earned : All (Earned s known) d.firewall.ran

module _ (s : Settings) where
  Earned-heard :
      (h : History) (c : Call) (ran : Runs) → All (Earned s h) ran → All (Earned s (c ∷ h)) ran
  Earned-heard h c [] es = tt
  Earned-heard h c ((insert_grant ip, b) ∷ ran) es =
      ((es.0.0, earlier c es.0.1), Earned-heard h c ran es.1)
  Earned-heard h c ((new_chain, b) ∷ ran) es = (tt, Earned-heard h c ran es.1)
  Earned-heard h c ((flush_chain, b) ∷ ran) es = (tt, Earned-heard h c ran es.1)
  Earned-heard h c ((check_jump, b) ∷ ran) es = (tt, Earned-heard h c ran es.1)
  Earned-heard h c ((add_jump, b) ∷ ran) es = (tt, Earned-heard h c ran es.1)
  Earned-heard h c ((unhook, b) ∷ ran) es = (tt, Earned-heard h c ran es.1)
  Earned-heard h c ((delete_chain, b) ∷ ran) es = (tt, Earned-heard h c ran es.1)
  Earned-heard h c ((delete_grant ip, b) ∷ ran) es = (tt, Earned-heard h c ran es.1)

  Earned-HoldsBut : (h : History) → HoldsBut (Earned s h)
  Earned-HoldsBut h = ((λ ip b. tt), (λ b. tt), (λ b. tt), (λ b. tt), (λ b. tt))

  is_complete-complete : (r : KnockResult) → is_complete r ≡ true → r ≡ complete
  unfolding is_complete
  is_complete-complete complete e = refl
  is_complete-complete in_progress e = absurd (ground arith)
  is_complete-complete reset e = absurd (ground arith)

  -- The rules after a knock: those before it, and one more that was earned.
  process_event-Earned :
      (env : Env) (d : Daemon) (a : Arrival) (h : History)
      → IsValid s
      → IsInvited s h d
      → All (Earned s (heard a ∷ h)) (process_event s env d a).firewall.ran
  unfolding process_event only_knocks
  process_event-Earned env d a h v i =
      let ip = a.event.src_ip in
      let out = process_locked s a.now a.later d.clients ip a.event.dst_port in
      let old = Earned-heard h (heard a) d.firewall.ran i.earned in
      elim (Bool-cases (is_complete out.0)) [
        | inr e ↦ simp e old
        | inl e ↦ elim (Bool-cases (env.formats ip)) [
          | inr f ↦ simp (e, f) old
          | inl f ↦
              let k =
                complete-Knocked s d.clients i.calls a.now a.later ip a.event.dst_port v i.reached
                  (is_complete-complete out.0 e) in
              let k' =
                subst (λ g. Knocked s ip (knock_seq_len s) a.now (heard a ∷ g)) i.same
                  (only_knocks-Knocked s ip (knock_seq_len s) a.now (heard a ∷ i.calls) k) in
              simp (e, f)
                (open_grant-All env s (Earned s (heard a ∷ h)) a.opened ip d.firewall
                  (λ b. (a.now, k')) old)
        ]
      ]

  pub process_event-clients :
      (env : Env) (d : Daemon) (a : Arrival)
      → (process_event s env d a).clients ≡ apply s d.clients (heard a)
  unfolding process_event apply
  process_event-clients env d a = ground arith

  pub process_event-IsInvited :
      (env : Env) (d : Daemon) (a : Arrival) (h : History)
      → IsValid s
      → IsInvited s h d
      → IsInvited s (heard a ∷ h) (process_event s env d a)
  unfolding only_knocks
  process_event-IsInvited env d a h v i = record {
    calls = heard a ∷ i.calls;
    same = ap (λ g. heard a ∷ g) i.same;
    reached =
        subst (Reached s (heard a ∷ i.calls)) (sym (process_event-clients env d a))
          (apply-Reached s i.calls d.clients (heard a) v i.reached);
    earned = process_event-Earned env d a h v i;
  }

  drain-IsInvited :
      (env : Env) (d : Daemon) (rest : List Arrival) (h : History)
      → IsValid s
      → IsInvited s h d
      → IsInvited s (hear h rest) (drain s env d rest)
  unfolding drain hear
  drain-IsInvited env d [] h v i = i
  drain-IsInvited env d (a ∷ rest) h v i =
      drain-IsInvited env (process_event s env d a) rest (heard a ∷ h) v
        (process_event-IsInvited env d a h v i)

  pub tick-IsInvited :
      (env : Env) (d : Daemon) (now : ℕ) (h : History)
      → IsInvited s h d
      → IsInvited s h (record d { firewall = tick env now d.firewall })
  tick-IsInvited env d now h i = record {
    calls = i.calls;
    same = i.same;
    reached = i.reached;
    earned = tick-All env s (Earned s h) now d.firewall (Earned-HoldsBut h) i.earned;
  }

  pub scan_stale-IsInvited :
      (t : Turn) (d : Daemon) (h : History)
      → IsValid s
      → IsInvited s h d
      → IsInvited s h (scan_stale s t d)
  unfolding scan_stale only_knocks apply
  scan_stale-IsInvited t d h v i = elim (Bool-cases (leb (d.last_cleanup + 5) t.now)) [
    | inr e ↦ simp e i
    | inl e ↦ simp e (record {
      calls = sweeps t.swept ∷ i.calls;
      same = i.same;
      reached = apply-Reached s i.calls d.clients (sweeps t.swept) v i.reached;
      earned = i.earned;
    })
  ]

  run_processor-IsInvited :
      (env : Env) (d : Daemon) (ts : List Turn) (h : History)
      → IsValid s
      → IsInvited s h d
      → IsInvited s (all_heard h ts) (run_processor s env d ts)
  unfolding run_processor turn all_heard
  run_processor-IsInvited env d [] h v i = i
  run_processor-IsInvited env d (t ∷ ts) h v i =
      let d1 = drain s env d t.arrived in
      let i1 = tick-IsInvited env d1 t.ticked _ (drain-IsInvited env d t.arrived h v i) in
      run_processor-IsInvited env (turn s env d t) ts (hear h t.arrived) v
        (scan_stale-IsInvited t _ _ v i1)

  start-parts :
      (env : Env) (clients_allocated grants_allocated : Bool) (now : ℕ) (d : Daemon)
      → start s env clients_allocated grants_allocated now fresh ≡ some d
      → (Knocker.init s clients_allocated ≡ some d.clients)
        × ((Firewall.init env s grants_allocated fresh).1 ≡ d.firewall)
  unfolding start
  start-parts env clients_allocated grants_allocated now d e = ground arith

  pub start-IsInvited :
      (env : Env) (clients_allocated grants_allocated : Bool) (now : ℕ) (d : Daemon)
      → start s env clients_allocated grants_allocated now fresh ≡ some d
      → IsInvited s [] d
  unfolding only_knocks
  start-IsInvited env clients_allocated grants_allocated now d e =
      let p = start-parts env clients_allocated grants_allocated now d e in
      record {
        calls = [];
        same = refl;
        reached = allocated-Reached s clients_allocated d.clients p.0;
        earned =
            subst (λ fw. All (Earned s []) fw.ran) p.1
              (init-All env s (Earned s []) grants_allocated fresh (Earned-HoldsBut []) tt);
      }

-- With valid settings, from a startup that succeeds on, whatever arrives, whatever iptables
-- answers and whenever the clock is read: every run of iptables that inserts a rule for an address
-- is for one whose knocks, among those that the daemon took, went through the whole sequence in
-- order, each port at most KNOCK_WINDOW seconds after the one before.
pub only_invited :
    (s : Settings) (env : Env) (clients_allocated grants_allocated : Bool) (now : ℕ) (d : Daemon)
    (ts : List Turn)
    → IsValid s
    → start s env clients_allocated grants_allocated now fresh ≡ some d
    → All (Earned s (all_heard [] ts)) (run_processor s env d ts).firewall.ran
only_invited s env clients_allocated grants_allocated now d ts v e =
    (run_processor-IsInvited s env d ts [] v
      (start-IsInvited s env clients_allocated grants_allocated now d e)).earned
