-- ===== src/Daemon/Served.antt =====
-- A client that knocks the sequence is let in: the state machine's answer reaches the firewall.
use knockd.Prelude.{
  ℕ, ◌+◌, ◌<◌, ◌≡◌, refl, sym, subst, ◌⊎◌, inl, inr, true, none, some, List, [], ◌∷◌, All, leb,
  if◌then◌else◌, Bool-cases, arith,
}
use knockd.Settings.{Settings, IsValid, knock_port}
use knockd.Knocker.{complete, process_locked, knocks, sweeps, Call, apply}
use knockd.Knocker.Table.{tracked}
use knockd.Knocker.Alloc.{AllLive}
use knockd.Knocker.Invariant.{IsTable}
use knockd.Knocker.Complete.{Campaign, answers, IsGranted, sequence_completes}
use knockd.Firewall.{Env, Grant, Firewall, Runs, Status, insert_grant, open_grant}
use knockd.Firewall.Ledger.{held, inserted, deleted}
use knockd.Firewall.Balance.{Balanced, BalancedTable, open_grant-Balanced}
use knockd.Firewall.Opening.{
  expiry, Opened, extended, inserted_rule, no_slot, given_back, open_grant_lem,
}
use knockd.Daemon.{Daemon, Arrival, Turn, is_complete, process_event, drain, scan_stale, turn}
use knockd.Daemon.Heard.{heard}
use knockd.Daemon.Ready.{IsReady, process_event-IsReady, turn-IsReady}
use knockd.Daemon.Invited.{process_event-clients}

unfoldable pub batch_calls : List Arrival → List Call → List Call
batch_calls [] rest = rest
batch_calls (a ∷ arrivals) rest = heard a ∷ batch_calls arrivals rest

-- The calls of the state machine in the turns of the loop, in order; a sweep is due or not by the
-- time of the last one.
unfoldable pub loop_calls : ℕ → List Turn → List Call
loop_calls last_cleanup [] = []
loop_calls last_cleanup (t ∷ ts) =
    let swept = sweeps t.swept ∷ loop_calls t.now ts in
    let unswept = loop_calls last_cleanup ts in
    batch_calls t.arrived (if leb (last_cleanup + 5) t.now then swept else unswept)

-- The address holds a grant until then, and its rule is in place: it was inserted once more often
-- than its deletion was run.
pub record HoldsUntil (ip until : ℕ) (fw : Firewall) : Type 0 where
  pub grants : List Grant
  pub table : fw.grants ≡ some grants
  pub grant : expiry ip grants ≡ some until
  pub rule : inserted ip fw.ran ≡ deleted ip fw.ran + 1

-- Every slot of the table is taken.
abbrev pub IsFull : Firewall → Type 0
IsFull fw = (gs : List Grant) × (fw.grants ≡ some gs) × All (λ g. g.active ≡ true) gs

module _ (s : Settings) (env : Env) (ip : ℕ) where
  -- In one of the knocks of the address the grant is made, or there was no slot for it.
  pub data ServedIn : Daemon → List Arrival → Type 0 where
    by_knock :
        {d : Daemon} {rest : List Arrival} (a : Arrival)
        → a.event.src_ip ≡ ip
        → HoldsUntil ip (a.opened + s.access_timeout) (process_event s env d a).firewall
          ⊎ IsFull d.firewall
        → ServedIn d (a ∷ rest)
    by_later_knock :
        {d : Daemon} {rest : List Arrival} (a : Arrival)
        → ServedIn (process_event s env d a) rest
        → ServedIn d (a ∷ rest)

  pub data Served : Daemon → List Turn → Type 0 where
    in_turn : {d : Daemon} {t : Turn} {ts : List Turn} → ServedIn d t.arrived → Served d (t ∷ ts)
    in_later_turn :
        {d : Daemon} {t : Turn} {ts : List Turn} → Served (turn s env d t) ts → Served d (t ∷ ts)

expiry-held : (ip until : ℕ) (gs : List Grant) → expiry ip gs ≡ some until → 0 < held ip gs
unfolding expiry held
expiry-held ip until [] e = absurd (ground arith)
expiry-held ip until (g ∷ gs) e = ground (arith, expiry-held ip until gs)

OpenedTo-HoldsUntil :
    (env : Env) (ip until : ℕ) (fw : Firewall) (gs' : List Grant)
    → fw.grants ≡ some gs'
    → Balanced env fw
    → expiry ip gs' ≡ some until
    → HoldsUntil ip until fw
OpenedTo-HoldsUntil env ip until fw gs' e b x =
    let b' = subst (λ o. BalancedTable env o fw.ran) e b in
    record {
      grants = gs';
      table = e;
      grant = x;
      rule = omega (arith, b'.books ip, b'.single ip, expiry-held ip until gs' x);
    }

module _ (s : Settings) (env : Env) where
  drain-last_cleanup :
      (d : Daemon) (arrivals : List Arrival)
      → (drain s env d arrivals).last_cleanup ≡ d.last_cleanup
  unfolding drain process_event
  drain-last_cleanup d [] = refl
  drain-last_cleanup d (a ∷ rest) =
      ground (arith, drain-last_cleanup (process_event s env d a) rest)

  -- The sweep of a turn is the call that stands for it.
  loop_calls-turn :
      (d : Daemon) (t : Turn) (ts : List Turn)
      → answers s (drain s env d t.arrived).clients (
          if leb (d.last_cleanup + 5) t.now
          then sweeps t.swept ∷ loop_calls t.now ts
          else loop_calls d.last_cleanup ts)
        ≡ answers s (turn s env d t).clients (loop_calls (turn s env d t).last_cleanup ts)
  unfolding turn scan_stale answers
  loop_calls-turn d t ts =
      let l = drain-last_cleanup d t.arrived in
      elim (Bool-cases (leb (d.last_cleanup + 5) t.now)) [
        | inl e ↦ simp (l, e) refl
        | inr e ↦ simp (l, e) refl
      ]

opened_end :
    (env : Env) (s : Settings) (now ip : ℕ) (fw : Firewall)
    → IsReady env fw
    → env.formats ip ≡ true
    → ((ran : Runs) → env.succeeds ran (insert_grant ip) ≡ true)
    → HoldsUntil ip (now + s.access_timeout) (open_grant env s now ip fw).1 ⊎ IsFull fw
opened_end env s now ip fw (gs, e, b) f works =
    let (gs', e', o) = open_grant_lem env s now ip gs fw e f b in
    let b' = open_grant-Balanced env s now ip fw b in go gs' _ _ e' refl o b'
  where
    go :
        (gs' : List Grant) (st : Status) (ran : Runs)
        → (open_grant env s now ip fw).1.grants ≡ some gs'
        → (open_grant env s now ip fw).1.ran ≡ ran
        → Opened env ip (now + s.access_timeout) gs fw.ran st gs' ran
        → Balanced env (open_grant env s now ip fw).1
        → HoldsUntil ip (now + s.access_timeout) (open_grant env s now ip fw).1 ⊎ IsFull fw
    go gs' _ _ e' r (extended _ z x k) b' =
        inl (OpenedTo-HoldsUntil env ip _ (open_grant env s now ip fw).1 gs' e' b' x)
    go gs' _ _ e' r (inserted_rule _ y z x k) b' =
        inl (OpenedTo-HoldsUntil env ip _ (open_grant env s now ip fw).1 gs' e' b' x)
    go _ _ _ e' r (no_slot z a) b' = inr (gs, e, a)
    go gs' _ _ e' r (given_back _ n z x k) b' = absurd (ground (arith, works fw.ran))

module _ (s : Settings) (env : Env) where
  complete-Served :
      (d : Daemon) (a : Arrival)
      → IsReady env d.firewall
      → env.formats a.event.src_ip ≡ true
      → ((ran : Runs) → env.succeeds ran (insert_grant a.event.src_ip) ≡ true)
      → (process_locked s a.now a.later d.clients a.event.src_ip a.event.dst_port).0 ≡ complete
      → HoldsUntil a.event.src_ip (a.opened + s.access_timeout) (process_event s env d a).firewall
        ⊎ IsFull d.firewall
  unfolding process_event is_complete
  complete-Served d a r f works e =
      simp (e, f) (opened_end env s a.opened a.event.src_ip d.firewall r f works)

  -- A knock of the batch was answered KNOCK_COMPLETE, or one behind it.
  drain-ServedIn :
      (ip : ℕ) (d : Daemon) (arrivals : List Arrival) (rest : List Call)
      → IsReady env d.firewall
      → env.formats ip ≡ true
      → ((ran : Runs) → env.succeeds ran (insert_grant ip) ≡ true)
      → IsGranted ip (answers s d.clients (batch_calls arrivals rest))
      → ServedIn s env ip d arrivals
        ⊎ IsGranted ip (answers s (drain s env d arrivals).clients rest)
  unfolding drain batch_calls answers apply
  drain-ServedIn ip d [] rest r f works g = inr g
  drain-ServedIn ip d (a ∷ arrivals) rest r f works (inl (q, e)) = inl (
      by_knock a q (
        subst
          (λ j.
            HoldsUntil j (a.opened + s.access_timeout) (process_event s env d a).firewall
            ⊎ IsFull d.firewall)
          q
          (complete-Served d a r (subst (λ j. env.formats j ≡ true) (sym q) f)
            (subst (λ j. (ran : Runs) → env.succeeds ran (insert_grant j) ≡ true) (sym q) works)
            e)))
  drain-ServedIn ip d (a ∷ arrivals) rest r f works (inr g) =
      let d1 = process_event s env d a in
      let g1 =
        subst (λ cs. IsGranted ip (answers s cs (batch_calls arrivals rest)))
          (sym (process_event-clients s env d a)) g in
      elim (drain-ServedIn ip d1 arrivals rest (process_event-IsReady s env d a r) f works g1) [
        | inl served ↦ inl (by_later_knock a served)
        | inr h ↦ inr h
      ]

  loop-Served :
      (ip : ℕ) (d : Daemon) (ts : List Turn)
      → IsReady env d.firewall
      → env.formats ip ≡ true
      → ((ran : Runs) → env.succeeds ran (insert_grant ip) ≡ true)
      → IsGranted ip (answers s d.clients (loop_calls d.last_cleanup ts))
      → Served s env ip d ts
  unfolding loop_calls answers
  loop-Served ip d [] r f works g = absurd g
  loop-Served ip d (t ∷ ts) r f works g = elim (drain-ServedIn ip d t.arrived _ r f works g) [
    | inl served ↦ in_turn served
    | inr h ↦ in_later_turn (
        loop-Served ip (turn s env d t) ts (turn-IsReady s env d t r) f works
          (subst (IsGranted ip) (loop_calls-turn s env d t ts) h))
  ]

-- With valid settings, from any state of the processor with a valid client table and balanced books:
-- an address that is not tracked, that formats and whose rule iptables does not refuse knocks the whole
-- sequence, each port at most KNOCK_WINDOW seconds after the one before, in one turn of the loop or
-- over many, while other addresses knock, grants expire and the table is swept. If there was an entry
-- for it at its first knock, then at one of its knocks the daemon gives it a grant for ACCESS_TIMEOUT
-- seconds, with its rule in place, unless every slot for a grant is taken.
pub sequence-Served :
    (s : Settings) (env : Env) (ip : ℕ) (d : Daemon) (now later port : ℕ) (calls : List Call)
    (ts : List Turn)
    → IsValid s
    → IsTable s d.clients
    → IsReady env d.firewall
    → env.formats ip ≡ true
    → ((ran : Runs) → env.succeeds ran (insert_grant ip) ≡ true)
    → tracked d.clients ip ≡ none
    → ¬ AllLive s later d.clients
    → port ≡ knock_port s 0
    → loop_calls d.last_cleanup ts ≡ knocks now later ip port ∷ calls
    → Campaign s ip 1 now calls
    → Served s env ip d ts
sequence-Served s env ip d now later port calls ts v tb r f works n live p e c =
    loop-Served s env ip d ts r f works (
      subst (λ cs. IsGranted ip (answers s d.clients cs)) (sym e)
        (sequence_completes s d.clients ip now later port calls v tb n live p c))
