-- ===== src/Knocker/Sound.antt =====
-- KNOCK_COMPLETE is earned: behind it stands the whole sequence, knocked in order and in time.
use knockd.Prelude.{
  Bool, ℕ, ◌≡◌, sym, ◌∙◌, subst, true, false, some, [], ◌∷◌, map, get_or, All, All-set, All-get_or,
  All-replicate, All-map, some_inj, arith,
}
use knockd.Settings.{Settings, IsValid, knock_seq_len}
use knockd.Knocker.{
  KnockClient, Table, zeroed, process_locked, complete, advance, Call, knocks, sweeps, apply, sweep,
  cleanup_stale, init,
}
use knockd.Knocker.Entry.{EntryInv, advance-ip}
use knockd.Knocker.Invariant.{IsTable, process-IsTable, init-IsTable}
use knockd.Knocker.Cleanup.{cleanup-IsTable}
use knockd.Knocker.Process.{
  Outcome, Processed, noise, crowded, started, advanced, first_knock, process_locked_lem,
}
use knockd.Knocker.Honest.{
  History, Knocked, none_yet, earlier, next, table_after, Earned, Honest, advance-Honest,
}

Earned-tracked :
    (s : Settings) (h : History) (cs : Table) (i ip : ℕ)
    → All (Earned s h) cs
    → (get_or cs i zeroed).active ≡ true
    → (get_or cs i zeroed).ip ≡ ip
    → Knocked s
        (get_or cs i zeroed).ip
        (get_or cs i zeroed).current_step
        (get_or cs i zeroed).last_knock
        h
Earned-tracked s h cs i ip es a k =
    All-get_or (Earned s h) cs i zeroed es (λ x. absurd (ground arith)) a

Earned-earlier :
    (s : Settings) (h : History) (c : Call) (cs : Table)
    → All (Earned s h) cs
    → All (Earned s (c ∷ h)) cs
Earned-earlier s h c cs es =
    All-map (Earned s h) (Earned s (c ∷ h)) cs (λ d e a. earlier c (e a)) es

-- The answer to a knock, and every entry after it, are honest.
record HonestTable (s : Settings) (now ip : ℕ) (h : History) (o : Outcome) : Type 0 where
  done : o.0 ≡ complete → Knocked s ip (knock_seq_len s) now h
  earned : All (Earned s h) o.1

Processed-Honest :
    (s : Settings) (now later : ℕ) (cs : Table) (ip port : ℕ) (o : Outcome) (h : History)
    → IsValid s
    → IsTable s cs
    → All (Earned s h) cs
    → Processed s now later cs ip port o
    → HonestTable s now ip (knocks now later ip port ∷ h) o
Processed-Honest s now later cs ip port o h v t es (noise n p e) =
    rw e (record { done = λ x. absurd (ground arith); earned = Earned-earlier s h _ cs es })
Processed-Honest s now later cs ip port o h v t es (crowded n l e) =
    rw e (record { done = λ x. absurd (ground arith); earned = Earned-earlier s h _ cs es })
Processed-Honest s now later cs ip port o h v t es (started i n p l w e) = rw e (record {
  done = λ x. absurd (ground arith);
  earned =
      All-set (Earned s (knocks now later ip port ∷ h)) cs i (first_knock now ip port)
        (Earned-earlier s h _ cs es) (λ _. next now later port (none_yet now h) p (omega arith));
})
Processed-Honest s now later cs ip port o h v t es (advanced i l n a k e) =
    let c = get_or cs i zeroed in
    let p = All-get_or (EntryInv s) cs i zeroed t.entries (λ x. absurd (ground arith)) a in
    let c' = (advance s now port c).1 in
    let hon =
      subst
        (λ j.
          Honest s now j (knocks now later j port ∷ h) (advance s now port c).0
            (advance s now port c).1)
        k (advance-Honest s v now later port h c a p (Earned-tracked s h cs i ip es a k)) in
    rw e (record {
      done = hon.done;
      earned =
          All-set (Earned s (knocks now later ip port ∷ h)) cs i (advance s now port c).1
            (Earned-earlier s h _ cs es)
            (λ x.
              subst (λ j. Knocked s j c'.current_step c'.last_knock (knocks now later ip port ∷ h))
                (sym (advance-ip s now port c ∙ k)) (hon.going x));
    })

sweep_kept :
    (s : Settings) (now : ℕ) (c : KnockClient) → (sweep s now c).active ≡ true → sweep s now c ≡ c
unfolding sweep
sweep_kept s now c a = ground arith

sweep-Earned :
    (s : Settings) (now : ℕ) (h : History) (cs : Table)
    → All (Earned s h) cs
    → All (Earned s h) (map (sweep s now) cs)
sweep-Earned s now h [] es = tt
sweep-Earned s now h (c ∷ cs) es = (
  (λ a.
      subst (λ d. Knocked s d.ip d.current_step d.last_knock h) (sym (sweep_kept s now c a))
        (es.0 (subst (λ d. d.active ≡ true) (sweep_kept s now c a) a))),
  sweep-Earned s now h cs es.1,
)

-- What holds of the table after any history.
pub record Reached (s : Settings) (h : History) (cs : Table) : Type 0 where
  pub table : IsTable s cs
  pub earned : All (Earned s h) cs

pub apply-Reached :
    (s : Settings) (h : History) (cs : Table) (c : Call)
    → IsValid s
    → Reached s h cs
    → Reached s (c ∷ h) (apply s cs c)
unfolding apply cleanup_stale
apply-Reached s h cs (knocks now later ip port) v r =
    let p = process_locked_lem s now later cs ip port v in
    record {
      table = process-IsTable s now later cs ip port v r.table;
      earned = (Processed-Honest s now later cs ip port _ h v r.table r.earned p).earned;
    }
apply-Reached s h cs (sweeps now) v r = record {
  table = cleanup-IsTable s now cs r.table;
  earned = sweep-Earned s now (sweeps now ∷ h) cs (Earned-earlier s h (sweeps now) cs r.earned);
}

init-Earned : (s : Settings) (cs : Table) → init s true ≡ some cs → All (Earned s []) cs
unfolding init
init-Earned s cs e =
    subst (λ t. All (Earned s []) t) (some_inj e)
      (All-replicate (Earned s []) s.max_clients zeroed (λ x. absurd (ground arith)))

init-Reached : (s : Settings) (cs : Table) → init s true ≡ some cs → Reached s [] cs
init-Reached s cs e =
    let t = init-IsTable s cs e in record { table = t.0; earned = init-Earned s cs e }

pub allocated-Reached :
    (s : Settings) (allocated : Bool) (cs : Table) → init s allocated ≡ some cs → Reached s [] cs
unfolding init
allocated-Reached s true cs e = init-Reached s cs e
allocated-Reached s false cs e = absurd (ground arith)

pub table_after-Reached :
    (s : Settings) (cs : Table) (h : History)
    → IsValid s
    → init s true ≡ some cs
    → Reached s h (table_after s cs h)
unfolding table_after
table_after-Reached s cs [] v e = init-Reached s cs e
table_after-Reached s cs (c ∷ h) v e =
    apply-Reached s h (table_after s cs h) c v (table_after-Reached s cs h v e)

pub complete-Knocked :
    (s : Settings) (cs : Table) (h : History) (now later ip port : ℕ)
    → IsValid s
    → Reached s h cs
    → (process_locked s now later cs ip port).0 ≡ complete
    → Knocked s ip (knock_seq_len s) now (knocks now later ip port ∷ h)
complete-Knocked s cs h now later ip port v r d =
    let p = process_locked_lem s now later cs ip port v in
    (Processed-Honest s now later cs ip port _ h v r.table r.earned p).done d

-- With valid settings, from the table of `knocker_init` on, whatever addresses knock and whenever
-- the table is swept, a knock is answered KNOCK_COMPLETE only if its address has knocked the whole
-- sequence, in order, each port at most KNOCK_WINDOW seconds after the one before, and this knock
-- last.
pub complete_is_earned :
    (s : Settings) (cs : Table) (h : History) (now later ip port : ℕ)
    → IsValid s
    → init s true ≡ some cs
    → (process_locked s now later (table_after s cs h) ip port).0 ≡ complete
    → Knocked s ip (knock_seq_len s) now (knocks now later ip port ∷ h)
complete_is_earned s cs h now later ip port v e d =
    complete-Knocked s (table_after s cs h) h now later ip port v (table_after-Reached s cs h v e) d
