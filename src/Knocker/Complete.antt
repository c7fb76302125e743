-- ===== src/Knocker/Complete.antt =====
-- A client that knocks the sequence in order and in time is let in, whatever others do meanwhile.
use knockd.Prelude.{
  ℕ, suc, ◌+◌, ◌-◌, ◌≤◌, ◌<◌, ◌≡◌, ◌≢◌, refl, sym, ap, ◌∙◌, subst, ◌⊎◌, inl, inr, true, none, some,
  List, [], ◌∷◌, if◌then◌else◌, some_inj, arith,
}
use knockd.Settings.{Settings, IsValid, knock_port, knock_seq_len}
use knockd.Knocker.{
  KnockClient, KnockResult, Table, process_locked, complete, advance, match_port, expired,
  is_retransmit, Call, knocks, sweeps, cleanup_stale,
}
use knockd.Knocker.Table.{tracked, All-tracked, tracked_active, tracked-set}
use knockd.Knocker.Entry.{EntryInv, IsPartway}
use knockd.Knocker.Invariant.{IsTable, process-IsTable}
use knockd.Knocker.Cleanup.{cleanup-IsTable, tracked-cleanup}
use knockd.Knocker.Others.{Untouched, process-Untouched, process_self}
use knockd.Knocker.Alloc.{AllLive}
use knockd.Knocker.Process.{
  Outcome, Processed, noise, crowded, started, advanced, first_knock, process_locked_lem,
}

-- The answers to the knocks, each with its address.
unfoldable pub answers : Settings → Table → List Call → List (ℕ × KnockResult)
answers s cs [] = []
answers s cs (knocks now later ip port ∷ calls) =
    let (r, cs') = process_locked s now later cs ip port in
    let rest = answers s cs' calls in (ip, r) ∷ rest
answers s cs (sweeps now ∷ calls) = answers s (cleanup_stale s now cs) calls

-- Some knock of the address was answered KNOCK_COMPLETE.
abbrev pub IsGranted : ℕ → List (ℕ × KnockResult) → Type 0
IsGranted ip [] = ⊥
IsGranted ip ((j, r) ∷ rs) = ((j ≡ ip) × (r ≡ complete)) ⊎ IsGranted ip rs

-- `Campaign s ip k t calls`: `ip` has knocked the first `k` ports, the last at time `t`; in `calls`
-- it knocks the others in order, each at most the window after the one before. The calls between
-- are knocks of other addresses and sweeps, while the window runs.
pub data Campaign (s : Settings) (ip : ℕ) : ℕ → ℕ → List Call → Type 0 where
  last :
      {k t : ℕ} (now later port : ℕ) (rest : List Call)
      → port ≡ knock_port s k
      → now ≤ t + s.knock_window
      → suc k ≡ knock_seq_len s
      → Campaign s ip k t (knocks now later ip port ∷ rest)
  own :
      {k t : ℕ} {rest : List Call} (now later port : ℕ)
      → port ≡ knock_port s k
      → now ≤ t + s.knock_window
      → suc k < knock_seq_len s
      → Campaign s ip (suc k) now rest
      → Campaign s ip k t (knocks now later ip port ∷ rest)
  other :
      {k t : ℕ} {rest : List Call} (now later j port : ℕ)
      → ip ≢ j
      → later ≤ t + s.knock_window
      → Campaign s ip k t rest
      → Campaign s ip k t (knocks now later j port ∷ rest)
  swept :
      {k t : ℕ} {rest : List Call} (now : ℕ)
      → now ≤ t + s.knock_window
      → Campaign s ip k t rest
      → Campaign s ip k t (sweeps now ∷ rest)

-- The address has an entry at step `k`, last knocked at `t`.
pub record IsAt (s : Settings) (cs : Table) (ip k t : ℕ) : Type 0 where
  pub entry : KnockClient
  pub its : tracked cs ip ≡ some entry
  pub step : entry.current_step ≡ k
  pub time : entry.last_knock ≡ t

-- The next port in time moves the entry on; at the last one the answer is KNOCK_COMPLETE.
advance-next :
    (s : Settings) (now port : ℕ) (c : KnockClient)
    → IsValid s
    → IsPartway s c
    → c.active ≡ true
    → port ≡ knock_port s c.current_step
    → now ≤ c.last_knock + s.knock_window
    → ((suc c.current_step ≡ knock_seq_len s) × ((advance s now port c).0 ≡ complete))
      ⊎ ((suc c.current_step < knock_seq_len s)
          × ((advance s now port c).1.active ≡ true)
          × ((advance s now port c).1.current_step ≡ suc c.current_step)
          × ((advance s now port c).1.last_knock ≡ now))
unfolding advance match_port expired is_retransmit
advance-next s now port c v p a e w = ground (arith, v.distinct (c.current_step - 1) c.current_step)

partway :
    (s : Settings) (cs : Table) (ip : ℕ) (c : KnockClient)
    → IsTable s cs
    → tracked cs ip ≡ some c
    → IsPartway s c × (c.active ≡ true)
partway s cs ip c t e =
    let a = (tracked_active cs ip c e).0 in (All-tracked (EntryInv s) cs ip c t.entries e a, a)

-- The knock after `k` of them ends the sequence, or takes the address one step on.
abbrev Due : Settings → Table → ℕ → ℕ → ℕ → ℕ → ℕ → Type 0
Due s cs now later ip port k =
    ((suc k ≡ knock_seq_len s) × ((process_locked s now later cs ip port).0 ≡ complete))
    ⊎ ((suc k < knock_seq_len s) × IsAt s (process_locked s now later cs ip port).1 ip (suc k) now)

Due-last :
    (s : Settings) (cs : Table) (now later ip port k : ℕ)
    → Due s cs now later ip port k
    → suc k ≡ knock_seq_len s
    → (process_locked s now later cs ip port).0 ≡ complete
Due-last s cs now later ip port k (inl (_, r)) e = r
Due-last s cs now later ip port k (inr (l, _)) e = absurd (omega arith)

Due-more :
    (s : Settings) (cs : Table) (now later ip port k : ℕ)
    → Due s cs now later ip port k
    → suc k < knock_seq_len s
    → IsAt s (process_locked s now later cs ip port).1 ip (suc k) now
Due-more s cs now later ip port k (inl (e, _)) l = absurd (omega arith)
Due-more s cs now later ip port k (inr (_, at)) l = at

due :
    (s : Settings) (cs : Table) (now later ip port k t : ℕ)
    → IsValid s
    → IsTable s cs
    → IsAt s cs ip k t
    → port ≡ knock_port s k
    → now ≤ t + s.knock_window
    → Due s cs now later ip port k
due s cs now later ip port k t v tb at e w =
    let c = at.entry in
    let p = partway s cs ip c tb at.its in
    let self = process_self s now later cs ip port c v tb at.its in
    let e' : port ≡ knock_port s c.current_step =
      subst (λ n. port ≡ knock_port s n) (sym at.step) e in
    go (advance-next s now port c v p.0 p.1 e' (omega (arith, at.time))) self
  where
    go :
        ((suc at.entry.current_step ≡ knock_seq_len s)
            × ((advance s now port at.entry).0 ≡ complete))
          ⊎ ((suc at.entry.current_step < knock_seq_len s)
              × ((advance s now port at.entry).1.active ≡ true)
              × ((advance s now port at.entry).1.current_step ≡ suc at.entry.current_step)
              × ((advance s now port at.entry).1.last_knock ≡ now))
        → ((process_locked s now later cs ip port).0 ≡ (advance s now port at.entry).0)
          × (tracked (process_locked s now later cs ip port).1 ip ≡ (
              if (advance s now port at.entry).1.active
              then some (advance s now port at.entry).1
              else none))
        → Due s cs now later ip port k
    go (inl (l, r)) self = inl (omega (arith, at.step), self.0 ∙ r)
    go (inr (l, a, st, ti)) self = inr (
      omega (arith, at.step),
      record {
        entry = (advance s now port at.entry).1;
        its = ground (arith, self.1, a);
        step = omega (arith, st, at.step);
        time = ti;
      },
    )

-- Somebody else's knock leaves a client in its window where it is.
undisturbed :
    (s : Settings) (cs : Table) (now later j port ip k t : ℕ)
    → IsValid s
    → IsTable s cs
    → IsAt s cs ip k t
    → ip ≢ j
    → later ≤ t + s.knock_window
    → IsAt s (process_locked s now later cs j port).1 ip k t
undisturbed s cs now later j port ip k t v tb at ne w =
    go (process-Untouched s now later cs j port ip v tb ne)
  where
    go :
        Untouched s later cs ip (process_locked s now later cs j port).1
        → IsAt s (process_locked s now later cs j port).1 ip k t
    go (inl e) = record { entry = at.entry; its = e ∙ at.its; step = at.step; time = at.time }
    go (inr (c, e, x, n)) =
        absurd (omega (arith, at.time, ap (λ d. d.last_knock) (some_inj (sym e ∙ at.its))))

unswept :
    (s : Settings) (cs : Table) (now ip k t : ℕ)
    → IsTable s cs
    → IsAt s cs ip k t
    → now ≤ t + s.knock_window
    → IsAt s (cleanup_stale s now cs) ip k t
unfolding expired
unswept s cs now ip k t tb at w = record {
  entry = at.entry;
  its = ground (arith, tracked-cleanup s now cs ip tb.unique, at.its, at.time);
  step = at.step;
  time = at.time;
}

Campaign-IsGranted :
    (s : Settings) (ip : ℕ) {k t : ℕ} {calls : List Call} (cs : Table)
    → IsValid s
    → IsTable s cs
    → IsAt s cs ip k t
    → Campaign s ip k t calls
    → IsGranted ip (answers s cs calls)
unfolding answers
Campaign-IsGranted s ip {k = k} {t = t} cs v tb at (last now later port rest e w f) =
    inl (refl, Due-last s cs now later ip port k (due s cs now later ip port k t v tb at e w) f)
Campaign-IsGranted s ip {k = k} {t = t} cs v tb at (own now later port e w f c) = inr (
    Campaign-IsGranted s ip (process_locked s now later cs ip port).1 v
      (process-IsTable s now later cs ip port v tb)
      (Due-more s cs now later ip port k (due s cs now later ip port k t v tb at e w) f) c)
Campaign-IsGranted s ip cs v tb at (other now later j port ne w c) = inr (
    Campaign-IsGranted s ip (process_locked s now later cs j port).1 v
      (process-IsTable s now later cs j port v tb)
      (undisturbed s cs now later j port ip _ _ v tb at ne w) c)
Campaign-IsGranted s ip cs v tb at (swept now w c) =
    Campaign-IsGranted s ip (cleanup_stale s now cs) v (cleanup-IsTable s now cs tb)
      (unswept s cs now ip _ _ tb at w) c

-- The first knock of an address that is not tracked, while some slot is not a live sequence.
starts :
    (s : Settings) (now later : ℕ) (cs : Table) (ip port : ℕ) (o : Outcome)
    → IsTable s cs
    → tracked cs ip ≡ none
    → port ≡ knock_port s 0
    → ¬ AllLive s later cs
    → Processed s now later cs ip port o
    → IsAt s o.1 ip 1 now
starts s now later cs ip port o tb t p r (noise n q e) = absurd (q p)
starts s now later cs ip port o tb t p r (crowded n l e) = absurd (r l)
starts s now later cs ip port o tb t p r (started i n q l u e) = record {
  entry = first_knock now ip port;
  its = rw e (ground (arith, tracked-set cs i (first_knock now ip port) ip tb.unique l (inr n)));
  step = refl;
  time = refl;
}
starts s now later cs ip port o tb t p r (advanced i l n a k e) = absurd (ground arith)

-- With valid settings and a valid table, an address that is not tracked knocks the whole sequence,
-- each port at most KNOCK_WINDOW seconds after the one before, while other addresses knock as they
-- like and the table is swept: if there was a slot for it at its first knock, one of its knocks is
-- answered KNOCK_COMPLETE.
pub sequence_completes :
    (s : Settings) (cs : Table) (ip now later port : ℕ) (calls : List Call)
    → IsValid s
    → IsTable s cs
    → tracked cs ip ≡ none
    → ¬ AllLive s later cs
    → port ≡ knock_port s 0
    → Campaign s ip 1 now calls
    → IsGranted ip (answers s cs (knocks now later ip port ∷ calls))
unfolding answers
sequence_completes s cs ip now later port calls v tb t r p c = inr (
    Campaign-IsGranted s ip (process_locked s now later cs ip port).1 v
      (process-IsTable s now later cs ip port v tb)
      (starts s now later cs ip port _ tb t p r (process_locked_lem s now later cs ip port v)) c)
