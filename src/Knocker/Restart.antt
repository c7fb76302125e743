-- ===== src/Knocker/Restart.antt =====
-- Knocks out of order, and starting the sequence again.
use knockd.Prelude.{
  ℕ, ◌+◌, ◌-◌, ◌≤◌, ◌<◌, ◌≡◌, ◌≢◌, sym, ap, ◌∙◌, subst, ◌⊎◌, inl, inr, true, false, none, some,
  if◌then◌else◌, arith,
}
use knockd.Settings.{Settings, IsValid, knock_port}
use knockd.Knocker.{
  KnockClient, Table, process_locked, in_progress, reset, advance, match_port, expired,
  is_retransmit,
}
use knockd.Knocker.Table.{tracked, All-tracked, tracked_active}
use knockd.Knocker.Entry.{EntryInv, IsPartway}
use knockd.Knocker.Invariant.{IsTable}
use knockd.Knocker.Others.{process_self}
use knockd.Knocker.Process.{Outcome}
use knockd.Knocker.Properties.{retransmit_ignored}

advance_wrong :
    (s : Settings) (now port : ℕ) (c : KnockClient)
    → IsValid s
    → c.active ≡ true
    → port ≢ c.last_port
    → port ≢ knock_port s c.current_step
    → ((port ≡ knock_port s 0)
        × (advance s now port c
            ≡ (in_progress, record c { current_step = 1; last_knock = now; last_port = port })))
      ⊎ ((port ≢ knock_port s 0)
          × ((advance s now port c).0 ≡ reset)
          × ((advance s now port c).1.active ≡ false))
unfolding advance match_port expired is_retransmit
advance_wrong s now port c v a n m = ground (arith, v.long_enough)

-- What a knock out of order does: it starts the sequence afresh, or throws the progress away.
abbrev pub StartsOver : Settings → ℕ → ℕ → ℕ → KnockClient → Outcome → Type 0
StartsOver s now ip port c o =
    ((port ≡ knock_port s 0)
      × (o.0 ≡ in_progress)
      × (tracked o.1 ip ≡ some (record c { current_step = 1; last_knock = now; last_port = port })))
    ⊎ ((port ≢ knock_port s 0) × (o.0 ≡ reset) × (tracked o.1 ip ≡ none))

-- With valid settings and a valid table, a tracked address's knock that neither repeats the last
-- port nor hits the next one restarts the client at step 1 if it is the first port of the
-- sequence, and otherwise is answered KNOCK_RESET and drops the client's entry.
pub wrong_port :
    (s : Settings) (now later : ℕ) (cs : Table) (ip port : ℕ) (c : KnockClient)
    → IsValid s
    → IsTable s cs
    → tracked cs ip ≡ some c
    → port ≢ c.last_port
    → port ≢ knock_port s c.current_step
    → StartsOver s now ip port c (process_locked s now later cs ip port)
wrong_port s now later cs ip port c v tb t n m =
    let a = (tracked_active cs ip c t).0 in
    go (process_self s now later cs ip port c v tb t) a (advance_wrong s now port c v a n m)
  where
    go :
        ((process_locked s now later cs ip port).0 ≡ (advance s now port c).0)
          × (tracked (process_locked s now later cs ip port).1 ip
              ≡ (if (advance s now port c).1.active then some (advance s now port c).1 else none))
        → c.active ≡ true
        → ((port ≡ knock_port s 0)
            × (advance s now port c
                ≡ (in_progress, record c { current_step = 1; last_knock = now; last_port = port })))
          ⊎ ((port ≢ knock_port s 0)
              × ((advance s now port c).0 ≡ reset)
              × ((advance s now port c).1.active ≡ false))
        → StartsOver s now ip port c (process_locked s now later cs ip port)
    go self a (inl (p, e)) = inl (p, ground (arith, self.0, e), ground (arith, self.1, e, a))
    go self a (inr (p, r, d)) = inr (p, self.0 ∙ r, ground (arith, self.1, d))

advance_late :
    (s : Settings) (now : ℕ) (c : KnockClient)
    → IsValid s
    → c.current_step ≡ 1
    → c.last_port ≡ knock_port s 0
    → c.last_knock + s.knock_window < now
    → (advance s now (knock_port s 1) c).0 ≡ reset
unfolding advance match_port expired is_retransmit
advance_late s now c v k p w = ground (arith, v.distinct 0 1, v.long_enough)

-- With valid settings and a valid table, a tracked client that has knocked the first port, has
-- waited past the window, but not past five seconds, and starts again by the first port is taken
-- for a retransmit: the knock changes nothing, and the second port of the sequence, knocked then
-- or later, is answered KNOCK_RESET.
pub restart_swallowed :
    (s : Settings) (now later now' later' : ℕ) (cs : Table) (ip : ℕ) (c : KnockClient)
    → IsValid s
    → IsTable s cs
    → tracked cs ip ≡ some c
    → c.current_step ≡ 1
    → c.last_knock + s.knock_window < now
    → now ≤ c.last_knock + 5
    → now ≤ now'
    → let (r, cs') = process_locked s now later cs ip (knock_port s 0) in
      (r ≡ in_progress)
      × (cs' ≡ cs)
      × ((process_locked s now' later' cs' ip (knock_port s 1)).0 ≡ reset)
restart_swallowed s now later now' later' cs ip c v tb t k w d o =
    let a = (tracked_active cs ip c t).0 in
    let p : IsPartway s c = All-tracked (EntryInv s) cs ip c tb.entries t a in
    let first : c.last_port ≡ knock_port s 0 =
      subst (λ n. c.last_port ≡ knock_port s (n - 1)) k p.last in
    let again = retransmit_ignored s now later cs ip (knock_port s 0) c v t (sym first) d in
    let refused =
      (process_self s now' later' cs ip (knock_port s 1) c v tb t).0
      ∙ advance_late s now' c v k first (omega arith) in
    (
      ap (λ q. q.0) again,
      ap (λ q. q.1) again,
      subst (λ u. (process_locked s now' later' u ip (knock_port s 1)).0 ≡ reset)
          (sym (ap (λ q. q.1) again)) refused,
    )
