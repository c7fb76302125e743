-- ===== src/Knocker/Properties.antt =====
-- What one call of `knocker_process` answers, branch by branch.
use knockd.Prelude.{
  ℕ, ◌+◌, ◌≤◌, ◌≡◌, ◌≢◌, refl, sym, ◌∙◌, ◌⊎◌, inl, inr, true, false, none, some, get_or,
  set-get_or_self, if◌then◌else◌, some_inj, arith,
}
use knockd.Settings.{Settings, IsValid}
use knockd.Knocker.{
  KnockClient, KnockResult, Table, zeroed, process_locked, complete, in_progress, advance,
  is_retransmit,
}
use knockd.Knocker.Table.{tracked, tracked-set}
use knockd.Knocker.Entry.{advance-active}
use knockd.Knocker.Invariant.{IsTable}
use knockd.Knocker.Others.{process_self}
use knockd.Knocker.Process.{
  Outcome, Processed, noise, crowded, started, advanced, first_knock, process_locked_lem,
}

-- The address is tracked and the answer KNOCK_IN_PROGRESS, or neither.
abbrev pub Agrees : ℕ → Outcome → Type 0
Agrees ip o =
    ((o.0 ≡ in_progress) × ((c : KnockClient) × (tracked o.1 ip ≡ some c)))
    ⊎ ((o.0 ≢ in_progress) × (tracked o.1 ip ≡ none))

Agrees-self :
    (ip : ℕ) (o : Outcome) (r : KnockResult) (c : KnockClient)
    → (o.0 ≡ r) × (tracked o.1 ip ≡ (if c.active then some c else none))
    → ((r ≡ in_progress) × (c.active ≡ true)) ⊎ ((r ≢ in_progress) × (c.active ≡ false))
    → Agrees ip o
Agrees-self ip o r c self (inl (e, a)) = inl (self.0 ∙ e, (c, ground (arith, self.1, a)))
Agrees-self ip o r c self (inr (n, a)) = inr ((λ e. n (sym self.0 ∙ e)), ground (arith, self.1, a))

-- With valid settings and a valid table, after a knock its address is tracked exactly if the
-- answer is KNOCK_IN_PROGRESS: an answer of KNOCK_COMPLETE or KNOCK_RESET leaves no entry of the
-- address behind.
pub process-Agrees :
    (s : Settings) (now later : ℕ) (cs : Table) (ip port : ℕ)
    → IsValid s
    → IsTable s cs
    → Agrees ip (process_locked s now later cs ip port)
process-Agrees s now later cs ip port v tb = go (process_locked_lem s now later cs ip port v)
  where
    go :
        Processed s now later cs ip port (process_locked s now later cs ip port)
        → Agrees ip (process_locked s now later cs ip port)
    go (noise n p e) = rw e (inr ((λ x. cc), n))
    go (crowded n l e) = rw e (inr ((λ x. cc), n))
    go (started i n p l w e) = rw e (
        inl (
          refl,
          (
            first_knock now ip port,
            ground (arith, tracked-set cs i (first_knock now ip port) ip tb.unique l (inr n)),
          ),
        ))
    go (advanced i l n a k e) =
        Agrees-self ip _ _ _ (process_self s now later cs ip port (get_or cs i zeroed) v tb n)
          (advance-active s now port (get_or cs i zeroed) a)

untracked-ne-complete :
    (s : Settings) (now later : ℕ) (cs : Table) (ip port : ℕ)
    → IsValid s
    → tracked cs ip ≡ none
    → (process_locked s now later cs ip port).0 ≢ complete
untracked-ne-complete s now later cs ip port v t d =
    go (process_locked_lem s now later cs ip port v)
  where
    go : Processed s now later cs ip port (process_locked s now later cs ip port) → ⊥
    go (noise n p e) = ground arith
    go (crowded n l e) = ground arith
    go (started i n p l w e) = ground arith
    go (advanced i l n a k e) = ground arith

-- With valid settings and a valid table, KNOCK_COMPLETE is answered once: the next knock of the
-- address, at any port and time, is not answered KNOCK_COMPLETE again.
pub complete_once :
    (s : Settings) (now later now' later' : ℕ) (cs : Table) (ip port port' : ℕ)
    → IsValid s
    → IsTable s cs
    → (process_locked s now later cs ip port).0 ≡ complete
    → (process_locked s now' later' (process_locked s now later cs ip port).1 ip port').0 ≢ complete
complete_once s now later now' later' cs ip port port' v tb d =
    untracked-ne-complete s now' later' (process_locked s now later cs ip port).1 ip port' v
      (gone (process-Agrees s now later cs ip port v tb))
  where
    gone :
        Agrees ip (process_locked s now later cs ip port)
        → tracked (process_locked s now later cs ip port).1 ip ≡ none
    gone (inl (e, _)) = absurd (ground arith)
    gone (inr (_, e)) = e

advance-retransmit :
    (s : Settings) (now port : ℕ) (c : KnockClient)
    → port ≡ c.last_port
    → now ≤ c.last_knock + 5
    → advance s now port c ≡ (in_progress, c)
unfolding advance is_retransmit
advance-retransmit s now port c e w = ground arith

-- With valid settings, a tracked address's repeat of the port just accepted, within five seconds,
-- is answered KNOCK_IN_PROGRESS and changes nothing in the table, not even the time of the last
-- knock.
pub retransmit_ignored :
    (s : Settings) (now later : ℕ) (cs : Table) (ip port : ℕ) (c : KnockClient)
    → IsValid s
    → tracked cs ip ≡ some c
    → port ≡ c.last_port
    → now ≤ c.last_knock + 5
    → process_locked s now later cs ip port ≡ (in_progress, cs)
retransmit_ignored s now later cs ip port c v t p w =
    go (process_locked_lem s now later cs ip port v)
  where
    go :
        Processed s now later cs ip port (process_locked s now later cs ip port)
        → process_locked s now later cs ip port ≡ (in_progress, cs)
    go (noise n q e) = absurd (ground arith)
    go (crowded n l e) = absurd (ground arith)
    go (started i n q l u e) = absurd (ground arith)
    go (advanced i l n a k e) =
        let same : get_or cs i zeroed ≡ c = some_inj (sym n ∙ t) in
        ground (
          arith,
          e,
          same,
          advance-retransmit s now port (get_or cs i zeroed),
          set-get_or_self cs i zeroed,
        )
