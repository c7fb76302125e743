-- ===== src/Firewall/Tick.antt =====
-- `firewall_tick`: which grants end, and that their rules are deleted.
use knockd.Prelude.{
  ℕ, zero, suc, ◌+◌, ◌≡◌, refl, sym, ap, subst, ◌⊎◌, inl, inr, true, false, some, List, [], ◌∷◌,
  length, All, ◌==◌, if◌then◌else◌, Bool-cases, Option-cases, arith,
}
use knockd.Firewall.{Env, delete_grant, Runs, Grant, Firewall, exec, is_due, expire, revoke, tick}
use knockd.Firewall.Ledger.{inserted, deleted, held, one_if, IsBalanced}
use knockd.Firewall.Balance.{BalancedTable, Balanced}

-- How often the address stands in the list.
unfoldable pub times : ℕ → List ℕ → ℕ
times ip [] = 0
times ip (j ∷ js) = one_if (j == ip) + times ip js

due_active : (now : ℕ) (g : Grant) → is_due now g ≡ true → g.active ≡ true
unfolding is_due
due_active now g d = ground arith

ended_due : (now : ℕ) (g : Grant) → is_due now (record g { active = false }) ≡ false
unfolding is_due
ended_due now g = refl

one_more : (room n d : ℕ) → (d ≡ 0) ⊎ (n ≡ room) → (0 + d ≡ 0) ⊎ (suc n ≡ suc room)
one_more room n d (inl e) = inl (omega arith)
one_more room n d (inr e) = inr (omega arith)

no_more : (room n d : ℕ) → (d ≡ 0) ⊎ (n ≡ room) → (0 + d ≡ 0) ⊎ (n ≡ room)
no_more room n d (inl e) = inl (omega arith)
no_more room n d (inr e) = inr e

pub expire-held :
    (now room ip : ℕ) (gs : List Grant)
    → let (ips, gs') = expire now room gs in times ip ips + held ip gs' ≡ held ip gs
unfolding expire held times
expire-held now zero ip gs = omega arith
expire-held now (suc room) ip [] = omega arith
expire-held now (suc room) ip (g ∷ gs) = elim (Bool-cases (is_due now g)) [
  | inl d ↦ rw d (ground (arith, due_active now g d, expire-held now room ip gs))
  | inr d ↦ rw d (omega (arith, expire-held now (suc room) ip gs))
]

-- How many grants of the table are due.
unfoldable pub dues : ℕ → List Grant → ℕ
dues now [] = 0
dues now (g ∷ gs) = one_if (is_due now g) + dues now gs

-- A tick ends sixteen grants that are due, or all of them if there are fewer.
expire-dues :
    (now room : ℕ) (gs : List Grant)
    → let (ips, gs') = expire now room gs in
      (length ips + dues now gs' ≡ dues now gs) × ((dues now gs' ≡ 0) ⊎ (length ips ≡ room))
unfolding expire dues
expire-dues now zero gs = (omega arith, inr refl)
expire-dues now (suc room) [] = (omega arith, inl refl)
expire-dues now (suc room) (g ∷ gs) = elim (Bool-cases (is_due now g)) [
  | inl d ↦
      let ih = expire-dues now room gs in
      rw (d, ended_due now g) (omega (arith, ih.0), one_more room _ _ ih.1)
  | inr d ↦
      let ih = expire-dues now (suc room) gs in
      rw (d, d) (omega (arith, ih.0), no_more (suc room) _ _ ih.1)
]

-- Each slot is as it was, or held a grant that was due and has been ended.
abbrev pub Ended : ℕ → List Grant → List Grant → Type 0
Ended now [] [] = Unit
Ended now [] (h ∷ hs) = ⊥
Ended now (g ∷ gs) [] = ⊥
Ended now (g ∷ gs) (h ∷ hs) =
    ((h ≡ g) ⊎ ((is_due now g ≡ true) × (h ≡ record g { active = false }))) × Ended now gs hs

Ended-refl : (now : ℕ) (gs : List Grant) → Ended now gs gs
Ended-refl now [] = tt
Ended-refl now (g ∷ gs) = (inl refl, Ended-refl now gs)

expire-Ended : (now room : ℕ) (gs : List Grant) → Ended now gs (expire now room gs).1
unfolding expire
expire-Ended now zero gs = Ended-refl now gs
expire-Ended now (suc room) [] = tt
expire-Ended now (suc room) (g ∷ gs) = elim (Bool-cases (is_due now g)) [
  | inl d ↦ rw d (inr (d, refl), expire-Ended now room gs)
  | inr d ↦ rw d (inl refl, expire-Ended now (suc room) gs)
]

-- The deletion of each address was run, and nothing else; the table is as it was.
abbrev Revoked : List ℕ → Firewall → Firewall → Type 0
Revoked ips fw fw' =
    (fw'.grants ≡ fw.grants)
    × ((ip : ℕ) → inserted ip fw'.ran ≡ inserted ip fw.ran)
    × ((ip : ℕ) → deleted ip fw'.ran ≡ times ip ips + deleted ip fw.ran)

module _ (env : Env) where
  abbrev Printable : Grant → Type 0
  Printable g = g.active ≡ true → env.formats g.ip ≡ true

  pub expire-Printable :
      (now room : ℕ) (gs : List Grant)
      → All Printable gs
      → All (λ ip. env.formats ip ≡ true) (expire now room gs).0
        × All Printable (expire now room gs).1
  unfolding expire
  expire-Printable now zero gs p = (tt, p)
  expire-Printable now (suc room) [] p = (tt, tt)
  expire-Printable now (suc room) (g ∷ gs) p = elim (Bool-cases (is_due now g)) [
    | inl d ↦
        let ih = expire-Printable now room gs p.1 in
        rw d ((p.0 (due_active now g d), ih.0), ((λ a. absurd (ground arith)), ih.1))
    | inr d ↦ let ih = expire-Printable now (suc room) gs p.1 in rw d (ih.0, (p.0, ih.1))
  ]

  -- The second loop runs the deletion of each address, and leaves the table alone.
  revoke_lem :
      (ips : List ℕ) (fw : Firewall)
      → All (λ ip. env.formats ip ≡ true) ips
      → Revoked ips fw (revoke env ips fw)
  unfolding revoke inserted deleted times
  revoke_lem [] fw p = (refl, (λ ip. refl), (λ ip. omega arith))
  revoke_lem (j ∷ js) fw p =
      let ih = revoke_lem js (exec env (delete_grant j) fw).1 p.1 in
      subst (λ f. Revoked (j ∷ js) fw f)
        (ap (λ b. revoke env js (if b then (exec env (delete_grant j) fw).1 else fw)) (sym p.0))
        (ih.0, ih.1, (λ ip. omega (arith, ih.2 ip)))

  revoked_books :
      (now : ℕ) (gs : List Grant) (ran ran' : Runs)
      → IsBalanced env.formats gs ran
      → ((ip : ℕ) → inserted ip ran' ≡ inserted ip ran)
      → ((ip : ℕ) → deleted ip ran' ≡ times ip (expire now 16 gs).0 + deleted ip ran)
      → IsBalanced env.formats (expire now 16 gs).1 ran'
  revoked_books now gs ran ran' b i d = record {
    books = λ ip. omega (arith, b.books ip, i ip, d ip, expire-held now 16 ip gs);
    single = λ ip. omega (arith, b.single ip, expire-held now 16 ip gs);
    printable = (expire-Printable now 16 gs b.printable).1;
  }

  ticked :
      (now : ℕ) (gs : List Grant) (fw : Firewall)
      → IsBalanced env.formats gs fw.ran
      → let (ips, gs') = expire now 16 gs in
        let fw1 = record fw { grants = some gs' } in Revoked ips fw1 (revoke env ips fw1)
  ticked now gs fw b =
      revoke_lem (expire now 16 gs).0 (record fw { grants = some (expire now 16 gs).1 })
        (expire-Printable now 16 gs b.printable).0

  -- `firewall_tick` keeps the books, whatever iptables does.
  pub tick-Balanced : (now : ℕ) (fw : Firewall) → Balanced env fw → Balanced env (tick env now fw)
  unfolding tick
  tick-Balanced now fw b = elim (Option-cases fw.grants) [
    | inl e ↦ simp (e, tick) tt
    | inr (gs, e) ↦
        let b' = subst (λ o. BalancedTable env o fw.ran) e b in
        let r = ticked now gs fw b' in
        simp (e, tick) (simp r.0 (revoked_books now gs fw.ran _ b' r.1 r.2))
  ]

  all_or_sixteen :
      (n left all : ℕ) → (n + left ≡ all) × ((left ≡ 0) ⊎ (n ≡ 16)) → (left ≡ 0) ⊎ (left + 16 ≡ all)
  all_or_sixteen n left all (a, inl e) = inl e
  all_or_sixteen n left all (a, inr e) = inr (omega arith)

  -- On a table whose books balance, a tick ends only grants that are due, sixteen of them or all
  -- if there are fewer, and for each address runs the deletion of its rule as often as it ended a
  -- grant of it.
  pub tick_lem :
      (now : ℕ) (gs : List Grant) (fw : Firewall)
      → fw.grants ≡ some gs
      → Balanced env fw
      → (gs' : List Grant) × ((tick env now fw).grants ≡ some gs')
        × Ended now gs gs'
        × ((dues now gs' ≡ 0) ⊎ (dues now gs' + 16 ≡ dues now gs))
        × ((ip : ℕ)
            → deleted ip (tick env now fw).ran + held ip gs' ≡ deleted ip fw.ran + held ip gs)
  unfolding tick
  tick_lem now gs fw e b =
      let b' = subst (λ o. BalancedTable env o fw.ran) e b in
      let r = ticked now gs fw b' in
      let d = expire-dues now 16 gs in
      (
        (expire now 16 gs).1,
        simp (e, tick) r.0,
        expire-Ended now 16 gs,
        all_or_sixteen _ _ _ d,
        (λ ip. simp (e, tick) (omega (arith, r.2 ip, expire-held now 16 ip gs))),
      )
