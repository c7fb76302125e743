-- ===== src/Firewall/Chain/Table.antt =====
-- The grants that end, and the chain after any calls: it is the table.
use knockd.Prelude.{
  ℕ, ◌+◌, ◌≤◌, ◌≡◌, refl, sym, ap, subst, inl, inr, Bool, true, false, some, List, [], ◌∷◌, get_or,
  set, All, ◌==◌, if◌then◌else◌, Bool-cases, Option-cases, arith,
}
use knockd.Settings.{Settings}
use knockd.Firewall.{
  Env, delete_grant, Runs, Grant, Firewall, zeroed, exec, init, close_in, close_grant, expire,
  revoke, tick,
}
use knockd.Firewall.Ledger.{held, held-set, one_if, absent, present, find_grant_lem}
use knockd.Firewall.Balance.{BalancedTable, Balanced}
use knockd.Firewall.Tick.{times, expire-held, expire-Printable}
use knockd.Firewall.Lifecycle.{
  Call, opens, closes, ticks, apply, after, fresh, after-Balanced, init-Balanced, books_balance,
}
use knockd.Firewall.Chain.{
  IsChain, left_behind, MatchesTable, Matches, init-Matches, open_grant-Matches,
}

module _ (rules : Runs → ℕ → ℕ) (chain : IsChain rules) (env : Env) where
  -- A grant that ends is followed by the deletion of its rule, which is there; where that fails the
  -- rule stays.
  delete-Matches :
      (j : ℕ) (fw : Firewall) (left : ℕ → ℕ)
      → ((ip : ℕ) → rules fw.ran ip ≡ one_if (j == ip) + left ip + left_behind ip fw.ran)
      → (ip : ℕ)
      → let ran = (exec env (delete_grant j) fw).1.ran in
        rules ran ip ≡ left ip + left_behind ip ran
  unfolding exec left_behind
  delete-Matches j fw left m ip = elim (Bool-cases (env.succeeds fw.ran (delete_grant j))) [
    | inl e ↦ rw e (omega (arith, m ip, chain.taken_away fw.ran j ip))
    | inr e ↦ rw e (omega (arith, m ip, chain.refused fw.ran (delete_grant j) ip))
  ]

  close_in-Matches :
      (j : ℕ) (gs : List Grant) (fw : Firewall)
      → fw.grants ≡ some gs
      → MatchesTable rules (some gs) fw.ran
      → Matches rules (close_in env j gs fw).1
  unfolding close_in exec
  close_in-Matches j gs fw t m = elim (find_grant_lem gs j) [
    | absent e z ↦ rw (e, close_in) (subst (λ o. MatchesTable rules o fw.ran) (sym t) m)
    | present i e l h ↦
        let ended = record (get_or gs i zeroed) { active = false } in
        let gone =
          delete-Matches j (record fw { grants = some (set gs i ended) })
            (λ ip. held ip (set gs i ended))
            (λ ip. ground (arith, m ip, h, held-set ip gs i ended l)) in
        elim (Bool-cases (env.succeeds fw.ran (delete_grant j))) [
          | inl r ↦ rw (e, close_in) (rw r (rw r at gone))
          | inr r ↦ rw (e, close_in) (rw r (rw r at gone))
        ]
  ]

  close_grant-Matches :
      (ip : ℕ) (fw : Firewall) → Matches rules fw → Matches rules (close_grant env ip fw).1
  unfolding close_grant
  close_grant-Matches ip fw m = elim (Option-cases fw.grants) [
    | inl e ↦ simp (e, close_grant) tt
    | inr (gs, e) ↦
        let m' = subst (λ o. MatchesTable rules o fw.ran) e m in
        elim (Bool-cases (env.formats ip)) [
          | inr f ↦ simp (e, f, close_grant) m'
          | inl f ↦ simp (e, f, close_grant) (close_in-Matches ip gs fw e m')
        ]
  ]

  revoke-Matches :
      (ips : List ℕ) (fw : Firewall) (left : ℕ → ℕ)
      → All (λ ip. env.formats ip ≡ true) ips
      → ((ip : ℕ) → rules fw.ran ip ≡ times ip ips + left ip + left_behind ip fw.ran)
      → ((revoke env ips fw).grants ≡ fw.grants)
        × ((ip : ℕ)
            → rules (revoke env ips fw).ran ip ≡ left ip + left_behind ip (revoke env ips fw).ran)
  unfolding revoke times
  revoke-Matches [] fw left p m = (refl, (λ ip. omega (arith, m ip)))
  revoke-Matches (j ∷ js) fw left p m =
      let fw1 = (exec env (delete_grant j) fw).1 in
      let gone = delete-Matches j fw (λ ip. times ip js + left ip) (λ ip. omega (arith, m ip)) in
      subst
        (λ f. (f.grants ≡ fw.grants) × ((ip : ℕ) → rules f.ran ip ≡ left ip + left_behind ip f.ran))
        (ap (λ b. revoke env js (if b then fw1 else fw)) (sym p.0))
        (revoke-Matches js fw1 left p.1 gone)

  tick-Matches :
      (now : ℕ) (fw : Firewall)
      → Balanced env fw
      → Matches rules fw
      → Matches rules (tick env now fw)
  unfolding tick
  tick-Matches now fw b m = elim (Option-cases fw.grants) [
    | inl e ↦ simp (e, tick) tt
    | inr (gs, e) ↦
        let m' = subst (λ o. MatchesTable rules o fw.ran) e m in
        let b' = subst (λ o. BalancedTable env o fw.ran) e b in
        let gs' = (expire now 16 gs).1 in
        let r =
          revoke-Matches (expire now 16 gs).0 (record fw { grants = some gs' }) (λ ip. held ip gs')
            (expire-Printable env now 16 gs b'.printable).0
            (λ ip. omega (arith, m' ip, expire-held now 16 ip gs)) in
        simp (e, tick) (simp r.0 r.1)
  ]

  apply-Matches :
      (s : Settings) (fw : Firewall) (c : Call)
      → Balanced env fw
      → Matches rules fw
      → Matches rules (apply env s fw c)
  unfolding apply
  apply-Matches s fw (opens now ip) b m = open_grant-Matches rules chain env s now ip fw m
  apply-Matches s fw (ticks now) b m = tick-Matches now fw b m
  apply-Matches s fw (closes ip) b m = close_grant-Matches ip fw m

  after-Matches :
      (s : Settings) (fw : Firewall) (cs : List Call)
      → Balanced env fw
      → Matches rules fw
      → Matches rules (after env s fw cs)
  unfolding after
  after-Matches s fw [] b m = m
  after-Matches s fw (c ∷ cs) b m =
      apply-Matches s (after env s fw cs) c (after-Balanced env s fw cs b)
        (after-Matches s fw cs b m)

-- If iptables changes the chain as documented, then from `firewall_init` on, whatever is opened, closed
-- and ticked, and whatever fails: the chain has one rule for each address that holds a grant, none
-- for any other, and one more for each time that the deletion of the address's rule failed. So while
-- no deletion fails the chain is the table, and a rule whose deletion failed stays.
pub chain_is_table :
    (rules : Runs → ℕ → ℕ) (env : Env) (s : Settings) (allocated : Bool) (cs : List Call)
    (gs : List Grant) (ip : ℕ)
    → IsChain rules
    → (after env s (init env s allocated fresh).1 cs).grants ≡ some gs
    → let ran = (after env s (init env s allocated fresh).1 cs).ran in
      (rules ran ip ≡ held ip gs + left_behind ip ran) × (held ip gs ≤ 1)
chain_is_table rules env s allocated cs gs ip chain e =
    let fw0 = (init env s allocated fresh).1 in
    let m =
      after-Matches rules chain env s fw0 cs (init-Balanced env s allocated)
        (init-Matches rules chain env s allocated) in
    (
      subst (λ o. MatchesTable rules o (after env s fw0 cs).ran) e m ip,
      (books_balance env s allocated cs gs ip e).1,
    )
