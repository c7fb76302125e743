-- ===== src/Firewall/Chain.antt =====
-- The KNOCKD chain itself: what src/firewall.c has iptables keep in it. How iptables changes the
-- chain is a parameter, with its documented behaviour as laws.
pub mod Table
pub mod Shut
use knockd.Prelude.{
  ℕ, zero, suc, ◌+◌, ◌-◌, ◌≤◌, ◌<◌, ◌≡◌, refl, sym, ap, subst, ◌⊎◌, inl, inr, Bool, true, false,
  not, Option, none, some, List, [], ◌∷◌, length, get_or, set, replicate, All, set-set,
  get_or-set_self, ◌==◌, if◌then◌else◌, some_inj, Bool-cases, Option-cases, arith, ◌∙◌,
}
use knockd.Settings.{Settings}
use knockd.Firewall.{
  Env, Command, new_chain, flush_chain, check_jump, add_jump, unhook, delete_chain, insert_grant,
  delete_grant, Runs, Grant, Firewall, zeroed, exec, hook, init, reserve, open_in, open_grant,
  close_in, close_grant, expire, revoke, tick,
}
use knockd.Firewall.Ledger.{
  held, held-set, holds, one_if, absent, present, find_grant_lem, taken, unused, find_slot_lem,
  IsBalanced,
}
use knockd.Firewall.Balance.{BalancedTable, Balanced}
use knockd.Firewall.Tick.{times, expire-held, expire-Printable}
use knockd.Firewall.Lifecycle.{
  Call, opens, closes, ticks, apply, after, fresh, held-zeroed, after-Balanced, init-Balanced,
  books_balance,
}

-- `rules ran ip` is the number of rules of the chain that let `ip` in, after the runs `ran` of
-- iptables: -F empties the chain, -I puts a rule there, -D takes one away, -X removes the chain, and a
-- run that fails and one that is about another chain change nothing.
pub record IsChain (rules : Runs → ℕ → ℕ) : Type 0 where
  pub flushed : (ran : Runs) (ip : ℕ) → rules ((flush_chain, true) ∷ ran) ip ≡ 0
  pub put :
      (ran : Runs) (j ip : ℕ)
      → rules ((insert_grant j, true) ∷ ran) ip ≡ one_if (j == ip) + rules ran ip
  pub taken_away :
      (ran : Runs) (j ip : ℕ)
      → rules ((delete_grant j, true) ∷ ran) ip ≡ rules ran ip - one_if (j == ip)
  pub checked : (ran : Runs) (ip : ℕ) → rules ((check_jump, true) ∷ ran) ip ≡ rules ran ip
  pub jumps : (ran : Runs) (ip : ℕ) → rules ((add_jump, true) ∷ ran) ip ≡ rules ran ip
  pub unhooks : (ran : Runs) (ip : ℕ) → rules ((unhook, true) ∷ ran) ip ≡ rules ran ip
  pub removed : (ran : Runs) (ip : ℕ) → rules ((delete_chain, true) ∷ ran) ip ≡ 0
  pub refused : (ran : Runs) (c : Command) (ip : ℕ) → rules ((c, false) ∷ ran) ip ≡ rules ran ip

-- How many deletions of the rule of the address failed.
unfoldable pub left_behind : ℕ → Runs → ℕ
left_behind ip [] = 0
left_behind ip ((delete_grant j, false) ∷ h) = one_if (j == ip) + left_behind ip h
left_behind ip (_ ∷ h) = left_behind ip h

module _ (rules : Runs → ℕ → ℕ) where
  -- The chain has the rules of the grants of the table, and those whose deletion failed.
  abbrev pub MatchesTable : Option (List Grant) → Runs → Type 0
  MatchesTable none ran = Unit
  MatchesTable (some gs) ran = (ip : ℕ) → rules ran ip ≡ held ip gs + left_behind ip ran

  abbrev pub Matches : Firewall → Type 0
  Matches fw = MatchesTable fw.grants fw.ran

module _ (rules : Runs → ℕ → ℕ) (chain : IsChain rules) (env : Env) where
  pub init-Matches :
      (s : Settings) (allocated : Bool) → Matches rules (init env s allocated fresh).1
  unfolding init hook exec left_behind
  init-Matches s false = tt
  init-Matches s true =
      let r1 = env.succeeds [] new_chain in
      let ran1 : Runs = (new_chain, r1) ∷ [] in
      let ran2 : Runs = (flush_chain, true) ∷ ran1 in
      let ran3 : Runs = (check_jump, false) ∷ ran2 in
      elim (Bool-cases (env.succeeds ran1 flush_chain)) [
        | inr e ↦ simp e tt
        | inl e ↦ elim (Bool-cases (env.succeeds ran2 check_jump)) [
          | inl f ↦
              simp (e, f)
                (λ ip. omega (
                  arith,
                  chain.checked ran2 ip,
                  chain.flushed ran1 ip,
                  held-zeroed env s ip s.max_clients,
                ))
          | inr f ↦ elim (Bool-cases (env.succeeds ran3 add_jump)) [
            | inr g ↦ simp (e, f, g) tt
            | inl g ↦
                simp (e, f, g)
                  (λ ip. omega (
                    arith,
                    chain.jumps ran3 ip,
                    chain.refused ran2 check_jump ip,
                    chain.flushed ran1 ip,
                    held-zeroed env s ip s.max_clients,
                  ))
          ]
        ]
      ]

  reserve-Matches :
      (j until : ℕ) (gs : List Grant) (i : ℕ) (fw : Firewall)
      → i < length gs
      → (get_or gs i zeroed).active ≡ false
      → MatchesTable rules (some gs) fw.ran
      → Matches rules (reserve env j until gs i fw).1
  unfolding reserve left_behind
  reserve-Matches j until gs i fw l a m =
      let new : Grant = record { ip = j; expires_at = until; active = true } in
      let back = record new { active = false } in
      elim (Bool-cases (env.succeeds fw.ran (insert_grant j))) [
        | inl e ↦
            rw e (λ ip. ground (arith, a, m ip, chain.put fw.ran j ip, held-set ip gs i new l))
        | inr e ↦
            rw (e, set-set gs i, get_or-set_self gs i new zeroed l)
              (λ ip.
                ground (
                  arith,
                  a,
                  m ip,
                  chain.refused fw.ran (insert_grant j) ip,
                  held-set ip gs i back l,
                ))
      ]

  open_in-Matches :
      (j until : ℕ) (gs : List Grant) (fw : Firewall)
      → fw.grants ≡ some gs
      → MatchesTable rules (some gs) fw.ran
      → Matches rules (open_in env j until gs fw).1
  unfolding open_in
  open_in-Matches j until gs fw t m = elim (find_grant_lem gs j) [
    | present i e l h ↦
        let g = record (get_or gs i zeroed) { expires_at = until } in
        rw (e, open_in) (λ ip. omega (arith, m ip, held-set ip gs i g l))
    | absent e z ↦ elim (find_slot_lem gs) [
      | taken n a ↦ rw (e, n, open_in) (subst (λ o. MatchesTable rules o fw.ran) (sym t) m)
      | unused i n l a ↦ rw (e, n, open_in) (reserve-Matches j until gs i fw l a m)
    ]
  ]

  pub open_grant-Matches :
      (s : Settings) (now j : ℕ) (fw : Firewall)
      → Matches rules fw
      → Matches rules (open_grant env s now j fw).1
  unfolding open_grant
  open_grant-Matches s now j fw m = elim (Option-cases fw.grants) [
    | inl e ↦ simp (e, open_grant) tt
    | inr (gs, e) ↦
        let m' = subst (λ o. MatchesTable rules o fw.ran) e m in
        elim (Bool-cases (env.formats j)) [
          | inr f ↦ simp (e, f, open_grant) m'
          | inl f ↦ simp (e, f, open_grant) (open_in-Matches j (now + s.access_timeout) gs fw e m')
        ]
  ]
