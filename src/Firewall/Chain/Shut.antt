-- ===== src/Firewall/Chain/Shut.antt =====
-- The KNOCKD chain at the ends: behind `firewall_init` and `firewall_shutdown` of src/firewall.c it
-- lets nobody in.
use knockd.Prelude.{
  ℕ, ◌≡◌, refl, ◌⊎◌, inl, inr, Bool, true, false, none, some, List, [], ◌∷◌, ◌∙◌, Bool-cases,
  Option-cases, arith,
}
use knockd.Settings.{Settings}
use knockd.Firewall.{
  Env, new_chain, flush_chain, check_jump, add_jump, unhook, delete_chain, Runs, Grant, Firewall,
  ok, exec, hook, init, shutdown,
}
use knockd.Firewall.Lifecycle.{fresh}
use knockd.Firewall.Chain.{IsChain}

module _ (rules : Runs → ℕ → ℕ) (chain : IsChain rules) (env : Env) (ip : ℕ)
    (flushes : (ran : Runs) → env.succeeds ran flush_chain ≡ true) where
  -- No rule of the chain lets the address in, or iptables was not run at all.
  abbrev pub IsShut : Runs → Type 0
  IsShut ran = (rules ran ip ≡ 0) ⊎ (ran ≡ [])

  pub init-IsShut : (s : Settings) (allocated : Bool) → IsShut (init env s allocated fresh).1.ran
  unfolding init hook exec
  init-IsShut s false = inr refl
  init-IsShut s true =
      let ran1 : Runs = (new_chain, env.succeeds [] new_chain) ∷ [] in
      let ran2 : Runs = (flush_chain, true) ∷ ran1 in
      let ran3 : Runs = (check_jump, false) ∷ ran2 in
      elim (Bool-cases (env.succeeds ran2 check_jump)) [
        | inl f ↦ simp (flushes ran1, f) (inl (chain.checked ran2 ip ∙ chain.flushed ran1 ip))
        | inr f ↦
            let none_yet = chain.refused ran2 check_jump ip ∙ chain.flushed ran1 ip in
            elim (Bool-cases (env.succeeds ran3 add_jump)) [
              | inl g ↦ simp (flushes ran1, f, g) (inl (chain.jumps ran3 ip ∙ none_yet))
              | inr g ↦ simp (flushes ran1, f, g) (inl (chain.refused ran3 add_jump ip ∙ none_yet))
            ]
      ]

  -- `firewall_shutdown` on a table.
  pub shutdown-IsShut :
      (fw : Firewall) (gs : List Grant) → fw.grants ≡ some gs → IsShut (shutdown env fw).ran
  unfolding shutdown exec
  shutdown-IsShut fw gs e =
      let ran1 : Runs = (flush_chain, true) ∷ fw.ran in
      let ran2 : Runs = (unhook, true) ∷ ran1 in
      elim (Bool-cases fw.added_jump) [
        | inr f ↦ simp (e, f, flushes fw.ran, shutdown) (inl (chain.flushed fw.ran ip))
        | inl f ↦ elim (Bool-cases (env.succeeds ran1 unhook)) [
          | inr g ↦
              simp (e, f, g, flushes fw.ran, shutdown)
                (inl (chain.refused ran1 unhook ip ∙ chain.flushed fw.ran ip))
          | inl g ↦ elim (Bool-cases (env.succeeds ran2 delete_chain)) [
            | inl h ↦ simp (e, f, g, h, flushes fw.ran, shutdown) (inl (chain.removed ran2 ip))
            | inr h ↦
                simp (e, f, g, h, flushes fw.ran, shutdown)
                  (inl (
                    chain.refused ran2 delete_chain ip
                    ∙ (chain.unhooks ran1 ip ∙ chain.flushed fw.ran ip)))
          ]
        ]
      ]

  pub shutdown_idle : (fw : Firewall) → fw.grants ≡ none → shutdown env fw ≡ fw
  unfolding shutdown
  shutdown_idle fw e = simp (e, shutdown) refl

  -- Either way it ends shut.
  pub shutdown_closes :
      (fw : Firewall)
      → IsShut fw.ran ⊎ ((gs : List Grant) × (fw.grants ≡ some gs))
      → IsShut (shutdown env fw).ran
  shutdown_closes fw (inr (gs, e)) = shutdown-IsShut fw gs e
  shutdown_closes fw (inl p) = elim (Option-cases fw.grants) [
    | inl e ↦ rw (shutdown_idle fw e) p
    | inr (gs, e) ↦ shutdown-IsShut fw gs e
  ]

-- Where `firewall_init` succeeds there is a table.
pub init_table :
    (env : Env) (s : Settings) (allocated : Bool)
    → (init env s allocated fresh).0 ≡ ok
    → (gs : List Grant) × ((init env s allocated fresh).1.grants ≡ some gs)
unfolding init hook exec
init_table env s allocated e = elim (Option-cases (init env s allocated fresh).1.grants) [
  | inl f ↦ absurd (ground arith)
  | inr p ↦ p
]
