-- ===== src/Firewall/Asked.antt =====
-- What each call of the firewall asks iptables for.
use knockd.Prelude.{
  ℕ, ◌≡◌, ◌⊎◌, inl, inr, Bool, true, false, some, List, [], ◌∷◌, replicate, All, Bool-cases,
  Option-cases, arith,
}
use knockd.Settings.{Settings}
use knockd.Firewall.{
  Env, Firewall, zeroed, init, open_grant, open_in, reserve, exec, hook, tick, revoke, expire,
  Command, insert_grant, delete_grant, new_chain, flush_chain, check_jump, add_jump,
}

open_grant-ran :
    (env : Env) (s : Settings) (now ip : ℕ) (fw : Firewall)
    → ((open_grant env s now ip fw).1.ran ≡ fw.ran)
      ⊎ ((b : Bool) × ((open_grant env s now ip fw).1.ran ≡ (insert_grant ip, b) ∷ fw.ran))
unfolding open_grant open_in reserve exec
open_grant-ran env s now ip fw = ground arith

-- A property of the runs that holds of every command but the insertion of a rule.
abbrev pub HoldsBut : (Command × Bool → Type 0) → Type 0
HoldsBut P =
    ((ip : ℕ) (b : Bool) → P (delete_grant ip, b))
    × ((b : Bool) → P (new_chain, b))
    × ((b : Bool) → P (flush_chain, b))
    × ((b : Bool) → P (check_jump, b))
    × ((b : Bool) → P (add_jump, b))

module _ (env : Env) (s : Settings) (P : Command × Bool → Type 0) where
  pub open_grant-All :
      (now ip : ℕ) (fw : Firewall)
      → ((b : Bool) → P (insert_grant ip, b))
      → All P fw.ran
      → All P (open_grant env s now ip fw).1.ran
  open_grant-All now ip fw p h = elim (open_grant-ran env s now ip fw) [
    | inl e ↦ rw e h
    | inr (b, e) ↦ rw e (p b, h)
  ]

  revoke-All :
      (ips : List ℕ) (fw : Firewall) → HoldsBut P → All P fw.ran → All P (revoke env ips fw).ran
  unfolding revoke exec
  revoke-All [] fw p h = h
  revoke-All (ip ∷ ips) fw p h = elim (Bool-cases (env.formats ip)) [
    | inl f ↦
        rw (f, revoke)
          (revoke-All ips (exec env (delete_grant ip) fw).1 p
            (p.0 ip (env.succeeds fw.ran (delete_grant ip)), h))
    | inr f ↦ rw (f, revoke) (revoke-All ips fw p h)
  ]

  pub tick-All : (now : ℕ) (fw : Firewall) → HoldsBut P → All P fw.ran → All P (tick env now fw).ran
  unfolding tick
  tick-All now fw p h = elim (Option-cases fw.grants) [
    | inl e ↦ simp (e, tick) h
    | inr (gs, e) ↦
        let (ips, gs') = expire now 16 gs in
        simp (e, tick) (revoke-All ips (record fw { grants = some gs' }) p h)
  ]

  hook-All : (fw : Firewall) → HoldsBut P → All P fw.ran → All P (hook env fw).1.ran
  unfolding hook exec
  hook-All fw p h = elim (Bool-cases (env.succeeds fw.ran check_jump)) [
    | inl e ↦ simp e (p.3 true, h)
    | inr e ↦ elim (Bool-cases (env.succeeds ((check_jump, false) ∷ fw.ran) add_jump)) [
      | inl f ↦ simp (e, f) (p.4 true, (p.3 false, h))
      | inr f ↦ simp (e, f) (p.4 false, (p.3 false, h))
    ]
  ]

  pub init-All :
      (allocated : Bool) (fw : Firewall)
      → HoldsBut P
      → All P fw.ran
      → All P (init env s allocated fw).1.ran
  unfolding init exec
  init-All false fw p h = h
  init-All true fw p h =
      let made = env.succeeds fw.ran new_chain in
      let g = replicate s.max_clients zeroed in
      elim (Bool-cases (env.succeeds ((new_chain, made) ∷ fw.ran) flush_chain)) [
        | inl e ↦ simp e (
            hook-All
              (record fw {
                grants = some g;
                ran = (flush_chain, true) ∷ (new_chain, made) ∷ fw.ran;
              })
              p (p.2 true, (p.1 made, h)))
        | inr e ↦ simp e (p.2 false, (p.1 made, h))
      ]
