-- ===== src/Firewall/Jump.antt =====
-- The jump from INPUT: the daemon removes it exactly if it put it there.
use knockd.Prelude.{
  ℕ, ◌+◌, ◌≤◌, ◌≡◌, refl, ◌∙◌, ◌⊎◌, inl, inr, Bool, true, false, Option, none, some, List, [], ◌∷◌,
  Bool-cases, Option-cases, arith,
}
use knockd.Settings.{Settings}
use knockd.Firewall.{
  Env, delete_grant, Firewall, exec, hook, init, reserve, open_in, open_grant, close_in,
  close_grant, revoke, tick, shutdown, expire,
}
use knockd.Firewall.Ledger.{one_if}
use knockd.Firewall.Lifecycle.{
  hooked, unhooked, Call, opens, closes, ticks, fresh, apply, after, init-ran,
}

abbrev is_some {ℓ} : {A : Type ℓ} → Option A → Bool
is_some none = false
is_some (some a) = true

-- The jump is as it was: its flag, the commands about it, and that there is a table.
abbrev SameJump : Firewall → Firewall → Type 0
SameJump fw fw' =
    (fw'.added_jump ≡ fw.added_jump)
    × (hooked fw'.ran ≡ hooked fw.ran)
    × (unhooked fw'.ran ≡ unhooked fw.ran)
    × (is_some fw'.grants ≡ is_some fw.grants)

module _ (env : Env) (s : Settings) where
  open-SameJump : (now ip : ℕ) (fw : Firewall) → SameJump fw (open_grant env s now ip fw).1
  unfolding open_grant open_in reserve exec hooked unhooked
  open-SameJump now ip fw = ground arith

  close-SameJump : (ip : ℕ) (fw : Firewall) → SameJump fw (close_grant env ip fw).1
  unfolding close_grant close_in exec hooked unhooked
  close-SameJump ip fw = ground arith

  revoke-SameJump : (ips : List ℕ) (fw : Firewall) → SameJump fw (revoke env ips fw)
  unfolding revoke exec hooked unhooked
  revoke-SameJump [] fw = (refl, refl, refl, refl)
  revoke-SameJump (ip ∷ ips) fw = elim (Bool-cases (env.formats ip)) [
    | inl f ↦ rw (f, revoke) (revoke-SameJump ips (exec env (delete_grant ip) fw).1)
    | inr f ↦ rw (f, revoke) (revoke-SameJump ips fw)
  ]

  tick-SameJump : (now : ℕ) (fw : Firewall) → SameJump fw (tick env now fw)
  unfolding tick
  tick-SameJump now fw = elim (Option-cases fw.grants) [
    | inl e ↦ ground (arith, e)
    | inr (gs, e) ↦
        let (ips, gs') = expire now 16 gs in
        let r = revoke-SameJump ips (record fw { grants = some gs' }) in
        simp (e, tick) (r.0, r.1, r.2, r.3)
  ]

  apply-SameJump : (fw : Firewall) (c : Call) → SameJump fw (apply env s fw c)
  unfolding apply
  apply-SameJump fw (opens now ip) = open-SameJump now ip fw
  apply-SameJump fw (closes ip) = close-SameJump ip fw
  apply-SameJump fw (ticks now) = tick-SameJump now fw

  after-SameJump : (fw : Firewall) (cs : List Call) → SameJump fw (after env s fw cs)
  unfolding after
  after-SameJump fw [] = (refl, refl, refl, refl)
  after-SameJump fw (c ∷ cs) =
      let a = apply-SameJump (after env s fw cs) c in
      let b = after-SameJump fw cs in (a.0 ∙ b.0, a.1 ∙ b.1, a.2 ∙ b.2, a.3 ∙ b.3)

  init-table :
      (allocated : Bool)
      → let fw = (init env s allocated fresh).1 in
        (fw.added_jump ≡ false) ⊎ (is_some fw.grants ≡ true)
  unfolding init hook exec
  init-table allocated = ground arith

  shutdown-jump :
      (fw : Firewall)
      → (fw.added_jump ≡ false) ⊎ (is_some fw.grants ≡ true)
      → (unhooked (shutdown env fw).ran ≡ one_if fw.added_jump + unhooked fw.ran)
        × (hooked (shutdown env fw).ran ≡ hooked fw.ran)
        × ((shutdown env fw).grants ≡ none)
  unfolding shutdown exec hooked unhooked
  shutdown-jump fw h = ground arith

  -- From `firewall_init` to `firewall_shutdown`, whatever happened between: the daemon asks for the
  -- jump from INPUT to be deleted once if it inserted it, and never if it was there before; it
  -- inserts it once at most. The table is released.
  pub jump_restored :
      (allocated : Bool) (cs : List Call)
      → let fw = shutdown env (after env s (init env s allocated fresh).1 cs) in
        (unhooked fw.ran ≡ hooked fw.ran) × (hooked fw.ran ≤ 1) × (fw.grants ≡ none)
  jump_restored allocated cs =
      let fw0 = (init env s allocated fresh).1 in
      let i = init-ran env s allocated 0 in
      let a = after-SameJump fw0 cs in
      let d = shutdown-jump (after env s fw0 cs) (ground (arith, init-table allocated, a.0, a.3)) in
      (ground (arith, d, i.2, i.3, a.0, a.1, a.2), ground (arith, d, i.3, a.1), d.2)
