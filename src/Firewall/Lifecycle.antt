-- ===== src/Firewall/Lifecycle.antt =====
-- The firewall from `firewall_init` to `firewall_shutdown`.
use knockd.Prelude.{
  ℕ, zero, suc, ◌+◌, ◌≤◌, ◌≡◌, refl, subst, ◌⊎◌, inl, inr, Bool, true, false, none, some, List, [],
  ◌∷◌, replicate, All-replicate, arith,
}
use knockd.Settings.{Settings}
use knockd.Firewall.{
  Env, add_jump, unhook, Runs, Grant, Firewall, zeroed, exec, hook, init, open_grant, close_grant,
  tick,
}
use knockd.Firewall.Ledger.{inserted, deleted, held, one_if, IsBalanced}
use knockd.Firewall.Balance.{BalancedTable, Balanced, open_grant-Balanced, close_grant-Balanced}
use knockd.Firewall.Tick.{tick-Balanced}

-- How often the jump from INPUT was inserted, and how often its deletion was run.
unfoldable pub hooked : Runs → ℕ
hooked [] = 0
hooked ((add_jump, true) ∷ h) = suc (hooked h)
hooked (_ ∷ h) = hooked h

unfoldable pub unhooked : Runs → ℕ
unhooked [] = 0
unhooked ((unhook, b) ∷ h) = suc (unhooked h)
unhooked (_ ∷ h) = unhooked h

-- The calls between the two, each with the time that it reads.
pub data Call : Type 0 where
  opens : ℕ → ℕ → Call
  closes : ℕ → Call
  ticks : ℕ → Call

abbrev pub fresh : Firewall
fresh = record { grants = none; added_jump = false; ran = [] }

module _ (env : Env) (s : Settings) where
  unfoldable pub apply : Firewall → Call → Firewall
  apply fw (opens now ip) = (open_grant env s now ip fw).1
  apply fw (closes ip) = (close_grant env ip fw).1
  apply fw (ticks now) = tick env now fw

  -- The firewall after the calls, newest first.
  unfoldable pub after : Firewall → List Call → Firewall
  after fw [] = fw
  after fw (c ∷ cs) = apply (after fw cs) c

  pub held-zeroed : (ip n : ℕ) → held ip (replicate n zeroed) ≡ 0
  unfolding held
  held-zeroed ip zero = refl
  held-zeroed ip (suc n) = omega (arith, held-zeroed ip n)

  no_books :
      (ran : Runs)
      → ((ip : ℕ) → inserted ip ran ≡ 0)
      → ((ip : ℕ) → deleted ip ran ≡ 0)
      → IsBalanced env.formats (replicate s.max_clients zeroed) ran
  no_books ran i d = record {
    books = λ ip. omega (arith, i ip, d ip, held-zeroed ip s.max_clients);
    single = λ ip. omega (arith, held-zeroed ip s.max_clients);
    printable =
        All-replicate (λ g. g.active ≡ true → env.formats g.ip ≡ true) s.max_clients zeroed
          (λ a. absurd (ground arith));
  }

  pub init-ran :
      (allocated : Bool) (ip : ℕ)
      → let fw = (init env s allocated fresh).1 in
        (inserted ip fw.ran ≡ 0)
        × (deleted ip fw.ran ≡ 0)
        × (unhooked fw.ran ≡ 0)
        × (hooked fw.ran ≡ one_if fw.added_jump)
        × ((fw.grants ≡ none) ⊎ (fw.grants ≡ some (replicate s.max_clients zeroed)))
  unfolding init hook exec inserted deleted hooked unhooked
  init-ran allocated ip = ground arith

  pub init-Balanced : (allocated : Bool) → Balanced env (init env s allocated fresh).1
  init-Balanced allocated = go (init-ran allocated 0).4
    where
      go :
          ((init env s allocated fresh).1.grants ≡ none)
            ⊎ ((init env s allocated fresh).1.grants ≡ some (replicate s.max_clients zeroed))
          → Balanced env (init env s allocated fresh).1
      go (inl e) = rw e tt
      go (inr e) = rw e (
          no_books (init env s allocated fresh).1.ran (λ ip. (init-ran allocated ip).0)
            (λ ip. (init-ran allocated ip).1))

  apply-Balanced : (fw : Firewall) (c : Call) → Balanced env fw → Balanced env (apply fw c)
  unfolding apply
  apply-Balanced fw (opens now ip) b = open_grant-Balanced env s now ip fw b
  apply-Balanced fw (closes ip) b = close_grant-Balanced env ip fw b
  apply-Balanced fw (ticks now) b = tick-Balanced env now fw b

  pub after-Balanced :
      (fw : Firewall) (cs : List Call) → Balanced env fw → Balanced env (after fw cs)
  unfolding after
  after-Balanced fw [] b = b
  after-Balanced fw (c ∷ cs) b = apply-Balanced (after fw cs) c (after-Balanced fw cs b)

  pub books_balance :
      (allocated : Bool) (cs : List Call) (gs : List Grant) (ip : ℕ)
      → (after (init env s allocated fresh).1 cs).grants ≡ some gs
      → let ran = (after (init env s allocated fresh).1 cs).ran in
        (inserted ip ran ≡ deleted ip ran + held ip gs) × (held ip gs ≤ 1)
  books_balance allocated cs gs ip e =
      let b =
        subst (λ o. BalancedTable env o (after (init env s allocated fresh).1 cs).ran) e
          (after-Balanced (init env s allocated fresh).1 cs (init-Balanced allocated)) in
      (b.books ip, b.single ip)
