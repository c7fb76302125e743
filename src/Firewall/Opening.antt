-- ===== src/Firewall/Opening.antt =====
-- What `firewall_open` leaves in the table, on success and on failure.
use knockd.Prelude.{
  ℕ, zero, suc, ◌+◌, ◌≤◌, ◌<◌, ◌≡◌, ◌≢◌, refl, sym, ap, ◌∙◌, subst, ◌⊎◌, inl, inr, true, false,
  Option, none, some, List, [], ◌∷◌, length, get_or, set, All, length-set, get_or-set_self, set-set,
  if◌then◌else◌, Bool-cases, arith,
}
use knockd.Settings.{Settings}
use knockd.Firewall.{
  Env, insert_grant, Runs, Grant, Firewall, Status, ok, failed, zeroed, reserve, open_in,
  open_grant,
}
use knockd.Firewall.Ledger.{
  held, holds, held-set, absent, present, find_grant_lem, taken, unused, find_slot_lem, IsBalanced,
}
use knockd.Firewall.Balance.{BalancedTable, Balanced}

abbrev granted : ℕ → ℕ → Grant
granted ip until = record { ip = ip; expires_at = until; active = true }

-- When the address's grant runs out.
unfoldable pub expiry : ℕ → List Grant → Option ℕ
expiry ip [] = none
expiry ip (g ∷ gs) = if holds g ip then some g.expires_at else expiry ip gs

held-pos :
    (ip : ℕ) (gs : List Grant) (i : ℕ) → holds (get_or gs i zeroed) ip ≡ true → 0 < held ip gs
unfolding held
held-pos ip [] i h = absurd (ground arith)
held-pos ip (g ∷ gs) zero h = rw h (omega arith)
held-pos ip (g ∷ gs) (suc i) h = omega (arith, held-pos ip gs i h)

-- The grant in a slot is the grant of its address, if that has one only.
expiry-get :
    (ip : ℕ) (gs : List Grant) (i : ℕ)
    → i < length gs
    → holds (get_or gs i zeroed) ip ≡ true
    → held ip gs ≤ 1
    → expiry ip gs ≡ some (get_or gs i zeroed).expires_at
unfolding held expiry
expiry-get ip [] i l h s = absurd (omega arith)
expiry-get ip (g ∷ gs) zero l h s = rw h refl
expiry-get ip (g ∷ gs) (suc i) l h s =
    ground (arith, held-pos ip gs i h, expiry-get ip gs i (omega arith) h)

expiry-set_ne :
    (ip : ℕ) (gs : List Grant) (i : ℕ) (g : Grant)
    → holds (get_or gs i zeroed) ip ≡ false
    → holds g ip ≡ false
    → expiry ip (set gs i g) ≡ expiry ip gs
unfolding expiry
expiry-set_ne ip [] i g a b = refl
expiry-set_ne ip (x ∷ gs) zero g a b = rw (a, b) refl
expiry-set_ne ip (x ∷ gs) (suc i) g a b = ground (arith, expiry-set_ne ip gs i g a b)

-- The grants of all other addresses are as they were.
abbrev pub OthersKept : ℕ → List Grant → List Grant → Type 0
OthersKept ip gs gs' = (j : ℕ) → j ≢ ip → expiry j gs' ≡ expiry j gs

-- How a call of `firewall_open` ends: the grant is extended and no command is run; or its rule is
-- inserted; or there is no free slot; or the rule could not be inserted and the slot is given back.
pub data Opened (env : Env) (ip until : ℕ) (gs : List Grant) (ran : Runs)
    : Status → List Grant → Runs → Type 0 where
  extended :
      (gs' : List Grant)
      → held ip gs ≡ 1
      → expiry ip gs' ≡ some until
      → OthersKept ip gs gs'
      → Opened env ip until gs ran ok gs' ran
  inserted_rule :
      (gs' : List Grant)
      → env.succeeds ran (insert_grant ip) ≡ true
      → held ip gs ≡ 0
      → expiry ip gs' ≡ some until
      → OthersKept ip gs gs'
      → Opened env ip until gs ran ok gs' ((insert_grant ip, true) ∷ ran)
  no_slot :
      held ip gs ≡ 0 → All (λ g. g.active ≡ true) gs → Opened env ip until gs ran failed gs ran
  given_back :
      (gs' : List Grant)
      → env.succeeds ran (insert_grant ip) ≡ false
      → held ip gs ≡ 0
      → held ip gs' ≡ 0
      → OthersKept ip gs gs'
      → Opened env ip until gs ran failed gs' ((insert_grant ip, false) ∷ ran)

-- The same, of a firewall; its table stays allocated.
abbrev pub OpenedTo : Env → ℕ → ℕ → List Grant → Runs → Status × Firewall → Type 0
OpenedTo env ip until gs ran o =
    (gs' : List Grant) × (o.1.grants ≡ some gs') × Opened env ip until gs ran o.0 gs' o.1.ran

expiry-set_self :
    (ip : ℕ) (gs : List Grant) (i : ℕ) (g : Grant)
    → i < length gs
    → holds g ip ≡ true
    → held ip (set gs i g) ≤ 1
    → expiry ip (set gs i g) ≡ some g.expires_at
expiry-set_self ip gs i g l h s =
    let self = get_or-set_self gs i g zeroed l in
    expiry-get ip (set gs i g) i (omega (arith, length-set gs i g))
      (subst (λ k. holds k ip ≡ true) (sym self) h) s
    ∙ ap (λ k. some k.expires_at) self

holds_own : (ip until : ℕ) → holds (granted ip until) ip ≡ true
holds_own ip until = ground arith

-- A write of an entry of `ip`, or of none, over such an entry keeps the others'.
others-set :
    (ip : ℕ) (gs : List Grant) (i : ℕ) (g : Grant)
    → ((get_or gs i zeroed).active ≡ false) ⊎ ((get_or gs i zeroed).ip ≡ ip)
    → g.ip ≡ ip
    → OthersKept ip gs (set gs i g)
others-set ip gs i g h e j n = expiry-set_ne j gs i g (ground arith) (ground arith)

reserve-Opened :
    (env : Env) (ip until : ℕ) (gs : List Grant) (i : ℕ) (fw : Firewall)
    → i < length gs
    → (get_or gs i zeroed).active ≡ false
    → held ip gs ≡ 0
    → OpenedTo env ip until gs fw.ran (reserve env ip until gs i fw)
unfolding reserve
reserve-Opened env ip until gs i fw l a z =
    let new = granted ip until in
    let back = record new { active = false } in
    elim (Bool-cases (env.succeeds fw.ran (insert_grant ip))) [
      | inl r ↦ rw r (
        set gs i new,
        refl,
        inserted_rule (set gs i new) r z
            (expiry-set_self ip gs i new l (holds_own ip until)
              (ground (arith, a, holds_own ip until, held-set ip gs i new l)))
            (others-set ip gs i new (inl a) refl),
      )
      | inr r ↦
          rw (r, set-set gs i, get_or-set_self gs i new zeroed l)
            (
              set gs i back,
              refl,
              given_back (set gs i back) r z (ground (arith, a, held-set ip gs i back l))
                  (others-set ip gs i back (inl a) refl),
            )
    ]

holds_ip : (g : Grant) (ip : ℕ) → holds g ip ≡ true → g.ip ≡ ip
holds_ip g ip h = ground arith

open_in-Opened :
    (env : Env) (ip until : ℕ) (gs : List Grant) (fw : Firewall)
    → fw.grants ≡ some gs
    → IsBalanced env.formats gs fw.ran
    → OpenedTo env ip until gs fw.ran (open_in env ip until gs fw)
unfolding open_in
open_in-Opened env ip until gs fw t b = elim (find_grant_lem gs ip) [
  | present i e l k ↦
      let g = record (get_or gs i zeroed) { expires_at = until } in
      rw (e, open_in)
        (
          set gs i g,
          refl,
          extended (set gs i g) (omega (arith, held-pos ip gs i k, b.single ip))
              (expiry-set_self ip gs i g l k (omega (arith, held-set ip gs i g l, b.single ip)))
              (others-set ip gs i g (inr (holds_ip (get_or gs i zeroed) ip k))
                (holds_ip (get_or gs i zeroed) ip k)),
        )
  | absent e z ↦ elim (find_slot_lem gs) [
    | taken n a ↦ rw (e, n, open_in) (gs, t, no_slot z a)
    | unused i n l a ↦ rw (e, n, open_in) (reserve-Opened env ip until gs i fw l a z)
  ]
]

-- For an address that formats, on a table whose books balance: opening access answers 0 exactly
-- when the address afterwards holds one grant that runs out ACCESS_TIMEOUT seconds from now: a
-- grant that was there is extended and no command is run, and otherwise one rule is inserted. It
-- answers -1 when every slot is taken or the rule could not be inserted, and then the address has
-- no grant. No other address's grant changes.
pub open_grant_lem :
    (env : Env) (s : Settings) (now ip : ℕ) (gs : List Grant) (fw : Firewall)
    → fw.grants ≡ some gs
    → env.formats ip ≡ true
    → Balanced env fw
    → OpenedTo env ip (now + s.access_timeout) gs fw.ran (open_grant env s now ip fw)
unfolding open_grant
open_grant_lem env s now ip gs fw e f b =
    simp (e, f, open_grant)
      (open_in-Opened env ip (now + s.access_timeout) gs fw e
        (subst (λ o. BalancedTable env o fw.ran) e b))
