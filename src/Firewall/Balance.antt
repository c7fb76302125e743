-- ===== src/Firewall/Balance.antt =====
-- Opening and closing keep the books: no address ever has two rules of the daemon's, and none
-- keeps one that the table has forgotten without its deletion being run.
use knockd.Prelude.{
  ℕ, ◌+◌, ◌≤◌, ◌<◌, ◌≡◌, refl, subst, inl, inr, Bool, true, false, Option, none, some, List, ◌∷◌,
  length, get_or, set, All-set, All-get_or, set-set, ◌==◌, Bool-cases, Option-cases, arith, ==_iff,
}
use knockd.Settings.{Settings}
use knockd.Firewall.{
  Env, insert_grant, delete_grant, Runs, Grant, Firewall, zeroed, reserve, open_in, open_grant,
  close_in, close_grant,
}
use knockd.Firewall.Ledger.{
  inserted, deleted, held, holds, held-set, one_if, absent, present, find_grant_lem, taken, unused,
  find_slot_lem, IsBalanced,
}

-- The books of a firewall balance, if it has a table.
abbrev pub BalancedTable : Env → Option (List Grant) → Runs → Type 0
BalancedTable env none ran = Unit
BalancedTable env (some gs) ran = IsBalanced env.formats gs ran

abbrev pub Balanced : Env → Firewall → Type 0
Balanced env fw = BalancedTable env fw.grants fw.ran

-- A grant extended keeps its address.
extend_books :
    (env : Env) (ip expires_at i : ℕ) (gs : List Grant) (ran : Runs)
    → i < length gs
    → IsBalanced env.formats gs ran
    → IsBalanced env.formats
        (set gs i (record (get_or gs i zeroed) { expires_at = expires_at }))
        ran
extend_books env ip expires_at i gs ran l b =
    let g = record (get_or gs i zeroed) { expires_at = expires_at } in
    record {
      books = λ j. omega (arith, b.books j, held-set j gs i g l);
      single = λ j. omega (arith, b.single j, held-set j gs i g l);
      printable =
          All-set (λ g. g.active ≡ true → env.formats g.ip ≡ true) gs i g b.printable
            (All-get_or (λ g. g.active ≡ true → env.formats g.ip ≡ true) gs i zeroed b.printable
              (λ a. absurd (ground arith)));
    }

single_new :
    (ip j : ℕ) (gs : List Grant) → held ip gs ≡ 0 → held j gs ≤ 1 → one_if (ip == j) + held j gs ≤ 1
single_new ip j gs z s = elim (Bool-cases (ip == j)) [
  | inl e ↦ rw e (omega (arith, subst (λ k. held k gs ≡ 0) ((==_iff ip j).0 e) z))
  | inr e ↦ rw e (omega arith)
]

abbrev Printable : Env → Grant → Type 0
Printable env g = g.active ≡ true → env.formats g.ip ≡ true

abbrev granted : ℕ → ℕ → Grant
granted ip expires_at = record { ip = ip; expires_at = expires_at; active = true }

-- A rule inserted for a grant in a free slot.
insert_books :
    (env : Env) (ip expires_at i : ℕ) (gs : List Grant) (ran : Runs)
    → i < length gs
    → (get_or gs i zeroed).active ≡ false
    → held ip gs ≡ 0
    → env.formats ip ≡ true
    → IsBalanced env.formats gs ran
    → IsBalanced env.formats (set gs i (granted ip expires_at)) ((insert_grant ip, true) ∷ ran)
unfolding inserted deleted
insert_books env ip expires_at i gs ran l a z f b =
    let g = granted ip expires_at in
    record {
      books = λ j. ground (arith, a, b.books j, held-set j gs i g l);
      single = λ j. ground (arith, a, single_new ip j gs z (b.single j), held-set j gs i g l);
      printable = All-set (Printable env) gs i g b.printable (λ _. f);
    }

-- A grant given back, or never there: neither the rules nor the grants change.
failed_books :
    (env : Env) (ip i : ℕ) (g : Grant) (gs : List Grant) (ran : Runs)
    → i < length gs
    → (get_or gs i zeroed).active ≡ false
    → g.active ≡ false
    → IsBalanced env.formats gs ran
    → IsBalanced env.formats (set gs i g) ((insert_grant ip, false) ∷ ran)
unfolding inserted deleted
failed_books env ip i g gs ran l a n b = record {
  books = λ j. ground (arith, a, n, b.books j, held-set j gs i g l);
  single = λ j. ground (arith, a, n, b.single j, held-set j gs i g l);
  printable = All-set (Printable env) gs i g b.printable (λ x. absurd (ground arith));
}

-- The rule of a grant deleted, and the grant with it.
delete_books :
    (env : Env) (ip i : ℕ) (r : Bool) (gs : List Grant) (ran : Runs)
    → i < length gs
    → holds (get_or gs i zeroed) ip ≡ true
    → IsBalanced env.formats gs ran
    → IsBalanced env.formats
        (set gs i (record (get_or gs i zeroed) { active = false }))
        ((delete_grant ip, r) ∷ ran)
unfolding inserted deleted
delete_books env ip i r gs ran l a b =
    let g = record (get_or gs i zeroed) { active = false } in
    record {
      books = λ j. ground (arith, a, b.books j, held-set j gs i g l);
      single = λ j. ground (arith, a, b.single j, held-set j gs i g l);
      printable = All-set (Printable env) gs i g b.printable (λ x. absurd (ground arith));
    }

reserve-Balanced :
    (env : Env) (ip expires_at : ℕ) (gs : List Grant) (i : ℕ) (fw : Firewall)
    → i < length gs
    → (get_or gs i zeroed).active ≡ false
    → held ip gs ≡ 0
    → env.formats ip ≡ true
    → IsBalanced env.formats gs fw.ran
    → Balanced env (reserve env ip expires_at gs i fw).1
unfolding reserve
reserve-Balanced env ip expires_at gs i fw l a z f b =
    elim (Bool-cases (env.succeeds fw.ran (insert_grant ip))) [
      | inl r ↦ rw r (insert_books env ip expires_at i gs fw.ran l a z f b)
      | inr r ↦ rw (r, set-set gs i) (failed_books env ip i _ gs fw.ran l a refl b)
    ]

open_in-Balanced :
    (env : Env) (ip expires_at : ℕ) (gs : List Grant) (fw : Firewall)
    → fw.grants ≡ some gs
    → env.formats ip ≡ true
    → IsBalanced env.formats gs fw.ran
    → Balanced env (open_in env ip expires_at gs fw).1
unfolding open_in
open_in-Balanced env ip expires_at gs fw t f b = elim (find_grant_lem gs ip) [
  | present i e l k ↦ rw (e, open_in) (extend_books env ip expires_at i gs fw.ran l b)
  | absent e z ↦ elim (find_slot_lem gs) [
    | taken n a ↦ rw (e, n, open_in) (rw t b)
    | unused i n l a ↦ rw (e, n, open_in) (reserve-Balanced env ip expires_at gs i fw l a z f b)
  ]
]

-- `firewall_open` keeps the books, whatever iptables does.
pub open_grant-Balanced :
    (env : Env) (s : Settings) (now ip : ℕ) (fw : Firewall)
    → Balanced env fw
    → Balanced env (open_grant env s now ip fw).1
unfolding open_grant
open_grant-Balanced env s now ip fw b = elim (Option-cases fw.grants) [
  | inl e ↦ simp (e, open_grant) tt
  | inr (gs, e) ↦ elim (Bool-cases (env.formats ip)) [
    | inr f ↦ simp (e, f, open_grant) (subst (λ o. BalancedTable env o fw.ran) e b)
    | inl f ↦
        simp (e, f, open_grant)
          (open_in-Balanced env ip (now + s.access_timeout) gs fw e f
            (subst (λ o. BalancedTable env o fw.ran) e b))
  ]
]

close_in-Balanced :
    (env : Env) (ip : ℕ) (gs : List Grant) (fw : Firewall)
    → fw.grants ≡ some gs
    → IsBalanced env.formats gs fw.ran
    → Balanced env (close_in env ip gs fw).1
unfolding close_in
close_in-Balanced env ip gs fw t b = elim (find_grant_lem gs ip) [
  | absent e z ↦ rw (e, close_in) (rw t b)
  | present i e l k ↦ elim (Bool-cases (env.succeeds fw.ran (delete_grant ip))) [
    | inl r ↦ rw (e, close_in) (rw r (delete_books env ip i true gs fw.ran l k b))
    | inr r ↦ rw (e, close_in) (rw r (delete_books env ip i false gs fw.ran l k b))
  ]
]

-- `firewall_close` keeps the books, whatever iptables does.
pub close_grant-Balanced :
    (env : Env) (ip : ℕ) (fw : Firewall) → Balanced env fw → Balanced env (close_grant env ip fw).1
unfolding close_grant
close_grant-Balanced env ip fw b = elim (Option-cases fw.grants) [
  | inl e ↦ simp (e, close_grant) tt
  | inr (gs, e) ↦ elim (Bool-cases (env.formats ip)) [
    | inr f ↦ simp (e, f, close_grant) (subst (λ o. BalancedTable env o fw.ran) e b)
    | inl f ↦
        simp (e, f, close_grant)
          (close_in-Balanced env ip gs fw e (subst (λ o. BalancedTable env o fw.ran) e b))
  ]
]
