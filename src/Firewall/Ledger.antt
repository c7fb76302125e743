-- ===== src/Firewall/Ledger.antt =====
-- The books of the firewall: for each address, the rules inserted, the deletions run, and the grants
-- held in the table.
use knockd.Prelude.{
  ℕ, zero, suc, ◌+◌, ◌≤◌, ◌<◌, ◌≡◌, refl, inl, inr, Bool, true, false, ◌&&◌, none, some, List, [],
  ◌∷◌, length, get_or, set, All, ◌==◌, Bool-cases, arith,
}
use knockd.Firewall.{insert_grant, delete_grant, Runs, Grant, zeroed, find_grant, find_slot}

abbrev pub one_if : Bool → ℕ
one_if true = 1
one_if false = 0

-- How many rules were inserted for the address.
unfoldable pub inserted : ℕ → Runs → ℕ
inserted ip [] = 0
inserted ip ((insert_grant j, true) ∷ h) = one_if (j == ip) + inserted ip h
inserted ip (_ ∷ h) = inserted ip h

-- How many times the deletion of its rule was run.
unfoldable pub deleted : ℕ → Runs → ℕ
deleted ip [] = 0
deleted ip ((delete_grant j, b) ∷ h) = one_if (j == ip) + deleted ip h
deleted ip (_ ∷ h) = deleted ip h

abbrev pub holds : Grant → ℕ → Bool
holds g ip = g.active && g.ip == ip

-- How many grants of the table are the address's.
unfoldable pub held : ℕ → List Grant → ℕ
held ip [] = 0
held ip (g ∷ gs) = one_if (holds g ip) + held ip gs

pub held-set :
    (ip : ℕ) (gs : List Grant) (i : ℕ) (g : Grant)
    → i < length gs
    → held ip (set gs i g) + one_if (holds (get_or gs i zeroed) ip)
      ≡ held ip gs + one_if (holds g ip)
unfolding held
held-set ip [] i g l = absurd (omega arith)
held-set ip (x ∷ gs) zero g l = omega arith
held-set ip (x ∷ gs) (suc i) g l = omega (arith, held-set ip gs i g (omega arith))

-- What `find_grant` says.
pub data Found (gs : List Grant) (ip : ℕ) : Type 0 where
  absent : find_grant gs ip ≡ none → held ip gs ≡ 0 → Found gs ip
  present :
      (i : ℕ)
      → find_grant gs ip ≡ some i
      → i < length gs
      → holds (get_or gs i zeroed) ip ≡ true
      → Found gs ip

pub find_grant_lem : (gs : List Grant) (ip : ℕ) → Found gs ip
unfolding find_grant held
find_grant_lem [] ip = absent refl refl
find_grant_lem (g ∷ gs) ip = elim (Bool-cases (holds g ip)) [
  | inl h ↦ present 0 (rw h refl) (omega arith) h
  | inr h ↦ elim (find_grant_lem gs ip) [
    | absent e t ↦ absent (rw (h, e) refl) (rw (h, t) refl)
    | present i e l k ↦ present (suc i) (rw (h, e) refl) (omega arith) k
  ]
]

-- What the search for a slot says.
pub data Slot (gs : List Grant) : Type 0 where
  taken : find_slot gs ≡ none → All (λ g. g.active ≡ true) gs → Slot gs
  unused :
      (i : ℕ)
      → find_slot gs ≡ some i
      → i < length gs
      → (get_or gs i zeroed).active ≡ false
      → Slot gs

pub find_slot_lem : (gs : List Grant) → Slot gs
unfolding find_slot
find_slot_lem [] = taken refl tt
find_slot_lem (g ∷ gs) = elim (Bool-cases g.active) [
  | inr h ↦ unused 0 (simp h refl) (omega arith) h
  | inl h ↦ elim (find_slot_lem gs) [
    | taken e t ↦ taken (simp (h, e) refl) (h, t)
    | unused i e l k ↦ unused (suc i) (simp (h, e) refl) (omega arith) k
  ]
]

-- The books balance: for each address the rules inserted are those deleted and the one of its
-- grant, of which it has one at most; and every grant is for an address that formats.
pub record IsBalanced (formats : ℕ → Bool) (gs : List Grant) (ran : Runs) : Type 0 where
  pub books : (ip : ℕ) → inserted ip ran ≡ deleted ip ran + held ip gs
  pub single : (ip : ℕ) → held ip gs ≤ 1
  pub printable : All (λ g. g.active ≡ true → formats g.ip ≡ true) gs
