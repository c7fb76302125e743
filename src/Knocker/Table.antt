-- ===== src/Knocker/Table.antt =====
-- The client table as a map from addresses to entries.
use knockd.Prelude.{
  ℕ, zero, suc, ◌<◌, ◌≡◌, refl, ◌⊎◌, inl, inr, Bool, true, false, ◌&&◌, Option, none, some, [], ◌∷◌,
  length, get_or, set, ◌==◌, if◌then◌else◌, arith, Bool-cases, All, subst, some_inj,
}
use knockd.Knocker.{KnockClient, Table, zeroed, find_client}

abbrev pub holds : KnockClient → ℕ → Bool
holds c ip = c.active && c.ip == ip

-- The entry of an address.
unfoldable pub tracked : Table → ℕ → Option KnockClient
tracked [] ip = none
tracked (c ∷ cs) ip = if holds c ip then some c else tracked cs ip

-- No address has two entries.
abbrev pub Unique : Table → Type 0
Unique [] = Unit
Unique (c ∷ cs) = (c.active ≡ true → tracked cs c.ip ≡ none) × Unique cs

-- What `find_client` says of the table.
pub data Found (cs : Table) (ip : ℕ) : Type 0 where
  absent : find_client cs ip ≡ none → tracked cs ip ≡ none → Found cs ip
  present :
      (i : ℕ)
      → find_client cs ip ≡ some i
      → i < length cs
      → tracked cs ip ≡ some (get_or cs i zeroed)
      → (get_or cs i zeroed).active ≡ true
      → (get_or cs i zeroed).ip ≡ ip
      → Found cs ip

pub find_client_lem : (cs : Table) (ip : ℕ) → Found cs ip
unfolding find_client tracked
find_client_lem [] ip = absent refl refl
find_client_lem (c ∷ cs) ip = elim (find_client_lem cs ip) [
  | absent e t ↦ elim (Bool-cases (holds c ip)) [
    | inl h ↦ present 0 (rw h refl) (omega arith) (rw h refl) (ground arith) (ground arith)
    | inr h ↦ absent (rw (h, e) refl) (rw h t)
  ]
  | present i e l t a k ↦ elim (Bool-cases (holds c ip)) [
    | inl h ↦ present 0 (rw h refl) (omega arith) (rw h refl) (ground arith) (ground arith)
    | inr h ↦ present (suc i) (rw (h, e) refl) (omega arith) (rw h t) a k
  ]
]

pub tracked-none_get :
    (cs : Table) (i ip : ℕ) → tracked cs ip ≡ none → holds (get_or cs i zeroed) ip ≡ false
unfolding tracked
tracked-none_get [] i ip e = refl
tracked-none_get (c ∷ cs) zero ip e = ground arith
tracked-none_get (c ∷ cs) (suc i) ip e = ground (arith, tracked-none_get cs i ip)

-- The entry may go to slot `i`: the address is the slot's, or nobody's.
abbrev pub Fits : Table → ℕ → KnockClient → Type 0
Fits cs i c =
    (((get_or cs i zeroed).active ≡ true) × (c.ip ≡ (get_or cs i zeroed).ip))
    ⊎ (tracked cs c.ip ≡ none)

-- A write of an entry that fits changes the map at two addresses at most.
pub tracked-set :
    (cs : Table) (i : ℕ) (c : KnockClient) (j : ℕ)
    → Unique cs
    → i < length cs
    → Fits cs i c
    → tracked (set cs i c) j
      ≡ (if holds c j then some c else if holds (get_or cs i zeroed) j then none else tracked cs j)
unfolding tracked
tracked-set [] i c j u l f = absurd (omega arith)
tracked-set (x ∷ cs) zero c j u l f = ground (arith, u.0)
tracked-set (x ∷ cs) (suc i) c j u l f =
    ground (arith, tracked-set cs i c j u.1 (omega arith), u.0, tracked-none_get cs i x.ip)

pub set-Unique :
    (cs : Table) (i : ℕ) (c : KnockClient)
    → Unique cs
    → i < length cs
    → Fits cs i c
    → Unique (set cs i c)
unfolding tracked
set-Unique [] i c u l f = absurd (omega arith)
set-Unique (x ∷ cs) zero c u l f = (λ a. fresh a f, u.1)
  where
    fresh : c.active ≡ true → Fits (x ∷ cs) zero c → tracked cs c.ip ≡ none
    fresh a (inl (h, e)) = rw e (u.0 h)
    fresh a (inr e) = ground arith
set-Unique (x ∷ cs) (suc i) c u l f = (
  λ a.
      ground
        (arith, a, u.0 a, f, tracked-set cs i c x.ip u.1 (omega arith), tracked-none_get cs i x.ip),
  set-Unique cs i c u.1 (omega arith) (tail f),
)
  where
    tail : Fits (x ∷ cs) (suc i) c → Fits cs i c
    tail (inl h) = inl h
    tail (inr e) = inr (ground arith)

pub tracked_active :
    (cs : Table) (ip : ℕ) (c : KnockClient)
    → tracked cs ip ≡ some c
    → (c.active ≡ true) × (c.ip ≡ ip)
unfolding tracked
tracked_active [] ip c e = absurd (ground arith)
tracked_active (x ∷ cs) ip c e = elim (Bool-cases (holds x ip)) [
  | inl h ↦ ground arith
  | inr h ↦ tracked_active cs ip c (rw h at e)
]

-- What holds of every entry holds of the entry of an address.
pub All-tracked {κ} :
    (P : KnockClient → Type κ) (cs : Table) (ip : ℕ) (c : KnockClient)
    → All P cs
    → tracked cs ip ≡ some c
    → P c
unfolding tracked
All-tracked P [] ip c a e = absurd (ground arith)
All-tracked P (x ∷ cs) ip c a e = elim (Bool-cases (holds x ip)) [
  | inl h ↦ subst P (some_inj (rw h at e)) a.0
  | inr h ↦ All-tracked P cs ip c a.1 (rw h at e)
]

-- The entry of a slot in use is the entry of its address.
pub tracked-get :
    (cs : Table) (i j : ℕ)
    → Unique cs
    → i < length cs
    → holds (get_or cs i zeroed) j ≡ true
    → tracked cs j ≡ some (get_or cs i zeroed)
unfolding tracked
tracked-get [] i j u l h = absurd (omega arith)
tracked-get (x ∷ cs) zero j u l h = rw h refl
tracked-get (x ∷ cs) (suc i) j u l h = ground (arith, u.0, tracked-get cs i j u.1 (omega arith) h)
