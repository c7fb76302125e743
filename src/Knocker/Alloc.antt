-- ===== src/Knocker/Alloc.antt =====
-- `alloc_client`: which slot a new client gets, and when there is none.
use knockd.Prelude.{
  ℕ, suc, ◌+◌, ◌≤◌, ◌<◌, ◌≡◌, refl, sym, ap, ◌∙◌, subst, some_inj, ◌⊎◌, inl, inr, true, false,
  Option, none, some, [], ◌∷◌, length, get_or, All, ltb, leb, arith, Bool-cases,
}
use knockd.Settings.{Settings}
use knockd.Knocker.{KnockClient, Table, zeroed, Scan, free, full, older, scan, claim, alloc_client}

-- The entry is not older than the one found.
abbrev NotNewer : Option (ℕ × ℕ) → KnockClient → Type 0
NotNewer none c = ⊥
NotNewer (some (j, t)) c = t ≤ c.last_knock

abbrev NotLater : Option (ℕ × ℕ) → Option (ℕ × ℕ) → Type 0
NotLater o none = Unit
NotLater none (some b) = ⊥
NotLater (some (j, t)) (some (k, u)) = t ≤ u

-- It is the entry of a slot, counted from `i`.
abbrev InTable : Table → ℕ → Option (ℕ × ℕ) → Type 0
InTable cs i o =
    (j : ℕ) × (k : ℕ) × (j ≡ i + k)
    × (k < length cs)
    × (o ≡ some (j, (get_or cs k zeroed).last_knock))

-- The loop from slot `i` on, with the oldest entry so far, ends as it does.
data Scanned (cs : Table) (i : ℕ) (oldest : Option (ℕ × ℕ)) : Scan → Type 0 where
  at_free :
      (j k : ℕ)
      → j ≡ i + k
      → k < length cs
      → (get_or cs k zeroed).active ≡ false
      → Scanned cs i oldest (free j)
  at_end :
      (o : Option (ℕ × ℕ))
      → All (λ c. c.active ≡ true) cs
      → All (NotNewer o) cs
      → NotLater o oldest
      → (o ≡ oldest) ⊎ InTable cs i o
      → Scanned cs i oldest (full o)

NotNewer-mono :
    (o p : Option (ℕ × ℕ)) (c : KnockClient) → NotLater o p → NotNewer p c → NotNewer o c
NotNewer-mono o none c h n = absurd n
NotNewer-mono none (some p) c h n = absurd h
NotNewer-mono (some (j, t)) (some (k, u)) c h n = omega arith

older_lem :
    (i : ℕ) (c : KnockClient) (o : Option (ℕ × ℕ))
    → NotNewer (older i c o) c
      × NotLater (older i c o) o
      × ((older i c o ≡ o) ⊎ (older i c o ≡ some (i, c.last_knock)))
unfolding older
older_lem i c none = (omega arith, tt, inr refl)
older_lem i c (some (j, t)) = elim (Bool-cases (ltb c.last_knock t)) [
  | inl h ↦ rw h (omega arith, ground arith, inr refl)
  | inr h ↦ rw h (ground arith, omega arith, inl refl)
]

NotLater-trans : (o p q : Option (ℕ × ℕ)) → NotLater o p → NotLater p q → NotLater o q
NotLater-trans o p none h k = tt
NotLater-trans o none (some q) h k = absurd k
NotLater-trans none (some p) (some q) h k = absurd h
NotLater-trans (some o) (some p) (some q) h k = omega arith

NotLater-refl : (o : Option (ℕ × ℕ)) → NotLater o o
NotLater-refl none = tt
NotLater-refl (some (j, t)) = omega arith

-- One more slot, taken, in front of the loop.
shift :
    (c : KnockClient) (cs : Table) (i : ℕ) (oldest : Option (ℕ × ℕ)) {r : Scan}
    → c.active ≡ true
    → Scanned cs (i + 1) (older i c oldest) r
    → Scanned (c ∷ cs) i oldest r
shift c cs i oldest a (at_free j k e l h) = at_free j (suc k) (omega arith) (omega arith) h
shift c cs i oldest a (at_end o acts ns h w) =
    let old = older_lem i c oldest in
    at_end o (a, acts) (NotNewer-mono o _ c h old.0, ns) (NotLater-trans o _ oldest h old.1)
      (found w)
  where
    found : (o ≡ older i c oldest) ⊎ InTable cs (i + 1) o → (o ≡ oldest) ⊎ InTable (c ∷ cs) i o
    found (inr (j, k, e, l, p)) = inr (j, suc k, omega arith, omega arith, p)
    found (inl e) = first (older_lem i c oldest).2
      where
        first :
            (older i c oldest ≡ oldest) ⊎ (older i c oldest ≡ some (i, c.last_knock))
            → (o ≡ oldest) ⊎ InTable (c ∷ cs) i o
        first (inl p) = inl (e ∙ p)
        first (inr p) = inr (i, 0, omega arith, omega arith, e ∙ p)

scan-Scanned :
    (cs : Table) (i : ℕ) (oldest : Option (ℕ × ℕ)) → Scanned cs i oldest (scan cs i oldest)
unfolding scan
scan-Scanned [] i oldest = at_end oldest tt tt (NotLater-refl oldest) (inl refl)
scan-Scanned (c ∷ cs) i oldest = elim (Bool-cases c.active) [
  | inl a ↦ simp a (shift c cs i oldest a (scan-Scanned cs (i + 1) (older i c oldest)))
  | inr a ↦ simp a (at_free i 0 (omega arith) (omega arith) a)
]

-- Every slot is taken by a live sequence.
abbrev pub AllLive : Settings → ℕ → Table → Type 0
AllLive s now cs = All (λ c. (c.active ≡ true) × (now ≤ c.last_knock + s.knock_window)) cs

-- What the result of `alloc_client` says.
pub data Allocated (s : Settings) (now : ℕ) (cs : Table) : Option ℕ → Type 0 where
  refused : AllLive s now cs → Allocated s now cs none
  unused :
      (i : ℕ) → i < length cs → (get_or cs i zeroed).active ≡ false → Allocated s now cs (some i)
  reused :
      (i : ℕ)
      → i < length cs
      → All (λ c. c.active ≡ true) cs
      → All (λ c. (get_or cs i zeroed).last_knock ≤ c.last_knock) cs
      → (get_or cs i zeroed).last_knock + s.knock_window < now
      → Allocated s now cs (some i)

-- With an entry that is not older than any other still in its window, every entry is.
all_live :
    (s : Settings) (now t : ℕ) (cs : Table)
    → now ≤ t + s.knock_window
    → All (λ c. c.active ≡ true) cs
    → All (λ c. t ≤ c.last_knock) cs
    → AllLive s now cs
all_live s now t [] h acts ns = tt
all_live s now t (c ∷ cs) h acts ns = ((acts.0, omega arith), all_live s now t cs h acts.1 ns.1)

no_entry : (s : Settings) (now : ℕ) (cs : Table) → All (NotNewer none) cs → AllLive s now cs
no_entry s now [] ns = tt
no_entry s now (c ∷ cs) ns = absurd ns.0

claim-Allocated :
    (s : Settings) (now : ℕ) (cs : Table) {r : Scan}
    → Scanned cs 0 none r
    → Allocated s now cs (claim s now r)
unfolding claim
claim-Allocated s now cs (at_free j k e l h) =
    unused j (omega arith) (subst (λ n. (get_or cs n zeroed).active ≡ false) (omega arith) h)
claim-Allocated s now cs (at_end none acts ns h w) = refused (no_entry s now cs ns)
claim-Allocated s now cs (at_end (some (j, t)) acts ns h (inl e)) = absurd (ground (arith, e))
claim-Allocated s now cs (at_end (some (j, t)) acts ns h (inr (k, m, e, l, p))) =
    let at_j : m ≡ j = omega (arith, ap (λ q. q.0) (some_inj p)) in
    let its : (get_or cs j zeroed).last_knock ≡ t =
      subst (λ n. (get_or cs n zeroed).last_knock ≡ t) at_j (sym (ap (λ q. q.1) (some_inj p))) in
    elim (Bool-cases (leb now (t + s.knock_window))) [
      | inl b ↦ rw b (refused (all_live s now t cs (ground arith) acts ns))
      | inr b ↦ rw b (
          reused j (omega (arith, at_j)) acts
            (subst (λ u. All (λ c. u ≤ c.last_knock) cs) (sym its) ns) (rw its (ground arith)))
    ]

-- `alloc_client` refuses exactly when every slot is a sequence still in its window; otherwise it
-- hands out a free slot, or, in a full table, the slot of an oldest entry, which has expired.
pub alloc_client_lem :
    (s : Settings) (now : ℕ) (cs : Table) → Allocated s now cs (alloc_client s now cs)
unfolding alloc_client
alloc_client_lem s now cs = claim-Allocated s now cs (scan-Scanned cs 0 none)
