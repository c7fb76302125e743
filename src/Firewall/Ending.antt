-- ===== src/Firewall/Ending.antt =====
-- Why a grant ends: what `firewall_open` for others and `firewall_tick` do to the grants of an
-- address, and to the number of grants that are due by some time.
use knockd.Prelude.{
  ℕ, zero, suc, ◌+◌, ◌≤◌, ◌<◌, ◌≡◌, ◌≢◌, refl, sym, subst, inl, inr, true, false, Option, some,
  List, [], ◌∷◌, length, get_or, set, All, All-set, set-set, get_or-set_self, Bool-cases, arith,
}
use knockd.Settings.{Settings}
use knockd.Firewall.{
  Env, insert_grant, Grant, Firewall, zeroed, is_due, reserve, open_in, open_grant,
}
use knockd.Firewall.Ledger.{
  held, holds, one_if, absent, present, find_grant_lem, taken, unused, find_slot_lem,
}
use knockd.Firewall.Tick.{dues, Ended}

-- The grants of the address run out at times for which `Q` holds.
abbrev pub RunsOut : (ℕ → Type 0) → ℕ → List Grant → Type 0
RunsOut Q ip gs = All (λ g. holds g ip ≡ true → Q g.expires_at) gs

pub Ended-RunsOut :
    (Q : ℕ → Type 0) (now ip : ℕ) (gs gs' : List Grant)
    → Ended now gs gs'
    → RunsOut Q ip gs
    → RunsOut Q ip gs'
Ended-RunsOut Q now ip [] [] e r = tt
Ended-RunsOut Q now ip [] (h ∷ hs) e r = elim e [ ]
Ended-RunsOut Q now ip (g ∷ gs) [] e r = elim e [ ]
Ended-RunsOut Q now ip (g ∷ gs) (h ∷ hs) (inl k, e) r = (
  subst (λ x. holds x ip ≡ true → Q x.expires_at) (sym k) r.0,
  Ended-RunsOut Q now ip gs hs e r.1,
)
Ended-RunsOut Q now ip (g ∷ gs) (h ∷ hs) (inr (d, k), e) r =
    ((λ a. absurd (ground (arith, k))), Ended-RunsOut Q now ip gs hs e r.1)

due_later : (now by : ℕ) (g : Grant) → now ≤ by → is_due now g ≡ true → is_due by g ≡ true
unfolding is_due
due_later now by g l d = ground arith

-- A tick that reads the time `now` takes as many from the grants due by a later time.
pub Ended-dues :
    (now by : ℕ) (gs gs' : List Grant)
    → now ≤ by
    → Ended now gs gs'
    → dues by gs' + dues now gs ≡ dues by gs + dues now gs'
unfolding dues is_due
Ended-dues now by [] [] l e = refl
Ended-dues now by [] (h ∷ hs) l e = elim e [ ]
Ended-dues now by (g ∷ gs) [] l e = elim e [ ]
Ended-dues now by (g ∷ gs) (h ∷ hs) l (inl k, e) = rw k (omega (arith, Ended-dues now by gs hs l e))
Ended-dues now by (g ∷ gs) (h ∷ hs) l (inr (d, k), e) =
    rw (k, d, due_later now by g l d) (omega (arith, Ended-dues now by gs hs l e))

holds_due :
    (ip t now : ℕ) (g : Grant)
    → (holds g ip ≡ true → g.expires_at ≤ t)
    → t ≤ now
    → one_if (holds g ip) ≤ one_if (is_due now g)
unfolding is_due
holds_due ip t now g r l = elim (Bool-cases (holds g ip)) [
  | inl h ↦ let u = r h in ground arith
  | inr h ↦ rw h (omega arith)
]

-- From the time on by which they all run out, the grants of the address are due.
pub held-dues :
    (ip t now : ℕ) (gs : List Grant)
    → RunsOut (λ u. u ≤ t) ip gs
    → t ≤ now
    → held ip gs ≤ dues now gs
unfolding held dues
held-dues ip t now [] r l = omega arith
held-dues ip t now (g ∷ gs) r l =
    omega (arith, holds_due ip t now g r.0 l, held-dues ip t now gs r.1 l)

-- An address whose grants would run out at no time has none.
pub held_none : (ip : ℕ) (gs : List Grant) → RunsOut (λ u. ⊥) ip gs → held ip gs ≡ 0
unfolding held
held_none ip [] r = refl
held_none ip (g ∷ gs) r = elim (Bool-cases (holds g ip)) [
  | inl h ↦ absurd (r.0 h)
  | inr h ↦ rw h (omega (arith, held_none ip gs r.1))
]

pub none_RunsOut : (ip : ℕ) (gs : List Grant) → held ip gs ≡ 0 → RunsOut (λ u. ⊥) ip gs
unfolding held
none_RunsOut ip [] e = tt
none_RunsOut ip (g ∷ gs) e = ((λ h. absurd (ground arith)), none_RunsOut ip gs (omega arith))

pub dues-le-length : (by : ℕ) (gs : List Grant) → dues by gs ≤ length gs
unfolding dues
dues-le-length by [] = omega arith
dues-le-length by (g ∷ gs) = ground (arith, dues-le-length by gs)

dues-set :
    (by : ℕ) (gs : List Grant) (i : ℕ) (g : Grant)
    → is_due by g ≡ false
    → dues by (set gs i g) ≤ dues by gs
unfolding dues
dues-set by [] i g d = omega arith
dues-set by (x ∷ gs) zero g d = rw d (omega arith)
dues-set by (x ∷ gs) (suc i) g d = omega (arith, dues-set by gs i g d)

-- What opening for another address leaves: the grants of the address run out as before, and no
-- more grants are due by a time before the new one's end.
pub record IsKept (Q : ℕ → Type 0) (ip by : ℕ) (gs : List Grant) (o : Option (List Grant))
    : Type 0 where
  pub grants : List Grant
  pub table : o ≡ some grants
  pub runs_out : RunsOut Q ip grants
  pub no_more_due : dues by grants ≤ dues by gs

set-IsKept :
    (Q : ℕ → Type 0) (ip by : ℕ) (gs : List Grant) (i : ℕ) (g : Grant)
    → RunsOut Q ip gs
    → holds g ip ≡ false
    → is_due by g ≡ false
    → IsKept Q ip by gs (some (set gs i g))
set-IsKept Q ip by gs i g r h d = record {
  grants = set gs i g;
  table = refl;
  runs_out =
      All-set (λ x. holds x ip ≡ true → Q x.expires_at) gs i g r (λ k. absurd (ground (arith, k)));
  no_more_due = dues-set by gs i g d;
}

module _ (Q : ℕ → Type 0) (env : Env) (ip by j until : ℕ) (ne : ip ≢ j) (l : by < until) where
  reserve-IsKept :
      (gs : List Grant) (i : ℕ) (fw : Firewall)
      → i < length gs
      → RunsOut Q ip gs
      → IsKept Q ip by gs (reserve env j until gs i fw).1.grants
  unfolding reserve is_due
  reserve-IsKept gs i fw k r =
      let new : Grant = record { ip = j; expires_at = until; active = true } in
      elim (Bool-cases (env.succeeds fw.ran (insert_grant j))) [
        | inl e ↦ rw e (set-IsKept Q ip by gs i new r (ground arith) (ground arith))
        | inr e ↦
            rw (e, set-set gs i, get_or-set_self gs i new zeroed k)
              (set-IsKept Q ip by gs i (record new { active = false }) r refl refl)
      ]

  open_in-IsKept :
      (gs : List Grant) (fw : Firewall)
      → fw.grants ≡ some gs
      → RunsOut Q ip gs
      → IsKept Q ip by gs (open_in env j until gs fw).1.grants
  unfolding open_in is_due
  open_in-IsKept gs fw t r = elim (find_grant_lem gs j) [
    | present i e k h ↦
        let g = record (get_or gs i zeroed) { expires_at = until } in
        rw (e, open_in) (set-IsKept Q ip by gs i g r (ground arith) (ground arith))
    | absent e z ↦ elim (find_slot_lem gs) [
      | taken n a ↦
          rw (e, n, open_in)
            (record { grants = gs; table = t; runs_out = r; no_more_due = omega arith })
      | unused i n k a ↦ rw (e, n, open_in) (reserve-IsKept gs i fw k r)
    ]
  ]

pub open_grant-IsKept :
    (Q : ℕ → Type 0) (env : Env) (s : Settings) (ip by now j : ℕ) (gs : List Grant) (fw : Firewall)
    → fw.grants ≡ some gs
    → ip ≢ j
    → by < now + s.access_timeout
    → RunsOut Q ip gs
    → IsKept Q ip by gs (open_grant env s now j fw).1.grants
unfolding open_grant
open_grant-IsKept Q env s ip by now j gs fw t ne l r = elim (Bool-cases (env.formats j)) [
  | inl f ↦
      simp (t, f, open_grant) (open_in-IsKept Q env ip by j (now + s.access_timeout) ne l gs fw t r)
  | inr f ↦
      simp (t, f, open_grant)
        (record { grants = gs; table = refl; runs_out = r; no_more_due = omega arith })
]
