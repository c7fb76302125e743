-- ===== src/Knocker/Others.antt =====
-- What a knock does to the map from addresses to entries.
use knockd.Prelude.{
  ℕ, ◌+◌, ◌<◌, ◌≡◌, ◌≢◌, refl, sym, ◌∙◌, subst, ◌⊎◌, inl, inr, none, some, get_or, if◌then◌else◌,
  Bool-cases, some_inj, arith,
}
use knockd.Settings.{Settings, IsValid}
use knockd.Knocker.{KnockClient, Table, zeroed, process_locked, advance}
use knockd.Knocker.Table.{tracked, holds, Unique, Fits, tracked-set, tracked-get}
use knockd.Knocker.Entry.{advance-ip}
use knockd.Knocker.Invariant.{IsTable}
use knockd.Knocker.Process.{
  Outcome, Processed, noise, crowded, started, advanced, first_knock, process_locked_lem,
}

-- The entry of `j` is as it was, unless it had expired and its slot was taken.
abbrev pub Untouched : Settings → ℕ → Table → ℕ → Table → Type 0
Untouched s later cs j after =
    (tracked after j ≡ tracked cs j)
    ⊎ ((c : KnockClient) × (tracked cs j ≡ some c)
        × (c.last_knock + s.knock_window < later)
        × (tracked after j ≡ none))

Processed-Untouched :
    (s : Settings) (now later : ℕ) (cs : Table) (ip port j : ℕ) (o : Outcome)
    → Unique cs
    → j ≢ ip
    → Processed s now later cs ip port o
    → Untouched s later cs j o.1
Processed-Untouched s now later cs ip port j o u h (noise n p e) = rw e (inl refl)
Processed-Untouched s now later cs ip port j o u h (crowded n l e) = rw e (inl refl)
Processed-Untouched s now later cs ip port j o u h (started i n p l w e) =
    let new = first_knock now ip port in
    rw e (elim (Bool-cases (holds (get_or cs i zeroed) j)) [
      | inl b ↦ inr (
        get_or cs i zeroed,
        tracked-get cs i j u l b,
        ground arith,
        ground (arith, tracked-set cs i new j u l (inr n)),
      )
      | inr b ↦ inl (ground (arith, tracked-set cs i new j u l (inr n)))
    ])
Processed-Untouched s now later cs ip port j o u h (advanced i l n a k e) =
    let old = get_or cs i zeroed in
    let new = (advance s now port old).1 in
    rw e (
      inl (
        ground (
          arith,
          advance-ip s now port old,
          tracked-set cs i new j u l (inl (a, advance-ip s now port old)),
        )))

-- With valid settings and a valid table, a knock leaves every other address as it was, or takes
-- the slot of an entry that had expired: no flood of knocks evicts a client that is still in its
-- window.
pub process-Untouched :
    (s : Settings) (now later : ℕ) (cs : Table) (ip port j : ℕ)
    → IsValid s
    → IsTable s cs
    → j ≢ ip
    → Untouched s later cs j (process_locked s now later cs ip port).1
process-Untouched s now later cs ip port j v t h =
    Processed-Untouched s now later cs ip port j _ t.unique h
      (process_locked_lem s now later cs ip port v)

Processed-self :
    (s : Settings) (now later : ℕ) (cs : Table) (ip port : ℕ) (c : KnockClient) (o : Outcome)
    → Unique cs
    → tracked cs ip ≡ some c
    → Processed s now later cs ip port o
    → (o.0 ≡ (advance s now port c).0)
      × (tracked o.1 ip
          ≡ (if (advance s now port c).1.active then some (advance s now port c).1 else none))
Processed-self s now later cs ip port c o u t (noise n p e) = absurd (ground arith)
Processed-self s now later cs ip port c o u t (crowded n l e) = absurd (ground arith)
Processed-self s now later cs ip port c o u t (started i n p l w e) = absurd (ground arith)
Processed-self s now later cs ip port c o u t (advanced i l n a k e) =
    let same : get_or cs i zeroed ≡ c = some_inj (sym n ∙ t) in
    let new = (advance s now port (get_or cs i zeroed)).1 in
    let fits : Fits cs i new = inl (a, advance-ip s now port (get_or cs i zeroed)) in
    subst
      (λ d.
        (o.0 ≡ (advance s now port d).0)
        × (tracked o.1 ip
            ≡ (if (advance s now port d).1.active then some (advance s now port d).1 else none)))
      same
      (rw e (
        refl,
        ground (
          arith,
          k,
          advance-ip s now port (get_or cs i zeroed),
          tracked-set cs i new ip u l fits,
        ),
      ))

-- A knock from a tracked address answers as its entry alone does, and leaves the address with the
-- entry that this gives, or with none once it is no longer in use.
pub process_self :
    (s : Settings) (now later : ℕ) (cs : Table) (ip port : ℕ) (c : KnockClient)
    → IsValid s
    → IsTable s cs
    → tracked cs ip ≡ some c
    → let (r, after) = process_locked s now later cs ip port in
      let (r', c') = advance s now port c in
      (r ≡ r') × (tracked after ip ≡ (if c'.active then some c' else none))
process_self s now later cs ip port c v t e =
    Processed-self s now later cs ip port c _ t.unique e
      (process_locked_lem s now later cs ip port v)
