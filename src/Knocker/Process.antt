-- ===== src/Knocker/Process.antt =====
-- What one call of `process_locked` does to the table.
use knockd.Prelude.{
  ℕ, ◌+◌, ◌<◌, ◌≡◌, ◌≢◌, refl, ◌⊎◌, inl, inr, true, false, Option, none, some, length, get_or, set,
  arith, ◌==◌, Bool-cases, get_or-set_self, set-set,
}
use knockd.Settings.{Settings, IsValid, knock_port}
use knockd.Knocker.{
  KnockClient, KnockResult, Table, zeroed, in_progress, reset, advance, advance_at, alloc_client,
  claimed, process_locked, find_client,
}
use knockd.Knocker.Table.{tracked, absent, present, find_client_lem}
use knockd.Knocker.Alloc.{Allocated, refused, unused, reused, AllLive, alloc_client_lem}
use knockd.Knocker.Entry.{advance-claimed}

-- The entry after the first knock of a sequence.
abbrev pub first_knock : ℕ → ℕ → ℕ → KnockClient
first_knock now ip port = record {
  ip = ip;
  current_step = 1;
  last_knock = now;
  last_port = port;
  active = true;
}

abbrev pub Outcome : Type 0
Outcome = KnockResult × Table

-- `advance` on the entry of slot `i`.
abbrev pub advanced_in : Settings → ℕ → ℕ → Table → ℕ → Outcome
advanced_in s now port cs i = (
  (advance s now port (get_or cs i zeroed)).0,
  set cs i (advance s now port (get_or cs i zeroed)).1,
)

-- The ways in which a knock ends.
pub data Processed (s : Settings) (now later : ℕ) (cs : Table) (ip port : ℕ) (o : Outcome)
    : Type 0 where
  noise :
      tracked cs ip ≡ none
      → port ≢ knock_port s 0
      → o ≡ (reset, cs)
      → Processed s now later cs ip port o
  crowded :
      tracked cs ip ≡ none
      → AllLive s later cs
      → o ≡ (reset, cs)
      → Processed s now later cs ip port o
  started :
      (i : ℕ)
      → tracked cs ip ≡ none
      → port ≡ knock_port s 0
      → i < length cs
      → ((get_or cs i zeroed).active ≡ false)
        ⊎ ((get_or cs i zeroed).last_knock + s.knock_window < later)
      → o ≡ (in_progress, set cs i (first_knock now ip port))
      → Processed s now later cs ip port o
  advanced :
      (i : ℕ)
      → i < length cs
      → tracked cs ip ≡ some (get_or cs i zeroed)
      → (get_or cs i zeroed).active ≡ true
      → (get_or cs i zeroed).ip ≡ ip
      → o ≡ advanced_in s now port cs i
      → Processed s now later cs ip port o

module _ (s : Settings) (now later : ℕ) (cs : Table) (ip port : ℕ) where
  process-found :
      (i : ℕ)
      → find_client cs ip ≡ some i
      → process_locked s now later cs ip port ≡ advanced_in s now port cs i
  unfolding process_locked advance_at
  process-found i e = rw (e, process_locked) refl

  process-noise :
      find_client cs ip ≡ none
      → (port == knock_port s 0) ≡ false
      → process_locked s now later cs ip port ≡ (reset, cs)
  unfolding process_locked
  process-noise e h = rw (e, process_locked) (rw h refl)

  process-crowded :
      find_client cs ip ≡ none
      → (port == knock_port s 0) ≡ true
      → alloc_client s later cs ≡ none
      → process_locked s now later cs ip port ≡ (reset, cs)
  unfolding process_locked
  process-crowded e h a = rw (e, process_locked) (rw (h, a) refl)

  process-new :
      (i : ℕ)
      → IsValid s
      → find_client cs ip ≡ none
      → (port == knock_port s 0) ≡ true
      → alloc_client s later cs ≡ some i
      → i < length cs
      → process_locked s now later cs ip port ≡ (in_progress, set cs i (first_knock now ip port))
  unfolding process_locked advance_at
  process-new i v e h a l =
      rw (e, process_locked)
        (rw (h, a)
          (simp (get_or-set_self cs i (claimed ip) zeroed l)
            (rw (advance-claimed s v now port ip (ground arith), set-set cs i) refl)))

  Allocated-Processed :
      {r : Option ℕ}
      → IsValid s
      → find_client cs ip ≡ none
      → tracked cs ip ≡ none
      → (port == knock_port s 0) ≡ true
      → Allocated s later cs r
      → alloc_client s later cs ≡ r
      → Processed s now later cs ip port (process_locked s now later cs ip port)
  Allocated-Processed v e t h (refused l) a = crowded t l (process-crowded e h a)
  Allocated-Processed v e t h (unused i l u) a =
      started i t (ground arith) l (inl u) (process-new i v e h a l)
  Allocated-Processed v e t h (reused i l acts old u) a =
      started i t (ground arith) l (inr u) (process-new i v e h a l)

  -- Every knock ends in one of four ways.
  pub process_locked_lem :
      IsValid s → Processed s now later cs ip port (process_locked s now later cs ip port)
  process_locked_lem v = elim (find_client_lem cs ip) [
    | present i e l t a k ↦ advanced i l t a k (process-found i e)
    | absent e t ↦ elim (Bool-cases (port == knock_port s 0)) [
      | inr h ↦ noise t (ground arith) (process-noise e h)
      | inl h ↦ Allocated-Processed v e t h (alloc_client_lem s later cs) refl
    ]
  ]
