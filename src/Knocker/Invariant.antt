-- ===== src/Knocker/Invariant.antt =====
-- The invariant of the client table, and that a knock keeps it.
use knockd.Prelude.{
  ℕ, zero, suc, ◌<◌, ◌≡◌, refl, ◌∙◌, subst, inl, inr, true, none, some, length, get_or, set,
  replicate, All, All-set, All-get_or, All-replicate, length-set, length-replicate, some_inj, arith,
}
use knockd.Settings.{Settings, IsValid, knock_port}
use knockd.Knocker.{KnockClient, Table, zeroed, process_locked, init}
use knockd.Knocker.Table.{tracked, Unique, Fits, set-Unique}
use knockd.Knocker.Entry.{EntryInv, advance-ip, advance-IsPartway}
use knockd.Knocker.Process.{
  Outcome, Processed, noise, crowded, started, advanced, first_knock, process_locked_lem,
}

-- The table has its size, every entry in use is partway through the sequence, and no address has
-- two entries.
pub record IsTable (s : Settings) (cs : Table) : Type 0 where
  pub sized : length cs ≡ s.max_clients
  pub entries : All (EntryInv s) cs
  pub unique : Unique cs

pub first_knock-EntryInv :
    (s : Settings) (now ip port : ℕ)
    → IsValid s
    → port ≡ knock_port s 0
    → EntryInv s (first_knock now ip port)
first_knock-EntryInv s now ip port v e a = record {
  started = omega arith;
  unfinished = v.long_enough;
  last = e;
}

-- A write of a good entry that fits keeps the invariant.
set-IsTable :
    (s : Settings) (cs : Table) (i : ℕ) (c : KnockClient)
    → IsTable s cs
    → i < length cs
    → EntryInv s c
    → Fits cs i c
    → IsTable s (set cs i c)
set-IsTable s cs i c t l p f = record {
  sized = length-set cs i c ∙ t.sized;
  entries = All-set (EntryInv s) cs i c t.entries p;
  unique = set-Unique cs i c t.unique l f;
}

zeroed-EntryInv : (s : Settings) → EntryInv s zeroed
zeroed-EntryInv s a = absurd (ground arith)

Processed-IsTable :
    (s : Settings) (now later : ℕ) (cs : Table) (ip port : ℕ) (o : Outcome)
    → IsValid s
    → IsTable s cs
    → Processed s now later cs ip port o
    → IsTable s o.1
Processed-IsTable s now later cs ip port o v t (noise n p e) = rw e t
Processed-IsTable s now later cs ip port o v t (crowded n l e) = rw e t
Processed-IsTable s now later cs ip port o v t (started i n p l u e) = rw e (
    set-IsTable s cs i (first_knock now ip port) t l (first_knock-EntryInv s now ip port v p)
      (inr n))
Processed-IsTable s now later cs ip port o v t (advanced i l n a k e) = rw e (
    set-IsTable s cs i _ t l
      (advance-IsPartway s v now port (get_or cs i zeroed)
        (All-get_or (EntryInv s) cs i zeroed t.entries (zeroed-EntryInv s) a))
      (inl (a, advance-ip s now port (get_or cs i zeroed))))

-- With valid settings, every knock keeps the invariant of the table.
pub process-IsTable :
    (s : Settings) (now later : ℕ) (cs : Table) (ip port : ℕ)
    → IsValid s
    → IsTable s cs
    → IsTable s (process_locked s now later cs ip port).1
process-IsTable s now later cs ip port v t =
    Processed-IsTable s now later cs ip port _ v t (process_locked_lem s now later cs ip port v)

tracked-replicate : (n ip : ℕ) → tracked (replicate n zeroed) ip ≡ none
unfolding tracked
tracked-replicate zero ip = refl
tracked-replicate (suc n) ip = tracked-replicate n ip

Unique-replicate : (n : ℕ) → Unique (replicate n zeroed)
Unique-replicate zero = tt
Unique-replicate (suc n) = ((λ a. tracked-replicate n 0), Unique-replicate n)

-- The table that `knocker_init` allocates is valid, and tracks nobody.
pub init-IsTable :
    (s : Settings) (cs : Table)
    → init s true ≡ some cs
    → IsTable s cs × ((ip : ℕ) → tracked cs ip ≡ none)
unfolding init
init-IsTable s cs e =
    subst (λ t. IsTable s t × ((ip : ℕ) → tracked t ip ≡ none)) (some_inj e)
      (
        record {
          sized = length-replicate s.max_clients zeroed;
          entries = All-replicate (EntryInv s) s.max_clients zeroed (zeroed-EntryInv s);
          unique = Unique-replicate s.max_clients;
        },
        tracked-replicate s.max_clients,
      )
