-- ===== src/Knocker/Entry.antt =====
-- One entry of the client table under one knock.
use knockd.Prelude.{ℕ, ◌-◌, ◌<◌, ◌≡◌, ◌≢◌, ◌⊎◌, true, false, arith}
use knockd.Settings.{Settings, IsValid, knock_port, knock_seq_len}
use knockd.Knocker.{KnockClient, in_progress, advance, match_port, expired, is_retransmit, claimed}

-- An entry partway through the sequence.
pub record IsPartway (s : Settings) (c : KnockClient) : Type 0 where
  pub started : 0 < c.current_step
  pub unfinished : c.current_step < knock_seq_len s
  pub last : c.last_port ≡ knock_port s (c.current_step - 1)

-- An entry in use is partway through.
abbrev pub EntryInv : Settings → KnockClient → Type 0
EntryInv s c = c.active ≡ true → IsPartway s c

pub advance-ip :
    (s : Settings) (now port : ℕ) (c : KnockClient) → (advance s now port c).1.ip ≡ c.ip
unfolding advance match_port expired is_retransmit
advance-ip s now port c = ground arith

-- An entry stays in use exactly when the answer is KNOCK_IN_PROGRESS.
pub advance-active :
    (s : Settings) (now port : ℕ) (c : KnockClient)
    → c.active ≡ true
    → ((advance s now port c).0 ≡ in_progress) × ((advance s now port c).1.active ≡ true)
      ⊎ ((advance s now port c).0 ≢ in_progress) × ((advance s now port c).1.active ≡ false)
unfolding advance match_port expired is_retransmit
advance-active s now port c a = ground arith

module _ (s : Settings) (v : IsValid s) (now port : ℕ) where
  -- The first knock of a sequence, on the entry just claimed.
  pub advance-claimed :
      (ip : ℕ)
      → port ≡ knock_port s 0
      → advance s now port (claimed ip) ≡ (
        in_progress,
        record { ip = ip; current_step = 1; last_knock = now; last_port = port; active = true },
      )
  unfolding advance match_port expired is_retransmit claimed
  advance-claimed ip e = ground (arith, v.nonzero 0, v.long_enough)

  pub advance-IsPartway : (c : KnockClient) → IsPartway s c → EntryInv s (advance s now port c).1
  unfolding advance match_port expired is_retransmit
  advance-IsPartway c p = ground (arith, v.long_enough)
