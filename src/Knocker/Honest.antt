-- ===== src/Knocker/Honest.antt =====
-- What one knock does to the knocks that an entry and an answer claim: src/knocker.c on one entry.
use knockd.Prelude.{
  ℕ, suc, ◌+◌, ◌≤◌, ◌<◌, ◌≡◌, subst, inl, inr, true, false, ◌&&◌, List, [], ◌∷◌, ltb, leb, ◌==◌,
  Bool-cases, arith,
}
use knockd.Settings.{Settings, IsValid, knock_port, knock_seq_len}
use knockd.Knocker.{
  KnockClient, KnockResult, Table, complete, advance, match_port, expired, is_retransmit, Call,
  knocks, apply,
}
use knockd.Knocker.Entry.{IsPartway}

-- The calls so far, newest first.
abbrev pub History : Type 0
History = List Call

-- `Knocked s ip k t h`: among the calls of `h` are knocks of `ip` on the first `k` ports of the
-- sequence, in order, each at most the window after the one before, the last at time `t`.
pub data Knocked (s : Settings) (ip : ℕ) : ℕ → ℕ → History → Type 0 where
  none_yet : (t : ℕ) (h : History) → Knocked s ip 0 t h
  earlier : {k t : ℕ} {h : History} (c : Call) → Knocked s ip k t h → Knocked s ip k t (c ∷ h)
  next :
      {k t : ℕ} {h : History} (now later port : ℕ)
      → Knocked s ip k t h
      → port ≡ knock_port s k
      → now ≤ t + s.knock_window
      → Knocked s ip (suc k) now (knocks now later ip port ∷ h)

-- The table after the calls.
unfoldable pub table_after : Settings → Table → History → Table
table_after s cs [] = cs
table_after s cs (c ∷ h) = apply s (table_after s cs h) c

-- What an entry claims of its address is so.
abbrev pub Earned : Settings → History → KnockClient → Type 0
Earned s h c = c.active ≡ true → Knocked s c.ip c.current_step c.last_knock h

-- What the answer and the entry after a knock claim is so.
pub record Honest (s : Settings) (now ip : ℕ) (h : History) (r : KnockResult) (c : KnockClient)
    : Type 0 where
  pub done : r ≡ complete → Knocked s ip (knock_seq_len s) now h
  pub going : c.active ≡ true → Knocked s ip c.current_step c.last_knock h

module _ (s : Settings) (v : IsValid s) (now later port : ℕ) (h : History) where
  step_of : {ip j k t : ℕ} {g : History} → j ≡ k → Knocked s ip j t g → Knocked s ip k t g
  step_of {ip} {t = t} {g = g} e = subst (λ n. Knocked s ip n t g) e

  match_port-Honest :
      (c : KnockClient) (t : ℕ)
      → c.active ≡ true
      → c.current_step < knock_seq_len s
      → Knocked s c.ip c.current_step t h
      → now ≤ t + s.knock_window
      → Honest s now c.ip
          (knocks now later c.ip port ∷ h)
          (match_port s now port c).0
          (match_port s now port c).1
  unfolding match_port
  match_port-Honest c t a l k w = elim (Bool-cases (port == knock_port s c.current_step)) [
    | inl e ↦
        let k' = next now later port k (ground arith) w in
        elim (Bool-cases (leb (knock_seq_len s) (c.current_step + 1))) [
          | inl f ↦ rw (e, f) (record { done = λ _. step_of (ground arith) k'; going = λ x. cc })
          | inr f ↦ rw (e, f) (record { done = λ x. cc; going = λ _. step_of (omega arith) k' })
        ]
    | inr e ↦ elim (Bool-cases (port == knock_port s 0)) [
      | inl f ↦
          rw (e, f)
            (record {
              done = λ x. cc;
              going = λ _. next now later port (none_yet now h) (ground arith) (omega arith);
            })
      | inr f ↦ rw (e, f) (record { done = λ x. cc; going = λ x. cc })
    ]
  ]

  in_window :
      (c : KnockClient)
      → IsPartway s c
      → (ltb 0 c.current_step && expired s now c) ≡ false
      → now ≤ c.last_knock + s.knock_window
  unfolding expired
  in_window c p e = ground (arith, p.started)

  pub advance-Honest :
      (c : KnockClient)
      → c.active ≡ true
      → IsPartway s c
      → Knocked s c.ip c.current_step c.last_knock h
      → Honest s now c.ip
          (knocks now later c.ip port ∷ h)
          (advance s now port c).0
          (advance s now port c).1
  unfolding advance
  advance-Honest c a p k = elim (Bool-cases (is_retransmit now port c)) [
    | inl e ↦ rw e (record { done = λ x. cc; going = λ _. earlier _ k })
    | inr e ↦ elim (Bool-cases (ltb 0 c.current_step && expired s now c)) [
      | inl f ↦
          rw (e, f)
            (match_port-Honest (record c { current_step = 0 }) now a (omega (arith, v.long_enough))
              (none_yet now h) (omega arith))
      | inr f ↦ rw (e, f) (match_port-Honest c c.last_knock a p.unfinished k (in_window c p f))
    ]
  ]
