-- ===== src/Firewall/Child.antt =====
-- The child process of `run_iptables`: what its status is, and that the wait ends.
use knockd.Prelude.{
  ℕ, ◌≡◌, ◌↔◌, refl, Bool, true, false, Option, none, some, List, [], ◌∷◌, ◌==◌, if◌then◌else◌,
  arith,
}

-- One return of `waitpid`: it failed with EINTR or another error, or the child ended.
pub data Waited : Type 0 where
  interrupted wait_failed : Waited
  exited killed : ℕ → Waited

-- `WIFEXITED(status) && WEXITSTATUS(status) == 0`
abbrev pub succeeded : Waited → Bool
succeeded (exited code) = code == 0
succeeded _ = false

-- The loop on `waitpid`. `none`: still waiting after the returns given.
pub wait_child : List Waited → Option Bool
wait_child [] = none
wait_child (interrupted ∷ ws) = wait_child ws
wait_child (wait_failed ∷ ws) = some false
wait_child (exited code ∷ ws) = some (succeeded (exited code))
wait_child (killed sig ∷ ws) = some (succeeded (killed sig))

-- `run_iptables` after its log line; `forked`: `fork` succeeded.
pub run_iptables : Bool → List Waited → Option Bool
unfolding wait_child
run_iptables forked ws = if forked then wait_child ws else some false

zero_status : (w : Waited) → succeeded w ≡ true → w ≡ exited 0
zero_status interrupted e = absurd (ground arith)
zero_status wait_failed e = absurd (ground arith)
zero_status (exited code) e = ground arith
zero_status (killed sig) e = absurd (ground arith)

-- The returns of `waitpid` that end the loop, after any number of EINTR.
abbrev pub Ends : List Waited → Waited → Type 0
Ends [] w = ⊥
Ends (interrupted ∷ ws) w = Ends ws w
Ends (wait_failed ∷ ws) w = w ≡ wait_failed
Ends (exited code ∷ ws) w = w ≡ exited code
Ends (killed sig ∷ ws) w = w ≡ killed sig

wait_child-Ends : (ws : List Waited) (w : Waited) → Ends ws w → wait_child ws ≡ some (succeeded w)
unfolding wait_child
wait_child-Ends [] w h = absurd h
wait_child-Ends (interrupted ∷ ws) w h = wait_child-Ends ws w h
wait_child-Ends (wait_failed ∷ ws) w h = rw h refl
wait_child-Ends (exited code ∷ ws) w h = rw h refl
wait_child-Ends (killed sig ∷ ws) w h = rw h refl

-- Once the child has ended, `run_iptables` answers, however often the wait was interrupted, and
-- it answers 0 exactly if `fork` succeeded and the child exited with status 0.
pub run_iptables_lem :
    (forked : Bool) (ws : List Waited) (w : Waited)
    → Ends ws w
    → (r : Bool) × (run_iptables forked ws ≡ some r)
      × ((r ≡ true) ↔ ((forked ≡ true) × (w ≡ exited 0)))
unfolding run_iptables
run_iptables_lem false ws w h = (false, refl, ((λ e. absurd (ground arith)), (λ p. p.0)))
run_iptables_lem true ws w h =
    (succeeded w, wait_child-Ends ws w h, ((λ e. (refl, zero_status w e)), (λ p. rw p.1 refl)))
