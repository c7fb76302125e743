-- ===== src/Main/ClosedTests.antt =====
-- A client is let in, and then the daemon stops.
use knockd.Prelude.{◌≡◌, refl, ◌⊎◌, ◌∷◌, []}
use knockd.Firewall.ChainTests.{rules, rules-IsChain}
use knockd.Main.{main}
use knockd.Main.Tests.{world}
use knockd.Main.Closed.{main_closes}

main_closes_example :
    let ran = (main world ("-v" ∷ [])).firewall.ran in (rules ran 10 ≡ 0) ⊎ (ran ≡ [])
main_closes_example = main_closes rules world ("-v" ∷ []) 10 rules-IsChain (λ ran. refl)
