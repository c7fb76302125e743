-- ===== src/Daemon/EndsTests.antt =====
-- Client 10 has a grant, client 11 knocks the sequence, and the grant of client 10 ends.
use knockd.Prelude.{ℕ, ◌≡◌, ◌≢◌, ◌≤◌, refl, true, some, List, [], ◌∷◌, All, arith}
use knockd.Firewall
use knockd.Firewall.{insert_grant, Grant, Firewall}
use knockd.Firewall.Ledger.{held, inserted, deleted, IsBalanced}
use knockd.Firewall.Ending.{RunsOut}
use knockd.Daemon.{Daemon, Arrival, Turn, run_processor}
use knockd.Daemon.Tests.{settings, host, booted}
use knockd.Daemon.Ends.{Apart, access_ends}

abbrev ten : Grant
ten = record { ip = 10; expires_at = 130; active = true }

abbrev grants : List Grant
grants = ten ∷ Firewall.zeroed ∷ []

abbrev opened : Daemon
opened = record booted {
  firewall = record { grants = some grants; added_jump = true; ran = (insert_grant 10, true) ∷ [] };
}

abbrev knock_of : ℕ → ℕ → ℕ → Arrival
knock_of ip now port = record {
  event = record { src_ip = ip; dst_port = port };
  now = now;
  later = now;
  opened = now;
}

abbrev turns : List Turn
turns =
    record {
      arrived = knock_of 11 130 7000 ∷ knock_of 11 131 8000 ∷ [];
      ticked = 131;
      now = 131;
      swept = 131;
    }
    ∷ []

grants-IsBalanced : IsBalanced host.formats grants opened.firewall.ran
unfolding held inserted deleted
grants-IsBalanced = record {
  books = λ ip. omega arith;
  single = λ ip. ground arith;
  printable = ((λ a. refl), ((λ a. refl), tt));
}

ten_is_not_eleven : ◌≢◌ {A = ℕ} 10 11
ten_is_not_eleven = omega arith

turns-Apart : All (Apart settings 10 130) turns
turns-Apart = (
  record {
    others = ((ten_is_not_eleven, omega arith), ((ten_is_not_eleven, omega arith), tt));
    from = omega arith;
    before = omega arith;
  },
  tt,
)

grants-RunsOut : RunsOut (λ u. u ≤ 130) 10 grants
grants-RunsOut = ((λ h. omega arith), ((λ h. omega arith), tt))

access_ends_example :
    let fw = (run_processor settings host opened turns).firewall in
    (gs' : List Grant) × (fw.grants ≡ some gs')
    × (held 10 gs' ≡ 0)
    × (inserted 10 fw.ran ≡ deleted 10 fw.ran)
access_ends_example =
    access_ends settings host 10 130 opened grants turns (omega arith) refl grants-IsBalanced
      grants-RunsOut turns-Apart (omega arith)
