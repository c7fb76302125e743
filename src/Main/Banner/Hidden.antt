-- ===== src/Main/Banner/Hidden.antt =====
-- What the startup summary of src/main.c gives away.
use knockd.Prelude.{ℕ, ◌≡◌, refl, false, List, arith, pos, leb_ℤ, ◌≤ℤ◌}
use knockd.Config.{Config}
use knockd.Main.Banner.{sequence_text, print_banner}

-- Below debug logging the summary is the same for every sequence with as many ports: it tells nothing
-- of the ports or of their order.
pub print_banner-hidden :
    (version : List ℕ) (c : Config) (ports : List ℕ)
    → c.log_level ≤ℤ pos 2
    → print_banner version (record c { knock_sequence = ports }) ≡ print_banner version c
unfolding print_banner sequence_text
print_banner-hidden version c ports h =
    let quiet : leb_ℤ (pos 3) c.log_level ≡ false = ground arith in simp quiet refl
