-- ===== src/Main/BannerTests.antt =====
-- The startup summary at concrete configurations, and the theorems about it.
use knockd.Prelude.{ℕ, ◌∷◌, [], ◌≡◌, refl, List, All, arith, bytes}
use knockd.Config.{defaults}
use knockd.Main.Banner.{
  format_knock_sequence, print_banner, format_from, print_digits, print_unsigned,
}
use knockd.Main.Banner.Digits.{Prints}
use knockd.Main.Banner.Sequence.{joined, format_knock_sequence-joined}
use knockd.Main.Banner.Hidden.{print_banner-hidden}

abbrev ports : List ℕ
ports = 7000 ∷ 65535 ∷ 9 ∷ []

text : format_knock_sequence 160 ports ≡ bytes "7000 -> 65535 -> 9"
unfolding format_knock_sequence format_from print_digits
text = refl

-- A buffer of ten bytes cuts the text.
cut_text : format_knock_sequence 10 ports ≡ bytes "7000 -> 6"
unfolding format_knock_sequence format_from print_digits
cut_text = refl

format_knock_sequence-joined_example :
    (format_knock_sequence 160 ports ≡ joined [] ports)
    × All (λ p. Prints p (print_unsigned p)) ports
format_knock_sequence-joined_example =
    format_knock_sequence-joined ports (ground arith) (omega arith)

print_banner-hidden_example :
    print_banner (bytes "2.0") (record defaults { knock_sequence = ports })
    ≡ print_banner (bytes "2.0") defaults
print_banner-hidden_example = print_banner-hidden (bytes "2.0") defaults ports (ground arith)
