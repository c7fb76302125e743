-- ===== src/Main/Banner/Sequence.antt =====
-- `format_knock_sequence` of src/main.c against the text that it stands for.
use knockd.Prelude.{
  All-map, ℕ, zero, suc, ◌+◌, ◌-◌, ◌*◌, ◌/◌, ◌%◌, ◌^◌, ◌≤◌, ◌<◌, ◌≡◌, refl, false, List, [], ◌∷◌,
  ◌++◌, length, All, length-append, leb, arith,
}
use mathlib.Core.List.{append-nil, append_assoc}
use knockd.Main.Banner.Digits.{Prints, print_unsigned-Prints, tenfold}
use knockd.Main.Banner.{print_digits, print_unsigned, arrow, format_from, format_knock_sequence}

-- The ports with arrows between them, the first behind `sep`.
unfoldable pub joined : List ℕ → List ℕ → List ℕ
joined sep [] = []
joined sep (port ∷ ports) = sep ++ (print_unsigned port ++ joined arrow ports)

length-print_digits : (room k n : ℕ) → n < 10 ^ k → 1 ≤ k → length (print_digits room n) ≤ k
unfolding print_digits
length-print_digits zero k n h l = omega arith
length-print_digits (suc room) zero n h l = absurd (omega arith)
length-print_digits (suc room) (suc zero) n h l = ground arith
length-print_digits (suc room) (suc (suc k)) n h l =
    let e = tenfold (suc k) in
    let ih = length-print_digits room (suc k) (n / 10) (omega arith) (omega arith) in
    let more = length-append (print_digits room (n / 10)) ((48 + n % 10) ∷ []) in ground arith

-- A port takes five digits at most.
abbrev pub IsPort : ℕ → Type 0
IsPort p = p < 65536

length-print_unsigned : (n : ℕ) → IsPort n → length (print_unsigned n) ≤ 5
length-print_unsigned n h = length-print_digits 10 5 n (omega arith) (omega arith)

-- Where the buffer has room for nine characters for each port that is left, nothing is cut.
format_from-joined :
    (buflen : ℕ) (out sep ports : List ℕ)
    → All IsPort ports
    → length sep ≤ 4
    → length out + 9 * length ports < buflen
    → format_from buflen out sep ports ≡ out ++ joined sep ports
unfolding format_from joined
format_from-joined buflen out sep [] h k l = rw append-nil
format_from-joined buflen out sep (port ∷ ports) h k l =
    let chunk = sep ++ print_unsigned port in
    let short = length-print_unsigned port h.0 in
    let l1 = length-append sep (print_unsigned port) in
    let l2 = length-append out chunk in
    let ih = format_from-joined buflen (out ++ chunk) arrow ports h.1 (omega arith) (omega arith) in
    let fits : leb (buflen - length out) (length chunk) ≡ false = ground arith in
    simp (fits, ih, append_assoc) refl

ports-Prints : (ports : List ℕ) → All IsPort ports → All (λ p. Prints p (print_unsigned p)) ports
ports-Prints ports h =
    All-map IsPort (λ p. Prints p (print_unsigned p)) ports
      (λ p l. print_unsigned-Prints p (omega (arith, l))) h

-- For a sequence of sixteen ports at most, as `config_validate` leaves it, the buffer of the banner
-- is big enough: the text is that of all the ports, in order, with arrows between them, and each of
-- them stands there in decimal, without zeros in front.
pub format_knock_sequence-joined :
    (ports : List ℕ)
    → All IsPort ports
    → length ports ≤ 16
    → (format_knock_sequence 160 ports ≡ joined [] ports)
      × All (λ p. Prints p (print_unsigned p)) ports
unfolding format_knock_sequence
format_knock_sequence-joined ports h l =
    (format_from-joined 160 [] [] ports h (omega arith) (omega arith), ports-Prints ports h)
