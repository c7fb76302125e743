-- ===== src/Main/Banner.antt =====
-- The startup summary: `format_knock_sequence` and `print_banner` of src/main.c. A buffer holds the
-- text before its NUL.
pub mod Digits
pub mod Sequence
pub mod Hidden
use knockd.Prelude.{
  ℕ, zero, suc, ◌+◌, ◌-◌, ◌/◌, ◌%◌, List, [], ◌∷◌, ◌++◌, length, take, ltb, leb, ◌==◌,
  if◌then◌else◌, ℤ, pos, negsuc, leb_ℤ, bytes, String,
}
use knockd.Settings.{Settings}
use knockd.Config.{Config, settings}

-- `%u` of an unsigned int, with room for as many digits.
unfoldable pub print_digits : ℕ → ℕ → List ℕ
print_digits zero n = []
print_digits (suc room) n =
    let more = print_digits room (n / 10) in
    if ltb n 10 then (48 + n) ∷ [] else more ++ (48 + n % 10) ∷ []

-- An unsigned int has ten digits at most.
abbrev pub print_unsigned : ℕ → List ℕ
print_unsigned n = print_digits 10 n

-- `%d`
abbrev pub print_int : ℤ → List ℕ
print_int (pos n) = print_unsigned n
print_int (negsuc n) = 45 ∷ print_unsigned (n + 1)

abbrev pub arrow : List ℕ
arrow = bytes " -> "

-- The loop, from port `i` on, with the text so far; `sep` is what stands before the next port.
unfoldable pub format_from : ℕ → List ℕ → List ℕ → List ℕ → List ℕ
format_from buflen out sep [] = out
format_from buflen out sep (port ∷ ports) =
    let chunk = sep ++ print_unsigned port in
    let room = buflen - length out in
    let rest = format_from buflen (out ++ chunk) arrow ports in
    if leb room (length chunk) then out ++ take (room - 1) chunk else rest

-- The text in `buf`; a buffer of size 0 is left alone.
unfoldable pub format_knock_sequence : ℕ → List ℕ → List ℕ
format_knock_sequence buflen ports = if buflen == 0 then [] else format_from buflen [] [] ports

abbrev pub seqbuf_size : ℕ
seqbuf_size = 160

-- "%d ports (hidden — run with -v to show them)"
unfoldable pub hidden_sequence : ℕ → List ℕ
hidden_sequence n =
    print_unsigned n
    ++ (bytes " ports (hidden " ++ (226 ∷ 128 ∷ 148 ∷ bytes " run with -v to show them)"))

-- `seqbuf`
unfoldable pub sequence_text : Config → List ℕ
sequence_text c =
    if leb_ℤ (pos 3) c.log_level
    then format_knock_sequence seqbuf_size (settings c).knock_sequence
    else take (seqbuf_size - 1) (hidden_sequence c.knock_seq_len)

abbrev pub capture_text : List ℕ → List ℕ
capture_text [] = bytes "every interface"
capture_text (c ∷ cs) = c ∷ cs

-- A label of the summary, what it is about, and the end of the line.
abbrev pub row : String → List ℕ → List ℕ → List ℕ
row label text rest = bytes label ++ (text ++ (10 ∷ rest))

-- What `print_banner` writes; the version comes from the build.
unfoldable pub print_banner : List ℕ → Config → List ℕ
print_banner version c =
    10
    ∷ row "  knockd " version (
        row "  ---------------------------------" [] (
          10
          ∷ row "    knock sequence   " (sequence_text c) (
              row "    protected port   " (print_int c.protected_port) (
                row "    access window    "
                  (print_int c.access_timeout
                    ++ (bytes "s open, "
                        ++ (print_int c.knock_window ++ bytes "s allowed between knocks")))
                  (row "    client table     " (print_int c.max_clients ++ bytes " slots")
                    (row "    capture on       " (capture_text c.knock_interface) (10 ∷ [])))))))
