-- ===== src/Utils/Hex.antt =====
-- `debug_hex` of utils/debug.c: a buffer in hexadecimal and as text.
pub mod Reads
use bspd.Common.{
  ℕ, suc, ◌+◌, ◌-◌, ◌/◌, ◌%◌, ◌^◌, Bool, ◌&&◌, Option, none, some, List, [], ◌∷◌, ◌++◌, ◌==◌, ltb,
  leb, if◌then◌else◌, Bytes, codes, length, decimal,
}

-- "%02X" of a byte.
unfoldable pub hex_digit : ℕ → ℕ
hex_digit n = if ltb n 10 then b'0' + n else b'A' + n - 10

abbrev pub escape : Bytes → Bytes
escape color = 27 ∷ codes "[" ++ color ++ codes "m"

-- What follows the byte at place `i`: a new line behind each 32, two blanks behind each other 8.
unfoldable pub gap : ℕ → Bytes
gap i = if i % 32 == 31 then 10 ∷ [] else if i % 8 == 7 then codes "  " else []

unfoldable pub hex_cell : ℕ → Bytes
unfolding hex_digit
hex_cell c =
    escape (codes "1;33")
    ++ hex_digit (c / 16) ∷ hex_digit (c % 16) ∷ escape (codes "0")
    ++ codes " "

-- A `char` is signed, so a byte from 128 on is below 32.
unfoldable pub text_cell : ℕ → Bytes
text_cell c =
    if leb 32 c && leb c 127
    then escape (codes "1;35") ++ codes " " ++ c ∷ codes " " ++ escape (codes "0")
    else escape (codes "0;34") ++ codes " . " ++ escape (codes "0")

-- The loops, from the place `i` on. The `int` that counts holds each place of a buffer of less than
-- 2 ^ 31 bytes.
unfoldable pub cells : (ℕ → Bytes) → ℕ → Bytes → Bytes
cells cell i [] = []
cells cell i (c ∷ s) = cell c ++ (gap i ++ cells cell (suc i) s)

-- "\n\033[1;37m=== [… (… bytes)… < … > ===\033[0m\n", with the address and the date as texts.
-- The length is printed as an `int`, which holds one below 2 ^ 31.
heading : Bytes → Bytes
heading s =
    10 ∷ escape (codes "1;37")
    ++ codes "=== ["
    ++ s
    ++ codes " ==="
    ++ escape (codes "0")
    ++ 10 ∷ []

unfoldable pub origin_heading : Bytes → Bytes → ℕ → Bytes
unfolding heading
origin_heading address date n = heading (
    codes "Debug Hex : "
    ++ address
    ++ codes " ("
    ++ decimal n
    ++ codes " bytes)]) === <"
    ++ date
    ++ codes " ORIGIN >")

-- What follows the bytes in hexadecimal.
unfoldable pub data_part : Bytes → Bytes → Bytes → Bytes
unfolding heading
data_part address date s =
    let size = decimal (length s) in
    heading (
      codes "Debug Hex : "
      ++ address
      ++ codes " ("
      ++ size
      ++ codes " bytes]) === <"
      ++ date
      ++ codes " DATA   >")
    ++ (cells text_cell 0 s
        ++ (heading
              (codes "Debug Hex " ++ size ++ codes " bytes] === <" ++ date ++ codes " END    >")
            ++ 10 ∷ []))

-- `none` is a buffer of 2 ^ 31 bytes or more, at which the `int` that counts overflows.
unfoldable pub debug_hex : Bytes → Bytes → Option Bytes → Option Bytes
debug_hex address date none = some (
    10 ∷ escape (codes "1;36")
    ++ codes "=== [NOTHING TO OUTPUT] ==="
    ++ escape (codes "0")
    ++ 10 ∷ [])
debug_hex address date (some s) =
    if ltb (length s) (2 ^ 31)
    then some
        (origin_heading address date (length s) ++ (cells hex_cell 0 s ++ data_part address date s))
    else none
