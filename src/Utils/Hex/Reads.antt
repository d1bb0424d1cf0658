-- ===== src/Utils/Hex/Reads.antt =====
-- The bytes can be read from what `debug_hex` of utils/debug.c prints.
use bspd.Common.{
  ◌^◌, if_true, lt→ltb, ℕ, zero, suc, ◌+◌, ◌-◌, ◌*◌, ◌/◌, ◌%◌, ◌<◌, ◌≡◌, refl, ap, ◌∙◌, [], ◌∷◌,
  ◌++◌, append_assoc, ltb, if◌then◌else◌, Bytes, IsByte, length, drop, drop-append_self, All, some,
  arith,
}
use bspd.Utils.Hex.{hex_digit, gap, hex_cell, cells, origin_heading, data_part, debug_hex}

-- The value of a hex_digit.
unfoldable pub value : ℕ → ℕ
value d = if ltb d b'A' then d - b'0' else d - b'A' + 10

value-hex_digit : (n : ℕ) → n < 16 → value (hex_digit n) ≡ n
unfolding value hex_digit
value-hex_digit n h = ground arith

-- A byte from the two digits behind the seven bytes that set the colour.
unfoldable pub read_byte : Bytes → ℕ
read_byte (e ∷ a ∷ b ∷ c ∷ d ∷ f ∷ m ∷ x ∷ y ∷ s) = 16 * value x + value y
read_byte _ = 0

-- `n` bytes from the place `i` on, each in fourteen bytes and a gap.
unfoldable pub read_cells : ℕ → ℕ → Bytes → Bytes
read_cells zero i s = []
read_cells (suc n) i s = read_byte s ∷ read_cells n (suc i) (drop (length (gap i)) (drop 14 s))

read_byte-hex_cell : (c : ℕ) (s : Bytes) → IsByte c → read_byte (hex_cell c ++ s) ≡ c
unfolding read_byte hex_cell
read_byte-hex_cell c s h =
    omega (arith, value-hex_digit (c / 16) (omega arith), value-hex_digit (c % 16) (omega arith))

drop-hex_cell : (c : ℕ) (s : Bytes) → drop 14 (hex_cell c ++ s) ≡ s
unfolding hex_cell
drop-hex_cell c s = refl

read_no_cells : (i : ℕ) (t : Bytes) → read_cells 0 i t ≡ []
unfolding read_cells
read_no_cells i t = refl

read_cells_step :
    (n i c : ℕ) (s : Bytes)
    → IsByte c
    → read_cells (suc n) i (hex_cell c ++ (gap i ++ s)) ≡ c ∷ read_cells n (suc i) s
unfolding read_cells
read_cells_step n i c s h =
    ap (◌∷◌ (read_byte (hex_cell c ++ (gap i ++ s)))) (
      ap (λ (t : Bytes). read_cells n (suc i) (drop (length (gap i)) t))
        (drop-hex_cell c (gap i ++ s))
      ∙ ap (read_cells n (suc i)) (drop-append_self (gap i) s))
    ∙ ap (λ (x : ℕ). x ∷ read_cells n (suc i) s) (read_byte-hex_cell c (gap i ++ s) h)

cells-append :
    (cell : ℕ → Bytes) (i c : ℕ) (s rest : Bytes)
    → cells cell i (c ∷ s) ++ rest ≡ cell c ++ (gap i ++ (cells cell (suc i) s ++ rest))
unfolding cells
cells-append cell i c s rest = simp append_assoc

read_cells-cells :
    (i : ℕ) (s rest : Bytes)
    → All IsByte s
    → read_cells (length s) i (cells hex_cell i s ++ rest) ≡ s
read_cells-cells i [] rest h = read_no_cells i (cells hex_cell i [] ++ rest)
read_cells-cells i (c ∷ s) rest h =
    ap (read_cells (suc (length s)) i) (cells-append hex_cell i c s rest)
    ∙ read_cells_step (length s) i c (cells hex_cell (suc i) s ++ rest) h.0
    ∙ ap (◌∷◌ c) (read_cells-cells (suc i) s rest h.1)

-- Behind its heading the dump of a buffer of less than 2 ^ 31 bytes holds every byte of it: reading
-- the two digits of each gives the buffer again.
pub read_cells-debug_hex :
    (address date s : Bytes)
    → length s < 2 ^ 31
    → All IsByte s
    → (out : Bytes) × (debug_hex address date (some s) ≡ some out)
      × (read_cells (length s) 0 (drop (length (origin_heading address date (length s))) out) ≡ s)
unfolding debug_hex
read_cells-debug_hex address date s short h =
    let head = origin_heading address date (length s) in
    let rest = data_part address date s in
    (
      head ++ (cells hex_cell 0 s ++ rest),
      if_true (ltb (length s) (2 ^ 31)) _ _ (lt→ltb (length s) (2 ^ 31) short),
      ap (read_cells (length s) 0) (drop-append_self head (cells hex_cell 0 s ++ rest))
          ∙ read_cells-cells 0 s rest h,
    )
