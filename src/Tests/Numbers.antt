-- ===== src/Tests/Numbers.antt =====
-- A `strtod` that reads integers, for the decoder of serialization/json.c.
use bspd.Common.{
  ℕ, zero, suc, ◌+◌, ◌-◌, ◌*◌, ◌/◌, ◌%◌, ◌^◌, ◌≤◌, ◌<◌, ◌≡◌, refl, ap, ◌∙◌, Bool, true, false, ◌&&◌,
  [], ◌∷◌, ◌++◌, arith, leb, ◌==◌, if◌then◌else◌, Bytes, length, length-append, ℤ, pos, negsuc,
  decimal, decimal_loop, decimal_ℤ,
}
use bspd.Json.Decode.{NumLib}
use bspd.Json.RoundTrip.{IsExact, Stops, NumLaws}

-- The digits at the head of a text: their value behind `v`, and what follows them.
abbrev read_digits : ℕ → Bytes → ℕ × Bytes
read_digits v [] = (v, [])
read_digits v (c ∷ s) =
    let rest = read_digits (v * 10 + (c - b'0')) s in
    if leb b'0' c && leb c b'9' then rest else (v, c ∷ s)

-- An integer as the bit pattern of a double.
abbrev code_of : ℤ → ℕ
code_of (pos n) = 2 * n
code_of (negsuc n) = 2 * n + 1

abbrev int_of : ℕ → ℤ
int_of d = if d % 2 == 0 then pos (d / 2) else negsuc (d / 2)

abbrev read_number : Bytes → ℕ × ℕ × Bool
read_number [] = (0, 0, false)
read_number (c ∷ s) =
    let (n, after) = read_digits 0 s in
    let (m, over) = read_digits 0 (c ∷ s) in
    if c == b'-'
    then (suc (length s) - length after, code_of (negsuc (n - 1)), false)
    else (suc (length s) - length over, code_of (pos m), false)

abbrev pub integers : NumLib
integers = record { strtod = read_number; is_integral = λ d. true; to_int64 = int_of }

abbrev pow10 : ℕ → ℕ
pow10 zero = 1
pow10 (suc f) = 10 * pow10 f

read_digits-decimal_loop :
    (f n : ℕ) (acc rest : Bytes)
    → n < pow10 f
    → read_digits 0 (decimal_loop f n acc ++ rest) ≡ read_digits n (acc ++ rest)
unfolding decimal_loop
read_digits-decimal_loop zero n acc rest h = ap (λ m. read_digits m (acc ++ rest)) (omega arith)
read_digits-decimal_loop (suc f) n acc rest h =
    ground (arith, read_digits-decimal_loop f (n / 10) ((b'0' + n % 10) ∷ acc) rest)

read_digits-Stops : (v : ℕ) (rest : Bytes) → Stops rest → read_digits v rest ≡ (v, rest)
read_digits-Stops v [] h = refl
read_digits-Stops v (c ∷ rest) h = ground arith

read_digits-decimal :
    (n : ℕ) (rest : Bytes) → n ≤ 2 ^ 53 → Stops rest → read_digits 0 (decimal n ++ rest) ≡ (n, rest)
unfolding decimal
read_digits-decimal n rest h st =
    read_digits-decimal_loop 20 n [] rest (omega arith) ∙ read_digits-Stops n rest st

abbrev StartsDigit : Bytes → Type 0
StartsDigit [] = ⊥
StartsDigit (c ∷ s) = (b'0' ≤ c) × (c ≤ b'9')

decimal_loop-StartsDigit :
    (f n d : ℕ) (acc : Bytes) → StartsDigit (decimal_loop f n ((b'0' + d % 10) ∷ acc))
unfolding decimal_loop
decimal_loop-StartsDigit zero n d acc = (omega arith, omega arith)
decimal_loop-StartsDigit (suc f) n d acc =
    ground (arith, decimal_loop-StartsDigit f (n / 10) n ((b'0' + d % 10) ∷ acc))

decimal-StartsDigit : (n : ℕ) → StartsDigit (decimal n)
unfolding decimal decimal_loop
decimal-StartsDigit n = ground (arith, decimal_loop-StartsDigit 19 (n / 10) n [])

read_number-StartsDigit :
    (s rest : Bytes)
    → StartsDigit s
    → let r = read_digits 0 (s ++ rest) in
      read_number (s ++ rest) ≡ (length (s ++ rest) - length r.1, code_of (pos r.0), false)
read_number-StartsDigit [] rest h = absurd h
read_number-StartsDigit (c ∷ s) rest h = ground arith

read_number-decimal :
    (n : ℕ) (rest : Bytes)
    → n ≤ 2 ^ 53
    → Stops rest
    → read_number (decimal n ++ rest) ≡ (length (decimal n), code_of (pos n), false)
read_number-decimal n rest h st =
    read_number-StartsDigit (decimal n) rest (decimal-StartsDigit n)
    ∙ ap (λ r. (length (decimal n ++ rest) - length r.1, code_of (pos r.0), false))
        (read_digits-decimal n rest h st)
    ∙ ap (λ m. (m, code_of (pos n), false)) (omega (arith, length-append (decimal n) rest))

at_integer_lem :
    (z : ℤ) (rest : Bytes)
    → IsExact z
    → Stops rest
    → read_number (decimal_ℤ z ++ rest) ≡ (length (decimal_ℤ z), code_of z, false)
unfolding decimal_ℤ
at_integer_lem (pos n) rest h st = read_number-decimal n rest h st
at_integer_lem (negsuc n) rest h st =
    ground (arith, read_digits-decimal (suc n) rest h st, length-append (decimal (suc n)) rest)

back_lem : (z : ℤ) → int_of (code_of z) ≡ z
back_lem (pos n) = ground arith
back_lem (negsuc n) = ground arith

pub integers_laws : NumLaws integers
integers_laws = record {
  at_separator = λ c s h. ground arith;
  double_of = code_of;
  at_integer = at_integer_lem;
  integral = λ z h. refl;
  back = λ z h. back_lem z;
}
