-- ===== src/Common/Text.antt =====
-- Byte strings as lists of numbers, and the functions of the C library on them.
-- What lies past the end of a buffer is taken for a NUL byte, so no comparison matches beyond it.
use Prim.Native.Char.{code}
use Prim.Native.String.{String}
use Prim.Native.Nat.{ℕ, zero, suc, ◌+◌, ◌-◌, ◌/◌, ◌%◌, ◌<◌}
use mathlib.Core.Path.{◌≡◌, refl}
use mathlib.Core.Bool.{Bool, true, false, ◌&&◌}
use mathlib.Core.List.{List, [], ◌∷◌, ◌++◌, map}
use native.Mathlib.Omega.{arith}
use bspd.Common.Tests.{ltb, leb, ◌==◌, if◌then◌else◌, ==_refl}
use bspd.Common.Lists.{length}

abbrev pub Bytes : Type 0
Bytes = List ℕ

abbrev pub IsByte : ℕ → Type 0
IsByte b = b < 256

-- The code points of a text: its bytes, if it is ASCII.
abbrev pub codes : String → Bytes
codes String.[] = []
codes (String.◌∷◌ c s) = code c ∷ codes s

-- `strncmp(s, p, strlen(p)) == 0`
unfoldable pub starts_with : Bytes → Bytes → Bool
starts_with [] s = true
starts_with (x ∷ p) [] = false
starts_with (x ∷ p) (y ∷ s) = x == y && starts_with p s

-- `toupper` in the C locale
unfoldable pub to_upper : ℕ → ℕ
to_upper c = if leb b'a' c && leb c b'z' then c - 32 else c

-- `strncasecmp(s, p, strlen(p)) == 0`
unfoldable pub starts_with_ci : Bytes → Bytes → Bool
unfolding starts_with to_upper
starts_with_ci p s = starts_with (map to_upper p) (map to_upper s)

-- The test `c > 32` on a `char`, which is signed: a byte from 128 on is negative.
abbrev pub above_space : ℕ → Bool
above_space c = ltb 32 c && ltb c 128

pub starts_with-append : (p s : Bytes) → starts_with p (p ++ s) ≡ true
unfolding starts_with
starts_with-append [] s = refl
starts_with-append (x ∷ p) s = ground (arith, ==_refl x, starts_with-append p s)

-- `data[i]`, a NUL past the end.
unfoldable pub byte_at : Bytes → ℕ → ℕ
byte_at [] i = 0
byte_at (c ∷ s) zero = c
byte_at (c ∷ s) (suc i) = byte_at s i

pub byte_at-append : (p : Bytes) (c : ℕ) (s : Bytes) → byte_at (p ++ c ∷ s) (length p) ≡ c
unfolding byte_at
byte_at-append [] c s = refl
byte_at-append (x ∷ p) c s = byte_at-append p c s

-- The digits of a number below 10 ^ fuel, in base ten.
unfoldable pub decimal_loop : ℕ → ℕ → Bytes → Bytes
decimal_loop zero n acc = acc
decimal_loop (suc f) n acc =
    let rest = decimal_loop f (n / 10) ((b'0' + n % 10) ∷ acc) in
    if ltb n 10 then (b'0' + n) ∷ acc else rest

-- `%llu`: twenty digits hold every 64-bit number.
unfoldable pub decimal : ℕ → Bytes
unfolding decimal_loop
decimal n = decimal_loop 20 n []
