-- ===== src/Wrapper/Misc.antt =====
-- `misc_random_int`, `misc_base64_encode` and `misc_base64_decode` of wrapper/misc.c. An `int` is its 32-bit pattern; `none` is a division by zero.
pub mod Range
use bspd.Common.{
  ℕ, ◌+◌, ◌-◌, ◌%◌, ◌^◌, Bool, true, false, Option, none, some, List, [], ◌∷◌, ◌==◌, if◌then◌else◌,
  Bytes,
}
use bspd.Script.Lua.{Lua, t_nil, t_string, Stack}
use bspd.Wrapper.Sessions.{ArgLib}

module _ (args : ArgLib) where
  open args use {is_number, to_integer, to_text}

  -- A bound that is given, or the one that stands there first.
  unfoldable pub bound_or : ℕ → Lua → ℕ
  bound_or default v = if is_number v then to_integer v % 2 ^ 32 else default

  -- `value` is the pattern that `bsp_rand` makes. The difference is taken for an unsigned number, as
  -- the sum is before it becomes an `int` again.
  unfoldable pub random_between : ℕ → ℕ → ℕ → Option ℕ
  random_between low high value =
      let range = (high + 2 ^ 32 - low) % 2 ^ 32 in
      if range == 0 then none else some ((low + value % range) % 2 ^ 32)

  unfoldable pub misc_random_int : Lua → Lua → ℕ → Option ℕ
  misc_random_int low high value =
      random_between (bound_or 0x80000000 low) (bound_or 0x7fffffff high) value

  -- Both functions for Base64: libbsp codes the text of the argument on top, which becomes a string if
  -- it was a number. Where libbsp makes no text nothing is pushed, and the argument is the result.
  coded : (Bytes → Option Bytes) → Stack → Option Stack
  coded code [] = none
  coded code (l ∷ st) = elim (to_text l) [
    | none ↦ some (t_nil ∷ l ∷ st)
    | some s ↦ elim (code s) [
      | none ↦ some (t_string s ∷ st)
      | some s' ↦ some (t_string s' ∷ t_string s ∷ st)
    ]
  ]

  unfoldable pub misc_base64_encode : (Bytes → Option Bytes) → Stack → Option Stack
  unfolding coded
  misc_base64_encode encode st = coded encode st

  unfoldable pub misc_base64_decode : (Bytes → Option Bytes) → Stack → Option Stack
  unfolding coded
  misc_base64_decode decode st = coded decode st
