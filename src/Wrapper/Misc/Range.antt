-- ===== src/Wrapper/Misc/Range.antt =====
-- Which numbers `misc_random_int` of wrapper/misc.c can make.
use bspd.Common.{ℕ, ◌+◌, ◌-◌, ◌%◌, ◌^◌, ◌≤◌, ◌<◌, ◌≡◌, ◌≢◌, sym, ◌∙◌, ap, none, some, arith}
use native.Mathlib.Nat.{mod-lt}
use bspd.Script.Lua.{Lua}
use bspd.Wrapper.Sessions.{ArgLib}
use bspd.Wrapper.Misc.{bound_or, random_between, misc_random_int}

-- The place of a pattern in the order of the `int`s, from the least one on.
abbrev pub rank : ℕ → ℕ
rank n = (n + 2 ^ 31) % 2 ^ 32

rank-add :
    (low high r : ℕ)
    → low < 2 ^ 32
    → high < 2 ^ 32
    → rank low < rank high
    → r < (high + 2 ^ 32 - low) % 2 ^ 32
    → (rank low ≤ rank ((low + r) % 2 ^ 32)) × (rank ((low + r) % 2 ^ 32) < rank high)
rank-add low high r a b c d = (omega arith, omega arith)

range_ne :
    (low high : ℕ)
    → low < 2 ^ 32
    → high < 2 ^ 32
    → rank low < rank high
    → (high + 2 ^ 32 - low) % 2 ^ 32 ≢ 0
range_ne low high a b c = omega arith

module _ (args : ArgLib) where
  random_between_ranks :
      (low high value : ℕ)
      → low < 2 ^ 32
      → high < 2 ^ 32
      → rank low < rank high
      → (r : ℕ) × (random_between args low high value ≡ some r)
        × (rank low ≤ rank r)
        × (rank r < rank high)
  unfolding random_between
  random_between_ranks low high value a b c =
      let range = (high + 2 ^ 32 - low) % 2 ^ 32 in
      let p =
        rank-add low high (value % range) a b c
          (mod-lt value (positive range (range_ne low high a b c))) in
      ((low + value % range) % 2 ^ 32, ground (arith, range_ne low high a b c), p.0, p.1)
    where
      positive : (n : ℕ) → n ≢ 0 → 0 < n
      positive n h = omega arith

  bound_or-bound : (default : ℕ) (v : Lua) → default < 2 ^ 32 → bound_or args default v < 2 ^ 32
  unfolding bound_or
  bound_or-bound default v h = ground arith

  -- If the lower bound is less than the upper one, as `int`s, whatever the generator makes, the
  -- number is not less than the lower bound and less than the upper one, which is never made.
  pub misc_random_int-rank :
      (low high : Lua) (value : ℕ)
      → rank (bound_or args 0x80000000 low) < rank (bound_or args 0x7fffffff high)
      → (r : ℕ) × (misc_random_int args low high value ≡ some r)
        × (rank (bound_or args 0x80000000 low) ≤ rank r)
        × (rank r < rank (bound_or args 0x7fffffff high))
  unfolding misc_random_int
  misc_random_int-rank low high value h =
      random_between_ranks (bound_or args 0x80000000 low) (bound_or args 0x7fffffff high) value
        (bound_or-bound 0x80000000 low (omega arith)) (bound_or-bound 0x7fffffff high (omega arith))
        h

  random_between_equal : (n value : ℕ) → random_between args n n value ≡ none
  unfolding random_between
  random_between_equal n value =
      let range : (n + 2 ^ 32 - n) % 2 ^ 32 ≡ 0 = omega arith in ground (arith, range)

  -- Two equal bounds make a division by zero.
  pub misc_random_int_equal :
      (low high : Lua) (value : ℕ)
      → bound_or args 0x80000000 low ≡ bound_or args 0x7fffffff high
      → misc_random_int args low high value ≡ none
  unfolding misc_random_int
  misc_random_int_equal low high value e =
      ap (λ (h : ℕ). random_between args (bound_or args 0x80000000 low) h value) (sym e)
      ∙ random_between_equal (bound_or args 0x80000000 low) value
