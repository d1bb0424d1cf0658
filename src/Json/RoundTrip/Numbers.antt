-- ===== src/Json/RoundTrip/Numbers.antt =====
-- How `_get_value_from_json` of serialization/json.c reads a printed number.
use bspd.Common.{
  ℕ, zero, suc, ◌+◌, ◌/◌, ◌%◌, ◌≤◌, ◌<◌, ◌≡◌, ◌⊎◌, inl, inr, refl, ◌∙◌, Option, some, [], ◌∷◌, ◌++◌,
  arith, Bytes, starts_with, length, drop-append_self, ℤ, pos, negsuc, decimal, decimal_loop,
  decimal_ℤ,
}
use bspd.Json.Value.{Value, int}
use bspd.Json.Decode.{NumLib, Run, done, digit, get_value}
use bspd.Json.RoundTrip.{IsExact, Stops, NumLaws}

-- The first byte of a printed number is a digit or a minus sign.
abbrev StartsNumber : Bytes → Type 0
StartsNumber [] = ⊥
StartsNumber (c ∷ s) = (c ≡ b'-') ⊎ ((b'0' ≤ c) × (c ≤ b'9'))

decimal_loop-StartsNumber :
    (f n d : ℕ) (acc : Bytes) → StartsNumber (decimal_loop f n ((b'0' + d % 10) ∷ acc))
unfolding decimal_loop
decimal_loop-StartsNumber zero n d acc = inr (omega arith, omega arith)
decimal_loop-StartsNumber (suc f) n d acc =
    ground (arith, decimal_loop-StartsNumber f (n / 10) n ((b'0' + d % 10) ∷ acc))

decimal-StartsNumber : (n : ℕ) → StartsNumber (decimal n)
unfolding decimal decimal_loop
decimal-StartsNumber n = ground (arith, decimal_loop-StartsNumber 19 (n / 10) n [])

decimal_ℤ-StartsNumber : (z : ℤ) → StartsNumber (decimal_ℤ z)
unfolding decimal_ℤ
decimal_ℤ-StartsNumber (pos n) = decimal-StartsNumber n
decimal_ℤ-StartsNumber (negsuc n) = inl refl

module _ (lib : NumLib) where
  get_value-digit :
      (f c : ℕ) (s rest : Bytes)
      → StartsNumber (c ∷ s)
      → get_value lib (suc f) ((c ∷ s) ++ rest)
        ≡ digit lib ((c ∷ s) ++ rest) (get_value lib f (s ++ rest))
  unfolding get_value starts_with
  get_value-digit f c s rest h = ground arith

module _ (lib : NumLib) (laws : NumLaws lib) where
  pub get_value_separator :
      (f c : ℕ) (s : Bytes)
      → (c ≡ b',') ⊎ (c ≡ b':')
      → get_value lib (suc f) (c ∷ s) ≡ get_value lib f s
  unfolding get_value starts_with digit
  get_value_separator f c s h = ground (arith, laws.at_separator c s)

  digit_integer :
      (z : ℤ) (rest : Bytes) (skip : Run (Option Value × Bytes))
      → IsExact z
      → Stops rest
      → 0 < length (decimal_ℤ z)
      → digit lib (decimal_ℤ z ++ rest) skip ≡ done (some (int z), rest)
  unfolding digit
  digit_integer z rest skip e h nonempty = ground (
    arith,
    laws.at_integer z rest e h,
    laws.integral z e,
    laws.back z e,
    drop-append_self (decimal_ℤ z) rest,
  )

  pub get_value_integer :
      (f : ℕ) (z : ℤ) (rest : Bytes)
      → IsExact z
      → Stops rest
      → get_value lib (suc f) (decimal_ℤ z ++ rest) ≡ done (some (int z), rest)
  get_value_integer f z rest e h = read (decimal_ℤ z) refl (decimal_ℤ-StartsNumber z)
    where
      read :
          (s : Bytes)
          → decimal_ℤ z ≡ s
          → StartsNumber s
          → get_value lib (suc f) (decimal_ℤ z ++ rest) ≡ done (some (int z), rest)
      read [] eq n = absurd n
      read (c ∷ s) eq n =
          let d =
            rw eq at
              (digit_integer z rest (get_value lib f (s ++ rest)) e h (rw eq (omega arith))) in
          rw eq (get_value-digit lib f c s rest n ∙ d)
