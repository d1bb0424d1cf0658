-- ===== src/Json/RoundTrip.antt =====
-- The values on which the encoder and the decoder agree, and their text with what follows it.
pub mod Print
pub mod Numbers
pub mod Rounds
pub mod Read
pub mod Objects
use bspd.Common.{
  ℕ, zero, suc, ◌+◌, ◌^◌, ◌≤◌, ◌≡◌, ◌≢◌, ◌⊎◌, Bool, true, false, [], ◌∷◌, ◌++◌, Bytes, codes,
  length, All, ℤ, pos, negsuc, decimal_ℤ,
}
use bspd.Json.Value.{
  Value, null, uint, int, double, boolean, string, object, pointer, hash_end, array_end, unknown,
  Object, undetermined, single, array, hash, Items, nil, cons, Fields, end, field,
}
use bspd.Json.Encode.{TextLib}
use bspd.Json.Encode.Plain.{IsPlain}
use bspd.Json.Decode.{NumLib}

-- A text that is written as it is: plain bytes, no quote, no backslash, and not a single byte.
pub record GoodText (lib : TextLib) (s : Bytes) : Type 0 where
  pub plain : All (IsPlain lib) s
  pub unquoted : All (λ c. (c ≢ b'"') × (c ≢ b'\\')) s
  pub not_single : length s ≢ 1

-- An integer that a double holds exactly.
abbrev pub IsExact : ℤ → Type 0
IsExact (pos n) = n ≤ 2 ^ 53
IsExact (negsuc n) = suc n ≤ 2 ^ 53

mutual
  pub data Good (lib : TextLib) : Value → Type 0 where
    good_null : Good lib null
    good_boolean : (b : Bool) → Good lib (boolean b)
    good_int : {z : ℤ} → IsExact z → Good lib (int z)
    good_string : {s : Bytes} → GoodText lib s → Good lib (string s)
    good_array : {xs : Items} → GoodItems lib xs → Good lib (object (array xs))
    good_hash : {fs : Fields} → GoodFields lib fs → Good lib (object (hash fs))

  pub data GoodItems (lib : TextLib) : Items → Type 0 where
    good_nil : GoodItems lib nil
    good_cons : {v : Value} {xs : Items} → Good lib v → GoodItems lib xs → GoodItems lib (cons v xs)

  pub data GoodFields (lib : TextLib) : Fields → Type 0 where
    good_end : GoodFields lib end
    good_field :
        {k : Bytes} {v : Value} {fs : Fields}
        → GoodText lib k
        → Good lib v
        → GoodFields lib fs
        → GoodFields lib (field k v fs)

abbrev pub print_text : Bytes → Bytes → Bytes
print_text s rest = b'"' ∷ (s ++ (b'"' ∷ rest))

-- The JSON text of a value in front of `rest`. `print_more` is what follows the first item or pair.
unfoldable mutual
  pub print : Value → Bytes → Bytes
  print null rest = codes "null" ++ rest
  print (boolean true) rest = codes "true" ++ rest
  print (boolean false) rest = codes "false" ++ rest
  print (int z) rest = decimal_ℤ z ++ rest
  print (string s) rest = print_text s rest
  print (object o) rest = print_object o rest
  print _ rest = rest

  pub print_object : Object → Bytes → Bytes
  print_object (array xs) rest = b'[' ∷ print_items xs rest
  print_object (hash fs) rest = b'{' ∷ print_fields fs rest
  print_object _ rest = rest

  pub print_items : Items → Bytes → Bytes
  print_items nil rest = b']' ∷ rest
  print_items (cons v xs) rest = print v (print_more_items xs rest)

  pub print_more_items : Items → Bytes → Bytes
  print_more_items nil rest = b']' ∷ rest
  print_more_items (cons v xs) rest = b',' ∷ print v (print_more_items xs rest)

  pub print_fields : Fields → Bytes → Bytes
  print_fields end rest = b'}' ∷ rest
  print_fields (field k v fs) rest = print_text k (b':' ∷ print v (print_more_fields fs rest))

  pub print_more_fields : Fields → Bytes → Bytes
  print_more_fields end rest = b'}' ∷ rest
  print_more_fields (field k v fs) rest =
      b',' ∷ print_text k (b':' ∷ print v (print_more_fields fs rest))

-- What may stand behind a number.
abbrev pub Stops : Bytes → Type 0
Stops [] = Unit {0}
Stops (c ∷ s) = (c ≡ b',') ⊎ (c ≡ b']') ⊎ (c ≡ b'}')

-- What the C library promises of `strtod`: it reads nothing at a comma or a colon, and reads an
-- exact integer in full, without error, as a double that converts back to it.
pub record NumLaws (lib : NumLib) : Type 0 where
  pub at_separator : (c : ℕ) (s : Bytes) → (c ≡ b',') ⊎ (c ≡ b':') → (lib.strtod (c ∷ s)).0 ≡ 0
  pub double_of : ℤ → ℕ
  pub at_integer :
      (z : ℤ) (rest : Bytes)
      → IsExact z
      → Stops rest
      → lib.strtod (decimal_ℤ z ++ rest) ≡ (length (decimal_ℤ z), double_of z, false)
  pub integral : (z : ℤ) → IsExact z → lib.is_integral (double_of z) ≡ true
  pub back : (z : ℤ) → IsExact z → lib.to_int64 (double_of z) ≡ z
