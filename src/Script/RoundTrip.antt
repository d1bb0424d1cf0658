-- ===== src/Script/RoundTrip.antt =====
-- The values that server/script.c gives to Lua and reads back, and what it makes of them.
pub mod Entries
pub mod Sequences
pub mod Hashes
pub mod Values
pub mod Objects
use Prim.Native.Nat.{max}
use mathlib.Core.List.{Permᴰ}
use bspd.Common.{ℕ, suc, ◌^◌, ◌<◌, ◌≡◌, ◌≢◌, Bool, List, [], ◌∷◌, Bytes, All, ℤ, pos}
use bspd.Json.Value.{
  Value, uint, int, double, boolean, string, object, pointer, Object, array, hash, Items, nil, cons,
  Fields, end, field,
}
use bspd.Script.Lua.{LuaLib, IsExact}
use bspd.Script.Read.{number_value}

abbrev pub pairs : Fields → List (Bytes × Value)
pairs end = []
pairs (field k v fs) = (k, v) ∷ pairs fs

abbrev pub fields_of : List (Bytes × Value) → Fields
fields_of [] = end
fields_of ((k, v) ∷ ps) = field k v (fields_of ps)

-- The key stands in none of the pairs.
abbrev pub IsNew : Bytes → Fields → Type 0
IsNew k fs = All (λ (p : Bytes × Value). p.0 ≢ k) (pairs fs)

-- A value that Lua can hold: no null, no empty hash, and no object of another type than these.
mutual
  pub data Readable : Value → Type 0 where
    readable_uint : {n : ℕ} → IsExact (pos n) → Readable (uint n)
    readable_int : {z : ℤ} → IsExact z → Readable (int z)
    readable_double : (d : ℕ) → Readable (double d)
    readable_boolean : (b : Bool) → Readable (boolean b)
    readable_string : (s : Bytes) → Readable (string s)
    readable_pointer : (p : ℕ) → Readable (pointer p)
    readable_array : {xs : Items} → ReadableItems xs → Readable (object (array xs))
    readable_hash :
        {k : Bytes} {v : Value} {fs : Fields}
        → ReadableFields (field k v fs)
        → Readable (object (hash (field k v fs)))

  pub data ReadableItems : Items → Type 0 where
    readable_nil : ReadableItems nil
    readable_cons :
        {v : Value} {xs : Items} → Readable v → ReadableItems xs → ReadableItems (cons v xs)

  pub data ReadableFields : Fields → Type 0 where
    readable_end : ReadableFields end
    readable_field :
        {k : Bytes} {v : Value} {fs : Fields}
        → IsNew k fs
        → Readable v
        → ReadableFields fs
        → ReadableFields (field k v fs)

-- `Back v w`: the value `v` comes back as `w`. An unsigned integer loses its sign, a double with an
-- integral value becomes an integer, and the pairs of a hash may change their order.
mutual
  pub data Back (lib : LuaLib) : Value → Value → Type 0 where
    back_uint : (n : ℕ) → Back lib (uint n) (int (pos n))
    back_int : (z : ℤ) → Back lib (int z) (int z)
    back_double : (d : ℕ) → Back lib (double d) (number_value (lib.integral d) d)
    back_boolean : (b : Bool) → Back lib (boolean b) (boolean b)
    back_string : (s : Bytes) → Back lib (string s) (string s)
    back_pointer : (p : ℕ) → Back lib (pointer p) (pointer p)
    back_array :
        {xs ys : Items} → BackItems lib xs ys → Back lib (object (array xs)) (object (array ys))
    back_hash :
        {fs : Fields} {ps qs : List (Bytes × Value)}
        → BackFields lib fs ps
        → Permᴰ qs ps
        → Back lib (object (hash fs)) (object (hash (fields_of qs)))

  pub data BackItems (lib : LuaLib) : Items → Items → Type 0 where
    back_nil : BackItems lib nil nil
    back_cons :
        {v w : Value} {xs ys : Items}
        → Back lib v w
        → BackItems lib xs ys
        → BackItems lib (cons v xs) (cons w ys)

  pub data BackFields (lib : LuaLib) : Fields → List (Bytes × Value) → Type 0 where
    back_end : BackFields lib end []
    back_field :
        {k : Bytes} {v w : Value} {fs : Fields} {ps : List (Bytes × Value)}
        → Back lib v w
        → BackFields lib fs ps
        → BackFields lib (field k v fs) ((k, w) ∷ ps)

-- How deep objects stand in one another.
unfoldable mutual
  pub depth : Value → ℕ
  depth (object (array xs)) = suc (items_depth xs)
  depth (object (hash fs)) = suc (fields_depth fs)
  depth _ = 0

  pub items_depth : Items → ℕ
  items_depth nil = 0
  items_depth (cons v xs) = max (depth v) (items_depth xs)

  pub fields_depth : Fields → ℕ
  fields_depth end = 0
  fields_depth (field k v fs) = max (depth v) (fields_depth fs)
