-- ===== src/Script/Lua.antt =====
-- Lua's values, its tables and its stack, as server/script.c uses them through the Lua API.
-- A table stands by its contents, the entries in the order in which `lua_next` visits them, so
-- tables that contain themselves are left out. A stack is a list, its top first.
use bspd.Common.{
  ℕ, suc, ◌^◌, ◌≤◌, ◌<◌, ◌≡◌, ◌≢◌, Bool, Option, none, some, List, [], ◌∷◌, ◌==◌, if◌then◌else◌,
  Bytes, All, ℤ, pos, negsuc,
}
use bspd.Json.Value.{Value, uint, int}
use mathlib.Core.List.{Permᴰ}

-- A number is its 64-bit pattern, a pointer, a function and a thread its address.
mutual
  pub data Lua : Type 0 where
    t_nil : Lua
    t_boolean : Bool → Lua
    t_integer : ℤ → Lua
    t_number : ℕ → Lua
    t_string : Bytes → Lua
    t_light_userdata : ℕ → Lua
    t_userdata : ℕ → Lua
    t_table : Table → Lua
    t_function : ℕ → Lua
    t_thread : ℕ → Lua

  pub data Table : Type 0 where
    new_table : Table
    entry : Lua → Lua → Table → Table

abbrev pub Stack : Type 0
Stack = List Lua

-- The calls of the Lua API and of libbsp whose results their manuals leave open: `lua_settable`
-- without metamethods, `luaL_len`, `V_GET_INT`, `lua_tonumber` of an integer, and for a number
-- whether it equals its own conversion to `int64_t`, with the integer. `key_text` is the string of
-- libbsp that is made of a key by `lua_tolstring`, if the traversal can go on behind it.
pub record LuaLib : Type 0 where
  pub set : Table → Lua → Lua → Table
  pub len : Table → ℕ
  pub get_int : Value → ℤ
  pub to_number : ℤ → ℕ
  pub integral : ℕ → Option ℤ
  pub key_text : Lua → Option Bytes

abbrev pub entries : Table → List (Lua × Lua)
entries new_table = []
entries (entry k v t) = (k, v) ∷ entries t

-- A key that is an integer or a string.
pub data IsKey : Lua → Type 0 where
  integer_key : (z : ℤ) → IsKey (t_integer z)
  string_key : (s : Bytes) → IsKey (t_string s)

-- An integer that a double holds exactly.
abbrev pub IsExact : ℤ → Type 0
IsExact (pos n) = n ≤ 2 ^ 53
IsExact (negsuc n) = suc n ≤ 2 ^ 53

unfoldable pub is_index : Lua → ℕ → Bool
is_index (t_integer (pos j)) i = j == i
is_index _ i = Bool.false

-- `lua_rawgeti`
unfoldable pub raw_geti : Table → ℕ → Lua
raw_geti new_table i = t_nil
raw_geti (entry k v t) i = let rest = raw_geti t i in if is_index k i then v else rest

abbrev pub IsFresh : Lua → Table → Type 0
IsFresh k t = All (λ (e : Lua × Lua). e.0 ≢ k) (entries t)

-- What the manuals say: a new key with a value that is not nil is one more entry, a value that was
-- set at a place is found there and changes no other place, and `luaL_len` of a table whose integer
-- keys are 1 to n is n.
pub record LuaLaws (lib : LuaLib) : Type 0 where
  pub set_fresh :
      (t : Table) {k v : Lua}
      → IsKey k
      → IsFresh k t
      → v ≢ t_nil
      → Permᴰ (entries (lib.set t k v)) ((k, v) ∷ entries t)
  pub raw_geti-set :
      (t : Table) (i : ℕ) (v : Lua) → v ≢ t_nil → raw_geti (lib.set t (t_integer (pos i)) v) i ≡ v
  pub raw_geti-set_other :
      (t : Table) (i j : ℕ) (v : Lua)
      → i ≢ j
      → raw_geti (lib.set t (t_integer (pos i)) v) j ≡ raw_geti t j
  pub len_sequence :
      (t : Table) (n : ℕ)
      → ((i : ℕ) → i < n → raw_geti t (suc i) ≢ t_nil)
      → ((i : ℕ) → n ≤ i → raw_geti t (suc i) ≡ t_nil)
      → lib.len t ≡ n
  pub get_int-int : (z : ℤ) → lib.get_int (int z) ≡ z
  pub get_int-uint : (n : ℕ) → n < 2 ^ 63 → lib.get_int (uint n) ≡ pos n
  pub integral-to_number : (z : ℤ) → IsExact z → lib.integral (lib.to_number z) ≡ some z
  pub key_text-string : (s : Bytes) → lib.key_text (t_string s) ≡ some s

infixl 5 ◌>>=◌
abbrev pub ◌>>=◌ : {A B : Type 0} → Option A → (A → Option B) → Option B
some a >>= f = f a
none >>= f = none
