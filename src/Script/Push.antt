-- ===== src/Script/Push.antt =====
-- `_push_value_to_lua`, `_push_object_to_lua` and `object_to_lua` of server/script.c, on the stack.
-- `none` is an error that Lua raises.
pub mod Balance
pub mod Broken
use bspd.Common.{ℕ, suc, ◌+◌, Bool, Option, none, some, List, [], ◌∷◌, Bytes, pos}
use bspd.Json.Value.{
  Value, null, uint, int, double, boolean, string, object, pointer, hash_end, array_end, unknown,
  Object, undetermined, single, array, hash, Items, nil, cons, Fields, end, field,
}
use bspd.Script.Lua.{
  Lua, t_nil, t_boolean, t_integer, t_number, t_string, t_light_userdata, t_table, new_table, Stack,
  LuaLib, ◌>>=◌,
}

module _ (lib : LuaLib) where
  -- `lua_settable(s, -3)`: anything but a table is taken to have no metamethod.
  unfoldable pub settable : Stack → Option Stack
  settable (v ∷ k ∷ t_table t ∷ st) = some (t_table (lib.set t k v) ∷ st)
  settable _ = none

  unfoldable mutual
    pub push_value : Value → Stack → Option Stack
    push_value null st = some (t_nil ∷ st)
    push_value (uint n) st = some (t_integer (lib.get_int (uint n)) ∷ st)
    push_value (int z) st = some (t_integer (lib.get_int (int z)) ∷ st)
    push_value (double d) st = some (t_number d ∷ st)
    push_value (boolean b) st = some (t_boolean b ∷ st)
    push_value (string s) st = some (t_string s ∷ st)
    push_value (object o) st = push_object o st
    push_value (pointer p) st = some (t_light_userdata p ∷ st)
    push_value hash_end st = some (t_nil ∷ st)
    push_value array_end st = some (t_nil ∷ st)
    push_value unknown st = some (t_nil ∷ st)

    -- An object of the type UNDETERMINED leaves the stack alone.
    pub push_object : Object → Stack → Option Stack
    push_object undetermined st = some st
    push_object (single v) st = push_value v st
    push_object (array xs) st = push_items 0 xs (t_table new_table ∷ st)
    push_object (hash fs) st = push_fields fs (t_table new_table ∷ st)

    pub push_items : ℕ → Items → Stack → Option Stack
    push_items idx nil st = some st
    push_items idx (cons v xs) st =
        push_value v (t_integer (pos (idx + 1)) ∷ st) >>= (λ (filled : Stack).
          settable filled >>= (λ (next : Stack). push_items (idx + 1) xs next))

    pub push_fields : Fields → Stack → Option Stack
    push_fields end st = some st
    push_fields (field k v fs) st =
        push_value v (t_string k ∷ st)
        >>= (λ (filled : Stack). settable filled >>= (λ (next : Stack). push_fields fs next))

  -- `object_to_lua`, of an object that is not NULL.
  unfoldable pub object_to_lua : Object → Stack → Option Stack
  unfolding push_object
  object_to_lua o st = push_object o st
