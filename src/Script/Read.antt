-- ===== src/Script/Read.antt =====
-- `lua_table_size`, `_lua_value_to_value`, `_lua_table_to_object` and `lua_to_object` of
-- server/script.c. Tables within tables are read on fuel.
pub mod Settled
use bspd.Common.{
  ℕ, zero, suc, Bool, Option, none, some, List, [], ◌∷◌, ◌==◌, if◌then◌else◌, Bytes, length, ℤ,
}
use bspd.Json.Value.{
  Value, null, int, double, boolean, string, object, pointer, Object, single, array, hash, Items,
  nil, push_item, Fields, end, push_field,
}
use bspd.Script.Lua.{
  Lua, t_nil, t_boolean, t_integer, t_number, t_string, t_light_userdata, t_userdata, t_table,
  t_function, t_thread, Table, LuaLib, entries, raw_geti,
}

-- `lua_error` is an error that Lua raises, `no_fuel` a run that is cut off.
pub data Outcome (A : Type 0) : Type 0 where
  done : A → Outcome A
  lua_error : Outcome A
  no_fuel : Outcome A

infixl 5 ◌>>=◌
abbrev pub ◌>>=◌ : {A B : Type 0} → Outcome A → (A → Outcome B) → Outcome B
done a >>= f = f a
lua_error >>= f = lua_error
no_fuel >>= f = no_fuel

-- The loop with `lua_next`.
unfoldable pub table_size : Table → ℕ
table_size t = length (entries t)

unfoldable pub number_value : Option ℤ → ℕ → Value
number_value (some z) d = int z
number_value none d = double d

-- `n` more items, from the place `i` on.
unfoldable pub items_loop : (Lua → Outcome Value) → Table → ℕ → ℕ → Items → Outcome Items
items_loop read t zero i xs = done xs
items_loop read t (suc n) i xs =
    read (raw_geti t i) >>= (λ (v : Value). items_loop read t n (suc i) (push_item xs v))

module _ (lib : LuaLib) where
  unfoldable pub fields_loop : (Lua → Outcome Value) → List (Lua × Lua) → Fields → Outcome Fields
  fields_loop read [] fs = done fs
  fields_loop read ((k, l) ∷ rest) fs = read l >>= (λ (v : Value). elim (lib.key_text k) [
    | none ↦ lua_error
    | some key ↦ fields_loop read rest (push_field fs key v)
  ])

  unfoldable pub table_to_object : (Lua → Outcome Value) → Table → Outcome Object
  unfolding items_loop fields_loop table_size
  table_to_object read t = elim (lib.len t == table_size t) [
    | Bool.true ↦ items_loop read t (lib.len t) 1 nil >>= (λ (xs : Items). done (array xs))
    | Bool.false ↦ fields_loop read (entries t) end >>= (λ (fs : Fields). done (hash fs))
  ]

  unfoldable pub value_of_lua : ℕ → Lua → Outcome Value
  unfolding number_value table_to_object
  value_of_lua zero l = no_fuel
  value_of_lua (suc fuel) t_nil = done null
  value_of_lua (suc fuel) (t_boolean b) = done (boolean b)
  value_of_lua (suc fuel) (t_integer z) =
      let d = lib.to_number z in done (number_value (lib.integral d) d)
  value_of_lua (suc fuel) (t_number d) = done (number_value (lib.integral d) d)
  value_of_lua (suc fuel) (t_string s) = done (string s)
  value_of_lua (suc fuel) (t_light_userdata p) = done (pointer p)
  value_of_lua (suc fuel) (t_userdata p) = done (pointer p)
  value_of_lua (suc fuel) (t_table t) =
      table_to_object (value_of_lua fuel) t >>= (λ (o : Object). done (object o))
  value_of_lua (suc fuel) (t_function p) = done null
  value_of_lua (suc fuel) (t_thread p) = done null

  unfoldable pub single_of : Outcome Value → Outcome Object
  single_of r = r >>= (λ (v : Value). done (single v))

  unfoldable pub lua_to_object : ℕ → Lua → Outcome Object
  lua_to_object fuel (t_table t) = table_to_object (value_of_lua fuel) t
  lua_to_object fuel l = single_of (value_of_lua fuel l)
