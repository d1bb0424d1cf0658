-- ===== src/Script/Push/Balance.antt =====
-- What server/script.c leaves on Lua's stack when it pushes a value or an object.
use bspd.Common.{ℕ, ◌+◌, ◌≡◌, refl, Bool, true, false, ◌&&◌, and_left, and_right, some, ◌∷◌, pos}
use bspd.Json.Value.{
  Value, null, uint, int, double, boolean, string, object, pointer, hash_end, array_end, unknown,
  Object, undetermined, single, array, hash, Items, nil, cons, Fields, end, field,
}
use bspd.Script.Lua.{
  Lua, t_nil, t_boolean, t_integer, t_number, t_string, t_light_userdata, t_table, Table, new_table,
  Stack, LuaLib,
}
use bspd.Script.Push.{settable, push_value, push_object, push_items, push_fields, object_to_lua}

-- No object of the type UNDETERMINED stands in the value.
unfoldable mutual
  pub settled : Value → Bool
  settled (object o) = settled_object o
  settled _ = true

  pub settled_object : Object → Bool
  settled_object undetermined = false
  settled_object (single v) = settled v
  settled_object (array xs) = settled_items xs
  settled_object (hash fs) = settled_fields fs

  pub settled_items : Items → Bool
  settled_items nil = true
  settled_items (cons v xs) = settled v && settled_items xs

  pub settled_fields : Fields → Bool
  settled_fields end = true
  settled_fields (field k v fs) = settled v && settled_fields fs

module _ (lib : LuaLib) where
  -- The Lua value with the contents of a value of libbsp.
  unfoldable mutual
    pub lua_of : Value → Lua
    lua_of null = t_nil
    lua_of (uint n) = t_integer (lib.get_int (uint n))
    lua_of (int z) = t_integer (lib.get_int (int z))
    lua_of (double d) = t_number d
    lua_of (boolean b) = t_boolean b
    lua_of (string s) = t_string s
    lua_of (object o) = lua_of_object o
    lua_of (pointer p) = t_light_userdata p
    lua_of hash_end = t_nil
    lua_of array_end = t_nil
    lua_of unknown = t_nil

    pub lua_of_object : Object → Lua
    lua_of_object undetermined = t_nil
    lua_of_object (single v) = lua_of v
    lua_of_object (array xs) = t_table (set_items new_table 0 xs)
    lua_of_object (hash fs) = t_table (set_fields new_table fs)

    -- The items from the place behind `idx` on.
    pub set_items : Table → ℕ → Items → Table
    set_items t idx nil = t
    set_items t idx (cons v xs) =
        set_items (lib.set t (t_integer (pos (idx + 1))) (lua_of v)) (idx + 1) xs

    pub set_fields : Table → Fields → Table
    set_fields t end = t
    set_fields t (field k v fs) = set_fields (lib.set t (t_string k) (lua_of v)) fs

  mutual
    unfolding push_value lua_of settled settable

    pub push_value-lua_of :
        (v : Value) (st : Stack) → settled v ≡ true → push_value lib v st ≡ some (lua_of v ∷ st)
    push_value-lua_of null st h = refl
    push_value-lua_of (uint n) st h = refl
    push_value-lua_of (int z) st h = refl
    push_value-lua_of (double d) st h = refl
    push_value-lua_of (boolean b) st h = refl
    push_value-lua_of (string s) st h = refl
    push_value-lua_of (object o) st h = push_object-lua_of o st h
    push_value-lua_of (pointer p) st h = refl
    push_value-lua_of hash_end st h = refl
    push_value-lua_of array_end st h = refl
    push_value-lua_of unknown st h = refl

    pub push_object-lua_of :
        (o : Object) (st : Stack)
        → settled_object o ≡ true
        → push_object lib o st ≡ some (lua_of_object o ∷ st)
    push_object-lua_of undetermined st h = cc
    push_object-lua_of (single v) st h = push_value-lua_of v st h
    push_object-lua_of (array xs) st h = push_items-set_items xs 0 new_table st h
    push_object-lua_of (hash fs) st h = push_fields-set_fields fs new_table st h

    push_items-set_items :
        (xs : Items) (idx : ℕ) (t : Table) (st : Stack)
        → settled_items xs ≡ true
        → push_items lib idx xs (t_table t ∷ st) ≡ some (t_table (set_items t idx xs) ∷ st)
    push_items-set_items nil idx t st h = refl
    push_items-set_items (cons v xs) idx t st h =
        rw (push_value-lua_of v (t_integer (pos (idx + 1)) ∷ t_table t ∷ st) (and_left _ _ h)) (
          push_items-set_items xs (idx + 1) (lib.set t (t_integer (pos (idx + 1))) (lua_of v)) st
            (and_right _ _ h))

    push_fields-set_fields :
        (fs : Fields) (t : Table) (st : Stack)
        → settled_fields fs ≡ true
        → push_fields lib fs (t_table t ∷ st) ≡ some (t_table (set_fields t fs) ∷ st)
    push_fields-set_fields end t st h = refl
    push_fields-set_fields (field k v fs) t st h =
        rw (push_value-lua_of v (t_string k ∷ t_table t ∷ st) (and_left _ _ h))
          (push_fields-set_fields fs (lib.set t (t_string k) (lua_of v)) st (and_right _ _ h))

  -- If no object of the type UNDETERMINED stands in an object, exactly one value more is on the stack
  -- after it was pushed, whatever lies below: the one with its contents.
  pub object_to_lua-lua_of :
      (o : Object) (st : Stack)
      → settled_object o ≡ true
      → object_to_lua lib o st ≡ some (lua_of_object o ∷ st)
  unfolding object_to_lua
  object_to_lua-lua_of o st h = push_object-lua_of o st h
