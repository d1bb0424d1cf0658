-- ===== src/Script/Push/Broken.antt =====
-- Arrays that server/script.c cannot push on Lua's stack.
use bspd.Common.{ℕ, ◌+◌, ◌≡◌, refl, Bool, true, false, and_left, and_right, none, [], ◌∷◌, pos}
use bspd.Json.Value.{object, undetermined, array, Items, nil, cons}
use bspd.Json.RoundTrip.Rounds.{concat_items}
use bspd.Script.Lua.{
  Lua, t_nil, t_boolean, t_integer, t_number, t_string, t_light_userdata, t_userdata, t_table,
  t_function, t_thread, Table, new_table, Stack, LuaLib,
}
use bspd.Script.Push.{settable, push_value, push_object, push_items, object_to_lua}
use bspd.Script.Push.Balance.{settled_items, lua_of, push_value-lua_of}

-- Whether the value on top is a table.
unfoldable pub table_on_top : Stack → Bool
table_on_top (t_table t ∷ st) = true
table_on_top _ = false

module _ (lib : LuaLib) where
  settable_no_table :
      (v k : Lua) (st : Stack) → table_on_top st ≡ false → settable lib (v ∷ k ∷ st) ≡ none
  unfolding settable table_on_top
  settable_no_table v k [] h = refl
  settable_no_table v k (t_nil ∷ st) h = refl
  settable_no_table v k (t_boolean b ∷ st) h = refl
  settable_no_table v k (t_integer z ∷ st) h = refl
  settable_no_table v k (t_number d ∷ st) h = refl
  settable_no_table v k (t_string s ∷ st) h = refl
  settable_no_table v k (t_light_userdata p ∷ st) h = refl
  settable_no_table v k (t_userdata p ∷ st) h = refl
  settable_no_table v k (t_table t ∷ st) h = cc
  settable_no_table v k (t_function f ∷ st) h = refl
  settable_no_table v k (t_thread p ∷ st) h = refl

  push_items_undetermined :
      (xs ys : Items) (idx : ℕ) (t : Table) (st : Stack)
      → settled_items xs ≡ true
      → table_on_top st ≡ false
      → push_items lib idx (concat_items xs (cons (object undetermined) ys)) (t_table t ∷ st) ≡ none
  unfolding push_items push_value settled_items settable
  push_items_undetermined nil ys idx t st h n =
      rw (settable_no_table (t_integer (pos (idx + 1))) (t_table t) st n) refl
  push_items_undetermined (cons v xs) ys idx t st h n =
      rw (push_value-lua_of lib v (t_integer (pos (idx + 1)) ∷ t_table t ∷ st) (and_left _ _ h)) (
        push_items_undetermined xs ys (idx + 1)
          (lib.set t (t_integer (pos (idx + 1))) (lua_of lib v)) st (and_right _ _ h) n)

  -- An array with an object of the type UNDETERMINED among its items, the first such one, makes Lua
  -- raise an error, unless the value below is a table.
  pub object_to_lua_undetermined :
      (xs ys : Items) (st : Stack)
      → settled_items xs ≡ true
      → table_on_top st ≡ false
      → object_to_lua lib (array (concat_items xs (cons (object undetermined) ys))) st ≡ none
  unfolding object_to_lua push_object
  object_to_lua_undetermined xs ys st h n = push_items_undetermined xs ys 0 new_table st h n
