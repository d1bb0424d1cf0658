-- ===== src/Script/RoundTrip/Objects.antt =====
-- `lua_to_object` of server/script.c after `object_to_lua`.
use mathlib.Core.Path.{subst}
use bspd.Common.{ℕ, suc, ◌≤◌, ◌≡◌, refl, true, some, ◌∷◌, arith}
use bspd.Json.Value.{Value, object, Object, undetermined, single, array, hash, Items, Fields}
use bspd.Script.Lua.{Lua, Stack, LuaLib, LuaLaws}
use bspd.Script.Push.{object_to_lua}
use bspd.Script.Push.Balance.{
  settled, settled_object, settled_items, settled_fields, lua_of_object, object_to_lua-lua_of,
}
use bspd.Script.Read.{Outcome, done, lua_error, no_fuel, ◌>>=◌, value_of_lua, lua_to_object}
use bspd.Script.RoundTrip.{
  Readable, readable_uint, readable_int, readable_double, readable_boolean, readable_string,
  readable_pointer, readable_array, readable_hash, ReadableItems, readable_nil, readable_cons,
  ReadableFields, readable_end, readable_field, Back, depth,
}
use bspd.Script.RoundTrip.Values.{value-Back}

mutual
  unfolding settled

  Readable-settled : {v : Value} → Readable v → settled v ≡ true
  Readable-settled (readable_uint e) = refl
  Readable-settled (readable_int e) = refl
  Readable-settled (readable_double d) = refl
  Readable-settled (readable_boolean b) = refl
  Readable-settled (readable_string s) = refl
  Readable-settled (readable_pointer p) = refl
  Readable-settled (readable_array rs) = items-settled rs
  Readable-settled (readable_hash rs) = fields-settled rs

  items-settled : {xs : Items} → ReadableItems xs → settled_items xs ≡ true
  items-settled readable_nil = refl
  items-settled (readable_cons r rs) = rw (Readable-settled r, items-settled rs) refl

  fields-settled : {fs : Fields} → ReadableFields fs → settled_fields fs ≡ true
  fields-settled readable_end = refl
  fields-settled (readable_field h r rs) = rw (Readable-settled r, fields-settled rs) refl

object_settled : (o : Object) → Readable (object o) → settled_object o ≡ true
unfolding settled
object_settled o r = Readable-settled r

module _ (lib : LuaLib) (laws : LuaLaws lib) where
  done_object :
      (r : Outcome Object) {w : Value} {v : Value}
      → (r >>= (λ (o : Object). done (object o))) ≡ done w
      → Back lib v w
      → (o : Object) × (r ≡ done o) × Back lib v (object o)
  done_object (done o) {w} {v} e b =
      let p : w ≡ object o = cc in (o, refl, subst (λ (x : Value). Back lib v x) p b)
  done_object lua_error e b = absurd cc
  done_object no_fuel e b = absurd cc

  object-Back :
      (o : Object) (fuel : ℕ)
      → Readable (object o)
      → depth (object o) ≤ fuel
      → (w : Object) × (lua_to_object lib fuel (lua_of_object lib o) ≡ done w)
        × Back lib (object o) (object w)
  unfolding lua_to_object value_of_lua lua_of_object
  object-Back (array xs) fuel r d =
      let w = value-Back lib laws (suc fuel) r (omega arith) in
      done_object (lua_to_object lib fuel (lua_of_object lib (array xs))) w.1 w.2
  object-Back (hash fs) fuel r d =
      let w = value-Back lib laws (suc fuel) r (omega arith) in
      done_object (lua_to_object lib fuel (lua_of_object lib (hash fs))) w.1 w.2
  object-Back undetermined fuel r d = elim r [ ]
  object-Back (single v) fuel r d = elim r [ ]

  -- An array or a hash that Lua can hold (integers that a double holds exactly, doubles, Booleans,
  -- texts, pointers, nested arrays, and nested hashes that are not empty and have no key twice) is
  -- one value on Lua's stack, and that value is read back as the same object, but that an unsigned
  -- integer comes back signed, a double with an integral value as an integer, and the pairs of a
  -- hash in any order. Fuel is enough that is not below the nesting of the object.
  pub lua_to_object-object_to_lua :
      (o : Object) (st : Stack) (fuel : ℕ)
      → Readable (object o)
      → depth (object o) ≤ fuel
      → (l : Lua) × (w : Object) × (object_to_lua lib o st ≡ some (l ∷ st))
        × (lua_to_object lib fuel l ≡ done w)
        × Back lib (object o) (object w)
  lua_to_object-object_to_lua o st fuel r d =
      let w = object-Back o fuel r d in
      (lua_of_object lib o, w.0, object_to_lua-lua_of lib o st (object_settled o r), w.1, w.2)
