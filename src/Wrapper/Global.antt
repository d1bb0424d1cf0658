-- ===== src/Wrapper/Global.antt =====
-- wrapper/global.c: a store of nested hashes that the Lua states share, with paths of keys
-- separated by full stops. The lock makes each call one step.
pub mod Paths
pub mod Others
use bspd.Common.{Bool, true, false, Option, none, some, [], ◌∷◌, ◌++◌, ◌==◌, if◌then◌else◌, Bytes}
use bspd.Json.Value.{Value, object, Object, undetermined, single, array, hash, end}
use bspd.Script.Lua.{t_nil, t_boolean, Stack, LuaLib}
use bspd.Script.Push.{object_to_lua}

-- `bsp_object_value_hash` and `bsp_object_set_hash`, where `none` takes the key away.
pub record StoreLib : Type 0 where
  pub value_hash : Object → Bytes → Option Value
  pub set_hash : Object → Bytes → Option Value → Object

-- The object on the way, if the value is one.
unfoldable pub sub_object : Option Value → Option Object
sub_object (some (object o)) = some o
sub_object _ = none

-- What is stored of the object that `lua_to_object` makes.
unfoldable pub stored : Object → Value
stored (single v) = v
stored o = object o

-- The object below, or a new hash.
unfoldable pub sub_or_new : Option Object → Object
sub_or_new (some sub) = sub
sub_or_new none = hash end

abbrev pub on_sub : {A : Type 0} → A → (Object → A) → Option Object → A
on_sub missing f none = missing
on_sub missing f (some sub) = f sub

module _ (store : StoreLib) where
  open store use {value_hash, set_hash}

  -- `if (val) bsp_object_set_hash(obj, key, NULL)`
  unfoldable pub without : Object → Bytes → Object
  without obj key = elim (value_hash obj key) [ none ↦ obj | some v ↦ set_hash obj key none ]

  unfoldable pub set_last : Object → Bytes → Object → Object
  unfolding stored
  set_last obj key new = set_hash (without obj key) key (some (stored new))

  -- A path that ends with a full stop, and the empty one, set nothing.
  unfoldable pub set_end : Object → Bytes → Object → Object
  set_end obj [] new = obj
  set_end obj (x ∷ seg) new = set_last obj (x ∷ seg) new

  -- The changed object below a key is in its place again.
  unfoldable pub put_sub : Object → Bytes → Option Object → Object → Object
  put_sub obj key (some old) sub = set_hash obj key (some (object sub))
  put_sub obj key none sub = set_hash (without obj key) key (some (object sub))

  -- The rest of the path, from an object on; `seg` is what was read of the key.
  unfoldable pub set_from : Object → Bytes → Bytes → Object → Object
  set_from obj seg [] new = set_end obj seg new
  set_from obj seg (c ∷ path) new =
      let sub = sub_object (value_hash obj seg) in
      let below = set_from (sub_or_new sub) [] path new in
      let more = set_from obj (seg ++ c ∷ []) path new in
      if c == b'.' then put_sub obj seg sub below else more

  -- `new` is the object that `lua_to_object` makes of the second argument.
  unfoldable pub global_set : Object → Option Bytes → Object → Stack → Object × Stack
  global_set base none new st = (base, t_boolean false ∷ st)
  global_set base (some path) new st = (set_from base [] path new, t_boolean true ∷ st)

  unfoldable pub get_from : Object → Bytes → Bytes → Option Value
  get_from obj seg [] = value_hash obj seg
  get_from obj seg (c ∷ path) =
      let more = get_from obj (seg ++ c ∷ []) path in
      if c == b'.'
      then on_sub none (λ (sub : Object). get_from sub [] path) (sub_object (value_hash obj seg))
      else more

  -- The value goes to Lua in an object of the type SINGLE.
  unfoldable pub push_found : LuaLib → Option Value → Stack → Option Stack
  push_found lua none st = some (t_nil ∷ st)
  push_found lua (some v) st = object_to_lua lua (single v) st

  unfoldable pub global_get : LuaLib → Object → Option Bytes → Stack → Option Stack
  global_get lua base none st = some (t_nil ∷ st)
  global_get lua base (some path) st = push_found lua (get_from base [] path) st
