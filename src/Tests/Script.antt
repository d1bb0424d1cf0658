-- ===== src/Tests/Script.antt =====
-- Runs of server/script.c and of the workers of server/main.c.
use bspd.Common.{
  ◌≡◌, refl, arith, true, Option, none, some, [], ◌∷◌, ◌==◌, if◌then◌else◌, Bytes, codes, pos,
}
use bspd.Json.Value.{int, boolean, string, object, Object, array, hash, nil, cons, end, field}
use bspd.Server.Queue.{Node, Queue}
use bspd.Server.Queue.Chain
use bspd.Server.Status.{rtn_success}
use bspd.Server.Task.{Ptr, null_ptr, Task, ctl, structured}
use bspd.Server.Task
use bspd.Script.Lua.{Lua, t_nil, t_integer, t_string, t_table, t_function, new_table, entry}
use bspd.Script.Push.{object_to_lua}
use bspd.Script.Push.Balance.{settled, lua_of_object, object_to_lua-lua_of}
use bspd.Script.Read.{done, lua_to_object}
use bspd.Script.RoundTrip.{
  readable_uint, readable_int, readable_boolean, readable_string, readable_array, readable_hash,
  readable_nil, readable_cons, readable_end, readable_field, Back,
}
use bspd.Script.RoundTrip
use bspd.Script.RoundTrip.Objects.{lua_to_object-object_to_lua}
use bspd.Script.Call.{ScriptEnv, ok, called, call_script}
use bspd.Script.Call.Arguments.{call_script-parameters}
use bspd.Tests.Clients.{pairs, same, world}
use bspd.Server.Clients.{assign}
use bspd.Server.Connect.{State}
use bspd.Tests.Connect.{idle, caller}
use bspd.Tests.Lua.{lua, lua_laws}
use bspd.Tests.Queue.{blank}

-- {"a": [true, 3], "b": "x"}
abbrev sample : Object
sample = hash (
    field (codes "a") (object (array (cons (boolean true) (cons (int (pos 3)) nil))))
      (field (codes "b") (string (codes "x")) end))

object_to_lua-lua_of_example :
    object_to_lua lua sample (t_integer (pos 7) ∷ [])
    ≡ some (lua_of_object lua sample ∷ t_integer (pos 7) ∷ [])
unfolding settled
object_to_lua-lua_of_example = object_to_lua-lua_of lua sample (t_integer (pos 7) ∷ []) refl

abbrev nested : Lua
nested = t_table (entry (t_string (codes "a")) (t_table new_table) new_table)

lua_to_object-object_to_lua_example :
    (l : Lua) × (w : Object) × (object_to_lua lua sample [] ≡ some (l ∷ []))
    × (lua_to_object lua 2 l ≡ done w)
    × Back lua (object sample) (object w)
unfolding RoundTrip.depth
lua_to_object-object_to_lua_example =
    lua_to_object-object_to_lua lua lua_laws sample [] 2
      (readable_hash (
        readable_field ((λ e. ground arith), tt)
          (readable_array (
            readable_cons (readable_boolean true)
              (readable_cons (readable_int {z = pos 3} (omega arith)) readable_nil)))
          (readable_field tt (readable_string (codes "x")) readable_end)))
      (omega arith)

-- The only function of the script is `hook`.
abbrev globals : Bytes → Lua
globals name = if same name (codes "hook") then t_function 64 else t_nil

abbrev script : ScriptEnv
script = record { get_global = globals; get_ref = λ r. t_nil; to_integer = pos; status = ok }

abbrev hook_task : Task
hook_task = record blank {
  type_of = Task.object;
  func = some (codes "hook");
  clt = 5;
  payload = structured sample;
}

call_script-parameters_example :
    call_script lua script hook_task (t_nil ∷ [])
    ≡ some (
      rtn_success,
      called (t_function 64) (t_integer (pos 5) ∷ lua_of_object lua sample ∷ t_nil ∷ []),
      [],
    )
unfolding settled
call_script-parameters_example =
    call_script-parameters lua script hook_task (codes "hook") 64 (t_nil ∷ []) refl refl refl refl
      refl

abbrev one_block : Task → Ptr → Option Node
one_block t p = if p == 16 then some (record { task = t; next = null_ptr }) else none

abbrev one_task : Task → Queue
one_task t = record { head = 16; tail = 16; cell = one_block t }

-- The client 8 has a session that is not logged on, and goes when its task was run.
abbrev leaving : State pairs
leaving = record idle {
  clients = λ p. if p == 8 then some (record caller { additional = 80 }) else none;
}

abbrev left : State pairs
left = record leaving { world = record world { sessions = assign world.sessions 80 none } }

abbrev leaving_task : Task
leaving_task = record hook_task { follow_up = some 8 }
