-- ===== src/Script/Call.antt =====
-- `call_script` of server/script.c: a task becomes a call of a Lua function. The stack is taken to
-- have room for the function and its parameters: the source does not ask Lua for it.
pub mod Arguments
pub mod Missing
use mathlib.Core.List.{reverse}
use bspd.Common.{
  ℕ, Bool, true, false, Option, none, some, List, [], ◌∷◌, Bytes, ℤ, ◌==◌, if◌then◌else◌, take,
  drop,
}
use bspd.Json.Value.{Object}
use bspd.Server.Status.{Rtn, rtn_success, rtn_invalid, rtn_err_general}
use bspd.Server.Task.{
  Task, Payload, no_data, text, structured, TaskType, load, raw, ctl, stream, object, command, gc,
  reload, restart,
}
use bspd.Script.Lua.{Lua, t_nil, t_integer, t_string, t_function, Stack, LuaLib, ◌>>=◌}
use bspd.Script.Push.{object_to_lua}

-- `lua_status`, and what the state has been given to run.
pub data Status : Type 0 where
  ok yield dead : Status

pub data Run : Type 0 where
  called : Lua → List Lua → Run
  resumed : List Lua → Run
  not_called : Run

-- `lua_getglobal`, `lua_rawgeti` of the registry, and the conversions of `clt` and `cmd`, which are
-- bit patterns, to `lua_Integer`.
pub record ScriptEnv : Type 0 where
  pub get_global : Bytes → Lua
  pub get_ref : ℕ → Lua
  pub to_integer : ℕ → ℤ
  pub status : Status

-- Data of another type than the task's is not followed.
unfoldable pub push_text : Payload → Stack → Option Stack
push_text no_data st = some (t_nil ∷ st)
push_text (text s) st = some (t_string s ∷ st)
push_text (structured o) st = none

unfoldable pub is_function : Lua → Bool
is_function (t_function f) = true
is_function _ = false

-- `lua_isfunction(s, -1)`
unfoldable pub function_on_top : Stack → Bool
function_on_top [] = false
function_on_top (v ∷ st) = is_function v

-- The call takes its arguments and the function from the top of the stack.
unfoldable pub call_top : ℕ → Stack → Option Run
call_top nargs st = elim (drop nargs st) [
  | [] ↦ none
  | f ∷ rest ↦ some (called f (reverse (take nargs st)))
]

unfoldable pub run_top : Status → ℕ → Stack → Option Run
run_top ok nargs st = call_top nargs st
run_top yield nargs st = some (resumed (reverse (take nargs st)))
run_top dead nargs st = some not_called

-- The stack is cleared whatever the call came to.
unfoldable pub finish : Status → Option (ℕ × Stack) → Option (Rtn × Run × Stack)
finish st none = none
finish st (some (nargs, stack)) = elim (run_top st nargs stack) [
  | none ↦ none
  | some r ↦ some (rtn_success, r, [])
]

module _ (lib : LuaLib) (env : ScriptEnv) where
  open env use {get_global, get_ref, to_integer, status}

  unfoldable pub push_optional : Option Object → Stack → Option Stack
  push_optional none st = some (t_nil ∷ st)
  push_optional (some o) st = object_to_lua lib o st

  unfoldable pub push_structured : Payload → Stack → Option Stack
  push_structured no_data st = some (t_nil ∷ st)
  push_structured (text s) st = none
  push_structured (structured o) st = object_to_lua lib o st

  unfoldable pub push_function : Task → Stack → Stack
  push_function task st = elim task.func [
    | some name ↦ get_global name ∷ st
    | none ↦ if task.ref == 0 then st else get_ref task.ref ∷ st
  ]

  -- The parameters with their number, by the type of the task.
  unfoldable pub push_arguments : TaskType → Task → Stack → Option (ℕ × Stack)
  push_arguments ctl task st = some (1, t_integer (to_integer task.clt) ∷ st)
  push_arguments raw task st =
      push_text task.payload (t_integer (to_integer task.clt) ∷ st)
      >>= (λ (s : Stack). push_optional task.proto s >>= (λ (r : Stack). some (3, r)))
  push_arguments stream task st =
      push_text task.payload (t_integer (to_integer task.clt) ∷ st)
      >>= (λ (s : Stack). push_optional task.proto s >>= (λ (r : Stack). some (3, r)))
  push_arguments object task st =
      push_structured task.payload (t_integer (to_integer task.clt) ∷ st)
      >>= (λ (s : Stack). push_optional task.proto s >>= (λ (r : Stack). some (3, r)))
  push_arguments command task st =
      push_structured task.payload
        (t_integer (to_integer task.cmd) ∷ t_integer (to_integer task.clt) ∷ st)
      >>= (λ (s : Stack). push_optional task.proto s >>= (λ (r : Stack). some (4, r)))
  push_arguments load task st = some (0, st)
  push_arguments gc task st = some (0, st)
  push_arguments reload task st = some (0, st)
  push_arguments restart task st = some (0, st)

  unfoldable pub call_with : Task → Stack → Option (Rtn × Run × Stack)
  call_with task st = finish status (push_arguments task.type_of task st)

  -- `none` is an error outside a protected call, or a use of the stack below its bottom.
  unfoldable pub call_script : Task → Stack → Option (Rtn × Run × Stack)
  call_script task st =
      let st' = push_function task st in
      if function_on_top st' then call_with task st' else some (rtn_err_general, not_called, st')
