-- ===== src/Script/Call/Arguments.antt =====
-- The calls that server/script.c makes for a task.
use bspd.Common.{ap, ◌∙◌, ℕ, ◌≡◌, refl, true, Option, none, some, List, [], ◌∷◌, Bytes, Bool}
use bspd.Json.Value.{Object}
use bspd.Server.Status.{rtn_success}
use bspd.Server.Task.{
  Task, Payload, no_data, text, structured, TaskType, load, raw, ctl, stream, object, command, gc,
  reload, restart,
}
use bspd.Script.Lua.{Lua, t_nil, t_integer, t_string, t_function, Stack, LuaLib}
use bspd.Script.Push.Balance.{settled_object, lua_of_object, object_to_lua-lua_of}
use bspd.Script.Call.{
  Status, ok, called, ScriptEnv, push_text, is_function, function_on_top, call_top, run_top, finish,
  push_optional, push_structured, push_function, push_arguments, call_with, call_script,
}

module _ (lib : LuaLib) (env : ScriptEnv) where
  abbrev pub optional_of : Option Object → Lua
  optional_of none = t_nil
  optional_of (some o) = lua_of_object lib o

  abbrev pub payload_of : Payload → Lua
  payload_of no_data = t_nil
  payload_of (text s) = t_string s
  payload_of (structured o) = lua_of_object lib o

  -- The parameters of the Lua function, in order.
  abbrev pub parameters : TaskType → Task → List Lua
  parameters ctl task = t_integer (env.to_integer task.clt) ∷ []
  parameters raw task =
      t_integer (env.to_integer task.clt) ∷ payload_of task.payload ∷ optional_of task.proto ∷ []
  parameters stream task =
      t_integer (env.to_integer task.clt) ∷ payload_of task.payload ∷ optional_of task.proto ∷ []
  parameters object task =
      t_integer (env.to_integer task.clt) ∷ payload_of task.payload ∷ optional_of task.proto ∷ []
  parameters command task =
      t_integer (env.to_integer task.clt)
      ∷ t_integer (env.to_integer task.cmd)
      ∷ payload_of task.payload
      ∷ optional_of task.proto
      ∷ []
  parameters _ task = []

  abbrev pub settled_optional : Option Object → Bool
  settled_optional none = true
  settled_optional (some o) = settled_object o

  -- The data fits the type of the task, and no object of the type UNDETERMINED stands in it.
  abbrev pub fits : TaskType → Payload → Bool
  fits raw (structured o) = Bool.false
  fits stream (structured o) = Bool.false
  fits object (text s) = Bool.false
  fits object (structured o) = settled_object o
  fits command (text s) = Bool.false
  fits command (structured o) = settled_object o
  fits _ _ = true

  push_optional-optional_of :
      (o : Option Object) (st : Stack)
      → settled_optional o ≡ true
      → push_optional lib env o st ≡ some (optional_of o ∷ st)
  unfolding push_optional
  push_optional-optional_of none st h = refl
  push_optional-optional_of (some o) st h = object_to_lua-lua_of lib o st h

  push_structured-payload_of :
      (d : Payload) (st : Stack)
      → fits object d ≡ true
      → push_structured lib env d st ≡ some (payload_of d ∷ st)
  unfolding push_structured
  push_structured-payload_of no_data st h = refl
  push_structured-payload_of (text s) st h = cc
  push_structured-payload_of (structured o) st h = object_to_lua-lua_of lib o st h

  push_text-payload_of :
      (d : Payload) (st : Stack) → fits raw d ≡ true → push_text d st ≡ some (payload_of d ∷ st)
  unfolding push_text
  push_text-payload_of no_data st h = refl
  push_text-payload_of (text s) st h = refl
  push_text-payload_of (structured o) st h = cc

  pub push_function_named :
      (task : Task) (name : Bytes) (st : Stack)
      → task.func ≡ some name
      → push_function lib env task st ≡ env.get_global name ∷ st
  unfolding push_function
  push_function_named task name st n = rw n refl

  -- What is called when the function and its parameters are on the stack.
  call_task :
      (type : TaskType) (task : Task) (f : ℕ) (st : Stack)
      → fits type task.payload ≡ true
      → settled_optional task.proto ≡ true
      → finish ok (push_arguments lib env type task (t_function f ∷ st))
        ≡ some (rtn_success, called (t_function f) (parameters type task), [])
  unfolding push_arguments finish run_top call_top
  call_task load task f st h p = refl
  call_task raw task f st h p =
      rw
        (
          push_text-payload_of task.payload
              (t_integer (env.to_integer task.clt) ∷ t_function f ∷ st) h,
          push_optional-optional_of task.proto
              (payload_of task.payload ∷ t_integer (env.to_integer task.clt) ∷ t_function f ∷ st) p,
        )
        refl
  call_task ctl task f st h p = refl
  call_task stream task f st h p =
      rw
        (
          push_text-payload_of task.payload
              (t_integer (env.to_integer task.clt) ∷ t_function f ∷ st) h,
          push_optional-optional_of task.proto
              (payload_of task.payload ∷ t_integer (env.to_integer task.clt) ∷ t_function f ∷ st) p,
        )
        refl
  call_task object task f st h p =
      rw
        (
          push_structured-payload_of task.payload
              (t_integer (env.to_integer task.clt) ∷ t_function f ∷ st) h,
          push_optional-optional_of task.proto
              (payload_of task.payload ∷ t_integer (env.to_integer task.clt) ∷ t_function f ∷ st) p,
        )
        refl
  call_task command task f st h p =
      rw
        (
          push_structured-payload_of task.payload
              (t_integer (env.to_integer task.cmd)
                ∷ t_integer (env.to_integer task.clt)
                ∷ t_function f
                ∷ st)
              h,
          push_optional-optional_of task.proto
              (payload_of task.payload
                ∷ t_integer (env.to_integer task.cmd)
                ∷ t_integer (env.to_integer task.clt)
                ∷ t_function f
                ∷ st)
              p,
        )
        refl
  call_task gc task f st h p = refl
  call_task reload task f st h p = refl
  call_task restart task f st h p = refl

  -- A task with the name of a Lua function calls it with the client, the command where it has one,
  -- the data and the headers, nil for those that it lacks, whatever lay on the stack, and leaves
  -- the stack empty: if the state is idle, the data is of the task's type, and no object of the
  -- type UNDETERMINED stands in it or in the headers.
  pub call_script-parameters :
      (task : Task) (name : Bytes) (f : ℕ) (st : Stack)
      → env.status ≡ ok
      → task.func ≡ some name
      → env.get_global name ≡ t_function f
      → fits task.type_of task.payload ≡ true
      → settled_optional task.proto ≡ true
      → call_script lib env task st
        ≡ some (rtn_success, called (t_function f) (parameters task.type_of task), [])
  unfolding call_script call_with function_on_top is_function
  call_script-parameters task name f st e n g h p =
      rw (push_function_named task name st n, g)
        (ap
            (λ (s : Status).
              finish s (push_arguments lib env task.type_of task (t_function f ∷ st)))
            e
          ∙ call_task task.type_of task f st h p)
