-- ===== src/Script/Call/Missing.antt =====
-- Tasks of server/script.c whose function does not exist.
use bspd.Common.{◌≡◌, refl, false, some, ◌∷◌, Bytes}
use bspd.Server.Status.{rtn_err_general}
use bspd.Server.Task.{Task}
use bspd.Script.Lua.{Stack, LuaLib}
use bspd.Script.Call.Arguments.{push_function_named}
use bspd.Script.Call.{not_called, ScriptEnv, is_function, function_on_top, call_script}

module _ (lib : LuaLib) (env : ScriptEnv) where
  pub call_script_no_function :
      (task : Task) (name : Bytes) (st : Stack)
      → task.func ≡ some name
      → is_function (env.get_global name) ≡ false
      → call_script lib env task st ≡ some (rtn_err_general, not_called, env.get_global name ∷ st)
  unfolding call_script function_on_top
  call_script_no_function task name st e f = rw (push_function_named lib env task name st e, f) refl
