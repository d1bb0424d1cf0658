-- ===== src/Script/Container.antt =====
-- The script containers of server/script.c, what is loaded into them, and the functions that
-- wrapper/standard.c, global.c and misc.c register there.
pub mod Registered
use bspd.Common.{
  Bool, true, false, ◌&&◌, Option, none, some, List, [], ◌∷◌, ◌==◌, if◌then◌else◌, Bytes, codes,
}
use bspd.Json.Value.{Object, hash, end}
use bspd.Server.Status.{
  Rtn, rtn_success, rtn_invalid, rtn_err_general, rtn_err_memory, rtn_err_io_read,
}

-- The functions for scripts, by their names in the source.
pub data CFunction : Type 0 where
  standard_net_close standard_net_send standard_net_send_channel : CFunction
  standard_reg_session standard_unreg_session standard_check_session : CFunction
  standard_new_channel standard_del_channel standard_join_channel : CFunction
  standard_quit_channel standard_list_channel standard_new_timer standard_stop_timer : CFunction
  global_set global_get global_flush : CFunction
  misc_random_int misc_base64_encode misc_base64_decode misc_var_dump : CFunction

-- What `luaL_loadfile` and `luaL_loadbuffer` return.
pub data LoadStatus : Type 0 where
  lua_ok lua_errfile lua_errsyntax lua_errmem lua_errgcmm lua_other : LoadStatus

-- A state of Lua and the calls on it: `luaL_openlibs`, `lua_checkstack` for one slot,
-- `lua_pushcfunction` with `lua_setglobal`, the two loaders, and `lua_pcall` of the chunk that was
-- loaded, which takes it off the stack, and leaves a message there if it fails.
pub record LuaVm : Type 1 where
  pub State : Type 0
  pub open_libs : State → State
  pub has_room : State → Bool
  pub set_global : Bytes → CFunction → State → State
  pub load_file : Bytes → State → LoadStatus × State
  pub load_buffer : Bytes → State → LoadStatus × State
  pub run_chunk : State → Bool × State

-- The functions by their names in Lua, in the order in which they are registered.
abbrev pub standard_functions : List (Bytes × CFunction)
standard_functions =
    (codes "bsp_net_close", standard_net_close)
    ∷ (codes "bsp_net_send", standard_net_send)
    ∷ (codes "bsp_net_send_channel", standard_net_send_channel)
    ∷ (codes "bsp_reg_session", standard_reg_session)
    ∷ (codes "bsp_unreg_session", standard_unreg_session)
    ∷ (codes "bsp_check_session", standard_check_session)
    ∷ (codes "bsp_new_channel", standard_new_channel)
    ∷ (codes "bsp_del_channel", standard_del_channel)
    ∷ (codes "bsp_join_channel", standard_join_channel)
    ∷ (codes "bsp_quit_channel", standard_quit_channel)
    ∷ (codes "bsp_list_channel", standard_list_channel)
    ∷ (codes "bsp_new_timer", standard_new_timer)
    ∷ (codes "bsp_stop_timer", standard_stop_timer)
    ∷ []

abbrev pub global_functions : List (Bytes × CFunction)
global_functions =
    (codes "bsp_global_set", global_set)
    ∷ (codes "bsp_global_get", global_get)
    ∷ (codes "bsp_global_flush", global_flush)
    ∷ []

abbrev pub misc_functions : List (Bytes × CFunction)
misc_functions =
    (codes "bsp_random_int", misc_random_int)
    ∷ (codes "bsp_base64_encode", misc_base64_encode)
    ∷ (codes "bsp_base64_decode", misc_base64_decode)
    ∷ (codes "bsp_var_dump", misc_var_dump)
    ∷ []

-- `_global_init`: the store is made where it is not there yet.
unfoldable pub global_init : Option Object → Option Object
global_init none = some (hash end)
global_init (some store) = some store

module _ (vm : LuaVm) where
  open vm use {State, open_libs, has_room, set_global, load_file, load_buffer, run_chunk}

  -- A container with its state, which may be NULL. A state that is closed is not used again.
  pub record Script : Type 0 where
    pub state : Option State

  -- The argument is what `lua_newstate` returns.
  unfoldable pub new_script_container : Option State → Option Script
  new_script_container none = none
  new_script_container (some s) = some (record { state = some (open_libs s) })

  unfoldable pub del_script_container : Option Script → Rtn × Option Script
  del_script_container none = (rtn_invalid, none)
  del_script_container (some scrt) = (rtn_success, none)

  unfoldable pub restart_script_container : Option State → Option Script → Rtn × Option Script
  restart_script_container fresh none = (rtn_invalid, none)
  restart_script_container none (some scrt) = (rtn_err_general, some (record { state = none }))
  restart_script_container (some s) (some scrt) =
      (rtn_success, some (record { state = some (open_libs s) }))

  -- A chunk that fails counts as loaded.
  unfoldable pub file_loaded : LoadStatus × State → Rtn × State
  file_loaded (lua_ok, s) = (rtn_success, (run_chunk s).1)
  file_loaded (lua_errfile, s) = (rtn_err_io_read, s)
  file_loaded (lua_errsyntax, s) = (rtn_err_general, s)
  file_loaded (lua_errmem, s) = (rtn_err_memory, s)
  file_loaded (lua_errgcmm, s) = (rtn_err_general, s)
  file_loaded (lua_other, s) = (rtn_invalid, s)

  unfoldable pub content_loaded : LoadStatus × State → Rtn × State
  content_loaded (lua_ok, s) = (rtn_success, (run_chunk s).1)
  content_loaded (lua_errfile, s) = (rtn_invalid, s)
  content_loaded (lua_errsyntax, s) = (rtn_err_general, s)
  content_loaded (lua_errmem, s) = (rtn_err_memory, s)
  content_loaded (lua_errgcmm, s) = (rtn_err_general, s)
  content_loaded (lua_other, s) = (rtn_invalid, s)

  -- The loader runs if the state and the argument are there.
  unfoldable pub load_with :
      {A : Type 0} → (A → State → Rtn × State) → Option State → Option A → Rtn × Option State
  load_with load (some s) (some a) = let (code, s') = load a s in (code, some s')
  load_with load none a = (rtn_invalid, none)
  load_with load (some s) none = (rtn_invalid, some s)

  unfoldable pub load_script_file : Option Script → Option Bytes → Rtn × Option Script
  unfolding load_with file_loaded
  load_script_file none name = (rtn_invalid, none)
  load_script_file (some scrt) name =
      let (code, state) = load_with (λ file s. file_loaded (load_file file s)) scrt.state name in
      (code, some (record { state = state }))

  unfoldable pub load_script_content : Option Script → Option Bytes → Rtn × Option Script
  unfolding load_with content_loaded
  load_script_content none script = (rtn_invalid, none)
  load_script_content (some scrt) script =
      let (code, state) =
        load_with (λ text s. content_loaded (load_buffer text s)) scrt.state script in
      (code, some (record { state = state }))

  unfoldable pub register : List (Bytes × CFunction) → State → State
  register [] s = s
  register ((name, f) ∷ fs) s = register fs (set_global name f s)

  -- `module_standard` and `module_misc` refuse NULL and a full stack.
  checked : List (Bytes × CFunction) → Option State → Rtn × Option State
  unfolding register
  checked fs none = (rtn_invalid, none)
  checked fs (some s) =
      if has_room s then (rtn_success, some (register fs s)) else (rtn_invalid, some s)

  unfoldable pub module_standard : Option State → Rtn × Option State
  unfolding checked
  module_standard s = checked standard_functions s

  unfoldable pub module_misc : Option State → Rtn × Option State
  unfolding checked
  module_misc s = checked misc_functions s

  -- The store is the one that the states share. `none` is a use of NULL, which is not tested.
  unfoldable pub module_global :
      Option State → Option Object → Option (Option State × Option Object)
  unfolding register global_init
  module_global none store = none
  module_global (some s) store = some (some (register global_functions s), global_init store)

  unfoldable pub misc_after :
      Option (Option State × Option Object) → Option (Option State × Option Object)
  misc_after none = none
  misc_after (some (s, store)) = some ((module_misc s).1, store)

  -- The macro `LOAD_WRAPPERS`
  unfoldable pub load_wrappers :
      Option State → Option Object → Option (Option State × Option Object)
  unfolding misc_after
  load_wrappers s store = misc_after (module_global (module_standard s).1 store)
