-- ===== src/Script/Container/Registered.antt =====
-- Which functions a script finds once `LOAD_WRAPPERS` has run.
use bspd.Common.{
  codes, sym, arith, Bool-cases, inl, inr, if_false, ◌≡◌, ◌≢◌, refl, ap, ◌∙◌, Bool, true, false,
  ◌&&◌, if_true, Option, some, List, [], ◌∷◌, ◌++◌, ◌==◌, if◌then◌else◌, Bytes, All,
}
use bspd.Server.Status.{Rtn, rtn_success}
use bspd.Json.Value.{Object}
use bspd.Script.Container.{
  CFunction, standard_net_close, standard_net_send, standard_net_send_channel, standard_reg_session,
  standard_unreg_session, standard_check_session, standard_new_channel, standard_del_channel,
  standard_join_channel, standard_quit_channel, standard_list_channel, standard_new_timer,
  standard_stop_timer, global_set, global_get, global_flush, misc_random_int, misc_base64_encode,
  misc_base64_decode, misc_var_dump, LuaVm, standard_functions, global_functions, misc_functions,
  global_init, register, module_standard, module_global, module_misc, misc_after, load_wrappers,
}

abbrev pub same_name : Bytes → Bytes → Bool
same_name [] [] = true
same_name [] (y ∷ s) = false
same_name (x ∷ t) [] = false
same_name (x ∷ t) (y ∷ s) = x == y && same_name t s

-- What a table of functions has under a name; a later line hides an earlier one.
abbrev find : Bytes → List (Bytes × CFunction) → Option CFunction → Option CFunction
find key [] old = old
find key ((name, f) ∷ fs) old = find key fs (if same_name name key then some f else old)

-- All the functions, in the order in which `LOAD_WRAPPERS` registers them.
abbrev pub functions : List (Bytes × CFunction)
functions = standard_functions ++ (global_functions ++ misc_functions)

module _ (vm : LuaVm) (get_global : vm.State → Bytes → Option CFunction) where
  -- What the manual says of a global: it is found under its name, and no other changes.
  pub record GlobalLaws : Type 0 where
    pub get_global-set_global :
        (s : vm.State) (name key : Bytes) (f : CFunction)
        → get_global (vm.set_global name f s) key
          ≡ (if same_name name key then some f else get_global s key)
    pub has_room : (s : vm.State) → vm.has_room s ≡ true

  module _ (laws : GlobalLaws) where
    get_global-register :
        (fs : List (Bytes × CFunction)) (s : vm.State) (key : Bytes)
        → get_global (register vm fs s) key ≡ find key fs (get_global s key)
    unfolding register
    get_global-register [] s key = refl
    get_global-register ((name, f) ∷ fs) s key =
        get_global-register fs (vm.set_global name f s) key
        ∙ ap (find key fs) (laws.get_global-set_global s name key f)

module _ (vm : LuaVm) where
  register-append :
      (fs gs : List (Bytes × CFunction)) (s : vm.State)
      → register vm gs (register vm fs s) ≡ register vm (fs ++ gs) s
  unfolding register
  register-append [] gs s = refl
  register-append ((name, f) ∷ fs) gs s = register-append fs gs (vm.set_global name f s)

module _ (vm : LuaVm) (room : (t : vm.State) → vm.has_room t ≡ true) where
  module_standard-register :
      (s : vm.State)
      → module_standard vm (some s) ≡ (rtn_success, some (register vm standard_functions s))
  unfolding module_standard
  module_standard-register s = if_true _ _ _ (room s)

  module_misc-register :
      (s : vm.State) → module_misc vm (some s) ≡ (rtn_success, some (register vm misc_functions s))
  unfolding module_misc
  module_misc-register s = if_true _ _ _ (room s)

  module_global-register :
      (s : vm.State) (store : Option Object)
      → module_global vm (some s) store
        ≡ some (some (register vm global_functions s), global_init store)
  unfolding module_global
  module_global-register s store = refl

  -- Where the stack has room, the three modules register their functions one after the other.
  pub load_wrappers-register :
      (s : vm.State) (store : Option Object)
      → load_wrappers vm (some s) store ≡ some (some (register vm functions s), global_init store)
  unfolding load_wrappers
  load_wrappers-register s store =
      let s1 = register vm standard_functions s in
      let s2 = register vm global_functions s1 in
      ap (λ (r : Rtn × Option vm.State). misc_after vm (module_global vm r.1 store))
        (module_standard-register s)
      ∙ ap (misc_after vm) (module_global-register s1 store)
      ∙ ap (λ (r : Rtn × Option vm.State). some (r.1, global_init store)) (module_misc-register s2)
      ∙ ap (λ (t : vm.State). some (some t, global_init store))
          (ap (register vm misc_functions)
              (register-append vm standard_functions global_functions s)
            ∙ register-append vm (standard_functions ++ global_functions) misc_functions s)

-- The name that a script calls each function of the source by.
abbrev pub lua_name : CFunction → Bytes
lua_name standard_net_close = codes "bsp_net_close"
lua_name standard_net_send = codes "bsp_net_send"
lua_name standard_net_send_channel = codes "bsp_net_send_channel"
lua_name standard_reg_session = codes "bsp_reg_session"
lua_name standard_unreg_session = codes "bsp_unreg_session"
lua_name standard_check_session = codes "bsp_check_session"
lua_name standard_new_channel = codes "bsp_new_channel"
lua_name standard_del_channel = codes "bsp_del_channel"
lua_name standard_join_channel = codes "bsp_join_channel"
lua_name standard_quit_channel = codes "bsp_quit_channel"
lua_name standard_list_channel = codes "bsp_list_channel"
lua_name standard_new_timer = codes "bsp_new_timer"
lua_name standard_stop_timer = codes "bsp_stop_timer"
lua_name global_set = codes "bsp_global_set"
lua_name global_get = codes "bsp_global_get"
lua_name global_flush = codes "bsp_global_flush"
lua_name misc_random_int = codes "bsp_random_int"
lua_name misc_base64_encode = codes "bsp_base64_encode"
lua_name misc_base64_decode = codes "bsp_base64_decode"
lua_name misc_var_dump = codes "bsp_var_dump"

-- The name of a function has it, whatever was there.
find-lua_name : (f : CFunction) (old : Option CFunction) → find (lua_name f) functions old ≡ some f
find-lua_name standard_net_close old = refl
find-lua_name standard_net_send old = refl
find-lua_name standard_net_send_channel old = refl
find-lua_name standard_reg_session old = refl
find-lua_name standard_unreg_session old = refl
find-lua_name standard_check_session old = refl
find-lua_name standard_new_channel old = refl
find-lua_name standard_del_channel old = refl
find-lua_name standard_join_channel old = refl
find-lua_name standard_quit_channel old = refl
find-lua_name standard_list_channel old = refl
find-lua_name standard_new_timer old = refl
find-lua_name standard_stop_timer old = refl
find-lua_name global_set old = refl
find-lua_name global_get old = refl
find-lua_name global_flush old = refl
find-lua_name misc_random_int old = refl
find-lua_name misc_base64_encode old = refl
find-lua_name misc_base64_decode old = refl
find-lua_name misc_var_dump old = refl

same_name_sound : (s t : Bytes) → same_name s t ≡ true → s ≡ t
same_name_sound [] [] h = refl
same_name_sound [] (y ∷ t) h = cc
same_name_sound (x ∷ s) [] h = cc
same_name_sound (x ∷ s) (y ∷ t) h = ground (arith, same_name_sound s t)

functions_named : All (λ (e : Bytes × CFunction). e.0 ≡ lua_name e.1) functions
functions_named = (
  refl,
  (
    refl,
    (
      refl,
      (
        refl,
        (
          refl,
          (
            refl,
            (
              refl,
              (
                refl,
                (
                  refl,
                  (
                    refl,
                    (
                      refl,
                      (refl, (refl, (refl, (refl, (refl, (refl, (refl, (refl, (refl, tt))))))))),
                    ),
                  ),
                ),
              ),
            ),
          ),
        ),
      ),
    ),
  ),
)

-- A name of none of the functions keeps what it had.
find_other :
    (key : Bytes) (fs : List (Bytes × CFunction)) (old : Option CFunction)
    → All (λ (e : Bytes × CFunction). e.0 ≡ lua_name e.1) fs
    → ((f : CFunction) → lua_name f ≢ key)
    → find key fs old ≡ old
find_other key [] old h ne = refl
find_other key ((name, f) ∷ fs) old h ne = elim (Bool-cases (same_name name key)) [
  | inl e ↦ absurd (ne f (sym h.0 ∙ same_name_sound name key e))
  | inr e ↦
      ap (find key fs) (if_false (same_name name key) (some f) old e) ∙ find_other key fs old h.1 ne
]

module _ (vm : LuaVm) (get_global : vm.State → Bytes → Option CFunction) where
  -- After `LOAD_WRAPPERS` a script finds each of the twenty functions under the name that it is called
  -- by, and under any other name what it had, if the stack has room and Lua keeps its globals apart.
  pub load_wrappers-get_global :
      (s : vm.State) (store : Option Object)
      → GlobalLaws vm get_global
      → (s' : vm.State) × (load_wrappers vm (some s) store ≡ some (some s', global_init store))
        × ((f : CFunction) → get_global s' (lua_name f) ≡ some f)
        × ((key : Bytes)
            → ((f : CFunction) → lua_name f ≢ key)
            → get_global s' key ≡ get_global s key)
  load_wrappers-get_global s store laws =
      let found = λ (key : Bytes). get_global-register vm get_global laws functions s key in
      (
        register vm functions s,
        load_wrappers-register vm laws.has_room s store,
        λ f. found (lua_name f) ∙ find-lua_name f (get_global s (lua_name f)),
        λ key ne. found key ∙ find_other key functions (get_global s key) functions_named ne,
      )
