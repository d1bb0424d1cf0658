-- ===== src/Server/Workers.antt =====
-- The worker threads and their scripts in server/main.c: how `bspd_startup` makes the containers, and
-- the callbacks of the signals USR1 and USR2.
pub mod Loop
pub mod Restart
pub mod Reload
use bspd.Common.{ℕ, zero, suc, ◌^◌, Bool, Option, none, some, ◌==◌, ltb, if◌then◌else◌, Bytes}
use bspd.Json.Value.{Object}
use bspd.Script.Container.{
  LuaVm, Script, new_script_container, restart_script_container, load_script_file, load_wrappers,
}

-- `i < c->opt.worker_threads` for a pattern of an `int`: a negative number has no rounds.
unfoldable pub rounds : ℕ → ℕ
rounds threads = if ltb threads (2 ^ 31) then threads else 0

module _ (vm : LuaVm) where
  -- What a thread points to with `additional`.
  abbrev pub Additional : Type 0
  Additional = Option (Script vm)

  -- The worker threads, as `bsp_get_thread` finds them, and the store that their scripts share.
  pub record Workers : Type 0 where
    pub thread : ℕ → Option Additional
    pub store : Option Object

  unfoldable pub put_worker : Workers → ℕ → Additional → Option Object → Workers
  put_worker w i a store = record {
    thread = λ j. if j == i then some a else w.thread j;
    store = store;
  }

  -- A loop over the workers from `i` on, with the number of rounds left; `none` is a use of NULL.
  unfoldable pub for_workers : (ℕ → Workers → Option Workers) → ℕ → ℕ → Workers → Option Workers
  for_workers body zero i w = some w
  for_workers body (suc n) i w = elim (body i w) [
    | none ↦ none
    | some w' ↦ for_workers body n (suc i) w'
  ]

  -- `LOAD_WRAPPERS` and `load_script_file` for the container of thread `i`.
  unfoldable pub wrapped :
      Option Bytes → ℕ → Workers → Option (Option vm.State × Option Object) → Option Workers
  wrapped name i w none = none
  wrapped name i w (some (s, store)) =
      some (put_worker w i (load_script_file vm (some (record { state = s })) name).1 store)

  unfoldable pub fill : Option Bytes → ℕ → Workers → Option (Script vm) → Option Workers
  unfolding wrapped
  fill name i w none = some w
  fill name i w (some scrt) = wrapped name i w (load_wrappers vm scrt.state w.store)

  module _ (name : Option Bytes) where
    module _ (fresh : ℕ → Option vm.State) where
      -- The body of the loop in `bspd_startup`; `fresh` is what `lua_newstate` returns for the thread.
      unfoldable pub create : ℕ → Workers → Option Workers
      create i w = elim (w.thread i) [
        | none ↦ some w
        | some a ↦ fill name i w (new_script_container vm (fresh i))
      ]

      unfoldable pub create_scripts : ℕ → Workers → Option Workers
      create_scripts threads w = for_workers create (rounds threads) 0 w

      -- A thread that is not found is a use of NULL.
      unfoldable pub restart : ℕ → Workers → Option Workers
      restart i w = elim (w.thread i) [
        | none ↦ none
        | some none ↦ some w
        | some (some scrt) ↦ fill name i w (restart_script_container vm (fresh i) (some scrt)).1
      ]

      unfoldable pub callback_reload_state : ℕ → Workers → Option Workers
      callback_reload_state threads w = for_workers restart (rounds threads) 0 w

    unfoldable pub reload : ℕ → Workers → Option Workers
    reload i w = elim (w.thread i) [
      | none ↦ none
      | some none ↦ some w
      | some (some scrt) ↦ some (put_worker w i (load_script_file vm (some scrt) name).1 w.store)
    ]

    unfoldable pub callback_reload_script : ℕ → Workers → Option Workers
    callback_reload_script threads w = for_workers reload (rounds threads) 0 w
