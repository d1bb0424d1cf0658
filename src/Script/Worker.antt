-- ===== src/Script/Worker.antt =====
-- `_worker_on_poke` of server/main.c, with `del_script_task` of server/script.c: a worker thread
-- takes a task from the queue, runs it and what follows it, and frees it.
pub mod Takes
use bspd.Common.{
  ℕ, ◌≡◌, ◌≢◌, refl, ◌∙◌, Option, none, some, List, [], ◌∷◌, ◌==◌, if◌then◌else◌, arith,
}
use bspd.Server.Clients.{HashLib}
use bspd.Server.Connect.{State, unreg_client}
use bspd.Server.Queue.{Node, Queue, update, pop_script_task}
use bspd.Server.Status.{Rtn}
use bspd.Server.Task.{
  Ptr, null_ptr, Task, TaskType, load, raw, ctl, stream, object, command, gc, reload, restart,
}
use bspd.Script.Lua.{Stack, LuaLib}
use bspd.Script.Call.{Run, not_called, ScriptEnv, call_script}

-- The block goes back to its pool; its data and headers go with it.
unfoldable pub del_script_task : Queue → Ptr → Queue
unfolding update
del_script_task q p = record q { cell = update q.cell p none }

module _ (hashes : HashLib) where
  -- What the worker leaves: the queue, its stack, the server's state and what was run.
  pub record Poked : Type 0 where
    pub queue : Queue
    pub stack : Stack
    pub server : State hashes
    pub ran : Run

module _ (lib : LuaLib) (env : ScriptEnv) (hashes : HashLib) where
  -- `_after_disconnect_task` is the only function that is set to follow.
  unfoldable pub follow : Option Ptr → State hashes → Option (State hashes)
  follow none s = some s
  follow (some clt) s = elim (unreg_client hashes clt s) [ none ↦ none | some (code, s') ↦ some s' ]

  unfoldable pub run_task :
      TaskType → Task → Stack → State hashes → Option (Run × Stack × State hashes)
  run_task gc task st s = some (not_called, st, s)
  run_task reload task st s = some (not_called, st, s)
  run_task restart task st s = some (not_called, st, s)
  run_task type task st s = elim (call_script lib env task st) [
    | none ↦ none
    | some (code, r, st') ↦ elim (follow task.follow_up s) [
      | none ↦ none
      | some s' ↦ some (r, st', s')
    ]
  ]

  poke_with : Ptr → Queue → Option (Run × Stack × State hashes) → Option (Poked hashes)
  poke_with p q none = none
  poke_with p q (some (r, st, s)) =
      some (record { queue = del_script_task q p; stack = st; server = s; ran = r })

  unfoldable pub poke_task : Ptr × Queue → Stack → State hashes → Option (Poked hashes)
  unfolding poke_with
  poke_task (p, q) st s =
      if p == null_ptr
      then some (record { queue = q; stack = st; server = s; ran = not_called })
      else (elim (q.cell p) [
        | none ↦ none
        | some n ↦ poke_with p q (run_task n.task.type_of n.task st s)
      ])

  unfoldable pub poke_popped : Option (Ptr × Queue) → Stack → State hashes → Option (Poked hashes)
  poke_popped none st s = none
  poke_popped (some popped) st s = poke_task popped st s

  -- `none` is a dangling pointer or an error that Lua raises.
  unfoldable pub worker_on_poke : Queue → Stack → State hashes → Option (Poked hashes)
  worker_on_poke q st s = poke_popped (pop_script_task q) st s
