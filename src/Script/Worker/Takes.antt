-- ===== src/Script/Worker/Takes.antt =====
-- What `_worker_on_poke` of server/main.c does with the oldest task.
use bspd.Common.{Bool, true, ◌≡◌, ◌≢◌, sym, ap, ◌∙◌, false, Option, none, some, ◌∷◌, Bytes, arith}
use bspd.Server.Clients.{HashLib}
use bspd.Server.Connect.{State, unreg_client}
use bspd.Server.Queue.{Node, Queue, update}
use bspd.Server.Queue.Chain.{Entries, IsQueue, Chain-update}
use bspd.Server.Queue.Refines.{pop_script_task-IsQueue, pop_script_task-cell, Chain-uncons}
use bspd.Server.Status.{Rtn}
use bspd.Server.Task.{Ptr, null_ptr, Task, TaskType, ctl, gc, reload, restart}
use bspd.Script.Lua.{Stack, LuaLib}
use bspd.Script.Call.{Run, not_called, ScriptEnv, is_function}
use bspd.Script.Call.Missing.{call_script_no_function}
use bspd.Script.Worker.{del_script_task, follow, run_task, poke_task, poke_popped, worker_on_poke}

del_script_task-IsQueue :
    (q : Queue) (a : Ptr) (t : Task) (xs : Entries) (q' : Queue)
    → IsQueue q ((a, t) ∷ xs)
    → IsQueue q' xs
    → IsQueue (del_script_task q' a) xs
unfolding del_script_task
del_script_task-IsQueue q a t xs q' v w = record {
  chain = Chain-update a none w.chain v.distinct.0;
  distinct = w.distinct;
  tail_is = w.tail_is;
}

freed : (q : Queue) (a : Ptr) → (del_script_task q a).cell a ≡ none
unfolding del_script_task update
freed q a = ground arith

module _ (lib : LuaLib) (env : ScriptEnv) (hashes : HashLib) where
  poke_task_runs :
      (q : Queue) (a : Ptr) (n : Node) (st st' : Stack) (s s' : State hashes) (r : Run)
      → a ≢ null_ptr
      → q.cell a ≡ some n
      → run_task lib env hashes n.task.type_of n.task st s ≡ some (r, st', s')
      → poke_task lib env hashes (a, q) st s
        ≡ some (record { queue = del_script_task q a; stack = st'; server = s'; ran = r })
  unfolding poke_task
  poke_task_runs q a n st st' s s' r h c e = ground (arith, c, e)

  worker_on_poke-IsQueue :
      (q : Queue) (a : Ptr) (t : Task) (xs : Entries) (st st' : Stack) (s s' : State hashes)
      (r : Run)
      → IsQueue q ((a, t) ∷ xs)
      → run_task lib env hashes t.type_of t st s ≡ some (r, st', s')
      → (q' : Queue) × (worker_on_poke lib env hashes q st s
          ≡ some (record { queue = q'; stack = st'; server = s'; ran = r }))
        × IsQueue q' xs
        × (q'.cell a ≡ none)
  unfolding worker_on_poke poke_popped
  worker_on_poke-IsQueue q a t xs st st' s s' r v e =
      let popped = pop_script_task-IsQueue q xs a t v in
      let head = Chain-uncons v.chain in
      (
        del_script_task popped.0 a,
        ap (λ (o : Option (Ptr × Queue)). poke_popped lib env hashes o st s) popped.1
            ∙ poke_task_runs popped.0 a (record { task = t; next = head.0 }) st st' s s' r
                (λ z. head.2 (head.1 ∙ z))
                (ap (λ (cell : Ptr → Option Node). cell a)
                    (pop_script_task-cell q popped.0 a popped.1)
                  ∙ ap q.cell (sym head.1)
                  ∙ head.3)
                e,
        del_script_task-IsQueue q a t xs popped.0 v popped.2,
        freed popped.0 a,
      )

  -- The tasks for which the worker calls a script.
  abbrev pub is_call : TaskType → Bool
  is_call gc = false
  is_call reload = false
  is_call restart = false
  is_call _ = true

  -- What the end of a client, where it follows the task, makes of the server.
  abbrev pub Followed : Option Ptr → State hashes → State hashes → Type 0
  Followed none s s' = s' ≡ s
  Followed (some clt) s s' = (code : Rtn) × (unreg_client hashes clt s ≡ some (code, s'))

  run_task_missing_hook :
      (t : Task) (name : Bytes) (clt : Ptr) (code : Rtn) (st : Stack) (s s' : State hashes)
      → t.func ≡ some name
      → is_function (env.get_global name) ≡ false
      → t.follow_up ≡ some clt
      → unreg_client hashes clt s ≡ some (code, s')
      → run_task lib env hashes ctl t st s ≡ some (not_called, env.get_global name ∷ st, s')
  unfolding run_task follow
  run_task_missing_hook t name clt code st s s' n f u e =
      ground (arith, call_script_no_function lib env t name st n f, u, e)

  -- The task for the end of a client, the oldest one, unregisters the client although its hook is no
  -- Lua function: nothing is called, and what the hook's name stands for stays on the stack.
  pub worker_on_poke_missing_hook :
      (q : Queue) (a : Ptr) (t : Task) (xs : Entries) (name : Bytes) (clt : Ptr) (code : Rtn)
      (st : Stack) (s s' : State hashes)
      → IsQueue q ((a, t) ∷ xs)
      → t.type_of ≡ ctl
      → t.func ≡ some name
      → is_function (env.get_global name) ≡ false
      → t.follow_up ≡ some clt
      → unreg_client hashes clt s ≡ some (code, s')
      → (q' : Queue) × (worker_on_poke lib env hashes q st s
          ≡ some (record {
            queue = q';
            stack = env.get_global name ∷ st;
            server = s';
            ran = not_called;
          }))
        × IsQueue q' xs
        × (q'.cell a ≡ none)
  worker_on_poke_missing_hook q a t xs name clt code st s s' v c n f u e =
      worker_on_poke-IsQueue q a t xs st (env.get_global name ∷ st) s s' not_called v (
        ap (λ (type : TaskType). run_task lib env hashes type t st s) c
        ∙ run_task_missing_hook t name clt code st s s' n f u e)
