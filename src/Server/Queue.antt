-- ===== src/Server/Queue.antt =====
-- `push_script_task` and `pop_script_task` of server/script.c: a linked list of tasks with a head
-- and a tail pointer. The lock makes each call one step. `none` is a use of a dangling pointer.
pub mod Chain
pub mod Refines
use bspd.Common.{ℕ, Bool, true, false, Option, none, some, ◌==◌, if◌then◌else◌}
use bspd.Server.Status.{Rtn, rtn_success, rtn_invalid, rtn_err_thread}
use bspd.Server.Task.{Ptr, null_ptr, Task}

pub record Node : Type 0 where
  pub task : Task
  pub next : Ptr

pub record Queue : Type 0 where
  pub head : Ptr
  pub tail : Ptr
  pub cell : Ptr → Option Node

unfoldable pub update : (Ptr → Option Node) → Ptr → Option Node → Ptr → Option Node
update cell p n q = if q == p then n else cell q

-- `task_queue_tail->next = task`
set_next : (Ptr → Option Node) → Ptr → Ptr → Option (Ptr → Option Node)
set_next cell p q = elim (cell p) [
  | none ↦ none
  | some n ↦ some (update cell p (some (record n { next = q })))
]

-- The critical section. An empty queue has no tail.
unfoldable pub link : Queue → Ptr → Option Queue
unfolding set_next update
link q task =
    let head = if q.head == null_ptr then task else q.head in
    elim (q.tail == null_ptr) [
      | true ↦ some (record { head = head; tail = task; cell = q.cell })
      | false ↦ elim (set_next q.cell q.tail task) [
        | none ↦ none
        | some cell ↦ some (record { head = head; tail = task; cell = cell })
      ]
    ]

-- The flag is whether `bsp_select_thread` found a worker.
unfoldable pub push_script_task : Bool → Ptr → Queue → Option (Rtn × Queue)
unfolding link
push_script_task worker task q = if task == null_ptr then some (rtn_invalid, q) else (elim worker [
  | false ↦ some (rtn_err_thread, q)
  | true ↦ elim (link q task) [ none ↦ none | some q' ↦ some (rtn_success, q') ]
])

-- The task or NULL.
unfoldable pub pop_script_task : Queue → Option (Ptr × Queue)
pop_script_task q = if q.head == null_ptr then some (null_ptr, q) else (elim (q.cell q.head) [
  | none ↦ none
  | some n ↦
      some (
        q.head,
        record q { head = n.next; tail = (if n.next == null_ptr then null_ptr else q.tail) },
      )
])

-- A task of `new_script_task` in the block at `p`.
unfoldable pub store : Queue → Ptr → Task → Queue
unfolding update
store q p t = record q { cell = update q.cell p (some (record { task = t; next = null_ptr })) }
