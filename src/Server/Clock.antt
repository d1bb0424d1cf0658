-- ===== src/Server/Clock.antt =====
-- `_on_base_clock` of server/main.c: every 256 ticks a task that collects the garbage of a script.
pub mod Collect
use bspd.Common.{
  ℕ, zero, suc, ◌+◌, ◌-◌, ◌/◌, ◌%◌, ◌^◌, Bool, Option, none, some, ◌==◌, ltb, if◌then◌else◌,
}
use bspd.Server.Queue.{Queue, push_script_task, store}
use bspd.Server.Status.{Rtn}
use bspd.Server.Task.{Ptr, Task, gc, new_script_task}

-- An `int` pattern that is converted to `size_t`.
unfoldable pub as_size : ℕ → ℕ
as_size n = if ltb n (2 ^ 31) then n else n + 2 ^ 64 - 2 ^ 32

-- `int i`, the number of the worker.
unfoldable pub turn : ℕ → ℕ → ℕ
unfolding as_size
turn threads count = count / 256 % as_size threads % 2 ^ 32

-- What a push returns is not used.
unfoldable pub after_push : Option (Rtn × Queue) → Option Queue
after_push none = none
after_push (some (code, q)) = some q

-- A task in the block at `p` is pushed.
unfoldable pub push_gc : Bool → Ptr → Task → Queue → Option Queue
unfolding after_push
push_gc worker p block q =
    after_push (push_script_task worker p (store q p (new_script_task block gc)))

module _ (threads : ℕ) (found : ℕ → Bool) (worker : Bool) where
  -- The argument is the count of the timer. `found` is whether `bsp_get_thread` finds a thread,
  -- `worker` whether a thread is found for the push, and the block is what the pool hands out.
  -- `none` is a use of a dangling pointer, or a division by zero, where there are no workers.
  unfoldable pub on_base_clock : ℕ → Ptr → Task → Queue → Option Queue
  unfolding push_gc turn
  on_base_clock count p block q =
      if count % 256 == 0
      then if threads == 0
        then none
        else if found (turn threads count)
        then push_gc worker p block q
        else some q
      else some q

  -- `n` ticks, the first with `count`; the pool hands out a block for each.
  unfoldable pub ticks : (ℕ → Ptr × Task) → ℕ → ℕ → Queue → Option Queue
  ticks blocks zero count q = some q
  ticks blocks (suc n) count q = elim (on_base_clock count (blocks count).0 (blocks count).1 q) [
    | none ↦ none
    | some q' ↦ ticks blocks n (suc count) q'
  ]
