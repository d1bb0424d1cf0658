-- ===== src/Tests/Queue.antt =====
-- Runs of the task queue of server/script.c.
use bspd.Common.{ℕ, ◌≡◌, refl, arith, ◌==◌, if◌then◌else◌, Option, none, some, List, [], ◌∷◌}
use bspd.Server.Queue.{Queue, Node}
use bspd.Server.Queue.Chain.{nil, cons, IsQueue}
use bspd.Server.Queue.Refines.{Op, push_op, pop_op, run, run-spec_run}
use bspd.Server.Task.{Ptr, null_ptr, Task, raw, no_data}

abbrev pub blank : Task
blank = record {
  type_of = raw;
  func = none;
  ref = 0;
  clt = 0;
  cmd = 0;
  proto = none;
  payload = no_data;
  follow_up = none;
}

abbrev for_client : ℕ → Task
for_client n = record blank { clt = n }

abbrev empty : Queue
empty = record { head = null_ptr; tail = null_ptr; cell = λ p. none }

empty-IsQueue : IsQueue empty []
empty-IsQueue = record { chain = nil refl; distinct = tt; tail_is = refl }

abbrev ops : List Op
ops =
    push_op 16 (for_client 3)
    ∷ push_op 32 (for_client 4)
    ∷ pop_op
    ∷ push_op 16 (for_client 5)
    ∷ pop_op
    ∷ []

run-spec_run_example :
    (q : Queue) × (run ops empty ≡ some (0 ∷ 0 ∷ 16 ∷ 0 ∷ 32 ∷ [], q))
    × IsQueue q ((16, for_client 5) ∷ [])
run-spec_run_example =
    run-spec_run ops empty [] empty-IsQueue (
      (omega arith, tt),
      ((omega arith, (omega arith, tt)), ((omega arith, (omega arith, tt)), tt)),
    )

abbrev one_cell : Ptr → Option Node
one_cell p = if p == 16 then some (record { task = blank; next = null_ptr }) else none

abbrev before : Queue
before = record { head = null_ptr; tail = null_ptr; cell = one_cell }

before-IsQueue : IsQueue before []
before-IsQueue = record { chain = nil refl; distinct = tt; tail_is = refl }

abbrev after : Queue
after = record { head = 16; tail = 16; cell = one_cell }

after-IsQueue : IsQueue after ((16, blank) ∷ [])
after-IsQueue = record {
  chain = cons (omega arith) refl (nil refl);
  distinct = (tt, tt);
  tail_is = refl;
}
