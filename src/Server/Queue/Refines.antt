-- ===== src/Server/Queue/Refines.antt =====
-- How the linked list relates to a first-in first-out queue.
use bspd.Common.{
  ◌≡◌, ◌≢◌, refl, sym, ap, ◌∙◌, true, false, Option, none, some, List, [], ◌∷◌, ◌++◌, arith, ◌==◌,
  if◌then◌else◌,
}
use bspd.Server.Status.{rtn_success, rtn_invalid, rtn_err_thread}
use bspd.Server.Task.{Ptr, null_ptr, Task}
use bspd.Server.Queue.{Node, Queue, update, push_script_task, pop_script_task, store}
use bspd.Server.Queue.Chain.{
  Entries, Chain, nil, cons, Avoids, Distinct-snoc, last, last_or, last_or-snoc, IsQueue,
  Chain-update, Chain-snoc,
}

pub store-IsQueue :
    (q : Queue) (xs : Entries) (a : Ptr) (t : Task)
    → IsQueue q xs
    → Avoids a xs
    → IsQueue (store q a t) xs
unfolding store
store-IsQueue q xs a t v h = record {
  chain = Chain-update a _ v.chain h;
  distinct = v.distinct;
  tail_is = v.tail_is;
}

Chain-nil : {cell : Ptr → Option Node} {p : Ptr} → Chain cell p [] → p ≡ null_ptr
Chain-nil (nil e) = e

Chain-head_ne :
    {cell : Ptr → Option Node} {p : Ptr} {xs : Entries} → Chain cell p xs → xs ≢ [] → p ≢ null_ptr
Chain-head_ne (nil e) ne = absurd (ne refl)
Chain-head_ne (cons pn e c) ne = pn

push-empty :
    (q : Queue) (a : Ptr)
    → q.head ≡ null_ptr
    → q.tail ≡ null_ptr
    → a ≢ null_ptr
    → push_script_task true a q ≡ some (rtn_success, record { head = a; tail = a; cell = q.cell })
unfolding push_script_task
push-empty q a h t nn = ground arith

push-nonempty :
    (q : Queue) (a : Ptr) (n : Node)
    → q.head ≢ null_ptr
    → q.tail ≢ null_ptr
    → a ≢ null_ptr
    → q.cell q.tail ≡ some n
    → push_script_task true a q
      ≡ some (
        rtn_success,
        record {
          head = q.head;
          tail = a;
          cell = update q.cell q.tail (some (record n { next = a }));
        },
      )
unfolding push_script_task
push-nonempty q a n h t nn e = ground arith

-- A task that is not in the queue, in a block of its own, is put behind the others; the call
-- succeeds and follows no dangling pointer.
pub push_script_task-IsQueue :
    (q : Queue) (xs : Entries) (a : Ptr) (t : Task)
    → IsQueue q xs
    → a ≢ null_ptr
    → Avoids a xs
    → q.cell a ≡ some (record { task = t; next = null_ptr })
    → (q' : Queue) × (push_script_task true a q ≡ some (rtn_success, q'))
      × IsQueue q' (xs ++ (a, t) ∷ [])
push_script_task-IsQueue q [] a t v nn av at = (
  record { head = a; tail = a; cell = q.cell },
  push-empty q a (Chain-nil v.chain) v.tail_is nn,
  record { chain = cons nn at (nil refl); distinct = (tt, tt); tail_is = refl },
)
push_script_task-IsQueue q (x ∷ xs) a t v nn av at =
    let (n, l, ln, c) = Chain-snoc a t v.chain (λ e. cc) v.distinct av nn at in
    let t' = v.tail_is in
    (
      record {
        head = q.head;
        tail = a;
        cell = update q.cell q.tail (some (record n { next = a }));
      },
      push-nonempty q a n (Chain-head_ne v.chain (λ e. cc)) (rw t' ln) nn (rw t' l),
      record {
        chain = rw t' c;
        distinct = Distinct-snoc a t (x ∷ xs) v.distinct av;
        tail_is = sym (last_or-snoc null_ptr a t (x ∷ xs));
      },
    )

-- Without a worker thread, or without a task, nothing changes.
pub push_script_task_refused :
    (q : Queue) (a : Ptr)
    → (push_script_task true null_ptr q ≡ some (rtn_invalid, q))
      × (a ≢ null_ptr → push_script_task false a q ≡ some (rtn_err_thread, q))
unfolding push_script_task
push_script_task_refused q a = (refl, λ h. ground arith)

pop-nonempty :
    (q : Queue) (n : Node)
    → q.head ≢ null_ptr
    → q.cell q.head ≡ some n
    → pop_script_task q
      ≡ some (
        q.head,
        record q { head = n.next; tail = (if n.next == null_ptr then null_ptr else q.tail) },
      )
unfolding pop_script_task
pop-nonempty q n h e = ground arith

pop_tail :
    {cell : Ptr → Option Node} {p : Ptr} (d t : Ptr) (xs : Entries)
    → Chain cell p xs
    → t ≡ last_or d xs
    → (if p == null_ptr then null_ptr else t) ≡ last xs
pop_tail d t [] (nil e) h = ground arith
pop_tail d t (x ∷ xs) c h = ground (arith, Chain-head_ne c)

pub Chain-uncons :
    {cell : Ptr → Option Node} {p a : Ptr} {t : Task} {xs : Entries}
    → Chain cell p ((a, t) ∷ xs)
    → (next : Ptr) × (p ≡ a)
      × (p ≢ null_ptr)
      × (cell p ≡ some (record { task = t; next = next }))
      × Chain cell next xs
Chain-uncons (cons {q} pn e c) = (q, refl, pn, e, c)

-- The oldest task is taken off, and nothing is if there is none.
pub pop_script_task-IsQueue :
    (q : Queue) (xs : Entries) (a : Ptr) (t : Task)
    → IsQueue q ((a, t) ∷ xs)
    → (q' : Queue) × (pop_script_task q ≡ some (a, q')) × IsQueue q' xs
pop_script_task-IsQueue q xs a t v =
    let (next, e, pn, at, c) = Chain-uncons v.chain in
    let q' : Queue = record q {
      head = next;
      tail = (if next == null_ptr then null_ptr else q.tail);
    } in
    (
      q',
      pop-nonempty q (record { task = t; next = next }) pn at ∙ ap (λ (b : Ptr). some (b, q')) e,
      record { chain = c; distinct = v.distinct.1; tail_is = pop_tail a q.tail xs c v.tail_is },
    )

pub pop_script_task_empty : (q : Queue) → IsQueue q [] → pop_script_task q ≡ some (null_ptr, q)
unfolding pop_script_task
pop_script_task_empty q v = ground (arith, Chain-nil v.chain)

-- A task that is popped stays in its block.
pub pop_script_task-cell :
    (q q' : Queue) (p : Ptr) → pop_script_task q ≡ some (p, q') → q'.cell ≡ q.cell
unfolding pop_script_task
pop_script_task-cell q q' p e = ground arith

-- What the threads do with the queue, one locked step each.
pub data Op : Type 0 where
  push_op : Ptr → Task → Op
  pop_op : Op

-- The concrete step: the producer fills its block and pushes it; the result is the pointer popped.
pub step : Op → Queue → Option (Ptr × Queue)
step (push_op a t) q = elim (push_script_task true a (store q a t)) [
  | none ↦ none
  | some (code, q') ↦ some (null_ptr, q')
]
step pop_op q = pop_script_task q

pub run : List Op → Queue → Option (List Ptr × Queue)
run [] q = some ([], q)
run (op ∷ ops) q = elim (step op q) [
  | none ↦ none
  | some (p, q') ↦ elim (run ops q') [ none ↦ none | some (ps, q'') ↦ some (p ∷ ps, q'') ]
]

-- The specification: a list, pushed at its end and popped at its front.
abbrev pub spec_step : Op → Entries → Ptr × Entries
spec_step (push_op a t) xs = (null_ptr, xs ++ (a, t) ∷ [])
spec_step pop_op [] = (null_ptr, [])
spec_step pop_op ((a, t) ∷ xs) = (a, xs)

abbrev pub spec_run : List Op → Entries → List Ptr × Entries
spec_run [] xs = ([], xs)
spec_run (op ∷ ops) xs =
    let later = spec_run ops (spec_step op xs).1 in ((spec_step op xs).0 ∷ later.0, later.1)

-- A producer has a block of its own: not NULL, and not in the queue.
abbrev pub Allowed : List Op → Entries → Type 0
Allowed [] xs = Unit {0}
Allowed (push_op a t ∷ ops) xs = ((a ≢ null_ptr) × Avoids a xs) × Allowed ops (xs ++ (a, t) ∷ [])
Allowed (pop_op ∷ ops) xs = Allowed ops (spec_step pop_op xs).1

pub store-cell :
    (q : Queue) (a : Ptr) (t : Task)
    → (store q a t).cell a ≡ some (record { task = t; next = null_ptr })
unfolding store
store-cell q a t = ground arith

step-spec_step :
    (op : Op) (ops : List Op) (q : Queue) (xs : Entries)
    → IsQueue q xs
    → Allowed (op ∷ ops) xs
    → (q' : Queue) × (step op q ≡ some ((spec_step op xs).0, q')) × IsQueue q' (spec_step op xs).1
unfolding step
step-spec_step (push_op a t) ops q xs v al =
    let (q', e, w) =
      push_script_task-IsQueue (store q a t) xs a t (store-IsQueue q xs a t v al.0.1) al.0.0 al.0.1
        (store-cell q a t) in
    (q', ground (arith, e), w)
step-spec_step pop_op ops q [] v al = (q, pop_script_task_empty q v, v)
step-spec_step pop_op ops q ((a, t) ∷ xs) v al = pop_script_task-IsQueue q xs a t v

Allowed-tail :
    (op : Op) (ops : List Op) (xs : Entries)
    → Allowed (op ∷ ops) xs
    → Allowed ops (spec_step op xs).1
Allowed-tail (push_op a t) ops xs al = al.1
Allowed-tail pop_op ops xs al = al

-- Whatever the order in which threads push and pop, no call goes wrong and the pointers popped are
-- those of a first-in first-out list.
pub run-spec_run :
    (ops : List Op) (q : Queue) (xs : Entries)
    → IsQueue q xs
    → Allowed ops xs
    → (q' : Queue) × (run ops q ≡ some ((spec_run ops xs).0, q')) × IsQueue q' (spec_run ops xs).1
unfolding run
run-spec_run [] q xs v al = (q, refl, v)
run-spec_run (op ∷ ops) q xs v al =
    let (q', e, w) = step-spec_step op ops q xs v al in
    let (q'', e', w') = run-spec_run ops q' (spec_step op xs).1 w (Allowed-tail op ops xs al) in
    (q'', ground (arith, e, e'), w')
