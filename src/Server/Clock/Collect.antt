-- ===== src/Server/Clock/Collect.antt =====
-- How many tasks the clock of server/main.c pushes, and where.
use mathlib.Core.Path.{subst}
use bspd.Common.{
  ℕ, zero, suc, ◌+◌, ◌-◌, ◌/◌, ◌%◌, ◌≤◌, ◌≡◌, ◌≢◌, refl, sym, ap, ◌∙◌, Bool, true, false, some, [],
  ◌∷◌, ◌++◌, append-nil, append_assoc, ◌==◌, if◌then◌else◌, inl, inr, Bool-cases, if_true, if_false,
  ==_iff, length, All, arith,
}
use bspd.Server.Clock.{turn, after_push, push_gc, on_base_clock, ticks}
use bspd.Server.Queue.{Queue, store}
use bspd.Server.Queue.Chain.{Entries, Avoids, IsQueue}
use bspd.Server.Queue.Refines.{push_script_task-IsQueue, store-IsQueue, store-cell}
use bspd.Server.Task.{Ptr, null_ptr, Task, gc, new_script_task}

-- The tasks of `n` ticks from `count` on.
abbrev pub collections : (ℕ → Ptr × Task) → ℕ → ℕ → Entries
collections blocks zero count = []
collections blocks (suc n) count =
    let rest = collections blocks n (suc count) in
    if count % 256 == 0
    then ((blocks count).0, new_script_task (blocks count).1 gc) ∷ rest
    else rest

collections-gc :
    (blocks : ℕ → Ptr × Task) (n count : ℕ)
    → All (λ (e : Ptr × Task). e.1.type_of ≡ gc) (collections blocks n count)
unfolding new_script_task
collections-gc blocks zero count = tt
collections-gc blocks (suc n) count =
    elim (count % 256 == 0)
      as (λ b.
        All (λ (e : Ptr × Task). e.1.type_of ≡ gc)
          (if b
            then ((blocks count).0, new_script_task (blocks count).1 gc)
              ∷ collections blocks n (suc count)
            else collections blocks n (suc count))) [
              | true ↦ (refl, collections-gc blocks n (suc count))
              | false ↦ collections-gc blocks n (suc count)
            ]

length-collections :
    (blocks : ℕ → Ptr × Task) (n count : ℕ)
    → length (collections blocks n count) ≡ (count + n + 255) / 256 - (count + 255) / 256
length-collections blocks zero count = omega arith
length-collections blocks (suc n) count =
    let rest = length-collections blocks n (suc count) in
    elim (Bool-cases (count % 256 == 0)) [
      | inl e ↦
          let z : count % 256 ≡ 0 = (==_iff (count % 256) 0).0 e in
          ap length (if_true (count % 256 == 0) _ _ e) ∙ omega (arith, rest, z)
      | inr e ↦
          let z : count % 256 ≢ 0 = λ k. cc (e, (==_iff (count % 256) 0).1 k) in
          ap length (if_false (count % 256 == 0) _ _ e) ∙ omega (arith, rest, z)
    ]

Avoids-snoc :
    (p a : Ptr) (t : Task) (xs : Entries) → Avoids p xs → a ≢ p → Avoids p (xs ++ (a, t) ∷ [])
Avoids-snoc p a t [] h ne = (ne, tt)
Avoids-snoc p a t ((b, u) ∷ xs) h ne = (h.0, Avoids-snoc p a t xs h.1 ne)

module _ (threads : ℕ) (found : ℕ → Bool) where
  push_gc-IsQueue :
      (q : Queue) (xs : Entries) (p : Ptr) (block : Task)
      → IsQueue q xs
      → p ≢ null_ptr
      → Avoids p xs
      → (q' : Queue) × (push_gc true p block q ≡ some q')
        × IsQueue q' (xs ++ (p, new_script_task block gc) ∷ [])
  unfolding push_gc
  push_gc-IsQueue q xs p block v nn av =
      let t = new_script_task block gc in
      let (q', e, w) =
        push_script_task-IsQueue (store q p t) xs p t (store-IsQueue q xs p t v av) nn av
          (store-cell q p t) in
      (q', ap after_push e, w)

  on_base_clock_due :
      (count : ℕ) (p : Ptr) (block : Task) (q : Queue)
      → (count % 256 == 0) ≡ true
      → threads ≢ 0
      → found (turn threads count) ≡ true
      → on_base_clock threads found true count p block q ≡ push_gc true p block q
  unfolding on_base_clock
  on_base_clock_due count p block q e ne f = ground (arith, e, f)

  on_base_clock_idle :
      (count : ℕ) (p : Ptr) (block : Task) (q : Queue)
      → (count % 256 == 0) ≡ false
      → on_base_clock threads found true count p block q ≡ some q
  unfolding on_base_clock
  on_base_clock_idle count p block q e = if_false (count % 256 == 0) _ _ e

  ticks_step :
      (blocks : ℕ → Ptr × Task) (n count : ℕ) (q q' : Queue)
      → on_base_clock threads found true count (blocks count).0 (blocks count).1 q ≡ some q'
      → ticks threads found true blocks (suc n) count q
        ≡ ticks threads found true blocks n (suc count) q'
  unfolding ticks
  ticks_step blocks n count q q' e = ground (arith, e)

  ticks-collections :
      (blocks : ℕ → Ptr × Task)
      → threads ≢ 0
      → ((i : ℕ) → found i ≡ true)
      → ((j : ℕ) → (blocks j).0 ≢ null_ptr)
      → ((j k : ℕ) → (blocks j).0 ≡ (blocks k).0 → j ≡ k)
      → (n count : ℕ) (q : Queue) (xs : Entries) → IsQueue q xs
      → ((k : ℕ) → count ≤ k → Avoids (blocks k).0 xs)
      → (q' : Queue) × (ticks threads found true blocks n count q ≡ some q')
        × IsQueue q' (xs ++ collections blocks n count)
  unfolding ticks
  ticks-collections blocks some_threads all nn apart zero count q xs v av =
      (q, refl, subst (IsQueue q) (sym (append-nil xs)) v)
  ticks-collections blocks some_threads all nn apart (suc n) count q xs v av =
      elim (Bool-cases (count % 256 == 0)) [
        | inl e ↦
            let p = (blocks count).0 in
            let block = (blocks count).1 in
            let t = new_script_task block gc in
            let (q1, push, w) =
              push_gc-IsQueue q xs p block v (nn count) (av count (omega arith)) in
            let (q', run, z) =
              ticks-collections blocks some_threads all nn apart n (suc count) q1
                (xs ++ (p, t) ∷ []) w
                (λ k h.
                  Avoids-snoc (blocks k).0 p t xs (av k (omega arith))
                    (λ s. let c : count ≡ k = apart count k s in omega arith)) in
            (
              q',
              ticks_step blocks n count q q1 (
                    on_base_clock_due count p block q e some_threads (all (turn threads count))
                    ∙ push)
                  ∙ run,
              subst (IsQueue q')
                  (append_assoc xs ((p, t) ∷ []) (collections blocks n (suc count))
                    ∙ ap (◌++◌ xs) (sym (if_true (count % 256 == 0) _ _ e)))
                  z,
            )
        | inr e ↦
            let p = (blocks count).0 in
            let block = (blocks count).1 in
            let (q', run, z) =
              ticks-collections blocks some_threads all nn apart n (suc count) q xs v
                (λ k h. av k (omega arith)) in
            (
              q',
              ticks_step blocks n count q q (on_base_clock_idle count p block q e) ∙ run,
              subst (IsQueue q') (ap (◌++◌ xs) (sym (if_false (count % 256 == 0) _ _ e))) z,
            )
      ]

  -- Ticks in a row push one garbage collection for each count that 256 divides, behind the tasks that
  -- wait: if there are workers, each is found, and the pool hands out blocks that differ and are not
  -- in the queue.
  pub ticks-length :
      (blocks : ℕ → Ptr × Task) (n count : ℕ) (q : Queue) (xs : Entries)
      → threads ≢ 0
      → ((i : ℕ) → found i ≡ true)
      → ((j : ℕ) → (blocks j).0 ≢ null_ptr)
      → ((j k : ℕ) → (blocks j).0 ≡ (blocks k).0 → j ≡ k)
      → IsQueue q xs
      → ((k : ℕ) → count ≤ k → Avoids (blocks k).0 xs)
      → (q' : Queue) × (ys : Entries) × (ticks threads found true blocks n count q ≡ some q')
        × IsQueue q' (xs ++ ys)
        × All (λ (e : Ptr × Task). e.1.type_of ≡ gc) ys
        × (length ys ≡ (count + n + 255) / 256 - (count + 255) / 256)
  ticks-length blocks n count q xs some_threads all nn apart v av =
      let (q', e, w) = ticks-collections blocks some_threads all nn apart n count q xs v av in
      (
        q',
        collections blocks n count,
        e,
        w,
        collections-gc blocks n count,
        length-collections blocks n count,
      )
