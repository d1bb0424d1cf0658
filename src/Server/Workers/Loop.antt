-- ===== src/Server/Workers/Loop.antt =====
-- What a loop over the workers of server/main.c does, from what its rounds do.
use mathlib.Core.Path.{subst}
use native.Mathlib.Decide.{dec_lt}
use bspd.Common.{
  ℕ, zero, suc, ◌+◌, ◌≤◌, ◌<◌, ◌≡◌, ◌≢◌, refl, sym, ◌∙◌, ◌⊎◌, inl, inr, Bool-cases, Option, none,
  some, ◌==◌, ==_iff, if_true, if_false, arith,
}
use bspd.Json.Value.{Object}
use bspd.Script.Container.{LuaVm, global_init}
use bspd.Server.Workers.{Additional, Workers, put_worker, for_workers}

module _ (vm : LuaVm) where
  pub put_worker-thread :
      (w : Workers vm) (i : ℕ) (a : Additional vm) (store : Option Object)
      → (put_worker vm w i a store).thread i ≡ some a
  unfolding put_worker
  put_worker-thread w i a store = if_true (i == i) _ _ ((==_iff i i).1 refl)

  pub put_worker-thread_other :
      (w : Workers vm) (i j : ℕ) (a : Additional vm) (store : Option Object)
      → j ≢ i
      → (put_worker vm w i a store).thread j ≡ w.thread j
  unfolding put_worker
  put_worker-thread_other w i j a store ne = elim (Bool-cases (j == i)) [
    | inl e ↦ absurd (ne ((==_iff j i).0 e))
    | inr e ↦ if_false (j == i) _ _ e
  ]

  -- A round that changes its own thread only, and does not fail. The store that `global_init` gives
  -- stays the same.
  pub record Sets (target : ℕ → Additional vm) (store : Option Object) (i : ℕ) (w : Workers vm)
      (r : Option (Workers vm)) : Type 0 where
    pub after : Workers vm
    pub runs : r ≡ some after
    pub own : after.thread i ≡ some (target i)
    pub others : (j : ℕ) → j ≢ i → after.thread j ≡ w.thread j
    pub kept : global_init after.store ≡ store

  module _ (body : ℕ → Workers vm → Option (Workers vm)) where
    for_workers_step :
        (n i : ℕ) (w w' : Workers vm)
        → body i w ≡ some w'
        → for_workers vm body (suc n) i w ≡ for_workers vm body n (suc i) w'
    unfolding for_workers
    for_workers_step n i w w' e = ground (arith, e)

    for_workers_stop :
        (n i : ℕ) (w : Workers vm) → body i w ≡ none → for_workers vm body (suc n) i w ≡ none
    unfolding for_workers
    for_workers_stop n i w e = ground (arith, e)

  module _ (body : ℕ → Workers vm → Option (Workers vm)) (Pre : ℕ → Option (Additional vm) → Type 0)
      (target : ℕ → Additional vm) (store : Option Object) where
    -- A round at a thread that meets the condition is such a round.
    abbrev pub IsRound : Type 0
    IsRound =
        (i : ℕ) (w : Workers vm)
        → Pre i (w.thread i)
        → global_init w.store ≡ store
        → Sets target store i w (body i w)

    -- From the round `i` on, `n` workers meet the condition.
    abbrev pub Ready : ℕ → ℕ → Workers vm → Type 0
    Ready n i w = (k : ℕ) → i ≤ k → k < i + n → Pre k (w.thread k)

    Ready-next :
        (n i : ℕ) (w : Workers vm) {r : Option (Workers vm)} (s : Sets target store i w r)
        → Ready (suc n) i w
        → Ready n (suc i) s.after
    Ready-next n i w s pre k lo hi =
        subst (Pre k) (sym (s.others k (λ e. omega arith))) (pre k (omega arith) (omega arith))

    pub for_workers-target :
        IsRound
        → (n i : ℕ) (w : Workers vm) → Ready n i w
        → global_init w.store ≡ store
        → (w' : Workers vm) × (for_workers vm body n i w ≡ some w')
          × ((k : ℕ) → i ≤ k → k < i + n → w'.thread k ≡ some (target k))
          × ((k : ℕ) → (k < i) ⊎ (i + n ≤ k) → w'.thread k ≡ w.thread k)
          × (global_init w'.store ≡ store)
    unfolding for_workers
    for_workers-target round zero i w pre st =
        (w, refl, λ k lo hi. absurd (omega arith), λ k h. refl, st)
    for_workers-target round (suc n) i w pre st =
        let s = round i w (pre i (omega arith) (omega arith)) st in
        let (w', runs, set, rest, kept) =
          for_workers-target round n (suc i) s.after (Ready-next n i w s pre) s.kept in
        (
          w',
          for_workers_step body n i w s.after s.runs ∙ runs,
          λ k lo hi. elim (dec_lt i k) [
            | yes p ↦ set k (omega arith) (omega arith)
            | no p ↦ let e : k ≡ i = omega arith in rw e (rest i (inl (omega arith)) ∙ s.own)
          ],
          λ k h.
              rest k (elim h [ inl p ↦ inl (omega arith) | inr p ↦ inr (omega arith) ])
              ∙ s.others k (elim h [ inl p ↦ (λ e. omega arith) | inr p ↦ (λ e. omega arith) ]),
          kept,
        )

    -- A round that uses NULL, behind rounds that do not.
    pub for_workers_fails :
        IsRound
        → (k n i : ℕ) (w : Workers vm) → i ≤ k
        → k < i + n
        → ((j : ℕ) → i ≤ j → j < k → Pre j (w.thread j))
        → global_init w.store ≡ store
        → ((w' : Workers vm)
            → w'.thread k ≡ w.thread k
            → global_init w'.store ≡ store
            → body k w' ≡ none)
        → for_workers vm body n i w ≡ none
    for_workers_fails round k zero i w lo hi pre st fails = absurd (omega arith)
    for_workers_fails round k (suc n) i w lo hi pre st fails = elim (dec_lt i k) [
      | no p ↦
          let e : k ≡ i = omega arith in for_workers_stop body n i w (rw (← e) (fails w refl st))
      | yes p ↦
          let s = round i w (pre i (omega arith) p) st in
          let same = s.others k (λ e. omega arith) in
          for_workers_step body n i w s.after s.runs
          ∙ for_workers_fails round k n (suc i) s.after p (omega arith)
              (λ j jl jk.
                subst (Pre j) (sym (s.others j (λ e. omega arith))) (pre j (omega arith) jk))
              s.kept (λ w' h. fails w' (h ∙ same))
    ]
