-- ===== src/Server/Workers/Restart.antt =====
-- What the signal USR2 makes of the scripts of server/main.c.
use mathlib.Core.Path.{subst}
use bspd.Common.{
  ℕ, ◌≤◌, ◌<◌, ◌^◌, ◌≡◌, refl, sym, ap, ◌∙◌, inr, Option, none, some, ltb, true, if_true, lt→ltb,
  Bytes, arith,
}
use bspd.Json.Value.{Object}
use bspd.Script.Container.{
  LuaVm, Script, new_script_container, restart_script_container, load_script_file, load_wrappers,
  module_standard, module_global, register, global_init,
}
use bspd.Script.Container.Registered.{functions, load_wrappers-register}
use bspd.Server.Workers.{
  Additional, Workers, put_worker, for_workers, rounds, fill, wrapped, create, create_scripts,
  restart, callback_reload_state,
}
use bspd.Server.Workers.Loop.{
  put_worker-thread, put_worker-thread_other, Sets, for_workers-target, for_workers_fails,
}

global_init-global_init :
    (store : Option Object) → global_init (global_init store) ≡ global_init store
unfolding global_init
global_init-global_init none = refl
global_init-global_init (some o) = refl

pub rounds_lem : (n : ℕ) → n < 2 ^ 31 → rounds n ≡ n
unfolding rounds
rounds_lem n h = if_true (ltb n (2 ^ 31)) n 0 (lt→ltb n (2 ^ 31) h)

module _ (vm : LuaVm) (name : Option Bytes) (fresh : ℕ → Option vm.State) where
  create-fill :
      (i : ℕ) (w : Workers vm) (a : Additional vm) (s : vm.State)
      → w.thread i ≡ some a
      → fresh i ≡ some s
      → create vm name fresh i w
        ≡ fill vm name i w (some (record { state = some (vm.open_libs s) }))
  unfolding create new_script_container
  create-fill i w a s e f = ground (arith, e, f)

  restart-fill :
      (i : ℕ) (w : Workers vm) (scrt : Script vm) (s : vm.State)
      → w.thread i ≡ some (some scrt)
      → fresh i ≡ some s
      → restart vm name fresh i w
        ≡ fill vm name i w (some (record { state = some (vm.open_libs s) }))
  unfolding restart restart_script_container
  restart-fill i w scrt s e f = ground (arith, e, f)

  -- The container has lost its state, and `LOAD_WRAPPERS` uses NULL.
  restart_null :
      (i : ℕ) (w : Workers vm) (scrt : Script vm)
      → w.thread i ≡ some (some scrt)
      → fresh i ≡ none
      → restart vm name fresh i w ≡ none
  unfolding restart restart_script_container fill load_wrappers module_standard module_global
  restart_null i w scrt e f = ground (arith, e, f)

module _ (vm : LuaVm) (room : (t : vm.State) → vm.has_room t ≡ true) (name : Option Bytes) where
  -- The container of a new state, once the functions and the script file are loaded.
  abbrev pub launched : vm.State → Additional vm
  launched s =
      (load_script_file vm (some (record { state = some (register vm functions (vm.open_libs s)) }))
        name).1

  fill-Sets :
      (i : ℕ) (w : Workers vm) (s : vm.State) (target : ℕ → Additional vm) (store : Option Object)
      → global_init w.store ≡ store
      → target i ≡ launched s
      → Sets vm target store i w
          (fill vm name i w (some (record { state = some (vm.open_libs s) })))
  unfolding fill put_worker
  fill-Sets i w s target store st e = record {
    after = put_worker vm w i (launched s) (global_init w.store);
    runs = ap (wrapped vm name i w) (load_wrappers-register vm room (vm.open_libs s) w.store);
    own = put_worker-thread vm w i (launched s) (global_init w.store) ∙ ap some (sym e);
    others = λ j ne. put_worker-thread_other vm w i j (launched s) (global_init w.store) ne;
    kept = global_init-global_init w.store ∙ st;
  }

  module _ (fresh : ℕ → Option vm.State) (st : ℕ → vm.State) (store : Option Object) where
    -- What thread `i` holds after the start.
    abbrev pub target : ℕ → Additional vm
    target i = launched (st i)

    abbrev pub Found : ℕ → Option (Additional vm) → Type 0
    Found i o = (a : Additional vm) × (o ≡ some a) × (fresh i ≡ some (st i))

    abbrev Running : ℕ → Option (Additional vm) → Type 0
    Running i o = (scrt : Script vm) × (o ≡ some (some scrt)) × (fresh i ≡ some (st i))

    create_round :
        (i : ℕ) (w : Workers vm)
        → Found i (w.thread i)
        → global_init w.store ≡ store
        → Sets vm target store i w (create vm name fresh i w)
    create_round i w (a, e, f) g =
        subst (Sets vm target store i w) (sym (create-fill vm name fresh i w a (st i) e f))
          (fill-Sets i w (st i) target store g refl)

    restart_round :
        (i : ℕ) (w : Workers vm)
        → Running i (w.thread i)
        → global_init w.store ≡ store
        → Sets vm target store i w (restart vm name fresh i w)
    restart_round i w (scrt, e, f) g =
        subst (Sets vm target store i w) (sym (restart-fill vm name fresh i w scrt (st i) e f))
          (fill-Sets i w (st i) target store g refl)

    -- What the loops leave: the first `n` threads as they start, the others alone, and the store.
    abbrev pub Started : ℕ → Workers vm → Workers vm → Type 0
    Started n w w' =
        ((k : ℕ) → k < n → w'.thread k ≡ some (target k))
        × ((k : ℕ) → n ≤ k → w'.thread k ≡ w.thread k)
        × (global_init w'.store ≡ store)

    pub create_scripts-Started :
        (n : ℕ) (w : Workers vm)
        → n < 2 ^ 31
        → ((k : ℕ) → k < n → Found k (w.thread k))
        → global_init w.store ≡ store
        → (w' : Workers vm) × (create_scripts vm name fresh n w ≡ some w') × Started n w w'
    unfolding create_scripts
    create_scripts-Started n w b found g =
        let (w', runs, set, rest, kept) =
          for_workers-target vm (create vm name fresh) Found target store create_round n 0 w
            (λ k lo hi. found k (omega arith)) g in
        (
          w',
          ap (λ (m : ℕ). for_workers vm (create vm name fresh) m 0 w) (rounds_lem n b) ∙ runs,
          (λ k h. set k (omega arith) (omega arith), λ k h. rest k (inr (omega arith)), kept),
        )

  -- If Lua makes no state for a worker, the signal USR2 makes the server use NULL.
  callback_reload_state_null :
      (fresh : ℕ → Option vm.State) (st : ℕ → vm.State) (i n : ℕ) (w : Workers vm)
      (scrt : Script vm)
      → n < 2 ^ 31
      → i < n
      → ((k : ℕ) → k < i → (c : Script vm) × (w.thread k ≡ some (some c)) × (fresh k ≡ some (st k)))
      → w.thread i ≡ some (some scrt)
      → fresh i ≡ none
      → callback_reload_state vm name fresh n w ≡ none
  unfolding callback_reload_state
  callback_reload_state_null fresh st i n w scrt b lt running e f =
      ap (λ (m : ℕ). for_workers vm (restart vm name fresh) m 0 w) (rounds_lem n b)
      ∙ for_workers_fails vm (restart vm name fresh) (Running fresh st (global_init w.store))
          (target fresh st (global_init w.store)) (global_init w.store)
          (restart_round fresh st (global_init w.store)) i n 0 w (omega arith) (omega arith)
          (λ k lo hi. running k hi) refl (λ w' h g. restart_null vm name fresh i w' scrt (h ∙ e) f)
