-- ===== src/Tests/Workers.antt =====
-- Runs of the scripts, the clock and the start of server/main.c and server/script.c.
use bspd.Common.{
  ◌≢◌, ℕ, suc, ◌+◌, ◌≡◌, ◌/◌, ◌-◌, refl, true, Option, none, some, List, [], ◌∷◌, ◌++◌, ltb,
  if◌then◌else◌, Bytes, codes, length, All, arith,
}
use bspd.Json.Value.{hash, end}
use bspd.Script.Container.{CFunction, standard_net_send, LuaVm, lua_ok, load_wrappers, global_init}
use bspd.Script.Container.Registered.{same_name, lua_name, GlobalLaws, load_wrappers-get_global}
use bspd.Server.Clock.{ticks}
use bspd.Server.Clock.Collect.{ticks-length}
use bspd.Server.Queue.{Queue}
use bspd.Server.Queue.Chain.{Entries, IsQueue}
use bspd.Server.Queue.Chain
use bspd.Server.Task.{Ptr, Task, gc, raw, no_data}
use bspd.Server.Workers.{Workers}

abbrev Globals : Type 0
Globals = List (Bytes × CFunction)

abbrev pub global_in : Globals → Bytes → Option CFunction
global_in [] key = none
global_in ((name, f) ∷ fs) key =
    let rest = global_in fs key in if same_name name key then some f else rest

-- A state that is nothing but its globals; a script file changes nothing.
abbrev pub vm : LuaVm
vm = record {
  State = Globals;
  open_libs = λ s. s;
  has_room = λ s. true;
  set_global = λ name f s. (name, f) ∷ s;
  load_file = λ name s. (lua_ok, s);
  load_buffer = λ text s. (lua_ok, s);
  run_chunk = λ s. (true, s);
}

abbrev vm_laws : GlobalLaws vm global_in
vm_laws = record { get_global-set_global = λ s name key f. refl; has_room = λ s. refl }

load_wrappers-get_global_example :
    (s' : Globals) × (load_wrappers vm (some []) none ≡ some (some s', global_init none))
    × ((f : CFunction) → global_in s' (lua_name f) ≡ some f)
    × ((key : Bytes) → ((f : CFunction) → lua_name f ≢ key) → global_in s' key ≡ none)
load_wrappers-get_global_example = load_wrappers-get_global vm global_in [] none vm_laws

-- Two workers, whose scripts have no functions any more.
abbrev running : Workers vm
running = record {
  thread = λ i. if ltb i 2 then some (some (record { state = some [] })) else none;
  store = some (hash end);
}

abbrev unstarted : Workers vm
unstarted = record { thread = λ i. if ltb i 2 then some none else none; store = none }

-- Loading the file "main.lua" leaves a mark.
abbrev marking : LuaVm
marking = record vm { load_file = λ name s. (lua_ok, (name, standard_net_send) ∷ s) }

abbrev with_one : Workers marking
with_one = record {
  thread = λ i. if ltb i 2 then some (some (record { state = some [] })) else none;
  store = none;
}

abbrev marked : Globals
marked = (codes "main.lua", standard_net_send) ∷ []

abbrev blank : Task
blank = record {
  type_of = raw;
  func = none;
  ref = 0;
  clt = 0;
  cmd = 0;
  proto = none;
  payload = no_data;
  follow_up = none;
}

abbrev blocks : ℕ → Ptr × Task
blocks i = (suc i, blank)

abbrev idle : Queue
idle = record { head = 0; tail = 0; cell = λ p. none }

ticks-length_example :
    (q' : Queue) × (ys : Entries) × (ticks 4 (λ i. true) true blocks 600 0 idle ≡ some q')
    × IsQueue q' ([] ++ ys)
    × All (λ (e : Ptr × Task). e.1.type_of ≡ gc) ys
    × (length ys ≡ (0 + 600 + 255) / 256 - (0 + 255) / 256)
ticks-length_example =
    ticks-length 4 (λ i. true) blocks 600 0 idle [] (omega arith) (λ i. refl) (λ j. omega arith)
      (λ j k e. omega arith) (record { chain = Chain.nil refl; distinct = tt; tail_is = refl })
      (λ k h. tt)
