-- ===== src/Server/Workers/Reload.antt =====
-- What the signal USR1 makes of the scripts of server/main.c.
use bspd.Common.{ℕ, ◌≡◌, Option, some, Bytes}
use bspd.Json.Value.{Object}
use bspd.Script.Container.{LuaVm, Script, load_script_file}
use bspd.Server.Workers.{Additional, Workers}

module _ (vm : LuaVm) (name : Option Bytes) where
  -- The container with the file loaded on top of what it had.
  abbrev loaded : Script vm → Additional vm
  loaded scrt = (load_script_file vm (some scrt) name).1

  module _ (scrt : ℕ → Script vm) (store : Option Object) where
    abbrev Holds : ℕ → Option (Additional vm) → Type 0
    Holds i o = o ≡ some (some (scrt i))

    abbrev target : ℕ → Additional vm
    target i = loaded (scrt i)
