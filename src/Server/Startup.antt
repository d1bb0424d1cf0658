-- ===== src/Server/Startup.antt =====
-- `bspd_startup` of server/main.c.
pub mod Init
pub mod Listen
pub mod Serves
pub mod Options
pub mod File
use bspd.Common.{ℕ, Bool, true, false, not, Option, none, some, List, [], ◌∷◌, if◌then◌else◌}
use bspd.Json.Value.{Object, undetermined, single, array, hash}
use bspd.Script.Container.{LuaVm}
use bspd.Server.Clients.{HashLib, World}
use bspd.Server.Conf.{ConfLib}
use bspd.Server.Conf.Global.{Config, parse_conf}
use bspd.Server.Conf.Levels.{flags, all}
use bspd.Server.Startup.Init.{
  Ended, exited, null_used, goes_on, script_init, bared_init, ClientsAlloc, clients_init,
}
use bspd.Server.Startup.Listen.{NetLib, Listening, listen_all}
use bspd.Server.Status.{
  Rtn, rtn_success, rtn_invalid, rtn_err_general, rtn_err_memory, rtn_err_thread, rtn_err_io_read,
  rtn_err_process, rtn_fatal,
}
use bspd.Server.Workers.{Workers, create_scripts}

-- What `fork` makes of the process.
pub data Forked : Type 0 where
  fork_failed child parent : Forked

unfoldable pub is_ok : Rtn → Bool
is_ok rtn_success = true
is_ok _ = false

module _ (lib : ConfLib) (vm : LuaVm) (hashes : HashLib) (net : NetLib) where
  -- What the process meets when it starts: the results of libbsp, the configuration that
  -- `get_conf_from_file` reads, the fork, the worker threads that `bsp_prepare` makes for a
  -- configuration, the states of Lua, and what is found for the clock.
  pub record Machine : Type 0 where
    pub bsp_init : Rtn
    pub task_pool : Bool
    pub bared_pool : Bool
    pub clients : ClientsAlloc
    pub conf : Option Object
    pub forked : Forked
    pub prepare : Config → Workers vm
    pub fresh : ℕ → Option vm.State
    pub boss : Bool
    pub new_timer : Bool
    pub bsp_shutdown : Rtn
    pub bsp_startup : Rtn

  -- The state with which `bsp_startup` is called.
  pub record Serving : Type 0 where
    pub config : Config
    pub world : Option (World hashes)
    pub servers : List Listening
    pub workers : Workers vm
    pub clock : Bool

  unfoldable pub is_hash : Option Object → Bool
  is_hash (some (hash fs)) = true
  is_hash _ = false

  -- The last part: the clock, and the result of `bsp_startup` or `bsp_shutdown`.
  unfoldable pub start_clock : Machine → Serving → Rtn × Option Serving
  start_clock m s =
      if s.config.enable_main_clock
      then if m.boss
        then if m.new_timer
          then (m.bsp_startup, some (record s { clock = true }))
          else (m.bsp_shutdown, none)
        else (m.bsp_startup, some s)
      else (m.bsp_startup, some s)

  -- The servers are opened before the scripts are made; `none` is a use of NULL there.
  unfoldable pub serve :
      Machine → Config → Option (World hashes) → Option (Workers vm) → Ended (Rtn × Option Serving)
  serve m c w none = null_used
  serve m c w (some workers) = goes_on (
      start_clock m (record {
        config = c;
        world = w;
        servers = listen_all net c.servers;
        workers = workers;
        clock = false;
      }))

  unfoldable pub start_scripts :
      Machine → Config → Option (World hashes) → Ended (Rtn × Option Serving)
  unfolding serve start_clock
  start_scripts m c w =
      serve m c w (create_scripts vm c.script m.fresh c.worker_threads (m.prepare c))

  -- `proc_daemonize` of utils/misc.c: the parent exits. What it returns for a fork or a `setsid` that
  -- failed is not used.
  unfoldable pub after_fork :
      Machine → Config → Option (World hashes) → Forked → Ended (Rtn × Option Serving)
  after_fork m c w parent = exited rtn_success
  after_fork m c w _ = start_scripts m c w

  -- The process forks if the configuration says so.
  unfoldable pub fork_and_serve :
      Machine → Option (World hashes) → Config → Ended (Rtn × Option Serving)
  unfolding after_fork start_scripts
  fork_and_serve m w c = if c.daemonize then after_fork m c w m.forked else start_scripts m c w

  -- Whatever `parse_conf` returns, the configuration that it leaves is used.
  unfoldable pub configured :
      Machine → Config → Option (World hashes) → Ended (Rtn × Option Serving)
  unfolding is_hash fork_and_serve
  configured m c w =
      if is_hash m.conf
      then fork_and_serve m w
          (parse_conf lib m.conf (record c { trace_level = flags []; log_level = all })).1
      else goes_on (rtn_err_general, none)

  -- The four steps are tried in turn; the protocols' functions for it only return.
  unfoldable pub bspd_startup : Machine → Config → Ended (Rtn × Option Serving)
  unfolding configured is_ok
  bspd_startup m c =
      if not (is_ok m.bsp_init)
      then exited rtn_err_memory
      else if not (is_ok (script_init false m.task_pool).0)
      then exited rtn_err_memory
      else if not (is_ok (bared_init false m.bared_pool).0)
      then exited rtn_err_memory
      else (elim (clients_init hashes m.clients) [
        | exited code ↦ exited code
        | null_used ↦ null_used
        | goes_on (code, w) ↦ if is_ok code then configured m c w else exited rtn_err_memory
      ])
