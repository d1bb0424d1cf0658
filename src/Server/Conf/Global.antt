-- ===== src/Server/Conf/Global.antt =====
-- `parse_conf` of server/conf.c: the configuration of the whole server.
pub mod Servers
use bspd.Common.{
  ℕ, ◌%◌, ◌^◌, Bool, true, false, Option, none, some, List, ◌∷◌, if◌then◌else◌, Bytes, codes,
}
use bspd.Json.Value.{Value, Object, undetermined, single, array, hash, Items, nil, cons, Fields}
use bspd.Server.Conf.{ServerConf, ConfLib, with_text, text_of, parse_conf_server}
use bspd.Server.Conf.Levels.{Level, all, level_of}
use bspd.Server.Status.{Rtn, rtn_success, rtn_invalid, rtn_err_general}

-- `BSPD_CONFIG`: the fields that `parse_conf` reads or sets. A number of threads is the bit pattern
-- of an `int`, and `servers` is the linked list from its head on.
pub record Config : Type 0 where
  pub verbose : Bool
  pub daemonize : Bool
  pub enable_main_clock : Bool
  pub trace_level : Level
  pub log_level : Level
  pub boss_threads : ℕ
  pub acceptor_threads : ℕ
  pub io_threads : ℕ
  pub worker_threads : ℕ
  pub script : Option Bytes
  pub lua_hook_load : Option Bytes
  pub servers : List ServerConf

module _ (lib : ConfLib) where
  open lib use {hash_value, object_value, get_object, get_int, get_boolean}

  unfoldable pub level_entry : Fields → Bytes → Level → Level
  level_entry global key kept = with_text lib level_of kept (text_of lib global key)

  unfoldable pub threads_entry : Fields → Bytes → ℕ → ℕ
  threads_entry global key kept = elim (hash_value global key) [
    | none ↦ kept
    | some v ↦ get_int v % 2 ^ 32
  ]

  unfoldable pub flag_entry : Fields → Bytes → Bool → Bool
  flag_entry global key kept = elim (hash_value global key) [ none ↦ kept | some v ↦ get_boolean v ]

  -- The string is copied.
  unfoldable pub text_entry : Fields → Bytes → Option Bytes → Option Bytes
  text_entry global key kept = with_text lib (λ old s. some s) kept (text_of lib global key)

  unfoldable pub parse_global : Fields → Config → Config
  parse_global global c = record c {
    trace_level = if c.verbose then all else level_entry global (codes "trace_level") c.trace_level;
    log_level = level_entry global (codes "log_level") c.log_level;
    daemonize = if c.daemonize then true else flag_entry global (codes "daemonize") false;
    boss_threads = threads_entry global (codes "boss_threads") c.boss_threads;
    acceptor_threads = threads_entry global (codes "acceptor_threads") c.acceptor_threads;
    io_threads = threads_entry global (codes "io_threads") c.io_threads;
    worker_threads = threads_entry global (codes "worker_threads") c.worker_threads;
    script = text_entry global (codes "script") c.script;
    lua_hook_load = text_entry global (codes "lua_hook_load") c.lua_hook_load;
    enable_main_clock = flag_entry global (codes "enable_main_clock") c.enable_main_clock;
  }

  -- One item of the list of servers: what is no hash is left out.
  unfoldable pub parse_item : Option Object → List ServerConf → List ServerConf
  parse_item (some (hash desc)) servers = elim (parse_conf_server lib (hash desc)) [
    | none ↦ servers
    | some server ↦ server ∷ servers
  ]
  parse_item _ servers = servers

  unfoldable pub parse_servers : Items → List ServerConf → List ServerConf
  parse_servers nil servers = servers
  parse_servers (cons v xs) servers = parse_servers xs (parse_item (get_object v) servers)

  -- The node "servers", if there is one.
  unfoldable pub with_servers : Option Object → Config → Config
  unfolding parse_servers
  with_servers (some (array xs)) c = record c { servers = parse_servers xs c.servers }
  with_servers _ c = c

  unfoldable pub object_at : Object → Bytes → Option Object
  object_at conf key = elim (object_value conf key) [ none ↦ none | some v ↦ get_object v ]

  unfoldable pub parse_with : Object → Option Object → Config → Rtn × Config
  parse_with conf (some (hash global)) c =
      (rtn_success, with_servers (object_at conf (codes "servers")) (parse_global global c))
  parse_with conf _ c = (rtn_err_general, c)

  -- Without a node "global", and where that is no hash, the result is the same.
  unfoldable pub parse_conf : Option Object → Config → Rtn × Config
  parse_conf none c = (rtn_invalid, c)
  parse_conf (some conf) c = parse_with conf (object_at conf (codes "global")) c
