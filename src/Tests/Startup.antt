-- ===== src/Tests/Startup.antt =====
-- Runs of the start in server/main.c and of the options in bspd.c.
use mathlib.Core.List.{reverse}
use bspd.Common.{
  ℕ, ◌≢◌, Option, Bytes, pos, ◌<◌, ◌≡◌, refl, true, false, none, some, List, [], ◌∷◌, ◌++◌, codes,
  arith,
}
use bspd.Json.Decode.{Run, done, json_nd_decode}
use bspd.Json.Encode.{json_nd_encode}
use bspd.Json.RoundTrip.{Good}
use bspd.Json.Value.{Fields, field, end, int, hash, object}
use bspd.Server.Conf.{with_text, text_of}
use bspd.Server.Conf.Global.{Config, parse_global, threads_entry, flag_entry, text_entry}
use bspd.Server.Conf.Global.Servers.{described}
use bspd.Server.Startup.{child, Machine, Serving, bspd_startup}
use bspd.Server.Startup.File.{startup_from_file, startup_from_file-bspd_startup}
use bspd.Server.Startup.Init.{Ended, goes_on, first_world}
use bspd.Server.Startup.Listen.{NetLib, tcp, listen_all}
use bspd.Server.Startup.Options.{
  verbose, daemon, config, Opt, Settings, read_options, any, is_help, read_options-chosen,
}
use bspd.Server.Startup.Serves.{configuration, Prepared, bspd_startup_serves}
use bspd.Server.Status.{Rtn, rtn_success, rtn_err_general}
use bspd.Server.Workers.{Workers}
use bspd.Server.Workers.Restart.{launched}
use bspd.Tests.Clients.{pairs}
use bspd.Tests.Conf.{reader, blank_config, globals, two_servers, configuration_fields}
use bspd.Tests.Json.{ascii}
use bspd.Tests.Numbers.{integers, integers_laws}
use bspd.Tests.Workers.{vm}

-- Each server has one socket, and each thread a container.
abbrev net : NetLib
net = record {
  new_unix_server = λ addr. some (record { fd = 3; kind = tcp } ∷ []);
  new_net_server = λ addr port inet sock. some (record { fd = 4; kind = tcp } ∷ []);
  select_thread = λ kind fd. some 0;
  reg_fd = λ fd. true;
}

abbrev threads : Workers vm
threads = record { thread = λ i. some none; store = none }

abbrev machine : Machine reader vm pairs net
machine = record {
  bsp_init = rtn_success;
  task_pool = true;
  bared_pool = true;
  clients = record {
    session_pool = true;
    channel_pool = true;
    global_block = 16;
    static_list = true;
    dynamic_list = true;
  };
  conf = some (hash configuration_fields);
  forked = child;
  prepare = λ c. threads;
  fresh = λ i. some [];
  boss = true;
  new_timer = true;
  bsp_shutdown = rtn_success;
  bsp_startup = rtn_success;
}

abbrev clocked : Config
clocked = record blank_config { enable_main_clock = true }

abbrev served : Config
served = configuration reader vm pairs net globals two_servers clocked

machine_Prepared : Prepared reader vm pairs net machine
machine_Prepared = record {
  bsp_init = refl;
  task_pool = refl;
  bared_pool = refl;
  clients = record {
    session_pool = refl;
    channel_pool = refl;
    global_block = λ e. omega arith;
    static_list = refl;
    dynamic_list = refl;
  };
}

bspd_startup_serves_example :
    (workers : Workers vm) × (bspd_startup reader vm pairs net machine clocked
      ≡ goes_on (
        rtn_success,
        some (record {
          config = served;
          world = some (first_world pairs 16);
          servers = listen_all net (reverse (described reader two_servers) ++ []);
          workers = workers;
          clock = true;
        }),
      ))
    × ((k : ℕ) → k < 4 → workers.thread k ≡ some (launched vm (λ s. refl) none []))
unfolding parse_global threads_entry flag_entry text_entry with_text text_of
bspd_startup_serves_example =
    bspd_startup_serves reader vm pairs net machine clocked configuration_fields globals two_servers
      (λ i. []) (λ s. refl) machine_Prepared refl refl refl refl (omega arith)
      (λ k h. (none, refl, refl)) refl refl

-- {"pid": 12}
abbrev small : Fields
small = field (codes "pid") (int (pos 12)) end

abbrev read_file : Bytes → Option Bytes
read_file filename = some (json_nd_encode ascii (hash small) none)

abbrev from_file : Run (Ended (Rtn × Option (Serving reader vm pairs net)))
from_file =
    startup_from_file reader vm pairs net integers read_file (codes "bspd.conf") machine clocked

startup_from_file-bspd_startup_example :
    ((r : Ended (Rtn × Option (Serving reader vm pairs net))) × (from_file ≡ done r))
    × (read_file (codes "bspd.conf") ≡ none → from_file ≡ done (goes_on (rtn_err_general, none)))
    × ((str : Bytes)
        → read_file (codes "bspd.conf") ≡ some str
        → ((fs : Fields) → json_nd_decode integers str ≢ done (some (hash fs)))
        → from_file ≡ done (goes_on (rtn_err_general, none)))
    × ((fs : Fields)
        → Good ascii (object (hash fs))
        → read_file (codes "bspd.conf") ≡ some (json_nd_encode ascii (hash fs) none)
        → from_file
          ≡ done
              (bspd_startup reader vm pairs net (record machine { conf = some (hash fs) }) clocked))
startup_from_file-bspd_startup_example =
    startup_from_file-bspd_startup reader vm pairs net integers read_file (codes "bspd.conf")
      machine clocked ascii integers_laws machine_Prepared

-- A path of two options is the one of the last.
abbrev given : List Opt
given = verbose ∷ config (codes "a.conf") ∷ daemon ∷ config (codes "b.conf") ∷ []

abbrev defaults : Settings
defaults = record {
  is_verbose = false;
  daemonize = false;
  enable_main_clock = true;
  config_file = [];
  pid_file = [];
  log_file = [];
}

read_options-chosen_example :
    (any is_help given ≡ true → read_options given defaults ≡ none)
    × (any is_help given ≡ false
        → read_options given defaults
          ≡ some (record defaults {
            is_verbose = true;
            daemonize = true;
            config_file = codes "b.conf";
          }))
read_options-chosen_example = read_options-chosen given defaults
