-- ===== src/Server/Startup/Serves.antt =====
-- What `bspd_startup` of server/main.c serves in the end.
use mathlib.Core.List.{reverse}
use bspd.Common.{
  ℕ, ◌<◌, ◌^◌, ◌≡◌, refl, ap, ◌∙◌, true, Option, none, some, ◌++◌, if◌then◌else◌, ◌≢◌, if_true,
  if_false, Bool-cases, inl, inr, [], codes, arith,
}
use bspd.Json.Value.{object, Object, array, hash, Items, Fields}
use bspd.Script.Container.{LuaVm, global_init}
use bspd.Server.Clients.{HashLib, World}
use bspd.Server.Conf.{ConfLib}
use bspd.Server.Conf.Global.{Config, parse_global, parse_conf}
use bspd.Server.Conf.Global.Servers.{described, parse_conf-servers}
use bspd.Server.Conf.Levels.{flags, all}
use bspd.Server.Startup.{
  child, Machine, is_ok, is_hash, start_clock, serve, fork_and_serve, start_scripts, after_fork,
  configured, bspd_startup,
}
use bspd.Server.Startup.Init.{
  goes_on, script_init, bared_init, ClientsAlloc, first_world, clients_init,
}
use bspd.Server.Startup.Listen.{NetLib, listen_all}
use bspd.Server.Status.{Rtn, rtn_success, rtn_err_general}
use bspd.Server.Task.{null_ptr}
use bspd.Server.Workers.{Additional, Workers, create_scripts}
use bspd.Server.Workers.Restart.{launched, create_scripts-Started}

-- libbsp gives all that `clients_init` asks for.
pub record IsComplete (a : ClientsAlloc) : Type 0 where
  pub session_pool : a.session_pool ≡ true
  pub channel_pool : a.channel_pool ≡ true
  pub global_block : a.global_block ≢ null_ptr
  pub static_list : a.static_list ≡ true
  pub dynamic_list : a.dynamic_list ≡ true

clients_init-first_world :
    (hashes : HashLib) (a : ClientsAlloc)
    → IsComplete a
    → clients_init hashes a ≡ goes_on (rtn_success, some (first_world hashes a.global_block))
unfolding clients_init
clients_init-first_world hashes a h =
    ground (arith, h.session_pool, h.channel_pool, h.global_block, h.static_list, h.dynamic_list)

module _ (lib : ConfLib) (vm : LuaVm) (hashes : HashLib) (net : NetLib) where
  -- The configuration that is served, if "global" and "servers" are there.
  abbrev pub configuration : Fields → Items → Config → Config
  configuration global xs c =
      let c' = parse_global lib global (record c { trace_level = flags []; log_level = all }) in
      record c' { servers = reverse (described lib xs) ++ c.servers }

  module _ (m : Machine lib vm hashes net) where
    -- The steps before the configuration succeed.
    pub record Prepared : Type 0 where
      pub bsp_init : m.bsp_init ≡ rtn_success
      pub task_pool : m.task_pool ≡ true
      pub bared_pool : m.bared_pool ≡ true
      pub clients : IsComplete m.clients

    pub bspd_startup-configured :
        (c : Config)
        → Prepared
        → bspd_startup lib vm hashes net m c
          ≡ configured lib vm hashes net m c (some (first_world hashes m.clients.global_block))
    unfolding bspd_startup script_init bared_init is_ok
    bspd_startup-configured c p = ground (
      arith,
      p.bsp_init,
      p.task_pool,
      p.bared_pool,
      clients_init-first_world hashes m.clients p.clients,
    )

    start_scripts_run :
        (c : Config) (w : Option (World hashes)) (workers : Workers vm)
        → create_scripts vm c.script m.fresh c.worker_threads (m.prepare c) ≡ some workers
        → start_scripts lib vm hashes net m c w ≡ serve lib vm hashes net m c w (some workers)
    unfolding start_scripts
    start_scripts_run c w workers e = ap (serve lib vm hashes net m c w) e

    -- With or without a fork, the child goes on.
    fork_and_serve_child :
        (c : Config) (w : Option (World hashes))
        → m.forked ≡ child
        → fork_and_serve lib vm hashes net m w c ≡ start_scripts lib vm hashes net m c w
    unfolding fork_and_serve
    fork_and_serve_child c w f = elim (Bool-cases c.daemonize) [
      | inl d ↦ if_true c.daemonize _ _ d ∙ ap (after_fork lib vm hashes net m c w) f
      | inr d ↦ if_false c.daemonize _ _ d
    ]

    configured_hash :
        (c : Config) (w : Option (World hashes)) (fs : Fields)
        → m.conf ≡ some (hash fs)
        → configured lib vm hashes net m c w
          ≡ fork_and_serve lib vm hashes net m w
              (parse_conf lib
                (some (hash fs))
                (record c { trace_level = flags []; log_level = all })).1
    unfolding configured
    configured_hash c w fs e =
        ap
          (λ (conf : Option Object).
            if is_hash lib vm hashes net conf
            then fork_and_serve lib vm hashes net m w
                (parse_conf lib conf (record c { trace_level = flags []; log_level = all })).1
            else goes_on (rtn_err_general, none))
          e

    -- The clock is made if it is enabled.
    serve_clock :
        (c : Config) (w : Option (World hashes)) (workers : Workers vm)
        → m.boss ≡ true
        → m.new_timer ≡ true
        → serve lib vm hashes net m c w (some workers)
          ≡ goes_on (
            m.bsp_startup,
            some (record {
              config = c;
              world = w;
              servers = listen_all net c.servers;
              workers = workers;
              clock = c.enable_main_clock;
            }),
          )
    unfolding serve start_clock
    serve_clock c w workers t u = elim (Bool-cases c.enable_main_clock) [
      | inl k ↦ ground (arith, k, t, u)
      | inr k ↦ ground (arith, k, t, u)
    ]

    -- With a hash for "global" and a list for "servers" in the configuration, the server serves: with
    -- what the two say, the servers opened from the last description to the first, a script for each
    -- worker, and the clock if what the two say enables it; if all that is asked of libbsp and Lua is
    -- given, the workers are below 2 ^ 31, and the process is no parent of a fork.
    pub bspd_startup_serves :
        (c : Config) (fs global : Fields) (xs : Items) (st : ℕ → vm.State)
        (room : (t : vm.State) → vm.has_room t ≡ true)
        → Prepared
        → m.conf ≡ some (hash fs)
        → lib.hash_value fs (codes "global") ≡ some (object (hash global))
        → lib.hash_value fs (codes "servers") ≡ some (object (array xs))
        → m.forked ≡ child
        → (configuration global xs c).worker_threads < 2 ^ 31
        → ((k : ℕ)
            → k < (configuration global xs c).worker_threads
            → (a : Additional vm) × ((m.prepare (configuration global xs c)).thread k ≡ some a)
              × (m.fresh k ≡ some (st k)))
        → m.boss ≡ true
        → m.new_timer ≡ true
        → (workers : Workers vm) × (bspd_startup lib vm hashes net m c
            ≡ goes_on (
              m.bsp_startup,
              some (record {
                config = configuration global xs c;
                world = some (first_world hashes m.clients.global_block);
                servers = listen_all net (reverse (described lib xs) ++ c.servers);
                workers = workers;
                clock = (configuration global xs c).enable_main_clock;
              }),
            ))
          × ((k : ℕ)
              → k < (configuration global xs c).worker_threads
              → workers.thread k
                ≡ some (launched vm room (configuration global xs c).script (st k)))
    bspd_startup_serves c fs global xs st room p e g v f b found t u =
        let c' = configuration global xs c in
        let w = first_world hashes m.clients.global_block in
        let (workers, runs, (set, rest, kept)) =
          create_scripts-Started vm room c'.script m.fresh st (global_init (m.prepare c').store)
            c'.worker_threads (m.prepare c') b found refl in
        (
          workers,
          bspd_startup-configured c p
              ∙ configured_hash c (some w) fs e
              ∙ ap (λ (r : Rtn × Config). fork_and_serve lib vm hashes net m (some w) r.1)
                  (parse_conf-servers lib fs global xs
                    (record c { trace_level = flags []; log_level = all }) g v)
              ∙ fork_and_serve_child c' (some w) f
              ∙ start_scripts_run c' (some w) workers runs
              ∙ serve_clock c' (some w) workers t u,
          set,
        )
