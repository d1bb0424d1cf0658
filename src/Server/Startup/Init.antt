-- ===== src/Server/Startup/Init.antt =====
-- What `bspd_startup` sets up before it reads the configuration: `script_init` of server/script.c,
-- `bared_init` of server/main.c and `clients_init` of server/clients.c.
use bspd.Common.{Bool, true, false, Option, none, some, [], ◌==◌, if◌then◌else◌}
use bspd.Server.Clients.{HashLib, global, World}
use bspd.Server.Status.{Rtn, rtn_success, rtn_err_memory, rtn_fatal}
use bspd.Server.Task.{Ptr, null_ptr}

-- `exited` ends the process, `null_used` is a use of NULL.
pub data Ended (A : Type 0) : Type 0 where
  exited : Rtn → Ended A
  null_used : Ended A
  goes_on : A → Ended A

-- The flags are whether the pool is there, and whether `bsp_new_mempool` makes one.
unfoldable pub script_init : Bool → Bool → Rtn × Bool
script_init true made = (rtn_success, true)
script_init false true = (rtn_success, true)
script_init false false = (rtn_err_memory, false)

unfoldable pub bared_init : Bool → Bool → Rtn × Bool
bared_init true made = (rtn_success, true)
bared_init false true = (rtn_success, true)
bared_init false false = (rtn_err_memory, false)

-- What libbsp gives `clients_init`: two pools, the block of the global channel, and two lists.
pub record ClientsAlloc : Type 0 where
  pub session_pool : Bool
  pub channel_pool : Bool
  pub global_block : Ptr
  pub static_list : Bool
  pub dynamic_list : Bool

module _ (hashes : HashLib) where
  -- The world that is left: nothing but the global channel, and 4096 empty places.
  abbrev pub first_world : Ptr → World hashes
  first_world p = record {
    global_channel = p;
    static_list = hashes.new_hash;
    dynamic_list = λ i. null_ptr;
    dynamic_list_size = 4096;
    next_dynamic_id = 0;
    channels = λ q.
        if q == p then some (record { id = 0; name = []; type_of = global; list = none }) else none;
    sessions = λ q. none;
  }

  -- `none` for the world is that of before.
  unfoldable pub clients_init : ClientsAlloc → Ended (Rtn × Option (World hashes))
  clients_init a =
      if a.session_pool
      then if a.channel_pool
        then if a.global_block == null_ptr
          then exited rtn_fatal
          else if a.static_list
          then if a.dynamic_list
            then goes_on (rtn_success, some (first_world a.global_block))
            else exited rtn_err_memory
          else exited rtn_fatal
        else goes_on (rtn_err_memory, none)
      else goes_on (rtn_err_memory, none)
