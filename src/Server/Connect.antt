-- ===== src/Server/Connect.antt =====
-- A client from its connection to its end: `new_session`, `bind_session`, `reg_client` and
-- `unreg_client` of server/clients.c, `_bspd_on_connect` and `_bspd_on_disconnect` of
-- server/main.c. `none` is a use of a block that is not in use.
pub mod Leave
use bspd.Common.{
  ℕ, Bool, true, false, Option, none, some, List, [], ◌∷◌, ◌++◌, ◌==◌, if◌then◌else◌, Bytes,
}
use bspd.Server.Clients.{HashLib, World, assign}
use bspd.Server.Sessions.{del_session}
use bspd.Server.Link.{ServerProp}
use bspd.Server.Session.{Session}
use bspd.Server.Status.{Rtn, rtn_success, rtn_invalid}
use bspd.Server.Task.{Ptr, null_ptr, Task, ctl, new_script_task}

-- `BSP_SOCKET_CLIENT`: the descriptor, `additional`, which is the session or NULL, and the server's
-- properties.
pub record Client : Type 0 where
  pub fd : ℕ
  pub additional : Ptr
  pub prop : Option ServerProp

-- The fields that `new_session` sets after `bzero`.
unfoldable pub fresh_session : ℕ → Session
fresh_session now = record {
  session_id = [];
  session_id_int = 0;
  connect_time = now;
  login_time = 0;
  last_active = 0;
  serialize_type = 0;
  compress_type = 0;
  bind = null_ptr;
  logged = false;
  reported = false;
  joined_list = [];
  joined_list_size = 0;
}

hook_connect : Option ServerProp → Option Bytes
hook_connect none = none
hook_connect (some prop) = prop.lua_hook_connect

hook_disconnect : Option ServerProp → Option Bytes
hook_disconnect none = none
hook_disconnect (some prop) = prop.lua_hook_disconnect

module _ (lib : HashLib) where
  pub record State : Type 0 where
    pub world : World lib
    pub clients : Ptr → Option Client
    pub tasks : List Task

  -- `p` is the block from the memory pool, `now` is `time(NULL)`.
  unfoldable pub new_session : Ptr → ℕ → State → Ptr × State
  unfolding assign fresh_session
  new_session p now st = if p == null_ptr then (null_ptr, st) else (
    p,
    record st {
      world = record st.world { sessions = assign st.world.sessions p (some (fresh_session now)) };
    },
  )

  bound : State → Ptr → Client → Ptr → Session → State
  unfolding assign
  bound st clt c session s = record st {
    world = record st.world {
      sessions = assign st.world.sessions session (some (record s { bind = clt }));
    };
    clients = assign st.clients clt (some (record c { additional = session }));
  }

  unfoldable pub bind_session : Ptr → Ptr → State → Option (Rtn × State)
  unfolding bound
  bind_session clt session st =
      if clt == null_ptr
      then some (rtn_invalid, st)
      else if session == null_ptr
      then some (rtn_invalid, st)
      else (elim (st.world.sessions session) [
        | none ↦ none
        | some s ↦ elim (st.clients clt) [
          | none ↦ none
          | some c ↦ some (rtn_success, bound st clt c session s)
        ]
      ])

  bind_new : Ptr → Ptr × State → Option (Rtn × State)
  bind_new clt (session, st) = elim (bind_session clt session st) [
    | none ↦ none
    | some (code, st') ↦ some (rtn_success, st')
  ]

  unfoldable pub reg_client : Ptr → ℕ → Ptr → State → Option (Rtn × State)
  unfolding bind_new
  reg_client p now clt st =
      if clt == null_ptr then some (rtn_invalid, st) else bind_new clt (new_session p now st)

  -- A session that is not logged on goes with its client.
  unfoldable pub drop_session : Ptr → Session → State → Option (Rtn × State)
  drop_session session s st =
      if s.logged then some (rtn_success, st) else (elim (del_session lib session st.world) [
        | none ↦ none
        | some (code, w) ↦ some (rtn_success, record st { world = w })
      ])

  unfoldable pub unreg_with : Client → State → Option (Rtn × State)
  unfolding drop_session
  unreg_with c st =
      if c.additional == null_ptr
      then some (rtn_success, st)
      else (elim (st.world.sessions c.additional) [
        | none ↦ none
        | some s ↦ drop_session c.additional s st
      ])

  unfoldable pub unreg_client : Ptr → State → Option (Rtn × State)
  unfolding unreg_with
  unreg_client clt st =
      if clt == null_ptr
      then some (rtn_invalid, st)
      else (elim (st.clients clt) [ none ↦ none | some c ↦ unreg_with c st ])

  push_ctl : Task → Client → Option Bytes → Option Ptr → State → State
  push_ctl block c none arg st = st
  push_ctl block c (some hook) arg st = record st {
    tasks =
        st.tasks
        ++ record (new_script_task block ctl) { clt = c.fd; func = some hook; follow_up = arg }
          ∷ [];
  }

  -- `_bspd_on_connect`; the task keeps the `follow_up` of its block.
  unfoldable pub on_connect : Task → Ptr → ℕ → Ptr → State → Option (Rtn × State)
  unfolding reg_client push_ctl hook_connect new_script_task
  on_connect block p now clt st =
      if clt == null_ptr then some (rtn_invalid, st) else (elim (reg_client p now clt st) [
        | none ↦ none
        | some (code, st') ↦ elim (st'.clients clt) [
          | none ↦ none
          | some c ↦ some (rtn_success, push_ctl block c (hook_connect c.prop) block.follow_up st')
        ]
      ])

  -- `_bspd_on_disconnect` but for the frame, which goes back to its pool: the task runs
  -- `_after_disconnect_task`, that is `unreg_client`, behind the hook.
  unfoldable pub on_disconnect : Task → Ptr → State → Option (Rtn × State)
  unfolding push_ctl hook_disconnect new_script_task
  on_disconnect block clt st =
      if clt == null_ptr then some (rtn_invalid, st) else (elim (st.clients clt) [
        | none ↦ none
        | some c ↦ some (rtn_success, push_ctl block c (hook_disconnect c.prop) (some clt) st)
      ])
