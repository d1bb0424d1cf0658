-- ===== src/Server/Connect/Leave.antt =====
-- What is left of a client of server/main.c and server/clients.c when it leaves.
use bspd.Common.{ℕ, ◌≡◌, ◌≢◌, refl, Option, none, some, [], arith}
use bspd.Server.Clients.{HashLib, Channel, World, assign, quit_channel}
use bspd.Server.Sessions.{quit_all, free_session, del_session}
use bspd.Server.Clients.Logged.{assign_same}
use bspd.Server.Connect.{
  Client, State, fresh_session, new_session, bind_session, reg_client, unreg_client, on_disconnect,
}
use bspd.Server.Link.{ServerProp}
use bspd.Server.Session.{Session}
use bspd.Server.Status.{Rtn, rtn_success, rtn_invalid, rtn_err_general}
use bspd.Server.Task.{Ptr, null_ptr, Task}

module _ (lib : HashLib) where
  -- The state after a client has come.
  abbrev pub came : State lib → Ptr → ℕ → Ptr → Client → State lib
  came st p now clt c = record st {
    world = record st.world {
      sessions =
          assign (assign st.world.sessions p (some (fresh_session now))) p
            (some (record (fresh_session now) { bind = clt }));
    };
    clients = assign st.clients clt (some (record c { additional = p }));
  }

  made : State lib → Ptr → ℕ → State lib
  made st p now = record st {
    world = record st.world { sessions = assign st.world.sessions p (some (fresh_session now)) };
  }

  new_session-made :
      (st : State lib) (p : Ptr) (now : ℕ)
      → p ≢ null_ptr
      → new_session lib p now st ≡ (p, made st p now)
  unfolding new_session made
  new_session-made st p now pn = ground arith

  bind_session-came :
      (st : State lib) (p : Ptr) (now : ℕ) (clt : Ptr) (c : Client)
      → p ≢ null_ptr
      → clt ≢ null_ptr
      → st.clients clt ≡ some c
      → bind_session lib clt p (made st p now) ≡ some (rtn_success, came st p now clt c)
  unfolding bind_session made
  bind_session-came st p now clt c pn cn e =
      ground (arith, assign_same st.world.sessions p (some (fresh_session now)))

  reg_client-came :
      (st : State lib) (p : Ptr) (now : ℕ) (clt : Ptr) (c : Client)
      → p ≢ null_ptr
      → clt ≢ null_ptr
      → st.clients clt ≡ some c
      → reg_client lib p now clt st ≡ some (rtn_success, came st p now clt c)
  unfolding reg_client
  reg_client-came st p now clt c pn cn e =
      ground (arith, new_session-made st p now pn, bind_session-came st p now clt c pn cn e)

  quit_unnamed :
      (w : World lib) (channel session : Ptr) (g : Channel lib) (s : Session)
      → channel ≢ null_ptr
      → session ≢ null_ptr
      → w.channels channel ≡ some g
      → w.sessions session ≡ some s
      → s.session_id ≡ []
      → (code : Rtn) × (quit_channel lib channel session w ≡ some (code, w))
  unfolding quit_channel
  quit_unnamed w channel session g s gn sn gc ss id = by_list g.list refl
    where
      by_list :
          (l : Option lib.Hash)
          → g.list ≡ l
          → (code : Rtn) × (quit_channel lib channel session w ≡ some (code, w))
      by_list none e = (rtn_invalid, ground arith)
      by_list (some h) e = (rtn_err_general, ground arith)

  -- A session with no id in no channel is deleted without a trace in the channels.
  del_session_unnamed :
      (w : World lib) (session : Ptr) (g : Channel lib) (s : Session)
      → w.global_channel ≢ null_ptr
      → session ≢ null_ptr
      → w.channels w.global_channel ≡ some g
      → w.sessions session ≡ some s
      → s.session_id ≡ []
      → s.joined_list ≡ []
      → del_session lib session w ≡ some (rtn_success, free_session lib session w)
  unfolding del_session quit_all
  del_session_unnamed w session g s gn sn gc ss id l =
      let (code, e) = quit_unnamed w w.global_channel session g s gn sn gc ss id in
      ground (arith, e)

  -- A client that comes and goes without logging on, if its block and that of the global channel are
  -- in use and there is a block for its session: both calls succeed, the client has the
  -- session in between, and its block is free at the end.
  pub reg_client-unreg_client :
      (st : State lib) (p : Ptr) (now : ℕ) (clt : Ptr) (c : Client) (g : Channel lib)
      → p ≢ null_ptr
      → clt ≢ null_ptr
      → st.clients clt ≡ some c
      → st.world.global_channel ≢ null_ptr
      → st.world.channels st.world.global_channel ≡ some g
      → (st' : State lib) × (st'' : State lib) × (reg_client lib p now clt st
          ≡ some (rtn_success, st'))
        × (st'.clients clt ≡ some (record c { additional = p }))
        × (unreg_client lib clt st' ≡ some (rtn_success, st''))
        × (st''.world.sessions p ≡ none)
        × (st''.world.channels ≡ st.world.channels)
  unfolding unreg_client free_session fresh_session
  reg_client-unreg_client st p now clt c g pn cn e gn gc =
      let st' = came st p now clt c in
      let s : Session = record (fresh_session now) { bind = clt } in
      let has : st'.world.sessions p ≡ some s =
        assign_same (assign st.world.sessions p (some (fresh_session now))) p (some s) in
      let client : st'.clients clt ≡ some (record c { additional = p }) =
        assign_same st.clients clt _ in
      let del = del_session_unnamed st'.world p g s gn pn gc has refl refl in
      (
        st',
        record st' { world = free_session lib p st'.world },
        reg_client-came st p now clt c pn cn e,
        client,
        ground (arith, client, has, del),
        assign_same st'.world.sessions p none,
        refl,
      )

  -- Without a hook for it, the end of a connection changes nothing: the session is not deleted.
  pub on_disconnect_no_hook :
      (block : Task) (st : State lib) (clt : Ptr) (c : Client) (prop : ServerProp)
      → clt ≢ null_ptr
      → st.clients clt ≡ some c
      → c.prop ≡ some prop
      → prop.lua_hook_disconnect ≡ none
      → on_disconnect lib block clt st ≡ some (rtn_success, st)
  unfolding on_disconnect
  on_disconnect_no_hook block st clt c prop cn e p h = ground arith
