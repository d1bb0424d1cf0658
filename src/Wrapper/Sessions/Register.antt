-- ===== src/Wrapper/Sessions/Register.antt =====
-- How the functions of wrapper/standard.c register a session and close a client.
use bspd.Common.{
  ℕ, ◌≤◌, ◌≡◌, ◌≢◌, refl, ◌∙◌, true, Option, none, some, [], Bytes, length, take_all, arith,
}
use bspd.Script.Lua.{Lua, t_light_userdata}
use bspd.Server.Clients.{HashLib, World, Channel, assign, set_session_id}
use bspd.Server.Clients.Logged.{assign_same, logon_session-check_logged_session}
use bspd.Server.Connect.{Client, State, bind_session}
use bspd.Server.Session.{Session}
use bspd.Server.Sessions.{check_logged_session, del_session}
use bspd.Server.Status.{Rtn, rtn_success}
use bspd.Server.Task.{Ptr, null_ptr}
use bspd.Wrapper.Sessions.{
  ArgLib, ptr_or_null, is_string, session_of, client_of, standard_net_close, take_over,
  name_session, reg_new, reg_with, standard_reg_session,
}

module _ (args : ArgLib) (hashes : HashLib) where
  pub session_of-check :
      (id : Bytes) (w : World hashes) (p : Option Ptr)
      → check_logged_session hashes id w ≡ some p
      → session_of hashes (some id) w ≡ some (ptr_or_null p)
  unfolding session_of
  session_of-check id w p e = ground (arith, e)

  -- A number whose text is the id of a session closes the client of that session, whatever client has
  -- the number for a descriptor: if the session is in use.
  pub standard_net_close-session :
      (v : Lua) (id : Bytes) (session : Ptr) (s : Session) (w : World hashes)
      → args.is_number v ≡ true
      → args.to_text v ≡ some id
      → check_logged_session hashes id w ≡ some (some session)
      → session ≢ null_ptr
      → w.sessions session ≡ some s
      → standard_net_close args hashes v w ≡ some s.bind
  unfolding standard_net_close client_of ptr_or_null
  standard_net_close-session v id session s w n t c sn e =
      ground (arith, t, session_of-check id w (some session) c, e)

  -- The arguments are a descriptor in use and a text.
  reg_session-with :
      (p : Ptr) (now : ℕ) (fd id : Lua) (name : Bytes) (clt : Ptr) (c : Client) (st : State hashes)
      → args.is_number fd ≡ true
      → args.to_text id ≡ some name
      → args.check_client (args.to_integer fd) ≡ clt
      → clt ≢ null_ptr
      → st.clients clt ≡ some c
      → standard_reg_session args hashes p now fd id st
        ≡ reg_with hashes p now clt c.additional name st
  unfolding standard_reg_session is_string
  reg_session-with p now fd id name clt c st n t k kn e = ground (arith, n, t, k, e)

  -- A client that registers the id that its session has already gets nothing on the stack.
  pub standard_reg_session_again :
      (p : Ptr) (now : ℕ) (fd id : Lua) (name : Bytes) (clt : Ptr) (c : Client) (st : State hashes)
      → args.is_number fd ≡ true
      → args.to_text id ≡ some name
      → args.check_client (args.to_integer fd) ≡ clt
      → clt ≢ null_ptr
      → st.clients clt ≡ some c
      → c.additional ≢ null_ptr
      → check_logged_session hashes name st.world ≡ some (some c.additional)
      → standard_reg_session args hashes p now fd id st ≡ some (none, st)
  unfolding reg_with ptr_or_null
  standard_reg_session_again p now fd id name clt c st n t k kn e an l =
      reg_session-with p now fd id name clt c st n t k kn e
      ∙ ground (arith, session_of-check name st.world (some c.additional) l)

  abbrev tied : State hashes → Ptr → Client → Ptr → Session → State hashes
  tied st clt c session s = record st {
    world = record st.world {
      sessions = assign st.world.sessions session (some (record s { bind = clt }));
    };
    clients = assign st.clients clt (some (record c { additional = session }));
  }

  bind_session-tied :
      (st : State hashes) (clt session : Ptr) (c : Client) (s : Session)
      → clt ≢ null_ptr
      → session ≢ null_ptr
      → st.world.sessions session ≡ some s
      → st.clients clt ≡ some c
      → bind_session hashes clt session st ≡ some (rtn_success, tied st clt c session s)
  unfolding bind_session
  bind_session-tied st clt session c s cn sn e k = ground arith

  take_over-tied :
      (clt session old : Ptr) (c : Client) (o : Session) (code : Rtn) (st : State hashes)
      (w : World hashes)
      → clt ≢ null_ptr
      → old ≢ null_ptr
      → st.clients clt ≡ some c
      → del_session hashes session st.world ≡ some (code, w)
      → w.sessions old ≡ some o
      → take_over hashes clt session old st
        ≡ some (some (t_light_userdata old), tied (record st { world = w }) clt c old o)
  unfolding take_over
  take_over-tied clt session old c o code st w cn on k d e =
      ground (arith, d, bind_session-tied (record st { world = w }) clt old c o cn on e k)

  -- If the id is that of another client's session, which is still in use after the client's own was
  -- deleted, that session is pushed, and it and the client are bound to each other.
  pub standard_reg_session_takes_over :
      (p : Ptr) (now : ℕ) (fd id : Lua) (name : Bytes) (clt old : Ptr) (c : Client) (o : Session)
      (code : Rtn) (st : State hashes) (w : World hashes)
      → args.is_number fd ≡ true
      → args.to_text id ≡ some name
      → args.check_client (args.to_integer fd) ≡ clt
      → clt ≢ null_ptr
      → st.clients clt ≡ some c
      → check_logged_session hashes name st.world ≡ some (some old)
      → old ≢ null_ptr
      → c.additional ≢ old
      → del_session hashes c.additional st.world ≡ some (code, w)
      → w.sessions old ≡ some o
      → (st' : State hashes) × (standard_reg_session args hashes p now fd id st
          ≡ some (some (t_light_userdata old), st'))
        × (st'.clients clt ≡ some (record c { additional = old }))
        × (st'.world.sessions old ≡ some (record o { bind = clt }))
  unfolding reg_with ptr_or_null
  standard_reg_session_takes_over p now fd id name clt old c o code st w n t k kn e l on an d oe = (
    tied (record st { world = w }) clt c old o,
    reg_session-with p now fd id name clt c st n t k kn e
        ∙ ground (
          arith,
          session_of-check name st.world (some old) l,
          take_over-tied clt c.additional old c o code st w kn on e d oe,
        ),
    assign_same st.clients clt (some (record c { additional = old })),
    assign_same w.sessions old (some (record o { bind = clt })),
  )

  -- The world in which the session has its id.
  abbrev named_world : World hashes → Ptr → Session → Bytes → World hashes
  named_world w session s id = record w {
    sessions = assign w.sessions session (some (record s { session_id = id }));
  }

  set_session_id-short :
      (id : Bytes) (s : Session)
      → length id ≤ 63
      → set_session_id id s ≡ record s { session_id = id }
  unfolding set_session_id
  set_session_id-short id s h = rw (take_all 63 id h) refl

  name_session-logged :
      (session : Ptr) (id : Bytes) (s : Session) (st : State hashes) (g : Channel hashes)
      → session ≢ null_ptr
      → id ≢ []
      → length id ≤ 63
      → st.world.sessions session ≡ some s
      → st.world.global_channel ≢ null_ptr
      → st.world.channels st.world.global_channel ≡ some g
      → (st' : State hashes) × (name_session hashes session id st
          ≡ some (some (t_light_userdata session), st'))
        × (check_logged_session hashes id st'.world ≡ some (some session))
  unfolding name_session
  name_session-logged session id s st g sn idn h e gn ge =
      let w = named_world st.world session s id in
      let l =
        logon_session-check_logged_session hashes w session g (record s { session_id = id }) gn sn
          ge (assign_same st.world.sessions session (some (record s { session_id = id }))) idn in
      (record st { world = l.0 }, ground (arith, e, set_session_id-short id s h, l.1), l.2)

  -- A client with a session that registers an id of at most 63 bytes, not empty, under which no
  -- session is logged on, gets that session, which is then found by the id: if the blocks of the
  -- session and the global channel are in use.
  pub standard_reg_session-check_logged_session :
      (p : Ptr) (now : ℕ) (fd id : Lua) (name : Bytes) (clt : Ptr) (c : Client) (s : Session)
      (g : Channel hashes) (st : State hashes)
      → args.is_number fd ≡ true
      → args.to_text id ≡ some name
      → args.check_client (args.to_integer fd) ≡ clt
      → clt ≢ null_ptr
      → st.clients clt ≡ some c
      → check_logged_session hashes name st.world ≡ some none
      → c.additional ≢ null_ptr
      → st.world.sessions c.additional ≡ some s
      → name ≢ []
      → length name ≤ 63
      → st.world.global_channel ≢ null_ptr
      → st.world.channels st.world.global_channel ≡ some g
      → (st' : State hashes) × (standard_reg_session args hashes p now fd id st
          ≡ some (some (t_light_userdata c.additional), st'))
        × (check_logged_session hashes name st'.world ≡ some (some c.additional))
  unfolding reg_with reg_new ptr_or_null
  standard_reg_session-check_logged_session p now fd id name clt c s g st n t k kn e l an se nn h gn
        ge =
      let r = name_session-logged c.additional name s st g an nn h se gn ge in
      (
        r.0,
        reg_session-with p now fd id name clt c st n t k kn e
            ∙ ground (arith, session_of-check name st.world none l, r.1),
        r.2,
      )
