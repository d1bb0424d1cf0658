-- ===== src/Wrapper/Sessions.antt =====
-- The functions of wrapper/standard.c for sessions and channels, and `standard_net_close`. `none` is
-- a use of a block that is not in use.
pub mod Register
use bspd.Common.{ℕ, Bool, true, false, ◌&&◌, ◌||◌, Option, none, some, ◌==◌, if◌then◌else◌, Bytes}
use bspd.Script.Lua.{Lua, t_nil, t_boolean, t_string, t_number, t_light_userdata}
use bspd.Server.Clients.{
  HashLib, World, assign, set_session_id, new_channel, join_channel, quit_channel, del_channel,
  check_static_channel, check_dynamic_channel,
}
use bspd.Server.Connect.{Client, State, new_session, bind_session}
use bspd.Server.Session.{Session}
use bspd.Server.Sessions.{check_logged_session, logon_session, del_session}
use bspd.Server.Status.{Rtn, rtn_success}
use bspd.Server.Task.{Ptr, null_ptr}

-- What is asked of an argument: `lua_isnumber`, `lua_tointeger`, of a number that is not negative,
-- and `lua_tostring`, which has a text for strings and numbers; and `check_client` of
-- server/clients.c, which looks the descriptor up in libbsp.
pub record ArgLib : Type 0 where
  pub is_number : Lua → Bool
  pub to_integer : Lua → ℕ
  pub to_text : Lua → Option Bytes
  pub check_client : ℕ → Ptr

-- A pointer that was found, or NULL.
unfoldable pub ptr_or_null : Option Ptr → Ptr
ptr_or_null none = null_ptr
ptr_or_null (some p) = p

unfoldable pub is_success : Rtn → Bool
is_success rtn_success = true
is_success _ = false

module _ (hashes : HashLib) where
  -- The session that is logged on under a text; the NULL text finds none.
  unfoldable pub session_of : Option Bytes → World hashes → Option Ptr
  session_of none w = some null_ptr
  session_of (some id) w = elim (check_logged_session hashes id w) [
    | none ↦ none
    | some p ↦ some (ptr_or_null p)
  ]

  -- The client of a session, or `clt` where there is no session.
  unfoldable pub client_of : Ptr → Ptr → World hashes → Option Ptr
  client_of clt session w =
      if session == null_ptr
      then some clt
      else (elim (w.sessions session) [ none ↦ none | some s ↦ some s.bind ])

  -- The session of another client is bound to this one, whose own is deleted.
  unfoldable pub take_over : Ptr → Ptr → Ptr → State hashes → Option (Option Lua × State hashes)
  take_over clt session old st = elim (del_session hashes session st.world) [
    | none ↦ none
    | some (code, w) ↦ elim (bind_session hashes clt old (record st { world = w })) [
      | none ↦ none
      | some (code', st') ↦ some (some (t_light_userdata old), st')
    ]
  ]

  -- `set_session_id` and `logon_session`
  unfoldable pub name_session : Ptr → Bytes → State hashes → Option (Option Lua × State hashes)
  name_session session id st = elim (st.world.sessions session) [
    | none ↦ none
    | some s ↦
        let w : World hashes = record st.world {
          sessions = assign st.world.sessions session (some (set_session_id id s));
        } in
        elim (logon_session hashes session w) [
          | none ↦ none
          | some (code, w') ↦ some (some (t_light_userdata session), record st { world = w' })
        ]
  ]

  -- `p` is the block from the memory pool for a session of a client that has none.
  unfoldable pub reg_new :
      Ptr → ℕ → Ptr → Ptr → Bytes → State hashes → Option (Option Lua × State hashes)
  reg_new p now clt session id st =
      if session == null_ptr
      then (let made = new_session hashes p now st in
          elim (bind_session hashes clt made.0 made.1) [
            | none ↦ none
            | some (code, st') ↦ name_session made.0 id st'
          ])
      else name_session session id st

  unfoldable pub reg_with :
      Ptr → ℕ → Ptr → Ptr → Bytes → State hashes → Option (Option Lua × State hashes)
  reg_with p now clt session id st = elim (session_of (some id) st.world) [
    | none ↦ none
    | some old ↦
        if old == null_ptr
        then reg_new p now clt session id st
        else if session == old
        then some (none, st)
        else take_over clt session old st
  ]

module _ (args : ArgLib) where
  open args use {is_number, to_integer, to_text, check_client}

  -- `lua_isstring`
  unfoldable pub is_string : Lua → Bool
  is_string v = elim (to_text v) [ none ↦ false | some s ↦ true ]

  module _ (hashes : HashLib) where
    -- A number is the id of a dynamic channel, a string the name of a static one.
    unfoldable pub channel_of : Lua → World hashes → Ptr
    channel_of v w =
        if is_number v then check_dynamic_channel hashes (to_integer v) w else (elim (to_text v) [
          | none ↦ null_ptr
          | some name ↦ ptr_or_null (check_static_channel hashes name w)
        ])

    -- The client that is closed, or NULL. The semicolon behind the second test ends it, so the
    -- argument is taken for the id of a session whether it is a number or not.
    unfoldable pub standard_net_close : Lua → World hashes → Option Ptr
    standard_net_close v w =
        let clt = if is_number v then check_client (to_integer v) else null_ptr in
        elim (session_of hashes (to_text v) w) [
          | none ↦ none
          | some session ↦ client_of hashes clt session w
        ]

    -- The client at a descriptor registers an id. The first part of the result is the value that is
    -- pushed on Lua's stack, if one is.
    unfoldable pub standard_reg_session :
        Ptr → ℕ → Lua → Lua → State hashes → Option (Option Lua × State hashes)
    standard_reg_session p now fd id st =
        if (is_string id || is_number id) && is_number fd
        then (let clt = check_client (to_integer fd) in
            if clt == null_ptr then some (some t_nil, st) else (elim (st.clients clt) [
              | none ↦ none
              | some c ↦ elim (to_text id) [
                | none ↦ some (some t_nil, st)
                | some name ↦ reg_with hashes p now clt c.additional name st
              ]
            ]))
        else some (some t_nil, st)

    -- A number has a text too, so the second test is never reached.
    unfoldable pub standard_unreg_session : Lua → State hashes → Option (State hashes)
    standard_unreg_session v st =
        let session =
          if is_string v
          then session_of hashes (to_text v) st.world
          else if is_number v
          then (let clt = check_client (to_integer v) in
              if clt == null_ptr
              then some null_ptr
              else (elim (st.clients clt) [ none ↦ none | some c ↦ some c.additional ]))
          else some null_ptr in
        elim session [
          | none ↦ none
          | some s ↦ elim (del_session hashes s st.world) [
            | none ↦ none
            | some (code, w) ↦ some (record st { world = w })
          ]
        ]

    unfoldable pub standard_check_session : Lua → State hashes → Option Lua
    standard_check_session fd st =
        let clt = check_client (to_integer fd) in
        if clt == null_ptr then some t_nil else (elim (st.clients clt) [
          | none ↦ none
          | some c ↦
              if c.additional == null_ptr
              then some t_nil
              else (elim (st.world.sessions c.additional) [
                | none ↦ none
                | some s ↦ some (t_string s.session_id)
              ])
        ])

    -- The last argument has to be a number, the first one names the channel.
    unfoldable pub standard_del_channel : Lua → Lua → World hashes → Option (World hashes)
    standard_del_channel first last w =
        if is_number last
        then (elim (del_channel hashes (channel_of first w) w) [
          | none ↦ none
          | some (code, w') ↦ some w'
        ])
        else some w

    -- `standard_join_channel` and `standard_quit_channel`, but for the function in the middle.
    unfoldable pub with_member :
        (Ptr → Ptr → World hashes → Option (Rtn × World hashes))
        → Lua
        → Lua
        → World hashes
        → Option (Lua × World hashes)
    with_member f channel id w =
        if is_string id && (is_number channel || is_string channel)
        then (elim (session_of hashes (to_text id) w) [
          | none ↦ none
          | some session ↦ elim (f (channel_of channel w) session w) [
            | none ↦ none
            | some (code, w') ↦ some (t_boolean (is_success code), w')
          ]
        ])
        else some (t_boolean false, w)

    unfoldable pub standard_join_channel : Lua → Lua → World hashes → Option (Lua × World hashes)
    standard_join_channel = with_member (join_channel hashes)

    unfoldable pub standard_quit_channel : Lua → Lua → World hashes → Option (Lua × World hashes)
    standard_quit_channel = with_member (quit_channel hashes)

    -- An argument with a text, that is a number too, names a static channel. `number` is the
    -- conversion of an id to a Lua number, `p` the block from the memory pool and `garbage` what
    -- the memory behind the dynamic list holds.
    unfoldable pub standard_new_channel :
        (ℕ → ℕ) → (ℕ → Ptr) → Ptr → Lua → World hashes → Option (Lua × World hashes)
    standard_new_channel number garbage p v w = elim (new_channel hashes garbage p (to_text v) w) [
      | none ↦ none
      | some (channel, w') ↦ if channel == null_ptr then some (t_nil, w') else (elim (to_text v) [
        | some name ↦ some (t_string name, w')
        | none ↦ elim (w'.channels channel) [
          | none ↦ none
          | some c ↦ some (t_number (number c.id), w')
        ]
      ])
    ]
