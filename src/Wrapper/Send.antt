-- ===== src/Wrapper/Send.antt =====
-- `standard_net_send` of wrapper/standard.c. `none` is a use of a block that is not in use, or an
-- error that Lua raises.
pub mod Text
use bspd.Common.{ℕ, Bool, true, false, ◌&&◌, Option, none, some, ◌==◌, if◌then◌else◌, Bytes}
use bspd.Json.Value.{Object}
use bspd.Protocol.Frame.{Bared}
use bspd.Script.Lua.{Lua, t_table, LuaLib}
use bspd.Script.Read.{Outcome, done, lua_error, no_fuel, lua_to_object}
use bspd.Server.Clients.{HashLib, World, assign}
use bspd.Server.Link.{Link}
use bspd.Server.Send.{SendLib, send_string, send_object, send_command}
use bspd.Server.Task.{Ptr, null_ptr}
use bspd.Wrapper.Sessions.{ArgLib, is_string, session_of, client_of}

-- `lua_istable`
unfoldable pub is_table : Lua → Bool
is_table (t_table t) = true
is_table _ = false

-- The clients by their blocks, each as the senders see it.
abbrev pub Links : Type 0
Links = Ptr → Option Link

-- What was sent counts for the result, and the client is changed.
unfoldable pub sent_to : Links → Ptr → ℕ × Link → ℕ × Links
unfolding assign
sent_to links clt (n, l) = (n, assign links clt (some l))

-- An object of the script is sent, if it can be read.
unfoldable pub with_object : Outcome Object → (Object → ℕ × Links) → Option (ℕ × Links)
with_object (done o) f = some (f o)
with_object lua_error f = none
with_object no_fuel f = none

module _ (args : ArgLib) (lua : LuaLib) (hashes : HashLib) (lib : SendLib) (block : Bared) where
  open args use {is_number, to_integer, to_text, check_client}

  -- A number is a descriptor, a string the id of a session.
  unfoldable pub client_at : Lua → World hashes → Option Ptr
  client_at v w =
      if is_number v
      then some (check_client (to_integer v))
      else (elim (session_of hashes (to_text v) w) [
        | none ↦ none
        | some session ↦ client_of hashes null_ptr session w
      ])

  -- A command with its parameters, an object, or a string, by what the script passes; `fuel` is for
  -- the reading of tables.
  unfoldable pub send_to : ℕ → Ptr → Link → Lua → Lua → Links → Option (ℕ × Links)
  send_to fuel clt l v params links =
      if is_number v && is_table params
      then with_object (lua_to_object lua fuel params)
          (λ o. sent_to links clt (send_command lib block (to_integer v) o l))
      else if is_table v
      then with_object (lua_to_object lua fuel v)
          (λ o. sent_to links clt (send_object lib block o l))
      else (elim (to_text v) [
        | none ↦ some (0, links)
        | some s ↦ some (sent_to links clt (send_string lib block s l))
      ])

  -- The number that is pushed, with the clients.
  unfoldable pub standard_net_send : ℕ → Lua → Lua → Lua → World hashes → Links → Option (ℕ × Links)
  standard_net_send fuel target v params w links = elim (client_at target w) [
    | none ↦ none
    | some clt ↦
        if clt == null_ptr
        then some (0, links)
        else (elim (links clt) [ none ↦ none | some l ↦ send_to fuel clt l v params links ])
  ]
