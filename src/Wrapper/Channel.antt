-- ===== src/Wrapper/Channel.antt =====
-- `standard_net_send_channel` and `standard_list_channel` of wrapper/standard.c: what scripts do with
-- all members of a channel. `none` is a use of a block that is not in use, or an error of Lua.
pub mod Broadcast
use bspd.Common.{ℕ, suc, ◌&&◌, Option, none, some, List, [], ◌∷◌, ◌==◌, if◌then◌else◌, Bytes, pos}
use bspd.Json.Value.{Object}
use bspd.Protocol.Frame.{Bared}
use bspd.Script.Lua.{Lua, t_nil, t_integer, t_string, t_table, Table, new_table, LuaLib}
use bspd.Script.Read.{Outcome, done, lua_error, no_fuel, lua_to_object}
use bspd.Server.Clients.{HashLib, World, Channel, assign}
use bspd.Server.Link.{Link}
use bspd.Server.Send.{SendLib, send_string, send_object, send_command}
use bspd.Server.Task.{Ptr, null_ptr}
use bspd.Wrapper.Send.{is_table, Links}
use bspd.Wrapper.Sessions.{ArgLib, channel_of}

-- The client that a member of a channel is bound to, or NULL.
unfoldable pub member_client : {hashes : HashLib} → Ptr → World hashes → Option Ptr
member_client session w =
    if session == null_ptr
    then some null_ptr
    else (elim (w.sessions session) [ none ↦ none | some s ↦ some s.bind ])

-- One sending, to a client that is there; the result of the sender is not used.
unfoldable pub send_one : (Link → ℕ × Link) → Ptr → Links → Option Links
unfolding assign
send_one f clt links = elim (links clt) [
  | none ↦ none
  | some l ↦ some (assign links clt (some (f l).1))
]

-- The loop over the members, with the number of those that were sent to, which the source keeps
-- in a size_t; a channel has less than 2 ^ 31 members.
unfoldable pub broadcast :
    {hashes : HashLib}
    → (Link → ℕ × Link)
    → List (Bytes × Ptr)
    → World hashes
    → ℕ
    → Links
    → Option (ℕ × Links)
broadcast f [] w sent links = some (sent, links)
broadcast f ((key, session) ∷ rest) w sent links = elim (member_client session w) [
  | none ↦ none
  | some clt ↦
      let skipped = broadcast f rest w sent links in
      if clt == null_ptr then skipped else (elim (send_one f clt links) [
        | none ↦ none
        | some links' ↦ broadcast f rest w (suc sent) links'
      ])
]

-- The list of a channel, if both are there.
unfoldable pub list_of : {hashes : HashLib} → Ptr → World hashes → Option (Option hashes.Hash)
list_of channel w =
    if channel == null_ptr
    then some none
    else (elim (w.channels channel) [ none ↦ none | some c ↦ some c.list ])

module _ (args : ArgLib) (lua : LuaLib) (hashes : HashLib) (lib : SendLib) (block : Bared) where
  open args use {is_number, to_integer, to_text}
  open hashes use {members}

  -- The sender for what the script passes: a command with parameters, an object or a string. The
  -- second `none` is another value, for which 0 is pushed.
  unfoldable pub sender_of : ℕ → Lua → Lua → Option (Option (Link → ℕ × Link))
  sender_of fuel v params =
      if is_number v && is_table params
      then (elim (lua_to_object lua fuel params) [
        | done o ↦ some (some (send_command lib block (to_integer v) o))
        | lua_error ↦ none
        | no_fuel ↦ none
      ])
      else if is_table v
      then (elim (lua_to_object lua fuel v) [
        | done o ↦ some (some (send_object lib block o))
        | lua_error ↦ none
        | no_fuel ↦ none
      ])
      else (elim (to_text v) [ none ↦ some none | some s ↦ some (some (send_string lib block s)) ])

  -- The value that is pushed, with the clients.
  unfoldable pub standard_net_send_channel :
      ℕ → Lua → Lua → Lua → World hashes → Links → Option (Lua × Links)
  standard_net_send_channel fuel target v params w links =
      elim (list_of (channel_of args hashes target w) w) [
        | none ↦ none
        | some none ↦ some (t_nil, links)
        | some (some h) ↦ elim (sender_of fuel v params) [
          | none ↦ none
          | some none ↦ some (t_integer (pos 0), links)
          | some (some f) ↦ elim (broadcast f (members h) w 0 links) [
            | none ↦ none
            | some (n, links') ↦ some (t_integer (pos n), links')
          ]
        ]
      ]

  -- The names of the members, from the place `idx` on.
  unfoldable pub list_names : ℕ → List (Bytes × Ptr) → Table → Table
  list_names idx [] t = t
  list_names idx ((key, session) ∷ rest) t =
      list_names (suc idx) rest (lua.set t (t_integer (pos idx)) (t_string key))

  unfoldable pub standard_list_channel : Lua → World hashes → Option Lua
  standard_list_channel target w = elim (list_of (channel_of args hashes target w) w) [
    | none ↦ none
    | some none ↦ some t_nil
    | some (some h) ↦ some (t_table (list_names 1 (members h) new_table))
  ]
