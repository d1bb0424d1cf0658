-- ===== src/Tests/Standard.antt =====
-- Runs of wrapper/standard.c.
use bspd.Common.{
  ℕ, ◌≡◌, refl, arith, Bool, true, false, Option, none, some, [], ◌∷◌, ◌==◌, if◌then◌else◌, Bytes,
  codes, pos, decimal,
}
use bspd.Script.Lua.{Lua, t_nil, t_integer, t_string, t_light_userdata}
use bspd.Server.Clients.{World, Channel, check_dynamic_channel}
use bspd.Server.Connect.{Client, State}
use bspd.Server.Session.{Session}
use bspd.Server.Sessions.{check_logged_session}
use bspd.Server.Task.{Ptr, null_ptr}
use bspd.Wrapper.Sessions.{ArgLib, channel_of, standard_net_close, standard_reg_session}
use bspd.Wrapper.Sessions.Register.{
  standard_net_close-session, standard_reg_session-check_logged_session,
}
use bspd.Tests.Clients.{pairs, lobby, member, world}
use bspd.Server.Link.{Link}
use bspd.Wrapper.Send.{is_table, Links}
use bspd.Wrapper.Channel.{member_client, standard_net_send_channel}
use bspd.Wrapper.Channel.Broadcast.{
  deliver, bound_end, bound_none, bound_to, standard_net_send_channel-deliver,
}
use bspd.Server.Send.{send_string}
use bspd.Tests.Lua.{lua}
use bspd.Tests.Packets.{packet_server, peer, lib}
use bspd.Tests.Http.{no_frame}

abbrev number_in : Lua → Bool
number_in (t_integer (pos n)) = true
number_in _ = false

abbrev integer_in : Lua → ℕ
integer_in (t_integer (pos n)) = n
integer_in _ = 0

abbrev text_in : Lua → Option Bytes
text_in (t_integer (pos n)) = some (decimal n)
text_in (t_string s) = some s
text_in _ = none

-- The client at 8 has the descriptor 5, that at 24 the descriptor 7.
abbrev at_fd : ℕ → Ptr
at_fd fd = if fd == 5 then 8 else if fd == 7 then 24 else null_ptr

abbrev arguments : ArgLib
arguments = record {
  is_number = number_in;
  to_integer = integer_in;
  to_text = text_in;
  check_client = at_fd;
}

abbrev seven : Session
seven = record member { session_id = codes "7"; joined_list = [] }

abbrev nameless : Session
nameless = record seven { session_id = []; bind = 24 }

abbrev filled : Channel pairs
filled = record lobby { list = some ((codes "7", 64) ∷ []) }

abbrev shared : World pairs
shared = record world {
  channels = λ p. if p == 16 then some filled else none;
  sessions = λ p. if p == 64 then some seven else if p == 80 then some nameless else none;
}

abbrev first : Client
first = record { fd = 5; additional = 64; prop = some packet_server }

abbrev second : Client
second = record { fd = 7; additional = 80; prop = some packet_server }

abbrev state : State pairs
state = record {
  world = shared;
  clients = λ p. if p == 8 then some first else if p == 24 then some second else none;
  tasks = [];
}

-- The client at the descriptor 5 is closed, not the one at 7.
standard_net_close-session_example :
    standard_net_close arguments pairs (t_integer (pos 7)) shared ≡ some 8
unfolding decimal check_logged_session
standard_net_close-session_example =
    standard_net_close-session arguments pairs (t_integer (pos 7)) (codes "7") 64 seven shared refl
      refl refl (omega arith) refl

standard_reg_session-check_logged_session_example :
    (st : State pairs) × (standard_reg_session arguments pairs 96 1000
        (t_integer (pos 7))
        (t_string (codes "x"))
        state
      ≡ some (some (t_light_userdata 80), st))
    × (check_logged_session pairs (codes "x") st.world ≡ some (some 80))
unfolding check_logged_session
standard_reg_session-check_logged_session_example =
    standard_reg_session-check_logged_session arguments pairs 96 1000 (t_integer (pos 7))
      (t_string (codes "x")) (codes "x") 24 second nameless filled state refl refl refl
      (omega arith) refl refl (omega arith) refl (λ e. cc) (omega arith) (omega arith) refl

-- The session "7" has the client at 8, the peer of the runs of the senders.
abbrev links : Links
links p = if p == 8 then some peer else none

abbrev ann : Session
ann = record seven { session_id = codes "ann" }

abbrev named : World pairs
named = record shared {
  channels =
      λ p. if p == 16 then some (record lobby { list = some ((codes "ann", 64) ∷ []) }) else none;
  sessions = λ p. if p == 64 then some ann else none;
}

-- The channel with the number 0 has the session "7" and one with no client.
abbrev hall : Channel pairs
hall = record lobby { list = some ((codes "7", 64) ∷ (codes "x", 80) ∷ []) }

abbrev crowd : World pairs
crowd = record shared {
  dynamic_list = λ n. if n == 0 then 32 else null_ptr;
  channels = λ p. if p == 32 then some hall else none;
  sessions = λ p.
      if p == 64
      then some seven
      else if p == 80
      then some (record nameless { bind = null_ptr })
      else none;
}

standard_net_send_channel-deliver_example :
    standard_net_send_channel arguments lua pairs lib no_frame 1
      (t_integer (pos 0))
      (t_string (codes "hello"))
      t_nil
      crowd
      links
    ≡ some (t_integer (pos 1), deliver (send_string lib no_frame (codes "hello")) (8 ∷ []) links)
unfolding channel_of check_dynamic_channel is_table member_client
standard_net_send_channel-deliver_example =
    standard_net_send_channel-deliver arguments lua pairs lib no_frame 1 (t_integer (pos 0))
      (t_string (codes "hello")) t_nil (codes "hello") 32 hall
      ((codes "7", 64) ∷ (codes "x", 80) ∷ []) (8 ∷ []) crowd links refl (omega arith) refl refl
      refl refl refl (bound_to refl (omega arith) (bound_none refl bound_end)) ((peer, refl), tt)
