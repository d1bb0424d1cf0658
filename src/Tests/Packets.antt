-- ===== src/Tests/Packets.antt =====
-- Runs of the packet code and of the data path of server/main.c.
use bspd.Common.{
  ℕ, zero, suc, ◌+◌, ◌*◌, ◌^◌, ◌%◌, ◌≡◌, inl, refl, true, false, none, some, Option, List, [], ◌∷◌,
  ◌++◌, arith, Bytes, codes, length,
}
use bspd.Json.Value.{Object, array, nil}
use bspd.Protocol.Frame.{Bared}
use bspd.Protocol.Http.{ok, stuck, find_header_end}
use bspd.Protocol.Http.RequestLine.{get, v11}
use bspd.Server.Input.{set_active, frame_at, on_data}
use bspd.Server.Input.Endless.{on_data_endless}
use bspd.Server.Input.Packets.{on_data_half}
use bspd.Server.Input.Request.{Request, IsRequest, print_requests}
use bspd.Server.Input.Requests.{push_requests, on_data-requests}
use bspd.Server.Link.{normal, http, ServerProp, Link}
use bspd.Server.Packet.{Conn, Wire, push_task, proc_packet}
use bspd.Server.Send.{SendLib, be32, send_command}
use bspd.Server.Send.Echo.{packet, task_for, IsPlainPeer}
use bspd.Server.Send.Deliver.{send_command-proc_packet}
use bspd.Server.Session.{Session}
use bspd.Server.Task.{Task, command, no_data}
use bspd.Tests.Http.{upper, host, host-IsHeader, uri, uri-IsUri, no_frame}
use bspd.Tests.Json.{ascii}
use bspd.Tests.Numbers.{integers}
use bspd.Tests.Queue.{blank}

abbrev big_endian : Bytes → ℕ
big_endian (a ∷ b ∷ c ∷ d ∷ s) = (a * 2 ^ 24 + b * 2 ^ 16 + c * 2 ^ 8 + d) % 2 ^ 32
big_endian _ = 0

abbrev pub wire : Wire
wire = record { get_int32 = big_endian; get_int32_be = λ a b c d s. refl; num = integers }

abbrev zeros : ℕ → Bytes
zeros zero = []
zeros (suc n) = 0 ∷ zeros n

abbrev pub lib : SendLib
lib = record { socket_append = length; null_string = zeros; encoder = ascii }

abbrev pub hook : Bytes
hook = codes "on_data"

abbrev pub peer_session : Session
peer_session = record {
  session_id = codes "id";
  session_id_int = 0;
  connect_time = 1;
  login_time = 0;
  last_active = 1;
  serialize_type = 1;
  compress_type = 2;
  bind = 8;
  logged = false;
  reported = false;
  joined_list = [];
  joined_list_size = 0;
}

abbrev pub conn : Conn
conn = record { fd = 5; session = some peer_session; sent = []; tasks = [] }

abbrev pub packet_server : ServerProp
packet_server = record {
  type_of = normal;
  packets = true;
  lua_hook_connect = none;
  lua_hook_disconnect = none;
  lua_hook_data = some hook;
}

abbrev http_server : ServerProp
http_server = record packet_server { type_of = http; packets = false }

abbrev link_to : ServerProp → Link
link_to prop = record { conn = conn; registered = true; prop = some prop; frame = none }

abbrev pub peer : Link
peer = link_to packet_server

pub peer-IsPlainPeer : IsPlainPeer peer peer_session
peer-IsPlainPeer = record {
  prop_of = packet_server;
  registered = refl;
  has_session = refl;
  has_prop = refl;
  packets = refl;
  plain = inl refl;
  compress = omega arith;
}

abbrev blocks : List Task → Task
blocks ts = record blank { ref = length ts }

-- The header byte 0x44: a string packet with compression 2.
abbrev pub hello : Bytes
hello = packet 0x44 (codes "hello")

abbrev pub frame_with : Bytes → Bared
frame_with s = record no_frame { data_of = some s }

abbrev numbers : Object
numbers = array nil

abbrev object_packet : Bytes
object_packet = packet 0x84 (codes "[]")

on_data_half_example :
    (f : Option Bared) × (on_data wire upper no_frame blocks 2 1
        (0x44 ∷ (be32 5 ++ codes "hel"))
        peer
      ≡ ok (length (0x44 ∷ (be32 5 ++ codes "hel")), record (set_active 1 peer) { frame = f }))
on_data_half_example =
    on_data_half wire upper no_frame blocks 0 1 packet_server 0x44 5 (codes "hel") peer hook
      (omega arith) (omega arith) (omega arith) refl refl refl refl refl

on_data_endless_example :
    on_data wire upper no_frame blocks 1000 1 (codes "GET /x") (link_to http_server) ≡ stuck
unfolding frame_at find_header_end
on_data_endless_example =
    on_data_endless wire upper no_frame blocks 1000 1 http_server b'G' (codes "ET /x")
      (link_to http_server) hook refl refl refl refl refl refl

abbrev request : Request
request = record { method = get; uri = uri; version = v11; headers = host ∷ [] }

request-IsRequest : IsRequest request
request-IsRequest = record {
  not_options = λ e. cc;
  uri_is = uri-IsUri;
  headers_are = (host-IsHeader, tt);
}

on_data-requests_example :
    (f : Option Bared) × (on_data wire upper no_frame blocks 3 1
        (print_requests (request ∷ request ∷ []))
        (link_to http_server)
      ≡ ok (
        length (print_requests (request ∷ request ∷ [])),
        record (set_active 1 (link_to http_server)) {
          conn =
              push_requests wire upper no_frame blocks hook
                (set_active 1 (link_to http_server)).conn
                (request ∷ request ∷ []);
          frame = f;
        },
      ))
unfolding frame_at
on_data-requests_example =
    on_data-requests wire upper no_frame blocks request (request ∷ []) 3 1 http_server
      (link_to http_server) hook (request-IsRequest, (request-IsRequest, tt)) (omega arith) refl
      refl refl refl refl refl refl

abbrev native_session : Session
native_session = record peer_session { serialize_type = 0 }

abbrev native_peer : Link
native_peer = record peer { conn = record conn { session = some native_session } }

native_peer-IsPlainPeer : IsPlainPeer native_peer native_session
native_peer-IsPlainPeer = record {
  prop_of = packet_server;
  registered = refl;
  has_session = refl;
  has_prop = refl;
  packets = refl;
  plain = inl refl;
  compress = omega arith;
}

-- Compression 2 again: the header byte 0xc4.
abbrev command_packet : Bytes
command_packet = packet 0xc4 (be32 258)

send_command-proc_packet_example :
    ((send_command lib no_frame 258 numbers native_peer).1.conn.sent ≡ [] ++ command_packet)
    × (proc_packet wire blank hook (frame_with (command_packet ++ codes "x")) conn ≡ (
      length command_packet,
      record (frame_with (command_packet ++ codes "x")) { proto = none },
      push_task conn (record (task_for blank hook (frame_with (command_packet ++ codes "x")) conn) {
        type_of = command;
        cmd = 258;
        payload = no_data;
      }),
    ))
send_command-proc_packet_example =
    send_command-proc_packet lib no_frame wire blank hook native_peer native_session 258 numbers
      (codes "x") (frame_with (command_packet ++ codes "x")) conn native_peer-IsPlainPeer
      (omega arith) (omega arith) refl
