-- ===== src/Server/Send/Deliver.antt =====
-- From the sender's call to the receiver's task.
use bspd.Common.{ℕ, ◌^◌, ◌<◌, ◌≡◌, ◌≢◌, [], none, some, ◌++◌, arith, Bytes, length}
use bspd.Json.Value.{Object}
use bspd.Json.Encode.{json_nd_encode}
use bspd.Protocol.Frame.{Bared}
use bspd.Server.Link.{Link}
use bspd.Server.Packet.{Conn, Wire, push_task, proc_data, proc_packet}
use bspd.Server.Send.{SendLib, be32, header, send_object, send_command}
use bspd.Server.Send.Echo.{
  Announces, header-Announces, packet, proc_input-packet, packet-taken, length-packet,
  be32-get_int32, task_for, IsPlainPeer, send_object-sent, send_command-sent,
}
use bspd.Server.Session.{Session}
use bspd.Server.Task.{Task, stream, object, command, no_data, text}

module _ (wire : Wire) (block : Task) (hook : Bytes) where
  pub receive_string :
      (hdr : ℕ) (s rest : Bytes) (b : Bared) (c : Conn)
      → Announces hdr 1
      → length s < 2 ^ 31
      → b.data_of ≡ some (packet hdr s ++ rest)
      → proc_packet wire block hook b c ≡ (
        length (packet hdr s),
        record b { proto = none },
        push_task c (record (task_for block hook b c) { type_of = stream; payload = text s }),
      )
  unfolding proc_packet proc_data
  receive_string hdr s rest b c h lt e = ground (
    arith,
    proc_input-packet wire block hook hdr s rest b c (omega arith) lt,
    packet-taken hdr s rest,
    length-packet hdr s,
  )

  receive_object :
      (hdr : ℕ) (s rest : Bytes) (b : Bared) (c : Conn)
      → Announces hdr 2
      → length s < 2 ^ 31
      → b.data_of ≡ some (packet hdr s ++ rest)
      → proc_packet wire block hook b c ≡ (
        length (packet hdr s),
        record b { proto = none },
        push_task c (record (task_for block hook b c) { type_of = object; payload = no_data }),
      )
  unfolding proc_packet proc_data
  receive_object hdr s rest b c h lt e = ground (
    arith,
    proc_input-packet wire block hook hdr s rest b c (omega arith) lt,
    length-packet hdr s,
  )

  receive_command :
      (hdr cmd : ℕ) (d rest : Bytes) (b : Bared) (c : Conn)
      → Announces hdr 3
      → cmd < 2 ^ 32
      → length (be32 cmd ++ d) < 2 ^ 31
      → b.data_of ≡ some (packet hdr (be32 cmd ++ d) ++ rest)
      → proc_packet wire block hook b c ≡ (
        length (packet hdr (be32 cmd ++ d)),
        record b { proto = none },
        push_task c
            (record (task_for block hook b c) { type_of = command; cmd = cmd; payload = no_data }),
      )
  unfolding proc_packet proc_data be32
  receive_command hdr cmd d rest b c h small lt e = ground (
    arith,
    proc_input-packet wire block hook hdr (be32 cmd ++ d) rest b c (omega arith) lt,
    be32-get_int32 wire cmd (d ++ rest) small,
    length-packet hdr (be32 cmd ++ d),
  )

module _ (lib : SendLib) (frame : Bared) (wire : Wire) (block : Task) (hook : Bytes) where
  -- The header of an object packet does not name the serialization: an object that a peer with the
  -- JSON serialization sends is taken for a native one, and its task has no object.
  pub send_object-proc_packet :
      (l : Link) (session : Session) (obj : Object) (rest : Bytes) (b : Bared) (c : Conn)
      → IsPlainPeer l session
      → session.serialize_type ≡ 1
      → let s = json_nd_encode lib.encoder obj none in
        let p = packet (header 2 session.compress_type) s in
        length s < 2 ^ 31
        → b.data_of ≡ some (p ++ rest)
        → ((send_object lib frame obj l).1.conn.sent ≡ l.conn.sent ++ p)
          × (proc_packet wire block hook b c ≡ (
            length p,
            record b { proto = none },
            push_task c (record (task_for block hook b c) { type_of = object; payload = no_data }),
          ))
  send_object-proc_packet l session obj rest b c peer json lt e = (
    send_object-sent lib frame l session obj peer json,
    receive_object wire block hook (header 2 session.compress_type)
        (json_nd_encode lib.encoder obj none) rest b c
        (header-Announces 2 session.compress_type (omega arith) (omega arith) peer.compress) lt e,
  )

  -- A command that is sent to a plain peer whose serialization is not JSON is written as one packet
  -- without its parameters, and the receiver, whatever bytes follow it, takes exactly that packet and
  -- pushes one task with that command.
  pub send_command-proc_packet :
      (l : Link) (session : Session) (cmd : ℕ) (params : Object) (rest : Bytes) (b : Bared)
      (c : Conn)
      → IsPlainPeer l session
      → session.serialize_type ≢ 1
      → cmd < 2 ^ 32
      → let p = packet (header 3 session.compress_type) (be32 cmd) in
        b.data_of ≡ some (p ++ rest)
        → ((send_command lib frame cmd params l).1.conn.sent ≡ l.conn.sent ++ p)
          × (proc_packet wire block hook b c ≡ (
            length p,
            record b { proto = none },
            push_task c (record (task_for block hook b c) {
              type_of = command;
              cmd = cmd;
              payload = no_data;
            }),
          ))
  unfolding be32
  send_command-proc_packet l session cmd params rest b c peer native small e = (
    send_command-sent lib frame l session cmd params peer native,
    receive_command wire block hook (header 3 session.compress_type) cmd [] rest b c
        (header-Announces 3 session.compress_type (omega arith) (omega arith) peer.compress) small
        (omega arith) e,
  )
