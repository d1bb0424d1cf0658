-- ===== src/Server/Packet.antt =====
-- `_proc_raw` and `_proc_packet` of server/main.c: what becomes of a segment that a protocol has
-- unpacked. The tasks that were handed to `push_script_task` are kept in a list, oldest first, and
-- the bytes that were written to the socket in another.
pub mod Bounds
use bspd.Common.{
  ℕ, ◌+◌, ◌-◌, ◌*◌, ◌/◌, ◌%◌, ◌^◌, ◌≡◌, Option, none, some, List, [], ◌∷◌, ◌++◌, ltb, ◌==◌,
  if◌then◌else◌, Bytes, length, take, drop, byte_at,
}
use bspd.Json.Value.{Object}
use bspd.Json.Decode.{NumLib, done, stuck, json_nd_decode}
use bspd.Protocol.Frame.{Bared}
use bspd.Server.Session.{Session}
use bspd.Server.Task.{
  Task, raw, stream, object, command, Payload, no_data, text, structured, new_script_task,
}

pub record Conn : Type 0 where
  pub fd : ℕ
  pub session : Option Session
  pub sent : Bytes
  pub tasks : List Task

-- What the packet code takes from libbsp and the C library: `bsp_get_value` of an INT32 in
-- BIG_ENDIAN order, as a 32-bit pattern, and the number functions of the decoder.
pub record Wire : Type 0 where
  pub get_int32 : Bytes → ℕ
  pub get_int32_be :
      (a b c d : ℕ) (s : Bytes)
      → get_int32 (a ∷ b ∷ c ∷ d ∷ s) ≡ (a * 2 ^ 24 + b * 2 ^ 16 + c * 2 ^ 8 + d) % 2 ^ 32
  pub num : NumLib

-- An `int` as a `size_t`: a negative one is sign-extended to 64 bits.
abbrev pub size_of_int : ℕ → ℕ
size_of_int n = if ltb n (2 ^ 31) then n else n + (2 ^ 64 - 2 ^ 32)

abbrev pub packet_type : ℕ → ℕ
packet_type hdr = hdr / 64 % 4

abbrev pub serialize_of : ℕ → ℕ
serialize_of hdr = hdr / 8 % 8

abbrev pub push_task : Conn → Task → Conn
push_task c t = record c { tasks = c.tasks ++ t ∷ [] }

payload_of : Option Bytes → Payload
payload_of none = no_data
payload_of (some s) = text s

size_of : Option Bytes → ℕ
size_of none = 0
size_of (some s) = length s

-- The task takes the request out of the frame.
unfoldable pub give_task : Task → Bared → Conn → Bared × Conn
give_task t b c = (record b { proto = none }, push_task c (record t { proto = b.proto }))

-- `block` is what the memory pool hands out for the task.
unfoldable pub proc_raw : Task → Bytes → Bared → Conn → ℕ × Bared × Conn
unfolding give_task new_script_task payload_of size_of
proc_raw block hook b c =
    let t = new_script_task block raw in
    let (b', c') =
      give_task (record t { clt = c.fd; func = some hook; payload = payload_of b.data_of }) b c in
    (size_of b.data_of, b', c')

set_serialize : ℕ → Option Session → Option Session
set_serialize n none = none
set_serialize n (some s) = some (record s { serialize_type = n })

set_compress : ℕ → Option Session → Option Session
set_compress n none = none
set_compress n (some s) = some (record s { compress_type = n })

-- The control packets: HEARTBEAT is sent back, SERIALIZE and COMPRESS set the session.
unfoldable pub proc_control : ℕ → Conn → Conn
unfolding set_serialize set_compress
proc_control hdr c =
    let ctl = hdr / 8 % 8 in
    if ctl == 2
    then record c { sent = c.sent ++ hdr ∷ [] }
    else if ctl == 4
    then record c { session = set_serialize (hdr % 8) c.session }
    else if ctl == 5
    then record c { session = set_compress (hdr % 8) c.session }
    else c

as_payload : Option Object → Payload
as_payload none = no_data
as_payload (some o) = structured o

module _ (wire : Wire) where
  open wire use {get_int32, num}

  decode : Bytes → Option Object
  decode s = elim (json_nd_decode num s) [ done o ↦ o | stuck ↦ none ]

  -- Of the serializations only JSON is implemented.
  unfoldable pub object_payload : ℕ → Bytes → Payload
  unfolding as_payload decode
  object_payload s_type s = if s_type == 1 then as_payload (decode s) else no_data

  -- The data packets, once the packet of `plen` bytes is complete.
  unfoldable pub proc_data : Task → Bytes → ℕ → ℕ → Bytes → Bared → Conn → ℕ × Bared × Conn
  unfolding give_task object_payload new_script_task
  proc_data block hook hdr plen input b c =
      let s_type = serialize_of hdr in
      let t = record block { clt = c.fd; func = some hook } in
      let str =
        give_task (record (new_script_task t stream) { payload = text (take plen (drop 5 input)) })
          b c in
      let obj =
        give_task
          (record (new_script_task t object) {
            payload = object_payload s_type (take plen (drop 5 input));
          })
          b c in
      let cmd =
        give_task
          (record (new_script_task t command) {
            cmd = get_int32 (drop 5 input);
            payload = object_payload s_type (take (plen - 4) (drop 9 input));
          })
          b c in
      if packet_type hdr == 1
      then (5 + plen, str.0, str.1)
      else if packet_type hdr == 2
      then (5 + plen, obj.0, obj.1)
      else if ltb plen 4
      then (length input, b, c)
      else (5 + plen, cmd.0, cmd.1)

  unfoldable pub proc_input : Task → Bytes → Bytes → Bared → Conn → ℕ × Bared × Conn
  unfolding byte_at
  proc_input block hook input b c =
      let hdr = byte_at input 0 in
      let plen = get_int32 (drop 1 input) in
      if ltb (length input) 1
      then (0, b, c)
      else if packet_type hdr == 0
      then (1, b, proc_control hdr c)
      else if ltb (length input - 1) 4
      then (0, b, c)
      else if ltb (length input - 5) (size_of_int plen)
      then (0, b, c)
      else proc_data block hook hdr plen input b c

  -- The number of bytes taken, the frame and the connection.
  unfoldable pub proc_packet : Task → Bytes → Bared → Conn → ℕ × Bared × Conn
  proc_packet block hook b c = elim b.data_of [
    | none ↦ (0, b, c)
    | some input ↦ proc_input block hook input b c
  ]
