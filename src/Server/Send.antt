-- ===== src/Server/Send.antt =====
-- `send_string`, `send_object`, `send_command` and `_real_send` of server/main.c.
pub mod Echo
pub mod Deliver
use Prim.Native.Nat.{bit_or}
use bspd.Common.{
  ℕ, ◌+◌, ◌*◌, ◌/◌, ◌%◌, ◌^◌, Bool, true, false, Option, none, some, [], ◌∷◌, ◌++◌, ◌==◌,
  if◌then◌else◌, Bytes, length,
}
use bspd.Json.Value.{Object}
use bspd.Json.Encode.{TextLib, json_nd_encode}
use bspd.Protocol.Frame.{Bared, websocket_pack_data}
use bspd.Protocol.Http.{http_pack_data}
use bspd.Server.Link.{ServerType, internal, normal, http, websocket, ServerProp, Link}
use bspd.Server.Session.{Session}

-- The four bytes of an `int`, highest first.
unfoldable pub be32 : ℕ → Bytes
be32 n = n / 2 ^ 24 % 256 ∷ n / 2 ^ 16 % 256 ∷ n / 2 ^ 8 % 256 ∷ n % 256 ∷ []

packer : ServerType → Option (Bared → Bytes → Bared)
packer internal = none
packer normal = none
packer http = some http_pack_data
packer websocket = some websocket_pack_data

-- What the senders take from libbsp: the result of `bsp_socket_append`, what a string made by
-- `bsp_new_string(NULL, n)` holds, and what the encoder calls.
pub record SendLib : Type 0 where
  pub socket_append : Bytes → ℕ
  pub null_string : ℕ → Bytes
  pub encoder : TextLib

-- The header, an `unsigned char`, of the packet type and the compression.
abbrev pub header : ℕ → ℕ → ℕ
header p_type compress = bit_or (p_type * 64) (compress * 2) % 256

write : Link → Bytes → Link
write l s = record l { conn = record l.conn { sent = l.conn.sent ++ s } }

-- A frame from the memory pool holds whatever the block held.
frame_or : Option Bared → Bared → Bared
frame_or none block = block
frame_or (some b) block = b

module _ (lib : SendLib) (block : Bared) where
  open lib use {socket_append, null_string, encoder}

  -- What the packer put into the frame is written, and taken out.
  write_packed : Link → Bared → Option Bytes → ℕ × Link
  write_packed l b none = (0, record l { frame = some b })
  write_packed l b (some s) =
      (socket_append s, write (record l { frame = some (record b { data_of = none }) }) s)

  pack : (Bared → Bytes → Bared) → Link → Bytes → ℕ × Link
  unfolding write_packed frame_or
  pack f l s = let b = f (frame_or l.frame block) s in write_packed l b b.data_of

  send_by : Option (Bared → Bytes → Bared) → Bool → ℕ → Bytes → Link → ℕ × Link
  unfolding write pack
  send_by none true hdr s l = (
    socket_append (hdr ∷ []) + socket_append (be32 (length s)) + socket_append s,
    write l (hdr ∷ (be32 (length s) ++ s)),
  )
  send_by (some f) true hdr s l = pack f l (null_string 1 ++ (hdr ∷ (be32 (length s) ++ s)))
  send_by none false hdr s l = (socket_append s, write l s)
  send_by (some f) false hdr s l = pack f l s

  real_send_to : Option ServerProp → Bool → Option Session → ℕ → Bytes → Link → ℕ × Link
  unfolding packer send_by
  real_send_to (some prop) true (some session) hdr s l =
      send_by (packer prop.type_of) prop.packets hdr s l
  real_send_to _ _ _ hdr s l = (0, l)

  -- `_real_send`; `none` is the NULL string.
  unfoldable pub real_send : ℕ → Option Bytes → Link → ℕ × Link
  unfolding real_send_to be32
  real_send hdr none l = (0, l)
  real_send hdr (some s) l = real_send_to l.prop l.registered l.conn.session hdr s l

  -- The session and the server of a client, where both are there.
  ready : Link → Option (Session × ServerProp)
  ready l = elim l.conn.session [
    | none ↦ none
    | some session ↦ elim l.prop [ none ↦ none | some prop ↦ some (session, prop) ]
  ]

  unfoldable pub send_string : Bytes → Link → ℕ × Link
  unfolding ready real_send
  send_string s l = elim (ready l) [
    | none ↦ (0, l)
    | some (session, prop) ↦
        real_send (if prop.packets then header 1 session.compress_type else 0) (some s) l
  ]

  -- Of the serializations only JSON is implemented.
  serialize : ℕ → Object → Option Bytes → Option Bytes
  serialize s_type obj s = if s_type == 1 then some (json_nd_encode encoder obj s) else s

  unfoldable pub send_object : Object → Link → ℕ × Link
  unfolding ready real_send serialize
  send_object obj l = elim (ready l) [
    | none ↦ (0, l)
    | some (session, prop) ↦
        if prop.packets
        then real_send (header 2 session.compress_type) (serialize session.serialize_type obj none)
            l
        else (0, l)
  ]

  -- `command` is the pattern of an `int`.
  unfoldable pub send_command : ℕ → Object → Link → ℕ × Link
  unfolding ready real_send serialize
  send_command command params l = elim (ready l) [
    | none ↦ (0, l)
    | some (session, prop) ↦
        if prop.packets
        then real_send (header 3 session.compress_type)
            (serialize session.serialize_type params (some (be32 command))) l
        else (0, l)
  ]
