-- ===== src/Server/Send/Echo.antt =====
-- What `_proc_packet` makes of the packets that the senders write.
use bspd.Common.{
  ℕ, zero, suc, ◌+◌, ◌/◌, ◌%◌, ◌^◌, ◌≤◌, ◌<◌, ◌≡◌, ◌≢◌, ◌⊎◌, ◌∙◌, true, none, some, ◌∷◌, ◌++◌,
  arith, Bytes, length, length-append, take, drop, take-append_self,
}
use bspd.Json.Value.{Object}
use bspd.Protocol.Frame.{Bared}
use bspd.Json.Encode.{json_nd_encode}
use bspd.Server.Link.{internal, normal, ServerProp, Link}
use bspd.Server.Packet.{Conn, Wire, packet_type, serialize_of, proc_data, proc_input}
use bspd.Server.Send.{SendLib, be32, header, send_string, send_object, send_command}
use bspd.Server.Session.{Session}
use bspd.Server.Task.{Task}

-- The header that a sender writes: its packet type, and no serialization.
abbrev pub Announces : ℕ → ℕ → Type 0
Announces hdr p = (packet_type hdr ≡ p) × (serialize_of hdr ≡ 0) × (hdr < 256)

pub header-Announces : (p ct : ℕ) → 1 ≤ p → p < 4 → ct < 4 → Announces (header p ct) p
header-Announces zero ct a b c = absurd (omega arith)
header-Announces (suc zero) ct a b c = header_one ct c
  where
    header_one : (n : ℕ) → n < 4 → Announces (header 1 n) 1
    header_one zero h = omega arith
    header_one (suc zero) h = omega arith
    header_one (suc (suc zero)) h = omega arith
    header_one (suc (suc (suc zero))) h = omega arith
    header_one (suc (suc (suc (suc n)))) h = absurd (omega arith)
header-Announces (suc (suc zero)) ct a b c = header_two ct c
  where
    header_two : (n : ℕ) → n < 4 → Announces (header 2 n) 2
    header_two zero h = omega arith
    header_two (suc zero) h = omega arith
    header_two (suc (suc zero)) h = omega arith
    header_two (suc (suc (suc zero))) h = omega arith
    header_two (suc (suc (suc (suc n)))) h = absurd (omega arith)
header-Announces (suc (suc (suc zero))) ct a b c = header_three ct c
  where
    header_three : (n : ℕ) → n < 4 → Announces (header 3 n) 3
    header_three zero h = omega arith
    header_three (suc zero) h = omega arith
    header_three (suc (suc zero)) h = omega arith
    header_three (suc (suc (suc zero))) h = omega arith
    header_three (suc (suc (suc (suc n)))) h = absurd (omega arith)
header-Announces (suc (suc (suc (suc p)))) ct a b c = absurd (omega arith)

pub be32-get_int32 :
    (wire : Wire) (n : ℕ) (s : Bytes) → n < 2 ^ 32 → wire.get_int32 (be32 n ++ s) ≡ n
unfolding be32
be32-get_int32 wire n s h =
    wire.get_int32_be (n / 2 ^ 24 % 256) (n / 2 ^ 16 % 256) (n / 2 ^ 8 % 256) (n % 256) s
    ∙ omega arith

-- A packet of the length that its header announces, with whatever follows it.
abbrev pub packet : ℕ → Bytes → Bytes
packet hdr s = hdr ∷ (be32 (length s) ++ s)

pub length-packet : (hdr : ℕ) (s : Bytes) → length (packet hdr s) ≡ 5 + length s
unfolding be32
length-packet hdr s = omega arith

pub proc_input-packet :
    (wire : Wire) (block : Task) (hook : Bytes) (hdr : ℕ) (s rest : Bytes) (b : Bared) (c : Conn)
    → packet_type hdr ≢ 0
    → length s < 2 ^ 31
    → proc_input wire block hook (packet hdr s ++ rest) b c
      ≡ proc_data wire block hook hdr (length s) (packet hdr s ++ rest) b c
unfolding proc_input be32
proc_input-packet wire block hook hdr s rest b c h lt =
    ground (arith, be32-get_int32 wire (length s) (s ++ rest) (omega arith), length-append s rest)

pub packet-taken : (hdr : ℕ) (s rest : Bytes) → take (length s) (drop 5 (packet hdr s ++ rest)) ≡ s
unfolding be32
packet-taken hdr s rest = take-append_self s rest

-- The task that a packet ends in: its type, the client's descriptor, the hook and the request of
-- the frame; `ref` and `follow_up` are left as the memory pool's block had them.
abbrev pub task_for : Task → Bytes → Bared → Conn → Task
task_for block hook b c = record block { clt = c.fd; func = some hook; proto = b.proto }

-- A client of a server that sends packets with no protocol around them.
pub record IsPlainPeer (l : Link) (session : Session) : Type 0 where
  pub prop_of : ServerProp
  pub registered : l.registered ≡ true
  pub has_session : l.conn.session ≡ some session
  pub has_prop : l.prop ≡ some prop_of
  pub packets : prop_of.packets ≡ true
  pub plain : (prop_of.type_of ≡ normal) ⊎ (prop_of.type_of ≡ internal)
  pub compress : session.compress_type < 4

module _ (lib : SendLib) (frame : Bared) where
  pub send_string-sent :
      (l : Link) (session : Session) (s : Bytes)
      → IsPlainPeer l session
      → (send_string lib frame s l).1.conn.sent
        ≡ l.conn.sent ++ packet (header 1 session.compress_type) s
  unfolding send_string
  send_string-sent l session s p = ground arith

  pub send_object-sent :
      (l : Link) (session : Session) (obj : Object)
      → IsPlainPeer l session
      → session.serialize_type ≡ 1
      → (send_object lib frame obj l).1.conn.sent
        ≡ l.conn.sent
          ++ packet (header 2 session.compress_type) (json_nd_encode lib.encoder obj none)
  unfolding send_object
  send_object-sent l session obj p j = ground arith

  -- With no serialization that is implemented, only the command itself is sent.
  pub send_command-sent :
      (l : Link) (session : Session) (cmd : ℕ) (params : Object)
      → IsPlainPeer l session
      → session.serialize_type ≢ 1
      → (send_command lib frame cmd params l).1.conn.sent
        ≡ l.conn.sent ++ packet (header 3 session.compress_type) (be32 cmd)
  unfolding send_command
  send_command-sent l session cmd params p j = ground arith
