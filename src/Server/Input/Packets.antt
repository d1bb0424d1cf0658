-- ===== src/Server/Input/Packets.antt =====
-- What `_bspd_on_data` of server/main.c makes of a chunk of packets.
use bspd.Common.{
  ℕ, suc, ◌^◌, ◌<◌, ◌≡◌, ◌≢◌, refl, ◌∙◌, true, Option, some, List, ◌∷◌, ◌++◌, arith, Bytes, length,
}
use bspd.Protocol.Frame.{Bared, normal_bare_data}
use bspd.Protocol.Http.{ok}
use bspd.Server.Input.{frame_at, clear_frame, set_active, proc_by, on_data}
use bspd.Server.Input.Rounds.{on_data_normal}
use bspd.Server.Link.{normal, ServerProp, Link}
use bspd.Server.Packet.{Conn, Wire, proc_packet, proc_input, packet_type}
use bspd.Server.Send.{be32}
use bspd.Server.Send.Echo.{be32-get_int32}
use bspd.Server.Task.{Task}

module _ (wire : Wire) (up : Bytes → Bytes) (block : Bared) (blocks : List Task → Task) where
  proc_packet_half :
      (task : Task) (hook : Bytes) (hdr n : ℕ) (s : Bytes) (b : Bared) (c : Conn)
      → packet_type hdr ≢ 0
      → length s < n
      → n < 2 ^ 31
      → b.data_of ≡ some (hdr ∷ (be32 n ++ s))
      → proc_packet wire task hook b c ≡ (0, b, c)
  unfolding proc_packet proc_input be32
  proc_packet_half task hook hdr n s b c pt lt small e =
      ground (arith, be32-get_int32 wire n s (omega arith))

  -- A packet that is split over two chunks is lost: on a server of the normal type with packets and a
  -- data hook, a chunk that holds less than its packet announces is taken whole, and pushes nothing;
  -- if that is no control packet and announces less than 2 ^ 31 bytes, the client is registered, and
  -- two rounds are allowed.
  pub on_data_half :
      (fuel now : ℕ) (prop : ServerProp) (hdr n : ℕ) (s : Bytes) (l : Link) (hook : Bytes)
      → packet_type hdr ≢ 0
      → length s < n
      → n < 2 ^ 31
      → l.registered ≡ true
      → l.prop ≡ some prop
      → prop.type_of ≡ normal
      → prop.packets ≡ true
      → prop.lua_hook_data ≡ some hook
      → (f : Option Bared) × (on_data wire up block blocks
            (suc (suc fuel))
            now
            (hdr ∷ (be32 n ++ s))
            l
          ≡ ok (length (hdr ∷ (be32 n ++ s)), record (set_active now l) { frame = f }))
  unfolding proc_by normal_bare_data
  on_data_half fuel now prop hdr n s l hook pt lt small reg p t pk h =
      let b = normal_bare_data (frame_at block l.frame) (hdr ∷ (be32 n ++ s)) in
      let c = (set_active now l).conn in
      (
        some (clear_frame b),
        on_data_normal wire up block blocks fuel now prop hdr (be32 n ++ s) l hook reg p t h
            ∙ rw (pk, proc_packet_half (blocks c.tasks) hook hdr n s b c pt lt small refl) refl,
      )
