-- ===== src/Server/Input/Rounds.antt =====
-- One round of the loop of `_bspd_on_data`, and the rounds of each protocol.
use bspd.Common.{
  ℕ, suc, ◌+◌, ◌<◌, ◌≡◌, ◌≢◌, refl, ap, ◌∙◌, Bool, true, false, Option, none, some, List, [], ◌∷◌,
  arith, Bytes, length, drop, drop_all, byte_at,
}
use bspd.Protocol.Frame.{Bared, normal_bare_data}
use bspd.Protocol.Http.{ok}
use bspd.Server.Input.{frame_at, clear_frame, set_active, barer, proc_by, data_loop, on_data}
use bspd.Server.Link.{normal, ServerProp, Link}
use bspd.Server.Packet.{Conn, Wire, proc_raw, proc_packet, proc_input, proc_data}
use bspd.Server.Task.{Task}

module _ (wire : Wire) where
  proc_data-proced :
      (block : Task) (hook : Bytes) (hdr plen : ℕ) (s : Bytes) (b : Bared) (c : Conn)
      → (proc_data wire block hook hdr plen s b c).1.proced ≡ b.proced
  unfolding proc_data
  proc_data-proced block hook hdr plen s b c = ground arith

  proc_input-proced :
      (block : Task) (hook : Bytes) (s : Bytes) (b : Bared) (c : Conn)
      → (proc_input wire block hook s b c).1.proced ≡ b.proced
  unfolding proc_input
  proc_input-proced block hook s b c =
      ground (arith, proc_data-proced block hook (byte_at s 0) (wire.get_int32 (drop 1 s)) s b c)

  proc_packet-proced :
      (block : Task) (hook : Bytes) (b : Bared) (c : Conn)
      → (proc_packet wire block hook b c).1.proced ≡ b.proced
  unfolding proc_packet
  proc_packet-proced block hook b c = by_data b.data_of
    where
      by_data :
          (d : Option Bytes)
          → (elim d as (λ x. ℕ × Bared × Conn) [
            | none ↦ (0, b, c)
            | some s ↦ proc_input wire block hook s b c
          ]).1.proced
            ≡ b.proced
      by_data none = refl
      by_data (some s) = proc_input-proced block hook s b c

  module _ (up : Bytes → Bytes) (block : Bared) (blocks : List Task → Task) where
    pub proc_by-proced :
        (packets : Bool) (hook : Bytes) (b : Bared) (c : Conn)
        → (proc_by wire up block blocks packets hook b c).1.proced ≡ b.proced
    unfolding proc_by proc_raw
    proc_by-proced true hook b c = proc_packet-proced (blocks c.tasks) hook b c
    proc_by-proced false hook b c = refl

    pub data_loop-round :
        (fuel : ℕ) (prop : ServerProp) (c : ℕ) (s : Bytes) (n : ℕ) (l : Link) (hook : Bytes)
        (b : Bared)
        → barer wire up block blocks prop.type_of (frame_at block l.frame) (c ∷ s) ≡ ok b
        → b.bared ≡ true
        → prop.lua_hook_data ≡ some hook
        → let r = proc_by wire up block blocks prop.packets hook b l.conn in
          data_loop wire up block blocks (suc fuel) prop (c ∷ s) n l
          ≡ data_loop wire up block blocks fuel prop
              (drop b.proced (c ∷ s))
              (n + b.proced)
              (record l { conn = r.2; frame = some (clear_frame r.1) })
    unfolding data_loop
    data_loop-round fuel prop c s n l hook b e t h =
        ground (arith, proc_by-proced prop.packets hook b l.conn)

    pub on_data-loop :
        (fuel now : ℕ) (prop : ServerProp) (c : ℕ) (s : Bytes) (l : Link)
        → l.registered ≡ true
        → l.prop ≡ some prop
        → on_data wire up block blocks fuel now (c ∷ s) l
          ≡ data_loop wire up block blocks fuel prop (c ∷ s) 0 (set_active now l)
    unfolding on_data
    on_data-loop fuel now prop c s l reg p = ground arith

    pub data_loop-end :
        (fuel : ℕ) (prop : ServerProp) (n : ℕ) (l : Link)
        → data_loop wire up block blocks (suc fuel) prop [] n l ≡ ok (n, l)
    unfolding data_loop
    data_loop-end fuel prop n l = refl

    -- The round that takes the rest of the chunk is the last.
    pub data_loop-last :
        (fuel : ℕ) (prop : ServerProp) (c : ℕ) (s : Bytes) (n : ℕ) (l : Link) (hook : Bytes)
        (b : Bared)
        → barer wire up block blocks prop.type_of (frame_at block l.frame) (c ∷ s) ≡ ok b
        → b.bared ≡ true
        → prop.lua_hook_data ≡ some hook
        → length s < b.proced
        → let r = proc_by wire up block blocks prop.packets hook b l.conn in
          data_loop wire up block blocks (suc (suc fuel)) prop (c ∷ s) n l
          ≡ ok (n + b.proced, record l { conn = r.2; frame = some (clear_frame r.1) })
    unfolding data_loop
    data_loop-last fuel prop c s n l hook b e t h le =
        data_loop-round (suc fuel) prop c s n l hook b e t h
        ∙ rw (drop_all b.proced (c ∷ s) (omega arith)) refl

    pub on_data-loop_ne :
        (fuel now : ℕ) (prop : ServerProp) (s : Bytes) (l : Link)
        → s ≢ []
        → l.registered ≡ true
        → l.prop ≡ some prop
        → on_data wire up block blocks fuel now s l
          ≡ data_loop wire up block blocks fuel prop s 0 (set_active now l)
    on_data-loop_ne fuel now prop [] l ne reg p = absurd (ne refl)
    on_data-loop_ne fuel now prop (c ∷ s) l ne reg p = on_data-loop fuel now prop c s l reg p

    -- The same for a chunk that is known only not to be empty.
    pub data_loop-segment :
        (fuel : ℕ) (prop : ServerProp) (s : Bytes) (n : ℕ) (l : Link) (hook : Bytes) (b : Bared)
        → s ≢ []
        → barer wire up block blocks prop.type_of (frame_at block l.frame) s ≡ ok b
        → b.bared ≡ true
        → prop.lua_hook_data ≡ some hook
        → let r = proc_by wire up block blocks prop.packets hook b l.conn in
          data_loop wire up block blocks (suc fuel) prop s n l
          ≡ data_loop wire up block blocks fuel prop
              (drop b.proced s)
              (n + b.proced)
              (record l { conn = r.2; frame = some (clear_frame r.1) })
    data_loop-segment fuel prop [] n l hook b ne e t h = absurd (ne refl)
    data_loop-segment fuel prop (c ∷ s) n l hook b ne e t h =
        data_loop-round fuel prop c s n l hook b e t h

    -- On a server of the normal type one round takes the whole chunk, whatever the packet code made of
    -- it: the call returns the length of the chunk, and leaves an empty frame.
    pub on_data_normal :
        (fuel now : ℕ) (prop : ServerProp) (c : ℕ) (s : Bytes) (l : Link) (hook : Bytes)
        → l.registered ≡ true
        → l.prop ≡ some prop
        → prop.type_of ≡ normal
        → prop.lua_hook_data ≡ some hook
        → let l' = set_active now l in
          let b = normal_bare_data (frame_at block l.frame) (c ∷ s) in
          let r = proc_by wire up block blocks prop.packets hook b l'.conn in
          on_data wire up block blocks (suc (suc fuel)) now (c ∷ s) l
          ≡ ok (suc (length s), record l' { conn = r.2; frame = some (clear_frame r.1) })
    unfolding barer normal_bare_data set_active
    on_data_normal fuel now prop c s l hook reg p t h =
        let l' = set_active now l in
        let r =
          proc_by wire up block blocks prop.packets hook
            (normal_bare_data (frame_at block l.frame) (c ∷ s)) l'.conn in
        on_data-loop (suc (suc fuel)) now prop c s l reg p
        ∙ data_loop-last fuel prop c s 0 (set_active now l) hook
            (normal_bare_data (frame_at block l.frame) (c ∷ s))
            (ap (λ y. barer wire up block blocks y (frame_at block l.frame) (c ∷ s)) t) refl h
            (omega arith)
        ∙ ap (λ m. ok (m, record l' { conn = r.2; frame = some (clear_frame r.1) })) (omega arith)
