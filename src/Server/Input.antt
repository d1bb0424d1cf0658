-- ===== src/Server/Input.antt =====
-- `_bspd_on_data` of server/main.c: the loop over the frames of a chunk. The number of bytes that
-- the packet code took is not used: the loop advances by `proced`.
pub mod Rounds
pub mod Endless
pub mod Request
pub mod Requests
pub mod Packets
use bspd.Common.{
  ℕ, zero, suc, ◌+◌, Bool, true, false, Option, none, some, List, [], ◌∷◌, ◌++◌, Bytes, length,
  drop,
}
use bspd.Protocol.Frame.{Bared, internal_bare_data, normal_bare_data, websocket_bare_data}
use bspd.Protocol.Http.{Run, ok, stuck, ◌>>=◌, http_bare_data}
use bspd.Server.Link.{ServerType, internal, normal, http, websocket, ServerProp, Link}
use bspd.Server.Packet.{Conn, Wire, proc_raw, proc_packet, push_task}
use bspd.Server.Session.{Session}
use bspd.Server.Task.{Task, Ptr, ctl, new_script_task}

-- The frame at the descriptor, or a new one from the memory pool's block.
unfoldable pub frame_at : Bared → Option Bared → Bared
frame_at block none = record block { data_of = none; proto = none; bared = false }
frame_at block (some b) = b

unfoldable pub clear_frame : Bared → Bared
clear_frame b = record b { data_of = none; proto = none; bared = false }

hook_of : Bool → Option Bytes → Option Bytes
hook_of true hook = hook
hook_of false hook = none

touch : ℕ → Option Session → Option Session
touch now none = none
touch now (some s) = some (record s { last_active = now })

unfoldable pub set_active : ℕ → Link → Link
unfolding touch
set_active now l = record l { conn = record l.conn { session = touch now l.conn.session } }

-- `blocks` is what the memory pool hands out for a task, by the tasks pushed so far; `block` what
-- it hands out for a frame.
module _ (wire : Wire) (str_toupper : Bytes → Bytes) (block : Bared)
    (blocks : List Task → Task) where
  unfoldable pub barer : ServerType → Bared → Bytes → Run Bared
  barer internal b s = ok (internal_bare_data b s)
  barer normal b s = ok (normal_bare_data b s)
  barer http b s = http_bare_data str_toupper b s
  barer websocket b s = ok (websocket_bare_data b s)

  unfoldable pub proc_by : Bool → Bytes → Bared → Conn → ℕ × Bared × Conn
  proc_by true hook b c = proc_packet wire (blocks c.tasks) hook b c
  proc_by false hook b c = proc_raw (blocks c.tasks) hook b c

  -- The loop over the bytes that are left. It ends with them, or with a segment that is not
  -- complete or has no hook.
  unfoldable pub data_loop : ℕ → ServerProp → Bytes → ℕ → Link → Run (ℕ × Link)
  unfolding hook_of
  data_loop zero prop s data_len l = stuck
  data_loop (suc fuel) prop [] data_len l = ok (data_len, l)
  data_loop (suc fuel) prop (c ∷ s) data_len l =
      barer prop.type_of (frame_at block l.frame) (c ∷ s) >>= λ b.
      elim (hook_of b.bared prop.lua_hook_data) [
        | none ↦ ok (data_len, record l { frame = some b })
        | some hook ↦
            let (n, b', conn) = proc_by prop.packets hook b l.conn in
            data_loop fuel prop (drop b'.proced (c ∷ s)) (data_len + b'.proced)
              (record l { conn = conn; frame = some (clear_frame b') })
      ]

  on_server : ℕ → Option ServerProp → Bytes → Link → Run (ℕ × Link)
  unfolding data_loop
  on_server fuel none s l = ok (length s, l)
  on_server fuel (some prop) s l = data_loop fuel prop s 0 l

  -- `now` is `time(NULL)`.
  unfoldable pub on_data : ℕ → ℕ → Bytes → Link → Run (ℕ × Link)
  unfolding on_server set_active
  on_data fuel now [] l = ok (0, l)
  on_data fuel now (c ∷ s) l = elim l.registered [
    | false ↦ ok (0, l)
    | true ↦ on_server fuel l.prop (c ∷ s) (set_active now l)
  ]
