-- ===== src/Protocol/Frame.antt =====
-- protocol/normal.c, protocol/internal.c, protocol/websocket.c and the frame that every protocol
-- fills (`BSPD_BARED` of server/server.h).
use bspd.Common.{ℕ, Bool, true, Option, none, some, Bytes, length}
use bspd.Json.Value.{Object}

-- `proto` and `data` are `none` where the pointer is NULL.
pub record Bared : Type 0 where
  pub proto : Option Object
  pub data_of : Option Bytes
  pub expectation : ℕ
  pub proced : ℕ
  pub bared : Bool

unfoldable pub internal_bare_data : Bared → Bytes → Bared
internal_bare_data b s = b

unfoldable pub websocket_bare_data : Bared → Bytes → Bared
websocket_bare_data b s = b

-- The whole chunk is the segment.
unfoldable pub normal_bare_data : Bared → Bytes → Bared
normal_bare_data b s = record b { data_of = some s; proto = none; proced = length s; bared = true }

-- The packers of the protocols that write nothing.
unfoldable pub websocket_pack_data : Bared → Bytes → Bared
websocket_pack_data b s = b
