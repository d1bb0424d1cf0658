-- ===== src/Server/Link.antt =====
-- A connection with its server: the slot for the frame at the descriptor (`BSPD_FD_ADD_BARED`),
-- and the properties of the server that accepted it (`BSPD_SERVER_PROP`).
use bspd.Common.{Bool, Option, Bytes}
use bspd.Protocol.Frame.{Bared}
use bspd.Server.Packet.{Conn}

pub data ServerType : Type 0 where
  internal normal http websocket : ServerType

pub record ServerProp : Type 0 where
  pub type_of : ServerType
  pub packets : Bool
  pub lua_hook_connect : Option Bytes
  pub lua_hook_disconnect : Option Bytes
  pub lua_hook_data : Option Bytes

-- `registered` is whether `bsp_get_fd` finds the descriptor. The debug output is left out.
pub record Link : Type 0 where
  pub conn : Conn
  pub registered : Bool
  pub prop : Option ServerProp
  pub frame : Option Bared
