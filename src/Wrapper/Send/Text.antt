-- ===== src/Wrapper/Send/Text.antt =====
-- A string that a script sends with wrapper/standard.c, up to the server that receives it.
use bspd.Script.Lua.{Lua}
use bspd.Server.Link.{Link}
use bspd.Server.Session.{Session}
use bspd.Server.Task.{Task}
